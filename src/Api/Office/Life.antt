-- ===== src/Api/Office/Life.antt =====
-- Api.Office against the life of a grain sale (Grain.Life).
use agri_flow.Prelude.{◌≡◌, refl, arith, some, ℕ, none, String, Option, List}
use agri_flow.Prelude.Table.{lookup}
use agri_flow.Enums.{PaymentStatus}
use agri_flow.Models.{GrainSale, Db}
use agri_flow.Notify.{notify_user, notify_roles, audit}
use agri_flow.Purchase.Admit.{Request}
use agri_flow.Session.{Session, World}
use agri_flow.Permissions.{Claims}
use agri_flow.Purchase.{purchase_seeds, update_purchase_status}
use agri_flow.Grain.{
  create_grain_sale, review_grain_sale, pay_grain_sale, procure_grain, update_yield,
  inspect_booking,
}
use agri_flow.Grain.Life.{SalesGrow, IsGrown, IsGrown-frame}
use agri_flow.Grain.Life.Handlers.{
  create_grain_sale-IsGrown, review_grain_sale-IsGrown, pay_grain_sale-IsGrown,
  procure_grain-IsGrown, update_yield-IsGrown, inspect_booking-IsGrown,
}
use agri_flow.Ledger.{mark_transaction_paid}
use agri_flow.Session.Boundary.{get_db-keeps}
use agri_flow.Api.Keeps.{Leads, answered-Leads, endpoint-Leads, Stepwise, requests-Stepwise}
use agri_flow.Api.Office.{OfficeCall, serve_office}

purchase_seeds-frame :
    (i : ℕ) (r : Request) (k l : ℕ) (invoice : String) (s : Session)
    → (purchase_seeds i r k l invoice s).1.db.grain_sales ≡ s.db.grain_sales
unfolding purchase_seeds notify_roles audit
purchase_seeds-frame i r k l invoice s = ground arith

update_purchase_status-frame :
    (i p : ℕ) (new_status : PaymentStatus) (s : Session)
    → (update_purchase_status i p new_status s).1.db.grain_sales ≡ s.db.grain_sales
unfolding update_purchase_status notify_user audit
update_purchase_status-frame i p new_status s = ground arith

mark_transaction_paid-frame :
    (i t : ℕ) (description : Option String) (s : Session)
    → (mark_transaction_paid i t description s).1.db.grain_sales ≡ s.db.grain_sales
unfolding mark_transaction_paid notify_user audit
mark_transaction_paid-frame i t description s = ground arith

module _ (decode_token : String → Option Claims) (sale_id : ℕ) (old : GrainSale) where
  abbrev At : Db → Type 0
  At d = lookup sale_id d.grain_sales ≡ some old

  serve_office-IsGrown :
      (c : ℕ × Option String × OfficeCall)
      → Leads At (IsGrown sale_id old) (serve_office decode_token c)
  unfolding serve_office
  serve_office-IsGrown
        (today, token, OfficeCall.create_grain_sale_call grain_type grade raw crop k) =
      endpoint-Leads At (IsGrown sale_id old) decode_token token _ _ _ λ i user v.
        answered-Leads At (IsGrown sale_id old)
          (create_grain_sale i grain_type grade raw crop none none k)
          λ s a h. create_grain_sale-IsGrown sale_id old i grain_type grade raw crop none none k s
  serve_office-IsGrown
        (today, token, OfficeCall.review_grain_sale_call sale b good bad reason approve k) =
      endpoint-Leads At (IsGrown sale_id old) decode_token token _ _ _ λ i user v.
        answered-Leads At (IsGrown sale_id old)
          (review_grain_sale today i sale b good bad reason approve k)
          λ s a h. review_grain_sale-IsGrown sale_id old today i sale b good bad reason approve k s
  serve_office-IsGrown (today, token, OfficeCall.pay_grain_sale_call sale reference k) =
      endpoint-Leads At (IsGrown sale_id old) decode_token token _ _ _ λ i user v.
        answered-Leads At (IsGrown sale_id old) (pay_grain_sale i sale reference k)
          λ s a h. pay_grain_sale-IsGrown sale_id old i sale reference k s
  serve_office-IsGrown
        (today, token, OfficeCall.procure_grain_call farmer grain_type grade raw good wastage k) =
      endpoint-Leads At (IsGrown sale_id old) decode_token token _ _ _ λ i user v.
        answered-Leads At (IsGrown sale_id old)
          (procure_grain today i farmer grain_type grade raw good wastage k)
          λ s a h.
            procure_grain-IsGrown sale_id old today i farmer grain_type grade raw good wastage k s
  serve_office-IsGrown (today, token, OfficeCall.update_grain_yield_call sale good wastage) =
      endpoint-Leads At (IsGrown sale_id old) decode_token token _ _ _ λ i user v.
        answered-Leads At (IsGrown sale_id old) (update_yield today i sale good wastage)
          λ s a h. update_yield-IsGrown sale_id old today i sale good wastage s
  serve_office-IsGrown (today, token, OfficeCall.inspect_booking_call b good bad reason notes k) =
      endpoint-Leads At (IsGrown sale_id old) decode_token token _ _ _ λ i user v.
        answered-Leads At (IsGrown sale_id old) (inspect_booking today i b good bad reason notes k)
          λ s a h. inspect_booking-IsGrown sale_id old today i b good bad reason notes k s
  serve_office-IsGrown (today, token, OfficeCall.create_purchase_call r k l invoice) =
      endpoint-Leads At (IsGrown sale_id old) decode_token token _ _ _ λ i user v.
        answered-Leads At (IsGrown sale_id old) (purchase_seeds i r k l invoice)
          λ s a h. IsGrown-frame sale_id old s.db _ (purchase_seeds-frame i r k l invoice s)
  serve_office-IsGrown (today, token, OfficeCall.update_purchase_status_call p new_status) =
      endpoint-Leads At (IsGrown sale_id old) decode_token token _ _ _ λ i user v.
        answered-Leads At (IsGrown sale_id old) (update_purchase_status i p new_status)
          λ s a h. IsGrown-frame sale_id old s.db _ (update_purchase_status-frame i p new_status s)
  serve_office-IsGrown (today, token, OfficeCall.pay_transaction_call t description) =
      endpoint-Leads At (IsGrown sale_id old) decode_token token _ _ _ λ i user v.
        answered-Leads At (IsGrown sale_id old) (mark_transaction_paid i t description)
          λ s a h. IsGrown-frame sale_id old s.db _ (mark_transaction_paid-frame i t description s)

-- In any sequence of requests at the office, each request leaves every committed grain sale in the
-- table and makes of it what the table of the sale's states allows in one step: its status stays or
-- goes by one step (pending to received; pending or received to approved or rejected; approved to
-- paid), its farmer, crop, grain and grade stay, and if it was rejected or paid no column changes.
-- The decoding of tokens is arbitrary.
pub office-SalesGrow :
    (decode_token : String → Option Claims) (calls : List (ℕ × Option String × OfficeCall))
    (w : World)
    → Stepwise SalesGrow (serve_office decode_token) calls w
unfolding SalesGrow
office-SalesGrow decode_token =
    requests-Stepwise SalesGrow (serve_office decode_token) λ c w sale_id old row.
      get_db-keeps (serve_office decode_token c) w (IsGrown sale_id old)
        (λ a e. serve_office-IsGrown decode_token sale_id old c _ a e row)
        (IsGrown-frame sale_id old w.committed w.committed refl row)

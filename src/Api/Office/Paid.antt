-- ===== src/Api/Office/Paid.antt =====
-- Api.Office against the ledger's credits for grain sales (services/grain_sale_service.py).
use agri_flow.Prelude.{ℕ, none, String, Option, List}
use agri_flow.Session.{World}
use agri_flow.Permissions.{Claims}
use agri_flow.Purchase.{purchase_seeds, update_purchase_status}
use agri_flow.Grain.{
  create_grain_sale, review_grain_sale, pay_grain_sale, procure_grain, update_yield,
  inspect_booking,
}
use agri_flow.Grain.Payout.{IsPaidOnce}
use agri_flow.Grain.Paid.{
  create_grain_sale-IsPaidOnce, review_grain_sale-IsPaidOnce, pay_grain_sale-IsPaidOnce,
  procure_grain-IsPaidOnce, update_yield-IsPaidOnce, inspect_booking-IsPaidOnce,
}
use agri_flow.Ledger.{mark_transaction_paid}
use agri_flow.Ledger.Payouts.{
  mark_transaction_paid-IsPaidOnce, purchase_seeds-IsPaidOnce, update_purchase_status-IsPaidOnce,
}
use agri_flow.Api.{requests}
use agri_flow.Api.Keeps.{Keeps, answered-Keeps, endpoint-Keeps, requests-Keeps}
use agri_flow.Api.Office.{OfficeCall, serve_office}

module _ (decode_token : String → Option Claims) where
  serve_office-Keeps :
      (c : ℕ × Option String × OfficeCall) → Keeps IsPaidOnce (serve_office decode_token c)
  unfolding serve_office
  serve_office-Keeps (today, token, OfficeCall.create_grain_sale_call grain_type grade raw crop k) =
      endpoint-Keeps IsPaidOnce decode_token token _ _ _ λ i user v.
        answered-Keeps IsPaidOnce (create_grain_sale i grain_type grade raw crop none none k)
          λ s a h. create_grain_sale-IsPaidOnce i grain_type grade raw crop none none k s
  serve_office-Keeps
        (today, token, OfficeCall.review_grain_sale_call sale b good bad reason approve k) =
      endpoint-Keeps IsPaidOnce decode_token token _ _ _ λ i user v.
        answered-Keeps IsPaidOnce (review_grain_sale today i sale b good bad reason approve k)
          λ s a h. review_grain_sale-IsPaidOnce today i sale b good bad reason approve k s
  serve_office-Keeps (today, token, OfficeCall.pay_grain_sale_call sale reference k) =
      endpoint-Keeps IsPaidOnce decode_token token _ _ _ λ i user v.
        answered-Keeps IsPaidOnce (pay_grain_sale i sale reference k)
          λ s a h. pay_grain_sale-IsPaidOnce i sale reference k s a h
  serve_office-Keeps
        (today, token, OfficeCall.procure_grain_call farmer grain_type grade raw good wastage k) =
      endpoint-Keeps IsPaidOnce decode_token token _ _ _ λ i user v.
        answered-Keeps IsPaidOnce (procure_grain today i farmer grain_type grade raw good wastage k)
          λ s a h. procure_grain-IsPaidOnce today i farmer grain_type grade raw good wastage k s
  serve_office-Keeps (today, token, OfficeCall.update_grain_yield_call sale good wastage) =
      endpoint-Keeps IsPaidOnce decode_token token _ _ _ λ i user v.
        answered-Keeps IsPaidOnce (update_yield today i sale good wastage)
          λ s a h. update_yield-IsPaidOnce today i sale good wastage s
  serve_office-Keeps (today, token, OfficeCall.inspect_booking_call b good bad reason notes k) =
      endpoint-Keeps IsPaidOnce decode_token token _ _ _ λ i user v.
        answered-Keeps IsPaidOnce (inspect_booking today i b good bad reason notes k)
          λ s a h. inspect_booking-IsPaidOnce today i b good bad reason notes k s
  serve_office-Keeps (today, token, OfficeCall.create_purchase_call r k l invoice) =
      endpoint-Keeps IsPaidOnce decode_token token _ _ _ λ i user v.
        answered-Keeps IsPaidOnce (purchase_seeds i r k l invoice)
          λ s a h. purchase_seeds-IsPaidOnce i r k l invoice s
  serve_office-Keeps (today, token, OfficeCall.update_purchase_status_call p new_status) =
      endpoint-Keeps IsPaidOnce decode_token token _ _ _ λ i user v.
        answered-Keeps IsPaidOnce (update_purchase_status i p new_status)
          λ s a h. update_purchase_status-IsPaidOnce i p new_status s
  serve_office-Keeps (today, token, OfficeCall.pay_transaction_call t description) =
      endpoint-Keeps IsPaidOnce decode_token token _ _ _ λ i user v.
        answered-Keeps IsPaidOnce (mark_transaction_paid i t description)
          λ s a h. mark_transaction_paid-IsPaidOnce i t description s

-- From committed rows that satisfy `IsPaidOnce`, any sequence of requests at the office commits
-- rows that satisfy it: the credits in the ledger for a sale are one entry of its pinned amount
-- where the sale is paid, and none otherwise. The decoding of tokens is arbitrary.
pub office-IsPaidOnce :
    (decode_token : String → Option Claims) (calls : List (ℕ × Option String × OfficeCall))
    (w : World)
    → IsPaidOnce w.committed
    → IsPaidOnce (requests (serve_office decode_token) calls w).committed
office-IsPaidOnce decode_token calls w inv =
    requests-Keeps IsPaidOnce (serve_office decode_token) (serve_office-Keeps decode_token) calls w
      inv

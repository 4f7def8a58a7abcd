-- ===== src/Api/Office.antt =====
-- api/v1/grain_sales.py, api/v1/seed_purchases.py and api/v1/transactions.py: the requests that
-- change sales, purchases and the ledger, and the inspection of api/v1/bookings.py.
pub mod Paid
pub mod Life
pub mod Shop
use agri_flow.Prelude.{ℕ, String, Bool, true, ◌&&◌, Option, none, [], ◌∷◌}
use agri_flow.Prelude.Decimal.{Decimal}
use agri_flow.Enums.{GrainGrade, PaymentStatus}
use agri_flow.Session.{Action}
use agri_flow.Permissions.{Claims}
use agri_flow.Purchase.{purchase_seeds, update_purchase_status}
use agri_flow.Purchase.Admit.{Request}
use agri_flow.Grain.{
  create_grain_sale, review_grain_sale, pay_grain_sale, procure_grain, update_yield,
  inspect_booking,
}
use agri_flow.Ledger.{mark_transaction_paid}
use agri_flow.Api.{answered, endpoint}
use agri_flow.Api.Desk.{gt_zero, ge_zero}

-- An operation with its body; the last arguments are the keys drawn for the new rows.
pub data OfficeCall : Type 0 where
  create_grain_sale_call : String → GrainGrade → Decimal → Option ℕ → ℕ → OfficeCall
  review_grain_sale_call : ℕ → ℕ → Decimal → Decimal → Option String → Bool → ℕ → OfficeCall
  pay_grain_sale_call : ℕ → Option String → ℕ → OfficeCall
  procure_grain_call : ℕ → String → GrainGrade → Decimal → Decimal → Decimal → ℕ → OfficeCall
  update_grain_yield_call : ℕ → Decimal → Decimal → OfficeCall
  inspect_booking_call : ℕ → Decimal → Decimal → Option String → Option String → ℕ → OfficeCall
  create_purchase_call : Request → ℕ → ℕ → String → OfficeCall
  update_purchase_status_call : ℕ → PaymentStatus → OfficeCall
  pay_transaction_call : ℕ → Option String → OfficeCall

module _ (decode_token : String → Option Claims) where
  -- A call on its day, with the bearer token that it came with.
  unfoldable pub serve_office : ℕ × Option String × OfficeCall → Action (Unit {0})
  serve_office (today, token, OfficeCall.create_grain_sale_call grain_type grade raw crop k) =
      endpoint decode_token token ("grain_sale.create" ∷ []) (gt_zero raw)
        (λ i user. answered (create_grain_sale i grain_type grade raw crop none none k))
  serve_office (today, token, OfficeCall.review_grain_sale_call sale b good bad reason approve k) =
      endpoint decode_token token ("grain_sale.review" ∷ []) (ge_zero good && ge_zero bad)
        (λ i user. answered (review_grain_sale today i sale b good bad reason approve k))
  serve_office (today, token, OfficeCall.pay_grain_sale_call sale reference k) =
      endpoint decode_token token ("grain_sale.pay" ∷ []) true
        (λ i user. answered (pay_grain_sale i sale reference k))
  serve_office
        (today, token, OfficeCall.procure_grain_call farmer grain_type grade raw good wastage k) =
      endpoint decode_token token ("procurement.manage" ∷ [])
        (gt_zero raw && (ge_zero good && ge_zero wastage))
        (λ i user. answered (procure_grain today i farmer grain_type grade raw good wastage k))
  serve_office (today, token, OfficeCall.update_grain_yield_call sale good wastage) =
      endpoint decode_token token ("procurement.manage" ∷ []) (ge_zero good && ge_zero wastage)
        (λ i user. answered (update_yield today i sale good wastage))
  serve_office (today, token, OfficeCall.inspect_booking_call b good bad reason notes k) =
      endpoint decode_token token ("grain_sale.inspect" ∷ []) (ge_zero good && ge_zero bad)
        (λ i user. answered (inspect_booking today i b good bad reason notes k))
  serve_office (today, token, OfficeCall.create_purchase_call r k l invoice) =
      endpoint decode_token token ("seed.purchase" ∷ []) (gt_zero r.quantity_kg)
        (λ i user. answered (purchase_seeds i r k l invoice))
  serve_office (today, token, OfficeCall.update_purchase_status_call p new_status) =
      endpoint decode_token token ("seed_purchase.review" ∷ []) true
        (λ i user. answered (update_purchase_status i p new_status))
  serve_office (today, token, OfficeCall.pay_transaction_call t description) =
      endpoint decode_token token ("transaction.pay" ∷ []) true
        (λ i user. answered (mark_transaction_paid i t description))

-- ===== src/Purchase.antt =====
-- services/purchase_service.py: the purchase of seeds, and the review of its payment.
pub mod Admit
pub mod Stock
pub mod Hold
pub mod Review
use agri_flow.Prelude.{
  ℕ, String, Bool, true, false, not, ◌&&◌, Option, none, some, ◌==◌, is_id, if◌then◌else◌,
}
use agri_flow.Prelude.Int.{pos, ◌+ℤ◌, ◌-ℤ◌, max_ℤ}
use agri_flow.Prelude.Decimal.{Decimal, quantize_product}
use agri_flow.Prelude.Table.{Table, lookup, insert, update_where}
use agri_flow.Errors.{Error}
use agri_flow.Exec.{pure, raise_if, when, ◌>>=◌, ◌>>◌}
use agri_flow.Exec.Pure
use agri_flow.Enums.{
  PaymentStatus, TransactionDirection, TransactionStatus, TransactionReferenceType,
  NotificationType,
}
use agri_flow.Models.{Seed, SeedPurchase, Transaction, Db}
use agri_flow.Session.{Action, query, write, add}
use agri_flow.Notify.{notify_user, audit}
use Admit.{Request, Order, admit, is_new_invoice}

-- stock moved onto hold
abbrev pub hold : Decimal → Seed → Seed
hold q seed = record seed { stock_kg = seed.stock_kg -ℤ q; on_hold_kg = seed.on_hold_kg +ℤ q }

abbrev pub new_purchase : ℕ → Request → Order → String → SeedPurchase
new_purchase farmer_id r o invoice = record {
  farmer_id = farmer_id;
  seed_id = r.seed_id;
  warehouse_id = o.warehouse_id;
  quantity_kg = r.quantity_kg;
  price_per_kg = o.unit_price;
  total_amount = quantize_product o.unit_price r.quantity_kg;
  grade = o.grade;
  payment_method = r.payment_method;
  upi_id = r.upi_id;
  payment_status = PaymentStatus.pending;
  invoice_number = invoice;
  pickup_date = r.pickup_date;
}

-- The description is prose, and is left out.
abbrev pub purchase_debit : ℕ → SeedPurchase → Transaction
purchase_debit purchase_id p = record {
  reference_type = TransactionReferenceType.seed_purchase;
  reference_id = some purchase_id;
  farmer_id = p.farmer_id;
  amount = p.total_amount;
  transaction_id = none;
  direction = TransactionDirection.debit;
  status = TransactionStatus.pending;
  description = none;
  invoice_number = some p.invoice_number;
}

-- The keys of the two new rows and the invoice number are drawn by `uuid4`.
unfoldable pub purchase_seeds : ℕ → Request → ℕ → ℕ → String → Action SeedPurchase
unfolding notify_user audit
purchase_seeds farmer_id r purchase_id transaction_id invoice = do
  order ← query (admit r)
  let p : SeedPurchase = new_purchase farmer_id r order invoice
  write (λ d. record d { seeds = insert r.seed_id (hold r.quantity_kg order.seed) d.seeds })
  query (λ d. Pure.guard_not (not (is_new_invoice invoice d.purchases)) Error.integrity)
  add purchase_id p (λ d. d.purchases) (λ t d. record d { purchases = t })
  add transaction_id (purchase_debit purchase_id p) (λ d. d.transactions)
      (λ t d. record d { transactions = t })
  notify_user farmer_id "Seed purchase submitted" NotificationType.info "seed_purchase" purchase_id
  audit (some farmer_id) "seed_purchase.create" (some "seed_purchase") (some purchase_id)
  pure p

abbrev pub is_pending : PaymentStatus → Bool
is_pending PaymentStatus.pending = true
is_pending _ = false

abbrev pub is_failed : PaymentStatus → Bool
is_failed PaymentStatus.failed = true
is_failed _ = false

abbrev pub is_paid : PaymentStatus → Bool
is_paid PaymentStatus.paid = true
is_paid _ = false

abbrev pub same_payment : PaymentStatus → PaymentStatus → Bool
same_payment PaymentStatus.pending PaymentStatus.pending = true
same_payment PaymentStatus.paid PaymentStatus.paid = true
same_payment PaymentStatus.failed PaymentStatus.failed = true
same_payment _ _ = false

-- off hold, and back to stock where the purchase failed
abbrev pub settle : PaymentStatus → Decimal → Seed → Seed
settle new_status q seed = record seed {
  on_hold_kg = max_ℤ (pos 0) (seed.on_hold_kg -ℤ q);
  stock_kg = if is_failed new_status then seed.stock_kg +ℤ q else seed.stock_kg;
}

abbrev pub is_seed_purchase : TransactionReferenceType → Bool
is_seed_purchase TransactionReferenceType.seed_purchase = true
is_seed_purchase _ = false

abbrev pub is_purchase_entry : ℕ → Transaction → Bool
is_purchase_entry purchase_id t =
    is_seed_purchase t.reference_type && is_id purchase_id t.reference_id

abbrev pub completed : Transaction → Transaction
completed t = record t { status = TransactionStatus.completed }

unfoldable pub update_purchase_status : ℕ → ℕ → PaymentStatus → Action SeedPurchase
unfolding audit
update_purchase_status admin_id purchase_id new_status = do
  p ← query (λ d. Pure.found (lookup purchase_id d.purchases) Error.not_found)
  raise_if (not (is_pending p.payment_status) && not (same_payment new_status p.payment_status))
      Error.conflict
  let p' : SeedPurchase = record p { payment_status = new_status }
  write (λ d. record d { purchases = insert purchase_id p' d.purchases })
  when (is_pending p.payment_status && not (is_pending new_status)) do
    seed ← query (λ d. Pure.found (lookup p.seed_id d.seeds) Error.no_result)
    write
        (λ d. record d { seeds = insert p.seed_id (settle new_status p.quantity_kg seed) d.seeds })
  when (is_paid new_status) (
      write (λ d. record d {
        transactions = update_where (is_purchase_entry purchase_id) completed d.transactions;
      }))
  audit (some admin_id) "seed_purchase.status_update" (some "seed_purchase") (some purchase_id)
  pure p'

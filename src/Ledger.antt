-- ===== src/Ledger.antt =====
-- services/ledger_service.py: the payment of a transaction that waits.
pub mod Payouts
pub mod Stranded
use text.Mathlib.Text.{◌==◌ as str_eq}
use agri_flow.Prelude.{
  ℕ, String, Bool, true, false, ◌&&◌, Option, none, some, given_text, if◌then◌else◌,
}
use agri_flow.Prelude.Table.{Table, lookup, insert, update}
use agri_flow.Errors.{Error}
use agri_flow.Exec.{pure, raise_if, ◌>>=◌, ◌>>◌}
use agri_flow.Exec.Pure.{found}
use agri_flow.Enums.{PaymentStatus, TransactionReferenceType, TransactionStatus, NotificationType}
use agri_flow.Models.{SeedPurchase, Transaction, Db}
use agri_flow.Session.{Action, query, write}
use agri_flow.Notify.{notify_user, audit}

abbrev pub is_completed : TransactionStatus → Bool
is_completed TransactionStatus.completed = true
is_completed _ = false

abbrev pub has_failed : TransactionStatus → Bool
has_failed TransactionStatus.failed = true
has_failed _ = false

-- `SeedPurchase.__table__.update()`, where the entry is of a seed purchase
abbrev pub pay_purchase :
    TransactionReferenceType → Option ℕ → Table SeedPurchase → Table SeedPurchase
pay_purchase TransactionReferenceType.seed_purchase (some i) t =
    update i (λ p. record p { payment_status = PaymentStatus.paid }) t
pay_purchase _ _ t = t

unfoldable pub mark_transaction_paid : ℕ → ℕ → Option String → Action Transaction
unfolding notify_user audit
mark_transaction_paid actor_id transaction_id description = do
  txn ← query (λ d. found (lookup transaction_id d.transactions) Error.not_found)
  raise_if (is_completed txn.status) Error.conflict
  raise_if (has_failed txn.status) Error.invalid_state_transition
  let txn' : Transaction = record txn {
    status = TransactionStatus.completed;
    description = given_text description txn.description;
  }
  write (λ d. record d { transactions = insert transaction_id txn' d.transactions })
  write (λ d. record d { purchases = pay_purchase txn.reference_type txn.reference_id d.purchases })
  notify_user txn.farmer_id "Payment processed" NotificationType.success "transaction"
      transaction_id
  audit (some actor_id) "transaction.pay" (some "transaction") (some transaction_id)
  pure txn'

-- ===== src/Ledger/Stranded.antt =====
-- The payment of a seed purchase through the ledger, `mark_transaction_paid` of
-- services/ledger_service.py, against the seed's quantity on hold.
use agri_flow.Prelude.{ℕ, ◌≡◌, refl, ◌∙◌, inl, inr, String, Option, some, Bool-cases, ==_refl}
use agri_flow.Prelude.Int.{◌+ℤ◌, int_laws}
use agri_flow.Prelude.Table.{Table, lookup, update, lookup-update, sum_by, sum_by-update}
use agri_flow.Errors.{ok}
use agri_flow.Enums.{PaymentStatus, TransactionReferenceType}
use agri_flow.Models.{Seed, SeedPurchase, Transaction}
use agri_flow.Session.{Session}
use agri_flow.Notify.{audit}
use agri_flow.Ledger.{is_completed, has_failed, mark_transaction_paid}
use agri_flow.Purchase.{update_purchase_status}
use agri_flow.Purchase.Stock.{held_share, IsHeld, seed_fits}

abbrev pub pay : SeedPurchase → SeedPurchase
pay p = record p { payment_status = PaymentStatus.paid }

released :
    (j : ℕ) (p : SeedPurchase) (t : Table SeedPurchase)
    → lookup j t ≡ some p
    → p.payment_status ≡ PaymentStatus.pending
    → sum_by (held_share p.seed_id) t
      ≡ sum_by (held_share p.seed_id) (update j pay t) +ℤ p.quantity_kg
released j p t row wait =
    let e = sum_by-update (held_share p.seed_id) j pay p t row in
    grind (int_laws, rw (wait, ==_refl p.seed_id) at e)

-- a review of a purchase that is paid already leaves every seed alone
update_purchase_status-paid :
    (admin_id j : ℕ) (new_status : PaymentStatus) (s : Session) (p : SeedPurchase)
    → lookup j s.db.purchases ≡ some p
    → p.payment_status ≡ PaymentStatus.paid
    → (update_purchase_status admin_id j new_status s).1.db.seeds ≡ s.db.seeds
unfolding update_purchase_status audit
update_purchase_status-paid admin_id j PaymentStatus.pending s p row done = rw (row, done) refl
update_purchase_status-paid admin_id j PaymentStatus.paid s p row done = rw (row, done) refl
update_purchase_status-paid admin_id j PaymentStatus.failed s p row done = rw (row, done) refl

-- Where the quantity on hold of every seed is that of its pending purchases, and the ledger marks
-- the entry of a pending seed purchase as paid, the purchase is paid and the seed's row is as
-- before: its quantity on hold exceeds that of its pending purchases by the quantity of the
-- purchase. In any later state in which the purchase is as it was paid, no review of that purchase
-- changes a seed.
pub mark_transaction_paid_lem :
    (actor_id k : ℕ) (description : Option String) (s : Session) (t a : Transaction) (j : ℕ)
    (p : SeedPurchase) (seed : Seed)
    → IsHeld s.db
    → lookup k s.db.transactions ≡ some t
    → t.reference_type ≡ TransactionReferenceType.seed_purchase
    → t.reference_id ≡ some j
    → lookup j s.db.purchases ≡ some p
    → p.payment_status ≡ PaymentStatus.pending
    → lookup p.seed_id s.db.seeds ≡ some seed
    → (mark_transaction_paid actor_id k description s).0 ≡ ok a
    → let after = (mark_transaction_paid actor_id k description s).1.db in
      (lookup p.seed_id after.seeds ≡ some seed)
      × (lookup j after.purchases ≡ some (pay p))
      × (seed.on_hold_kg ≡ sum_by (held_share p.seed_id) after.purchases +ℤ p.quantity_kg)
      × ((admin_id : ℕ) (new_status : PaymentStatus) (later : Session)
          → lookup j later.db.purchases ≡ some (pay p)
          → (update_purchase_status admin_id j new_status later).1.db.seeds ≡ later.db.seeds)
unfolding mark_transaction_paid
mark_transaction_paid_lem actor_id k description s t a j p seed inv row kind own stored wait held
      h =
    let h₁ = rw row at h in
    rw row (elim (Bool-cases (is_completed t.status)) [
      | inl done ↦ absurd (cc (rw done at h₁))
      | inr waiting ↦
          let h₂ = rw waiting at h₁ in
          rw waiting (elim (Bool-cases (has_failed t.status)) [
            | inl failed ↦ absurd (cc (rw failed at h₂))
            | inr fine ↦
                rw (fine, kind, own)
                  (
                    held,
                    rw (lookup-update j j pay s.db.purchases, ==_refl j, stored) refl,
                    (seed_fits inv p.seed_id held).0 ∙ released j p s.db.purchases stored wait,
                    λ admin_id new_status later there.
                        update_purchase_status-paid admin_id j new_status later (pay p) there refl,
                  )
          ])
    ])

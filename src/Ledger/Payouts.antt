-- ===== src/Ledger/Payouts.antt =====
-- The other writers of the ledger, services/ledger_service.py and services/purchase_service.py,
-- against the credits of grain sales.
use agri_flow.Prelude.{ℕ, ◌≡◌, refl, inl, inr, not, ◌&&◌, String, Option, Bool-cases, Option-cases}
use agri_flow.Prelude.Table.{lookup, update_where}
use agri_flow.Exec.{Result-cases}
use agri_flow.Enums.{PaymentStatus}
use agri_flow.Models.{Db}
use agri_flow.Session.{Session}
use agri_flow.Ledger.{is_completed, has_failed, mark_transaction_paid}
use agri_flow.Purchase.{
  new_purchase, purchase_debit, purchase_seeds, is_pending, same_payment, is_paid,
  is_purchase_entry, completed, update_purchase_status,
}
use agri_flow.Purchase.Admit.{Request, admit, is_new_invoice}
use agri_flow.Grain.Payout.{
  IsPaidOnce, IsPaidOnce-same_entry, IsPaidOnce-same_entries, IsPaidOnce-other_entry,
}

pub mark_transaction_paid-IsPaidOnce :
    (actor_id k : ℕ) (description : Option String) (s : Session)
    → IsPaidOnce s.db
    → IsPaidOnce (mark_transaction_paid actor_id k description s).1.db
unfolding mark_transaction_paid
mark_transaction_paid-IsPaidOnce actor_id k description s inv =
    elim (Option-cases (lookup k s.db.transactions)) [
      | inl missing ↦ rw missing inv
      | inr (t, row) ↦ rw row (elim (Bool-cases (is_completed t.status)) [
        | inl done ↦ rw done inv
        | inr waiting ↦ rw waiting (elim (Bool-cases (has_failed t.status)) [
          | inl failed ↦ rw failed inv
          | inr fine ↦
              rw fine (IsPaidOnce-same_entry s.db k t _ inv row (λ i. refl) (λ i. refl) refl refl)
        ])
      ])
    ]

pub purchase_seeds-IsPaidOnce :
    (farmer_id : ℕ) (r : Request) (k l : ℕ) (invoice : String) (s : Session)
    → IsPaidOnce s.db
    → IsPaidOnce (purchase_seeds farmer_id r k l invoice s).1.db
unfolding purchase_seeds
purchase_seeds-IsPaidOnce farmer_id r k l invoice s inv = elim (Result-cases (admit r s.db)) [
  | inr (e, refused) ↦ rw refused inv
  | inl (o, passed) ↦ rw passed (elim (Bool-cases (is_new_invoice invoice s.db.purchases)) [
    | inr known ↦ rw known (record { sales = inv.sales })
    | inl new ↦ rw new (elim (Option-cases (lookup k s.db.purchases)) [
      | inr (old, taken) ↦ rw taken (record { sales = inv.sales })
      | inl fresh ↦ rw fresh (elim (Option-cases (lookup l s.db.transactions)) [
        | inr (old, taken) ↦ rw taken (record { sales = inv.sales })
        | inl free ↦ rw free (
            IsPaidOnce-other_entry s.db l (purchase_debit k (new_purchase farmer_id r o invoice))
              inv free refl refl refl)
      ])
    ])
  ])
]

entries :
    (k : ℕ) (d : Db) {e : Db}
    → IsPaidOnce d
    → e.transactions ≡ update_where (is_purchase_entry k) completed d.transactions
    → e.grain_sales ≡ d.grain_sales
    → IsPaidOnce e
entries k d inv a b =
    IsPaidOnce-same_entries d (is_purchase_entry k) completed inv (λ i t. refl) (λ i t. refl) a b

pub update_purchase_status-IsPaidOnce :
    (admin_id k : ℕ) (new_status : PaymentStatus) (s : Session)
    → IsPaidOnce s.db
    → IsPaidOnce (update_purchase_status admin_id k new_status s).1.db
unfolding update_purchase_status
update_purchase_status-IsPaidOnce admin_id k new_status s inv =
    elim (Option-cases (lookup k s.db.purchases)) [
      | inl missing ↦ rw missing inv
      | inr (p, row) ↦
          rw row
            (elim (Bool-cases (
              not (is_pending p.payment_status)
              && not (same_payment new_status p.payment_status))) [
                | inl settled ↦ rw settled inv
                | inr fine ↦
                    rw fine
                      (elim (Bool-cases
                        (is_pending p.payment_status && not (is_pending new_status))) [
                          | inr quiet ↦ rw quiet (elim (Bool-cases (is_paid new_status)) [
                            | inl now ↦ rw now (entries k s.db inv refl refl)
                            | inr later ↦ rw later (record { sales = inv.sales })
                          ])
                          | inl moving ↦
                              rw moving (elim (Option-cases (lookup p.seed_id s.db.seeds)) [
                                | inl absent ↦ rw absent (record { sales = inv.sales })
                                | inr (seed, stored) ↦
                                    rw stored (elim (Bool-cases (is_paid new_status)) [
                                      | inl now ↦ rw now (entries k s.db inv refl refl)
                                      | inr later ↦ rw later (record { sales = inv.sales })
                                    ])
                              ])
                        ])
              ])
    ]

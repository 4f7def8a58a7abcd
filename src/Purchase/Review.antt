-- ===== src/Purchase/Review.antt =====
-- `update_purchase_status` of services/purchase_service.py against the counters of a seed.
use agri_flow.Prelude.{
  ℕ, ◌≡◌, refl, sym, ◌∙◌, inl, inr, true, false, some, arith, Bool-cases, ◌==◌, ==_refl,
  Option-cases, if◌then◌else◌,
}
use agri_flow.Prelude.Int.{pos, ◌+ℤ◌, ◌-ℤ◌, ◌≤ℤ◌, max_ℤ-sub, int_laws}
use agri_flow.Prelude.Table.{
  lookup, insert, lookup-insert, sum_by, sum_by-insert, AllRows, AllRows-insert, AllRows-lookup,
}
use agri_flow.Errors.{ok}
use agri_flow.Enums.{PaymentStatus}
use agri_flow.Models.{Seed, SeedPurchase, Db}
use agri_flow.Session.{Session}
use agri_flow.Purchase.{
  settle, is_pending, is_failed, is_paid, same_payment, update_purchase_status,
}
use agri_flow.Purchase.Stock.{
  held_share, paid_share, FitsSeed, FitsSeed-put, FitsSeed-same, IsAmount, IsHeld, held_nonneg,
  on_shelf, supply, seed_fits,
}

-- The counters and the supply of a database whose seeds and purchases are these.
abbrev pub IsSettled : Db → Db → Type 0
IsSettled before after = IsHeld after × ((i : ℕ) → supply i after ≡ supply i before)

module _ (k : ℕ) (p : SeedPurchase) (new_status : PaymentStatus) (d : Db)
    (row : lookup k d.purchases ≡ some p) (inv : IsHeld d) where
  abbrev p' : SeedPurchase
  p' = record p { payment_status = new_status }

  amount : pos 0 ≤ℤ p.quantity_kg
  amount = AllRows-lookup IsAmount k p d.purchases inv.amounts row

  amounts_after : AllRows IsAmount (insert k p' d.purchases)
  amounts_after = AllRows-insert IsAmount k p' d.purchases inv.amounts amount

  held_nonneg_after : (i : ℕ) → pos 0 ≤ℤ sum_by (held_share i) (insert k p' d.purchases)
  held_nonneg_after i = held_nonneg i (insert k p' d.purchases) amounts_after

  -- the status written is the one that was there
  module _ (same : new_status ≡ p.payment_status) where
    held_same :
        (i : ℕ)
        → sum_by (held_share i) (insert k p' d.purchases) ≡ sum_by (held_share i) d.purchases
    held_same i = grind (int_laws, sum_by-insert (held_share i) k p' p d.purchases row)

    paid_same :
        (i : ℕ)
        → sum_by (paid_share i) (insert k p' d.purchases) ≡ sum_by (paid_share i) d.purchases
    paid_same i = grind (int_laws, sum_by-insert (paid_share i) k p' p d.purchases row)

    unsettled : (i : ℕ) → FitsSeed (insert k p' d.purchases) i (lookup i d.seeds)
    unsettled i =
        FitsSeed-same d.purchases (insert k p' d.purchases) i (lookup i d.seeds) (held_same i)
          (inv.seeds i)

    unsettled_all :
        {e : Db} → e.seeds ≡ d.seeds → e.purchases ≡ insert k p' d.purchases → IsSettled d e
    unsettled_all a b = (
      record { seeds = λ i. rw (a, b) (unsettled i); amounts = rw b amounts_after },
      λ i. rw (a, b, paid_same i),
    )

  module _ (was : is_pending p.payment_status ≡ true) (now : is_pending new_status ≡ false)
      (seed : Seed) (stored : lookup p.seed_id d.seeds ≡ some seed) where
    settled_fits :
        FitsSeed (insert k p' d.purchases) p.seed_id (some (settle new_status p.quantity_kg seed))
    settled_fits =
        let f = seed_fits inv p.seed_id stored in
        grind (
          int_laws,
          ==_refl p.seed_id,
          f,
          amount,
          held_nonneg_after p.seed_id,
          sum_by-insert (held_share p.seed_id) k p' p d.purchases row,
          max_ℤ-sub seed.on_hold_kg p.quantity_kg,
        )

    settled :
        (i : ℕ)
        → FitsSeed
            (insert k p' d.purchases)
            i
            (lookup i (insert p.seed_id (settle new_status p.quantity_kg seed) d.seeds))
    settled i =
        FitsSeed-put p.seed_id i (settle new_status p.quantity_kg seed) d.seeds d.purchases
          (insert k p' d.purchases) settled_fits
          (λ apart. grind (int_laws, apart, sum_by-insert (held_share i) k p' p d.purchases row))
          (inv.seeds i)

    not_paid_before : is_paid p.payment_status ≡ false
    not_paid_before = ground arith

    paid_apart :
        (i : ℕ)
        → (p.seed_id == i) ≡ false
        → sum_by (paid_share i) (insert k p' d.purchases) ≡ sum_by (paid_share i) d.purchases
    paid_apart i apart =
        grind
          (int_laws, not_paid_before, apart, sum_by-insert (paid_share i) k p' p d.purchases row)

    paid_here :
        (i : ℕ)
        → (p.seed_id == i) ≡ true
        → sum_by (paid_share i) (insert k p' d.purchases)
          ≡ sum_by (paid_share i) d.purchases
            +ℤ (if is_paid new_status then p.quantity_kg else pos 0)
    paid_here i here =
        grind (int_laws, not_paid_before, here, sum_by-insert (paid_share i) k p' p d.purchases row)

    on_hold_enough : p.quantity_kg ≤ℤ seed.on_hold_kg
    on_hold_enough =
        let f = seed_fits inv p.seed_id stored in
        grind (
          int_laws,
          ==_refl p.seed_id,
          f,
          held_nonneg_after p.seed_id,
          sum_by-insert (held_share p.seed_id) k p' p d.purchases row,
        )

    -- the seed's row gives up what the purchase now has, and nothing where the payment failed
    shelf_settled :
        on_shelf (some (settle new_status p.quantity_kg seed))
          +ℤ (if is_paid new_status then p.quantity_kg else pos 0)
        ≡ on_shelf (some seed)
    shelf_settled =
        rw (max_ℤ-sub seed.on_hold_kg p.quantity_kg on_hold_enough) (split new_status now)
      where
        split :
            (x : PaymentStatus)
            → is_pending x ≡ false
            → (if is_failed x then seed.stock_kg +ℤ p.quantity_kg else seed.stock_kg)
                +ℤ (seed.on_hold_kg -ℤ p.quantity_kg)
                +ℤ (if is_paid x then p.quantity_kg else pos 0)
              ≡ seed.stock_kg +ℤ seed.on_hold_kg
        split PaymentStatus.pending e = cc
        split PaymentStatus.paid e = omega int_laws
        split PaymentStatus.failed e = omega int_laws

    settled_supply :
        (i : ℕ)
        → on_shelf (lookup i (insert p.seed_id (settle new_status p.quantity_kg seed) d.seeds))
            +ℤ sum_by (paid_share i) (insert k p' d.purchases)
          ≡ supply i d
    settled_supply i = rw lookup-insert (elim (Bool-cases (p.seed_id == i)) [
      | inl here ↦
          let own : lookup i d.seeds ≡ some seed = ground (arith, stored) in
          rw (here, paid_here i here, own) (grind (int_laws, shelf_settled))
      | inr apart ↦ rw (apart, paid_apart i apart)
    ])

    IsSettled-all :
        {e : Db}
        → e.seeds ≡ insert p.seed_id (settle new_status p.quantity_kg seed) d.seeds
        → e.purchases ≡ insert k p' d.purchases
        → IsSettled d e
    IsSettled-all a b = (
      record { seeds = λ i. rw (a, b) (settled i); amounts = rw b amounts_after },
      λ i. rw (a, b) (settled_supply i),
    )

same_payment-eq : (a b : PaymentStatus) → same_payment a b ≡ true → a ≡ b
same_payment-eq PaymentStatus.pending b h = ground arith
same_payment-eq PaymentStatus.paid b h = ground arith
same_payment-eq PaymentStatus.failed b h = ground arith

is_pending-eq : (a : PaymentStatus) → is_pending a ≡ true → a ≡ PaymentStatus.pending
is_pending-eq PaymentStatus.pending h = refl
is_pending-eq PaymentStatus.paid h = cc
is_pending-eq PaymentStatus.failed h = cc

-- A review of a purchase that goes through keeps each seed's quantity on hold that of its pending
-- purchases and its stock not negative, and keeps for each seed the sum of what is in stock, on
-- hold and paid for, whether the purchase was paid, failed or left as it was.
pub update_purchase_status-IsHeld :
    (admin_id k : ℕ) (new_status : PaymentStatus) (s : Session) (q : SeedPurchase)
    → IsHeld s.db
    → (update_purchase_status admin_id k new_status s).0 ≡ ok q
    → IsSettled s.db (update_purchase_status admin_id k new_status s).1.db
unfolding update_purchase_status
update_purchase_status-IsHeld admin_id k new_status s q inv h =
    elim (Option-cases (lookup k s.db.purchases)) [
      | inl missing ↦ absurd (cc (rw missing at h))
      | inr (p, row) ↦
          let h₁ = rw row at h in
          rw row (elim (Bool-cases (is_pending p.payment_status)) [
            | inr done ↦
                let h₂ = rw done at h₁ in
                rw done (elim (Bool-cases (same_payment new_status p.payment_status)) [
                  | inr differs ↦ absurd (cc (rw differs at h₂))
                  | inl same ↦
                      let e = same_payment-eq new_status p.payment_status same in
                      rw same (elim (Bool-cases (is_paid new_status)) [
                        | inl paid ↦ rw paid (unsettled_all k p new_status s.db row inv e refl refl)
                        | inr unpaid ↦
                            rw unpaid (unsettled_all k p new_status s.db row inv e refl refl)
                      ])
                ])
            | inl was ↦
                let h₂ = rw was at h₁ in
                rw was (elim (Bool-cases (is_pending new_status)) [
                  | inl still ↦
                      let e : new_status ≡ p.payment_status =
                        is_pending-eq new_status still ∙ sym (is_pending-eq p.payment_status was) in
                      rw still (elim (Bool-cases (is_paid new_status)) [
                        | inl paid ↦ rw paid (unsettled_all k p new_status s.db row inv e refl refl)
                        | inr unpaid ↦
                            rw unpaid (unsettled_all k p new_status s.db row inv e refl refl)
                      ])
                  | inr now ↦
                      let h₃ = rw now at h₂ in
                      rw now (elim (Option-cases (lookup p.seed_id s.db.seeds)) [
                        | inl missing ↦ absurd (cc (rw missing at h₃))
                        | inr (seed, stored) ↦ rw stored (elim (Bool-cases (is_paid new_status)) [
                          | inl paid ↦ rw paid (
                              IsSettled-all k p new_status s.db row inv was now seed stored refl
                                refl)
                          | inr unpaid ↦ rw unpaid (
                              IsSettled-all k p new_status s.db row inv was now seed stored refl
                                refl)
                        ])
                      ])
                ])
          ])
    ]

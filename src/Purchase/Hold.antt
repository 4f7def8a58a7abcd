-- ===== src/Purchase/Hold.antt =====
-- `purchase_seeds` of services/purchase_service.py against the counters of a seed.
pub mod Rows
use agri_flow.Prelude.{
  ℕ, ◌≡◌, refl, inl, inr, String, none, some, arith, Bool-cases, ◌==◌, ==_refl, Option-cases,
}
use agri_flow.Prelude.Int.{pos, ◌+ℤ◌, ◌≤ℤ◌, int_laws}
use agri_flow.Prelude.Table.{
  lookup, insert, lookup-insert, sum_by, sum_by-insert_new, AllRows-insert,
}
use agri_flow.Errors.{ok}
use agri_flow.Exec.{Result-cases}
use agri_flow.Models.{SeedPurchase, Db}
use agri_flow.Session.{Session}
use agri_flow.Purchase.{hold, new_purchase, purchase_debit, purchase_seeds}
use agri_flow.Purchase.Admit.{Request, Order, is_new_invoice, admit}
use agri_flow.Purchase.Admit.Facts.{Admitted, admit-ok}
use agri_flow.Purchase.Stock.{
  held_share, paid_share, FitsSeed, FitsSeed-put, IsAmount, IsHeld, on_shelf, supply, seed_fits,
}

module _ (farmer_id : ℕ) (r : Request) (o : Order) (k : ℕ) (invoice : String) (d : Db)
    (adm : Admitted r d o) (fresh : lookup k d.purchases ≡ none) where
  abbrev p : SeedPurchase
  p = new_purchase farmer_id r o invoice

  fits_after :
      pos 0 ≤ℤ r.quantity_kg
      → IsHeld d
      → (i : ℕ)
      → FitsSeed
          (insert k p d.purchases)
          i
          (lookup i (insert r.seed_id (hold r.quantity_kg o.seed) d.seeds))
  fits_after n inv i =
      FitsSeed-put r.seed_id i (hold r.quantity_kg o.seed) d.seeds d.purchases
        (insert k p d.purchases)
        (let f = seed_fits inv r.seed_id adm.stored in
          (
            rw (sum_by-insert_new (held_share r.seed_id) k p d.purchases fresh, ==_refl, f.0),
            omega (int_laws, adm.in_stock),
          ))
        (λ apart.
          rw (sum_by-insert_new (held_share i) k p d.purchases fresh, apart) (grind int_laws))
        (inv.seeds i)

  supply_after :
      (i : ℕ)
      → on_shelf (lookup i (insert r.seed_id (hold r.quantity_kg o.seed) d.seeds))
          +ℤ sum_by (paid_share i) (insert k p d.purchases)
        ≡ supply i d
  supply_after i =
      rw (sum_by-insert_new (paid_share i) k p d.purchases fresh, lookup-insert)
        (elim (Bool-cases (r.seed_id == i)) [
          | inl here ↦
              let row : lookup i d.seeds ≡ some o.seed = ground (arith, adm.stored) in
              rw (here, row) (grind int_laws)
          | inr apart ↦ rw apart (grind int_laws)
        ])

-- What a purchase that went through has written.
pub record Bought (farmer_id : ℕ) (r : Request) (k t : ℕ) (invoice : String) (before after : Db)
    (p : SeedPurchase) : Type 0 where
  pub order : Order
  pub admitted : Admitted r before order
  pub fresh : lookup k before.purchases ≡ none
  pub purchase : p ≡ new_purchase farmer_id r order invoice
  pub fresh_entry : lookup t before.transactions ≡ none
  pub seeds : after.seeds ≡ insert r.seed_id (hold r.quantity_kg order.seed) before.seeds
  pub purchases : after.purchases ≡ insert k p before.purchases
  pub transactions : after.transactions ≡ insert t (purchase_debit k p) before.transactions

pub purchase_seeds-Bought :
    (farmer_id : ℕ) (r : Request) (k t : ℕ) (invoice : String) (s : Session) (p : SeedPurchase)
    → (purchase_seeds farmer_id r k t invoice s).0 ≡ ok p
    → Bought farmer_id r k t invoice s.db (purchase_seeds farmer_id r k t invoice s).1.db p
unfolding purchase_seeds
purchase_seeds-Bought farmer_id r k t invoice s p h = elim (Result-cases (admit r s.db)) [
  | inr (e, refused) ↦ absurd (cc (rw refused at h))
  | inl (o, passed) ↦
      let h₁ = rw passed at h in
      elim (Bool-cases (is_new_invoice invoice s.db.purchases)) [
        | inr used ↦ absurd (cc (rw used at h₁))
        | inl unused ↦
            let h₂ = rw unused at h₁ in
            elim (Option-cases (lookup k s.db.purchases)) [
              | inr (old, taken) ↦ absurd (cc (rw taken at h₂))
              | inl fresh ↦
                  let h₃ = rw fresh at h₂ in
                  elim (Option-cases (lookup t s.db.transactions)) [
                    | inr (old, taken) ↦ absurd (cc (rw taken at h₃))
                    | inl fresh_entry ↦
                        let e : p ≡ new_purchase farmer_id r o invoice =
                          cc (rw fresh_entry at h₃) in
                        rw (passed, unused, fresh, fresh_entry)
                          (record {
                            order = o;
                            admitted = admit-ok r s.db o passed;
                            fresh = fresh;
                            fresh_entry = fresh_entry;
                            purchase = e;
                            seeds = refl;
                            purchases = rw e;
                            transactions = rw e;
                          })
                  ]
            ]
      ]
]

-- A purchase of a quantity that is not negative and that goes through keeps each seed's quantity on
-- hold that of its pending purchases and its stock not negative, and keeps for each seed the sum of
-- what is in stock, on hold and paid for.
pub purchase_seeds-IsHeld :
    (farmer_id : ℕ) (r : Request) (k t : ℕ) (invoice : String) (s : Session) (p : SeedPurchase)
    → pos 0 ≤ℤ r.quantity_kg
    → IsHeld s.db
    → (purchase_seeds farmer_id r k t invoice s).0 ≡ ok p
    → let after = (purchase_seeds farmer_id r k t invoice s).1.db in
      IsHeld after × ((i : ℕ) → supply i after ≡ supply i s.db)
purchase_seeds-IsHeld farmer_id r k t invoice s p n inv h =
    let b = purchase_seeds-Bought farmer_id r k t invoice s p h in
    let f = fits_after farmer_id r b.order k invoice s.db b.admitted b.fresh n inv in
    let g = supply_after farmer_id r b.order k invoice s.db b.admitted b.fresh in
    (
      record {
        seeds = λ i. rw (b.seeds, b.purchases, b.purchase) (f i);
        amounts =
            rw (b.purchases, b.purchase)
              (AllRows-insert IsAmount k (new_purchase farmer_id r b.order invoice) s.db.purchases
                inv.amounts n);
      },
      λ i. rw (b.seeds, b.purchases, b.purchase) (g i),
    )

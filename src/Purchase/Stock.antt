-- ===== src/Purchase/Stock.antt =====
-- What a seed's counters stand for (services/purchase_service.py): the quantity on hold is that of
-- its purchases that wait for payment; the supply is what is in stock, on hold or paid for.
use mathlib.Core.Path.{subst}
use agri_flow.Prelude.{
  ℕ, ◌≡◌, inl, inr, false, Option, none, some, arith, Bool-cases, ◌==◌, ==_iff, if◌then◌else◌,
}
use agri_flow.Prelude.Int.{pos, ◌+ℤ◌, ◌≤ℤ◌}
use agri_flow.Prelude.Decimal.{Decimal}
use agri_flow.Prelude.Table.{
  Table, lookup, insert, lookup-insert, sum_by, AllRows, AllRows-map, sum_by_nonneg,
}
use agri_flow.Models.{Seed, SeedPurchase, Db}
use agri_flow.Purchase.{is_pending, is_paid}

abbrev pub held_share : ℕ → SeedPurchase → Decimal
held_share i p =
    if is_pending p.payment_status then (if p.seed_id == i then p.quantity_kg else pos 0) else pos 0

abbrev pub paid_share : ℕ → SeedPurchase → Decimal
paid_share i p =
    if is_paid p.payment_status then (if p.seed_id == i then p.quantity_kg else pos 0) else pos 0

abbrev pub FitsSeed : Table SeedPurchase → ℕ → Option Seed → Type 0
FitsSeed purchases i none = sum_by (held_share i) purchases ≡ pos 0
FitsSeed purchases i (some s) =
    (s.on_hold_kg ≡ sum_by (held_share i) purchases) × (pos 0 ≤ℤ s.stock_kg)

abbrev pub IsAmount : SeedPurchase → Type 0
IsAmount p = pos 0 ≤ℤ p.quantity_kg

pub record IsHeld (d : Db) : Type 0 where
  pub seeds : (i : ℕ) → FitsSeed d.purchases i (lookup i d.seeds)
  pub amounts : AllRows IsAmount d.purchases

abbrev pub on_shelf : Option Seed → Decimal
on_shelf none = pos 0
on_shelf (some s) = s.stock_kg +ℤ s.on_hold_kg

-- all of a seed that is accounted for: in stock, on hold, or paid for
abbrev pub supply : ℕ → Db → Decimal
supply i d = on_shelf (lookup i d.seeds) +ℤ sum_by (paid_share i) d.purchases

pub held_nonneg :
    (i : ℕ) (t : Table SeedPurchase) → AllRows IsAmount t → pos 0 ≤ℤ sum_by (held_share i) t
held_nonneg i t h =
    sum_by_nonneg (held_share i) t
      (AllRows-map IsAmount (λ p. pos 0 ≤ℤ held_share i p) (λ p q. ground arith) t h)

pub seed_fits :
    {d : Db} (inv : IsHeld d) (i : ℕ) {s : Seed}
    → lookup i d.seeds ≡ some s
    → FitsSeed d.purchases i (some s)
seed_fits {d} inv i e = subst (FitsSeed d.purchases i) e (inv.seeds i)

pub FitsSeed-same :
    (t t' : Table SeedPurchase) (i : ℕ) (o : Option Seed)
    → sum_by (held_share i) t' ≡ sum_by (held_share i) t
    → FitsSeed t i o
    → FitsSeed t' i o
FitsSeed-same t t' i none e h = rw e h
FitsSeed-same t t' i (some s) e h = rw e h

-- One seed's row and the purchases have changed: that seed fits, and the others did not change.
pub FitsSeed-put :
    (k i : ℕ) (s : Seed) (seeds : Table Seed) (t t' : Table SeedPurchase)
    → FitsSeed t' k (some s)
    → ((k == i) ≡ false → sum_by (held_share i) t' ≡ sum_by (held_share i) t)
    → FitsSeed t i (lookup i seeds)
    → FitsSeed t' i (lookup i (insert k s seeds))
FitsSeed-put k i s seeds t t' f same old = rw lookup-insert (elim (Bool-cases (k == i)) [
  | inl here ↦ rw here (subst (λ j. FitsSeed t' j (some s)) ((==_iff k i).0 here) f)
  | inr apart ↦ rw apart (FitsSeed-same t t' i (lookup i seeds) (same apart) old)
])

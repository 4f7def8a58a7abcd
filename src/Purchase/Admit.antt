-- ===== src/Purchase/Admit.antt =====
-- The checks of `purchase_seeds`, and the price and warehouse that they settle on.
pub mod Facts
use text.Mathlib.Text.{◌==◌ as str_eq}
use agri_flow.Prelude.{
  ℕ, String, Bool, true, false, not, ◌&&◌, ◌||◌, Option, none, some, List, [], ◌∷◌, ◌==◌, is_some,
  given, contains, if◌then◌else◌,
}
use agri_flow.Prelude.Int.{ltb_ℤ}
use agri_flow.Prelude.Decimal.{Decimal}
use agri_flow.Prelude.Table.{Table, lookup}
use agri_flow.Prelude.Text.{codes, strip, upper}
use agri_flow.Errors.{Error, Result, ok, err}
use agri_flow.Exec.Pure.{guard_not, found, ◌>>=◌, ◌>>◌}
use agri_flow.Models.{Seed, SeedWarehouse, SeedPurchase, Warehouse, Db}

-- the arguments of `purchase_seeds`
pub record Request : Type 0 where
  pub seed_id : ℕ
  pub quantity_kg : Decimal
  pub warehouse_id : Option ℕ
  pub payment_method : Option String
  pub upi_id : Option String
  pub grade : Option String
  pub pickup_date : Option ℕ

-- the seed's row as it was locked, and what the checks settled on
pub record Order : Type 0 where
  pub seed : Seed
  pub unit_price : Decimal
  pub grade : Option String
  pub warehouse_id : Option ℕ

abbrev pub over_limit : Decimal → Option Decimal → Bool
over_limit q none = false
over_limit q (some limit) = ltb_ℤ limit q

-- what is left of a grade's text after `strip().upper()`, if that is one letter
abbrev pub letter : List ℕ → Option ℕ
letter (c ∷ []) = some (upper c)
letter _ = none

abbrev pub price_of : Seed → Option ℕ → Result (Decimal × Option String)
price_of seed none = err Error.validation
price_of seed (some c) =
    if c == b'A'
    then ok (given seed.price_grade_a seed.price_per_kg, some "A")
    else if c == b'B'
    then ok (given seed.price_grade_b seed.price_per_kg, some "B")
    else if c == b'C'
    then ok (given seed.price_grade_c seed.price_per_kg, some "C")
    else err Error.validation

-- no grade, and an empty text, mean the base price
unfoldable pub unit_price : Seed → Option String → Result (Decimal × Option String)
unit_price seed none = ok (seed.price_per_kg, none)
unit_price seed (some grade) =
    if str_eq grade ""
    then ok (seed.price_per_kg, none)
    else price_of seed (letter (strip (codes grade)))

-- `select(SeedWarehouse.warehouse_id).where(SeedWarehouse.seed_id == seed.id)`
abbrev pub assigned : ℕ → List SeedWarehouse → List ℕ
assigned seed_id [] = []
assigned seed_id (l ∷ ls) =
    if l.seed_id == seed_id then l.warehouse_id ∷ assigned seed_id ls else assigned seed_id ls

-- the seed's own warehouse if it is assigned, and else the first that is
abbrev pub own_or_first : Option ℕ → ℕ → List ℕ → ℕ
own_or_first none first ids = first
own_or_first (some w) first ids = if contains w ids then w else first

unfoldable pub choose_warehouse : Option ℕ → List ℕ → Option ℕ → Result (Option ℕ)
choose_warehouse own [] none = ok own
choose_warehouse own [] (some w) = ok (some w)
choose_warehouse own (i ∷ is) none = ok (some (own_or_first own i (i ∷ is)))
choose_warehouse own (i ∷ is) (some w) =
    if contains w (i ∷ is) then ok (some w) else err Error.validation

unfoldable pub check_open : Option ℕ → Db → Result (Unit {0})
check_open none d = ok tt
check_open (some w) d = do
  warehouse ← found (lookup w d.warehouses) Error.not_found
  guard_not (not warehouse.is_active) Error.not_found

-- `seed_purchases.invoice_number` is unique
abbrev pub is_new_invoice : String → Table SeedPurchase → Bool
is_new_invoice invoice [] = true
is_new_invoice invoice ((k, p) ∷ t) =
    not (str_eq p.invoice_number invoice) && is_new_invoice invoice t

unfoldable pub admit : Request → Db → Result Order
admit r d = do
  seed ← found (lookup r.seed_id d.seeds) Error.not_found
  guard_not (not seed.is_active) Error.conflict
  guard_not (over_limit r.quantity_kg seed.max_order_quantity_kg) Error.validation
  (price, grade) ← unit_price seed r.grade
  warehouse_id ←
      choose_warehouse seed.warehouse_id (assigned r.seed_id d.seed_warehouses) r.warehouse_id
  check_open warehouse_id d
  guard_not (ltb_ℤ seed.stock_kg r.quantity_kg) Error.insufficient_stock
  ok (record { seed = seed; unit_price = price; grade = grade; warehouse_id = warehouse_id })

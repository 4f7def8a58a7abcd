-- ===== src/Purchase/Admit/Facts.antt =====
-- What is known of the rows once the checks of `purchase_seeds` have passed.
use agri_flow.Prelude.{
  ◌≡◌, inl, inr, true, false, Option-cases, Option, none, some, List, [], ◌∷◌, contains, ℕ, arith,
}
use agri_flow.Prelude.Int.{◌≤ℤ◌}
use agri_flow.Prelude.Decimal.{Decimal}
use agri_flow.Prelude.Table.{lookup}
use agri_flow.Errors.{ok}
use agri_flow.Models.{Warehouse, Db}
use agri_flow.Purchase.Admit.{
  Request, Order, over_limit, unit_price, assigned, choose_warehouse, check_open, admit,
}

abbrev pub AtMost : Decimal → Option Decimal → Type 0
AtMost q none = Unit
AtMost q (some limit) = q ≤ℤ limit

AtMost-of : (q : Decimal) (limit : Option Decimal) → over_limit q limit ≡ false → AtMost q limit
AtMost-of q none h = tt
AtMost-of q (some limit) h = ground arith

-- The warehouse is one that is assigned, where any is.
abbrev pub IsAssigned : List ℕ → Option ℕ → Type 0
IsAssigned [] w = Unit
IsAssigned (i ∷ is) none = ⊥
IsAssigned (i ∷ is) (some w) = contains w (i ∷ is) ≡ true

choose_warehouse-IsAssigned :
    (own : Option ℕ) (ids : List ℕ) (asked w : Option ℕ)
    → choose_warehouse own ids asked ≡ ok w
    → IsAssigned ids w
unfolding choose_warehouse
choose_warehouse-IsAssigned own [] asked w h = tt
choose_warehouse-IsAssigned none (i ∷ is) none none h = cc
choose_warehouse-IsAssigned none (i ∷ is) none (some w) h = ground arith
choose_warehouse-IsAssigned (some o) (i ∷ is) none none h = cc
choose_warehouse-IsAssigned (some o) (i ∷ is) none (some w) h = ground arith
choose_warehouse-IsAssigned own (i ∷ is) (some a) none h = ground arith
choose_warehouse-IsAssigned own (i ∷ is) (some a) (some w) h = ground arith

-- A warehouse, if the order has one, is there and active.
abbrev pub IsOpen : Db → Option ℕ → Type 0
IsOpen d none = Unit
IsOpen d (some i) = (w : Warehouse) × (lookup i d.warehouses ≡ some w) × (w.is_active ≡ true)

check_open-IsOpen : (w : Option ℕ) (d : Db) {u : Unit {0}} → check_open w d ≡ ok u → IsOpen d w
unfolding check_open
check_open-IsOpen none d h = tt
check_open-IsOpen (some i) d h = elim (Option-cases (lookup i d.warehouses)) [
  | inl e ↦ absurd (ground arith)
  | inr (w, e) ↦ (w, e, ground arith)
]

pub record Admitted (r : Request) (d : Db) (o : Order) : Type 0 where
  pub stored : lookup r.seed_id d.seeds ≡ some o.seed
  pub active : o.seed.is_active ≡ true
  pub in_limit : AtMost r.quantity_kg o.seed.max_order_quantity_kg
  pub price : unit_price o.seed r.grade ≡ ok (o.unit_price, o.grade)
  pub warehouse : IsAssigned (assigned r.seed_id d.seed_warehouses) o.warehouse_id
  pub warehouse_open : IsOpen d o.warehouse_id
  pub in_stock : r.quantity_kg ≤ℤ o.seed.stock_kg

pub admit-ok : (r : Request) (d : Db) (o : Order) → admit r d ≡ ok o → Admitted r d o
unfolding admit
admit-ok r d o h = record {
  stored = ground arith;
  active = ground arith;
  in_limit = AtMost-of r.quantity_kg o.seed.max_order_quantity_kg (ground arith);
  price = ground arith;
  warehouse =
      choose_warehouse-IsAssigned o.seed.warehouse_id (assigned r.seed_id d.seed_warehouses)
        r.warehouse_id o.warehouse_id (ground arith);
  warehouse_open = check_open-IsOpen o.warehouse_id d {u = tt} (ground arith);
  in_stock = ground arith;
}

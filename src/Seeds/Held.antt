-- ===== src/Seeds/Held.antt =====
-- The administration of seeds, the rest of services/purchase_service.py, against their counters.
use mathlib.Core.Path.{subst}
use agri_flow.Prelude.{
  sym, ℕ, ◌≡◌, refl, inl, inr, List, Option, none, some, Bool-cases, Option-cases, given, is_id,
  contains,
}
use agri_flow.Prelude.Int.{pos, ◌≤ℤ◌}
use agri_flow.Prelude.Decimal.{Decimal}
use agri_flow.Prelude.Table.{lookup, insert}
use agri_flow.Exec.{Result-cases}
use agri_flow.Models.{Seed, SeedWarehouse, Db}
use agri_flow.Session.{Session}
use agri_flow.Purchase.Admit.{assigned}
use agri_flow.Purchase.Stock.{FitsSeed, FitsSeed-put, IsHeld, seed_fits}
use agri_flow.Seeds.{
  distinct, new_links, assign_seed_warehouses, remove_seed_warehouse, after_removal, delete_seed,
  SeedUpdate, patched, rehomed, update_seed, is_known_warehouse, initial_warehouses,
  default_warehouse, create_seed,
}

-- One seed's row is replaced by one that fits, and the purchases are left alone.
IsHeld-put :
    (d e : Db) (k : ℕ) (s : Seed)
    → IsHeld d
    → FitsSeed d.purchases k (some s)
    → e.seeds ≡ insert k s d.seeds
    → e.purchases ≡ d.purchases
    → IsHeld e
IsHeld-put d e k s inv f a b = record {
  seeds = λ i.
      rw (a, b)
        (FitsSeed-put k i s d.seeds d.purchases d.purchases f (λ apart. refl) (inv.seeds i));
  amounts = rw b inv.amounts;
}

pub delete_seed-IsHeld :
    (admin_id k : ℕ) (s : Session) → IsHeld s.db → IsHeld (delete_seed admin_id k s).1.db
unfolding delete_seed
delete_seed-IsHeld admin_id k s inv = elim (Option-cases (lookup k s.db.seeds)) [
  | inl missing ↦ rw missing inv
  | inr (seed, row) ↦ rw row (IsHeld-put s.db _ k _ inv (seed_fits inv k row) refl refl)
]

pub assign_seed_warehouses-IsHeld :
    (admin_id k : ℕ) (ids : List ℕ) (s : Session)
    → IsHeld s.db
    → IsHeld (assign_seed_warehouses admin_id k ids s).1.db
unfolding assign_seed_warehouses
assign_seed_warehouses-IsHeld admin_id k ids s inv = elim (Option-cases (lookup k s.db.seeds)) [
  | inl missing ↦ rw missing inv
  | inr (seed, row) ↦
      rw row
        (elim (Result-cases (new_links s.db k (assigned k s.db.seed_warehouses) (distinct ids))) [
          | inr (e, closed) ↦ rw closed inv
          | inl (links, fine) ↦ rw fine (IsHeld-put s.db _ k _ inv (seed_fits inv k row) refl refl)
        ])
]

rehomed-counters :
    (f : SeedUpdate) (s : Seed)
    → ((rehomed f s).on_hold_kg ≡ s.on_hold_kg) × ((rehomed f s).stock_kg ≡ s.stock_kg)
rehomed-counters f s = elim (Option-cases f.warehouse_ids) [
  | inl absent ↦ rw absent (refl, refl)
  | inr (ids, listed) ↦ rw listed (elim (Option-cases f.warehouse_id) [
    | inl absent ↦ rw absent (refl, refl)
    | inr (w, own) ↦ rw own (refl, refl)
  ])
]

given-nonneg :
    (o : Option Decimal) (old : Decimal)
    → ((q : Decimal) → o ≡ some q → pos 0 ≤ℤ q)
    → pos 0 ≤ℤ old
    → pos 0 ≤ℤ given o old
given-nonneg none old h n = n
given-nonneg (some q) old h n = h q refl

rehomed-FitsSeed :
    (d : Db) (k : ℕ) (f : SeedUpdate) (s : Seed)
    → ((q : Decimal) → f.stock_kg ≡ some q → pos 0 ≤ℤ q)
    → FitsSeed d.purchases k (some s)
    → FitsSeed d.purchases k (some (rehomed f (patched f s)))
rehomed-FitsSeed d k f s nonneg fits =
    let same = rehomed-counters f (patched f s) in
    rw (same.0, same.1) (fits.0, given-nonneg f.stock_kg s.stock_kg nonneg fits.1)

remove_kept :
    (d : Db) (k w : ℕ) (s : Seed) (links : List SeedWarehouse)
    → FitsSeed d.purchases k (some s)
    → FitsSeed d.purchases k (some (after_removal k w links s))
remove_kept d k w s links fits = elim (Bool-cases (is_id w s.warehouse_id)) [
  | inl own ↦ rw own fits
  | inr other ↦ rw other fits
]

pub remove_seed_warehouse-IsHeld :
    (admin_id k w : ℕ) (s : Session)
    → IsHeld s.db
    → IsHeld (remove_seed_warehouse admin_id k w s).1.db
unfolding remove_seed_warehouse
remove_seed_warehouse-IsHeld admin_id k w s inv = elim (Option-cases (lookup k s.db.seeds)) [
  | inl missing ↦ rw missing inv
  | inr (seed, row) ↦ rw row (elim (Bool-cases (contains w (assigned k s.db.seed_warehouses))) [
    | inr absent ↦ rw absent inv
    | inl linked ↦
        rw linked
          (IsHeld-put s.db _ k _ inv (remove_kept s.db k w seed _ (seed_fits inv k row)) refl refl)
  ])
]

-- An update of a seed by the administration, made or refused, keeps every seed's quantity on hold
-- that of its pending purchases and its stock not negative, where the stock given is not negative.
pub update_seed-IsHeld :
    (admin_id k : ℕ) (f : SeedUpdate) (s : Session)
    → ((q : Decimal) → f.stock_kg ≡ some q → pos 0 ≤ℤ q)
    → IsHeld s.db
    → IsHeld (update_seed admin_id k f s).1.db
unfolding update_seed
update_seed-IsHeld admin_id k f s nonneg inv = elim (Option-cases (lookup k s.db.seeds)) [
  | inl missing ↦ rw missing inv
  | inr (seed, row) ↦
      let fits = rehomed-FitsSeed s.db k f seed nonneg (seed_fits inv k row) in
      rw row
        (elim (Bool-cases
          (is_known_warehouse (rehomed f (patched f seed)).warehouse_id s.db.warehouses)) [
            | inr unknown ↦ rw unknown (IsHeld-put s.db _ k _ inv fits refl refl)
            | inl known ↦ rw known (IsHeld-put s.db _ k _ inv fits refl refl)
          ])
]

-- A new seed, made or refused, keeps every seed's quantity on hold that of its pending purchases
-- and its stock not negative, where its own stock is not negative.
pub create_seed-IsHeld :
    (admin_id : ℕ) (fields : Seed) (ids : List ℕ) (k : ℕ) (s : Session)
    → pos 0 ≤ℤ fields.stock_kg
    → IsHeld s.db
    → IsHeld (create_seed admin_id fields ids k s).1.db
unfolding create_seed
create_seed-IsHeld admin_id fields ids k s nonneg inv =
    elim (Bool-cases (
      is_known_warehouse
        (default_warehouse fields.warehouse_id (initial_warehouses fields.warehouse_id ids))
        s.db.warehouses)) [
          | inr unknown ↦ rw unknown inv
          | inl known ↦ rw known (elim (Option-cases (lookup k s.db.seeds)) [
            | inr (old, taken) ↦ rw taken inv
            | inl fresh ↦
                let unsold = subst (FitsSeed s.db.purchases k) fresh (inv.seeds k) in
                rw fresh (IsHeld-put s.db _ k _ inv (sym unsold, nonneg) refl refl)
          ])
        ]

-- ===== src/Seeds.antt =====
-- services/purchase_service.py: the catalogue of seeds and the warehouses that stock them.
pub mod Held
use agri_flow.Prelude.{
  ℕ, String, Bool, true, false, not, ◌&&◌, ◌||◌, Option, none, some, List, [], ◌∷◌, ◌++◌, ◌==◌,
  contains, head?, given, is_id, is_some, if◌then◌else◌,
}
use agri_flow.Prelude.Int.{pos}
use agri_flow.Prelude.Decimal.{Decimal}
use agri_flow.Prelude.Table.{Table, lookup, insert}
use agri_flow.Errors.{Error, Result, ok, err}
use agri_flow.Exec.{pure, raise_if, ◌>>=◌, ◌>>◌}
use agri_flow.Models.{Seed, SeedWarehouse, Warehouse, Db}
use agri_flow.Session.{Action, query, write, add}
use agri_flow.Notify.{audit}
use agri_flow.Purchase.Admit.{assigned}
use agri_flow.Warehouses.{given_nullable}
use agri_flow.Exec.Pure

-- `list(dict.fromkeys(ids))`: the first of each, in order
abbrev pub distinct_from : List ℕ → List ℕ → List ℕ
distinct_from seen [] = []
distinct_from seen (i ∷ is) =
    if contains i seen then distinct_from seen is else i ∷ distinct_from (i ∷ seen) is

abbrev pub distinct : List ℕ → List ℕ
distinct ids = distinct_from [] ids

-- `wh and wh.is_active`
abbrev pub is_open : Db → ℕ → Bool
is_open d w = elim (lookup w d.warehouses) [ none ↦ false | some wh ↦ wh.is_active ]

-- the links that `create_seed` and `update_seed` add: inactive warehouses are passed over
abbrev pub open_links : Db → ℕ → List ℕ → List SeedWarehouse
open_links d seed_id [] = []
open_links d seed_id (w ∷ ws) =
    if is_open d w
    then record { seed_id = seed_id; warehouse_id = w } ∷ open_links d seed_id ws
    else open_links d seed_id ws

-- the links that `assign_seed_warehouses` adds, which refuses inactive warehouses
abbrev pub new_links : Db → ℕ → List ℕ → List ℕ → Result (List SeedWarehouse)
new_links d seed_id existing [] = ok []
new_links d seed_id existing (w ∷ ws) =
    if is_open d w
    then (elim (new_links d seed_id existing ws) [
      | ok links ↦ ok (
          if contains w existing
          then links
          else record { seed_id = seed_id; warehouse_id = w } ∷ links)
      | err e ↦ err e
    ])
    else err Error.validation

-- `seed.warehouse_id` where none was set
abbrev pub default_warehouse : Option ℕ → List ℕ → Option ℕ
default_warehouse none ids = head? ids
default_warehouse (some w) ids = some w

abbrev pub set_seed : ℕ → Seed → Db → Db
set_seed i s d = record d { seeds = insert i s d.seeds }

abbrev pub add_links : List SeedWarehouse → Db → Db
add_links links d = record d { seed_warehouses = d.seed_warehouses ++ links }

-- The foreign key of `seeds.warehouse_id`, which the flush checks.
abbrev pub is_known_warehouse : Option ℕ → Table Warehouse → Bool
is_known_warehouse none t = true
is_known_warehouse (some w) t = is_some (lookup w t)

-- The answer, a list of the assigned warehouses, is left out.
unfoldable pub assign_seed_warehouses : ℕ → ℕ → List ℕ → Action (Unit {0})
unfolding audit
assign_seed_warehouses admin_id seed_id warehouse_ids = do
  seed ← query (λ d. Pure.found (lookup seed_id d.seeds) Error.not_found)
  links ←
      query (λ d. new_links d seed_id (assigned seed_id d.seed_warehouses) (distinct warehouse_ids))
  write (add_links links)
  write (
      set_seed seed_id (record seed {
        warehouse_id = default_warehouse seed.warehouse_id (distinct warehouse_ids);
      }))
  audit (some admin_id) "seed.assign_warehouses" (some "seed") (some seed_id)

abbrev pub is_link : ℕ → ℕ → SeedWarehouse → Bool
is_link seed_id warehouse_id l = l.seed_id == seed_id && l.warehouse_id == warehouse_id

abbrev pub keep_links : (SeedWarehouse → Bool) → List SeedWarehouse → List SeedWarehouse
keep_links p [] = []
keep_links p (l ∷ ls) = if p l then l ∷ keep_links p ls else keep_links p ls

abbrev pub after_removal : ℕ → ℕ → List SeedWarehouse → Seed → Seed
after_removal seed_id warehouse_id links seed =
    if is_id warehouse_id seed.warehouse_id
    then record seed { warehouse_id = head? (assigned seed_id links) }
    else seed

unfoldable pub remove_seed_warehouse : ℕ → ℕ → ℕ → Action (Unit {0})
unfolding audit
remove_seed_warehouse admin_id seed_id warehouse_id = do
  seed ← query (λ d. Pure.found (lookup seed_id d.seeds) Error.not_found)
  query (λ d.
      Pure.guard_not (not (contains warehouse_id (assigned seed_id d.seed_warehouses)))
        Error.not_found)
  write (λ d. record d {
    seed_warehouses = keep_links (λ l. not (is_link seed_id warehouse_id l)) d.seed_warehouses;
  })
  write (λ d. set_seed seed_id (after_removal seed_id warehouse_id d.seed_warehouses seed) d)
  audit (some admin_id) "seed.remove_warehouse" (some "seed") (some seed_id)

unfoldable pub delete_seed : ℕ → ℕ → Action (Unit {0})
unfolding audit
delete_seed admin_id seed_id = do
  seed ← query (λ d. Pure.found (lookup seed_id d.seeds) Error.not_found)
  write (set_seed seed_id (record seed { is_active = false }))
  audit (some admin_id) "seed.delete" (some "seed") (some seed_id)

-- the keyword arguments of `update_seed`: what is `None` is left alone; `warehouse_id` may be
-- absent, or `None`, or a key
pub record SeedUpdate : Type 0 where
  pub name : Option String
  pub price_per_kg : Option Decimal
  pub price_grade_a : Option Decimal
  pub price_grade_b : Option Decimal
  pub price_grade_c : Option Decimal
  pub max_order_quantity_kg : Option Decimal
  pub stock_kg : Option Decimal
  pub warehouse_id : Option (Option ℕ)
  pub is_active : Option Bool
  pub warehouse_ids : Option (List ℕ)

abbrev pub given_warehouse : Option (Option ℕ) → Option ℕ → Option ℕ
given_warehouse (some (some w)) old = some w
given_warehouse _ old = old

abbrev pub patched : SeedUpdate → Seed → Seed
patched f s = record s {
  name = given f.name s.name;
  price_per_kg = given f.price_per_kg s.price_per_kg;
  price_grade_a = given_nullable f.price_grade_a s.price_grade_a;
  price_grade_b = given_nullable f.price_grade_b s.price_grade_b;
  price_grade_c = given_nullable f.price_grade_c s.price_grade_c;
  max_order_quantity_kg = given_nullable f.max_order_quantity_kg s.max_order_quantity_kg;
  stock_kg = given f.stock_kg s.stock_kg;
  warehouse_id = given_warehouse f.warehouse_id s.warehouse_id;
  is_active = given f.is_active s.is_active;
}

-- `seed.warehouse_id` once the list of warehouses has been replaced
abbrev pub rehomed : SeedUpdate → Seed → Seed
rehomed f s = elim f.warehouse_ids [
  | none ↦ s
  | some ids ↦ (elim f.warehouse_id [
    | none ↦ record s { warehouse_id = head? (distinct ids) }
    | some w ↦ s
  ])
]

abbrev pub linked_one : Db → ℕ → Option (Option ℕ) → List SeedWarehouse
linked_one d seed_id (some (some w)) =
    if contains w (assigned seed_id d.seed_warehouses)
    then d.seed_warehouses
    else d.seed_warehouses ++ open_links d seed_id (w ∷ [])
linked_one d seed_id _ = d.seed_warehouses

abbrev pub relinked : Db → ℕ → SeedUpdate → List SeedWarehouse
relinked d seed_id f = elim f.warehouse_ids [
  | some ids ↦
      keep_links (λ l. not (l.seed_id == seed_id)) d.seed_warehouses
      ++ open_links d seed_id (distinct ids)
  | none ↦ linked_one d seed_id f.warehouse_id
]

unfoldable pub update_seed : ℕ → ℕ → SeedUpdate → Action Seed
unfolding audit
update_seed admin_id seed_id f = do
  seed ← query (λ d. Pure.found (lookup seed_id d.seeds) Error.not_found)
  let seed' : Seed = rehomed f (patched f seed)
  write (λ d. record d { seed_warehouses = relinked d seed_id f })
  write (set_seed seed_id seed')
  query (λ d.
      Pure.guard_not (not (is_known_warehouse seed'.warehouse_id d.warehouses)) Error.integrity)
  audit (some admin_id) "seed.update" (some "seed") (some seed_id)
  pure seed'

-- the warehouses of a new seed, and its own
abbrev pub initial_warehouses : Option ℕ → List ℕ → List ℕ
initial_warehouses none [] = []
initial_warehouses (some w) [] = w ∷ []
initial_warehouses own (i ∷ is) = distinct (i ∷ is)

-- `fields` has the columns given; a new seed is active and has nothing on hold.
unfoldable pub create_seed : ℕ → Seed → List ℕ → ℕ → Action Seed
unfolding audit
create_seed admin_id fields warehouse_ids seed_id = do
  let ids : List ℕ = initial_warehouses fields.warehouse_id warehouse_ids
  let seed : Seed = record fields {
    warehouse_id = default_warehouse fields.warehouse_id ids;
    on_hold_kg = pos 0;
    is_active = true;
  }
  query (λ d.
      Pure.guard_not (not (is_known_warehouse seed.warehouse_id d.warehouses)) Error.integrity)
  add seed_id seed (λ d. d.seeds) (λ t d. record d { seeds = t })
  write (λ d. add_links (open_links d seed_id ids) d)
  audit (some admin_id) "seed.create" (some "seed") (some seed_id)
  pure seed

-- ===== src/Warehouses.antt =====
-- services/booking_service.py: the administration of warehouses, slots and stored grain.
pub mod Slots
pub mod Loads
pub mod Stock
use text.Mathlib.Text.{◌==◌ as str_eq}
use agri_flow.Prelude.{
  ℕ, String, Bool, true, false, not, ◌&&◌, ◌||◌, Option, none, some, List, ltb, leb, ◌==◌, is_some,
  given, length, if◌then◌else◌,
}
use agri_flow.Prelude.Int.{pos, ◌+ℤ◌, ltb_ℤ}
use agri_flow.Prelude.Decimal.{Decimal}
use agri_flow.Prelude.Table.{Table, lookup, insert, select, rows_where, sum_by}
use agri_flow.Errors.{Error, Result, ok, err}
use agri_flow.Exec.{pure, or_raise, raise_if, when, ◌>>=◌, ◌>>◌}
use agri_flow.Exec.Pure
use agri_flow.Exec.Pure.{found}
use agri_flow.Enums.{BookingStatus}
use agri_flow.Models.{User, Warehouse, WarehouseSlot, WarehouseInventory, BookingSlot, Db}
use agri_flow.Session.{Action, query, write, add}
use agri_flow.Notify.{audit}
use agri_flow.Booking.Admit.{is_bookable}

-- the foreign key of `warehouses.manager_id`
abbrev pub is_known_user : Option ℕ → Db → Bool
is_known_user none d = true
is_known_user (some i) d = is_some (lookup i d.users)

abbrev pub active_warehouse : ℕ → Db → Result Warehouse
active_warehouse i d = elim (lookup i d.warehouses) [
  | none ↦ err Error.not_found
  | some w ↦ if w.is_active then ok w else err Error.not_found
]

unfoldable pub get_warehouse : ℕ → Action Warehouse
get_warehouse warehouse_id = query (active_warehouse warehouse_id)

abbrev pub new_warehouse :
    String → String → Option String → Option String → Decimal → Option ℕ → Warehouse
new_warehouse name address location contact_number total_capacity_kg manager_id = record {
  name = name;
  address = address;
  location = location;
  contact_number = contact_number;
  total_capacity_kg = total_capacity_kg;
  current_load_kg = pos 0;
  manager_id = manager_id;
  is_active = true;
}

unfoldable pub create_warehouse :
    ℕ → String → String → Option String → Option String → Decimal → Option ℕ → ℕ → Action Warehouse
unfolding audit
create_warehouse actor_id name address location contact_number total_capacity_kg manager_id new_id =
    let w = new_warehouse name address location contact_number total_capacity_kg manager_id in
    do
      query (λ d. Pure.guard_not (not (is_known_user manager_id d)) Error.integrity)
      add new_id w (λ d. d.warehouses) (λ t d. record d { warehouses = t })
      audit (some actor_id) "warehouse.create" (some "warehouse") (some new_id)
      pure w

-- the keyword arguments of `update_warehouse`; `None` leaves the column alone
pub record WarehouseUpdate : Type 0 where
  pub name : Option String
  pub address : Option String
  pub location : Option String
  pub contact_number : Option String
  pub total_capacity_kg : Option Decimal
  pub manager_id : Option ℕ
  pub is_active : Option Bool

-- a column that may be null
abbrev pub given_nullable {ℓ} : {A : Type ℓ} → Option A → Option A → Option A
given_nullable none old = old
given_nullable (some a) old = some a

abbrev pub updated_warehouse : WarehouseUpdate → Warehouse → Warehouse
updated_warehouse f w = record w {
  name = given f.name w.name;
  address = given f.address w.address;
  location = given_nullable f.location w.location;
  contact_number = given_nullable f.contact_number w.contact_number;
  total_capacity_kg = given f.total_capacity_kg w.total_capacity_kg;
  manager_id = given_nullable f.manager_id w.manager_id;
  is_active = given f.is_active w.is_active;
}

abbrev pub shrinks_below : Option Decimal → Decimal → Bool
shrinks_below none level = false
shrinks_below (some capacity) level = ltb_ℤ capacity level

unfoldable pub update_warehouse : ℕ → ℕ → WarehouseUpdate → Action Warehouse
unfolding audit
update_warehouse actor_id warehouse_id f = do
  w ← query (active_warehouse warehouse_id)
  raise_if (shrinks_below f.total_capacity_kg w.current_load_kg) Error.capacity_exceeded
  query (λ d. Pure.guard_not (not (is_known_user f.manager_id d)) Error.integrity)
  write (λ d. record d { warehouses = insert warehouse_id (updated_warehouse f w) d.warehouses })
  audit (some actor_id) "warehouse.update" (some "warehouse") (some warehouse_id)
  pure (updated_warehouse f w)

-- the four statuses that keep a warehouse from being deleted
abbrev pub is_unfinished : BookingStatus → Bool
is_unfinished BookingStatus.completed = false
is_unfinished BookingStatus.cancelled = false
is_unfinished _ = true

abbrev pub active_bookings : ℕ → Db → List BookingSlot
active_bookings i d = select (λ b. b.warehouse_id == i && is_unfinished b.status) d.bookings

abbrev pub stored_kg : ℕ → Db → Decimal
stored_kg i d = sum_by (λ v. if v.warehouse_id == i then v.quantity_kg else pos 0) d.inventory

unfoldable pub delete_warehouse : ℕ → ℕ → Action (Unit {0})
unfolding audit
delete_warehouse actor_id warehouse_id = do
  w ← query (active_warehouse warehouse_id)
  query (λ d. Pure.guard_not (ltb 0 (length (active_bookings warehouse_id d))) Error.conflict)
  query (λ d. Pure.guard_not (ltb_ℤ (pos 0) (stored_kg warehouse_id d)) Error.conflict)
  write (λ d. record d {
    warehouses = insert warehouse_id (record w { is_active = false }) d.warehouses;
  })
  audit (some actor_id) "warehouse.delete" (some "warehouse") (some warehouse_id)

unfoldable pub get_warehouse_inventory : ℕ → Action (List WarehouseInventory)
get_warehouse_inventory warehouse_id = do
  query (active_warehouse warehouse_id)
  query (λ d. ok (select (λ v. v.warehouse_id == warehouse_id) d.inventory))

unfoldable pub delete_slot : ℕ → ℕ → Action (Unit {0})
unfolding audit
delete_slot actor_id slot_id = do
  slot ← query (λ d. found (lookup slot_id d.slots) Error.not_found)
  raise_if (ltb_ℤ (pos 0) slot.booked_kg || ltb 0 slot.current_booking_count) Error.conflict
  write (λ d. record d { slots = insert slot_id (record slot { status = "cancelled" }) d.slots })
  audit (some actor_id) "warehouse_slot.delete" (some "warehouse_slot") (some slot_id)

abbrev pub is_stock_of : ℕ → String → WarehouseInventory → Bool
is_stock_of i grain_type v = v.warehouse_id == i && str_eq v.grain_type grain_type

-- a new row, or more in the row of this grain
abbrev pub store :
    ℕ → String → Decimal → ℕ → Option (ℕ × WarehouseInventory) → Action WarehouseInventory
store warehouse_id grain_type q new_id none =
    let row : WarehouseInventory = record {
      warehouse_id = warehouse_id;
      grain_type = grain_type;
      quantity_kg = q;
    } in
    do add new_id row (λ d. d.inventory) (λ t d. record d { inventory = t }); pure row
store warehouse_id grain_type q new_id (some (k, row)) =
    let row' = record row { quantity_kg = row.quantity_kg +ℤ q } in
    do write (λ d. record d { inventory = insert k row' d.inventory }); pure row'

unfoldable pub add_inventory : ℕ → ℕ → String → Decimal → ℕ → Action WarehouseInventory
unfolding audit
add_inventory actor_id warehouse_id grain_type quantity_kg new_id = do
  w ← query (λ d. found (lookup warehouse_id d.warehouses) Error.not_found)
  raise_if (ltb_ℤ w.total_capacity_kg (w.current_load_kg +ℤ quantity_kg)) Error.capacity_exceeded
  held ←
      query (λ d.
        Pure.scalar_one_or_none (rows_where (is_stock_of warehouse_id grain_type) d.inventory))
  row ← store warehouse_id grain_type quantity_kg new_id held
  write (λ d. record d {
    warehouses =
        insert warehouse_id (record w { current_load_kg = w.current_load_kg +ℤ quantity_kg })
          d.warehouses;
  })
  audit (some actor_id) "warehouse.inventory_add" (some "warehouse") (some warehouse_id)
  pure row

abbrev pub new_slot : ℕ → ℕ → ℕ → ℕ → Decimal → WarehouseSlot
new_slot warehouse_id slot_date start_time end_time capacity_kg = record {
  warehouse_id = warehouse_id;
  slot_date = slot_date;
  start_time = start_time;
  end_time = end_time;
  capacity_kg = capacity_kg;
  booked_kg = pos 0;
  max_bookings = 10;
  current_booking_count = 0;
  status = "active";
}

unfoldable pub create_slot : ℕ → ℕ → ℕ → ℕ → ℕ → Decimal → ℕ → Action WarehouseSlot
unfolding audit
create_slot actor_id warehouse_id slot_date start_time end_time capacity_kg new_id =
    let slot = new_slot warehouse_id slot_date start_time end_time capacity_kg in
    do
      query (λ d. found (lookup warehouse_id d.warehouses) Error.not_found)
      raise_if (leb end_time start_time) Error.conflict
      add new_id slot (λ d. d.slots) (λ t d. record d { slots = t })
      audit (some actor_id) "warehouse_slot.create" (some "warehouse_slot") (some new_id)
      pure slot

abbrev pub is_settable : Option String → Bool
is_settable none = true
is_settable (some status) = str_eq status "active" || str_eq status "cancelled"

-- The new status is set before the new capacity is looked at.
unfoldable pub update_slot : ℕ → ℕ → Option String → Option Decimal → Action WarehouseSlot
unfolding audit
update_slot actor_id slot_id status capacity_kg = do
  slot ← query (λ d. found (lookup slot_id d.slots) Error.not_found)
  raise_if (not (is_settable status)) Error.conflict
  let slot' : WarehouseSlot = record slot { status = given status slot.status }
  write (λ d. record d { slots = insert slot_id slot' d.slots })
  raise_if (shrinks_below capacity_kg slot.booked_kg) Error.capacity_exceeded
  let slot'' : WarehouseSlot = record slot' { capacity_kg = given capacity_kg slot.capacity_kg }
  write (λ d. record d { slots = insert slot_id slot'' d.slots })
  audit (some actor_id) "warehouse_slot.update" (some "warehouse_slot") (some slot_id)
  pure slot''

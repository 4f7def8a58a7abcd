-- ===== src/Booking/Admit/Facts.antt =====
-- What is known of the rows once the checks of `create_booking` have passed.
use agri_flow.Prelude.{ℕ, ◌≤◌, ◌<◌, ◌≡◌, true, Option, none, some, arith, []}
use agri_flow.Prelude.Int.{pos, ◌+ℤ◌, ◌≤ℤ◌, ◌<ℤ◌, max_ℤ, -ℤ_parts, +ℤ_parts}
use agri_flow.Prelude.Decimal.{Decimal}
use agri_flow.Prelude.Table.{lookup, select}
use agri_flow.Errors.{ok}
use agri_flow.Models.{Warehouse, WarehouseSlot, Db}
use agri_flow.Booking.Admit.{
  Request, check_warehouse, check_slot, admit_slot, is_duplicate, check_duplicate, admit,
  is_bookable,
}

pub record WarehouseFacts (q : Decimal) (w : Warehouse) : Type 0 where
  pub active : w.is_active ≡ true
  pub room : w.current_load_kg +ℤ q ≤ℤ w.total_capacity_kg

pub check_warehouse-ok :
    (q : Decimal) (w : Warehouse) {u : Unit {0}}
    → pos 0 <ℤ q
    → check_warehouse q w ≡ ok u
    → WarehouseFacts q w
unfolding check_warehouse max_ℤ
check_warehouse-ok q w p h =
    ground (arith, -ℤ_parts w.total_capacity_kg w.current_load_kg, +ℤ_parts w.current_load_kg q)

pub record SlotFacts (today : ℕ) (r : Request) (slot : WarehouseSlot) : Type 0 where
  pub same_warehouse : slot.warehouse_id ≡ r.warehouse_id
  pub bookable : is_bookable slot.status ≡ true
  pub upcoming : today ≤ slot.slot_date
  pub same_date : r.booking_date ≡ slot.slot_date
  pub free : slot.current_booking_count < slot.max_bookings
  pub room : slot.booked_kg +ℤ r.quantity_kg ≤ℤ slot.capacity_kg

pub check_slot-ok :
    (today : ℕ) (r : Request) (slot : WarehouseSlot) {u : Unit {0}}
    → check_slot today r slot ≡ ok u
    → SlotFacts today r slot
unfolding check_slot
check_slot-ok today r slot h =
    ground (arith, -ℤ_parts slot.capacity_kg slot.booked_kg, +ℤ_parts slot.booked_kg r.quantity_kg)

-- The row that is handed on is the one that was asked for, and it passed its checks.
abbrev pub SlotAdmitted : ℕ → Request → Db → Option ℕ → Option (ℕ × WarehouseSlot) → Type 0
SlotAdmitted today r d none none = Unit
SlotAdmitted today r d (some i) (some (j, slot)) =
    (j ≡ i) × (lookup i d.slots ≡ some slot) × SlotFacts today r slot
SlotAdmitted today r d _ _ = ⊥

pub admit_slot-ok :
    (today : ℕ) (r : Request) (asked : Option ℕ) (d : Db) (slot : Option (ℕ × WarehouseSlot))
    → admit_slot today r asked d ≡ ok slot
    → SlotAdmitted today r d asked slot
unfolding admit_slot
admit_slot-ok today r none d none h = tt
admit_slot-ok today r none d (some x) h = cc
admit_slot-ok today r (some i) d none h = ground arith
admit_slot-ok today r (some i) d (some (j, slot)) h = ground (arith, check_slot-ok today r slot)

-- No active booking of the same farmer for the same slot, or the same warehouse and date.
pub check_duplicate-ok :
    (farmer_id : ℕ) (r : Request) (d : Db) {u : Unit {0}}
    → check_duplicate farmer_id r d ≡ ok u
    → select (is_duplicate farmer_id r r.warehouse_slot_id) d.bookings ≡ []
unfolding check_duplicate
check_duplicate-ok farmer_id r d h = ground arith

pub record Admitted (today farmer_id : ℕ) (r : Request) (d : Db) (w : Warehouse)
    (slot : Option (ℕ × WarehouseSlot)) : Type 0 where
  pub not_past : today ≤ r.booking_date
  pub positive : pos 0 <ℤ r.quantity_kg
  pub stored : lookup r.warehouse_id d.warehouses ≡ some w
  pub warehouse : WarehouseFacts r.quantity_kg w
  pub slot_row : SlotAdmitted today r d r.warehouse_slot_id slot
  pub no_duplicate : select (is_duplicate farmer_id r r.warehouse_slot_id) d.bookings ≡ []

-- Where the checks of a new booking pass, the date and the quantity are right, the warehouse is
-- stored, active and has room, the slot that was asked for is the stored one, of that warehouse and
-- date, bookable, upcoming and with room for one more booking and its quantity, and the farmer has
-- no active booking of it.
pub admit-ok :
    (today farmer_id : ℕ) (r : Request) (d : Db) (w : Warehouse) (slot : Option (ℕ × WarehouseSlot))
    → admit today farmer_id r d ≡ ok (w, slot)
    → Admitted today farmer_id r d w slot
unfolding admit
admit-ok today farmer_id r d w slot h = record {
  not_past = ground arith;
  positive = ground arith;
  stored = ground arith;
  warehouse = ground (arith, check_warehouse-ok r.quantity_kg w);
  slot_row = admit_slot-ok today r r.warehouse_slot_id d slot (ground arith);
  no_duplicate = check_duplicate-ok farmer_id r d {u = tt} (ground arith);
}

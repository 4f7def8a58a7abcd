-- ===== src/Booking/Admit.antt =====
-- The checks of `create_booking`, which all come before its first write.
pub mod Facts
use text.Mathlib.Text.{◌==◌ as str_eq}
use agri_flow.Prelude.{
  ℕ, String, Bool, true, false, not, ◌&&◌, ◌||◌, Option, none, some, List, ltb, leb, ◌==◌, is_id,
  is_some, if◌then◌else◌,
}
use agri_flow.Prelude.Int.{pos, ◌-ℤ◌, max_ℤ, ltb_ℤ, leb_ℤ}
use agri_flow.Prelude.Decimal.{Decimal}
use agri_flow.Prelude.Table.{lookup, select}
use agri_flow.Errors.{Error, Result, ok, err}
use agri_flow.Exec.Pure.{guard_not, found, scalar_one_or_none, ◌>>=◌, ◌>>◌}
use agri_flow.Enums.{BookingStatus}
use agri_flow.Models.{Warehouse, WarehouseSlot, BookingSlot, Db}

-- the arguments of `create_booking`, the date already parsed
pub record Request : Type 0 where
  pub warehouse_id : ℕ
  pub warehouse_slot_id : Option ℕ
  pub booking_date : ℕ
  pub delivery_address : String
  pub grain_type : String
  pub quantity_kg : Decimal
  pub grain_sale_id : Option ℕ
  pub notes : Option String

-- `BOOKABLE_SLOT_STATUSES`
abbrev pub is_bookable : String → Bool
is_bookable status = str_eq status "active" || str_eq status "open"

-- the statuses of the duplicate check
abbrev pub is_active_booking : BookingStatus → Bool
is_active_booking BookingStatus.pending = true
is_active_booking BookingStatus.confirmed = true
is_active_booking _ = false

unfoldable pub check_warehouse : Decimal → Warehouse → Result (Unit {0})
check_warehouse q w = do
  guard_not (not w.is_active) Error.conflict
  let avail = max_ℤ (pos 0) (w.total_capacity_kg -ℤ w.current_load_kg)
  guard_not (ltb_ℤ avail q || leb_ℤ avail (pos 0)) Error.capacity_exceeded

unfoldable pub check_slot : ℕ → Request → WarehouseSlot → Result (Unit {0})
check_slot today r slot = do
  guard_not (not (slot.warehouse_id == r.warehouse_id)) Error.not_found
  guard_not (not (is_bookable slot.status)) Error.conflict
  guard_not (ltb slot.slot_date today) Error.conflict
  guard_not (not (r.booking_date == slot.slot_date)) Error.validation
  guard_not (leb slot.max_bookings slot.current_booking_count) Error.capacity_exceeded
  guard_not (ltb_ℤ (slot.capacity_kg -ℤ slot.booked_kg) r.quantity_kg) Error.capacity_exceeded

unfoldable pub admit_slot : ℕ → Request → Option ℕ → Db → Result (Option (ℕ × WarehouseSlot))
admit_slot today r none d = ok none
admit_slot today r (some i) d = do
  slot ← found (lookup i d.slots) Error.not_found
  check_slot today r slot
  ok (some (i, slot))

-- the same farmer at the same slot, or at the same warehouse and date where no slot is asked for
unfoldable pub is_duplicate : ℕ → Request → Option ℕ → BookingSlot → Bool
is_duplicate farmer_id r none b =
    b.farmer_id == farmer_id
    && b.warehouse_id == r.warehouse_id
    && b.booking_date == r.booking_date
    && is_active_booking b.status
is_duplicate farmer_id r (some i) b =
    b.farmer_id == farmer_id && is_id i b.warehouse_slot_id && is_active_booking b.status

unfoldable pub check_duplicate : ℕ → Request → Db → Result (Unit {0})
check_duplicate farmer_id r d = do
  dup ← scalar_one_or_none (select (is_duplicate farmer_id r r.warehouse_slot_id) d.bookings)
  guard_not (is_some dup) Error.conflict

-- the foreign key of `booking_slots.grain_sale_id`, which the INSERT checks
unfoldable pub is_known_sale : Option ℕ → Db → Bool
is_known_sale none d = true
is_known_sale (some i) d = is_some (lookup i d.grain_sales)

unfoldable pub admit : ℕ → ℕ → Request → Db → Result (Warehouse × Option (ℕ × WarehouseSlot))
admit today farmer_id r d = do
  guard_not (ltb r.booking_date today) Error.validation
  guard_not (leb_ℤ r.quantity_kg (pos 0)) Error.validation
  warehouse ← found (lookup r.warehouse_id d.warehouses) Error.not_found
  check_warehouse r.quantity_kg warehouse
  slot ← admit_slot today r r.warehouse_slot_id d
  check_duplicate farmer_id r d
  guard_not (not (is_known_sale r.grain_sale_id d)) Error.integrity
  ok (warehouse, slot)

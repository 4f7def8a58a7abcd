-- ===== src/Booking.antt =====
-- services/booking_service.py: bookings of warehouse capacity and of delivery slots.
pub mod Admit
pub mod Capacity
pub mod Inspect
pub mod Single
pub mod Reserve
pub mod Release
pub mod Change
pub mod Life
use agri_flow.Prelude.{
  ℕ, suc, ◌-◌, String, Bool, true, false, not, Option, none, some, [], ◌∷◌, ◌==◌, given_text,
  if◌then◌else◌,
}
use agri_flow.Prelude.Int.{pos, ◌+ℤ◌, ◌-ℤ◌, max_ℤ}
use agri_flow.Prelude.Decimal.{Decimal}
use agri_flow.Prelude.Table.{Table, lookup, insert, update}
use agri_flow.Errors.{Error}
use agri_flow.Exec.{pure, or_raise, raise_if, when, ◌>>=◌, ◌>>◌}
use agri_flow.Enums.{UserRole, is_farmer, BookingStatus, NotificationType}
use agri_flow.Models.{User, WarehouseSlot, Warehouse, BookingSlot, Db}
use agri_flow.Session.{Action, Session, query, write, add}
use agri_flow.Notify.{notify_user, notify_roles, audit}
use Admit.{Request, admit}
use agri_flow.Exec.Pure

-- `_VALID_TRANSITIONS`
abbrev pub valid_transition : BookingStatus → BookingStatus → Bool
valid_transition BookingStatus.pending BookingStatus.confirmed = true
valid_transition BookingStatus.pending BookingStatus.cancelled = true
valid_transition BookingStatus.confirmed BookingStatus.delivered = true
valid_transition BookingStatus.confirmed BookingStatus.completed = true
valid_transition BookingStatus.confirmed BookingStatus.cancelled = true
valid_transition BookingStatus.delivered BookingStatus.inspected = true
valid_transition BookingStatus.delivered BookingStatus.cancelled = true
valid_transition BookingStatus.inspected BookingStatus.completed = true
valid_transition _ _ = false

abbrev pub is_cancelled : BookingStatus → Bool
is_cancelled BookingStatus.cancelled = true
is_cancelled _ = false

abbrev pub new_booking : ℕ → Request → BookingSlot
new_booking farmer_id r = record {
  farmer_id = farmer_id;
  grain_sale_id = r.grain_sale_id;
  warehouse_id = r.warehouse_id;
  warehouse_slot_id = r.warehouse_slot_id;
  booking_date = r.booking_date;
  delivery_address = r.delivery_address;
  grain_type = r.grain_type;
  quantity_kg = r.quantity_kg;
  status = BookingStatus.pending;
  notes = r.notes;
}

abbrev pub hold : Decimal → WarehouseSlot → WarehouseSlot
hold q slot = record slot {
  booked_kg = slot.booked_kg +ℤ q;
  current_booking_count = suc slot.current_booking_count;
}

abbrev pub take_slot :
    Option (ℕ × WarehouseSlot) → Decimal → Table WarehouseSlot → Table WarehouseSlot
take_slot none q slots = slots
take_slot (some (i, slot)) q slots = insert i (hold q slot) slots

abbrev pub load : Decimal → Warehouse → Warehouse
load q w = record w { current_load_kg = w.current_load_kg +ℤ q }

-- `booking_id` is the primary key that `uuid4` draws for the new row.
unfoldable pub create_booking : ℕ → ℕ → Request → ℕ → Action BookingSlot
unfolding notify_user notify_roles audit
create_booking today farmer_id r booking_id = do
  (warehouse, slot) ← query (admit today farmer_id r)
  add booking_id (new_booking farmer_id r) (λ d. d.bookings) (λ t d. record d { bookings = t })
  write (λ d. record d { slots = take_slot slot r.quantity_kg d.slots })
  write (λ d. record d {
    warehouses = insert r.warehouse_id (load r.quantity_kg warehouse) d.warehouses;
  })
  notify_user farmer_id "Booking submitted" NotificationType.info "booking_slot" booking_id
  notify_roles (UserRole.manager ∷ UserRole.super_admin ∷ []) "New warehouse booking"
      NotificationType.info "booking_slot" booking_id
  audit (some farmer_id) "booking.create" (some "booking_slot") (some booking_id)
  pure (new_booking farmer_id r)

abbrev pub free : Decimal → WarehouseSlot → WarehouseSlot
free q slot = record slot {
  booked_kg = max_ℤ (pos 0) (slot.booked_kg -ℤ q);
  current_booking_count = slot.current_booking_count - 1;
}

-- the row of the slot, if there is one
abbrev pub release_slot : Option ℕ → Decimal → Table WarehouseSlot → Table WarehouseSlot
release_slot none q slots = slots
release_slot (some i) q slots = update i (free q) slots

abbrev pub unload : Decimal → Warehouse → Warehouse
unload q w = record w { current_load_kg = max_ℤ (pos 0) (w.current_load_kg -ℤ q) }

abbrev pub set_booking : ℕ → BookingSlot → Db → Db
set_booking i b d = record d { bookings = insert i b d.bookings }

abbrev pub moved : BookingSlot → BookingStatus → Option String → BookingSlot
moved b new_status notes = record b { status = new_status; notes = given_text notes b.notes }

abbrev pub status_notice : BookingStatus → NotificationType
status_notice BookingStatus.confirmed = NotificationType.success
status_notice _ = NotificationType.info

abbrev pub may_change : ℕ → User → BookingStatus → BookingSlot → Bool
may_change actor_id actor new_status b =
    if is_farmer actor.role
    then (if b.farmer_id == actor_id then is_cancelled new_status else false)
    else true

unfoldable pub update_booking_status :
    ℕ → User → ℕ → BookingStatus → Option String → Action BookingSlot
unfolding notify_user audit
update_booking_status actor_id actor booking_id new_status notes = do
  booking ← query (λ d. Pure.found (lookup booking_id d.bookings) Error.not_found)
  raise_if (not (may_change actor_id actor new_status booking)) Error.forbidden
  raise_if (not (valid_transition booking.status new_status)) Error.invalid_state_transition
  write (set_booking booking_id (moved booking new_status notes))
  when (is_cancelled new_status) do
    write (λ d. record d {
      slots = release_slot booking.warehouse_slot_id booking.quantity_kg d.slots;
    })
    write (λ d. record d {
      warehouses = update booking.warehouse_id (unload booking.quantity_kg) d.warehouses;
    })
  notify_user booking.farmer_id "Booking status updated" (status_notice new_status) "booking_slot"
      booking_id
  audit (some actor_id) "booking.status_update" (some "booking_slot") (some booking_id)
  pure (moved booking new_status notes)

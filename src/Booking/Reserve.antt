-- ===== src/Booking/Reserve.antt =====
-- `create_booking` of services/booking_service.py against the counters of slots and warehouses.
use agri_flow.Prelude.{
  ℕ, ◌≡◌, refl, inl, inr, Option, none, some, arith, Bool-cases, ◌==◌, Option-cases,
}
use agri_flow.Prelude.Int.{◌+ℤ◌, ◌≤ℤ◌}
use agri_flow.Prelude.Table.{lookup, insert, lookup-insert, AllRows-insert}
use agri_flow.Exec.{Result-cases}
use agri_flow.Models.{WarehouseSlot, Warehouse, BookingSlot, Db}
use agri_flow.Session.{Session}
use agri_flow.Booking.{new_booking, hold, take_slot, load, create_booking}
use agri_flow.Booking.Admit.{Request, admit}
use agri_flow.Booking.Admit.Facts.{SlotAdmitted, admit-ok}
use agri_flow.Booking.Capacity.{
  slot_fits, warehouse_fits, FitsSlot, FitsWarehouse, IsBooked, IsPositive, FitsSlot-add_apart,
  FitsSlot-add_here, FitsWarehouse-add_apart, FitsWarehouse-add_here,
}

module _ (today farmer_id : ℕ) (r : Request) (d : Db) (k : ℕ) (fresh : lookup k d.bookings ≡ none)
    (inv : IsBooked d) where
  abbrev b : BookingSlot
  b = new_booking farmer_id r

  slots_after :
      (asked : Option ℕ) (slot : Option (ℕ × WarehouseSlot))
      → r.warehouse_slot_id ≡ asked
      → SlotAdmitted today r d asked slot
      → (i : ℕ)
      → FitsSlot (insert k b d.bookings) i (lookup i (take_slot slot r.quantity_kg d.slots))
  slots_after none none e adm i =
      FitsSlot-add_apart i k b d.bookings fresh (lookup i d.slots) (rw e) (rw e) (inv.slots i)
  slots_after none (some x) e adm i = absurd adm
  slots_after (some j) none e adm i = absurd adm
  slots_after (some j) (some (l, s)) e (same, row, facts) i = elim (Bool-cases (l == i)) [
    | inl here ↦
        rw (lookup-insert, here)
          (FitsSlot-add_here i k b d.bookings fresh s (hold r.quantity_kg s) (ground arith)
            (ground arith) facts.room (omega (arith, facts.free))
            (slot_fits inv i {s = s} (ground arith)))
    | inr apart ↦
        rw (lookup-insert, apart)
          (FitsSlot-add_apart i k b d.bookings fresh (lookup i d.slots) (ground arith)
            (ground arith) (inv.slots i))
  ]

  warehouses_after :
      (w : Warehouse)
      → lookup r.warehouse_id d.warehouses ≡ some w
      → w.current_load_kg +ℤ r.quantity_kg ≤ℤ w.total_capacity_kg
      → (i : ℕ)
      → FitsWarehouse
          (insert k b d.bookings)
          d.inventory
          i
          (lookup i (insert r.warehouse_id (load r.quantity_kg w) d.warehouses))
  warehouses_after w row room i = elim (Bool-cases (r.warehouse_id == i)) [
    | inl here ↦
        rw (lookup-insert, here)
          (FitsWarehouse-add_here i k b d.bookings fresh d.inventory w (load r.quantity_kg w)
            (ground arith) room (warehouse_fits inv i {w = w} (ground arith)))
    | inr apart ↦
        rw (lookup-insert, apart)
          (FitsWarehouse-add_apart i k b d.bookings fresh d.inventory (lookup i d.warehouses)
            (rw apart) (inv.warehouses i))
  ]

-- A booking that is created, or refused by any of its checks, leaves the counters of every slot and
-- warehouse the sums of what is booked and stored there, and within their capacity.
pub create_booking-IsBooked :
    (today farmer_id : ℕ) (r : Request) (k : ℕ) (s : Session)
    → IsBooked s.db
    → IsBooked (create_booking today farmer_id r k s).1.db
unfolding create_booking
create_booking-IsBooked today farmer_id r k s inv =
    elim (Result-cases (admit today farmer_id r s.db)) [
      | inr (e, refused) ↦ rw refused inv
      | inl ((w, slot), passed) ↦ elim (Option-cases (lookup k s.db.bookings)) [
        | inr (old, taken) ↦ rw (passed, taken) inv
        | inl fresh ↦
            let adm = admit-ok today farmer_id r s.db w slot passed in
            rw (passed, fresh)
              (record {
                slots =
                    slots_after today farmer_id r s.db k fresh inv r.warehouse_slot_id slot refl
                      adm.slot_row;
                warehouses =
                    warehouses_after today farmer_id r s.db k fresh inv w adm.stored
                      adm.warehouse.room;
                positive =
                    AllRows-insert IsPositive k (new_booking farmer_id r) s.db.bookings inv.positive
                      adm.positive;
                stocked = inv.stocked;
                keyed = inv.keyed;
              })
      ]
    ]

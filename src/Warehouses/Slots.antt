-- ===== src/Warehouses/Slots.antt =====
-- The administration of slots (services/booking_service.py) against the counters.
use mathlib.Core.Path.{subst}
use agri_flow.Prelude.{
  ℕ, ◌≡◌, refl, sym, inl, inr, false, ◌||◌, String, Option, none, some, arith, ltb, leb, Bool-cases,
  Option-cases, given,
}
use agri_flow.Prelude.Int.{pos, ◌≤ℤ◌, ltb_ℤ}
use agri_flow.Prelude.Decimal.{Decimal}
use agri_flow.Prelude.Table.{lookup, insert}
use agri_flow.Models.{WarehouseSlot, Db}
use agri_flow.Session.{Session}
use agri_flow.Booking.Capacity.{slot_fits, FitsSlot, FitsSlot-put, IsBooked}
use agri_flow.Warehouses.{
  delete_slot, new_slot, create_slot, is_settable, shrinks_below, update_slot,
}

-- Only the table of slots has changed, and each slot still fits.
slots_changed :
    (d : Db) (k : ℕ) (s : WarehouseSlot)
    → IsBooked d
    → FitsSlot d.bookings k (some s)
    → IsBooked (record d { slots = insert k s d.slots })
slots_changed d k s inv f = record {
  slots = λ i. FitsSlot-put inv i k s f;
  warehouses = inv.warehouses;
  positive = inv.positive;
  stocked = inv.stocked;
  keyed = inv.keyed;
}

-- The invariant does not read the log.
pub IsBooked-same_tables :
    (d e : Db)
    → e.bookings ≡ d.bookings
    → e.slots ≡ d.slots
    → e.warehouses ≡ d.warehouses
    → e.inventory ≡ d.inventory
    → IsBooked d
    → IsBooked e
IsBooked-same_tables d e b s w v inv = record {
  slots = λ i. rw (b, s) (inv.slots i);
  warehouses = λ i. rw (b, w, v) (inv.warehouses i);
  positive = rw b inv.positive;
  stocked = rw v inv.stocked;
  keyed = rw v inv.keyed;
}

pub not_below :
    (asked : Option Decimal) (level old : Decimal)
    → shrinks_below asked level ≡ false
    → level ≤ℤ old
    → level ≤ℤ given asked old
not_below none level old e h = h
not_below (some c) level old e h = ground arith

pub delete_slot-IsBooked :
    (actor_id k : ℕ) (s : Session) → IsBooked s.db → IsBooked (delete_slot actor_id k s).1.db
unfolding delete_slot
delete_slot-IsBooked actor_id k s inv = elim (Option-cases (lookup k s.db.slots)) [
  | inl missing ↦ rw missing inv
  | inr (slot, row) ↦
      rw row (elim (Bool-cases (ltb_ℤ (pos 0) slot.booked_kg || ltb 0 slot.current_booking_count)) [
        | inl used ↦ rw used inv
        | inr empty ↦ rw empty (
            IsBooked-same_tables _ _ refl refl refl refl (
              slots_changed s.db k (record slot { status = "cancelled" }) inv
                (slot_fits inv k row)))
      ])
]

pub create_slot-IsBooked :
    (actor_id warehouse_id slot_date start_time end_time : ℕ) (capacity_kg : Decimal) (k : ℕ)
    (s : Session)
    → pos 0 ≤ℤ capacity_kg
    → IsBooked s.db
    → IsBooked
        (create_slot actor_id warehouse_id slot_date start_time end_time capacity_kg k s).1.db
unfolding create_slot
create_slot-IsBooked actor_id warehouse_id slot_date start_time end_time capacity_kg k s p inv =
    elim (Option-cases (lookup warehouse_id s.db.warehouses)) [
      | inl missing ↦ rw missing inv
      | inr (w, row) ↦ rw row (elim (Bool-cases (leb end_time start_time)) [
        | inl reversed ↦ rw reversed inv
        | inr ordered ↦ rw ordered (elim (Option-cases (lookup k s.db.slots)) [
          | inr (old, taken) ↦ rw taken inv
          | inl fresh ↦
              let none_yet = subst (FitsSlot s.db.bookings k) fresh (inv.slots k) in
              rw fresh (
                IsBooked-same_tables _ _ refl refl refl refl (
                  slots_changed s.db k
                    (new_slot warehouse_id slot_date start_time end_time capacity_kg) inv
                    (sym none_yet.0, sym none_yet.1, p, omega arith)))
        ])
      ])
    ]

-- An update of a slot's status or capacity, made or refused, leaves the counters of every slot and
-- warehouse the sums of what is booked and stored there, and within their capacity.
pub update_slot-IsBooked :
    (actor_id k : ℕ) (status : Option String) (capacity_kg : Option Decimal) (s : Session)
    → IsBooked s.db
    → IsBooked (update_slot actor_id k status capacity_kg s).1.db
unfolding update_slot
update_slot-IsBooked actor_id k status capacity_kg s inv =
    elim (Option-cases (lookup k s.db.slots)) [
      | inl missing ↦ rw missing inv
      | inr (slot, row) ↦ rw row (elim (Bool-cases (is_settable status)) [
        | inr bad ↦ rw bad inv
        | inl good ↦
            let fits = slot_fits inv k row in
            let marked : WarehouseSlot = record slot { status = given status slot.status } in
            let once = slots_changed s.db k marked inv fits in
            rw good (elim (Bool-cases (shrinks_below capacity_kg slot.booked_kg)) [
              | inl short ↦ rw short once
              | inr enough ↦
                  let sized : WarehouseSlot = record marked {
                    capacity_kg = given capacity_kg slot.capacity_kg;
                  } in
                  rw enough (
                    IsBooked-same_tables _ _ refl refl refl refl (
                      slots_changed (record s.db { slots = insert k marked s.db.slots }) k sized
                        once
                        (
                          fits.0,
                          fits.1,
                          not_below capacity_kg slot.booked_kg slot.capacity_kg enough fits.2,
                          fits.3,
                        )))
            ])
      ])
    ]

-- ===== src/Booking/Release.antt =====
-- `update_booking_status` of services/booking_service.py against the counters of slots and
-- warehouses.
use agri_flow.Prelude.{
  ℕ, ◌≡◌, refl, inl, inr, true, false, String, Option, none, some, arith, Bool-cases, ◌==◌,
  Option-cases,
}
use agri_flow.Prelude.Int.{pos, ◌<ℤ◌}
use mathlib.Core.Path.{subst}
use agri_flow.Prelude.Table.{
  lookup, insert, update, lookup-update, AllRows, AllRows-insert, AllRows-lookup,
}
use agri_flow.Enums.{BookingStatus}
use agri_flow.Models.{User, WarehouseSlot, BookingSlot, Db}
use agri_flow.Session.{Session}
use agri_flow.Booking.{
  is_cancelled, valid_transition, may_change, moved, unload, release_slot, update_booking_status,
}
use agri_flow.Booking.Capacity.{
  slot_share, slot_unit, slot_fits, warehouse_fits, FitsSlot, FitsWarehouse, IsBooked, IsPositive,
  shares_nonneg, warehouse_shares_nonneg, stock_nonneg,
}
use agri_flow.Booking.Change.{
  FitsSlot-change_same, FitsSlot-free, FitsSlot-missing, FitsWarehouse-change_same,
  FitsWarehouse-unload, FitsWarehouse-missing,
}

-- A booking that can still move has not been cancelled.
pub valid_transition-open :
    (from to : BookingStatus) → valid_transition from to ≡ true → is_cancelled from ≡ false
valid_transition-open BookingStatus.cancelled to h = cc
valid_transition-open _ to h = refl

module _ (k : ℕ) (b : BookingSlot) (new_status : BookingStatus) (notes : Option String) (d : Db)
    (row : lookup k d.bookings ≡ some b) (inv : IsBooked d)
    (still_open : is_cancelled b.status ≡ false) where
  abbrev b' : BookingSlot
  b' = moved b new_status notes

  is_positive : pos 0 <ℤ b.quantity_kg
  is_positive = AllRows-lookup IsPositive k b d.bookings inv.positive row

  IsPositive-after : AllRows IsPositive (insert k b' d.bookings)
  IsPositive-after = AllRows-insert IsPositive k b' d.bookings inv.positive is_positive

  pub kept :
      is_cancelled new_status ≡ false → IsBooked (record d { bookings = insert k b' d.bookings })
  kept e = record {
    slots = λ i.
        FitsSlot-change_same i k b b' d.bookings row (lookup i d.slots) (rw (e, still_open))
          (rw (e, still_open)) (inv.slots i);
    warehouses = λ i.
        FitsWarehouse-change_same i k b b' d.bookings row d.inventory (lookup i d.warehouses)
          (rw (e, still_open)) (inv.warehouses i);
    positive = IsPositive-after;
    stocked = inv.stocked;
    keyed = inv.keyed;
  }

  module _ (e : is_cancelled new_status ≡ true) where
    slots_elsewhere :
        (i : ℕ) (o : Option WarehouseSlot)
        → slot_share i b ≡ pos 0
        → slot_unit i b ≡ 0
        → FitsSlot d.bookings i o
        → FitsSlot (insert k b' d.bookings) i o
    slots_elsewhere i o z u f =
        FitsSlot-change_same i k b b' d.bookings row o (rw (e, z)) (rw (e, u)) f

    slots_released :
        (i : ℕ) (held : Option ℕ)
        → b.warehouse_slot_id ≡ held
        → FitsSlot (insert k b' d.bookings) i (lookup i (release_slot held b.quantity_kg d.slots))
    slots_released i none h =
        slots_elsewhere i (lookup i d.slots) (rw (h, still_open)) (rw (h, still_open)) (inv.slots i)
    slots_released i (some j) h = rw lookup-update (elim (Bool-cases (j == i)) [
      | inr apart ↦ rw apart (
          slots_elsewhere i (lookup i d.slots) (rw (still_open, h, apart))
            (rw (still_open, h, apart)) (inv.slots i))
      | inl here ↦ rw here (elim (Option-cases (lookup i d.slots)) [
        | inl missing ↦ absurd (
            FitsSlot-missing i k b b' d.bookings row b.quantity_kg (rw (still_open, h, here)) (rw e)
              is_positive (shares_nonneg i (insert k b' d.bookings) IsPositive-after)
              (subst (FitsSlot d.bookings i) missing (inv.slots i)))
        | inr (s, stored) ↦ rw stored (
            FitsSlot-free i k b b' d.bookings row s b.quantity_kg (rw (still_open, h, here))
              (rw (still_open, h, here)) (rw e) (rw e) (omega (arith, is_positive))
              (shares_nonneg i (insert k b' d.bookings) IsPositive-after) (slot_fits inv i stored))
      ])
    ])

    warehouses_released :
        (i : ℕ)
        → FitsWarehouse
            (insert k b' d.bookings)
            d.inventory
            i
            (lookup i (update b.warehouse_id (unload b.quantity_kg) d.warehouses))
    warehouses_released i = rw lookup-update (elim (Bool-cases (b.warehouse_id == i)) [
      | inr apart ↦ rw apart (
          FitsWarehouse-change_same i k b b' d.bookings row d.inventory (lookup i d.warehouses)
            (rw (e, still_open, apart)) (inv.warehouses i))
      | inl here ↦ rw here (elim (Option-cases (lookup i d.warehouses)) [
        | inl missing ↦ absurd (
            FitsWarehouse-missing i k b b' d.bookings row d.inventory b.quantity_kg
              (rw (still_open, here)) (rw e) is_positive
              (warehouse_shares_nonneg i (insert k b' d.bookings) IsPositive-after)
              (subst (FitsWarehouse d.bookings d.inventory i) missing (inv.warehouses i)))
        | inr (w, stored) ↦ rw stored (
            FitsWarehouse-unload i k b b' d.bookings row d.inventory w b.quantity_kg
              (rw (still_open, here)) (rw e) (omega (arith, is_positive))
              (warehouse_shares_nonneg i (insert k b' d.bookings) IsPositive-after)
              (stock_nonneg i d.inventory inv.stocked) (warehouse_fits inv i stored))
      ])
    ])

-- A change of a booking's status, allowed or refused, by a farmer or by staff, leaves the counters
-- of every slot and warehouse the sums of what is booked and stored there: a cancellation gives
-- back what the booking held, and no other change gives back anything.
pub update_booking_status-IsBooked :
    (actor_id : ℕ) (actor : User) (k : ℕ) (new_status : BookingStatus) (notes : Option String)
    (s : Session)
    → IsBooked s.db
    → IsBooked (update_booking_status actor_id actor k new_status notes s).1.db
unfolding update_booking_status
update_booking_status-IsBooked actor_id actor k new_status notes s inv =
    elim (Option-cases (lookup k s.db.bookings)) [
      | inl missing ↦ rw missing inv
      | inr (b, row) ↦ rw row (elim (Bool-cases (may_change actor_id actor new_status b)) [
        | inr forbidden ↦ rw forbidden inv
        | inl allowed ↦ rw allowed (elim (Bool-cases (valid_transition b.status new_status)) [
          | inr invalid ↦ rw invalid inv
          | inl valid ↦
              let o = valid_transition-open b.status new_status valid in
              rw valid (elim (Bool-cases (is_cancelled new_status)) [
                | inr going ↦
                    let after = kept k b new_status notes s.db row inv o going in
                    rw going (record {
                      slots = after.slots;
                      warehouses = after.warehouses;
                      positive = after.positive;
                      stocked = after.stocked;
                      keyed = after.keyed;
                    })
                | inl gone ↦ rw gone (record {
                  slots = λ i.
                      slots_released k b new_status notes s.db row inv o gone i b.warehouse_slot_id
                        refl;
                  warehouses = warehouses_released k b new_status notes s.db row inv o gone;
                  positive = IsPositive-after k b new_status notes s.db row inv o;
                  stocked = inv.stocked;
                  keyed = inv.keyed;
                })
              ])
        ])
      ])
    ]

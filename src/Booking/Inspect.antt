-- ===== src/Booking/Inspect.antt =====
-- `inspect_booking` of services/grain_sale_service.py against the counters of slots and
-- warehouses.
use mathlib.Core.Path.{subst}
use agri_flow.Prelude.{ℕ, ◌≡◌, refl, sym, inl, inr, true, false, String, Option, none}
use agri_flow.Prelude.Decimal.{Decimal}
use agri_flow.Enums.{BookingStatus}
use agri_flow.Session.{Session}
use agri_flow.Booking.{is_cancelled}
use agri_flow.Booking.Capacity.{IsBooked}
use agri_flow.Booking.Release.{kept}
use agri_flow.Warehouses.Slots.{IsBooked-same_tables}
use agri_flow.Grain.{is_delivered, inspect_booking}
use agri_flow.Grain.Inspection.{inspect_booking-cases}

delivered-open : (st : BookingStatus) → is_delivered st ≡ true → is_cancelled st ≡ false
delivered-open BookingStatus.delivered h = refl
delivered-open BookingStatus.pending h = refl
delivered-open BookingStatus.confirmed h = refl
delivered-open BookingStatus.inspected h = refl
delivered-open BookingStatus.completed h = refl
delivered-open BookingStatus.cancelled h = cc

-- An inspection of a delivery, recorded or refused, leaves the counters of every slot and warehouse
-- the sums of what is booked and stored there.
pub inspect_booking-IsBooked :
    (today inspector_id booking_id : ℕ) (good bad : Decimal) (reason notes : Option String) (k : ℕ)
    (s : Session)
    → IsBooked s.db
    → IsBooked (inspect_booking today inspector_id booking_id good bad reason notes k s).1.db
inspect_booking-IsBooked today inspector_id booking_id good bad reason notes k s inv =
    elim (inspect_booking-cases today inspector_id booking_id good bad reason notes k s) [
      | inl (refused, same) ↦ subst IsBooked (sym same) inv
      | inr (f, made, stored) ↦
          IsBooked-same_tables _ _ f.bookings f.slots f.warehouses f.inventory (
            kept booking_id f.booking BookingStatus.inspected none s.db f.booking_row inv
              (delivered-open f.booking.status f.delivered) refl)
    ]

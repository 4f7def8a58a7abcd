-- ===== src/Tests/Desk.antt =====
-- The theorems on bookings, slots and warehouses at the test database.
use agri_flow.Prelude.{ℕ, refl, String, Option, none, some, List, [], ◌∷◌}
use agri_flow.Prelude.Int.{pos, ◌-ℤ◌, max_ℤ}
use agri_flow.Enums.{BookingStatus}
use agri_flow.Booking.{create_booking, update_booking_status}
use agri_flow.Booking.Admit.{
  Request, admit, check_warehouse, admit_slot, check_slot, check_duplicate, is_duplicate,
  is_known_sale,
}
use agri_flow.Booking.Admit.Facts.{Admitted, admit-ok}
use agri_flow.Booking.Capacity.{IsBooked}
use agri_flow.Booking.Reserve.{create_booking-IsBooked}
use agri_flow.Booking.Release.{update_booking_status-IsBooked}
use agri_flow.Booking.Single.{IsSingle, create_booking-IsSingle, update_booking_status-IsSingle}
use agri_flow.Api.{requests}
use agri_flow.Api.Desk.{DeskCall, serve_desk}
use agri_flow.Api.Desk.Booked.{desk-IsBooked}
use agri_flow.Api.Desk.Life.{desk-BookingsGrow}
use agri_flow.Booking.Life.{BookingsGrow}
use agri_flow.Api.Keeps.{Stepwise}
use agri_flow.Tests.Data.{base, world, session, warehouse, slot, manager, decode}
use agri_flow.Tests.Valid.{base-IsBooked, base-IsSingle}

abbrev request : Request
request = record {
  warehouse_id = 1;
  warehouse_slot_id = some 2;
  booking_date = 20;
  delivery_address = "Road 2";
  grain_type = "rice";
  quantity_kg = pos 300;
  grain_sale_id = none;
  notes = none;
}

-- a booking, its cancellation by the farmer, an inspection, stock, and a slot's new capacity
abbrev calls : List (ℕ × Option String × DeskCall)
calls =
    (10, some "farmer", DeskCall.create_booking_call request 21)
    ∷ (10, some "farmer", DeskCall.update_booking_status_call 21 BookingStatus.cancelled none)
    ∷ (11, some "manager", DeskCall.inspect_booking_call 3 (pos 90) (pos 10) none none 22)
    ∷ (11, some "manager", DeskCall.add_inventory_call 1 "rice" (pos 200) 23)
    ∷ (12, some "manager", DeskCall.update_slot_call 2 none (some (pos 60)))
    ∷ []

desk-IsBooked_example : IsBooked (requests (serve_desk decode) calls world).committed
desk-IsBooked_example = desk-IsBooked decode calls world base-IsBooked

desk-BookingsGrow_example : Stepwise BookingsGrow (serve_desk decode) calls world
desk-BookingsGrow_example = desk-BookingsGrow decode calls world

create_booking-IsBooked_example : IsBooked (create_booking 10 7 request 21 session).1.db
create_booking-IsBooked_example = create_booking-IsBooked 10 7 request 21 session base-IsBooked

update_booking_status-IsBooked_example :
    IsBooked
      (update_booking_status 8 manager 3 BookingStatus.cancelled (some "no show") session).1.db
update_booking_status-IsBooked_example =
    update_booking_status-IsBooked 8 manager 3 BookingStatus.cancelled (some "no show") session
      base-IsBooked

create_booking-IsSingle_example : IsSingle (create_booking 10 7 request 21 session).1.db
create_booking-IsSingle_example = create_booking-IsSingle 10 7 request 21 session base-IsSingle

update_booking_status-IsSingle_example :
    IsSingle (update_booking_status 8 manager 3 BookingStatus.inspected none session).1.db
update_booking_status-IsSingle_example =
    update_booking_status-IsSingle 8 manager 3 BookingStatus.inspected none session base-IsSingle

admit-ok_example : Admitted 10 7 request base warehouse (some (2, slot))
unfolding admit check_warehouse admit_slot check_slot check_duplicate is_duplicate is_known_sale
    ◌-ℤ◌ max_ℤ
admit-ok_example = admit-ok 10 7 request base warehouse (some (2, slot)) refl

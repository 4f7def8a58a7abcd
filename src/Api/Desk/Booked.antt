-- ===== src/Api/Desk/Booked.antt =====
-- Api.Desk against the counters of slots and warehouses (services/booking_service.py).
use agri_flow.Prelude.{ℕ, arith, String, Option, List}
use agri_flow.Session.{World}
use agri_flow.Permissions.{Claims}
use agri_flow.Booking.{create_booking, update_booking_status}
use agri_flow.Booking.Capacity.{IsBooked}
use agri_flow.Booking.Reserve.{create_booking-IsBooked}
use agri_flow.Booking.Release.{update_booking_status-IsBooked}
use agri_flow.Booking.Inspect.{inspect_booking-IsBooked}
use agri_flow.Warehouses.{
  create_warehouse, update_warehouse, add_inventory, create_slot, update_slot,
}
use agri_flow.Warehouses.Slots.{delete_slot-IsBooked, create_slot-IsBooked, update_slot-IsBooked}
use agri_flow.Warehouses.Loads.{
  create_warehouse-IsBooked, update_warehouse-IsBooked, delete_warehouse-IsBooked,
}
use agri_flow.Warehouses.Stock.{add_inventory-IsBooked}
use agri_flow.Grain.{inspect_booking}
use agri_flow.Api.{requests}
use agri_flow.Api.Keeps.{Keeps, answered-Keeps, endpoint-Keeps, requests-Keeps}
use agri_flow.Api.Desk.{DeskCall, serve_desk}

module _ (decode_token : String → Option Claims) where
  serve_desk-Keeps : (c : ℕ × Option String × DeskCall) → Keeps IsBooked (serve_desk decode_token c)
  unfolding serve_desk
  serve_desk-Keeps (today, token, DeskCall.create_booking_call r k) =
      endpoint-Keeps IsBooked decode_token token _ _ _ λ i user v.
        answered-Keeps IsBooked (create_booking today i r k)
          λ s a h. create_booking-IsBooked today i r k s
  serve_desk-Keeps (today, token, DeskCall.update_booking_status_call b new_status notes) =
      endpoint-Keeps IsBooked decode_token token _ _ _ λ i user v.
        answered-Keeps IsBooked (update_booking_status i user b new_status notes)
          λ s a h. update_booking_status-IsBooked i user b new_status notes s
  serve_desk-Keeps (today, token, DeskCall.inspect_booking_call b good bad reason notes k) =
      endpoint-Keeps IsBooked decode_token token _ _ _ λ i user v.
        answered-Keeps IsBooked (inspect_booking today i b good bad reason notes k)
          λ s a h. inspect_booking-IsBooked today i b good bad reason notes k s
  serve_desk-Keeps
        (today, token, DeskCall.create_warehouse_call name address location contact total m k) =
      endpoint-Keeps IsBooked decode_token token _ _ _ λ i user v.
        answered-Keeps IsBooked (create_warehouse i name address location contact total m k)
          λ s a h.
            create_warehouse-IsBooked i name address location contact total m k s (ground arith)
  serve_desk-Keeps (today, token, DeskCall.update_warehouse_call w f) =
      endpoint-Keeps IsBooked decode_token token _ _ _ λ i user v.
        answered-Keeps IsBooked (update_warehouse i w f) λ s a h. update_warehouse-IsBooked i w f s
  serve_desk-Keeps (today, token, DeskCall.delete_warehouse_call w) =
      endpoint-Keeps IsBooked decode_token token _ _ _
        λ i user v. λ s a h. delete_warehouse-IsBooked i w s
  serve_desk-Keeps (today, token, DeskCall.add_inventory_call w grain_type q k) =
      endpoint-Keeps IsBooked decode_token token _ _ _ λ i user v.
        answered-Keeps IsBooked (add_inventory i w grain_type q k)
          λ s a h. add_inventory-IsBooked i w grain_type q k s (ground arith)
  serve_desk-Keeps
        (today, token, DeskCall.create_slot_call w slot_date start_time end_time capacity k) =
      endpoint-Keeps IsBooked decode_token token _ _ _ λ i user v.
        answered-Keeps IsBooked (create_slot i w slot_date start_time end_time capacity k) λ s a h.
          create_slot-IsBooked i w slot_date start_time end_time capacity k s (ground arith)
  serve_desk-Keeps (today, token, DeskCall.update_slot_call sl status capacity) =
      endpoint-Keeps IsBooked decode_token token _ _ _ λ i user v.
        answered-Keeps IsBooked (update_slot i sl status capacity)
          λ s a h. update_slot-IsBooked i sl status capacity s
  serve_desk-Keeps (today, token, DeskCall.delete_slot_call sl) =
      endpoint-Keeps IsBooked decode_token token _ _ _
        λ i user v. λ s a h. delete_slot-IsBooked i sl s

-- From committed rows that satisfy `IsBooked`, any sequence of requests at the desk, each with its
-- token, its checks and its commit or rollback, commits rows that satisfy `IsBooked`: every slot's
-- and warehouse's counters are the sums over its uncancelled bookings and its stock, and are within
-- its capacity. The decoding of tokens is arbitrary.
pub desk-IsBooked :
    (decode_token : String → Option Claims) (calls : List (ℕ × Option String × DeskCall))
    (w : World)
    → IsBooked w.committed
    → IsBooked (requests (serve_desk decode_token) calls w).committed
desk-IsBooked decode_token calls w inv =
    requests-Keeps IsBooked (serve_desk decode_token) (serve_desk-Keeps decode_token) calls w inv

-- ===== src/Api/Desk/Life.antt =====
-- Api.Desk against the life of a booking (Booking.Life).
use agri_flow.Prelude.{◌≡◌, refl, arith, ℕ, String, Option, List, some}
use agri_flow.Prelude.Decimal.{Decimal}
use agri_flow.Prelude.Table.{lookup}
use agri_flow.Models.{BookingSlot, Db}
use agri_flow.Session.{Session, World}
use agri_flow.Notify.{audit}
use agri_flow.Permissions.{Claims}
use agri_flow.Booking.{create_booking, update_booking_status}
use agri_flow.Booking.Life.{
  BookingsGrow, IsGrown, IsGrown-frame, create_booking-IsGrown, update_booking_status-IsGrown,
  inspect_booking-IsGrown,
}
use agri_flow.Warehouses.{
  WarehouseUpdate, create_warehouse, update_warehouse, delete_warehouse, add_inventory, create_slot,
  update_slot, delete_slot,
}
use agri_flow.Grain.{inspect_booking}
use agri_flow.Session.Boundary.{get_db-keeps}
use agri_flow.Api.Keeps.{Leads, answered-Leads, endpoint-Leads, Stepwise, requests-Stepwise}
use agri_flow.Api.Desk.{DeskCall, serve_desk}

create_warehouse-frame :
    (i : ℕ) (name address : String) (location contact : Option String) (total : Decimal)
    (m : Option ℕ) (k : ℕ) (s : Session)
    → (create_warehouse i name address location contact total m k s).1.db.bookings ≡ s.db.bookings
unfolding create_warehouse audit
create_warehouse-frame i name address location contact total m k s = ground arith

update_warehouse-frame :
    (i w : ℕ) (f : WarehouseUpdate) (s : Session)
    → (update_warehouse i w f s).1.db.bookings ≡ s.db.bookings
unfolding update_warehouse audit
update_warehouse-frame i w f s = ground arith

delete_warehouse-frame :
    (i w : ℕ) (s : Session) → (delete_warehouse i w s).1.db.bookings ≡ s.db.bookings
unfolding delete_warehouse audit
delete_warehouse-frame i w s = ground arith

add_inventory-frame :
    (i w : ℕ) (grain_type : String) (q : Decimal) (k : ℕ) (s : Session)
    → (add_inventory i w grain_type q k s).1.db.bookings ≡ s.db.bookings
unfolding add_inventory audit
add_inventory-frame i w grain_type q k s = ground arith

create_slot-frame :
    (i w slot_date start_time end_time : ℕ) (capacity : Decimal) (k : ℕ) (s : Session)
    → (create_slot i w slot_date start_time end_time capacity k s).1.db.bookings ≡ s.db.bookings
unfolding create_slot audit
create_slot-frame i w slot_date start_time end_time capacity k s = ground arith

update_slot-frame :
    (i sl : ℕ) (status : Option String) (capacity : Option Decimal) (s : Session)
    → (update_slot i sl status capacity s).1.db.bookings ≡ s.db.bookings
unfolding update_slot audit
update_slot-frame i sl status capacity s = ground arith

delete_slot-frame : (i sl : ℕ) (s : Session) → (delete_slot i sl s).1.db.bookings ≡ s.db.bookings
unfolding delete_slot audit
delete_slot-frame i sl s = ground arith

module _ (decode_token : String → Option Claims) (b_id : ℕ) (old : BookingSlot) where
  abbrev At : Db → Type 0
  At d = lookup b_id d.bookings ≡ some old

  serve_desk-IsGrown :
      (c : ℕ × Option String × DeskCall) → Leads At (IsGrown b_id old) (serve_desk decode_token c)
  unfolding serve_desk
  serve_desk-IsGrown (today, token, DeskCall.create_booking_call r k) =
      endpoint-Leads At (IsGrown b_id old) decode_token token _ _ _ λ i user v.
        answered-Leads At (IsGrown b_id old) (create_booking today i r k)
          λ s a h. create_booking-IsGrown b_id old today i r k s
  serve_desk-IsGrown (today, token, DeskCall.update_booking_status_call b new_status notes) =
      endpoint-Leads At (IsGrown b_id old) decode_token token _ _ _ λ i user v.
        answered-Leads At (IsGrown b_id old) (update_booking_status i user b new_status notes)
          λ s a h. update_booking_status-IsGrown b_id old i user b new_status notes s
  serve_desk-IsGrown (today, token, DeskCall.inspect_booking_call b good bad reason notes k) =
      endpoint-Leads At (IsGrown b_id old) decode_token token _ _ _ λ i user v.
        answered-Leads At (IsGrown b_id old) (inspect_booking today i b good bad reason notes k)
          λ s a h. inspect_booking-IsGrown b_id old today i b good bad reason notes k s
  serve_desk-IsGrown
        (today, token, DeskCall.create_warehouse_call name address location contact total m k) =
      endpoint-Leads At (IsGrown b_id old) decode_token token _ _ _ λ i user v.
        answered-Leads At (IsGrown b_id old)
          (create_warehouse i name address location contact total m k)
          λ s a h.
            IsGrown-frame b_id old s.db _
              (create_warehouse-frame i name address location contact total m k s)
  serve_desk-IsGrown (today, token, DeskCall.update_warehouse_call w f) =
      endpoint-Leads At (IsGrown b_id old) decode_token token _ _ _ λ i user v.
        answered-Leads At (IsGrown b_id old) (update_warehouse i w f)
          λ s a h. IsGrown-frame b_id old s.db _ (update_warehouse-frame i w f s)
  serve_desk-IsGrown (today, token, DeskCall.delete_warehouse_call w) =
      endpoint-Leads At (IsGrown b_id old) decode_token token _ _ _
        λ i user v. λ s a h. IsGrown-frame b_id old s.db _ (delete_warehouse-frame i w s)
  serve_desk-IsGrown (today, token, DeskCall.add_inventory_call w grain_type q k) =
      endpoint-Leads At (IsGrown b_id old) decode_token token _ _ _ λ i user v.
        answered-Leads At (IsGrown b_id old) (add_inventory i w grain_type q k)
          λ s a h. IsGrown-frame b_id old s.db _ (add_inventory-frame i w grain_type q k s)
  serve_desk-IsGrown
        (today, token, DeskCall.create_slot_call w slot_date start_time end_time capacity k) =
      endpoint-Leads At (IsGrown b_id old) decode_token token _ _ _ λ i user v.
        answered-Leads At (IsGrown b_id old)
          (create_slot i w slot_date start_time end_time capacity k)
          λ s a h.
            IsGrown-frame b_id old s.db _
              (create_slot-frame i w slot_date start_time end_time capacity k s)
  serve_desk-IsGrown (today, token, DeskCall.update_slot_call sl status capacity) =
      endpoint-Leads At (IsGrown b_id old) decode_token token _ _ _ λ i user v.
        answered-Leads At (IsGrown b_id old) (update_slot i sl status capacity)
          λ s a h. IsGrown-frame b_id old s.db _ (update_slot-frame i sl status capacity s)
  serve_desk-IsGrown (today, token, DeskCall.delete_slot_call sl) =
      endpoint-Leads At (IsGrown b_id old) decode_token token _ _ _
        λ i user v. λ s a h. IsGrown-frame b_id old s.db _ (delete_slot-frame i sl s)

-- In any sequence of requests at the desk, each request leaves every committed booking in the table
-- and makes of it what the table of the booking's states allows in one step: its status stays or
-- goes by one step (pending to confirmed; confirmed to delivered or completed; delivered to
-- inspected; inspected to completed; and from each of the first three to cancelled), its farmer,
-- warehouse, slot, date and quantity stay, and if it was completed or cancelled no column changes.
-- The decoding of tokens is arbitrary.
pub desk-BookingsGrow :
    (decode_token : String → Option Claims) (calls : List (ℕ × Option String × DeskCall))
    (w : World)
    → Stepwise BookingsGrow (serve_desk decode_token) calls w
unfolding BookingsGrow
desk-BookingsGrow decode_token =
    requests-Stepwise BookingsGrow (serve_desk decode_token) λ c w booking_id old row.
      get_db-keeps (serve_desk decode_token c) w (IsGrown booking_id old)
        (λ a e. serve_desk-IsGrown decode_token booking_id old c _ a e row)
        (IsGrown-frame booking_id old w.committed w.committed refl row)

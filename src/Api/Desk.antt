-- ===== src/Api/Desk.antt =====
-- api/v1/bookings.py and api/v1/warehouses.py: the requests that change bookings, slots,
-- warehouses and stock.
pub mod Booked
pub mod Life
use agri_flow.Prelude.{ℕ, String, Bool, true, ◌&&◌, Option, none, some, [], ◌∷◌}
use agri_flow.Prelude.Int.{pos, ltb_ℤ, leb_ℤ}
use agri_flow.Prelude.Decimal.{Decimal}
use agri_flow.Enums.{BookingStatus}
use agri_flow.Models.{User}
use agri_flow.Session.{Action}
use agri_flow.Permissions.{Claims}
use agri_flow.Booking.{create_booking, update_booking_status}
use agri_flow.Booking.Admit.{Request}
use agri_flow.Warehouses.{
  WarehouseUpdate, create_warehouse, update_warehouse, delete_warehouse, add_inventory, create_slot,
  update_slot, delete_slot,
}
use agri_flow.Grain.{inspect_booking}
use agri_flow.Api.{answered, endpoint}

-- An operation with its body; a last ℕ is the key drawn for the new row.
pub data DeskCall : Type 0 where
  create_booking_call : Request → ℕ → DeskCall
  update_booking_status_call : ℕ → BookingStatus → Option String → DeskCall
  inspect_booking_call : ℕ → Decimal → Decimal → Option String → Option String → ℕ → DeskCall
  create_warehouse_call :
      String → String → Option String → Option String → Decimal → Option ℕ → ℕ → DeskCall
  update_warehouse_call : ℕ → WarehouseUpdate → DeskCall
  delete_warehouse_call : ℕ → DeskCall
  add_inventory_call : ℕ → String → Decimal → ℕ → DeskCall
  create_slot_call : ℕ → ℕ → ℕ → ℕ → Decimal → ℕ → DeskCall
  update_slot_call : ℕ → Option String → Option Decimal → DeskCall
  delete_slot_call : ℕ → DeskCall

-- `Field(gt=0)` and `Field(ge=0)`
abbrev pub gt_zero : Decimal → Bool
gt_zero q = ltb_ℤ (pos 0) q

abbrev pub ge_zero : Decimal → Bool
ge_zero q = leb_ℤ (pos 0) q

abbrev pub gt_zero_given : Option Decimal → Bool
gt_zero_given none = true
gt_zero_given (some q) = gt_zero q

module _ (decode_token : String → Option Claims) where
  -- A call on its day, with the bearer token that it came with.
  unfoldable pub serve_desk : ℕ × Option String × DeskCall → Action (Unit {0})
  serve_desk (today, token, DeskCall.create_booking_call r k) =
      endpoint decode_token token ("booking.create" ∷ []) (gt_zero r.quantity_kg)
        (λ i user. answered (create_booking today i r k))
  serve_desk (today, token, DeskCall.update_booking_status_call b new_status notes) =
      endpoint decode_token token ("booking.review" ∷ "booking.cancel.own" ∷ []) true
        (λ i user. answered (update_booking_status i user b new_status notes))
  serve_desk (today, token, DeskCall.inspect_booking_call b good bad reason notes k) =
      endpoint decode_token token ("grain_sale.inspect" ∷ []) (ge_zero good && ge_zero bad)
        (λ i user. answered (inspect_booking today i b good bad reason notes k))
  serve_desk
        (today, token, DeskCall.create_warehouse_call name address location contact total m k) =
      endpoint decode_token token ("warehouse.create" ∷ []) (gt_zero total)
        (λ i user. answered (create_warehouse i name address location contact total m k))
  serve_desk (today, token, DeskCall.update_warehouse_call w f) =
      endpoint decode_token token ("warehouse.manage" ∷ []) (gt_zero_given f.total_capacity_kg)
        (λ i user. answered (update_warehouse i w f))
  serve_desk (today, token, DeskCall.delete_warehouse_call w) =
      endpoint decode_token token ("warehouse.create" ∷ []) true (λ i user. delete_warehouse i w)
  serve_desk (today, token, DeskCall.add_inventory_call w grain_type q k) =
      endpoint decode_token token ("warehouse.manage" ∷ []) (gt_zero q)
        (λ i user. answered (add_inventory i w grain_type q k))
  serve_desk (today, token, DeskCall.create_slot_call w slot_date start_time end_time capacity k) =
      endpoint decode_token token ("warehouse.manage" ∷ []) (gt_zero capacity)
        (λ i user. answered (create_slot i w slot_date start_time end_time capacity k))
  serve_desk (today, token, DeskCall.update_slot_call s status capacity) =
      endpoint decode_token token ("warehouse.manage" ∷ []) (gt_zero_given capacity)
        (λ i user. answered (update_slot i s status capacity))
  serve_desk (today, token, DeskCall.delete_slot_call s) =
      endpoint decode_token token ("warehouse.manage" ∷ []) true (λ i user. delete_slot i s)

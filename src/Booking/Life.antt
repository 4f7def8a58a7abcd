-- ===== src/Booking/Life.antt =====
-- The life of a booking as a state machine, which the handlers of services/booking_service.py and
-- the inspection of services/grain_sale_service.py refine.
use mathlib.Core.Path.{subst}
use agri_flow.Prelude.{
  ℕ, ◌≡◌, refl, sym, inl, inr, true, false, Bool, some, String, Option, Bool-cases, Option-cases,
}
use agri_flow.Prelude.Decimal.{Decimal}
use agri_flow.Prelude.Growth.{AtMostOne, Follows, Follows-same, Follows-change, Follows-new}
use agri_flow.Prelude.Table.{lookup}
use agri_flow.Exec.{Result-cases}
use agri_flow.Enums.{BookingStatus}
use agri_flow.Models.{User, BookingSlot, Db}
use agri_flow.Session.{Session}
use agri_flow.Booking.Admit.{Request, admit}
use agri_flow.Booking.{
  valid_transition, is_cancelled, new_booking, create_booking, moved, may_change,
  update_booking_status,
}
use agri_flow.Grain.{is_delivered, inspect_booking}
use agri_flow.Grain.Inspection.{inspect_booking-cases}

-- The table `_VALID_TRANSITIONS`: a booking is confirmed, and then delivered and inspected or
-- completed at once; what is inspected is completed; before its inspection it may be cancelled.
pub data Step : BookingStatus → BookingStatus → Type 0 where
  confirm : Step BookingStatus.pending BookingStatus.confirmed
  withdraw : Step BookingStatus.pending BookingStatus.cancelled
  deliver : Step BookingStatus.confirmed BookingStatus.delivered
  finish_early : Step BookingStatus.confirmed BookingStatus.completed
  call_off : Step BookingStatus.confirmed BookingStatus.cancelled
  inspect : Step BookingStatus.delivered BookingStatus.inspected
  send_back : Step BookingStatus.delivered BookingStatus.cancelled
  finish : Step BookingStatus.inspected BookingStatus.completed

abbrev pub is_over : BookingStatus → Bool
is_over BookingStatus.completed = true
is_over BookingStatus.cancelled = true
is_over _ = false

-- What one request may make of a booking: its status makes one step or none, whose it is and what it holds of which
-- warehouse and slot stays, and once it is completed or cancelled no column changes.
pub record Grown (old new : BookingSlot) : Type 0 where
  pub status : AtMostOne Step old.status new.status
  pub farmer_id : new.farmer_id ≡ old.farmer_id
  pub warehouse_id : new.warehouse_id ≡ old.warehouse_id
  pub warehouse_slot_id : new.warehouse_slot_id ≡ old.warehouse_slot_id
  pub booking_date : new.booking_date ≡ old.booking_date
  pub quantity_kg : new.quantity_kg ≡ old.quantity_kg
  pub over : is_over old.status ≡ true → new ≡ old

pub Grown-refl : (a : BookingSlot) → Grown a a
Grown-refl a = record {
  status = inl refl;
  farmer_id = refl;
  warehouse_id = refl;
  warehouse_slot_id = refl;
  booking_date = refl;
  quantity_kg = refl;
  over = λ h. refl;
}

valid_transition-Step : (a b : BookingStatus) → valid_transition a b ≡ true → Step a b
valid_transition-Step BookingStatus.pending BookingStatus.confirmed h = confirm
valid_transition-Step BookingStatus.pending BookingStatus.cancelled h = withdraw
valid_transition-Step BookingStatus.confirmed BookingStatus.delivered h = deliver
valid_transition-Step BookingStatus.confirmed BookingStatus.completed h = finish_early
valid_transition-Step BookingStatus.confirmed BookingStatus.cancelled h = call_off
valid_transition-Step BookingStatus.delivered BookingStatus.inspected h = inspect
valid_transition-Step BookingStatus.delivered BookingStatus.cancelled h = send_back
valid_transition-Step BookingStatus.inspected BookingStatus.completed h = finish
valid_transition-Step _ _ h = cc

valid_transition-open : (a b : BookingStatus) → valid_transition a b ≡ true → is_over a ≡ false
valid_transition-open BookingStatus.completed b h = cc
valid_transition-open BookingStatus.cancelled b h = cc
valid_transition-open _ b h = refl

delivered-transition :
    (a : BookingStatus) → is_delivered a ≡ true → valid_transition a BookingStatus.inspected ≡ true
delivered-transition BookingStatus.delivered h = refl
delivered-transition _ h = cc

-- a change of the status and the notes
moved-Grown :
    (b : BookingSlot) (new_status : BookingStatus) (notes : Option String)
    → valid_transition b.status new_status ≡ true
    → Grown b (record b { status = new_status; notes = notes })
moved-Grown b new_status notes valid =
    let still_open = valid_transition-open b.status new_status valid in
    record {
      status = inr (valid_transition-Step b.status new_status valid);
      farmer_id = refl;
      warehouse_id = refl;
      warehouse_slot_id = refl;
      booking_date = refl;
      quantity_kg = refl;
      over = λ h. absurd (cc);
    }

-- the booking that was under a key has grown
unfoldable pub IsGrown : ℕ → BookingSlot → Db → Type 0
IsGrown k old d = Follows Grown k old d.bookings

module _ (k : ℕ) (old : BookingSlot) where
  pub IsGrown-frame :
      (d e : Db) → e.bookings ≡ d.bookings → lookup k d.bookings ≡ some old → IsGrown k old e
  unfolding IsGrown
  IsGrown-frame d e same row =
      subst (Follows Grown k old) (sym same)
        (Follows-same Grown k old d.bookings (Grown-refl old) row)

  pub create_booking-IsGrown :
      (today farmer_id : ℕ) (r : Request) (i : ℕ) (s : Session)
      → lookup k s.db.bookings ≡ some old
      → IsGrown k old (create_booking today farmer_id r i s).1.db
  unfolding create_booking IsGrown
  create_booking-IsGrown today farmer_id r i s at_k =
      let inv = Follows-same Grown k old s.db.bookings (Grown-refl old) at_k in
      elim (Result-cases (admit today farmer_id r s.db)) [
        | inr (e, refused) ↦ rw refused inv
        | inl ((w, slot), passed) ↦ elim (Option-cases (lookup i s.db.bookings)) [
          | inr (x, taken) ↦ rw (passed, taken) inv
          | inl fresh ↦
              rw (passed, fresh)
                (Follows-new Grown k old s.db.bookings i (new_booking farmer_id r) fresh
                  (Grown-refl old) at_k)
        ]
      ]

  pub update_booking_status-IsGrown :
      (actor_id : ℕ) (actor : User) (i : ℕ) (new_status : BookingStatus) (notes : Option String)
      (s : Session)
      → lookup k s.db.bookings ≡ some old
      → IsGrown k old (update_booking_status actor_id actor i new_status notes s).1.db
  unfolding update_booking_status IsGrown
  update_booking_status-IsGrown actor_id actor i new_status notes s at_k =
      let inv = Follows-same Grown k old s.db.bookings (Grown-refl old) at_k in
      elim (Option-cases (lookup i s.db.bookings)) [
        | inl missing ↦ rw missing inv
        | inr (b, row) ↦ rw row (elim (Bool-cases (may_change actor_id actor new_status b)) [
          | inr forbidden ↦ rw forbidden inv
          | inl allowed ↦ rw allowed (elim (Bool-cases (valid_transition b.status new_status)) [
            | inr invalid ↦ rw invalid inv
            | inl valid ↦
                let grown =
                  Follows-change Grown k old s.db.bookings i b (moved b new_status notes) row
                    (Grown-refl old) (moved-Grown b new_status _ valid) at_k in
                rw valid (elim (Bool-cases (is_cancelled new_status)) [
                  | inl cancelled ↦ rw cancelled grown
                  | inr kept ↦ rw kept grown
                ])
          ])
        ])
      ]

  pub inspect_booking-IsGrown :
      (today inspector_id i : ℕ) (good bad : Decimal) (reason notes : Option String) (j : ℕ)
      (s : Session)
      → lookup k s.db.bookings ≡ some old
      → IsGrown k old (inspect_booking today inspector_id i good bad reason notes j s).1.db
  unfolding IsGrown
  inspect_booking-IsGrown today inspector_id i good bad reason notes j s at_k =
      let inv = Follows-same Grown k old s.db.bookings (Grown-refl old) at_k in
      elim (inspect_booking-cases today inspector_id i good bad reason notes j s) [
        | inl (refused, same) ↦ subst (IsGrown k old) (sym same) inv
        | inr (f, made, stored) ↦ subst (Follows Grown k old) (sym f.bookings) (
            Follows-change Grown k old s.db.bookings i f.booking _ f.booking_row (Grown-refl old)
              (moved-Grown f.booking BookingStatus.inspected f.booking.notes
                (delivered-transition f.booking.status f.delivered))
              at_k)
      ]

-- every booking stays in the table, and has grown
unfoldable pub BookingsGrow : Db → Db → Type 0
BookingsGrow d e = (k : ℕ) (old : BookingSlot) → lookup k d.bookings ≡ some old → IsGrown k old e

-- ===== src/Booking/Single.antt =====
-- The duplicate check of `create_booking` (services/booking_service.py), counted over the rows: a
-- farmer's active bookings of a slot.
use mathlib.Core.Path.{subst₂}
use agri_flow.Prelude.{
  ℕ, ◌+◌, ◌≤◌, ◌≡◌, refl, inl, inr, arith, Bool, true, ◌&&◌, String, Option, none, some, [], ◌∷◌,
  ◌==◌, ==_iff, is_id, Bool-cases, Option-cases, if◌then◌else◌,
}
use agri_flow.Prelude.Table.{
  Table, lookup, insert, select, count_by, count_by-insert, count_by-insert_new,
}
use agri_flow.Exec.{Result-cases}
use agri_flow.Enums.{BookingStatus}
use agri_flow.Models.{User, BookingSlot, Db}
use agri_flow.Session.{Session}
use agri_flow.Booking.{
  valid_transition, is_cancelled, may_change, moved, new_booking, create_booking,
  update_booking_status,
}
use agri_flow.Booking.Admit.{Request, admit, is_active_booking, is_duplicate}
use agri_flow.Booking.Admit.Facts.{admit-ok}

abbrev pub claims : ℕ → ℕ → BookingSlot → Bool
claims farmer_id i b =
    b.farmer_id == farmer_id && is_id i b.warehouse_slot_id && is_active_booking b.status

abbrev pub claim : ℕ → ℕ → BookingSlot → ℕ
claim farmer_id i b = if claims farmer_id i b then 1 else 0

pub record IsSingle (d : Db) : Type 0 where
  pub once : (farmer_id i : ℕ) → count_by (claim farmer_id i) d.bookings ≤ 1

select-count :
    (farmer_id i : ℕ) (t : Table BookingSlot)
    → select (claims farmer_id i) t ≡ []
    → count_by (claim farmer_id i) t ≡ 0
select-count farmer_id i [] e = refl
select-count farmer_id i (x ∷ t) e = elim (Bool-cases (claims farmer_id i x.1)) [
  | inl here ↦ absurd (cc (rw here at e))
  | inr apart ↦ rw apart (omega (arith, select-count farmer_id i t (rw apart at e)))
]

-- No step makes a booking active that was not.
active-before :
    (from to : BookingStatus)
    → valid_transition from to ≡ true
    → is_active_booking to ≡ true
    → is_active_booking from ≡ true
active-before BookingStatus.pending to v a = refl
active-before BookingStatus.confirmed to v a = refl
active-before BookingStatus.delivered BookingStatus.inspected v a = cc
active-before BookingStatus.delivered BookingStatus.cancelled v a = cc
active-before BookingStatus.delivered BookingStatus.pending v a = cc
active-before BookingStatus.delivered BookingStatus.confirmed v a = cc
active-before BookingStatus.delivered BookingStatus.delivered v a = cc
active-before BookingStatus.delivered BookingStatus.completed v a = cc
active-before BookingStatus.inspected BookingStatus.completed v a = cc
active-before BookingStatus.inspected BookingStatus.pending v a = cc
active-before BookingStatus.inspected BookingStatus.confirmed v a = cc
active-before BookingStatus.inspected BookingStatus.delivered v a = cc
active-before BookingStatus.inspected BookingStatus.inspected v a = cc
active-before BookingStatus.inspected BookingStatus.cancelled v a = cc
active-before BookingStatus.completed to v a = cc
active-before BookingStatus.cancelled to v a = cc

claim-moved :
    (farmer_id i : ℕ) (b : BookingSlot) (to : BookingStatus) (notes : Option String)
    → valid_transition b.status to ≡ true
    → claim farmer_id i (moved b to notes) ≤ claim farmer_id i b
claim-moved farmer_id i b to notes v = elim (Bool-cases (is_active_booking to)) [
  | inl a ↦ rw (a, active-before b.status to v a) (ground arith)
  | inr idle ↦ rw idle (ground arith)
]

new_claim :
    (farmer_id : ℕ) (r : Request) (t : Table BookingSlot) (asked : Option ℕ)
    → r.warehouse_slot_id ≡ asked
    → select (is_duplicate farmer_id r asked) t ≡ []
    → (f i : ℕ) → count_by (claim f i) t ≤ 1
    → count_by (claim f i) t + claim f i (new_booking farmer_id r) ≤ 1
unfolding is_duplicate
new_claim farmer_id r t none e h f i n = rw e (ground arith)
new_claim farmer_id r t (some j) e h f i n = elim (Bool-cases (farmer_id == f)) [
  | inr other ↦ rw other (ground arith)
  | inl own ↦ elim (Bool-cases (j == i)) [
    | inr apart ↦ rw (e, apart) (ground arith)
    | inl here ↦
        let z : count_by (claim f i) t ≡ 0 =
          subst₂ (λ g l. count_by (claim g l) t ≡ 0) ((==_iff farmer_id f).0 own)
            ((==_iff j i).0 here) (select-count farmer_id j t h) in
        rw (e, z) (ground arith)
  ]
]

-- A booking that is created leaves every farmer at most one active booking of each slot.
pub create_booking-IsSingle :
    (today farmer_id : ℕ) (r : Request) (k : ℕ) (s : Session)
    → IsSingle s.db
    → IsSingle (create_booking today farmer_id r k s).1.db
unfolding create_booking
create_booking-IsSingle today farmer_id r k s inv =
    elim (Result-cases (admit today farmer_id r s.db)) [
      | inr (e, refused) ↦ rw refused inv
      | inl ((w, slot), passed) ↦ elim (Option-cases (lookup k s.db.bookings)) [
        | inr (old, taken) ↦ rw (passed, taken) inv
        | inl fresh ↦
            let adm = admit-ok today farmer_id r s.db w slot passed in
            rw (passed, fresh)
              (record {
                once = λ f i.
                    rw
                      (count_by-insert_new (claim f i) k (new_booking farmer_id r) s.db.bookings
                        fresh)
                      (new_claim farmer_id r s.db.bookings r.warehouse_slot_id refl adm.no_duplicate
                        f i (inv.once f i));
              })
      ]
    ]

-- A change of a booking's status, allowed or refused, leaves every farmer at most one active
-- booking of each slot.
pub update_booking_status-IsSingle :
    (actor_id : ℕ) (actor : User) (k : ℕ) (new_status : BookingStatus) (notes : Option String)
    (s : Session)
    → IsSingle s.db
    → IsSingle (update_booking_status actor_id actor k new_status notes s).1.db
unfolding update_booking_status
update_booking_status-IsSingle actor_id actor k new_status notes s inv =
    elim (Option-cases (lookup k s.db.bookings)) [
      | inl missing ↦ rw missing inv
      | inr (b, row) ↦ rw row (elim (Bool-cases (may_change actor_id actor new_status b)) [
        | inr forbidden ↦ rw forbidden inv
        | inl allowed ↦ rw allowed (elim (Bool-cases (valid_transition b.status new_status)) [
          | inr invalid ↦ rw invalid inv
          | inl valid ↦
              let after : (f i : ℕ)
                  → count_by (claim f i) (insert k (moved b new_status notes) s.db.bookings) ≤ 1 =
                λ f i. omega (
                  arith,
                  inv.once f i,
                  claim-moved f i b new_status notes valid,
                  count_by-insert (claim f i) k (moved b new_status notes) b s.db.bookings row,
                ) in
              rw valid (elim (Bool-cases (is_cancelled new_status)) [
                | inr going ↦ rw going (record { once = after })
                | inl gone ↦ rw gone (record { once = after })
              ])
        ])
      ])
    ]

-- ===== src/Pages/Lists.antt =====
-- The lists of the services, by the actor and the page asked for. The keys of the rows are kept.
-- Rows are inserted in the order of their creation, so the newest come first in the reverse one.
pub mod Own
use mathlib.Core.List.{reverse}
use agri_flow.Prelude.{
  ℕ, String, Bool, true, false, not, ◌&&◌, ◌||◌, Option, none, some, List, [], ◌∷◌, take, filter_by,
  ltb, leb, ◌==◌, is_some, if◌then◌else◌,
}
use agri_flow.Prelude.Table.{Table, rows_where}
use agri_flow.Enums.{
  UserRole, is_farmer, CropStatus, booking_status_text, payment_status_text, sale_status_text,
  crop_status_text, visit_status_text, bank_request_status_text,
}
use agri_flow.Models.{
  User, BookingSlot, WarehouseSlot, SeedPurchase, GrainSale, Transaction, Crop, FarmVisit,
  BankChangeRequest, Notification, AuditLog, Db,
}
use agri_flow.Booking.Admit.{is_bookable}
use agri_flow.Pages.{PageParams, listing, has_status}

-- who asks for a list
pub record Actor : Type 0 where
  pub id : ℕ
  pub role : UserRole

-- `if actor.role.value == "farmer"`: a farmer sees what is the farmer's own
abbrev pub may_see : Actor → ℕ → Bool
may_see actor farmer_id = not (is_farmer actor.role) || farmer_id == actor.id

-- `ORDER BY created_at DESC`
abbrev pub newest_first : {A : Type 0} → List A → List A
newest_first rows = reverse rows

unfoldable pub list_bookings_for_actor : Actor → PageParams → Db → Table BookingSlot × ℕ
unfolding listing
list_bookings_for_actor actor p d = listing p (
    newest_first (
      rows_where
        (λ b. may_see actor b.farmer_id && has_status p.status (booking_status_text b.status))
        d.bookings))

unfoldable pub list_purchases_for_actor : Actor → PageParams → Db → Table SeedPurchase × ℕ
unfolding listing
list_purchases_for_actor actor p d = listing p (
    newest_first (
      rows_where
        (λ b.
          may_see actor b.farmer_id && has_status p.status (payment_status_text b.payment_status))
        d.purchases))

unfoldable pub list_grain_sales_for_actor : Actor → PageParams → Db → Table GrainSale × ℕ
unfolding listing
list_grain_sales_for_actor actor p d = listing p (
    newest_first (
      rows_where (λ b. may_see actor b.farmer_id && has_status p.status (sale_status_text b.status))
        d.grain_sales))

unfoldable pub list_crops_for_actor : Actor → PageParams → Bool → Db → Table Crop × ℕ
unfolding listing
list_crops_for_actor actor p include_deleted d = listing p (
    newest_first (
      rows_where
        (λ c.
          may_see actor c.farmer_id
          && ((include_deleted || not (is_some c.deleted_at))
              && has_status p.status (crop_status_text c.status)))
        d.crops))

abbrev pub is_growing : CropStatus → Bool
is_growing CropStatus.growing = true
is_growing _ = false

unfoldable pub list_active_crops : PageParams → Db → Table Crop × ℕ
unfolding listing
list_active_crops p d =
    listing p
      (newest_first (rows_where (λ c. is_growing c.status && not (is_some c.deleted_at)) d.crops))

unfoldable pub list_bank_change_requests : PageParams → Db → Table BankChangeRequest × ℕ
unfolding listing
list_bank_change_requests p d = listing p (
    newest_first
      (rows_where (λ r. has_status p.status (bank_request_status_text r.status)) d.bank_requests))

-- a stable sort: `before` is a strict order
module _ {A : Type 0} (before : A → A → Bool) where
  abbrev pub insert_by : A → List A → List A
  insert_by x [] = x ∷ []
  insert_by x (y ∷ ys) = if before y x then y ∷ insert_by x ys else x ∷ y ∷ ys

  abbrev pub sort_by : List A → List A
  sort_by [] = []
  sort_by (x ∷ xs) = insert_by x (sort_by xs)

-- `scheduled_date ASC NULLS LAST`
abbrev pub earlier_date : Option ℕ → Option ℕ → Bool
earlier_date none e = false
earlier_date (some d) none = true
earlier_date (some d) (some e) = ltb d e

abbrev pub earlier_visit : ℕ × FarmVisit → ℕ × FarmVisit → Bool
earlier_visit a b = earlier_date a.1.scheduled_date b.1.scheduled_date

unfoldable pub list_visits_for_actor : Actor → PageParams → Db → Table FarmVisit × ℕ
unfolding listing
list_visits_for_actor actor p d = listing p (
    sort_by earlier_visit (
      newest_first (
        rows_where
          (λ v. may_see actor v.farmer_id && has_status p.status (visit_status_text v.status))
          d.farm_visits)))

-- The crop, if one is given, is the visit's.
unfoldable pub list_own_visits : ℕ → Option ℕ → Db → Table FarmVisit
list_own_visits farmer_id crop_id d = sort_by earlier_visit (
    newest_first (
      rows_where
        (λ v. v.farmer_id == farmer_id && elim crop_id [ none ↦ true | some c ↦ v.crop_id == c ])
        d.farm_visits))

-- `created_on` gives the day of an entry's creation, which the rows leave out.
unfoldable pub list_transactions_for_actor :
    (ℕ → ℕ) → Actor → PageParams → Option ℕ → Option ℕ → Db → Table Transaction × ℕ
unfolding listing
list_transactions_for_actor created_on actor p from_date to_date d = listing p (
    newest_first (
      filter_by
        (λ (k, t).
          elim from_date [ none ↦ true | some f ↦ leb f (created_on k) ]
          && elim to_date [ none ↦ true | some t ↦ leb (created_on k) t ])
        (rows_where (λ t. may_see actor t.farmer_id) d.transactions)))

unfoldable pub list_for_user : ℕ → PageParams → Db → List Notification × ℕ
unfolding listing
list_for_user user_id p d =
    listing p (newest_first (filter_by (λ n. n.user_id == user_id) d.notifications))

unfoldable pub list_audit_logs : PageParams → Db → List AuditLog × ℕ
unfolding listing
list_audit_logs p d = listing p (newest_first d.audit_logs)

-- `slot_date DESC, start_time`
abbrev pub earlier_slot : ℕ × WarehouseSlot → ℕ × WarehouseSlot → Bool
earlier_slot a b =
    ltb b.1.slot_date a.1.slot_date
    || a.1.slot_date == b.1.slot_date && ltb a.1.start_time b.1.start_time

-- the day asked for, or the days from today on where neither a day nor a warehouse is
abbrev pub in_window : ℕ → Option ℕ → Option ℕ → WarehouseSlot → Bool
in_window today warehouse_id (some day) s = s.slot_date == day
in_window today none none s = leb today s.slot_date
in_window today (some w) none s = true

unfoldable pub list_slots_filtered : ℕ → Option ℕ → Option ℕ → Bool → Db → Table WarehouseSlot
list_slots_filtered today warehouse_id slot_date include_inactive d = take 500 (
    sort_by earlier_slot (
      rows_where
        (λ s.
          elim warehouse_id [ none ↦ true | some w ↦ s.warehouse_id == w ]
          && (in_window today warehouse_id slot_date s
              && (include_inactive || is_bookable s.status)))
        d.slots))

-- ===== src/Crops/Visits.antt =====
-- services/crop_service.py: the farm visits to a crop, the reminders of them and the field scans.
pub mod Reminders
pub mod Scans
pub mod Owned
use text.Mathlib.Text.{◌==◌ as str_eq}
use agri_flow.Prelude.{
  ℕ, ◌+◌, String, Bool, true, false, not, ◌&&◌, ◌||◌, Option, none, some, List, [], ◌∷◌, length,
  ltb, leb, ◌==◌, is_some, is_id, given, if◌then◌else◌,
}
use agri_flow.Prelude.Int.{ℤ, pos, sub_ℕ, ◌+ℤ◌, leb_ℤ, floor_div, clamp}
use agri_flow.Prelude.Decimal.{Decimal}
use agri_flow.Prelude.Table.{Table, lookup, insert, select}
use agri_flow.Errors.{Error, Result, ok}
use agri_flow.Exec.{pure, raise_if, when, ◌>>=◌, ◌>>◌}
use agri_flow.Enums.{UserRole, VisitStatus, NotificationType}
use agri_flow.Models.{Crop, FarmVisit, Notification, Db}
use agri_flow.Session.{Action, query, write}
use agri_flow.Notify.{notify_user, notify_roles, audit}
use agri_flow.Warehouses.{is_known_user}
use agri_flow.Crops.{add_visit, get_own_active_crop}
use agri_flow.Exec.Pure

abbrev pub set_visit : ℕ → FarmVisit → Db → Db
set_visit k v d = record d { farm_visits = insert k v d.farm_visits }

-- the foreign key of `staff_id`
abbrev pub check_staff : Option ℕ → Db → Result (Unit {0})
check_staff staff_id d = Pure.guard_not (not (is_known_user staff_id d)) Error.integrity

abbrev pub or_else : {A : Type 0} → Option A → Option A → Option A
or_else none old = old
or_else (some a) old = some a

unfoldable pub schedule_visit : ℕ → ℕ → Option ℕ → Option ℕ → Action FarmVisit
unfolding audit
schedule_visit manager_id visit_id staff_id scheduled_date = do
  visit ← query (λ d. Pure.found (lookup visit_id d.farm_visits) Error.not_found)
  let visit' : FarmVisit = record visit {
    staff_id = or_else staff_id visit.staff_id;
    scheduled_date = or_else scheduled_date visit.scheduled_date;
  }
  query (check_staff staff_id)
  write (set_visit visit_id visit')
  audit (some manager_id) "visit.schedule" (some "farm_visit") (some visit_id)
  pure visit'

abbrev pub completed_visit :
    ℕ → Decimal → String → Option String → Option String → FarmVisit → FarmVisit
completed_visit today verified_acres report diagnosis recommendation visit = record visit {
  status = VisitStatus.completed;
  verified_acres = some verified_acres;
  report = some report;
  actual_date = some (given visit.actual_date today);
  diagnosis = or_else diagnosis visit.diagnosis;
  recommendation = or_else recommendation visit.recommendation;
}

-- The crop that is read afterwards is for the message only.
unfoldable pub complete_visit :
    ℕ → ℕ → ℕ → Decimal → String → Option String → Option String → Action FarmVisit
unfolding notify_user audit
complete_visit today manager_id visit_id verified_acres report diagnosis recommendation = do
  visit ← query (λ d. Pure.found (lookup visit_id d.farm_visits) Error.not_found)
  let visit' : FarmVisit =
      completed_visit today verified_acres report diagnosis recommendation visit
  write (set_visit visit_id visit')
  notify_user visit.farmer_id "Field inspection" NotificationType.success "farm_visit" visit_id
  audit (some manager_id) "visit.complete" (some "farm_visit") (some visit_id)
  pure visit'

abbrev pub is_visit_of : ℕ → ℕ → FarmVisit → Bool
is_visit_of crop_id visit_month v = v.crop_id == crop_id && v.visit_month == visit_month

abbrev pub check_month : ℕ → ℕ → Db → Result (Option FarmVisit)
check_month crop_id visit_month d =
    Pure.scalar_one_or_none (select (is_visit_of crop_id visit_month) d.farm_visits)

abbrev pub assigned_visit : ℕ → Crop → ℕ → ℕ → Option ℕ → FarmVisit
assigned_visit crop_id crop visit_month scheduled_date staff_id = record {
  crop_id = crop_id;
  farmer_id = crop.farmer_id;
  staff_id = staff_id;
  visit_month = visit_month;
  scheduled_date = some scheduled_date;
  actual_date = none;
  status = VisitStatus.scheduled;
  verified_acres = none;
  report = none;
  notes = none;
  image_path = none;
  diagnosis = none;
  recommendation = none;
}

abbrev pub notify_staff : Option ℕ → ℕ → Action (Unit {0})
unfolding notify_user
notify_staff none visit_id = pure tt
notify_staff (some i) visit_id =
    notify_user i "Farm visit assigned" NotificationType.info "farm_visit" visit_id

unfoldable pub create_visit : ℕ → ℕ → ℕ → ℕ → Option ℕ → ℕ → Action FarmVisit
unfolding notify_user audit
create_visit manager_id crop_id visit_month scheduled_date staff_id visit_id = do
  crop ← query (λ d. Pure.found (lookup crop_id d.crops) Error.not_found)
  existing ← query (check_month crop_id visit_month)
  raise_if (is_some existing) Error.conflict
  let visit : FarmVisit = assigned_visit crop_id crop visit_month scheduled_date staff_id
  query (check_staff staff_id)
  add_visit visit_id visit
  notify_user crop.farmer_id "Farm visit scheduled" NotificationType.info "farm_visit" visit_id
  notify_staff staff_id visit_id
  audit (some manager_id) "visit.create" (some "farm_visit") (some visit_id)
  pure visit

abbrev pub is_scheduled : VisitStatus → Bool
is_scheduled VisitStatus.scheduled = true
is_scheduled _ = false

-- `FarmVisit.scheduled_date == target`; `days_ahead` is any integer.
abbrev pub is_due : ℕ → ℤ → FarmVisit → Bool
is_due today days_ahead v = is_scheduled v.status && elim v.scheduled_date [
  | none ↦ false
  | some d ↦ let target = pos today +ℤ days_ahead in leb_ℤ (pos d) target && leb_ℤ target (pos d)
]

-- a row of the subquery `already_notified`
abbrev pub is_reminder : ℕ → FarmVisit → Notification → Bool
is_reminder k v n =
    elim n.reference_type [ none ↦ false | some t ↦ str_eq t "farm_visit" ]
    && (is_id k n.reference_id
        && (n.user_id == v.farmer_id && str_eq n.title "Upcoming farm visit"))

abbrev pub already_notified : ℕ → FarmVisit → List Notification → Bool
already_notified k v [] = false
already_notified k v (n ∷ ns) = is_reminder k v n || already_notified k v ns

unfoldable pub due_visits : ℕ → ℤ → List Notification → Table FarmVisit → Table FarmVisit
due_visits today days_ahead ns [] = []
due_visits today days_ahead ns ((k, v) ∷ t) =
    let rest = due_visits today days_ahead ns t in
    if is_due today days_ahead v && not (already_notified k v ns) then (k, v) ∷ rest else rest

unfoldable pub remind : Table FarmVisit → Action (Unit {0})
unfolding notify_user
remind [] = pure tt
remind ((k, v) ∷ t) = do
  notify_user v.farmer_id "Upcoming farm visit" NotificationType.info "farm_visit" k
  remind t

abbrev pub is_any : Table FarmVisit → Bool
is_any [] = false
is_any (x ∷ t) = true

unfoldable pub send_visit_reminders : ℕ → ℕ → ℤ → Action ℕ
unfolding audit
send_visit_reminders today actor_id days_ahead = do
  visits ← query (λ d. ok (due_visits today days_ahead d.notifications d.farm_visits))
  remind visits
  when (is_any visits) (audit (some actor_id) "visit.reminders_sent" (some "farm_visit") none)
  pure (length visits)

-- `(on_day - crop.sowing_date).days // 30 + 1`, from 1 to 6
unfoldable pub visit_month_for : ℕ → ℕ → ℕ
unfolding clamp floor_div ◌+ℤ◌
visit_month_for sowing_date on_day = clamp 1 6 (floor_div (sub_ℕ on_day sowing_date) 30 +ℤ pos 1)

abbrev pub scan_visit : ℕ → ℕ → ℕ → Crop → String → Option String → FarmVisit
scan_visit today farmer_id crop_id crop image_path notes = record {
  crop_id = crop_id;
  farmer_id = farmer_id;
  staff_id = none;
  visit_month = visit_month_for crop.sowing_date today;
  scheduled_date = some today;
  actual_date = some today;
  status = VisitStatus.pending_review;
  verified_acres = none;
  report = none;
  notes = notes;
  image_path = some image_path;
  diagnosis = none;
  recommendation = none;
}

unfoldable pub submit_scan : ℕ → ℕ → ℕ → String → Option String → ℕ → Action FarmVisit
unfolding notify_roles audit
submit_scan today farmer_id crop_id image_path notes visit_id = do
  crop ← query (get_own_active_crop farmer_id crop_id)
  let visit : FarmVisit = scan_visit today farmer_id crop_id crop image_path notes
  add_visit visit_id visit
  notify_roles (UserRole.manager ∷ UserRole.super_admin ∷ []) "Crop scan awaiting review"
      NotificationType.info "farm_visit" visit_id
  audit (some farmer_id) "crop.scan" (some "farm_visit") (some visit_id)
  pure visit

-- ===== src/Tests/Field.antt =====
-- Crops, visits, lists and pages on the small database: a crop (21) of the farmer with a visit (22).
use agri_flow.Prelude.{
  ℕ, ◌+◌, ◌-◌, ◌*◌, ◌≤◌, ◌<◌, ◌≡◌, refl, arith, String, false, Option, none, some, List, [], ◌∷◌,
  ◌++◌, length,
}
use agri_flow.Prelude.Int.{pos, ◌+ℤ◌}
use agri_flow.Prelude.Table.{lookup, AllRows}
use agri_flow.Errors.{ok, err, Error}
use agri_flow.Enums.{UserRole, VisitStatus}
use agri_flow.Models.{Crop, FarmVisit, FarmerProfile, Db}
use agri_flow.Session.{Session, World, open_session}
use agri_flow.Crops.{
  loaded, CropRequest, new_crop, active_acres, visit_months, plan_visits, register_crop,
}
use agri_flow.Crops.Visits.{
  visit_month_for, scan_visit, submit_scan, due_visits, send_visit_reminders,
}
use agri_flow.Crops.Visits.Reminders.{reminders, send_visit_reminders-again}
use agri_flow.Crops.Visits.Scans.{visit_month_for_lem, submit_scan-ok}
use agri_flow.Crops.Visits.Owned.{IsOwned, IsVisit}
use agri_flow.Auth.{new_profile}
use agri_flow.Api.{requests}
use agri_flow.Api.Field.{FieldCall, serve_field}
use agri_flow.Api.Field.Owned.{field-IsOwned}
use agri_flow.Pages.{PageParams, total_pages}
use agri_flow.Pages.Whole.{first_pages, first_pages-total}
use agri_flow.Pages.Lists.{
  Actor, list_bookings_for_actor, list_purchases_for_actor, list_grain_sales_for_actor,
  list_crops_for_actor, list_visits_for_actor,
}
use agri_flow.Pages.Lists.Own.{lists-own}
use agri_flow.Progress.{round_nat, span, stage_progress_percent}
use agri_flow.Progress.Percent.{stage_progress_percent_lem}
use agri_flow.Tests.Data.{base, world, decode}

abbrev request : CropRequest
request = record {
  crop_type = "Rice";
  acres = pos 200;
  sowing_date = 10;
  crop_name = none;
  harvest_date = none;
  stage = none;
  notes = none;
}

abbrev crop : Crop
crop = new_crop 7 request

abbrev visit : FarmVisit
visit = record {
  crop_id = 21;
  farmer_id = 7;
  staff_id = none;
  visit_month = 1;
  scheduled_date = some 40;
  actual_date = none;
  status = VisitStatus.scheduled;
  verified_acres = none;
  report = none;
  notes = none;
  image_path = none;
  diagnosis = none;
  recommendation = none;
}

abbrev plot : Db
plot = record base { crops = (21, crop) ∷ []; farm_visits = (22, visit) ∷ [] }

abbrev plot_world : World
plot_world = record world { committed = plot }

abbrev session : Session
session = open_session plot_world

abbrev profile : FarmerProfile
profile = record (new_profile 7) { acres_of_land = pos 500 }

register_runs :
    (register_crop 7 (loaded (some profile)) request 23 (λ m. 30 + m) session).0 ≡ ok crop
unfolding register_crop plan_visits visit_months active_acres ◌+ℤ◌
register_runs = refl

register_refused :
    (register_crop 7
      (loaded (some (record profile { acres_of_land = pos 300 })))
      request
      23
      (λ m. 30 + m)
      session).0
    ≡ err Error.validation
unfolding register_crop active_acres ◌+ℤ◌
register_refused = refl

send_visit_reminders-again_example :
    let visits = due_visits 38 (pos 2) [] ((22, visit) ∷ []) in
    let first = send_visit_reminders 38 8 (pos 2) session in
    (first.0 ≡ ok (length visits))
    × (first.1.db.notifications ≡ [] ++ reminders visits)
    × ((send_visit_reminders 38 8 (pos 2) first.1).0 ≡ ok 0)
send_visit_reminders-again_example = send_visit_reminders-again 38 8 8 (pos 2) session

one_due : due_visits 38 (pos 2) [] ((22, visit) ∷ []) ≡ (22, visit) ∷ []
unfolding due_visits ◌+ℤ◌
one_due = refl

visit_month_for_lem_example :
    let m = visit_month_for 10 75 in
    (1 ≤ m)
    × (m ≤ 6)
    × (75 ≤ 10 → m ≡ 1)
    × (10 ≤ 75 → 75 < 10 + 180 → (10 + 30 * (m - 1) ≤ 75) × (75 < 10 + 30 * m))
    × (10 + 180 ≤ 75 → m ≡ 6)
visit_month_for_lem_example = visit_month_for_lem 10 75

submit_scan-ok_example :
    let done = submit_scan 50 7 21 "scan.jpg" none 24 session in
    let scan = scan_visit 50 7 21 crop "scan.jpg" none in
    (done.0 ≡ ok scan) × (lookup 24 done.1.db.farm_visits ≡ some scan)
submit_scan-ok_example = submit_scan-ok 50 7 21 "scan.jpg" none 24 session crop refl refl refl refl

abbrev calls : List (ℕ × Option String × FieldCall)
calls =
    (50, some "farmer", FieldCall.register_own_crop_call request none 23 (λ m. 30 + m))
    ∷ (50, some "farmer", FieldCall.scan_crop_call 21 none (ok "scan.jpg") 24)
    ∷ (51, some "manager", FieldCall.create_visit_call 21 3 90 (some 8) 25)
    ∷ []

plot-IsOwned : IsOwned plot.crops plot
unfolding IsOwned IsVisit
plot-IsOwned = (refl, ((refl, (crop, refl, refl)), tt))

field-IsOwned_example :
    IsOwned plot.crops (requests (serve_field decode) calls plot_world).committed
field-IsOwned_example = field-IsOwned decode calls plot_world plot-IsOwned

abbrev three : List ℕ
three = 5 ∷ 6 ∷ 7 ∷ []

first_pages-total_example : first_pages none 2 (total_pages 3 2) three ≡ three
first_pages-total_example = first_pages-total none 2 three (omega arith)

abbrev own : Actor
own = record { id = 7; role = UserRole.farmer }

abbrev params : PageParams
params = record { page = 1; page_size = 20; status = none }

lists-own_example :
    AllRows (λ b. b.farmer_id ≡ 7) (list_bookings_for_actor own params plot).0
    × AllRows (λ b. b.farmer_id ≡ 7) (list_purchases_for_actor own params plot).0
    × AllRows (λ b. b.farmer_id ≡ 7) (list_grain_sales_for_actor own params plot).0
    × AllRows (λ c. c.farmer_id ≡ 7) (list_crops_for_actor own params false plot).0
    × AllRows (λ v. v.farmer_id ≡ 7) (list_visits_for_actor own params plot).0
lists-own_example = lists-own own params false plot refl

stage_progress_percent_lem_example :
    let p = stage_progress_percent crop 40 in
    (p ≤ 100)
    × (40 ≤ crop.sowing_date → p ≡ 0)
    × (crop.sowing_date + span crop ≤ 40 → p ≡ 100)
    × (crop.sowing_date ≤ 40
        → 40 < crop.sowing_date + span crop
        → (2 * (span crop * p) ≤ 200 * (40 - crop.sowing_date) + span crop)
          × (200 * (40 - crop.sowing_date) ≤ 2 * (span crop * p) + span crop))
stage_progress_percent_lem_example = stage_progress_percent_lem crop 40

half_to_even : (round_nat 5 2 ≡ 2) × (round_nat 7 2 ≡ 4)
unfolding round_nat
half_to_even = (refl, refl)

rice_span : span crop ≡ 120
unfolding span
rice_span = refl

-- ===== src/Crops/Visits/Scans.antt =====
-- The month of a field scan in services/crop_service.py, and its acceptance.
use agri_flow.Prelude.{
  ℕ, ◌+◌, ◌-◌, ◌*◌, ◌≤◌, ◌<◌, ◌≡◌, refl, arith, String, Option, none, some, true, ==_refl,
}
use agri_flow.Prelude.Int.{pos, sub_ℕ, ◌+ℤ◌, floor_div, clamp, clamp_bounds}
use agri_flow.Prelude.Table.{lookup, lookup-insert_self}
use agri_flow.Errors.{ok}
use agri_flow.Models.{Crop, Db}
use agri_flow.Session.{Session}
use agri_flow.Notify.{notify_roles, audit}
use agri_flow.Crops.{is_visit_month, get_own_crop, get_own_active_crop}
use agri_flow.Crops.Visits.{visit_month_for, scan_visit, submit_scan}

pub visit_month_for-IsMonth :
    (sowing_date on_day : ℕ) → is_visit_month (visit_month_for sowing_date on_day) ≡ true
unfolding visit_month_for
visit_month_for-IsMonth sowing_date on_day =
    let b = clamp_bounds 1 6 (floor_div (sub_ℕ on_day sowing_date) 30 +ℤ pos 1) (omega arith) in
    ground arith

-- The month of a scan is from 1 to 6. On or before the day of sowing it is 1; in the 180 days from
-- sowing on it is the block of thirty days that the day lies in; after them it is 6.
pub visit_month_for_lem :
    (sowing_date on_day : ℕ)
    → let m = visit_month_for sowing_date on_day in
      (1 ≤ m)
      × (m ≤ 6)
      × (on_day ≤ sowing_date → m ≡ 1)
      × (sowing_date ≤ on_day
          → on_day < sowing_date + 180
          → (sowing_date + 30 * (m - 1) ≤ on_day) × (on_day < sowing_date + 30 * m))
      × (sowing_date + 180 ≤ on_day → m ≡ 6)
unfolding visit_month_for clamp floor_div ◌+ℤ◌
visit_month_for_lem sowing_date on_day = ground arith

get_own_active_crop_lem :
    (farmer_id crop_id : ℕ) (d : Db) (crop : Crop)
    → lookup crop_id d.crops ≡ some crop
    → crop.farmer_id ≡ farmer_id
    → crop.deleted_at ≡ none
    → get_own_active_crop farmer_id crop_id d ≡ ok crop
get_own_active_crop_lem farmer_id crop_id d crop row own live =
    let mine : get_own_crop farmer_id crop_id d ≡ ok crop =
      rw (row, get_own_crop) (rw (own, ==_refl farmer_id) refl) in
    rw (mine, live) refl

-- A farmer's scan of an own crop that is not deleted, under a key that is free, is accepted on any
-- day, and its row is then in the table of visits.
pub submit_scan-ok :
    (today farmer_id crop_id : ℕ) (image_path : String) (notes : Option String) (visit_id : ℕ)
    (s : Session) (crop : Crop)
    → lookup crop_id s.db.crops ≡ some crop
    → crop.farmer_id ≡ farmer_id
    → crop.deleted_at ≡ none
    → lookup visit_id s.db.farm_visits ≡ none
    → let done = submit_scan today farmer_id crop_id image_path notes visit_id s in
      let visit = scan_visit today farmer_id crop_id crop image_path notes in
      (done.0 ≡ ok visit) × (lookup visit_id done.1.db.farm_visits ≡ some visit)
unfolding submit_scan notify_roles audit
submit_scan-ok today farmer_id crop_id image_path notes visit_id s crop row own live fresh =
    rw (get_own_active_crop_lem farmer_id crop_id s.db crop row own live) (
      rw (visit_month_for-IsMonth crop.sowing_date today, fresh)
        (
          refl,
          lookup-insert_self visit_id (scan_visit today farmer_id crop_id crop image_path notes)
              s.db.farm_visits,
        ))

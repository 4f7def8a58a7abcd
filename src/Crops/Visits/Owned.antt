-- ===== src/Crops/Visits/Owned.antt =====
-- Farm visits against the crops that they are to (services/crop_service.py).
use agri_flow.Prelude.{
  ℕ, ◌≡◌, refl, sym, ap, ◌∙◌, inl, inr, true, String, Option, none, some, Bool-cases, Option-cases,
  arith,
}
use agri_flow.Prelude.Int.{ℤ}
use agri_flow.Prelude.Decimal.{Decimal}
use agri_flow.Prelude.Table.{Table, lookup, AllRows, AllRows-insert, AllRows-lookup}
use agri_flow.Errors.{ok}
use agri_flow.Exec.{Result-cases}
use agri_flow.Models.{Crop, FarmVisit, Db}
use agri_flow.Session.{Session}
use agri_flow.Notify.{notify_user, notify_roles, audit}
use agri_flow.Warehouses.{is_known_user}
use agri_flow.Crops.{is_visit_month, get_own_active_crop}
use agri_flow.Crops.Visits.{
  schedule_visit, complete_visit, check_month, create_visit, submit_scan, send_visit_reminders,
}
use agri_flow.Crops.Visits.Scans.{visit_month_for-IsMonth}
use agri_flow.Crops.Visits.Reminders.{send_visit_reminders_lem}

-- a visit in one of the six months, of the farmer whose crop it is to
unfoldable pub IsVisit : Table Crop → FarmVisit → Type 0
IsVisit cs v =
    (is_visit_month v.visit_month ≡ true)
    × ((crop : Crop) × (lookup v.crop_id cs ≡ some crop) × (crop.farmer_id ≡ v.farmer_id))

-- `cs` are the crops, and every visit is to one of them
unfoldable pub IsOwned : Table Crop → Db → Type 0
IsOwned cs d = (d.crops ≡ cs) × AllRows (IsVisit cs) d.farm_visits

module _ (cs : Table Crop) where
  pub schedule_visit-IsOwned :
      (manager_id visit_id : ℕ) (staff_id scheduled_date : Option ℕ) (s : Session)
      → IsOwned cs s.db
      → IsOwned cs (schedule_visit manager_id visit_id staff_id scheduled_date s).1.db
  unfolding IsOwned IsVisit schedule_visit audit
  schedule_visit-IsOwned manager_id visit_id staff_id scheduled_date s (same, rows) =
      elim (Option-cases (lookup visit_id s.db.farm_visits)) [
        | inl missing ↦ rw missing (same, rows)
        | inr (v, row) ↦ elim (Bool-cases (is_known_user staff_id s.db)) [
          | inr unknown ↦ rw (row, unknown) (same, rows)
          | inl known ↦
              rw (row, known)
                (
                  same,
                  AllRows-insert (IsVisit cs) visit_id _ s.db.farm_visits rows
                      (AllRows-lookup (IsVisit cs) visit_id v s.db.farm_visits rows row),
                )
        ]
      ]

  pub complete_visit-IsOwned :
      (today manager_id visit_id : ℕ) (acres : Decimal) (report : String)
      (diagnosis recommendation : Option String) (s : Session)
      → IsOwned cs s.db
      → IsOwned cs
          (complete_visit today manager_id visit_id acres report diagnosis recommendation s).1.db
  unfolding IsOwned IsVisit complete_visit notify_user audit
  complete_visit-IsOwned today manager_id visit_id acres report diagnosis recommendation s
        (same, rows) =
      elim (Option-cases (lookup visit_id s.db.farm_visits)) [
        | inl missing ↦ rw missing (same, rows)
        | inr (v, row) ↦ rw row (
          same,
          AllRows-insert (IsVisit cs) visit_id _ s.db.farm_visits rows
              (AllRows-lookup (IsVisit cs) visit_id v s.db.farm_visits rows row),
        )
      ]

  pub create_visit-IsOwned :
      (manager_id crop_id visit_month scheduled_date : ℕ) (staff_id : Option ℕ) (visit_id : ℕ)
      (s : Session)
      → IsOwned cs s.db
      → IsOwned cs
          (create_visit manager_id crop_id visit_month scheduled_date staff_id visit_id s).1.db
  unfolding IsOwned IsVisit create_visit notify_user audit
  create_visit-IsOwned manager_id crop_id visit_month scheduled_date staff_id visit_id s
        (same, rows) =
      elim (Option-cases (lookup crop_id s.db.crops)) [
        | inl missing ↦ rw missing (same, rows)
        | inr (crop, row) ↦ elim (Result-cases (check_month crop_id visit_month s.db)) [
          | inr (x, many) ↦ rw (row, many) (same, rows)
          | inl (some old, taken) ↦ rw (row, taken) (same, rows)
          | inl (none, free) ↦ elim (Bool-cases (is_known_user staff_id s.db)) [
            | inr unknown ↦ rw (row, free, unknown) (same, rows)
            | inl known ↦ elim (Bool-cases (is_visit_month visit_month)) [
              | inr bad ↦ rw (row, free, known, bad) (same, rows)
              | inl good ↦ elim (Option-cases (lookup visit_id s.db.farm_visits)) [
                | inr (x, used) ↦ rw (row, free, known, good, used) (same, rows)
                | inl fresh ↦
                    let crop_row : lookup crop_id cs ≡ some crop =
                      ap (lookup crop_id) (sym same) ∙ row in
                    elim (Option-cases staff_id) [
                      | inl e ↦
                          rw (row, free, known, good, fresh, e)
                            (
                              same,
                              AllRows-insert (IsVisit cs) visit_id _ s.db.farm_visits rows
                                  (good, (crop, crop_row, refl)),
                            )
                      | inr (i, e) ↦
                          rw (row, free, known, good, fresh, e)
                            (
                              same,
                              AllRows-insert (IsVisit cs) visit_id _ s.db.farm_visits rows
                                  (good, (crop, crop_row, refl)),
                            )
                    ]
              ]
            ]
          ]
        ]
      ]

  get_own_active_crop-ok :
      (farmer_id crop_id : ℕ) (d : Db) (crop : Crop)
      → get_own_active_crop farmer_id crop_id d ≡ ok crop
      → (lookup crop_id d.crops ≡ some crop) × (crop.farmer_id ≡ farmer_id)
  get_own_active_crop-ok farmer_id crop_id d crop h = ground arith

  pub submit_scan-IsOwned :
      (today farmer_id crop_id : ℕ) (image_path : String) (notes : Option String) (visit_id : ℕ)
      (s : Session)
      → IsOwned cs s.db
      → IsOwned cs (submit_scan today farmer_id crop_id image_path notes visit_id s).1.db
  unfolding IsOwned IsVisit submit_scan notify_roles audit
  submit_scan-IsOwned today farmer_id crop_id image_path notes visit_id s (same, rows) =
      elim (Result-cases (get_own_active_crop farmer_id crop_id s.db)) [
        | inr (x, e) ↦ rw e (same, rows)
        | inl (crop, e) ↦
            let (row, own) = get_own_active_crop-ok farmer_id crop_id s.db crop e in
            let month = visit_month_for-IsMonth crop.sowing_date today in
            elim (Option-cases (lookup visit_id s.db.farm_visits)) [
              | inr (x, used) ↦ rw e (rw (month, used) (same, rows))
              | inl fresh ↦ rw e (
                  rw (month, fresh)
                    (
                      same,
                      AllRows-insert (IsVisit cs) visit_id _ s.db.farm_visits rows
                          (month, (crop, ap (lookup crop_id) (sym same) ∙ row, own)),
                    ))
            ]
      ]

  pub send_visit_reminders-IsOwned :
      (today actor_id : ℕ) (days_ahead : ℤ) (s : Session)
      → IsOwned cs s.db
      → IsOwned cs (send_visit_reminders today actor_id days_ahead s).1.db
  unfolding IsOwned IsVisit
  send_visit_reminders-IsOwned today actor_id days_ahead s (same, rows) =
      let (done, notes, visits, crops) = send_visit_reminders_lem today actor_id days_ahead s in
      (crops ∙ same, rw visits rows)

-- ===== src/Api/Field/Owned.antt =====
-- Api.Field against the crops and the visits to them.
use agri_flow.Prelude.{ℕ, inl, inr, String, Option, List}
use agri_flow.Errors.{Result}
use agri_flow.Exec.{Result-cases}
use agri_flow.Models.{Crop}
use agri_flow.Prelude.Table.{Table}
use agri_flow.Session.{Session, World}
use agri_flow.Permissions.{Claims}
use agri_flow.Crops.{register_crop, get_own_active_crop, unloaded}
use agri_flow.Crops.Visits.{
  schedule_visit, complete_visit, create_visit, send_visit_reminders, submit_scan,
}
use agri_flow.Crops.Visits.Owned.{
  IsOwned, schedule_visit-IsOwned, complete_visit-IsOwned, create_visit-IsOwned,
  submit_scan-IsOwned, send_visit_reminders-IsOwned,
}
use agri_flow.Api.{answered, requests}
use agri_flow.Api.Keeps.{
  Keeps, answered-Keeps, endpoint-Keeps, farmer_endpoint-Keeps, requests-Keeps,
}
use agri_flow.Api.Field.{FieldCall, short_request, with_location, scan_crop, serve_field}

module _ (decode_token : String → Option Claims) (cs : Table Crop) where
  scan_crop-IsOwned :
      (now farmer_id crop_id : ℕ) (notes : Option String) (stored : Result String) (k : ℕ)
      (s : Session)
      → IsOwned cs s.db
      → IsOwned cs (scan_crop now farmer_id crop_id notes stored k s).1.db
  unfolding answered
  scan_crop-IsOwned now i crop_id notes stored k s p =
      elim (Result-cases (get_own_active_crop i crop_id s.db)) [
        | inr (x, e) ↦ rw e p
        | inl (crop, e) ↦ elim (Result-cases stored) [
          | inr (x, failed) ↦ rw e (rw failed p)
          | inl (path, kept) ↦
              let after = submit_scan-IsOwned cs now i crop_id path notes k s p in
              rw e (
                rw kept (elim (Result-cases (submit_scan now i crop_id path notes k s).0) [
                  | inl (v, done) ↦ rw done after
                  | inr (x, refused) ↦ rw refused after
                ]))
        ]
      ]

  serve_field-IsOwned :
      (c : ℕ × Option String × FieldCall) → Keeps (IsOwned cs) (serve_field decode_token c)
  unfolding serve_field register_crop
  serve_field-IsOwned
        (now, token, FieldCall.register_crop_call crop_type acres sowing_date k visit_id) =
      endpoint-Keeps (IsOwned cs) decode_token token _ _ _ λ i user v.
        answered-Keeps (IsOwned cs)
          (register_crop i unloaded (short_request crop_type acres sowing_date) k visit_id)
          λ s a h. absurd (cc h)
  serve_field-IsOwned (now, token, FieldCall.register_own_crop_call r location k visit_id) =
      farmer_endpoint-Keeps (IsOwned cs) decode_token token _ _ _ λ i user.
        answered-Keeps (IsOwned cs) (register_crop i unloaded (with_location r location) k visit_id)
          λ s a h. absurd (cc h)
  serve_field-IsOwned (now, token, FieldCall.update_crop_call crop_id) =
      farmer_endpoint-Keeps (IsOwned cs) decode_token token _ _ _ λ i user s a h. absurd (cc h)
  serve_field-IsOwned (now, token, FieldCall.delete_crop_call crop_id) =
      farmer_endpoint-Keeps (IsOwned cs) decode_token token _ _ _ λ i user s a h. absurd (cc h)
  serve_field-IsOwned (now, token, FieldCall.scan_crop_call crop_id notes stored k) =
      farmer_endpoint-Keeps (IsOwned cs) decode_token token _ _ _
        λ i user s a h p. scan_crop-IsOwned now i crop_id notes stored k s p
  serve_field-IsOwned (now, token, FieldCall.schedule_visit_call visit_id staff_id scheduled_date) =
      endpoint-Keeps (IsOwned cs) decode_token token _ _ _ λ i user v.
        answered-Keeps (IsOwned cs) (schedule_visit i visit_id staff_id scheduled_date)
          λ s a h. schedule_visit-IsOwned cs i visit_id staff_id scheduled_date s
  serve_field-IsOwned
        (now, token, FieldCall.complete_visit_call visit_id acres report diagnosis advice) =
      endpoint-Keeps (IsOwned cs) decode_token token _ _ _ λ i user v.
        answered-Keeps (IsOwned cs) (complete_visit now i visit_id acres report diagnosis advice)
          λ s a h. complete_visit-IsOwned cs now i visit_id acres report diagnosis advice s
  serve_field-IsOwned
        (now, token, FieldCall.create_visit_call crop_id month scheduled_date staff_id k) =
      endpoint-Keeps (IsOwned cs) decode_token token _ _ _ λ i user v.
        answered-Keeps (IsOwned cs) (create_visit i crop_id month scheduled_date staff_id k)
          λ s a h. create_visit-IsOwned cs i crop_id month scheduled_date staff_id k s
  serve_field-IsOwned (now, token, FieldCall.trigger_reminders_call days_ahead) =
      endpoint-Keeps (IsOwned cs) decode_token token _ _ _ λ i user v.
        answered-Keeps (IsOwned cs) (send_visit_reminders now i days_ahead)
          λ s a h. send_visit_reminders-IsOwned cs now i days_ahead s

-- From committed rows in which every farm visit is in one of the months 1 to 6 and of the farmer
-- whose crop it is to, any sequence of requests about crops and visits, each with its token, its
-- checks and its commit or rollback, commits rows of which the same holds, and leaves the table of
-- crops as it was: no request registers a crop, since each registration reads the farmer's profile,
-- which no query has loaded, and none edits or deletes one. The decoding of tokens is arbitrary.
pub field-IsOwned :
    (decode_token : String → Option Claims) (calls : List (ℕ × Option String × FieldCall))
    (w : World)
    → IsOwned w.committed.crops w.committed
    → IsOwned w.committed.crops (requests (serve_field decode_token) calls w).committed
field-IsOwned decode_token calls w owned =
    requests-Keeps (IsOwned w.committed.crops) (serve_field decode_token)
      (serve_field-IsOwned decode_token w.committed.crops) calls w owned

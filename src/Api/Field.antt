-- ===== src/Api/Field.antt =====
-- api/v1/crops.py, api/v1/farm_visits.py and api/v1/farmer/crops.py: the requests about crops and
-- the visits to them.
pub mod Owned
use agri_flow.Prelude.{ℕ, String, Bool, true, ◌&&◌, Option, none, [], ◌∷◌, given_text}
use agri_flow.Prelude.Int.{ℤ, pos, leb_ℤ}
use agri_flow.Prelude.Decimal.{Decimal}
use agri_flow.Errors.{Error, Result, err}
use agri_flow.Exec.{pure, lift, ◌>>=◌, ◌>>◌}
use agri_flow.Session.{Action, query}
use agri_flow.Permissions.{Claims}
use agri_flow.Crops.{unloaded, is_visit_month, CropRequest, register_crop, get_own_active_crop}
use agri_flow.Crops.Visits.{
  schedule_visit, complete_visit, create_visit, send_visit_reminders, submit_scan,
}
use agri_flow.Api.{answered, endpoint, farmer_endpoint}
use agri_flow.Api.Desk.{gt_zero}

-- An operation with its body. A registration has the key of the crop and those of its visits, a
-- new visit or scan its key. `Result String` is what the storage answers to the upload of a scan.
pub data FieldCall : Type 0 where
  register_crop_call : String → Decimal → ℕ → ℕ → (ℕ → ℕ) → FieldCall
  register_own_crop_call : CropRequest → Option String → ℕ → (ℕ → ℕ) → FieldCall
  update_crop_call : ℕ → FieldCall
  delete_crop_call : ℕ → FieldCall
  scan_crop_call : ℕ → Option String → Result String → ℕ → FieldCall
  schedule_visit_call : ℕ → Option ℕ → Option ℕ → FieldCall
  complete_visit_call : ℕ → Decimal → String → Option String → Option String → FieldCall
  create_visit_call : ℕ → ℕ → ℕ → Option ℕ → ℕ → FieldCall
  trigger_reminders_call : ℤ → FieldCall

-- the body of `POST /crops`
abbrev pub short_request : String → Decimal → ℕ → CropRequest
short_request crop_type acres sowing_date = record {
  crop_type = crop_type;
  acres = acres;
  sowing_date = sowing_date;
  crop_name = none;
  harvest_date = none;
  stage = none;
  notes = none;
}

-- `notes or location`
abbrev pub with_location : CropRequest → Option String → CropRequest
with_location r location = record r { notes = given_text r.notes location }

abbrev pub scan_crop : ℕ → ℕ → ℕ → Option String → Result String → ℕ → Action (Unit {0})
scan_crop today farmer_id crop_id notes stored visit_id = do
  query (get_own_active_crop farmer_id crop_id)
  object_path ← lift stored
  answered (submit_scan today farmer_id crop_id object_path notes visit_id)

-- The user of a request is read by its key alone (`get_current_user`), and the relationship to the
-- profile is declared with `lazy="raise"`: it is unloaded.
module _ (decode_token : String → Option Claims) where
  unfoldable pub serve_field : ℕ × Option String × FieldCall → Action (Unit {0})
  serve_field (now, token, FieldCall.register_crop_call crop_type acres sowing_date k visit_id) =
      endpoint decode_token token ("crop.create" ∷ []) (gt_zero acres) (λ i user.
        answered (register_crop i unloaded (short_request crop_type acres sowing_date) k visit_id))
  serve_field (now, token, FieldCall.register_own_crop_call r location k visit_id) =
      farmer_endpoint decode_token token "crop.create"
        (gt_zero r.acres && leb_ℤ r.acres (pos 1_000_000))
        (λ i user. answered (register_crop i unloaded (with_location r location) k visit_id))
  serve_field (now, token, FieldCall.update_crop_call crop_id) =
      farmer_endpoint decode_token token "crop.create" true (λ i user. lift (err Error.forbidden))
  serve_field (now, token, FieldCall.delete_crop_call crop_id) =
      farmer_endpoint decode_token token "crop.create" true (λ i user. lift (err Error.forbidden))
  serve_field (now, token, FieldCall.scan_crop_call crop_id notes stored k) =
      farmer_endpoint decode_token token "crop.create" true
        (λ i user. scan_crop now i crop_id notes stored k)
  serve_field (now, token, FieldCall.schedule_visit_call visit_id staff_id scheduled_date) =
      endpoint decode_token token ("visit.update" ∷ []) true
        (λ i user. answered (schedule_visit i visit_id staff_id scheduled_date))
  serve_field (now, token, FieldCall.complete_visit_call visit_id acres report diagnosis advice) =
      endpoint decode_token token ("visit.update" ∷ []) (gt_zero acres)
        (λ i user. answered (complete_visit now i visit_id acres report diagnosis advice))
  serve_field (now, token, FieldCall.create_visit_call crop_id month scheduled_date staff_id k) =
      endpoint decode_token token ("visit.create" ∷ []) (is_visit_month month)
        (λ i user. answered (create_visit i crop_id month scheduled_date staff_id k))
  serve_field (now, token, FieldCall.trigger_reminders_call days_ahead) =
      endpoint decode_token token ("visit.update" ∷ []) true
        (λ i user. answered (send_visit_reminders now i days_ahead))

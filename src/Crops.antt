-- ===== src/Crops.antt =====
-- services/crop_service.py: the crops of a farmer. Crops.Visits is its other half, the farm visits.
pub mod Visits
use text.Mathlib.Text.{◌==◌ as str_eq}
use agri_flow.Prelude.{
  ℕ, ◌+◌, ◌*◌, String, Bool, true, false, not, ◌&&◌, ◌||◌, Option, none, some, List, [], ◌∷◌, ltb,
  leb, ◌==◌, is_some, given, if◌then◌else◌,
}
use agri_flow.Prelude.Int.{pos, ◌+ℤ◌, ltb_ℤ}
use agri_flow.Prelude.Decimal.{Decimal}
use agri_flow.Prelude.Table.{Table, lookup, insert, sum_by, without}
use agri_flow.Errors.{Error, Result, ok, err}
use agri_flow.Exec.{pure, lift, raise_if, when, ◌>>=◌, ◌>>◌}
use agri_flow.Enums.{CropStatus, CropStage, VisitStatus}
use agri_flow.Models.{FarmerProfile, Crop, FarmVisit, Db}
use agri_flow.Session.{Action, query, write, add}
use agri_flow.Notify.{audit}
use agri_flow.Exec.Pure

-- A relationship declared with `lazy="raise"`: a query may have loaded it, and where none has,
-- reading it is an exception.
pub data Relationship (A : Type 0) : Type 0 where
  unloaded : Relationship A
  loaded : Option A → Relationship A

abbrev pub read : {A : Type 0} → Relationship A → Result (Option A)
read unloaded = err Error.not_loaded
read (loaded o) = ok o

-- the land that limits a farmer's crops: none is set where it is zero
abbrev pub registered_land : Option FarmerProfile → Option Decimal
registered_land none = none
registered_land (some profile) =
    if ltb_ℤ (pos 0) profile.acres_of_land then some profile.acres_of_land else none

abbrev pub active_acres_of : ℕ → Crop → Decimal
active_acres_of farmer_id c =
    if c.farmer_id == farmer_id && not (is_some c.deleted_at) then c.acres else pos 0

-- `select(func.coalesce(func.sum(Crop.acres), 0.0))`
unfoldable pub active_acres : ℕ → Table Crop → Decimal
active_acres farmer_id t = sum_by (active_acres_of farmer_id) t

-- The tolerance of 0.001 is below a hundredth.
abbrev pub check_land : Option Decimal → Decimal → Decimal → Result (Unit {0})
check_land none used acres = ok tt
check_land (some land) used acres = Pure.guard_not (ltb_ℤ land (used +ℤ acres)) Error.validation

-- `VISIT_MONTHS_BY_CROP.get(crop_type, DEFAULT_VISIT_MONTHS)`
unfoldable pub visit_months : String → List ℕ
visit_months crop_type =
    if str_eq crop_type "Maize"
    then 1 ∷ 2 ∷ []
    else if str_eq crop_type "Cotton"
    then 1 ∷ 4 ∷ []
    else if str_eq crop_type "Sugarcane"
    then 2 ∷ 5 ∷ []
    else if str_eq crop_type "Turmeric"
    then 2 ∷ 6 ∷ []
    else 1 ∷ 3 ∷ []

-- `ck_farm_visits_visit_month`
abbrev pub is_visit_month : ℕ → Bool
is_visit_month m = leb 1 m && leb m 6

abbrev pub add_visit : ℕ → FarmVisit → Action (Unit {0})
add_visit visit_id visit = do
  raise_if (not (is_visit_month visit.visit_month)) Error.integrity
  add visit_id visit (λ d. d.farm_visits) (λ t d. record d { farm_visits = t })

abbrev pub planned_visit : ℕ → ℕ → ℕ → ℕ → FarmVisit
planned_visit crop_id farmer_id sowing_date month = record {
  crop_id = crop_id;
  farmer_id = farmer_id;
  staff_id = none;
  visit_month = month;
  scheduled_date = some (sowing_date + 30 * month);
  actual_date = none;
  status = VisitStatus.scheduled;
  verified_acres = none;
  report = none;
  notes = none;
  image_path = none;
  diagnosis = none;
  recommendation = none;
}

-- `visit_id` gives the key drawn for the visit of a month.
unfoldable pub plan_visits : ℕ → ℕ → ℕ → (ℕ → ℕ) → List ℕ → Action (Unit {0})
plan_visits crop_id farmer_id sowing_date visit_id [] = pure tt
plan_visits crop_id farmer_id sowing_date visit_id (m ∷ ms) = do
  add_visit (visit_id m) (planned_visit crop_id farmer_id sowing_date m)
  plan_visits crop_id farmer_id sowing_date visit_id ms

pub record CropRequest : Type 0 where
  pub crop_type : String
  pub acres : Decimal
  pub sowing_date : ℕ
  pub crop_name : Option String
  pub harvest_date : Option ℕ
  pub stage : Option CropStage
  pub notes : Option String

abbrev pub new_crop : ℕ → CropRequest → Crop
new_crop farmer_id r = record {
  farmer_id = farmer_id;
  crop_type = r.crop_type;
  crop_name = r.crop_name;
  acres = r.acres;
  sowing_date = r.sowing_date;
  harvest_date = r.harvest_date;
  status = CropStatus.growing;
  stage = given r.stage CropStage.sowing;
  current_month = 1;
  notes = r.notes;
  farmer_comment = none;
  deleted_at = none;
}

-- Both routes pass a user whose profile is `unloaded`.
unfoldable pub register_crop :
    ℕ → Relationship FarmerProfile → CropRequest → ℕ → (ℕ → ℕ) → Action Crop
unfolding audit active_acres
register_crop farmer_id farmer_profile r crop_id visit_id = do
  profile ← lift (read farmer_profile)
  query (λ d. check_land (registered_land profile) (active_acres farmer_id d.crops) r.acres)
  add crop_id (new_crop farmer_id r) (λ d. d.crops) (λ t d. record d { crops = t })
  plan_visits crop_id farmer_id r.sowing_date visit_id (visit_months r.crop_type)
  audit (some farmer_id) "crop.register" (some "crop") (some crop_id)
  pure (new_crop farmer_id r)

abbrev pub get_own_crop : ℕ → ℕ → Db → Result Crop
get_own_crop farmer_id crop_id d = elim (lookup crop_id d.crops) [
  | none ↦ err Error.not_found
  | some crop ↦ if crop.farmer_id == farmer_id then ok crop else err Error.not_found
]

abbrev pub not_deleted : Crop → Result Crop
not_deleted crop = if is_some crop.deleted_at then err Error.conflict else ok crop

abbrev pub get_own_active_crop : ℕ → ℕ → Db → Result Crop
get_own_active_crop farmer_id crop_id d = Pure.◌>>=◌ (get_own_crop farmer_id crop_id d) not_deleted

-- The keys that the dictionary holds; a nullable column may be given `None`.
pub record CropUpdate : Type 0 where
  pub crop_type : Option String
  pub crop_name : Option (Option String)
  pub acres : Option Decimal
  pub sowing_date : Option ℕ
  pub harvest_date : Option (Option ℕ)
  pub stage : Option CropStage
  pub notes : Option (Option String)
  pub farmer_comment : Option (Option String)

abbrev pub updated_crop : CropUpdate → Crop → Crop
updated_crop f c = record c {
  crop_type = given f.crop_type c.crop_type;
  crop_name = given f.crop_name c.crop_name;
  acres = given f.acres c.acres;
  sowing_date = given f.sowing_date c.sowing_date;
  harvest_date = given f.harvest_date c.harvest_date;
  stage = given f.stage c.stage;
  notes = given f.notes c.notes;
}

abbrev pub set_crop : ℕ → Crop → Db → Db
set_crop k c d = record d { crops = insert k c d.crops }

-- The acres are checked only where they are given, and only then is the profile read.
abbrev pub check_new_acres :
    Relationship FarmerProfile → ℕ → ℕ → Option Decimal → Db → Result (Unit {0})
check_new_acres farmer_profile farmer_id crop_id none d = ok tt
check_new_acres farmer_profile farmer_id crop_id (some acres) d =
    Pure.◌>>=◌ (read farmer_profile) (λ profile.
      check_land (registered_land profile) (active_acres farmer_id (without crop_id d.crops)) acres)

abbrev pub ends_early : Crop → Bool
ends_early c = elim c.harvest_date [ none ↦ false | some h ↦ ltb h c.sowing_date ]

unfoldable pub update_own_crop : ℕ → Relationship FarmerProfile → ℕ → CropUpdate → Action Crop
unfolding audit active_acres
update_own_crop farmer_id farmer_profile crop_id f = do
  crop ← query (get_own_active_crop farmer_id crop_id)
  let commented : Crop = record crop { farmer_comment = given f.farmer_comment crop.farmer_comment }
  write (set_crop crop_id commented)
  query (check_new_acres farmer_profile farmer_id crop_id f.acres)
  let crop' : Crop = updated_crop f commented
  write (set_crop crop_id crop')
  raise_if (ends_early crop') Error.validation
  audit (some farmer_id) "crop.update" (some "crop") (some crop_id)
  pure crop'

unfoldable pub delete_own_crop : ℕ → ℕ → ℕ → Action (Unit {0})
unfolding audit
delete_own_crop now farmer_id crop_id = do
  crop ← query (get_own_crop farmer_id crop_id)
  when (not (is_some crop.deleted_at)) (do
    write (set_crop crop_id (record crop { deleted_at = some now }))
    audit (some farmer_id) "crop.delete" (some "crop") (some crop_id))

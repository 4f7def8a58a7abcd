-- ===== src/Accounts.antt =====
-- The accounts that staff creates and changes: services/admin_service.py, and in
-- services/farmer_service.py `create_farmer`, `update_farmer_by_admin` and `set_approval`.
use text.Mathlib.Text.{◌==◌ as str_eq}
use agri_flow.Prelude.{
  ℕ, String, Bool, true, false, not, ◌||◌, Option, none, some, [], ◌∷◌, is_some, given, ◌==◌,
  if◌then◌else◌,
}
use agri_flow.Prelude.Int.{pos}
use agri_flow.Prelude.Decimal.{Decimal}
use agri_flow.Prelude.Table.{Table, lookup, insert, rows_where, without}
use agri_flow.Errors.{Error, Result, ok}
use agri_flow.Exec.{pure, raise_if, when, ◌>>=◌, ◌>>◌}
use agri_flow.Enums.{UserRole, UserStatus, NotificationType, is_farmer}
use agri_flow.Models.{User, FarmerProfile, StaffProfile, Db}
use agri_flow.Session.{Action, query, write, add}
use agri_flow.Notify.{notify, audit}
use agri_flow.Auth.{has_phone, has_email, by_phone, set_user, new_profile, revoke_all_sessions}
use agri_flow.Permissions.{is_active}
use agri_flow.Exec.Pure

-- the unique columns of `users`, against the rows under other keys
abbrev pub clashes : User → Table User → Bool
clashes u [] = false
clashes u ((j, v) ∷ t) =
    has_phone u.phone v || elim u.email [ none ↦ false | some e ↦ has_email e v ] || clashes u t

abbrev pub check_unique : ℕ → User → Db → Result (Unit {0})
check_unique k u d = Pure.guard_not (clashes u (without k d.users)) Error.integrity

abbrev pub add_user : ℕ → User → Action (Unit {0})
add_user k u = do query (check_unique k u); add k u (λ d. d.users) (λ t d. record d { users = t })

-- an account that staff opens is active at once
abbrev pub opened : (String → String) → String → String → Option String → String → UserRole → User
opened hash_password name phone email password role = record {
  name = name;
  email = email;
  phone = phone;
  password_hash = hash_password password;
  role = role;
  status = UserStatus.active;
  first_login = true;
}

abbrev pub with_land :
    Option String → Option Decimal → Option String → FarmerProfile → FarmerProfile
with_land address acres_of_land crop_address p = record p {
  address = address;
  acres_of_land = given acres_of_land (pos 0);
  crop_address = crop_address;
}

module _ (hash_password : String → String) where
  unfoldable pub create_farmer :
      ℕ
      → String
      → String
      → Option String
      → String
      → Option String
      → Option Decimal
      → Option String
      → ℕ
      → ℕ
      → Action User
  unfolding audit
  create_farmer creator_id name phone email password address acres_of_land crop_address user_id
        profile_id =
      let user = opened hash_password name phone email password UserRole.farmer in
      do
        existing ← query (by_phone phone)
        raise_if (is_some existing) Error.conflict
        add_user user_id user
        add profile_id (with_land address acres_of_land crop_address (new_profile user_id))
            (λ d. d.farmer_profiles) (λ t d. record d { farmer_profiles = t })
        audit (some creator_id) "farmer.create" (some "user") (some user_id)
        pure user

  unfoldable pub create_manager :
      ℕ
      → String
      → String
      → Option String
      → String
      → UserRole
      → Option String
      → Option String
      → ℕ
      → ℕ
      → Action User
  unfolding audit
  create_manager creator_id name phone email password role assigned_region department user_id
        profile_id =
      let user = opened hash_password name phone email password role in
      do
        existing ← query (by_phone phone)
        raise_if (is_some existing) Error.conflict
        add_user user_id user
        add profile_id
            (record {
              user_id = user_id;
              department = department;
              assigned_region = assigned_region;
            })
            (λ d. d.staff_profiles) (λ t d. record d { staff_profiles = t })
        audit (some creator_id) "manager.create" (some "user") (some user_id)
        pure user

  -- The row may be anyone's: its role is not read.
  unfoldable pub reset_manager_password : ℕ → ℕ → String → Action (Unit {0})
  unfolding revoke_all_sessions audit
  reset_manager_password actor_id manager_id new_password = do
    manager ← query (λ d. Pure.found (lookup manager_id d.users) Error.not_found)
    write (set_user manager_id (record manager { password_hash = hash_password new_password }))
    revoke_all_sessions manager_id
    audit (some actor_id) "manager.password_reset" (some "user") (some manager_id)

abbrev pub of_role : (UserRole → Bool) → ℕ → Db → Result User
of_role has_role i d =
    Pure.◌>>=◌ (Pure.found (lookup i d.users) Error.not_found)
      (λ u. Pure.◌>>◌ (Pure.guard_not (not (has_role u.role)) Error.not_found) (ok u))

abbrev pub is_staff : UserRole → Bool
is_staff role = not (is_farmer role)

unfoldable pub update_manager_status : ℕ → ℕ → UserStatus → Action User
unfolding audit
update_manager_status actor_id manager_id new_status = do
  manager ← query (of_role is_staff manager_id)
  let manager' : User = record manager { status = new_status }
  write (set_user manager_id manager')
  audit (some actor_id) "manager.status_update" (some "user") (some manager_id)
  pure manager'

unfoldable pub set_approval : ℕ → ℕ → UserStatus → Action User
unfolding audit
set_approval reviewer_id farmer_id new_status = do
  farmer ← query (of_role is_farmer farmer_id)
  let farmer' : User = record farmer { status = new_status }
  write (set_user farmer_id farmer')
  audit (some reviewer_id) "farmer.approval" (some "user") (some farmer_id)
  notify farmer_id "Account status updated"
      (if is_active new_status then NotificationType.success else NotificationType.warning) none
      none
  pure farmer'

-- a new phone number is looked for among the other users
abbrev pub check_phone : ℕ → User → Option String → Db → Result (Option (ℕ × User))
check_phone i u none d = ok none
check_phone i u (some phone) d =
    if str_eq phone u.phone
    then ok none
    else Pure.scalar_one_or_none (rows_where (has_phone phone) (without i d.users))

abbrev pub given_some : {A : Type 0} → Option A → Option A → Option A
given_some none old = old
given_some (some a) old = some a

abbrev pub renamed : Option String → Option String → Option String → User → User
renamed name phone email u = record u {
  name = given name u.name;
  phone = given phone u.phone;
  email = given_some email u.email;
}

-- the profile's fields of `update_farmer_by_admin`; `None` leaves the column alone
pub record ProfileUpdate : Type 0 where
  pub address : Option String
  pub farm_name : Option String
  pub village : Option String
  pub district : Option String
  pub state : Option String
  pub acres_of_land : Option Decimal
  pub crop_address : Option String
  pub soil_type : Option String
  pub irrigation_type : Option String
  pub primary_crop : Option String
  pub secondary_crop : Option String

abbrev pub is_given : ProfileUpdate → Bool
is_given f =
    is_some f.address
    || is_some f.farm_name
    || is_some f.village
    || is_some f.district
    || is_some f.state
    || is_some f.acres_of_land
    || is_some f.crop_address
    || is_some f.soil_type
    || is_some f.irrigation_type
    || is_some f.primary_crop
    || is_some f.secondary_crop

abbrev pub updated_profile : ProfileUpdate → FarmerProfile → FarmerProfile
updated_profile f p = record p {
  address = given_some f.address p.address;
  farm_name = given_some f.farm_name p.farm_name;
  village = given_some f.village p.village;
  district = given_some f.district p.district;
  state = given_some f.state p.state;
  acres_of_land = given f.acres_of_land p.acres_of_land;
  crop_address = given_some f.crop_address p.crop_address;
  soil_type = given_some f.soil_type p.soil_type;
  irrigation_type = given_some f.irrigation_type p.irrigation_type;
  primary_crop = given_some f.primary_crop p.primary_crop;
  secondary_crop = given_some f.secondary_crop p.secondary_crop;
}

abbrev pub profile_of : ℕ → Db → Result (Option (ℕ × FarmerProfile))
profile_of user_id d =
    Pure.scalar_one_or_none (rows_where (λ p. p.user_id == user_id) d.farmer_profiles)

abbrev pub set_profile : ℕ → FarmerProfile → Db → Db
set_profile k p d = record d { farmer_profiles = insert k p d.farmer_profiles }

-- A farmer without a profile gets one, where a field of it is given.
abbrev pub save_profile : ℕ → ProfileUpdate → ℕ → Option (ℕ × FarmerProfile) → Action (Unit {0})
save_profile farmer_id f profile_id (some (k, p)) = write (set_profile k (updated_profile f p))
save_profile farmer_id f profile_id none = when (is_given f) (
    add profile_id (updated_profile f (new_profile farmer_id)) (λ d. d.farmer_profiles)
      (λ t d. record d { farmer_profiles = t }))

unfoldable pub update_farmer_by_admin :
    ℕ → ℕ → Option String → Option String → Option String → ProfileUpdate → ℕ → Action User
unfolding audit
update_farmer_by_admin actor_id farmer_id name phone email f profile_id = do
  farmer ← query (of_role is_farmer farmer_id)
  profile ← query (profile_of farmer_id)
  taken ← query (check_phone farmer_id farmer phone)
  raise_if (is_some taken) Error.conflict
  let farmer' : User = renamed name phone email farmer
  query (check_unique farmer_id farmer')
  write (set_user farmer_id farmer')
  save_profile farmer_id f profile_id profile
  audit (some actor_id) "farmer.admin_update" (some "user") (some farmer_id)
  pure farmer'

abbrev pub staff_profile_of : ℕ → Db → Result (Option (ℕ × StaffProfile))
staff_profile_of user_id d =
    Pure.scalar_one_or_none (rows_where (λ p. p.user_id == user_id) d.staff_profiles)

abbrev pub staffed : Option String → Option String → StaffProfile → StaffProfile
staffed assigned_region department p = record p {
  assigned_region = given_some assigned_region p.assigned_region;
  department = given_some department p.department;
}

abbrev pub save_staff_profile :
    ℕ → Option String → Option String → ℕ → Option (ℕ × StaffProfile) → Action (Unit {0})
save_staff_profile manager_id region department profile_id (some (k, p)) =
    write
      (λ d. record d { staff_profiles = insert k (staffed region department p) d.staff_profiles })
save_staff_profile manager_id region department profile_id none =
    when (is_some region || is_some department) (
      add profile_id
        (record { user_id = manager_id; department = department; assigned_region = region })
        (λ d. d.staff_profiles) (λ t d. record d { staff_profiles = t }))

unfoldable pub update_manager :
    ℕ
    → ℕ
    → Option String
    → Option String
    → Option String
    → Option String
    → Option String
    → ℕ
    → Action User
unfolding audit
update_manager actor_id manager_id name phone email region department profile_id = do
  manager ← query (of_role is_staff manager_id)
  profile ← query (staff_profile_of manager_id)
  taken ← query (check_phone manager_id manager phone)
  raise_if (is_some taken) Error.conflict
  let manager' : User = renamed name phone email manager
  query (check_unique manager_id manager')
  write (set_user manager_id manager')
  save_staff_profile manager_id region department profile_id profile
  audit (some actor_id) "manager.update" (some "user") (some manager_id)
  pure manager'

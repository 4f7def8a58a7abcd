-- ===== src/Auth.antt =====
-- services/auth_service.py: accounts, passwords and refresh tokens.
pub mod Tokens
use text.Mathlib.Text.{◌==◌ as str_eq}
use agri_flow.Prelude.{
  ℕ, ◌+◌, head?, String, Bool, true, false, not, ltb, ◌==◌, is_some, Option, none, some,
  if◌then◌else◌,
}
use agri_flow.Prelude.Int.{pos}
use agri_flow.Prelude.Table.{Table, lookup, insert, rows_where, update, update_where}
use agri_flow.Errors.{Error, Result, ok, err}
use agri_flow.Exec.{pure, lift, raise_if, when, ◌>>=◌, ◌>>◌}
use agri_flow.Enums.{UserRole, UserStatus, BankStatus}
use agri_flow.Models.{User, FarmerProfile, RefreshToken, Db}
use agri_flow.Session.{Action, query, write, add}
use agri_flow.Notify.{audit}
use agri_flow.Exec.Pure

abbrev pub has_phone : String → User → Bool
has_phone phone u = str_eq u.phone phone

abbrev pub has_email : String → User → Bool
has_email email u = elim u.email [ none ↦ false | some e ↦ str_eq e email ]

abbrev pub by_phone : String → Db → Result (Option (ℕ × User))
by_phone phone d = Pure.scalar_one_or_none (rows_where (has_phone phone) d.users)

abbrev pub by_email : String → Db → Result (Option (ℕ × User))
by_email email d =
    if str_eq email ""
    then ok none
    else Pure.scalar_one_or_none (rows_where (has_email email) d.users)

-- `if email:`, which is false of `None` and of ""
abbrev pub check_email : Option String → Db → Result (Option (ℕ × User))
check_email none d = ok none
check_email (some email) d = by_email email d

abbrev pub new_user : String → String → Option String → String → User
new_user name phone email password_hash = record {
  name = name;
  email = email;
  phone = phone;
  password_hash = password_hash;
  role = UserRole.farmer;
  status = UserStatus.pending;
  first_login = true;
}

-- a profile with the columns' defaults
abbrev pub new_profile : ℕ → FarmerProfile
new_profile user_id = record {
  user_id = user_id;
  address = none;
  farm_name = none;
  village = none;
  district = none;
  state = none;
  acres_of_land = pos 0;
  crop_address = none;
  bank_name = none;
  account_number = none;
  ifsc_code = none;
  upi_id = none;
  bank_status = BankStatus.approved;
  soil_type = none;
  irrigation_type = none;
  primary_crop = none;
  secondary_crop = none;
}

abbrev pub is_suspended : UserStatus → Bool
is_suspended UserStatus.suspended = true
is_suspended _ = false

abbrev pub is_rejected : UserStatus → Bool
is_rejected UserStatus.rejected = true
is_rejected _ = false

abbrev pub set_user : ℕ → User → Db → Db
set_user i u d = record d { users = insert i u d.users }

-- `UPDATE refresh_tokens SET revoked = true WHERE user_id = ...`
abbrev pub is_of : ℕ → RefreshToken → Bool
is_of user_id t = t.user_id == user_id

abbrev pub revoke : RefreshToken → RefreshToken
revoke t = record t { revoked = true }

abbrev pub revoke_all : ℕ → Db → Db
revoke_all user_id d = record d {
  refresh_tokens = update_where (is_of user_id) revoke d.refresh_tokens;
}

unfoldable pub revoke_all_sessions : ℕ → Action (Unit {0})
revoke_all_sessions user_id = write (revoke_all user_id)

-- Argon2id with its salt, and the bcrypt of migrated accounts
module _ (hash_password : String → String) (verify_password : String → String → Bool)
    (needs_rehash : String → Bool) where
  unfoldable pub register_farmer : String → String → Option String → String → ℕ → ℕ → Action User
  unfolding audit
  register_farmer name phone email password user_id profile_id = do
    existing ← query (by_phone phone)
    raise_if (is_some existing) Error.conflict
    existing_email ← query (check_email email)
    raise_if (is_some existing_email) Error.conflict
    let user : User = new_user name phone email (hash_password password)
    add user_id user (λ d. d.users) (λ t d. record d { users = t })
    add profile_id (new_profile user_id) (λ d. d.farmer_profiles)
        (λ t d. record d { farmer_profiles = t })
    audit (some user_id) "user.register" (some "user") (some user_id)
    pure user

  unfoldable pub authenticate : String → String → Action (ℕ × User)
  authenticate phone password = do
    o ← query (by_phone phone)
    (user_id, user) ← lift (Pure.found o Error.unauthorized)
    raise_if (not (verify_password password user.password_hash)) Error.unauthorized
    raise_if (is_suspended user.status) Error.forbidden
    raise_if (is_rejected user.status) Error.forbidden
    let user' : User =
        if needs_rehash user.password_hash
        then record user { password_hash = hash_password password }
        else user
    write (set_user user_id user')
    pure (user_id, user')

  unfoldable pub change_password : ℕ → User → String → String → Action (Unit {0})
  unfolding audit revoke_all_sessions
  change_password user_id user current new = do
    raise_if (not (verify_password current user.password_hash)) Error.unauthorized
    raise_if (str_eq current new) Error.validation
    write
        (set_user user_id (record user { password_hash = hash_password new; first_login = false }))
    revoke_all_sessions user_id
    audit (some user_id) "user.password_change" (some "user") (some user_id)

  -- `is_valid` is what `otp_service.verify` says of the code.
  unfoldable pub complete_password_reset : Bool → String → String → Action (Unit {0})
  unfolding audit revoke_all_sessions
  complete_password_reset is_valid phone new = do
    raise_if (not is_valid) Error.validation
    o ← query (by_phone phone)
    (user_id, user) ← lift (Pure.found o Error.validation)
    write (set_user user_id (record user { password_hash = hash_password new }))
    revoke_all_sessions user_id
    audit (some user_id) "user.password_reset" (some "user") (some user_id)

abbrev pub is_token_hash : String → RefreshToken → Bool
is_token_hash h t = str_eq t.token_hash h

-- SHA-256, the JWT library's encoding of an access token, and the settings' lifetime
module _ (sha256 : String → String) (create_access_token : ℕ → User → String) (lifetime : ℕ) where
  abbrev pub new_token : ℕ → ℕ → String → RefreshToken
  new_token now user_id refresh_plain = record {
    user_id = user_id;
    token_hash = sha256 refresh_plain;
    expires_at = now + lifetime;
    revoked = false;
    replaced_by_token_hash = none;
  }

  -- The new token's text is drawn by `secrets`, its key by `uuid4`; `token_hash` is unique.
  unfoldable pub issue_token_pair : ℕ → ℕ → User → String → ℕ → Action (String × String)
  issue_token_pair now user_id user refresh_plain new_id = do
    clash ← query (λ d. ok (rows_where (is_token_hash (sha256 refresh_plain)) d.refresh_tokens))
    raise_if (is_some (head? clash)) Error.integrity
    add new_id (new_token now user_id refresh_plain) (λ d. d.refresh_tokens)
        (λ t d. record d { refresh_tokens = t })
    pure (create_access_token user_id user, refresh_plain)

  abbrev pub replaced : String → RefreshToken → RefreshToken
  replaced new t = record t { revoked = true; replaced_by_token_hash = some (sha256 new) }

  unfoldable pub rotate_refresh_token :
      ℕ → String → String → ℕ → Action (String × String × ℕ × User)
  unfolding issue_token_pair
  rotate_refresh_token now refresh_token refresh_plain new_id = do
    o ← query (λ d.
        Pure.scalar_one_or_none
          (rows_where (is_token_hash (sha256 refresh_token)) d.refresh_tokens))
    (token_id, stored) ← lift (Pure.found o Error.unauthorized)
    when stored.revoked do write (revoke_all stored.user_id); raise_if true Error.unauthorized
    raise_if (ltb stored.expires_at now) Error.unauthorized
    user ← query (λ d. Pure.found (lookup stored.user_id d.users) Error.unauthorized)
    (access, refresh) ← issue_token_pair now stored.user_id user refresh_plain new_id
    write (λ d. record d {
      refresh_tokens = insert token_id (replaced refresh stored) d.refresh_tokens;
    })
    pure (access, refresh, stored.user_id, user)

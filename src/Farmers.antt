-- ===== src/Farmers.antt =====
-- services/farmer_service.py: a farmer's own profile, and the change of bank details, which staff
-- reviews.
pub mod Bank
use agri_flow.Prelude.{
  ℕ, String, Bool, true, false, not, ◌&&◌, Option, none, some, List, [], ◌∷◌, ◌==◌, is_some, given,
  if◌then◌else◌,
}
use agri_flow.Prelude.Decimal.{Decimal}
use agri_flow.Prelude.Table.{lookup, insert, select}
use agri_flow.Errors.{Error, Result}
use agri_flow.Exec.{pure, lift, raise_if, when, ◌>>=◌, ◌>>◌}
use agri_flow.Enums.{UserRole, BankRequestStatus, NotificationType}
use agri_flow.Models.{FarmerProfile, BankChangeRequest, Db}
use agri_flow.Session.{Action, query, write, add}
use agri_flow.Notify.{notify_user, notify_roles, audit}
use agri_flow.Accounts.{profile_of, set_profile, given_some}
use agri_flow.Exec.Pure

unfoldable pub get_own_profile : ℕ → Db → Result (ℕ × FarmerProfile)
get_own_profile user_id d = Pure.◌>>=◌ (profile_of user_id d) (λ o. Pure.found o Error.not_found)

-- the fields of `UpdateFarmerProfileRequest`
pub record OwnUpdate : Type 0 where
  pub address : Option String
  pub acres_of_land : Option Decimal
  pub soil_type : Option String
  pub irrigation_type : Option String
  pub primary_crop : Option String
  pub secondary_crop : Option String

abbrev pub own_profile : OwnUpdate → FarmerProfile → FarmerProfile
own_profile f p = record p {
  address = given_some f.address p.address;
  acres_of_land = given f.acres_of_land p.acres_of_land;
  soil_type = given_some f.soil_type p.soil_type;
  irrigation_type = given_some f.irrigation_type p.irrigation_type;
  primary_crop = given_some f.primary_crop p.primary_crop;
  secondary_crop = given_some f.secondary_crop p.secondary_crop;
}

unfoldable pub update_own_profile : ℕ → OwnUpdate → Action FarmerProfile
unfolding get_own_profile
update_own_profile user_id f = do
  (k, p) ← query (get_own_profile user_id)
  write (set_profile k (own_profile f p))
  pure (own_profile f p)

abbrev pub is_pending : BankRequestStatus → Bool
is_pending BankRequestStatus.pending = true
is_pending _ = false

abbrev pub is_pending_of : ℕ → BankChangeRequest → Bool
is_pending_of farmer_id r = r.farmer_id == farmer_id && is_pending r.status

-- the one pending request of a farmer
abbrev pub pending_request : ℕ → Db → Result (Option BankChangeRequest)
pending_request farmer_id d =
    Pure.scalar_one_or_none (select (is_pending_of farmer_id) d.bank_requests)

-- the bank details of a request
pub record BankDetails : Type 0 where
  pub bank_name : String
  pub account_number : String
  pub ifsc_code : String
  pub upi_id : Option String

abbrev pub new_request : ℕ → BankDetails → BankChangeRequest
new_request farmer_id b = record {
  farmer_id = farmer_id;
  bank_name = some b.bank_name;
  account_number = some b.account_number;
  ifsc_code = some b.ifsc_code;
  upi_id = b.upi_id;
  status = BankRequestStatus.pending;
  admin_notes = none;
  reviewed_at = none;
  reviewed_by = none;
}

-- One request by itself: the source takes no lock between the query and the insertion, and the
-- table has no unique index on the pending requests.
unfoldable pub request_bank_change : ℕ → BankDetails → ℕ → Action BankChangeRequest
unfolding notify_roles audit
request_bank_change farmer_id b request_id = do
  existing ← query (pending_request farmer_id)
  raise_if (is_some existing) Error.conflict
  add request_id (new_request farmer_id b) (λ d. d.bank_requests)
      (λ t d. record d { bank_requests = t })
  notify_roles (UserRole.manager ∷ UserRole.super_admin ∷ []) "New bank change request"
      NotificationType.info "bank_change_request" request_id
  audit (some farmer_id) "bank_change.request" (some "bank_change_request") (some request_id)
  pure (new_request farmer_id b)

abbrev pub reviewed : ℕ → ℕ → Bool → Option String → BankChangeRequest → BankChangeRequest
reviewed now reviewer_id approve admin_notes r = record r {
  status = if approve then BankRequestStatus.approved else BankRequestStatus.rejected;
  admin_notes = admin_notes;
  reviewed_at = some now;
  reviewed_by = some reviewer_id;
}

abbrev pub with_bank : BankChangeRequest → FarmerProfile → FarmerProfile
with_bank r p = record p {
  bank_name = r.bank_name;
  account_number = r.account_number;
  ifsc_code = r.ifsc_code;
  upi_id = r.upi_id;
}

-- `if profile:`
abbrev pub save_bank : BankChangeRequest → Option (ℕ × FarmerProfile) → Action (Unit {0})
save_bank r none = pure tt
save_bank r (some (k, p)) = write (set_profile k (with_bank r p))

abbrev pub approve_bank : BankChangeRequest → Action (Unit {0})
approve_bank r = query (profile_of r.farmer_id) >>= save_bank r

abbrev pub set_request : ℕ → BankChangeRequest → Db → Db
set_request k r d = record d { bank_requests = insert k r d.bank_requests }

unfoldable pub review_bank_change : ℕ → ℕ → ℕ → Bool → Option String → Action BankChangeRequest
unfolding notify_user audit
review_bank_change now reviewer_id request_id approve admin_notes = do
  r ← query (λ d. Pure.found (lookup request_id d.bank_requests) Error.not_found)
  raise_if (not (is_pending r.status)) Error.conflict
  let r' : BankChangeRequest = reviewed now reviewer_id approve admin_notes r
  write (set_request request_id r')
  when approve (approve_bank r')
  notify_user r.farmer_id "Bank change request reviewed"
      (if approve then NotificationType.success else NotificationType.warning) "bank_change_request"
      request_id
  audit (some reviewer_id) "bank_change.review" (some "bank_change_request") (some request_id)
  pure r'

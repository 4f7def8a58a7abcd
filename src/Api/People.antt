-- ===== src/Api/People.antt =====
-- api/v1/farmers.py, the bank request of api/v1/farmer/profile.py, and the managers of
-- api/v1/admin.py: the requests that change accounts, profiles and bank details.
pub mod Reviewed
use agri_flow.Prelude.{ℕ, String, Bool, true, Option, none, some, [], ◌∷◌}
use agri_flow.Prelude.Decimal.{Decimal}
use agri_flow.Enums.{UserRole, UserStatus}
use agri_flow.Session.{Action}
use agri_flow.Permissions.{Claims}
use agri_flow.Accounts.{
  create_farmer, create_manager, reset_manager_password, update_manager_status, set_approval,
  ProfileUpdate, update_farmer_by_admin, update_manager,
}
use agri_flow.Farmers.{
  OwnUpdate, update_own_profile, BankDetails, request_bank_change, review_bank_change,
}
use agri_flow.Api.{answered, endpoint, farmer_endpoint}
use agri_flow.Api.Desk.{ge_zero}

-- An operation with its body; the last arguments are the keys drawn for the new rows.
pub data PeopleCall : Type 0 where
  update_my_profile_call : OwnUpdate → PeopleCall
  request_bank_change_call request_own_bank_change_call : BankDetails → ℕ → PeopleCall
  review_bank_change_call : ℕ → Bool → Option String → PeopleCall
  set_farmer_approval_call : ℕ → UserStatus → PeopleCall
  create_farmer_call :
      String
      → String
      → Option String
      → String
      → Option String
      → Option Decimal
      → Option String
      → ℕ
      → ℕ
      → PeopleCall
  update_farmer_call :
      ℕ → Option String → Option String → Option String → ProfileUpdate → ℕ → PeopleCall
  create_manager_call :
      String
      → String
      → Option String
      → String
      → UserRole
      → Option String
      → Option String
      → ℕ
      → ℕ
      → PeopleCall
  update_manager_status_call : ℕ → UserStatus → PeopleCall
  update_manager_call :
      ℕ
      → Option String
      → Option String
      → Option String
      → Option String
      → Option String
      → ℕ
      → PeopleCall
  reset_manager_password_call : ℕ → String → PeopleCall

abbrev pub ge_zero_given : Option Decimal → Bool
ge_zero_given none = true
ge_zero_given (some q) = ge_zero q

module _ (decode_token : String → Option Claims) (hash_password : String → String) where
  -- A call at its time, with the bearer token that it came with.
  unfoldable pub serve_people : ℕ × Option String × PeopleCall → Action (Unit {0})
  serve_people (now, token, PeopleCall.update_my_profile_call f) =
      endpoint decode_token token ("profile.update.own" ∷ []) (ge_zero_given f.acres_of_land)
        (λ i user. answered (update_own_profile i f))
  serve_people (now, token, PeopleCall.request_bank_change_call b k) =
      endpoint decode_token token ("bank_change.request" ∷ []) true
        (λ i user. answered (request_bank_change i b k))
  serve_people (now, token, PeopleCall.request_own_bank_change_call b k) =
      farmer_endpoint decode_token token "bank_change.request" true
        (λ i user. answered (request_bank_change i b k))
  serve_people (now, token, PeopleCall.review_bank_change_call r approve notes) =
      endpoint decode_token token ("bank_change.review" ∷ []) true
        (λ i user. answered (review_bank_change now i r approve notes))
  serve_people (now, token, PeopleCall.set_farmer_approval_call f status) =
      endpoint decode_token token ("farmer.approve" ∷ []) true
        (λ i user. answered (set_approval i f status))
  serve_people
        (now, token, PeopleCall.create_farmer_call name phone email pw address acres field k l) =
      endpoint decode_token token ("farmer.create" ∷ []) (ge_zero_given acres) (λ i user.
        answered (create_farmer hash_password i name phone email pw address acres field k l))
  serve_people (now, token, PeopleCall.update_farmer_call f name phone email profile k) =
      endpoint decode_token token ("farmer.create" ∷ []) (ge_zero_given profile.acres_of_land)
        (λ i user. answered (update_farmer_by_admin i f name phone email profile k))
  serve_people
        (now, token, PeopleCall.create_manager_call name phone email pw role region unit_ k l) =
      endpoint decode_token token ("manager.manage" ∷ []) true (λ i user.
        answered (create_manager hash_password i name phone email pw role region unit_ k l))
  serve_people (now, token, PeopleCall.update_manager_status_call m status) =
      endpoint decode_token token ("manager.manage" ∷ []) true
        (λ i user. answered (update_manager_status i m status))
  serve_people (now, token, PeopleCall.update_manager_call m name phone email region unit_ k) =
      endpoint decode_token token ("manager.manage" ∷ []) true
        (λ i user. answered (update_manager i m name phone email region unit_ k))
  serve_people (now, token, PeopleCall.reset_manager_password_call m new_password) =
      endpoint decode_token token ("manager.manage" ∷ []) true
        (λ i user. reset_manager_password hash_password i m new_password)

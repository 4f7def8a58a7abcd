-- ===== src/Api/People/Reviewed.antt =====
-- Api.People against the requests for a change of bank details.
use mathlib.Core.Path.{subst}
use agri_flow.Prelude.{ℕ, ◌≤◌, ◌≡◌, sym, arith, String, Option, List}
use agri_flow.Prelude.Decimal.{Decimal}
use agri_flow.Prelude.Table.{count_by}
use agri_flow.Enums.{UserRole, UserStatus}
use agri_flow.Models.{Db}
use agri_flow.Session.{Session, World}
use agri_flow.Notify.{audit}
use agri_flow.Permissions.{Claims}
use agri_flow.Auth.{revoke_all_sessions}
use agri_flow.Accounts.{
  create_farmer, create_manager, reset_manager_password, update_manager_status, set_approval,
  ProfileUpdate, update_farmer_by_admin, update_manager,
}
use agri_flow.Farmers.{OwnUpdate, update_own_profile, request_bank_change, review_bank_change}
use agri_flow.Farmers.Bank.{
  IsReviewed, one_if, request_bank_change-IsReviewed, review_bank_change-IsReviewed,
}
use agri_flow.Api.{requests}
use agri_flow.Api.Keeps.{
  Keeps, answered-Keeps, endpoint-Keeps, farmer_endpoint-Keeps, requests-Keeps,
}
use agri_flow.Api.People.{PeopleCall, serve_people}

-- an operation that leaves the requests alone
IsReviewed-frame : (d e : Db) → e.bank_requests ≡ d.bank_requests → IsReviewed d → IsReviewed e
unfolding IsReviewed
IsReviewed-frame d e same inv f = subst (λ t. count_by (one_if f) t ≤ 1) (sym same) (inv f)

update_own_profile-frame :
    (i : ℕ) (f : OwnUpdate) (s : Session)
    → (update_own_profile i f s).1.db.bank_requests ≡ s.db.bank_requests
unfolding update_own_profile
update_own_profile-frame i f s = ground arith

set_approval-frame :
    (i k : ℕ) (x : UserStatus) (s : Session)
    → (set_approval i k x s).1.db.bank_requests ≡ s.db.bank_requests
unfolding set_approval audit
set_approval-frame i k x s = ground arith

create_farmer-frame :
    (hash : String → String) (i : ℕ) (name phone : String) (email : Option String) (pw : String)
    (address : Option String) (acres : Option Decimal) (field : Option String) (k l : ℕ)
    (s : Session)
    → (create_farmer hash i name phone email pw address acres field k l s).1.db.bank_requests
      ≡ s.db.bank_requests
unfolding create_farmer audit
create_farmer-frame hash i name phone email pw address acres field k l s = ground arith

update_farmer_by_admin-frame :
    (i f : ℕ) (name phone email : Option String) (p : ProfileUpdate) (k : ℕ) (s : Session)
    → (update_farmer_by_admin i f name phone email p k s).1.db.bank_requests ≡ s.db.bank_requests
unfolding update_farmer_by_admin audit
update_farmer_by_admin-frame i f name phone email p k s = ground arith

create_manager-frame :
    (hash : String → String) (i : ℕ) (name phone : String) (email : Option String) (pw : String)
    (role : UserRole) (region dep : Option String) (k l : ℕ) (s : Session)
    → (create_manager hash i name phone email pw role region dep k l s).1.db.bank_requests
      ≡ s.db.bank_requests
unfolding create_manager audit
create_manager-frame hash i name phone email pw role region dep k l s = ground arith

update_manager_status-frame :
    (i k : ℕ) (x : UserStatus) (s : Session)
    → (update_manager_status i k x s).1.db.bank_requests ≡ s.db.bank_requests
unfolding update_manager_status audit
update_manager_status-frame i k x s = ground arith

update_manager-frame :
    (i m : ℕ) (name phone email region dep : Option String) (k : ℕ) (s : Session)
    → (update_manager i m name phone email region dep k s).1.db.bank_requests ≡ s.db.bank_requests
unfolding update_manager audit
update_manager-frame i m name phone email region dep k s = ground arith

reset_manager_password-frame :
    (hash : String → String) (i m : ℕ) (pw : String) (s : Session)
    → (reset_manager_password hash i m pw s).1.db.bank_requests ≡ s.db.bank_requests
unfolding reset_manager_password revoke_all_sessions audit
reset_manager_password-frame hash i m pw s = ground arith

module _ (decode_token : String → Option Claims) (hash : String → String) where
  serve_people-IsReviewed :
      (c : ℕ × Option String × PeopleCall) → Keeps IsReviewed (serve_people decode_token hash c)
  unfolding serve_people
  serve_people-IsReviewed (now, token, PeopleCall.update_my_profile_call f) =
      endpoint-Keeps IsReviewed decode_token token _ _ _ λ i user v.
        answered-Keeps IsReviewed (update_own_profile i f)
          λ s z h. IsReviewed-frame s.db _ (update_own_profile-frame i f s)
  serve_people-IsReviewed (now, token, PeopleCall.request_bank_change_call b k) =
      endpoint-Keeps IsReviewed decode_token token _ _ _ λ i user v.
        answered-Keeps IsReviewed (request_bank_change i b k)
          λ s z h. request_bank_change-IsReviewed i b k s
  serve_people-IsReviewed (now, token, PeopleCall.request_own_bank_change_call b k) =
      farmer_endpoint-Keeps IsReviewed decode_token token _ _ _ λ i user.
        answered-Keeps IsReviewed (request_bank_change i b k)
          λ s z h. request_bank_change-IsReviewed i b k s
  serve_people-IsReviewed (now, token, PeopleCall.review_bank_change_call r b n) =
      endpoint-Keeps IsReviewed decode_token token _ _ _ λ i user v.
        answered-Keeps IsReviewed (review_bank_change now i r b n)
          λ s z h. review_bank_change-IsReviewed now i r b n s
  serve_people-IsReviewed (now, token, PeopleCall.set_farmer_approval_call f x) =
      endpoint-Keeps IsReviewed decode_token token _ _ _ λ i user v.
        answered-Keeps IsReviewed (set_approval i f x)
          λ s z h. IsReviewed-frame s.db _ (set_approval-frame i f x s)
  serve_people-IsReviewed (now, token, PeopleCall.create_farmer_call n p e w a q f k l) =
      endpoint-Keeps IsReviewed decode_token token _ _ _ λ i user v.
        answered-Keeps IsReviewed (create_farmer hash i n p e w a q f k l)
          λ s z h. IsReviewed-frame s.db _ (create_farmer-frame hash i n p e w a q f k l s)
  serve_people-IsReviewed (now, token, PeopleCall.update_farmer_call f n p e q k) =
      endpoint-Keeps IsReviewed decode_token token _ _ _ λ i user v.
        answered-Keeps IsReviewed (update_farmer_by_admin i f n p e q k)
          λ s z h. IsReviewed-frame s.db _ (update_farmer_by_admin-frame i f n p e q k s)
  serve_people-IsReviewed (now, token, PeopleCall.create_manager_call n p e w r g u k l) =
      endpoint-Keeps IsReviewed decode_token token _ _ _ λ i user v.
        answered-Keeps IsReviewed (create_manager hash i n p e w r g u k l)
          λ s z h. IsReviewed-frame s.db _ (create_manager-frame hash i n p e w r g u k l s)
  serve_people-IsReviewed (now, token, PeopleCall.update_manager_status_call m x) =
      endpoint-Keeps IsReviewed decode_token token _ _ _ λ i user v.
        answered-Keeps IsReviewed (update_manager_status i m x)
          λ s z h. IsReviewed-frame s.db _ (update_manager_status-frame i m x s)
  serve_people-IsReviewed (now, token, PeopleCall.update_manager_call m n p e g u k) =
      endpoint-Keeps IsReviewed decode_token token _ _ _ λ i user v.
        answered-Keeps IsReviewed (update_manager i m n p e g u k)
          λ s z h. IsReviewed-frame s.db _ (update_manager-frame i m n p e g u k s)
  serve_people-IsReviewed (now, token, PeopleCall.reset_manager_password_call m w) =
      endpoint-Keeps IsReviewed decode_token token _ _ _
        λ i user v. λ s z h. IsReviewed-frame s.db _ (reset_manager_password-frame hash i m w s)

-- From committed rows in which no farmer has two pending requests for a change of bank details, any
-- sequence of requests about farmers and managers that run one after the other, none beginning
-- before the one before it has committed or rolled back, commits rows of which the same holds. The
-- decoding of tokens and the hashing of passwords are arbitrary.
pub people-IsReviewed :
    (decode_token : String → Option Claims) (hash : String → String)
    (calls : List (ℕ × Option String × PeopleCall)) (w : World)
    → IsReviewed w.committed
    → IsReviewed (requests (serve_people decode_token hash) calls w).committed
people-IsReviewed decode_token hash calls w inv =
    requests-Keeps IsReviewed (serve_people decode_token hash)
      (serve_people-IsReviewed decode_token hash) calls w inv

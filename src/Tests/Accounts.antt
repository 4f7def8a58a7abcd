-- ===== src/Tests/Accounts.antt =====
-- The theorems on tokens, permissions, passwords and one-time codes at the test database.
use Prim.Native.String.{◌++◌ as join}
use text.Mathlib.Text.{◌==◌ as str_eq}
use agri_flow.Prelude.{
  ◌+◌, ◌<◌, ◌≤◌, ℕ, ◌≡◌, refl, arith, String, Bool, true, false, none, some, List, [], ◌∷◌,
}
use agri_flow.Errors.{Error, err}
use agri_flow.Enums.{UserRole}
use agri_flow.Models.{User, RefreshToken}
use agri_flow.Session.{World, open_session, get_db}
use agri_flow.Permissions.{
  require_any_permission, require_active_user, get_current_user, role_has_permission,
}
use agri_flow.Permissions.Access.{
  Authorised, require_any_permission-Authorised, role_has_permission-super_admin,
}
use agri_flow.Auth.{rotate_refresh_token, issue_token_pair, change_password, revoke_all}
use agri_flow.Auth.Tokens.{
  live_tokens, change_password-live_tokens, rotate_refresh_token-reuse,
  rotate_refresh_token-live_tokens,
}
use agri_flow.Otp.{Codes, issue, verify, guesses}
use agri_flow.Otp.Lockout.{AllWrong, AllBefore, verify-locked, issue-verify}
use agri_flow.Tests.Data.{base, world, session, token, farmer, decode}

require_any_permission-Authorised_example :
    Authorised decode ("booking.create" ∷ []) (some "farmer") base 7 farmer
unfolding require_any_permission require_active_user get_current_user role_has_permission
require_any_permission-Authorised_example =
    require_any_permission-Authorised decode ("booking.create" ∷ []) (some "farmer") base 7 farmer
      refl

role_has_permission-super_admin_example : UserRole.super_admin ≡ UserRole.super_admin
unfolding role_has_permission
role_has_permission-super_admin_example =
    role_has_permission-super_admin UserRole.super_admin "seed.manage" refl refl

-- stand-ins for Argon2, SHA-256, the JWT encoding and HMAC
abbrev digest : String → String
digest t = join "h:" t

abbrev check : String → String → Bool
check plain hashed = str_eq (digest plain) hashed

abbrev encode : ℕ → User → String
encode i u = u.name

abbrev never : String → Bool
never h = false

change_password-live_tokens_example :
    live_tokens 7 (change_password digest check never 7 farmer "old" "new" session).1.db ≡ 0
unfolding change_password
change_password-live_tokens_example =
    change_password-live_tokens digest check never 7 farmer "old" "new" session {u = tt} refl

rotate_refresh_token-live_tokens_example :
    live_tokens 7 (rotate_refresh_token digest encode 30 10 "t1" "t2" 41 session).1.db
    ≡ live_tokens 7 base
unfolding rotate_refresh_token issue_token_pair
rotate_refresh_token-live_tokens_example =
    rotate_refresh_token-live_tokens digest encode 30 10 "t1" "t2" 41 session
      ("Asha", "t2", 7, farmer) 7 (refl, tt) refl

abbrev other : RefreshToken
other = record (token false) { token_hash = "h:t9" }

abbrev stolen : World
stolen = record world {
  committed = record base { refresh_tokens = (12, token true) ∷ (13, other) ∷ [] };
}

rotate_refresh_token-reuse_example :
    let m = rotate_refresh_token digest encode 30 10 "t1" "t2" 41 in
    ((get_db m stolen).0 ≡ err Error.unauthorized)
    × ((m (open_session stolen)).1.db ≡ revoke_all 7 stolen.committed)
    × ((get_db m stolen).1.committed ≡ stolen.committed)
rotate_refresh_token-reuse_example =
    rotate_refresh_token-reuse digest encode 30 10 "t1" "t2" 41 12 (token true) stolen refl refl

abbrev hmac : String → String → String
hmac phone code = join phone code

abbrev codes : Codes
codes purpose phone = some (record { hash = "900123456"; attempts = 0; expires_at = 700 })

abbrev no_codes : Codes
no_codes purpose phone = none

abbrev wrong : List (ℕ × String)
wrong = (101, "1") ∷ (102, "2") ∷ (103, "3") ∷ (104, "4") ∷ []

verify-locked_example :
    (verify hmac 110 "900" "123456" "registration" true
      (guesses hmac "900" "registration" true ((100, "5") ∷ wrong) codes)).0
    ≡ false
unfolding AllWrong
verify-locked_example =
    verify-locked hmac "900" "registration" true true ((100, "5") ∷ wrong) 110 "123456" codes
      (record { hash = "900123456"; attempts = 0; expires_at = 700 }) refl
      (refl, (refl, (refl, (refl, (refl, tt))))) (omega arith)

issue-verify_example :
    let sent = (issue hmac false false "900" "registration" "123456" 100 no_codes).1 in
    let first =
      verify hmac 110 "900" "123456" "registration" true
        (guesses hmac "900" "registration" true wrong sent) in
    (110 < 100 + 600
      → (first.0 ≡ true)
        × ((later : ℕ) (g : String)
            → (verify hmac later "900" g "registration" true first.1).0 ≡ false))
    × (100 + 600 ≤ 110 → first.0 ≡ false)
unfolding AllWrong AllBefore
issue-verify_example =
    issue-verify hmac "900" "registration" false false true "123456" 100 wrong 110 no_codes refl
      (refl, (refl, (refl, (refl, tt))))
      (omega arith, (omega arith, (omega arith, (omega arith, tt)))) (omega arith)

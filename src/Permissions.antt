-- ===== src/Permissions.antt =====
-- core/dependencies.py: from a bearer token to the user, and what each role may do.
pub mod Access
use text.Mathlib.Text.{◌==◌ as str_eq}
use agri_flow.Prelude.{
  ℕ, ◌≡◌, refl, inl, inr, arith, String, Bool, true, false, not, ◌||◌, Option, none, some, List, [],
  ◌∷◌, ◌++◌, Bool-cases,
}
use agri_flow.Prelude.Table.{lookup}
use agri_flow.Errors.{Error, Result, ok, err}
use agri_flow.Exec.Pure.{guard_not, found, ◌>>=◌, ◌>>◌}
use agri_flow.Enums.{UserRole, UserStatus, is_farmer}
use agri_flow.Models.{User, Db}

-- `permission in permissions`
abbrev pub is_among : List String → String → Bool
is_among [] p = false
is_among (q ∷ qs) p = str_eq q p || is_among qs p

-- `ROLE_PERMISSIONS`
abbrev pub granted : UserRole → List String
granted UserRole.farmer =
    "crop.read" ∷ "crop.create" ∷ "seed.read" ∷ "seed.purchase" ∷ "grain_sale.create"
    ∷ "grain_sale.read" ∷ "booking.create" ∷ "booking.read" ∷ "booking.cancel.own"
    ∷ "warehouse.read" ∷ "transaction.read" ∷ "visit.read" ∷ "market_rate.read" ∷ "profile.read.own"
    ∷ "profile.update.own" ∷ "notification.read.own" ∷ "bank_change.request"
    ∷ "dashboard.farmer.read" ∷ "document.upload.own" ∷ "device.register.own" ∷ []
granted UserRole.manager =
    "farmer.read" ∷ "farmer.create" ∷ "farmer.approve" ∷ "crop.read" ∷ "visit.read" ∷ "visit.create"
    ∷ "visit.update" ∷ "seed.read" ∷ "seed_purchase.review" ∷ "grain_sale.read"
    ∷ "grain_sale.review" ∷ "grain_sale.inspect" ∷ "grain_sale.pay" ∷ "booking.read"
    ∷ "booking.review" ∷ "warehouse.read" ∷ "warehouse.manage" ∷ "procurement.manage"
    ∷ "market_rate.read" ∷ "transaction.read" ∷ "transaction.pay" ∷ "notification.read.own"
    ∷ "dashboard.admin.read" ∷ "report.read" ∷ []
granted UserRole.super_admin = "*" ∷ []

-- `SUPER_ADMIN_ONLY_PERMISSIONS`
abbrev pub super_admin_only : List String
super_admin_only =
    "manager.manage" ∷ "audit.read" ∷ "seed.manage" ∷ "market_rate.manage" ∷ "bank_change.review"
    ∷ "warehouse.create" ∷ []

unfoldable pub role_has_permission : UserRole → String → Bool
role_has_permission role permission =
    is_among (granted role) "*" || is_among (granted role) permission

abbrev pub has_any : UserRole → List String → Bool
has_any role [] = false
has_any role (p ∷ ps) = role_has_permission role p || has_any role ps

-- What `decode_token` gives of a token that is valid: its type, and its subject if that is a key.
pub record Claims : Type 0 where
  pub type_ : Option String
  pub subject : Option ℕ

abbrev pub is_access : Option String → Bool
is_access none = false
is_access (some t) = str_eq t "access"

abbrev pub is_suspended : UserStatus → Bool
is_suspended UserStatus.suspended = true
is_suspended _ = false

abbrev pub is_active : UserStatus → Bool
is_active UserStatus.active = true
is_active _ = false

-- The JWT library's decoding of a token is a parameter: `none` is its `JWTError`.
module _ (decode_token : String → Option Claims) where
  abbrev pub live_user : ℕ → Db → Result (ℕ × User)
  live_user user_id d = do
    user ← found (lookup user_id d.users) Error.unauthorized
    guard_not (is_suspended user.status) Error.forbidden
    ok (user_id, user)

  unfoldable pub get_current_user : Option String → Db → Result (ℕ × User)
  get_current_user token d = do
    t ← found token Error.unauthorized
    guard_not (str_eq t "") Error.unauthorized
    claims ← found (decode_token t) Error.unauthorized
    guard_not (not (is_access claims.type_)) Error.unauthorized
    user_id ← found claims.subject Error.unauthorized
    live_user user_id d

  unfoldable pub require_active_user : Option String → Db → Result (ℕ × User)
  require_active_user token d = do
    (user_id, user) ← get_current_user token d
    guard_not (not (is_active user.status)) Error.forbidden
    ok (user_id, user)

  -- `require_permission` is the case of one permission
  unfoldable pub require_any_permission : List String → Option String → Db → Result (ℕ × User)
  require_any_permission permissions token d = do
    (user_id, user) ← require_active_user token d
    guard_not (not (has_any user.role permissions)) Error.forbidden
    ok (user_id, user)

  -- the guard of the farmer application's routes
  unfoldable pub require_farmer : String → Option String → Db → Result (ℕ × User)
  require_farmer permission token d = do
    (user_id, user) ← require_active_user token d
    guard_not (not (is_farmer user.role)) Error.forbidden
    guard_not (not (role_has_permission user.role permission)) Error.forbidden
    ok (user_id, user)

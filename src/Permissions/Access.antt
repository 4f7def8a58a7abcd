-- ===== src/Permissions/Access.antt =====
-- What the checks of core/dependencies.py ask of a token and its user.
use text.Mathlib.Text.{◌==◌ as str_eq}
use text.Mathlib.TextEquality.{eq_iff}
use mathlib.Core.Path.{subst₂}
use agri_flow.Prelude.{
  ℕ, ◌≡◌, refl, sym, inl, inr, arith, String, Bool, true, false, not, ◌&&◌, Option, none, some,
  List, [], ◌∷◌, Bool-cases, Option-cases,
}
use agri_flow.Prelude.Table.{lookup}
use agri_flow.Errors.{Error, Result, ok}
use agri_flow.Exec.Pure.{guard_not, ◌>>=◌, ◌>>◌}
use agri_flow.Enums.{UserRole, UserStatus}
use agri_flow.Models.{User, Db}
use agri_flow.Permissions.{
  is_among, super_admin_only, role_has_permission, has_any, Claims, is_access, is_active,
  is_suspended, live_user, get_current_user, require_active_user, require_any_permission,
}

abbrev none_of : (String → Bool) → List String → Bool
none_of f [] = true
none_of f (p ∷ ps) = not (f p) && none_of f ps

none_of-among :
    (f : String → Bool) (ps : List String) (p : String)
    → none_of f ps ≡ true
    → is_among ps p ≡ true
    → f p ≡ false
none_of-among f [] p e h = cc
none_of-among f (q ∷ ps) p e h = elim (Bool-cases (str_eq q p)) [
  | inl here ↦ rw (sym ((eq_iff q p).0 here)) (ground arith)
  | inr apart ↦ none_of-among f ps p (ground arith) (rw apart at h)
]

-- Of the permissions that are declared to be the super admin's alone, no other role has one.
pub role_has_permission-super_admin :
    (role : UserRole) (permission : String)
    → is_among super_admin_only permission ≡ true
    → role_has_permission role permission ≡ true
    → role ≡ UserRole.super_admin
unfolding role_has_permission
role_has_permission-super_admin UserRole.super_admin permission own has = refl
role_has_permission-super_admin UserRole.farmer permission own has =
    absurd (
      cc (none_of-among (role_has_permission UserRole.farmer) super_admin_only permission refl own))
role_has_permission-super_admin UserRole.manager permission own has =
    absurd (
      cc
        (none_of-among (role_has_permission UserRole.manager) super_admin_only permission refl own))

-- Who a request acts for: the subject of its access token, as stored, active, and granted one of
-- the permissions.
pub record Authorised (decode_token : String → Option Claims) (permissions : List String)
    (token : Option String) (d : Db) (user_id : ℕ) (user : User) : Type 0 where
  pub text : String
  pub presented : token ≡ some text
  pub claims : Claims
  pub decoded : decode_token text ≡ some claims
  pub access : is_access claims.type_ ≡ true
  pub subject : claims.subject ≡ some user_id
  pub stored : lookup user_id d.users ≡ some user
  pub active : user.status ≡ UserStatus.active
  pub granted_one : has_any user.role permissions ≡ true

is_active-eq : (st : UserStatus) → is_active st ≡ true → st ≡ UserStatus.active
is_active-eq UserStatus.active h = refl
is_active-eq UserStatus.pending h = cc
is_active-eq UserStatus.rejected h = cc
is_active-eq UserStatus.suspended h = cc

-- the checks once the token has named the user
abbrev from_user : (String → Option Claims) → List String → ℕ → Db → Result (ℕ × User)
from_user decode_token permissions i d = do
  (j, u) ← do
    (j, u) ← live_user decode_token i d
    guard_not (not (is_active u.status)) Error.forbidden
    ok (j, u)
  guard_not (not (has_any u.role permissions)) Error.forbidden
  ok (j, u)

live-ok :
    (decode_token : String → Option Claims) (permissions : List String) (i : ℕ) (d : Db)
    (user_id : ℕ) (user : User)
    → from_user decode_token permissions i d ≡ ok (user_id, user)
    → (u : User) × (lookup i d.users ≡ some u)
      × (is_active u.status ≡ true)
      × (has_any u.role permissions ≡ true)
      × ((i ≡ user_id) × (u ≡ user))
live-ok decode_token permissions i d user_id user h = elim (Option-cases (lookup i d.users)) [
  | inl gone ↦ absurd (cc (rw gone at h))
  | inr (u, stored) ↦
      let h₁ = rw stored at h in
      elim (Bool-cases (is_suspended u.status)) [
        | inl suspended ↦ absurd (cc (rw suspended at h₁))
        | inr standing ↦
            let h₂ = rw standing at h₁ in
            elim (Bool-cases (is_active u.status)) [
              | inr idle ↦ absurd (cc (rw idle at h₂))
              | inl live ↦
                  let h₃ = rw live at h₂ in
                  elim (Bool-cases (has_any u.role permissions)) [
                    | inr lacking ↦ absurd (cc (rw lacking at h₃))
                    | inl held ↦ let h₄ = rw held at h₃ in (u, stored, live, held, (cc, cc))
                  ]
            ]
      ]
]

-- A request that passes the checks carries an access token whose subject is the user that is handed
-- on, and that user is stored, active and has one of the permissions.
pub require_any_permission-Authorised :
    (decode_token : String → Option Claims) (permissions : List String) (token : Option String)
    (d : Db) (user_id : ℕ) (user : User)
    → require_any_permission decode_token permissions token d ≡ ok (user_id, user)
    → Authorised decode_token permissions token d user_id user
unfolding require_any_permission require_active_user get_current_user
require_any_permission-Authorised decode_token permissions none d user_id user h = cc
require_any_permission-Authorised decode_token permissions (some text) d user_id user h =
    elim (Bool-cases (str_eq text "")) [
      | inl empty ↦ absurd (cc (rw empty at h))
      | inr full ↦
          let h₁ = rw full at h in
          elim (Option-cases (decode_token text)) [
            | inl bad ↦ absurd (cc (rw bad at h₁))
            | inr (claims, decoded) ↦
                let h₂ = rw decoded at h₁ in
                elim (Bool-cases (is_access claims.type_)) [
                  | inr other ↦ absurd (cc (rw other at h₂))
                  | inl access ↦
                      let h₃ = rw access at h₂ in
                      elim (Option-cases claims.subject) [
                        | inl malformed ↦ absurd (cc (rw malformed at h₃))
                        | inr (i, subject) ↦
                            let (u, stored, live, held, same) =
                              live-ok decode_token permissions i d user_id user
                                (rw subject at h₃) in
                            subst₂ (Authorised decode_token permissions (some text) d) same.0 same.1
                              (record {
                                text = text;
                                presented = refl;
                                claims = claims;
                                decoded = decoded;
                                access = access;
                                subject = subject;
                                stored = stored;
                                active = is_active-eq u.status live;
                                granted_one = held;
                              })
                      ]
                ]
          ]
    ]

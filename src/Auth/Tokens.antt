-- ===== src/Auth/Tokens.antt =====
-- Refresh tokens of services/auth_service.py: how many a user can still use, and what comes of a
-- token that is presented again.
use agri_flow.Prelude.{
  ℕ, ◌≡◌, refl, inl, inr, String, Bool, true, false, none, some, [], ◌∷◌, ltb, ◌==◌, arith,
  Bool-cases, Option-cases, ==_iff, if◌then◌else◌, is_some, head?,
}
use agri_flow.Prelude.Table.{
  Table, lookup, insert, rows_where, update_where, count_by, count_by-insert, count_by-insert_new,
  lookup-insert, IsKeyed, lookup-rows_where,
}
use agri_flow.Errors.{Error, ok, err}
use agri_flow.Exec.{pure, ◌>>=◌, ◌>>◌, Result-cases}
use agri_flow.Exec.Pure.{found, scalar_one_or_none, scalar_one_or_none-some}
use agri_flow.Models.{User, RefreshToken, Db}
use agri_flow.Session.{Action, query, write, Session, World, open_session, get_db}
use agri_flow.Auth.{
  revoke_all, is_of, revoke, is_token_hash, rotate_refresh_token, change_password, issue_token_pair,
  new_token, replaced,
}

abbrev pub live : ℕ → RefreshToken → ℕ
live user_id t = if t.user_id == user_id then (if t.revoked then 0 else 1) else 0

abbrev pub live_tokens : ℕ → Db → ℕ
live_tokens user_id d = count_by (live user_id) d.refresh_tokens

none_live :
    (user_id : ℕ) (t : Table RefreshToken)
    → count_by (live user_id) (update_where (is_of user_id) revoke t) ≡ 0
none_live user_id [] = refl
none_live user_id (x ∷ t) = ground (arith, none_live user_id t)

still_there :
    {V : Type 0} (k : ℕ) (n : V) (i : ℕ) (t : V) (rows : Table V)
    → lookup k rows ≡ none
    → lookup i rows ≡ some t
    → lookup i (insert k n rows) ≡ some t
still_there k n i t rows fresh row = elim (Bool-cases (k == i)) [
  | inl same ↦ absurd (cc ((==_iff k i).0 same))
  | inr apart ↦ rw (lookup-insert, apart) row
]

stored_row :
    {V : Type 0} (p : V → Bool) (i : ℕ) (t : V) (rows : Table V)
    → IsKeyed rows
    → scalar_one_or_none (rows_where p rows) ≡ ok (some (i, t))
    → lookup i rows ≡ some t
stored_row p i t rows keyed one =
    lookup-rows_where p i t [] rows keyed (scalar_one_or_none-some (rows_where p rows) (i, t) one)

-- A password that is changed leaves its user no refresh token that can be used, whoever holds it.
pub change_password-live_tokens :
    (hash_password : String → String) (verify_password : String → String → Bool)
    (needs_rehash : String → Bool) (i : ℕ) (user : User) (current new : String) (s : Session)
    {u : Unit {0}}
    → (change_password hash_password verify_password needs_rehash i user current new s).0 ≡ ok u
    → live_tokens i
        (change_password hash_password verify_password needs_rehash i user current new s).1.db
      ≡ 0
unfolding change_password
change_password-live_tokens hash_password verify_password needs_rehash i user current new s h =
    ground (arith, none_live i s.db.refresh_tokens)

module _ (sha256 : String → String) (create_access_token : ℕ → User → String) (lifetime now : ℕ)
    (token plain : String) (k : ℕ) where
  -- A token that has been rotated away is refused with 401. The handler revokes every token of its
  -- user first, but the request rolls back, so the committed rows are as they were.
  pub rotate_refresh_token-reuse :
      (i : ℕ) (t : RefreshToken) (w : World)
      → rows_where (is_token_hash (sha256 token)) w.committed.refresh_tokens ≡ (i, t) ∷ []
      → t.revoked ≡ true
      → let m = rotate_refresh_token sha256 create_access_token lifetime now token plain k in
        ((get_db m w).0 ≡ err Error.unauthorized)
        × ((m (open_session w)).1.db ≡ revoke_all t.user_id w.committed)
        × ((get_db m w).1.committed ≡ w.committed)
  unfolding rotate_refresh_token get_db
  rotate_refresh_token-reuse i t w one gone = rw (one, gone) (refl, refl, refl)

  conserved :
      (i : ℕ) (t : RefreshToken) (rows : Table RefreshToken) (user_id : ℕ)
      → lookup i rows ≡ some t
      → t.revoked ≡ false
      → lookup k rows ≡ none
      → count_by (live user_id) (
          insert i
            (replaced sha256 create_access_token lifetime plain t)
            (insert k (new_token sha256 create_access_token lifetime now t.user_id plain) rows))
        ≡ count_by (live user_id) rows
  conserved i t rows user_id row usable fresh =
      let n = new_token sha256 create_access_token lifetime now t.user_id plain in
      let still : lookup i (insert k n rows) ≡ some t = still_there k n i t rows fresh row in
      let a =
        count_by-insert (live user_id) i (replaced sha256 create_access_token lifetime plain t) t
          (insert k n rows) still in
      let b = count_by-insert_new (live user_id) k n rows fresh in
      elim (Bool-cases (t.user_id == user_id)) [
        | inl own ↦ omega (arith, rw (usable, own) at a, rw own at b)
        | inr other ↦ omega (arith, rw other at a, rw other at b)
      ]

  -- from the lookup of the user on
  abbrev rest : ℕ → RefreshToken → Action (String × String × ℕ × User)
  rest i t = do
    user ← query (λ d. found (lookup t.user_id d.users) Error.unauthorized)
    (access, refresh) ←
        issue_token_pair sha256 create_access_token lifetime now t.user_id user plain k
    write (λ d. record d {
      refresh_tokens =
          insert i (replaced sha256 create_access_token lifetime refresh t) d.refresh_tokens;
    })
    pure (access, refresh, t.user_id, user)

  issued :
      (i : ℕ) (t : RefreshToken) (s : Session) (a : String × String × ℕ × User) (user_id : ℕ)
      → lookup i s.db.refresh_tokens ≡ some t
      → t.revoked ≡ false
      → (rest i t s).0 ≡ ok a
      → live_tokens user_id (rest i t s).1.db ≡ live_tokens user_id s.db
  unfolding issue_token_pair
  issued i t s a user_id row usable h = elim (Option-cases (lookup t.user_id s.db.users)) [
    | inl missing ↦ absurd (cc (rw missing at h))
    | inr (user, known) ↦
        let h₁ = rw known at h in
        rw known
          (elim (Bool-cases
            (is_some (head? (rows_where (is_token_hash (sha256 plain)) s.db.refresh_tokens)))) [
              | inl clash ↦ absurd (cc (rw clash at h₁))
              | inr new ↦
                  let h₂ = rw new at h₁ in
                  rw new (elim (Option-cases (lookup k s.db.refresh_tokens)) [
                    | inr (old, taken) ↦ absurd (cc (rw taken at h₂))
                    | inl fresh ↦
                        rw fresh (conserved i t s.db.refresh_tokens user_id row usable fresh)
                  ])
            ])
  ]

  -- A rotation that succeeds takes one usable token from its user and gives one: each user has as
  -- many as before. Its condition is that keys are unique.
  pub rotate_refresh_token-live_tokens :
      (s : Session) (a : String × String × ℕ × User) (user_id : ℕ)
      → IsKeyed s.db.refresh_tokens
      → (rotate_refresh_token sha256 create_access_token lifetime now token plain k s).0 ≡ ok a
      → live_tokens user_id
          (rotate_refresh_token sha256 create_access_token lifetime now token plain k s).1.db
        ≡ live_tokens user_id s.db
  unfolding rotate_refresh_token issue_token_pair
  rotate_refresh_token-live_tokens s a user_id keyed h =
      elim (Result-cases
        (scalar_one_or_none (rows_where (is_token_hash (sha256 token)) s.db.refresh_tokens))) [
          | inr (e, many) ↦ absurd (cc (rw many at h))
          | inl (none, absent) ↦ absurd (cc (rw absent at h))
          | inl (some (i, t), one) ↦
              let h₁ = rw one at h in
              let row =
                stored_row (is_token_hash (sha256 token)) i t s.db.refresh_tokens keyed one in
              rw one (elim (Bool-cases t.revoked) [
                | inl gone ↦ absurd (cc (rw gone at h₁))
                | inr usable ↦
                    let h₂ = rw usable at h₁ in
                    rw usable (elim (Bool-cases (ltb t.expires_at now)) [
                      | inl late ↦ absurd (cc (rw late at h₂))
                      | inr early ↦
                          let h₃ = rw early at h₂ in rw early (issued i t s a user_id row usable h₃)
                    ])
              ])
        ]

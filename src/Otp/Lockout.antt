-- ===== src/Otp/Lockout.antt =====
-- Guesses at a one-time code of services/otp_service.py.
use text.Mathlib.Text.{◌==◌ as str_eq}
use text.Mathlib.TextPositions.{eq_refl}
use agri_flow.Prelude.{
  ℕ, ◌+◌, ◌≤◌, ◌<◌, ◌≡◌, refl, ap, ◌∙◌, inl, inr, arith, String, Bool, true, false, none, some,
  List, [], ◌∷◌, length, ltb, leb, Bool-cases,
}
use agri_flow.Otp.{is_purpose, issue, max_attempts, Code, Codes, verify, guesses}

module _ (hmac : String → String → String) (phone purpose : String) where
  unfoldable pub AllWrong : String → List (ℕ × String) → Type 0
  AllWrong h [] = Unit
  AllWrong h ((now, g) ∷ gs) = (str_eq h (hmac phone g) ≡ false) × AllWrong h gs

  -- all before a time
  unfoldable pub AllBefore : ℕ → List (ℕ × String) → Type 0
  AllBefore e [] = Unit
  AllBefore e ((now, g) ∷ gs) = (now < e) × AllBefore e gs

  module _ (consume : Bool) (now : ℕ) where
    verify-missing :
        (g : String) (codes : Codes)
        → codes purpose phone ≡ none
        → ((verify hmac now phone g purpose consume codes).0 ≡ false)
          × ((verify hmac now phone g purpose consume codes).1 purpose phone ≡ none)
    unfolding verify
    verify-missing g codes e = rw (e, eq_refl purpose, eq_refl phone) (refl, refl)

    verify-expired :
        (g : String) (codes : Codes) (c : Code)
        → codes purpose phone ≡ some c
        → ltb now c.expires_at ≡ false
        → ((verify hmac now phone g purpose consume codes).0 ≡ false)
          × ((verify hmac now phone g purpose consume codes).1 purpose phone ≡ none)
    unfolding verify
    verify-expired g codes c e late = rw (e, late, eq_refl purpose, eq_refl phone) (refl, refl)

    verify-spent :
        (g : String) (codes : Codes) (c : Code)
        → codes purpose phone ≡ some c
        → leb max_attempts c.attempts ≡ true
        → ((verify hmac now phone g purpose consume codes).0 ≡ false)
          × ((verify hmac now phone g purpose consume codes).1 purpose phone ≡ none)
    unfolding verify
    verify-spent g codes c e spent = elim (Bool-cases (ltb now c.expires_at)) [
      | inl live ↦ rw (e, live, spent, eq_refl purpose, eq_refl phone) (refl, refl)
      | inr late ↦ rw (e, late, eq_refl purpose, eq_refl phone) (refl, refl)
    ]

    verify-wrong :
        (g : String) (codes : Codes) (c : Code)
        → codes purpose phone ≡ some c
        → ltb now c.expires_at ≡ true
        → leb max_attempts c.attempts ≡ false
        → str_eq c.hash (hmac phone g) ≡ false
        → (verify hmac now phone g purpose consume codes).1 purpose phone
          ≡ some (record c { attempts = c.attempts + 1 })
    unfolding verify
    verify-wrong g codes c e live left wrong =
        rw (e, live, left, wrong, eq_refl purpose, eq_refl phone) refl

  guesses-missing :
      (consume : Bool) (gs : List (ℕ × String)) (codes : Codes)
      → codes purpose phone ≡ none
      → guesses hmac phone purpose consume gs codes purpose phone ≡ none
  unfolding guesses
  guesses-missing consume [] codes e = e
  guesses-missing consume ((now, g) ∷ gs) codes e =
      guesses-missing consume gs (verify hmac now phone g purpose consume codes).1
        (verify-missing consume now g codes e).1

  -- Once a stored code has been guessed wrongly five times, counting the attempts it had before the
  -- guesses, no guess is accepted any more, the right one included, whenever the guesses are made.
  pub verify-locked :
      (consume consume' : Bool) (gs : List (ℕ × String)) (now : ℕ) (g : String) (codes : Codes)
      (c : Code)
      → codes purpose phone ≡ some c
      → AllWrong c.hash gs
      → 5 ≤ c.attempts + length gs
      → (verify hmac now phone g purpose consume' (guesses hmac phone purpose consume gs codes)).0
        ≡ false
  unfolding guesses AllWrong
  verify-locked consume consume' [] now g codes c e wrong n =
      (verify-spent consume' now g codes c e (ground arith)).0
  verify-locked consume consume' ((at, x) ∷ gs) now g codes c e wrong n =
      elim (Bool-cases (ltb at c.expires_at)) [
        | inr late ↦
            (verify-missing consume' now g _
              (guesses-missing consume gs _ (verify-expired consume at x codes c e late).1)).0
        | inl live ↦ elim (Bool-cases (leb max_attempts c.attempts)) [
          | inl spent ↦
              (verify-missing consume' now g _
                (guesses-missing consume gs _ (verify-spent consume at x codes c e spent).1)).0
          | inr left ↦
              verify-locked consume consume' gs now g _ (record c { attempts = c.attempts + 1 })
                (verify-wrong consume at x codes c e live left wrong.0) wrong.1 (omega (arith, n))
        ]
      ]

  before_lt : (now e : ℕ) → now < e → ltb now e ≡ true
  before_lt now e h = ground arith

  after_le : (now e : ℕ) → e ≤ now → ltb now e ≡ false
  after_le now e h = ground arith

  guesses-left :
      (consume : Bool) (gs : List (ℕ × String)) (codes : Codes) (c : Code)
      → codes purpose phone ≡ some c
      → AllWrong c.hash gs
      → AllBefore c.expires_at gs
      → c.attempts + length gs < 5
      → guesses hmac phone purpose consume gs codes purpose phone
        ≡ some (record c { attempts = c.attempts + length gs })
  unfolding guesses AllWrong AllBefore
  guesses-left consume [] codes c e wrong before n =
      let same : c.attempts + 0 ≡ c.attempts = omega arith in rw (same) e
  guesses-left consume ((at, x) ∷ gs) codes c e wrong before n =
      let left : leb max_attempts c.attempts ≡ false = ground arith in
      let rest =
        guesses-left consume gs _ (record c { attempts = c.attempts + 1 })
          (verify-wrong consume at x codes c e (before_lt at c.expires_at before.0) left wrong.0)
          wrong.1 before.1 (omega (arith, n)) in
      let count : c.attempts + 1 + length gs ≡ c.attempts + length ((at, x) ∷ gs) = omega arith in
      rest ∙ ap (λ k. some (record c { attempts = k })) count

  verify-accepted :
      (consume : Bool) (gs : List (ℕ × String)) (now : ℕ) (g : String) (codes : Codes) (c : Code)
      → codes purpose phone ≡ some c
      → AllWrong c.hash gs
      → AllBefore c.expires_at gs
      → str_eq c.hash (hmac phone g) ≡ true
      → c.attempts + length gs < 5
      → let tried = guesses hmac phone purpose consume gs codes in
        let first = verify hmac now phone g purpose true tried in
        (now < c.expires_at
          → (first.0 ≡ true)
            × ((later : ℕ) (g' : String)
                → (verify hmac later phone g' purpose true first.1).0 ≡ false))
        × (c.expires_at ≤ now → first.0 ≡ false)
  unfolding verify
  verify-accepted consume gs now g codes c e wrong before right n =
      let here = guesses-left consume gs codes c e wrong before n in
      let left : leb max_attempts (c.attempts + length gs) ≡ false = ground arith in
      (
        λ in_time.
            rw (here, before_lt now c.expires_at in_time, left, right)
              (refl, λ later g'. rw (eq_refl purpose, eq_refl phone) refl),
        λ late. rw (here, after_le now c.expires_at late) refl,
      )

  -- A code that is issued is accepted in the ten minutes after, while fewer than five wrong guesses
  -- have been made in them, and is not accepted again once it is consumed; after the ten minutes it
  -- is not accepted. Its purpose is one of the two that there are.
  pub issue-verify :
      (is_production echoes consume : Bool) (code : String) (issued : ℕ) (gs : List (ℕ × String))
      (now : ℕ) (codes : Codes)
      → is_purpose purpose ≡ true
      → AllWrong (hmac phone code) gs
      → AllBefore (issued + 600) gs
      → length gs < 5
      → let sent = (issue hmac is_production echoes phone purpose code issued codes).1 in
        let first =
          verify hmac now phone code purpose true (guesses hmac phone purpose consume gs sent) in
        (now < issued + 600
          → (first.0 ≡ true)
            × ((later : ℕ) (g : String)
                → (verify hmac later phone g purpose true first.1).0 ≡ false))
        × (issued + 600 ≤ now → first.0 ≡ false)
  unfolding issue
  issue-verify is_production echoes consume code issued gs now codes known wrong before n =
      let c : Code = record { hash = hmac phone code; attempts = 0; expires_at = issued + 600 } in
      let sent = (issue hmac is_production echoes phone purpose code issued codes).1 in
      let there : sent purpose phone ≡ some c = rw (known, eq_refl purpose, eq_refl phone) refl in
      verify-accepted consume gs now code sent c there wrong before (eq_refl (hmac phone code))
        (omega (arith, n))

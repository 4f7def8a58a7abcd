-- ===== src/Otp.antt =====
-- services/otp_service.py: one-time codes in Redis, under the purpose and the phone number.
-- Redis keeps a key until its time to live is over.
pub mod Lockout
use text.Mathlib.Text.{◌==◌ as str_eq}
use agri_flow.Prelude.{
  ℕ, ◌+◌, String, Bool, true, false, not, ◌&&◌, ◌||◌, Option, none, some, List, [], ◌∷◌, ltb, leb,
  if◌then◌else◌,
}
use agri_flow.Errors.{Error, Result, ok, err}

abbrev pub otp_ttl_seconds : ℕ
otp_ttl_seconds = 600

abbrev pub max_attempts : ℕ
max_attempts = 5

-- the hash that Redis keeps, its count as a number
pub record Code : Type 0 where
  pub hash : String
  pub attempts : ℕ
  pub expires_at : ℕ

abbrev pub Codes : Type 0
Codes = String → String → Option Code

abbrev pub put : String → String → Option Code → Codes → Codes
put purpose phone c codes p q = if str_eq purpose p && str_eq phone q then c else codes p q

-- what Redis still has of a key
abbrev pub stored : ℕ → Option Code → Option Code
stored now none = none
stored now (some c) = if ltb now c.expires_at then some c else none

-- `VALID_PURPOSES`
abbrev pub is_purpose : String → Bool
is_purpose p = str_eq p "registration" || str_eq p "password_reset"

-- `hmac` is the keyed SHA-256 of the phone number and the code; a code is drawn by `secrets`.
module _ (hmac : String → String → String) where
  -- `is_production` refuses the delivery, after the code has been stored; `echoes` is
  -- `OTP_ECHO_IN_RESPONSE`.
  unfoldable pub issue :
      Bool → Bool → String → String → String → ℕ → Codes → Result (Option String) × Codes
  issue is_production echoes phone purpose code now codes =
      if is_purpose purpose
      then (
        (if is_production then err Error.validation else ok (if echoes then some code else none)),
        put purpose phone
            (some
              (record { hash = hmac phone code; attempts = 0; expires_at = now + otp_ttl_seconds }))
            codes,
      )
      else (err Error.validation, codes)

  -- what the stored code makes of a guess, and what it becomes
  abbrev pub judge : String → String → Bool → Option Code → Bool × Option Code
  judge phone guess consume none = (false, none)
  judge phone guess consume (some c) =
      if leb max_attempts c.attempts
      then (false, none)
      else if not (str_eq c.hash (hmac phone guess))
      then (false, some (record c { attempts = c.attempts + 1 }))
      else (true, if consume then none else some c)

  unfoldable pub verify : ℕ → String → String → String → Bool → Codes → Bool × Codes
  verify now phone guess purpose consume codes =
      let (valid, c) = judge phone guess consume (stored now (codes purpose phone)) in
      (valid, put purpose phone c codes)

  unfoldable pub require_valid :
      ℕ → String → String → String → Bool → Codes → Result (Unit {0}) × Codes
  require_valid now phone guess purpose consume codes =
      let (valid, codes') = verify now phone guess purpose consume codes in
      ((if valid then ok tt else err Error.validation), codes')

  -- a series of guesses, each at its time
  unfoldable pub guesses : String → String → Bool → List (ℕ × String) → Codes → Codes
  guesses phone purpose consume [] codes = codes
  guesses phone purpose consume ((now, g) ∷ gs) codes =
      guesses phone purpose consume gs (verify now phone g purpose consume codes).1

-- ===== src/RateLimit/Window.antt =====
-- How many requests middleware/rate_limit.py lets through in a window.
use text.Mathlib.Text.{◌==◌ as str_eq}
use agri_flow.Prelude.{
  ℕ, ◌+◌, ◌/◌, String, Bool, true, false, not, ◌&&◌, ◌||◌, Option, List, [], ◌∷◌, ◌==◌,
  if◌then◌else◌,
}
use agri_flow.RateLimit.{Settings, Request, Bucket, Limiter, Outcome, is_exempt, buckets, dispatch}

-- the bucket of a key, among others
abbrev pub has_bucket : Bucket → List Bucket → Bool
has_bucket b [] = false
has_bucket b (c ∷ cs) =
    str_eq c.key b.key && (c.limit == b.limit && c.window == b.window) || has_bucket b cs

abbrev pub is_passed : Outcome → Bool
is_passed Outcome.passed = true
is_passed _ = false

abbrev same_bucket : Bucket → Bucket → Bool
same_bucket c b = str_eq c.key b.key && (c.limit == b.limit && c.window == b.window)

-- A request with the two clocks at its arrival, and whether Redis answers.
abbrev pub Arrival : Type 0
Arrival = ℕ × ℕ × Bool × Request

module _ (subject : String → Option String) (settings : Settings) where
  -- the request counts against the bucket in its n-th window
  abbrev pub counts_against : Bucket → ℕ → Arrival → Bool
  counts_against b n (mono, now, answers, r) =
      not (is_exempt r.path) && (has_bucket b (buckets subject settings r) && now / b.window == n)

  unfoldable pub passes : Bucket → ℕ → List Arrival → Limiter → ℕ
  passes b n [] l = 0
  passes b n ((mono, now, answers, r) ∷ rs) l =
      let (outcome, l') = dispatch subject settings mono now answers r l in
      (if counts_against b n (mono, now, answers, r) && is_passed outcome then 1 else 0)
      + passes b n rs l'

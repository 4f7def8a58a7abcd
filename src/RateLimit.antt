-- ===== src/RateLimit.antt =====
-- middleware/rate_limit.py, with the circuit breaker of core/redis.py.
pub mod Window
use text.Mathlib.Text.{◌==◌ as str_eq}
use Prim.Native.String.{◌++◌ as join}
use agri_flow.Prelude.{
  ℕ, ◌+◌, ◌-◌, ◌/◌, ◌%◌, String, Bool, true, false, not, ◌&&◌, ◌||◌, Option, none, some, List, [],
  ◌∷◌, ◌++◌, ltb, leb, ◌==◌, given, if◌then◌else◌,
}
use agri_flow.Prelude.Text.{codes, has_prefix, has_infix, has_suffix}

-- the settings that the middleware reads
pub record Settings : Type 0 where
  pub is_enabled : Bool
  pub is_production : Bool
  pub global_limit : ℕ
  pub login_limit : ℕ
  pub auth_limit : ℕ
  pub upload_limit : ℕ
  pub admin_limit : ℕ
  pub write_limit : ℕ

-- `bearer` is what follows "Bearer " in the authorization header.
pub record Request : Type 0 where
  pub path : String
  pub method : String
  pub client : Option String
  pub bearer : Option String

pub record Bucket : Type 0 where
  pub key : String
  pub limit : ℕ
  pub window : ℕ

-- Redis's counters, under a bucket's key and the number of a window, and the time until which the
-- breaker is open. The expiry of a counter, after its window, is left out.
pub record Limiter : Type 0 where
  pub counters : String → ℕ → ℕ
  pub unavailable_until : ℕ

-- `limited` has its Retry-After.
pub data Outcome : Type 0 where
  passed unavailable : Outcome
  limited : ℕ → Outcome

unfoldable pub is_exempt : String → Bool
is_exempt path =
    has_prefix (codes path) (codes "/health")
    || has_prefix (codes path) (codes "/metrics")
    || has_prefix (codes path) (codes "/api/v1/docs")
    || has_prefix (codes path) (codes "/api/v1/redoc")
    || has_prefix (codes path) (codes "/api/v1/openapi.json")

abbrev pub is_mutating : String → Bool
is_mutating m = str_eq m "POST" || str_eq m "PATCH" || str_eq m "PUT" || str_eq m "DELETE"

abbrev pub client_ip : Request → String
client_ip r = given r.client "unknown"

abbrev pub bucket_if : Bool → String → String → ℕ → ℕ → List Bucket
bucket_if b kind who limit window =
    if b then record { key = join kind who; limit = limit; window = window } ∷ [] else []

-- INCR of a counter
abbrev pub incr : String → ℕ → (String → ℕ → ℕ) → String → ℕ → ℕ
incr key n counters q m = if str_eq key q && n == m then counters q m + 1 else counters q m

-- the pipeline over the buckets, with the counts that it answers
unfoldable pub count_all : ℕ → List Bucket → (String → ℕ → ℕ) → List (Bucket × ℕ) × (String → ℕ → ℕ)
count_all now [] counters = ([], counters)
count_all now (b ∷ bs) counters =
    let after = incr b.key (now / b.window) counters in
    let (counts, last) = count_all now bs after in
    ((b, after b.key (now / b.window)) ∷ counts, last)

unfoldable pub judge : ℕ → List (Bucket × ℕ) → Outcome
judge now [] = Outcome.passed
judge now ((b, count) ∷ rest) =
    let later = judge now rest in
    if ltb b.limit count then Outcome.limited (b.window - now % b.window) else later

-- `subject` is the JWT library's reading of a token: its subject, if it is valid and has one.
module _ (subject : String → Option String) (settings : Settings) where
  abbrev pub principal : Request → String
  principal r = elim r.bearer [
    | none ↦ join "ip:" (client_ip r)
    | some t ↦ elim (subject t) [ none ↦ join "ip:" (client_ip r) | some sub ↦ join "user:" sub ]
  ]

  unfoldable pub buckets : Request → List Bucket
  buckets r =
      let path = codes r.path in
      bucket_if true "global:" (principal r) settings.global_limit 900
      ++ bucket_if (has_suffix path (codes "/auth/login")) "login:" (client_ip r)
          settings.login_limit 60
      ++ bucket_if (has_infix path (codes "/auth/")) "auth:" (client_ip r) settings.auth_limit 900
      ++ bucket_if (has_infix path (codes "/uploads")) "upload:" (principal r) settings.upload_limit
          900
      ++ bucket_if (has_infix path (codes "/admin/") || has_infix path (codes "/managers")) "admin:"
          (principal r) settings.admin_limit 300
      ++ bucket_if (is_mutating r.method) "write:" (principal r) settings.write_limit 300

  -- where the limiter cannot ask Redis
  abbrev pub unchecked : Outcome
  unchecked = if settings.is_production then Outcome.unavailable else Outcome.passed

  -- `mono` is the monotonic clock, `now` the time of day in seconds; `answers` is whether Redis
  -- answers the pipeline. One that fails is taken to have counted nothing.
  unfoldable pub dispatch : ℕ → ℕ → Bool → Request → Limiter → Outcome × Limiter
  dispatch mono now answers r l =
      if not settings.is_enabled || is_exempt r.path
      then (Outcome.passed, l)
      else if ltb mono l.unavailable_until
      then (unchecked, l)
      else if not answers
      then (unchecked, record l { unavailable_until = mono + 15 })
      else let (counts, after) = count_all now (buckets r) l.counters in
        (judge now counts, record { counters = after; unavailable_until = 0 })

-- ===== src/Api/Keeps.antt =====
-- Predicates on the database over an endpoint and over a sequence of requests.
use agri_flow.Prelude.{ℕ, ◌≡◌, inl, inr, true, String, Bool, Option, List, [], ◌∷◌, Bool-cases}
use agri_flow.Errors.{ok}
use agri_flow.Exec.{Result-cases}
use agri_flow.Models.{User, Db}
use agri_flow.Session.{Action, World, get_db}
use agri_flow.Session.Boundary.{get_db-keeps}
use agri_flow.Permissions.{Claims, require_any_permission, require_farmer}
use agri_flow.Api.{answered, endpoint, farmer_endpoint, requests}

-- Where the action returns, `Q` holds after it if `P` did before it.
abbrev pub Leads : {A : Type 0} → (Db → Type 0) → (Db → Type 0) → Action A → Type 0
Leads {A} P Q m = (s : _) (a : A) → (m s).0 ≡ ok a → P s.db → Q (m s).1.db

abbrev pub Keeps : {A : Type 0} → (Db → Type 0) → Action A → Type 0
Keeps P m = Leads P P m

module _ (P Q : Db → Type 0) where
  pub answered-Leads : {A : Type 0} (m : Action A) → Leads P Q m → Leads P Q (answered m)
  unfolding answered
  answered-Leads m keep s u h p = elim (Result-cases (m s).0) [
    | inl (a, e) ↦ rw e (keep s a e p)
    | inr (x, e) ↦ absurd (cc (rw e at h))
  ]

  pub endpoint-Leads :
      (decode_token : String → Option Claims) (token : Option String) (permissions : List String)
      (is_valid : Bool) (service : ℕ → User → Action (Unit {0}))
      → ((actor_id : ℕ) (actor : User) → is_valid ≡ true → Leads P Q (service actor_id actor))
      → Leads P Q (endpoint decode_token token permissions is_valid service)
  unfolding endpoint
  endpoint-Leads decode_token token permissions is_valid service keep s u h p =
      elim (Result-cases (require_any_permission decode_token permissions token s.db)) [
        | inr (x, e) ↦ absurd (cc (rw e at h))
        | inl ((i, user), e) ↦
            let h₁ = rw e at h in
            rw e (elim (Bool-cases is_valid) [
              | inr bad ↦ absurd (cc (rw bad at h₁))
              | inl good ↦ rw good (keep i user good s u (rw good at h₁) p)
            ])
      ]

module _ (P : Db → Type 0) where
  pub answered-Keeps : {A : Type 0} (m : Action A) → Keeps P m → Keeps P (answered m)
  answered-Keeps m keep = answered-Leads P P m keep

  pub endpoint-Keeps :
      (decode_token : String → Option Claims) (token : Option String) (permissions : List String)
      (is_valid : Bool) (service : ℕ → User → Action (Unit {0}))
      → ((actor_id : ℕ) (actor : User) → is_valid ≡ true → Keeps P (service actor_id actor))
      → Keeps P (endpoint decode_token token permissions is_valid service)
  endpoint-Keeps decode_token token permissions is_valid service keep =
      endpoint-Leads P P decode_token token permissions is_valid service keep

  pub farmer_endpoint-Keeps :
      (decode_token : String → Option Claims) (token : Option String) (permission : String)
      (is_valid : Bool) (service : ℕ → User → Action (Unit {0}))
      → ((actor_id : ℕ) (actor : User) → Keeps P (service actor_id actor))
      → Keeps P (farmer_endpoint decode_token token permission is_valid service)
  unfolding farmer_endpoint
  farmer_endpoint-Keeps decode_token token permission is_valid service keep s u h p =
      elim (Result-cases (require_farmer decode_token permission token s.db)) [
        | inr (x, e) ↦ absurd (cc (rw e at h))
        | inl ((i, user), e) ↦
            let h₁ = rw e at h in
            rw e (elim (Bool-cases is_valid) [
              | inr bad ↦ absurd (cc (rw bad at h₁))
              | inl good ↦ rw good (keep i user s u (rw good at h₁) p)
            ])
      ]

  pub requests-Keeps :
      {C : Type 0} (serve : C → Action (Unit {0}))
      → ((c : C) → Keeps P (serve c))
      → (cs : List C) (w : World) → P w.committed
      → P (requests serve cs w).committed
  unfolding requests
  requests-Keeps serve keep [] w p = p
  requests-Keeps serve keep (c ∷ cs) w p =
      requests-Keeps serve keep cs (get_db (serve c) w).1
        (get_db-keeps (serve c) w P (λ a e. keep c _ a e p) p)

-- each request of a sequence, from the committed rows before it to those after it
abbrev pub Stepwise :
    {C : Type 0} → (Db → Db → Type 0) → (C → Action (Unit {0})) → List C → World → Type 0
Stepwise R serve [] w = Unit
Stepwise R serve (c ∷ cs) w =
    let w' = (get_db (serve c) w).1 in R w.committed w'.committed × Stepwise R serve cs w'

pub requests-Stepwise :
    {C : Type 0} (R : Db → Db → Type 0) (serve : C → Action (Unit {0}))
    → ((c : C) (w : World) → R w.committed (get_db (serve c) w).1.committed)
    → (cs : List C) (w : World) → Stepwise R serve cs w
requests-Stepwise R serve each [] w = tt
requests-Stepwise R serve each (c ∷ cs) w =
    (each c w, requests-Stepwise R serve each cs (get_db (serve c) w).1)

-- ===== src/Api.antt =====
-- api/v1: an endpoint's token, permission and body checks round its service call, and a sequence
-- of requests, each in its own session.
pub mod Keeps
pub mod Desk
pub mod Office
pub mod Field
pub mod People
use agri_flow.Prelude.{ℕ, String, Bool, not, Option, List, [], ◌∷◌}
use agri_flow.Errors.{Error}
use agri_flow.Exec.{pure, raise_if, ◌>>=◌, ◌>>◌}
use agri_flow.Models.{User}
use agri_flow.Session.{Action, World, query, get_db}
use agri_flow.Permissions.{Claims, require_any_permission, require_farmer}

-- the body of the answer, which is a copy of the row, is left out
unfoldable pub answered : {A : Type 0} → Action A → Action (Unit {0})
answered m = m >>= λ a. pure tt

-- `is_valid` stands for the bounds of the body's schema.
unfoldable pub endpoint :
    (String → Option Claims)
    → Option String
    → List String
    → Bool
    → (ℕ → User → Action (Unit {0}))
    → Action (Unit {0})
endpoint decode_token token permissions is_valid service = do
  (actor_id, actor) ← query (require_any_permission decode_token permissions token)
  raise_if (not is_valid) Error.validation
  service actor_id actor

-- a route of the farmer application
unfoldable pub farmer_endpoint :
    (String → Option Claims)
    → Option String
    → String
    → Bool
    → (ℕ → User → Action (Unit {0}))
    → Action (Unit {0})
farmer_endpoint decode_token token permission is_valid service = do
  (actor_id, actor) ← query (require_farmer decode_token permission token)
  raise_if (not is_valid) Error.validation
  service actor_id actor

-- The requests come one after the other.
module _ {C : Type 0} (serve : C → Action (Unit {0})) where
  unfoldable pub requests : List C → World → World
  requests [] w = w
  requests (c ∷ cs) w = requests cs (get_db (serve c) w).1

-- ===== src/Session.antt =====
-- core/database.py: a request-scoped session over the database, its commit and rollback, and the
-- queue of push notifications that services/push_service.py keeps on it.
pub mod Boundary
use agri_flow.Prelude.{ℕ, String, Option, none, some, List, [], ◌++◌}
use agri_flow.Prelude.Table.{Table, lookup, insert}
use agri_flow.Errors.{Error, Result, ok, err}
use agri_flow.Exec.{Exec}
use agri_flow.Enums.{UserRole}
use agri_flow.Models.{Db}

-- `push_service.Push`
pub record Push : Type 0 where
  pub user_id : ℕ
  pub title : String
  pub reference_type : Option String
  pub reference_id : Option ℕ

-- what `event_service` publishes on a Redis channel, at once
pub data Event : Type 0 where
  notification_created : ℕ → String → Event
  dashboard_changed : UserRole → String → Event

pub data Namespace : Type 0 where
  dashboard public : Namespace

-- `pending` is `session.info["pending_pushes"]`. Events and cache invalidations go to Redis, so
-- they are not part of the transaction.
pub record Session : Type 0 where
  pub db : Db
  pub pending : List Push
  pub published : List Event
  pub invalidated : List Namespace

abbrev pub Action : Type 0 → Type 0
Action A = Exec Session A

-- What outlives a request: the committed rows, the pushes sent, the events and invalidations.
pub record World : Type 0 where
  pub committed : Db
  pub dispatched : List Push
  pub published : List Event
  pub invalidated : List Namespace

abbrev pub query : {A : Type 0} → (Db → Result A) → Action A
query f s = (f s.db, s)

abbrev pub write : (Db → Db) → Action (Unit {0})
write f s = (ok tt, record s { db = f s.db })

-- `db.add` and the flush that sends the INSERT: a primary key is unique
abbrev pub add_row : {V : Type 0} → ℕ → V → Table V → Result (Table V)
add_row k v t = elim (lookup k t) [ none ↦ ok (insert k v t) | some _ ↦ err Error.integrity ]

abbrev pub add : {V : Type 0} → ℕ → V → (Db → Table V) → (Table V → Db → Db) → Action (Unit {0})
add k v get put s = elim (add_row k v (get s.db)) [
  | ok t ↦ (ok tt, record s { db = put t s.db })
  | err e ↦ (err e, s)
]

abbrev pub open_session : World → Session
open_session w = record {
  db = w.committed;
  pending = [];
  published = w.published;
  invalidated = w.invalidated;
}

abbrev pub close_session : {A : Type 0} → World → Result A × Session → Result A × World
close_session w (ok a, s) = (
  ok a,
  record {
    committed = s.db;
    dispatched = w.dispatched ++ s.pending;
    published = s.published;
    invalidated = s.invalidated;
  },
)
close_session w (err e, s) =
    (err e, record w { published = s.published; invalidated = s.invalidated })

-- `get_db` round the body of an endpoint
unfoldable pub get_db : {A : Type 0} → Action A → World → Result A × World
get_db m w = close_session w (m (open_session w))

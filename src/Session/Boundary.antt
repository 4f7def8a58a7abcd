-- ===== src/Session/Boundary.antt =====
-- `get_db` of core/database.py round an endpoint's action.
use mathlib.Core.Path.{subst}
use agri_flow.Prelude.{◌≡◌, inl, inr, sym, ◌++◌, arith}
use agri_flow.Errors.{Error, ok, err}
use agri_flow.Exec.{Result-cases}
use agri_flow.Models.{Db}
use agri_flow.Session.{Action, World, open_session, get_db}

module _ {A : Type 0} (m : Action A) (w : World) where
  -- Where the body of a request raises, the committed rows and the pushes that were sent are as
  -- before the request.
  pub get_db-err :
      {e : Error}
      → (m (open_session w)).0 ≡ err e
      → ((get_db m w).1.committed ≡ w.committed) × ((get_db m w).1.dispatched ≡ w.dispatched)
  unfolding get_db
  get_db-err h = ground arith

  pub get_db-ok :
      {a : A}
      → (m (open_session w)).0 ≡ ok a
      → ((get_db m w).1.committed ≡ (m (open_session w)).1.db)
        × ((get_db m w).1.dispatched ≡ w.dispatched ++ (m (open_session w)).1.pending)
  unfolding get_db
  get_db-ok h = ground arith

  -- What an action makes hold where it returns, and the rows before it satisfy, its request makes
  -- hold on every path.
  pub get_db-keeps :
      (P : Db → Type 0)
      → ((a : A) → (m (open_session w)).0 ≡ ok a → P (m (open_session w)).1.db)
      → P w.committed
      → P (get_db m w).1.committed
  get_db-keeps P keep h = elim (Result-cases (m (open_session w)).0) [
    | inl (a, e) ↦ subst P (sym (get_db-ok e).0) (keep a e)
    | inr (x, e) ↦ subst P (sym (get_db-err e).0) h
  ]

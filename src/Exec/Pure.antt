-- ===== src/Exec/Pure.antt =====
-- Checks that only read: a chain of them is a `Result`.
use agri_flow.Prelude.{refl, ◌≡◌, arith, Bool, Option, none, some, List, [], ◌∷◌, if◌then◌else◌}
use agri_flow.Errors.{Error, Result, ok, err}

infixl 5 ◌>>=◌ ◌>>◌
abbrev pub ◌>>=◌ : {A B : Type 0} → Result A → (A → Result B) → Result B
ok a >>= f = f a
err e >>= f = err e

abbrev pub ◌>>◌ : {A B : Type 0} → Result A → Result B → Result B
m >> k = m >>= λ _. k

abbrev pub guard_not : Bool → Error → Result (Unit {0})
guard_not b e = if b then err e else ok tt

module _ {A : Type 0} where
  abbrev pub found : Option A → Error → Result A
  found none e = err e
  found (some a) e = ok a

  -- SQLAlchemy's `scalar_one_or_none()`: more than one row is an exception
  abbrev pub scalar_one_or_none : List A → Result (Option A)
  scalar_one_or_none [] = ok none
  scalar_one_or_none (x ∷ []) = ok (some x)
  scalar_one_or_none (x ∷ y ∷ r) = err Error.multiple_results

  pub scalar_one_or_none-none : (l : List A) → scalar_one_or_none l ≡ ok none → l ≡ []
  scalar_one_or_none-none [] h = refl
  scalar_one_or_none-none (x ∷ []) h = cc
  scalar_one_or_none-none (x ∷ y ∷ r) h = cc

  pub scalar_one_or_none-some :
      (l : List A) (x : A) → scalar_one_or_none l ≡ ok (some x) → l ≡ x ∷ []
  scalar_one_or_none-some [] x h = cc
  scalar_one_or_none-some (y ∷ []) x h = ground arith
  scalar_one_or_none-some (y ∷ z ∷ r) x h = cc

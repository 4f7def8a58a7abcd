-- ===== src/Prelude/Growth.antt =====
-- State machines and the rows that go through them: one step, and what becomes of a row under
-- its key.
use Prim.Native.Nat.{ℕ}
use mathlib.Core.Path.{◌≡◌, refl, subst}
use mathlib.Core.Logic.{◌⊎◌, inl, inr}
use mathlib.Core.Option.{none, some}
use agri_flow.Prelude.Tests.{Bool-cases, ◌==◌, ==_iff}
use agri_flow.Prelude.Table.{Table, lookup, insert, lookup-insert}

-- no step or one
abbrev pub AtMostOne : {A : Type 0} → (A → A → Type 0) → A → A → Type 0
AtMostOne R a b = (b ≡ a) ⊎ R a b

module _ {V : Type 0} (G : V → V → Type 0) (k : ℕ) (old : V) where
  -- the row under a key is one that the old one may become
  unfoldable pub Follows : Table V → Type 0
  Follows t = (new : V) × (lookup k t ≡ some new) × G old new

  pub Follows-same : (t : Table V) → G old old → lookup k t ≡ some old → Follows t
  unfolding Follows
  Follows-same t stays row = (old, row, stays)

  pub Follows-change :
      (t : Table V) (i : ℕ) (a b : V)
      → lookup i t ≡ some a
      → G old old
      → G a b
      → lookup k t ≡ some old
      → Follows (insert i b t)
  unfolding Follows
  Follows-change t i a b at_i stays step row = elim (Bool-cases (i == k)) [
    | inl same ↦
        let at_k = subst (λ j. lookup j t ≡ some a) ((==_iff i k).0 same) at_i in
        let one : a ≡ old = cc in
        (b, rw (lookup-insert i k b t, same) refl, subst (λ s. G s b) one step)
    | inr apart ↦ (old, rw (lookup-insert i k b t, apart) row, stays)
  ]

  pub Follows-new :
      (t : Table V) (i : ℕ) (b : V)
      → lookup i t ≡ none
      → G old old
      → lookup k t ≡ some old
      → Follows (insert i b t)
  unfolding Follows
  Follows-new t i b fresh stays row = elim (Bool-cases (i == k)) [
    | inl same ↦
        let none_there = subst (λ j. lookup j t ≡ none) ((==_iff i k).0 same) fresh in absurd (cc)
    | inr apart ↦ (old, rw (lookup-insert i k b t, apart) row, stays)
  ]

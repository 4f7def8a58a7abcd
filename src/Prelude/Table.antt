-- ===== src/Prelude/Table.antt =====
-- A database table as rows under their primary keys, in order of insertion.
use mathlib.Core.Logic.{inl, inr}
use agri_flow.Prelude.Tests.{Bool-cases, ◌==◌, if◌then◌else◌}
use agri_flow.Prelude.Int.{ℤ, pos, ◌+ℤ◌, ◌≤ℤ◌, int_laws}
use Prim.Native.Nat.{ℕ, ◌+◌}
use mathlib.Core.Path.{◌≡◌, refl}
use mathlib.Core.Bool.{Bool, true}
use mathlib.Core.Option
use mathlib.Core.Option.{Option, none, some}
use mathlib.Core.List.{List, [], ◌∷◌}
use native.Mathlib.Omega.{arith}

abbrev pub Table {ℓ} : Type ℓ → Type ℓ
Table V = List (ℕ × V)

module _ {ℓ} {V : Type ℓ} where
  abbrev pub lookup : ℕ → Table V → Option V
  lookup k [] = none
  lookup k ((j, v) ∷ t) = if j == k then some v else lookup k t

  -- a new row, or a new value for the row under its key
  abbrev pub insert : ℕ → V → Table V → Table V
  insert k v [] = (k, v) ∷ []
  insert k v ((j, w) ∷ t) = if j == k then (k, v) ∷ t else (j, w) ∷ insert k v t

  -- the other rows, `WHERE id != k`
  abbrev pub without : ℕ → Table V → Table V
  without k [] = []
  without k ((j, v) ∷ t) = if j == k then without k t else (j, v) ∷ without k t

  -- a change of the row under a key, if there is one
  abbrev pub update : ℕ → (V → V) → Table V → Table V
  update k f [] = []
  update k f ((j, v) ∷ t) = if j == k then (j, f v) ∷ t else (j, v) ∷ update k f t

  -- `SELECT ... WHERE`
  abbrev pub select : (V → Bool) → Table V → List V
  select p [] = []
  select p ((j, v) ∷ t) = if p v then v ∷ select p t else select p t

  -- the rows of a query with their keys
  abbrev pub rows_where : (V → Bool) → Table V → Table V
  rows_where p [] = []
  rows_where p ((j, v) ∷ t) = if p v then (j, v) ∷ rows_where p t else rows_where p t

  -- `SELECT id ... WHERE`
  abbrev pub keys_where : (V → Bool) → Table V → List ℕ
  keys_where p [] = []
  keys_where p ((j, v) ∷ t) = if p v then j ∷ keys_where p t else keys_where p t

  -- `UPDATE ... SET ... WHERE`
  abbrev pub update_where : (V → Bool) → (V → V) → Table V → Table V
  update_where p f [] = []
  update_where p f ((j, v) ∷ t) = (j, if p v then f v else v) ∷ update_where p f t

  abbrev pub sum_by : (V → ℤ) → Table V → ℤ
  sum_by f [] = pos 0
  sum_by f ((j, v) ∷ t) = f v +ℤ sum_by f t

  abbrev pub count_by : (V → ℕ) → Table V → ℕ
  count_by f [] = 0
  count_by f ((j, v) ∷ t) = f v + count_by f t

  abbrev pub AllRows {κ} : (V → Type κ) → Table V → Type κ
  AllRows P [] = Unit
  AllRows P ((j, v) ∷ t) = P v × AllRows P t

  -- no two rows have one key
  abbrev pub IsKeyed : Table V → Type ℓ
  IsKeyed [] = Unit
  IsKeyed ((j, v) ∷ t) = (lookup j t ≡ none) × IsKeyed t

  pub lookup-insert :
      (k j : ℕ) (v : V) (t : Table V)
      → lookup j (insert k v t) ≡ (if k == j then some v else lookup j t)
  lookup-insert k j v [] = refl
  lookup-insert k j v ((i, w) ∷ t) = ground (arith, lookup-insert k j v t)

  pub lookup-insert_self : (k : ℕ) (v : V) (t : Table V) → lookup k (insert k v t) ≡ some v
  lookup-insert_self k v t = ground (arith, lookup-insert k k v t)

  pub insert-IsKeyed : (k : ℕ) (v : V) (t : Table V) → IsKeyed t → IsKeyed (insert k v t)
  insert-IsKeyed k v [] h = (refl, tt)
  insert-IsKeyed k v (x ∷ t) h = ground (arith, insert-IsKeyed k v t h.1, lookup-insert k x.0 v t)

  pub lookup-rows_where :
      (p : V → Bool) (k : ℕ) (v : V) (r : Table V) (t : Table V)
      → IsKeyed t
      → rows_where p t ≡ (k, v) ∷ r
      → lookup k t ≡ some v
  lookup-rows_where p k v r [] h e = cc
  lookup-rows_where p k v r ((j, w) ∷ t) h e = elim (Bool-cases (p w)) [
    | inl here ↦ ground arith
    | inr later ↦ ground (arith, lookup-rows_where p k v r t h.1)
  ]

  pub rows_where-holds :
      (p : V → Bool) (k : ℕ) (v : V) (r : Table V) (t : Table V)
      → rows_where p t ≡ (k, v) ∷ r
      → p v ≡ true
  rows_where-holds p k v r [] e = cc
  rows_where-holds p k v r ((j, w) ∷ t) e = ground (arith, rows_where-holds p k v r t)

  pub lookup-update :
      (k j : ℕ) (f : V → V) (t : Table V)
      → lookup j (update k f t) ≡ (if k == j then Option.map f (lookup j t) else lookup j t)
  lookup-update k j f [] = ground arith
  lookup-update k j f ((i, w) ∷ t) = ground (arith, lookup-update k j f t)

  pub lookup-update_where :
      (p : V → Bool) (f : V → V) (k : ℕ) (t : Table V)
      → lookup k (update_where p f t) ≡ Option.map (λ v. if p v then f v else v) (lookup k t)
  lookup-update_where p f k [] = refl
  lookup-update_where p f k ((j, v) ∷ t) = ground (arith, lookup-update_where p f k t)

  pub sum_by-insert_new :
      (f : V → ℤ) (k : ℕ) (v : V) (t : Table V)
      → lookup k t ≡ none
      → sum_by f (insert k v t) ≡ sum_by f t +ℤ f v
  sum_by-insert_new f k v [] h = omega int_laws
  sum_by-insert_new f k v (x ∷ t) h = grind (int_laws, sum_by-insert_new f k v t)

  pub sum_by-insert :
      (f : V → ℤ) (k : ℕ) (v old : V) (t : Table V)
      → lookup k t ≡ some old
      → sum_by f (insert k v t) +ℤ f old ≡ sum_by f t +ℤ f v
  sum_by-insert f k v old [] h = cc
  sum_by-insert f k v old (x ∷ t) h = grind (int_laws, sum_by-insert f k v old t)

  pub count_by-insert_new :
      (f : V → ℕ) (k : ℕ) (v : V) (t : Table V)
      → lookup k t ≡ none
      → count_by f (insert k v t) ≡ count_by f t + f v
  count_by-insert_new f k v [] h = omega arith
  count_by-insert_new f k v (x ∷ t) h = ground (arith, count_by-insert_new f k v t)

  pub count_by-insert :
      (f : V → ℕ) (k : ℕ) (v old : V) (t : Table V)
      → lookup k t ≡ some old
      → count_by f (insert k v t) + f old ≡ count_by f t + f v
  count_by-insert f k v old [] h = cc
  count_by-insert f k v old (x ∷ t) h = ground (arith, count_by-insert f k v old t)

module _ {ℓ κ} {V : Type ℓ} (P : V → Type κ) where
  pub AllRows-insert : (k : ℕ) (v : V) (t : Table V) → AllRows P t → P v → AllRows P (insert k v t)
  AllRows-insert k v [] h p = (p, tt)
  AllRows-insert k v (x ∷ t) h p = ground (arith, AllRows-insert k v t h.1 p)

  pub AllRows-lookup : (k : ℕ) (v : V) (t : Table V) → AllRows P t → lookup k t ≡ some v → P v
  AllRows-lookup k v [] h e = cc
  AllRows-lookup k v (x ∷ t) h e = ground (arith, AllRows-lookup k v t h.1)

pub AllRows-map {ℓ κ μ} :
    {V : Type ℓ} (P : V → Type κ) (Q : V → Type μ)
    → ((v : V) → P v → Q v)
    → (t : Table V) → AllRows P t
    → AllRows Q t
AllRows-map P Q f [] h = tt
AllRows-map P Q f (x ∷ t) h = (f x.1 h.0, AllRows-map P Q f t h.1)

module _ {ℓ} {V : Type ℓ} (f : V → ℤ) where
  pub sum_by_nonneg : (t : Table V) → AllRows (λ v. pos 0 ≤ℤ f v) t → pos 0 ≤ℤ sum_by f t
  sum_by_nonneg [] h = omega arith
  sum_by_nonneg (x ∷ t) h = omega (int_laws, sum_by_nonneg t h.1)

module _ {ℓ} {V : Type ℓ} where
  pub sum_by-update_where :
      (g : V → ℤ) (p : V → Bool) (f : V → V)
      → ((v : V) → g (f v) ≡ g v)
      → (t : Table V) → sum_by g (update_where p f t) ≡ sum_by g t
  sum_by-update_where g p f same [] = refl
  sum_by-update_where g p f same (x ∷ t) = elim (Bool-cases (p x.1)) [
    | inl here ↦ rw (here, same x.1, sum_by-update_where g p f same t) refl
    | inr apart ↦ rw (apart, sum_by-update_where g p f same t) refl
  ]

  pub count_by-update_where :
      (g : V → ℕ) (p : V → Bool) (f : V → V)
      → ((v : V) → g (f v) ≡ g v)
      → (t : Table V) → count_by g (update_where p f t) ≡ count_by g t
  count_by-update_where g p f same [] = refl
  count_by-update_where g p f same (x ∷ t) = elim (Bool-cases (p x.1)) [
    | inl here ↦ rw (here, same x.1, count_by-update_where g p f same t) refl
    | inr apart ↦ rw (apart, count_by-update_where g p f same t) refl
  ]

  pub sum_by-update :
      (g : V → ℤ) (k : ℕ) (f : V → V) (old : V) (t : Table V)
      → lookup k t ≡ some old
      → sum_by g (update k f t) +ℤ g old ≡ sum_by g t +ℤ g (f old)
  sum_by-update g k f old [] h = cc
  sum_by-update g k f old (x ∷ t) h = grind (int_laws, sum_by-update g k f old t)

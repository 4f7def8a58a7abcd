-- ===== src/Market/Dated.antt =====
-- The order of the rates in `list_current_rates` of services/market_rate_service.py, and the first
-- rate of a key in that order.
use agri_flow.Prelude.{
  ℕ, ◌≤◌, ◌≡◌, refl, sym, ◌⊎◌, inl, inr, Bool, true, false, none, some, List, [], ◌∷◌, arith,
  Bool-cases, leb,
}
use agri_flow.Models.{MarketRate}
use agri_flow.Market.{insert_by_date, by_date, rate_for}
use agri_flow.Market.Latest.{In}

-- no rate of the list is of a later day
abbrev AtMost : ℕ → List MarketRate → Type 0
AtMost e [] = Unit
AtMost e (r ∷ rs) = (r.effective_date ≤ e) × AtMost e rs

abbrev pub IsSorted : List MarketRate → Type 0
IsSorted [] = Unit
IsSorted (r ∷ rs) = AtMost r.effective_date rs × IsSorted rs

AtMost-weaken : (e f : ℕ) (rs : List MarketRate) → e ≤ f → AtMost e rs → AtMost f rs
AtMost-weaken e f [] le h = tt
AtMost-weaken e f (r ∷ rs) le h = (omega (arith, h.0, le), AtMost-weaken e f rs le h.1)

insert_by_date-AtMost :
    (e : ℕ) (r : MarketRate) (rs : List MarketRate)
    → r.effective_date ≤ e
    → AtMost e rs
    → AtMost e (insert_by_date r rs)
insert_by_date-AtMost e r [] le h = (le, tt)
insert_by_date-AtMost e r (q ∷ qs) le h =
    elim (Bool-cases (leb q.effective_date r.effective_date)) [
      | inl c ↦ rw c (le, h)
      | inr c ↦ rw c (h.0, insert_by_date-AtMost e r qs le h.1)
    ]

day_le : (a b : ℕ) → leb a b ≡ true → a ≤ b
day_le a b h = ground arith

day_ge : (a b : ℕ) → leb a b ≡ false → b ≤ a
day_ge a b h = ground arith

insert_by_date-IsSorted :
    (r : MarketRate) (rs : List MarketRate) → IsSorted rs → IsSorted (insert_by_date r rs)
insert_by_date-IsSorted r [] h = (tt, tt)
insert_by_date-IsSorted r (q ∷ qs) h = elim (Bool-cases (leb q.effective_date r.effective_date)) [
  | inl c ↦
      let le = day_le q.effective_date r.effective_date c in
      rw c ((le, AtMost-weaken _ _ qs le h.0), h)
  | inr c ↦ rw c (
    insert_by_date-AtMost q.effective_date r qs (day_ge _ _ c) h.0,
    insert_by_date-IsSorted r qs h.1,
  )
]

pub by_date-IsSorted : (rs : List MarketRate) → IsSorted (by_date rs)
by_date-IsSorted [] = tt
by_date-IsSorted (r ∷ rs) = insert_by_date-IsSorted r (by_date rs) (by_date-IsSorted rs)

pub In-cons : (x q : MarketRate) (qs : List MarketRate) → In x (q ∷ qs) → (x ≡ q) ⊎ In x qs
In-cons x q qs In.here = inl refl
In-cons x q qs (In.later m) = inr m

In-insert_by_date :
    (x r : MarketRate) (rs : List MarketRate) → In x (insert_by_date r rs) → (x ≡ r) ⊎ In x rs
In-insert_by_date x r [] m = In-cons x r [] m
In-insert_by_date x r (q ∷ qs) m = elim (Bool-cases (leb q.effective_date r.effective_date)) [
  | inl c ↦ In-cons x r (q ∷ qs) (rw c at m)
  | inr c ↦ elim (In-cons x q (insert_by_date r qs) (rw c at m)) [
    | inl e ↦ inr (rw e In.here)
    | inr n ↦ elim (In-insert_by_date x r qs n) [ inl e ↦ inl e | inr k ↦ inr (In.later k) ]
  ]
]

insert_by_date-In :
    (x r : MarketRate) (rs : List MarketRate) → (x ≡ r) ⊎ In x rs → In x (insert_by_date r rs)
insert_by_date-In x r [] (inl e) = rw e In.here
insert_by_date-In x r [] (inr m) = In.later m
insert_by_date-In x r (q ∷ qs) m = elim (Bool-cases (leb q.effective_date r.effective_date)) [
  | inl c ↦ rw c (elim m [ inl e ↦ rw e In.here | inr n ↦ In.later n ])
  | inr c ↦ rw c (elim m [
    | inl e ↦ In.later (insert_by_date-In x r qs (inl e))
    | inr n ↦ elim (In-cons x q qs n) [
      | inl e ↦ rw e In.here
      | inr k ↦ In.later (insert_by_date-In x r qs (inr k))
    ]
  ])
]

pub In-by_date : (x : MarketRate) (rs : List MarketRate) → In x (by_date rs) → In x rs
In-by_date x [] m = m
In-by_date x (r ∷ rs) m = elim (In-insert_by_date x r (by_date rs) m) [
  | inl e ↦ rw e In.here
  | inr n ↦ In.later (In-by_date x rs n)
]

pub by_date-In : (x : MarketRate) (rs : List MarketRate) → In x rs → In x (by_date rs)
by_date-In x [] m = m
by_date-In x (r ∷ rs) m = elim (In-cons x r rs m) [
  | inl e ↦ insert_by_date-In x r (by_date rs) (inl e)
  | inr n ↦ insert_by_date-In x r (by_date rs) (inr (by_date-In x rs n))
]

AtMost-In :
    (e : ℕ) (q : MarketRate) (rs : List MarketRate) → AtMost e rs → In q rs → q.effective_date ≤ e
AtMost-In e q [] h m = elim m [ ]
AtMost-In e q (r ∷ rs) h m = elim (In-cons q r rs m) [
  | inl same ↦ rw same h.0
  | inr n ↦ AtMost-In e q rs h.1 n
]

module _ (has_key : MarketRate → Bool) where
  pub rate_for-In :
      (rs : List MarketRate) (r : MarketRate)
      → rate_for has_key rs ≡ some r
      → In r rs × (has_key r ≡ true)
  rate_for-In [] r h = cc
  rate_for-In (q ∷ qs) r h = elim (Bool-cases (has_key q)) [
    | inl c ↦ let e : q ≡ r = cc (rw c at h) in (rw (sym e) In.here, rw (sym e) c)
    | inr c ↦ let (m, k) = rate_for-In qs r (rw c at h) in (In.later m, k)
  ]

  pub rate_for-latest :
      (rs : List MarketRate) (r q : MarketRate)
      → IsSorted rs
      → rate_for has_key rs ≡ some r
      → In q rs
      → has_key q ≡ true
      → q.effective_date ≤ r.effective_date
  rate_for-latest [] r q sorted h m k = elim m [ ]
  rate_for-latest (x ∷ xs) r q sorted h m k = elim (Bool-cases (has_key x)) [
    | inl c ↦
        let e : x ≡ r = cc (rw c at h) in
        rw (sym e) (elim (In-cons q x xs m) [
          | inl same ↦ rw same (omega arith)
          | inr n ↦ AtMost-In x.effective_date q xs sorted.0 n
        ])
    | inr c ↦ elim (In-cons q x xs m) [
      | inl same ↦ absurd (cc (rw (same, c) at k))
      | inr n ↦ rate_for-latest xs r q sorted.1 (rw c at h) n k
    ]
  ]

  pub rate_for-none :
      (rs : List MarketRate) (q : MarketRate)
      → rate_for has_key rs ≡ none
      → In q rs
      → has_key q ≡ false
  rate_for-none [] q h m = elim m [ ]
  rate_for-none (x ∷ xs) q h m = elim (Bool-cases (has_key x)) [
    | inl c ↦ absurd (cc (rw c at h))
    | inr c ↦ elim (In-cons q x xs m) [
      | inl same ↦ rw same c
      | inr n ↦ rate_for-none xs q (rw c at h) n
    ]
  ]

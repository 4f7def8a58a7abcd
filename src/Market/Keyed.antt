-- ===== src/Market/Keyed.antt =====
-- The dictionary that `list_current_rates` of services/market_rate_service.py fills: its rate for a
-- key is the first of the rows that has the key.
use text.Mathlib.Text.{◌==◌ as str_eq}
use text.Mathlib.TextEquality.{eq_iff}
use agri_flow.Prelude.{
  ◌≡◌, refl, ap, ◌∙◌, inl, inr, Bool, true, false, ◌&&◌, String, none, some, List, [], ◌∷◌, ◌++◌,
  Bool-cases, is_some, if◌then◌else◌,
}
use agri_flow.Enums.{GrainGrade, same_grade}
use agri_flow.Models.{MarketRate}
use agri_flow.Market.{is_for, rate_for, put_new, first_per_key}

rate_for-append :
    (p : MarketRate → Bool) (rates : List MarketRate) (r x : MarketRate)
    → rate_for p rates ≡ some x
    → rate_for p (rates ++ r ∷ []) ≡ some x
rate_for-append p [] r x h = cc
rate_for-append p (q ∷ qs) r x h = elim (Bool-cases (p q)) [
  | inl c ↦ rw c (rw c at h)
  | inr c ↦ rw c (rate_for-append p qs r x (rw c at h))
]

rate_for-append_none :
    (p : MarketRate → Bool) (rates : List MarketRate) (r : MarketRate)
    → rate_for p rates ≡ none
    → rate_for p (rates ++ r ∷ []) ≡ (if p r then some r else none)
rate_for-append_none p [] r h = refl
rate_for-append_none p (q ∷ qs) r h = elim (Bool-cases (p q)) [
  | inl c ↦ absurd (cc (rw c at h))
  | inr c ↦ rw c (rate_for-append_none p qs r (rw c at h))
]

put_new-some :
    (p : MarketRate → Bool) (r x : MarketRate) (rates : List MarketRate)
    → rate_for p rates ≡ some x
    → rate_for p (put_new r rates) ≡ some x
put_new-some p r x rates h =
    elim (Bool-cases (is_some (rate_for (is_for r.crop_type r.grade) rates))) [
      | inl c ↦ rw c h
      | inr c ↦ rw c (rate_for-append p rates r x h)
    ]

first_per_key-some :
    (p : MarketRate → Bool) (rs rates : List MarketRate) (x : MarketRate)
    → rate_for p rates ≡ some x
    → rate_for p (first_per_key rates rs) ≡ some x
unfolding first_per_key
first_per_key-some p [] rates x h = h
first_per_key-some p (r ∷ rs) rates x h =
    first_per_key-some p rs (put_new r rates) x (put_new-some p r x rates h)

pub both : (a b : Bool) → (a && b) ≡ true → (a ≡ true) × (b ≡ true)
both true b h = (refl, h)
both false b h = absurd (cc h)

pub same_grade-eq : (g h : GrainGrade) → same_grade g h ≡ true → g ≡ h
same_grade-eq GrainGrade.a GrainGrade.a e = refl
same_grade-eq GrainGrade.b GrainGrade.b e = refl
same_grade-eq GrainGrade.c GrainGrade.c e = refl
same_grade-eq GrainGrade.a GrainGrade.b e = cc
same_grade-eq GrainGrade.a GrainGrade.c e = cc
same_grade-eq GrainGrade.b GrainGrade.a e = cc
same_grade-eq GrainGrade.b GrainGrade.c e = cc
same_grade-eq GrainGrade.c GrainGrade.a e = cc
same_grade-eq GrainGrade.c GrainGrade.b e = cc

module _ (crop_type : String) (grade : GrainGrade) where
  same_key :
      (r : MarketRate)
      → is_for crop_type grade r ≡ true
      → is_for r.crop_type r.grade ≡ is_for crop_type grade
  same_key r h =
      let (c, g) = both (str_eq r.crop_type crop_type) (same_grade r.grade grade) h in
      ap (λ k. is_for k r.grade) ((eq_iff r.crop_type crop_type).0 c)
      ∙ ap (is_for crop_type) (same_grade-eq r.grade grade g)

  put_new-none :
      (r : MarketRate) (rates : List MarketRate)
      → rate_for (is_for crop_type grade) rates ≡ none
      → rate_for (is_for crop_type grade) (put_new r rates)
        ≡ (if is_for crop_type grade r then some r else none)
  put_new-none r rates h = elim (Bool-cases (is_for crop_type grade r)) [
    | inl c ↦ rw (same_key r c, h) (rate_for-append_none (is_for crop_type grade) rates r h)
    | inr c ↦ elim (Bool-cases (is_some (rate_for (is_for r.crop_type r.grade) rates))) [
      | inl d ↦ rw (c, d) h
      | inr d ↦ rw d (rate_for-append_none (is_for crop_type grade) rates r h)
    ]
  ]

  pub first_per_key-first :
      (rs rates : List MarketRate)
      → rate_for (is_for crop_type grade) rates ≡ none
      → rate_for (is_for crop_type grade) (first_per_key rates rs)
        ≡ rate_for (is_for crop_type grade) rs
  unfolding first_per_key
  first_per_key-first [] rates h = h
  first_per_key-first (r ∷ rs) rates h =
      let new = put_new-none r rates h in
      elim (Bool-cases (is_for crop_type grade r)) [
        | inl c ↦
            rw c
              (first_per_key-some (is_for crop_type grade) rs (put_new r rates) r (new ∙ rw c refl))
        | inr c ↦ rw c (first_per_key-first rs (put_new r rates) (new ∙ rw c refl))
      ]

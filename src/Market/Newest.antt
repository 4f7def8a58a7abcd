-- ===== src/Market/Newest.antt =====
-- The price that `resolve_price_per_kg` of services/market_rate_service.py answers, in terms of the
-- columns of the stored rates.
use text.Mathlib.Text.{◌==◌ as str_eq}
use text.Mathlib.TextEquality.{eq_iff}
use agri_flow.Prelude.{
  ℕ, ◌≤◌, ◌<◌, ◌≡◌, refl, ◌⊎◌, inl, inr, true, false, ◌&&◌, String, List, [], ◌∷◌, arith,
  Bool-cases, leb,
}
use agri_flow.Prelude.Int.{pos}
use agri_flow.Prelude.Decimal.{Decimal}
use agri_flow.Prelude.Table.{Table, select}
use agri_flow.Enums.{GrainGrade, same_grade}
use agri_flow.Models.{MarketRate, Db}
use agri_flow.Market.{applies, newer, resolve_price_per_kg}
use agri_flow.Market.Latest.{In, NoneNewer, IsResolved, resolve_price_per_kg-newest}
use agri_flow.Market.Dated.{In-cons}
use agri_flow.Market.Keyed.{both, same_grade-eq}

abbrev pub rates_of : Table MarketRate → List MarketRate
rates_of [] = []
rates_of ((k, r) ∷ t) = r ∷ rates_of t

-- of the crop and the grade, and in effect by the day
abbrev pub IsRate : ℕ → String → GrainGrade → MarketRate → Type 0
IsRate today crop_type grade r =
    (r.crop_type ≡ crop_type) × (r.grade ≡ grade) × (r.effective_date ≤ today)

-- by its day, and on one day by its creation
abbrev pub NotLater : MarketRate → MarketRate → Type 0
NotLater q r =
    (q.effective_date < r.effective_date)
    ⊎ (q.effective_date ≡ r.effective_date) × (q.created_at ≤ r.created_at)

abbrev pub IsPrice : ℕ → String → GrainGrade → List MarketRate → Decimal → Type 0
IsPrice today crop_type grade rates price =
    ((q : MarketRate) → In q rates → ¬ IsRate today crop_type grade q) × (price ≡ pos 0)
    ⊎ ((r : MarketRate) × (In r rates)
        × (IsRate today crop_type grade r)
        × (price ≡ r.price_per_kg)
        × ((q : MarketRate) → In q rates → IsRate today crop_type grade q → NotLater q r))

module _ (today : ℕ) (crop_type : String) (grade : GrainGrade) where
  applies-IsRate :
      (r : MarketRate) → applies today crop_type grade r ≡ true → IsRate today crop_type grade r
  applies-IsRate r h =
      let (key, day) =
        both (str_eq r.crop_type crop_type && same_grade r.grade grade) (leb r.effective_date today)
          h in
      let (crop, graded) = both (str_eq r.crop_type crop_type) (same_grade r.grade grade) key in
      ((eq_iff r.crop_type crop_type).0 crop, same_grade-eq r.grade grade graded, ground arith)

  same_grade_refl : (g : GrainGrade) → same_grade g g ≡ true
  same_grade_refl GrainGrade.a = refl
  same_grade_refl GrainGrade.b = refl
  same_grade_refl GrainGrade.c = refl

  IsRate-applies :
      (r : MarketRate) → IsRate today crop_type grade r → applies today crop_type grade r ≡ true
  IsRate-applies r (crop, graded, day) =
      let in_time : leb r.effective_date today ≡ true = ground arith in
      rw ((eq_iff r.crop_type crop_type).1 crop, graded, same_grade_refl grade, in_time) refl

  select-rates :
      (q : MarketRate) (t : Table MarketRate)
      → In q (select (applies today crop_type grade) t)
      → In q (rates_of t)
  select-rates q [] m = m
  select-rates q ((k, r) ∷ t) m = elim (Bool-cases (applies today crop_type grade r)) [
    | inr c ↦ In.later (select-rates q t (rw c at m))
    | inl c ↦ elim (In-cons q r (select (applies today crop_type grade) t) (rw c at m)) [
      | inl same ↦ rw same In.here
      | inr n ↦ In.later (select-rates q t n)
    ]
  ]

  rates-select :
      (q : MarketRate) (t : Table MarketRate)
      → In q (rates_of t)
      → applies today crop_type grade q ≡ true
      → In q (select (applies today crop_type grade) t)
  rates-select q [] m h = m
  rates-select q ((k, r) ∷ t) m h = elim (In-cons q r (rates_of t) m) [
    | inl same ↦
        let e : applies today crop_type grade r ≡ true = rw same at h in rw (e, same) In.here
    | inr n ↦ elim (Bool-cases (applies today crop_type grade r)) [
      | inl c ↦ rw c (In.later (rates-select q t n h))
      | inr c ↦ rw c (rates-select q t n h)
    ]
  ]

  not_newer : (q r : MarketRate) → newer q r ≡ false → NotLater q r
  not_newer q r h = ground arith

  NoneNewer-NotLater :
      (r q : MarketRate) (rs : List MarketRate) → NoneNewer r rs → In q rs → NotLater q r
  NoneNewer-NotLater r q [] h m = elim m [ ]
  NoneNewer-NotLater r q (x ∷ xs) h m = elim (In-cons q x xs m) [
    | inl same ↦ rw same (not_newer x r h.0)
    | inr n ↦ NoneNewer-NotLater r q xs h.1 n
  ]

  nothing-In : (q : MarketRate) (rs : List MarketRate) → rs ≡ [] → In q rs → ⊥
  nothing-In q [] e m = elim m [ ]
  nothing-In q (x ∷ xs) e m = absurd (cc e)

  read_off :
      (d : Db) (price : Decimal)
      → IsResolved today crop_type grade d price
      → IsPrice today crop_type grade (rates_of d.market_rates) price
  read_off d price (inl (none_there, zero_price)) = inl (
    λ q m fits. nothing-In q _ none_there (rates-select q d.market_rates m (IsRate-applies q fits)),
    zero_price,
  )
  read_off d price (inr (r, m, passes, same, newest)) = inr (
    r,
    select-rates r d.market_rates m,
    applies-IsRate r passes,
    same,
    λ q n fits.
        NoneNewer-NotLater r q _ newest (rates-select q d.market_rates n (IsRate-applies q fits)),
  )

-- The price of a crop and grade on a day is zero where no stored rate is of that crop and that
-- grade and effective by that day, and else it is the price of such a rate, and every such rate has
-- an earlier effective date, or the same one and was not created later.
pub resolve_price_per_kg_lem :
    (today : ℕ) (crop_type : String) (grade : GrainGrade) (d : Db)
    → IsPrice today crop_type grade
        (rates_of d.market_rates)
        (resolve_price_per_kg today crop_type grade d)
resolve_price_per_kg_lem today crop_type grade d =
    read_off today crop_type grade d _ (resolve_price_per_kg-newest today crop_type grade d)

-- ===== src/Market/Listed.antt =====
-- The rates that `list_current_rates` shows, against the price that `resolve_price_per_kg` answers
-- (services/market_rate_service.py).
use agri_flow.Prelude.{
  ℕ, ◌≤◌, ◌≡◌, refl, sym, ap, ◌∙◌, inl, inr, true, false, String, Option, none, some, Option-cases,
  List, [], ◌∷◌, arith, Bool-cases, if◌then◌else◌,
}
use agri_flow.Prelude.Int.{pos}
use agri_flow.Prelude.Decimal.{Decimal}
use agri_flow.Prelude.Table.{Table, select}
use agri_flow.Enums.{GrainGrade}
use agri_flow.Models.{MarketRate, Db}
use agri_flow.Market.{
  applies, newer, resolve_price_per_kg, in_effect, by_date, is_for, rate_for, list_current_rates,
}
use agri_flow.Market.Latest.{In, NoneNewer, IsResolved, resolve_price_per_kg-newest}
use agri_flow.Market.Dated.{
  by_date-IsSorted, In-by_date, by_date-In, In-cons, rate_for-In, rate_for-latest, rate_for-none,
}
use agri_flow.Market.Keyed.{both, first_per_key-first}

-- the price that is shown, which is zero where no rate is
abbrev pub shown : Option MarketRate → Decimal
shown none = pos 0
shown (some r) = r.price_per_kg

module _ (crop_type : String) (grade : GrainGrade) where
  -- A stored rate that applies is one in effect that has the key.
  select-applies :
      (today : ℕ) (q : MarketRate) (t : Table MarketRate)
      → In q (select (applies today crop_type grade) t)
      → In q (select (in_effect today) t) × (is_for crop_type grade q ≡ true)
  select-applies today q [] m = elim m [ ]
  select-applies today q ((k, r) ∷ t) m = elim (Bool-cases (applies today crop_type grade r)) [
    | inl c ↦
        let parts = both (is_for crop_type grade r) (in_effect today r) c in
        rw parts.1 (elim (In-cons q r (select (applies today crop_type grade) t) (rw c at m)) [
          | inl same ↦ (rw same In.here, rw same parts.0)
          | inr n ↦ let (there, k) = select-applies today q t n in (In.later there, k)
        ])
    | inr c ↦
        let (there, k) = select-applies today q t (rw c at m) in (In-select today r q t there, k)
  ]
    where
      In-select :
          (today : ℕ) (r q : MarketRate) (t : Table MarketRate)
          → In q (select (in_effect today) t)
          → In q (
              if in_effect today r
              then r ∷ select (in_effect today) t
              else select (in_effect today) t)
      In-select today r q t n = elim (Bool-cases (in_effect today r)) [
        | inl c ↦ rw c (In.later n)
        | inr c ↦ rw c n
      ]

  applies-select :
      (today : ℕ) (q : MarketRate) (t : Table MarketRate)
      → In q (select (in_effect today) t)
      → is_for crop_type grade q ≡ true
      → In q (select (applies today crop_type grade) t)
  applies-select today q [] m k = m
  applies-select today q ((j, r) ∷ t) m k = elim (Bool-cases (in_effect today r)) [
    | inl c ↦ elim (In-cons q r (select (in_effect today) t) (rw c at m)) [
      | inl same ↦
          let e : applies today crop_type grade r ≡ true =
            rw (c, sym (ap (is_for crop_type grade) same) ∙ k) refl in
          rw (e, same) In.here
      | inr n ↦ kept (applies-select today q t n k)
    ]
    | inr c ↦ kept (applies-select today q t (rw c at m) k)
  ]
    where
      kept :
          In q (select (applies today crop_type grade) t)
          → In q (
              if applies today crop_type grade r
              then r ∷ select (applies today crop_type grade) t
              else select (applies today crop_type grade) t)
      kept n = elim (Bool-cases (applies today crop_type grade r)) [
        | inl c ↦ rw c (In.later n)
        | inr c ↦ rw c n
      ]

  -- of the stored rates that apply, those of one day have one price
  abbrev pub OnePriceADay : ℕ → Db → Type 0
  OnePriceADay today d =
      (a b : MarketRate)
      → In a (select (applies today crop_type grade) d.market_rates)
      → In b (select (applies today crop_type grade) d.market_rates)
      → a.effective_date ≡ b.effective_date
      → a.price_per_kg ≡ b.price_per_kg

  newest_day : (a b : MarketRate) → newer a b ≡ false → a.effective_date ≤ b.effective_date
  newest_day a b h = ground arith

  NoneNewer-In :
      (r q : MarketRate) (rs : List MarketRate) → NoneNewer r rs → In q rs → newer q r ≡ false
  NoneNewer-In r q [] h m = elim m [ ]
  NoneNewer-In r q (x ∷ xs) h m = elim (In-cons q x xs m) [
    | inl same ↦ rw same h.0
    | inr n ↦ NoneNewer-In r q xs h.1 n
  ]

  listed-price :
      (today : ℕ) (d : Db) (r m : MarketRate)
      → OnePriceADay today d
      → rate_for (is_for crop_type grade) (by_date (select (in_effect today) d.market_rates))
        ≡ some r
      → In m (select (applies today crop_type grade) d.market_rates)
      → NoneNewer m (select (applies today crop_type grade) d.market_rates)
      → r.price_per_kg ≡ m.price_per_kg
  listed-price today d r m one found m_in newest =
      let rows = select (in_effect today) d.market_rates in
      let (there, key) = rate_for-In (is_for crop_type grade) (by_date rows) r found in
      let r_in = applies-select today r d.market_rates (In-by_date r rows there) key in
      let (m_there, m_key) = select-applies today m d.market_rates m_in in
      let up =
        rate_for-latest (is_for crop_type grade) (by_date rows) r m (by_date-IsSorted rows) found
          (by_date-In m rows m_there) m_key in
      let down = newest_day r m (NoneNewer-In m r _ newest r_in) in
      one r m r_in m_in (omega (arith, up, down))

  nothing-In : (q : MarketRate) (rs : List MarketRate) → rs ≡ [] → In q rs → ⊥
  nothing-In q [] e m = elim m [ ]
  nothing-In q (x ∷ xs) e m = absurd (cc e)

  first-resolved :
      (today : ℕ) (d : Db) (price : Decimal)
      → OnePriceADay today d
      → IsResolved today crop_type grade d price
      → shown
          (rate_for (is_for crop_type grade) (by_date (select (in_effect today) d.market_rates)))
        ≡ price
  first-resolved today d price one (inl (empty, zero_price)) =
      let rows = select (in_effect today) d.market_rates in
      elim (Option-cases (rate_for (is_for crop_type grade) (by_date rows))) [
        | inl missing ↦ rw missing (sym zero_price)
        | inr (r, found) ↦
            let (there, key) = rate_for-In (is_for crop_type grade) (by_date rows) r found in
            absurd (
              nothing-In r _ empty
                (applies-select today r d.market_rates (In-by_date r rows there) key))
      ]
  first-resolved today d price one (inr (m, m_in, passes, same, newest)) =
      let rows = select (in_effect today) d.market_rates in
      elim (Option-cases (rate_for (is_for crop_type grade) (by_date rows))) [
        | inl missing ↦
            let (m_there, key) = select-applies today m d.market_rates m_in in
            let no_key =
              rate_for-none (is_for crop_type grade) (by_date rows) m missing
                (by_date-In m rows m_there) in
            absurd (cc (key, no_key))
        | inr (r, found) ↦ rw found (listed-price today d r m one found m_in newest ∙ sym same)
      ]

  -- Where the stored rates of a crop and grade that are in effect have one price for one day, the
  -- price that the list of current rates shows for that crop and grade, or zero where it shows
  -- none, is the price that a sale of it gets.
  pub list_current_rates-resolve_price_per_kg :
      (today : ℕ) (d : Db)
      → OnePriceADay today d
      → shown (rate_for (is_for crop_type grade) (list_current_rates today d))
        ≡ resolve_price_per_kg today crop_type grade d
  unfolding list_current_rates
  list_current_rates-resolve_price_per_kg today d one =
      ap shown (
        first_per_key-first crop_type grade (by_date (select (in_effect today) d.market_rates)) []
          refl)
      ∙ first-resolved today d _ one (resolve_price_per_kg-newest today crop_type grade d)

-- ===== src/Market.antt =====
-- services/market_rate_service.py: the price of a grain on a day.
pub mod Latest
pub mod Dated
pub mod Keyed
pub mod Listed
pub mod Newest
use text.Mathlib.Text.{◌==◌ as str_eq}
use agri_flow.Prelude.{
  ℕ, String, Bool, ◌&&◌, ◌||◌, Option, none, some, List, [], ◌∷◌, ◌++◌, is_some, ltb, leb, ◌==◌,
  if◌then◌else◌,
}
use agri_flow.Prelude.Int.{pos}
use agri_flow.Prelude.Decimal.{Decimal}
use agri_flow.Prelude.Table.{select}
use agri_flow.Exec.{pure, ◌>>=◌, ◌>>◌}
use agri_flow.Enums.{GrainGrade, same_grade}
use agri_flow.Models.{MarketRate, Db}
use agri_flow.Session.{Action, add}
use agri_flow.Notify.{audit}

-- the `WHERE` of `resolve_price_per_kg`
abbrev pub applies : ℕ → String → GrainGrade → MarketRate → Bool
applies today crop_type grade r =
    str_eq r.crop_type crop_type && same_grade r.grade grade && leb r.effective_date today

-- `ORDER BY effective_date DESC, created_at DESC`
abbrev pub newer : MarketRate → MarketRate → Bool
newer a b =
    ltb b.effective_date a.effective_date
    || a.effective_date == b.effective_date && ltb b.created_at a.created_at

-- the first row in that order; of two rows of one instant, the earlier inserted
unfoldable pub latest : MarketRate → List MarketRate → MarketRate
latest best [] = best
latest best (r ∷ rs) = latest (if newer r best then r else best) rs

abbrev pub price_or_zero : List MarketRate → Decimal
price_or_zero [] = pos 0
price_or_zero (r ∷ rs) = (latest r rs).price_per_kg

unfoldable pub resolve_price_per_kg : ℕ → String → GrainGrade → Db → Decimal
resolve_price_per_kg today crop_type grade d =
    price_or_zero (select (applies today crop_type grade) d.market_rates)

abbrev pub in_effect : ℕ → MarketRate → Bool
in_effect today r = leb r.effective_date today

-- `ORDER BY effective_date DESC` alone: of two rows of one day, the earlier inserted
abbrev pub insert_by_date : MarketRate → List MarketRate → List MarketRate
insert_by_date r [] = r ∷ []
insert_by_date r (q ∷ qs) =
    let rest = insert_by_date r qs in
    if leb q.effective_date r.effective_date then r ∷ q ∷ qs else q ∷ rest

abbrev pub by_date : List MarketRate → List MarketRate
by_date [] = []
by_date (r ∷ rs) = insert_by_date r (by_date rs)

-- whether a rate has the key
abbrev pub is_for : String → GrainGrade → MarketRate → Bool
is_for crop_type grade r = str_eq r.crop_type crop_type && same_grade r.grade grade

-- the value of a dictionary at a key: its values are rates, and their keys the rates' own
abbrev pub rate_for : (MarketRate → Bool) → List MarketRate → Option MarketRate
rate_for has_key [] = none
rate_for has_key (r ∷ rs) = if has_key r then some r else rate_for has_key rs

abbrev pub put_new : MarketRate → List MarketRate → List MarketRate
put_new r rates =
    if is_some (rate_for (is_for r.crop_type r.grade) rates) then rates else rates ++ r ∷ []

unfoldable pub first_per_key : List MarketRate → List MarketRate → List MarketRate
first_per_key rates [] = rates
first_per_key rates (r ∷ rs) = first_per_key (put_new r rates) rs

unfoldable pub list_current_rates : ℕ → Db → List MarketRate
list_current_rates today d = first_per_key [] (by_date (select (in_effect today) d.market_rates))

unfoldable pub set_rate :
    ℕ → String → GrainGrade → Decimal → ℕ → Option String → ℕ → ℕ → Action MarketRate
unfolding audit
set_rate admin_id crop_type grade price_per_kg effective_date variety rate_id now =
    let rate : MarketRate = record {
      crop_type = crop_type;
      grade = grade;
      variety = variety;
      price_per_kg = price_per_kg;
      effective_date = effective_date;
      set_by = some admin_id;
      created_at = now;
    } in
    do
      add rate_id rate (λ d. d.market_rates) (λ t d. record d { market_rates = t })
      audit (some admin_id) "market_rate.set" (some "market_rate") (some rate_id)
      pure rate

-- ===== src/Market/Latest.antt =====
-- The choice of a rate by `resolve_price_per_kg` of services/market_rate_service.py.
use agri_flow.Prelude.{
  ℕ, ◌≡◌, refl, ◌⊎◌, inl, inr, Bool, true, false, String, List, [], ◌∷◌, arith, Bool-cases,
  if◌then◌else◌,
}
use agri_flow.Prelude.Int.{pos}
use agri_flow.Prelude.Decimal.{Decimal}
use agri_flow.Prelude.Table.{Table, select}
use agri_flow.Enums.{GrainGrade}
use agri_flow.Models.{MarketRate, Db}
use agri_flow.Market.{applies, newer, latest, price_or_zero, resolve_price_per_kg}

-- membership with its place
pub data In (r : MarketRate) : List MarketRate → Type 0 where
  here : {rs : List MarketRate} → In r (r ∷ rs)
  later : {q : MarketRate} {rs : List MarketRate} → In r rs → In r (q ∷ rs)

abbrev pub NoneNewer : MarketRate → List MarketRate → Type 0
NoneNewer r [] = Unit
NoneNewer r (q ∷ qs) = (newer q r ≡ false) × NoneNewer r qs

-- "Not newer than" is an order on rates.
newer_trans : (a b c : MarketRate) → newer a b ≡ false → newer b c ≡ false → newer a c ≡ false
newer_trans a b c h k = ground arith

newer_asym : (a b : MarketRate) → newer a b ≡ true → newer b a ≡ false
newer_asym a b h = ground arith

newer_irrefl : (a : MarketRate) → newer a a ≡ false
newer_irrefl a = ground arith

abbrev better : MarketRate → MarketRate → MarketRate
better best r = if newer r best then r else best

better_bounds :
    (best r : MarketRate) → (newer best (better best r) ≡ false) × (newer r (better best r) ≡ false)
better_bounds best r = elim (Bool-cases (newer r best)) [
  | inl wins ↦ rw wins (newer_asym r best wins, newer_irrefl r)
  | inr loses ↦ rw loses (newer_irrefl best, loses)
]

latest-newest :
    (best : MarketRate) (rs : List MarketRate)
    → (newer best (latest best rs) ≡ false) × NoneNewer (latest best rs) rs
unfolding latest
latest-newest best [] = (newer_irrefl best, tt)
latest-newest best (r ∷ rs) =
    let b = better_bounds best r in
    let n = latest-newest (better best r) rs in
    let m = latest (better best r) rs in
    (newer_trans best (better best r) m b.0 n.0, (newer_trans r (better best r) m b.1 n.0, n.1))

latest-In : (best : MarketRate) (rs : List MarketRate) → In (latest best rs) (best ∷ rs)
unfolding latest
latest-In best [] = here
latest-In best (r ∷ rs) = elim (Bool-cases (newer r best)) [
  | inl wins ↦ rw wins (later (latest-In r rs))
  | inr loses ↦ rw loses (skip (latest best rs) r rs (latest-In best rs))
]
  where
    skip : (x q : MarketRate) (l : List MarketRate) → In x (best ∷ l) → In x (best ∷ q ∷ l)
    skip x q l here = here
    skip x q l (later m) = later (later m)

-- every rate of a list passes a test
abbrev AllPass : (MarketRate → Bool) → List MarketRate → Type 0
AllPass p [] = Unit
AllPass p (r ∷ rs) = (p r ≡ true) × AllPass p rs

select-AllPass : (p : MarketRate → Bool) (t : Table MarketRate) → AllPass p (select p t)
select-AllPass p [] = tt
select-AllPass p ((k, r) ∷ t) = elim (Bool-cases (p r)) [
  | inl pass ↦ rw pass (pass, select-AllPass p t)
  | inr fail ↦ rw fail (select-AllPass p t)
]

In-AllPass :
    (p : MarketRate → Bool) (r : MarketRate) {l : List MarketRate}
    → In r l
    → AllPass p l
    → p r ≡ true
In-AllPass p r here h = h.0
In-AllPass p r (later m) h = In-AllPass p r m h.1

-- The price is that of a rate for this grain and grade that is in force, and no other such rate is
-- newer; it is zero where there is no such rate.
abbrev pub IsResolved : ℕ → String → GrainGrade → Db → Decimal → Type 0
IsResolved today crop_type grade d price =
    let rows = select (applies today crop_type grade) d.market_rates in
    (rows ≡ []) × (price ≡ pos 0)
    ⊎ ((r : MarketRate) × (In r rows)
        × (applies today crop_type grade r ≡ true)
        × (price ≡ r.price_per_kg)
        × NoneNewer r rows)

newest_of :
    (p : MarketRate → Bool) (rows : List MarketRate)
    → AllPass p rows
    → (rows ≡ []) × (price_or_zero rows ≡ pos 0)
      ⊎ ((r : MarketRate) × (In r rows)
          × (p r ≡ true)
          × (price_or_zero rows ≡ r.price_per_kg)
          × NoneNewer r rows)
newest_of p [] h = inl (refl, refl)
newest_of p (r ∷ rs) h =
    let m = latest-In r rs in
    inr (latest r rs, m, In-AllPass p (latest r rs) m h, refl, latest-newest r rs)

pub resolve_price_per_kg-newest :
    (today : ℕ) (crop_type : String) (grade : GrainGrade) (d : Db)
    → IsResolved today crop_type grade d (resolve_price_per_kg today crop_type grade d)
unfolding resolve_price_per_kg
resolve_price_per_kg-newest today crop_type grade d =
    newest_of (applies today crop_type grade)
      (select (applies today crop_type grade) d.market_rates)
      (select-AllPass (applies today crop_type grade) d.market_rates)

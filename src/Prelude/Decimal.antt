-- ===== src/Prelude/Decimal.antt =====
-- Python's `Decimal` at two places, the scale of every NUMERIC(14, 2) column: a signed count of
-- hundredths. Kilograms, acres and rupees are all of this type.
use Prim.Native.Nat.{ℕ, suc, ◌+◌, ◌*◌, ◌/◌, ◌%◌, ◌≤◌}
use mathlib.Core.Path.{◌≡◌}
use native.Mathlib.Omega.{arith}
use agri_flow.Prelude.Tests.{ltb, ◌==◌, if◌then◌else◌}
use agri_flow.Prelude.Int.{ℤ, pos, negsuc, pos_part, neg_part, sub_ℕ}

abbrev pub Decimal : Type 0
Decimal = ℤ

-- n / 100 to the nearest whole number, a tie to the even one (`ROUND_HALF_EVEN`)
unfoldable pub round_half_even : ℕ → ℕ
round_half_even n =
    let q = n / 100 in
    if ltb (n % 100) 50
    then q
    else if ltb 50 (n % 100)
    then q + 1
    else if q % 2 == 0
    then q
    else q + 1

-- the sign is kept, and the size rounded
unfoldable pub hundredth : ℤ → ℤ
unfolding round_half_even
hundredth (pos n) = pos (round_half_even n)
hundredth (negsuc n) = sub_ℕ 0 (round_half_even (suc n))

-- `(a * b).quantize(Decimal("0.01"))`: the exact product has four places
unfoldable pub quantize_product : Decimal → Decimal → Decimal
unfolding hundredth
quantize_product a b = hundredth (
    sub_ℕ (pos_part a * pos_part b + neg_part a * neg_part b)
      (pos_part a * neg_part b + neg_part a * pos_part b))

pub round_half_even_bounds :
    (n : ℕ) → (100 * round_half_even n ≤ n + 50) × (n ≤ 100 * round_half_even n + 50)
unfolding round_half_even
round_half_even_bounds n = ground arith

pub round_half_even-tie : (q : ℕ) → round_half_even (100 * q + 50) % 2 ≡ 0
unfolding round_half_even
round_half_even-tie q = ground arith

pub quantize_product-pos :
    (a b : ℕ) → quantize_product (pos a) (pos b) ≡ pos (round_half_even (a * b))
unfolding quantize_product
quantize_product-pos a b = ground arith

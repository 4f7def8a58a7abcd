-- ===== src/Progress/Percent.antt =====
-- How far a crop is shown to have grown (services/farmer_app_service.py `stage_progress_percent`).
use native.Mathlib.Nat.{div-add-mod, mod-lt, mul-le-mul_left, mul_comm, mul-add, zero-div}
use agri_flow.Prelude.{
  ℕ, suc, ◌+◌, ◌-◌, ◌*◌, ◌/◌, ◌%◌, ◌≤◌, ◌<◌, ◌≡◌, refl, ◌⊎◌, inl, inr, arith, String, Option, none,
  some, Bool-cases, List, [], ◌∷◌, ltb, leb, ◌==◌,
}
use agri_flow.Prelude.Int.{pos, sub_ℕ, max_ℤ, min_ℤ, clamp, clamp_bounds, clamp-id}
use agri_flow.Models.{Crop}
use agri_flow.Prelude.Text.{codes}
use agri_flow.Progress.{
  same_codes, lower, round_nat, round_quotient, hundredfold, span_from, span,
  stage_progress_percent, typical_span, get_days, typical_crop_days, default_crop_days,
}

-- the quotient with its rest
parts : (n d : ℕ) → 0 < d → (d * (n / d) + n % d ≡ n) × (n % d < d)
parts n d p = (div-add-mod n d, mod-lt n p)

hundred : (q d : ℕ) → q ≤ 99 → d * q ≤ 99 * d
hundred q d h = omega (arith, mul-le-mul_left d h, mul_comm d 99)

quotient-least : (n d : ℕ) → 100 * d ≤ n → 0 < d → 99 < n / d
quotient-least n d h p = elim (Bool-cases (leb (n / d) 99)) [
  | inl small ↦
      let (whole, rest) = parts n d p in
      let le : n / d ≤ 99 = ground arith in
      absurd (omega (arith, whole, rest, hundred (n / d) d le, h))
  | inr large ↦ ground arith
]

round_nat-least : (n d : ℕ) → 100 * d ≤ n → 0 < d → 100 ≤ round_nat n d
unfolding round_nat
round_nat-least n d h p = let q = quotient-least n d h p in ground arith

round_nat-zero : (d : ℕ) → 0 < d → round_nat 0 d ≡ 0
unfolding round_nat
round_nat-zero d p =
    let (whole, rest) = parts 0 d p in
    let none_left : 0 % d ≡ 0 = omega (arith, whole) in
    let none_whole : 0 / d ≡ 0 = zero-div d in ground arith

round_nat-cases :
    (n d : ℕ)
    → (round_nat n d ≡ n / d) × (2 * (n % d) ≤ d) ⊎ (round_nat n d ≡ n / d + 1) × (d ≤ 2 * (n % d))
unfolding round_nat
round_nat-cases n d = elim (Bool-cases (ltb (2 * (n % d)) d)) [
  | inl low ↦ inl (rw low refl, ground arith)
  | inr l ↦ elim (Bool-cases (ltb d (2 * (n % d)))) [
    | inl high ↦ inr (rw (l, high) refl, ground arith)
    | inr h ↦ elim (Bool-cases (n / d % 2 == 0)) [
      | inl even ↦ inl (rw (l, h, even) refl, ground arith)
      | inr odd ↦ inr (rw (l, h, odd) refl, ground arith)
    ]
  ]
]

-- The rounded quotient is a nearest number.
round_nat-near :
    (n d : ℕ)
    → 0 < d
    → (2 * (d * round_nat n d) ≤ 2 * n + d) × (2 * n ≤ 2 * (d * round_nat n d) + d)
round_nat-near n d p =
    let (whole, rest) = parts n d p in
    elim (round_nat-cases n d) [
      | inl (e, small) ↦ rw e (omega (arith, whole, small), omega (arith, whole, small))
      | inr (e, large) ↦
          rw (e, mul-add d (n / d) 1)
            (omega (arith, whole, large, rest), omega (arith, whole, large, rest))
    ]

abbrev AllPositive : List (String × ℕ) → Type 0
AllPositive [] = Unit
AllPositive ((k, n) ∷ t) = (0 < n) × AllPositive t

get_days-pos :
    (t : List (String × ℕ)) (name : List ℕ) (days : ℕ)
    → AllPositive t
    → 0 < days
    → 0 < get_days t name days
get_days-pos [] name days h p = p
get_days-pos ((k, n) ∷ t) name days h p = elim (Bool-cases (same_codes (codes k) name)) [
  | inl c ↦ rw c h.0
  | inr c ↦ rw c (get_days-pos t name days h.1 p)
]

typical_span-pos : (crop_type : String) → 0 < typical_span crop_type
typical_span-pos crop_type =
    get_days-pos typical_crop_days (lower (codes crop_type)) default_crop_days
      (
        omega arith,
        (
          omega arith,
          (
            omega arith,
            (
              omega arith,
              (
                omega arith,
                (omega arith, (omega arith, (omega arith, (omega arith, (omega arith, tt))))),
              ),
            ),
          ),
        ),
      )
      (omega arith)

span_from-pos : (sown : ℕ) (crop_type : String) (h : Option ℕ) → 0 < span_from sown crop_type h
span_from-pos sown crop_type none = typical_span-pos crop_type
span_from-pos sown crop_type (some h) = elim (Bool-cases (ltb sown h)) [
  | inl c ↦ rw c (ground arith)
  | inr c ↦ rw c (typical_span-pos crop_type)
]

span-pos : (crop : Crop) → 0 < span crop
unfolding span
span-pos crop = span_from-pos crop.sowing_date crop.crop_type crop.harvest_date

clamp-above : (hi r : ℕ) → hi ≤ r → clamp 0 hi (pos r) ≡ hi
unfolding clamp max_ℤ min_ℤ
clamp-above hi r h = ground arith

clamp-negative : (hi k : ℕ) → clamp 0 hi (sub_ℕ 0 k) ≡ 0
unfolding clamp max_ℤ min_ℤ
clamp-negative hi k = ground arith

round_quotient-early :
    (a b d : ℕ) → 0 < d → a ≤ b → clamp 0 100 (round_quotient (hundredfold (sub_ℕ a b)) d) ≡ 0
unfolding round_quotient
round_quotient-early a b d p h = elim (Bool-cases (leb b a)) [
  | inl c ↦
      let none_left : (a - b) * 100 ≡ 0 = ground arith in
      rw (c, none_left, round_nat-zero d p) (clamp-id 0 100 0 (omega arith) (omega arith))
  | inr c ↦ rw c (clamp-negative 100 (round_nat (suc ((b - a - 1) * 100 + 99)) d))
]

since :
    (a b d : ℕ)
    → b ≤ a
    → round_quotient (hundredfold (sub_ℕ a b)) d ≡ pos (round_nat ((a - b) * 100) d)
unfolding round_quotient
since a b d h = ground arith

round_nat-below : (n d : ℕ) → 0 < d → n ≤ 100 * d → round_nat n d ≤ 100
round_nat-below n d p h = elim (Bool-cases (leb (round_nat n d) 100)) [
  | inl small ↦ ground arith
  | inr large ↦
      let more : 101 ≤ round_nat n d = ground arith in
      absurd (omega (arith, (round_nat-near n d p).0, mul-le-mul_left d more, mul_comm d 101, h))
]

-- The progress of a crop that is shown is at most 100; it is 0 until the day of sowing and 100 from
-- the end of the crop's span on, and between them a whole percentage nearest to the share of the
-- span that has passed.
pub stage_progress_percent_lem :
    (crop : Crop) (today : ℕ)
    → let p = stage_progress_percent crop today in
      (p ≤ 100)
      × (today ≤ crop.sowing_date → p ≡ 0)
      × (crop.sowing_date + span crop ≤ today → p ≡ 100)
      × (crop.sowing_date ≤ today
          → today < crop.sowing_date + span crop
          → let days = today - crop.sowing_date in
            (2 * (span crop * p) ≤ 200 * days + span crop)
            × (200 * days ≤ 2 * (span crop * p) + span crop))
unfolding stage_progress_percent
stage_progress_percent_lem crop today =
    let d = span crop in
    let positive = span-pos crop in
    let n = (today - crop.sowing_date) * 100 in
    (
      (clamp_bounds 0 100 (round_quotient (hundredfold (sub_ℕ today crop.sowing_date)) d)
          (omega arith)).1,
      λ early. round_quotient-early today crop.sowing_date d positive early,
      λ grown.
          rw (since today crop.sowing_date d (omega (arith, grown)))
            (clamp-above 100 _ (round_nat-least n d (omega (arith, grown)) positive)),
      λ sown growing.
          rw
            (
              since today crop.sowing_date d sown,
              clamp-id 0 100 _ (omega arith)
                  (round_nat-below n d positive (omega (arith, growing))),
            )
            (let near = round_nat-near n d positive in
              (omega (arith, near.0), omega (arith, near.1))),
    )

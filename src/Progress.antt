-- ===== src/Progress.antt =====
-- services/farmer_app_service.py: how far a crop has grown, and the label of a purchase's payment.
pub mod Percent
use text.Mathlib.Text.{◌==◌ as str_eq}
use agri_flow.Prelude.{
  ℕ, suc, ◌+◌, ◌-◌, ◌*◌, ◌/◌, ◌%◌, String, Bool, true, false, ◌&&◌, Option, none, some, List, [],
  ◌∷◌, ltb, leb, ◌==◌, if◌then◌else◌,
}
use agri_flow.Prelude.Int.{ℤ, pos, negsuc, sub_ℕ, clamp}
use agri_flow.Prelude.Text.{codes}
use agri_flow.Enums.{PaymentStatus}
use agri_flow.Models.{Crop}

abbrev pub same_codes : List ℕ → List ℕ → Bool
same_codes [] [] = true
same_codes (a ∷ s) (b ∷ t) = a == b && same_codes s t
same_codes _ _ = false

-- `str.lower`, as far as it decides whether a text is a key of the table
abbrev pub lower : List ℕ → List ℕ
lower [] = []
lower (c ∷ cs) = (if leb b'A' c && leb c b'Z' then c + 32 else c) ∷ lower cs

abbrev pub get_days : List (String × ℕ) → List ℕ → ℕ → ℕ
get_days [] name days = days
get_days ((k, n) ∷ t) name days = if same_codes (codes k) name then n else get_days t name days

abbrev pub default_crop_days : ℕ
default_crop_days = 120

abbrev pub typical_crop_days : List (String × ℕ)
typical_crop_days =
    ("rice", 120)
    ∷ ("paddy", 120)
    ∷ ("wheat", 120)
    ∷ ("maize", 100)
    ∷ ("cotton", 160)
    ∷ ("groundnut", 110)
    ∷ ("sugarcane", 330)
    ∷ ("turmeric", 240)
    ∷ ("chili", 150)
    ∷ ("pulses", 90)
    ∷ []

-- Python's `round` of a quotient: to the nearest, and a half to the even. The quotient of the
-- source is a float, whose rounding is that of the exact quotient at any number of days.
unfoldable pub round_nat : ℕ → ℕ → ℕ
round_nat n d =
    let q = n / d in
    let twice = 2 * (n % d) in
    if ltb twice d then q else if ltb d twice then q + 1 else if q % 2 == 0 then q else q + 1

unfoldable pub round_quotient : ℤ → ℕ → ℤ
round_quotient (pos n) d = pos (round_nat n d)
round_quotient (negsuc n) d = sub_ℕ 0 (round_nat (suc n) d)

-- the number times 100
abbrev pub hundredfold : ℤ → ℤ
hundredfold (pos n) = pos (n * 100)
hundredfold (negsuc n) = negsuc (n * 100 + 99)

abbrev pub typical_span : String → ℕ
typical_span crop_type = get_days typical_crop_days (lower (codes crop_type)) default_crop_days

abbrev pub span_from : ℕ → String → Option ℕ → ℕ
span_from sowing_date crop_type none = typical_span crop_type
span_from sowing_date crop_type (some h) =
    if ltb sowing_date h then h - sowing_date else typical_span crop_type

unfoldable pub span : Crop → ℕ
span crop = span_from crop.sowing_date crop.crop_type crop.harvest_date

unfoldable pub stage_progress_percent : Crop → ℕ → ℕ
stage_progress_percent crop today =
    clamp 0 100 (round_quotient (hundredfold (sub_ℕ today crop.sowing_date)) (span crop))

-- an empty method is read as the warehouse
abbrev pub is_at_warehouse : Option String → Bool
is_at_warehouse none = true
is_at_warehouse (some m) = if str_eq m "" then true else str_eq m "warehouse"

unfoldable pub payment_status_label : PaymentStatus → Option String → String
payment_status_label PaymentStatus.paid m = "Paid"
payment_status_label PaymentStatus.failed m = "Failed"
payment_status_label PaymentStatus.pending m =
    if is_at_warehouse m then "Unpaid (Pay at Warehouse)" else "Payment pending"

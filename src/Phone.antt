-- ===== src/Phone.antt =====
-- schemas/farmer_app.py: `normalize_phone`, through which every account's phone number goes, and
-- `mask_account`. Texts are lists of code points.
pub mod Normal
use mathlib.Core.List.{reverse}
use agri_flow.Prelude.{
  ℕ, zero, suc, ◌+◌, ◌-◌, Bool, true, false, not, ◌&&◌, ◌||◌, List, [], ◌∷◌, ◌++◌, length, take,
  drop, filter_by, ◌==◌, if◌then◌else◌,
}
use agri_flow.Prelude.Text.{has_prefix}
use agri_flow.Errors.{Error, Result, ok, err}

abbrev pub stars : ℕ → List ℕ
stars zero = []
stars (suc n) = b'*' ∷ stars n

-- `is_digit` is what the `re` library matches by `\d`.
module _ (is_digit : ℕ → Bool) where
  -- `re.sub(r"\D", "", raw)`
  abbrev pub digits_of : List ℕ → List ℕ
  digits_of raw = filter_by is_digit raw

  abbrev pub all_digits : List ℕ → Bool
  all_digits [] = true
  all_digits (c ∷ cs) = is_digit c && all_digits cs

  -- without the country's code "91" of twelve digits, or the leading "0" of eleven
  unfoldable pub national : List ℕ → List ℕ
  national ds =
      if length ds == 12 && has_prefix ds (b'9' ∷ b'1' ∷ [])
      then drop 2 ds
      else if length ds == 11 && has_prefix ds (b'0' ∷ [])
      then drop 1 ds
      else ds

  -- `re.fullmatch(r"\d{10}", digits)`
  abbrev pub checked : List ℕ → Result (List ℕ)
  checked ds = if length ds == 10 && all_digits ds then ok ds else err Error.validation

  unfoldable pub normalize_phone : List ℕ → Result (List ℕ)
  unfolding national
  normalize_phone raw = checked (national (digits_of raw))

-- stars but for the last four characters
unfoldable pub mask_account : List ℕ → List ℕ
mask_account number = let hidden = length number - 4 in stars hidden ++ drop hidden number

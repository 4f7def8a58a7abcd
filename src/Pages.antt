-- ===== src/Pages.antt =====
-- The pages of a list: `get_page_params` of core/dependencies.py, the OFFSET and LIMIT of the
-- services' lists, and the number of pages that the routes answer. A search, and another order
-- than the newest first, are left out.
pub mod Whole
pub mod Lists
use text.Mathlib.Text.{◌==◌ as str_eq}
use agri_flow.Prelude.{
  ℕ, ◌+◌, ◌-◌, ◌*◌, ◌/◌, String, Bool, true, ◌||◌, ◌&&◌, Option, none, some, List, leb, ◌==◌,
  length, take, drop, if◌then◌else◌,
}

-- `PageParams`; the text of a status may be any.
pub record PageParams : Type 0 where
  pub page : ℕ
  pub page_size : ℕ
  pub status : Option String

-- the bounds of `get_page_params`
abbrev pub is_valid : PageParams → Bool
is_valid p = leb 1 p.page && (leb 1 p.page_size && leb p.page_size 100)

module _ {A : Type 0} where
  unfoldable pub page_of : PageParams → List A → List A
  page_of p rows = take p.page_size (drop ((p.page - 1) * p.page_size) rows)

  -- a page of the rows of a query, and their number
  unfoldable pub listing : PageParams → List A → List A × ℕ
  unfolding page_of
  listing p rows = (page_of p rows, length rows)

-- the answer's `total_pages`
unfoldable pub total_pages : ℕ → ℕ → ℕ
total_pages total page_size = if total == 0 then 0 else (total + page_size - 1) / page_size

-- `if params.status:` and the comparison with the column
abbrev pub has_status : Option String → String → Bool
has_status none value = true
has_status (some t) value = str_eq t "" || str_eq value t

-- ===== src/Pages/Whole.antt =====
-- The pages of a list against the list.
use native.Mathlib.Nat.{div-add-mod', mod-lt, suc-mul}
use agri_flow.Prelude.{
  inl, inr, Bool-cases, ◌==◌, ℕ, zero, suc, ◌+◌, ◌-◌, ◌*◌, ◌≤◌, ◌≡◌, sym, ap, ◌∙◌, arith, String,
  Option, List, [], ◌++◌, length, take, take-all, take-add,
}
use agri_flow.Pages.{listing, page_of, total_pages}

module _ {A : Type 0} (status : Option String) (page_size : ℕ) where
  -- the first n pages, one after the other
  unfoldable pub first_pages : ℕ → List A → List A
  first_pages zero rows = []
  first_pages (suc n) rows =
      first_pages n rows
      ++ (listing (record { page = suc n; page_size = page_size; status = status }) rows).0

  first_pages-take : (n : ℕ) (rows : List A) → first_pages n rows ≡ take (n * page_size) rows
  unfolding first_pages listing page_of
  first_pages-take zero rows = let e : 0 ≡ 0 * page_size = omega arith in ap (λ k. take k rows) e
  first_pages-take (suc n) rows =
      let next : suc n * page_size ≡ n * page_size + page_size = suc-mul n page_size in
      let offset : (suc n - 1) * page_size ≡ n * page_size =
        ap (λ k. k * page_size) (omega arith) in
      rw (first_pages-take n rows, offset)
        (sym (ap (λ k. take k rows) next ∙ take-add (n * page_size) page_size rows))

total_pages-enough :
    (total page_size : ℕ) → 1 ≤ page_size → total ≤ total_pages total page_size * page_size
unfolding total_pages
total_pages-enough total page_size h = elim (Bool-cases (total == 0)) [
  | inl empty ↦ ground arith
  | inr full ↦
      let n = total + page_size - 1 in
      let parts = div-add-mod' n page_size in
      let below = mod-lt n h in rw full (omega (arith, parts, below))
]

-- For a page size of at least one, the pages from the first to the last of the total number of
-- pages, one after the other, are all the rows of the query in their order.
pub first_pages-total :
    {A : Type 0} (status : Option String) (page_size : ℕ) (rows : List A)
    → 1 ≤ page_size
    → first_pages status page_size (total_pages (length rows) page_size) rows ≡ rows
first_pages-total status page_size rows h =
    first_pages-take status page_size (total_pages (length rows) page_size) rows
    ∙ take-all (total_pages (length rows) page_size * page_size) rows
        (total_pages-enough (length rows) page_size h)

-- ===== src/Phone/Normal.antt =====
-- What `normalize_phone` of schemas/farmer_app.py leaves of a number.
use agri_flow.Prelude.{
  ◌⊎◌, ℕ, ◌≡◌, refl, ◌∙◌, ap, inl, inr, arith, Bool, true, false, ◌&&◌, List, [], ◌∷◌, length, drop,
  ◌==◌, Bool-cases,
}
use agri_flow.Prelude.Text.{has_prefix}
use agri_flow.Errors.{ok}
use agri_flow.Phone.{digits_of, all_digits, national, checked, normalize_phone}

-- a number as it is, with the country's code, or with the trunk's zero
abbrev pub IsSpelling : List ℕ → List ℕ → Type 0
IsSpelling n ds = (ds ≡ n) ⊎ (ds ≡ b'9' ∷ b'1' ∷ n) ⊎ (ds ≡ b'0' ∷ n)

module _ (is_digit : ℕ → Bool) where
  checked-ok :
      (ds n : List ℕ)
      → checked is_digit ds ≡ ok n
      → (ds ≡ n) × (length n ≡ 10) × (all_digits is_digit n ≡ true)
  checked-ok ds n h = ground arith

  national-IsSpelling : (n ds : List ℕ) → length n ≡ 10 → IsSpelling n ds → national is_digit ds ≡ n
  unfolding national
  national-IsSpelling n ds ten (inl e) = rw (e, ten) refl
  national-IsSpelling n ds ten (inr (inl e)) = rw (e, ten) refl
  national-IsSpelling n ds ten (inr (inr e)) = rw (e, ten) refl

  &&-right : (a b : Bool) → (a && b) ≡ true → b ≡ true
  &&-right true b h = h
  &&-right false b h = cc

  prefix_two : (a b : ℕ) (ds : List ℕ) → has_prefix ds (a ∷ b ∷ []) ≡ true → ds ≡ a ∷ b ∷ drop 2 ds
  prefix_two a b [] h = cc
  prefix_two a b (x ∷ []) h = ground arith
  prefix_two a b (x ∷ y ∷ ds) h = ground arith

  prefix_one : (a : ℕ) (ds : List ℕ) → has_prefix ds (a ∷ []) ≡ true → ds ≡ a ∷ drop 1 ds
  prefix_one a [] h = cc
  prefix_one a (x ∷ ds) h = ground arith

  national_inv : (n ds : List ℕ) → national is_digit ds ≡ n → IsSpelling n ds
  unfolding national
  national_inv n ds h = elim (Bool-cases (length ds == 12 && has_prefix ds (b'9' ∷ b'1' ∷ []))) [
    | inl code ↦
        let h₁ = rw code at h in
        let pre = &&-right (length ds == 12) _ code in
        inr (inl (prefix_two b'9' b'1' ds pre ∙ ap (λ t. b'9' ∷ b'1' ∷ t) h₁))
    | inr c ↦ elim (Bool-cases (length ds == 11 && has_prefix ds (b'0' ∷ []))) [
      | inl trunk ↦
          let h₁ = rw (c, trunk) at h in
          let pre = &&-right (length ds == 11) _ trunk in
          inr (inr (prefix_one b'0' ds pre ∙ ap (λ t. b'0' ∷ t) h₁))
      | inr d ↦ inl (rw (c, d) at h)
    ]
  ]

  -- A text is normalised to a number exactly when the number is ten digits and the digits of the
  -- text are the number, the number after the country's code 91, or the number after a zero. What
  -- counts as a digit is arbitrary.
  pub normalize_phone_iff :
      (raw n : List ℕ)
      → (normalize_phone is_digit raw ≡ ok n
          → (length n ≡ 10)
            × (all_digits is_digit n ≡ true)
            × IsSpelling n (digits_of is_digit raw))
        × ((length n ≡ 10) × (all_digits is_digit n ≡ true) × IsSpelling n (digits_of is_digit raw)
            → normalize_phone is_digit raw ≡ ok n)
  unfolding normalize_phone
  normalize_phone_iff raw n = (
    λ h. let (same, ten, digits) = checked-ok _ n h in (ten, digits, national_inv n _ same),
    λ h.
        let (ten, digits, spelling) = h in
        rw (national-IsSpelling n _ ten spelling, ten, digits) refl,
  )

-- ===== src/Pages/Lists/Own.antt =====
-- Whose rows the lists of the services show.
use mathlib.Core.List.{reverse_aux, reverse}
use agri_flow.Prelude.{
  ℕ, zero, suc, ◌-◌, ◌*◌, ◌≡◌, refl, inl, inr, Bool, true, false, ◌&&◌, [], ◌∷◌, take, drop, ==_iff,
  Bool-cases,
}
use agri_flow.Prelude.Table.{Table, rows_where, AllRows}
use agri_flow.Enums.{is_farmer}
use agri_flow.Models.{Db}
use agri_flow.Pages.{PageParams, listing, page_of}
use agri_flow.Pages.Lists.{
  Actor, may_see, insert_by, sort_by, list_bookings_for_actor, list_purchases_for_actor,
  list_grain_sales_for_actor, list_crops_for_actor, list_visits_for_actor,
}

module _ {V : Type 0} (P : V → Type 0) where
  AllRows-take : (n : ℕ) (t : Table V) → AllRows P t → AllRows P (take n t)
  AllRows-take zero t h = tt
  AllRows-take (suc n) [] h = tt
  AllRows-take (suc n) (x ∷ t) h = (h.0, AllRows-take n t h.1)

  AllRows-drop : (n : ℕ) (t : Table V) → AllRows P t → AllRows P (drop n t)
  AllRows-drop zero t h = h
  AllRows-drop (suc n) [] h = tt
  AllRows-drop (suc n) (x ∷ t) h = AllRows-drop n t h.1

  AllRows-reverse_aux : (t r : Table V) → AllRows P t → AllRows P r → AllRows P (reverse_aux t r)
  AllRows-reverse_aux [] r h k = k
  AllRows-reverse_aux (x ∷ t) r h k = AllRows-reverse_aux t (x ∷ r) h.1 (h.0, k)

  AllRows-reverse : (t : Table V) → AllRows P t → AllRows P (reverse t)
  AllRows-reverse t h = AllRows-reverse_aux t [] h tt

  AllRows-rows_where :
      (p : V → Bool) → ((v : V) → p v ≡ true → P v) → (t : Table V) → AllRows P (rows_where p t)
  AllRows-rows_where p f [] = tt
  AllRows-rows_where p f ((k, v) ∷ t) = elim (Bool-cases (p v)) [
    | inl e ↦ rw e (f v e, AllRows-rows_where p f t)
    | inr e ↦ rw e (AllRows-rows_where p f t)
  ]

  AllRows-insert_by :
      (before : ℕ × V → ℕ × V → Bool) (x : ℕ × V) (t : Table V)
      → P x.1
      → AllRows P t
      → AllRows P (insert_by before x t)
  AllRows-insert_by before x [] p h = (p, tt)
  AllRows-insert_by before x (y ∷ t) p h = elim (Bool-cases (before y x)) [
    | inl e ↦ rw e (h.0, AllRows-insert_by before x t p h.1)
    | inr e ↦ rw e (p, h)
  ]

  AllRows-sort_by :
      (before : ℕ × V → ℕ × V → Bool) (t : Table V) → AllRows P t → AllRows P (sort_by before t)
  AllRows-sort_by before [] h = tt
  AllRows-sort_by before (x ∷ t) h =
      AllRows-insert_by before x (sort_by before t) h.0 (AllRows-sort_by before t h.1)

  listing-AllRows : (p : PageParams) (t : Table V) → AllRows P t → AllRows P (listing p t).0
  unfolding listing page_of
  listing-AllRows p t h = AllRows-take p.page_size _ (AllRows-drop ((p.page - 1) * p.page_size) t h)

and_left : (a b : Bool) → (a && b) ≡ true → a ≡ true
and_left true b h = refl
and_left false b h = h

may_see-own :
    (actor : Actor) (farmer_id : ℕ)
    → is_farmer actor.role ≡ true
    → may_see actor farmer_id ≡ true
    → farmer_id ≡ actor.id
may_see-own actor farmer_id f h = (==_iff farmer_id actor.id).0 (rw f at h)

-- Whatever page and status a farmer asks for, the lists of bookings, seed purchases, grain sales,
-- crops and farm visits show the farmer's own rows only.
pub lists-own :
    (actor : Actor) (p : PageParams) (include_deleted : Bool) (d : Db)
    → is_farmer actor.role ≡ true
    → AllRows (λ b. b.farmer_id ≡ actor.id) (list_bookings_for_actor actor p d).0
      × AllRows (λ b. b.farmer_id ≡ actor.id) (list_purchases_for_actor actor p d).0
      × AllRows (λ b. b.farmer_id ≡ actor.id) (list_grain_sales_for_actor actor p d).0
      × AllRows (λ c. c.farmer_id ≡ actor.id) (list_crops_for_actor actor p include_deleted d).0
      × AllRows (λ v. v.farmer_id ≡ actor.id) (list_visits_for_actor actor p d).0
unfolding list_bookings_for_actor list_purchases_for_actor list_grain_sales_for_actor
    list_crops_for_actor list_visits_for_actor
lists-own actor p include_deleted d f = (
  listing-AllRows _ p _ (
      AllRows-reverse _ _ (
        AllRows-rows_where _ _ (λ v e. may_see-own actor v.farmer_id f (and_left _ _ e))
          d.bookings)),
  listing-AllRows _ p _ (
      AllRows-reverse _ _ (
        AllRows-rows_where _ _ (λ v e. may_see-own actor v.farmer_id f (and_left _ _ e))
          d.purchases)),
  listing-AllRows _ p _ (
      AllRows-reverse _ _ (
        AllRows-rows_where _ _ (λ v e. may_see-own actor v.farmer_id f (and_left _ _ e))
          d.grain_sales)),
  listing-AllRows _ p _ (
      AllRows-reverse _ _
        (AllRows-rows_where _ _ (λ v e. may_see-own actor v.farmer_id f (and_left _ _ e)) d.crops)),
  listing-AllRows _ p _ (
      AllRows-sort_by _ _ _ (
        AllRows-reverse _ _ (
          AllRows-rows_where _ _ (λ v e. may_see-own actor v.farmer_id f (and_left _ _ e))
            d.farm_visits))),
)

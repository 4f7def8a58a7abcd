-- ===== src/Grain/Life/Handlers.antt =====
-- The handlers of services/grain_sale_service.py, each as a step in the life of a sale.
use mathlib.Core.Path.{subst}
use agri_flow.Prelude.{
  ◌≡◌, some, ℕ, refl, sym, inl, inr, Bool, String, Option, Bool-cases, Option-cases,
}
use agri_flow.Prelude.Decimal.{Decimal}
use agri_flow.Prelude.Table.{lookup}
use agri_flow.Enums.{GrainGrade, GrainSaleStatus}
use agri_flow.Models.{GrainSale}
use agri_flow.Session.{Session}
use agri_flow.Grain.{
  valid_transition, owns_crop, create_grain_sale, target, review_grain_sale, paid, pay_grain_sale,
  is_farmer_row, differs, procure_grain, received, inspect_booking, is_closed, update_yield,
}
use agri_flow.Grain.Inspection.{inspect_booking-cases}
use agri_flow.Grain.Life.{
  IsGrown, IsGrown-frame, IsGrown-change, IsGrown-new, moved-Grown, reviewed-Grown, reweighed-Grown,
}

module _ (k : ℕ) (old : GrainSale) where
  pub create_grain_sale-IsGrown :
      (farmer_id : ℕ) (grain_type : String) (grade : GrainGrade) (raw : Decimal)
      (crop_id : Option ℕ) (offered : Option Decimal) (notes : Option String) (i : ℕ) (s : Session)
      → lookup k s.db.grain_sales ≡ some old
      → IsGrown k old
          (create_grain_sale farmer_id grain_type grade raw crop_id offered notes i s).1.db
  unfolding create_grain_sale
  create_grain_sale-IsGrown farmer_id grain_type grade raw crop_id offered notes i s at_k =
      let inv = IsGrown-frame k old s.db s.db refl at_k in
      elim (Bool-cases (owns_crop farmer_id crop_id s.db)) [
        | inr foreign ↦ rw foreign inv
        | inl own ↦ rw own (elim (Option-cases (lookup i s.db.grain_sales)) [
          | inr (x, taken) ↦ rw taken inv
          | inl fresh ↦ rw fresh (IsGrown-new k old s.db _ i _ fresh refl at_k)
        ])
      ]

  pub review_grain_sale-IsGrown :
      (today manager_id sale_id booking_id : ℕ) (good bad : Decimal) (reason : Option String)
      (approve : Bool) (i : ℕ) (s : Session)
      → lookup k s.db.grain_sales ≡ some old
      → IsGrown k old
          (review_grain_sale today manager_id sale_id booking_id good bad reason approve i s).1.db
  unfolding review_grain_sale
  review_grain_sale-IsGrown today manager_id sale_id booking_id good bad reason approve i s at_k =
      let inv = IsGrown-frame k old s.db s.db refl at_k in
      elim (Option-cases (lookup sale_id s.db.grain_sales)) [
        | inl missing ↦ rw missing inv
        | inr (sale, row) ↦
            rw row (elim (Bool-cases (valid_transition sale.status (target approve))) [
              | inr invalid ↦ rw invalid inv
              | inl valid ↦ rw valid (elim (Option-cases (lookup booking_id s.db.bookings)) [
                | inl absent ↦ rw absent inv
                | inr (b, booked) ↦ rw booked (elim (Option-cases (lookup i s.db.inspections)) [
                  | inr (x, taken) ↦ rw taken inv
                  | inl fresh ↦ rw fresh (
                      IsGrown-change k old s.db _ sale_id sale _ row
                        (reviewed-Grown approve _ good bad sale valid) refl at_k)
                ])
              ])
            ])
      ]

  pub pay_grain_sale-IsGrown :
      (manager_id sale_id : ℕ) (reference : Option String) (i : ℕ) (s : Session)
      → lookup k s.db.grain_sales ≡ some old
      → IsGrown k old (pay_grain_sale manager_id sale_id reference i s).1.db
  unfolding pay_grain_sale
  pay_grain_sale-IsGrown manager_id sale_id reference i s at_k =
      let inv = IsGrown-frame k old s.db s.db refl at_k in
      elim (Option-cases (lookup sale_id s.db.grain_sales)) [
        | inl missing ↦ rw missing inv
        | inr (sale, row) ↦
            rw row (elim (Bool-cases (valid_transition sale.status GrainSaleStatus.paid)) [
              | inr invalid ↦ rw invalid inv
              | inl valid ↦ rw valid (elim (Option-cases (lookup i s.db.transactions)) [
                | inr (x, taken) ↦ rw taken (
                    IsGrown-change k old s.db _ sale_id sale _ row
                      (moved-Grown sale (paid sale) valid refl refl refl refl) refl at_k)
                | inl fresh ↦ rw fresh (
                    IsGrown-change k old s.db _ sale_id sale _ row
                      (moved-Grown sale (paid sale) valid refl refl refl refl) refl at_k)
              ])
            ])
      ]

  pub procure_grain-IsGrown :
      (today manager_id farmer_id : ℕ) (grain_type : String) (grade : GrainGrade)
      (raw good wastage : Decimal) (i : ℕ) (s : Session)
      → lookup k s.db.grain_sales ≡ some old
      → IsGrown k old
          (procure_grain today manager_id farmer_id grain_type grade raw good wastage i s).1.db
  unfolding procure_grain
  procure_grain-IsGrown today manager_id farmer_id grain_type grade raw good wastage i s at_k =
      let inv = IsGrown-frame k old s.db s.db refl at_k in
      elim (Bool-cases (is_farmer_row (lookup farmer_id s.db.users))) [
        | inr stranger ↦ rw stranger inv
        | inl known ↦ rw known (elim (Bool-cases (differs good wastage raw)) [
          | inl off ↦ rw off inv
          | inr even ↦ rw even (elim (Option-cases (lookup i s.db.grain_sales)) [
            | inr (x, taken) ↦ rw taken inv
            | inl fresh ↦ rw fresh (IsGrown-new k old s.db _ i _ fresh refl at_k)
          ])
        ])
      ]

  pub update_yield-IsGrown :
      (today manager_id sale_id : ℕ) (good wastage : Decimal) (s : Session)
      → lookup k s.db.grain_sales ≡ some old
      → IsGrown k old (update_yield today manager_id sale_id good wastage s).1.db
  unfolding update_yield
  update_yield-IsGrown today manager_id sale_id good wastage s at_k =
      let inv = IsGrown-frame k old s.db s.db refl at_k in
      elim (Option-cases (lookup sale_id s.db.grain_sales)) [
        | inl missing ↦ rw missing inv
        | inr (sale, row) ↦ rw row (elim (Bool-cases (is_closed sale.status)) [
          | inl closed ↦ rw closed inv
          | inr still_open ↦ rw still_open (
              IsGrown-change k old s.db _ sale_id sale _ row
                (reweighed-Grown _ good wastage sale still_open) refl at_k)
        ])
      ]

  pub inspect_booking-IsGrown :
      (today inspector_id booking_id : ℕ) (good bad : Decimal) (reason notes : Option String)
      (i : ℕ) (s : Session)
      → lookup k s.db.grain_sales ≡ some old
      → IsGrown k old (inspect_booking today inspector_id booking_id good bad reason notes i s).1.db
  inspect_booking-IsGrown today inspector_id booking_id good bad reason notes i s at_k =
      let inv = IsGrown-frame k old s.db s.db refl at_k in
      elim (inspect_booking-cases today inspector_id booking_id good bad reason notes i s) [
        | inl (refused, same) ↦ subst (IsGrown k old) (sym same) inv
        | inr (f, made, stored) ↦
            IsGrown-change k old s.db _ f.sale_id f.sale _ f.sale_row
              (moved-Grown f.sale (received _ f.booking.quantity_kg good bad f.sale) f.valid refl
                refl refl refl)
              f.grain_sales at_k
      ]

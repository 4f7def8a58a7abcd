-- ===== src/Grain/Paid.antt =====
-- The handlers of services/grain_sale_service.py against the ledger's credits.
use mathlib.Core.Path.{subst}
use agri_flow.Prelude.{
  ℕ, ◌≡◌, refl, inl, inr, sym, true, false, Bool, String, Option, none, some, Bool-cases,
  Option-cases,
}
use agri_flow.Prelude.Decimal.{Decimal}
use agri_flow.Prelude.Table.{lookup}
use agri_flow.Errors.{ok}
use agri_flow.Enums.{GrainGrade, GrainSaleStatus}
use agri_flow.Models.{GrainSale}
use agri_flow.Session.{Session}
use agri_flow.Grain.{
  valid_transition, owns_crop, create_grain_sale, target, reviewed, review_grain_sale, sale_credit,
  paid, pay_grain_sale, is_farmer_row, differs, procure_grain, inspect_booking, is_closed,
  after_yield, update_yield,
}
use agri_flow.Grain.Inspection.{inspect_booking-cases}
use agri_flow.Grain.Payout.{is_paid, IsPaidOnce, IsPaidOnce-unpaid, IsPaidOnce-credit}

-- A sale that can still move, or is still open, has not been paid.
pub valid_transition-unpaid :
    (from to : GrainSaleStatus) → valid_transition from to ≡ true → is_paid from ≡ false
valid_transition-unpaid GrainSaleStatus.paid to h = cc
valid_transition-unpaid _ to h = refl

open-unpaid : (st : GrainSaleStatus) → is_closed st ≡ false → is_paid st ≡ false
open-unpaid GrainSaleStatus.paid h = cc
open-unpaid _ h = refl

target-unpaid :
    (approve : Bool) (price good bad : Decimal) (sale : GrainSale)
    → is_paid (reviewed approve price good bad sale).status ≡ false
target-unpaid true price good bad sale = refl
target-unpaid false price good bad sale = refl

after_yield-unpaid :
    (st : GrainSaleStatus) → is_closed st ≡ false → is_paid (after_yield st) ≡ false
after_yield-unpaid GrainSaleStatus.paid h = cc
after_yield-unpaid _ h = refl

pub create_grain_sale-IsPaidOnce :
    (farmer_id : ℕ) (grain_type : String) (grade : GrainGrade) (raw : Decimal) (crop_id : Option ℕ)
    (offered : Option Decimal) (notes : Option String) (k : ℕ) (s : Session)
    → IsPaidOnce s.db
    → IsPaidOnce (create_grain_sale farmer_id grain_type grade raw crop_id offered notes k s).1.db
unfolding create_grain_sale
create_grain_sale-IsPaidOnce farmer_id grain_type grade raw crop_id offered notes k s inv =
    elim (Bool-cases (owns_crop farmer_id crop_id s.db)) [
      | inr foreign ↦ rw foreign inv
      | inl own ↦ rw own (elim (Option-cases (lookup k s.db.grain_sales)) [
        | inr (old, taken) ↦ rw taken inv
        | inl fresh ↦ rw fresh (IsPaidOnce-unpaid s.db k _ none inv fresh refl refl refl refl refl)
      ])
    ]

pub review_grain_sale-IsPaidOnce :
    (today manager_id sale_id booking_id : ℕ) (good bad : Decimal) (reason : Option String)
    (approve : Bool) (k : ℕ) (s : Session)
    → IsPaidOnce s.db
    → IsPaidOnce
        (review_grain_sale today manager_id sale_id booking_id good bad reason approve k s).1.db
unfolding review_grain_sale
review_grain_sale-IsPaidOnce today manager_id sale_id booking_id good bad reason approve k s inv =
    elim (Option-cases (lookup sale_id s.db.grain_sales)) [
      | inl missing ↦ rw missing inv
      | inr (sale, row) ↦
          rw row (elim (Bool-cases (valid_transition sale.status (target approve))) [
            | inr invalid ↦ rw invalid inv
            | inl valid ↦ rw valid (elim (Option-cases (lookup booking_id s.db.bookings)) [
              | inl absent ↦ rw absent inv
              | inr (b, booked) ↦ rw booked (elim (Option-cases (lookup k s.db.inspections)) [
                | inr (old, taken) ↦ rw taken inv
                | inl fresh ↦
                    let u = valid_transition-unpaid sale.status (target approve) valid in
                    rw fresh (
                      IsPaidOnce-unpaid s.db sale_id _ (some sale) inv row (rw u refl) (rw u refl)
                        (target-unpaid approve _ good bad sale) refl refl)
              ])
            ])
          ])
    ]

-- A payment of a grain sale that goes through writes the sale's status and one credit of its amount
-- together: the ledger's credits are still one entry of the pinned amount for each paid sale, and
-- none for the others.
pub pay_grain_sale-IsPaidOnce :
    (manager_id sale_id : ℕ) (reference : Option String) (k : ℕ) (s : Session) (after : GrainSale)
    → (pay_grain_sale manager_id sale_id reference k s).0 ≡ ok after
    → IsPaidOnce s.db
    → IsPaidOnce (pay_grain_sale manager_id sale_id reference k s).1.db
unfolding pay_grain_sale
pay_grain_sale-IsPaidOnce manager_id sale_id reference k s after h inv =
    elim (Option-cases (lookup sale_id s.db.grain_sales)) [
      | inl missing ↦ rw missing inv
      | inr (sale, row) ↦
          let h₁ = rw row at h in
          rw row (elim (Bool-cases (valid_transition sale.status GrainSaleStatus.paid)) [
            | inr invalid ↦ rw invalid inv
            | inl valid ↦
                let h₂ = rw valid at h₁ in
                rw valid (elim (Option-cases (lookup k s.db.transactions)) [
                  | inr (old, taken) ↦ absurd (cc (rw taken at h₂))
                  | inl fresh ↦ rw fresh (
                      IsPaidOnce-credit s.db sale_id k sale (paid sale)
                        (sale_credit sale_id sale reference) inv row fresh
                        (valid_transition-unpaid sale.status GrainSaleStatus.paid valid) refl refl
                        refl refl refl refl)
                ])
          ])
    ]

pub procure_grain-IsPaidOnce :
    (today manager_id farmer_id : ℕ) (grain_type : String) (grade : GrainGrade)
    (raw good wastage : Decimal) (k : ℕ) (s : Session)
    → IsPaidOnce s.db
    → IsPaidOnce
        (procure_grain today manager_id farmer_id grain_type grade raw good wastage k s).1.db
unfolding procure_grain
procure_grain-IsPaidOnce today manager_id farmer_id grain_type grade raw good wastage k s inv =
    elim (Bool-cases (is_farmer_row (lookup farmer_id s.db.users))) [
      | inr stranger ↦ rw stranger inv
      | inl known ↦ rw known (elim (Bool-cases (differs good wastage raw)) [
        | inl off ↦ rw off inv
        | inr even ↦ rw even (elim (Option-cases (lookup k s.db.grain_sales)) [
          | inr (old, taken) ↦ rw taken inv
          | inl fresh ↦
              rw fresh (IsPaidOnce-unpaid s.db k _ none inv fresh refl refl refl refl refl)
        ])
      ])
    ]

pub update_yield-IsPaidOnce :
    (today manager_id sale_id : ℕ) (good wastage : Decimal) (s : Session)
    → IsPaidOnce s.db
    → IsPaidOnce (update_yield today manager_id sale_id good wastage s).1.db
unfolding update_yield
update_yield-IsPaidOnce today manager_id sale_id good wastage s inv =
    elim (Option-cases (lookup sale_id s.db.grain_sales)) [
      | inl missing ↦ rw missing inv
      | inr (sale, row) ↦ rw row (elim (Bool-cases (is_closed sale.status)) [
        | inl closed ↦ rw closed inv
        | inr still_open ↦
            let u = open-unpaid sale.status still_open in
            rw still_open (
              IsPaidOnce-unpaid s.db sale_id _ (some sale) inv row (rw u refl) (rw u refl)
                (after_yield-unpaid sale.status still_open) refl refl)
      ])
    ]

pub inspect_booking-IsPaidOnce :
    (today inspector_id booking_id : ℕ) (good bad : Decimal) (reason notes : Option String) (k : ℕ)
    (s : Session)
    → IsPaidOnce s.db
    → IsPaidOnce (inspect_booking today inspector_id booking_id good bad reason notes k s).1.db
unfolding inspect_booking
inspect_booking-IsPaidOnce today inspector_id booking_id good bad reason notes k s inv =
    elim (inspect_booking-cases today inspector_id booking_id good bad reason notes k s) [
      | inl (refused, same) ↦ subst IsPaidOnce (sym same) inv
      | inr (f, made, stored) ↦
          let u = valid_transition-unpaid f.sale.status GrainSaleStatus.received f.valid in
          IsPaidOnce-unpaid s.db f.sale_id _ (some f.sale) inv f.sale_row (rw u refl) (rw u refl)
            refl f.transactions f.grain_sales
    ]

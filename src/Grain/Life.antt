-- ===== src/Grain/Life.antt =====
-- The life of a grain sale as a state machine, which the handlers of services/grain_sale_service.py
-- refine.
pub mod Handlers
use mathlib.Core.Path.{subst}
use agri_flow.Prelude.{
  ℕ, ◌≡◌, refl, sym, ap, ◌∙◌, inl, inr, true, false, Bool, String, Option, none, some, Bool-cases,
  Option-cases, ◌==◌, ==_iff, ==_refl, if◌then◌else◌, arith,
}
use agri_flow.Prelude.Decimal.{Decimal}
use agri_flow.Prelude.Growth.{AtMostOne, Follows, Follows-same, Follows-change, Follows-new}
use agri_flow.Prelude.Table.{lookup, insert, lookup-insert}
use agri_flow.Enums.{GrainGrade, GrainSaleStatus}
use agri_flow.Models.{GrainSale, Db}
use agri_flow.Session.{Session}
use agri_flow.Grain.{
  valid_transition, owns_crop, create_grain_sale, target, reviewed, review_grain_sale, paid,
  pay_grain_sale, is_farmer_row, differs, procure_grain, received, inspect_booking, is_closed,
  after_yield, reweighed, update_yield,
}
use agri_flow.Grain.Inspection.{inspect_booking-cases}

-- The table `_VALID_TRANSITIONS`: an offer is received, or reviewed at once; what is received is reviewed; what is approved is paid.
pub data Step : GrainSaleStatus → GrainSaleStatus → Type 0 where
  receive_offer : Step GrainSaleStatus.pending GrainSaleStatus.received
  approve_offer : Step GrainSaleStatus.pending GrainSaleStatus.approved
  reject_offer : Step GrainSaleStatus.pending GrainSaleStatus.rejected
  approve_received : Step GrainSaleStatus.received GrainSaleStatus.approved
  reject_received : Step GrainSaleStatus.received GrainSaleStatus.rejected
  pay_approved : Step GrainSaleStatus.approved GrainSaleStatus.paid

abbrev pub is_over : GrainSaleStatus → Bool
is_over GrainSaleStatus.rejected = true
is_over GrainSaleStatus.paid = true
is_over _ = false

is_closed-is_over : (a : GrainSaleStatus) → is_closed a ≡ false → is_over a ≡ false
is_closed-is_over GrainSaleStatus.rejected h = cc
is_closed-is_over GrainSaleStatus.paid h = cc
is_closed-is_over _ h = refl

-- What one request may make of a sale: its status makes one step or none, whose and what it is
-- stays, and once it is rejected or paid no column changes.
pub record Grown (old new : GrainSale) : Type 0 where
  pub status : AtMostOne Step old.status new.status
  pub farmer_id : new.farmer_id ≡ old.farmer_id
  pub crop_id : new.crop_id ≡ old.crop_id
  pub grain_type : new.grain_type ≡ old.grain_type
  pub grade : new.grade ≡ old.grade
  pub over : is_over old.status ≡ true → new ≡ old

pub Grown-refl : (a : GrainSale) → Grown a a
Grown-refl a = record {
  status = inl refl;
  farmer_id = refl;
  crop_id = refl;
  grain_type = refl;
  grade = refl;
  over = λ h. refl;
}

valid_transition-Step : (a b : GrainSaleStatus) → valid_transition a b ≡ true → Step a b
valid_transition-Step GrainSaleStatus.pending GrainSaleStatus.received h = receive_offer
valid_transition-Step GrainSaleStatus.pending GrainSaleStatus.approved h = approve_offer
valid_transition-Step GrainSaleStatus.pending GrainSaleStatus.rejected h = reject_offer
valid_transition-Step GrainSaleStatus.received GrainSaleStatus.approved h = approve_received
valid_transition-Step GrainSaleStatus.received GrainSaleStatus.rejected h = reject_received
valid_transition-Step GrainSaleStatus.approved GrainSaleStatus.paid h = pay_approved
valid_transition-Step _ _ h = cc

valid_transition-open : (a b : GrainSaleStatus) → valid_transition a b ≡ true → is_over a ≡ false
valid_transition-open GrainSaleStatus.rejected b h = cc
valid_transition-open GrainSaleStatus.paid b h = cc
valid_transition-open _ b h = refl

pub moved-Grown :
    (a b : GrainSale)
    → valid_transition a.status b.status ≡ true
    → b.farmer_id ≡ a.farmer_id
    → b.crop_id ≡ a.crop_id
    → b.grain_type ≡ a.grain_type
    → b.grade ≡ a.grade
    → Grown a b
moved-Grown a b valid farmer crop grain grade =
    let still_open = valid_transition-open a.status b.status valid in
    record {
      status = inr (valid_transition-Step a.status b.status valid);
      farmer_id = farmer;
      crop_id = crop;
      grain_type = grain;
      grade = grade;
      over = λ h. absurd (cc);
    }

pub reviewed-Grown :
    (approve : Bool) (price good bad : Decimal) (sale : GrainSale)
    → valid_transition sale.status (target approve) ≡ true
    → Grown sale (reviewed approve price good bad sale)
reviewed-Grown true price good bad sale valid = moved-Grown sale _ valid refl refl refl refl
reviewed-Grown false price good bad sale valid = moved-Grown sale _ valid refl refl refl refl

after_yield-AtMostOne : (a : GrainSaleStatus) → AtMostOne Step a (after_yield a)
after_yield-AtMostOne GrainSaleStatus.pending = inr receive_offer
after_yield-AtMostOne _ = inl refl

pub reweighed-Grown :
    (price good wastage : Decimal) (sale : GrainSale)
    → is_closed sale.status ≡ false
    → Grown sale (reweighed price good wastage sale)
reweighed-Grown price good wastage sale still_open =
    let going = is_closed-is_over sale.status still_open in
    record {
      status = after_yield-AtMostOne sale.status;
      farmer_id = refl;
      crop_id = refl;
      grain_type = refl;
      grade = refl;
      over = λ h. absurd (cc);
    }

-- the sale that was under a key has grown
unfoldable pub IsGrown : ℕ → GrainSale → Db → Type 0
IsGrown k old d = Follows Grown k old d.grain_sales

module _ (k : ℕ) (old : GrainSale) where
  pub IsGrown-frame :
      (d e : Db)
      → e.grain_sales ≡ d.grain_sales
      → lookup k d.grain_sales ≡ some old
      → IsGrown k old e
  unfolding IsGrown
  IsGrown-frame d e same at_k =
      subst (Follows Grown k old) (sym same)
        (Follows-same Grown k old d.grain_sales (Grown-refl old) at_k)

  -- a change of one sale
  pub IsGrown-change :
      (d e : Db) (i : ℕ) (a b : GrainSale)
      → lookup i d.grain_sales ≡ some a
      → Grown a b
      → e.grain_sales ≡ insert i b d.grain_sales
      → lookup k d.grain_sales ≡ some old
      → IsGrown k old e
  unfolding IsGrown
  IsGrown-change d e i a b row step changed at_k =
      subst (Follows Grown k old) (sym changed)
        (Follows-change Grown k old d.grain_sales i a b row (Grown-refl old) step at_k)

  -- a new sale
  pub IsGrown-new :
      (d e : Db) (i : ℕ) (b : GrainSale)
      → lookup i d.grain_sales ≡ none
      → e.grain_sales ≡ insert i b d.grain_sales
      → lookup k d.grain_sales ≡ some old
      → IsGrown k old e
  unfolding IsGrown
  IsGrown-new d e i b fresh changed at_k =
      subst (Follows Grown k old) (sym changed)
        (Follows-new Grown k old d.grain_sales i b fresh (Grown-refl old) at_k)

-- every sale stays in the table, and has grown
unfoldable pub SalesGrow : Db → Db → Type 0
SalesGrow d e = (k : ℕ) (old : GrainSale) → lookup k d.grain_sales ≡ some old → IsGrown k old e

-- ===== src/Grain.antt =====
-- services/grain_sale_service.py: a grain sale from its offer to its payment.
pub mod Inspection
pub mod Payout
pub mod Paid
pub mod Life
use agri_flow.Prelude.{
  ℕ, String, Bool, true, false, not, ◌&&◌, Option, none, some, [], ◌∷◌, ◌==◌, is_some,
  if◌then◌else◌,
}
use agri_flow.Prelude.Int.{pos, ◌+ℤ◌, ◌-ℤ◌, abs, ltb_ℤ}
use agri_flow.Prelude.Decimal.{Decimal, quantize_product}
use agri_flow.Prelude.Table.{lookup, insert, select}
use agri_flow.Errors.{Error, Result, ok}
use agri_flow.Exec.{pure, raise_if, when, ◌>>=◌, ◌>>◌}
use agri_flow.Exec.Pure.{guard_not, found, scalar_one_or_none}
use agri_flow.Enums.{
  UserRole, is_farmer, GrainGrade, GrainSaleStatus, BookingStatus, TransactionDirection,
  TransactionStatus, TransactionReferenceType, NotificationType,
}
use agri_flow.Models.{User, GrainSale, CropInspection, BookingSlot, Transaction, Db}
use agri_flow.Session.{Action, query, write, add}
use agri_flow.Notify.{notify_user, notify_roles, audit}
use agri_flow.Market.{resolve_price_per_kg}

-- `_VALID_TRANSITIONS`
abbrev pub valid_transition : GrainSaleStatus → GrainSaleStatus → Bool
valid_transition GrainSaleStatus.pending GrainSaleStatus.received = true
valid_transition GrainSaleStatus.pending GrainSaleStatus.approved = true
valid_transition GrainSaleStatus.pending GrainSaleStatus.rejected = true
valid_transition GrainSaleStatus.received GrainSaleStatus.approved = true
valid_transition GrainSaleStatus.received GrainSaleStatus.rejected = true
valid_transition GrainSaleStatus.approved GrainSaleStatus.paid = true
valid_transition _ _ = false

-- the crop of the offer, if one is named, is the farmer's
abbrev pub owns_crop : ℕ → Option ℕ → Db → Bool
owns_crop farmer_id none d = true
owns_crop farmer_id (some c) d = elim (lookup c d.crops) [
  | none ↦ false
  | some crop ↦ crop.farmer_id == farmer_id
]

unfoldable pub create_grain_sale :
    ℕ
    → String
    → GrainGrade
    → Decimal
    → Option ℕ
    → Option Decimal
    → Option String
    → ℕ
    → Action GrainSale
unfolding audit
create_grain_sale farmer_id grain_type grade raw_material_kg crop_id offered notes sale_id =
    let sale : GrainSale = record {
      farmer_id = farmer_id;
      crop_id = crop_id;
      grain_type = grain_type;
      grade = grade;
      raw_material_kg = raw_material_kg;
      wastage_kg = pos 0;
      good_material_kg = pos 0;
      price_per_kg = none;
      offered_price_per_kg = offered;
      total_amount = pos 0;
      notes = notes;
      status = GrainSaleStatus.pending;
    } in
    do
      query (λ d. guard_not (not (owns_crop farmer_id crop_id d)) Error.not_found)
      add sale_id sale (λ d. d.grain_sales) (λ t d. record d { grain_sales = t })
      audit (some farmer_id) "grain_sale.create" (some "grain_sale") (some sale_id)
      pure sale

-- price and amount fixed on the row
abbrev pub priced : Decimal → Decimal → GrainSale → GrainSale
priced price good sale = record sale {
  price_per_kg = some price;
  total_amount = quantize_product price good;
}

abbrev pub target : Bool → GrainSaleStatus
target approve = if approve then GrainSaleStatus.approved else GrainSaleStatus.rejected

abbrev pub set_sale : ℕ → GrainSale → Db → Db
set_sale i sale d = record d { grain_sales = insert i sale d.grain_sales }

abbrev pub reviewed : Bool → Decimal → Decimal → Decimal → GrainSale → GrainSale
reviewed approve price good bad sale =
    let weighed : GrainSale = record sale {
      wastage_kg = bad;
      good_material_kg = good;
      status = target approve;
    } in
    if approve then priced price good weighed else weighed

unfoldable pub review_grain_sale :
    ℕ → ℕ → ℕ → ℕ → Decimal → Decimal → Option String → Bool → ℕ → Action GrainSale
unfolding notify_user audit
review_grain_sale today manager_id sale_id booking_slot_id good bad rejection_reason approve
      inspection_id =
    do
      sale ← query (λ d. found (lookup sale_id d.grain_sales) Error.not_found)
      raise_if (not (valid_transition sale.status (target approve))) Error.invalid_state_transition
      query (λ d. found (lookup booking_slot_id d.bookings) Error.not_found)
      add inspection_id
          (record {
            booking_slot_id = booking_slot_id;
            grain_sale_id = sale_id;
            inspector_id = manager_id;
            good_quantity_kg = good;
            bad_quantity_kg = bad;
            rejection_reason = rejection_reason;
            notes = none;
          })
          (λ d. d.inspections) (λ t d. record d { inspections = t })
      price ← query (λ d. ok (resolve_price_per_kg today sale.grain_type sale.grade d))
      let sale' : GrainSale = reviewed approve price good bad sale
      write (set_sale sale_id sale')
      audit (some manager_id) "grain_sale.review" (some "grain_sale") (some sale_id)
      notify_user sale.farmer_id "Grain sale reviewed"
          (if approve then NotificationType.success else NotificationType.warning) "grain_sale"
          sale_id
      pure sale'

-- The description is prose, and is left out.
abbrev pub sale_credit : ℕ → GrainSale → Option String → Transaction
sale_credit sale_id sale payment_reference = record {
  reference_type = TransactionReferenceType.grain_sale;
  reference_id = some sale_id;
  farmer_id = sale.farmer_id;
  amount = sale.total_amount;
  transaction_id = payment_reference;
  direction = TransactionDirection.credit;
  status = TransactionStatus.completed;
  description = none;
  invoice_number = none;
}

abbrev pub paid : GrainSale → GrainSale
paid sale = record sale { status = GrainSaleStatus.paid }

unfoldable pub pay_grain_sale : ℕ → ℕ → Option String → ℕ → Action GrainSale
unfolding notify_user audit
pay_grain_sale manager_id sale_id payment_reference transaction_id = do
  sale ← query (λ d. found (lookup sale_id d.grain_sales) Error.not_found)
  raise_if (not (valid_transition sale.status GrainSaleStatus.paid)) Error.invalid_state_transition
  write (set_sale sale_id (paid sale))
  add transaction_id (sale_credit sale_id sale payment_reference) (λ d. d.transactions)
      (λ t d. record d { transactions = t })
  notify_user sale.farmer_id "Payment released" NotificationType.success "grain_sale" sale_id
  audit (some manager_id) "grain_sale.pay" (some "grain_sale") (some sale_id)
  pure (paid sale)

abbrev pub is_farmer_row : Option User → Bool
is_farmer_row none = false
is_farmer_row (some u) = is_farmer u.role

-- `abs((good + bad) - whole) > Decimal("0.01")`
abbrev pub differs : Decimal → Decimal → Decimal → Bool
differs good bad whole = ltb_ℤ (pos 1) (abs (good +ℤ bad -ℤ whole))

unfoldable pub procure_grain :
    ℕ → ℕ → ℕ → String → GrainGrade → Decimal → Decimal → Decimal → ℕ → Action GrainSale
unfolding notify_roles audit
procure_grain today manager_id farmer_id grain_type grade raw good wastage sale_id = do
  query (λ d. guard_not (not (is_farmer_row (lookup farmer_id d.users))) Error.not_found)
  raise_if (differs good wastage raw) Error.validation
  price ← query (λ d. ok (resolve_price_per_kg today grain_type grade d))
  let sale : GrainSale = record {
    farmer_id = farmer_id;
    crop_id = none;
    grain_type = grain_type;
    grade = grade;
    raw_material_kg = raw;
    wastage_kg = wastage;
    good_material_kg = good;
    price_per_kg = some price;
    offered_price_per_kg = none;
    total_amount = quantize_product price good;
    notes = none;
    status = GrainSaleStatus.received;
  }
  add sale_id sale (λ d. d.grain_sales) (λ t d. record d { grain_sales = t })
  notify_roles (UserRole.super_admin ∷ []) "Crop procured" NotificationType.info "grain_sale"
      sale_id
  audit (some manager_id) "grain_sale.procure" (some "grain_sale") (some sale_id)
  pure sale

abbrev pub is_delivered : BookingStatus → Bool
is_delivered BookingStatus.delivered = true
is_delivered _ = false

abbrev pub inspections_of : ℕ → Db → Result (Option CropInspection)
inspections_of booking_id d =
    scalar_one_or_none (select (λ i. i.booking_slot_id == booking_id) d.inspections)

abbrev pub received : Decimal → Decimal → Decimal → Decimal → GrainSale → GrainSale
received price whole good bad sale = priced price good (record sale {
  raw_material_kg = whole;
  good_material_kg = good;
  wastage_kg = bad;
  status = GrainSaleStatus.received;
})

unfoldable pub inspect_booking :
    ℕ → ℕ → ℕ → Decimal → Decimal → Option String → Option String → ℕ → Action CropInspection
unfolding notify_user audit
inspect_booking today inspector_id booking_id good bad rejection_reason notes inspection_id = do
  booking ← query (λ d. found (lookup booking_id d.bookings) Error.not_found)
  raise_if (not (is_delivered booking.status)) Error.invalid_state_transition
  raise_if (differs good bad booking.quantity_kg) Error.validation
  existing ← query (inspections_of booking_id)
  raise_if (is_some existing) Error.conflict
  sale_id ← query (λ d. found booking.grain_sale_id Error.conflict)
  sale ← query (λ d. found (lookup sale_id d.grain_sales) Error.not_found)
  raise_if (not (valid_transition sale.status GrainSaleStatus.received))
      Error.invalid_state_transition
  let inspection : CropInspection = record {
    booking_slot_id = booking_id;
    grain_sale_id = sale_id;
    inspector_id = inspector_id;
    good_quantity_kg = good;
    bad_quantity_kg = bad;
    rejection_reason = rejection_reason;
    notes = notes;
  }
  add inspection_id inspection (λ d. d.inspections) (λ t d. record d { inspections = t })
  price ← query (λ d. ok (resolve_price_per_kg today sale.grain_type sale.grade d))
  write (set_sale sale_id (received price booking.quantity_kg good bad sale))
  write (λ d. record d {
    bookings = insert booking_id (record booking { status = BookingStatus.inspected }) d.bookings;
  })
  notify_user sale.farmer_id "Delivery inspected" NotificationType.info "grain_sale" sale_id
  audit (some inspector_id) "grain_sale.inspect" (some "grain_sale") (some sale_id)
  pure inspection

abbrev pub is_closed : GrainSaleStatus → Bool
is_closed GrainSaleStatus.paid = true
is_closed GrainSaleStatus.rejected = true
is_closed _ = false

abbrev pub after_yield : GrainSaleStatus → GrainSaleStatus
after_yield GrainSaleStatus.pending = GrainSaleStatus.received
after_yield s = s

abbrev pub reweighed : Decimal → Decimal → Decimal → GrainSale → GrainSale
reweighed price good wastage sale = priced price good (record sale {
  good_material_kg = good;
  wastage_kg = wastage;
  raw_material_kg = good +ℤ wastage;
  status = after_yield sale.status;
})

unfoldable pub update_yield : ℕ → ℕ → ℕ → Decimal → Decimal → Action GrainSale
unfolding notify_roles audit
update_yield today manager_id sale_id good wastage = do
  sale ← query (λ d. found (lookup sale_id d.grain_sales) Error.not_found)
  raise_if (is_closed sale.status) Error.conflict
  price ← query (λ d. ok (resolve_price_per_kg today sale.grain_type sale.grade d))
  let sale' : GrainSale = reweighed price good wastage sale
  write (set_sale sale_id sale')
  notify_roles (UserRole.super_admin ∷ []) "Procurement yield updated" NotificationType.info
      "grain_sale" sale_id
  audit (some manager_id) "grain_sale.yield_update" (some "grain_sale") (some sale_id)
  pure sale'

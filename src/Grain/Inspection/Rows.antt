-- ===== src/Grain/Inspection/Rows.antt =====
-- What `inspect_booking` of services/grain_sale_service.py makes of the rows, column by column.
use agri_flow.Prelude.{
  ℕ, ◌≡◌, refl, sym, inl, inr, ◌⊎◌, true, false, String, Option, some, arith, Bool-cases, ◌==◌,
  ==_refl, [], ◌∷◌,
}
use agri_flow.Prelude.Int.{pos, ◌+ℤ◌, ◌-ℤ◌, ◌≤ℤ◌, abs, abs-le, int_laws}
use agri_flow.Prelude.Decimal.{Decimal, quantize_product}
use agri_flow.Prelude.Table.{Table, lookup, insert, select}
use agri_flow.Errors.{Error, ok, err, Result}
use agri_flow.Exec.Pure.{scalar_one_or_none-none}
use agri_flow.Enums.{GrainSaleStatus, BookingStatus}
use agri_flow.Models.{GrainSale, BookingSlot, CropInspection, Db}
use agri_flow.Session.{Session}
use agri_flow.Market.{resolve_price_per_kg}
use agri_flow.Market.Newest.{IsPrice, rates_of, resolve_price_per_kg_lem}
use agri_flow.Grain.{valid_transition, differs, is_delivered, inspect_booking}
use agri_flow.Grain.Inspection.{inspect_booking-cases}

pub record Delivered (today inspector_id booking_id : ℕ) (good bad : Decimal)
    (reason notes : Option String) (k : ℕ) (d e : Db) : Type 0 where
  pub sale_id : ℕ
  pub sale : GrainSale
  pub booking : BookingSlot
  pub price : Decimal
  pub booking_row : lookup booking_id d.bookings ≡ some booking
  pub delivered : booking.status ≡ BookingStatus.delivered
  pub not_more : good +ℤ bad ≤ℤ booking.quantity_kg +ℤ pos 1
  pub not_less : booking.quantity_kg ≤ℤ good +ℤ bad +ℤ pos 1
  pub first :
      (i : ℕ) (row : CropInspection)
      → lookup i d.inspections ≡ some row
      → ¬ (row.booking_slot_id ≡ booking_id)
  pub linked : booking.grain_sale_id ≡ some sale_id
  pub sale_row : lookup sale_id d.grain_sales ≡ some sale
  pub offered : sale.status ≡ GrainSaleStatus.pending
  pub current : IsPrice today sale.grain_type sale.grade (rates_of d.market_rates) price
  pub grain_sales :
      e.grain_sales
      ≡ insert sale_id
          (record sale {
            raw_material_kg = booking.quantity_kg;
            good_material_kg = good;
            wastage_kg = bad;
            status = GrainSaleStatus.received;
            price_per_kg = some price;
            total_amount = quantize_product price good;
          })
          d.grain_sales
  pub bookings :
      e.bookings
      ≡ insert booking_id (record booking { status = BookingStatus.inspected }) d.bookings
  pub inspections :
      e.inspections
      ≡ insert k
          (record {
            booking_slot_id = booking_id;
            grain_sale_id = sale_id;
            inspector_id = inspector_id;
            good_quantity_kg = good;
            bad_quantity_kg = bad;
            rejection_reason = reason;
            notes = notes;
          })
          d.inspections
  pub slots : e.slots ≡ d.slots
  pub warehouses : e.warehouses ≡ d.warehouses
  pub inventory : e.inventory ≡ d.inventory
  pub transactions : e.transactions ≡ d.transactions

is_delivered-eq : (a : BookingStatus) → is_delivered a ≡ true → a ≡ BookingStatus.delivered
is_delivered-eq BookingStatus.delivered h = refl
is_delivered-eq _ h = cc

valid_transition-received :
    (a : GrainSaleStatus)
    → valid_transition a GrainSaleStatus.received ≡ true
    → a ≡ GrainSaleStatus.pending
valid_transition-received GrainSaleStatus.pending h = refl
valid_transition-received _ h = cc

within_hundredth : (a b : Decimal) → abs (a -ℤ b) ≤ℤ pos 1 → (a ≤ℤ b +ℤ pos 1) × (b ≤ℤ a +ℤ pos 1)
within_hundredth a b h =
    let l = abs-le (a -ℤ b) 1 h in (grind (int_laws, l.0), grind (int_laws, l.1))

not_differing :
    (good bad whole : Decimal)
    → differs good bad whole ≡ false
    → abs (good +ℤ bad -ℤ whole) ≤ℤ pos 1
not_differing good bad whole h = ground arith

select-none :
    (booking_id i : ℕ) (row : CropInspection) (t : Table CropInspection)
    → select (λ x. x.booking_slot_id == booking_id) t ≡ []
    → lookup i t ≡ some row
    → (row.booking_slot_id == booking_id) ≡ false
select-none booking_id i row [] h e = cc
select-none booking_id i row ((j, x) ∷ t) h e =
    elim (Bool-cases (x.booking_slot_id == booking_id)) [
      | inl mine ↦ absurd (cc (rw mine at h))
      | inr other ↦ elim (Bool-cases (j == i)) [
        | inl here ↦ let same : x ≡ row = cc (rw here at e) in rw (sym same) other
        | inr there ↦ select-none booking_id i row t (rw other at h) (rw there at e)
      ]
    ]

apart : (a b : ℕ) → (a == b) ≡ false → ¬ (a ≡ b)
apart a b h same = let yes_ = ==_refl b in absurd (cc (rw same at h))

module _ (today inspector_id booking_id : ℕ) (good bad : Decimal) (reason notes : Option String)
    (k : ℕ) (s : Session) where
  abbrev outcome : Result CropInspection × Session
  outcome = inspect_booking today inspector_id booking_id good bad reason notes k s

  -- An inspection is refused and leaves every row as it was, or it answers an inspection, and then:
  -- the booking was delivered, the good and the bad weight make its quantity to a hundredth, no
  -- inspection of it was stored, and its linked sale was pending; the sale becomes received with
  -- the two weights and the booking's quantity, at the price of the newest rate of the sale's crop
  -- and grade in effect, and its amount is that price times the good weight alone; the booking
  -- becomes inspected, the inspection is stored, and slots, warehouses, inventory and ledger are as
  -- before.
  pub inspect_booking_lem :
      ((e : Error) × (outcome.0 ≡ err e)) × (outcome.1.db ≡ s.db)
      ⊎ ((i : CropInspection) × (outcome.0 ≡ ok i))
        × Delivered today inspector_id booking_id good bad reason notes k s.db outcome.1.db
  inspect_booking_lem =
      elim (inspect_booking-cases today inspector_id booking_id good bad reason notes k s) [
        | inl raised ↦ inl raised
        | inr (f, made, stored) ↦
            let close =
              within_hundredth (good +ℤ bad) f.booking.quantity_kg
                (not_differing good bad f.booking.quantity_kg f.balanced) in
            inr (
              (_, made),
              record {
                sale_id = f.sale_id;
                sale = f.sale;
                booking = f.booking;
                price = resolve_price_per_kg today f.sale.grain_type f.sale.grade s.db;
                booking_row = f.booking_row;
                delivered = is_delivered-eq f.booking.status f.delivered;
                not_more = close.0;
                not_less = close.1;
                first = λ i row e. apart _ _ (
                    select-none booking_id i row s.db.inspections
                      (scalar_one_or_none-none _ f.first) e);
                linked = f.linked;
                sale_row = f.sale_row;
                offered = valid_transition-received f.sale.status f.valid;
                current = resolve_price_per_kg_lem today f.sale.grain_type f.sale.grade s.db;
                grain_sales = f.grain_sales;
                bookings = f.bookings;
                inspections = stored;
                slots = f.slots;
                warehouses = f.warehouses;
                inventory = f.inventory;
                transactions = f.transactions;
              },
            )
      ]

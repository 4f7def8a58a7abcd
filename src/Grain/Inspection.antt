-- ===== src/Grain/Inspection.antt =====
-- `inspect_booking` of services/grain_sale_service.py, read off the rows.
pub mod Rows
use agri_flow.Prelude.{
  ℕ, ◌≡◌, refl, inl, inr, ◌⊎◌, true, false, String, Option, none, some, Bool-cases, Option-cases,
}
use agri_flow.Prelude.Decimal.{Decimal}
use agri_flow.Prelude.Table.{lookup, insert}
use agri_flow.Errors.{Error, ok, err, Result}
use agri_flow.Exec.{Result-cases}
use agri_flow.Enums.{GrainSaleStatus, BookingStatus}
use agri_flow.Models.{GrainSale, BookingSlot, CropInspection, Db}
use agri_flow.Session.{Session}
use agri_flow.Market.{resolve_price_per_kg}
use agri_flow.Grain.{
  valid_transition, differs, is_delivered, inspections_of, received, inspect_booking,
}

-- The tables that the inspection writes; the messages and the audit log are beside the point.
pub record Inspected (today booking_id : ℕ) (good bad : Decimal) (k : ℕ) (d e : Db) : Type 0 where
  pub sale_id : ℕ
  pub sale : GrainSale
  pub booking : BookingSlot
  pub booking_row : lookup booking_id d.bookings ≡ some booking
  pub delivered : is_delivered booking.status ≡ true
  pub balanced : differs good bad booking.quantity_kg ≡ false
  pub first : inspections_of booking_id d ≡ ok none
  pub linked : booking.grain_sale_id ≡ some sale_id
  pub sale_row : lookup sale_id d.grain_sales ≡ some sale
  pub valid : valid_transition sale.status GrainSaleStatus.received ≡ true
  pub grain_sales :
      e.grain_sales
      ≡ insert sale_id
          (received
            (resolve_price_per_kg today sale.grain_type sale.grade d)
            booking.quantity_kg
            good
            bad
            sale)
          d.grain_sales
  pub bookings :
      e.bookings
      ≡ insert booking_id (record booking { status = BookingStatus.inspected }) d.bookings
  pub fresh : lookup k d.inspections ≡ none
  pub slots : e.slots ≡ d.slots
  pub warehouses : e.warehouses ≡ d.warehouses
  pub inventory : e.inventory ≡ d.inventory
  pub transactions : e.transactions ≡ d.transactions

module _ (today inspector_id booking_id : ℕ) (good bad : Decimal) (reason notes : Option String)
    (k : ℕ) (s : Session) where
  abbrev outcome : Result CropInspection × Session
  outcome = inspect_booking today inspector_id booking_id good bad reason notes k s

  abbrev inspection : ℕ → CropInspection
  inspection sale_id = record {
    booking_slot_id = booking_id;
    grain_sale_id = sale_id;
    inspector_id = inspector_id;
    good_quantity_kg = good;
    bad_quantity_kg = bad;
    rejection_reason = reason;
    notes = notes;
  }

  pub inspect_booking-cases :
      ((e : Error) × (outcome.0 ≡ err e)) × (outcome.1.db ≡ s.db)
      ⊎ ((f : Inspected today booking_id good bad k s.db outcome.1.db) × (outcome.0
            ≡ ok (inspection f.sale_id))
          × (outcome.1.db.inspections ≡ insert k (inspection f.sale_id) s.db.inspections))
  unfolding inspect_booking resolve_price_per_kg
  inspect_booking-cases = elim (Option-cases (lookup booking_id s.db.bookings)) [
    | inl missing ↦ inl (rw missing ((_, refl), refl))
    | inr (b, row) ↦ rw row (elim (Bool-cases (is_delivered b.status)) [
      | inr early ↦ inl (rw early ((_, refl), refl))
      | inl delivered ↦ rw delivered (elim (Bool-cases (differs good bad b.quantity_kg)) [
        | inl off ↦ inl (rw off ((_, refl), refl))
        | inr balanced ↦ rw balanced (elim (Result-cases (inspections_of booking_id s.db)) [
          | inr (e, many) ↦ inl (rw many ((_, refl), refl))
          | inl (some i, again) ↦ inl (rw again ((_, refl), refl))
          | inl (none, first) ↦ rw first (elim (Option-cases b.grain_sale_id) [
            | inl unlinked ↦ inl (rw unlinked ((_, refl), refl))
            | inr (sale_id, linked) ↦
                rw linked (elim (Option-cases (lookup sale_id s.db.grain_sales)) [
                  | inl absent ↦ inl (rw absent ((_, refl), refl))
                  | inr (sale, sale_row) ↦
                      rw sale_row
                        (elim (Bool-cases (valid_transition sale.status GrainSaleStatus.received)) [
                          | inr invalid ↦ inl (rw invalid ((_, refl), refl))
                          | inl valid ↦ rw valid (elim (Option-cases (lookup k s.db.inspections)) [
                            | inr (old, taken) ↦ inl (rw taken ((_, refl), refl))
                            | inl fresh ↦ inr (
                                rw fresh (
                                  record {
                                    fresh = fresh;
                                    sale_id = sale_id;
                                    sale = sale;
                                    booking = b;
                                    booking_row = row;
                                    delivered = delivered;
                                    balanced = balanced;
                                    first = first;
                                    linked = linked;
                                    sale_row = sale_row;
                                    valid = valid;
                                    grain_sales = refl;
                                    bookings = rw linked refl;
                                    slots = refl;
                                    warehouses = refl;
                                    inventory = refl;
                                    transactions = refl;
                                  },
                                  refl,
                                  refl,
                                ))
                          ])
                        ])
                ])
          ])
        ])
      ])
    ])
  ]

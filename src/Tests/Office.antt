-- ===== src/Tests/Office.antt =====
-- The theorems on seeds, sales, prices and the ledger at the test database.
use agri_flow.Prelude.{
  ℕ, ◌≡◌, refl, inl, inr, ◌⊎◌, arith, ◌==◌, Bool-cases, String, true, Option, none, some, List, [],
  ◌∷◌,
}
use agri_flow.Prelude.Int.{◌≤ℤ◌, pos, ◌+ℤ◌}
use agri_flow.Prelude.Decimal.{quantize_product}
use agri_flow.Prelude.Table.{lookup, sum_by}
use agri_flow.Errors.{Error, ok, err}
use agri_flow.Enums.{TransactionStatus, PaymentStatus, GrainGrade, GrainSaleStatus}
use agri_flow.Models.{CropInspection, Db, SeedPurchase, Transaction, GrainSale}
use agri_flow.Session.{Session}
use agri_flow.Purchase.{purchase_seeds, update_purchase_status}
use agri_flow.Purchase.Admit.{Request, admit, unit_price, choose_warehouse, check_open}
use agri_flow.Purchase.Stock.{IsHeld, supply, held_share}
use agri_flow.Purchase.Hold.{purchase_seeds-IsHeld}
use agri_flow.Purchase.Hold.Rows.{Purchased, purchase_seeds_lem}
use agri_flow.Purchase.Review.{IsSettled, update_purchase_status-IsHeld}
use agri_flow.Market.{resolve_price_per_kg}
use agri_flow.Market.Newest.{rates_of, IsPrice, resolve_price_per_kg_lem}
use agri_flow.Grain.{inspect_booking}
use agri_flow.Grain.Payout.{IsPaidOnce}
use agri_flow.Grain.Inspection.Rows.{Delivered, inspect_booking_lem}
use agri_flow.Ledger.{mark_transaction_paid}
use agri_flow.Ledger.Stranded.{pay, mark_transaction_paid_lem}
use agri_flow.Seeds.{SeedUpdate, update_seed}
use agri_flow.Seeds.Held.{update_seed-IsHeld}
use agri_flow.Prelude.Decimal.{Decimal}
use agri_flow.Api.{requests}
use agri_flow.Api.Office.{OfficeCall, serve_office}
use agri_flow.Api.Office.Paid.{office-IsPaidOnce}
use agri_flow.Api.Office.Life.{office-SalesGrow}
use agri_flow.Grain.Life.{SalesGrow}
use agri_flow.Api.Keeps.{Stepwise}
use agri_flow.Api.Office.Shop.{ShopCall, serve_shop, shop-IsHeld}
use agri_flow.Market.{latest, is_for, rate_for, first_per_key, list_current_rates}
use agri_flow.Market.Latest.{In}
use agri_flow.Market.Listed.{shown, OnePriceADay, list_current_rates-resolve_price_per_kg}
use agri_flow.Tests.Data.{base, world, session, rate, entry, purchase, sale, seed, decode}
use agri_flow.Tests.Valid.{base-IsHeld, base-IsPaidOnce}

-- an inspection, an approval, the payment, and the payment once more
abbrev calls : List (ℕ × Option String × OfficeCall)
calls =
    (12, some "manager", OfficeCall.inspect_booking_call 3 (pos 90) (pos 10) none none 22)
    ∷ (12, some "manager", OfficeCall.review_grain_sale_call 4 3 (pos 90) (pos 10) none true 24)
    ∷ (13, some "manager", OfficeCall.pay_grain_sale_call 4 none 25)
    ∷ (13, some "manager", OfficeCall.pay_grain_sale_call 4 none 26)
    ∷ (14, some "manager", OfficeCall.pay_transaction_call 11 none)
    ∷ []

office-IsPaidOnce_example : IsPaidOnce (requests (serve_office decode) calls world).committed
office-IsPaidOnce_example = office-IsPaidOnce decode calls world base-IsPaidOnce

office-SalesGrow_example : Stepwise SalesGrow (serve_office decode) calls world
office-SalesGrow_example = office-SalesGrow decode calls world

abbrev order : Request
order = record {
  seed_id = 5;
  quantity_kg = pos 300;
  warehouse_id = none;
  payment_method = none;
  upi_id = none;
  grade = none;
  pickup_date = none;
}

abbrev bought : SeedPurchase
bought = record {
  farmer_id = 7;
  seed_id = 5;
  warehouse_id = none;
  quantity_kg = pos 300;
  price_per_kg = pos 200;
  total_amount = pos 600;
  grade = none;
  payment_method = none;
  upi_id = none;
  payment_status = PaymentStatus.pending;
  invoice_number = "INV-2";
  pickup_date = none;
}

abbrev settled : SeedPurchase
settled = record purchase { payment_status = PaymentStatus.failed }

update_purchase_status-IsHeld_example :
    IsSettled base (update_purchase_status 8 6 PaymentStatus.failed session).1.db
unfolding update_purchase_status
update_purchase_status-IsHeld_example =
    update_purchase_status-IsHeld 8 6 PaymentStatus.failed session settled base-IsHeld refl

resolve_price_per_kg_lem_example :
    IsPrice 11 "rice" GrainGrade.a
      (rates_of base.market_rates)
      (resolve_price_per_kg 11 "rice" GrainGrade.a base)
resolve_price_per_kg_lem_example = resolve_price_per_kg_lem 11 "rice" GrainGrade.a base

one_price : OnePriceADay "rice" GrainGrade.a 12 base
one_price a b In.here In.here e = refl
one_price a b In.here (In.later In.here) e = absurd (omega (arith, e))
one_price a b (In.later In.here) In.here e = absurd (omega (arith, e))
one_price a b (In.later In.here) (In.later In.here) e = refl
one_price a b (In.later (In.later m)) n e = elim m [ ]
one_price a b m (In.later (In.later n)) e = elim n [ ]

list_current_rates-resolve_price_per_kg_example :
    shown (rate_for (is_for "rice" GrainGrade.a) (list_current_rates 12 base))
    ≡ resolve_price_per_kg 12 "rice" GrainGrade.a base
list_current_rates-resolve_price_per_kg_example =
    list_current_rates-resolve_price_per_kg "rice" GrainGrade.a 12 base one_price

-- a rate that is corrected on its day: the later one is paid, and the earlier one is listed
abbrev corrected : Db
corrected = record base {
  market_rates = (13, rate 9 (pos 300)) ∷ (14, record (rate 9 (pos 320)) { created_at = 10 }) ∷ [];
}

corrected_paid : resolve_price_per_kg 12 "rice" GrainGrade.a corrected ≡ pos 320
unfolding resolve_price_per_kg latest
corrected_paid = refl

corrected_listed : list_current_rates 12 corrected ≡ rate 9 (pos 300) ∷ []
unfolding list_current_rates first_per_key
corrected_listed = refl

inspect_booking_lem_example :
    let done = inspect_booking 12 8 3 (pos 90) (pos 10) none none 22 session in
    ((e : Error) × (done.0 ≡ err e)) × (done.1.db ≡ base)
    ⊎ ((i : CropInspection) × (done.0 ≡ ok i))
      × Delivered 12 8 3 (pos 90) (pos 10) none none 22 base done.1.db
inspect_booking_lem_example = inspect_booking_lem 12 8 3 (pos 90) (pos 10) none none 22 session

abbrev completed_entry : Transaction
completed_entry = record entry { status = TransactionStatus.completed }

mark_transaction_paid_lem_example :
    let after = (mark_transaction_paid 8 11 none session).1.db in
    (lookup 5 after.seeds ≡ some seed)
    × (lookup 6 after.purchases ≡ some (pay purchase))
    × (seed.on_hold_kg ≡ sum_by (held_share 5) after.purchases +ℤ purchase.quantity_kg)
    × ((admin_id : ℕ) (new_status : PaymentStatus) (later : Session)
        → lookup 6 later.db.purchases ≡ some (pay purchase)
        → (update_purchase_status admin_id 6 new_status later).1.db.seeds ≡ later.db.seeds)
unfolding mark_transaction_paid
mark_transaction_paid_lem_example =
    mark_transaction_paid_lem 8 11 none session entry completed_entry 6 purchase seed base-IsHeld
      refl refl refl refl refl refl refl

purchase_seeds-IsHeld_example :
    let after = (purchase_seeds 7 order 31 32 "INV-2" session).1.db in
    IsHeld after × ((i : ℕ) → supply i after ≡ supply i base)
unfolding purchase_seeds admit unit_price choose_warehouse check_open quantize_product
purchase_seeds-IsHeld_example =
    purchase_seeds-IsHeld 7 order 31 32 "INV-2" session bought (omega arith) base-IsHeld refl

purchase_seeds_lem_example :
    Purchased 7 order 31 32 "INV-2" base (purchase_seeds 7 order 31 32 "INV-2" session).1.db bought
unfolding purchase_seeds admit unit_price choose_warehouse check_open quantize_product
purchase_seeds_lem_example = purchase_seeds_lem 7 order 31 32 "INV-2" session bought refl

abbrev approved : GrainSale
approved = record sale { status = GrainSaleStatus.approved; total_amount = pos 450 }

abbrev payable : Session
payable = record session { db = record base { grain_sales = (4, approved) ∷ [] } }

payable-IsPaidOnce : IsPaidOnce payable.db
unfolding ◌+ℤ◌
payable-IsPaidOnce = record {
  sales =
      λ i. elim (Bool-cases (4 == i)) [ inl e ↦ rw e (ground arith) | inr e ↦ rw e (ground arith) ];
}

-- a purchase, the failure of another, and the payment of the first
abbrev orders : List (ℕ × Option String × ShopCall)
orders =
    (12, some "farmer", ShopCall.buy order 31 32 "INV-2")
    ∷ (12, some "manager", ShopCall.review 6 PaymentStatus.failed)
    ∷ (13, some "manager", ShopCall.review 31 PaymentStatus.paid)
    ∷ []

shop-IsHeld_example :
    let after = (requests (serve_shop decode) orders world).committed in
    IsHeld after × ((i : ℕ) → supply i after ≡ supply i base)
shop-IsHeld_example = shop-IsHeld decode orders world base-IsHeld

abbrev restocked : SeedUpdate
restocked = record {
  name = none;
  price_per_kg = some (pos 250);
  price_grade_a = none;
  price_grade_b = none;
  price_grade_c = none;
  max_order_quantity_kg = none;
  stock_kg = some (pos 1200);
  warehouse_id = none;
  is_active = none;
  warehouse_ids = some (1 ∷ 1 ∷ []);
}

restocked-nonneg : (q : Decimal) → restocked.stock_kg ≡ some q → pos 0 ≤ℤ q
restocked-nonneg q e = ground arith

update_seed-IsHeld_example : IsHeld (update_seed 8 5 restocked session).1.db
update_seed-IsHeld_example = update_seed-IsHeld 8 5 restocked session restocked-nonneg base-IsHeld

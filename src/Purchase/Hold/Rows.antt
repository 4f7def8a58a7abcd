-- ===== src/Purchase/Hold/Rows.antt =====
-- What `purchase_seeds` of services/purchase_service.py makes of the rows, column by column.
use agri_flow.Prelude.{ℕ, ◌≡◌, ap, true, refl, String, Option, none, some, arith, ◌∙◌}
use agri_flow.Prelude.Int.{◌+ℤ◌, ◌-ℤ◌, ◌≤ℤ◌}
use agri_flow.Prelude.Decimal.{Decimal, quantize_product}
use agri_flow.Prelude.Table.{lookup, insert}
use agri_flow.Errors.{ok}
use agri_flow.Enums.{
  PaymentStatus, TransactionDirection, TransactionStatus, TransactionReferenceType,
}
use agri_flow.Models.{Seed, SeedPurchase, Db}
use agri_flow.Session.{Session}
use agri_flow.Purchase.Admit.{Request, unit_price}
use agri_flow.Purchase.Admit.Facts.{AtMost, IsOpen}
use agri_flow.Purchase.{purchase_seeds}
use agri_flow.Purchase.Hold.{purchase_seeds-Bought}

pub record Purchased (farmer_id : ℕ) (r : Request) (k t : ℕ) (invoice : String) (before after : Db)
    (p : SeedPurchase) : Type 0 where
  pub seed : Seed
  pub stored : lookup r.seed_id before.seeds ≡ some seed
  pub active : seed.is_active ≡ true
  pub in_limit : AtMost r.quantity_kg seed.max_order_quantity_kg
  pub in_stock : r.quantity_kg ≤ℤ seed.stock_kg
  pub warehouse_open : IsOpen before p.warehouse_id
  pub seeds :
      after.seeds
      ≡ insert r.seed_id
          (record seed {
            stock_kg = seed.stock_kg -ℤ r.quantity_kg;
            on_hold_kg = seed.on_hold_kg +ℤ r.quantity_kg;
          })
          before.seeds
  pub fresh : lookup k before.purchases ≡ none
  pub purchases : after.purchases ≡ insert k p before.purchases
  pub buyer : p.farmer_id ≡ farmer_id
  pub seed_id : p.seed_id ≡ r.seed_id
  pub quantity : p.quantity_kg ≡ r.quantity_kg
  pub status : p.payment_status ≡ PaymentStatus.pending
  pub base_price : r.grade ≡ none → p.price_per_kg ≡ seed.price_per_kg
  pub amount : p.total_amount ≡ quantize_product p.price_per_kg r.quantity_kg
  pub fresh_entry : lookup t before.transactions ≡ none
  pub transactions :
      after.transactions
      ≡ insert t
          (record {
            reference_type = TransactionReferenceType.seed_purchase;
            reference_id = some k;
            farmer_id = farmer_id;
            amount = p.total_amount;
            transaction_id = none;
            direction = TransactionDirection.debit;
            status = TransactionStatus.pending;
            description = none;
            invoice_number = some invoice;
          })
          before.transactions

unit_price-base :
    (seed : Seed) (grade : Option String) (price : Decimal) (g : Option String)
    → unit_price seed grade ≡ ok (price, g)
    → grade ≡ none
    → price ≡ seed.price_per_kg
unfolding unit_price
unit_price-base seed none price g h e = ground arith
unit_price-base seed (some x) price g h e = cc

-- A purchase that goes through is of a stored, active seed, of no more than its limit and its
-- stock, at a warehouse that is open where it has one. The seed's stock is lower by the quantity
-- and its hold higher by it; a purchase is stored under a new key with the farmer, the seed and the
-- quantity, pending, at the seed's base price where no grade was asked for, its amount the price
-- times the quantity; and one debit of that amount is stored in the ledger, pending, with the
-- purchase's key.
pub purchase_seeds_lem :
    (farmer_id : ℕ) (r : Request) (k t : ℕ) (invoice : String) (s : Session) (p : SeedPurchase)
    → (purchase_seeds farmer_id r k t invoice s).0 ≡ ok p
    → Purchased farmer_id r k t invoice s.db (purchase_seeds farmer_id r k t invoice s).1.db p
purchase_seeds_lem farmer_id r k t invoice s p h =
    let b = purchase_seeds-Bought farmer_id r k t invoice s p h in
    let a = b.admitted in
    record {
      seed = b.order.seed;
      stored = a.stored;
      active = a.active;
      in_limit = a.in_limit;
      in_stock = a.in_stock;
      warehouse_open = rw (b.purchase) a.warehouse_open;
      seeds = b.seeds;
      fresh = b.fresh;
      purchases = b.purchases;
      buyer = ap (λ x. x.farmer_id) b.purchase;
      seed_id = ap (λ x. x.seed_id) b.purchase;
      quantity = ap (λ x. x.quantity_kg) b.purchase;
      status = ap (λ x. x.payment_status) b.purchase;
      base_price = λ plain.
          ap (λ x. x.price_per_kg) b.purchase
          ∙ unit_price-base b.order.seed r.grade b.order.unit_price b.order.grade a.price plain;
      amount = rw (b.purchase) refl;
      fresh_entry = b.fresh_entry;
      transactions = rw (b.transactions, b.purchase) refl;
    }

-- ===== src/Tests/Data.antt =====
-- One database for the tests: a warehouse (1) with a slot (2), a delivered booking (3) of a farmer
-- (7) for a sale (4), stock (9), and a seed (5) with a pending purchase (6) and its entry (11). The
-- manager is user 8.
use text.Mathlib.Text.{◌==◌ as str_eq}
use agri_flow.Prelude.{if◌then◌else◌, ℕ, String, Bool, true, false, Option, none, some, [], ◌∷◌}
use agri_flow.Prelude.Int.{pos}
use agri_flow.Prelude.Decimal.{Decimal}
use agri_flow.Enums.{
  UserRole, UserStatus, PaymentStatus, GrainGrade, GrainSaleStatus, BookingStatus,
  TransactionDirection, TransactionStatus, TransactionReferenceType,
}
use agri_flow.Models.{
  User, Warehouse, WarehouseSlot, WarehouseInventory, BookingSlot, Seed, SeedPurchase, Transaction,
  GrainSale, MarketRate, RefreshToken, Db,
}
use agri_flow.Session.{Session, World, open_session}
use agri_flow.Permissions.{Claims}

abbrev user : UserRole → User
user role = record {
  name = "Asha";
  email = none;
  phone = "900";
  password_hash = "h:old";
  role = role;
  status = UserStatus.active;
  first_login = false;
}

abbrev pub farmer : User
farmer = user UserRole.farmer

abbrev pub manager : User
manager = user UserRole.manager

abbrev pub warehouse : Warehouse
warehouse = record {
  name = "North";
  address = "Road 1";
  location = none;
  contact_number = none;
  total_capacity_kg = pos 1000;
  current_load_kg = pos 150;
  manager_id = none;
  is_active = true;
}

abbrev pub slot : WarehouseSlot
slot = record {
  warehouse_id = 1;
  slot_date = 20;
  start_time = 8;
  end_time = 10;
  capacity_kg = pos 500;
  booked_kg = pos 100;
  max_bookings = 5;
  current_booking_count = 1;
  status = "active";
}

abbrev pub booking : BookingSlot
booking = record {
  farmer_id = 7;
  grain_sale_id = some 4;
  warehouse_id = 1;
  warehouse_slot_id = some 2;
  booking_date = 20;
  delivery_address = "Road 1";
  grain_type = "rice";
  quantity_kg = pos 100;
  status = BookingStatus.delivered;
  notes = none;
}

abbrev pub stock : WarehouseInventory
stock = record { warehouse_id = 1; grain_type = "rice"; quantity_kg = pos 50 }

abbrev pub sale : GrainSale
sale = record {
  farmer_id = 7;
  crop_id = none;
  grain_type = "rice";
  grade = GrainGrade.a;
  raw_material_kg = pos 100;
  wastage_kg = pos 0;
  good_material_kg = pos 0;
  price_per_kg = none;
  offered_price_per_kg = none;
  total_amount = pos 0;
  notes = none;
  status = GrainSaleStatus.pending;
}

abbrev pub seed : Seed
seed = record {
  name = "wheat";
  price_per_kg = pos 200;
  price_grade_a = none;
  price_grade_b = none;
  price_grade_c = none;
  max_order_quantity_kg = none;
  stock_kg = pos 900;
  on_hold_kg = pos 40;
  warehouse_id = none;
  is_active = true;
}

abbrev pub purchase : SeedPurchase
purchase = record {
  farmer_id = 7;
  seed_id = 5;
  warehouse_id = none;
  quantity_kg = pos 40;
  price_per_kg = pos 200;
  total_amount = pos 80;
  grade = none;
  payment_method = none;
  upi_id = none;
  payment_status = PaymentStatus.pending;
  invoice_number = "INV-1";
  pickup_date = none;
}

abbrev pub entry : Transaction
entry = record {
  reference_type = TransactionReferenceType.seed_purchase;
  reference_id = some 6;
  farmer_id = 7;
  amount = pos 80;
  transaction_id = none;
  direction = TransactionDirection.debit;
  status = TransactionStatus.pending;
  description = none;
  invoice_number = some "INV-1";
}

abbrev pub rate : ℕ → Decimal → MarketRate
rate day price = record {
  crop_type = "rice";
  grade = GrainGrade.a;
  variety = none;
  price_per_kg = price;
  effective_date = day;
  set_by = none;
  created_at = day;
}

abbrev pub token : Bool → RefreshToken
token revoked = record {
  user_id = 7;
  token_hash = "h:t1";
  expires_at = 30;
  revoked = revoked;
  replaced_by_token_hash = none;
}

abbrev pub base : Db
base = record {
  users = (7, farmer) ∷ (8, manager) ∷ [];
  farmer_profiles = [];
  staff_profiles = [];
  refresh_tokens = (12, token false) ∷ [];
  warehouses = (1, warehouse) ∷ [];
  slots = (2, slot) ∷ [];
  inventory = (9, stock) ∷ [];
  bookings = (3, booking) ∷ [];
  seeds = (5, seed) ∷ [];
  seed_warehouses = [];
  purchases = (6, purchase) ∷ [];
  transactions = (11, entry) ∷ [];
  grain_sales = (4, sale) ∷ [];
  inspections = [];
  crops = [];
  farm_visits = [];
  bank_requests = [];
  market_rates = (13, rate 9 (pos 300)) ∷ (14, rate 12 (pos 400)) ∷ [];
  notifications = [];
  audit_logs = [];
}

abbrev pub world : World
world = record { committed = base; dispatched = []; published = []; invalidated = [] }

abbrev pub session : Session
session = open_session world

-- the tokens "farmer" and "manager"
abbrev pub decode : String → Option Claims
decode t =
    if str_eq t "farmer"
    then some (record { type_ = some "access"; subject = some 7 })
    else if str_eq t "manager"
    then some (record { type_ = some "access"; subject = some 8 })
    else none

-- ===== src/Models.antt =====
-- models/*.py: the rows of the tables, and the database as one record of tables. A primary key
-- is the table's key, so a row does not repeat it. Dates and times are ordinals.
use agri_flow.Prelude.{ℕ, Bool, String, Option, List}
use agri_flow.Prelude.Decimal.{Decimal}
use agri_flow.Prelude.Table.{Table}
use agri_flow.Enums.{
  UserRole, UserStatus, PaymentStatus, GrainGrade, GrainSaleStatus, BookingStatus,
  TransactionDirection, TransactionStatus, TransactionReferenceType, NotificationType, CropStatus,
  CropStage, VisitStatus, BankStatus, BankRequestStatus,
}

pub record User : Type 0 where
  pub name : String
  pub email : Option String
  pub phone : String
  pub password_hash : String
  pub role : UserRole
  pub status : UserStatus
  pub first_login : Bool

-- the photo and the links to documents are left out
pub record FarmerProfile : Type 0 where
  pub user_id : ℕ
  pub address : Option String
  pub farm_name : Option String
  pub village : Option String
  pub district : Option String
  pub state : Option String
  pub acres_of_land : Decimal
  pub crop_address : Option String
  pub bank_name : Option String
  pub account_number : Option String
  pub ifsc_code : Option String
  pub upi_id : Option String
  pub bank_status : BankStatus
  pub soil_type : Option String
  pub irrigation_type : Option String
  pub primary_crop : Option String
  pub secondary_crop : Option String

pub record StaffProfile : Type 0 where
  pub user_id : ℕ
  pub department : Option String
  pub assigned_region : Option String

pub record RefreshToken : Type 0 where
  pub user_id : ℕ
  pub token_hash : String
  pub expires_at : ℕ
  pub revoked : Bool
  pub replaced_by_token_hash : Option String

pub record Warehouse : Type 0 where
  pub name : String
  pub address : String
  pub location : Option String
  pub contact_number : Option String
  pub total_capacity_kg : Decimal
  pub current_load_kg : Decimal
  pub manager_id : Option ℕ
  pub is_active : Bool

pub record WarehouseSlot : Type 0 where
  pub warehouse_id : ℕ
  pub slot_date : ℕ
  pub start_time : ℕ
  pub end_time : ℕ
  pub capacity_kg : Decimal
  pub booked_kg : Decimal
  pub max_bookings : ℕ
  pub current_booking_count : ℕ
  pub status : String

pub record WarehouseInventory : Type 0 where
  pub warehouse_id : ℕ
  pub grain_type : String
  pub quantity_kg : Decimal

pub record BookingSlot : Type 0 where
  pub farmer_id : ℕ
  pub grain_sale_id : Option ℕ
  pub warehouse_id : ℕ
  pub warehouse_slot_id : Option ℕ
  pub booking_date : ℕ
  pub delivery_address : String
  pub grain_type : String
  pub quantity_kg : Decimal
  pub status : BookingStatus
  pub notes : Option String

pub record Seed : Type 0 where
  pub name : String
  pub price_per_kg : Decimal
  pub price_grade_a : Option Decimal
  pub price_grade_b : Option Decimal
  pub price_grade_c : Option Decimal
  pub max_order_quantity_kg : Option Decimal
  pub stock_kg : Decimal
  pub on_hold_kg : Decimal
  pub warehouse_id : Option ℕ
  pub is_active : Bool

pub record SeedWarehouse : Type 0 where
  pub seed_id : ℕ
  pub warehouse_id : ℕ

pub record SeedPurchase : Type 0 where
  pub farmer_id : ℕ
  pub seed_id : ℕ
  pub warehouse_id : Option ℕ
  pub quantity_kg : Decimal
  pub price_per_kg : Decimal
  pub total_amount : Decimal
  pub grade : Option String
  pub payment_method : Option String
  pub upi_id : Option String
  pub payment_status : PaymentStatus
  pub invoice_number : String
  pub pickup_date : Option ℕ

pub record Transaction : Type 0 where
  pub reference_type : TransactionReferenceType
  pub reference_id : Option ℕ
  pub farmer_id : ℕ
  pub amount : Decimal
  pub transaction_id : Option String
  pub direction : TransactionDirection
  pub status : TransactionStatus
  pub description : Option String
  pub invoice_number : Option String

pub record GrainSale : Type 0 where
  pub farmer_id : ℕ
  pub crop_id : Option ℕ
  pub grain_type : String
  pub grade : GrainGrade
  pub raw_material_kg : Decimal
  pub wastage_kg : Decimal
  pub good_material_kg : Decimal
  pub price_per_kg : Option Decimal
  pub offered_price_per_kg : Option Decimal
  pub total_amount : Decimal
  pub notes : Option String
  pub status : GrainSaleStatus

pub record CropInspection : Type 0 where
  pub booking_slot_id : ℕ
  pub grain_sale_id : ℕ
  pub inspector_id : ℕ
  pub good_quantity_kg : Decimal
  pub bad_quantity_kg : Decimal
  pub rejection_reason : Option String
  pub notes : Option String

pub record Crop : Type 0 where
  pub farmer_id : ℕ
  pub crop_type : String
  pub crop_name : Option String
  pub acres : Decimal
  pub sowing_date : ℕ
  pub harvest_date : Option ℕ
  pub status : CropStatus
  pub stage : CropStage
  pub current_month : ℕ
  pub notes : Option String
  pub farmer_comment : Option String
  pub deleted_at : Option ℕ

pub record FarmVisit : Type 0 where
  pub crop_id : ℕ
  pub farmer_id : ℕ
  pub staff_id : Option ℕ
  pub visit_month : ℕ
  pub scheduled_date : Option ℕ
  pub actual_date : Option ℕ
  pub status : VisitStatus
  pub verified_acres : Option Decimal
  pub report : Option String
  pub notes : Option String
  pub image_path : Option String
  pub diagnosis : Option String
  pub recommendation : Option String

pub record BankChangeRequest : Type 0 where
  pub farmer_id : ℕ
  pub bank_name : Option String
  pub account_number : Option String
  pub ifsc_code : Option String
  pub upi_id : Option String
  pub status : BankRequestStatus
  pub admin_notes : Option String
  pub reviewed_at : Option ℕ
  pub reviewed_by : Option ℕ

pub record MarketRate : Type 0 where
  pub crop_type : String
  pub grade : GrainGrade
  pub variety : Option String
  pub price_per_kg : Decimal
  pub effective_date : ℕ
  pub set_by : Option ℕ
  pub created_at : ℕ

-- The message's wording is left out. Rows are only ever added, and a row's key is its place.
pub record Notification : Type 0 where
  pub user_id : ℕ
  pub title : String
  pub type : NotificationType
  pub reference_type : Option String
  pub reference_id : Option ℕ
  pub is_read : Bool

-- the JSON of the old and new values is left out
pub record AuditLog : Type 0 where
  pub user_id : Option ℕ
  pub action : String
  pub entity_type : Option String
  pub entity_id : Option ℕ

pub record Db : Type 0 where
  pub users : Table User
  pub farmer_profiles : Table FarmerProfile
  pub staff_profiles : Table StaffProfile
  pub refresh_tokens : Table RefreshToken
  pub warehouses : Table Warehouse
  pub slots : Table WarehouseSlot
  pub inventory : Table WarehouseInventory
  pub bookings : Table BookingSlot
  pub seeds : Table Seed
  pub seed_warehouses : List SeedWarehouse
  pub purchases : Table SeedPurchase
  pub transactions : Table Transaction
  pub grain_sales : Table GrainSale
  pub inspections : Table CropInspection
  pub crops : Table Crop
  pub farm_visits : Table FarmVisit
  pub bank_requests : Table BankChangeRequest
  pub market_rates : Table MarketRate
  pub notifications : List Notification
  pub audit_logs : List AuditLog

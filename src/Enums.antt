-- ===== src/Enums.antt =====
-- models/enums.py: the status fields, with the tests on them that the services make.
use agri_flow.Prelude.{String, Bool, true, false}

pub data UserRole : Type 0 where
  farmer manager super_admin : UserRole

pub data UserStatus : Type 0 where
  pending active rejected suspended : UserStatus

pub data PaymentStatus : Type 0 where
  pending paid failed : PaymentStatus

pub data GrainGrade : Type 0 where
  a b c : GrainGrade

pub data GrainSaleStatus : Type 0 where
  pending received approved rejected paid : GrainSaleStatus

pub data BookingStatus : Type 0 where
  pending confirmed delivered inspected completed cancelled : BookingStatus

pub data TransactionDirection : Type 0 where
  credit debit : TransactionDirection

pub data TransactionStatus : Type 0 where
  pending completed failed : TransactionStatus

pub data TransactionReferenceType : Type 0 where
  seed_purchase grain_sale billing other : TransactionReferenceType

pub data NotificationType : Type 0 where
  info success warning error : NotificationType

pub data BankStatus : Type 0 where
  pending approved rejected : BankStatus

pub data CropStatus : Type 0 where
  growing harvested failed sold : CropStatus

pub data VisitStatus : Type 0 where
  scheduled pending_review completed cancelled : VisitStatus

pub data BankRequestStatus : Type 0 where
  pending approved rejected : BankRequestStatus

pub data CropStage : Type 0 where
  sowing growing maturity harvest : CropStage

abbrev pub is_farmer : UserRole → Bool
is_farmer UserRole.farmer = true
is_farmer _ = false

abbrev pub same_role : UserRole → UserRole → Bool
same_role UserRole.farmer UserRole.farmer = true
same_role UserRole.manager UserRole.manager = true
same_role UserRole.super_admin UserRole.super_admin = true
same_role _ _ = false

abbrev pub same_grade : GrainGrade → GrainGrade → Bool
same_grade GrainGrade.a GrainGrade.a = true
same_grade GrainGrade.b GrainGrade.b = true
same_grade GrainGrade.c GrainGrade.c = true
same_grade _ _ = false

-- the texts that the columns hold
abbrev pub booking_status_text : BookingStatus → String
booking_status_text BookingStatus.pending = "pending"
booking_status_text BookingStatus.confirmed = "confirmed"
booking_status_text BookingStatus.delivered = "delivered"
booking_status_text BookingStatus.inspected = "inspected"
booking_status_text BookingStatus.completed = "completed"
booking_status_text BookingStatus.cancelled = "cancelled"

abbrev pub payment_status_text : PaymentStatus → String
payment_status_text PaymentStatus.pending = "pending"
payment_status_text PaymentStatus.paid = "paid"
payment_status_text PaymentStatus.failed = "failed"

abbrev pub sale_status_text : GrainSaleStatus → String
sale_status_text GrainSaleStatus.pending = "pending"
sale_status_text GrainSaleStatus.received = "received"
sale_status_text GrainSaleStatus.approved = "approved"
sale_status_text GrainSaleStatus.rejected = "rejected"
sale_status_text GrainSaleStatus.paid = "paid"

abbrev pub crop_status_text : CropStatus → String
crop_status_text CropStatus.growing = "growing"
crop_status_text CropStatus.harvested = "harvested"
crop_status_text CropStatus.failed = "failed"
crop_status_text CropStatus.sold = "sold"

abbrev pub visit_status_text : VisitStatus → String
visit_status_text VisitStatus.scheduled = "scheduled"
visit_status_text VisitStatus.pending_review = "pending_review"
visit_status_text VisitStatus.completed = "completed"
visit_status_text VisitStatus.cancelled = "cancelled"

abbrev pub bank_request_status_text : BankRequestStatus → String
bank_request_status_text BankRequestStatus.pending = "pending"
bank_request_status_text BankRequestStatus.approved = "approved"
bank_request_status_text BankRequestStatus.rejected = "rejected"

-- ===== src/Tests/People.antt =====
-- Accounts, bank details and the rate limiter on the small database.
use agri_flow.Prelude.{
  ℕ, false, ◌&&◌, length, leb, ◌≡◌, refl, arith, String, Bool, true, Option, none, some, List, [],
  ◌∷◌, if◌then◌else◌,
}
use agri_flow.Prelude.Table.{insert, count_by}
use agri_flow.Errors.{Error, ok, err}
use agri_flow.Models.{Notification, FarmerProfile, BankChangeRequest, Db}
use agri_flow.Session.{Session, World, open_session}
use agri_flow.Auth.{new_profile}
use agri_flow.Farmers.{pending_request, BankDetails, new_request, review_bank_change}
use agri_flow.Farmers.Bank.{IsReviewed, one_if, review_bank_change_lem}
use agri_flow.Api.{requests}
use agri_flow.Api.People.{PeopleCall, serve_people}
use agri_flow.Api.People.Reviewed.{people-IsReviewed}
use agri_flow.RateLimit.{Settings, Request, Bucket, Limiter}
use agri_flow.RateLimit.Window.{Arrival}
use agri_flow.Enums.{NotificationType, BankRequestStatus}
use agri_flow.Inbox.{unread, unread_count, mark_all_read}
use agri_flow.Phone.{normalize_phone, national, digits_of, all_digits, mask_account}
use agri_flow.Phone.Normal.{normalize_phone_iff, IsSpelling}
use agri_flow.Tests.Data.{base, world, decode}

abbrev details : BankDetails
details = record { bank_name = "SBI"; account_number = "1029"; ifsc_code = "SBIN1"; upi_id = none }

abbrev profile : FarmerProfile
profile = new_profile 7

abbrev village : Db
village = record base {
  farmer_profiles = (41, profile) ∷ [];
  bank_requests = (42, new_request 7 details) ∷ [];
}

abbrev village_world : World
village_world = record world { committed = village }

review_bank_change_lem_example :
    let done = review_bank_change 50 8 42 true none (open_session village_world) in
    let r : BankChangeRequest = record (new_request 7 details) {
      status = BankRequestStatus.approved;
      admin_notes = none;
      reviewed_at = some 50;
      reviewed_by = some 8;
    } in
    let p : FarmerProfile = record profile {
      bank_name = some "SBI";
      account_number = some "1029";
      ifsc_code = some "SBIN1";
      upi_id = none;
    } in
    (done.0 ≡ ok r)
    × (done.1.db.bank_requests ≡ insert 42 r village.bank_requests)
    × (done.1.db.farmer_profiles
        ≡ (if true then insert 41 p village.farmer_profiles else village.farmer_profiles))
    × ((later other_id : ℕ) (approve' : Bool) (notes' : Option String)
        → (review_bank_change later other_id 42 approve' notes' done.1).0 ≡ err Error.conflict)
review_bank_change_lem_example =
    review_bank_change_lem 50 8 42 true none (open_session village_world) (new_request 7 details) 41
      profile refl refl refl

abbrev calls : List (ℕ × Option String × PeopleCall)
calls =
    (50, some "farmer", PeopleCall.request_own_bank_change_call details 43)
    ∷ (
      51,
      some "manager",
      PeopleCall.create_farmer_call "Ravi" "901" none "secret" none none none 44 45,
    )
    ∷ []

village-IsReviewed : IsReviewed village
unfolding IsReviewed
village-IsReviewed f = ground arith

people-IsReviewed_example :
    IsReviewed (requests (serve_people decode (λ p. p)) calls village_world).committed
people-IsReviewed_example = people-IsReviewed decode (λ p. p) calls village_world village-IsReviewed

abbrev settings : Settings
settings = record {
  is_enabled = true;
  is_production = true;
  global_limit = 1;
  login_limit = 1;
  auth_limit = 1;
  upload_limit = 1;
  admin_limit = 1;
  write_limit = 1;
}

abbrev get_crops : Request
get_crops = record {
  path = "/api/v1/crops";
  method = "GET";
  client = some "10.0.0.1";
  bearer = none;
}

abbrev arrivals : List Arrival
arrivals = (5, 1000, true, get_crops) ∷ (6, 1001, true, get_crops) ∷ []

abbrev limiter : Limiter
limiter = record { counters = λ key n. 0; unavailable_until = 0 }

abbrev bucket : Bucket
bucket = record { key = "global:ip:10.0.0.1"; limit = 1; window = 900 }

abbrev note : ℕ → Bool → Notification
note user_id is_read = record {
  user_id = user_id;
  title = "Slot booked";
  type = NotificationType.info;
  reference_type = none;
  reference_id = none;
  is_read = is_read;
}

abbrev inbox : Session
inbox = open_session (record world {
  committed = record base { notifications = note 7 false ∷ note 9 false ∷ note 7 true ∷ [] };
})

one_unread : unread_count 7 inbox.db ≡ 1
unfolding unread
one_unread = refl

abbrev ascii_digit : ℕ → Bool
ascii_digit c = leb 48 c && leb c 57

abbrev national_number : List ℕ
national_number = b'9' ∷ b'5' ∷ b'0' ∷ b'2' ∷ b'6' ∷ b'6' ∷ b'2' ∷ b'9' ∷ b'2' ∷ b'4' ∷ []

abbrev written : List ℕ
written = b'+' ∷ b'9' ∷ b'1' ∷ b' ' ∷ national_number

normalize_phone_iff_example :
    (normalize_phone ascii_digit written ≡ ok national_number
      → (length national_number ≡ 10)
        × (all_digits ascii_digit national_number ≡ true)
        × IsSpelling national_number (digits_of ascii_digit written))
    × ((length national_number ≡ 10)
          × (all_digits ascii_digit national_number ≡ true)
          × IsSpelling national_number (digits_of ascii_digit written)
        → normalize_phone ascii_digit written ≡ ok national_number)
normalize_phone_iff_example = normalize_phone_iff ascii_digit written national_number

phone_normal : normalize_phone ascii_digit written ≡ ok national_number
unfolding normalize_phone national
phone_normal = refl

phone_too_short : normalize_phone ascii_digit (b'1' ∷ b'2' ∷ []) ≡ err Error.validation
unfolding normalize_phone national
phone_too_short = refl

masked :
    mask_account (b'1' ∷ b'2' ∷ b'3' ∷ b'4' ∷ b'5' ∷ []) ≡ b'*' ∷ b'2' ∷ b'3' ∷ b'4' ∷ b'5' ∷ []
unfolding mask_account
masked = refl

all_read : unread_count 7 (mark_all_read 7 inbox).1.db ≡ 0
unfolding mark_all_read unread
all_read = refl

-- Two requests that overlap, each of which finds none pending before the other inserts its own:
-- both are then pending.
both_clear : pending_request 7 base ≡ ok none
both_clear = refl

both_pending :
    count_by
      (one_if 7)
      (insert 43 (new_request 7 details) (insert 42 (new_request 7 details) base.bank_requests))
    ≡ 2
both_pending = refl

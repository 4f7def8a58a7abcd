-- ===== src/Farmers/Bank.antt =====
-- The requests for a change of bank details (services/farmer_service.py).
use mathlib.Core.Path.{subst}
use agri_flow.Prelude.{
  ℕ, ◌≤◌, ◌≡◌, refl, inl, inr, arith, String, Bool, true, false, Option, none, some, [], ◌∷◌, ◌==◌,
  if◌then◌else◌, Bool-cases, Option-cases, ==_iff,
}
use agri_flow.Prelude.Table.{
  Table, lookup, insert, select, count_by, count_by-insert, count_by-insert_new, lookup-insert_self,
}
use agri_flow.Enums.{BankRequestStatus}
use agri_flow.Errors.{Error, ok, err}
use agri_flow.Exec.{Result-cases}
use agri_flow.Exec.Pure.{scalar_one_or_none-none}
use agri_flow.Models.{FarmerProfile, BankChangeRequest, Db}
use agri_flow.Session.{Session}
use agri_flow.Notify.{notify_user, notify_roles, audit}
use agri_flow.Accounts.{profile_of}
use agri_flow.Farmers.{
  is_pending, is_pending_of, pending_request, BankDetails, new_request, request_bank_change,
  reviewed, review_bank_change,
}

abbrev pub one_if : ℕ → BankChangeRequest → ℕ
one_if farmer_id r = if is_pending_of farmer_id r then 1 else 0

-- no farmer has two pending requests
unfoldable pub IsReviewed : Db → Type 0
IsReviewed d = (farmer_id : ℕ) → count_by (one_if farmer_id) d.bank_requests ≤ 1

count_by-select :
    (farmer_id : ℕ) (t : Table BankChangeRequest)
    → select (is_pending_of farmer_id) t ≡ []
    → count_by (one_if farmer_id) t ≡ 0
count_by-select farmer_id [] h = refl
count_by-select farmer_id ((k, r) ∷ t) h = elim (Bool-cases (is_pending_of farmer_id r)) [
  | inl e ↦ absurd (cc (rw e at h))
  | inr e ↦ let h₁ = rw e at h in rw e (ground (arith, count_by-select farmer_id t h₁))
]

one_if-new :
    (f farmer_id : ℕ) (b : BankDetails)
    → one_if f (new_request farmer_id b) ≡ (if farmer_id == f then 1 else 0)
one_if-new f farmer_id b = elim (Bool-cases (farmer_id == f)) [
  | inl e ↦ rw e refl
  | inr e ↦ rw e refl
]

new_request-count :
    (f farmer_id : ℕ) (b : BankDetails) (k : ℕ) (t : Table BankChangeRequest)
    → lookup k t ≡ none
    → count_by (one_if farmer_id) t ≡ 0
    → count_by (one_if f) t ≤ 1
    → count_by (one_if f) (insert k (new_request farmer_id b) t) ≤ 1
new_request-count f farmer_id b k t fresh empty few =
    rw
      (count_by-insert_new (one_if f) k (new_request farmer_id b) t fresh, one_if-new f farmer_id b)
      (elim (Bool-cases (farmer_id == f)) [
        | inl e ↦
            let same = (==_iff farmer_id f).0 e in
            let none_yet : count_by (one_if f) t ≡ 0 =
              subst (λ i. count_by (one_if i) t ≡ 0) same empty in
            rw e (omega (arith, none_yet))
        | inr e ↦ rw e (omega (arith, few))
      ])

one_if-reviewed :
    (f now reviewer_id : ℕ) (approve : Bool) (notes : Option String) (r : BankChangeRequest)
    → one_if f (reviewed now reviewer_id approve notes r) ≡ 0
one_if-reviewed f now reviewer_id true notes r = elim (Bool-cases (r.farmer_id == f)) [
  | inl e ↦ rw e refl
  | inr e ↦ rw e refl
]
one_if-reviewed f now reviewer_id false notes r = elim (Bool-cases (r.farmer_id == f)) [
  | inl e ↦ rw e refl
  | inr e ↦ rw e refl
]

reviewed-count :
    (f now reviewer_id : ℕ) (approve : Bool) (notes : Option String) (r : BankChangeRequest) (k : ℕ)
    (t : Table BankChangeRequest)
    → lookup k t ≡ some r
    → count_by (one_if f) t ≤ 1
    → count_by (one_if f) (insert k (reviewed now reviewer_id approve notes r) t) ≤ 1
reviewed-count f now reviewer_id approve notes r k t row few = omega (
  arith,
  few,
  count_by-insert (one_if f) k (reviewed now reviewer_id approve notes r) r t row,
  one_if-reviewed f now reviewer_id approve notes r,
)

pub request_bank_change-IsReviewed :
    (farmer_id : ℕ) (b : BankDetails) (request_id : ℕ) (s : Session)
    → IsReviewed s.db
    → IsReviewed (request_bank_change farmer_id b request_id s).1.db
unfolding IsReviewed request_bank_change notify_roles audit
request_bank_change-IsReviewed farmer_id b request_id s inv f =
    elim (Result-cases (pending_request farmer_id s.db)) [
      | inr (x, many) ↦ rw many (inv f)
      | inl (some old, taken) ↦ rw taken (inv f)
      | inl (none, free) ↦ elim (Option-cases (lookup request_id s.db.bank_requests)) [
        | inr (x, used) ↦ rw free (rw used (inv f))
        | inl fresh ↦ rw free (
            rw fresh (
              new_request-count f farmer_id b request_id s.db.bank_requests fresh
                (count_by-select farmer_id s.db.bank_requests (scalar_one_or_none-none _ free))
                (inv f)))
      ]
    ]

pub review_bank_change-IsReviewed :
    (now reviewer_id request_id : ℕ) (approve : Bool) (notes : Option String) (s : Session)
    → IsReviewed s.db
    → IsReviewed (review_bank_change now reviewer_id request_id approve notes s).1.db
unfolding IsReviewed review_bank_change notify_user audit
review_bank_change-IsReviewed now reviewer_id request_id approve notes s inv f =
    elim (Option-cases (lookup request_id s.db.bank_requests)) [
      | inl missing ↦ rw missing (inv f)
      | inr (r, row) ↦ elim (Bool-cases (is_pending r.status)) [
        | inr done ↦ rw (row, done) (inv f)
        | inl waiting ↦
            let kept = λ (b : Bool).
              reviewed-count f now reviewer_id b notes r request_id s.db.bank_requests row
                (inv f) in
            elim (Bool-cases approve) [
              | inr no_ ↦ rw (row, waiting, no_) (kept false)
              | inl yes_ ↦ elim (Result-cases (profile_of r.farmer_id s.db)) [
                | inr (x, many) ↦ rw (row, waiting, yes_, many) (kept true)
                | inl (none, missing) ↦ rw (row, waiting, yes_, missing) (kept true)
                | inl (some (k, p), found) ↦ rw (row, waiting, yes_, found) (kept true)
              ]
            ]
      ]
    ]

-- The review of a pending request for a change of bank details, of a farmer with one profile,
-- succeeds. It sets the request's status to approved or rejected as the reviewer decides, with the
-- notes, the time and the reviewer; it copies the four bank columns of the request to the profile
-- where it approves, and leaves the profiles alone where it does not; and any later review of the
-- request is refused as a conflict.
pub review_bank_change_lem :
    (now reviewer_id request_id : ℕ) (approve : Bool) (notes : Option String) (s : Session)
    (r : BankChangeRequest) (k : ℕ) (p : FarmerProfile)
    → lookup request_id s.db.bank_requests ≡ some r
    → r.status ≡ BankRequestStatus.pending
    → profile_of r.farmer_id s.db ≡ ok (some (k, p))
    → let done = review_bank_change now reviewer_id request_id approve notes s in
      let r' : BankChangeRequest = record r {
        status = if approve then BankRequestStatus.approved else BankRequestStatus.rejected;
        admin_notes = notes;
        reviewed_at = some now;
        reviewed_by = some reviewer_id;
      } in
      let p' : FarmerProfile = record p {
        bank_name = r.bank_name;
        account_number = r.account_number;
        ifsc_code = r.ifsc_code;
        upi_id = r.upi_id;
      } in
      (done.0 ≡ ok r')
      × (done.1.db.bank_requests ≡ insert request_id r' s.db.bank_requests)
      × (done.1.db.farmer_profiles
          ≡ (if approve then insert k p' s.db.farmer_profiles else s.db.farmer_profiles))
      × ((later other_id : ℕ) (approve' : Bool) (notes' : Option String)
          → (review_bank_change later other_id request_id approve' notes' done.1).0
            ≡ err Error.conflict)
unfolding review_bank_change notify_user audit
review_bank_change_lem now reviewer_id request_id true notes s r k p row waiting found =
    rw (row, waiting, found)
      (
        refl,
        refl,
        refl,
        λ later other_id approve' notes'.
            rw
              (lookup-insert_self request_id (reviewed now reviewer_id true notes r)
                s.db.bank_requests)
              refl,
      )
review_bank_change_lem now reviewer_id request_id false notes s r k p row waiting found =
    rw (row, waiting)
      (
        refl,
        refl,
        refl,
        λ later other_id approve' notes'.
            rw
              (lookup-insert_self request_id (reviewed now reviewer_id false notes r)
                s.db.bank_requests)
              refl,
      )

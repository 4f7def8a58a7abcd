-- ===== src/Grain/Payout.antt =====
-- What the ledger is to show for a grain sale: nothing until the sale is paid, and then its pinned
-- amount, in one entry (services/grain_sale_service.py).
use mathlib.Core.Path.{subst}
use agri_flow.Prelude.{
  ℕ, ◌≡◌, inl, inr, Bool, true, false, ◌&&◌, Option, none, some, arith, Bool-cases, ◌==◌, ==_iff,
  is_id, if◌then◌else◌,
}
use agri_flow.Prelude.Int.{pos, int_laws}
use agri_flow.Prelude.Decimal.{Decimal}
use agri_flow.Prelude.Table.{
  Table, lookup, insert, lookup-insert, sum_by, count_by, sum_by-insert_new, count_by-insert_new,
  sum_by-insert, count_by-insert, update_where, sum_by-update_where, count_by-update_where,
}
use agri_flow.Enums.{GrainSaleStatus, TransactionReferenceType, TransactionDirection}
use agri_flow.Models.{GrainSale, Transaction, Db}

abbrev pub is_sale_credit : TransactionReferenceType → TransactionDirection → Bool
is_sale_credit TransactionReferenceType.grain_sale TransactionDirection.credit = true
is_sale_credit _ _ = false

abbrev pub is_credit_of : ℕ → Transaction → Bool
is_credit_of i t = is_sale_credit t.reference_type t.direction && is_id i t.reference_id

abbrev pub credit_share : ℕ → Transaction → Decimal
credit_share i t = if is_credit_of i t then t.amount else pos 0

abbrev pub credit_unit : ℕ → Transaction → ℕ
credit_unit i t = if is_credit_of i t then 1 else 0

abbrev pub is_paid : GrainSaleStatus → Bool
is_paid GrainSaleStatus.paid = true
is_paid _ = false

-- what the ledger ought to show for a sale
abbrev pub due : Option GrainSale → Decimal
due none = pos 0
due (some s) = if is_paid s.status then s.total_amount else pos 0

abbrev pub due_entries : Option GrainSale → ℕ
due_entries none = 0
due_entries (some s) = if is_paid s.status then 1 else 0

abbrev pub FitsSale : Table Transaction → ℕ → Option GrainSale → Type 0
FitsSale t i o = (sum_by (credit_share i) t ≡ due o) × (count_by (credit_unit i) t ≡ due_entries o)

pub record IsPaidOnce (d : Db) : Type 0 where
  pub sales : (i : ℕ) → FitsSale d.transactions i (lookup i d.grain_sales)

pub sale_fits :
    {d : Db} (inv : IsPaidOnce d) (i : ℕ) {o : Option GrainSale}
    → lookup i d.grain_sales ≡ o
    → FitsSale d.transactions i o
sale_fits {d} inv i e = subst (FitsSale d.transactions i) e (inv.sales i)

-- A sale that is not paid is put in the table: a new one, or one that was not paid before.
module _ (d : Db) (k : ℕ) (s' : GrainSale) (o : Option GrainSale) (inv : IsPaidOnce d)
    (row : lookup k d.grain_sales ≡ o) (before : due o ≡ pos 0) (none_before : due_entries o ≡ 0)
    (unpaid : is_paid s'.status ≡ false) where
  pub unpaid_kept : (i : ℕ) → FitsSale d.transactions i (lookup i (insert k s' d.grain_sales))
  unpaid_kept i = rw lookup-insert (elim (Bool-cases (k == i)) [
    | inl here ↦
        let own : lookup i d.grain_sales ≡ o =
          subst (λ j. lookup j d.grain_sales ≡ o) ((==_iff k i).0 here) row in
        let f = sale_fits inv i own in rw (here, unpaid, f.0, f.1) (before, none_before)
    | inr apart ↦ rw apart (inv.sales i)
  ])

  pub IsPaidOnce-unpaid :
      {e : Db}
      → e.transactions ≡ d.transactions
      → e.grain_sales ≡ insert k s' d.grain_sales
      → IsPaidOnce e
  IsPaidOnce-unpaid a b = record { sales = λ i. rw (a, b) (unpaid_kept i) }

-- An entry that is not a credit of a sale changes nothing here.
pub IsPaidOnce-other_entry :
    (d : Db) (k : ℕ) (t : Transaction) {e : Db}
    → IsPaidOnce d
    → lookup k d.transactions ≡ none
    → is_sale_credit t.reference_type t.direction ≡ false
    → e.transactions ≡ insert k t d.transactions
    → e.grain_sales ≡ d.grain_sales
    → IsPaidOnce e
IsPaidOnce-other_entry d k t inv fresh other a b = record {
  sales = λ i.
      let f = inv.sales i in
      rw
        (
          a,
          b,
          sum_by-insert_new (credit_share i) k t d.transactions fresh,
          count_by-insert_new (credit_unit i) k t d.transactions fresh,
          other,
        )
        (grind int_laws, omega (arith, f.1));
}

-- The credit and the status of its sale are written together.
module _ (d : Db) (k l : ℕ) (s s' : GrainSale) (t : Transaction) (inv : IsPaidOnce d)
    (row : lookup k d.grain_sales ≡ some s) (fresh : lookup l d.transactions ≡ none)
    (unpaid : is_paid s.status ≡ false) (now : is_paid s'.status ≡ true)
    (kind : is_sale_credit t.reference_type t.direction ≡ true) (own : t.reference_id ≡ some k)
    (amount : t.amount ≡ s'.total_amount) where
  paid_kept :
      (i : ℕ) → FitsSale (insert l t d.transactions) i (lookup i (insert k s' d.grain_sales))
  paid_kept i =
      rw
        (
          lookup-insert,
          sum_by-insert_new (credit_share i) l t d.transactions fresh,
          count_by-insert_new (credit_unit i) l t d.transactions fresh,
          kind,
          own,
        )
        (elim (Bool-cases (k == i)) [
          | inl here ↦
              let f =
                sale_fits inv i
                  (subst (λ j. lookup j d.grain_sales ≡ some s) ((==_iff k i).0 here) row) in
              rw (here, now, amount, f.0, f.1, unpaid) (grind int_laws, omega arith)
          | inr apart ↦ let f = inv.sales i in rw (apart, f.0, f.1) (grind int_laws, omega arith)
        ])

  pub IsPaidOnce-credit :
      {e : Db}
      → e.transactions ≡ insert l t d.transactions
      → e.grain_sales ≡ insert k s' d.grain_sales
      → IsPaidOnce e
  IsPaidOnce-credit a b = record { sales = λ i. rw (a, b) (paid_kept i) }

-- An entry that changes nothing but its status and its description.
pub IsPaidOnce-same_entry :
    (d : Db) (k : ℕ) (t t' : Transaction) {e : Db}
    → IsPaidOnce d
    → lookup k d.transactions ≡ some t
    → ((i : ℕ) → credit_share i t' ≡ credit_share i t)
    → ((i : ℕ) → credit_unit i t' ≡ credit_unit i t)
    → e.transactions ≡ insert k t' d.transactions
    → e.grain_sales ≡ d.grain_sales
    → IsPaidOnce e
IsPaidOnce-same_entry d k t t' inv row share unit a b = record {
  sales = λ i.
      let f = inv.sales i in
      rw (a, b)
        (
          grind (int_laws, sum_by-insert (credit_share i) k t' t d.transactions row, share i),
          omega (arith, f.1, count_by-insert (credit_unit i) k t' t d.transactions row, unit i),
        );
}

-- Entries that are rewritten together, each keeping what it credits.
pub IsPaidOnce-same_entries :
    (d : Db) (p : Transaction → Bool) (f : Transaction → Transaction) {e : Db}
    → IsPaidOnce d
    → ((i : ℕ) (t : Transaction) → credit_share i (f t) ≡ credit_share i t)
    → ((i : ℕ) (t : Transaction) → credit_unit i (f t) ≡ credit_unit i t)
    → e.transactions ≡ update_where p f d.transactions
    → e.grain_sales ≡ d.grain_sales
    → IsPaidOnce e
IsPaidOnce-same_entries d p f inv share unit a b = record {
  sales = λ i.
      rw
        (
          a,
          b,
          sum_by-update_where (credit_share i) p f (share i) d.transactions,
          count_by-update_where (credit_unit i) p f (unit i) d.transactions,
        )
        (inv.sales i);
}

-- ===== src/Booking/Capacity.antt =====
-- What the counters on slots and warehouses of services/booking_service.py stand for: the bookings
-- that are not cancelled, and for a warehouse the stored grain too. This is computed from the
-- rows, not from the counters.
use agri_flow.Prelude.{
  inl, inr, Bool-cases, ==_iff, ℕ, ◌+◌, ◌≤◌, ◌≡◌, ◌∙◌, ap, Option, none, some, arith, ◌==◌, is_id,
  if◌then◌else◌,
}
use mathlib.Core.Path.{subst}
use agri_flow.Prelude.Int.{pos, ◌+ℤ◌, ◌≤ℤ◌, ◌<ℤ◌, int_laws}
use agri_flow.Prelude.Decimal.{Decimal}
use agri_flow.Prelude.Table.{
  Table, lookup, insert, lookup-insert, sum_by, count_by, AllRows, IsKeyed, sum_by-insert_new,
  count_by-insert_new, sum_by_nonneg, AllRows-map,
}
use agri_flow.Models.{WarehouseSlot, Warehouse, WarehouseInventory, BookingSlot, Db}
use agri_flow.Booking.{is_cancelled}

abbrev pub slot_share : ℕ → BookingSlot → Decimal
slot_share i b =
    if is_cancelled b.status
    then pos 0
    else if is_id i b.warehouse_slot_id
    then b.quantity_kg
    else pos 0

abbrev pub slot_unit : ℕ → BookingSlot → ℕ
slot_unit i b = if is_cancelled b.status then 0 else if is_id i b.warehouse_slot_id then 1 else 0

abbrev pub warehouse_share : ℕ → BookingSlot → Decimal
warehouse_share i b =
    if is_cancelled b.status then pos 0 else if b.warehouse_id == i then b.quantity_kg else pos 0

abbrev pub stock_share : ℕ → WarehouseInventory → Decimal
stock_share i v = if v.warehouse_id == i then v.quantity_kg else pos 0

-- A slot that does not exist has no booking, which is the foreign key of `warehouse_slot_id`.
abbrev pub FitsSlot : Table BookingSlot → ℕ → Option WarehouseSlot → Type 0
FitsSlot bookings i none =
    (sum_by (slot_share i) bookings ≡ pos 0) × (count_by (slot_unit i) bookings ≡ 0)
FitsSlot bookings i (some s) =
    (s.booked_kg ≡ sum_by (slot_share i) bookings)
    × (s.current_booking_count ≡ count_by (slot_unit i) bookings)
    × (s.booked_kg ≤ℤ s.capacity_kg)
    × (s.current_booking_count ≤ s.max_bookings)

abbrev pub FitsWarehouse :
    Table BookingSlot → Table WarehouseInventory → ℕ → Option Warehouse → Type 0
FitsWarehouse bookings inventory i none =
    (sum_by (warehouse_share i) bookings ≡ pos 0) × (sum_by (stock_share i) inventory ≡ pos 0)
FitsWarehouse bookings inventory i (some w) =
    (w.current_load_kg ≡ sum_by (warehouse_share i) bookings +ℤ sum_by (stock_share i) inventory)
    × (w.current_load_kg ≤ℤ w.total_capacity_kg)

abbrev pub IsPositive : BookingSlot → Type 0
IsPositive b = pos 0 <ℤ b.quantity_kg

abbrev pub IsStock : WarehouseInventory → Type 0
IsStock v = pos 0 ≤ℤ v.quantity_kg

pub record IsBooked (d : Db) : Type 0 where
  pub slots : (i : ℕ) → FitsSlot d.bookings i (lookup i d.slots)
  pub warehouses : (i : ℕ) → FitsWarehouse d.bookings d.inventory i (lookup i d.warehouses)
  pub positive : AllRows IsPositive d.bookings
  pub stocked : AllRows IsStock d.inventory
  pub keyed : IsKeyed d.inventory

pub FitsWarehouse-restock :
    (t : Table BookingSlot) (inventory inventory' : Table WarehouseInventory) (i : ℕ)
    (o : Option Warehouse)
    → sum_by (stock_share i) inventory' ≡ sum_by (stock_share i) inventory
    → FitsWarehouse t inventory i o
    → FitsWarehouse t inventory' i o
FitsWarehouse-restock t inventory inventory' i none e f = rw e f
FitsWarehouse-restock t inventory inventory' i (some w) e f = rw e f

module _ {d : Db} (inv : IsBooked d) (i : ℕ) where
  pub slot_fits : {s : WarehouseSlot} → lookup i d.slots ≡ some s → FitsSlot d.bookings i (some s)
  slot_fits e = subst (FitsSlot d.bookings i) e (inv.slots i)

  pub warehouse_fits :
      {w : Warehouse}
      → lookup i d.warehouses ≡ some w
      → FitsWarehouse d.bookings d.inventory i (some w)
  warehouse_fits e = subst (FitsWarehouse d.bookings d.inventory i) e (inv.warehouses i)

  -- A row put in the table needs to fit, and the rest fits as before.
  pub FitsSlot-put :
      (k : ℕ) (s : WarehouseSlot)
      → FitsSlot d.bookings k (some s)
      → FitsSlot d.bookings i (lookup i (insert k s d.slots))
  FitsSlot-put k s f = rw lookup-insert (elim (Bool-cases (k == i)) [
    | inl here ↦ rw here (subst (λ j. FitsSlot d.bookings j (some s)) ((==_iff k i).0 here) f)
    | inr apart ↦ rw apart (inv.slots i)
  ])

  pub FitsWarehouse-put :
      (k : ℕ) (w : Warehouse)
      → FitsWarehouse d.bookings d.inventory k (some w)
      → FitsWarehouse d.bookings d.inventory i (lookup i (insert k w d.warehouses))
  FitsWarehouse-put k w f = rw lookup-insert (elim (Bool-cases (k == i)) [
    | inl here ↦
        rw here
          (subst (λ j. FitsWarehouse d.bookings d.inventory j (some w)) ((==_iff k i).0 here) f)
    | inr apart ↦ rw apart (inv.warehouses i)
  ])

-- A new booking that has no part in slot `i` leaves its sums; one that has adds to them.
module _ (i k : ℕ) (b : BookingSlot) (t : Table BookingSlot) (fresh : lookup k t ≡ none) where
  sum-add : sum_by (slot_share i) (insert k b t) ≡ sum_by (slot_share i) t +ℤ slot_share i b
  sum-add = sum_by-insert_new (slot_share i) k b t fresh

  count-add : count_by (slot_unit i) (insert k b t) ≡ count_by (slot_unit i) t + slot_unit i b
  count-add = count_by-insert_new (slot_unit i) k b t fresh

  pub FitsSlot-add_apart :
      (o : Option WarehouseSlot)
      → slot_share i b ≡ pos 0
      → slot_unit i b ≡ 0
      → FitsSlot t i o
      → FitsSlot (insert k b t) i o
  FitsSlot-add_apart none z u f = rw (sum-add, count-add, z, u) (grind int_laws)
  FitsSlot-add_apart (some s) z u f = rw (sum-add, count-add, z, u) (grind int_laws)

  pub FitsSlot-add_here :
      (s s' : WarehouseSlot)
      → s'.booked_kg ≡ s.booked_kg +ℤ slot_share i b
      → s'.current_booking_count ≡ s.current_booking_count + slot_unit i b
      → s'.booked_kg ≤ℤ s'.capacity_kg
      → s'.current_booking_count ≤ s'.max_bookings
      → FitsSlot t i (some s)
      → FitsSlot (insert k b t) i (some s')
  FitsSlot-add_here s s' e n room free f =
      rw (sum-add, count-add)
        (e ∙ ap (λ x. x +ℤ slot_share i b) f.0, omega (arith, f.1), room, free)

  pub FitsWarehouse-add_apart :
      (inv : Table WarehouseInventory) (o : Option Warehouse)
      → warehouse_share i b ≡ pos 0
      → FitsWarehouse t inv i o
      → FitsWarehouse (insert k b t) inv i o
  FitsWarehouse-add_apart inv none z f =
      rw (sum_by-insert_new (warehouse_share i) k b t fresh, z) (grind int_laws)
  FitsWarehouse-add_apart inv (some w) z f =
      rw (sum_by-insert_new (warehouse_share i) k b t fresh, z) (grind int_laws)

  pub FitsWarehouse-add_here :
      (inv : Table WarehouseInventory) (w w' : Warehouse)
      → w'.current_load_kg ≡ w.current_load_kg +ℤ warehouse_share i b
      → w'.current_load_kg ≤ℤ w'.total_capacity_kg
      → FitsWarehouse t inv i (some w)
      → FitsWarehouse (insert k b t) inv i (some w')
  FitsWarehouse-add_here inv w w' e room f =
      rw (sum_by-insert_new (warehouse_share i) k b t fresh) (grind int_laws)

pub shares_nonneg :
    (i : ℕ) (t : Table BookingSlot) → AllRows IsPositive t → pos 0 ≤ℤ sum_by (slot_share i) t
shares_nonneg i t h =
    sum_by_nonneg (slot_share i) t
      (AllRows-map IsPositive (λ b. pos 0 ≤ℤ slot_share i b) (λ b p. ground arith) t h)

pub warehouse_shares_nonneg :
    (i : ℕ) (t : Table BookingSlot) → AllRows IsPositive t → pos 0 ≤ℤ sum_by (warehouse_share i) t
warehouse_shares_nonneg i t h =
    sum_by_nonneg (warehouse_share i) t
      (AllRows-map IsPositive (λ b. pos 0 ≤ℤ warehouse_share i b) (λ b p. ground arith) t h)

pub stock_nonneg :
    (i : ℕ) (t : Table WarehouseInventory) → AllRows IsStock t → pos 0 ≤ℤ sum_by (stock_share i) t
stock_nonneg i t h =
    sum_by_nonneg (stock_share i) t
      (AllRows-map IsStock (λ v. pos 0 ≤ℤ stock_share i v) (λ v p. ground arith) t h)

-- ===== src/Booking/Change.antt =====
-- The sums of a slot and of a warehouse when one booking's row is replaced.
use agri_flow.Prelude.{ℕ, ◌≡◌, Option, none, some}
use agri_flow.Prelude.Int.{pos, ◌≤ℤ◌, ◌<ℤ◌, max_ℤ-sub, int_laws}
use agri_flow.Prelude.Decimal.{Decimal}
use agri_flow.Prelude.Table.{Table, lookup, insert, sum_by, sum_by-insert, count_by-insert}
use agri_flow.Models.{WarehouseSlot, Warehouse, WarehouseInventory, BookingSlot}
use agri_flow.Booking.{free, unload}
use agri_flow.Booking.Capacity.{
  slot_share, slot_unit, warehouse_share, stock_share, FitsSlot, FitsWarehouse,
}

module _ (i k : ℕ) (b b' : BookingSlot) (t : Table BookingSlot) (row : lookup k t ≡ some b) where
  pub FitsSlot-change_same :
      (o : Option WarehouseSlot)
      → slot_share i b' ≡ slot_share i b
      → slot_unit i b' ≡ slot_unit i b
      → FitsSlot t i o
      → FitsSlot (insert k b' t) i o
  FitsSlot-change_same none e u f = grind (
    int_laws,
    sum_by-insert (slot_share i) k b' b t row,
    count_by-insert (slot_unit i) k b' b t row,
  )
  FitsSlot-change_same (some s) e u f = grind (
    int_laws,
    sum_by-insert (slot_share i) k b' b t row,
    count_by-insert (slot_unit i) k b' b t row,
  )

  pub FitsSlot-free :
      (s : WarehouseSlot) (q : Decimal)
      → slot_share i b ≡ q
      → slot_unit i b ≡ 1
      → slot_share i b' ≡ pos 0
      → slot_unit i b' ≡ 0
      → pos 0 ≤ℤ q
      → pos 0 ≤ℤ sum_by (slot_share i) (insert k b' t)
      → FitsSlot t i (some s)
      → FitsSlot (insert k b' t) i (some (free q s))
  FitsSlot-free s q e u e' u' p n f = grind (
    int_laws,
    sum_by-insert (slot_share i) k b' b t row,
    count_by-insert (slot_unit i) k b' b t row,
    max_ℤ-sub s.booked_kg q,
  )

  pub FitsSlot-missing :
      (q : Decimal)
      → slot_share i b ≡ q
      → slot_share i b' ≡ pos 0
      → pos 0 <ℤ q
      → pos 0 ≤ℤ sum_by (slot_share i) (insert k b' t)
      → FitsSlot t i none
      → ⊥
  FitsSlot-missing q e e' p n f = grind (int_laws, sum_by-insert (slot_share i) k b' b t row)

  module _ (inv : Table WarehouseInventory) where
    pub FitsWarehouse-change_same :
        (o : Option Warehouse)
        → warehouse_share i b' ≡ warehouse_share i b
        → FitsWarehouse t inv i o
        → FitsWarehouse (insert k b' t) inv i o
    FitsWarehouse-change_same none e f =
        grind (int_laws, sum_by-insert (warehouse_share i) k b' b t row)
    FitsWarehouse-change_same (some w) e f =
        grind (int_laws, sum_by-insert (warehouse_share i) k b' b t row)

    pub FitsWarehouse-unload :
        (w : Warehouse) (q : Decimal)
        → warehouse_share i b ≡ q
        → warehouse_share i b' ≡ pos 0
        → pos 0 ≤ℤ q
        → pos 0 ≤ℤ sum_by (warehouse_share i) (insert k b' t)
        → pos 0 ≤ℤ sum_by (stock_share i) inv
        → FitsWarehouse t inv i (some w)
        → FitsWarehouse (insert k b' t) inv i (some (unload q w))
    FitsWarehouse-unload w q e e' p n m f =
        grind
          (int_laws, sum_by-insert (warehouse_share i) k b' b t row, max_ℤ-sub w.current_load_kg q)

    pub FitsWarehouse-missing :
        (q : Decimal)
        → warehouse_share i b ≡ q
        → warehouse_share i b' ≡ pos 0
        → pos 0 <ℤ q
        → pos 0 ≤ℤ sum_by (warehouse_share i) (insert k b' t)
        → FitsWarehouse t inv i none
        → ⊥
    FitsWarehouse-missing q e e' p n f =
        grind (int_laws, sum_by-insert (warehouse_share i) k b' b t row)

-- ===== src/Warehouses/Stock.antt =====
-- `add_inventory` of services/booking_service.py against the counters.
use mathlib.Core.Path.{subst}
use agri_flow.Prelude.{
  ℕ, ◌≡◌, refl, inl, inr, true, String, none, some, [], arith, Bool-cases, if◌then◌else◌, ◌==◌,
  ==_iff, Option-cases,
}
use agri_flow.Prelude.Int.{pos, ◌+ℤ◌, ◌≤ℤ◌, ltb_ℤ, int_laws}
use agri_flow.Prelude.Decimal.{Decimal}
use agri_flow.Prelude.Table.{
  Table, lookup, insert, rows_where, rows_where-holds, lookup-rows_where, sum_by, sum_by-insert_new,
  sum_by-insert, AllRows, IsKeyed, insert-IsKeyed, AllRows-insert, AllRows-lookup, lookup-insert,
}
use agri_flow.Exec.{Result-cases}
use agri_flow.Exec.Pure.{scalar_one_or_none, scalar_one_or_none-some}
use agri_flow.Models.{Warehouse, WarehouseInventory, Db}
use agri_flow.Session.{Session}
use agri_flow.Booking.Capacity.{
  warehouse_fits, stock_share, FitsWarehouse, FitsWarehouse-restock, IsBooked, IsStock,
}
use agri_flow.Warehouses.{is_stock_of, add_inventory}
use agri_flow.Warehouses.Slots.{IsBooked-same_tables}

-- One more row of stock, or more in a row, and the load of its warehouse raised by as much.
module _ (d : Db) (i : ℕ) (w : Warehouse) (q : Decimal) (inv : IsBooked d)
    (row : lookup i d.warehouses ≡ some w)
    (fits : w.current_load_kg +ℤ q ≤ℤ w.total_capacity_kg) where
  abbrev loaded : Warehouse
  loaded = record w { current_load_kg = w.current_load_kg +ℤ q }

  raised :
      (j : ℕ) (inventory : Table WarehouseInventory)
      → sum_by (stock_share j) inventory ≡ sum_by (stock_share j) d.inventory +ℤ q
      → FitsWarehouse d.bookings d.inventory j (some w)
      → FitsWarehouse d.bookings inventory j (some loaded)
  raised j inventory e f = rw e (grind int_laws)

  load_after :
      (inventory : Table WarehouseInventory)
      → ((j : ℕ)
          → sum_by (stock_share j) inventory
            ≡ sum_by (stock_share j) d.inventory +ℤ (if i == j then q else pos 0))
      → (j : ℕ) → FitsWarehouse d.bookings inventory j (lookup j (insert i loaded d.warehouses))
  load_after inventory more j = rw lookup-insert (elim (Bool-cases (i == j)) [
    | inl here ↦ rw here (
        raised j inventory (rw here at (more j)) (
          warehouse_fits inv j
            (subst (λ k. lookup k d.warehouses ≡ some w) ((==_iff i j).0 here) row)))
    | inr apart ↦ rw apart (
        FitsWarehouse-restock d.bookings d.inventory inventory j (lookup j d.warehouses)
          (rw (rw apart at (more j)) (grind int_laws)) (inv.warehouses j))
  ])

  restocked :
      (inventory : Table WarehouseInventory)
      → AllRows IsStock inventory
      → IsKeyed inventory
      → ((j : ℕ)
          → sum_by (stock_share j) inventory
            ≡ sum_by (stock_share j) d.inventory +ℤ (if i == j then q else pos 0))
      → IsBooked (record d { inventory = inventory; warehouses = insert i loaded d.warehouses })
  restocked inventory stocked keyed more = record {
    slots = inv.slots;
    warehouses = load_after inventory more;
    positive = inv.positive;
    stocked = stocked;
    keyed = keyed;
  }

  -- a first delivery of this grain
  stored_new :
      (grain_type : String) (k : ℕ)
      → pos 0 ≤ℤ q
      → lookup k d.inventory ≡ none
      → let v : WarehouseInventory = record {
        warehouse_id = i;
        grain_type = grain_type;
        quantity_kg = q;
      } in
        IsBooked (record d {
          inventory = insert k v d.inventory;
          warehouses = insert i loaded d.warehouses;
        })
  stored_new grain_type k p fresh =
      let v : WarehouseInventory = record {
        warehouse_id = i;
        grain_type = grain_type;
        quantity_kg = q;
      } in
      restocked (insert k v d.inventory) (AllRows-insert IsStock k v d.inventory inv.stocked p)
        (insert-IsKeyed k v d.inventory inv.keyed)
        (λ j. sum_by-insert_new (stock_share j) k v d.inventory fresh)

  -- more of a grain that is there already
  stored_more :
      (k : ℕ) (v : WarehouseInventory)
      → pos 0 ≤ℤ q
      → v.warehouse_id ≡ i
      → lookup k d.inventory ≡ some v
      → let v' : WarehouseInventory = record v { quantity_kg = v.quantity_kg +ℤ q } in
        IsBooked (record d {
          inventory = insert k v' d.inventory;
          warehouses = insert i loaded d.warehouses;
        })
  stored_more k v p own found =
      let v' : WarehouseInventory = record v { quantity_kg = v.quantity_kg +ℤ q } in
      let old = AllRows-lookup IsStock k v d.inventory inv.stocked found in
      restocked (insert k v' d.inventory)
        (AllRows-insert IsStock k v' d.inventory inv.stocked (omega (int_laws, old)))
        (insert-IsKeyed k v' d.inventory inv.keyed)
        (λ j. grind (int_laws, sum_by-insert (stock_share j) k v' v d.inventory found))

-- the row that the query finds is a row of this warehouse
is_stock_of-own :
    (i : ℕ) (grain_type : String) (v : WarehouseInventory)
    → is_stock_of i grain_type v ≡ true
    → v.warehouse_id ≡ i
is_stock_of-own i grain_type v h = ground arith

-- A delivery into stock of a quantity that is not negative, taken in or refused, leaves the
-- counters of every slot and warehouse the sums of what is booked and stored there, and within
-- their capacity.
pub add_inventory-IsBooked :
    (actor_id i : ℕ) (grain_type : String) (q : Decimal) (k : ℕ) (s : Session)
    → pos 0 ≤ℤ q
    → IsBooked s.db
    → IsBooked (add_inventory actor_id i grain_type q k s).1.db
unfolding add_inventory
add_inventory-IsBooked actor_id i grain_type q k s p inv =
    elim (Option-cases (lookup i s.db.warehouses)) [
      | inl missing ↦ rw missing inv
      | inr (w, row) ↦
          rw row (elim (Bool-cases (ltb_ℤ w.total_capacity_kg (w.current_load_kg +ℤ q))) [
            | inl full ↦ rw full inv
            | inr room ↦
                let fits : w.current_load_kg +ℤ q ≤ℤ w.total_capacity_kg = ground arith in
                rw room
                  (elim (Result-cases
                    (scalar_one_or_none (rows_where (is_stock_of i grain_type) s.db.inventory))) [
                      | inr (e, several) ↦ rw several inv
                      | inl (none, absent) ↦
                          rw absent (elim (Option-cases (lookup k s.db.inventory)) [
                            | inr (old, taken) ↦ rw taken inv
                            | inl fresh ↦ rw fresh (
                                IsBooked-same_tables _ _ refl refl refl refl
                                  (stored_new s.db i w q inv row fits grain_type k p fresh))
                          ])
                      | inl (some (j, v), present) ↦ rw present (
                          IsBooked-same_tables _ _ refl refl refl refl (
                            stored_more s.db i w q inv row fits j v p
                              (is_stock_of-own i grain_type v (
                                rows_where-holds (is_stock_of i grain_type) j v [] s.db.inventory
                                  (scalar_one_or_none-some _ _ present)))
                              (lookup-rows_where (is_stock_of i grain_type) j v [] s.db.inventory
                                inv.keyed (scalar_one_or_none-some _ _ present))))
                    ])
          ])
    ]

-- ===== src/Warehouses/Loads.antt =====
-- The administration of warehouses (services/booking_service.py) against the counters.
use mathlib.Core.Path.{subst}
use agri_flow.Prelude.{
  ℕ, ◌≡◌, refl, inl, inr, false, String, Option, some, arith, ltb, Bool-cases, Option-cases, length,
}
use agri_flow.Prelude.Int.{pos, ◌≤ℤ◌, ltb_ℤ, int_laws}
use agri_flow.Prelude.Decimal.{Decimal}
use agri_flow.Prelude.Table.{lookup, insert}
use agri_flow.Errors.{ok}
use agri_flow.Exec.{Result-cases}
use agri_flow.Models.{Warehouse, Db}
use agri_flow.Session.{Session}
use agri_flow.Booking.Capacity.{warehouse_fits, FitsWarehouse, FitsWarehouse-put, IsBooked}
use agri_flow.Warehouses.{
  active_warehouse, is_known_user, new_warehouse, create_warehouse, WarehouseUpdate, shrinks_below,
  updated_warehouse, update_warehouse, active_bookings, stored_kg, delete_warehouse,
}
use agri_flow.Warehouses.Slots.{IsBooked-same_tables, not_below}

warehouses_changed :
    (d : Db) (k : ℕ) (w : Warehouse)
    → IsBooked d
    → FitsWarehouse d.bookings d.inventory k (some w)
    → IsBooked (record d { warehouses = insert k w d.warehouses })
warehouses_changed d k w inv f = record {
  slots = inv.slots;
  warehouses = λ i. FitsWarehouse-put inv i k w f;
  positive = inv.positive;
  stocked = inv.stocked;
  keyed = inv.keyed;
}

-- An active warehouse is a row of the table.
pub active_warehouse-ok :
    (k : ℕ) (d : Db) (w : Warehouse) → active_warehouse k d ≡ ok w → lookup k d.warehouses ≡ some w
active_warehouse-ok k d w h = ground arith

pub create_warehouse-IsBooked :
    (actor_id : ℕ) (name address : String) (location contact_number : Option String)
    (total_capacity_kg : Decimal) (manager_id : Option ℕ) (k : ℕ) (s : Session)
    → pos 0 ≤ℤ total_capacity_kg
    → IsBooked s.db
    → IsBooked
        (create_warehouse actor_id name address location contact_number total_capacity_kg manager_id
          k s).1.db
unfolding create_warehouse
create_warehouse-IsBooked actor_id name address location contact_number total_capacity_kg manager_id
      k s p inv =
    elim (Bool-cases (is_known_user manager_id s.db)) [
      | inr unknown ↦ rw unknown inv
      | inl known ↦ rw known (elim (Option-cases (lookup k s.db.warehouses)) [
        | inr (old, taken) ↦ rw taken inv
        | inl fresh ↦
            let none_yet =
              subst (FitsWarehouse s.db.bookings s.db.inventory k) fresh (inv.warehouses k) in
            rw fresh (
              IsBooked-same_tables _ _ refl refl refl refl (
                warehouses_changed s.db k
                  (new_warehouse name address location contact_number total_capacity_kg manager_id)
                  inv (rw (none_yet.0, none_yet.1) (grind int_laws), p)))
      ])
    ]

-- An update of a warehouse, made or refused, leaves the counters of every slot and warehouse the
-- sums of what is booked and stored there, and within their capacity.
pub update_warehouse-IsBooked :
    (actor_id k : ℕ) (f : WarehouseUpdate) (s : Session)
    → IsBooked s.db
    → IsBooked (update_warehouse actor_id k f s).1.db
unfolding update_warehouse
update_warehouse-IsBooked actor_id k f s inv = elim (Result-cases (active_warehouse k s.db)) [
  | inr (e, missing) ↦ rw missing inv
  | inl (w, row) ↦
      let fits = warehouse_fits inv k (active_warehouse-ok k s.db w row) in
      rw row (elim (Bool-cases (shrinks_below f.total_capacity_kg w.current_load_kg)) [
        | inl short ↦ rw short inv
        | inr enough ↦ rw enough (elim (Bool-cases (is_known_user f.manager_id s.db)) [
          | inr unknown ↦ rw unknown inv
          | inl known ↦ rw known (
              IsBooked-same_tables _ _ refl refl refl refl (
                warehouses_changed s.db k (updated_warehouse f w) inv (
                  fits.0,
                  not_below f.total_capacity_kg w.current_load_kg w.total_capacity_kg enough fits.1,
                )))
        ])
      ])
]

-- A deletion of a warehouse, made or refused, leaves the counters of every slot and warehouse the
-- sums of what is booked and stored there.
pub delete_warehouse-IsBooked :
    (actor_id k : ℕ) (s : Session) → IsBooked s.db → IsBooked (delete_warehouse actor_id k s).1.db
unfolding delete_warehouse
delete_warehouse-IsBooked actor_id k s inv = elim (Result-cases (active_warehouse k s.db)) [
  | inr (e, missing) ↦ rw missing inv
  | inl (w, row) ↦ rw row (elim (Bool-cases (ltb 0 (length (active_bookings k s.db)))) [
    | inl busy ↦ rw busy inv
    | inr idle ↦ rw idle (elim (Bool-cases (ltb_ℤ (pos 0) (stored_kg k s.db))) [
      | inl stocked ↦ rw stocked inv
      | inr empty ↦ rw empty (
          IsBooked-same_tables _ _ refl refl refl refl (
            warehouses_changed s.db k (record w { is_active = false }) inv
              (warehouse_fits inv k (active_warehouse-ok k s.db w row))))
    ])
  ])
]

-- ===== src/Tests/Valid.antt =====
-- The test database satisfies the invariants.
use agri_flow.Prelude.{refl, inl, inr, arith, ◌==◌, Bool-cases}
use agri_flow.Prelude.Int.{◌+ℤ◌}
use agri_flow.Booking.Capacity.{IsBooked}
use agri_flow.Booking.Single.{IsSingle}
use agri_flow.Purchase.Stock.{IsHeld}
use agri_flow.Grain.Payout.{IsPaidOnce}
use agri_flow.Tests.Data.{base}

pub base-IsBooked : IsBooked base
unfolding ◌+ℤ◌
base-IsBooked = record {
  slots =
      λ i. elim (Bool-cases (2 == i)) [ inl e ↦ rw e (ground arith) | inr e ↦ rw e (ground arith) ];
  warehouses =
      λ i. elim (Bool-cases (1 == i)) [ inl e ↦ rw e (ground arith) | inr e ↦ rw e (ground arith) ];
  positive = ground arith;
  stocked = ground arith;
  keyed = (refl, tt);
}

pub base-IsSingle : IsSingle base
base-IsSingle = record { once = λ f i. ground arith }

pub base-IsHeld : IsHeld base
unfolding ◌+ℤ◌
base-IsHeld = record {
  seeds =
      λ i. elim (Bool-cases (5 == i)) [ inl e ↦ rw e (ground arith) | inr e ↦ rw e (ground arith) ];
  amounts = ground arith;
}

pub base-IsPaidOnce : IsPaidOnce base
unfolding ◌+ℤ◌
base-IsPaidOnce = record {
  sales =
      λ i. elim (Bool-cases (4 == i)) [ inl e ↦ rw e (ground arith) | inr e ↦ rw e (ground arith) ];
}

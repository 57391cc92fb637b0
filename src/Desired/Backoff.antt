-- ===== src/Desired/Backoff.antt =====
-- How soon a failed pass is tried again.
use akastr_agent.Base.{ℕ, zero, suc, ◌*◌, ◌≤◌, min, ◌≡◌, refl, ap, true, false, arith}
use akastr_agent.Desired.{next_delay}

-- The backoff after a number of failed passes in a row.
pub failures : ℕ → ℕ → ℕ → ℕ
failures retry recheck zero = 0
failures retry recheck (suc n) = (next_delay retry recheck true (failures retry recheck n)).1

-- The doubled delays without the bound.
pub doubled : ℕ → ℕ → ℕ
doubled retry zero = retry
doubled retry (suc n) = 2 * doubled retry n

doubled_ge : (retry n : ℕ) → retry ≤ doubled retry n
unfolding doubled
doubled_ge retry zero = omega arith
doubled_ge retry (suc n) = omega (arith, doubled_ge retry n)

failures-doubled :
    (retry recheck n : ℕ)
    → retry ≤ recheck
    → failures retry recheck (suc n) ≡ min (doubled retry n) recheck
unfolding failures doubled next_delay
failures-doubled retry recheck zero h = omega (arith, h)
failures-doubled retry recheck (suc n) h =
    omega (arith, h, failures-doubled retry recheck n h, doubled_ge retry n)

-- After n + 1 failed passes in a row the next is made after the first retry's delay, doubled n times,
-- or after the recheck's if that is sooner; after a pass that succeeds, after the recheck's.
pub failures-next_delay :
    (retry recheck n : ℕ)
    → retry ≤ recheck
    → (next_delay retry recheck true (failures retry recheck n)
        ≡ (min (doubled retry n) recheck, min (doubled retry n) recheck))
      × (next_delay retry recheck false (failures retry recheck n) ≡ (recheck, 0))
unfolding failures next_delay
failures-next_delay retry recheck n h =
    (ap (λ d. (d, d)) (failures-doubled retry recheck n h), refl)

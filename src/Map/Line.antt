-- ===== src/Map/Line.antt =====
-- The error term of the lines that map.c follows (update_sensor_distance, get_ratio): where it sends
-- the line sideways.
use native.Mathlib.Nat.{div-eq_of_lt-le}
use ct_bot.Base.{ℕ, suc, ◌+◌, ◌-◌, ◌*◌, ◌/◌, ◌%◌, ◌≤◌, ◌<◌, ◌≡◌, sym, arith}

-- The number of steps sideways before step `i` of a line that goes `short` sideways on `long` steps.
unfoldable pub slope : ℕ → ℕ → ℕ → ℕ
slope long short i = (long / 2 + i * short) / long

-- The place after some steps of one axis.
abbrev pub after : ℕ → ℕ → ℕ → ℕ
after a step n = (a + n * step) % 65536

pub after-suc : (a step n : ℕ) → (after a step n + step) % 65536 ≡ after a step (suc n)
after-suc a step n = omega arith

-- Before step `i` the error term is `lh`, after `k` steps sideways.
pub record IsAt (long short i lh k : ℕ) : Type 0 where
  pub below : lh < long
  pub sum : lh + long * k ≡ long / 2 + i * short

module _ {long short : ℕ} where
  pub start-IsAt : 0 < long → IsAt long short 0 (long / 2) 0
  start-IsAt h = record { below = omega arith; sum = omega arith }

  module _ {i lh k : ℕ} (a : IsAt long short i lh k) where
    pub IsAt-slope : k ≡ slope long short i
    unfolding slope
    IsAt-slope = sym (div-eq_of_lt-le long (omega (arith, a.sum)) (omega (arith, a.sum, a.below)))

    pub straight : lh + short < long → IsAt long short (suc i) (lh + short) k
    straight h = record { below = h; sum = omega (arith, a.sum) }

    pub sideways :
        short ≤ long → long ≤ lh + short → IsAt long short (suc i) (lh + short - long) (suc k)
    sideways s h = record { below = omega (arith, a.below); sum = omega (arith, a.sum) }

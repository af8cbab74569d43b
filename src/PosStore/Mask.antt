-- ===== src/PosStore/Mask.antt =====
-- `& mask` where mask + 1 is a power of two of at most POS_STORE_SIZE: a step round the ring.
use ct_bot.Base.{
  ℕ, ◌+◌, ◌-◌, ◌^◌, ◌≤◌, ◌<◌, ◌≡◌, refl, ap, Bool, true, ◌||◌, arith, ltb, leb, ◌==◌, bit_and, wrap,
  table, table-entry,
}

pub record IsPower (mask : ℕ) : Type 0 where
  pub order : ℕ
  pub order_in : order < 7
  pub size : mask + 1 ≡ 2 ^ order

up_test : ℕ → ℕ → Bool
up_test k i = ltb (2 ^ k) i || bit_and i (2 ^ k - 1) == wrap (2 ^ k) i

down_test : ℕ → ℕ → Bool
down_test k d = d == 0 || ltb (2 ^ k) d || bit_and (256 - d) (2 ^ k - 1) == 2 ^ k - d

up_table : table (λ k. table (up_test k) 65) 7 ≡ true
unfolding table up_test
up_table = refl

down_table : table (λ k. table (down_test k) 65) 7 ≡ true
unfolding table down_test
down_table = refl

power_table : table (λ k. leb (2 ^ k) 64) 7 ≡ true
unfolding table
power_table = refl

-- An instance of a table over two ranges.
table_at :
    (test : ℕ → ℕ → Bool) (k i : ℕ)
    → table (λ k. table (test k) 65) 7 ≡ true
    → k < 7
    → i < 65
    → test k i ≡ true
table_at test k i t hk hi = table-entry (test k) i (table-entry (λ k. table (test k) 65) k t hk) hi

pub power-le : {mask : ℕ} → IsPower mask → mask ≤ 63
power-le {mask} p =
    ground (arith, p.size, table-entry (λ k. leb (2 ^ k) 64) p.order power_table p.order_in)

pub bit_and_up :
    {mask : ℕ} (i : ℕ) → IsPower mask → i ≤ mask + 1 → bit_and i mask ≡ wrap (mask + 1) i
unfolding up_test
bit_and_up {mask} i p h =
    let e : mask ≡ 2 ^ p.order - 1 = omega (arith, p.size) in
    let t = table_at up_test p.order i up_table p.order_in (omega (arith, power-le p)) in
    ground (arith, p.size, e, t, ap (bit_and i) e)

pub bit_and_down :
    {mask : ℕ} (d : ℕ) → IsPower mask → 0 < d → d ≤ mask + 1 → bit_and (256 - d) mask ≡ mask + 1 - d
unfolding down_test
bit_and_down {mask} d p h k =
    let e : mask ≡ 2 ^ p.order - 1 = omega (arith, p.size) in
    let t = table_at down_test p.order d down_table p.order_in (omega (arith, power-le p)) in
    ground (arith, p.size, e, t, ap (bit_and (256 - d)) e)

-- ===== src/Map/Mean.antt =====
-- The mean value of get_average_fields of map.c lies between the bounds of the fields.
use native.Mathlib.Nat.{div-le_of_le-mul, le-div_iff_mul-le, add-mul-div_left, mul-le-mul_right}
use ct_bot.Base.{ℕ, subst, sym, ◌+◌, ◌-◌, ◌*◌, ◌/◌, ◌%◌, ◌≤◌, ◌<◌, ◌≡◌, arith, dec_lt}
use ct_bot.Map.Update.{biased}
use ct_bot.Map.Average.{Average, mean, with_field}

-- The sum of `n` signed bytes from `lo` to `hi`, all on a scale from 0.
pub record IsBetween (lo hi : ℕ) (a : Average) : Type 0 where
  pub total : ℕ
  pub low : lo * a.count ≤ total
  pub high : total ≤ hi * a.count
  pub is_sum : a.avg ≡ (total + 4294967296 - 128 * a.count) % 4294967296

pub with_field-IsBetween :
    (lo hi field : ℕ) (a : Average)
    → field < 256
    → lo ≤ biased field
    → biased field ≤ hi
    → hi < 256
    → a.count < 32767
    → IsBetween lo hi a
    → IsBetween lo hi (with_field field a)
with_field-IsBetween lo hi field a f l h b c w =
    let k : (a.count + 1) % 65536 ≡ a.count + 1 = omega (arith, c) in
    record {
      total = w.total + biased field;
      low = subst (λ n. lo * n ≤ w.total + biased field) (sym k) (omega (arith, w.low, l));
      high = subst (λ n. w.total + biased field ≤ hi * n) (sym k) (omega (arith, w.high, b));
      is_sum = ground (arith, c, f, w.is_sum);
    }

-- Quotients whose dividends differ by a multiple of the divisor.
quotient_le : (x z y c : ℕ) → 0 < c → x + c * z ≤ c * y → x / c + z ≤ y
quotient_le x z y c p h = subst (λ q. q ≤ y) (add-mul-div_left x z p) (div-le_of_le-mul c h)

le_quotient : (x z y c : ℕ) → 0 < c → y * c ≤ x + c * z → y ≤ x / c + z
le_quotient x z y c p h = subst (λ q. y ≤ q) (add-mul-div_left x z p) ((le-div_iff_mul-le p).1 h)

-- The two branches of the division, over the sum on a scale from 0.
mean_positive :
    (c t avg lo hi : ℕ)
    → 0 < c
    → c < 32768
    → lo * c ≤ t
    → t ≤ hi * c
    → hi < 256
    → avg + c * 128 ≡ t
    → (lo ≤ biased (avg / c % 256)) × (biased (avg / c % 256) ≤ hi)
mean_positive c t avg lo hi p q l h b e =
    let low : lo ≤ avg / c + 128 = le_quotient avg 128 lo c p (omega (arith, l, e)) in
    let high : avg / c + 128 ≤ hi = quotient_le avg 128 hi c p (omega (arith, h, e)) in
    (omega (arith, low, high, b), omega (arith, low, high, b))

mean_negative :
    (c t n lo hi : ℕ)
    → 0 < c
    → lo * c ≤ t
    → t ≤ hi * c
    → hi < 256
    → n + t ≡ c * 128
    → (lo ≤ biased ((256 - n / c % 256) % 256)) × (biased ((256 - n / c % 256) % 256) ≤ hi)
mean_negative c t n lo hi p l h b e =
    let low : n / c + lo ≤ 128 = quotient_le n lo 128 c p (omega (arith, l, e)) in
    let high : 128 ≤ n / c + hi = le_quotient n hi 128 c p (omega (arith, h, e)) in
    (omega (arith, low, high, b), omega (arith, low, high, b))

pub mean-between :
    (lo hi : ℕ) (a : Average)
    → hi < 256
    → 0 < a.count
    → a.count < 32768
    → IsBetween lo hi a
    → (lo ≤ biased (mean a)) × (biased (mean a) ≤ hi)
unfolding mean
mean-between lo hi a h p c w =
    let few : hi * a.count ≤ 256 * a.count = mul-le-mul_right a.count (omega (arith, h)) in
    elim (dec_lt w.total (128 * a.count)) [
      | yes n ↦
          let e : mean a ≡ (256 - (4294967296 - a.avg) / a.count % 256) % 256 =
            ground (arith, p, c, n, few, w.is_sum, w.high) in
          subst (λ v. (lo ≤ biased v) × (biased v ≤ hi)) (sym e)
            (mean_negative a.count w.total (4294967296 - a.avg) lo hi p w.low w.high h
              (omega (arith, c, n, few, w.is_sum, w.high)))
      | no n ↦
          let e : mean a ≡ a.avg / a.count % 256 = ground (arith, p, c, n, few, w.is_sum, w.high) in
          subst (λ v. (lo ≤ biased v) × (biased v ≤ hi)) (sym e)
            (mean_positive a.count w.total a.avg lo hi p c w.low w.high h
              (omega (arith, c, n, few, w.is_sum, w.high)))
    ]

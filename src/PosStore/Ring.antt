-- ===== src/PosStore/Ring.antt =====
-- The invariant of a position store, and its contents.
use ct_bot.Base.{
  ℕ, zero, suc, ap, ◌∙◌, prev, ◌+◌, ◌-◌, ◌%◌, ◌≤◌, ◌<◌, ◌≡◌, ◌≢◌, some, List, arith, dec_lt, ltb,
  set, length, get_or, wrap, window, bit_and,
}
use ct_bot.PosStore.{write_entry, Position, PosStore, origin, entry, is_full}
use ct_bot.PosStore.Mask.{IsPower, power-le, bit_and_up, bit_and_down}

-- `buf` is the store's array; the pointers stand `count` entries apart on a ring of mask + 1 entries.
pub record IsRing (buf : List Position) (s : PosStore) : Type 0 where
  pub array : s.buffer ≡ some buf
  pub power : IsPower s.mask
  pub room : s.mask < length buf
  pub sp_in : s.sp ≤ s.mask
  pub fp_in : s.fp ≤ s.mask
  pub count_in : s.count ≤ s.mask + 1
  pub distance : s.sp ≡ wrap (s.mask + 1) (s.fp + s.count)

-- A store that a behaviour may use.
abbrev pub IsValid : PosStore → Type 0
IsValid s = (buf : List Position) × IsRing buf s

-- The stored positions, the one that `dequeue` takes next first.
abbrev pub contents : List Position → PosStore → List Position
contents buf s = window origin buf (s.mask + 1) s.fp s.count

-- The two kinds of step round the ring.
pub step_up :
    {buf : List Position} {s : PosStore}
    → IsRing buf s
    → (i : ℕ) → i ≤ s.mask
    → bit_and ((i + 1) % 256) s.mask ≡ wrap (s.mask + 1) (i + 1)
step_up {buf} {s} v i h =
    ap (λ j. bit_and j s.mask) {x = (i + 1) % 256} {y = i + 1} (omega (arith, power-le v.power))
    ∙ bit_and_up (i + 1) v.power (omega arith)

pub step_down :
    {buf : List Position} {s : PosStore}
    → IsRing buf s
    → (i : ℕ) → i ≤ s.mask
    → bit_and ((i + 255) % 256) s.mask ≡ prev (s.mask + 1) i
step_down {buf} {s} v zero h = bit_and_down 1 v.power (omega arith) (omega arith) ∙ omega arith
step_down {buf} {s} v (suc i) h =
    ap (λ j. bit_and j s.mask) {x = (suc i + 255) % 256} {y = i} (omega (arith, power-le v.power))
    ∙ bit_and_up i v.power (omega arith)
    ∙ ground arith

module _ {buf : List Position} {s : PosStore} (v : IsRing buf s) where
  pub step_back :
      (index : ℕ)
      → index ≢ 0
      → index ≤ s.count
      → bit_and ((s.sp + 256 - index) % 256) s.mask ≡ wrap (s.mask + 1) (s.fp + (s.count - index))
  step_back index ne h = elim (dec_lt s.sp index) [
    | yes over ↦
        ap (λ j. bit_and j s.mask) {x = (s.sp + 256 - index) % 256} {y = 256 - (index - s.sp)}
          (ground (arith, v.count_in, power-le v.power))
        ∙ bit_and_down (index - s.sp) v.power (omega arith) (ground (arith, v.count_in))
        ∙ ground (arith, v.distance, v.count_in, v.fp_in)
    | no within ↦
        ap (λ j. bit_and j s.mask) {x = (s.sp + 256 - index) % 256} {y = s.sp - index}
          (ground (arith, v.sp_in, power-le v.power))
        ∙ bit_and_up (s.sp - index) v.power (ground (arith, v.sp_in))
        ∙ ground (arith, v.distance, v.count_in, v.fp_in, v.sp_in)
  ]

  pub is_full_lem : is_full (some s) ≡ ltb s.mask s.count
  unfolding is_full
  is_full_lem = rw (v.array, is_full)

  pub entry_lem : (i : ℕ) → entry s i ≡ get_or buf i origin
  entry_lem i = rw (v.array)

  pub write_entry_lem : (i : ℕ) (pos : Position) → write_entry s i pos ≡ some (set buf i pos)
  write_entry_lem i pos = rw (v.array)

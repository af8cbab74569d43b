-- ===== src/Map/Ratio.antt =====
-- The share of a strip of the map whose fields are within bounds: get_ratio, map_get_ratio and
-- map_way_free of map.c.
use ct_bot.Base.{
  ℕ, zero, suc, ◌+◌, ◌-◌, ◌*◌, ◌/◌, ◌%◌, Bool, not, ◌&&◌, false, ltb, ◌==◌, if◌then◌else◌,
}
use ct_bot.Map.Sdfat.{Sdfat}
use ct_bot.Map.Store.{Map, less_int16, map_flush_cache}
use ct_bot.Map.Access.{map_store}
use ct_bot.Map.World.{world_to_map}
use ct_bot.Map.Update.{less_int8, distance, around}
use ct_bot.Map.Fields.{FieldStore}
use ct_bot.Map.Ray.{sign}

-- `field >= min_val && field <= max_val` of signed bytes.
abbrev pub is_within : ℕ → ℕ → ℕ → Bool
is_within min_val max_val field = not (less_int8 field min_val) && not (less_int8 max_val field)

-- The number of steps along an axis, an `int16_t`.
abbrev pub way : ℕ → ℕ → ℕ
way a b = distance ((b + 32768) % 65536) ((a + 32768) % 65536) % 65536

-- The loop across the strip: `n` fields from number `j` on, counted when they are within bounds.
module _ {A : Type 0} (field : ℕ → A → ℕ × A) (within : ℕ → Bool) where
  unfoldable pub row : ℕ → ℕ → ℕ → A → ℕ × A
  row zero j count s = (count, s)
  row (suc n) j count s =
      let (f, t) = field j s in row n (suc j) (if within f then (count + 1) % 65536 else count) t

-- The loop along the strip: `n` rows from row `i` on, whose middle has gone to `side`.
module _ {A : Type 0} (field : ℕ → ℕ → ℕ → A → ℕ × A) (within : ℕ → Bool)
    (breadth long short step : ℕ) where
  unfoldable pub strip : ℕ → ℕ → ℕ → ℕ → ℕ → A → ℕ × A
  strip zero i side lh count s = (count, s)
  strip (suc n) i side lh count s =
      let (c, t) = row (field i side) within breadth 0 count s in
      let next = (lh + short) % 65536 in
      let straight = less_int16 next long in
      strip n (suc i) (if straight then side else (side + step) % 65536)
        (if straight then next else (next + (65536 - long)) % 65536) c t

-- `width` is not negative. The rows are `2 * half + corr` fields broad.
abbrev pub half : ℕ → ℕ
half width = if width / 2 == 0 then 1 else width / 2

abbrev pub breadth : ℕ → ℕ
breadth width = half width * 2 + width % 2

-- A count as a share of 255 of `fields`, which is an `uint16_t`.
abbrev pub share : ℕ → ℕ → ℕ
share fields count = if fields == 0 then 255 else count * 255 / fields % 256

module _ (S : FieldStore) where
  abbrev pub read_field : ℕ → ℕ → S.State → ℕ × S.State
  read_field x y = S.access_field x y 0 false

  unfoldable pub get_ratio : (x1 y1 x2 y2 width min_val max_val : ℕ) → S.State → ℕ × S.State
  get_ratio x1 y1 x2 y2 width min_val max_val s =
      let dx = way x1 x2 in
      let dy = way y1 y2 in
      let sx = sign x1 x2 in
      let sy = sign y1 y2 in
      let w = half width in
      if ltb dx dy
      then (let (count, t) =
            strip (λ i side j. read_field (around side w j) ((y1 + i * sy) % 65536))
              (is_within min_val max_val) (breadth width) dy dx sx dy 0 x1 (dy / 2) 0 s in
          (share (dy * breadth width % 65536) count, t))
      else (let (count, t) =
            strip (λ i side j. read_field ((x1 + i * sx) % 65536) (around side w j))
              (is_within min_val max_val) (breadth width) dx dy sy dx 0 y1 (dx / 2) 0 s in
          (share (dx * breadth width % 65536) count, t))

-- The queries of the behaviours, in world coordinates. MAP_OBSTACLE_THRESHOLD is -20.
module _ {F : Sdfat} where
  unfoldable pub map_get_ratio : (x1 y1 x2 y2 width min_val max_val : ℕ) → Map F → ℕ × Map F
  map_get_ratio x1 y1 x2 y2 width min_val max_val m =
      get_ratio (map_store F) (world_to_map x1) (world_to_map y1) (world_to_map x2)
        (world_to_map y2) (width / 8) min_val max_val (map_flush_cache m)

  unfoldable pub map_way_free : (from_x from_y to_x to_y margin : ℕ) → Map F → Bool × Map F
  map_way_free from_x from_y to_x to_y margin m =
      let (result, n) = map_get_ratio from_x from_y to_x to_y (120 + 2 * margin) 236 127 m in
      (result == 255, n)

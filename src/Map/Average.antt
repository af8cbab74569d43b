-- ===== src/Map/Average.antt =====
-- The mean value of the fields round a place: get_average_fields and map_get_average of map.c. A
-- radius of 127 fields, for which the counters of the source's loops never end, is left out.
use ct_bot.Base.{ℕ, ◌+◌, ◌-◌, ◌*◌, ◌/◌, ◌%◌, ◌&&◌, false, ltb, leb, if◌then◌else◌}
use ct_bot.Map.Sdfat.{Sdfat}
use ct_bot.Map.Store.{Map, map_flush_cache}
use ct_bot.Map.Access.{map_store}
use ct_bot.Map.Fields.{FieldStore}
use ct_bot.Map.Update.{distance, around, loop}
use ct_bot.Map.World.{world_to_map}

-- A signed byte as an `int32_t`.
abbrev pub widened : ℕ → ℕ
widened field = if ltb field 128 then field else field + 4294967040

-- The sum of the fields, an `int32_t`, and their number, an `int16_t`, and the mean value of them
-- as an `int8_t`: the division rounds towards 0.
pub record Average : Type 0 where
  pub avg : ℕ
  pub count : ℕ

abbrev pub with_field : ℕ → Average → Average
with_field field a = record {
  avg = (a.avg + widened field) % 4294967296;
  count = (a.count + 1) % 65536;
}

unfoldable pub mean : Average → ℕ
mean a =
    if ltb 0 a.count && ltb a.count 32768
    then (if ltb a.avg 2147483648
        then a.avg / a.count % 256
        else (256 - (4294967296 - a.avg) / a.count % 256) % 256)
    else 0

-- How often `dX` and `dY` run from -radius to radius, and a radius in mm in fields.
abbrev pub turns : ℕ → ℕ
turns radius = if ltb radius 128 then 2 * radius + 1 else 0

abbrev pub radius_in_fields : ℕ → ℕ
radius_in_fields r = if ltb r 32768 then r / 8 % 256 else (65536 - (65536 - r) / 8) % 256

module _ (S : FieldStore) where
  unfoldable pub add_field : (x y radius i j : ℕ) → Average × S.State → Average × S.State
  add_field x y radius i j (a, s) =
      if leb (distance i radius * distance i radius + distance j radius * distance j radius)
        (radius * radius)
      then (let (tmp, t) = S.access_field (around x radius i) (around y radius j) 0 false s in
          (with_field tmp a, t))
      else (a, s)

  unfoldable pub get_average_fields : (x y radius : ℕ) → S.State → ℕ × S.State
  get_average_fields x y radius s =
      let (a, t) =
        loop (turns radius) 0 (λ i. loop (turns radius) 0 (λ j. add_field x y radius i j))
          (record { avg = 0; count = 0 }, s) in
      (mean a, t)

module _ {F : Sdfat} where
  unfoldable pub map_get_average : (x y radius : ℕ) → Map F → ℕ × Map F
  map_get_average x y radius m =
      get_average_fields (map_store F) (world_to_map x) (world_to_map y) (radius_in_fields radius)
        (map_flush_cache m)

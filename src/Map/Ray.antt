-- ===== src/Map/Ray.antt =====
-- The ray of a distance sensor: update_sensor_distance and update_occupied of map.c, built without
-- MEASURE_POSITION_ERRORS_AVAILABLE, so that the position counts as certain.
use ct_bot.Base.{ℕ, zero, suc, ◌+◌, ◌-◌, ◌*◌, ◌/◌, ◌%◌, ltb, leb, ◌==◌, if◌then◌else◌}
use ct_bot.Map.Store.{less_int16}
use ct_bot.Map.Update.{less_int8, distance, around, radius_fields, loop, update_field}
use ct_bot.Map.World.{world_to_map}
use ct_bot.Map.Fields.{FieldStore}

-- `lh + short` of two `int8_t`, and what is kept of it when it does not stay below `long`.
abbrev pub error_sum : ℕ → ℕ → ℕ
error_sum lh short = (lh + short) % 256

-- The loop along the longer axis: `n` steps from the place (along, across), of which some go sideways.
unfoldable pub walk :
    {A : Type 0} (update : ℕ → ℕ → A → A) (long short s_along s_across : ℕ) → ℕ → ℕ → ℕ → ℕ → A → A
walk update long short s_along s_across zero along across lh s = s
walk update long short s_along s_across (suc n) along across lh s =
    let next = error_sum lh short in
    let straight = less_int8 next long in
    walk update long short s_along s_across n ((along + s_along) % 65536)
      (if straight then across else (across + s_across) % 65536)
      (if straight then next else (next + (256 - long)) % 256) (update along across s)

-- One step along an axis, from `a` towards `b`, and the `int8_t` of the number of steps.
abbrev pub sign : ℕ → ℕ → ℕ
sign a b = if less_int16 b a then 65535 else 1

abbrev pub steps : ℕ → ℕ → ℕ
steps a b = distance ((b + 32768) % 65536) ((a + 32768) % 65536) % 256

-- A positive `int8_t` less one, and the number of rounds of a loop up to it.
abbrev pub one_less : ℕ → ℕ
one_less d = if less_int8 0 d then d - 1 else d

abbrev pub rounds : ℕ → ℕ
rounds d = if less_int8 0 d then d else 0

-- The limits of the sensors, SENS_IR_MAX_DIST and SENS_IR_INFINITE.
abbrev pub ir_max_dist : ℕ
ir_max_dist = 690

abbrev pub ir_infinite : ℕ
ir_infinite = 9999

module _ (S : FieldStore) where
  unfoldable pub free_ray : ℕ → ℕ → ℕ → ℕ → ℕ → S.State → S.State
  free_ray x y ph_x ph_y step_value s =
      let dx = steps x ph_x in
      let dy = steps y ph_y in
      if less_int8 dx dy
      then walk (λ a b. update_field S b a step_value) dy (one_less dx) (sign y ph_y) (sign x ph_x)
          (rounds dy) y x (dy / 2) s
      else walk (λ a b. update_field S a b step_value) dx (one_less dy) (sign x ph_x) (sign y ph_y)
          (rounds dx) x y (dx / 2) s

  -- What a field at a squared distance of `h` from an obstacle is changed by: -(25 / h), with `h`
  -- halved and at least 5.
  unfoldable pub occupied_step : ℕ → ℕ
  occupied_step h = let g = h / 2 in 256 - 25 / (if ltb g 5 then 5 else g)

  unfoldable pub update_occupied : ℕ → ℕ → S.State → S.State
  update_occupied x y =
      let r = radius_fields in
      loop (2 * r + 1) 0 λ i. loop (2 * r + 1) 0 λ j s.
        let h = distance i r * distance i r + distance j r * distance j r in
        if leb h (r * r)
        then update_field S (around x r i) (around y r j) (occupied_step h) s
        else s

  -- `toward d` is the way from the sensor to the place at the distance `d`, which the source computes
  -- in floating point from the sine and the cosine of the heading.
  unfoldable pub update_sensor_distance : (toward : ℕ → ℕ × ℕ) → ℕ → ℕ → ℕ → S.State → S.State
  update_sensor_distance toward x y dist s =
      let d = if dist == ir_infinite then ir_max_dist else dist in
      let (to_x, to_y) = toward d in
      let ph_x = world_to_map ((x + to_x) % 65536) in
      let ph_y = world_to_map ((y + to_y) % 65536) in
      let s1 = free_ray (world_to_map x) (world_to_map y) ph_x ph_y 2 s in
      if leb dist ir_max_dist then update_occupied ph_x ph_y s1 else s1

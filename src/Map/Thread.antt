-- ===== src/Map/Thread.antt =====
-- What the update thread enters in the map for one entry of its cache: update_field_circle,
-- update_location, update_border, update_distance and the body of the loop of map_update_main in
-- map.c. The products with the sine and the cosine of the heading are parameters.
use ct_bot.Base.{ℕ, ◌+◌, ◌-◌, ◌*◌, ◌/◌, ◌%◌, Bool, ltb, leb, if◌then◌else◌}
use ct_bot.Map.Store.{less_int16}
use ct_bot.Map.Fields.{FieldStore}
use ct_bot.Map.Update.{distance, loop, update_field, set_value_occupied}
use ct_bot.Map.World.{world_to_map}
use ct_bot.Map.Ray.{update_sensor_distance}

-- An `int16_t` on a scale from 0, and its quotient by the side of a section, rounded towards 0.
abbrev pub biased_int16 : ℕ → ℕ
biased_int16 a = (a + 32768) % 65536

abbrev pub section_of : ℕ → ℕ
section_of v = if ltb v 32768 then v / 16 else (65536 - (65536 - v) / 16) % 65536

-- `body` for the words from `lo` on, as many as `n`.
unfoldable pub from_word : {A : Type 0} → ℕ → ℕ → (ℕ → A → A) → A → A
from_word n lo body = loop n 0 λ k. body ((lo + k) % 65536)

-- The first and the last coordinate of the circle within a section, the last one exclusive.
abbrev pub first_in : ℕ → ℕ → ℕ → ℕ
first_in section v radius =
    let a = section * 16 % 65536 in
    let b = (v + (65536 - radius)) % 65536 in if less_int16 b a then a else b

abbrev pub stop_in : ℕ → ℕ → ℕ → ℕ
stop_in section v radius =
    let a = (section + 1) * 16 % 65536 in
    let b = (v + radius) % 65536 in if less_int16 a b then a else b

-- What floating point gives for an entry: where the border sensors and the distance sensors are,
-- relative to the position, and where a ray of a distance ends, relative to its sensor.
pub record Geometry : Type 0 where
  pub border_right : ℕ × ℕ
  pub border_left : ℕ × ℕ
  pub sensor_right : ℕ × ℕ
  pub sensor_left : ℕ × ℕ
  pub toward : ℕ → ℕ × ℕ

-- `map_cache_t`, with the bits of its mode.
pub record CacheEntry : Type 0 where
  pub x_pos : ℕ
  pub y_pos : ℕ
  pub data_l : ℕ
  pub data_r : ℕ
  pub location : Bool
  pub border : Bool
  pub distance_mode : Bool

module _ (S : FieldStore) where
  -- The fields of one section that are in the circle.
  unfoldable pub update_section : (x y radius value section_x section_y : ℕ) → S.State → S.State
  update_section x y radius value section_x section_y =
      let start_x = first_in section_x x radius in
      let stop_x = stop_in section_x x radius in
      let start_y = first_in section_y y radius in
      let stop_y = stop_in section_y y radius in
      from_word (biased_int16 stop_y - biased_int16 start_y) start_y λ py.
        from_word (biased_int16 stop_x - biased_int16 start_x) start_x λ px s.
          let dx = distance (biased_int16 x) (biased_int16 px) in
          let dy = distance (biased_int16 y) (biased_int16 py) in
          if leb (dx * dx + dy * dy) (radius * radius) then update_field S px py value s else s

  unfoldable pub update_field_circle : (x y radius value : ℕ) → S.State → S.State
  update_field_circle x y radius value =
      let first = λ (v : ℕ). section_of ((v + (65536 - radius)) % 65536) in
      let count =
        λ (v : ℕ). biased_int16 (section_of ((v + radius) % 65536)) + 1 - biased_int16 (first v) in
      from_word (count y) (first y) λ section_y.
        from_word (count x) (first x)
          λ section_x. update_section x y radius value section_x section_y

  -- The radius of the robot is 7 fields, the step MAP_STEP_FREE_LOCATION is 20.
  unfoldable pub update_location : ℕ → ℕ → S.State → S.State
  update_location x y = update_field_circle (world_to_map x) (world_to_map y) 7 20

  unfoldable pub enter_border : ℕ → ℕ → ℕ × ℕ → S.State → S.State
  enter_border x y offset =
      set_value_occupied S (world_to_map ((x + offset.0) % 65536))
        (world_to_map ((y + offset.1) % 65536)) 128

  unfoldable pub update_border : Geometry → (x y border_l border_r : ℕ) → S.State → S.State
  update_border g x y border_l border_r s =
      let s1 = if ltb 0 border_r then enter_border x y g.border_right s else s in
      if ltb 0 border_l then enter_border x y g.border_left s1 else s1

  unfoldable pub update_distance : Geometry → (x y dist_l dist_r : ℕ) → S.State → S.State
  update_distance g x y dist_l dist_r s =
      let s1 =
        update_sensor_distance S g.toward ((x + g.sensor_left.0) % 65536)
          ((y + g.sensor_left.1) % 65536) dist_l s in
      update_sensor_distance S g.toward ((x + g.sensor_right.0) % 65536)
        ((y + g.sensor_right.1) % 65536) dist_r s1

  unfoldable pub update_entry : Geometry → CacheEntry → S.State → S.State
  update_entry g c s =
      let s1 = if c.location then update_location c.x_pos c.y_pos s else s in
      if c.border
      then update_border g c.x_pos c.y_pos c.data_l c.data_r s1
      else if c.distance_mode
      then update_distance g c.x_pos c.y_pos (c.data_l * 5) (c.data_r * 5) s1
      else s1

-- ===== src/Pathplanning/Lowres.antt =====
-- The coarse map of behaviour_pathplanning.c: map_lowres with access_field_lowres, delete_lowres,
-- set_hazards and the two conversions.
use ct_bot.Base.{
  ℕ, ◌+◌, ◌-◌, ◌*◌, ◌/◌, ◌%◌, Bool, true, ◌&&◌, ◌||◌, Option, none, some, ltb, leb, ◌==◌,
  if◌then◌else◌,
}
use ct_bot.PosStore.{Position}
use ct_bot.Map.Sdfat.{Sdfat}
use ct_bot.Map.Store.{Map, less_int16}
use ct_bot.Map.World.{map_to_world}
use ct_bot.Map.Update.{loop}
use ct_bot.Map.Ratio.{map_get_ratio}

abbrev pub section_points : ℕ
section_points = 32

-- Half of the side of the map is 48 fields, or 6144 mm.
unfoldable pub map_to_world_lowres : ℕ → ℕ
map_to_world_lowres map_koord = (map_koord + (65536 - 48)) * 128 % 65536

unfoldable pub world_to_map_lowres : ℕ → ℕ
world_to_map_lowres koord =
    let b = (koord + 32768) % 65536 in
    if leb 32768 (b + 6144)
    then (b + 6144 - 32768) / 128
    else (65536 - (32768 - (b + 6144)) / 128) % 65536

-- `map_lowres`: a section by its place, and a field by its place in a section. `deactivated` says
-- that deactivateBehaviour was called for want of memory.
pub record Lowres : Type 0 where
  pub section : ℕ → ℕ → Option (ℕ → ℕ → ℕ)
  pub deactivated : Bool

-- The section of a coordinate that is not negative is none of the three.
abbrev pub is_behind : ℕ → Bool
is_behind v = ltb v 32768 && leb 96 v

abbrev pub is_negative : ℕ → Bool
is_negative v = leb 32768 v

-- A field of a section that may not exist yet, and a section with a field written.
abbrev pub field_of : Option (ℕ → ℕ → ℕ) → ℕ → ℕ → ℕ
field_of none i j = 0
field_of (some s) i j = s i j

abbrev pub field_set : Option (ℕ → ℕ → ℕ) → ℕ → ℕ → ℕ → ℕ → ℕ → ℕ
field_set s i j value p q = if p == i && q == j then value else field_of s p q

unfoldable pub put_section : Lowres → ℕ → ℕ → (ℕ → ℕ → ℕ) → Lowres
put_section m a b s = record m {
  section = λ p q. if p == a && q == b then some s else m.section p q;
}

-- Whether there is memory for another section, and what a negative coordinate does, for which the
-- source leaves the array of its section: the value read there, and the map after a write.
pub record Memory : Type 0 where
  pub malloc : Lowres → Bool
  pub beyond : Lowres → Position → ℕ
  pub spill : Lowres → Position → ℕ → Lowres

module _ (h : Memory) where
  unfoldable pub write_field : Position → ℕ → Lowres → ℕ × Lowres
  write_field field value m =
      let a = field.x / section_points in
      let b = field.y / section_points in
      let s =
        field_set (m.section a b) (field.x % section_points) (field.y % section_points) value in
      elim (m.section a b) [
        | none ↦
            if h.malloc m
            then (value, put_section m a b s)
            else (0, record m { deactivated = true })
        | some _ ↦ (value, put_section m a b s)
      ]

  unfoldable pub access_field_lowres : Position → ℕ → Bool → Lowres → ℕ × Lowres
  access_field_lowres field value write m =
      if is_behind field.x || is_behind field.y
      then (0, m)
      else if is_negative field.x || is_negative field.y
      then (if write then (value, h.spill m field value) else (h.beyond m field, m))
      else if write
      then write_field field value m
      else (
        field_of (m.section (field.x / section_points) (field.y / section_points))
            (field.x % section_points) (field.y % section_points),
        m,
      )

  unfoldable pub delete_lowres : Lowres → Lowres
  delete_lowres =
      loop 96 0 λ j. loop 96 0 λ i m. (access_field_lowres (record { x = i; y = j }) 0 true m).1

-- The rectangle of the map that is in use: min_x, max_x, min_y and max_y.
pub record Area : Type 0 where
  pub min_x : ℕ
  pub max_x : ℕ
  pub min_y : ℕ
  pub max_y : ℕ

-- The next field to either side, and the numbers from `a` to `b` of `int16_t`.
abbrev pub next : ℕ → ℕ
next v = (v + 1) % 65536

abbrev pub before : ℕ → ℕ
before v = (v + 65535) % 65536

abbrev pub span : ℕ → ℕ → ℕ
span a b = (b + 32768) % 65536 + 1 - (a + 32768) % 65536

abbrev pub positive : ℕ → ℕ
positive v = if less_int16 0 v then v else 0

-- `map_compare_haz` is a signed byte.
abbrev pub threshold : ℕ → ℕ
threshold map_compare_haz = if map_compare_haz == 0 then 250 else 110

module _ {F : Sdfat} where
  unfoldable pub area_of : Map F → Area
  area_of m = record {
    min_x = positive (before (world_to_map_lowres (map_to_world m.min_x)));
    max_x = next (world_to_map_lowres (map_to_world m.max_x));
    min_y = positive (before (world_to_map_lowres (map_to_world m.min_y)));
    max_y = next (world_to_map_lowres (map_to_world m.max_y));
  }

  module _ (h : Memory) (map_compare_haz : ℕ) where
    -- One field: its share of the map's fields that are free enough decides.
    unfoldable pub set_hazard : ℕ → ℕ → Lowres × Map F → Lowres × Map F
    set_hazard x y (l, m) =
        let yw = (map_to_world_lowres y + 64) % 65536 in
        let x1 = map_to_world_lowres x in
        let x2 = (x1 + 128) % 65536 in
        let (ratio, m1) = map_get_ratio x1 yw x2 yw 128 map_compare_haz 127 m in
        if ltb ratio (threshold map_compare_haz)
        then ((access_field_lowres h (record { x = x; y = y }) 1 true l).1, m1)
        else (l, m1)

    unfoldable pub set_hazards : Lowres → Map F → Area × Lowres × Map F
    set_hazards l m =
        let a = area_of m in
        let (l1, m1) =
          loop (span a.min_y a.max_y) 0
            (λ j.
              loop (span a.min_x a.max_x) 0
                λ i. set_hazard ((a.min_x + i) % 65536) ((a.max_y + (65536 - j)) % 65536))
            (l, m) in
        (a, l1, m1)

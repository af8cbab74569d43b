-- ===== src/Map/Tests.antt =====
-- Examples: maps over a file in memory.
use ct_bot.Base.{
  ◌+◌, ◌%◌, ◌≡◌, ◌≤◌, ◌==◌, if◌then◌else◌, ◌↔◌, ◌≢◌, refl, true, false, some, none, List, [], ◌∷◌,
  arith, replicate,
}
use ct_bot.Map.Place.{get_block, section_index, cell}
use ct_bot.Map.Thread.{Geometry, CacheEntry, update_entry}
use ct_bot.Map.Holes.{update_entry-HasHole}
use ct_bot.Map.Saved.{Stored, finish_update-Stored}
use ct_bot.Map.Sdfat.{Sdfat}
use ct_bot.Map.Disk.{disk, reliable}
use ct_bot.Map.Store.{finish_update, Map, offset_of, get_section, map_flush_cache, read_block}
use ct_bot.Map.Address.{get_block-cell, cell_of, x_at, y_at}
use ct_bot.Map.Cache.{IsValid, block_bytes}
use ct_bot.Map.Fields.{IsFieldStore, Field, accessed, is_outside, Call, accesses, flat}
use ct_bot.Map.Access.{fields, map_store, map_fields, access_field_calls_refine}
use ct_bot.Map.Flush.{file_fields, map_flush_cache-fields}
use ct_bot.Map.Faults.{get_section-again}
use ct_bot.Map.Update.{around, loop, hole, biased, saturated, update_field, set_value_occupied}
use ct_bot.Map.Saturate.{clamped, updated, saturated-clamped, update_field-updated}
use ct_bot.Map.Circle.{Lowers}
use ct_bot.Map.Occupied.{in_circle, set_value_occupied-Lowers}
use ct_bot.Map.World.{world_to_map, map_to_world, world_to_map-map_to_world}
use ct_bot.Map.Ray.{free_ray}
use ct_bot.Map.RayLine.{along_x, free_ray-line}
use ct_bot.Map.Average.{mean, add_field, get_average_fields}
use ct_bot.Map.Collect.{AreBetween, get_average_fields-between}
use ct_bot.Map.Ratio.{get_ratio, map_way_free}
use ct_bot.Map.WayFree.{Counted, area, out_of_bounds}
use ct_bot.Map.Passage.{lane, get_ratio-Counted, map_way_free-Clear}

-- An empty map, whose block 0 is in memory, and the same with a change that is not in the file.
abbrev empty : Map disk
empty = record {
  block = 0;
  updated = false;
  block_x = 0;
  block_y = 0;
  min_x = 768;
  max_x = 768;
  min_y = 768;
  max_y = 768;
  min_max_updated = false;
  alignment_offset = 3;
  buffer = replicate 512 0;
  file = record { place = 0; byte = λ _. 0 };
}

abbrev changed : Map disk
changed = record empty { updated = true; buffer = 7 ∷ replicate 511 0 }

empty-IsValid : IsValid reliable empty
empty-IsValid = record {
  full = refl;
  there = omega arith;
  room = unfold offset_of in omega arith;
  clean = λ _. refl;
}

changed-IsValid : IsValid reliable changed
changed-IsValid = record {
  full = refl;
  there = omega arith;
  room = unfold offset_of in omega arith;
  clean = λ u. cc;
}

get_block-cell_example :
    (x_at (get_block 700 1500) (cell_of 700 1500) ≡ 700)
    × (y_at (get_block 700 1500) (cell_of 700 1500) ≡ 1500)
get_block-cell_example = get_block-cell {x = 700} {y = 1500} (omega arith) (omega arith)

-- A field written, one of another block, and the first one read again.
abbrev write_and_read : List Call
write_and_read =
    record { x = 700; y = 900; value = 251; write = true }
    ∷ record { x = 20; y = 3; value = 20; write = true }
    ∷ record { x = 700; y = 900; value = 0; write = false }
    ∷ []

access_field_calls_refine_example :
    (
      (accesses (map_store disk) write_and_read empty).0,
      fields reliable (accesses (map_store disk) write_and_read empty).1,
    )
    ≡ accesses flat write_and_read (fields reliable empty)
access_field_calls_refine_example =
    access_field_calls_refine reliable write_and_read empty empty-IsValid

map_flush_cache-fields_example :
    IsValid reliable (map_flush_cache changed)
    × (fields reliable (map_flush_cache changed) ≡ file_fields reliable changed)
map_flush_cache-fields_example = map_flush_cache-fields reliable changed-IsValid

-- A file system whose reads fail.
abbrev broken : Sdfat
broken = record disk { read = λ buffer n d. (0, buffer, d) }

abbrev broken_map : Map broken
broken_map = record {
  block = 0;
  updated = false;
  block_x = 0;
  block_y = 0;
  min_x = 768;
  max_x = 768;
  min_y = 768;
  max_y = 768;
  min_max_updated = false;
  alignment_offset = 3;
  buffer = replicate 512 9;
  file = record { place = 0; byte = λ _. 0 };
}

other_block : 0 ≢ get_block 700 900
unfolding get_block
other_block e = omega (arith, e)

get_section-again_example :
    ((get_section 700 900 broken_map).0 ≡ none)
    × ((get_section 700 900 (get_section 700 900 broken_map).1).0 ≡ some (section_index 700))
unfolding read_block
get_section-again_example =
    get_section-again 700 900 broken_map (omega arith) (omega arith) other_block refl refl

saturated-clamped_example : biased (saturated 120 20) ≡ clamped 120 20
saturated-clamped_example =
    saturated-clamped 120 20 (omega arith) (omega arith) (λ e. omega (arith, e))

update_field-updated_example :
    fields reliable (update_field (map_store disk) 700 900 20 empty)
    ≡ updated 700 900 20 (fields reliable empty)
update_field-updated_example =
    update_field-updated (map_fields reliable) 700 900 empty empty-IsValid 20

set_value_occupied-Lowers_example :
    Lowers
      (map_fields reliable)
      128
      (in_circle 700 900 6)
      empty
      (set_value_occupied (map_store disk) 700 900 128 empty)
set_value_occupied-Lowers_example =
    set_value_occupied-Lowers (map_fields reliable) 128 700 900 (omega arith) (omega arith)
      (omega arith) (omega arith) empty empty-IsValid

world_to_map-map_to_world_example : world_to_map ((map_to_world 700 + 5) % 65536) ≡ 700
world_to_map-map_to_world_example = world_to_map-map_to_world 700 5 (omega arith) (omega arith)

free_ray-line_example :
    free_ray (map_store disk) 700 900 712 895 2 empty
    ≡ along_x (map_store disk) 700 900 1 65535 12 5 2 empty
free_ray-line_example =
    free_ray-line (map_store disk) 700 900 712 895 2 empty (omega arith) (omega arith) (omega arith)

get_ratio-Counted_example :
    Counted
      (map_fields reliable)
      empty
      (area 700 900 712 895 15)
      (out_of_bounds (fields reliable empty) 700 900 712 895 15 236 127)
      (get_ratio (map_store disk) 700 900 712 895 15 236 127 empty)
get_ratio-Counted_example =
    get_ratio-Counted (map_fields reliable) 700 900 712 895 15 236 127 (omega arith) (omega arith)
      (omega arith) (omega arith) (omega arith) empty empty-IsValid

map_way_free-Clear_example : ((map_way_free 0 0 400 200 5 empty).0 ≡ true) ↔ (
    out_of_bounds
      (file_fields reliable empty)
      (world_to_map 0)
      (world_to_map 0)
      (world_to_map 400)
      (world_to_map 200)
      (lane 5)
      236
      127
    ≡ 0)
map_way_free-Clear_example =
    map_way_free-Clear reliable 0 0 400 200 5 (unfold world_to_map in omega arith) empty
      empty-IsValid

-- An entry of all kinds, for a place where the map has a hole.
abbrev still : Geometry
still = record {
  border_right = (40, 20);
  border_left = (40, 65516);
  sensor_right = (47, 32);
  sensor_left = (47, 65504);
  toward = λ d. (d, 0);
}

abbrev entry : CacheEntry
entry = record {
  x_pos = 0;
  y_pos = 0;
  data_l = 60;
  data_r = 60;
  location = true;
  border = false;
  distance_mode = true;
}

abbrev holed : Map disk
holed = record empty { updated = true; buffer = hole ∷ replicate 511 0 }

holed-IsValid : IsValid reliable holed
holed-IsValid = record {
  full = refl;
  there = omega arith;
  room = unfold offset_of in omega arith;
  clean = λ u. cc;
}

has_hole : fields reliable holed 0 0 ≡ hole
unfolding fields is_outside block_bytes get_block cell section_index
has_hole = refl

update_entry-HasHole_example :
    IsValid reliable (update_entry (map_store disk) still entry holed)
    × (fields reliable (update_entry (map_store disk) still entry holed) 0 0 ≡ hole)
update_entry-HasHole_example =
    update_entry-HasHole (map_fields reliable) 0 0 still entry holed holed-IsValid has_hole

finish_update-Stored_example :
    Stored reliable
      (record changed { min_max_updated = true })
      (finish_update 0 (record changed { min_max_updated = true }))
finish_update-Stored_example =
    finish_update-Stored reliable (record changed { min_max_updated = true })
      (record {
        full = refl;
        there = omega arith;
        room = unfold offset_of in omega arith;
        clean = λ u. cc;
      })
      refl

-- The fields themselves as a store of fields, and a floor that is free but for one wall.
abbrev flat_fields : IsFieldStore flat
flat_fields = record {
  IsSound = λ _. Unit;
  fields = λ f. f;
  access-IsSound = λ _ _ _ _ _ _. tt;
  access_lem = λ _ _ _ _ _ _. refl;
}

abbrev floor_with_wall : Field
floor_with_wall x y = if x == 702 then 206 else 20

floor_with_wall-AreBetween : AreBetween floor_with_wall 700 900 3 78 148
unfolding is_outside
floor_with_wall-AreBetween i j e =
    let x = around 700 3 i in let y = around 900 3 j in (ground arith, ground arith, ground arith)

average_of_wall : (get_average_fields flat 700 900 3 floor_with_wall).0 ≡ 7
unfolding get_average_fields mean add_field loop accessed is_outside
average_of_wall = refl

get_average_fields-between_example :
    (78 ≤ biased (get_average_fields flat 700 900 3 floor_with_wall).0)
    × (biased (get_average_fields flat 700 900 3 floor_with_wall).0 ≤ 148)
    × ((get_average_fields flat 700 900 3 floor_with_wall).1 ≡ floor_with_wall)
get_average_fields-between_example =
    get_average_fields-between flat_fields 700 900 3 78 148 floor_with_wall (omega arith)
      (omega arith) tt floor_with_wall-AreBetween

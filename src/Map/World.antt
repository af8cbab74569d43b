-- ===== src/Map/World.antt =====
-- World coordinates in millimetres and map coordinates: world_to_map of map.c, as C has it on the PC,
-- and map_to_world of include/map.h. Both are 16-bit words of an `int16_t`.
use ct_bot.Base.{ℕ, ◌+◌, ◌-◌, ◌*◌, ◌/◌, ◌%◌, ◌<◌, ◌≡◌, leb, if◌then◌else◌, arith}
use ct_bot.Map.Place.{map_side}

-- 6144 is half of the side of the world, 8 mm are a field. A division rounds towards 0.
unfoldable pub world_to_map : ℕ → ℕ
world_to_map koord =
    let b = (koord + 32768) % 65536 in
    if leb 32768 (b + 6144)
    then (b + 6144 - 32768) / 8
    else (65536 - (32768 - (b + 6144)) / 8) % 65536

unfoldable pub map_to_world : ℕ → ℕ
map_to_world map_koord = (map_koord * 8 + (65536 - 6144)) % 65536

-- The world coordinate of a field of the map leads back to the field, and so do those of the 7 mm
-- behind it, the rest of the field.
pub world_to_map-map_to_world :
    (m i : ℕ) → m < map_side → i < 8 → world_to_map ((map_to_world m + i) % 65536) ≡ m
unfolding world_to_map map_to_world
world_to_map-map_to_world m i h k = ground arith

-- ===== src/Map/Place.antt =====
-- Where a field is kept: get_block of map.c and the places within a block of get_section and
-- access_field. A coordinate is the 16-bit word of an `int16_t`.
use ct_bot.Base.{ℕ, ◌+◌, ◌*◌, ◌/◌, ◌%◌, ◌||◌, leb, if◌then◌else◌, bit_and}

-- The side of the map in fields, MAP_SIZE * MAP_RESOLUTION.
abbrev pub map_side : ℕ
map_side = 1536

abbrev pub section_points : ℕ
section_points = 16

abbrev pub macro_block_length : ℕ
macro_block_length = 512

abbrev pub length_in_macro_blocks : ℕ
length_in_macro_blocks = 3

abbrev pub block_size : ℕ
block_size = 512

-- What get_block returns for a place outside of the map.
abbrev pub no_block : ℕ
no_block = 65535

unfoldable pub get_block : ℕ → ℕ → ℕ
get_block x y =
    if leb map_side x || leb map_side y
    then no_block
    else (let local_x = x % macro_block_length in
        let local_y = y % macro_block_length in
        let block =
          local_x / section_points
          + local_y / section_points * (macro_block_length / section_points) in
        let macroblock = x / macro_block_length + y / macro_block_length * length_in_macro_blocks in
        block / 2 + macroblock * macro_block_length * (macro_block_length / block_size) % 65536)

-- Which of the block's two sections holds the field.
unfoldable pub section_index : ℕ → ℕ
section_index x = bit_and (x / section_points) 1

-- The place of `section[index_x][index_y]` of `map[index]` in the buffer.
unfoldable pub cell : ℕ → ℕ → ℕ → ℕ
cell index x y =
    index * (section_points * section_points)
    + x % section_points * section_points
    + y % section_points

-- ===== src/Map/Address.antt =====
-- The places that get_block, get_section and access_field compute: each field has its own.
use ct_bot.Base.{
  ℕ, ◌+◌, ◌*◌, ◌/◌, ◌%◌, ◌≤◌, ◌<◌, ◌≡◌, ◌⊎◌, refl, Bool, true, arith, ◌==◌, bit_and, table,
  table-entry,
}
use ct_bot.Map.Place.{get_block, section_index, cell, map_side, no_block}

index_test : ℕ → Bool
index_test s = bit_and s 1 == s % 2

index_table : table index_test 96 ≡ true
unfolding table index_test
index_table = refl

section_index_lem : {x : ℕ} → x < map_side → section_index x ≡ x / 16 % 2
unfolding section_index index_test
section_index_lem {x} h = ground (arith, table-entry index_test (x / 16) index_table (omega arith))

-- The block of a field is the one of its macro block and of its pair of sections.
get_block_lem :
    {x y : ℕ}
    → x < map_side
    → y < map_side
    → get_block x y ≡ x % 512 / 32 + y % 512 / 16 * 16 + (x / 512 + y / 512 * 3) * 512
unfolding get_block
get_block_lem h k = ground arith

pub get_block-lt : {x y : ℕ} → x < map_side → y < map_side → get_block x y < 4608
get_block-lt h k = omega (arith, get_block_lem h k)

pub get_block-eq-no_block : {x y : ℕ} → (map_side ≤ x) ⊎ (map_side ≤ y) → get_block x y ≡ no_block
unfolding get_block
get_block-eq-no_block o = ground arith

-- The place of a field, its block and the cell in it.
abbrev pub cell_of : ℕ → ℕ → ℕ
cell_of x y = cell (section_index x) x y

cell_of_lem : (x y : ℕ) → x < map_side → cell_of x y ≡ x / 16 % 2 * 256 + x % 16 * 16 + y % 16
unfolding cell
cell_of_lem x y h = omega (arith, section_index_lem h)

pub cell_of-lt : (x y : ℕ) → x < map_side → cell_of x y < 512
cell_of-lt x y h = omega (arith, cell_of_lem x y h)

-- The coordinates read back from a place.
abbrev pub x_at : ℕ → ℕ → ℕ
x_at block cell = block / 512 % 3 * 512 + block % 16 * 32 + cell / 256 * 16 + cell % 256 / 16

abbrev pub y_at : ℕ → ℕ → ℕ
y_at block cell = block / 512 / 3 * 512 + block % 512 / 16 * 16 + cell % 16

-- Each field of the map has a place of its own: its block and its cell in the block give back its
-- coordinates.
pub get_block-cell :
    {x y : ℕ}
    → x < map_side
    → y < map_side
    → (x_at (get_block x y) (cell_of x y) ≡ x) × (y_at (get_block x y) (cell_of x y) ≡ y)
get_block-cell {x} {y} h k = (
  omega (arith, get_block_lem h k, cell_of_lem x y h),
  omega (arith, get_block_lem h k, cell_of_lem x y h),
)

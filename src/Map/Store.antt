-- ===== src/Map/Store.antt =====
-- The block in memory: get_section, access_field and map_flush_cache of map.c, built without the
-- display of the simulator (MAP_2_SIM_AVAILABLE), whose queue get_section fills otherwise.
use ct_bot.Base.{
  ℕ, ◌+◌, ◌*◌, ◌/◌, ◌%◌, Bool, true, false, ◌&&◌, Option, none, some, List, ltb, ◌==◌,
  if◌then◌else◌, bit_and, get_or, set,
}
use ct_bot.Map.Place.{get_block, section_index, cell, no_block, block_size}
use ct_bot.Map.Sdfat.{Sdfat}

-- The global variables of map.c: map_current_block, the bounds of the occupied part, the buffer and
-- the file.
pub record Map (F : Sdfat) : Type 0 where
  pub block : ℕ
  pub updated : Bool
  pub block_x : ℕ
  pub block_y : ℕ
  pub min_x : ℕ
  pub max_x : ℕ
  pub min_y : ℕ
  pub max_y : ℕ
  pub min_max_updated : Bool
  pub alignment_offset : ℕ
  pub buffer : List ℕ
  pub file : F.File

-- `a < b` of two `int16_t`.
abbrev pub less_int16 : ℕ → ℕ → Bool
less_int16 a b = ltb ((a + 32768) % 65536) ((b + 32768) % 65536)

-- Where a block starts in the file: behind the header and the alignment.
unfoldable pub offset_of : ℕ → ℕ → ℕ
offset_of alignment block = (block + alignment) * block_size + 512

module _ {F : Sdfat} where
  -- The bounds of the occupied part, before a changed block is written ("Shrinking").
  unfoldable pub shrink : Map F → Map F
  shrink m =
      let m1 =
        (if less_int16 m.block_x m.min_x
          then record m { min_x = m.block_x; min_max_updated = true }
          else (if less_int16 m.max_x m.block_x
              then record m { max_x = (m.block_x + 31) % 65536; min_max_updated = true }
              else m)) in
      if less_int16 m.block_y m.min_y
      then record m1 { min_y = m.block_y; min_max_updated = true }
      else (if less_int16 m.max_y m.block_y
          then record m1 { max_y = (m.block_y + 15) % 65536; min_max_updated = true }
          else m1)

  -- The changed block goes back to the file; false when a call of the file system fails.
  unfoldable pub write_block : Map F → Bool × Map F
  write_block m =
      let (failed, f) = F.seek (offset_of m.alignment_offset m.block) m.file in
      if failed
      then (false, record m { file = f; updated = false })
      else (let (n, g) = F.write m.buffer block_size f in
          if n == block_size
          then (true, record m { file = g })
          else (false, record m { file = g; updated = false }))

  unfoldable pub read_block : Map F → Bool × Map F
  read_block m =
      let (failed, f) = F.seek (offset_of m.alignment_offset m.block) m.file in
      if failed
      then (false, record m { file = f })
      else (let (n, b, g) = F.read m.buffer block_size f in
          (n == block_size, record m { file = g; buffer = b }))

  unfoldable pub save_block : Map F → Bool × Map F
  save_block m = if m.updated then write_block (shrink m) else (true, m)

  -- The block in memory becomes `block`, whose fields start at the place of (x, y) rounded down.
  unfoldable pub enter_block : ℕ → ℕ → ℕ → Map F → Map F
  enter_block block x y m = record m {
    block = block;
    block_x = bit_and x 65504;
    block_y = bit_and y 65520;
    updated = false;
  }

  -- The section of a field, as the index of `map`; none is NULL.
  unfoldable pub get_section : ℕ → ℕ → Map F → Option ℕ × Map F
  get_section x y m =
      let block = get_block x y in
      let index = section_index x in
      if block == no_block
      then (none, m)
      else (if m.block == block
          then (some index, m)
          else (let (saved, m1) = save_block m in
              if saved
              then (let (loaded, m2) = read_block (enter_block block x y m1) in
                  (if loaded then some index else none, m2))
              else (none, m1)))

  unfoldable pub access_cell : ℕ → ℕ → Bool → Map F → ℕ × Map F
  access_cell i value write m =
      if write
      then (let b = set m.buffer i value in (get_or b i 0, record m { buffer = b; updated = true }))
      else (get_or m.buffer i 0, m)

  -- One field read or written in its section; 0 when that is NULL.
  unfoldable pub access_section : Option ℕ → ℕ → ℕ → ℕ → Bool → Map F → ℕ × Map F
  access_section none x y value write m = (0, m)
  access_section (some index) x y value write m = access_cell (cell index x y) value write m

  unfoldable pub access_field : ℕ → ℕ → ℕ → Bool → Map F → ℕ × Map F
  access_field x y value write m =
      let (section, m1) = get_section x y m in access_section section x y value write m1

  -- The bounds as the header of the file holds them, two bytes each from the third on.
  unfoldable pub header_with : List ℕ → Map F → List ℕ
  header_with b m =
      let put : List ℕ → ℕ → ℕ → List ℕ = λ l i v. set (set l i (v % 256)) (i + 1) (v / 256) in
      put (put (put (put b 2 m.min_x) 4 m.max_x) 6 m.min_y) 8 m.max_y

  -- map_flush_cache, once the update thread has released the map.
  unfoldable pub map_flush_cache : Map F → Map F
  map_flush_cache m =
      let (n, b, f) = F.read m.buffer 512 (F.rewind m.file) in
      if n == 512
      then (let h = header_with b m in
          let (_, g) = F.write h 512 (F.rewind f) in
          let (failed, k) = F.seek (offset_of m.alignment_offset m.block) g in
          if failed
          then record m { buffer = h; file = k }
          else (let (_, c, l) = F.read h block_size k in record m { buffer = c; file = F.flush l }))
      else record m { buffer = b; file = f }

  -- The block in memory written without a look at what the calls answer, and the end of a round of
  -- map_update_main, when `count` entries wait for the thread.
  unfoldable pub write_current : Map F → Map F
  write_current m =
      let (_, f) = F.seek (offset_of m.alignment_offset m.block) m.file in
      let (_, g) = F.write m.buffer block_size f in record m { file = g; updated = false }

  unfoldable pub write_header : Map F → Map F
  write_header m =
      let (_, b, f) = F.read m.buffer 512 (F.rewind m.file) in
      let h = header_with b m in
      let (_, g) = F.write h 512 (F.rewind f) in
      let (_, k) = F.seek (offset_of m.alignment_offset m.block) g in
      let (_, c, l) = F.read h block_size k in
      record m { min_max_updated = false; buffer = c; file = l }

  unfoldable pub finish_update : ℕ → Map F → Map F
  finish_update count m =
      if count == 0 && m.min_max_updated
      then write_header (if m.updated then write_current m else m)
      else m

-- ===== src/Map/Flush.antt =====
-- map_flush_cache of map.c: what becomes of the fields.
use mathlib.Core.Path.{fun_ext}
use ct_bot.Base.{
  ℕ, ap, ap₂, subst, sym, ◌∙◌, ◌≤◌, ◌≡◌, refl, false, List, arith, length, get_or, length-set,
  ℕ_discrete, if◌then◌else◌,
}
use ct_bot.Map.Place.{get_block}
use ct_bot.Map.Sdfat.{Sdfat, IsReliable, rewind-read, rewind-write, seek-read}
use ct_bot.Map.Store.{Map, offset_of, header_with, map_flush_cache}
use ct_bot.Map.Address.{cell_of}
use ct_bot.Map.Cache.{IsValid, block_bytes, offset_of-room}
use ct_bot.Map.Fields.{Field, is_outside}
use ct_bot.Map.Access.{fields}

-- The fields as the file alone holds them.
unfoldable pub file_fields : {F : Sdfat} → IsReliable F → Map F → Field
file_fields R m x y =
    if is_outside x y
    then 0
    else get_or (R.bytes m.file (offset_of m.alignment_offset (get_block x y))) (cell_of x y) 0

pub offset_of-le : (a b : ℕ) → 512 ≤ offset_of a b
unfolding offset_of
offset_of-le a b = omega arith

module _ {F : Sdfat} where
  length-header_with : (b : List ℕ) (m : Map F) → length (header_with b m) ≡ length b
  unfolding header_with
  length-header_with b m = simp (length-set)

  -- The file and the buffer at each step of the call.
  abbrev pub with_header : Map F → List ℕ
  with_header m = header_with (F.read m.buffer 512 (F.rewind m.file)).1 m

  abbrev pub header_file : Map F → F.File
  header_file m =
      (F.write (with_header m) 512 (F.rewind (F.read m.buffer 512 (F.rewind m.file)).2)).1

  abbrev pub block_read : Map F → ℕ × List ℕ × F.File
  block_read m =
      F.read (with_header m) 512 (F.seek (offset_of m.alignment_offset m.block) (header_file m)).1

  flushed :
      (m : Map F)
      → (F.read m.buffer 512 (F.rewind m.file)).0 ≡ 512
      → (F.seek (offset_of m.alignment_offset m.block) (header_file m)).0 ≡ false
      → map_flush_cache m ≡ record m { buffer = (block_read m).1; file = F.flush (block_read m).2 }
  unfolding map_flush_cache
  flushed m r s = rw (r, s) refl

module _ {F : Sdfat} (R : IsReliable F) {m : Map F} (v : IsValid R m) where
  pub long_enough : 512 ≤ R.size m.file
  long_enough = omega (arith, offset_of-le m.alignment_offset 4608, v.room)

  pub header_file_lem :
      (R.size (header_file m) ≡ R.size m.file)
      × ((q : ℕ) → 512 ≤ q → R.bytes (header_file m) q ≡ R.bytes m.file q)
  header_file_lem =
      let r = rewind-read R m.buffer m.file long_enough in
      let l = length-header_with (F.read m.buffer 512 (F.rewind m.file)).1 m in
      let w =
        rewind-write R (with_header m) (F.read m.buffer 512 (F.rewind m.file)).2
          (rw r.2 long_enough) (l ∙ ap length r.1 ∙ R.length-bytes m.file 0) in
      (w.0 ∙ r.2, λ q h. w.1 q h ∙ r.3 q)

  -- After the call the buffer and the file are those of the map's file before.
  pub record Flushed (n : Map F) : Type 0 where
    pub same_block : n.block ≡ m.block
    pub alignment : n.alignment_offset ≡ m.alignment_offset
    pub size : R.size n.file ≡ R.size m.file
    pub buffer : n.buffer ≡ R.bytes m.file (offset_of m.alignment_offset m.block)
    pub file : (q : ℕ) → 512 ≤ q → R.bytes n.file q ≡ R.bytes m.file q

  map_flush_cache-Flushed : Flushed (map_flush_cache m)
  map_flush_cache-Flushed =
      let h = header_file_lem in
      let o = offset_of m.alignment_offset m.block in
      let r =
        seek-read R o (with_header m) (header_file m)
          (rw h.0 (offset_of-room m.alignment_offset m.block _ v.there v.room)) in
      let l = R.flush_lem (block_read m).2 in
      subst Flushed (sym (flushed m (rewind-read R m.buffer m.file long_enough).0 r.0)) (record {
        same_block = refl;
        alignment = refl;
        size = l.0 ∙ r.3 ∙ h.0;
        buffer = r.2 ∙ h.1 o (offset_of-le m.alignment_offset m.block);
        file = λ q a. l.1 q ∙ r.4 q ∙ h.1 q a;
      })

  pub file_bytes :
      {n : Map F}
      → Flushed n
      → (b : ℕ) → block_bytes R n b ≡ R.bytes m.file (offset_of m.alignment_offset b)
  unfolding block_bytes
  file_bytes {n} f b =
      let a = m.alignment_offset in
      elim (ℕ_discrete m.block b) [
        | yes e ↦ ground (arith, f.same_block, f.buffer, ap (λ c. R.bytes m.file (offset_of a c)) e)
        | no ne ↦ ground (
          arith,
          f.same_block,
          f.file (offset_of a b) (offset_of-le a b),
          ap (λ c. R.bytes n.file (offset_of c b)) f.alignment,
        )
      ]

  pub Flushed-IsValid : {n : Map F} → Flushed n → IsValid R n
  Flushed-IsValid {n} f = record {
    full = ap length f.buffer ∙ R.length-bytes m.file _;
    there = rw f.same_block v.there;
    room = rw (f.alignment, f.size) v.room;
    clean = λ _.
        f.buffer
        ∙ sym (f.file _ (offset_of-le m.alignment_offset m.block))
        ∙ ap₂ (λ a b. R.bytes n.file (offset_of a b)) (sym f.alignment) (sym f.same_block);
  }

  -- Over a reliable file, from a valid state, map_flush_cache leaves each field with the value that
  -- the map's file held before the call, and the state is valid again: a write to the block in memory
  -- that was not yet in the file is lost.
  pub map_flush_cache-fields :
      IsValid R (map_flush_cache m) × (fields R (map_flush_cache m) ≡ file_fields R m)
  unfolding fields file_fields
  map_flush_cache-fields =
      let f = map_flush_cache-Flushed in
      (
        Flushed-IsValid f,
        fun_ext λ x. fun_ext λ y.
            ap (λ b. if is_outside x y then 0 else get_or b (cell_of x y) 0)
              (file_bytes f (get_block x y)),
      )

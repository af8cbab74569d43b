-- ===== src/Map/Saved.antt =====
-- The end of a round of map_update_main in map.c: the changed block and the bounds are saved.
use mathlib.Core.Path.{fun_ext}
use ct_bot.Base.{
  ℕ, ap, subst, sym, inl, inr, ◌∙◌, ◌≡◌, refl, true, false, Bool-cases, arith, get_or, ℕ_discrete,
  if◌then◌else◌,
}
use ct_bot.Map.Place.{get_block}
use ct_bot.Map.Sdfat.{Sdfat, IsReliable, seek-read}
use ct_bot.Map.Store.{Map, offset_of, write_current, write_header, finish_update}
use ct_bot.Map.Address.{cell_of}
use ct_bot.Map.Cache.{IsValid, block_bytes, offset_of-room, written_lem}
use ct_bot.Map.Fields.{is_outside}
use ct_bot.Map.Access.{fields}
use ct_bot.Map.Flush.{
  file_fields, offset_of-le, with_header, header_file, header_file_lem, Flushed, Flushed-IsValid,
  file_bytes,
}

module _ {F : Sdfat} (R : IsReliable F) where
  -- The file has all that the map had.
  record OnDisk (m n : Map F) : Type 0 where
    valid : IsValid R n
    not_updated : n.updated ≡ false
    alignment : n.alignment_offset ≡ m.alignment_offset
    in_file : (b : ℕ) → R.bytes n.file (offset_of m.alignment_offset b) ≡ block_bytes R m b

  own_block : (m : Map F) → block_bytes R m m.block ≡ m.buffer
  unfolding block_bytes
  own_block m = ground arith

  write_current-OnDisk : {m : Map F} → IsValid R m → OnDisk m (write_current m)
  unfolding write_current
  write_current-OnDisk {m} v =
      let w = written_lem R v in
      record {
        valid = record {
          full = v.full;
          there = v.there;
          room = rw w.0 v.room;
          clean = λ _. sym (w.1 m.block ∙ own_block m);
        };
        not_updated = refl;
        alignment = refl;
        in_file = w.1;
      }

  unchanged-OnDisk : {m : Map F} → IsValid R m → m.updated ≡ false → OnDisk m m
  unfolding block_bytes
  unchanged-OnDisk {m} v u = record {
    valid = v;
    not_updated = u;
    alignment = refl;
    in_file = λ b. elim (ℕ_discrete m.block b) [
      | yes e ↦
          ground (arith, v.clean u, ap (λ c. R.bytes m.file (offset_of m.alignment_offset c)) e)
      | no ne ↦ ground arith
    ];
  }

  write_header-Flushed : {m : Map F} (v : IsValid R m) → Flushed R v (write_header m)
  unfolding write_header
  write_header-Flushed {m} v =
      let h = header_file_lem R v in
      let o = offset_of m.alignment_offset m.block in
      let r =
        seek-read R o (with_header m) (header_file m)
          (rw h.0 (offset_of-room m.alignment_offset m.block _ v.there v.room)) in
      record {
        same_block = refl;
        alignment = refl;
        size = r.3 ∙ h.0;
        buffer = r.2 ∙ h.1 o (offset_of-le m.alignment_offset m.block);
        file = λ q a. r.4 q ∙ h.1 q a;
      }

  write_header-updated : (m : Map F) → (write_header m).updated ≡ m.updated
  unfolding write_header
  write_header-updated m = refl

  -- The state is valid, its fields are those of the other, and the file holds them.
  pub record Stored (m n : Map F) : Type 0 where
    pub valid : IsValid R n
    pub in_map : fields R n ≡ fields R m
    pub in_file : file_fields R n ≡ fields R m
    pub not_updated : n.updated ≡ false

  OnDisk-Stored : {m n : Map F} → OnDisk m n → Stored m (write_header n)
  unfolding fields file_fields
  OnDisk-Stored {m} {n} d =
      let f = write_header-Flushed d.valid in
      let in_memory = λ (b : ℕ).
        file_bytes R d.valid f b
        ∙ ap (λ a. R.bytes n.file (offset_of a b)) d.alignment
        ∙ d.in_file b in
      let on_disk = λ (b : ℕ).
        ap (λ a. R.bytes (write_header n).file (offset_of a b)) (f.alignment ∙ d.alignment)
        ∙ f.file (offset_of m.alignment_offset b) (offset_of-le m.alignment_offset b)
        ∙ d.in_file b in
      record {
        valid = Flushed-IsValid R d.valid f;
        in_map = fun_ext λ x. fun_ext λ y.
            ap (λ b. if is_outside x y then 0 else get_or b (cell_of x y) 0)
              (in_memory (get_block x y));
        in_file = fun_ext λ x. fun_ext λ y.
            ap (λ b. if is_outside x y then 0 else get_or b (cell_of x y) 0)
              (on_disk (get_block x y));
        not_updated = write_header-updated n ∙ d.not_updated;
      }

  finishing :
      (m : Map F)
      → m.min_max_updated ≡ true
      → finish_update 0 m ≡ write_header (if m.updated then write_current m else m)
  unfolding finish_update
  finishing m t =
      ap (λ b. if b then write_header (if m.updated then write_current m else m) else m) t

  -- Over a reliable file, when no entry waits and the bounds of the map have changed, the end of the
  -- update thread's round takes a valid state to a valid one with the same fields, all of which the
  -- file then holds, and the block in memory is no longer marked as changed.
  pub finish_update-Stored :
      (m : Map F) → IsValid R m → m.min_max_updated ≡ true → Stored m (finish_update 0 m)
  finish_update-Stored m v t = subst (Stored m) (sym (finishing m t)) (elim (Bool-cases m.updated) [
    | inl u ↦
        subst (λ b. Stored m (write_header (if b then write_current m else m))) (sym u)
          (OnDisk-Stored (write_current-OnDisk v))
    | inr u ↦
        subst (λ b. Stored m (write_header (if b then write_current m else m))) (sym u)
          (OnDisk-Stored (unchanged-OnDisk v u))
  ])

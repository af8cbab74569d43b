-- ===== src/Map/Section.antt =====
-- get_section of map.c within the map and outside of it: which block it leaves in memory.
use ct_bot.Base.{
  ℕ, ap, ap₂, subst, sym, ◌∙◌, ◌≤◌, ◌<◌, ◌≡◌, ◌⊎◌, refl, Bool, true, false, Option, some, none,
  arith, length, ◌==◌, ℕ_discrete,
}
use ct_bot.Map.Place.{get_block, section_index, map_side, no_block}
use ct_bot.Map.Sdfat.{Sdfat, IsReliable}
use ct_bot.Map.Store.{Map, offset_of, read_block, save_block, enter_block, get_section}
use ct_bot.Map.Address.{get_block-lt, get_block-eq-no_block}
use ct_bot.Map.Cache.{
  IsValid, Keeps, Saved, save_block-Saved, loaded, read_block_lem, loaded-block_bytes,
}

module _ {F : Sdfat} where
  get_section_there :
      (x y : ℕ) (m : Map F)
      → (get_block x y == no_block) ≡ false
      → (m.block == get_block x y) ≡ true
      → get_section x y m ≡ (some (section_index x), m)
  unfolding get_section
  get_section_there x y m e t = rw (e, t) refl

  get_section_moved :
      (x y : ℕ) (m : Map F) {n k : Map F}
      → (get_block x y == no_block) ≡ false
      → (m.block == get_block x y) ≡ false
      → save_block m ≡ (true, n)
      → read_block (enter_block (get_block x y) x y n) ≡ (true, k)
      → get_section x y m ≡ (some (section_index x), k)
  unfolding get_section
  get_section_moved x y m e t s r = rw (e, t, s, r) refl

  pub get_section_outside :
      (x y : ℕ) (m : Map F) → (map_side ≤ x) ⊎ (map_side ≤ y) → get_section x y m ≡ (none, m)
  unfolding get_section
  get_section_outside x y m o = rw (get_block-eq-no_block o) refl

module _ {F : Sdfat} (R : IsReliable F) where
  -- Entering another block: it is read into the buffer, and every block has the bytes it had.
  pub record Entered (m : Map F) (b : ℕ) (m' : Map F) : Type 0 where
    pub valid : IsValid R m'
    pub keeps : Keeps R m m'
    pub block_in : m'.block ≡ b

  module _ {m n : Map F} {b : ℕ} (h : b < 4608) (v : IsValid R m) (s : Saved R m (true, n)) where
    loaded-Entered :
        (k : Map F)
        → k.block ≡ b
        → k.alignment_offset ≡ n.alignment_offset
        → k.file ≡ n.file
        → Entered m b (loaded k)
    loaded-Entered k e a f =
        let there : k.block < 4608 = subst (λ c. c < 4608) (sym e) h in
        let room : offset_of k.alignment_offset 4608 ≤ R.size k.file =
          rw (a, f, s.alignment, s.size) v.room in
        let r = read_block_lem R {m = k} there room in
        record {
          valid = record {
            full = ap length r.2 ∙ R.length-bytes k.file (offset_of k.alignment_offset k.block);
            there = there;
            room = rw r.3 room;
            clean = λ _. r.2 ∙ sym (r.4 (offset_of k.alignment_offset k.block));
          };
          keeps = record {
            same_alignment = a ∙ s.alignment;
            same_size = r.3 ∙ ap R.size f ∙ s.size;
            same_blocks = λ c.
                loaded-block_bytes R k there room c
                ∙ ap₂ (λ g o. R.bytes g (offset_of o c)) f (a ∙ s.alignment)
                ∙ s.in_file c;
          };
          block_in = e;
        }

  -- What get_section does within the map: it answers with the section of the field, whose block is
  -- then in memory.
  pub record Found (x y : ℕ) (m : Map F) (r : Option ℕ × Map F) : Type 0 where
    pub section : r.0 ≡ some (section_index x)
    pub entered : Entered m (get_block x y) r.1

  Keeps-refl : (m : Map F) → Keeps R m m
  Keeps-refl m = record { same_alignment = refl; same_size = refl; same_blocks = λ _. refl }

  Saved-true : {m : Map F} {r : Bool × Map F} → Saved R m r → Saved R m (true, r.1)
  Saved-true s = record {
    saved = refl;
    same_block = s.same_block;
    same_buffer = s.same_buffer;
    alignment = s.alignment;
    size = s.size;
    in_file = s.in_file;
  }

  Entered-block :
      {m n : Map F} {b : ℕ} (x y : ℕ)
      → b < 4608
      → IsValid R m
      → Saved R m (true, n)
      → (read_block (enter_block b x y n) ≡ (true, loaded (enter_block b x y n)))
        × Entered m b (loaded (enter_block b x y n))
  unfolding enter_block
  Entered-block {n = n} {b = b} x y lt v s =
      let e = loaded-Entered lt v s (enter_block b x y n) refl refl refl in
      let r = read_block_lem R {m = enter_block b x y n} lt (rw (s.alignment, s.size) v.room) in
      (ap₂ (λ t k. (t, k)) r.0 r.1, e)

  module _ {x y : ℕ} {m : Map F} (v : IsValid R m) (h : x < map_side) (k : y < map_side) where
    pub get_section-Found : Found x y m (get_section x y m)
    get_section-Found = elim (ℕ_discrete m.block (get_block x y)) [
      | yes e ↦
          subst (Found x y m) (sym (get_section_there x y m (ground (arith, lt)) (ground arith)))
            (record {
              section = refl;
              entered = record { valid = v; keeps = Keeps-refl m; block_in = e };
            })
      | no ne ↦
          let s = save_block-Saved R v in
          let n = (save_block m).1 in
          let t = Entered-block x y lt v (Saved-true s) in
          subst (Found x y m)
            (sym (
              get_section_moved x y m (ground (arith, lt)) (ground arith) (ap (λ b. (b, n)) s.saved)
                t.0))
            (record { section = refl; entered = t.1 })
    ]
      where
        lt : get_block x y < 4608
        lt = get_block-lt h k

-- ===== src/Map/Cache.antt =====
-- The block in memory and the file together hold the map: what save_block, read_block and
-- get_section keep of it.
use ct_bot.Base.{
  ℕ, ap, subst, sym, ◌∙◌, ◌+◌, ◌≤◌, ◌<◌, ◌≡◌, ◌≢◌, ◌⊎◌, inl, inr, refl, Bool, true, false, List,
  arith, length, ◌==◌, Bool-cases, ℕ_discrete, if◌then◌else◌,
}
use ct_bot.Map.Sdfat.{Sdfat, IsReliable, seek-write, seek-read}
use ct_bot.Map.Store.{Map, offset_of, shrink, write_block, read_block, save_block}

-- The bytes of a block, as the next access to it finds them.
unfoldable pub block_bytes : {F : Sdfat} → IsReliable F → Map F → ℕ → List ℕ
block_bytes R m b =
    if m.block == b then m.buffer else R.bytes m.file (offset_of m.alignment_offset b)

-- The file has room for all the blocks, and a block in memory that is not marked as changed is as
-- in the file.
pub record IsValid {F : Sdfat} (R : IsReliable F) (m : Map F) : Type 0 where
  pub full : length m.buffer ≡ 512
  pub there : m.block < 4608
  pub room : offset_of m.alignment_offset 4608 ≤ R.size m.file
  pub clean : m.updated ≡ false → m.buffer ≡ R.bytes m.file (offset_of m.alignment_offset m.block)

-- The parts of the state that an access leaves, and the file of the same size.
pub record Keeps {F : Sdfat} (R : IsReliable F) (m m' : Map F) : Type 0 where
  pub same_alignment : m'.alignment_offset ≡ m.alignment_offset
  pub same_size : R.size m'.file ≡ R.size m.file
  pub same_blocks : (b : ℕ) → block_bytes R m' b ≡ block_bytes R m b

pub offset_of-room : (a b n : ℕ) → b < 4608 → offset_of a 4608 ≤ n → offset_of a b + 512 ≤ n
unfolding offset_of
offset_of-room a b n h r = omega arith

offset_of-apart :
    (a b c : ℕ)
    → b ≢ c
    → (offset_of a c + 512 ≤ offset_of a b) ⊎ (offset_of a b + 512 ≤ offset_of a c)
unfolding offset_of
offset_of-apart a b c ne = elim (ℕ_discrete b c) [ yes e ↦ absurd (ne e) | no _ ↦ ground arith ]

module _ {F : Sdfat} where
  -- The file after a write of the block, and the state after it is read.
  abbrev pub written : Map F → F.File
  written m = (F.write m.buffer 512 (F.seek (offset_of m.alignment_offset m.block) m.file).1).1

  abbrev pub loaded : Map F → Map F
  loaded m =
      let o = offset_of m.alignment_offset m.block in
      let r = F.read m.buffer 512 (F.seek o m.file).1 in record m { file = r.2; buffer = r.1 }

  -- The bounds of the map are all that shrink changes.
  shrink_lem :
      (m : Map F)
      → ((shrink m).block ≡ m.block)
        × ((shrink m).buffer ≡ m.buffer)
        × ((shrink m).file ≡ m.file)
        × ((shrink m).alignment_offset ≡ m.alignment_offset)
        × ((shrink m).updated ≡ m.updated)
  unfolding shrink
  shrink_lem m = (ground arith, ground arith, ground arith, ground arith, ground arith)

module _ {F : Sdfat} (R : IsReliable F) where
  -- A block that is saved: the file holds what the memory held.
  pub record Saved (m : Map F) (r : Bool × Map F) : Type 0 where
    pub saved : r.0 ≡ true
    pub same_block : r.1.block ≡ m.block
    pub same_buffer : r.1.buffer ≡ m.buffer
    pub alignment : r.1.alignment_offset ≡ m.alignment_offset
    pub size : R.size r.1.file ≡ R.size m.file
    pub in_file : (b : ℕ) → R.bytes r.1.file (offset_of m.alignment_offset b) ≡ block_bytes R m b

  write_block_lem :
      {m : Map F}
      → IsValid R m
      → (write_block m).0 ≡ true × ((write_block m).1 ≡ record m { file = written m })
  unfolding write_block
  write_block_lem {m} v =
      let w =
        seek-write R (offset_of m.alignment_offset m.block) m.buffer m.file v.full
          (offset_of-room m.alignment_offset m.block _ v.there v.room) in
      rw (w.0, w.1) (refl, refl)

  -- The file after the write holds what the memory held.
  pub written_lem :
      {m : Map F}
      → IsValid R m
      → (R.size (written m) ≡ R.size m.file)
        × ((b : ℕ) → R.bytes (written m) (offset_of m.alignment_offset b) ≡ block_bytes R m b)
  unfolding block_bytes
  written_lem {m} v =
      let a = m.alignment_offset in
      let w =
        seek-write R (offset_of a m.block) m.buffer m.file v.full
          (offset_of-room a m.block _ v.there v.room) in
      (
        w.2,
        λ b. elim (ℕ_discrete m.block b) [
          | yes e ↦ ground (arith, w.3, ap (λ c. R.bytes (written m) (offset_of a c)) e)
          | no ne ↦ ground (arith, w.4 (offset_of a b) (offset_of-apart a m.block b ne))
        ],
      )

  shrink-IsValid : {m : Map F} → IsValid R m → IsValid R (shrink m)
  shrink-IsValid {m} v =
      let s = shrink_lem m in
      record {
        full = ap length s.1 ∙ v.full;
        there = subst (λ b. b < 4608) (sym s.0) v.there;
        room = rw (s.2, s.3) v.room;
        clean = λ e. rw (s.0, s.1, s.2, s.3) (v.clean (sym s.4 ∙ e));
      }

  shrink-block_bytes : (m : Map F) (b : ℕ) → block_bytes R (shrink m) b ≡ block_bytes R m b
  unfolding block_bytes
  shrink-block_bytes m b = let s = shrink_lem m in rw (s.0, s.1, s.2, s.3) refl

  write_shrunk-Saved : {m : Map F} → IsValid R m → Saved m (write_block (shrink m))
  write_shrunk-Saved {m} v =
      let s = shrink_lem m in
      let w = write_block_lem (shrink-IsValid v) in
      let f = written_lem (shrink-IsValid v) in
      record {
        saved = w.0;
        same_block = ap (λ n. n.block) w.1 ∙ s.0;
        same_buffer = ap (λ n. n.buffer) w.1 ∙ s.1;
        alignment = ap (λ n. n.alignment_offset) w.1 ∙ s.3;
        size = ap (λ n. R.size n.file) w.1 ∙ f.0 ∙ ap R.size s.2;
        in_file = λ b.
            ap (λ n. R.bytes n.file (offset_of m.alignment_offset b)) w.1
            ∙ ap (λ a. R.bytes (written (shrink m)) (offset_of a b)) (sym s.3)
            ∙ f.1 b
            ∙ shrink-block_bytes m b;
      }

  unchanged-Saved : {m : Map F} → IsValid R m → m.updated ≡ false → Saved m (true, m)
  unfolding block_bytes
  unchanged-Saved {m} v u = record {
    saved = refl;
    same_block = refl;
    same_buffer = refl;
    alignment = refl;
    size = refl;
    in_file = λ b. elim (ℕ_discrete m.block b) [
      | yes e ↦
          ground (arith, v.clean u, ap (λ c. R.bytes m.file (offset_of m.alignment_offset c)) e)
      | no ne ↦ ground arith
    ];
  }

  save_block_cases :
      (m : Map F)
      → ((m.updated ≡ true) × (save_block m ≡ write_block (shrink m)))
        ⊎ ((m.updated ≡ false) × (save_block m ≡ (true, m)))
  unfolding save_block
  save_block_cases m = elim (Bool-cases m.updated) [
    | inl u ↦ inl (u, ap (λ b. if b then write_block (shrink m) else (true, m)) u)
    | inr u ↦ inr (u, ap (λ b. if b then write_block (shrink m) else (true, m)) u)
  ]

  -- Before another block is read, the file holds all that the memory held.
  pub save_block-Saved : {m : Map F} → IsValid R m → Saved m (save_block m)
  save_block-Saved {m} v = elim (save_block_cases m) [
    | inl (u, e) ↦ subst (Saved m) (sym e) (write_shrunk-Saved v)
    | inr (u, e) ↦ subst (Saved m) (sym e) (unchanged-Saved v u)
  ]

  pub read_block_lem :
      {m : Map F}
      → m.block < 4608
      → offset_of m.alignment_offset 4608 ≤ R.size m.file
      → ((read_block m).0 ≡ true)
        × ((read_block m).1 ≡ loaded m)
        × ((loaded m).buffer ≡ R.bytes m.file (offset_of m.alignment_offset m.block))
        × (R.size (loaded m).file ≡ R.size m.file)
        × ((q : ℕ) → R.bytes (loaded m).file q ≡ R.bytes m.file q)
  unfolding read_block
  read_block_lem {m} h k =
      let r =
        seek-read R (offset_of m.alignment_offset m.block) m.buffer m.file
          (offset_of-room m.alignment_offset m.block _ h k) in
      (rw (r.0, r.1) refl, rw (r.0) refl, r.2, r.3, r.4)

  pub loaded-block_bytes :
      (m : Map F)
      → m.block < 4608
      → offset_of m.alignment_offset 4608 ≤ R.size m.file
      → (b : ℕ) → block_bytes R (loaded m) b ≡ R.bytes m.file (offset_of m.alignment_offset b)
  unfolding block_bytes
  loaded-block_bytes m h k b =
      let r = read_block_lem {m = m} h k in
      elim (ℕ_discrete m.block b) [
        | yes e ↦ ground (arith, r.2, ap (λ c. R.bytes m.file (offset_of m.alignment_offset c)) e)
        | no ne ↦ ground (arith, r.4 (offset_of m.alignment_offset b))
      ]

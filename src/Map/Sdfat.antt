-- ===== src/Map/Sdfat.antt =====
-- The file of the map as map.c sees it: the calls of the file system that it makes, and what they
-- promise of a file that is open and long enough. Both stand for sdfat_fs.h.
use ct_bot.Base.{ℕ, ap, subst, sym, ◌∙◌, ◌+◌, ◌≤◌, ◌≡◌, ◌⊎◌, inr, Bool, false, List, arith, length}

-- `seek` and `rewind` go to a byte of the file; `seek` answers whether it failed. `read` fills the
-- buffer it is given, and it and `write` answer with the number of bytes.
pub record Sdfat : Type 1 where
  pub File : Type 0
  pub seek : ℕ → File → Bool × File
  pub rewind : File → File
  pub read : List ℕ → ℕ → File → ℕ × List ℕ × File
  pub write : List ℕ → ℕ → File → ℕ × File
  pub flush : File → File

-- A file system without faults: `bytes d o` are the 512 bytes of `d` from byte `o` on.
pub record IsReliable (F : Sdfat) : Type 0 where
  pub size : F.File → ℕ
  pub place : F.File → ℕ
  pub bytes : F.File → ℕ → List ℕ
  pub length-bytes : (d : F.File) (o : ℕ) → length (bytes d o) ≡ 512
  pub seek_lem :
      (o : ℕ) (d : F.File)
      → o + 512 ≤ size d
      → ((F.seek o d).0 ≡ false)
        × (place (F.seek o d).1 ≡ o)
        × (size (F.seek o d).1 ≡ size d)
        × ((q : ℕ) → bytes (F.seek o d).1 q ≡ bytes d q)
  pub rewind_lem :
      (d : F.File)
      → (place (F.rewind d) ≡ 0)
        × (size (F.rewind d) ≡ size d)
        × ((q : ℕ) → bytes (F.rewind d) q ≡ bytes d q)
  pub read_lem :
      (buffer : List ℕ) (d : F.File)
      → place d + 512 ≤ size d
      → ((F.read buffer 512 d).0 ≡ 512)
        × ((F.read buffer 512 d).1 ≡ bytes d (place d))
        × (size (F.read buffer 512 d).2 ≡ size d)
        × ((q : ℕ) → bytes (F.read buffer 512 d).2 q ≡ bytes d q)
  pub write_lem :
      (buffer : List ℕ) (d : F.File)
      → length buffer ≡ 512
      → place d + 512 ≤ size d
      → ((F.write buffer 512 d).0 ≡ 512)
        × (size (F.write buffer 512 d).1 ≡ size d)
        × (bytes (F.write buffer 512 d).1 (place d) ≡ buffer)
        × ((q : ℕ)
            → (q + 512 ≤ place d) ⊎ (place d + 512 ≤ q)
            → bytes (F.write buffer 512 d).1 q ≡ bytes d q)
  pub flush_lem :
      (d : F.File) → (size (F.flush d) ≡ size d) × ((q : ℕ) → bytes (F.flush d) q ≡ bytes d q)

-- Two blocks of 512 bytes that have none in common.
abbrev pub AreApart : ℕ → ℕ → Type 0
AreApart p q = (q + 512 ≤ p) ⊎ (p + 512 ≤ q)

-- A seek with a write, and a seek with a read.
module _ {F : Sdfat} (R : IsReliable F) (o : ℕ) (buffer : List ℕ) (d : F.File) where
  abbrev sought : F.File
  sought = (F.seek o d).1

  pub seek-write :
      length buffer ≡ 512
      → o + 512 ≤ R.size d
      → ((F.seek o d).0 ≡ false)
        × ((F.write buffer 512 sought).0 ≡ 512)
        × (R.size (F.write buffer 512 sought).1 ≡ R.size d)
        × (R.bytes (F.write buffer 512 sought).1 o ≡ buffer)
        × ((q : ℕ) → AreApart o q → R.bytes (F.write buffer 512 sought).1 q ≡ R.bytes d q)
  seek-write l h =
      let s = R.seek_lem o d h in
      let w = R.write_lem buffer sought l (omega (arith, s.1, s.2, h)) in
      (
        s.0,
        w.0,
        w.1 ∙ s.2,
        subst (λ p. R.bytes (F.write buffer 512 sought).1 p ≡ buffer) s.1 w.2,
        λ q a. w.3 q (subst (λ p. AreApart p q) (sym s.1) a) ∙ s.3 q,
      )

  pub seek-read :
      o + 512 ≤ R.size d
      → ((F.seek o d).0 ≡ false)
        × ((F.read buffer 512 sought).0 ≡ 512)
        × ((F.read buffer 512 sought).1 ≡ R.bytes d o)
        × (R.size (F.read buffer 512 sought).2 ≡ R.size d)
        × ((q : ℕ) → R.bytes (F.read buffer 512 sought).2 q ≡ R.bytes d q)
  seek-read h =
      let s = R.seek_lem o d h in
      let r = R.read_lem buffer sought (omega (arith, s.1, s.2, h)) in
      (s.0, r.0, r.1 ∙ ap (R.bytes sought) s.1 ∙ s.3 o, r.2 ∙ s.2, λ q. r.3 q ∙ s.3 q)

-- The first 512 bytes of the file, read and written.
module _ {F : Sdfat} (R : IsReliable F) (buffer : List ℕ) (d : F.File) (h : 512 ≤ R.size d) where
  pub rewind-read :
      ((F.read buffer 512 (F.rewind d)).0 ≡ 512)
      × ((F.read buffer 512 (F.rewind d)).1 ≡ R.bytes d 0)
      × (R.size (F.read buffer 512 (F.rewind d)).2 ≡ R.size d)
      × ((q : ℕ) → R.bytes (F.read buffer 512 (F.rewind d)).2 q ≡ R.bytes d q)
  rewind-read =
      let s = R.rewind_lem d in
      let r = R.read_lem buffer (F.rewind d) (omega (arith, s.0, s.1, h)) in
      (r.0, r.1 ∙ ap (R.bytes (F.rewind d)) s.0 ∙ s.2 0, r.2 ∙ s.1, λ q. r.3 q ∙ s.2 q)

  pub rewind-write :
      length buffer ≡ 512
      → (R.size (F.write buffer 512 (F.rewind d)).1 ≡ R.size d)
        × ((q : ℕ) → 512 ≤ q → R.bytes (F.write buffer 512 (F.rewind d)).1 q ≡ R.bytes d q)
  rewind-write l =
      let s = R.rewind_lem d in
      let w = R.write_lem buffer (F.rewind d) l (omega (arith, s.0, s.1, h)) in
      (w.1 ∙ s.1, λ q a. w.3 q (inr (omega (arith, s.0, a))) ∙ s.2 q)

-- ===== src/Map/Faults.antt =====
-- get_section of map.c when the file fails.
use ct_bot.Base.{ℕ, ap, ◌≡◌, ◌≢◌, ◌<◌, refl, true, false, some, none, arith, ◌==◌, ◌∙◌}
use ct_bot.Map.Place.{get_block, section_index, map_side, no_block}
use ct_bot.Map.Sdfat.{Sdfat}
use ct_bot.Map.Store.{Map, read_block, save_block, enter_block, get_section}
use ct_bot.Map.Address.{get_block-lt}

module _ {F : Sdfat} where
  read_block-block : (m : Map F) → (read_block m).1.block ≡ m.block
  unfolding read_block
  read_block-block m = ground arith

  not_updated : (m : Map F) → m.updated ≡ false → save_block m ≡ (true, m)
  unfolding save_block
  not_updated m u = rw u refl

  failed :
      (x y : ℕ) (m : Map F)
      → (get_block x y == no_block) ≡ false
      → (m.block == get_block x y) ≡ false
      → m.updated ≡ false
      → (read_block (enter_block (get_block x y) x y m)).0 ≡ false
      → get_section x y m ≡ (none, (read_block (enter_block (get_block x y) x y m)).1)
  unfolding get_section
  failed x y m e t u r = rw (e, t, not_updated m u, r) refl

  again :
      (x y : ℕ) (m : Map F)
      → (get_block x y == no_block) ≡ false
      → (m.block == get_block x y) ≡ true
      → get_section x y m ≡ (some (section_index x), m)
  unfolding get_section
  again x y m e t = rw (e, t) refl

  entered : (x y b : ℕ) (m : Map F) → (enter_block b x y m).block ≡ b
  unfolding enter_block
  entered x y b m = refl

  -- Within the map, when the block in memory is another one without changes and the file cannot be
  -- read: get_section answers NULL, but asked again it answers with a section of the buffer, though
  -- the block was never read.
  pub get_section-again :
      (x y : ℕ) (m : Map F)
      → x < map_side
      → y < map_side
      → m.block ≢ get_block x y
      → m.updated ≡ false
      → (read_block (enter_block (get_block x y) x y m)).0 ≡ false
      → ((get_section x y m).0 ≡ none)
        × ((get_section x y (get_section x y m).1).0 ≡ some (section_index x))
  get_section-again x y m h k ne u r =
      let lt = get_block-lt h k in
      let inside : (get_block x y == no_block) ≡ false = ground (arith, lt) in
      let n = (read_block (enter_block (get_block x y) x y m)).1 in
      let f = failed x y m inside (ground arith) u r in
      let b : (n.block == get_block x y) ≡ true = ground (
        arith,
        read_block-block (enter_block (get_block x y) x y m),
        entered x y (get_block x y) m,
      ) in
      (ap (λ s. s.0) f, ap (λ s. (get_section x y s.1).0) f ∙ ap (λ s. s.0) (again x y n inside b))

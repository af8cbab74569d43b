-- ===== src/Pathplanning/Fields.antt =====
-- The coarse map as an array of fields, when all of its sections exist.
use ct_bot.Base.{ℕ, ◌/◌, ◌%◌, ◌<◌, ◌≡◌, ◌≢◌, true, false, ◌&&◌, none, arith, ◌==◌, if◌then◌else◌}
use ct_bot.PosStore.{Position}
use ct_bot.Pathplanning.Lowres.{
  Lowres, Memory, access_field_lowres, write_field, put_section, field_of, field_set,
  section_points,
}

abbrev pub IsWhole : Lowres → Type 0
IsWhole m = (a b : ℕ) → a < 3 → b < 3 → m.section a b ≢ none

-- The field at a place of the map.
unfoldable pub field_at : Lowres → ℕ → ℕ → ℕ
field_at m x y =
    field_of (m.section (x / section_points) (y / section_points)) (x % section_points)
      (y % section_points)

module _ (h : Memory) (m : Lowres) (p : Position) (px : p.x < 96) (py : p.y < 96) where
  pub read_lem : (v : ℕ) → access_field_lowres h p v false m ≡ (field_at m p.x p.y, m)
  unfolding access_field_lowres field_at
  read_lem v = ground (arith, px, py)

  write_lem :
      (v : ℕ)
      → IsWhole m
      → access_field_lowres h p v true m ≡ (
        v,
        put_section m (p.x / section_points) (p.y / section_points) (
            field_set
              (m.section (p.x / section_points) (p.y / section_points))
              (p.x % section_points)
              (p.y % section_points)
              v),
      )
  unfolding access_field_lowres write_field
  write_lem v w =
      ground
        (arith, px, py, w (p.x / section_points) (p.y / section_points) (omega arith) (omega arith))

  pub write-IsWhole : (v : ℕ) → IsWhole m → IsWhole (access_field_lowres h p v true m).1
  unfolding put_section
  write-IsWhole v w a b ha hb = rw (write_lem v w) (ground (arith, w a b ha hb))

  pub field_at-write :
      (v : ℕ)
      → IsWhole m
      → (x y : ℕ)
      → field_at (access_field_lowres h p v true m).1 x y
        ≡ (if x == p.x && y == p.y then v else field_at m x y)
  unfolding put_section field_at
  field_at-write v w x y = rw (write_lem v w) (ground arith)

-- ===== src/Map/WayFree.antt =====
-- What map_way_free of map.c promises of the way.
use native.Mathlib.Nat.{div-mul-le_self, div-le_of_le-mul}
use ct_bot.Base.{
  ℕ, ap, ap₂, subst, ◌∙◌, ◌-◌, ◌*◌, ◌/◌, ◌≤◌, ◌<◌, ◌≡◌, refl, arith, ℕ_discrete, true, false,
  if◌then◌else◌, ltb,
}
use ct_bot.Map.Fields.{Field, FieldStore, IsFieldStore, is_outside}
use ct_bot.Map.Client.{read_lem}
use ct_bot.Map.Line.{after, slope}
use ct_bot.Map.Update.{around}
use ct_bot.Map.Ray.{sign}
use ct_bot.Map.Ratio.{is_within, way, half, breadth, share, get_ratio}
use ct_bot.Map.Clear.{total, miss, strip_all}

pub share-full :
    (fields misses : ℕ) → misses ≤ fields → share fields (fields - misses) ≡ 255 → misses ≡ 0
share-full fields misses h e = elim (ℕ_discrete fields 0) [
  | yes z ↦ omega arith
  | no nz ↦
      let le : (fields - misses) * 255 / fields ≤ 255 = div-le_of_le-mul fields (omega arith) in
      let q : (fields - misses) * 255 / fields ≡ 255 = ground (arith, e, le) in
      let m : 255 * fields ≤ (fields - misses) * 255 =
        subst (λ z. z * fields ≤ (fields - misses) * 255) q
          (div-mul-le_self ((fields - misses) * 255) fields) in
      omega (arith, m, h)
]

-- The value that a place reads as.
abbrev pub value_at : Field → ℕ → ℕ → ℕ
value_at f x y = if is_outside x y then 0 else f x y

-- The number of fields out of bounds in the strip round the digital line, row by row, when the line
-- takes its steps along x and when it takes them along y.
module _ (f : Field) (x1 y1 sx sy width min_val max_val : ℕ) where
  abbrev pub missed : ℕ → ℕ → ℕ
  missed x y = miss (is_within min_val max_val) (value_at f x y)

  abbrev pub missed_along_x : ℕ → ℕ → ℕ
  missed_along_x dx dy = total dx 0 λ i.
      total (breadth width) 0
        λ j. missed (after x1 sx i) (around (after y1 sy (slope dx dy i)) (half width) j)

  abbrev pub missed_along_y : ℕ → ℕ → ℕ
  missed_along_y dx dy = total dy 0 λ i.
      total (breadth width) 0
        λ j. missed (around (after x1 sx (slope dy dx i)) (half width) j) (after y1 sy i)

abbrev pub out_of_bounds : Field → (x1 y1 x2 y2 width min_val max_val : ℕ) → ℕ
out_of_bounds f x1 y1 x2 y2 width min_val max_val =
    let missed = if ltb (way x1 x2) (way y1 y2) then missed_along_y else missed_along_x in
    missed f x1 y1 (sign x1 x2) (sign y1 y2) width min_val max_val (way x1 x2) (way y1 y2)

-- The number of fields of the strip.
abbrev pub area : (x1 y1 x2 y2 width : ℕ) → ℕ
area x1 y1 x2 y2 width =
    (if ltb (way x1 x2) (way y1 y2) then way y1 y2 else way x1 x2) * breadth width

-- An answer for a number of fields with some out of bounds, which leaves the fields as they are.
pub record Counted {S : FieldStore} (L : IsFieldStore S) (s : S.State) (fields misses : ℕ)
    (r : ℕ × S.State) : Type 0 where
  pub answer : r.0 ≡ share fields (fields - misses)
  pub at_most : misses ≤ fields
  pub sound : L.IsSound r.1
  pub kept : L.fields r.1 ≡ L.fields s

module _ {S : FieldStore} (L : IsFieldStore S) (x1 y1 x2 y2 width min_val max_val : ℕ)
    (hx : x1 < 65536) (hy : y1 < 65536) (s : S.State) (v : L.IsSound s) where
  abbrev dx : ℕ
  dx = way x1 x2

  abbrev dy : ℕ
  dy = way y1 y2

  -- The map keeps its fields while get_ratio reads them.
  abbrev Same : S.State → Type 0
  Same t = L.IsSound t × (L.fields t ≡ L.fields s)

  reads :
      (x y : ℕ) (t : S.State)
      → Same t
      → ((S.access_field x y 0 false t).0 ≡ value_at (L.fields s) x y)
        × Same (S.access_field x y 0 false t).1
  reads x y t (w, e) =
      let r = read_lem L x y t w in (r.2 ∙ ap (λ f. value_at f x y) e, (r.0, r.1 ∙ e))

  abbrev pub ratio : ℕ × S.State
  ratio = get_ratio S x1 y1 x2 y2 width min_val max_val s

  pub along_y :
      dx < dy
      → dy < 16384
      → dy * breadth width < 65536
      → Counted L s
          (dy * breadth width)
          (missed_along_y (L.fields s) x1 y1 (sign x1 x2) (sign y1 y2) width min_val max_val dx dy)
          ratio
  unfolding get_ratio
  along_y lt hd ha =
      let t : ltb dx dy ≡ true = ground (arith, lt) in
      let r =
        strip_all Same (is_within min_val max_val)
          (λ i side j.
            S.access_field (around side (half width) j) (after y1 (sign y1 y2) i) 0 false)
          (λ i side j. value_at (L.fields s) (around side (half width) j) (after y1 (sign y1 y2) i))
          (λ i side j. reads (around side (half width) j) (after y1 (sign y1 y2) i)) (breadth width)
          dy dx (sign x1 x2) (omega (arith, lt)) hd x1 s hx (v, refl) ha in
      rw t (record {
        answer = ap₂ share (omega (arith, ha)) r.0;
        at_most = r.1;
        sound = r.2.0;
        kept = r.2.1;
      })

  pub along_x :
      dy ≤ dx
      → dx < 16384
      → dx * breadth width < 65536
      → Counted L s
          (dx * breadth width)
          (missed_along_x (L.fields s) x1 y1 (sign x1 x2) (sign y1 y2) width min_val max_val dx dy)
          ratio
  unfolding get_ratio
  along_x le hd ha =
      let t : ltb dx dy ≡ false = ground (arith, le) in
      let r =
        strip_all Same (is_within min_val max_val)
          (λ i side j.
            S.access_field (after x1 (sign x1 x2) i) (around side (half width) j) 0 false)
          (λ i side j. value_at (L.fields s) (after x1 (sign x1 x2) i) (around side (half width) j))
          (λ i side j. reads (after x1 (sign x1 x2) i) (around side (half width) j)) (breadth width)
          dx dy (sign y1 y2) le hd y1 s hy (v, refl) ha in
      rw t (record {
        answer = ap₂ share (omega (arith, ha)) r.0;
        at_most = r.1;
        sound = r.2.0;
        kept = r.2.1;
      })

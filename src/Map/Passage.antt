-- ===== src/Map/Passage.antt =====
-- get_ratio and map_way_free of map.c: the fields of the strip that they count.
use native.Mathlib.Nat.{mul-div_cancel_left}
use ct_bot.Base.{
  ℕ, ap, subst, sym, ◌∙◌, ◌+◌, ◌-◌, ◌*◌, ◌/◌, ◌≤◌, ◌<◌, ◌≡◌, ◌↔◌, arith, dec_lt, ℕ_discrete, true,
  false, ltb, if◌then◌else◌, ◌==◌, ==_iff,
}
use ct_bot.Map.Sdfat.{Sdfat, IsReliable}
use ct_bot.Map.Store.{Map, map_flush_cache}
use ct_bot.Map.Cache.{IsValid}
use ct_bot.Map.Fields.{FieldStore, IsFieldStore}
use ct_bot.Map.Access.{map_fields, fields}
use ct_bot.Map.Flush.{file_fields, map_flush_cache-fields}
use ct_bot.Map.World.{world_to_map}
use ct_bot.Map.Ratio.{way, breadth, share, get_ratio, map_get_ratio, map_way_free}
use ct_bot.Map.WayFree.{area, out_of_bounds, Counted, along_x, along_y, share-full}

module _ {S : FieldStore} (L : IsFieldStore S) where
  -- For ways of less than 16384 fields along each axis and a strip of less than 65536 fields, whatever
  -- store keeps the fields: get_ratio answers with the share of 255 of the fields of the strip round
  -- the digital line that are within bounds, 255 for an empty strip, and changes no field.
  pub get_ratio-Counted :
      (x1 y1 x2 y2 width min_val max_val : ℕ)
      → x1 < 65536
      → y1 < 65536
      → way x1 x2 < 16384
      → way y1 y2 < 16384
      → area x1 y1 x2 y2 width < 65536
      → (s : S.State) → L.IsSound s
      → Counted L s
          (area x1 y1 x2 y2 width)
          (out_of_bounds (L.fields s) x1 y1 x2 y2 width min_val max_val)
          (get_ratio S x1 y1 x2 y2 width min_val max_val s)
  get_ratio-Counted x1 y1 x2 y2 width min_val max_val hx hy hdx hdy ha s v =
      elim (dec_lt (way x1 x2) (way y1 y2)) [
        | yes lt ↦
            let t : ltb (way x1 x2) (way y1 y2) ≡ true = ground (arith, lt) in
            let a : way y1 y2 * breadth width < 65536 =
              subst (λ b. (if b then way y1 y2 else way x1 x2) * breadth width < 65536) t ha in
            rw t (along_y L x1 y1 x2 y2 width min_val max_val hx hy s v lt hdy a)
        | no ge ↦
            let t : ltb (way x1 x2) (way y1 y2) ≡ false = ground (arith, ge) in
            let a : way x1 x2 * breadth width < 65536 =
              subst (λ b. (if b then way y1 y2 else way x1 x2) * breadth width < 65536) t ha in
            rw t (along_x L x1 y1 x2 y2 width min_val max_val hx hy s v (omega (arith, ge)) hdx a)
      ]

full-share : (fields : ℕ) → share fields (fields - 0) ≡ 255
full-share fields = elim (ℕ_discrete fields 0) [
  | yes z ↦ ground (arith, z)
  | no nz ↦
      let q : fields * 255 / fields ≡ 255 = mul-div_cancel_left 255 (omega (arith, nz)) in
      ground (arith, nz, q)
]

full_iff :
    {fields misses answer : ℕ}
    → answer ≡ share fields (fields - misses)
    → misses ≤ fields
    → ((answer == 255) ≡ true) ↔ (misses ≡ 0)
full_iff {fields} {misses} {answer} e h = (
  λ t. share-full fields misses h (sym e ∙ (==_iff answer 255).0 t),
  λ z. (==_iff answer 255).1 (e ∙ ap (λ k. share fields (fields - k)) z ∙ full-share fields),
)

world_to_map-lt : (k : ℕ) → world_to_map k < 65536
unfolding world_to_map
world_to_map-lt k = ground arith

-- Two places of the map are never more than 8191 fields from each other along an axis.
way-world_to_map : (a b : ℕ) → way (world_to_map a) (world_to_map b) < 16384
unfolding world_to_map
way-world_to_map a b = ground arith

-- The strip that map_way_free looks at, in fields.
abbrev pub lane : ℕ → ℕ
lane margin = (120 + 2 * margin) / 8

module _ {F : Sdfat} (R : IsReliable F) (from_x from_y to_x to_y margin : ℕ) where
  abbrev lane_area : ℕ
  lane_area =
      area (world_to_map from_x) (world_to_map from_y) (world_to_map to_x) (world_to_map to_y)
        (lane margin)

  abbrev obstacles : Map F → ℕ
  obstacles m =
      out_of_bounds (file_fields R m) (world_to_map from_x) (world_to_map from_y)
        (world_to_map to_x) (world_to_map to_y) (lane margin) 236 127

  -- Over a reliable file, from a valid state and for a strip of less than 65536 fields: map_way_free
  -- answers that the way is free just when none of the fields of the strip that the robot needs is
  -- below MAP_OBSTACLE_THRESHOLD in the map's file.
  pub map_way_free-Clear :
      lane_area < 65536
      → (m : Map F) → IsValid R m
      → ((map_way_free from_x from_y to_x to_y margin m).0 ≡ true) ↔ (obstacles m ≡ 0)
  unfolding map_way_free map_get_ratio
  map_way_free-Clear ha m v =
      let (w, e) = map_flush_cache-fields R v in
      let c =
        get_ratio-Counted (map_fields R) (world_to_map from_x) (world_to_map from_y)
          (world_to_map to_x) (world_to_map to_y) (lane margin) 236 127 (world_to_map-lt from_x)
          (world_to_map-lt from_y) (way-world_to_map from_x to_x) (way-world_to_map from_y to_y) ha
          (map_flush_cache m) w in
      subst
        (λ f. ((map_way_free from_x from_y to_x to_y margin m).0 ≡ true) ↔ (
          out_of_bounds f (world_to_map from_x) (world_to_map from_y) (world_to_map to_x)
            (world_to_map to_y) (lane margin) 236 127
          ≡ 0))
        e (full_iff c.answer c.at_most)

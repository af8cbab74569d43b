-- ===== src/Map/Saturate.antt =====
-- update_field of map.c: the sum of a field and a step, kept within the values of a field.
use ct_bot.Base.{
  ℕ, ap, inl, inr, Bool-cases, ◌+◌, ◌-◌, ◌<◌, ◌≡◌, ◌≢◌, arith, min, ltb, ◌==◌, if◌then◌else◌,
}
use ct_bot.Map.Fields.{Field, FieldStore, IsFieldStore, is_outside, poke}
use ct_bot.Map.Client.{read, read_lem, wrote_lem}
use ct_bot.Map.Update.{biased, hole, saturated, update_field}

-- A sum of two bytes on the biased scale, from 1 to 255: never the 0 of a hole.
abbrev pub clamped : ℕ → ℕ → ℕ
clamped a b = let sum = biased a + biased b in if ltb sum 129 then 1 else min (sum - 128) 255

-- The value that update_field computes is the sum of the two signed bytes, cut off at -127 and at
-- 127, whenever the field is no hole.
pub saturated-clamped :
    (tmp value : ℕ)
    → tmp < 256
    → value < 256
    → tmp ≢ hole
    → biased (saturated tmp value) ≡ clamped tmp value
unfolding saturated
saturated-clamped tmp value h k ne = ground arith

-- The fields after one update: a field of the map that is no hole takes its new value.
unfoldable pub updated : ℕ → ℕ → ℕ → Field → Field
updated x y value f =
    if is_outside x y
    then f
    else (if f x y == hole then f else poke f x y (saturated (f x y) value))

module _ {S : FieldStore} (L : IsFieldStore S) (x y : ℕ) (s : S.State) (v : L.IsSound s) where
  pub update_field-IsSound : (value : ℕ) → L.IsSound (update_field S x y value s)
  unfolding update_field
  update_field-IsSound value = elim (Bool-cases ((read L x y s v).0 == hole)) [
    | inl e ↦ rw e ((read_lem L x y s v).0)
    | inr e ↦ rw e ((wrote_lem L x y s v (saturated (read L x y s v).0 value)).0)
  ]

  -- Whatever store keeps the fields, update_field changes the one field that it is called for: by the
  -- saturated sum, unless the place is outside of the map or the field is a hole. All other fields
  -- stay as they are.
  pub update_field-updated :
      (value : ℕ) → L.fields (update_field S x y value s) ≡ updated x y value (L.fields s)
  unfolding updated update_field
  update_field-updated value =
      let old = (read L x y s v).0 in
      let (_, f, e) = read_lem L x y s v in
      let w = (wrote_lem L x y s v (saturated old value)).1 in
      elim (Bool-cases (is_outside x y)) [
        | inl o ↦ ground (arith, o, f, e, w)
        | inr o ↦
            let e' : old ≡ L.fields s x y = ground (arith, o, e) in
            ground (arith, o, f, e', w, ap (λ t. poke (L.fields s) x y (saturated t value)) e')
      ]

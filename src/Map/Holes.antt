-- ===== src/Map/Holes.antt =====
-- Holes in the map of map.c: no entry of the update thread takes one away.
use ct_bot.Base.{
  ℕ, zero, suc, ap, ap₂, ◌∙◌, ◌+◌, ◌*◌, ◌/◌, ◌%◌, ◌≡◌, Bool, true, false, ltb, arith, if◌then◌else◌,
}
use ct_bot.Map.Fields.{Field, FieldStore, IsFieldStore, poke}
use ct_bot.Map.Update.{
  hole, less_int8, loop, around, radius_fields, update_field, lower_field, set_value_field_circle,
  set_value_occupied,
}
use ct_bot.Map.Saturate.{updated, update_field-updated, update_field-IsSound}
use ct_bot.Map.Circle.{lower_field-Lowers}
use ct_bot.Map.Ray.{
  steps, sign, one_less, rounds, walk, free_ray, update_occupied, update_sensor_distance,
}
use ct_bot.Map.Thread.{
  Geometry, CacheEntry, from_word, update_section, update_field_circle, update_location,
  enter_border, update_border, update_distance, update_entry,
}

-- What a routine keeps when each of its steps keeps it.
module _ {A : Type 0} (P : A → Type 0) where
  loop-keeps :
      (n i : ℕ) (body : ℕ → A → A)
      → ((k : ℕ) (s : A) → P s → P (body k s))
      → (s : A) → P s
      → P (loop n i body s)
  unfolding loop
  loop-keeps zero i body step s p = p
  loop-keeps (suc n) i body step s p = loop-keeps n (suc i) body step (body i s) (step i s p)

  from_word-keeps :
      (n lo : ℕ) (body : ℕ → A → A)
      → ((k : ℕ) (s : A) → P s → P (body k s))
      → (s : A) → P s
      → P (from_word n lo body s)
  unfolding from_word
  from_word-keeps n lo body step s p =
      loop-keeps n 0 (λ k. body ((lo + k) % 65536)) (λ k. step ((lo + k) % 65536)) s p

  walk-keeps :
      (update : ℕ → ℕ → A → A) (long short sa sc : ℕ)
      → ((a b : ℕ) (s : A) → P s → P (update a b s))
      → (n along across lh : ℕ) (s : A) → P s
      → P (walk update long short sa sc n along across lh s)
  unfolding walk
  walk-keeps update long short sa sc step zero along across lh s p = p
  walk-keeps update long short sa sc step (suc n) along across lh s p =
      walk-keeps update long short sa sc step n _ _ _ (update along across s)
        (step along across s p)

  if-keeps : (c : Bool) (s t : A) → P s → P t → P (if c then s else t)
  if-keeps true s t p q = p
  if-keeps false s t p q = q

updated-hole : (x y value : ℕ) (f : Field) (p q : ℕ) → f p q ≡ hole → updated x y value f p q ≡ hole
unfolding updated poke
updated-hole x y value f p q h = ground (arith, h, ap₂ f)

module _ {S : FieldStore} (L : IsFieldStore S) (hx hy : ℕ) where
  -- The place (hx, hy) is a hole of a sound map.
  HasHole : S.State → Type 0
  HasHole s = L.IsSound s × (L.fields s hx hy ≡ hole)

  update_field-HasHole :
      (x y value : ℕ) (s : S.State) → HasHole s → HasHole (update_field S x y value s)
  unfolding HasHole
  update_field-HasHole x y value s (v, h) = (
    update_field-IsSound L x y s v value,
    ap (λ f. f hx hy) (update_field-updated L x y s v value)
        ∙ updated-hole x y value (L.fields s) hx hy h,
  )

  lower_field-HasHole : (x y : ℕ) (s : S.State) → HasHole s → HasHole (lower_field S x y hole s)
  unfolding HasHole
  lower_field-HasHole x y s (v, h) =
      let l = lower_field-Lowers L hole x y s v in
      (l.sound, ap (λ f. f hx hy) l.after ∙ ground (arith, h))

  set_value_field_circle-HasHole :
      (x y r : ℕ) (s : S.State) → HasHole s → HasHole (set_value_field_circle S x y r hole s)
  unfolding set_value_field_circle
  set_value_field_circle-HasHole x y r s p =
      loop-keeps HasHole (2 * r + 1) 0 _
        (λ i t q.
          loop-keeps HasHole (2 * r + 1) 0 _
            (λ j u w.
              if-keeps HasHole _ _ u (lower_field-HasHole (around x r i) (around y r j) u w) w)
            t q)
        s p

  set_value_occupied-HasHole :
      (x y : ℕ) (s : S.State) → HasHole s → HasHole (set_value_occupied S x y hole s)
  unfolding set_value_occupied
  set_value_occupied-HasHole x y s p =
      loop-keeps HasHole radius_fields 1 _ (λ r. set_value_field_circle-HasHole x y r) s p

  free_ray-HasHole :
      (x y ph_x ph_y value : ℕ) (s : S.State)
      → HasHole s
      → HasHole (free_ray S x y ph_x ph_y value s)
  unfolding free_ray
  free_ray-HasHole x y ph_x ph_y value s p =
      let dx = steps x ph_x in
      let dy = steps y ph_y in
      if-keeps HasHole (less_int8 dx dy) _ _
        (walk-keeps HasHole (λ a b. update_field S b a value) dy (one_less dx) (sign y ph_y)
          (sign x ph_x) (λ a b. update_field-HasHole b a value) (rounds dy) y x (dy / 2) s p)
        (walk-keeps HasHole (λ a b. update_field S a b value) dx (one_less dy) (sign x ph_x)
          (sign y ph_y) (λ a b. update_field-HasHole a b value) (rounds dx) x y (dx / 2) s p)

  update_occupied-HasHole : (x y : ℕ) (s : S.State) → HasHole s → HasHole (update_occupied S x y s)
  unfolding update_occupied
  update_occupied-HasHole x y s p =
      loop-keeps HasHole (2 * radius_fields + 1) 0 _
        (λ i t q.
          loop-keeps HasHole (2 * radius_fields + 1) 0 _
            (λ j u w. if-keeps HasHole _ _ u (update_field-HasHole _ _ _ u w) w) t q)
        s p

  update_sensor_distance-HasHole :
      (toward : ℕ → ℕ × ℕ) (x y dist : ℕ) (s : S.State)
      → HasHole s
      → HasHole (update_sensor_distance S toward x y dist s)
  unfolding update_sensor_distance
  update_sensor_distance-HasHole toward x y dist s p =
      let q = free_ray-HasHole _ _ _ _ 2 s p in
      if-keeps HasHole _ _ _ (update_occupied-HasHole _ _ _ q) q

  update_section-HasHole :
      (x y radius value section_x section_y : ℕ) (s : S.State)
      → HasHole s
      → HasHole (update_section S x y radius value section_x section_y s)
  unfolding update_section
  update_section-HasHole x y radius value section_x section_y s p =
      from_word-keeps HasHole _ _ _
        (λ i t q.
          from_word-keeps HasHole _ _ _
            (λ j u w. if-keeps HasHole _ _ u (update_field-HasHole _ _ value u w) w) t q)
        s p

  update_location-HasHole : (x y : ℕ) (s : S.State) → HasHole s → HasHole (update_location S x y s)
  unfolding update_location update_field_circle
  update_location-HasHole x y s p =
      from_word-keeps HasHole _ _ _
        (λ i t q. from_word-keeps HasHole _ _ _ (λ j. update_section-HasHole _ _ 7 20 _ _) t q) s p

  update_border-HasHole :
      (g : Geometry) (x y l r : ℕ) (s : S.State) → HasHole s → HasHole (update_border S g x y l r s)
  unfolding update_border enter_border
  update_border-HasHole g x y l r s p =
      let q = if-keeps HasHole (ltb 0 r) _ s (set_value_occupied-HasHole _ _ s p) p in
      if-keeps HasHole (ltb 0 l) _ _ (set_value_occupied-HasHole _ _ _ q) q

  update_distance-HasHole :
      (g : Geometry) (x y l r : ℕ) (s : S.State)
      → HasHole s
      → HasHole (update_distance S g x y l r s)
  unfolding update_distance
  update_distance-HasHole g x y l r s p =
      update_sensor_distance-HasHole g.toward _ _ r _
        (update_sensor_distance-HasHole g.toward _ _ l s p)

  -- Whatever an entry of the cache asks for, and whatever store keeps the fields: a place that the map
  -- has as a hole is still a hole when the update thread has entered it.
  pub update_entry-HasHole :
      (g : Geometry) (c : CacheEntry) (s : S.State)
      → L.IsSound s
      → L.fields s hx hy ≡ hole
      → L.IsSound (update_entry S g c s) × (L.fields (update_entry S g c s) hx hy ≡ hole)
  unfolding HasHole update_entry
  update_entry-HasHole g c s v h =
      let p : HasHole s = (v, h) in
      let q = if-keeps HasHole c.location _ s (update_location-HasHole c.x_pos c.y_pos s p) p in
      if-keeps HasHole c.border _ _ (update_border-HasHole g c.x_pos c.y_pos _ _ _ q)
        (if-keeps HasHole c.distance_mode _ _ (update_distance-HasHole g c.x_pos c.y_pos _ _ _ q) q)

-- ===== src/Map/RayLine.antt =====
-- The ray of a distance sensor in map.c beside the digital line between the two places.
use ct_bot.Base.{
  ℕ, zero, suc, ap, ap₂, ◌∙◌, ◌+◌, ◌-◌, ◌/◌, ◌%◌, ◌≤◌, ◌<◌, ◌≡◌, refl, arith, dec_lt, ℕ_discrete,
  true, false, ltb, if◌then◌else◌,
}
use ct_bot.Map.Fields.{FieldStore}
use ct_bot.Map.Update.{less_int8, loop, update_field}
use ct_bot.Map.Line.{after, after-suc, slope, IsAt, IsAt-slope, start-IsAt, straight, sideways}
use ct_bot.Map.Ray.{error_sum, walk, one_less, rounds, sign, steps, free_ray}

module _ {A : Type 0} (update : ℕ → ℕ → A → A) (long short sa sc : ℕ) (s≤l : short ≤ long)
    (small : long + short < 128) where
  -- The places of the line, one for each step along the longer axis.
  abbrev line : ℕ → ℕ → ℕ → ℕ → A → A
  line along across n i =
      loop n i λ j. update (after along sa j) (after across sc (slope long short j))

  walk-straight :
      (n along across lh : ℕ) (s : A)
      → lh + short < long
      → walk update long short sa sc (suc n) along across lh s
        ≡ walk update long short sa sc n
            ((along + sa) % 65536)
            across
            (lh + short)
            (update along across s)
  unfolding walk
  walk-straight n along across lh s h =
      let t : less_int8 (error_sum lh short) long ≡ true = ground arith in
      let e : error_sum lh short ≡ lh + short = omega arith in rw (t, e) refl

  walk-sideways :
      (n along across lh : ℕ) (s : A)
      → lh < long
      → long ≤ lh + short
      → walk update long short sa sc (suc n) along across lh s
        ≡ walk update long short sa sc n
            ((along + sa) % 65536)
            ((across + sc) % 65536)
            (lh + short - long)
            (update along across s)
  unfolding walk
  walk-sideways n along across lh s l h =
      let t : less_int8 (error_sum lh short) long ≡ false = ground arith in
      let e : (error_sum lh short + (256 - long)) % 256 ≡ lh + short - long = omega arith in
      rw (t, e) refl

  walk-line :
      (n i along across lh k : ℕ) (s : A)
      → IsAt long short i lh k
      → walk update long short sa sc n (after along sa i) (after across sc k) lh s
        ≡ line along across n i s
  unfolding loop
  walk-line zero i along across lh k s a = unfold walk loop in refl
  walk-line (suc n) i along across lh k s a =
      let t = update (after along sa i) (after across sc k) s in
      let here : t ≡ update (after along sa i) (after across sc (slope long short i)) s =
        ap (λ k. update (after along sa i) (after across sc k) s) (IsAt-slope a) in
      let next = after-suc along sa i in
      elim (dec_lt (lh + short) long) [
        | yes h ↦
            walk-straight n _ _ lh s h
            ∙ ap (λ x. walk update long short sa sc n x (after across sc k) (lh + short) t) next
            ∙ walk-line n (suc i) along across (lh + short) k t (straight a h)
            ∙ ap (line along across n (suc i)) here
        | no h ↦
            walk-sideways n _ _ lh s a.below (omega (arith, h))
            ∙ ap₂ (λ x y. walk update long short sa sc n x y (lh + short - long) t) next
                (after-suc across sc k)
            ∙ walk-line n (suc i) along across (lh + short - long) (suc k) t
                (sideways a s≤l (omega (arith, h)))
            ∙ ap (line along across n (suc i)) here
      ]

  walk_from :
      (along across : ℕ) (s : A)
      → along < 65536
      → across < 65536
      → walk update long short sa sc (rounds long) along across (long / 2) s
        ≡ line along across long 0 s
  walk_from along across s h k = elim (ℕ_discrete long 0) [
    | yes z ↦ rw z (unfold walk loop in refl)
    | no nz ↦
        let r : rounds long ≡ long = ground arith in
        let x : along ≡ after along sa 0 = omega arith in
        let y : across ≡ after across sc 0 = omega arith in
        ap (λ n. walk update long short sa sc n along across (long / 2) s) r
        ∙ ap₂ (λ x y. walk update long short sa sc long x y (long / 2) s) x y
        ∙ walk-line long 0 along across (long / 2) 0 s (start-IsAt (omega arith))
  ]

abbrev pub along_x : (S : FieldStore) → ℕ → ℕ → ℕ → ℕ → ℕ → ℕ → ℕ → S.State → S.State
along_x S x y sx sy dx dy step_value =
    loop dx 0 λ j. update_field S (after x sx j) (after y sy (slope dx (dy - 1) j)) step_value

abbrev pub along_y : (S : FieldStore) → ℕ → ℕ → ℕ → ℕ → ℕ → ℕ → ℕ → S.State → S.State
along_y S x y sx sy dx dy step_value =
    loop dy 0 λ j. update_field S (after x sx (slope dy (dx - 1) j)) (after y sy j) step_value

-- Whatever store keeps the fields: when the two places are so near to each other that the numbers of
-- steps along the axes add up to less than 128, the ray of update_sensor_distance updates the fields of
-- the digital line from the sensor's place on, one for each step along the longer axis, with
-- ((long / 2 + j * (short - 1)) / long) steps sideways before step j (none where short is 0).
pub free_ray-line :
    (S : FieldStore) (x y ph_x ph_y step_value : ℕ) (s : S.State)
    → x < 65536
    → y < 65536
    → steps x ph_x + steps y ph_y < 128
    → free_ray S x y ph_x ph_y step_value s ≡ (
        let dx = steps x ph_x in
        let dy = steps y ph_y in
        if ltb dx dy
        then along_y S x y (sign x ph_x) (sign y ph_y) dx dy step_value s
        else along_x S x y (sign x ph_x) (sign y ph_y) dx dy step_value s)
unfolding free_ray
free_ray-line S x y ph_x ph_y step_value s hx hy h =
    let dx = steps x ph_x in
    let dy = steps y ph_y in
    let ox : one_less dx ≡ dx - 1 = ground (arith, h) in
    let oy : one_less dy ≡ dy - 1 = ground (arith, h) in
    elim (dec_lt dx dy) [
      | yes lt ↦
          let t : less_int8 dx dy ≡ true = ground (arith, h, lt) in
          let u : ltb dx dy ≡ true = ground (arith, lt) in
          rw (t, u, ox)
            (walk_from (λ a b. update_field S b a step_value) dy (dx - 1) (sign y ph_y)
              (sign x ph_x) (omega (arith, lt)) (omega (arith, h)) y x s hy hx)
      | no ge ↦
          let t : less_int8 dx dy ≡ false = ground (arith, h, ge) in
          let u : ltb dx dy ≡ false = ground (arith, ge) in
          rw (t, u, oy)
            (walk_from (λ a b. update_field S a b step_value) dx (dy - 1) (sign x ph_x)
              (sign y ph_y) (omega (arith, ge)) (omega (arith, h)) x y s hx hy)
    ]

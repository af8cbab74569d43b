-- ===== src/Map/Occupied.antt =====
-- The circle that set_value_field_circle lowers, and the one of set_value_occupied round an obstacle.
use native.Mathlib.Nat.{mul-le-mul}
use mathlib.Core.Path.{fun_ext}
use ct_bot.Base.{
  ℕ, subst, inl, inr, sym, ◌∙◌, ◌+◌, ◌-◌, ◌*◌, ◌≤◌, ◌<◌, ◌≡◌, Bool, true, false, not, ◌&&◌,
  Bool-cases, arith, leb, dec_lt, if◌then◌else◌,
}
use ct_bot.Map.Fields.{FieldStore, IsFieldStore, is_outside}
use ct_bot.Map.Update.{
  distance, around, lower_field, set_value_field_circle, set_value_occupied, radius_fields,
}
use ct_bot.Map.Circle.{
  any, any-true, any-false, Places, Lowers, loop-Lowers, Lowers-none, one, lower_field-Lowers,
}

-- The fields of the map whose distance to (x, y) is at most r.
abbrev pub in_circle : ℕ → ℕ → ℕ → Places
in_circle x y r p q =
    not (is_outside p q) && leb (distance p x * distance p x + distance q y * distance q y) (r * r)

-- One step of the two loops, as a test of the place (p, q).
abbrev hits : ℕ → ℕ → ℕ → ℕ → ℕ → Places
hits x y r i j p q =
    leb (distance i r * distance i r + distance j r * distance j r) (r * r)
    && one (around x r i) (around y r j) p q

square-le : (a b : ℕ) → a * a ≤ b * b → a ≤ b
square-le a b h = elim (dec_lt b a) [
  | yes lt ↦
      let m : (b + 1) * (b + 1) ≤ a * a = mul-le-mul (omega arith) (omega arith) in
      absurd (omega (arith, h, m))
  | no le ↦ omega arith
]

module _ (x y r p q i j : ℕ) (rx : r ≤ x) (ry : r ≤ y) (wx : x + r < 65536)
    (wy : y + r < 65536) where
  hits-true : in_circle x y r p q ≡ true → i + x ≡ p + r → j + y ≡ q + r → hits x y r i j p q ≡ true
  unfolding is_outside
  hits-true e a b =
      let d : distance i r ≡ distance p x = omega arith in
      let d' : distance j r ≡ distance q y = omega arith in
      let px : around x r i ≡ p = ground (arith, e) in
      let qy : around y r j ≡ q = ground (arith, e) in rw (d, d', px, qy) (ground (arith, e))

  hits-false :
      i < 2 * r + 1 → j < 2 * r + 1 → in_circle x y r p q ≡ false → hits x y r i j p q ≡ false
  unfolding is_outside
  hits-false a b e = elim (Bool-cases (hits x y r i j p q)) [
    | inr f ↦ f
    | inl t ↦
        let px : p ≡ around x r i = ground (arith, t) in
        let qy : q ≡ around y r j = ground (arith, t) in
        let d : distance p x ≡ distance i r = omega (arith, px) in
        let d' : distance q y ≡ distance j r = omega (arith, qy) in
        let e' : (not (is_outside p q)
              && leb (distance i r * distance i r + distance j r * distance j r) (r * r))
            ≡ false =
          rw (← d, ← d') e in
        ground (arith, e', t)
  ]

module _ (x y r p q : ℕ) (rx : r ≤ x) (ry : r ≤ y) (wx : x + r < 65536) (wy : y + r < 65536) where
  -- The places that the two loops reach are those of the circle.
  circle_reached :
      any (2 * r + 1) 0 (λ i. any (2 * r + 1) 0 λ j. hits x y r i j p q) ≡ in_circle x y r p q
  circle_reached = elim (Bool-cases (in_circle x y r p q)) [
    | inl e ↦
        let dx : distance p x ≤ r = square-le _ _ (ground (arith, e)) in
        let dy : distance q y ≤ r = square-le _ _ (ground (arith, e)) in
        any-true (2 * r + 1) 0 (p + r - x) (λ i. any (2 * r + 1) 0 λ j. hits x y r i j p q)
          (omega arith) (omega arith)
          (any-true (2 * r + 1) 0 (q + r - y) (λ j. hits x y r (p + r - x) j p q) (omega arith)
            (omega arith)
            (hits-true x y r p q (p + r - x) (q + r - y) rx ry wx wy e (omega arith) (omega arith)))
        ∙ sym e
    | inr e ↦
        any-false (2 * r + 1) 0 (λ i. any (2 * r + 1) 0 λ j. hits x y r i j p q)
          (λ i _ a.
            any-false (2 * r + 1) 0 (λ j. hits x y r i j p q)
              (λ j _ b.
                hits-false x y r p q i j rx ry wx wy (omega (arith, a)) (omega (arith, b)) e))
        ∙ sym e
  ]

module _ {S : FieldStore} (L : IsFieldStore S) (value x y : ℕ) where
  Lowers-same :
      {a b : Places} {s t : S.State}
      → Lowers L value a s t
      → ((p q : ℕ) → a p q ≡ b p q)
      → Lowers L value b s t
  Lowers-same {s = s} {t = t} f e =
      subst (λ c. Lowers L value c s t) (fun_ext λ p. fun_ext λ q. e p q) f

  step-Lowers :
      (r i j : ℕ) (s : S.State)
      → L.IsSound s
      → Lowers L value (hits x y r i j) s (
          if leb (distance i r * distance i r + distance j r * distance j r) (r * r)
          then lower_field S (around x r i) (around y r j) value s
          else s)
  step-Lowers r i j s v =
      when (leb (distance i r * distance i r + distance j r * distance j r) (r * r))
        (lower_field-Lowers L value (around x r i) (around y r j) s v)
    where
      when :
          {a : Places} {t : S.State} (c : Bool)
          → Lowers L value a s t
          → Lowers L value (λ p q. c && a p q) s (if c then t else s)
      when true f = f
      when false f = Lowers-none L value s v

  module _ (r : ℕ) (rx : r ≤ x) (ry : r ≤ y) (wx : x + r < 65536) (wy : y + r < 65536) where
    circle-Lowers :
        (s : S.State)
        → L.IsSound s
        → Lowers L value (in_circle x y r) s (set_value_field_circle S x y r value s)
    unfolding set_value_field_circle
    circle-Lowers s v =
        Lowers-same
          (loop-Lowers L value (2 * r + 1) 0 _ (λ i p q. any (2 * r + 1) 0 λ j. hits x y r i j p q)
            (λ i _ _ t w.
              loop-Lowers L value (2 * r + 1) 0 _ (λ j. hits x y r i j) (λ j _ _. step-Lowers r i j)
                t w)
            s v)
          λ p q. circle_reached x y r p q rx ry wx wy

  circles_nested :
      (p q : ℕ) → any radius_fields 1 (λ r. in_circle x y r p q) ≡ in_circle x y radius_fields p q
  circles_nested p q = elim (Bool-cases (in_circle x y radius_fields p q)) [
    | inl e ↦
        any-true radius_fields 1 6 (λ r. in_circle x y r p q) (omega arith) (omega arith) e ∙ sym e
    | inr e ↦
        any-false radius_fields 1 (λ r. in_circle x y r p q)
          (λ r _ l.
            let m : r * r ≤ 6 * 6 =
              mul-le-mul {n₂ = 6} {m₂ = 6} (omega (arith, l)) (omega (arith, l)) in
            ground (arith, e, m))
        ∙ sym e
  ]

  -- An obstacle at (x, y), at least six fields away from the ends of the coordinates: set_value_occupied
  -- lowers to the given value just those fields of the map that are at most MAP_RADIUS_FIELDS = 6
  -- away from it and greater than the value, whatever store keeps them; all others stay as they are.
  pub set_value_occupied-Lowers :
      6 ≤ x
      → 6 ≤ y
      → x + 6 < 65536
      → y + 6 < 65536
      → (s : S.State) → L.IsSound s
      → Lowers L value (in_circle x y 6) s (set_value_occupied S x y value s)
  unfolding set_value_occupied
  set_value_occupied-Lowers hx hy wx wy s v =
      Lowers-same
        (loop-Lowers L value radius_fields 1 _ (λ r. in_circle x y r)
          (λ r _ l.
            circle-Lowers r (omega (arith, l)) (omega (arith, l)) (omega (arith, l))
              (omega (arith, l)))
          s v)
        circles_nested

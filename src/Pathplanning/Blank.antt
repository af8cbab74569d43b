-- ===== src/Pathplanning/Blank.antt =====
-- delete_lowres of behaviour_pathplanning.c leaves a map with all its sections and no mark.
use ct_bot.Base.{
  ℕ, zero, suc, ◌*◌, subst, ◌+◌, ◌%◌, ◌/◌, ◌<◌, ◌≤◌, ◌≡◌, ◌≢◌, true, none, arith, ℕ_discrete,
}
use ct_bot.Map.Update.{loop}
use ct_bot.Pathplanning.Lowres.{
  Lowres, Memory, access_field_lowres, write_field, put_section, field_set, section_points,
  delete_lowres,
}
use ct_bot.Pathplanning.Fields.{IsWhole, field_at}

-- What a loop over numbers below `bound` keeps, and what holds of each number behind it.
module _ {A : Type 0} (bound : ℕ) (body : ℕ → A → A) where
  bounded_keeps :
      (P : A → Type 0)
      → ((k : ℕ) (s : A) → k < bound → P s → P (body k s))
      → (n i : ℕ) (s : A) → i + n ≤ bound
      → P s
      → P (loop n i body s)
  unfolding loop
  bounded_keeps P keeps zero i s le p = p
  bounded_keeps P keeps (suc n) i s le p =
      bounded_keeps P keeps n (suc i) (body i s) (omega (arith, le))
        (keeps i s (omega (arith, le)) p)

  bounded_covers :
      (P : ℕ → A → Type 0)
      → ((k : ℕ) (s : A) → k < bound → P k (body k s))
      → ((k j : ℕ) (s : A) → k < bound → P j s → P j (body k s))
      → (n i : ℕ) (s : A) → i + n ≤ bound
      → (k : ℕ) → i ≤ k
      → k < i + n
      → P k (loop n i body s)
  unfolding loop
  bounded_covers P makes keeps zero i s le k lo hi = absurd (omega (arith, lo, hi))
  bounded_covers P makes keeps (suc n) i s le k lo hi = elim (ℕ_discrete i k) [
    | yes e ↦
        subst (λ j. P j (loop n (suc i) body (body i s))) e
          (bounded_keeps (P i) (λ j t. keeps j i t) n (suc i) (body i s) (omega (arith, le))
            (makes i s (omega (arith, le))))
    | no ne ↦
        bounded_covers P makes keeps n (suc i) (body i s) (omega (arith, le)) k
          (omega (arith, lo, ne)) (omega (arith, hi))
  ]

module _ (h : Memory) (has : (m : Lowres) → h.malloc m ≡ true) where
  abbrev wiped : ℕ → ℕ → Lowres → Lowres
  wiped i j m = (access_field_lowres h (record { x = i; y = j }) 0 true m).1

  wiped_lem :
      (i j : ℕ) (m : Lowres)
      → i < 96
      → j < 96
      → wiped i j m
        ≡ put_section m (i / section_points) (j / section_points) (
            field_set
              (m.section (i / section_points) (j / section_points))
              (i % section_points)
              (j % section_points)
              0)
  unfolding access_field_lowres write_field
  wiped_lem i j m hi hj = ground (arith, has m, hi, hj)

  -- The fields that are wiped so far: their sections exist, and they are 0.
  IsWiped : ℕ → ℕ → Lowres → Type 0
  IsWiped x y m =
      (m.section (x / section_points) (y / section_points) ≢ none) × (field_at m x y ≡ 0)

  wiped_self : (i j : ℕ) (m : Lowres) → i < 96 → j < 96 → IsWiped i j (wiped i j m)
  unfolding IsWiped put_section field_at
  wiped_self i j m hi hj = rw (wiped_lem i j m hi hj) (ground arith, ground arith)

  wiped_keeps :
      (i j : ℕ) (m : Lowres)
      → i < 96
      → j < 96
      → (x y : ℕ) → IsWiped x y m
      → IsWiped x y (wiped i j m)
  unfolding IsWiped put_section field_at
  wiped_keeps i j m hi hj x y w =
      rw (wiped_lem i j m hi hj) (ground (arith, w.0), ground (arith, w.1))

  wipe_row : ℕ → Lowres → Lowres
  wipe_row j = loop 96 0 λ i m. wiped i j m

  IsRow : ℕ → Lowres → Type 0
  IsRow y m = (x : ℕ) → x < 96 → IsWiped x y m

  wipe_row_lem : (j : ℕ) (m : Lowres) → j < 96 → IsRow j (wipe_row j m)
  unfolding wipe_row IsRow
  wipe_row_lem j m hj x hx =
      bounded_covers 96 (λ i. wiped i j) (λ k. IsWiped k j) (λ k s hk. wiped_self k j s hk hj)
        (λ k l s hk. wiped_keeps k j s hk hj l j) 96 0 m (omega arith) x (omega arith)
        (omega (arith, hx))

  wipe_row_keeps : (j y : ℕ) (m : Lowres) → j < 96 → IsRow y m → IsRow y (wipe_row j m)
  unfolding wipe_row IsRow
  wipe_row_keeps j y m hj w x hx =
      bounded_keeps 96 (λ i. wiped i j) (IsWiped x y) (λ k s hk. wiped_keeps k j s hk hj x y) 96 0 m
        (omega arith) (w x hx)

  -- As long as there is memory, delete_lowres leaves a map with all its sections, whose fields are
  -- all 0, whatever sections it had before.
  pub delete_lowres-IsWhole :
      (m : Lowres)
      → IsWhole (delete_lowres h m)
        × ((x y : ℕ) → x < 96 → y < 96 → field_at (delete_lowres h m) x y ≡ 0)
  unfolding delete_lowres wipe_row IsRow IsWiped
  delete_lowres-IsWhole m =
      let rows : (y : ℕ) → y < 96 → IsRow y (delete_lowres h m) = λ y hy.
        bounded_covers 96 wipe_row IsRow (λ j s hj. wipe_row_lem j s hj)
          (λ j k s hj. wipe_row_keeps j k s hj) 96 0 m (omega arith) y (omega arith)
          (omega (arith, hy)) in
      (
        λ a b ha hb.
            let ea : 32 * a / section_points ≡ a = omega arith in
            let eb : 32 * b / section_points ≡ b = omega arith in
            subst (λ p. (delete_lowres h m).section p b ≢ none) ea
              (subst (λ q. (delete_lowres h m).section (32 * a / section_points) q ≢ none) eb
                (rows (32 * b) (omega (arith, hb)) (32 * a) (omega (arith, ha))).0),
        λ x y hx hy. (rows y hy x hx).1,
      )

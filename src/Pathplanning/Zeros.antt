-- ===== src/Pathplanning/Zeros.antt =====
-- The number of free fields of the coarse map, which the wave uses up.
use ct_bot.Base.{
  ℕ, zero, suc, ap₂, sym, subst, ◌+◌, ◌*◌, ◌<◌, ◌≤◌, ◌≡◌, ◌≢◌, ◌⊎◌, inl, inr, refl, arith, ◌==◌,
  if◌then◌else◌, ℕ_discrete,
}
use ct_bot.PosStore.{Position}
use ct_bot.Pathplanning.Lowres.{Lowres, Area}
use ct_bot.Pathplanning.Wave.{Search}
use ct_bot.Pathplanning.Fields.{field_at}
use ct_bot.Pathplanning.Step.{Marks}

unfoldable sum_below : ℕ → (ℕ → ℕ) → ℕ
sum_below zero f = 0
sum_below (suc n) f = f n + sum_below n f

sum_below-same : (n : ℕ) (f g : ℕ → ℕ) → ((i : ℕ) → f i ≡ g i) → sum_below n f ≡ sum_below n g
unfolding sum_below
sum_below-same zero f g e = refl
sum_below-same (suc n) f g e = ap₂ (λ a b. a + b) (e n) (sum_below-same n f g e)

sum_below-apart :
    (n k : ℕ) (f g : ℕ → ℕ) → n ≤ k → ((i : ℕ) → i ≢ k → f i ≡ g i) → sum_below n f ≡ sum_below n g
unfolding sum_below
sum_below-apart zero k f g h e = refl
sum_below-apart (suc n) k f g h e =
    ap₂ (λ a b. a + b) (e n (omega (arith, h))) (sum_below-apart n k f g (omega (arith, h)) e)

sum_below-drop :
    (n k : ℕ) (f g : ℕ → ℕ)
    → k < n
    → ((i : ℕ) → i ≢ k → f i ≡ g i)
    → f k ≡ g k + 1
    → sum_below n f ≡ sum_below n g + 1
unfolding sum_below
sum_below-drop zero k f g h e d = absurd (omega (arith, h))
sum_below-drop (suc n) k f g h e d = elim (ℕ_discrete n k) [
  | yes same ↦
      let last : f n ≡ g n + 1 = subst (λ j. f j ≡ g j + 1) (sym same) d in
      omega (arith, last, sum_below-apart n k f g (omega (arith, same)) e)
  | no ne ↦ omega (arith, e n ne, sum_below-drop n k f g (omega (arith, h, ne)) e d)
]

sum_below-le : (n c : ℕ) (f : ℕ → ℕ) → ((i : ℕ) → f i ≤ c) → sum_below n f ≤ n * c
unfolding sum_below
sum_below-le zero c f e = omega arith
sum_below-le (suc n) c f e = omega (arith, e n, sum_below-le n c f e)

abbrev is_zero : ℕ → ℕ
is_zero v = if v == 0 then 1 else 0

pub zeros : Lowres → ℕ
zeros l = sum_below 96 λ x. sum_below 96 λ y. is_zero (field_at l x y)

pub zeros-le : (l : Lowres) → zeros l ≤ 9216
unfolding zeros
zeros-le l = omega (
  arith,
  sum_below-le 96 96 (λ x. sum_below 96 λ y. is_zero (field_at l x y))
      (λ x. omega (arith, sum_below-le 96 1 (λ y. is_zero (field_at l x y)) (λ y. ground arith))),
)

-- A field that is marked with a number uses up one, and one marked with 0 none.
module _ {a : Area} {p : Position} {s t : Search} (m : Marks a p s t) where
  apart :
      (x y : ℕ)
      → (x ≢ p.x) ⊎ (y ≢ p.y)
      → is_zero (field_at s.fields x y) ≡ is_zero (field_at t.fields x y)
  apart x y ne = ground (arith, m.fields x y, ne)

  pub zeros-marked : p.x < 96 → p.y < 96 → s.wavecounter ≢ 0 → zeros s.fields ≡ zeros t.fields + 1
  unfolding zeros
  zeros-marked px py ne =
      sum_below-drop 96 p.x _ _ px (λ x nx. sum_below-same 96 _ _ (λ y. apart x y (inl nx)))
        (sum_below-drop 96 p.y _ _ py (λ y ny. apart p.x y (inr ny))
          (ground (arith, m.fields p.x p.y, m.free, ne)))

  pub zeros-unmarked : s.wavecounter ≡ 0 → zeros s.fields ≡ zeros t.fields
  unfolding zeros
  zeros-unmarked e =
      sum_below-same 96 _ _
        (λ x. sum_below-same 96 _ _ (λ y. ground (arith, m.fields x y, m.free, e)))

-- ===== src/Map/Circle.antt =====
-- set_value_field_circle and set_value_occupied of map.c: which fields they lower.
use mathlib.Core.Path.{fun_ext}
use ct_bot.Base.{
  ℕ, zero, suc, ap, ap₂, inl, inr, ◌∙◌, ◌+◌, ◌≤◌, ◌<◌, ◌≡◌, refl, Bool, true, false, not, ◌&&◌,
  ◌||◌, Bool-cases, arith, ◌==◌, dec_lt, if◌then◌else◌,
}
use ct_bot.Map.Fields.{Field, FieldStore, IsFieldStore, is_outside, poke}
use ct_bot.Map.Client.{read, read_lem, wrote, wrote_lem}
use ct_bot.Map.Update.{less_int8, loop, lower_field}

-- A test for some number of `n` from `i` on.
abbrev pub any : ℕ → ℕ → (ℕ → Bool) → Bool
any zero i test = false
any (suc n) i test = test i || any n (suc i) test

pub any-true :
    (n i k : ℕ) (test : ℕ → Bool) → i ≤ k → k < i + n → test k ≡ true → any n i test ≡ true
any-true zero i k test h l e = absurd (omega arith)
any-true (suc n) i k test h l e = elim (dec_lt i k) [
  | yes lt ↦ ground (arith, any-true n (suc i) k test lt (omega arith) e)
  | no ge ↦ let same : k ≡ i = omega arith in ground (arith, e, ap test same)
]

pub any-false :
    (n i : ℕ) (test : ℕ → Bool)
    → ((k : ℕ) → i ≤ k → k < i + n → test k ≡ false)
    → any n i test ≡ false
any-false zero i test none = refl
any-false (suc n) i test none = ground (
  arith,
  none i (omega arith) (omega arith),
  any-false n (suc i) test (λ k h l. none k (omega arith) (omega arith)),
)

abbrev pub Places : Type 0
Places = ℕ → ℕ → Bool

-- The fields with those at some places lowered to a value.
abbrev pub lower : ℕ → ℕ → ℕ
lower value t = if less_int8 value t then value else t

abbrev pub lowered : ℕ → Places → Field → Field
lowered value at f p q = if at p q then lower value (f p q) else f p q

lower-lower : (value t : ℕ) → lower value (lower value t) ≡ lower value t
lower-lower value t = ground arith

-- The place of one field.
abbrev pub one : ℕ → ℕ → Places
one x y p q = not (is_outside x y) && p == x && q == y

-- What a routine does that lowers the fields at some places.
pub record Lowers {S : FieldStore} (L : IsFieldStore S) (value : ℕ) (places : Places)
    (s t : S.State) : Type 0 where
  pub sound : L.IsSound t
  pub after : L.fields t ≡ lowered value places (L.fields s)

module _ {S : FieldStore} (L : IsFieldStore S) (value : ℕ) where
  pub Lowers-none : (s : S.State) → L.IsSound s → Lowers L value (λ _ _. false) s s
  Lowers-none s v = record { sound = v; after = refl }

  pub Lowers-both :
      {a b : Places} {s t u : S.State}
      → Lowers L value a s t
      → Lowers L value b t u
      → Lowers L value (λ p q. a p q || b p q) s u
  Lowers-both {a} {b} {s} f g = record {
    sound = g.sound;
    after = g.after ∙ ap (lowered value b) f.after ∙ fun_ext λ p. fun_ext λ q. twice p q;
  }
    where
      twice :
          (p q : ℕ)
          → lowered value b (lowered value a (L.fields s)) p q
            ≡ lowered value (λ p q. a p q || b p q) (L.fields s) p q
      twice p q = elim (Bool-cases (a p q)) [
        | inl e ↦ ground (arith, e, lower-lower value (L.fields s p q))
        | inr e ↦ ground (arith, e)
      ]

  pub loop-Lowers :
      (n i : ℕ) (body : ℕ → S.State → S.State) (at : ℕ → Places)
      → ((k : ℕ)
          → i ≤ k
          → k < i + n
          → (s : S.State) → L.IsSound s
          → Lowers L value (at k) s (body k s))
      → (s : S.State) → L.IsSound s
      → Lowers L value (λ p q. any n i (λ k. at k p q)) s (loop n i body s)
  unfolding loop
  loop-Lowers zero i body at step s v = Lowers-none s v
  loop-Lowers (suc n) i body at step s v =
      let f = step i (omega arith) (omega arith) s v in
      Lowers-both f (
        loop-Lowers n (suc i) body at (λ k h l. step k (omega (arith, h)) (omega (arith, l)))
          (body i s) f.sound)

  module _ (x y : ℕ) (s : S.State) (v : L.IsSound s) where
    abbrev pub old : ℕ
    old = (read L x y s v).0

    higher : less_int8 value old ≡ true → Lowers L value (one x y) s (wrote L x y s v value).1
    higher e = record {
      sound = (wrote_lem L x y s v value).0;
      after = (wrote_lem L x y s v value).1 ∙ fun_ext λ p. fun_ext λ q. same p q;
    }
      where
        same :
            (p q : ℕ)
            → (if is_outside x y then L.fields s else poke (L.fields s) x y value) p q
              ≡ lowered value (one x y) (L.fields s) p q
        same p q = unfold poke in ground (arith, e, (read_lem L x y s v).2, ap₂ (L.fields s))

    not_higher : less_int8 value old ≡ false → Lowers L value (one x y) s (read L x y s v).1
    not_higher e = record {
      sound = (read_lem L x y s v).0;
      after = (read_lem L x y s v).1 ∙ fun_ext λ p. fun_ext λ q. same p q;
    }
      where
        same : (p q : ℕ) → L.fields s p q ≡ lowered value (one x y) (L.fields s) p q
        same p q = ground (arith, e, (read_lem L x y s v).2, ap₂ (L.fields s))

    pub lower_field-Lowers : Lowers L value (one x y) s (lower_field S x y value s)
    unfolding lower_field
    lower_field-Lowers = elim (Bool-cases (less_int8 value old)) [
      | inl e ↦ rw e (higher e)
      | inr e ↦ rw e (not_higher e)
    ]

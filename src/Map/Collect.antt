-- ===== src/Map/Collect.antt =====
-- What get_average_fields of map.c answers, over any store of fields: the loops, their sum and the
-- mean value.
use native.Mathlib.Nat.{mul-le-mul}
use ct_bot.Base.{
  ℕ, zero, suc, ap, subst, sym, ◌∙◌, ◌+◌, ◌*◌, ◌≤◌, ◌<◌, ◌≡◌, refl, arith, ℕ_discrete, inl, inr,
  true, false, leb, Bool, Bool-cases, if◌then◌else◌,
}
use ct_bot.Map.Fields.{FieldStore, IsFieldStore, Field}
use ct_bot.Map.Client.{read_lem}
use ct_bot.Map.WayFree.{value_at}
use ct_bot.Map.Update.{biased, distance, around, loop}
use ct_bot.Map.Average.{Average, with_field, turns, add_field, get_average_fields}
use ct_bot.Map.Mean.{IsBetween, with_field-IsBetween, mean-between}

-- A loop whose steps each count at most `c` and of which step `k` takes P to Q.
module _ {A : Type 0} (P Q : ℕ → A → Type 0) (c : ℕ) (body : ℕ → A → A)
    (keeps : (k m : ℕ) (s : A) → P m s → P (c + m) (body k s))
    (stays : (k m : ℕ) (s : A) → Q m s → Q (c + m) (body k s)) where
  loop-counts : (n i m : ℕ) (s : A) → Q m s → Q (n * c + m) (loop n i body s)
  unfolding loop
  loop-counts zero i m s p = subst (λ t. Q t s) (omega arith) p
  loop-counts (suc n) i m s p =
      subst (λ t. Q t (loop n (suc i) body (body i s))) (omega arith)
        (loop-counts n (suc i) (c + m) (body i s) (stays i m s p))

  loop-reaches :
      (k : ℕ)
      → ((m : ℕ) (s : A) → P m s → Q (c + m) (body k s))
      → (n i m : ℕ) (s : A) → i ≤ k
      → k < i + n
      → P m s
      → Q (n * c + m) (loop n i body s)
  unfolding loop
  loop-reaches k at zero i m s l h p = absurd (omega (arith, l, h))
  loop-reaches k at (suc n) i m s l h p = elim (ℕ_discrete i k) [
    | yes e ↦
        subst (λ t. Q t (loop n (suc i) body (body i s))) (omega arith)
          (loop-counts n (suc i) (c + m) (body i s)
            (subst (λ j. Q (c + m) (body j s)) (sym e) (at m s p)))
    | no ne ↦
        subst (λ t. Q t (loop n (suc i) body (body i s))) (omega arith)
          (loop-reaches k at n (suc i) (c + m) (body i s) (omega (arith, l, ne)) (omega (arith, h))
            (keeps i m s p))
  ]

-- Field number (i, j) of the square round (x, y) is in the circle.
abbrev pub is_near : ℕ → ℕ → ℕ → Bool
is_near radius i j =
    leb (distance i radius * distance i radius + distance j radius * distance j radius)
      (radius * radius)

-- The fields of the circle are bytes from `lo` to `hi`.
abbrev pub AreBetween : Field → (x y radius lo hi : ℕ) → Type 0
AreBetween f x y radius lo hi =
    (i j : ℕ)
    → is_near radius i j ≡ true
    → (value_at f (around x radius i) (around y radius j) < 256)
      × (lo ≤ biased (value_at f (around x radius i) (around y radius j)))
      × (biased (value_at f (around x radius i) (around y radius j)) ≤ hi)

module _ {S : FieldStore} (L : IsFieldStore S) (f : Field) (x y radius lo hi : ℕ) (b : hi < 256)
    (within : AreBetween f x y radius lo hi) where
  -- What the loops keep after at most `m` fields, and after one at least.
  record Collected (m : ℕ) (z : Average × S.State) : Type 0 where
    sound : L.IsSound z.1
    same : L.fields z.1 ≡ f
    few : m < 32768 → z.0.count ≤ m
    between : m < 32768 → IsBetween lo hi z.0

  unfoldable Filled : ℕ → Average × S.State → Type 0
  Filled m z = Collected m z × (m < 32768 → 0 < z.0.count)

  later : {m : ℕ} {z : Average × S.State} → Collected m z → Collected (1 + m) z
  later w = record {
    sound = w.sound;
    same = w.same;
    few = λ h. omega (arith, w.few (omega (arith, h)));
    between = λ h. w.between (omega (arith, h));
  }

  -- The state in which a field of the circle is counted.
  abbrev taken : (i j : ℕ) → Average × S.State → Average × S.State
  taken i j (a, s) =
      let (v, t) = S.access_field (around x radius i) (around y radius j) 0 false s in
      (with_field v a, t)

  collect :
      (i j m : ℕ) (a : Average) (s : S.State)
      → is_near radius i j ≡ true
      → Collected m (a, s)
      → Filled (1 + m) (add_field S x y radius i j (a, s))
  unfolding add_field Filled
  collect i j m a s e w =
      let (sound, kept, read) = read_lem L (around x radius i) (around y radius j) s w.sound in
      let v = (S.access_field (around x radius i) (around y radius j) 0 false s).0 in
      let here : v ≡ value_at f (around x radius i) (around y radius j) =
        read ∙ ap (λ g. value_at g (around x radius i) (around y radius j)) w.same in
      let (byte, low, high) =
        subst (λ n. (n < 256) × (lo ≤ biased n) × (biased n ≤ hi)) (sym here) (within i j e) in
      let more : 1 + m < 32768 → (with_field v a).count ≡ a.count + 1 =
        λ h. omega (arith, h, w.few (omega (arith, h))) in
      subst (λ t. Filled (1 + m) (if t then taken i j (a, s) else (a, s))) (sym e)
        (
          record {
            sound = sound;
            same = kept ∙ w.same;
            few = λ h. omega (arith, more h, w.few (omega (arith, h)));
            between = λ h.
                with_field-IsBetween lo hi v a byte low high b
                  (omega (arith, h, w.few (omega (arith, h)))) (w.between (omega (arith, h)));
          },
          λ h. omega (arith, more h),
        )

  skip :
      (i j m : ℕ) (z : Average × S.State)
      → is_near radius i j ≡ false
      → add_field S x y radius i j z ≡ z
  unfolding add_field
  skip i j m (a, s) e = ap (λ t. if t then taken i j (a, s) else (a, s)) e

  step-Collected :
      (i j m : ℕ) (z : Average × S.State)
      → Collected m z
      → Collected (1 + m) (add_field S x y radius i j z)
  unfolding Filled
  step-Collected i j m (a, s) w = elim (Bool-cases (is_near radius i j)) [
    | inl e ↦ (collect i j m a s e w).0
    | inr e ↦ subst (Collected (1 + m)) (sym (skip i j m (a, s) e)) (later w)
  ]

  step-Filled :
      (i j m : ℕ) (z : Average × S.State)
      → Filled m z
      → Filled (1 + m) (add_field S x y radius i j z)
  unfolding Filled
  step-Filled i j m (a, s) (w, p) = elim (Bool-cases (is_near radius i j)) [
    | inl e ↦ collect i j m a s e w
    | inr e ↦
        subst (Filled (1 + m)) (sym (skip i j m (a, s) e)) (later w, λ h. p (omega (arith, h)))
  ]

  -- The middle of the circle is one of its fields.
  near_middle : is_near radius radius radius ≡ true
  near_middle =
      let d : distance radius radius ≡ 0 = omega arith in
      ap (λ z. leb (z * z + z * z) (radius * radius)) d ∙ ground arith

  collected_row :
      (n i m : ℕ) (z : Average × S.State)
      → Collected m z
      → Collected (n * 1 + m) (loop n 0 (λ j. add_field S x y radius i j) z)
  collected_row n i m z =
      loop-counts Collected Collected 1 _ (step-Collected i) (step-Collected i) n 0 m z

  filled_row :
      (n i m : ℕ) (z : Average × S.State)
      → Filled m z
      → Filled (n * 1 + m) (loop n 0 (λ j. add_field S x y radius i j) z)
  filled_row n i m z = loop-counts Filled Filled 1 _ (step-Filled i) (step-Filled i) n 0 m z

  middle_row :
      (n m : ℕ) (z : Average × S.State)
      → radius < n
      → Collected m z
      → Filled (n * 1 + m) (loop n 0 (λ j. add_field S x y radius radius j) z)
  middle_row n m z h =
      loop-reaches Collected Filled 1 _ (step-Collected radius) (step-Filled radius) radius
        (λ m' (a, s). collect radius radius m' a s near_middle) n 0 m z (omega arith)
        (omega (arith, h))

  circle :
      (n : ℕ) (z : Average × S.State)
      → radius < n
      → Collected 0 z
      → Filled (n * (n * 1) + 0) (loop n 0 (λ i. loop n 0 (λ j. add_field S x y radius i j)) z)
  circle n z h =
      loop-reaches Collected Filled (n * 1) _ (collected_row n) (filled_row n) radius
        (λ m' z'. middle_row n m' z' h) n 0 0 z (omega arith) (omega (arith, h))

module _ {S : FieldStore} (L : IsFieldStore S) where
  -- For a radius of at most 90 fields, whatever store keeps the fields: when all fields of the circle
  -- are bytes from `lo` to `hi`, on the scale from 0 for -128 to 255 for 127, so is the answer of
  -- get_average_fields, and no field changes.
  pub get_average_fields-between :
      (x y radius lo hi : ℕ) (s : S.State)
      → radius ≤ 90
      → hi < 256
      → L.IsSound s
      → AreBetween (L.fields s) x y radius lo hi
      → (lo ≤ biased (get_average_fields S x y radius s).0)
        × (biased (get_average_fields S x y radius s).0 ≤ hi)
        × (L.fields (get_average_fields S x y radius s).1 ≡ L.fields s)
  unfolding get_average_fields Filled
  get_average_fields-between x y radius lo hi s r b v within =
      let n : turns radius ≡ 2 * radius + 1 = ground (arith, r) in
      let start : Collected L (L.fields s) x y radius lo hi b within 0
          (record { avg = 0; count = 0 }, s) =
        record {
          sound = v;
          same = refl;
          few = λ _. omega arith;
          between = λ _. record { total = 0; low = omega arith; high = omega arith; is_sum = refl };
        } in
      let (w, p) =
        circle L (L.fields s) x y radius lo hi b within (turns radius) _ (omega (arith, n)) start in
      let le : turns radius ≤ 181 = omega (arith, n, r) in
      let m : turns radius * (turns radius * 1) + 0 < 32768 = omega (arith, mul-le-mul le le) in
      let (low, high) = mean-between lo hi _ b (p m) (omega (arith, m, w.few m)) (w.between m) in
      (low, high, w.same)

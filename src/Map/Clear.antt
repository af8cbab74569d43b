-- ===== src/Map/Clear.antt =====
-- get_ratio of map.c beside the number of fields of the strip that are out of bounds.
use ct_bot.Base.{
  ℕ, zero, suc, ap, sym, ◌+◌, ◌-◌, ◌*◌, ◌/◌, ◌%◌, ◌≤◌, ◌<◌, ◌≡◌, refl, arith, dec_lt, ℕ_discrete,
  subst, Bool, true, false, if◌then◌else◌,
}
use ct_bot.Map.Store.{less_int16}
use ct_bot.Map.Line.{after, after-suc, slope, IsAt, IsAt-slope, start-IsAt, straight, sideways}
use ct_bot.Map.Ratio.{row, strip}

abbrev pub total : ℕ → ℕ → (ℕ → ℕ) → ℕ
total zero i g = 0
total (suc n) i g = g i + total n (suc i) g

-- 1 for a value that is out of bounds.
abbrev pub miss : (ℕ → Bool) → ℕ → ℕ
miss within v = if within v then 0 else 1

-- A reader answers with the values of `g` and leaves what `P` says of the state.
abbrev pub Reads : {A : Type 0} → (A → Type 0) → (ℕ → A → ℕ × A) → (ℕ → ℕ) → Type 0
Reads {A} P field g = (j : ℕ) (s : A) → P s → ((field j s).0 ≡ g j) × P (field j s).1

module _ {A : Type 0} (P : A → Type 0) (within : ℕ → Bool) where
  row_lem :
      (field : ℕ → A → ℕ × A) (g : ℕ → ℕ)
      → Reads P field g
      → (n j count : ℕ) (s : A) → P s
      → count + n < 65536
      → ((row field within n j count s).0 + total n j (λ k. miss within (g k)) ≡ count + n)
        × P (row field within n j count s).1
  unfolding row
  row_lem field g reads zero j count s p h = (omega arith, p)
  row_lem field g reads (suc n) j count s p h =
      let (e, p') = reads j s p in
      let c = if within (field j s).0 then (count + 1) % 65536 else count in
      let bound : c + n < 65536 = ground arith in
      let (r, q) = row_lem field g reads n (suc j) c (field j s).1 p' bound in
      let m : c + miss within (g j) ≡ count + 1 = ground (arith, e, ap within e, h) in
      (omega (arith, r, m), q)

  module _ (field : ℕ → ℕ → ℕ → A → ℕ × A) (g : ℕ → ℕ → ℕ → ℕ)
      (reads : (i side : ℕ) → Reads P (field i side) (g i side)) (breadth long short step : ℕ)
      (s≤l : short ≤ long) (small : long < 16384) where
    -- The fields of the strip that are out of bounds, row by row along the digital line.
    abbrev pub misses : ℕ → ℕ → ℕ → ℕ
    misses side0 n i =
        total n i
          λ k. total breadth 0 λ j. miss within (g k (after side0 step (slope long short k)) j)

    abbrev pub strip_from : ℕ → ℕ → ℕ → ℕ → ℕ → A → ℕ × A
    strip_from = strip field within breadth long short step

    abbrev first_row : ℕ → ℕ → ℕ → A → ℕ × A
    first_row i side count s = row (field i side) within breadth 0 count s

    strip-straight :
        (n i side lh count : ℕ) (s : A)
        → lh + short < long
        → strip_from (suc n) i side lh count s
          ≡ strip_from n
              (suc i)
              side
              (lh + short)
              (first_row i side count s).0
              (first_row i side count s).1
    unfolding strip
    strip-straight n i side lh count s h =
        let e : (lh + short) % 65536 ≡ lh + short = omega arith in
        let t : less_int16 (lh + short) long ≡ true = ground arith in rw (e, t) refl

    strip-sideways :
        (n i side lh count : ℕ) (s : A)
        → lh < long
        → long ≤ lh + short
        → strip_from (suc n) i side lh count s
          ≡ strip_from n
              (suc i)
              ((side + step) % 65536)
              (lh + short - long)
              (first_row i side count s).0
              (first_row i side count s).1
    unfolding strip
    strip-sideways n i side lh count s l h =
        let e : (lh + short) % 65536 ≡ lh + short = omega arith in
        let t : less_int16 (lh + short) long ≡ false = ground arith in
        let d : (lh + short + (65536 - long)) % 65536 ≡ lh + short - long = omega arith in
        rw (e, t, d) refl

    strip_lem :
        (n i side0 lh k count : ℕ) (s : A)
        → P s
        → IsAt long short i lh k
        → count + n * breadth < 65536
        → ((strip field within breadth long short step n i (after side0 step k) lh count s).0
              + misses side0 n i
            ≡ count + n * breadth)
          × P (strip field within breadth long short step n i (after side0 step k) lh count s).1
    strip_lem zero i side0 lh k count s p a h = unfold strip in (omega arith, p)
    strip_lem (suc n) i side0 lh k count s p a h =
        let side = after side0 step k in
        let (c, t) = first_row i side count s in
        let (r, q) =
          row_lem (field i side) (g i side) (reads i side) breadth 0 count s p (omega (arith, h)) in
        let at : side ≡ after side0 step (slope long short i) =
          ap (after side0 step) (IsAt-slope a) in
        let m = ap (λ z. total breadth 0 λ j. miss within (g i z j)) at in
        let bound : c + n * breadth < 65536 = omega (arith, h, r) in
        elim (dec_lt (lh + short) long) [
          | yes l ↦
              let (e, p') = strip_lem n (suc i) side0 (lh + short) k c t q (straight a l) bound in
              rw (strip-straight n i side lh count s l) (omega (arith, e, r, m), p')
          | no l ↦
              let (e, p') =
                strip_lem n (suc i) side0 (lh + short - long) (suc k) c t q
                  (sideways a s≤l (omega (arith, l))) bound in
              rw
                (
                  strip-sideways n i side lh count s a.below (omega (arith, l)),
                  after-suc side0 step k,
                )
                (omega (arith, e, r, m), p')
        ]

    -- From its first row on, the strip counts the fields that are not out of bounds.
    pub strip_all :
        (side0 : ℕ) (s : A)
        → side0 < 65536
        → P s
        → long * breadth < 65536
        → ((strip_from long 0 side0 (long / 2) 0 s).0 ≡ long * breadth - misses side0 long 0)
          × (misses side0 long 0 ≤ long * breadth)
          × P (strip_from long 0 side0 (long / 2) 0 s).1
    strip_all side0 s h p b = elim (ℕ_discrete long 0) [
      | yes z ↦ rw z (unfold strip in (omega arith, omega arith, p))
      | no nz ↦
          let e : side0 ≡ after side0 step 0 = omega arith in
          let (r, q) =
            strip_lem long 0 side0 (long / 2) 0 0 s p (start-IsAt (omega (arith, nz)))
              (omega (arith, b)) in
          let same = ap (λ z. strip_from long 0 z (long / 2) 0 s) e in
          (
            omega (arith, r, ap (λ z. z.0) same),
            omega (arith, r),
            subst P (sym (ap (λ z. z.1) same)) q,
          )
    ]

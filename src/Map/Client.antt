-- ===== src/Map/Client.antt =====
-- A field of the map read and then written, as the clients of the store do it.
use ct_bot.Base.{ℕ, ap, ◌∙◌, ◌≡◌, true, false, Bool-cases, inl, inr, arith, if◌then◌else◌}
use ct_bot.Map.Fields.{FieldStore, IsFieldStore, is_outside, poke, accessed}

module _ {S : FieldStore} (L : IsFieldStore S) (x y : ℕ) (s : S.State) (v : L.IsSound s) where
  abbrev pub read : ℕ × S.State
  read = S.access_field x y 0 false s

  abbrev pub wrote : ℕ → ℕ × S.State
  wrote value = S.access_field x y value true read.1

  -- A field read and then written.
  pub read_lem :
      L.IsSound read.1
      × (L.fields read.1 ≡ L.fields s)
      × (read.0 ≡ (if is_outside x y then 0 else L.fields s x y))
  unfolding accessed
  read_lem =
      let a = L.access_lem x y 0 false s v in
      (
        L.access-IsSound x y 0 false s v,
        ap (λ r. r.1) a ∙ elim (Bool-cases (is_outside x y)) [
          | inl o ↦ ground (arith, o)
          | inr o ↦ ground (arith, o)
        ],
        ap (λ r. r.0) a ∙ elim (Bool-cases (is_outside x y)) [
          | inl o ↦ ground (arith, o)
          | inr o ↦ ground (arith, o)
        ],
      )

  pub wrote_lem :
      (value : ℕ)
      → L.IsSound (wrote value).1
        × (L.fields (wrote value).1
            ≡ (if is_outside x y then L.fields s else poke (L.fields s) x y value))
  unfolding accessed
  wrote_lem value =
      let (v', f, _) = read_lem in
      let a = L.access_lem x y value true read.1 v' in
      (
        L.access-IsSound x y value true read.1 v',
        ap (λ r. r.1) a ∙ elim (Bool-cases (is_outside x y)) [
          | inl o ↦ ground (arith, o, f)
          | inr o ↦ ground (arith, o, ap (λ g. poke g x y value) f)
        ],
      )

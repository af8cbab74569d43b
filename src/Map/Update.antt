-- ===== src/Map/Update.antt =====
-- The changes of map.c to single fields and to the fields round an obstacle: update_field,
-- set_value_field_circle and set_value_occupied, over any store of fields. A field is the 8-bit word
-- of an `int8_t`, a coordinate the 16-bit word of an `int16_t`.
use ct_bot.Base.{
  ℕ, zero, suc, ◌+◌, ◌-◌, ◌*◌, ◌%◌, Bool, true, false, ◌||◌, ltb, leb, ◌==◌, if◌then◌else◌,
}
use ct_bot.Map.Fields.{FieldStore}

-- A signed byte on a scale from 0 to 255, and `a < b` of two of them.
abbrev pub biased : ℕ → ℕ
biased a = (a + 128) % 256

abbrev pub less_int8 : ℕ → ℕ → Bool
less_int8 a b = ltb (biased a) (biased b)

-- The word of a hole, -128.
abbrev pub hole : ℕ
hole = 128

-- The new value of a field that update_field changes.
unfoldable pub saturated : ℕ → ℕ → ℕ
saturated tmp value =
    let new_value = (tmp + value) % 256 in
    if less_int8 0 value
    then (if less_int8 new_value tmp then 127 else new_value)
    else (if less_int8 tmp new_value || new_value == 128 then 129 else new_value)

-- `body` for `n` numbers from `i` on.
unfoldable pub loop : {A : Type 0} → ℕ → ℕ → (ℕ → A → A) → A → A
loop zero i body s = s
loop (suc n) i body s = loop n (suc i) body (body i s)

-- The distance of the numbers, and the coordinate `x - r + i`.
abbrev pub distance : ℕ → ℕ → ℕ
distance a b = (a - b) + (b - a)

abbrev pub around : ℕ → ℕ → ℕ → ℕ
around x r i = (x + (65536 - r) + i) % 65536

abbrev pub radius_fields : ℕ
radius_fields = 6

module _ (S : FieldStore) where
  unfoldable pub update_field : ℕ → ℕ → ℕ → S.State → S.State
  update_field x y value s =
      let (tmp, s1) = S.access_field x y 0 false s in
      if tmp == hole then s1 else (S.access_field x y (saturated tmp value) true s1).1

  -- A field becomes `value` if it is greater.
  unfoldable pub lower_field : ℕ → ℕ → ℕ → S.State → S.State
  lower_field x y value s =
      let (tmp, s1) = S.access_field x y 0 false s in
      if less_int8 value tmp then (S.access_field x y value true s1).1 else s1

  -- `dX` and `dY` run from -radius to radius: they are `i - radius` and `j - radius`.
  unfoldable pub set_value_field_circle : ℕ → ℕ → ℕ → ℕ → S.State → S.State
  set_value_field_circle x y radius value = loop (2 * radius + 1) 0 λ i.
      loop (2 * radius + 1) 0 λ j s.
        if leb (distance i radius * distance i radius + distance j radius * distance j radius)
          (radius * radius)
        then lower_field (around x radius i) (around y radius j) value s
        else s

  unfoldable pub set_value_occupied : ℕ → ℕ → ℕ → S.State → S.State
  set_value_occupied x y val = loop radius_fields 1 λ r s. set_value_field_circle x y r val s

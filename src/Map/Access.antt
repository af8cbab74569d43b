-- ===== src/Map/Access.antt =====
-- access_field of map.c beside the bare fields of the map.
use mathlib.Core.Path.{fun_ext}
use ct_bot.Base.{
  ℕ, ap, ap₂, subst, sym, ◌∙◌, ◌≤◌, ◌<◌, ◌≡◌, ◌⊎◌, inl, inr, refl, Bool, true, false, some, List,
  arith, set, get_or, ℕ_discrete, dec_lt, if◌then◌else◌, get_or-set_self, get_or-set_ne, length-set,
}
use ct_bot.Map.Place.{get_block, section_index, map_side}
use ct_bot.Map.Sdfat.{Sdfat, IsReliable}
use ct_bot.Map.Store.{Map, get_section, access_cell, access_section, access_field}
use ct_bot.Map.Address.{cell_of, cell_of-lt, get_block-cell, x_at, y_at}
use ct_bot.Map.Cache.{IsValid, Keeps, block_bytes}
use ct_bot.Map.Section.{get_section-Found, get_section_outside}
use ct_bot.Map.Fields.{
  Field, FieldStore, IsFieldStore, Call, accesses, accesses_lem, flat, is_outside, poke, accessed,
}

-- The fields that the block in memory and the file hold together.
unfoldable pub fields : {F : Sdfat} → IsReliable F → Map F → Field
fields R m x y =
    if is_outside x y then 0 else get_or (block_bytes R m (get_block x y)) (cell_of x y) 0

same_place :
    {x y p q : ℕ}
    → x < map_side
    → y < map_side
    → p < map_side
    → q < map_side
    → get_block p q ≡ get_block x y
    → cell_of p q ≡ cell_of x y
    → (p ≡ x) × (q ≡ y)
same_place h k i j e c =
    let a = get_block-cell h k in
    let b = get_block-cell i j in (sym b.0 ∙ ap₂ x_at e c ∙ a.0, sym b.1 ∙ ap₂ y_at e c ∙ a.1)

is_outside-cases :
    (x y : ℕ)
    → ((is_outside x y ≡ true) × ((map_side ≤ x) ⊎ (map_side ≤ y)))
      ⊎ ((is_outside x y ≡ false) × (x < map_side) × (y < map_side))
unfolding is_outside
is_outside-cases x y = elim (dec_lt x map_side) [
  | yes h ↦ elim (dec_lt y map_side) [
    | yes k ↦ inr (ground arith, h, k)
    | no k ↦ inl (ground arith, inr (omega arith))
  ]
  | no h ↦ inl (ground arith, inl (omega arith))
]

module _ {F : Sdfat} where
  access_field_none :
      (x y value : ℕ) (write : Bool) (m : Map F)
      → (map_side ≤ x) ⊎ (map_side ≤ y)
      → access_field x y value write m ≡ (0, m)
  unfolding access_field access_section
  access_field_none x y value write m o = rw (get_section_outside x y m o) refl

  access_field_some :
      (x y value : ℕ) (write : Bool) (m : Map F)
      → (get_section x y m).0 ≡ some (section_index x)
      → access_field x y value write m ≡ access_cell (cell_of x y) value write (get_section x y m).1
  unfolding access_field access_section
  access_field_some x y value write m e = rw e refl

abbrev pub map_store : Sdfat → FieldStore
map_store F = record { State = Map F; access_field = access_field }

module _ {F : Sdfat} (R : IsReliable F) where
  fields-Keeps : {m n : Map F} → Keeps R m n → fields R n ≡ fields R m
  unfolding fields
  fields-Keeps k = fun_ext λ x. fun_ext λ y.
      ap (λ b. if is_outside x y then 0 else get_or b (cell_of x y) 0)
        (k.same_blocks (get_block x y))

  module _ {x y : ℕ} {m : Map F} (v : IsValid R m) (h : x < map_side) (k : y < map_side) where
    -- A field in the block in memory.
    module _ (e : m.block ≡ get_block x y) where
      cell_read : get_or m.buffer (cell_of x y) 0 ≡ fields R m x y
      unfolding fields is_outside block_bytes
      cell_read = ground (arith, h, k, e)

      cell_written :
          (value p q : ℕ)
          → fields R (record m { buffer = set m.buffer (cell_of x y) value; updated = true }) p q
            ≡ poke (fields R m) x y value p q
      unfolding fields block_bytes poke
      cell_written value p q = elim (is_outside-cases p q) [
        | inl (o, a) ↦ ground (arith, h, k, o, a)
        | inr (o, i, j) ↦ elim (ℕ_discrete (get_block p q) (get_block x y)) [
          | no ne ↦ ground (arith, o, e, ap₂ get_block)
          | yes b ↦ elim (ℕ_discrete (cell_of p q) (cell_of x y)) [
            | no ne ↦ ground (
              arith,
              o,
              e,
              b,
              get_or-set_ne m.buffer (cell_of x y) (cell_of p q) value 0,
              ap₂ cell_of,
            )
            | yes c ↦
                let s = same_place h k i j b c in
                let r =
                  get_or-set_self m.buffer (cell_of x y) value 0 (rw v.full (cell_of-lt x y h)) in
                ground (
                  arith,
                  o,
                  e,
                  b,
                  s.0,
                  s.1,
                  ap (λ i. get_or (set m.buffer (cell_of x y) value) i 0) c ∙ r,
                )
          ]
        ]
      ]

      access_cell_lem :
          (value : ℕ) (write : Bool)
          → (
            (access_cell (cell_of x y) value write m).0,
            fields R (access_cell (cell_of x y) value write m).1,
          )
            ≡ accessed x y value write (fields R m)
      unfolding access_cell accessed is_outside
      access_cell_lem value true =
          ap₂ (λ a f. (a, f))
            (get_or-set_self m.buffer (cell_of x y) value 0 (rw v.full (cell_of-lt x y h)))
            (fun_ext λ p. fun_ext λ q. cell_written value p q)
          ∙ ground (arith, h, k)
      access_cell_lem value false = ap (λ a. (a, fields R m)) cell_read ∙ ground (arith, h, k)

    access_cell-IsValid :
        (value : ℕ) (write : Bool) → IsValid R (access_cell (cell_of x y) value write m).1
    unfolding access_cell
    access_cell-IsValid value true = record {
      full = length-set m.buffer (cell_of x y) value ∙ v.full;
      there = v.there;
      room = v.room;
      clean = λ u. cc;
    }
    access_cell-IsValid value false = v

  module _ (x y value : ℕ) (write : Bool) (m : Map F) (v : IsValid R m) where
    pub record Accessed (r : ℕ × Map F) : Type 0 where
      pub valid : IsValid R r.1
      pub reply : (r.0, fields R r.1) ≡ accessed x y value write (fields R m)

    inside-Accessed : x < map_side → y < map_side → Accessed (access_field x y value write m)
    inside-Accessed h k =
        let f = get_section-Found R v h k in
        let n = (get_section x y m).1 in
        let w = f.entered.valid in
        subst Accessed (sym (access_field_some x y value write m f.section)) (record {
          valid = access_cell-IsValid {x = x} {y = y} {m = n} w h k value write;
          reply =
              access_cell_lem {x = x} {y = y} {m = n} w h k f.entered.block_in value write
              ∙ ap (accessed x y value write) (fields-Keeps f.entered.keeps);
        })

    outside-Accessed : (map_side ≤ x) ⊎ (map_side ≤ y) → Accessed (access_field x y value write m)
    outside-Accessed o =
        subst Accessed (sym (access_field_none x y value write m o))
          (record { valid = v; reply = unfold accessed is_outside in ground (arith, o) })

    pub access_field-Accessed : Accessed (access_field x y value write m)
    access_field-Accessed = elim (is_outside-cases x y) [
      | inl (_, o) ↦ outside-Accessed o
      | inr (_, h, k) ↦ inside-Accessed h k
    ]

  -- The map of map.c is a store of fields.
  abbrev pub map_fields : IsFieldStore (map_store F)
  map_fields = record {
    IsSound = IsValid R;
    fields = fields R;
    access-IsSound = λ x y value write m v. (access_field-Accessed x y value write m v).valid;
    access_lem = λ x y value write m v. (access_field-Accessed x y value write m v).reply;
  }

  -- Over a reliable file, reads and writes of fields in any order, from a valid state on, answer as
  -- those of bare fields would, whichever blocks they bring into memory: a field holds the value last
  -- written to it, and places outside of the map read 0 and are not written. The fields at the end
  -- agree as well.
  pub access_field_calls_refine :
      (cs : List Call) (m : Map F)
      → IsValid R m
      → ((accesses (map_store F) cs m).0, fields R (accesses (map_store F) cs m).1)
        ≡ accesses flat cs (fields R m)
  access_field_calls_refine cs m v = accesses_lem map_fields cs m v

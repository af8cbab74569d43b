-- ===== src/Map/Fields.antt =====
-- The map as its clients see it: a field for each place, behind access_field of map.c.
use ct_bot.Base.{ℕ, ap, ◌∙◌, ◌≡◌, refl, Bool, List, [], ◌∷◌, ◌&&◌, ◌||◌, leb, ◌==◌, if◌then◌else◌}
use ct_bot.Map.Place.{map_side}

pub record FieldStore : Type 1 where
  pub State : Type 0
  pub access_field : ℕ → ℕ → ℕ → Bool → State → ℕ × State

-- The fields of a map: the bytes of the places within it.
abbrev pub Field : Type 0
Field = ℕ → ℕ → ℕ

unfoldable pub is_outside : ℕ → ℕ → Bool
is_outside x y = leb map_side x || leb map_side y

unfoldable pub poke : Field → ℕ → ℕ → ℕ → Field
poke f x y value p q = if p == x && q == y then value else f p q

-- One access to the bare fields.
unfoldable pub accessed : ℕ → ℕ → ℕ → Bool → Field → ℕ × Field
accessed x y value write f =
    if is_outside x y then (0, f) else (if write then (value, poke f x y value) else (f x y, f))

-- The map without blocks and file.
abbrev pub flat : FieldStore
flat = record { State = Field; access_field = accessed }

pub record Call : Type 0 where
  pub x : ℕ
  pub y : ℕ
  pub value : ℕ
  pub write : Bool

-- The replies of calls one after the other, and the state that they leave.
abbrev pub accesses : (S : FieldStore) → List Call → S.State → List ℕ × S.State
accesses S [] s = ([], s)
accesses S (c ∷ cs) s =
    let (a, t) = S.access_field c.x c.y c.value c.write s in
    let (replies, u) = accesses S cs t in (a ∷ replies, u)

-- A store of fields, whatever it keeps them in: its accesses answer as those to the bare fields.
pub record IsFieldStore (S : FieldStore) : Type 1 where
  pub IsSound : S.State → Type 0
  pub fields : S.State → Field
  pub access-IsSound :
      (x y value : ℕ) (write : Bool) (s : S.State)
      → IsSound s
      → IsSound (S.access_field x y value write s).1
  pub access_lem :
      (x y value : ℕ) (write : Bool) (s : S.State)
      → IsSound s
      → ((S.access_field x y value write s).0, fields (S.access_field x y value write s).1)
        ≡ accessed x y value write (fields s)

module _ {S : FieldStore} (L : IsFieldStore S) where
  pub accesses-IsSound :
      (cs : List Call) (s : S.State) → L.IsSound s → L.IsSound (accesses S cs s).1
  accesses-IsSound [] s v = v
  accesses-IsSound (c ∷ cs) s v =
      accesses-IsSound cs (S.access_field c.x c.y c.value c.write s).1
        (L.access-IsSound c.x c.y c.value c.write s v)

  pub accesses_lem :
      (cs : List Call) (s : S.State)
      → L.IsSound s
      → ((accesses S cs s).0, L.fields (accesses S cs s).1) ≡ accesses flat cs (L.fields s)
  accesses_lem [] s v = refl
  accesses_lem (c ∷ cs) s v =
      let t = (S.access_field c.x c.y c.value c.write s).1 in
      let a = L.access_lem c.x c.y c.value c.write s v in
      let later = accesses_lem cs t (L.access-IsSound c.x c.y c.value c.write s v) in
      ap (λ r. ((S.access_field c.x c.y c.value c.write s).0 ∷ r.0, r.1)) later
      ∙ ap (λ r. (r.0 ∷ (accesses flat cs r.1).0, (accesses flat cs r.1).1)) a

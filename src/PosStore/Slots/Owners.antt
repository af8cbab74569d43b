-- ===== src/PosStore/Slots/Owners.antt =====
-- The array of stores: valid stores, each behaviour with one of them at most.
use ct_bot.Base.{
  ℕ, zero, suc, ◌≡◌, ◌≢◌, refl, subst, sym, ap, ◌∙◌, Option, none, some, List, [], ◌∷◌, arith,
  ==_iff, true, same_ptr, All, All-modify, get_elem?, modify, inl, inr, Bool-cases, Option-cases,
}
use ct_bot.PosStore.{Position, PosStore}
use ct_bot.PosStore.Ring.{IsRing}
use ct_bot.PosStore.Slots.{from_beh, release, released, next_index}

-- A store with an owner is valid.
abbrev pub Usable : PosStore → Type 0
Usable s = s.owner ≢ none → (buf : List Position) × IsRing buf s

abbrev pub NotOf : ℕ → PosStore → Type 0
NotOf o s = s.owner ≢ some o

-- No behaviour owns two stores.
abbrev pub Distinct : List PosStore → Type 0
Distinct [] = Unit {0}
Distinct (s ∷ ss) = ((o : ℕ) → s.owner ≡ some o → All (NotOf o) ss) × Distinct ss

pub record IsValid (slots : List PosStore) : Type 0 where
  pub usable : All Usable slots
  pub distinct : Distinct slots

pub same_ptr_iff : (a : Option ℕ) (o : ℕ) → same_ptr a (some o) ≡ true → a ≡ some o
same_ptr_iff none o h = cc
same_ptr_iff (some a) o h = ground (arith, ==_iff a o)

pub from_beh_found :
    (slots : List PosStore) (o : Option ℕ) (i : ℕ)
    → from_beh slots o ≡ some i
    → (s : PosStore) × (get_elem? slots i ≡ some s) × (same_ptr s.owner o ≡ true)
unfolding from_beh
from_beh_found [] o i e = absurd (cc)
from_beh_found (s ∷ ss) o i e = elim (Bool-cases (same_ptr s.owner o)) [
  | inl hit ↦ let p : i ≡ 0 = ground arith in rw p (s, refl, hit)
  | inr miss ↦ elim (Option-cases (from_beh ss o)) [
    | inl n ↦ absurd (ground arith)
    | inr (j, r) ↦ let p : i ≡ suc j = ground arith in rw p (from_beh_found ss o j r)
  ]
]

pub from_beh-none :
    (slots : List PosStore) (o : ℕ) → from_beh slots (some o) ≡ none → All (NotOf o) slots
unfolding from_beh
from_beh-none [] o e = tt
from_beh-none (s ∷ ss) o e = (
  λ same. ground (arith, ap (λ w. same_ptr w (some o)) same, ==_iff o o),
  from_beh-none ss o (ground (arith, Option-cases (from_beh ss (some o)))),
)

pub from_beh_absent :
    (slots : List PosStore) (o : ℕ) → All (NotOf o) slots → from_beh slots (some o) ≡ none
unfolding from_beh
from_beh_absent [] o a = refl
from_beh_absent (s ∷ ss) o a = ground (arith, a.0, same_ptr_iff s.owner o, from_beh_absent ss o a.1)

-- A change of one store that takes no owner over keeps the array valid.
pub Distinct-drop :
    (f : PosStore → PosStore) (slots : List PosStore) (i : ℕ)
    → ((s : PosStore) (o : ℕ) → (f s).owner ≡ some o → s.owner ≡ some o)
    → Distinct slots
    → Distinct (modify slots i f)
Distinct-drop f [] i keep d = d
Distinct-drop f (s ∷ ss) zero keep d = (λ o e. d.0 o (keep s o e), d.1)
Distinct-drop f (s ∷ ss) (suc i) keep d = (
  λ o e. All-modify (NotOf o) f ss i (λ t g n h. n (keep t o h)) (d.0 o e),
  Distinct-drop f ss i keep d.1,
)

pub released-owner : (s : PosStore) → (released s).owner ≡ none
unfolding released
released-owner s = ground arith

-- Giving a store back keeps the array valid.
pub release-IsValid :
    (slots : List PosStore) (store : Option ℕ) → IsValid slots → IsValid (release slots store)
unfolding release
release-IsValid slots none v = v
release-IsValid slots (some i) v = record {
  usable = All-modify Usable released slots i (λ s g u h. absurd (h (released-owner s))) v.usable;
  distinct = Distinct-drop released slots i (λ s o e. ground (arith, released-owner s)) v.distinct;
}

absent-release :
    (o : ℕ) (slots : List PosStore) (i : ℕ)
    → Distinct slots
    → from_beh slots (some o) ≡ some i
    → from_beh (modify slots i released) (some o) ≡ none
unfolding from_beh
absent-release o [] i d e = absurd (cc)
absent-release o (s ∷ ss) i d e = elim (Bool-cases (same_ptr s.owner (some o))) [
  | inl hit ↦
      let p : i ≡ 0 = ground arith in
      rw (p, released-owner s)
        (ap next_index (from_beh_absent ss o (d.0 o (same_ptr_iff s.owner o hit))))
  | inr miss ↦ elim (Option-cases (from_beh ss (some o))) [
    | inl n ↦ absurd (ground arith)
    | inr (j, r) ↦
        let p : i ≡ suc j = ground arith in
        rw (p, miss) (ap next_index (absent-release o ss j d.1 r))
  ]
]

-- In a valid array of stores, a behaviour whose store is given back has none left.
pub from_beh-release :
    (slots : List PosStore) (o i : ℕ)
    → IsValid slots
    → from_beh slots (some o) ≡ some i
    → from_beh (release slots (some i)) (some o) ≡ none
unfolding release
from_beh-release slots o i v e = absent-release o slots i v.distinct e

-- A store taken over by a behaviour that has none.
pub Distinct-occupy :
    (f : PosStore → PosStore) (o : ℕ) (slots : List PosStore) (i : ℕ)
    → ((s : PosStore) → (f s).owner ≡ some o)
    → All (NotOf o) slots
    → Distinct slots
    → Distinct (modify slots i f)
Distinct-occupy f o [] i new a d = d
Distinct-occupy f o (s ∷ ss) zero new a d =
    (λ x e. let p : o ≡ x = cc (new s) in subst (λ w. All (NotOf w) ss) p a.1, d.1)
Distinct-occupy f o (s ∷ ss) (suc i) new a d = (
  λ x e. All-modify (NotOf x) f ss i (λ t g n h. a.0 (e ∙ sym h ∙ new t)) (d.0 x e),
  Distinct-occupy f o ss i new a.1 d.1,
)

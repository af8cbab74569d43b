-- ===== src/BotLogic/Order.antt =====
-- `insert_behaviour_to_list`: the order of the list of behaviours.
use mathlib.Core.List.{Perm}
use mathlib.Core.List.Perm
use ct_bot.Base.{
  ℕ, ◌≤◌, ◌≡◌, ◌≢◌, refl, subst, sym, Bool, true, false, Option, none, some, List, [], ◌∷◌, arith,
  ltb, ◌==◌, if◌then◌else◌, All, Bool-cases, inl, inr,
}
use ct_bot.BotLogic.{
  Behaviour, write, insert_behind, insert_behaviour_to_list, get_behaviour_from_prio,
}

abbrev pub AtMost : ℕ → Behaviour → Type 0
AtMost p b = b.priority ≤ p

-- The most important behaviour first.
abbrev pub IsSorted : List Behaviour → Type 0
IsSorted [] = Unit {0}
IsSorted (b ∷ bs) = All (AtMost b.priority) bs × IsSorted bs

All-AtMost_mono : (p q : ℕ) (bs : List Behaviour) → p ≤ q → All (AtMost p) bs → All (AtMost q) bs
All-AtMost_mono p q [] h a = tt
All-AtMost_mono p q (b ∷ bs) h a = (omega arith, All-AtMost_mono p q bs h a.1)

All-insert_behind :
    (P : Behaviour → Type 0) (ptr b : Behaviour) (bs : List Behaviour)
    → P ptr
    → P b
    → All P bs
    → All P (insert_behind ptr bs b)
unfolding insert_behind
All-insert_behind P ptr b [] p q a = (p, (q, tt))
All-insert_behind P ptr b (n ∷ rest) p q a = elim (Bool-cases (ltb n.priority b.priority)) [
  | inl above ↦ rw above (p, (q, a))
  | inr below ↦ rw below (p, All-insert_behind P n b rest a.0 q a.1)
]

insert_behind-IsSorted :
    (ptr b : Behaviour) (bs : List Behaviour)
    → b.priority ≤ ptr.priority
    → IsSorted (ptr ∷ bs)
    → IsSorted (insert_behind ptr bs b)
unfolding insert_behind
insert_behind-IsSorted ptr b [] h s = ((h, tt), (tt, tt))
insert_behind-IsSorted ptr b (n ∷ rest) h s = elim (Bool-cases (ltb n.priority b.priority)) [
  | inl above ↦ rw above (
    (h, s.0),
    ((ground arith, All-AtMost_mono n.priority b.priority rest (ground arith) s.1.0), s.1),
  )
  | inr below ↦ rw below (
    All-insert_behind (AtMost ptr.priority) n b rest s.0.0 h s.0.1,
    insert_behind-IsSorted n b rest (ground arith) s.1,
  )
]

-- A list in the order of the priorities stays so when a behaviour, or none, is put in.
pub insert-IsSorted :
    (bs : List Behaviour) (b : Option Behaviour)
    → IsSorted bs
    → IsSorted (insert_behaviour_to_list bs b)
unfolding insert_behaviour_to_list
insert-IsSorted bs none s = s
insert-IsSorted [] (some b) s = (tt, tt)
insert-IsSorted (ptr ∷ rest) (some b) s = elim (Bool-cases (ltb ptr.priority b.priority)) [
  | inl above ↦
      rw above ((ground arith, All-AtMost_mono ptr.priority b.priority rest (ground arith) s.0), s)
  | inr below ↦ rw below (insert_behind-IsSorted ptr b rest (ground arith) s)
]

insert_behind-perm :
    (ptr b : Behaviour) (bs : List Behaviour) → Perm (insert_behind ptr bs b) (b ∷ ptr ∷ bs)
unfolding insert_behind
insert_behind-perm ptr b [] = Perm.swap b ptr []
insert_behind-perm ptr b (n ∷ rest) = elim (Bool-cases (ltb n.priority b.priority)) [
  | inl above ↦ rw above (Perm.swap b ptr (n ∷ rest))
  | inr below ↦
      rw below
        (Perm.trans (Perm.cons ptr (insert_behind-perm n b rest)) (Perm.swap b ptr (n ∷ rest)))
]

-- The list holds the new behaviour and what it held before.
pub insert-perm :
    (bs : List Behaviour) (b : Behaviour) → Perm (insert_behaviour_to_list bs (some b)) (b ∷ bs)
unfolding insert_behaviour_to_list
insert-perm [] b = Perm.refl _
insert-perm (ptr ∷ rest) b = elim (Bool-cases (ltb ptr.priority b.priority)) [
  | inl above ↦ rw above (Perm.refl _)
  | inr below ↦ rw below (insert_behind-perm ptr b rest)
]

pub All-insert :
    (P : Behaviour → Type 0) (bs : List Behaviour) (b : Behaviour)
    → P b
    → All P bs
    → All P (insert_behaviour_to_list bs (some b))
unfolding insert_behaviour_to_list
All-insert P [] b p a = (p, tt)
All-insert P (ptr ∷ rest) b p a = elim (Bool-cases (ltb ptr.priority b.priority)) [
  | inl above ↦ rw above (p, a)
  | inr below ↦ rw below (All-insert_behind P ptr b rest a.0 p a.1)
]

abbrev pub Differs : ℕ → Behaviour → Type 0
Differs p b = b.priority ≢ p

-- No two behaviours have one priority.
abbrev pub IsUnique : List Behaviour → Type 0
IsUnique [] = Unit {0}
IsUnique (b ∷ bs) = All (Differs b.priority) bs × IsUnique bs

insert_behind-IsUnique :
    (ptr b : Behaviour) (bs : List Behaviour)
    → All (Differs b.priority) (ptr ∷ bs)
    → IsUnique (ptr ∷ bs)
    → IsUnique (insert_behind ptr bs b)
unfolding insert_behind
insert_behind-IsUnique ptr b [] a u = ((λ e. a.0 (sym e), tt), (tt, tt))
insert_behind-IsUnique ptr b (n ∷ rest) a u = elim (Bool-cases (ltb n.priority b.priority)) [
  | inl above ↦ rw above ((λ e. a.0 (sym e), u.0), (a.1, u.1))
  | inr below ↦ rw below (
    All-insert_behind (Differs ptr.priority) n b rest u.0.0 (λ e. a.0 (sym e)) u.0.1,
    insert_behind-IsUnique n b rest a.1 u.1,
  )
]

-- A behaviour with a priority of its own keeps the priorities unique.
pub insert-IsUnique :
    (bs : List Behaviour) (b : Behaviour)
    → All (Differs b.priority) bs
    → IsUnique bs
    → IsUnique (insert_behaviour_to_list bs (some b))
unfolding insert_behaviour_to_list
insert-IsUnique [] b a u = (tt, tt)
insert-IsUnique (ptr ∷ rest) b a u = elim (Bool-cases (ltb ptr.priority b.priority)) [
  | inl above ↦ rw above (a, u)
  | inr below ↦ rw below (insert_behind-IsUnique ptr b rest a u)
]

prio-insert_behind :
    (ptr b : Behaviour) (rest : List Behaviour) (prio : ℕ)
    → All (Differs b.priority) (ptr ∷ rest)
    → get_behaviour_from_prio (insert_behind ptr rest b) prio
      ≡ (if b.priority == prio then some b.address else get_behaviour_from_prio (ptr ∷ rest) prio)
unfolding insert_behind get_behaviour_from_prio
prio-insert_behind ptr b [] prio a = ground (arith, a.0)
prio-insert_behind ptr b (n ∷ rest) prio a = elim (Bool-cases (ltb n.priority b.priority)) [
  | inl above ↦ rw above (ground (arith, a.0))
  | inr below ↦ rw below (ground (arith, a.0, prio-insert_behind n b rest prio a.1))
]

-- After a behaviour whose priority no other has is put in, the search by priority finds it, and finds
-- the others as before.
pub get_behaviour_from_prio-insert :
    (bs : List Behaviour) (b : Behaviour) (prio : ℕ)
    → All (Differs b.priority) bs
    → get_behaviour_from_prio (insert_behaviour_to_list bs (some b)) prio
      ≡ (if b.priority == prio then some b.address else get_behaviour_from_prio bs prio)
unfolding insert_behaviour_to_list get_behaviour_from_prio
get_behaviour_from_prio-insert [] b prio a = refl
get_behaviour_from_prio-insert (ptr ∷ rest) b prio a =
    elim (Bool-cases (ltb ptr.priority b.priority)) [
      | inl above ↦ rw above
      | inr below ↦ rw below (prio-insert_behind ptr b rest prio a)
    ]

-- Writes that leave the priorities alone leave the order alone.
module _ (f : Behaviour → Behaviour) (keep : (b : Behaviour) → (f b).priority ≡ b.priority) where
  All-write :
      (P : ℕ → Type 0) (bs : List Behaviour) (a : ℕ)
      → All (λ b. P b.priority) bs
      → All (λ b. P b.priority) (write bs (some a) f)
  unfolding write
  All-write P [] a h = h
  All-write P (b ∷ bs) a h = (by_test (b.address == a), All-write P bs a h.1)
    where
      by_test : (t : Bool) → P (if t then f b else b).priority
      by_test true = subst P (sym (keep b)) h.0
      by_test false = h.0

  head_priority : (b : Behaviour) (t : Bool) → (if t then f b else b).priority ≡ b.priority
  head_priority b true = keep b
  head_priority b false = refl

  pub All-Differs-write :
      (p : ℕ) (bs : List Behaviour) (a : ℕ)
      → All (Differs p) bs
      → All (Differs p) (write bs (some a) f)
  All-Differs-write p = All-write (λ q. q ≢ p)

  pub write-IsSorted : (bs : List Behaviour) (a : ℕ) → IsSorted bs → IsSorted (write bs (some a) f)
  unfolding write
  write-IsSorted [] a s = s
  write-IsSorted (b ∷ bs) a s = (
    rw (head_priority b (b.address == a)) (All-write (λ q. q ≤ b.priority) bs a s.0),
    write-IsSorted bs a s.1,
  )

  pub write-IsUnique : (bs : List Behaviour) (a : ℕ) → IsUnique bs → IsUnique (write bs (some a) f)
  unfolding write
  write-IsUnique [] a u = u
  write-IsUnique (b ∷ bs) a u = (
    rw (head_priority b (b.address == a)) (All-write (λ q. q ≢ b.priority) bs a u.0),
    write-IsUnique bs a u.1,
  )

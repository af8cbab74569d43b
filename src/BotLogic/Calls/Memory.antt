-- ===== src/BotLogic/Calls/Memory.antt =====
-- Reads after writes through pointers to behaviours.
use ct_bot.Base.{
  ℕ, ◌≡◌, Option, none, some, List, [], ◌∷◌, arith, ◌==◌, if◌then◌else◌, Bool-cases, inl, inr,
}
use ct_bot.BotLogic.{Behaviour, get_behaviour, at, write}
use ct_bot.BotLogic.Calls.{caller_at}

abbrev pub on_some : (Behaviour → Behaviour) → Option Behaviour → Option Behaviour
on_some f none = none
on_some f (some b) = some (f b)

pub at-write :
    (bs : List Behaviour) (a c : ℕ) (f : Behaviour → Behaviour)
    → ((b : Behaviour) → (f b).address ≡ b.address)
    → at (write bs (some a) f) c ≡ (if a == c then on_some f (at bs c) else at bs c)
unfolding at write
at-write [] a c f keep = ground arith
at-write (b ∷ bs) a c f keep = ground (arith, keep b, at-write bs a c f keep)

pub caller_at_lem :
    (bs : List Behaviour) (a : ℕ) {b : Behaviour} → at bs a ≡ some b → caller_at bs a ≡ b.caller
unfolding caller_at
caller_at_lem bs a e = rw (e, caller_at)

-- A search by function that finds a behaviour gives the address of a record.
pub get_behaviour-at :
    (bs : List Behaviour) (to : Option ℕ) (job : ℕ)
    → get_behaviour bs to ≡ some job
    → (b : Behaviour) × (at bs job ≡ some b)
unfolding at get_behaviour
get_behaviour-at [] to job e = absurd (cc)
get_behaviour-at (b ∷ bs) to job e = elim (Bool-cases (b.address == job)) [
  | inl here ↦ (b, rw here)
  | inr there ↦ let (x, p) = get_behaviour-at bs to job (ground arith) in (x, rw there p)
]

-- A write that leaves the callers alone.
pub caller_at-write :
    (bs : List Behaviour) (a c : ℕ) (f : Behaviour → Behaviour)
    → ((b : Behaviour) → (f b).address ≡ b.address)
    → ((b : Behaviour) → (f b).caller ≡ b.caller)
    → caller_at (write bs (some a) f) c ≡ caller_at bs c
unfolding caller_at
caller_at-write bs a c f keep same = rw (at-write bs a c f keep, caller_at) (by_record (at bs c))
  where
    by_record :
        (o : Option Behaviour)
        → (elim (if a == c then on_some f o else o) [ none ↦ none | some b ↦ b.caller ])
          ≡ (elim o [ none ↦ none | some b ↦ b.caller ])
    by_record none = ground arith
    by_record (some b) = ground (arith, same b)

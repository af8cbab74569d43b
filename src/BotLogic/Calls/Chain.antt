-- ===== src/BotLogic/Calls/Chain.antt =====
-- A chain of calls that nothing else hangs on, and single steps of the loops of
-- `deactivate_called_behaviours`.
use ct_bot.Base.{
  ℕ, ◌≡◌, ◌≢◌, inl, inr, refl, ap, ◌∙◌, Bool-cases, true, false, Option, Option-cases, none, some,
  ℕ_discrete, List, [], ◌∷◌, arith, ◌==◌, same_ptr, All, ==_iff,
}
use ct_bot.BotLogic.{Behaviour, at, write, subcancel}
use ct_bot.BotLogic.Calls.{caller_at, cancelled, is_caller}
use ct_bot.BotLogic.Calls.Memory.{at-write}
use ct_bot.BotLogic.Calls.Hierarchy.{IsRanked}

-- No behaviour of the list has been called by `p`, and none but the one at `j`.
abbrev pub CallsNone : List Behaviour → ℕ → Type 0
CallsNone bs p = All (λ b. b.caller ≢ some p) bs

abbrev pub CallsOnly : List Behaviour → ℕ → ℕ → Type 0
CallsOnly bs p j = All (λ b. b.caller ≡ some p → b.address ≡ j) bs

-- `j` was called by the first of `ps`, that one by the next, and the last one by `caller`, and they have
-- called nothing else.
abbrev pub Line : List Behaviour → ℕ → ℕ → List ℕ → Type 0
Line bs caller j [] = caller_at bs j ≡ some caller
Line bs caller j (p ∷ ps) = (caller_at bs j ≡ some p) × CallsOnly bs p j × Line bs caller p ps

-- The behaviour is cancelled.
abbrev pub IsCancelled : List Behaviour → ℕ → Type 0
IsCancelled bs a =
    (b : Behaviour) × (at bs a ≡ some b)
    × (b.active ≡ false)
    × (b.sub_result ≡ subcancel)
    × (b.caller ≡ none)

pub same_ptr-other : (o : Option ℕ) (p : ℕ) → o ≢ some p → same_ptr o (some p) ≡ false
same_ptr-other none p ne = refl
same_ptr-other (some a) p ne = ground (arith, λ (e : a ≡ p). ne (ap some e))

pub CallsNone-is_caller :
    (bs : List Behaviour) (p : ℕ) → CallsNone bs p → is_caller bs (some p) ≡ false
unfolding is_caller
CallsNone-is_caller [] p h = refl
CallsNone-is_caller (b ∷ bs) p (n, ns) =
    ground (arith, same_ptr-other b.caller p n, CallsNone-is_caller bs p ns)

pub caller_at-is_caller :
    (bs : List Behaviour) (a p : ℕ) → caller_at bs a ≡ some p → is_caller bs (some p) ≡ true
unfolding is_caller caller_at at
caller_at-is_caller [] a p e = absurd (cc)
caller_at-is_caller (b ∷ bs) a p e = elim (Bool-cases (b.address == a)) [
  | inl here ↦ let q : b.caller ≡ some p = ground (arith, here, e) in rw q (ground arith)
  | inr there ↦
      let q : caller_at bs a ≡ some p = ground (arith, there, e) in
      ground (arith, caller_at-is_caller bs a p q)
]

pub CallsNone-caller_at : (bs : List Behaviour) (a p : ℕ) → CallsNone bs p → caller_at bs a ≢ some p
CallsNone-caller_at bs a p h e =
    let f = CallsNone-is_caller bs p h in let t = caller_at-is_caller bs a p e in cc

pub CallsNone-write :
    (bs : List Behaviour) (p : ℕ) (ptr : Option ℕ)
    → CallsNone bs p
    → CallsNone (write bs ptr cancelled) p
unfolding write
CallsNone-write bs p none h = h
CallsNone-write [] p (some a) h = tt
CallsNone-write (b ∷ bs) p (some a) (n, ns) = (
  elim (Bool-cases (b.address == a)) [ inl here ↦ rw here (λ e. cc) | inr there ↦ rw there n ],
  CallsNone-write bs p (some a) ns,
)

pub CallsOnly-write :
    (bs : List Behaviour) (p j : ℕ) (ptr : Option ℕ)
    → CallsOnly bs p j
    → CallsOnly (write bs ptr cancelled) p j
unfolding write
CallsOnly-write bs p j none h = h
CallsOnly-write [] p j (some a) h = tt
CallsOnly-write (b ∷ bs) p j (some a) (n, ns) = (
  elim (Bool-cases (b.address == a)) [
    | inl here ↦ rw here (λ e. absurd (cc))
    | inr there ↦ rw there n
  ],
  CallsOnly-write bs p j (some a) ns,
)

-- The only one that was called is cancelled.
pub CallsOnly-cancelled :
    (bs : List Behaviour) (p j : ℕ) → CallsOnly bs p j → CallsNone (write bs (some j) cancelled) p
unfolding write
CallsOnly-cancelled [] p j h = tt
CallsOnly-cancelled (b ∷ bs) p j (n, ns) = (
  elim (Bool-cases (b.address == j)) [
    | inl here ↦ rw here (λ e. cc)
    | inr there ↦ rw there (λ e. let here = (==_iff b.address j).1 (n e) in cc)
  ],
  CallsOnly-cancelled bs p j ns,
)

-- A record that is cancelled has no caller, and no other one changes.
pub caller_at-cancelled :
    (bs : List Behaviour) (p job c : ℕ)
    → caller_at (write bs (some p) cancelled) job ≡ some c
    → caller_at bs job ≡ some c
unfolding caller_at
caller_at-cancelled bs p job c e =
    ground (arith, at-write bs p job cancelled (λ b. refl), Option-cases (at bs job))

pub IsRanked-cancelled :
    (bs : List Behaviour) (rank : ℕ → ℕ) (ptr : Option ℕ)
    → IsRanked bs rank
    → IsRanked (write bs ptr cancelled) rank
unfolding write
IsRanked-cancelled bs rank none r = r
IsRanked-cancelled bs rank (some p) r = λ job c e. r job c (caller_at-cancelled bs p job c e)

-- A record that is cancelled, or another one that is written.
pub at-cancelled :
    (bs : List Behaviour) (p a : ℕ) → p ≢ a → at (write bs (some p) cancelled) a ≡ at bs a
at-cancelled bs p a ne = at-write bs p a cancelled (λ b. refl) ∙ ground (arith, ne)

pub caller_at-other :
    (bs : List Behaviour) (p a : ℕ)
    → p ≢ a
    → caller_at (write bs (some p) cancelled) a ≡ caller_at bs a
unfolding caller_at
caller_at-other bs p a ne =
    ap (λ (o : Option Behaviour). elim o as (λ x. Option ℕ) [ none ↦ none | some b ↦ b.caller ])
      (at-cancelled bs p a ne)

pub IsCancelled-write :
    (bs : List Behaviour) (ptr : Option ℕ) (a : ℕ)
    → IsCancelled bs a
    → IsCancelled (write bs ptr cancelled) a
unfolding write
IsCancelled-write bs none a h = h
IsCancelled-write bs (some p) a (b, e, off, sub, free) = elim (ℕ_discrete p a) [
  | yes same ↦ (
    cancelled b,
    at-write bs p a cancelled (λ b. refl) ∙ ground (arith, same, e),
    refl,
    refl,
    refl,
  )
  | no ne ↦ (b, at-cancelled bs p a ne ∙ e, off, sub, free)
]

-- A step of the loop that does not meet the beginning of the chain leaves it alone.
pub Line-write :
    (bs : List Behaviour) (caller j : ℕ) (ps : List ℕ) (ptr : Option ℕ)
    → ptr ≢ some j
    → is_caller bs ptr ≡ false
    → Line bs caller j ps
    → Line (write bs ptr cancelled) caller j ps
Line-write bs caller j ps none ne free h = unfold write in h
Line-write bs caller j [] (some q) ne free h = caller_at-other bs q j (λ e. ne (ap some e)) ∙ h
Line-write bs caller j (p ∷ ps) (some q) ne free (e, only, h) = (
  caller_at-other bs q j (λ e. ne (ap some e)) ∙ e,
  CallsOnly-write bs p j (some q) only,
  Line-write bs caller p ps (some q)
      (λ same. let t = caller_at-is_caller bs j p e in let u = ap (is_caller bs) same in cc) free h,
)

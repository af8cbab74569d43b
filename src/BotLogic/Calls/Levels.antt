-- ===== src/BotLogic/Calls/Levels.antt =====
-- The loop over the levels of a chain in `deactivate_called_behaviours`.
use ct_bot.Base.{
  ℕ, zero, suc, ◌+◌, ◌%◌, ◌<◌, ◌≡◌, ◌≢◌, inl, inr, refl, ap, ap₂, sym, ◌∙◌, subst, Bool, Bool-cases,
  true, false, Option, Option-cases, none, some, some-injective, List, [], ◌∷◌, arith,
  if◌then◌else◌, length, All,
}
use ct_bot.BotLogic.{Behaviour, at, write, active_at}
use ct_bot.BotLogic.Calls.{caller_at, caller_of, cancelled, is_caller, level_from, cancel_levels}
use ct_bot.BotLogic.Calls.Memory.{at-write}
use ct_bot.BotLogic.Calls.Hierarchy.{IsRanked}
use ct_bot.BotLogic.Calls.Chain.{
  CallsNone, Line, IsCancelled, CallsNone-is_caller, CallsNone-caller_at, CallsNone-write,
  CallsOnly-cancelled, IsRanked-cancelled, at-cancelled, IsCancelled-write, Line-write,
}

module _ (rank : ℕ → ℕ) (caller : ℕ) where
  pub Line-rank :
      (bs : List Behaviour) (j : ℕ) (ps : List ℕ)
      → IsRanked bs rank
      → Line bs caller j ps
      → rank caller < rank j
  Line-rank bs j [] r h = r j caller h
  Line-rank bs j (p ∷ ps) r (e, only, h) =
      let lower = r j p e in let rest = Line-rank bs p ps r h in omega arith

  -- The level of the chain's beginning is its length.
  pub level_from-Line :
      (fuel : ℕ) (bs : List Behaviour) (j : ℕ) (ps : List ℕ) (level : ℕ)
      → IsRanked bs rank
      → Line bs caller j ps
      → rank j < fuel
      → level + length ps + 1 < 256
      → level_from fuel bs j caller level ≡ some (level + length ps + 1)
  unfolding level_from
  level_from-Line zero bs j ps level r h l short = absurd (omega arith)
  level_from-Line (suc fuel) bs j [] level r h l short =
      let below = r j caller h in
      let ne : caller ≢ j = λ q. let same = ap rank q in omega arith in
      rw (h, level_from) (ground (arith, ne))
  level_from-Line (suc fuel) bs j (p ∷ ps) level r (e, only, h) l short =
      let below = r j p e in
      let further = Line-rank bs p ps r h in
      let rest = level_from-Line fuel bs p ps ((level + 1) % 256) r h (omega arith) (omega arith) in
      let ne : p ≢ j = λ q. let same = ap rank q in omega arith in
      let ne' : p ≢ caller = λ q. let same = ap rank q in omega arith in
      let sum : (level + 1) % 256 + length ps + 1 ≡ level + length (p ∷ ps) + 1 = omega arith in
      rw (e, level_from) (ground (arith, ne, ne', rest ∙ ap some sum))

  -- The loop over the levels, from the beginning of the chain on, cancels the whole chain.
  abbrev pub AllCancelled : List Behaviour → List ℕ → Type 0
  AllCancelled bs ps = All (IsCancelled bs) ps

  pub AllCancelled-write :
      (bs : List Behaviour) (ptr : Option ℕ) (ps : List ℕ)
      → AllCancelled bs ps
      → AllCancelled (write bs ptr cancelled) ps
  AllCancelled-write bs ptr [] h = tt
  AllCancelled-write bs ptr (p ∷ ps) (h, hs) =
      (IsCancelled-write bs ptr p h, AllCancelled-write bs ptr ps hs)

  pub AllCancelled-cancel_levels :
      (level : ℕ) (bs : List Behaviour) (ptr : Option ℕ) (ps : List ℕ)
      → AllCancelled bs ps
      → AllCancelled (cancel_levels level bs ptr) ps
  unfolding cancel_levels
  AllCancelled-cancel_levels zero bs ptr ps h = h
  AllCancelled-cancel_levels (suc level) bs ptr ps h =
      AllCancelled-cancel_levels level _ (caller_of bs ptr) ps (by_test (is_caller bs ptr))
    where
      by_test : (t : Bool) → AllCancelled (if t then bs else write bs ptr cancelled) ps
      by_test true = h
      by_test false = AllCancelled-write bs ptr ps h

  -- What is known of a chain until its beginning gets its turn.
  pub record Open (bs : List Behaviour) (j : ℕ) (ps : List ℕ) : Type 0 where
    pub line : Line bs caller j ps
    pub last : CallsNone bs j
    pub on : active_at (at bs j) ≡ true

  Open-write :
      (bs : List Behaviour) (j : ℕ) (ps : List ℕ) (ptr : Option ℕ)
      → ptr ≢ some j
      → is_caller bs ptr ≡ false
      → Open bs j ps
      → Open (write bs ptr cancelled) j ps
  Open-write bs j ps none ne free o = unfold write in o
  Open-write bs j ps (some q) ne free o = record {
    line = Line-write bs caller j ps (some q) ne free o.line;
    last = CallsNone-write bs j (some q) o.last;
    on = ap active_at (at-cancelled bs q j (λ e. ne (ap some e))) ∙ o.on;
  }

  pub Open-cancel_levels :
      (level : ℕ) (bs : List Behaviour) (j : ℕ) (ps : List ℕ) (ptr : Option ℕ)
      → ptr ≢ some j
      → Open bs j ps
      → Open (cancel_levels level bs ptr) j ps
  unfolding cancel_levels
  Open-cancel_levels zero bs j ps ptr ne o = o
  Open-cancel_levels (suc level) bs j ps ptr ne o = elim (Bool-cases (is_caller bs ptr)) [
    | inl busy ↦ rw busy (Open-cancel_levels level bs j ps (caller_of bs ptr) (next ptr) o)
    | inr free ↦ rw free (
        Open-cancel_levels level (write bs ptr cancelled) j ps (caller_of bs ptr) (next ptr)
          (Open-write bs j ps ptr ne free o))
  ]
    where
      next : (q : Option ℕ) → caller_of bs q ≢ some j
      next none e = cc
      next (some a) e = CallsNone-caller_at bs a j o.last e

  at-caller_at :
      (bs : List Behaviour) (j c : ℕ)
      → caller_at bs j ≡ some c
      → (b : Behaviour) × (at bs j ≡ some b)
  unfolding caller_at
  at-caller_at bs j c e = elim (Option-cases (at bs j)) [
    | inl none_left ↦ absurd (ground (arith, none_left, e))
    | inr (b, q) ↦ (b, q)
  ]

  just_cancelled :
      (bs : List Behaviour) (j c : ℕ)
      → caller_at bs j ≡ some c
      → IsCancelled (write bs (some j) cancelled) j
  just_cancelled bs j c e =
      let (b, q) = at-caller_at bs j c e in
      (cancelled b, at-write bs j j cancelled (λ b. refl) ∙ ground (arith, q), refl, refl, refl)

  one_level :
      (level : ℕ) (bs : List Behaviour) (j p : ℕ)
      → is_caller bs (some j) ≡ false
      → caller_at bs j ≡ some p
      → cancel_levels (suc level) bs (some j)
        ≡ cancel_levels level (write bs (some j) cancelled) (some p)
  unfolding cancel_levels
  one_level level bs j p free e =
      ap₂ (cancel_levels level) (ap (λ t. if t then bs else write bs (some j) cancelled) free) e

  -- The loop over all levels of the chain.
  pub Line-cancelled :
      (bs : List Behaviour) (j : ℕ) (ps : List ℕ)
      → IsRanked bs rank
      → Line bs caller j ps
      → CallsNone bs j
      → AllCancelled (cancel_levels (suc (length ps)) bs (some j)) (j ∷ ps)
  unfolding cancel_levels
  Line-cancelled bs j [] r h free =
      rw (CallsNone-is_caller bs j free) (just_cancelled bs j caller h, tt)
  Line-cancelled bs j (p ∷ ps) r (e, only, h) free =
      let lower = r j p e in
      let bs' = write bs (some j) cancelled in
      let not_j : some j ≢ some p = λ q. let same = ap rank (some-injective q) in omega arith in
      let h' = Line-write bs caller p ps (some j) not_j (CallsNone-is_caller bs j free) h in
      let done =
        AllCancelled-cancel_levels (suc (length ps)) bs' (some p) (j ∷ [])
          (just_cancelled bs j p e, tt) in
      let r' = IsRanked-cancelled bs rank (some j) r in
      let rest = Line-cancelled bs' p ps r' h' (CallsOnly-cancelled bs p j only) in
      subst (λ l. AllCancelled l (j ∷ (p ∷ ps)))
        (sym (one_level (suc (length ps)) bs j p (CallsNone-is_caller bs j free) e)) (done.0, rest)

-- ===== src/BotLogic/Calls/Hierarchy.antt =====
-- `isInCallHierarchy` and chains of callers.
use ct_bot.Base.{
  ℕ, zero, suc, ◌+◌, ◌%◌, ◌<◌, ◌≡◌, ◌≢◌, refl, subst, some-injective, ℕ_discrete, sym, ◌∙◌, none,
  some, List, arith, Option-cases, ◌⊎◌, inl, inr,
}
use ct_bot.BotLogic.{Behaviour}
use ct_bot.BotLogic.Calls.{caller_at, level_from, is_in_call_hierarchy}

-- `job` runs, over `n` levels of calls, for `caller`.
pub data RunsFor (bs : List Behaviour) (caller : ℕ) : ℕ → ℕ → Type 0 where
  direct : {job : ℕ} → caller_at bs job ≡ some caller → RunsFor bs caller job 1
  through :
      {job next n : ℕ}
      → caller_at bs job ≡ some next
      → RunsFor bs caller next n
      → RunsFor bs caller job (suc n)

-- No behaviour is its own caller, over any number of levels: `rank` falls along the callers.
abbrev pub IsRanked : List Behaviour → (ℕ → ℕ) → Type 0
IsRanked bs rank = (job caller : ℕ) → caller_at bs job ≡ some caller → rank caller < rank job

-- The answer of the search, started at a level.
abbrev pub Answers : List Behaviour → ℕ → ℕ → ℕ → ℕ → Type 0
Answers bs caller job level r =
    ((n : ℕ) × RunsFor bs caller job n × (r ≡ (level + n) % 256))
    ⊎ ((r ≡ 0) × ((n : ℕ) → RunsFor bs caller job n → ⊥))

no_caller :
    {bs : List Behaviour} {caller job n : ℕ} → caller_at bs job ≡ none → RunsFor bs caller job n → ⊥
no_caller e (direct p) = cc
no_caller e (through p r) = cc

other_caller :
    {bs : List Behaviour} {caller job next n : ℕ}
    → caller_at bs job ≡ some next
    → next ≢ caller
    → ((m : ℕ) → RunsFor bs caller next m → ⊥)
    → RunsFor bs caller job n
    → ⊥
other_caller e ne stop (direct p) = ne (some-injective (sym e ∙ p))
other_caller {bs} {caller} e ne stop (through {n = m} p r) =
    stop m (subst (λ x. RunsFor bs caller x m) (some-injective (sym p ∙ e)) r)

level_from-Answers :
    (fuel : ℕ) (bs : List Behaviour) (rank : ℕ → ℕ) (job caller level : ℕ)
    → IsRanked bs rank
    → rank job < fuel
    → (r : ℕ) × (level_from fuel bs job caller level ≡ some r) × Answers bs caller job level r
unfolding level_from
level_from-Answers zero bs rank job caller level ranked h = absurd (omega arith)
level_from-Answers (suc fuel) bs rank job caller level ranked h =
    elim (Option-cases (caller_at bs job)) [
      | inl none_left ↦ (0, rw (none_left, level_from), inr (refl, λ n. no_caller none_left))
      | inr (next, e) ↦
          let lower = ranked job next e in
          elim (ℕ_discrete next caller) [
            | yes here ↦ (
              (level + 1) % 256,
              rw (e, level_from) (ground arith),
              inl (1, direct (rw (← here) e), refl),
            )
            | no further ↦
                let (r, p, a) =
                  level_from-Answers fuel bs rank next caller ((level + 1) % 256) ranked
                    (omega arith) in
                (r, rw (e, level_from) (ground (arith, p)), longer r next e further a)
          ]
    ]
  where
    longer :
        (r next : ℕ)
        → caller_at bs job ≡ some next
        → next ≢ caller
        → Answers bs caller next ((level + 1) % 256) r
        → Answers bs caller job level r
    longer r next e ne (inl (n, chain, q)) = inl (suc n, through e chain, omega arith)
    longer r next e ne (inr (z, stop)) = inr (z, λ n. other_caller e ne stop)

-- Without a cycle of callers `isInCallHierarchy` ends. It answers the number of calls between the two
-- behaviours, as a uint8_t, if there is a chain of callers, and 0 if there is none.
pub is_in_call_hierarchy-Answers :
    (bs : List Behaviour) (rank : ℕ → ℕ) (job caller fuel : ℕ)
    → IsRanked bs rank
    → rank job < fuel
    → (r : ℕ) × (is_in_call_hierarchy fuel bs (some job) caller ≡ some r)
      × Answers bs caller job 0 r
unfolding is_in_call_hierarchy
is_in_call_hierarchy-Answers bs rank job caller fuel ranked h =
    level_from-Answers fuel bs rank job caller 0 ranked h

-- Two behaviours that are each other's caller keep the search going for ever, if it is for a third: no
-- amount of fuel is enough.
pub level_from_cycle :
    (fuel : ℕ) (bs : List Behaviour) (a b caller level : ℕ)
    → caller_at bs a ≡ some b
    → caller_at bs b ≡ some a
    → a ≢ b
    → a ≢ caller
    → b ≢ caller
    → level_from fuel bs a caller level ≡ none
unfolding level_from
level_from_cycle zero bs a b caller level p q ne na nb = refl
level_from_cycle (suc fuel) bs a b caller level p q ne na nb =
    rw (p, level_from)
      (ground (
        arith,
        level_from_cycle fuel bs b a caller ((level + 1) % 256) q p (λ e. ne (sym e)) nb na,
      ))

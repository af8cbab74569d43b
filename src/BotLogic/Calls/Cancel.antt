-- ===== src/BotLogic/Calls/Cancel.antt =====
-- `deactivate_called_behaviours` on lists of behaviours without a cycle of callers.
use ct_bot.Base.{
  ℕ, zero, suc, ◌+◌, All, ◌<◌, ◌≡◌, refl, ◌∙◌, sym, subst, ap, ◌≢◌, ◌⊎◌, inl, inr, ℕ_discrete,
  some-injective, length, Bool, true, false, Option, none, some, List, [], ◌∷◌, arith, ◌==◌,
  if◌then◌else◌, map,
}
use ct_bot.BotLogic.{Behaviour, at, write, active_at, subcancel}
use ct_bot.BotLogic.Calls.{
  caller_of, cancelled, is_caller, is_in_call_hierarchy, cancel_levels, cancel_chains,
  deactivate_called_behaviours,
}
use ct_bot.BotLogic.Calls.Memory.{at-write}
use ct_bot.BotLogic.Calls.Hierarchy.{IsRanked, is_in_call_hierarchy-Answers}
use ct_bot.BotLogic.Calls.Chain.{CallsNone, Line, IsCancelled, IsRanked-cancelled}
use ct_bot.BotLogic.Calls.Levels.{
  AllCancelled, AllCancelled-cancel_levels, Open, Open-cancel_levels, Line-cancelled, Line-rank,
  level_from-Line,
}

IsRanked-cancel_levels :
    (level : ℕ) (bs : List Behaviour) (rank : ℕ → ℕ) (ptr : Option ℕ)
    → IsRanked bs rank
    → IsRanked (cancel_levels level bs ptr) rank
unfolding cancel_levels
IsRanked-cancel_levels zero bs rank ptr r = r
IsRanked-cancel_levels (suc level) bs rank ptr r =
    IsRanked-cancel_levels level _ rank (caller_of bs ptr) (by_test (is_caller bs ptr))
  where
    by_test : (t : Bool) → IsRanked (if t then bs else write bs ptr cancelled) rank
    by_test true = r
    by_test false = IsRanked-cancelled bs rank ptr r

-- There is a record at the address.
abbrev pub Present : List Behaviour → ℕ → Type 0
Present bs c = (b : Behaviour) × (at bs c ≡ some b)

Present-cancelled :
    (bs : List Behaviour) (c : ℕ) (ptr : Option ℕ)
    → Present bs c
    → Present (write bs ptr cancelled) c
unfolding write
Present-cancelled bs c none r = r
Present-cancelled bs c (some p) (b, e) =
    (if p == c then cancelled b else b, at-write bs p c cancelled (λ b. refl) ∙ ground (arith, e))

Present-cancel_levels :
    (level : ℕ) (bs : List Behaviour) (c : ℕ) (ptr : Option ℕ)
    → Present bs c
    → Present (cancel_levels level bs ptr) c
unfolding cancel_levels
Present-cancel_levels zero bs c ptr r = r
Present-cancel_levels (suc level) bs c ptr r =
    Present-cancel_levels level _ c (caller_of bs ptr) (by_test (is_caller bs ptr))
  where
    by_test : (t : Bool) → Present (if t then bs else write bs ptr cancelled) c
    by_test true = r
    by_test false = Present-cancelled bs c ptr r

module _ (fuel : ℕ) (rank : ℕ → ℕ) (caller : ℕ) (enough : (a : ℕ) → rank a < fuel) where
  level_found :
      (bs : List Behaviour) (job : ℕ)
      → IsRanked bs rank
      → (level : ℕ) × ((if active_at (at bs job)
            then is_in_call_hierarchy fuel bs (some job) caller
            else some 0)
          ≡ some level)
  level_found bs job r = by_test (active_at (at bs job))
    where
      by_test :
          (t : Bool)
          → (level : ℕ) × ((if t then is_in_call_hierarchy fuel bs (some job) caller else some 0)
              ≡ some level)
      by_test true =
          let (level, e, a) = is_in_call_hierarchy-Answers bs rank job caller fuel r (enough job) in
          (level, e)
      by_test false = (0, refl)

  cancel_chains-Present :
      (jobs : List ℕ) (bs : List Behaviour)
      → IsRanked bs rank
      → Present bs caller
      → (bs' : List Behaviour) × (cancel_chains fuel jobs bs caller ≡ some bs') × Present bs' caller
  unfolding cancel_chains
  cancel_chains-Present [] bs r p = (bs, refl, p)
  cancel_chains-Present (job ∷ jobs) bs r p =
      let (level, e) = level_found bs job r in
      rw (e, cancel_chains)
        (cancel_chains-Present jobs (cancel_levels level bs (some job))
          (IsRanked-cancel_levels level bs rank (some job) r)
          (Present-cancel_levels level bs caller (some job) p))

  -- The loop over the list, with the beginning of a chain among the behaviours that are to come.
  abbrev Has : ℕ → List ℕ → Type 0
  Has j [] = ⊥
  Has j (a ∷ rest) = (a ≡ j) ⊎ Has j rest

  one_chain :
      (job : ℕ) (jobs : List ℕ) (bs bs' : List Behaviour) (level : ℕ)
      → (if active_at (at bs job) then is_in_call_hierarchy fuel bs (some job) caller else some 0)
        ≡ some level
      → cancel_chains fuel (job ∷ jobs) bs caller ≡ some bs'
      → cancel_chains fuel jobs (cancel_levels level bs (some job)) caller ≡ some bs'
  unfolding cancel_chains
  one_chain job jobs bs bs' level q e =
      sym (
        ap
          (λ (o : Option ℕ). elim o as (λ x. Option (List Behaviour)) [
            | none ↦ none
            | some n ↦ cancel_chains fuel jobs (cancel_levels n bs (some job)) caller
          ])
          q)
      ∙ e

  chains-cancelled :
      (jobs : List ℕ) (bs bs' : List Behaviour) (ps : List ℕ)
      → IsRanked bs rank
      → cancel_chains fuel jobs bs caller ≡ some bs'
      → AllCancelled rank caller bs ps
      → AllCancelled rank caller bs' ps
  chains-cancelled [] bs bs' ps r e h =
      let same : some bs ≡ some bs' = unfold cancel_chains in e in
      subst (λ l. AllCancelled rank caller l ps) (some-injective same) h
  chains-cancelled (job ∷ jobs) bs bs' ps r e h =
      let (level, q) = level_found bs job r in
      chains-cancelled jobs (cancel_levels level bs (some job)) bs' ps
        (IsRanked-cancel_levels level bs rank (some job) r) (one_chain job jobs bs bs' level q e)
        (AllCancelled-cancel_levels rank caller level bs (some job) ps h)

  chains-Open :
      (jobs : List ℕ) (bs bs' : List Behaviour) (j : ℕ) (ps : List ℕ)
      → IsRanked bs rank
      → Open rank caller bs j ps
      → length ps + 1 < 256
      → Has j jobs
      → cancel_chains fuel jobs bs caller ≡ some bs'
      → AllCancelled rank caller bs' (j ∷ ps)
  chains-Open [] bs bs' j ps r o short has e = absurd has
  chains-Open (job ∷ jobs) bs bs' j ps r o short has e = elim (ℕ_discrete job j) [
    | yes same ↦
        chains-cancelled jobs (cancel_levels (suc (length ps)) bs (some j)) bs' (j ∷ ps)
          (IsRanked-cancel_levels (suc (length ps)) bs rank (some j) r)
          (one_chain j jobs bs bs' (suc (length ps)) level
            (subst (λ i. cancel_chains fuel (i ∷ jobs) bs caller ≡ some bs') same e))
          (Line-cancelled rank caller bs j ps r o.line o.last)
    | no ne ↦
        let (level, q) = level_found bs job r in
        chains-Open jobs (cancel_levels level bs (some job)) bs' j ps
          (IsRanked-cancel_levels level bs rank (some job) r)
          (Open-cancel_levels rank caller level bs j ps (some job) (λ p. ne (some-injective p)) o)
          short (later ne has) (one_chain job jobs bs bs' level q e)
  ]
    where
      later : job ≢ j → Has j (job ∷ jobs) → Has j jobs
      later ne (inl same) = absurd (ne same)
      later ne (inr rest) = rest

      level :
          (if active_at (at bs j) then is_in_call_hierarchy fuel bs (some j) caller else some 0)
          ≡ some (suc (length ps))
      level =
          let found =
            level_from-Line rank caller fuel bs j ps 0 r o.line (enough j) (omega arith) in
          let sum : 0 + length ps + 1 ≡ suc (length ps) = omega arith in
          let answer : is_in_call_hierarchy fuel bs (some j) caller ≡ some (suc (length ps)) =
            unfold is_in_call_hierarchy in found ∙ ap some sum in
          rw o.on answer

  Has-address :
      (bs : List Behaviour) (j : ℕ) → active_at (at bs j) ≡ true → Has j (map (λ b. b.address) bs)
  unfolding at
  Has-address [] j h = absurd (cc)
  Has-address (b ∷ bs) j h = elim (ℕ_discrete b.address j) [
    | yes same ↦ inl same
    | no ne ↦ inr (Has-address bs j (ground (arith, ne, h)))
  ]

  -- The last write is to the caller, which is none of the chain.
  IsCancelled-kept :
      (bs : List Behaviour) (f : Behaviour → Behaviour) (a : ℕ)
      → ((b : Behaviour) → (f b).address ≡ b.address)
      → caller ≢ a
      → IsCancelled bs a
      → IsCancelled (write bs (some caller) f) a
  IsCancelled-kept bs f a keep ne (b, e, off, sub, free) =
      (b, at-write bs caller a f keep ∙ ground (arith, ne, e), off, sub, free)

  chain-kept :
      (bs bs' : List Behaviour) (f : Behaviour → Behaviour) (j : ℕ) (ps : List ℕ)
      → IsRanked bs rank
      → Line bs caller j ps
      → ((b : Behaviour) → (f b).address ≡ b.address)
      → All (IsCancelled bs') (j ∷ ps)
      → All (IsCancelled (write bs' (some caller) f)) (j ∷ ps)
  chain-kept bs bs' f j [] r line keep (h, hs) =
      let l = Line-rank rank caller bs j [] r line in
      (IsCancelled-kept bs' f j keep (λ q. let same = ap rank q in omega arith) h, tt)
  chain-kept bs bs' f j (p ∷ ps) r line keep (h, hs) =
      let l = Line-rank rank caller bs j (p ∷ ps) r line in
      (
        IsCancelled-kept bs' f j keep (λ q. let same = ap rank q in omega arith) h,
        chain-kept bs bs' f p ps r line.2 keep hs,
      )

  -- Without a cycle of callers, and with fuel for the longest chain: let `caller` have called an active
  -- behaviour through a chain of fewer than 256 calls, where that one has called nobody and each one
  -- between the two none but the next of the chain. Then the cancelling of what `caller` has called ends.
  -- It leaves `caller` active, with the result of a cancelled call, and every other behaviour of the
  -- chain cancelled: inactive, with the result of a cancelled call and without a caller.
  pub deactivate_called_behaviours_lem :
      (bs : List Behaviour) (j : ℕ) (ps : List ℕ)
      → IsRanked bs rank
      → Present bs caller
      → Line bs caller j ps
      → CallsNone bs j
      → active_at (at bs j) ≡ true
      → length ps + 1 < 256
      → (bs' : List Behaviour) × (deactivate_called_behaviours fuel bs (some caller) ≡ some bs')
        × All (IsCancelled bs') (j ∷ ps)
        × (b : Behaviour) × (at bs' caller ≡ some b)
        × (b.active ≡ true)
        × (b.sub_result ≡ subcancel)
  deactivate_called_behaviours_lem bs j ps r p line last on short =
      let (bs', e, (b, q)) = cancel_chains-Present (map (λ b. b.address) bs) bs r p in
      let woken : Behaviour → Behaviour = λ b. record b { active = true; sub_result = subcancel } in
      let open_chain : Open rank caller bs j ps = record { line = line; last = last; on = on } in
      let done =
        chains-Open (map (λ b. b.address) bs) bs bs' j ps r open_chain short (Has-address bs j on)
          e in
      (
        write bs' (some caller) woken,
        unfold deactivate_called_behaviours in rw (e, deactivate_called_behaviours),
        chain-kept bs bs' woken j ps r line (λ b. refl) done,
        woken b,
        at-write bs' caller caller woken (λ b. refl) ∙ ground (arith, q),
        refl,
        refl,
      )

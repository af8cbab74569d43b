-- ===== src/Scheduler/Choice.antt =====
-- Which thread runs behind a call of the scheduler.
use ct_bot.Base.{
  ℕ, zero, suc, ◌≡◌, ◌≢◌, refl, ap, ap₂, sym, ◌∙◌, subst, true, none, some, List, [], ◌∷◌, arith,
  get_elem?, modify, Option, inl, inr, Option-cases, some-injective,
}
use ct_bot.Scheduler.{
  Thread, Os, is_ready, schedule_round, schedule_rounds, os_schedule, os_signal_set, wait_on,
}
use ct_bot.Scheduler.Search.{
  get_some, Ready, in_table, search, signals_of, skipped_of, Chosen, search-some, search-none,
  round-running, round-search, Chosen-search,
}

-- The signals that an interrupt leaves are locked only where they were before.
abbrev pub Unlocks : Option (ℕ → ℕ) → (ℕ → ℕ) → Type 0
Unlocks none signals = Unit {0}
Unlocks (some later) signals = (a : ℕ) → signals a ≡ 0 → later a ≡ 0

Ready-unlocked :
    (signals later : ℕ → ℕ) (tick : ℕ) (ts : List Thread) (i : ℕ)
    → ((a : ℕ) → signals a ≡ 0 → later a ≡ 0)
    → Ready signals tick ts i
    → Ready later tick ts i
Ready-unlocked signals later tick ts i h (t, e, r) = (t, e, still)
  where
    still : is_ready later tick t ≡ true
    still = ground (arith, r, h t.wait_for)

-- The second search leaves out the last thread: what the first one chose stays, where it finds nothing.
Chosen-again :
    (signals later : ℕ → ℕ) (tick : ℕ) (ts : List Thread) (old : ℕ)
    → ((a : ℕ) → signals a ≡ 0 → later a ≡ 0)
    → Chosen later tick ts 1 old
        (get_some (get_some old (search signals tick ts 0)) (search later tick ts 1))
Chosen-again signals later tick ts old h = elim (Option-cases (search later tick ts 1)) [
  | inr (i, e) ↦ inl (rw e (search-some later tick ts 1 i e))
  | inl e ↦ elim (Option-cases (search signals tick ts 0)) [
    | inl none_before ↦ inr (search-none later tick ts 1 e, rw (e, none_before) refl)
    | inr (i, before) ↦
        let (r, lower) = search-some signals tick ts 0 i before in
        let stop = search-none later tick ts 1 e in
        let l = in_table ts i r.0 r.1 in
        inl (
          rw (e, before)
            (
              Ready-unlocked signals later tick ts i h r,
              λ j less ready. stop j (omega arith) ready,
            ))
  ]
]

pub os_schedule_lem :
    (asked : Option (ℕ → ℕ)) (tick : ℕ) (s : Os)
    → s.allowed ≡ 1
    → Unlocks asked s.signals
    → let s' = os_schedule asked tick s in
      (s'.allowed ≡ 1)
      × Chosen (signals_of asked s) tick s.threads (skipped_of asked) s.running s'.running
unfolding os_schedule schedule_rounds
os_schedule_lem none tick s a h = rw a (
  refl,
  rw (round-running tick (record s { allowed = 0 }))
      (Chosen-search s.signals tick s.threads 0 s.running),
)
os_schedule_lem (some later) tick s a h =
    let free : Os = record s { allowed = 0 } in
    let again : Os = record (schedule_round tick free) { signals = later; allowed = 1 } in
    let e =
      round-running tick again
      ∙ ap₂ get_some (round-running tick free) (round-search tick free later 1) in
    rw a (
      refl,
      subst (Chosen later tick s.threads 1 s.running) (sym e)
          (Chosen-again s.signals later tick s.threads s.running h),
    )

modified :
    (ts : List Thread) (i : ℕ) (f : Thread → Thread) (u : Thread)
    → get_elem? (modify ts i f) i ≡ some u
    → (t : Thread) × (u ≡ f t)
modified [] i f u e = absurd (cc)
modified (t ∷ ts) zero f u e = (t, sym (some-injective e))
modified (t ∷ ts) (suc i) f u e = modified ts i f u e

untouched :
    (ts : List Thread) (i j : ℕ) (f : Thread → Thread)
    → i ≢ j
    → get_elem? (modify ts i f) j ≡ get_elem? ts j
untouched [] i j f ne = refl
untouched (t ∷ ts) zero zero f ne = absurd (ne refl)
untouched (t ∷ ts) zero (suc j) f ne = refl
untouched (t ∷ ts) (suc i) zero f ne = refl
untouched (t ∷ ts) (suc i) (suc j) f ne = untouched ts i j f (λ e. ne (ap suc e))

-- A thread that waits on a locked signal does not go on as long as another one can run.
pub os_signal_set_lem :
    (now signal other : ℕ) (s : Os)
    → s.allowed ≡ 1
    → s.signals signal ≢ 0
    → other ≢ s.running
    → Ready s.signals now s.threads other
    → (os_signal_set now signal s).running ≢ s.running
unfolding os_signal_set
os_signal_set_lem now signal other s a locked ne (t, at_other, ready) same =
    blocked (os_schedule_lem none now (wait_on signal s) a tt).1
  where
    waits : Thread → Thread
    waits t = record t { wait_for = signal }

    there : get_elem? (wait_on signal s).threads other ≡ some t
    there = untouched s.threads s.running other waits (λ e. ne (sym e)) ∙ at_other

    still : (u v : Thread) → u ≡ waits v → is_ready s.signals now u ≡ true → ⊥
    still u v p r = ground (arith, locked, ap (λ w. w.wait_for) p)

    blocked :
        Chosen s.signals now
          (wait_on signal s).threads
          0
          s.running
          (os_schedule none now (wait_on signal s)).running
        → ⊥
    blocked (inr (none_ready, q)) =
        let l = in_table (wait_on signal s).threads other t there in
        none_ready other (omega arith) (t, there, ready)
    blocked (inl ((u, at_running, r), lower)) =
        let (v, p) =
          modified s.threads s.running waits u
            (ap (λ i. get_elem? (wait_on signal s).threads i) (sym same) ∙ at_running) in
        still u v p r

-- ===== src/Scheduler/Search.antt =====
-- The search of the scheduler through the table of threads.
use ct_bot.Base.{
  ℕ, zero, suc, ◌%◌, ◌^◌, ◌<◌, ◌≡◌, refl, ap, ◌∙◌, true, false, none, some, List, [], ◌∷◌, arith,
  ◌==◌, if◌then◌else◌, get_elem?, modify, take, length, Option, ◌+◌, ◌-◌, ◌⊎◌, inl, inr, Bool-cases,
  Option-cases, some-injective,
}
use ct_bot.Scheduler.{Thread, Os, is_ready, next_index, first_ready, schedule_round}

abbrev pub get_some : ℕ → Option ℕ → ℕ
get_some old none = old
get_some old (some i) = i

-- The thread at an index of the table can run at a time.
abbrev pub Ready : (ℕ → ℕ) → ℕ → List Thread → ℕ → Type 0
Ready signals tick ts i =
    (t : Thread) × (get_elem? ts i ≡ some t) × (is_ready signals tick t ≡ true)

-- The highest thread that can run is at the index.
abbrev pub Highest : (ℕ → ℕ) → ℕ → List Thread → ℕ → Type 0
Highest signals tick ts i =
    Ready signals tick ts i × ((j : ℕ) → j < i → Ready signals tick ts j → ⊥)

module _ (signals : ℕ → ℕ) (tick : ℕ) where
  found :
      (ts : List Thread) (i : ℕ) → first_ready signals tick ts ≡ some i → Highest signals tick ts i
  unfolding first_ready
  found [] i e = absurd (cc)
  found (t ∷ ts) i e = elim (Bool-cases (is_ready signals tick t)) [
    | inl ready ↦
        let p : i ≡ 0 = ground (arith, ready, e) in rw p ((t, refl, ready), λ j h r. omega arith)
    | inr blocked ↦ elim (Option-cases (first_ready signals tick ts)) [
      | inl none_left ↦ absurd (ground (arith, blocked, e, none_left))
      | inr (k, q) ↦
          let p : i ≡ suc k = ground (arith, blocked, e, q) in
          let (ready, lower) = found ts k q in rw p (ready, λ j h r. before blocked k lower j h r)
    ]
  ]
    where
      before :
          is_ready signals tick t ≡ false
          → (k : ℕ) → ((j : ℕ) → j < k → Ready signals tick ts j → ⊥)
          → (j : ℕ) → j < suc k
          → Ready signals tick (t ∷ ts) j
          → ⊥
      before blocked k lower zero h (u, at_zero, ready) =
          let p : t ≡ u = some-injective at_zero in cc (ap (is_ready signals tick) p)
      before blocked k lower (suc j) h r = lower j (omega arith) r

  nothing :
      (ts : List Thread)
      → first_ready signals tick ts ≡ none
      → (j : ℕ) → Ready signals tick ts j
      → ⊥
  unfolding first_ready
  nothing [] e j (u, q, ready) = cc
  nothing (t ∷ ts) e j r = elim (Bool-cases (is_ready signals tick t)) [
    | inl ready ↦ absurd (ground (arith, ready, e))
    | inr blocked ↦ elim (Option-cases (first_ready signals tick ts)) [
      | inl none_left ↦ after blocked (nothing ts none_left) j r
      | inr (k, q) ↦ absurd (ground (arith, blocked, e, q))
    ]
  ]
    where
      after :
          is_ready signals tick t ≡ false
          → ((j : ℕ) → Ready signals tick ts j → ⊥)
          → (j : ℕ) → Ready signals tick (t ∷ ts) j
          → ⊥
      after blocked stop zero (u, at_zero, ready) =
          let p : t ≡ u = some-injective at_zero in cc (ap (is_ready signals tick) p)
      after blocked stop (suc j) r = stop j r

  -- The note of the time changes nothing for the choice.
  first_ready-modify :
      (ts : List Thread) (i : ℕ) (time : ℕ)
      → first_ready signals tick (modify ts i (λ t. record t { last_schedule = time }))
        ≡ first_ready signals tick ts
  unfolding first_ready
  first_ready-modify [] i time = refl
  first_ready-modify (t ∷ ts) zero time = refl
  first_ready-modify (t ∷ ts) (suc i) time =
      ap (λ r. if is_ready signals tick t then some 0 else next_index r)
        (first_ready-modify ts i time)

  first_ready-take :
      (ts : List Thread) (n i time : ℕ)
      → first_ready signals tick (take n (modify ts i (λ t. record t { last_schedule = time })))
        ≡ first_ready signals tick (take n ts)
  unfolding first_ready
  first_ready-take ts zero i time = refl
  first_ready-take [] (suc n) i time = refl
  first_ready-take (t ∷ ts) (suc n) zero time = refl
  first_ready-take (t ∷ ts) (suc n) (suc i) time =
      ap (λ r. if is_ready signals tick t then some 0 else next_index r)
        (first_ready-take ts n i time)

-- Entries of a table and of its beginning.
pub get_elem?-take :
    (ts : List Thread) (n i : ℕ) (t : Thread)
    → get_elem? (take n ts) i ≡ some t
    → (i < n) × (get_elem? ts i ≡ some t)
get_elem?-take ts zero i t e = absurd (cc)
get_elem?-take [] (suc n) i t e = absurd (cc)
get_elem?-take (u ∷ ts) (suc n) zero t e = (omega arith, e)
get_elem?-take (u ∷ ts) (suc n) (suc i) t e =
    let (l, q) = get_elem?-take ts n i t e in (omega arith, q)

pub take-get_elem? :
    (ts : List Thread) (n i : ℕ) (t : Thread)
    → i < n
    → get_elem? ts i ≡ some t
    → get_elem? (take n ts) i ≡ some t
take-get_elem? ts zero i t l e = absurd (omega arith)
take-get_elem? [] (suc n) i t l e = absurd (cc)
take-get_elem? (u ∷ ts) (suc n) zero t l e = e
take-get_elem? (u ∷ ts) (suc n) (suc i) t l e = take-get_elem? ts n i t (omega arith) e

pub in_table : (ts : List Thread) (i : ℕ) (t : Thread) → get_elem? ts i ≡ some t → i < length ts
in_table [] i t e = absurd (cc)
in_table (u ∷ ts) zero t e = omega arith
in_table (u ∷ ts) (suc i) t e = let l = in_table ts i t e in omega arith

pub Highest-take :
    (signals : ℕ → ℕ) (tick : ℕ) (ts : List Thread) (n i : ℕ)
    → Highest signals tick (take n ts) i
    → Highest signals tick ts i
Highest-take signals tick ts n i ((t, e, r), lower) =
    let (l, q) = get_elem?-take ts n i t e in
    ((t, q, r), λ j h (u, p, ready). lower j h (u, take-get_elem? ts n j u (omega arith) p, ready))

-- A search through the table, but for `skipped` entries at its end.
abbrev pub search : (ℕ → ℕ) → ℕ → List Thread → ℕ → Option ℕ
search signals tick ts skipped = first_ready signals tick (take (length ts - skipped) ts)

-- The signals as they are at the end, and the entries that the last search leaves out.
abbrev pub signals_of : Option (ℕ → ℕ) → Os → ℕ → ℕ
signals_of none s = s.signals
signals_of (some signals) s = signals

abbrev pub skipped_of : Option (ℕ → ℕ) → ℕ
skipped_of none = 0
skipped_of (some signals) = 1

-- What a search leaves running, of the threads but for the last `skipped` ones.
abbrev pub Chosen : (ℕ → ℕ) → ℕ → List Thread → ℕ → ℕ → ℕ → Type 0
Chosen signals tick ts skipped old new =
    Highest signals tick ts new
    ⊎ (((j : ℕ) → j + skipped < length ts → Ready signals tick ts j → ⊥) × (new ≡ old))

pub search-some :
    (signals : ℕ → ℕ) (tick : ℕ) (ts : List Thread) (skipped i : ℕ)
    → search signals tick ts skipped ≡ some i
    → Highest signals tick ts i
search-some signals tick ts skipped i e =
    Highest-take signals tick ts (length ts - skipped) i
      (found signals tick (take (length ts - skipped) ts) i e)

pub search-none :
    (signals : ℕ → ℕ) (tick : ℕ) (ts : List Thread) (skipped : ℕ)
    → search signals tick ts skipped ≡ none
    → (j : ℕ) → j + skipped < length ts
    → Ready signals tick ts j
    → ⊥
search-none signals tick ts skipped e j l (t, p, r) =
    nothing signals tick (take (length ts - skipped) ts) e j
      (t, take-get_elem? ts (length ts - skipped) j t (omega arith) p, r)

-- The thread that runs behind a round, and the next search in its table.
pub round-running :
    (tick : ℕ) (s : Os)
    → (schedule_round tick s).running
      ≡ get_some s.running (search s.signals tick s.threads s.allowed)
unfolding schedule_round
round-running tick s = elim (Option-cases (search s.signals tick s.threads s.allowed)) [
  | inl e ↦ rw e
  | inr (i, e) ↦ rw e (ground arith)
]

pub length-modify :
    (ts : List Thread) (i : ℕ) (f : Thread → Thread) → length (modify ts i f) ≡ length ts
length-modify [] i f = refl
length-modify (t ∷ ts) zero f = refl
length-modify (t ∷ ts) (suc i) f = ap suc (length-modify ts i f)

pub round-search :
    (tick : ℕ) (s : Os) (signals : ℕ → ℕ) (skipped : ℕ)
    → search signals tick (schedule_round tick s).threads skipped
      ≡ search signals tick s.threads skipped
unfolding schedule_round
round-search tick s signals skipped =
    elim (Option-cases (search s.signals tick s.threads s.allowed)) [
      | inl e ↦ rw e refl
      | inr (i, e) ↦ elim (Bool-cases (i == s.running)) [
        | inl runs ↦ rw (e, runs) refl
        | inr other ↦
            rw (e, other)
              (ap
                  (λ n. first_ready signals tick (
                    take (n - skipped)
                      (modify s.threads i (λ t. record t { last_schedule = tick % 2 ^ 16 }))))
                  (length-modify s.threads i (λ t. record t { last_schedule = tick % 2 ^ 16 }))
                ∙ first_ready-take signals tick s.threads (length s.threads - skipped) i
                    (tick % 2 ^ 16))
      ]
    ]

-- The thread that is left running by one search.
pub Chosen-search :
    (signals : ℕ → ℕ) (tick : ℕ) (ts : List Thread) (skipped old : ℕ)
    → Chosen signals tick ts skipped old (get_some old (search signals tick ts skipped))
Chosen-search signals tick ts skipped old = elim (Option-cases (search signals tick ts skipped)) [
  | inl e ↦ inr (search-none signals tick ts skipped e, rw e refl)
  | inr (i, e) ↦ inl (rw e (search-some signals tick ts skipped i e))
]

-- ===== src/BotLogic/Init/Registered.antt =====
-- What `bot_behave_init` builds, for every set of symbols and every allocator.
use ct_bot.Base.{
  ℕ, ◌+◌, ◌≡◌, ◌≢◌, refl, ap, sym, subst, ◌∙◌, Bool, true, false, not, ◌&&◌, Option, none, some,
  List, [], ◌∷◌, ◌++◌, arith, ◌==◌, if◌then◌else◌, Bool-cases, Option-cases, ◌⊎◌, inl, inr, All,
  some-injective,
}
use ct_bot.BotLogic.{Behaviour, get_behaviour, at, write, new_behaviour, insert_behaviour_to_list}
use ct_bot.BotLogic.Calls.{activate_behaviour, switch_to_behaviour, start, is_busy}
use ct_bot.BotLogic.Emergency.{Procs, register_emergency_proc, start_registered_emergency_procs}
use ct_bot.BotLogic.Order.{
  IsSorted, IsUnique, Differs, insert-IsSorted, insert-IsUnique, All-insert, write-IsSorted,
  write-IsUnique, All-Differs-write,
}
use ct_bot.BotLogic.Init.{
  Feature, Step, inserts, activates, registers, Built, is_set, step, run, bot_behave_init, steps,
  nothing,
}

-- The priorities that a part of the table gives.
abbrev priorities : List Step → List ℕ
priorities [] = []
priorities (inserts feature priority work active ∷ cs) = priority ∷ priorities cs
priorities (activates feature work ∷ cs) = priorities cs
priorities (registers feature proc ∷ cs) = priorities cs

not_in : ℕ → List ℕ → Bool
not_in p [] = true
not_in p (q ∷ qs) = not (q == p) && not_in p qs

all_distinct : List ℕ → Bool
unfolding not_in
all_distinct [] = true
all_distinct (p ∷ ps) = not_in p ps && all_distinct ps

table_distinct : all_distinct (priorities steps) ≡ true
unfolding all_distinct
table_distinct = refl

-- The list is in order with unique priorities, and free of the priorities still to come.
record Ordered (bs : List Behaviour) (ps : List ℕ) : Type 0 where
  sorted : IsSorted bs
  unique : IsUnique bs
  apart : All (λ p. All (Differs p) bs) ps

-- `activateBehaviour` with no caller changes at most the target.
activate_cases :
    (bs : List Behaviour) (to : Option ℕ)
    → let bs' = (activate_behaviour bs none to).1 in
      (bs' ≡ bs)
      ⊎ ((job : ℕ) × (bs' ≡ write bs (some job) (λ b. record b { active = true; caller = none })))
unfolding activate_behaviour switch_to_behaviour start write
activate_cases bs to = elim (Option-cases (get_behaviour bs to)) [
  | inl none_there ↦ inl (rw (none_there, switch_to_behaviour))
  | inr (job, e) ↦ elim (Bool-cases (is_busy (at bs job))) [
    | inl busy ↦ inl (rw (e, switch_to_behaviour) (rw busy))
    | inr idle ↦ inr (job, rw (e, switch_to_behaviour) (rw idle))
  ]
]

All-map {ℓ} :
    {A : Type ℓ} (P Q : A → Type 0) (xs : List A) → ((x : A) → P x → Q x) → All P xs → All Q xs
All-map P Q [] f a = tt
All-map P Q (x ∷ xs) f a = (f x a.0, All-map P Q xs f a.1)

activate-Ordered :
    (bs : List Behaviour) (to : Option ℕ) (ps : List ℕ)
    → Ordered bs ps
    → Ordered (activate_behaviour bs none to).1 ps
activate-Ordered bs to ps o = elim (activate_cases bs to) [
  | inl same ↦ rw same o
  | inr (job, e) ↦ rw e (record {
    sorted = write-IsSorted _ (λ b. refl) bs job o.sorted;
    unique = write-IsUnique _ (λ b. refl) bs job o.unique;
    apart = All-map _ _ ps (λ p. All-Differs-write _ (λ b. refl) p bs job) o.apart;
  })
]

apart_of :
    (p : ℕ) (ps : List ℕ) (b : Behaviour)
    → not_in p ps ≡ true
    → b.priority ≡ p
    → All (λ q. b.priority ≢ q) ps
unfolding not_in
apart_of p [] b h e = tt
apart_of p (q ∷ qs) b h e = (ground arith, apart_of p qs b (ground arith) e)

insert-Ordered :
    (bs : List Behaviour) (b : Option Behaviour) (p : ℕ) (ps : List ℕ)
    → ((x : Behaviour) → b ≡ some x → x.priority ≡ p)
    → not_in p ps ≡ true
    → Ordered bs (p ∷ ps)
    → Ordered (insert_behaviour_to_list bs b) ps
insert-Ordered bs none p ps h d o =
    unfold insert_behaviour_to_list in
    record { sorted = o.sorted; unique = o.unique; apart = o.apart.1 }
insert-Ordered bs (some b) p ps h d o = record {
  sorted = insert-IsSorted bs (some b) o.sorted;
  unique =
      insert-IsUnique bs b (subst (λ q. All (Differs q) bs) (sym (h b refl)) o.apart.0) o.unique;
  apart = joined ps (apart_of p ps b d (h b refl)) o.apart.1;
}
  where
    joined :
        (ps : List ℕ)
        → All (λ q. b.priority ≢ q) ps
        → All (λ q. All (Differs q) bs) ps
        → All (λ q. All (Differs q) (insert_behaviour_to_list bs (some b))) ps
    joined [] a l = tt
    joined (q ∷ qs) a l = (All-insert (Differs q) bs b a.0 l.0, joined qs a.1 l.1)

new_behaviour-priority :
    (a : Option ℕ) (p : ℕ) (w : Option ℕ) (t : Bool) (x : Behaviour)
    → new_behaviour a p w t ≡ some x
    → x.priority ≡ p
unfolding new_behaviour
new_behaviour-priority none p w t x e = absurd (cc)
new_behaviour-priority (some a) p w t x e = ap (λ b. b.priority) (sym (some-injective e))

module _ (config : Feature → Bool) (malloc : ℕ → Option ℕ) where
  run-Ordered :
      (cs : List Step) (s : Built)
      → all_distinct (priorities cs) ≡ true
      → Ordered s.behaviours (priorities cs)
      → Ordered (run config malloc s cs).behaviours []
  unfolding run step all_distinct
  run-Ordered [] s d o = o
  run-Ordered (inserts feature priority work active ∷ cs) s d o =
      run-Ordered cs (step config malloc s (inserts feature priority work active)) (ground arith)
        (by_symbol (is_set config feature))
    where
      by_symbol :
          (t : Bool)
          → Ordered
              (if t
                then record s {
                  behaviours =
                      insert_behaviour_to_list s.behaviours
                        (new_behaviour (malloc s.mallocs) priority (some work) active);
                  mallocs = s.mallocs + 1;
                }
                else s).behaviours
              (priorities cs)
      by_symbol true =
          insert-Ordered s.behaviours _ priority (priorities cs)
            (new_behaviour-priority (malloc s.mallocs) priority (some work) active) (ground arith) o
      by_symbol false = record { sorted = o.sorted; unique = o.unique; apart = o.apart.1 }
  run-Ordered (activates feature work ∷ cs) s d o =
      run-Ordered cs (step config malloc s (activates feature work)) d (by_symbol (config feature))
    where
      by_symbol :
          (t : Bool)
          → Ordered
              (if t
                then record s { behaviours = (activate_behaviour s.behaviours none (some work)).1 }
                else s).behaviours
              (priorities cs)
      by_symbol true = activate-Ordered s.behaviours (some work) (priorities cs) o
      by_symbol false = o
  run-Ordered (registers feature proc ∷ cs) s d o =
      run-Ordered cs (step config malloc s (registers feature proc)) d (by_symbol (config feature))
    where
      by_symbol :
          (t : Bool)
          → Ordered
              (if t
                then record s { procs = (register_emergency_proc s.procs proc).1 }
                else s).behaviours
              (priorities cs)
      by_symbol true = o
      by_symbol false = o

  none_yet : (ps : List ℕ) → All (λ p. All (Differs p) []) ps
  none_yet [] = tt
  none_yet (p ∷ ps) = (tt, none_yet ps)

  -- Whatever symbols a build sets, and whenever `malloc` fails, the list of behaviours is in the order
  -- of the priorities, and no two behaviours have one priority.
  pub bot_behave_init-IsUnique :
      IsSorted (bot_behave_init config malloc).behaviours
      × IsUnique (bot_behave_init config malloc).behaviours
  unfolding bot_behave_init
  bot_behave_init-IsUnique =
      let o =
        run-Ordered steps nothing table_distinct
          (record { sorted = tt; unique = tt; apart = none_yet (priorities steps) }) in
      (o.sorted, o.unique)

  abbrev register_all : Procs → List Step → Procs
  register_all p [] = p
  register_all p (inserts feature priority work active ∷ cs) = register_all p cs
  register_all p (activates feature work ∷ cs) = register_all p cs
  register_all p (registers feature proc ∷ cs) =
      register_all (if config feature then (register_emergency_proc p proc).1 else p) cs

  procs-run :
      (cs : List Step) (s : Built) → (run config malloc s cs).procs ≡ register_all s.procs cs
  unfolding run step
  procs-run [] s = refl
  procs-run (inserts feature priority work active ∷ cs) s =
      procs-run cs (step config malloc s (inserts feature priority work active))
      ∙ ap (λ p. register_all p cs) (ground arith)
  procs-run (activates feature work ∷ cs) s =
      procs-run cs (step config malloc s (activates feature work))
      ∙ ap (λ p. register_all p cs) (ground arith)
  procs-run (registers feature proc ∷ cs) s =
      procs-run cs (step config malloc s (registers feature proc))
      ∙ ap (λ p. register_all p cs) (ground arith)

  -- In every build the emergency procedures that it registers all find a place in the table, and
  -- are called in the order of their registration.
  pub start-bot_behave_init :
      start_registered_emergency_procs (bot_behave_init config malloc).procs
      ≡ (if config Feature.hang_on then 0 ∷ [] else [])
        ++ ((if config Feature.drive_area then 1 ∷ [] else [])
            ++ (if config Feature.follow_wall then 2 ∷ [] else []))
  unfolding bot_behave_init start_registered_emergency_procs register_emergency_proc
  start-bot_behave_init = rw (procs-run steps nothing) (ground arith)

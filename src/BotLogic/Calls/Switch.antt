-- ===== src/BotLogic/Calls/Switch.antt =====
-- `switch_to_behaviour` and `exit_behaviour` on the records that they name, and on all others.
use ct_bot.Base.{
  ℕ, ◌%◌, ◌/◌, ◌≡◌, ◌≢◌, refl, ◌∙◌, Bool, true, false, Option, none, some, List, arith, ◌==◌,
  if◌then◌else◌,
}
use ct_bot.BotLogic.{Behaviour, get_behaviour, at, write, subfail, subrunning, subbackgr}
use ct_bot.BotLogic.Calls.{
  switch_to_behaviour, exit_behaviour, start, caller_at, is_busy, set_result,
}
use ct_bot.BotLogic.Calls.Memory.{
  on_some, at-write, caller_at_lem, caller_at-write, get_behaviour-at,
}

-- What becomes of the caller of a started behaviour.
abbrev pub left : Bool → Behaviour → Behaviour
left background b =
    if background
    then set_result subbackgr b
    else record b { active = false; sub_result = subrunning }

left-address : (background : Bool) (b : Behaviour) → (left background b).address ≡ b.address
left-address true b = refl
left-address false b = refl

start_lem :
    (bs : List Behaviour) (from job c : ℕ) (background : Bool)
    → from ≢ job
    → at (start bs (some from) job background) c ≡ (
        if job == c
        then on_some (λ b. record b { active = true; caller = some from }) (at bs c)
        else if from == c
        then on_some (left background) (at bs c)
        else at bs c)
unfolding start
start_lem bs from job c background ne =
    at-write (write bs (some from) (left background)) job c _ (λ b. refl)
    ∙ ground (arith, at-write bs from c (left background) (left-address background))

refused :
    (bs : List Behaviour) (from job mode : ℕ) (to : Option ℕ)
    → get_behaviour bs to ≡ some job
    → is_busy (at bs job) ≡ true
    → mode % 2 ≡ 0
    → switch_to_behaviour bs (some from) to mode ≡ (none, write bs (some from) (set_result subfail))
refused bs from job mode to e busy m =
    unfold switch_to_behaviour in rw (e, switch_to_behaviour) (rw busy (ground arith))

-- A target that is busy refuses a call without the override flag: the answer is NULL, and only the
-- caller's result changes.
pub switch_to_behaviour-busy :
    (bs : List Behaviour) (from job c mode : ℕ) (to : Option ℕ)
    → get_behaviour bs to ≡ some job
    → is_busy (at bs job) ≡ true
    → mode % 2 ≡ 0
    → let r = switch_to_behaviour bs (some from) to mode in
      (r.0 ≡ none)
      × (at r.1 c ≡ (if from == c then on_some (set_result subfail) (at bs c) else at bs c))
switch_to_behaviour-busy bs from job c mode to e busy m =
    rw (refused bs from job mode to e busy m)
      (refl, at-write bs from c (set_result subfail) (λ b. refl))

accepted :
    (bs : List Behaviour) (from job mode : ℕ) (to : Option ℕ)
    → get_behaviour bs to ≡ some job
    → is_busy (at bs job) ≡ false
    → switch_to_behaviour bs (some from) to mode
      ≡ (some job, start bs (some from) job (mode / 2 % 2 == 1))
accepted bs from job mode to e idle =
    unfold switch_to_behaviour in rw (e, switch_to_behaviour) (rw idle refl)

-- An idle target other than the caller is started: it runs for the caller, which waits for it (or goes
-- on, in the background). No other record changes.
pub switch_to_behaviour-idle :
    (bs : List Behaviour) (from job c mode : ℕ) (to : Option ℕ)
    → get_behaviour bs to ≡ some job
    → is_busy (at bs job) ≡ false
    → from ≢ job
    → let r = switch_to_behaviour bs (some from) to mode in
      (r.0 ≡ some job)
      × (at r.1 c ≡ (
          if job == c
          then on_some (λ b. record b { active = true; caller = some from }) (at bs c)
          else if from == c
          then on_some (left (mode / 2 % 2 == 1)) (at bs c)
          else at bs c))
switch_to_behaviour-idle bs from job c mode to e idle ne =
    rw (accepted bs from job mode to e idle) (refl, start_lem bs from job c (mode / 2 % 2 == 1) ne)

-- A busy target that is overridden is started all the same, and the behaviour for which it ran is
-- active again and told of the failure, where these three are different behaviours. No other record
-- changes.
pub switch_to_behaviour-override :
    (bs : List Behaviour) (from job old c mode : ℕ) (to : Option ℕ)
    → get_behaviour bs to ≡ some job
    → is_busy (at bs job) ≡ true
    → caller_at bs job ≡ some old
    → mode % 2 ≡ 1
    → from ≢ job
    → old ≢ job
    → old ≢ from
    → let r = switch_to_behaviour bs (some from) to mode in
      (r.0 ≡ some job)
      × (at r.1 c ≡ (
          if job == c
          then on_some (λ b. record b { active = true; caller = some from }) (at bs c)
          else if from == c
          then on_some (left (mode / 2 % 2 == 1)) (at bs c)
          else if old == c
          then on_some (λ b. record b { active = true; sub_result = subfail }) (at bs c)
          else at bs c))
switch_to_behaviour-override bs from job old c mode to e busy o m ne nj nf = rw overridden (
  refl,
  start_lem told from job c (mode / 2 % 2 == 1) ne
      ∙ ground (arith, at-write bs old c notify (λ b. refl)),
)
  where
    notify : Behaviour → Behaviour
    notify b = record b { active = true; sub_result = subfail }

    told : List Behaviour
    told = write bs (some old) notify

    overridden :
        switch_to_behaviour bs (some from) to mode
        ≡ (some job, start told (some from) job (mode / 2 % 2 == 1))
    overridden =
        unfold switch_to_behaviour in rw (e, switch_to_behaviour) (rw (busy, o) (ground arith))

-- A behaviour that runs for another and ends is inactive and belongs to no caller, and its caller is
-- active with the low three bits of the state. No other record changes.
pub exit_behaviour_lem :
    (bs : List Behaviour) (job from c state : ℕ)
    → caller_at bs job ≡ some from
    → from ≢ job
    → at (exit_behaviour bs job state) c ≡ (
        if job == c
        then on_some (λ b. record b { active = false; caller = none }) (at bs c)
        else if from == c
        then on_some (λ b. record b { active = true; sub_result = state % 8 }) (at bs c)
        else at bs c)
exit_behaviour_lem bs job from c state e ne = rw ended (
    at-write told job c (λ b. record b { caller = none }) (λ b. refl)
    ∙ ground (
      arith,
      at-write stopped from c tell (λ b. refl),
      at-write bs job c stop (λ b. refl),
      by_record (at bs c),
    ))
  where
    stop : Behaviour → Behaviour
    stop b = record b { active = false }

    tell : Behaviour → Behaviour
    tell b = record b { active = true; sub_result = state % 8 }

    stopped : List Behaviour
    stopped = write bs (some job) stop

    told : List Behaviour
    told = write stopped (some from) tell

    ended : exit_behaviour bs job state ≡ write told (some job) (λ b. record b { caller = none })
    ended = unfold exit_behaviour in rw (caller_at-write bs job job stop (λ b. refl) (λ b. refl), e)

    by_record :
        (o : Option Behaviour)
        → on_some (λ b. record b { caller = none }) (on_some stop o)
          ≡ on_some (λ b. record b { active = false; caller = none }) o
    by_record none = refl
    by_record (some b) = refl

-- The call of an idle behaviour by another and its return, with nothing in between, leave the target
-- inactive with no caller, the caller active with the reported state, and every other record as it
-- was.
pub exit_behaviour-switch_to_behaviour :
    (bs : List Behaviour) (from job c mode state : ℕ) (to : Option ℕ)
    → get_behaviour bs to ≡ some job
    → is_busy (at bs job) ≡ false
    → from ≢ job
    → at (exit_behaviour (switch_to_behaviour bs (some from) to mode).1 job state) c ≡ (
        if job == c
        then on_some (λ b. record b { active = false; caller = none }) (at bs c)
        else if from == c
        then on_some
            (λ b. record b { active = true; sub_result = state % 8 })
            (on_some (left (mode / 2 % 2 == 1)) (at bs c))
        else at bs c)
exit_behaviour-switch_to_behaviour bs from job c mode state to e idle ne =
    let s = switch_to_behaviour bs (some from) to mode in
    exit_behaviour_lem s.1 job from c state
      (called s.1 (switch_to_behaviour-idle bs from job job mode to e idle ne).1) ne
    ∙ ground (arith, switch_to_behaviour-idle bs from job c mode to e idle ne, by_record (at bs c))
  where
    called :
        (after : List Behaviour)
        → at after job ≡ (
            if job == job
            then on_some (λ b. record b { active = true; caller = some from }) (at bs job)
            else if from == job
            then on_some (left (mode / 2 % 2 == 1)) (at bs job)
            else at bs job)
        → caller_at after job ≡ some from
    called after h =
        let (b, p) = get_behaviour-at bs to job e in
        caller_at_lem after job {b = record b { active = true; caller = some from }}
          (h ∙ ground (arith, p))

    by_record :
        (o : Option Behaviour)
        → on_some
            (λ b. record b { active = false; caller = none })
            (on_some (λ b. record b { active = true; caller = some from }) o)
          ≡ on_some (λ b. record b { active = false; caller = none }) o
    by_record none = refl
    by_record (some b) = refl

-- ===== src/BotLogic/Calls.antt =====
-- bot-logic.c: how behaviours call one another, return and are cancelled.
pub mod Memory
pub mod Switch
pub mod Hierarchy
pub mod Cancel
pub mod Chain
mod Levels
use ct_bot.Base.{
  ℕ, zero, suc, ◌+◌, ◌%◌, ◌/◌, Bool, true, false, not, ◌&&◌, ◌||◌, Option, none, some, List, [],
  ◌∷◌, map, ltb, leb, ◌==◌, if◌then◌else◌, same_ptr,
}
use ct_bot.BotLogic.{
  Behaviour, get_behaviour, at, active_at, write, subfail, subsuccess, subrunning, subcancel,
  subbackgr,
}

abbrev pub is_null : Option ℕ → Bool
is_null none = true
is_null (some a) = false

-- `job->caller`, NULL where there is no such record.
unfoldable pub caller_at : List Behaviour → ℕ → Option ℕ
unfolding at
caller_at bs a = elim (at bs a) [ none ↦ none | some b ↦ b.caller ]

abbrev pub is_busy : Option Behaviour → Bool
is_busy none = false
is_busy (some job) = not (is_null job.caller) || job.active || job.sub_result == subrunning

abbrev pub set_result : ℕ → Behaviour → Behaviour
set_result r b = record b { sub_result = r }

-- The part of `switch_to_behaviour` behind the answer to a busy target.
unfoldable pub start : List Behaviour → Option ℕ → ℕ → Bool → List Behaviour
unfolding write
start bs from job background =
    write
      (write bs from λ b.
        if background
        then set_result subbackgr b
        else record b { active = false; sub_result = subrunning })
      (some job) (λ b. record b { active = true; caller = from })

-- `switch_to_behaviour`. Bit 0 of `mode` is the override flag and bit 1 the background flag.
unfoldable pub switch_to_behaviour :
    List Behaviour → Option ℕ → Option ℕ → ℕ → Option ℕ × List Behaviour
unfolding get_behaviour at write caller_at start
switch_to_behaviour bs from to mode = elim (get_behaviour bs to) [
  | none ↦ (none, write bs from (set_result subfail))
  | some job ↦
      let override = mode % 2 == 1 in
      let background = mode / 2 % 2 == 1 in
      let told =
        write bs (caller_at bs job) (λ b. record b { active = true; sub_result = subfail }) in
      if is_busy (at bs job)
      then if override
        then (some job, start told from job background)
        else (none, write bs from (set_result subfail))
      else (some job, start bs from job background)
]

-- `activateBehaviour`: no override, in the background.
unfoldable pub activate_behaviour : List Behaviour → Option ℕ → Option ℕ → Option ℕ × List Behaviour
unfolding switch_to_behaviour
activate_behaviour bs from to = switch_to_behaviour bs from to 2

-- `exit_behaviour`; three bits of the state reach the caller.
unfoldable pub exit_behaviour : List Behaviour → ℕ → ℕ → List Behaviour
unfolding write caller_at
exit_behaviour bs job state =
    let stopped = write bs (some job) (λ b. record b { active = false }) in
    let told =
      write stopped (caller_at stopped job)
        (λ b. record b { active = true; sub_result = state % 8 }) in
    write told (some job) (λ b. record b { caller = none })

-- `return_from_behaviour`
pub return_from_behaviour : List Behaviour → ℕ → List Behaviour
unfolding exit_behaviour
return_from_behaviour bs job = exit_behaviour bs job subsuccess

abbrev pub in_range : ℕ → ℕ → ℕ → Bool
in_range lo hi p = leb lo p && leb p hi

abbrev pub behaviour_prio_min : ℕ
behaviour_prio_min = 3

abbrev pub behaviour_prio_max : ℕ
behaviour_prio_max = 200

-- `deactivateAllBehaviours`
unfoldable pub deactivate_all_behaviours : List Behaviour → List Behaviour
deactivate_all_behaviours = map λ b.
    if in_range behaviour_prio_min behaviour_prio_max b.priority
    then record b { active = false; sub_result = subcancel; caller = none }
    else b

-- `isInCallHierarchy`: the loop over job->caller; `none` means that the fuel ran out. A level is a
-- uint8_t.
unfoldable pub level_from : ℕ → List Behaviour → ℕ → ℕ → ℕ → Option ℕ
unfolding caller_at
level_from zero bs job caller_beh level = none
level_from (suc fuel) bs job caller_beh level = elim (caller_at bs job) [
  | none ↦ some 0
  | some caller ↦
      let level' = (level + 1) % 256 in
      let rest = level_from fuel bs caller caller_beh level' in
      if caller == job then some 0 else if caller == caller_beh then some level' else rest
]

unfoldable pub is_in_call_hierarchy : ℕ → List Behaviour → Option ℕ → ℕ → Option ℕ
unfolding level_from
is_in_call_hierarchy fuel bs none caller_beh = some 0
is_in_call_hierarchy fuel bs (some job) caller_beh = level_from fuel bs job caller_beh 0

-- Whether some behaviour has `ptr` for its caller.
unfoldable pub is_caller : List Behaviour → Option ℕ → Bool
is_caller [] ptr = false
is_caller (b ∷ bs) ptr = same_ptr b.caller ptr || is_caller bs ptr

abbrev pub cancelled : Behaviour → Behaviour
cancelled b = record b { active = false; sub_result = subcancel; caller = none }

abbrev pub caller_of : List Behaviour → Option ℕ → Option ℕ
caller_of bs none = none
caller_of bs (some a) = caller_at bs a

-- The levels of one behaviour's chain of callers, the called ones first.
unfoldable pub cancel_levels : ℕ → List Behaviour → Option ℕ → List Behaviour
unfolding is_caller caller_at write
cancel_levels zero bs ptr = bs
cancel_levels (suc level) bs ptr =
    cancel_levels level (if is_caller bs ptr then bs else write bs ptr cancelled) (caller_of bs ptr)

-- The loop of `deactivate_called_behaviours` over the list, given by its addresses.
unfoldable pub cancel_chains : ℕ → List ℕ → List Behaviour → ℕ → Option (List Behaviour)
unfolding at is_in_call_hierarchy cancel_levels
cancel_chains fuel [] bs caller = some bs
cancel_chains fuel (job ∷ jobs) bs caller =
    elim (if active_at (at bs job)
      then is_in_call_hierarchy fuel bs (some job) caller
      else some 0) [
        | none ↦ none
        | some level ↦ cancel_chains fuel jobs (cancel_levels level bs (some job)) caller
      ]

-- `deactivate_called_behaviours`. A caller in the list is cancelled as a sub-call and stays active.
unfoldable pub deactivate_called_behaviours :
    ℕ → List Behaviour → Option ℕ → Option (List Behaviour)
unfolding cancel_chains write
deactivate_called_behaviours fuel bs none = some bs
deactivate_called_behaviours fuel bs (some caller) =
    elim (cancel_chains fuel (map (λ b. b.address) bs) bs caller) [
      | none ↦ none
      | some bs' ↦
          some (write bs' (some caller) (λ b. record b { active = true; sub_result = subcancel }))
    ]

-- ===== src/BotLogic/Tests.antt =====
-- Runs of bot-logic.c on a list of three behaviours.
use ct_bot.Base.{
  All, ◌<◌, inr, ℕ, ◌*◌, ◌+◌, ◌%◌, ◌/◌, ◌≡◌, refl, Bool, true, false, Option, none, some, List, [],
  ◌∷◌, arith, ◌==◌, if◌then◌else◌, ◌⊎◌,
}
use ct_bot.BotLogic.{subcancel, Behaviour, get_behaviour, at}
use ct_bot.BotLogic.Order.{IsSorted, IsUnique}
use ct_bot.BotLogic.Calls.{
  deactivate_called_behaviours, caller_at, is_busy, switch_to_behaviour, exit_behaviour,
  is_in_call_hierarchy, level_from,
}
use ct_bot.BotLogic.Calls.Chain.{Line, IsCancelled}
use ct_bot.BotLogic.Calls.Cancel.{Present, deactivate_called_behaviours_lem}
use ct_bot.BotLogic.Calls.Memory.{on_some}
use ct_bot.BotLogic.Calls.Switch.{left, exit_behaviour-switch_to_behaviour}
use ct_bot.BotLogic.Calls.Hierarchy.{
  IsRanked, Answers, is_in_call_hierarchy-Answers, level_from_cycle,
}
use ct_bot.BotLogic.Init.{Feature, bot_behave_init}
use ct_bot.BotLogic.Init.Registered.{bot_behave_init-IsUnique}
use ct_bot.BotLogic.Behave.{Robot, Factors, bot_behave}
use ct_bot.BotLogic.Behave.Arbitration.{OneMore, bot_behave-OneMore, bot_behave_preempts}

abbrev behaviour : ℕ → ℕ → Option ℕ → Bool → Behaviour
behaviour address priority caller active = record {
  address = address;
  work = some address;
  priority = priority;
  caller = caller;
  active = active;
  sub_result = 1;
}

-- 10 runs for 20, which waits, and 30 is idle.
abbrev three : List Behaviour
three =
    behaviour 10 200 (some 20) true ∷ behaviour 20 150 none false ∷ behaviour 30 50 none false ∷ []

three-IsSorted : IsSorted three
three-IsSorted = ground arith

found : (a : ℕ) → (a ≡ 10) ⊎ (a ≡ 30) → get_behaviour three (some a) ≡ some a
unfolding get_behaviour
found a h = ground (arith, h)

busy_10 : is_busy (at three 10) ≡ true
unfolding at
busy_10 = refl

idle_30 : is_busy (at three 30) ≡ false
unfolding at
idle_30 = refl

caller_10 : caller_at three 10 ≡ some 20
unfolding caller_at at
caller_10 = refl

exit_behaviour-switch_to_behaviour_example :
    at (exit_behaviour (switch_to_behaviour three (some 20) (some 30) 0).1 30 1) 20 ≡ (
      if 30 == 20
      then on_some (λ b. record b { active = false; caller = none }) (at three 20)
      else if 20 == 20
      then on_some
          (λ b. record b { active = true; sub_result = 1 % 8 })
          (on_some (left (0 / 2 % 2 == 1)) (at three 20))
      else at three 20)
exit_behaviour-switch_to_behaviour_example =
    exit_behaviour-switch_to_behaviour three 20 30 20 0 1 (some 30) (found 30 (inr refl)) idle_30
      (omega arith)

abbrev rank : ℕ → ℕ
rank a = if a == 10 then 1 else 0

three-IsRanked : IsRanked three rank
unfolding caller_at at
three-IsRanked job caller e = ground arith

is_in_call_hierarchy-Answers_example :
    (r : ℕ) × (is_in_call_hierarchy 2 three (some 10) 20 ≡ some r) × Answers three 20 10 0 r
is_in_call_hierarchy-Answers_example =
    is_in_call_hierarchy-Answers three rank 10 20 2 three-IsRanked (omega arith)

abbrev cycle : List Behaviour
cycle = behaviour 10 200 (some 20) true ∷ behaviour 20 150 (some 10) false ∷ []

cycle_callers : (caller_at cycle 10 ≡ some 20) × (caller_at cycle 20 ≡ some 10)
unfolding caller_at at
cycle_callers = (refl, refl)

abbrev all_features : Feature → Bool
all_features f = true

abbrev addresses : ℕ → Option ℕ
addresses n = some (1000 + n)

bot_behave_init-IsUnique_example :
    IsSorted (bot_behave_init all_features addresses).behaviours
    × IsUnique (bot_behave_init all_features addresses).behaviours
bot_behave_init-IsUnique_example = bot_behave_init-IsUnique all_features addresses

-- Factors as percentages, and behaviours that wish for the speed 100.
abbrev percent : Factors ℕ
percent = record { one = 100; times = λ a b. a * b / 100; scale = λ a v. a * v / 100 }

abbrev wish_100 : ℕ → ℕ → Robot ℕ → Robot ℕ
wish_100 function address s = record s { wish_left = 100; wish_right = 100 }

wish_100_motors : (f a : ℕ) (s : Robot ℕ) → (wish_100 f a s).motors ≡ s.motors
wish_100_motors f a s = refl

abbrev robot : Robot ℕ
robot = record {
  behaviours = three;
  wish_left = 1000;
  wish_right = 1000;
  factor_left = 100;
  factor_right = 100;
  motors = [];
}

bot_behave-OneMore_example : OneMore robot (bot_behave percent wish_100 robot)
bot_behave-OneMore_example =
    bot_behave-OneMore percent wish_100 wish_100_motors robot (behaviour 10 200 (some 20) true)
      (behaviour 20 150 none false ∷ behaviour 30 50 none false ∷ []) refl

-- The first behaviour is idle, the second one has a wish, and the third one does not get its turn.
abbrev waiting : Robot ℕ
waiting = record robot {
  behaviours =
      behaviour 20 150 none false ∷ behaviour 10 120 none true ∷ behaviour 30 50 none true ∷ [];
}

abbrev wish_of_10 : ℕ → ℕ → Robot ℕ → Robot ℕ
wish_of_10 function address s =
    if address == 10 then wish_100 function address s else record s { behaviours = [] }

bot_behave_preempts_example :
    bot_behave percent wish_of_10 waiting ≡ bot_behave percent wish_100 waiting
unfolding at
bot_behave_preempts_example =
    bot_behave_preempts percent wish_100 wish_of_10 waiting (behaviour 20 150 none false ∷ [])
      (behaviour 30 50 none true ∷ []) (behaviour 10 120 none true) 10 refl (refl, tt) refl refl
      refl refl (λ t. refl)

abbrev chain_rank : ℕ → ℕ
chain_rank a = if a == 10 then 2 else if a == 15 then 1 else 0

rank_in : (a : ℕ) → chain_rank a < 3
rank_in a = ground arith

-- 10 runs for 15, which runs for 20.
abbrev chained : List Behaviour
chained =
    behaviour 15 180 (some 20) false
    ∷ behaviour 10 160 (some 15) true
    ∷ behaviour 20 150 none false
    ∷ []

chained-IsRanked : IsRanked chained chain_rank
unfolding caller_at at
chained-IsRanked job c e = ground arith

chained-Present : Present chained 20
unfolding at
chained-Present = (behaviour 20 150 none false, refl)

chained_line : Line chained 20 10 (15 ∷ [])
unfolding caller_at at
chained_line =
    (refl, ((λ e. absurd (ground (arith, e))), ((λ e. refl), ((λ e. absurd (cc)), tt))), refl)

deactivate_called_behaviours_lem_example :
    (bs' : List Behaviour) × (deactivate_called_behaviours 3 chained (some 20) ≡ some bs')
    × All (IsCancelled bs') (10 ∷ 15 ∷ [])
    × (b : Behaviour) × (at bs' 20 ≡ some b)
    × (b.active ≡ true)
    × (b.sub_result ≡ subcancel)
unfolding at
deactivate_called_behaviours_lem_example =
    deactivate_called_behaviours_lem 3 chain_rank 20 rank_in chained 10 (15 ∷ []) chained-IsRanked
      chained-Present chained_line
      ((λ e. ground (arith, e)), ((λ e. ground (arith, e)), ((λ e. cc), tt))) refl (omega arith)

level_from_cycle_example : level_from 1000 cycle 10 30 0 ≡ none
level_from_cycle_example =
    level_from_cycle 1000 cycle 10 20 30 0 cycle_callers.0 cycle_callers.1 (omega arith)
      (omega arith) (omega arith)

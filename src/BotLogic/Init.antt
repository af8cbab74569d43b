-- ===== src/BotLogic/Init.antt =====
-- bot-logic.c, `bot_behave_init`: the behaviours that a build registers. A build is the set of its
-- BEHAVIOUR_..._AVAILABLE symbols. A work function is named by its place in this table, from 0, and
-- an emergency procedure by its place among the three.
pub mod Registered
use ct_bot.Base.{
  ℕ, suc, ◌+◌, Bool, true, false, Option, none, some, List, [], ◌∷◌, ◌++◌, if◌then◌else◌,
}
use ct_bot.BotLogic.{Behaviour, new_behaviour, insert_behaviour_to_list}
use ct_bot.BotLogic.Calls.{activate_behaviour}
use ct_bot.BotLogic.Emergency.{Procs, no_procs, register_emergency_proc}

-- What follows BEHAVIOUR_ in the symbol of a build.
pub data Feature : Type 0 where
  scan avoid_border avoid_col remotecall servo simple hang_on get_utilization delay drive_stack :
      Feature
  cancel_behaviour turn drive_distance goto gotoxy goto_pos goto_obstacle measure_distance : Feature
  drive_neuralnet adventcal neuralnet solve_maze drive_area pathplanning follow_line_enhanced :
      Feature
  follow_line line_shortest_way olympic drive_square follow_wall classify_objects catch_pillar :
      Feature
  transport_pillar follow_object drive_chess abl ubasic scan_beacons calibrate_pid : Feature
  calibrate_sharps turn_test test_encoder hw_test prototype : Feature

-- One statement of `bot_behave_init`; the base behaviour stands under no symbol.
pub data Step : Type 0 where
  inserts : Option Feature → (priority : ℕ) → (work : ℕ) → (active : Bool) → Step
  activates : Feature → (work : ℕ) → Step
  registers : Feature → (proc : ℕ) → Step

abbrev pub first_steps : List Step
first_steps =
    inserts (some Feature.scan) 250 0 true
    ∷ inserts (some Feature.avoid_border) 249 1 true
    ∷ inserts (some Feature.avoid_col) 248 2 true
    ∷ inserts (some Feature.remotecall) 254 3 false
    ∷ inserts (some Feature.servo) 253 4 false
    ∷ inserts (some Feature.simple) 252 5 false
    ∷ inserts (some Feature.simple) 251 6 false
    ∷ activates Feature.simple 5
    ∷ inserts (some Feature.hang_on) 245 7 true
    ∷ registers Feature.hang_on 0
    ∷ inserts (some Feature.get_utilization) 244 8 false
    ∷ inserts (some Feature.delay) 200 9 false
    ∷ inserts (some Feature.drive_stack) 190 10 false
    ∷ inserts (some Feature.cancel_behaviour) 154 11 false
    ∷ inserts (some Feature.turn) 150 12 false
    ∷ inserts (some Feature.drive_distance) 149 13 false
    ∷ inserts (some Feature.goto) 148 14 false
    ∷ inserts (some Feature.gotoxy) 147 15 false
    ∷ inserts (some Feature.goto_pos) 146 16 false
    ∷ inserts (some Feature.goto_obstacle) 145 17 false
    ∷ inserts (some Feature.measure_distance) 140 18 false
    ∷ inserts (some Feature.measure_distance) 139 19 false
    ∷ inserts (some Feature.drive_neuralnet) 135 20 false
    ∷ inserts (some Feature.drive_neuralnet) 134 21 false
    ∷ inserts (some Feature.adventcal) 103 22 true
    ∷ inserts (some Feature.neuralnet) 102 23 true
    ∷ inserts (some Feature.solve_maze) 100 24 false
    ∷ inserts (some Feature.solve_maze) 90 25 false
    ∷ inserts (some Feature.solve_maze) 89 26 false
    ∷ []

abbrev pub last_steps : List Step
last_steps =
    registers Feature.drive_area 1
    ∷ inserts (some Feature.drive_area) 171 27 false
    ∷ inserts (some Feature.drive_area) 170 28 false
    ∷ inserts (some Feature.drive_area) 73 29 false
    ∷ inserts (some Feature.pathplanning) 72 30 false
    ∷ inserts (some Feature.follow_line_enhanced) 71 31 false
    ∷ inserts (some Feature.follow_line) 70 32 false
    ∷ inserts (some Feature.line_shortest_way) 69 33 false
    ∷ inserts (some Feature.line_shortest_way) 169 34 false
    ∷ inserts (some Feature.olympic) 60 35 false
    ∷ inserts (some Feature.olympic) 55 36 false
    ∷ inserts (some Feature.olympic) 54 37 false
    ∷ inserts (some Feature.drive_square) 51 38 false
    ∷ inserts (some Feature.follow_wall) 48 39 false
    ∷ registers Feature.follow_wall 2
    ∷ inserts (some Feature.classify_objects) 45 40 false
    ∷ inserts (some Feature.catch_pillar) 44 41 false
    ∷ inserts (some Feature.catch_pillar) 43 42 false
    ∷ inserts (some Feature.transport_pillar) 41 43 false
    ∷ inserts (some Feature.follow_object) 40 44 false
    ∷ inserts (some Feature.drive_chess) 39 45 false
    ∷ inserts (some Feature.abl) 35 46 false
    ∷ inserts (some Feature.ubasic) 34 47 false
    ∷ inserts (some Feature.drive_stack) 33 48 false
    ∷ inserts (some Feature.scan_beacons) 32 49 false
    ∷ inserts (some Feature.calibrate_pid) 30 50 false
    ∷ inserts (some Feature.calibrate_sharps) 29 51 false
    ∷ inserts (some Feature.turn_test) 28 52 false
    ∷ inserts (some Feature.test_encoder) 20 53 false
    ∷ inserts (some Feature.hw_test) 10 54 true
    ∷ inserts none 2 55 true
    ∷ inserts (some Feature.prototype) 0 56 false
    ∷ []

abbrev pub steps : List Step
steps = first_steps ++ last_steps

-- The list, the emergency procedures, and the number of calls of `malloc` so far.
pub record Built : Type 0 where
  pub behaviours : List Behaviour
  pub procs : Procs
  pub mallocs : ℕ

-- A symbol that is set, or no symbol.
abbrev pub is_set : (Feature → Bool) → Option Feature → Bool
is_set config none = true
is_set config (some f) = config f

-- `config` says which symbols are set, and `malloc n` is the answer of the n-th call of `malloc`.
unfoldable pub step : (Feature → Bool) → (ℕ → Option ℕ) → Built → Step → Built
step config malloc s (inserts feature priority work active) =
    if is_set config feature
    then record s {
      behaviours =
          insert_behaviour_to_list s.behaviours
            (new_behaviour (malloc s.mallocs) priority (some work) active);
      mallocs = s.mallocs + 1;
    }
    else s
step config malloc s (activates feature work) =
    if config feature
    then record s { behaviours = (activate_behaviour s.behaviours none (some work)).1 }
    else s
step config malloc s (registers feature proc) =
    if config feature then record s { procs = (register_emergency_proc s.procs proc).1 } else s

unfoldable pub run : (Feature → Bool) → (ℕ → Option ℕ) → Built → List Step → Built
run config malloc s [] = s
run config malloc s (c ∷ cs) = run config malloc (step config malloc s c) cs

abbrev pub nothing : Built
nothing = record { behaviours = []; procs = no_procs; mallocs = 0 }

unfoldable pub bot_behave_init : (Feature → Bool) → (ℕ → Option ℕ) → Built
unfolding run step
bot_behave_init config malloc = run config malloc nothing steps

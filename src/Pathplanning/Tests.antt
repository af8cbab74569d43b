-- ===== src/Pathplanning/Tests.antt =====
-- Plans round a wall of the coarse map.
use ct_bot.Map.Update.{distance}
use ct_bot.Base.{
  ℕ, Bool, Option, ◌*◌, ◌+◌, ◌≡◌, refl, true, false, some, none, List, [], All, arith, replicate,
  ◌==◌, leb, ◌&&◌, if◌then◌else◌,
}
use ct_bot.PosStore.{Position, PosStore, origin, push, pop, dequeue, top, clear, is_full, is_empty}
use ct_bot.Pathplanning.Lowres.{
  Lowres, Area, Memory, access_field_lowres, map_to_world_lowres, write_field, put_section,
}
use ct_bot.Pathplanning.Wave.{
  Search, search_wave, wave_loop, spread, expand, neighbours, get_neighbour, mark, next_round,
}
use ct_bot.Pathplanning.Follow.{
  Trace, search_stackpath, follow_loop, follow_turn, look_around, look_row, look, enter_point,
  straighten, slope,
}
use ct_bot.Pathplanning.Fields.{IsWhole}
use ct_bot.Pathplanning.Queue.{HasQueue}
use ct_bot.Pathplanning.Step.{IsArea}
use ct_bot.Pathplanning.Ends.{Spreads, search_wave-Spreads}
use ct_bot.Pathplanning.WayBack.{IsPoint, search_stackpath-Holds}

abbrev memory : Memory
memory = record { malloc = λ _. true; beyond = λ _ _. 0; spill = λ m _ _. m }

abbrev at : ℕ → ℕ → Position
at x y = record { x = x; y = y }

-- A map with given fields: the target has the number 2, and a wall stands to its right.
abbrev map_of : (ℕ → ℕ → ℕ) → Lowres
map_of f = record {
  section = λ a b. some (λ i j. f (32 * a + i) (32 * b + j));
  deactivated = false;
}

abbrev floor : ℕ → ℕ → ℕ
floor x y = if x == 50 && y == 50 then 2 else if x == 52 && leb 49 y && leb y 51 then 1 else 0

abbrev walled : Lowres
walled = map_of floor

walled-IsWhole : IsWhole walled
walled-IsWhole a b ha hb = λ e. cc e

abbrev region : Area
region = record { min_x = 45; max_x = 58; min_y = 45; max_y = 58 }

region-IsArea : IsArea region
region-IsArea = record {
  width = omega arith;
  height = omega arith;
  left = omega arith;
  low = omega arith;
}

abbrev places : List Position
places = replicate 32 origin

abbrev queue : PosStore
queue = record {
  owner = some 40;
  buffer = some places;
  stat_data = 1;
  sp = 0;
  fp = 0;
  count = 0;
  mask = 31;
}

queue-HasQueue : HasQueue (some queue) []
queue-HasQueue = record {
  store = queue;
  buf = places;
  is_some = refl;
  ring = record {
    array = refl;
    power = record { order = 5; order_in = omega arith; size = refl };
    room = omega arith;
    sp_in = omega arith;
    fp_in = omega arith;
    count_in = omega arith;
    distance = ground arith;
  };
  size = refl;
  holds = refl;
}

abbrev beginning : Search
beginning = record {
  fields = walled;
  store = some queue;
  wavecounter = 2;
  found = false;
  reached = false;
}

search_wave-Spreads_example :
    Spreads region
      (at 54 50)
      (at 50 50)
      beginning
      (search_wave memory region (at 54 50) 1290374 (at 50 50) beginning)
search_wave-Spreads_example =
    search_wave-Spreads memory region-IsArea (at 54 50) (at 50 50) 1290374 beginning walled-IsWhole
      queue-HasQueue (omega arith) (omega arith)

-- The wave's numbers on a floor with a wall, by the distance from (50, 50).
abbrev numbers : ℕ → ℕ → ℕ
numbers x y = if x == 52 && leb 49 y && leb y 51 then 1 else 2 + distance x 50 + distance y 50

abbrev numbered : Lowres
numbered = map_of numbers

search_stackpath-Holds_example :
    (u : Trace) × (search_stackpath memory numbered (at 50 50) (at 54 50) 120 8 (some queue)
      ≡ some u)
    × (q : List Position) × HasQueue u.store q
    × All (IsPoint memory numbered) q
unfolding access_field_lowres
search_stackpath-Holds_example =
    search_stackpath-Holds memory numbered (at 50 50) (at 54 50) 120 8 (some queue) refl
      (omega arith) (omega arith) queue-HasQueue (omega arith)

abbrev outcome : Option Search → Option (Bool × ℕ)
outcome none = none
outcome (some t) = some (t.reached, t.wavecounter)

abbrev summary : Option Trace → Option (Bool × ℕ)
summary none = none
summary (some t) = some (t.reached, t.counter)

wave_reaches :
    outcome (search_wave memory region (at 54 50) 300 (at 50 50) beginning) ≡ some (true, 10)
unfolding search_wave wave_loop spread expand neighbours get_neighbour mark next_round
    access_field_lowres write_field put_section push dequeue is_full is_empty
wave_reaches = refl

-- The wave and the way back one after the other.
abbrev plan : Option Search → Option (Bool × ℕ)
plan none = none
plan (some t) =
    summary (search_stackpath memory t.fields (at 50 50) (at 54 50) 120 t.wavecounter t.store)

way_back : plan (search_wave memory region (at 54 50) 300 (at 50 50) beginning) ≡ some (true, 4)
unfolding search_wave wave_loop spread expand neighbours get_neighbour mark next_round write_field
    put_section dequeue search_stackpath follow_loop follow_turn look_around look_row look
    enter_point straighten slope map_to_world_lowres clear access_field_lowres push pop top is_full
    is_empty
way_back = refl

-- A rectangle that is one field wider than the map: the fields behind its rim stay free, and the
-- wave comes back to them again and again.
abbrev rim : Area
rim = record { min_x = 94; max_x = 96; min_y = 94; max_y = 96 }

wave_goes_on : outcome (search_wave memory rim (at 1 1) 300 (at 95 95) beginning) ≡ none
unfolding search_wave wave_loop spread expand neighbours get_neighbour mark next_round
    access_field_lowres write_field put_section push dequeue is_full is_empty
wave_goes_on = refl

-- ===== src/Pathplanning/Follow.antt =====
-- The way back along the wave: the case SEARCH_STACKPATH_AND_QUEUE of bot_calc_wave_behaviour in
-- behaviour_pathplanning.c. The queue is a position store of world coordinates.
use ct_bot.Base.{
  ℕ, zero, suc, ◌+◌, ◌-◌, ◌/◌, ◌%◌, Option, none, some, Bool, true, false, not, ◌&&◌, ◌||◌, ltb,
  leb, ◌==◌, if◌then◌else◌,
}
use ct_bot.PosStore.{Position, PosStore, origin, push, pop, top}
use ct_bot.Map.Update.{less_int8, distance}
use ct_bot.Map.Thread.{biased_int16}
use ct_bot.Pathplanning.Lowres.{Lowres, Memory, access_field_lowres, map_to_world_lowres}
use ct_bot.Pathplanning.Wave.{same_place}

-- `found` is neighbour_found, `reached` is endreached and `counter` is wavecounter.
pub record Trace : Type 0 where
  pub pos : Position
  pub nextdest : Position
  pub mapval_min : ℕ
  pub found : Bool
  pub reached : Bool
  pub counter : ℕ
  pub skip_count : ℕ
  pub store : Option PosStore

-- The slope from `b` to `a` as an `int8_t`: the quotient of the differences, rounded towards 0.
unfoldable pub slope : Position → Position → ℕ
slope a b =
    let dx = distance (biased_int16 a.x) (biased_int16 b.x) in
    let dy = distance (biased_int16 a.y) (biased_int16 b.y) in
    let rises = ltb (biased_int16 b.y) (biased_int16 a.y) in
    let forward = ltb (biased_int16 b.x) (biased_int16 a.x) in
    let q = dy / dx % 256 in
    if a.x == b.x
    then 100
    else if rises && not forward || not rises && forward
    then (256 - q) % 256
    else q

-- The middle of a field in the world.
abbrev pub centre : Position → Position
centre p = record {
  x = (map_to_world_lowres p.x + 64) % 65536;
  y = (map_to_world_lowres p.y + 64) % 65536;
}

-- A point on the line of the last two takes the place of the last one, three times in a row at most.
unfoldable pub straighten : Position → Trace → Trace
straighten pos t =
    let (one, p1) = top t.store 1 in
    let (two, p2) = top t.store 2 in
    let same = λ (a b : Position). slope a b == slope pos a in
    let on_line : Bool = elim p1 [
      | none ↦ false
      | some a ↦ elim p2 [ none ↦ false | some b ↦ same a b ]
    ] in
    if one && two
    then (if on_line && ltb t.skip_count 3
        then record t { store = (pop t.store).2; skip_count = (t.skip_count + 1) % 256 }
        else record t { skip_count = 0 })
    else t

-- The point is put in the queue; false says that it is full.
unfoldable pub enter_point : Trace → Bool × Trace
enter_point t =
    let t1 = straighten (centre t.nextdest) t in
    let (room, store) = push t1.store (centre t.nextdest) in
    if t.found || t.reached then (room, record t1 { store = store }) else (true, t)

-- The beginning at the robot's place. `found` is set in each turn.
abbrev pub start_trace : Position → ℕ → Option PosStore → Trace
start_trace endkoord wavecounter store = record {
  pos = endkoord;
  nextdest = origin;
  mapval_min = (wavecounter + 1) % 256;
  found = false;
  reached = false;
  counter = 0;
  skip_count = 0;
  store = store;
}

module _ (h : Memory) (fields : Lowres) (startwave endkoord : Position) where
  -- The neighbour at (pos.x + i - 1, pos.y + j - 1).
  unfoldable pub look : ℕ → ℕ → Trace → Trace
  look i j t =
      let tmp : Position = record {
        x = (t.pos.x + 65535 + i) % 65536;
        y = (t.pos.y + 65535 + j) % 65536;
      } in
      let minval = (access_field_lowres h tmp 0 false fields).0 in
      let is_end =
        biased_int16 t.pos.x + i == biased_int16 endkoord.x + 1
        && biased_int16 t.pos.y + j == biased_int16 endkoord.y + 1 in
      let t1 = if same_place tmp startwave then record t { reached = true } else t in
      if t.reached || i == 1 && j == 1 || is_end
      then t
      else if less_int8 1 minval && less_int8 minval t.mapval_min
      then record t1 { nextdest = tmp; mapval_min = minval; found = true }
      else t1

  unfoldable pub look_row : ℕ → Trace → Trace
  look_row j t = look 2 j (look 1 j (look 0 j t))

  unfoldable pub look_around : Trace → Trace
  look_around t = look_row 2 (look_row 1 (look_row 0 (record t { found = false })))

  -- A turn of the loop; true says that it is left.
  unfoldable pub follow_turn : Trace → Bool × Trace
  follow_turn t =
      let (room, t1) = enter_point (look_around t) in
      let t2 = record t1 { counter = (t1.counter + 1) % 256 } in
      if not room
      then (true, record t1 { reached = false })
      else if leb 120 t2.counter
      then (true, record t2 { reached = false })
      else (false, record t2 { pos = t2.nextdest })

  unfoldable pub follow_loop : ℕ → Trace → Option Trace
  follow_loop zero t = none
  follow_loop (suc fuel) t = elim t.reached [
    | true ↦ some t
    | false ↦
        let (left, t1) = follow_turn t in elim left [ true ↦ some t1 | false ↦ follow_loop fuel t1 ]
  ]

  -- The whole case, from the number of the wave and the queue on.
  unfoldable pub search_stackpath : ℕ → ℕ → Option PosStore → Option Trace
  search_stackpath fuel wavecounter store =
      follow_loop fuel (start_trace endkoord wavecounter store)

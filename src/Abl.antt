-- ===== src/Abl.antt =====
-- The interpreter of the robot's small language, bot-logic/behaviour_abl.c: the handlers of its
-- keywords and the work function. How a program is read, i_fetch and i_fetch_back, is a `Reader`.
pub mod Listing
mod Loops
mod Blocks
mod Meaning
mod Branches
mod Choice
mod Fault
mod Return
mod Runs
mod Skip
mod Tests
use ct_bot.Base.{
  ℕ, zero, suc, ◌+◌, ◌-◌, ◌*◌, ◌/◌, ◌%◌, Option, none, some, Bool, true, false, not, ◌&&◌, ◌||◌,
  List, ltb, leb, ◌==◌, if◌then◌else◌, bit_and, bit_or, get_or, set,
}

-- `instruction_t`
pub data Instruction : Type 0 where
  jump if_ else_ fi for_ endf push pop label call comment unknown : Instruction

-- The instruction behind, or before, the current one, with `abl_params` as decoding leaves it.
pub record Reader : Type 1 where
  pub Cursor : Type 0
  pub i_fetch : List ℕ → Cursor → Instruction × List ℕ × Cursor
  pub i_fetch_back : List ℕ → Cursor → Instruction × List ℕ × Cursor

-- `depth` is the number of open loops, pForState - for_state + 1. The parameters are words of 32 bits.
pub record State (C : Type 0) : Type 0 where
  pub cursor : C
  pub params : List ℕ
  pub stack : List ℕ
  pub sp : ℕ
  pub if_state : ℕ
  pub for_state : List ℕ
  pub depth : ℕ

-- `undefined` stands for an access outside of an array, `running` for a loop whose fuel is used up.
pub data Ending (A : Type 0) : Type 0 where
  done : A → Ending A
  undefined running : Ending A

module _ {C : Type 0} where
  abbrev pub param : State C → ℕ
  param s = get_or s.params 0 0

  unfoldable pub abl_push : State C → State C
  abl_push s =
      let sp = bit_and ((s.sp + 1) % 256) 15 in
      record s { sp = sp; stack = set s.stack sp (param s % 65536) }

  unfoldable pub abl_push_value : ℕ → State C → State C
  abl_push_value value s =
      abl_push (record s { params = set s.params 0 (param s / 65536 * 65536 + value % 65536) })

  -- The loop of pop_handler: `i` values are still to be taken, the next one for parameter `j`.
  unfoldable pub pop_loop : ℕ → ℕ → State C → Ending (State C)
  pop_loop zero j s = Ending.done s
  pop_loop (suc i) j s =
      let high = get_or s.params j 0 / 65536 * 65536 in
      let t = record s {
        params = set s.params j (high + get_or s.stack s.sp 0);
        sp = bit_and ((s.sp + 255) % 256) 15;
      } in
      elim (ltb j 3) [ true ↦ pop_loop i (suc j) t | false ↦ Ending.undefined ]

  unfoldable pub pop_handler : State C → Ending (State C)
  pop_handler s = pop_loop (param s % 256) 0 s

  unfoldable pub fi_handler : State C → State C
  fi_handler s = record s { if_state = s.if_state / 2 }

  -- FOR_DEPTH is 2.
  unfoldable pub for_handler : State C → State C
  for_handler s =
      let depth = s.depth + 1 in
      if leb 3 depth
      then record s { depth = depth }
      else record s { depth = depth; for_state = set s.for_state s.depth (param s % 256) }

-- What an instruction does to the depth of a block that is skipped; `none` ends the loop.
-- `stops` says that an else() ends it too.
unfoldable pub skip_depth : Bool → Instruction → ℕ → Option ℕ
skip_depth stops Instruction.unknown depth = none
skip_depth stops Instruction.if_ depth = some ((depth + 1) % 256)
skip_depth stops Instruction.fi depth = if depth == 0 then none else some ((depth + 255) % 256)
skip_depth stops Instruction.else_ depth = if stops && depth == 0 then none else some depth
skip_depth stops _ depth = some depth

abbrev pub is_for : Instruction → Bool
is_for Instruction.for_ = true
is_for _ = false

abbrev pub is_endf : Instruction → Bool
is_endf Instruction.endf = true
is_endf _ = false

abbrev pub is_unknown : Instruction → Bool
is_unknown Instruction.unknown = true
is_unknown _ = false

abbrev pub is_label : Instruction → Bool
is_label Instruction.label = true
is_label _ = false

module _ (R : Reader) where
  abbrev pub fetched :
      Instruction × List ℕ × R.Cursor → State R.Cursor → Instruction × State R.Cursor
  fetched (i, params, cursor) s = (i, record s { params = params; cursor = cursor })

  abbrev pub fetch : State R.Cursor → Instruction × State R.Cursor
  fetch s = fetched (R.i_fetch s.params s.cursor) s

  abbrev pub fetch_back : State R.Cursor → Instruction × State R.Cursor
  fetch_back s = fetched (R.i_fetch_back s.params s.cursor) s

  -- The loops of if_handler and else_handler that skip a block.
  unfoldable pub skip_block : Bool → ℕ → ℕ → State R.Cursor → Ending (State R.Cursor)
  skip_block stops zero depth s = Ending.running
  skip_block stops (suc fuel) depth s =
      let (i, t) = fetch s in
      elim (skip_depth stops i depth) [
        | none ↦ Ending.done t
        | some depth' ↦ skip_block stops fuel depth' t
      ]

  unfoldable pub if_handler : ℕ → State R.Cursor → Ending (State R.Cursor)
  if_handler fuel s =
      let t = record s { if_state = s.if_state * 2 % 256 } in
      if get_or s.stack s.sp 0 == param s % 65536
      then Ending.done (record t { if_state = t.if_state + 1 })
      else skip_block true fuel 0 t

  unfoldable pub else_handler : ℕ → State R.Cursor → Ending (State R.Cursor)
  else_handler fuel s = if s.if_state % 2 == 1 then skip_block false fuel 0 s else Ending.done s

  -- The search backwards for the for() of a block: `i` of the `j` loops are passed.
  unfoldable pub search_for : ℕ → ℕ → ℕ → State R.Cursor → Ending (State R.Cursor)
  search_for zero i j s = Ending.running
  search_for (suc fuel) i j s =
      let (ins, t) = fetch_back s in
      let i' = if is_for ins then (i + 1) % 256 else i in
      let j' = if is_endf ins then (j + 1) % 256 else j in
      elim (is_unknown ins || is_for ins && not (ltb i' j')) [
        | true ↦ Ending.done t
        | false ↦ search_for fuel i' j' t
      ]

  -- An endf() without a for() counts a byte in front of the array. for(0) goes on for ever.
  unfoldable pub endf_handler : ℕ → State R.Cursor → Ending (State R.Cursor)
  endf_handler fuel s =
      let count = (get_or s.for_state (s.depth - 1) 0 + 255) % 256 in
      let left = if count == 255 then 0 else count in
      let t = record s { for_state = set s.for_state (s.depth - 1) left } in
      if s.depth == 0
      then Ending.undefined
      else if leb 3 s.depth
      then Ending.done (record s { depth = s.depth - 1 })
      else if count == 0
      then Ending.done (record t { depth = s.depth - 1 })
      else search_for fuel 0 1 t

  -- The search for a label, backwards for a negative target.
  unfoldable pub jump_loop : ℕ → ℕ → State R.Cursor → Ending (State R.Cursor)
  jump_loop zero target s = Ending.running
  jump_loop (suc fuel) target s =
      let (i, t) = if leb 128 target then fetch_back s else fetch s in
      let number = if leb 128 target then 256 - target else target in
      elim (is_unknown i || is_label i && param t % 256 == number) [
        | true ↦ Ending.done t
        | false ↦ jump_loop fuel target t
      ]

  unfoldable pub jump_handler : ℕ → State R.Cursor → Ending (State R.Cursor)
  jump_handler fuel s = jump_loop fuel (param s % 256) s

  unfoldable pub keyword_handler : ℕ → Instruction → State R.Cursor → Ending (State R.Cursor)
  keyword_handler fuel Instruction.jump s = jump_handler fuel s
  keyword_handler fuel Instruction.if_ s = if_handler fuel s
  keyword_handler fuel Instruction.else_ s = else_handler fuel s
  keyword_handler fuel Instruction.fi s = Ending.done (fi_handler s)
  keyword_handler fuel Instruction.for_ s = Ending.done (for_handler s)
  keyword_handler fuel Instruction.endf s = endf_handler fuel s
  keyword_handler fuel Instruction.push s = Ending.done (abl_push s)
  keyword_handler fuel Instruction.pop s = pop_handler s
  keyword_handler fuel _ s = Ending.done s

  abbrev pub goes_on : Ending (State R.Cursor) → Ending (Bool × State R.Cursor)
  goes_on (Ending.done t) = Ending.done (false, t)
  goes_on Ending.undefined = Ending.undefined
  goes_on Ending.running = Ending.running

  abbrev pub called : State R.Cursor → Option (State R.Cursor) → Ending (Bool × State R.Cursor)
  called s none = Ending.done (true, s)
  called s (some t) = Ending.done (false, t)

  -- One call of the work function; true says that the program is over. `bot_remotecall` is `none`
  -- when the called function is not found.
  module _ (bot_remotecall : State R.Cursor → Option (State R.Cursor)) (fuel : ℕ) where
    unfoldable pub execute : Instruction → State R.Cursor → Ending (Bool × State R.Cursor)
    execute Instruction.call s = called s (bot_remotecall s)
    execute Instruction.unknown s = Ending.done (true, s)
    execute i s = goes_on (keyword_handler fuel i s)

    unfoldable pub bot_abl_behaviour : State R.Cursor → Ending (Bool × State R.Cursor)
    bot_abl_behaviour s = let (i, t) = fetch s in execute i t

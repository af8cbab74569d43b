-- ===== src/Abl/Meaning.antt =====
-- The calls of bot_abl_behaviour of behaviour_abl.c one after the other, and what comes of a program
-- without loops, jumps and calls, computed along its blocks. This has the fault that the code has with
-- if_state and is not the meaning that the grammar gives the program; see Abl/Choice.
use ct_bot.Base.{ℕ, ◌+◌, ◌*◌, ◌%◌, ◌==◌, ◌≡◌, if◌then◌else◌, Bool, false, Option, List, get_or}
use ct_bot.Abl.{Instruction, Ending, param, abl_push, fi_handler, bot_abl_behaviour}
use ct_bot.Abl.Listing.{Item, Machine, overlay, listing}
use ct_bot.Abl.Blocks.{Block, decoded}

pub data Runs (bot_remotecall : Machine → Option Machine) (fuel : ℕ)
    : Machine → Machine → Type 0 where
  rests : (s : Machine) → Runs bot_remotecall fuel s s
  moves :
      (s t u : Machine)
      → bot_abl_behaviour listing bot_remotecall fuel s ≡ Ending.done (false, t)
      → Runs bot_remotecall fuel t u
      → Runs bot_remotecall fuel s u

-- The lines of such a program.
pub data IsSimple : Instruction → Type 0 where
  pushes : IsSimple Instruction.push
  labels : IsSimple Instruction.label
  comments : IsSimple Instruction.comment

unfoldable pub Straight : {xs : List Item} → Block xs → Type 0
Straight Block.end = Unit {0}
Straight (Block.line x p c) = IsSimple x.kind × Straight c
Straight (Block.loop x y ex ey b c) = ⊥
Straight (Block.branch x y ex ey b c) = Straight b × Straight c
Straight (Block.branches x e y ex ee ey b b' c) = Straight b × Straight b' × Straight c

abbrev pub reads : Item → Machine → Machine
reads x s = record s { params = overlay x.parameters s.params }

abbrev pub passes : List Item → Machine → Machine
passes xs s = record s { params = decoded xs s.params }

abbrev pub simple : Instruction → Machine → Machine
simple Instruction.push s = abl_push s
simple _ s = s

-- The condition of an if(), and the bit that the branch leaves.
abbrev pub holds : Machine → Bool
holds s = get_or s.stack s.sp 0 == param s % 65536

abbrev pub untaken : Machine → Machine
untaken s = record s { if_state = s.if_state * 2 % 256 }

abbrev pub taken : Machine → Machine
taken s = record s { if_state = s.if_state * 2 % 256 + 1 }

-- A block that is left out reads its parameters only. Its fi() is left out with it, so that its bit
-- stays in if_state: `both` is the case of an else() that finds such a bit, after its if-block was
-- executed.
unfoldable pub outcome : {xs : List Item} → Block xs → Machine → Machine
outcome Block.end s = s
outcome (Block.line x p c) s = outcome c (simple x.kind (reads x s))
outcome (Block.loop x y ex ey b c) s = s
outcome (Block.branch x y {b = bs} ex ey b c) s =
    let t = reads x s in
    let done = fi_handler (reads y (outcome b (taken t))) in
    let left = reads y (passes bs (untaken t)) in outcome c (if holds t then done else left)
outcome (Block.branches x e y {b = bs} {b' = bs'} ex ee ey b b' c) s =
    let t = reads x s in
    let first = reads e (outcome b (taken t)) in
    let over = reads y (passes bs' first) in
    let both = fi_handler (reads y (outcome b' first)) in
    let second = fi_handler (reads y (outcome b' (reads e (passes bs (untaken t))))) in
    outcome c (if holds t then (if first.if_state % 2 == 1 then over else both) else second)

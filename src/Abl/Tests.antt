-- ===== src/Abl/Tests.antt =====
-- Runs of the interpreter of behaviour_abl.c at concrete programs, among them one whose else-block is
-- executed although its if-block was.
use ct_bot.Base.{
  ℕ, zero, suc, true, false, ◌≡◌, refl, Option, some, none, List, [], ◌∷◌, ◌++◌, arith,
}
use ct_bot.Abl.{
  Instruction, Ending, abl_push, abl_push_value, pop_loop, pop_handler, fi_handler, for_handler,
  skip_depth, skip_block, if_handler, else_handler, search_for, endf_handler, jump_loop,
  jump_handler, keyword_handler, execute, bot_abl_behaviour,
}
use ct_bot.Abl.Listing.{Item, Machine, listing}
use ct_bot.Abl.Blocks.{IsPlain, Block, FewBranches, behind}
use ct_bot.Abl.Meaning.{Runs, IsSimple, Straight, outcome}
use ct_bot.Abl.Fault.{nested_if-Runs}
use ct_bot.Abl.Choice.{intended, Lines, Flat, intended-Runs}
use ct_bot.Abl.Loops.{loops}
use ct_bot.Abl.Return.{endf_handler-Block}
use ct_bot.Abl.Runs.{place}

abbrev psh : ℕ → Item
psh n = record { kind = Instruction.push; parameters = n ∷ [] }

abbrev if_n : ℕ → Item
if_n n = record { kind = Instruction.if_; parameters = n ∷ [] }

abbrev word : Instruction → Item
word i = record { kind = i; parameters = [] }

abbrev fresh : Machine
fresh = record {
  cursor = ([], []);
  params = 0 ∷ 0 ∷ 0 ∷ [];
  stack = 0 ∷ 0 ∷ 0 ∷ 0 ∷ 0 ∷ 0 ∷ 0 ∷ 0 ∷ 0 ∷ 0 ∷ 0 ∷ 0 ∷ 0 ∷ 0 ∷ 0 ∷ 0 ∷ [];
  sp = 15;
  if_state = 0;
  for_state = 0 ∷ 0 ∷ [];
  depth = 0;
}

abbrev none_called : Machine → Option Machine
none_called s = none

-- psh(5) if(5) psh(1) else() psh(2) fi()
abbrev choice : Block (
    psh 5
    ∷ (if_n 5
        ∷ ((psh 1 ∷ [])
            ++ (word Instruction.else_ ∷ ((psh 2 ∷ []) ++ (word Instruction.fi ∷ []))))))
choice = Block.line (psh 5) IsPlain.pushes (
    Block.branches (if_n 5) (word Instruction.else_) (word Instruction.fi) refl refl refl
      (Block.line (psh 1) IsPlain.pushes Block.end) (Block.line (psh 2) IsPlain.pushes Block.end)
      Block.end)

abbrev program : List Item
program = psh 5 ∷ if_n 5 ∷ psh 1 ∷ word Instruction.else_ ∷ psh 2 ∷ word Instruction.fi ∷ []

few_branches : FewBranches 0 choice
unfolding FewBranches
few_branches = (omega arith, tt, tt, tt)

intended-Runs_example :
    Runs none_called 10
      (place fresh [] (program ++ []))
      (place (intended choice fresh) (behind program []) [])
unfolding Straight Flat Lines
intended-Runs_example =
    intended-Runs none_called 10 choice
      (IsSimple.pushes, ((IsSimple.pushes, tt), (IsSimple.pushes, tt), tt)) (tt, tt, tt)
      few_branches (omega arith) fresh [] []

-- for(3) for(2) psh(7) endf() endf(): back to the first for(), with two turns left.
abbrev for_n : ℕ → Item
for_n n = record { kind = Instruction.for_; parameters = n ∷ [] }

abbrev inner_loop : Block (for_n 2 ∷ ((psh 7 ∷ []) ++ (word Instruction.endf ∷ [])))
inner_loop =
    Block.loop (for_n 2) (word Instruction.endf) refl refl
      (Block.line (psh 7) IsPlain.pushes Block.end) Block.end

abbrev looping : Machine
looping = record fresh { for_state = 3 ∷ 0 ∷ []; depth = 1 }

endf_handler-Block_example :
    endf_handler listing 9 (
      place looping
        (word Instruction.endf
          ∷ behind
              (for_n 2 ∷ psh 7 ∷ word Instruction.endf ∷ [])
              (for_n 3 ∷ word Instruction.comment ∷ []))
        [])
    ≡ Ending.done (record looping {
      params = 3 ∷ 0 ∷ 0 ∷ [];
      for_state = 2 ∷ 0 ∷ [];
      cursor = (
        for_n 3 ∷ word Instruction.comment ∷ [],
        for_n 2 ∷ psh 7 ∷ word Instruction.endf ∷ word Instruction.endf ∷ [],
      );
    })
unfolding loops
endf_handler-Block_example =
    endf_handler-Block inner_loop looping (for_n 3) (word Instruction.endf)
      (word Instruction.comment) 9 [] [] refl (omega arith) (omega arith) (omega arith)
      (omega arith) (omega arith)

-- psh(5) if(5) if(6) fi() else() psh(2) fi(): the else-block is executed although its if-block was, since
-- the fi() that the inner if() leaves out does not take its bit away.
abbrev nested : Block (
    psh 5
    ∷ (if_n 5
        ∷ ((if_n 6 ∷ ([] ++ (word Instruction.fi ∷ [])))
            ++ (word Instruction.else_ ∷ ((psh 2 ∷ []) ++ (word Instruction.fi ∷ []))))))
nested = Block.line (psh 5) IsPlain.pushes (
    Block.branches (if_n 5) (word Instruction.else_) (word Instruction.fi) refl refl refl
      (Block.branch (if_n 6) (word Instruction.fi) refl refl Block.end Block.end)
      (Block.line (psh 2) IsPlain.pushes Block.end) Block.end)

nested_bug : ((outcome nested fresh).sp ≡ 1) × ((intended nested fresh).sp ≡ 0)
unfolding outcome intended fi_handler abl_push
nested_bug = (refl, refl)

-- The same behind psh(5), in the calls of the work function: 2 is pushed.
abbrev five : Machine
five = record fresh { stack = 5 ∷ 0 ∷ []; sp = 0 }

abbrev nested_rows : List Item
nested_rows =
    if_n 5
    ∷ if_n 6
    ∷ word Instruction.fi
    ∷ word Instruction.else_
    ∷ psh 2
    ∷ word Instruction.fi
    ∷ []

nested_if-Runs_example : Runs none_called 10 (place five [] nested_rows) (
    place
      (record five { params = 2 ∷ 0 ∷ 0 ∷ []; stack = 5 ∷ 2 ∷ []; sp = 1; if_state = 1 })
      (behind nested_rows [])
      [])
unfolding Straight Flat FewBranches intended abl_push fi_handler
nested_if-Runs_example =
    nested_if-Runs (if_n 5) (if_n 6) (word Instruction.fi) (word Instruction.else_)
      (word Instruction.fi) refl refl refl refl refl Block.end
      (Block.line (psh 2) IsPlain.pushes Block.end) none_called 10 five [] [] refl refl
      ((tt, tt), (IsSimple.pushes, tt), tt) tt (omega arith, (omega arith, tt, tt), tt, tt)
      (omega arith)

-- A number of calls of the work function.
abbrev calls : ℕ → Machine → Option Machine
calls zero s = some s
calls (suc n) s = elim (bot_abl_behaviour listing none_called 20 s) [
  | Ending.done r ↦ elim r.0 [ true ↦ none | false ↦ calls n r.1 ]
  | Ending.undefined ↦ none
  | Ending.running ↦ none
]

abbrev sp_behind : Option Machine → ℕ
sp_behind (some s) = s.sp
sp_behind none = 99

abbrev listed : List Item → Machine
listed items = record fresh { cursor = ([], items) }

nested_program :
    sp_behind (
      calls 6 (
        listed (
          psh 5
          ∷ if_n 5
          ∷ if_n 6
          ∷ word Instruction.fi
          ∷ word Instruction.else_
          ∷ psh 2
          ∷ word Instruction.fi
          ∷ [])))
    ≡ 1
unfolding bot_abl_behaviour execute keyword_handler if_handler else_handler skip_block skip_depth
    fi_handler abl_push
nested_program = refl

-- for(2) psh(7) endf(): two values are pushed.
for_program :
    sp_behind (
      calls 5 (
        listed (
          word Instruction.comment
          ∷ record { kind = Instruction.for_; parameters = 2 ∷ [] }
          ∷ psh 7
          ∷ word Instruction.endf
          ∷ [])))
    ≡ 1
unfolding bot_abl_behaviour execute keyword_handler for_handler endf_handler search_for abl_push
for_program = refl

-- psh(8) psh(9) pop(2): the last value first. pop(4) writes behind abl_params.
popped :
    pop_handler (record (abl_push_value 9 (abl_push_value 8 fresh)) { params = 2 ∷ 0 ∷ 0 ∷ [] })
    ≡ Ending.done
        (record (abl_push_value 9 (abl_push_value 8 fresh)) { params = 9 ∷ 8 ∷ 0 ∷ []; sp = 15 })
unfolding pop_handler pop_loop abl_push_value abl_push
popped = refl

pop_beyond : pop_handler (record fresh { params = 4 ∷ 0 ∷ 0 ∷ [] }) ≡ Ending.undefined
unfolding pop_handler pop_loop
pop_beyond = refl

-- jmp(3) over a psh() to lbl(3).
jumped :
    sp_behind (
      calls 2 (
        listed (
          record { kind = Instruction.jump; parameters = 3 ∷ [] }
          ∷ psh 7
          ∷ record { kind = Instruction.label; parameters = 3 ∷ [] }
          ∷ psh 8
          ∷ [])))
    ≡ 0
unfolding bot_abl_behaviour execute keyword_handler jump_handler jump_loop abl_push
jumped = refl

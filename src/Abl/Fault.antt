-- ===== src/Abl/Fault.antt =====
-- A fault of behaviour_abl.c: the else-block of a branch that is executed although its if-block was.
use ct_bot.Base.{
  ℕ, ap, subst, ◌∙◌, ◌*◌, ◌%◌, ◌<◌, ◌==◌, ◌≡◌, true, false, List, [], ◌∷◌, ◌++◌, Option, length,
  arith, if◌then◌else◌,
}
use ct_bot.Abl.{Instruction, fi_handler}
use ct_bot.Abl.Listing.{Item, Machine}
use ct_bot.Abl.Blocks.{Block, FewBranches, behind}
use ct_bot.Abl.Branches.{outcome-Runs}
use ct_bot.Abl.Choice.{intended, Flat, outcome-intended}
use ct_bot.Abl.Runs.{if_true, if_false, place}
use ct_bot.Abl.Meaning.{Runs, Straight, reads, passes, holds, untaken, taken, outcome}

-- The bit of an if() that was not taken is even.
is_even : (n : ℕ) → n * 2 % 256 % 2 == 1 ≡ false
is_even n = ground arith

-- A branch of an if() with the condition that holds, whose if-block begins with an if() that does not
-- hold and has no else(), and only that.
module _ {bs ds : List Item} (x u v e y : Item) (ex : x.kind ≡ Instruction.if_)
    (eu : u.kind ≡ Instruction.if_) (ev : v.kind ≡ Instruction.fi) (ee : e.kind ≡ Instruction.else_)
    (ey : y.kind ≡ Instruction.fi) (b : Block bs) (d : Block ds) where
  abbrev pub nested_if : Block (x ∷ ((u ∷ (bs ++ (v ∷ []))) ++ (e ∷ (ds ++ (y ∷ [])))))
  nested_if = Block.branches x e y ex ee ey (Block.branch u v eu ev b Block.end) d Block.end

  -- The state in front of the else-block.
  abbrev pub before_else : Machine → Machine
  before_else s = reads e (reads v (passes bs (untaken (reads u (taken (reads x s))))))

  outcome-nested_if :
      (s : Machine)
      → holds (reads x s) ≡ true
      → holds (reads u (taken (reads x s))) ≡ false
      → Flat d
      → outcome nested_if s ≡ fi_handler (reads y (intended d (before_else s)))
  unfolding outcome
  outcome-nested_if s h h' flat =
      let t = taken (reads x s) in
      let left = reads v (passes bs (untaken (reads u t))) in
      let ends : Machine → Machine = λ w.
        if (reads e w).if_state % 2 == 1
        then reads y (passes ds (reads e w))
        else fi_handler (reads y (outcome d (reads e w))) in
      let even : left.if_state % 2 == 1 ≡ false = is_even (reads u t).if_state in
      if_true _ _ h
      ∙ ap ends (if_false _ left h')
      ∙ if_false _ _ even
      ∙ ap (λ w. fi_handler (reads y w)) (outcome-intended d flat (before_else s))

  -- The fault of the nested if(): an if() whose if-block is a further if() without else(), the value on top
  -- of the stack being the parameter of the first one and not that of the second. The first if-block is
  -- executed, and yet the interpreter executes the else-block behind it as well, on its way to the end of
  -- the program. The blocks are of psh(), lbl(), comments and branches, and in the else-block no branch
  -- stands inside of an if-block that an else-block follows; the fuel exceeds the number of lines and
  -- fewer than 256 branches are inside of each other.
  pub nested_if-Runs :
      (bot_remotecall : Machine → Option Machine) (fuel : ℕ) (s : Machine) (passed rest : List Item)
      → holds (reads x s) ≡ true
      → holds (reads u (taken (reads x s))) ≡ false
      → Straight nested_if
      → Flat d
      → FewBranches 0 nested_if
      → length (x ∷ ((u ∷ (bs ++ (v ∷ []))) ++ (e ∷ (ds ++ (y ∷ []))))) < fuel
      → Runs bot_remotecall fuel
          (place s passed ((x ∷ ((u ∷ (bs ++ (v ∷ []))) ++ (e ∷ (ds ++ (y ∷ []))))) ++ rest))
          (place
            (fi_handler (reads y (intended d (before_else s))))
            (behind (x ∷ ((u ∷ (bs ++ (v ∷ []))) ++ (e ∷ (ds ++ (y ∷ []))))) passed)
            rest)
  nested_if-Runs bot_remotecall fuel s passed rest h h' k flat few l =
      let rows : List Item = x ∷ ((u ∷ (bs ++ (v ∷ []))) ++ (e ∷ (ds ++ (y ∷ [])))) in
      subst
        (λ t.
          Runs bot_remotecall fuel (place s passed (rows ++ rest))
            (place t (behind rows passed) rest))
        (outcome-nested_if s h h' flat)
        (outcome-Runs bot_remotecall fuel nested_if k few l s passed rest)

-- ===== src/Abl/Choice.antt =====
-- Which block of a branch is executed, for programs of behaviour_abl.c without loops, jumps and calls.
use ct_bot.Base.{
  ℕ, ap, ap₂, subst, ◌∙◌, ◌+◌, ◌*◌, ◌%◌, ◌<◌, ◌==◌, ◌≡◌, refl, true, List, ◌++◌, Option, length,
  arith, if◌then◌else◌,
}
use ct_bot.Abl.{Instruction, abl_push, fi_handler}
use ct_bot.Abl.Listing.{Item, Machine}
use ct_bot.Abl.Blocks.{Block, FewBranches, behind}
use ct_bot.Abl.Branches.{outcome-Runs}
use ct_bot.Abl.Runs.{if_true, place}
use ct_bot.Abl.Meaning.{Runs, Straight, reads, passes, simple, holds, untaken, taken, outcome}

-- One of two blocks, by the condition of the if() alone.
unfoldable pub intended : {xs : List Item} → Block xs → Machine → Machine
intended Block.end s = s
intended (Block.line x p c) s = intended c (simple x.kind (reads x s))
intended (Block.loop x y ex ey b c) s = s
intended (Block.branch x y {b = bs} ex ey b c) s =
    let t = reads x s in
    let done = fi_handler (reads y (intended b (taken t))) in
    let left = reads y (passes bs (untaken t)) in intended c (if holds t then done else left)
intended (Block.branches x e y {b = bs} {b' = bs'} ex ee ey b b' c) s =
    let t = reads x s in
    let first = reads y (passes bs' (reads e (intended b (taken t)))) in
    let second = fi_handler (reads y (intended b' (reads e (passes bs (untaken t))))) in
    intended c (if holds t then first else second)

-- Lines only.
unfoldable pub Lines : {xs : List Item} → Block xs → Type 0
Lines Block.end = Unit {0}
Lines (Block.line x p c) = Lines c
Lines (Block.loop x y ex ey b c) = ⊥
Lines (Block.branch x y ex ey b c) = ⊥
Lines (Block.branches x e y ex ee ey b b' c) = ⊥

-- No branch inside of an if-block that an else-block follows.
unfoldable pub Flat : {xs : List Item} → Block xs → Type 0
Flat Block.end = Unit {0}
Flat (Block.line x p c) = Flat c
Flat (Block.loop x y ex ey b c) = ⊥
Flat (Block.branch x y ex ey b c) = Flat b × Flat c
Flat (Block.branches x e y ex ee ey b b' c) = Lines b × Flat b' × Flat c

simple-if_state : (k : Instruction) (s : Machine) → (simple k s).if_state ≡ s.if_state
unfolding abl_push
simple-if_state Instruction.push s = refl
simple-if_state _ s = refl

Lines-if_state :
    {xs : List Item} (b : Block xs) → Lines b → (s : Machine) → (outcome b s).if_state ≡ s.if_state
unfolding Lines outcome
Lines-if_state Block.end k s = refl
Lines-if_state (Block.line x p c) k s =
    Lines-if_state c k (simple x.kind (reads x s)) ∙ simple-if_state x.kind (reads x s)
Lines-if_state (Block.loop x y ex ey b c) k s = absurd k
Lines-if_state (Block.branch x y ex ey b c) k s = absurd k
Lines-if_state (Block.branches x e y ex ee ey b b' c) k s = absurd k

Lines-intended :
    {xs : List Item} (b : Block xs) → Lines b → (s : Machine) → outcome b s ≡ intended b s
unfolding Lines outcome intended
Lines-intended Block.end k s = refl
Lines-intended (Block.line x p c) k s = Lines-intended c k (simple x.kind (reads x s))
Lines-intended (Block.loop x y ex ey b c) k s = absurd k
Lines-intended (Block.branch x y ex ey b c) k s = absurd k
Lines-intended (Block.branches x e y ex ee ey b b' c) k s = absurd k

-- The bit of an if() that was taken is odd, before and after lines.
is_odd : (n : ℕ) → (n * 2 % 256 + 1) % 2 == 1 ≡ true
is_odd n = ground arith

pub outcome-intended :
    {xs : List Item} (b : Block xs) → Flat b → (s : Machine) → outcome b s ≡ intended b s
unfolding Flat outcome intended
outcome-intended Block.end k s = refl
outcome-intended (Block.line x p c) k s = outcome-intended c k (simple x.kind (reads x s))
outcome-intended (Block.loop x y ex ey b c) k s = absurd k
outcome-intended (Block.branch x y {b = bs} ex ey b c) k s =
    let t = reads x s in
    outcome-intended c k.1 _
    ∙ ap
        (λ u.
          intended c (if holds t then fi_handler (reads y u) else reads y (passes bs (untaken t))))
        (outcome-intended b k.0 (taken t))
outcome-intended (Block.branches x e y {b = bs} {b' = bs'} ex ee ey b b' c) k s =
    let t = reads x s in
    let odd = ap (λ n. n % 2 == 1) (Lines-if_state b k.0 (taken t)) ∙ is_odd t.if_state in
    let over = ap (λ u. reads y (passes bs' (reads e u))) (Lines-intended b k.0 (taken t)) in
    let second =
      ap (λ u. fi_handler (reads y u))
        (outcome-intended b' k.1 (reads e (passes bs (untaken t)))) in
    outcome-intended c k.2 _
    ∙ ap (intended c) (ap₂ (λ u v. if holds t then u else v) (if_true _ _ odd ∙ over) second)

-- A program of psh(), lbl() and comments in blocks of if(), else() and fi(), in which no branch stands
-- inside of an if-block that an else-block follows: the interpreter executes exactly one of the two
-- blocks of each branch, the first one just when the value on top of the stack is the parameter of the
-- if(), and an if-block without else() on the same condition. It comes to the end of the program after a
-- finite number of calls. The fuel exceeds the number of lines and fewer than 256 branches are inside of
-- each other.
pub intended-Runs :
    (bot_remotecall : Machine → Option Machine) (fuel : ℕ) {xs : List Item} (b : Block xs)
    → Straight b
    → Flat b
    → FewBranches 0 b
    → length xs < fuel
    → (s : Machine) (passed rest : List Item)
    → Runs bot_remotecall fuel
        (place s passed (xs ++ rest))
        (place (intended b s) (behind xs passed) rest)
intended-Runs bot_remotecall fuel {xs = xs} b k flat few l s passed rest =
    subst
      (λ t.
        Runs bot_remotecall fuel (place s passed (xs ++ rest)) (place t (behind xs passed) rest))
      (outcome-intended b flat s) (outcome-Runs bot_remotecall fuel b k few l s passed rest)

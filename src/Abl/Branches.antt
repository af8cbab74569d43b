-- ===== src/Abl/Branches.antt =====
-- The interpreter of behaviour_abl.c comes to the end of a program without loops, jumps and calls.
use ct_bot.Base.{
  ℕ, suc, ap, subst, ◌∙◌, ◌+◌, ◌%◌, ◌<◌, ◌≤◌, ◌≡◌, ◌==◌, refl, Bool, true, false, Option, none,
  List, [], ◌∷◌, ◌++◌, append_assoc, length, length-append, arith, if◌then◌else◌,
}
use ct_bot.Abl.{Instruction, fi_handler, skip_depth}
use ct_bot.Abl.Listing.{Item, Machine}
use ct_bot.Abl.Blocks.{Block, FewBranches, behind}
use ct_bot.Abl.Meaning.{Runs, Straight, reads, passes, holds, untaken, taken, outcome}
use ct_bot.Abl.Runs.{
  place, Passes, Passes-append, around_lem, Run-simple, Run-fi, Run-if_, Run-if_-else_, Run-else_,
  Run-else_-over,
}

FewBranches-mono :
    {xs : List Item} (b : Block xs) (d d' : ℕ) → d ≤ d' → FewBranches d' b → FewBranches d b
unfolding FewBranches
FewBranches-mono Block.end d d' l h = h
FewBranches-mono (Block.line x p c) d d' l h = FewBranches-mono c d d' l h
FewBranches-mono (Block.loop x y ex ey b c) d d' l h =
    (FewBranches-mono b d d' l h.0, FewBranches-mono c d d' l h.1)
FewBranches-mono (Block.branch x y ex ey b c) d d' l h =
    let few = FewBranches-mono b (d + 1) (d' + 1) (omega arith) h.1 in
    (omega arith, few, FewBranches-mono c d d' l h.2)
FewBranches-mono (Block.branches x e y ex ee ey b b' c) d d' l h =
    let few = FewBranches-mono b (d + 1) (d' + 1) (omega arith) h.1 in
    let other = FewBranches-mono b' (d + 1) (d' + 1) (omega arith) h.2 in
    (omega arith, few, other, FewBranches-mono c d d' l h.3)

skip_depth-ends :
    (stops : Bool) {i : Instruction} → i ≡ Instruction.fi → skip_depth stops i 0 ≡ none
unfolding skip_depth
skip_depth-ends stops e = ap (λ i. skip_depth stops i 0) e

skip_depth-stops : {i : Instruction} → i ≡ Instruction.else_ → skip_depth true i 0 ≡ none
unfolding skip_depth
skip_depth-stops e = ap (λ i. skip_depth true i 0) e

length_before :
    (bs cs : List Item) (y : Item) {fuel : ℕ}
    → suc (length (bs ++ (y ∷ cs))) < fuel
    → length bs < fuel
length_before bs cs y l =
    let eq : length (bs ++ (y ∷ cs)) ≡ length bs + suc (length cs) = length-append bs (y ∷ cs) in
    omega arith

length_behind :
    (bs cs : List Item) (y : Item) {fuel : ℕ}
    → suc (length (bs ++ (y ∷ cs))) < fuel
    → suc (length cs) < fuel
length_behind bs cs y l =
    let eq : length (bs ++ (y ∷ cs)) ≡ length bs + suc (length cs) = length-append bs (y ∷ cs) in
    omega arith

module _ (bot_remotecall : Machine → Option Machine) (fuel : ℕ) where
  abbrev Moves : List Item → Machine → Machine → Type 0
  Moves = Passes bot_remotecall fuel

  either :
      {xs : List Item} {s t u : Machine} (c : Bool)
      → (c ≡ true → Moves xs s t)
      → (c ≡ false → Moves xs s u)
      → Moves xs s (if c then t else u)
  either true ht hu = ht refl
  either false ht hu = hu refl

  Moves-cons :
      (x : Item) {ys : List Item} {s t u : Machine}
      → ((passed rest : List Item)
          → Runs bot_remotecall fuel (place s passed (x ∷ rest)) (place t (x ∷ passed) rest))
      → Moves ys t u
      → Moves (x ∷ ys) s u
  Moves-cons x {s = s} {t = t} h k =
      let first : Moves (x ∷ []) s t = record { runs = h } in
      Passes-append bot_remotecall fuel first k

  Moves-row :
      (x : Item) {xs ys : List Item} {s t : Machine}
      → xs ≡ ys
      → Moves (x ∷ xs) s t
      → Moves (x ∷ ys) s t
  Moves-row x {s = s} {t = t} e h = subst (λ r. Moves (x ∷ r) s t) e h

  -- A row in front of another one, when their border is inside of brackets.
  Moves-inside :
      (x y : Item) (bs cs : List Item) {s t u : Machine}
      → Moves (x ∷ (bs ++ (y ∷ []))) s t
      → Moves cs t u
      → Moves (x ∷ (bs ++ (y ∷ cs))) s u
  Moves-inside x y bs cs h k =
      Moves-row x (append_assoc bs (y ∷ []) cs) (Passes-append bot_remotecall fuel h k)

  module _ (x y : Item) (ey : y.kind ≡ Instruction.fi) {bs : List Item} (b : Block bs)
      (few : FewBranches 0 b) (l : length bs < fuel) (m : Machine → Machine)
      (hm : (s : Machine) → Moves bs s (m s)) where
    closed : (s : Machine) → Moves (bs ++ (y ∷ [])) s (fi_handler (reads y (m s)))
    closed s =
        Passes-append bot_remotecall fuel (hm s)
          (record { runs = λ p r. Run-fi bot_remotecall fuel y (m s) p r ey })

    Moves-branch :
        (s : Machine)
        → x.kind ≡ Instruction.if_
        → Moves (x ∷ (bs ++ (y ∷ []))) s (
            if holds (reads x s)
            then fi_handler (reads y (m (taken (reads x s))))
            else reads y (passes bs (untaken (reads x s))))
    Moves-branch s ex =
        either (holds (reads x s))
          (λ h.
            Moves-cons x (λ p r. Run-if_ bot_remotecall fuel x s p r ex h)
              (closed (taken (reads x s))))
          (λ h. around_lem bot_remotecall fuel x y bs _ _ (λ p r.
            Run-if_-else_ bot_remotecall fuel x y b s p r ex (skip_depth-ends true ey) few l h))

    -- else(), its block and fi().
    Moves-else_ :
        (s : Machine)
        → x.kind ≡ Instruction.else_
        → Moves (x ∷ (bs ++ (y ∷ []))) s (
            if s.if_state % 2 == 1
            then reads y (passes bs (reads x s))
            else fi_handler (reads y (m (reads x s))))
    Moves-else_ s ex =
        either (s.if_state % 2 == 1)
          (λ h. around_lem bot_remotecall fuel x y bs _ _ (λ p r.
            Run-else_-over bot_remotecall fuel x y b s p r ex (skip_depth-ends false ey) few l h))
          (λ h.
            Moves-cons x (λ p r. Run-else_ bot_remotecall fuel x s p r ex h) (closed (reads x s)))

  -- Both blocks of a branch.
  Moves-branches :
      (x e y : Item) {bs bs' : List Item} (b : Block bs) (b' : Block bs')
      → x.kind ≡ Instruction.if_
      → e.kind ≡ Instruction.else_
      → y.kind ≡ Instruction.fi
      → FewBranches 0 b
      → FewBranches 0 b'
      → length bs < fuel
      → length bs' < fuel
      → (m m' : Machine → Machine) → ((s : Machine) → Moves bs s (m s))
      → ((s : Machine) → Moves bs' s (m' s))
      → (s : Machine)
      → Moves (x ∷ (bs ++ (e ∷ (bs' ++ (y ∷ []))))) s (
          if holds (reads x s)
          then (if (m (taken (reads x s))).if_state % 2 == 1
              then reads y (passes bs' (reads e (m (taken (reads x s)))))
              else fi_handler (reads y (m' (reads e (m (taken (reads x s)))))))
          else fi_handler (reads y (m' (reads e (passes bs (untaken (reads x s)))))))
  Moves-branches x e y {bs = bs} {bs' = bs'} b b' ex ee ey few few' l l' m m' hm hm' s =
      let t = reads x s in
      let over = reads e (passes bs (untaken t)) in
      let second = bs' ++ (y ∷ []) in
      either (holds t)
        (λ h.
          let rest = Moves-else_ e y ey b' few' l' m' hm' (m (taken t)) ee in
          Moves-cons x (λ p r. Run-if_ bot_remotecall fuel x s p r ex h)
            (Passes-append bot_remotecall fuel (hm (taken t)) rest))
        (λ h.
          let first : Moves (x ∷ (bs ++ (e ∷ []))) s over =
            around_lem bot_remotecall fuel x e bs s over (λ p r.
              Run-if_-else_ bot_remotecall fuel x e b s p r ex (skip_depth-stops ee) few l h) in
          Moves-inside x e bs second first (closed e y ey b' few' l' m' hm' over))

  outcome-Moves :
      {xs : List Item} (b : Block xs)
      → Straight b
      → FewBranches 0 b
      → length xs < fuel
      → (s : Machine) → Moves xs s (outcome b s)
  unfolding Straight FewBranches outcome
  outcome-Moves Block.end k few l s = record { runs = λ p r. Runs.rests (place s p r) }
  outcome-Moves (Block.line x {c = cs} p c) k few l s =
      Moves-cons x (λ p r. Run-simple bot_remotecall fuel x s p r k.0)
        (outcome-Moves c k.1 few (omega arith) _)
  outcome-Moves (Block.loop x y ex ey b c) k few l s = absurd k
  outcome-Moves (Block.branch x y {b = bs} {c = cs} ex ey b c) k few l s =
      let few' = FewBranches-mono b 0 1 (omega arith) few.1 in
      let l' = length_before bs cs y l in
      let l'' = length_behind bs cs y l in
      let first = Moves-branch x y ey b few' l' (outcome b) (outcome-Moves b k.0 few' l') s ex in
      Moves-inside x y bs cs first (outcome-Moves c k.1 few.2 (omega arith) _)
  outcome-Moves (Block.branches x e y {b = bs} {b' = bs'} {c = cs} ex ee ey b b' c) k few l s =
      let one = FewBranches-mono b 0 1 (omega arith) few.1 in
      let two = FewBranches-mono b' 0 1 (omega arith) few.2 in
      let lb = length_before bs (bs' ++ (y ∷ cs)) e l in
      let lr = length_behind bs (bs' ++ (y ∷ cs)) e l in
      let lb' = length_before bs' cs y lr in
      let first =
        Moves-branches x e y b b' ex ee ey one two lb lb' (outcome b) (outcome b')
          (outcome-Moves b k.0 one lb) (outcome-Moves b' k.1 two lb') s in
      let lc = length_behind bs' cs y lr in
      Moves-row x
        (append_assoc bs (e ∷ (bs' ++ (y ∷ []))) cs
          ∙ ap (λ r. bs ++ (e ∷ r)) (append_assoc bs' (y ∷ []) cs))
        (Passes-append bot_remotecall fuel first (outcome-Moves c k.2 few.3 (omega arith) _))

pub outcome-Runs :
    (bot_remotecall : Machine → Option Machine) (fuel : ℕ) {xs : List Item} (b : Block xs)
    → Straight b
    → FewBranches 0 b
    → length xs < fuel
    → (s : Machine) (passed rest : List Item)
    → Runs bot_remotecall fuel
        (place s passed (xs ++ rest))
        (place (outcome b s) (behind xs passed) rest)
outcome-Runs bot_remotecall fuel b k few l s passed rest =
    (outcome-Moves bot_remotecall fuel b k few l s).runs passed rest

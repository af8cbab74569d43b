-- ===== src/Abl/Return.antt =====
-- endf() of behaviour_abl.c goes back to the for() of its loop, or ends the loop.
use ct_bot.Base.{
  ℕ, suc, ap, ap₂, sym, subst, ◌∙◌, ◌+◌, ◌-◌, ◌%◌, ◌<◌, ◌≡◌, refl, Bool, true, false, List, [], ◌∷◌,
  ◌++◌, length, arith, get_or, set, leb, ◌==◌, if◌then◌else◌,
}
use ct_bot.Abl.{Instruction, Ending, search_for, endf_handler}
use ct_bot.Abl.Listing.{Item, Machine, overlay, listing}
use ct_bot.Abl.Blocks.{Block, behind}
use ct_bot.Abl.Loops.{
  loops, redecoded, HasOne, HasOne-append, between, Search, found, search_step, Walks, Walks-one,
  Walks-append, Walks-to, Walks-still, IsPlain-IsStill, IsStill,
}
use ct_bot.Abl.Runs.{place, if_false}

module _ (s : Machine) where
  Walks-cons :
      (x : Item) {xs : List Item} {i j i' j' i'' j'' : ℕ}
      → Walks s xs i j i' j'
      → Walks s (x ∷ []) i' j' i'' j''
      → Walks s (x ∷ xs) i j i'' j''
  Walks-cons x hxs hx = Walks-append s hxs hx

  Walks-between :
      (y : Item) {bs cs : List Item} {i j i' j' i'' j'' i3 j3 : ℕ}
      → Walks s cs i j i' j'
      → Walks s (y ∷ []) i' j' i'' j''
      → Walks s bs i'' j'' i3 j3
      → Walks s (bs ++ (y ∷ cs)) i j i3 j3
  Walks-between y hc hy hb = Walks-append s (Walks-cons y hc hy) hb

  Walks-for :
      (x : Item) (i j : ℕ)
      → x.kind ≡ Instruction.for_
      → i + 1 < j
      → j < 256
      → Walks s (x ∷ []) i j (i + 1) j
  Walks-for x i j e l l' =
      Walks-to s (omega arith) refl (Walks-one s x Instruction.for_ e (ground arith))

  Walks-endf :
      (y : Item) (i j : ℕ)
      → y.kind ≡ Instruction.endf
      → j + 1 < 256
      → Walks s (y ∷ []) i j i (j + 1)
  Walks-endf y i j e l = Walks-to s refl (omega arith) (Walks-one s y Instruction.endf e refl)

  Block-Walks :
      {xs : List Item} (b : Block xs) (i j : ℕ)
      → i < j
      → j + loops b < 256
      → Walks s xs i j (i + loops b) (j + loops b)
  unfolding loops
  Block-Walks Block.end i j l h = Walks-to s (omega arith) (omega arith) (record {
    walks = λ n f params passed rest en hp hr.
        let en' : n ≡ f = omega (arith, en) in ap (λ m. Search s m i j params passed rest) en';
  })
  Block-Walks (Block.line x p c) i j l h =
      Walks-cons x (Block-Walks c i j l h) (Walks-still s x _ _ (IsPlain-IsStill p))
  Block-Walks (Block.loop x y ex ey b c) i j l h =
      let hc = Block-Walks c i j l (omega arith) in
      let i' = i + loops c in
      let j' = j + loops c + 1 in
      let hb = Block-Walks b i' j' (omega arith) (omega arith) in
      Walks-to s (omega arith) (omega arith) (
        Walks-cons x (Walks-between y hc (Walks-endf y i' (j + loops c) ey (omega arith)) hb)
          (Walks-for x (i' + loops b) (j' + loops b) ex (omega arith) (omega arith)))
  Block-Walks (Block.branch x y ex ey b c) i j l h =
      let hc = Block-Walks c i j l (omega arith) in
      let i' = i + loops c in
      let j' = j + loops c in
      let hb = Block-Walks b i' j' (omega arith) (omega arith) in
      let hx = Walks-still s x (i' + loops b) (j' + loops b) (subst IsStill (sym ex) tt) in
      let hy = Walks-still s y i' j' (subst IsStill (sym ey) tt) in
      Walks-to s (omega arith) (omega arith) (Walks-cons x (Walks-between y hc hy hb) hx)
  Block-Walks (Block.branches x e y ex ee ey b b' c) i j l h =
      let hc = Block-Walks c i j l (omega arith) in
      let i' = i + loops c in
      let j' = j + loops c in
      let hb' = Block-Walks b' i' j' (omega arith) (omega arith) in
      let i'' = i' + loops b' in
      let j'' = j' + loops b' in
      let hb = Block-Walks b i'' j'' (omega arith) (omega arith) in
      let hx = Walks-still s x (i'' + loops b) (j'' + loops b) (subst IsStill (sym ex) tt) in
      let he = Walks-still s e i'' j'' (subst IsStill (sym ee) tt) in
      let hy = Walks-still s y i' j' (subst IsStill (sym ey) tt) in
      Walks-to s (omega arith) (omega arith)
        (Walks-cons x (Walks-between e (Walks-between y hc hy hb') he hb) hx)

  -- The search for the for() of a block that stands behind it.
  search_for-Block :
      {xs : List Item} (b : Block xs) (x : Item) (fuel : ℕ) (params : List ℕ)
      (passed rest : List Item)
      → x.kind ≡ Instruction.for_
      → loops b + 1 < 256
      → length xs < fuel
      → HasOne passed
      → HasOne rest
      → Search s fuel 0 1 params (behind xs (x ∷ passed)) rest
        ≡ Ending.done
            (between s (overlay x.parameters (redecoded xs params)) passed (x ∷ (xs ++ rest)))
  search_for-Block {xs = xs} b x fuel params passed rest e l lf hp hr =
      let f = fuel - suc (length xs) in
      let walk = Block-Walks b 0 1 (omega arith) (omega arith) in
      walk.walks fuel (suc f) params (x ∷ passed) rest (omega arith) tt hr
      ∙ search_step s x f (0 + loops b) (1 + loops b) (redecoded xs params) passed (xs ++ rest) true
          hp (HasOne-append xs rest hr)
          (ap (λ k. found s k (0 + loops b) (1 + loops b)) e ∙ ground arith)

-- The counter of the innermost open loop.
abbrev pub counter : Machine → ℕ
counter s = get_or s.for_state (s.depth - 1) 0

-- What endf_handler leaves in the counter.
left_lem : (c : ℕ) → c < 256 → (if (c + 255) % 256 == 255 then 0 else (c + 255) % 256) ≡ c - 1
left_lem c l = ground arith

zero_lem : (c : ℕ) → c < 256 → ((c + 255) % 256 == 0) ≡ (c == 1)
zero_lem c l = ground arith

if_done :
    {A : Type 0} (c : Bool) {e e' : Ending A} {u v : A}
    → e ≡ Ending.done u
    → e' ≡ Ending.done v
    → (if c then e else e') ≡ Ending.done (if c then u else v)
if_done true h h' = h
if_done false h h' = h'

-- An endf() behind a block of fewer than 255 loops and its for(): where the counter of the loop is 1,
-- the loop is closed and the program goes on behind endf(); otherwise the counter is one less (0 stands
-- for a loop without an end and stays) and the program goes on right behind for(). A line stands before
-- for(), one or two loops are open, and the fuel exceeds the number of lines in the block.
pub endf_handler-Block :
    {xs : List Item} (b : Block xs) (s : Machine) (x y z : Item) (fuel : ℕ)
    (passed rest : List Item)
    → x.kind ≡ Instruction.for_
    → loops b + 1 < 256
    → length xs < fuel
    → 0 < s.depth
    → s.depth < 3
    → counter s < 256
    → endf_handler listing fuel (place s (y ∷ behind xs (x ∷ (z ∷ passed))) rest)
      ≡ Ending.done (
          if counter s == 1
          then (place
              (record s {
                for_state = set s.for_state (s.depth - 1) (counter s - 1);
                depth = s.depth - 1;
              })
              (y ∷ behind xs (x ∷ (z ∷ passed)))
              rest)
          else (record s {
            params = overlay x.parameters (redecoded xs s.params);
            for_state = set s.for_state (s.depth - 1) (counter s - 1);
            cursor = (x ∷ (z ∷ passed), xs ++ (y ∷ rest));
          }))
unfolding endf_handler
endf_handler-Block {xs = xs} b s x y z fuel passed rest e l lf h0 h3 lc =
    let t : Machine =
      place (record s { for_state = set s.for_state (s.depth - 1) (counter s - 1) })
        (y ∷ behind xs (x ∷ (z ∷ passed))) rest in
    let over = λ (c : Bool) (n : ℕ).
      if c
      then Ending.done
          (record t { for_state = set s.for_state (s.depth - 1) n; depth = s.depth - 1 })
      else search_for listing fuel 0 1 (record t { for_state = set s.for_state (s.depth - 1) n }) in
    let h1 : s.depth == 0 ≡ false = ground arith in
    let h2 : leb 3 s.depth ≡ false = ground arith in
    if_false _ _ h1
    ∙ if_false _ _ h2
    ∙ ap₂ over (zero_lem (counter s) lc) (left_lem (counter s) lc)
    ∙ if_done (counter s == 1) refl
        (search_for-Block t b x fuel s.params (z ∷ passed) (y ∷ rest) e l lf tt tt)

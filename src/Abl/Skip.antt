-- ===== src/Abl/Skip.antt =====
-- if() and else() of behaviour_abl.c skip the block that is not to be executed.
use ct_bot.Base.{
  ℕ, zero, suc, ap, ap₂, sym, subst, ◌∙◌, ◌+◌, ◌<◌, ◌≡◌, refl, Bool, Option, some, none, List, [],
  ◌∷◌, ◌++◌, append_assoc, length, arith,
}
use ct_bot.Abl.{Instruction, Ending, skip_depth, skip_block}
use ct_bot.Abl.Listing.{Item, Machine, overlay, listing}
use ct_bot.Abl.Blocks.{
  IsPlain, Block, FewBranches, at, decoded, behind, decoded-append, behind-append,
}

skip_depth-plain :
    (stops : Bool) {i : Instruction} (d : ℕ) → IsPlain i → skip_depth stops i d ≡ some d
unfolding skip_depth
skip_depth-plain stops d IsPlain.jumps = refl
skip_depth-plain stops d IsPlain.pushes = refl
skip_depth-plain stops d IsPlain.pops = refl
skip_depth-plain stops d IsPlain.labels = refl
skip_depth-plain stops d IsPlain.calls = refl
skip_depth-plain stops d IsPlain.comments = refl

skip_depth-if_ :
    (stops : Bool) {i : Instruction} (d : ℕ)
    → i ≡ Instruction.if_
    → d + 1 < 256
    → skip_depth stops i d ≡ some (d + 1)
unfolding skip_depth
skip_depth-if_ stops d e l = subst (λ i. skip_depth stops i d ≡ some (d + 1)) (sym e) (ground arith)

skip_depth-fi :
    (stops : Bool) {i : Instruction} (d : ℕ)
    → i ≡ Instruction.fi
    → d + 1 < 256
    → skip_depth stops i (d + 1) ≡ some d
unfolding skip_depth
skip_depth-fi stops d e l = subst (λ i. skip_depth stops i (d + 1) ≡ some d) (sym e) (ground arith)

skip_depth-else_ :
    (stops : Bool) {i : Instruction} (d : ℕ)
    → i ≡ Instruction.else_
    → skip_depth stops i (d + 1) ≡ some (d + 1)
unfolding skip_depth
skip_depth-else_ stops d e =
    subst (λ i. skip_depth stops i (d + 1) ≡ some (d + 1)) (sym e) (ground arith)

-- The fuel `f` and a unit for each instruction.
abbrev fuel_for : List Item → ℕ → ℕ
fuel_for [] f = f
fuel_for (x ∷ xs) f = suc (fuel_for xs f)

fuel_for-append : (xs ys : List Item) (f : ℕ) → fuel_for (xs ++ ys) f ≡ fuel_for xs (fuel_for ys f)
fuel_for-append [] ys f = refl
fuel_for-append (x ∷ xs) ys f = ap suc (fuel_for-append xs ys f)

fuel_for_lem :
    (xs : List Item) (fuel : ℕ) → length xs < fuel → (f : ℕ) × (fuel ≡ fuel_for xs (suc f))
fuel_for_lem [] zero l = absurd (omega arith)
fuel_for_lem (x ∷ xs) zero l = absurd (omega arith)
fuel_for_lem [] (suc fuel) l = (fuel, refl)
fuel_for_lem (x ∷ xs) (suc fuel) l =
    let (f, e) = fuel_for_lem xs fuel (omega arith) in (f, ap suc e)

module _ (stops : Bool) (s : Machine) where
  -- What the loop does with the depth that `skip_depth` computes.
  abbrev go_on : ℕ → Machine → Option ℕ → Ending Machine
  go_on f t o = elim o [ none ↦ Ending.done t | some d ↦ skip_block listing stops f d t ]

  skip_one :
      (x : Item) (f d d' : ℕ) (params : List ℕ) (passed rest : List Item)
      → skip_depth stops x.kind d ≡ some d'
      → skip_block listing stops (suc f) d (at s params passed (x ∷ rest))
        ≡ skip_block listing stops f d' (at s (overlay x.parameters params) (x ∷ passed) rest)
  unfolding skip_block
  skip_one x f d d' params passed rest e =
      ap (go_on f (at s (overlay x.parameters params) (x ∷ passed) rest)) e

  skip_last :
      (x : Item) (f d : ℕ) (params : List ℕ) (passed rest : List Item)
      → skip_depth stops x.kind d ≡ none
      → skip_block listing stops (suc f) d (at s params passed (x ∷ rest))
        ≡ Ending.done (at s (overlay x.parameters params) (x ∷ passed) rest)
  unfolding skip_block
  skip_last x f d params passed rest e =
      ap (go_on f (at s (overlay x.parameters params) (x ∷ passed) rest)) e

  -- A row of instructions is passed, from the depth `d` to the depth `d'`.
  abbrev Skips : List Item → ℕ → ℕ → Type 0
  Skips xs d d' =
      (f : ℕ) (params : List ℕ) (passed rest : List Item)
      → skip_block listing stops (fuel_for xs f) d (at s params passed (xs ++ rest))
        ≡ skip_block listing stops f d' (at s (decoded xs params) (behind xs passed) rest)

  Skips-cons :
      (x : Item) (xs : List Item) (d d' d'' : ℕ)
      → skip_depth stops x.kind d ≡ some d'
      → Skips xs d' d''
      → Skips (x ∷ xs) d d''
  Skips-cons x xs d d' d'' e h f params passed rest =
      skip_one x (fuel_for xs f) d d' params passed (xs ++ rest) e
      ∙ h f (overlay x.parameters params) (x ∷ passed) rest

  Skips-append :
      (xs ys : List Item) (d d' d'' : ℕ) → Skips xs d d' → Skips ys d' d'' → Skips (xs ++ ys) d d''
  Skips-append xs ys d d' d'' hx hy f params passed rest =
      ap₂ (λ g r. skip_block listing stops g d (at s params passed r)) (fuel_for-append xs ys f)
        (append_assoc xs ys rest)
      ∙ hx (fuel_for ys f) params passed (ys ++ rest)
      ∙ hy f (decoded xs params) (behind xs passed) rest
      ∙ ap₂ (λ p q. skip_block listing stops f d'' (at s p q rest))
          (sym (decoded-append xs ys params)) (sym (behind-append xs ys passed))

  -- A row that leaves the depth as it is, and an instruction behind it.
  Skips-between :
      (xs : List Item) (y : Item) (ys : List Item) (d d' d'' : ℕ)
      → Skips xs d d
      → skip_depth stops y.kind d ≡ some d'
      → Skips ys d' d''
      → Skips (xs ++ (y ∷ ys)) d d''
  Skips-between xs y ys d d' d'' hx e hy =
      Skips-append xs (y ∷ ys) d d d'' hx (Skips-cons y ys d d' d'' e hy)

  Block-Skips : {xs : List Item} (b : Block xs) (d : ℕ) → FewBranches d b → Skips xs d d
  unfolding FewBranches skip_depth
  Block-Skips Block.end d h = λ f params passed rest. refl
  Block-Skips (Block.line x p c) d h =
      Skips-cons x _ d d d (skip_depth-plain stops d p) (Block-Skips c d h)
  Block-Skips (Block.loop x y ex ey b c) d h =
      let last = ap (λ i. skip_depth stops i d) ey in
      let inside = Skips-between _ y _ d d d (Block-Skips b d h.0) last (Block-Skips c d h.1) in
      Skips-cons x _ d d d (ap (λ i. skip_depth stops i d) ex) inside
  Block-Skips (Block.branch x y ex ey b c) d h =
      let last = skip_depth-fi stops d ey h.0 in
      let inside =
        Skips-between _ y _ (d + 1) d d (Block-Skips b (d + 1) h.1) last (Block-Skips c d h.2) in
      Skips-cons x _ d (d + 1) d (skip_depth-if_ stops d ex h.0) inside
  Block-Skips (Block.branches x e y ex ee ey b b' c) d h =
      let last = skip_depth-fi stops d ey h.0 in
      let other =
        Skips-between _ y _ (d + 1) d d (Block-Skips b' (d + 1) h.2) last (Block-Skips c d h.3) in
      let middle = skip_depth-else_ stops d ee in
      let inside = Skips-between _ e _ (d + 1) (d + 1) d (Block-Skips b (d + 1) h.1) middle other in
      Skips-cons x _ d (d + 1) d (skip_depth-if_ stops d ex h.0) inside

  -- A block is skipped up to and with the instruction that ends the loop.
  pub skip_block-Block :
      {xs : List Item} (b : Block xs) (y : Item) (fuel : ℕ) (params : List ℕ)
      (passed rest : List Item)
      → FewBranches 0 b
      → skip_depth stops y.kind 0 ≡ none
      → length xs < fuel
      → skip_block listing stops fuel 0 (at s params passed (xs ++ (y ∷ rest)))
        ≡ Ending.done (at s (overlay y.parameters (decoded xs params)) (y ∷ behind xs passed) rest)
  skip_block-Block {xs = xs} b y fuel params passed rest h e l =
      let (f, eq) = fuel_for_lem xs fuel l in
      ap (λ n. skip_block listing stops n 0 (at s params passed (xs ++ (y ∷ rest)))) eq
      ∙ Block-Skips b 0 h (suc f) params passed (y ∷ rest)
      ∙ skip_last y f 0 (decoded xs params) (behind xs passed) rest e

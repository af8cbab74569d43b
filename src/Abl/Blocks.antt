-- ===== src/Abl/Blocks.antt =====
-- Blocks of a program of behaviour_abl.c: lines, branches and loops that are closed, and what it means
-- to walk over them.
use ct_bot.Base.{ℕ, ◌+◌, ◌<◌, ◌≡◌, refl, List, [], ◌∷◌, ◌++◌}
use ct_bot.Abl.{Instruction}
use ct_bot.Abl.Listing.{Item, Machine, overlay}

-- The instructions that neither open nor close a block.
pub data IsPlain : Instruction → Type 0 where
  jumps : IsPlain Instruction.jump
  pushes : IsPlain Instruction.push
  pops : IsPlain Instruction.pop
  labels : IsPlain Instruction.label
  calls : IsPlain Instruction.call
  comments : IsPlain Instruction.comment

pub data Block : List Item → Type 0 where
  end : Block []
  line : (x : Item) {c : List Item} → IsPlain x.kind → Block c → Block (x ∷ c)
  loop :
      (x y : Item) {b c : List Item}
      → x.kind ≡ Instruction.for_
      → y.kind ≡ Instruction.endf
      → Block b
      → Block c
      → Block (x ∷ (b ++ (y ∷ c)))
  branch :
      (x y : Item) {b c : List Item}
      → x.kind ≡ Instruction.if_
      → y.kind ≡ Instruction.fi
      → Block b
      → Block c
      → Block (x ∷ (b ++ (y ∷ c)))
  branches :
      (x e y : Item) {b b' c : List Item}
      → x.kind ≡ Instruction.if_
      → e.kind ≡ Instruction.else_
      → y.kind ≡ Instruction.fi
      → Block b
      → Block b'
      → Block c
      → Block (x ∷ (b ++ (e ∷ (b' ++ (y ∷ c)))))

-- Branches inside of each other, `d` of them around the block, are fewer than 256.
unfoldable pub FewBranches : ℕ → {xs : List Item} → Block xs → Type 0
FewBranches d end = Unit {0}
FewBranches d (line x p c) = FewBranches d c
FewBranches d (loop x y ex ey b c) = FewBranches d b × FewBranches d c
FewBranches d (branch x y ex ey b c) = (d + 1 < 256) × FewBranches (d + 1) b × FewBranches d c
FewBranches d (branches x e y ex ee ey b b' c) =
    (d + 1 < 256) × FewBranches (d + 1) b × FewBranches (d + 1) b' × FewBranches d c

-- A machine at a place of the program, the parameters behind a row of instructions, and the passed
-- instructions.
abbrev pub at : Machine → List ℕ → List Item → List Item → Machine
at s params passed rest = record s { params = params; cursor = (passed, rest) }

abbrev pub decoded : List Item → List ℕ → List ℕ
decoded [] params = params
decoded (x ∷ xs) params = decoded xs (overlay x.parameters params)

abbrev pub behind : List Item → List Item → List Item
behind [] passed = passed
behind (x ∷ xs) passed = behind xs (x ∷ passed)

pub decoded-append :
    (xs ys : List Item) (params : List ℕ)
    → decoded (xs ++ ys) params ≡ decoded ys (decoded xs params)
decoded-append [] ys params = refl
decoded-append (x ∷ xs) ys params = decoded-append xs ys (overlay x.parameters params)

pub behind-append :
    (xs ys passed : List Item) → behind (xs ++ ys) passed ≡ behind ys (behind xs passed)
behind-append [] ys passed = refl
behind-append (x ∷ xs) ys passed = behind-append xs ys (x ∷ passed)

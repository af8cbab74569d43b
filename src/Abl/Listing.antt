-- ===== src/Abl/Listing.antt =====
-- A program that is read from a list of instructions, without errors: what i_fetch and i_fetch_back of
-- behaviour_abl.c stand for. The instructions that were passed are a list from the last one on. Going
-- back takes a line before the one that is gone to, such as the comment that a program begins with.
use ct_bot.Base.{ℕ, List, [], ◌∷◌, ◌++◌, length, drop}
use ct_bot.Abl.{Instruction, Reader, State}

pub record Item : Type 0 where
  pub kind : Instruction
  pub parameters : List ℕ

abbrev pub Place : Type 0
Place = List Item × List Item

-- Decoding writes the parameters that the instruction has.
abbrev pub overlay : List ℕ → List ℕ → List ℕ
overlay new old = new ++ drop (length new) old

abbrev pub forward : List ℕ → Place → Instruction × List ℕ × Place
forward params (passed, []) = (Instruction.unknown, params, (passed, []))
forward params (passed, x ∷ rest) = (x.kind, overlay x.parameters params, (x ∷ passed, rest))

abbrev pub backward : List ℕ → Place → Instruction × List ℕ × Place
backward params (x ∷ (y ∷ (z ∷ passed)), rest) =
    (y.kind, overlay y.parameters params, (y ∷ (z ∷ passed), x ∷ rest))
backward params (passed, rest) = (Instruction.unknown, params, (passed, rest))

abbrev pub listing : Reader
listing = record { Cursor = Place; i_fetch = forward; i_fetch_back = backward }

abbrev pub Machine : Type 0
Machine = State Place

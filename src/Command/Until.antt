-- ===== src/Command/Until.antt =====
-- `receive_until_frame`, the loop that reads and evaluates up to a command of a kind.
use ct_bot.Base.{ℕ, ◌≤◌, ◌≡◌, List, length}
use ct_bot.Command.{Command, Result, Input, Reply, command_read}

module _ {ℓ} {S : Type ℓ} (evaluate : Command → S → List Input → Command × S × List Input)
    (address : ℕ) (stack : List ℕ) (frame : ℕ) where
  -- The end of the loop: with 0 there is a command of the kind in `received_command`; any other code is
  -- that of a `command_read`, and `received_command` is as that left it.
  abbrev pub Proper : Reply S → Type 0
  Proper (Reply.ended Result.ok c s inputs) = c.command ≡ frame
  Proper (Reply.ended (Result.error e) c s inputs) =
      (old : Command) × (input : Input) × (command_read address stack old input
        ≡ (Result.error e, c))
  Proper Reply.silent = Unit {0}
  Proper Reply.running = ⊥

  -- `command_evaluate` reads no more than there is.
  abbrev pub Shrinks : Type ℓ
  Shrinks =
      (c : Command) (s : S) (inputs : List Input) → length (evaluate c s inputs).2 ≤ length inputs

-- ===== src/Command/Frame.antt =====
-- A command as the bytes of its frame, and the search for its start.
use ct_bot.Base.{ℕ, ◌≤◌, ◌<◌, ◌≡◌, ◌≢◌, refl, List, [], ◌∷◌, ◌++◌, arith, length, All, get_or}
use ct_bot.Command.{Command, bytes_of, command_of, find_start, cmd_startcode}

-- The fields fit their places in `command_t`.
pub record Fits (c : Command) : Type 0 where
  pub subcommand : c.subcommand < 128
  pub direction : c.direction < 2
  pub data_l : c.data_l < 65536
  pub data_r : c.data_r < 65536

-- The bytes of a command whose fields fit are those of no other command: the cast gives it back.
pub command_of-bytes_of : (c : Command) → Fits c → command_of (bytes_of c) ≡ c
unfolding command_of bytes_of
command_of-bytes_of c f = grind arith

pub find_start-append :
    (junk rest : List ℕ)
    → All (λ b. b ≢ cmd_startcode) junk
    → find_start (junk ++ (cmd_startcode ∷ rest)) ≡ length junk
unfolding find_start
find_start-append [] rest a = refl
find_start-append (b ∷ junk) rest a = ground (arith, a.0, find_start-append junk rest a.1)

pub find_start_in : (bs : List ℕ) → find_start bs ≤ length bs
unfolding find_start
find_start_in [] = omega arith
find_start_in (b ∷ bs) = ground (arith, find_start_in bs)

-- The search stops on a start code, or behind the last byte.
pub find_start_found :
    (bs : List ℕ) → find_start bs < length bs → get_or bs (find_start bs) 0 ≡ cmd_startcode
unfolding find_start
find_start_found [] h = absurd (omega arith)
find_start_found (b ∷ bs) h = ground (arith, find_start_found bs)

pub length-bytes_of : (c : Command) → length (bytes_of c) ≡ 12
unfolding bytes_of
length-bytes_of c = omega arith

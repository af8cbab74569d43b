-- ===== src/Command/Tests.antt =====
-- Frames between two bots.
use ct_bot.Base.{
  if◌then◌else◌, ◌==◌, ℕ, zero, suc, ◌%◌, ◌≡◌, ◌≢◌, refl, true, some, List, [], ◌∷◌, ◌++◌, arith,
  length, drop, get_or,
}
use ct_bot.Command.{
  Command, Result, Input, Reply, after_read, find_start, read_frame, collect, accept, command_of,
  bytes_of, is_for, command_read, receive_until_frame, cmd_startcode, cmd_stopcode,
}
use ct_bot.Command.Send.{Sender, command_write_to_internal}
use ct_bot.Command.Frame.{Fits}
use ct_bot.Command.Receive.{joined}
use ct_bot.Command.Loop.{command_read-ok}
use ct_bot.Command.Session.{command_read-command_write}

abbrev moving : ℕ → Command
moving kind = record {
  start_code = 62;
  command = kind;
  subcommand = 78;
  direction = 0;
  payload = 0;
  data_l = 65436;
  data_r = 100;
  seq = 7;
  from = 2;
  to = 3;
  crc = 60;
}

moving-Fits : (kind : ℕ) → Fits (moving kind)
moving-Fits kind = ground arith

abbrev stack : List ℕ
stack = 9 ∷ 9 ∷ []

-- The frame of `moving 77`, with two bytes before it and cut behind its fourth.
abbrev pieces : Input
pieces = record {
  first = some (1 ∷ 2 ∷ 62 ∷ 77 ∷ 78 ∷ 0 ∷ []);
  later = some (156 ∷ 255 ∷ 100 ∷ []) ∷ some [] ∷ some (0 ∷ 7 ∷ 2 ∷ 3 ∷ 60 ∷ []) ∷ [];
}

cut :
    bytes_of (moving 77)
    ≡ (62 ∷ 77 ∷ 78 ∷ 0 ∷ [])
      ++ joined ((156 ∷ 255 ∷ 100 ∷ []) ∷ [] ∷ (0 ∷ 7 ∷ 2 ∷ 3 ∷ 60 ∷ []) ∷ [])
unfolding bytes_of
cut = refl

clean : (i : ℕ) → get_or stack i 0 ≢ cmd_startcode
clean zero e = omega (arith, e)
clean (suc zero) e = omega (arith, e)
clean (suc (suc i)) e = omega (arith, e)

read_pieces : (command_read 3 stack (moving 0) pieces).0 ≡ Result.ok
unfolding command_read
read_pieces = refl

command_read-ok_example :
    let c = (command_read 3 stack (moving 0) pieces).1 in
    (c.start_code ≡ cmd_startcode) × (c.crc ≡ cmd_stopcode) × (is_for 3 c ≡ true)
command_read-ok_example = command_read-ok 3 stack (moving 0) pieces clean read_pieces

abbrev idle_sender : Sender
idle_sender = record { count = 7; cmd_to_send = moving 0; sent = [] }

abbrev takes_all : List ℕ → ℕ
takes_all b = length b

abbrev bot_2_wrote : Sender
bot_2_wrote = (command_write_to_internal (some takes_all) 2 idle_sender 77 78 3 65436 100 0).1

for_3 : is_for 3 bot_2_wrote.cmd_to_send ≡ true
unfolding command_write_to_internal
for_3 = refl

wrote_pieces :
    drop (length idle_sender.sent) bot_2_wrote.sent
    ≡ (62 ∷ 77 ∷ 78 ∷ 0 ∷ [])
      ++ joined ((156 ∷ 255 ∷ 100 ∷ []) ∷ [] ∷ (0 ∷ 7 ∷ 2 ∷ 3 ∷ 60 ∷ []) ∷ [])
unfolding command_write_to_internal
wrote_pieces = refl

command_read-command_write_example :
    let r = command_read 3 stack (moving 0) pieces in
    (r.0 ≡ Result.ok)
    × (r.1.command ≡ 77)
    × (r.1.subcommand ≡ 78 % 128)
    × (r.1.data_l ≡ 65436)
    × (r.1.data_r ≡ 100)
    × (r.1.payload ≡ 0)
    × (r.1.from ≡ 2)
command_read-command_write_example =
    command_read-command_write takes_all 2 3 idle_sender 77 78 3 65436 100 0 stack (moving 0)
      (1 ∷ 2 ∷ []) (77 ∷ 78 ∷ 0 ∷ []) ((156 ∷ 255 ∷ 100 ∷ []) ∷ [] ∷ (0 ∷ 7 ∷ 2 ∷ 3 ∷ 60 ∷ []) ∷ [])
      (omega arith) (omega arith) for_3 ((λ e. omega arith), ((λ e. omega arith), tt)) wrote_pieces
      (omega arith)

abbrev whole : ℕ → Input
whole kind = record {
  first = some (62 ∷ kind ∷ 78 ∷ 0 ∷ 156 ∷ 255 ∷ 100 ∷ 0 ∷ 7 ∷ 2 ∷ 3 ∷ 60 ∷ []);
  later = [];
}

-- A `command_evaluate`: it notes the kind, and a command 77 makes it read the next one itself.
abbrev note_kind : Command → List ℕ → List Input → Command × List ℕ × List Input
note_kind c kinds [] = (c, c.command ∷ kinds, [])
note_kind c kinds (input ∷ inputs) =
    if c.command == 77
    then ((command_read 3 stack c input).1, c.command ∷ kinds, inputs)
    else (c, c.command ∷ kinds, input ∷ inputs)

whole_bytes :
    (kind : ℕ)
    → bytes_of (moving kind)
      ≡ (62 ∷ kind ∷ 78 ∷ 0 ∷ 156 ∷ 255 ∷ 100 ∷ 0 ∷ 7 ∷ 2 ∷ 3 ∷ 60 ∷ []) ++ joined []
unfolding bytes_of
whole_bytes kind = refl

read_inside :
    receive_until_frame note_kind 3 stack 88 4 (moving 0) [] (whole 77 ∷ whole 88 ∷ whole 99 ∷ [])
    ≡ Reply.ended Result.ok (moving 88) (77 ∷ []) (whole 99 ∷ [])
unfolding receive_until_frame after_read command_read find_start read_frame collect accept
    command_of
read_inside = refl

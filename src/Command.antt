-- ===== src/Command.antt =====
-- command.c and include/command.h: the frames of twelve bytes between the bot and the simulator or
-- other bots. The model is of the build for the micro-controller without CRC_CHECK. A uint8_t is
-- below 256, an int16_t is its bit pattern, and the functions of `cmd_functions` are parameters.
pub mod Frame
pub mod Receive
pub mod Loop
pub mod Send
pub mod Session
pub mod Until
mod Tests
use ct_bot.Base.{
  ℕ, zero, suc, ◌+◌, ◌-◌, ◌*◌, ◌/◌, ◌%◌, Bool, true, false, not, ◌&&◌, ◌||◌, Option, none, some,
  List, [], ◌∷◌, ◌++◌, ltb, ◌==◌, if◌then◌else◌, get_or, length, take, drop, arith,
}

abbrev pub cmd_startcode : ℕ
cmd_startcode = 62

abbrev pub cmd_stopcode : ℕ
cmd_stopcode = 60

abbrev pub cmd_broadcast : ℕ
cmd_broadcast = 255

abbrev pub cmd_sim_addr : ℕ
cmd_sim_addr = 254

abbrev pub cmd_ignore_addr : ℕ
cmd_ignore_addr = 253

abbrev pub cmd_welcome : ℕ
cmd_welcome = 87

abbrev pub max_payload : ℕ
max_payload = 255

-- sizeof(command_t)
abbrev pub command_size : ℕ
command_size = 12

-- `command_t`, with the parts of its `request_t`.
pub record Command : Type 0 where
  pub start_code : ℕ
  pub command : ℕ
  pub subcommand : ℕ
  pub direction : ℕ
  pub payload : ℕ
  pub data_l : ℕ
  pub data_r : ℕ
  pub seq : ℕ
  pub from : ℕ
  pub to : ℕ
  pub crc : ℕ

-- The bytes of the packed structure, and the cast of bytes to it; 16 bits stand low byte first.
unfoldable pub bytes_of : Command → List ℕ
bytes_of c =
    c.start_code
    ∷ c.command
    ∷ (c.subcommand + 128 * c.direction)
    ∷ c.payload
    ∷ (c.data_l % 256)
    ∷ (c.data_l / 256)
    ∷ (c.data_r % 256)
    ∷ (c.data_r / 256)
    ∷ c.seq
    ∷ c.from
    ∷ c.to
    ∷ c.crc
    ∷ []

unfoldable pub command_of : List ℕ → Command
command_of b = record {
  start_code = get_or b 0 0;
  command = get_or b 1 0;
  subcommand = get_or b 2 0 % 128;
  direction = get_or b 2 0 / 128;
  payload = get_or b 3 0;
  data_l = get_or b 4 0 + 256 * get_or b 5 0;
  data_r = get_or b 6 0 + 256 * get_or b 7 0;
  seq = get_or b 8 0;
  from = get_or b 9 0;
  to = get_or b 10 0;
  crc = get_or b 11 0;
}

-- A code of `command_read`: 0, or the error -code.
pub data Result : Type 0 where
  ok : Result
  error : ℕ → Result

-- The answers of `cmd_functions.read` to one `command_read`: `none` is a negative answer to the first
-- call. For a later one it is the timer's, that COMMAND_TIMEOUT has passed; where the list ends the
-- line stays silent, and the timeout comes.
pub record Input : Type 0 where
  pub first : Option (List ℕ)
  pub later : List (Option (List ℕ))

-- `while ((start < bytesRcvd) && (buffer[start] != CMD_STARTCODE)) start++`
unfoldable pub find_start : List ℕ → ℕ
find_start [] = 0
find_start (b ∷ bs) = let rest = find_start bs in if b == cmd_startcode then 0 else rest + 1

-- The buffer on the stack: what was received, and behind it what stood there before, `stack`, with
-- its first byte set to 0.
abbrev pub byte_at : List ℕ → List ℕ → ℕ → ℕ
byte_at stack received i =
    if ltb i (length received) then get_or received i 0 else if i == 0 then 0 else get_or stack i 0

abbrev pub missing : ℕ → List ℕ → ℕ
missing start received = command_size + start - length received

-- The loop that reads what is missing; `none` is the timeout. A read hands over no more bytes than it
-- was asked for.
unfoldable pub collect : ℕ → List ℕ → List (Option (List ℕ)) → Option (List ℕ)
collect start received [] = if missing start received == 0 then some received else none
collect start received (none ∷ later) = if missing start received == 0 then some received else none
collect start received (some bytes ∷ later) =
    let rest = collect start (received ++ take (missing start received) bytes) later in
    if missing start received == 0 then some received else rest

abbrev pub is_for : ℕ → Command → Bool
is_for address c =
    (c.to == cmd_broadcast)
    || (c.to == cmd_ignore_addr)
    || (c.to == address)
    || (c.command == cmd_welcome)

-- The checks of a complete frame, and its transfer to `received_command`.
unfoldable pub accept : ℕ → Command → Command → Result × Command
accept address old c =
    if c.crc == cmd_stopcode
    then if is_for address c then (Result.ok, c) else (Result.error 10, old)
    else (Result.error 6, old)

-- `command_read` behind the search, with `start` where that stopped.
unfoldable pub read_frame :
    ℕ → List ℕ → Command → List ℕ → ℕ → List (Option (List ℕ)) → Result × Command
unfolding collect accept command_of
read_frame address stack old received start later =
    if byte_at stack received start == cmd_startcode
    then if ltb (2 * command_size - start) command_size
      then (Result.error 3, old)
      else elim (collect start received later) [
        | none ↦ (Result.error 4, old)
        | some all ↦ accept address old (command_of (take command_size (drop start all)))
      ]
    else (Result.error 2, old)

-- `command_read` with the content of `received_command` before and after it.
unfoldable pub command_read : ℕ → List ℕ → Command → Input → Result × Command
unfolding find_start read_frame
command_read address stack old input = elim (input.first) [
  | none ↦ (Result.error 1, old)
  | some bytes ↦
      let received = take command_size bytes in
      read_frame address stack old received (find_start received) input.later
]

-- The end of `receive_until_frame`: its code, and what it leaves in `received_command`, in the state that
-- `command_evaluate` works on and of the inputs. `silent` means that the inputs ran out in front of a
-- `command_read`, `running` that the fuel did.
pub data Reply {ℓ} (S : Type ℓ) : Type ℓ where
  ended : Result → Command → S → List Input → Reply S
  silent running : Reply S

module _ {ℓ} {S : Type ℓ} (evaluate : Command → S → List Input → Command × S × List Input)
    (address : ℕ) (stack : List ℕ) (frame : ℕ) where
  -- The test at the end of the loop, on `received_command`.
  abbrev pub until_frame :
      (Command → S → List Input → Reply S) → Result → Command × S × List Input → Reply S
  until_frame continue r (c, s, inputs) =
      if c.command == frame then Reply.ended r c s inputs else continue c s inputs

  -- What the loop does with a code of `command_read`. `command_evaluate` may read further commands
  -- itself, and leave one of them in `received_command`.
  unfoldable pub after_read :
      (Command → S → List Input → Reply S) → Result → Command → S → List Input → Reply S
  after_read continue Result.ok c s inputs = until_frame continue Result.ok (evaluate c s inputs)
  after_read continue (Result.error e) c s inputs =
      if not (e == 20)
      then Reply.ended (Result.error e) c s inputs
      else until_frame continue (Result.error e) (c, s, inputs)

  -- `receive_until_frame`, over the inputs of the calls of `command_read`.
  unfoldable pub receive_until_frame : ℕ → Command → S → List Input → Reply S
  unfolding command_read after_read
  receive_until_frame zero old s inputs = Reply.running
  receive_until_frame (suc fuel) old s [] = Reply.silent
  receive_until_frame (suc fuel) old s (input ∷ inputs) =
      let (r, c) = command_read address stack old input in
      after_read (receive_until_frame fuel) r c s inputs

-- ===== src/Command/Send.antt =====
-- command.c: the functions that write a frame, and the bytes of its payload behind it.
use ct_bot.Base.{
  ℕ, ◌+◌, ◌%◌, Option, none, some, List, [], ◌++◌, ltb, ◌==◌, if◌then◌else◌, length, take,
}
use ct_bot.Command.{
  Command, bytes_of, cmd_startcode, cmd_stopcode, cmd_sim_addr, max_payload, command_size,
}

-- The sender's globals: the counter `count`, `cmd_to_send`, and the bytes handed to
-- `cmd_functions.write`, in order.
pub record Sender : Type 0 where
  pub count : ℕ
  pub cmd_to_send : Command
  pub sent : List ℕ

-- `send_cmd`: `write` is NULL, or says how many of the bytes it took.
abbrev pub send_cmd : Option (List ℕ → ℕ) → Sender → ℕ × Sender
send_cmd none s = (0, s)
send_cmd (some write) s =
    let b = bytes_of s.cmd_to_send in (write b, record s { sent = s.sent ++ b })

-- `command_write_to_internal` of the bot with an address: its error code.
unfoldable pub command_write_to_internal :
    Option (List ℕ → ℕ)
    → ℕ
    → Sender
    → (command : ℕ) → (subcommand : ℕ) → (to : ℕ) → (data_l : ℕ) → (data_r : ℕ) → (payload : ℕ)
    → ℕ × Sender
unfolding bytes_of
command_write_to_internal write address s command subcommand to data_l data_r payload =
    let cmd : Command = record {
      start_code = cmd_startcode;
      command = command;
      subcommand = subcommand % 128;
      direction = 0;
      payload = payload;
      data_l = data_l;
      data_r = data_r;
      seq = s.count;
      from = address;
      to = to;
      crc = cmd_stopcode;
    } in
    let (n, s') = send_cmd write (record s { cmd_to_send = cmd; count = (s.count + 1) % 256 }) in
    (if n == command_size then 0 else 1, s')

-- `command_write_to` and `command_write` without the lock around them.
pub command_write_to : Option (List ℕ → ℕ) → ℕ → Sender → ℕ → ℕ → ℕ → ℕ → ℕ → ℕ → Sender
unfolding command_write_to_internal
command_write_to write address s command subcommand to data_l data_r payload =
    (command_write_to_internal write address s command subcommand to data_l data_r payload).1

pub command_write : Option (List ℕ → ℕ) → ℕ → Sender → ℕ → ℕ → ℕ → ℕ → ℕ → Sender
unfolding command_write_to_internal
command_write write address s command subcommand data_l data_r payload =
    (command_write_to_internal write address s command subcommand cmd_sim_addr data_l data_r
      payload).1

-- `command_write_rawdata_to`: the frame, and behind it its payload if the frame went out.
unfoldable pub command_write_rawdata_to :
    Option (List ℕ → ℕ) → ℕ → Sender → ℕ → ℕ → ℕ → ℕ → ℕ → ℕ → List ℕ → Sender
unfolding command_write_to_internal
command_write_rawdata_to none address s command subcommand to data_l data_r payload bytes = s
command_write_rawdata_to (some write) address s command subcommand to data_l data_r payload bytes =
    let (e, s') =
      command_write_to_internal (some write) address s command subcommand to data_l data_r
        payload in
    if e == 0 then record s' { sent = s'.sent ++ take payload bytes } else s'

-- `command_write_data` with the characters of a string, `none` for NULL.
abbrev pub payload_of : Option (List ℕ) → ℕ
payload_of none = 0
payload_of (some text) = if ltb max_payload (length text) then max_payload else length text

pub command_write_data : Option (List ℕ → ℕ) → ℕ → Sender → ℕ → ℕ → ℕ → ℕ → Option (List ℕ) → Sender
unfolding command_write_rawdata_to
command_write_data write address s command subcommand data_l data_r none =
    command_write_rawdata_to write address s command subcommand cmd_sim_addr data_l data_r 0 []
command_write_data write address s command subcommand data_l data_r (some text) =
    command_write_rawdata_to write address s command subcommand cmd_sim_addr data_l data_r
      (payload_of (some text)) text

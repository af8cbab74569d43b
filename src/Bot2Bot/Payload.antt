-- ===== src/Bot2Bot/Payload.antt =====
-- The transfer of data from one bot to another: bot_2_bot_send_payload_request and the handlers of
-- requests, acknowledgements and data in bot-2-bot.c, without the waiting of the micro-controller's
-- build. Memory is a function of addresses, and a pointer is an address or none for NULL.
use ct_bot.Base.{
  ℕ, zero, suc, ◌+◌, ◌-◌, ◌%◌, Bool, true, false, not, ◌&&◌, ◌||◌, Option, none, some, List, [],
  ◌∷◌, length, get_elem?, get_or, ltb, leb, ◌==◌, if◌then◌else◌,
}

abbrev pub Memory : Type 0
Memory = ℕ → ℕ

-- `bot_2_bot_payload_mappings_t`; the function is a number.
pub record Mapping : Type 0 where
  pub function : ℕ
  pub block : Option ℕ
  pub size : ℕ

-- What a bot sends to another: the fields of a command, and the data behind it.
pub record Packet : Type 0 where
  pub subcommand : ℕ
  pub from : ℕ
  pub data_l : ℕ
  pub data_r : ℕ
  pub payload : List ℕ

-- Subcommands: the places of their handlers in the table.
abbrev pub cmd_req : ℕ
cmd_req = 2

abbrev pub cmd_ack : ℕ
cmd_ack = 3

abbrev pub cmd_payload : ℕ
cmd_payload = 4

abbrev pub window : ℕ
window = 32

-- One bot: its own address, the static variables of bot-2-bot.c, the speeds of its wheels, its memory,
-- and the callbacks that have run. `payload_size` is the word of an `int16_t`.
pub record Bot : Type 0 where
  pub address : ℕ
  pub block : Option ℕ
  pub callback : Option ℕ
  pub payload_size : ℕ
  pub active_transfer : ℕ
  pub mappings : List Mapping
  pub v_left : ℕ
  pub v_right : ℕ
  pub memory : Memory
  pub called : List ℕ

-- Bytes read from and written to memory.
abbrev pub load : Memory → ℕ → ℕ → List ℕ
load m zero a = []
load m (suc n) a = m a ∷ load m n (suc a)

abbrev pub store : Memory → ℕ → List ℕ → Memory
store m a bytes i = if leb a i && ltb i (a + length bytes) then get_or bytes (i - a) 0 else m i

abbrev pub ack : Bot → ℕ → ℕ → Packet
ack b window result = record {
  subcommand = cmd_ack;
  from = b.address;
  data_l = window;
  data_r = result;
  payload = [];
}

-- A request is refused when there is no block for its type, when it is too large, or when the bot
-- moves.
unfoldable pub refuses : Bot → Mapping → ℕ → Bool
refuses b mapping size =
    elim mapping.block [ none ↦ true | some _ ↦ false ]
    || ltb ((mapping.size + 32768) % 65536) ((size + 32768) % 65536)
    || not (b.v_left == 0)
    || not (b.v_right == 0)

unfoldable pub answer_request : Packet → Option Mapping → Bot → Bot × Option Packet
answer_request cmd none b = (record b { payload_size = 0 }, some (ack b 0 1))
answer_request cmd (some mapping) b =
    if refuses b mapping cmd.data_l then (record b { payload_size = 0 }, some (ack b 0 1)) else (
      record b {
        payload_size = cmd.data_l;
        callback = some mapping.function;
        block = mapping.block;
        active_transfer = cmd.from;
      },
      some (ack b window 0),
    )

-- The source reads behind the table for a type that it does not have; here such a type is refused.
unfoldable pub handle_payload_request : Packet → Bot → Bot × Option Packet
handle_payload_request cmd b = answer_request cmd (get_elem? b.mappings (cmd.data_r % 256)) b

-- One window of data goes to the other bot, the last one with what is left.
unfoldable pub send_window : ℕ → ℕ → Bot → Bot × Option Packet
send_window window_size place b =
    let to_send = (b.payload_size + (65536 - window_size)) % 65536 in
    let last = leb 32768 to_send in
    let n = if last then (window_size + to_send) % 256 else window_size in
    (
      record b { payload_size = if last then 0 else to_send; block = some (place + n) },
      some (record {
        subcommand = cmd_payload;
        from = b.address;
        data_l = if last then 1 else 0;
        data_r = 0;
        payload = load b.memory n place;
      }),
    )

-- The end of a transfer: the words of -1 and -2 say how.
abbrev pub ended : Bot → ℕ → Bot
ended b size = record b { callback = none; block = none; payload_size = size; active_transfer = 0 }

unfoldable pub handle_payload_ack : Packet → Bot → Bot × Option Packet
handle_payload_ack cmd b = elim b.block [
  | none ↦ (b, none)
  | some place ↦
      if not (b.active_transfer == cmd.from)
      then (b, none)
      else if cmd.data_r == 0
      then send_window (cmd.data_l % 256) place b
      else if cmd.data_r == 1
      then (ended b 65535, none)
      else if cmd.data_r == 2
      then (ended b (if b.payload_size == 0 then 65534 else 65535), none)
      else (b, none)
]

-- The data that came goes where the pointer is; through NULL it is lost.
unfoldable pub receive_bytes : List ℕ → Bot → Bot
receive_bytes bytes b = elim b.block [
  | none ↦ b
  | some place ↦ record b {
    memory = store b.memory place bytes;
    block = some (place + length bytes);
  }
]

unfoldable pub run_callback : Bot → Bot
run_callback b = elim b.callback [ none ↦ b | some f ↦ record b { called = f ∷ b.called } ]

-- `read` is the connection: of the bytes that are announced, those that it delivers.
unfoldable pub handle_payload_data : (List ℕ → List ℕ) → Packet → Bot → Bot × Option Packet
handle_payload_data read cmd b =
    if not (b.active_transfer == cmd.from)
    then (b, none)
    else (let bytes = read cmd.payload in
        let got = receive_bytes bytes b in
        if not (length bytes == length cmd.payload)
        then (record got { block = none; callback = none; payload_size = 0 }, some (ack b 0 1))
        else if cmd.data_l == 1
        then (ended (run_callback got) 0, some (ack b 0 2))
        else (got, some (ack b window 0)))

-- The handler of a packet, from the table of the bot-to-bot commands.
unfoldable pub receive : (List ℕ → List ℕ) → Packet → Bot → Bot × Option Packet
receive read p b =
    if p.subcommand == cmd_req
    then handle_payload_request p b
    else if p.subcommand == cmd_ack
    then handle_payload_ack p b
    else if p.subcommand == cmd_payload
    then handle_payload_data read p b
    else (b, none)

-- The replies of a bot to a packet, or to none.
abbrev pub reply : (List ℕ → List ℕ) → Option Packet → Bot → Bot × Option Packet
reply read none b = (b, none)
reply read (some p) b = receive read p b

-- The loop of the sender, together with the other bot, on fuel: `sent` is on its way to the other. Its
-- result is the return value, as the word of an `int8_t`. Without an answer the loop gives up with -4.
unfoldable pub wait : (List ℕ → List ℕ) → ℕ → Bot → Bot → Option Packet → Option (ℕ × Bot × Bot)
wait read zero a b sent = none
wait read (suc fuel) a b sent =
    if leb 32768 a.payload_size
    then some (if a.payload_size == 65534 then 0 else 251, a, b)
    else (let (b', answer) = reply read sent b in
        elim answer [
          | none ↦ some (252, ended a 0, b')
          | some p ↦ let (a', next) = receive read p a in wait read fuel a' b' next
        ])

-- The request for a transfer of `size` bytes from the address `place`, and the loop behind it.
unfoldable pub bot_2_bot_send_payload_request :
    (List ℕ → List ℕ) → ℕ → (to type place size : ℕ) → Bot → Bot → Option (ℕ × Bot × Bot)
bot_2_bot_send_payload_request read fuel to type place size a b =
    if to == a.address
    then some (255, a, b)
    else wait read fuel (record a { block = some place; payload_size = size; active_transfer = to })
        b
        (some (record {
          subcommand = cmd_req;
          from = a.address;
          data_l = size;
          data_r = type;
          payload = [];
        }))

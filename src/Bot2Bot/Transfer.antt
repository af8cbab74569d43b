-- ===== src/Bot2Bot/Transfer.antt =====
-- A whole transfer between two bots: the windows of bot-2-bot.c, one after the other.
use mathlib.Core.Path.{fun_ext}
use ct_bot.Base.{
  ℕ, zero, suc, ap, ◌∙◌, ◌+◌, ◌-◌, ◌*◌, ◌/◌, ◌%◌, ◌≤◌, ◌<◌, ◌≡◌, ◌≢◌, refl, true, false, ◌&&◌,
  Option, none, some, List, [], ◌∷◌, arith, length, get_elem?, get_or, ltb, leb, ◌==◌, dec_lt,
  if◌then◌else◌,
}
use ct_bot.Bot2Bot.Payload.{
  Memory, Mapping, Packet, Bot, cmd_payload, cmd_req, window, load, store, ack, ended, send_window,
  handle_payload_ack, handle_payload_data, handle_payload_request, receive_bytes, run_callback,
  receive, wait, bot_2_bot_send_payload_request, refuses, answer_request,
}

-- The memory with `n` bytes copied from `pa` in another memory to `pb`.
abbrev pub copied : Memory → ℕ → ℕ → ℕ → Memory → Memory
copied ma pa pb n m i = if leb pb i && ltb i (pb + n) then ma (pa + (i - pb)) else m i

length-load : (m : Memory) (n a : ℕ) → length (load m n a) ≡ n
length-load m zero a = refl
length-load m (suc n) a = ap suc (length-load m n (suc a))

get_or-load : (m : Memory) (n a j : ℕ) → j < n → get_or (load m n a) j 0 ≡ m (a + j)
get_or-load m zero a j h = absurd (omega arith)
get_or-load m (suc n) a zero h = let e : a ≡ a + 0 = omega arith in ap m e
get_or-load m (suc n) a (suc j) h =
    let e : suc a + j ≡ a + suc j = omega arith in
    get_or-load m n (suc a) j (omega (arith, h)) ∙ ap m e

store-load : (ma m : Memory) (pa pb n : ℕ) → store m pb (load ma n pa) ≡ copied ma pa pb n m
store-load ma m pa pb n =
    fun_ext λ i. ground (arith, length-load ma n pa, get_or-load ma n pa (i - pb))

copied-store :
    (ma m : Memory) (pa pb k n : ℕ)
    → k ≤ n
    → copied ma (pa + k) (pb + k) (n - k) (store m pb (load ma k pa)) ≡ copied ma pa pb n m
copied-store ma m pa pb k n h = fun_ext λ i. ground (
  arith,
  length-load ma k pa,
  get_or-load ma k pa (i - pb),
  ap ma {x = pa + k + (i - (pb + k))} {y = pa + (i - pb)},
)

-- A bot in the middle of a transfer, on the one side and on the other.
abbrev pub sending : Bot → ℕ → ℕ → ℕ → Bot
sending a peer place size = record a {
  block = some place;
  payload_size = size;
  active_transfer = peer;
}

abbrev pub receiving : Bot → ℕ → ℕ → ℕ → ℕ → Bot
receiving b peer place f size = record b {
  block = some place;
  callback = some f;
  payload_size = size;
  active_transfer = peer;
}

abbrev data_packet : Bot → ℕ → List ℕ → Packet
data_packet a last bytes = record {
  subcommand = cmd_payload;
  from = a.address;
  data_l = last;
  data_r = 0;
  payload = bytes;
}

abbrev pub all : List ℕ → List ℕ
all l = l

module _ (a b : Bot) (pa pb f : ℕ) where
  ack_more :
      (r : ℕ)
      → 32 ≤ r
      → r < 32768
      → receive all (ack b window 0) (sending a b.address pa r)
        ≡ (sending a b.address (pa + 32) (r - 32), some (data_packet a 0 (load a.memory 32 pa)))
  unfolding receive handle_payload_ack send_window
  ack_more r h k =
      let e : (r + 65504) % 65536 ≡ r - 32 = omega arith in
      let l : leb 32768 (r - 32) ≡ false = ground arith in
      let s : (b.address == b.address) ≡ true = ground arith in rw (e, l, s) refl

  ack_last :
      (r : ℕ)
      → r < 32
      → receive all (ack b window 0) (sending a b.address pa r)
        ≡ (sending a b.address (pa + r) 0, some (data_packet a 1 (load a.memory r pa)))
  unfolding receive handle_payload_ack send_window
  ack_last r h =
      let l : leb 32768 ((r + 65504) % 65536) ≡ true = ground arith in
      let n : (32 + (r + 65504) % 65536) % 256 ≡ r = omega arith in
      let s : (b.address == b.address) ≡ true = ground arith in rw (l, n, s) refl

  ack_done : receive all (ack b 0 2) (sending a b.address pa 0) ≡ (ended a 65534, none)
  unfolding receive handle_payload_ack
  ack_done = let s : (b.address == b.address) ≡ true = ground arith in rw s refl

  data_more :
      (s : ℕ) (bytes : List ℕ)
      → receive all (data_packet a 0 bytes) (receiving b a.address pb f s) ≡ (
        receiving (record b { memory = store b.memory pb bytes }) a.address (pb + length bytes) f s,
        some (ack b window 0),
      )
  unfolding receive handle_payload_data receive_bytes
  data_more s bytes =
      let x : (a.address == a.address) ≡ true = ground arith in
      let l : (length bytes == length bytes) ≡ true = ground arith in rw (x, l) refl

  data_last :
      (s : ℕ) (bytes : List ℕ)
      → receive all (data_packet a 1 bytes) (receiving b a.address pb f s) ≡ (
        ended (record b { memory = store b.memory pb bytes; called = f ∷ b.called }) 0,
        some (ack b 0 2),
      )
  unfolding receive handle_payload_data receive_bytes run_callback
  data_last s bytes =
      let x : (a.address == a.address) ≡ true = ground arith in
      let l : (length bytes == length bytes) ≡ true = ground arith in rw (x, l) refl

-- One turn of the sender's loop.
wait-suc :
    (fuel : ℕ) (a b : Bot) (p : Packet) {a' b' : Bot} {q : Packet} {next : Option Packet}
    → a.payload_size < 32768
    → receive all p b ≡ (b', some q)
    → receive all q a ≡ (a', next)
    → wait all (suc fuel) a b (some p) ≡ wait all fuel a' b' next
unfolding wait
wait-suc fuel a b p {a' = a'} {next = next} h e g =
    let l : leb 32768 a.payload_size ≡ false = ground arith in
    rw (l, e, g) (ap (λ z. wait all fuel a' z.0 next) e)

wait-ended :
    (fuel : ℕ) (a b : Bot) → wait all (suc fuel) (ended a 65534) b none ≡ some (0, ended a 65534, b)
unfolding wait
wait-ended fuel a b = refl

-- The receiver when all `r` bytes have come.
abbrev pub delivered : Bot → Bot → ℕ → ℕ → ℕ → ℕ → Bot
delivered a b pa pb f r =
    ended (record b { memory = copied a.memory pa pb r b.memory; called = f ∷ b.called }) 0

-- The loop from an acknowledgement on, when less than `32 * suc k` bytes are left.
abbrev after_ack : ℕ → Bot → Bot → ℕ → ℕ → ℕ → ℕ → ℕ → Option (ℕ × Bot × Bot)
after_ack fuel a b pa pb f r s =
    let r = receive all (ack b window 0) (sending a b.address pa r) in
    wait all fuel r.0 (receiving b a.address pb f s) r.1

after_ack_more :
    (fuel : ℕ) (a b : Bot) (pa pb f r s : ℕ)
    → 32 ≤ r
    → r < 32768
    → after_ack (suc fuel) a b pa pb f r s
      ≡ after_ack fuel a
          (record b { memory = store b.memory pb (load a.memory 32 pa) })
          (pa + 32)
          (pb + 32)
          f
          (r - 32)
          s
after_ack_more fuel a b pa pb f r s h l =
    let bytes = load a.memory 32 pa in
    let n : pb + length bytes ≡ pb + 32 = ap (λ z. pb + z) (length-load a.memory 32 pa) in
    let b' = record b { memory = store b.memory pb bytes } in
    rw (ack_more a b pa pb f r h l) (
      wait-suc fuel (sending a b.address (pa + 32) (r - 32)) (receiving b a.address pb f s)
        (data_packet a 0 bytes) (omega (arith, l))
        (data_more a b pa pb f s bytes
          ∙ ap (λ z. (receiving b' a.address z f s, some (ack b window 0))) n)
        refl)

after_ack_last :
    (fuel : ℕ) (a b : Bot) (pa pb f r s : ℕ)
    → r < 32
    → after_ack (suc (suc fuel)) a b pa pb f r s ≡ some (0, ended a 65534, delivered a b pa pb f r)
after_ack_last fuel a b pa pb f r s lt = rw (ack_last a b pa pb f r lt) (
    wait-suc (suc fuel) (sending a b.address (pa + r) 0) (receiving b a.address pb f s)
      (data_packet a 1 (load a.memory r pa)) (omega arith)
      (data_last a b pa pb f s (load a.memory r pa)) (ack_done a b (pa + r) pb f)
    ∙ wait-ended fuel a _
    ∙ ap (λ z. some (0, ended a 65534, ended (record b { memory = z; called = f ∷ b.called }) 0))
        (store-load a.memory b.memory pa pb r))

after_ack_lem :
    (k fuel : ℕ) (a b : Bot) (pa pb f r s : ℕ)
    → r < 32 * suc k
    → r < 32768
    → k + 2 ≤ fuel
    → after_ack fuel a b pa pb f r s ≡ some (0, ended a 65534, delivered a b pa pb f r)
after_ack_lem k zero a b pa pb f r s h l m = absurd (omega arith)
after_ack_lem k (suc zero) a b pa pb f r s h l m = absurd (omega arith)
after_ack_lem zero (suc (suc fuel)) a b pa pb f r s h l m =
    after_ack_last fuel a b pa pb f r s (omega arith)
after_ack_lem (suc k) (suc (suc fuel)) a b pa pb f r s h l m = elim (dec_lt r 32) [
  | yes lt ↦ after_ack_last fuel a b pa pb f r s lt
  | no ge ↦
      let b' = record b { memory = store b.memory pb (load a.memory 32 pa) } in
      after_ack_more (suc fuel) a b pa pb f r s (omega (arith, ge)) l
      ∙ after_ack_lem k (suc fuel) a b' (pa + 32) (pb + 32) f (r - 32) s (omega (arith, h))
          (omega (arith, l)) (omega (arith, m))
      ∙ ap (λ z. some (0, ended a 65534, ended (record b { memory = z; called = f ∷ b.called }) 0))
          (copied-store a.memory b.memory pa pb 32 r (omega (arith, ge)))
]

-- The request of a transfer, as it goes to the other bot.
abbrev request : Bot → ℕ → ℕ → Packet
request a type size = record {
  subcommand = cmd_req;
  from = a.address;
  data_l = size;
  data_r = type;
  payload = [];
}

-- A bot that stands, with a block for data of the type.
pub record Accepts (b : Bot) (type size f place : ℕ) : Type 0 where
  pub limit : ℕ
  pub mapping :
      get_elem? b.mappings (type % 256)
      ≡ some (record { function = f; block = some place; size = limit })
  pub fits : size ≤ limit
  pub small : limit < 32768
  pub left_stands : b.v_left ≡ 0
  pub right_stands : b.v_right ≡ 0

Accepts-receive :
    {b : Bot} {type size f place : ℕ} (a : Bot)
    → Accepts b type size f place
    → receive all (request a type size) b
      ≡ (receiving b a.address place f size, some (ack b window 0))
unfolding receive handle_payload_request answer_request refuses
Accepts-receive {b = b} {size = size} a c =
    let t : ltb ((c.limit + 32768) % 65536) ((size + 32768) % 65536) ≡ false =
      ground (arith, c.fits, c.small) in
    rw (c.mapping, t, c.left_stands, c.right_stands) refl

request_lem :
    (fuel : ℕ) (type place size : ℕ) (a b : Bot)
    → b.address ≢ a.address
    → bot_2_bot_send_payload_request all fuel b.address type place size a b
      ≡ wait all fuel (sending a b.address place size) b (some (request a type size))
unfolding bot_2_bot_send_payload_request
request_lem fuel type place size a b ne =
    let t : (b.address == a.address) ≡ false = ground (arith, ne) in rw t refl

-- Data for another bot that stands and has a block for it that is large enough, over a connection that
-- delivers all bytes: the transfer ends, after at most size / 32 + 3 turns of the sender's loop. It
-- answers 0, the other bot's block holds the bytes, its memory is otherwise as before, the callback of
-- the data's type has run once, and on neither bot a transfer is active any more.
pub send_payload_request-delivered :
    (fuel : ℕ) (type place size : ℕ) (a b : Bot) {f target : ℕ}
    → b.address ≢ a.address
    → Accepts b type size f target
    → size / 32 + 3 ≤ fuel
    → bot_2_bot_send_payload_request all fuel b.address type place size a b
      ≡ some (0, ended a 65534, delivered a b place target f size)
send_payload_request-delivered zero type place size a b ne c h = absurd (omega arith)
send_payload_request-delivered (suc fuel) type place size a b {f} {target} ne c h =
    request_lem (suc fuel) type place size a b ne
    ∙ wait-suc fuel (sending a b.address place size) b (request a type size)
        (omega (arith, c.fits, c.small)) (Accepts-receive a c) refl
    ∙ after_ack_lem (size / 32) fuel a b place target f size size (omega arith)
        (omega (arith, c.fits, c.small)) (omega (arith, h))

refused_request :
    (a b : Bot) (type size : ℕ) {m : Mapping}
    → get_elem? b.mappings (type % 256) ≡ some m
    → refuses b m size ≡ true
    → receive all (request a type size) b ≡ (record b { payload_size = 0 }, some (ack b 0 1))
unfolding receive handle_payload_request answer_request
refused_request a b type size e r = rw (e, r) refl

ack_refused :
    (a b : Bot) (place size : ℕ)
    → receive all (ack b 0 1) (sending a b.address place size) ≡ (ended a 65535, none)
unfolding receive handle_payload_ack
ack_refused a b place size = let s : (b.address == b.address) ≡ true = ground arith in rw s refl

wait-refused :
    (fuel : ℕ) (a b : Bot)
    → wait all (suc fuel) (ended a 65535) b none ≡ some (251, ended a 65535, b)
unfolding wait
wait-refused fuel a b = refl

-- Data that the other bot refuses, as it has no block for it, or one that is too small, or as it moves:
-- the sender's call ends with -5 after two turns of its loop, no transfer is active on the sender, and
-- the other bot's memory is as before.
pub send_payload_request-refused :
    (fuel : ℕ) (type place size : ℕ) (a b : Bot) {m : Mapping}
    → b.address ≢ a.address
    → get_elem? b.mappings (type % 256) ≡ some m
    → refuses b m size ≡ true
    → size < 32768
    → 2 ≤ fuel
    → bot_2_bot_send_payload_request all fuel b.address type place size a b
      ≡ some (251, ended a 65535, record b { payload_size = 0 })
send_payload_request-refused zero type place size a b ne e r l h = absurd (omega arith)
send_payload_request-refused (suc zero) type place size a b ne e r l h = absurd (omega arith)
send_payload_request-refused (suc (suc fuel)) type place size a b ne e r l h =
    request_lem (suc (suc fuel)) type place size a b ne
    ∙ wait-suc (suc fuel) (sending a b.address place size) b (request a type size) l
        (refused_request a b type size e r) (ack_refused a b place size)
    ∙ wait-refused fuel a _

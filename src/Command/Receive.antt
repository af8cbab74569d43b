-- ===== src/Command/Receive.antt =====
-- `command_read` on the bytes of a frame that come in with others, in pieces.
use ct_bot.Base.{
  ◌*◌, ℕ, zero, suc, ◌+◌, ◌-◌, ◌≤◌, ◌≡◌, ◌≢◌, refl, ap, sym, ◌∙◌, true, false, Option, some, List,
  [], ◌∷◌, ◌++◌, map, arith, length, take, drop, ◌==◌, All, get_or, append-nil, append_assoc,
  length-append, drop-length-append, Bool-cases, inl, inr, ltb,
}
use ct_bot.Command.{
  Command, Result, bytes_of, command_of, find_start, collect, missing, byte_at, accept, is_for,
  command_read, read_frame, cmd_startcode, cmd_stopcode, command_size,
}
use ct_bot.Command.Frame.{Fits, command_of-bytes_of, length-bytes_of, find_start-append}

abbrev pub joined : List (List ℕ) → List ℕ
joined [] = []
joined (c ∷ cs) = c ++ joined cs

pub take_all : (n : ℕ) (xs : List ℕ) → length xs ≤ n → take n xs ≡ xs
take_all zero [] h = refl
take_all zero (x ∷ xs) h = absurd (omega arith)
take_all (suc n) [] h = refl
take_all (suc n) (x ∷ xs) h = ap (λ l. x ∷ l) (take_all n xs (omega arith))

empty : (xs : List ℕ) → length xs ≡ 0 → xs ≡ []
empty [] h = refl
empty (x ∷ xs) h = absurd (omega arith)

-- The missing bytes are collected in whatever pieces they come.
collect-joined :
    (start : ℕ) (received : List ℕ) (chunks : List (List ℕ))
    → length (received ++ joined chunks) ≡ start + command_size
    → collect start received (map (λ c. some c) chunks) ≡ some (received ++ joined chunks)
unfolding collect
collect-joined start received [] h = ground (arith, append-nil received)
collect-joined start received (c ∷ cs) h =
    let n = length-append received (c ++ joined cs) in
    let k = length-append c (joined cs) in
    elim (Bool-cases (missing start received == 0)) [
      | inl full ↦ rw full (
          ap some (
            sym (
              ap (λ l. received ++ l) (empty (c ++ joined cs) (ground (arith, n)))
              ∙ append-nil received)))
      | inr more ↦ rw (
        more,
        take_all (missing start received) c (omega (arith, n, k)),
        collect-joined start (received ++ c) cs
            (ap length (append_assoc received c (joined cs)) ∙ h),
        append_assoc received c (joined cs),
      )
    ]

pub command_read_lem :
    (address : ℕ) (stack : List ℕ) (old : Command) (bytes : List ℕ) (later : List (Option (List ℕ)))
    → command_read address stack old (record { first = some bytes; later = later })
      ≡ read_frame address stack old
          (take command_size bytes)
          (find_start (take command_size bytes))
          later
unfolding command_read
command_read_lem address stack old bytes later = refl

module _ (address : ℕ) (stack : List ℕ) (old c : Command) (junk head : List ℕ)
    (chunks : List (List ℕ)) where
  -- A frame to this bot whose fields fit is read as the command that it is, behind any bytes that are no
  -- start code, and in any pieces of which the first, of at most 12 bytes with those before the frame, has
  -- the start code.
  pub command_read-bytes_of :
      Fits c
      → c.crc ≡ cmd_stopcode
      → is_for address c ≡ true
      → All (λ b. b ≢ cmd_startcode) junk
      → bytes_of c ≡ (cmd_startcode ∷ head) ++ joined chunks
      → length (junk ++ (cmd_startcode ∷ head)) ≤ command_size
      → command_read address stack old (record {
        first = some (junk ++ (cmd_startcode ∷ head));
        later = map (λ x. some x) chunks;
      })
        ≡ (Result.ok, c)
  command_read-bytes_of fits stop mine clean whole short =
      rw
        (
          command_read_lem address stack old first (map (λ x. some x) chunks),
          take_all command_size first short,
          find_start-append junk head clean,
        )
        assembled
    where
      first : List ℕ
      first = junk ++ (cmd_startcode ∷ head)

      n : length first ≡ length junk + suc (length head)
      n = length-append junk (cmd_startcode ∷ head)

      at_junk : (js : List ℕ) → get_or (js ++ (cmd_startcode ∷ head)) (length js) 0 ≡ cmd_startcode
      at_junk [] = refl
      at_junk (j ∷ js) = at_junk js

      here : (byte_at stack first (length junk) == cmd_startcode) ≡ true
      here = ground (arith, n, at_junk junk)

      room : ltb (2 * command_size - length junk) command_size ≡ false
      room = ground (arith, n, short)

      together : first ++ joined chunks ≡ junk ++ bytes_of c
      together =
          append_assoc junk (cmd_startcode ∷ head) (joined chunks) ∙ ap (λ l. junk ++ l) (sym whole)

      total : length (first ++ joined chunks) ≡ length junk + command_size
      total = omega (arith, ap length together, length-append junk (bytes_of c), length-bytes_of c)

      frame : take command_size (drop (length junk) (first ++ joined chunks)) ≡ bytes_of c
      frame =
          ap (λ l. take command_size (drop (length junk) l)) together
          ∙ ap (take command_size) (drop-length-append junk (bytes_of c))
          ∙ take_all command_size (bytes_of c) (omega (arith, length-bytes_of c))

      accepted : accept address old (command_of (bytes_of c)) ≡ (Result.ok, c)
      accepted =
          ap (accept address old) (command_of-bytes_of c fits) ∙ (unfold accept in rw (stop, mine))

      assembled :
          read_frame address stack old first (length junk) (map (λ x. some x) chunks)
          ≡ (Result.ok, c)
      assembled =
          unfold read_frame in
          rw (here, room, collect-joined (length junk) first chunks total, frame) accepted

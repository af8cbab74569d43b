-- ===== src/Command/Loop.antt =====
-- The commands that `command_read` lets pass.
use ct_bot.Base.{
  ℕ, zero, suc, ◌*◌, ◌-◌, ◌<◌, ◌≡◌, ◌≢◌, refl, ap, sym, ◌∙◌, true, false, Option, none, some, List,
  [], ◌∷◌, ◌++◌, arith, length, take, drop, ◌==◌, ==_iff, get_or, length-append, Bool-cases,
  Option-cases, inl, inr, ltb,
}
use ct_bot.Command.{
  Command, Result, Input, command_of, find_start, collect, missing, byte_at, accept, is_for,
  command_read, read_frame, cmd_startcode, cmd_stopcode, command_size,
}

get_or-append : (xs ys : List ℕ) (i : ℕ) → i < length xs → get_or (xs ++ ys) i 0 ≡ get_or xs i 0
get_or-append [] ys i h = absurd (omega arith)
get_or-append (x ∷ xs) ys zero h = refl
get_or-append (x ∷ xs) ys (suc i) h = get_or-append xs ys i (omega arith)

get_or-drop : (i : ℕ) (xs : List ℕ) → get_or (take 12 (drop i xs)) 0 0 ≡ get_or xs i 0
get_or-drop zero [] = refl
get_or-drop zero (x ∷ xs) = refl
get_or-drop (suc i) [] = refl
get_or-drop (suc i) (x ∷ xs) = get_or-drop i xs

-- What was received stays in the buffer.
collect_keeps :
    (start : ℕ) (received : List ℕ) (later : List (Option (List ℕ))) (all : List ℕ) (i : ℕ)
    → i < length received
    → collect start received later ≡ some all
    → get_or all i 0 ≡ get_or received i 0
unfolding collect
collect_keeps start received [] all i h e = ground (arith, h, e)
collect_keeps start received (none ∷ later) all i h e = ground (arith, h, e)
collect_keeps start received (some bytes ∷ later) all i h e =
    elim (Bool-cases (missing start received == 0)) [
      | inl full ↦ ground (arith, full, e)
      | inr more ↦
          collect_keeps start (received ++ take (missing start received) bytes) later all i
            (omega (arith, length-append received (take (missing start received) bytes)))
            (ground (arith, more, e))
          ∙ get_or-append received (take (missing start received) bytes) i h
    ]

not_ok : {k : ℕ} → Result.error k ≡ Result.ok → ⊥
not_ok h = cc

accept_bad :
    (address : ℕ) (old c : Command)
    → (c.crc == cmd_stopcode) ≡ false
    → accept address old c ≡ (Result.error 6, old)
unfolding accept
accept_bad address old c bad = rw bad

accept_other :
    (address : ℕ) (old c : Command)
    → (c.crc == cmd_stopcode) ≡ true
    → is_for address c ≡ false
    → accept address old c ≡ (Result.error 10, old)
unfolding accept
accept_other address old c stop other = rw (stop, other)

accept_mine :
    (address : ℕ) (old c : Command)
    → (c.crc == cmd_stopcode) ≡ true
    → is_for address c ≡ true
    → accept address old c ≡ (Result.ok, c)
unfolding accept
accept_mine address old c stop mine = rw (stop, mine)

accept-ok :
    (address : ℕ) (old c : Command)
    → (accept address old c).0 ≡ Result.ok
    → (c.crc ≡ cmd_stopcode) × (is_for address c ≡ true) × ((accept address old c).1 ≡ c)
accept-ok address old c e = elim (Bool-cases (c.crc == cmd_stopcode)) [
  | inl stop ↦ elim (Bool-cases (is_for address c)) [
    | inl mine ↦ (
      (==_iff c.crc cmd_stopcode).0 stop,
      mine,
      ap (λ r. r.1) (accept_mine address old c stop mine),
    )
    | inr other ↦
        absurd (not_ok {k = 10} (ap (λ r. r.0) (sym (accept_other address old c stop other)) ∙ e))
  ]
  | inr bad ↦ absurd (not_ok {k = 6} (ap (λ r. r.0) (sym (accept_bad address old c bad)) ∙ e))
]

start_code-command_of : (b : List ℕ) → (command_of b).start_code ≡ get_or b 0 0
unfolding command_of
start_code-command_of b = refl

module _ (address : ℕ) (stack : List ℕ) (old : Command) where
  abbrev Genuine : Command → Type 0
  Genuine c = (c.start_code ≡ cmd_startcode) × (c.crc ≡ cmd_stopcode) × (is_for address c ≡ true)

  read_frame-ok :
      (received : List ℕ) (start : ℕ) (later : List (Option (List ℕ)))
      → ((i : ℕ) → get_or stack i 0 ≢ cmd_startcode)
      → (read_frame address stack old received start later).0 ≡ Result.ok
      → Genuine (read_frame address stack old received start later).1
  read_frame-ok received start later clean e =
      elim (Bool-cases (byte_at stack received start == cmd_startcode)) [
        | inl here ↦ elim (Bool-cases (ltb (2 * command_size - start) command_size)) [
          | inl tight ↦ absurd (refused {k = 3} (unfold read_frame in rw (here, tight)))
          | inr roomy ↦ elim (Option-cases (collect start received later)) [
            | inl late ↦ absurd (refused {k = 4} (unfold read_frame in rw (here, roomy, late)))
            | inr (all, q) ↦
                let c = command_of (take command_size (drop start all)) in
                let eq : read_frame address stack old received start later ≡ accept address old c =
                  unfold read_frame in rw (here, roomy, q) in
                let (stop, mine, same) = accept-ok address old c (ap (λ r. r.0) (sym eq) ∙ e) in
                rw (eq, same)
                  (
                    start_code-command_of (take command_size (drop start all))
                        ∙ get_or-drop start all
                        ∙ collect_keeps start received later all start (inside here) q
                        ∙ ground (arith, inside here),
                    stop,
                    mine,
                  )
          ]
        ]
        | inr none_here ↦ absurd (refused {k = 2} (unfold read_frame in rw none_here))
      ]
    where
      refused :
          {k : ℕ} → read_frame address stack old received start later ≡ (Result.error k, old) → ⊥
      refused {k = k} q = not_ok {k = k} (ap (λ r. r.0) (sym q) ∙ e)

      inside : (byte_at stack received start == cmd_startcode) ≡ true → start < length received
      inside here = ground (arith, clean start)

  -- A command that `command_read` lets pass has a start code, if none is left on the stack below the
  -- buffer, and a stop code, and it is for this bot or a command to log in.
  pub command_read-ok :
      (input : Input)
      → ((i : ℕ) → get_or stack i 0 ≢ cmd_startcode)
      → (command_read address stack old input).0 ≡ Result.ok
      → let c = (command_read address stack old input).1 in
        (c.start_code ≡ cmd_startcode) × (c.crc ≡ cmd_stopcode) × (is_for address c ≡ true)
  unfolding command_read
  command_read-ok input clean e = elim (Option-cases (input.first)) [
    | inl failed ↦ absurd (not_ok {k = 1} (ground (arith, failed, e)))
    | inr (bytes, f) ↦
        let received = take command_size bytes in
        let eq : command_read address stack old input
            ≡ read_frame address stack old received (find_start received) input.later =
          rw (f, command_read) in
        rw eq (
          read_frame-ok received (find_start received) input.later clean
            (ap (λ r. r.0) (sym eq) ∙ e))
  ]

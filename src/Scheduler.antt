-- ===== src/Scheduler.antt =====
-- mcu/os_scheduler.c, mcu/os_thread.c and include/os_thread.h: threads with fixed priorities, the first in
-- the table the highest, and the signals on which they wait. A thread is its index in the table, and
-- a signal its address. The switch of the stacks is assembly and leaves no trace here but
-- `os_thread_running`. Without the options for statistics and the kernel's log.
pub mod Search
pub mod Choice
mod Tests
use ct_bot.Base.{
  ℕ, zero, suc, ◌+◌, ◌-◌, ◌*◌, ◌%◌, ◌^◌, Bool, true, false, ◌&&◌, Option, none, some, List, [], ◌∷◌,
  ltb, leb, ◌==◌, if◌then◌else◌, get_elem?, modify, take, length,
}

-- `Tcb_t`; no stack means that the entry is free.
pub record Thread : Type 0 where
  pub stack : Option ℕ
  pub next_schedule : ℕ
  pub last_schedule : ℕ
  pub wait_for : ℕ

-- The globals: `allowed` is `os_scheduling_allowed`, `signals` the value of each signal.
pub record Os : Type 0 where
  pub threads : List Thread
  pub running : ℕ
  pub allowed : ℕ
  pub signals : ℕ → ℕ

abbrev pub is_used : Option ℕ → Bool
is_used none = false
is_used (some p) = true

abbrev pub is_ready : (ℕ → ℕ) → ℕ → Thread → Bool
is_ready signals tickcount t =
    is_used t.stack && (signals t.wait_for == 0) && leb t.next_schedule tickcount

abbrev pub next_index : Option ℕ → Option ℕ
next_index none = none
next_index (some i) = some (suc i)

-- The search for the first thread that is not blocked.
unfoldable pub first_ready : (ℕ → ℕ) → ℕ → List Thread → Option ℕ
first_ready signals tickcount [] = none
first_ready signals tickcount (t ∷ ts) =
    if is_ready signals tickcount t then some 0 else next_index (first_ready signals tickcount ts)

-- `os_switch_thread`, and the note of the time before it.
abbrev pub switch_thread : ℕ → Os → Option ℕ → Os
switch_thread tickcount s none = s
switch_thread tickcount s (some i) = if i == s.running then s else record s {
  threads = modify s.threads i (λ t. record t { last_schedule = tickcount % 2 ^ 16 });
  running = i;
}

-- The body of the loop of `os_schedule`. The search counts from `os_scheduling_allowed` on, but begins
-- at the first entry, so that it leaves out as many entries at the end of the table.
unfoldable pub schedule_round : ℕ → Os → Os
unfolding first_ready
schedule_round tickcount s =
    let searched = take (length s.threads - s.allowed) s.threads in
    switch_thread tickcount s (first_ready s.signals tickcount searched)

-- The loop, with the mutex taken. `asked` is an interrupt behind the search that asks for the scheduler:
-- the signals as it leaves them. The repetition that it causes runs with the mutex free again; an
-- interrupt in the middle of a search, or in the repetition, is not modelled.
unfoldable pub schedule_rounds : Option (ℕ → ℕ) → ℕ → Os → Os
unfolding schedule_round
schedule_rounds none tickcount s = record (schedule_round tickcount s) { allowed = 1 }
schedule_rounds (some signals) tickcount s =
    record (schedule_round tickcount
      (record (schedule_round tickcount s) { signals = signals; allowed = 1 })) { allowed = 1 }

-- `os_schedule` is not reentrant.
unfoldable pub os_schedule : Option (ℕ → ℕ) → ℕ → Os → Os
unfolding schedule_rounds
os_schedule asked tickcount s =
    if s.allowed == 1
    then schedule_rounds asked tickcount (record s { allowed = 0 })
    else record s { allowed = 2 }

-- `os_exitCS`
unfoldable pub os_exit_cs : ℕ → Os → Os
unfolding os_schedule
os_exit_cs now s =
    let s' = record s { allowed = 1 } in if s.allowed == 2 then os_schedule none now s' else s'

abbrev pub sleep_until : ℕ → Os → Os
sleep_until time s = record s {
  threads = modify s.threads s.running (λ t. record t { next_schedule = time % 2 ^ 32 });
}

abbrev pub runtime_of : ℕ → Option Thread → ℕ
runtime_of now none = 0
runtime_of now (some t) = (now + 2 ^ 16 - t.last_schedule) % 2 ^ 16

-- `os_thread_yield` with a time slice of `slice` ticks.
pub os_thread_yield : (slice : ℕ) → (now : ℕ) → Os → Os
unfolding os_schedule
os_thread_yield slice now s =
    let runtime = runtime_of now (get_elem? s.threads s.running) in
    if ltb slice runtime
    then record s {
      threads = modify s.threads s.running (λ t. record t { last_schedule = now % 2 ^ 16 });
      allowed = 1;
    }
    else os_schedule none now (record (sleep_until (now + (slice - runtime)) s) { allowed = 1 })

-- `os_thread_sleep_ticks`
pub os_thread_sleep_ticks : ℕ → ℕ → Os → Os
unfolding os_schedule
os_thread_sleep_ticks ticks now s =
    if ticks == 0 then s else os_schedule none now (sleep_until (now + ticks) s)

-- `os_signal_lock`, `os_signal_set`, `os_signal_release` and `os_signal_unlock`.
unfoldable pub os_signal_lock : ℕ → Os → Os
os_signal_lock signal s = record s { signals = λ a. if a == signal then 1 else s.signals a }

abbrev pub wait_on : ℕ → Os → Os
wait_on signal s = record s {
  threads = modify s.threads s.running (λ t. record t { wait_for = signal });
}

unfoldable pub os_signal_set : ℕ → ℕ → Os → Os
unfolding os_schedule
os_signal_set now signal s = os_schedule none now (wait_on signal s)

pub os_signal_release : (dummy_signal : ℕ) → Os → Os
os_signal_release dummy_signal s = wait_on dummy_signal s

unfoldable pub os_signal_unlock : ℕ → ℕ → Os → Os
unfolding os_schedule
os_signal_unlock now signal s =
    os_schedule none now (record s { signals = λ a. if a == signal then 0 else s.signals a })

-- `os_create_thread`, from the first free entry of the table on: its answer, and the stack pointer that
-- it notes. The four bytes that it pushes and the context take OS_CONTEXT_SIZE + 4 bytes.
abbrev pub os_context_size : ℕ
os_context_size = 19

unfoldable pub first_free : List Thread → Option ℕ
first_free [] = none
first_free (t ∷ ts) = if is_used t.stack then next_index (first_free ts) else some 0

pub os_create_thread : (dummy_signal : ℕ) → Os → (stack : ℕ) → (ip : Option ℕ) → Option ℕ × Os
unfolding first_free
os_create_thread dummy_signal s stack ip = elim (first_free s.threads) [
  | none ↦ (none, record s { allowed = 1 })
  | some i ↦
      let entry : ℕ → Thread → Thread = λ p t. record {
        stack = some p;
        next_schedule = 0;
        last_schedule = 0;
        wait_for = dummy_signal;
      } in
      elim ip [
        | none ↦ (
          some i,
          record s { threads = modify s.threads i (entry stack); running = i; allowed = 1 },
        )
        | some f ↦ (
          some i,
          record s {
            threads = modify s.threads i (entry (stack - (4 + os_context_size)));
            allowed = 1;
          },
        )
      ]
]

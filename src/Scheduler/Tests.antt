-- ===== src/Scheduler/Tests.antt =====
-- Runs of the scheduler on three threads.
use ct_bot.Base.{ℕ, ◌≡◌, ◌≢◌, refl, some, [], ◌∷◌, arith, ◌==◌, if◌then◌else◌}
use ct_bot.Scheduler.{
  Thread, Os, first_ready, schedule_round, schedule_rounds, os_schedule, os_signal_set,
}
use ct_bot.Scheduler.Choice.{os_signal_set_lem}

abbrev thread : ℕ → ℕ → Thread
thread signal next = record {
  stack = some 900;
  next_schedule = next;
  last_schedule = 0;
  wait_for = signal;
}

-- Signal 50 is locked; the second thread sleeps, and the last one is idle.
abbrev three : Os
three = record {
  threads = thread 0 0 ∷ thread 0 100 ∷ thread 0 0 ∷ [];
  running = 0;
  allowed = 1;
  signals = λ a. if a == 50 then 1 else 0;
}

-- An interrupt unlocks signal 50 behind the search.
abbrev unlocked : ℕ → ℕ
unlocked a = 0

-- The last thread can run only with signal 50 unlocked: the repetition passes it over.
abbrev last_waits : Os
last_waits = record three { threads = thread 0 100 ∷ thread 0 100 ∷ thread 50 0 ∷ [] }

last_passed_over : (os_schedule (some unlocked) 40 last_waits).running ≡ 0
unfolding os_schedule schedule_rounds schedule_round first_ready
last_passed_over = refl

os_signal_set_lem_example : (os_signal_set 40 50 three).running ≢ three.running
os_signal_set_lem_example =
    os_signal_set_lem 40 50 2 three refl (λ e. omega (arith, e)) (λ e. omega arith)
      (thread 0 0, refl, refl)

-- ===== src/Fifo/Tests.antt =====
-- Runs of the queue of fifo.c on a storage of three bytes.
use ct_bot.Base.{ℕ, ◌≡◌, refl, true, false, List, [], ◌∷◌, arith}
use ct_bot.Fifo.{Fifo, init}
use ct_bot.Fifo.Single.{IsValid, contents, init-IsValid}
use ct_bot.Fifo.Queue.{Call, Proper, calls, run}
use ct_bot.Fifo.Refine.{AllProper, fifo_calls_refine}

abbrev storage : List ℕ
storage = 0 ∷ 0 ∷ 0 ∷ []

abbrev queue : Fifo
queue = init storage 3

queue-IsValid : IsValid queue
queue-IsValid = (init-IsValid storage 3 (omega arith) (omega arith) (omega arith)).0

-- Bytes 2, 1 and 9, with the write pointer behind the end of the storage.
abbrev wrapped : Fifo
wrapped = record {
  count = 2;
  size = 3;
  buffer = 1 ∷ 9 ∷ 2 ∷ [];
  pread = 2;
  pwrite = 1;
  read2end = 1;
  write2end = 2;
  overflow = 0;
  locked = 0;
  written = 5;
  signal = 0;
}

wrapped-IsValid : IsValid wrapped
wrapped-IsValid = ground arith

abbrev script : List Call
script =
    Call.puts 5
    ∷ Call.puts_data (7 ∷ 8 ∷ []) 2 false
    ∷ Call.puts 9
    ∷ Call.gets
    ∷ Call.puts_data (4 ∷ []) 1 true
    ∷ Call.gets_data 3
    ∷ Call.gets
    ∷ []

script-AllProper : AllProper script
script-AllProper = (
  Proper.puts 5,
  (
    Proper.puts_data (7 ∷ 8 ∷ []) 2 false (omega arith) (omega arith),
    (
      Proper.puts 9,
      (
        Proper.gets,
        (
          Proper.puts_data (4 ∷ []) 1 true (omega arith) (omega arith),
          (Proper.gets_data 3, (Proper.gets, tt)),
        ),
      ),
    ),
  ),
)

fifo_calls_refine_example : calls queue script ≡ run queue.size (contents queue) script
unfolding init
fifo_calls_refine_example = fifo_calls_refine script queue-IsValid refl script-AllProper

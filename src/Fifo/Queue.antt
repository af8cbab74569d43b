-- ===== src/Fifo/Queue.antt =====
-- What fifo.c promises: a bounded queue of bytes, oldest first, with the replies of each call.
use ct_bot.Base.{
  ℕ, ◌-◌, ◌≤◌, ◌<◌, Bool, List, [], ◌∷◌, ◌++◌, ltb, ◌==◌, if◌then◌else◌, length, take, drop,
}
use ct_bot.Fifo.{Fifo, Outcome, done, waiting, clip, put, get, put_data, get_data}

-- A thread's calls; `source` and `count` are the bytes and the length of a block.
pub data Call : Type 0 where
  puts : ℕ → Call
  gets : Call
  puts_data : List ℕ → ℕ → Bool → Call
  gets_data : ℕ → Call

pub data Reply : Type 0 where
  stored : Reply
  byte : Outcome ℕ → Reply
  code : Outcome ℕ → Reply
  block : Outcome (ℕ × List ℕ) → Reply

-- The length of a block is a uint8_t, and its bytes are there.
pub data Proper : Call → Type 0 where
  puts : (x : ℕ) → Proper (Call.puts x)
  gets : Proper Call.gets
  puts_data :
      (s : List ℕ) (n : ℕ) (wait : Bool) → n ≤ length s → n < 256 → Proper (Call.puts_data s n wait)
  gets_data : (n : ℕ) → Proper (Call.gets_data n)

abbrev pub Queue : Type 0
Queue = List ℕ

abbrev pub front : Queue → Reply × Queue
front [] = (byte waiting, [])
front (x ∷ q) = (byte (done x), q)

module _ (size : ℕ) where
  unfoldable pub step : Queue → Call → Reply × Queue
  step q (Call.puts x) = (stored, if length q == size then q else q ++ (x ∷ []))
  step q Call.gets = front q
  step q (Call.puts_data source n wait) =
      if n == 0
      then (code (done 1), q)
      else if ltb (size - length q) n
      then (code (done 2), q)
      else (code (done 0), q ++ take n source)
  step q (Call.gets_data n) =
      let l = clip n in
      if l == 0
      then (block (done (0, [])), q)
      else if ltb (length q) l
      then (block waiting, q)
      else (block (done (l, take l q)), drop l q)

  unfoldable pub run : Queue → List Call → List Reply
  run q [] = []
  run q (c ∷ cs) = let (r, q') = step q c in r ∷ run q' cs

-- The same calls made of a `fifo_t`.
unfoldable pub call : Fifo → Call → Reply × Fifo
call f (Call.puts x) = (stored, put f x)
call f Call.gets = let (r, f') = get f Bool.false in (byte r, f')
call f (Call.puts_data source n wait) = let (r, f') = put_data f source n wait in (code r, f')
call f (Call.gets_data n) = let (r, f') = get_data f n in (block r, f')

unfoldable pub calls : Fifo → List Call → List Reply
calls f [] = []
calls f (c ∷ cs) = let (r, f') = call f c in r ∷ calls f' cs

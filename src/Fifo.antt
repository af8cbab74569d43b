-- ===== src/Fifo.antt =====
-- fifo.c and include/fifo.h: the byte queue between an interrupt or a thread that produces and one
-- that consumes. `buffer` is the storage, `pread` and `pwrite` are offsets into it, and every
-- uint8_t keeps its wrap at 256. The model is of the build with OS_AVAILABLE and
-- FIFO_STATS_ENABLED (the defaults): a call that would block its thread answers `waiting` with the
-- state it leaves behind, and is made anew when the thread is woken.
pub mod Single
pub mod Rounds
pub mod Block
pub mod Queue
pub mod Refine
mod Tests
use ct_bot.Base.{
  ℕ, zero, suc, ◌+◌, ◌-◌, ◌%◌, ◌^◌, Bool, true, false, not, ◌&&◌, List, [], ◌∷◌, ◌++◌, ltb, leb,
  ◌==◌, if◌then◌else◌, get_or, set,
}

-- `fifo_t`; `signal` is the value of the signal on which a consumer waits (1: locked).
pub record Fifo : Type 0 where
  pub count : ℕ
  pub size : ℕ
  pub buffer : List ℕ
  pub pread : ℕ
  pub pwrite : ℕ
  pub read2end : ℕ
  pub write2end : ℕ
  pub overflow : ℕ
  pub locked : ℕ
  pub written : ℕ
  pub signal : ℕ

pub data Outcome {ℓ} (A : Type ℓ) : Type ℓ where
  done : A → Outcome A
  waiting : Outcome A

unfoldable pub init : List ℕ → ℕ → Fifo
init buffer size = record {
  count = 0;
  size = size;
  buffer = buffer;
  pread = 0;
  pwrite = 0;
  read2end = size;
  write2end = size;
  overflow = 0;
  locked = 0;
  written = 0;
  signal = 0;
}

-- `_inline_fifo_put`. Both values of `isr` make the same changes; they differ in the interrupt
-- lock around them and in the call of the scheduler.
pub put : Fifo → ℕ → Fifo
put f byte =
    let write2end = (f.write2end + 255) % 256 in
    if f.count == f.size then record f { overflow = 1; signal = 0 } else record f {
      count = (f.count + 1) % 256;
      buffer = set f.buffer f.pwrite byte;
      pwrite = if write2end == 0 then f.pwrite + 1 - f.size else f.pwrite + 1;
      write2end = if write2end == 0 then f.size else write2end;
      written = (f.written + 1) % 2 ^ 32;
      signal = 0;
    }

-- What `_inline_fifo_get` does once it does not wait.
pub take_byte : Fifo → ℕ × Fifo
take_byte f =
    let read2end = (f.read2end + 255) % 256 in
    (
      get_or f.buffer f.pread 0,
      record f {
        count = (f.count + 255) % 256;
        pread = if read2end == 0 then f.pread + 1 - f.size else f.pread + 1;
        read2end = if read2end == 0 then f.size else read2end;
      },
    )

-- `_inline_fifo_get`. A thread waits on an empty queue, an interrupt routine does not.
pub get : Fifo → Bool → Outcome ℕ × Fifo
unfolding take_byte
get f isr =
    if not isr && (f.count == 0)
    then (waiting, record f { signal = 1 })
    else let (byte, f') = take_byte f in (done byte, f')

-- The locals of the copying loops: the buffer's pointer, the bytes up to the buffer's end, the
-- length of the next run, and the source or destination behind what is copied.
pub record Cursor : Type 0 where
  pub buffer : List ℕ
  pub pointer : ℕ
  pub to_end : ℕ
  pub run : ℕ
  pub bytes : List ℕ

abbrev pub tail : List ℕ → List ℕ
tail [] = []
tail (x ∷ xs) = xs

-- `for (i = 0; i < n; ++i) *(pwrite++) = *(src++)`
pub copy_in : ℕ → Cursor → Cursor
copy_in zero c = c
copy_in (suc n) c = copy_in n (record c {
  buffer = set c.buffer c.pointer (get_or c.bytes 0 0);
  pointer = c.pointer + 1;
  bytes = tail c.bytes;
})

-- What ends a round of `for (j = 0; j < 2; ++j)`: back to the start at the end of the buffer, and
-- the length of the second run.
pub end_round : ℕ → ℕ → ℕ → Cursor → Cursor
end_round size length n c =
    let to_end = (c.to_end + 256 - n) % 256 in
    record c {
      pointer = if to_end == 0 then c.pointer - size else c.pointer;
      to_end = if to_end == 0 then size else to_end;
      run = (length + 256 - n) % 256;
    }

-- `for (i = 0; i < n; ++i) *(dest++) = *(pread++)`
pub copy_out : ℕ → Cursor → Cursor
copy_out zero c = c
copy_out (suc n) c =
    copy_out n
      (record c { pointer = c.pointer + 1; bytes = c.bytes ++ (get_or c.buffer c.pointer 0 ∷ []) })

pub write_round : ℕ → ℕ → Cursor → Cursor
unfolding copy_in end_round
write_round size length c = end_round size length c.run (copy_in c.run c)

pub read_round : ℕ → ℕ → Cursor → Cursor
unfolding copy_out end_round
read_round size length c = end_round size length c.run (copy_out c.run c)

-- The part of `fifo_put_data` behind the test for space.
pub write_data : Fifo → List ℕ → ℕ → Fifo
unfolding write_round
write_data f source length =
    let start : Cursor = record {
      buffer = f.buffer;
      pointer = f.pwrite;
      to_end = f.write2end;
      run = if ltb f.write2end length then f.write2end else length;
      bytes = source;
    } in
    let end = write_round f.size length (write_round f.size length start) in
    record f {
      buffer = end.buffer;
      write2end = end.to_end;
      pwrite = end.pointer;
      written = (f.written + length) % 2 ^ 32;
      count = (f.count + length) % 256;
      signal = 0;
    }

-- `fifo_put_data` with its error codes. Without the space nothing is copied; a call with `block`
-- spins for as long as a consumer holds `locked`. The statements of the source behind this
-- `return 2` are never reached.
pub put_data : Fifo → List ℕ → ℕ → Bool → Outcome ℕ × Fifo
unfolding write_data
put_data f source length block =
    if length == 0
    then (done 1, f)
    else if ltb ((f.size + 256 - f.count) % 256) length
    then (if block && not (f.locked == 0) then waiting else done 2, record f { overflow = 1 })
    else (done 0, write_data f source length)

-- The part of `fifo_get_data` behind the wait; `locked` is set before it and cleared at its end.
pub read_data : Fifo → ℕ → List ℕ × Fifo
unfolding read_round
read_data f l =
    let start : Cursor = record {
      buffer = f.buffer;
      pointer = f.pread;
      to_end = f.read2end;
      run = if ltb f.read2end l then f.read2end else l;
      bytes = [];
    } in
    let end = read_round f.size l (read_round f.size l start) in
    (
      end.bytes,
      record f {
        pread = end.pointer;
        read2end = end.to_end;
        count = (f.count + 256 - l) % 256;
        locked = 0;
      },
    )

-- An int16_t as its bit pattern: `(uint8_t) (length <= 255 ? length : 255)`.
abbrev pub clip : ℕ → ℕ
clip length = if ltb length (2 ^ 15) then (if leb length 255 then length else 255) else length % 256

-- `fifo_get_data`: the bytes and their number, or a wait until enough bytes are there.
pub get_data : Fifo → ℕ → Outcome (ℕ × List ℕ) × Fifo
unfolding read_data
get_data f length =
    let l = clip length in
    if l == 0
    then (done (0, []), f)
    else if ltb f.count l
    then (waiting, record f { signal = 1 })
    else let (bytes, f') = read_data f l in (done (l, bytes), f')

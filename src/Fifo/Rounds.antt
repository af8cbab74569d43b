-- ===== src/Fifo/Rounds.antt =====
-- The copying loops of `fifo_put_data` and `fifo_get_data`, in closed form: two rounds, one up to the
-- end of the buffer and one from its start.
use ct_bot.Base.{
  ℕ, zero, suc, ◌+◌, ◌-◌, ◌%◌, ◌^◌, ◌≤◌, ◌<◌, ◌≡◌, refl, sym, ap₂, append-nil, List, [], ◌∷◌, ◌++◌,
  arith, ap, ◌∙◌, length, length-drop, get_or, set, drop, wrap, if◌then◌else◌, blit, run_of, ltb,
  append_assoc,
}
use ct_bot.Fifo.{
  Fifo, Cursor, tail, copy_in, copy_out, end_round, write_round, read_round, write_data, read_data,
}
use ct_bot.Fifo.Single.{IsValid}

drop-tail : (n : ℕ) (xs : List ℕ) → drop n (tail xs) ≡ drop (suc n) xs
drop-tail zero [] = refl
drop-tail (suc n) [] = refl
drop-tail n (x ∷ xs) = refl

copy_in_lem :
    (n : ℕ) (c : Cursor)
    → n ≤ length c.bytes
    → copy_in n c ≡ record c {
      buffer = blit n c.buffer c.pointer c.bytes;
      pointer = c.pointer + n;
      bytes = drop n c.bytes;
    }
unfolding copy_in
copy_in_lem n c h = go n c.buffer c.pointer c.to_end c.run c.bytes h
  where
    cursor : List ℕ → ℕ → ℕ → ℕ → List ℕ → Cursor
    cursor b p e r xs = record { buffer = b; pointer = p; to_end = e; run = r; bytes = xs }

    go :
        (n : ℕ) (b : List ℕ) (p e r : ℕ) (xs : List ℕ)
        → n ≤ length xs
        → copy_in n (cursor b p e r xs) ≡ cursor (blit n b p xs) (p + n) e r (drop n xs)
    go zero b p e r xs h = ap (λ q. cursor b q e r xs) (omega arith)
    go (suc n) b p e r [] h = absurd (omega arith)
    go (suc n) b p e r (x ∷ xs) h =
        go n (set b p x) (p + 1) e r xs (omega arith)
        ∙ ap (λ q. cursor (blit n (set b p x) (p + 1) xs) q e r (drop n xs)) (omega arith)

copy_out_lem :
    (n : ℕ) (c : Cursor)
    → copy_out n c
      ≡ record c { pointer = c.pointer + n; bytes = c.bytes ++ run_of 0 c.buffer c.pointer n }
unfolding copy_out
copy_out_lem zero c =
    ap₂ (λ p b. record c { pointer = p; bytes = b }) {x = c.pointer} {y = c.pointer + 0}
      (omega arith) (sym (append-nil c.bytes))
copy_out_lem (suc n) c =
    copy_out_lem n
      (record c { pointer = c.pointer + 1; bytes = c.bytes ++ (get_or c.buffer c.pointer 0 ∷ []) })
    ∙ ap₂ (λ p b. record c { pointer = p; bytes = b }) {x = c.pointer + 1 + n}
        {y = c.pointer + suc n} (omega arith)
        (append_assoc c.bytes (get_or c.buffer c.pointer 0 ∷ [])
          (run_of 0 c.buffer (c.pointer + 1) n))

-- A cursor behind the bytes up to the end of the ring, and a run that stays within them.
record Fits (size length : ℕ) (c : Cursor) : Type 0 where
  ends : c.pointer + c.to_end ≡ size
  inside : 0 < c.to_end
  small : size < 256
  run_in : c.run ≤ c.to_end
  run_le : c.run ≤ length
  length_in : length ≤ size

-- A round copies its run and leaves the cursor on the ring.
write_round_lem :
    (size n : ℕ) (c : Cursor)
    → Fits size n c
    → c.run ≤ length c.bytes
    → write_round size n c ≡ record c {
      buffer = blit c.run c.buffer c.pointer c.bytes;
      pointer = wrap size (c.pointer + c.run);
      to_end = size - wrap size (c.pointer + c.run);
      run = n - c.run;
      bytes = drop c.run c.bytes;
    }
unfolding write_round end_round
write_round_lem size n c v h = ap (end_round size n c.run) (copy_in_lem c.run c h) ∙ ground arith

read_round_lem :
    (size n : ℕ) (c : Cursor)
    → Fits size n c
    → read_round size n c ≡ record c {
      pointer = wrap size (c.pointer + c.run);
      to_end = size - wrap size (c.pointer + c.run);
      run = n - c.run;
      bytes = c.bytes ++ run_of 0 c.buffer c.pointer c.run;
    }
unfolding read_round end_round
read_round_lem size n c v = ap (end_round size n c.run) (copy_out_lem c.run c) ∙ ground arith

abbrev pub first : ℕ → ℕ → ℕ
first to_end n = if ltb to_end n then to_end else n

pub first-le : (to_end n : ℕ) → first to_end n ≤ n
first-le to_end n = ground arith

-- `fifo_put_data` with enough space, in closed form.
pub write_data_lem :
    (f : Fifo) (source : List ℕ) (n : ℕ)
    → IsValid f
    → 0 < n
    → f.count + n ≤ f.size
    → n ≤ length source
    → let a = first f.write2end n in
      write_data f source n ≡ record f {
        buffer =
            blit
              (n - a)
              (blit a f.buffer f.pwrite source)
              (wrap f.size (f.pwrite + a))
              (drop a source);
        write2end = f.size - wrap f.size (f.pwrite + n);
        pwrite = wrap f.size (f.pwrite + n);
        written = (f.written + n) % 2 ^ 32;
        count = f.count + n;
        signal = 0;
      }
unfolding write_data
write_data_lem f source n v h space enough =
    ap (λ c. finish (write_round f.size n c))
      (write_round_lem f.size n start (ground arith) (ground arith))
    ∙ ap finish
        (write_round_lem f.size n (middle) (ground arith) (ground (arith, length-drop a source)))
    ∙ ground arith
  where
    a : ℕ
    a = first f.write2end n

    start : Cursor
    start = record {
      buffer = f.buffer;
      pointer = f.pwrite;
      to_end = f.write2end;
      run = a;
      bytes = source;
    }

    middle : Cursor
    middle = record {
      buffer = blit a f.buffer f.pwrite source;
      pointer = wrap f.size (f.pwrite + a);
      to_end = f.size - wrap f.size (f.pwrite + a);
      run = n - a;
      bytes = drop a source;
    }

    finish : Cursor → Fifo
    finish end = record f {
      buffer = end.buffer;
      write2end = end.to_end;
      pwrite = end.pointer;
      written = (f.written + n) % 2 ^ 32;
      count = (f.count + n) % 256;
      signal = 0;
    }

-- `fifo_get_data` with enough bytes, in closed form.
pub read_data_lem :
    (f : Fifo) (n : ℕ)
    → IsValid f
    → 0 < n
    → n ≤ f.count
    → let a = first f.read2end n in
      read_data f n ≡ (
        run_of 0 f.buffer f.pread a ++ run_of 0 f.buffer (wrap f.size (f.pread + a)) (n - a),
        record f {
          pread = wrap f.size (f.pread + n);
          read2end = f.size - wrap f.size (f.pread + n);
          count = f.count - n;
          locked = 0;
        },
      )
unfolding read_data
read_data_lem f n v h enough =
    ap (λ c. finish (read_round f.size n c)) (read_round_lem f.size n start (ground arith))
    ∙ ap finish (read_round_lem f.size n middle (ground arith))
    ∙ ground arith
  where
    a : ℕ
    a = first f.read2end n

    start : Cursor
    start = record {
      buffer = f.buffer;
      pointer = f.pread;
      to_end = f.read2end;
      run = a;
      bytes = [];
    }

    middle : Cursor
    middle = record {
      buffer = f.buffer;
      pointer = wrap f.size (f.pread + a);
      to_end = f.size - wrap f.size (f.pread + a);
      run = n - a;
      bytes = run_of 0 f.buffer f.pread a;
    }

    finish : Cursor → List ℕ × Fifo
    finish end = (
      end.bytes,
      record f {
        pread = end.pointer;
        read2end = end.to_end;
        count = (f.count + 256 - n) % 256;
        locked = 0;
      },
    )

-- ===== src/Fifo/Refine.antt =====
-- The calls of a `fifo_t` beside those of the bounded queue of its bytes.
use ct_bot.Base.{
  ℕ, ◌-◌, ◌≤◌, ◌<◌, ◌≡◌, refl, ap, window, ℕ_discrete, inl, inr, Bool, false, List, [], ◌∷◌, arith,
  length, ltb, ◌==◌, Bool-cases, length-window, take-drop_of_append,
}
use ct_bot.Fifo.{Fifo, clip, put, get, put_data, get_data}
use ct_bot.Fifo.Single.{IsValid, contents, put-IsValid, contents-put, get-IsValid, contents-get}
use ct_bot.Fifo.Block.{write_data-contents, read_data-contents}
use ct_bot.Fifo.Queue.{Call, Proper, step, run, call, calls, stored}

pub length-contents : (f : Fifo) → length (contents f) ≡ f.count
length-contents f = length-window 0 f.buffer f.size f.pread f.count

-- What one call does, held against the queue.
pub record Agrees (f : Fifo) (c : Call) : Type 0 where
  pub valid : IsValid (call f c).1
  pub unlocked : (call f c).1.locked ≡ 0
  pub same_size : (call f c).1.size ≡ f.size
  pub reply : ((call f c).0, contents (call f c).1) ≡ step f.size (contents f) c

module _ {f : Fifo} (v : IsValid f) (u : f.locked ≡ 0) where
  puts-Agrees : (x : ℕ) → Agrees f (Call.puts x)
  unfolding call step
  puts-Agrees x = record {
    valid = put-IsValid x v;
    unlocked = unfold put in ground arith;
    same_size = unfold put in ground arith;
    reply = ap (λ q. (stored, q)) (rw length-contents ((contents-put x v).0));
  }

  gets-Agrees : Agrees f Call.gets
  unfolding call step
  gets-Agrees = elim (ℕ_discrete f.count 0) [
    | yes e ↦ record {
      valid = unfold get in ground arith;
      unlocked = unfold get in ground arith;
      same_size = unfold get in ground arith;
      reply = unfold get in ground (arith, window_none e);
    }
    | no ne ↦
        let (x, e, q) = contents-get false v ne in
        record {
          valid = get-IsValid false v ne;
          unlocked = unfold get in ground arith;
          same_size = unfold get in ground arith;
          reply = rw (q, e);
        }
  ]
    where
      window_none : f.count ≡ 0 → contents f ≡ []
      window_none e = ap (window 0 f.buffer f.size f.pread) e

  puts_data-Agrees :
      (s : List ℕ) (n : ℕ) (wait : Bool)
      → n ≤ length s
      → n < 256
      → Agrees f (Call.puts_data s n wait)
  unfolding call step put_data
  puts_data-Agrees s n wait h k = elim (Bool-cases (n == 0)) [
    | inl e ↦ record {
      valid = ground arith;
      unlocked = ground arith;
      same_size = ground arith;
      reply = ground arith;
    }
    | inr ne ↦ elim (Bool-cases (ltb (f.size - f.count) n)) [
      | inl full ↦ record {
        valid = ground arith;
        unlocked = ground arith;
        same_size = ground arith;
        reply = ground (arith, length-contents f);
      }
      | inr room ↦
          let w = write_data-contents s n v (ground arith) (ground arith) h in
          record {
            valid = ground (arith, w.0);
            unlocked = ground (arith, w.2);
            same_size = ground (arith, w.3);
            reply = ground (arith, w.1, length-contents f);
          }
    ]
  ]

  gets_data-Agrees : (n : ℕ) → Agrees f (Call.gets_data n)
  unfolding call step get_data
  gets_data-Agrees n = elim (Bool-cases (clip n == 0)) [
    | inl e ↦ record {
      valid = ground arith;
      unlocked = ground arith;
      same_size = ground arith;
      reply = ground arith;
    }
    | inr ne ↦ elim (Bool-cases (ltb f.count (clip n))) [
      | inl short ↦ record {
        valid = ground arith;
        unlocked = ground arith;
        same_size = ground arith;
        reply = ground (arith, length-contents f);
      }
      | inr there ↦
          let r = read_data-contents (clip n) v (ground arith) (ground arith) in
          let cut = take-drop_of_append (clip n) _ _ (contents f) r.1 r.2 in
          record {
            valid = ground (arith, r.0);
            unlocked = ground (arith, r.4);
            same_size = ground (arith, r.3);
            reply = ground (arith, length-contents f, cut.0, cut.1);
          }
    ]
  ]

-- Every call of a thread answers as the bounded queue of the waiting bytes does, and leaves a valid
-- `fifo_t` that holds the queue's bytes.
pub call-Agrees : {f : Fifo} {c : Call} → IsValid f → f.locked ≡ 0 → Proper c → Agrees f c
call-Agrees v u (Proper.puts x) = puts-Agrees v u x
call-Agrees v u Proper.gets = gets-Agrees v u
call-Agrees v u (Proper.puts_data s n wait h k) = puts_data-Agrees v u s n wait h k
call-Agrees v u (Proper.gets_data n) = gets_data-Agrees v u n

abbrev pub AllProper : List Call → Type 0
AllProper [] = Unit {0}
AllProper (c ∷ cs) = Proper c × AllProper cs

-- No sequence of proper calls of a thread tells a valid `fifo_t` from the bounded queue of its
-- contents.
-- Every sequence of calls (a block's length below 256, its bytes there) on a valid queue that no
-- consumer has locked gets the replies that the bounded queue of its bytes gives.
pub fifo_calls_refine :
    (cs : List Call) {f : Fifo}
    → IsValid f
    → f.locked ≡ 0
    → AllProper cs
    → calls f cs ≡ run f.size (contents f) cs
unfolding calls run
fifo_calls_refine [] v u p = refl
fifo_calls_refine (c ∷ cs) {f} v u p =
    let a = call-Agrees v u p.0 in
    rw (fifo_calls_refine cs a.valid a.unlocked p.1, ← a.reply, a.same_size)

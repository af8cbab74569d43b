-- ===== src/PosStore/Refine.antt =====
-- The calls of a position store beside those of the bounded sequence of its positions.
use ct_bot.Base.{
  ℕ, ap, ◌+◌, ◌-◌, ◌≡◌, ◌≢◌, refl, some, List, [], ◌∷◌, arith, length, set, prev, window,
  length-window, get_elem?-eq-get_or, split_last-snoc, ℕ_discrete, dec_lt,
}
use ct_bot.PosStore.{Position, PosStore, origin, pop, dequeue, top, clear, is_empty}
use ct_bot.PosStore.Ring.{IsRing, contents}
use ct_bot.PosStore.Ends.{
  push_room, insert_room, pop-some, dequeue-some, top-some, pushed, inserted, popped, dequeued,
  full,
}
use ct_bot.PosStore.Deque.{Call, Proper, step, run, call, calls}

pub length-contents : (buf : List Position) (s : PosStore) → length (contents buf s) ≡ s.count
length-contents buf s = length-window origin buf (s.mask + 1) s.fp s.count

-- What one call does to a store, held against the sequence of its positions.
pub record Agrees (buf : List Position) (s : PosStore) (c : Call) : Type 0 where
  pub after : PosStore
  pub buf' : List Position
  pub left : (call (some s) c).1 ≡ some after
  pub valid : IsRing buf' after
  pub same_size : after.mask ≡ s.mask
  pub answer : ((call (some s) c).0, contents buf' after) ≡ step (s.mask + 1) (contents buf s) c

none_left : (buf : List Position) (s : PosStore) → s.count ≡ 0 → contents buf s ≡ []
none_left buf s e = ap (window origin buf (s.mask + 1) s.fp) e

module _ {buf : List Position} {s : PosStore} (v : IsRing buf s) where
  pushes-Agrees : (pos : Position) → Agrees buf s (Call.pushes pos)
  unfolding call step
  pushes-Agrees pos = elim (dec_lt s.mask s.count) [
    | yes over ↦ record {
      after = s;
      buf' = buf;
      left = ground (arith, (full v pos over).0);
      valid = v;
      same_size = refl;
      answer = ground (arith, (full v pos over).0, length-contents buf s);
    }
    | no room ↦
        let p = push_room v pos (omega arith) in
        record {
          after = pushed buf s pos;
          buf' = set buf s.sp pos;
          left = ground (arith, p.0);
          valid = p.1;
          same_size = refl;
          answer = ground (arith, p.0, p.2, length-contents buf s);
        }
  ]

  inserts-Agrees : (pos : Position) → Agrees buf s (Call.inserts pos)
  unfolding call step
  inserts-Agrees pos = elim (dec_lt s.mask s.count) [
    | yes over ↦ record {
      after = s;
      buf' = buf;
      left = ground (arith, (full v pos over).1);
      valid = v;
      same_size = refl;
      answer = ground (arith, (full v pos over).1, length-contents buf s);
    }
    | no room ↦
        let p = insert_room v pos (omega arith) in
        record {
          after = inserted buf s pos;
          buf' = set buf (prev (s.mask + 1) s.fp) pos;
          left = ground (arith, p.0);
          valid = p.1;
          same_size = refl;
          answer = ground (arith, p.0, p.2, length-contents buf s);
        }
  ]

  pops-Agrees : Agrees buf s Call.pops
  unfolding call step
  pops-Agrees = elim (ℕ_discrete s.count 0) [
    | yes e ↦ record {
      after = s;
      buf' = buf;
      left = unfold pop is_empty in ground arith;
      valid = v;
      same_size = refl;
      answer = unfold pop is_empty in rw (none_left buf s e) (ground arith);
    }
    | no ne ↦
        let p = pop-some v ne in
        record {
          after = popped s;
          buf' = buf;
          left = ground (arith, p.0);
          valid = p.1;
          same_size = refl;
          answer = rw (p.2, split_last-snoc, p.0);
        }
  ]

  dequeues-Agrees : Agrees buf s Call.dequeues
  unfolding call step
  dequeues-Agrees = elim (ℕ_discrete s.count 0) [
    | yes e ↦ record {
      after = s;
      buf' = buf;
      left = unfold dequeue is_empty in ground arith;
      valid = v;
      same_size = refl;
      answer = unfold dequeue is_empty in rw (none_left buf s e) (ground arith);
    }
    | no ne ↦
        let p = dequeue-some v ne in
        record {
          after = dequeued s;
          buf' = buf;
          left = ground (arith, p.0);
          valid = p.1;
          same_size = refl;
          answer = rw (p.2, p.0);
        }
  ]

  tops-Agrees : (index : ℕ) → index ≢ 0 → Agrees buf s (Call.tops index)
  unfolding call step
  tops-Agrees index ne = record {
    after = s;
    buf' = buf;
    left = refl;
    valid = v;
    same_size = refl;
    answer = elim (dec_lt s.count index) [
      | yes above ↦ unfold top in ground (arith, length-contents buf s)
      | no within ↦ ground (
        arith,
        length-contents buf s,
        top-some v index ne (omega arith),
        get_elem?-eq-get_or (contents buf s) (s.count - index) origin,
      )
    ];
  }

  clears-Agrees : Agrees buf s Call.clears
  unfolding call step clear
  clears-Agrees = record {
    after = clear s;
    buf' = buf;
    left = refl;
    valid = record {
      array = v.array;
      power = v.power;
      room = v.room;
      sp_in = omega arith;
      fp_in = omega arith;
      count_in = omega arith;
      distance = ground arith;
    };
    same_size = refl;
    answer = refl;
  }

-- Every operation answers as the bounded sequence of the stored positions does, and leaves a valid
-- store of the same size that holds the sequence's positions.
pub call-Agrees :
    {buf : List Position} {s : PosStore} (c : Call) → IsRing buf s → Proper c → Agrees buf s c
call-Agrees (Call.inserts pos) v p = inserts-Agrees v pos
call-Agrees (Call.pushes pos) v p = pushes-Agrees v pos
call-Agrees Call.pops v p = pops-Agrees v
call-Agrees Call.dequeues v p = dequeues-Agrees v
call-Agrees (Call.tops index) v p = tops-Agrees v index p
call-Agrees Call.clears v p = clears-Agrees v

abbrev pub AllProper : List Call → Type 0
AllProper [] = Unit {0}
AllProper (c ∷ cs) = Proper c × AllProper cs

-- Every sequence of calls, with the index of `top` counted from 1, on a valid store gets the replies
-- that the bounded two-ended sequence of its positions gives.
pub store_calls_refine :
    (cs : List Call) {buf : List Position} {s : PosStore}
    → IsRing buf s
    → AllProper cs
    → calls (some s) cs ≡ run (s.mask + 1) (contents buf s) cs
unfolding calls run
store_calls_refine [] v p = refl
store_calls_refine (c ∷ cs) {buf} {s} v p =
    let a = call-Agrees c v p.0 in
    rw (a.left, store_calls_refine cs a.valid p.1, ← a.answer, a.same_size)

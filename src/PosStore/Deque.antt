-- ===== src/PosStore/Deque.antt =====
-- What pos_store.c promises: a bounded sequence of positions with two ends.
use ct_bot.Base.{
  ℕ, ◌-◌, ◌≢◌, Bool, true, false, Option, none, some, List, [], ◌∷◌, ◌++◌, ltb, leb, if◌then◌else◌,
  length, get_elem?, split_last,
}
use ct_bot.PosStore.{Position, PosStore, insert, push, pop, dequeue, top, clear}

pub data Call : Type 0 where
  inserts : Position → Call
  pushes : Position → Call
  pops : Call
  dequeues : Call
  tops : ℕ → Call
  clears : Call

-- `pos_store_top` counts its index from 1.
abbrev pub Proper : Call → Type 0
Proper (Call.tops index) = index ≢ 0
Proper _ = Unit {0}

-- The returned flag (`clear` returns none), and the position that was written back.
pub record Reply : Type 0 where
  pub flag : Option Bool
  pub pos : Option Position

abbrev pub reply : Bool → Option Position → Reply
reply b p = record { flag = some b; pos = p }

abbrev pub Sequence : Type 0
Sequence = List Position

abbrev pub last : Sequence → Option (Position × Sequence) → Reply × Sequence
last q none = (reply false none, q)
last q (some (p, r)) = (reply true (some p), r)

abbrev pub first : Sequence → Reply × Sequence
first [] = (reply false none, [])
first (p ∷ q) = (reply true (some p), q)

module _ (size : ℕ) where
  unfoldable pub step : Sequence → Call → Reply × Sequence
  step q (Call.inserts p) =
      if ltb (length q) size then (reply true none, p ∷ q) else (reply false none, q)
  step q (Call.pushes p) =
      if ltb (length q) size then (reply true none, q ++ (p ∷ [])) else (reply false none, q)
  step q Call.pops = last q (split_last q)
  step q Call.dequeues = first q
  step q (Call.tops index) =
      if leb index (length q)
      then (reply true (get_elem? q (length q - index)), q)
      else (reply false none, q)
  step q Call.clears = (record { flag = none; pos = none }, [])

  unfoldable pub run : Sequence → List Call → List Reply
  run q [] = []
  run q (c ∷ cs) = let (r, q') = step q c in r ∷ run q' cs

-- The same calls made through a pointer to a store.
unfoldable pub call : Option PosStore → Call → Reply × Option PosStore
call s (Call.inserts p) = let (b, s') = insert s p in (reply b none, s')
call s (Call.pushes p) = let (b, s') = push s p in (reply b none, s')
call s Call.pops = let (b, p, s') = pop s in (reply b p, s')
call s Call.dequeues = let (b, p, s') = dequeue s in (reply b p, s')
call s (Call.tops index) = let (b, p) = top s index in (reply b p, s)
call none Call.clears = (record { flag = none; pos = none }, none)
call (some s) Call.clears = (record { flag = none; pos = none }, some (clear s))

unfoldable pub calls : Option PosStore → List Call → List Reply
calls s [] = []
calls s (c ∷ cs) = let (r, s') = call s c in r ∷ calls s' cs

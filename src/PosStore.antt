-- ===== src/PosStore.antt =====
-- pos_store.c and include/pos_store.h: the position stores of the behaviours, rings that serve as
-- stack and as queue. A behaviour is named by its address; the array `data` is held by value, and
-- `none` is NULL. sp, fp, count and mask are uint8_t (POS_STORE_SIZE is 64).
pub mod Mask
pub mod Ring
pub mod Ends
pub mod Deque
pub mod Refine
pub mod Slots
mod Tests
use ct_bot.Base.{
  ℕ, ◌+◌, ◌-◌, ◌%◌, Bool, true, false, ◌||◌, Option, none, some, List, ltb, ◌==◌, if◌then◌else◌,
  bit_and, get_or, set,
}

-- `position_t`, its coordinates as the bit patterns of int16_t; they are only moved.
pub record Position : Type 0 where
  pub x : ℕ
  pub y : ℕ

abbrev pub origin : Position
origin = record { x = 0; y = 0 }

-- `pos_store_t`
pub record PosStore : Type 0 where
  pub owner : Option ℕ
  pub buffer : Option (List Position)
  pub stat_data : ℕ
  pub sp : ℕ
  pub fp : ℕ
  pub count : ℕ
  pub mask : ℕ

-- The entry of `data` at an index, and a write to it, through a pointer that may be NULL: the
-- callers have ruled NULL out by `is_full`, or by an element that was stored before.
abbrev pub entry : PosStore → ℕ → Position
entry s i = elim (s.buffer) [ none ↦ origin | some b ↦ get_or b i origin ]

abbrev pub write_entry : PosStore → ℕ → Position → Option (List Position)
write_entry s i pos = elim (s.buffer) [ none ↦ none | some b ↦ some (set b i pos) ]

-- `pos_store_clear` of a store that is not NULL.
unfoldable pub clear : PosStore → PosStore
clear s = record s { sp = 0; fp = 0; count = 0 }

-- `is_empty` and `is_full`, NULL included.
unfoldable pub is_empty : Option PosStore → Bool
is_empty none = true
is_empty (some s) = s.count == 0

unfoldable pub is_full : Option PosStore → Bool
is_full none = true
is_full (some s) = elim (s.buffer) [ none ↦ true | some b ↦ ltb s.mask s.count ]

-- The operations below give the returned flag beside the new store; on NULL they return false.
pub insert : Option PosStore → Position → Bool × Option PosStore
unfolding is_full
insert none pos = (false, none)
insert (some s) pos =
    let fp = bit_and ((s.fp + 255) % 256) s.mask in
    if is_full (some s) then (false, some s) else (
      true,
      some (record s { buffer = write_entry s fp pos; fp = fp; count = (s.count + 1) % 256 }),
    )

unfoldable pub push : Option PosStore → Position → Bool × Option PosStore
unfolding is_full
push none pos = (false, none)
push (some s) pos = if is_full (some s) then (false, some s) else (
  true,
  some (record s {
    buffer = write_entry s s.sp pos;
    sp = bit_and ((s.sp + 1) % 256) s.mask;
    count = (s.count + 1) % 256;
  }),
)

-- The position is what goes through the pointer `pos`, which is not written on failure.
unfoldable pub pop : Option PosStore → Bool × Option Position × Option PosStore
unfolding is_empty
pop none = (false, none, none)
pop (some s) =
    let sp = bit_and ((s.sp + 255) % 256) s.mask in
    if is_empty (some s)
    then (false, none, some s)
    else (true, some (entry s sp), some (record s { count = (s.count + 255) % 256; sp = sp }))

unfoldable pub dequeue : Option PosStore → Bool × Option Position × Option PosStore
unfolding is_empty
dequeue none = (false, none, none)
dequeue (some s) = if is_empty (some s) then (false, none, some s) else (
  true,
  some (entry s s.fp),
  some (record s { count = (s.count + 255) % 256; fp = bit_and ((s.fp + 1) % 256) s.mask }),
)

unfoldable pub top : Option PosStore → ℕ → Bool × Option Position
top none index = (false, none)
top (some s) index =
    if ltb s.count index
    then (false, none)
    else (true, some (entry s (bit_and ((s.sp + 256 - index) % 256) s.mask)))

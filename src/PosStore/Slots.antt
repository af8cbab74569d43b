-- ===== src/PosStore/Slots.antt =====
-- pos_store.c: the array of SLOT_COUNT stores and their allocation. A pointer to a store is its
-- index. `malloc` is the allocator's answer for a number of entries, `none` for NULL; `free` only
-- ends a block's life and leaves no trace in the state.
pub mod Owners
pub mod Create
use ct_bot.Base.{
  ℕ, zero, suc, ◌+◌, ◌-◌, ◌%◌, Bool, true, false, not, Option, none, some, List, [], ◌∷◌, map, ltb,
  ◌==◌, if◌then◌else◌, same_ptr, bit_and, get_elem?, modify,
}
use ct_bot.PosStore.{Position, PosStore, clear}

abbrev pub pos_store_size : ℕ
pos_store_size = 64

abbrev pub next_index : Option ℕ → Option ℕ
next_index none = none
next_index (some i) = some (suc i)

-- `pos_store_from_beh`
unfoldable pub from_beh : List PosStore → Option ℕ → Option ℕ
from_beh [] owner = none
from_beh (s ∷ ss) owner = if same_ptr s.owner owner then some 0 else next_index (from_beh ss owner)

-- `pos_store_from_index` of an array of four stores.
pub from_index : List PosStore → ℕ → Option ℕ
from_index slots index = if ltb 3 index then none else some index

unfoldable pub released : PosStore → PosStore
released s =
    if s.stat_data == 0 then record s { owner = none; buffer = none } else record s { owner = none }

-- `pos_store_release`
unfoldable pub release : List PosStore → Option ℕ → List PosStore
unfolding released
release slots none = slots
release slots (some i) = modify slots i released

-- `pos_store_release_all`
pub release_all : List PosStore → List PosStore
unfolding released
release_all slots = map released slots

-- `pos_store_clear` through a pointer.
unfoldable pub clear_at : List PosStore → Option ℕ → List PosStore
clear_at slots none = slots
clear_at slots (some i) = modify slots i clear

-- A store that the owner has already is kept if it has the size, and given back if not. `mask + 1`
-- is compared as an int, so that no store fits the size 0.
unfoldable pub reuse : List PosStore → ℕ → Option ℕ → Option ℕ × List PosStore
unfolding release
reuse slots size none = (none, slots)
reuse slots size (some i) = elim (get_elem? slots i) [
  | none ↦ (none, slots)
  | some s ↦ if s.mask + 1 == size then (some i, slots) else (none, release slots (some i))
]

abbrev pub block_for :
    (ℕ → Option (List Position)) → Option (List Position) → ℕ → Option (List Position)
block_for malloc none size = malloc size
block_for malloc (some given) size = some given

abbrev pub stat_for : Option (List Position) → ℕ
stat_for none = 0
stat_for (some given) = 1

abbrev pub occupied :
    (ℕ → Option (List Position)) → ℕ → Option (List Position) → ℕ → PosStore → PosStore
occupied malloc owner given size s = record s {
  owner = some owner;
  buffer = block_for malloc given size;
  stat_data = stat_for given;
  mask = (size + 255) % 256;
}

-- The loop over the slots: the first without an owner is taken, and given back where there is no
-- memory for it.
unfoldable pub claim :
    (ℕ → Option (List Position))
    → List PosStore
    → ℕ
    → Option (List Position)
    → ℕ
    → Option ℕ
    → Option ℕ × List PosStore
unfolding release
claim malloc slots owner given size none = (none, slots)
claim malloc slots owner given size (some i) =
    let slots' = modify slots i (occupied malloc owner given size) in
    elim (block_for malloc given size) [
      | none ↦ (none, release slots' (some i))
      | some b ↦ (some i, slots')
    ]

abbrev pub store_for :
    (ℕ → Option (List Position))
    → ℕ
    → Option (List Position)
    → ℕ
    → Option ℕ × List PosStore
    → Option ℕ × List PosStore
store_for malloc owner given size (some i, slots) = (some i, slots)
store_for malloc owner given size (none, slots) =
    claim malloc slots owner given size (from_beh slots none)

-- `pos_store_create_size`
unfoldable pub create_size :
    (ℕ → Option (List Position))
    → List PosStore
    → Option ℕ
    → Option (List Position)
    → ℕ
    → Option ℕ × List PosStore
unfolding reuse claim from_beh clear_at
create_size malloc slots none given size = (none, slots)
create_size malloc slots (some owner) given size =
    if ltb pos_store_size size
    then (none, slots)
    else if not (bit_and size (size - 1) == 0)
    then (none, slots)
    else let (store, slots') =
        store_for malloc owner given size (reuse slots size (from_beh slots (some owner))) in
      (store, clear_at slots' store)

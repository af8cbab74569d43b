-- ===== src/PosStore/Tests.antt =====
-- Runs of the position stores on small rings.
use ct_bot.Base.{
  ℕ, ◌+◌, ◌≤◌, ◌≡◌, refl, Option, none, some, List, [], ◌∷◌, arith, get_elem?, length,
}
use ct_bot.PosStore.{Position, PosStore, origin}
use ct_bot.PosStore.Mask.{IsPower}
use ct_bot.PosStore.Ring.{IsRing, contents}
use ct_bot.PosStore.Deque.{Call, calls, run}
use ct_bot.PosStore.Refine.{AllProper, store_calls_refine}
use ct_bot.PosStore.Slots.{from_beh, create_size, reuse, claim, clear_at, block_for}
use ct_bot.PosStore.Slots.Owners.{IsValid}
use ct_bot.PosStore.Slots.Create.{Fresh, create_size-IsValid, create_size-Fresh}

abbrev point : ℕ → Position
point n = record { x = n; y = n }

abbrev pair : List Position
pair = origin ∷ origin ∷ []

-- A store of two entries, with one element at the end of the array.
abbrev ring : PosStore
ring = record {
  owner = some 40;
  buffer = some pair;
  stat_data = 1;
  sp = 0;
  fp = 1;
  count = 1;
  mask = 1;
}

two : IsPower 1
two = record { order = 1; order_in = omega arith; size = refl }

ring-IsRing : IsRing pair ring
ring-IsRing = record {
  array = refl;
  power = two;
  room = omega arith;
  sp_in = omega arith;
  fp_in = omega arith;
  count_in = omega arith;
  distance = ground arith;
}

abbrev script : List Call
script =
    Call.pushes (point 3)
    ∷ Call.pushes (point 4)
    ∷ Call.tops 2
    ∷ Call.dequeues
    ∷ Call.inserts (point 5)
    ∷ Call.pops
    ∷ Call.clears
    ∷ Call.pops
    ∷ []

script-AllProper : AllProper script
script-AllProper = (tt, (tt, ((λ e. omega arith), (tt, (tt, (tt, (tt, (tt, tt))))))))

store_calls_refine_example :
    calls (some ring) script ≡ run (ring.mask + 1) (contents pair ring) script
store_calls_refine_example = store_calls_refine script ring-IsRing script-AllProper

abbrev free_store : PosStore
free_store = record {
  owner = none;
  buffer = none;
  stat_data = 0;
  sp = 0;
  fp = 0;
  count = 0;
  mask = 0;
}

abbrev slots : List PosStore
slots = ring ∷ free_store ∷ []

slots-IsValid : IsValid slots
slots-IsValid = record {
  usable = ((λ h. (pair, ring-IsRing)), ((λ h. absurd (h refl)), tt));
  distinct = ((λ o e. ((λ h. cc), tt)), ((λ o e. tt), tt));
}

abbrev no_memory : ℕ → Option (List Position)
no_memory n = none

abbrev memory : ℕ → Option (List Position)
memory n = some pair

memory_enough : (b : List Position) → block_for memory none 2 ≡ some b → 2 ≤ length b
memory_enough b e = ground arith

found_40 : from_beh slots (some 40) ≡ some 0
unfolding from_beh
found_40 = refl

create_size-IsValid_example : IsValid (create_size memory slots (some 7) none 2).1
create_size-IsValid_example =
    create_size-IsValid memory 7 none 2 (omega arith) (omega arith) refl memory_enough slots
      slots-IsValid

created_1 : (create_size memory slots (some 7) none 2).0 ≡ some 1
unfolding create_size reuse claim from_beh clear_at
created_1 = refl

create_size-Fresh_example :
    (s : PosStore) × (get_elem? (create_size memory slots (some 7) none 2).1 1 ≡ some s)
    × Fresh 7 2 s
create_size-Fresh_example =
    create_size-Fresh memory 7 none 2 (omega arith) (omega arith) refl memory_enough slots 1
      slots-IsValid created_1

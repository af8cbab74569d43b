-- ===== src/BotLogic.antt =====
-- bot-logic/bot-logic.c and include/bot-logic/bot-logic.h: the list of behaviours in the order of
-- their priorities, the calls between them, and the choice of the speeds for the motors.
-- A behaviour is known by its address, which stands in the record; the model of the list `behaviour`
-- is the list of the records in the order of the `next` pointers. A write through a pointer to a
-- behaviour changes the record of that address.
pub mod Order
pub mod Calls
pub mod Emergency
pub mod Init
pub mod Behave
mod Tests
use ct_bot.Base.{
  ℕ, zero, suc, ◌+◌, ◌-◌, ◌%◌, ◌/◌, Bool, true, false, not, ◌&&◌, ◌||◌, Option, none, some, List,
  [], ◌∷◌, ltb, leb, ◌==◌, if◌then◌else◌, same_ptr,
}

-- `Behaviour_t`: `work` is the function pointer, `sub_result` has three bits.
pub record Behaviour : Type 0 where
  pub address : ℕ
  pub work : Option ℕ
  pub priority : ℕ
  pub caller : Option ℕ
  pub active : Bool
  pub sub_result : ℕ

abbrev pub subfail : ℕ
subfail = 0

abbrev pub subsuccess : ℕ
subsuccess = 1

abbrev pub subrunning : ℕ
subrunning = 2

abbrev pub subcancel : ℕ
subcancel = 3

abbrev pub subbackgr : ℕ
subbackgr = 4

-- `new_behaviour`; `address` is the answer of `malloc`.
unfoldable pub new_behaviour : Option ℕ → ℕ → Option ℕ → Bool → Option Behaviour
new_behaviour none priority work active = none
new_behaviour (some address) priority work active = some (record {
  address = address;
  work = work;
  priority = priority;
  caller = none;
  active = active;
  sub_result = subsuccess;
})

-- The loop of `insert_behaviour_to_list`, with `ptr` at the front of the list.
unfoldable pub insert_behind : Behaviour → List Behaviour → Behaviour → List Behaviour
insert_behind ptr [] behave = ptr ∷ behave ∷ []
insert_behind ptr (next ∷ rest) behave =
    let walked = ptr ∷ insert_behind next rest behave in
    if ltb next.priority behave.priority then ptr ∷ behave ∷ next ∷ rest else walked

-- `insert_behaviour_to_list`
unfoldable pub insert_behaviour_to_list : List Behaviour → Option Behaviour → List Behaviour
unfolding insert_behind
insert_behaviour_to_list list none = list
insert_behaviour_to_list [] (some behave) = behave ∷ []
insert_behaviour_to_list (ptr ∷ rest) (some behave) =
    if ltb ptr.priority behave.priority then behave ∷ ptr ∷ rest else insert_behind ptr rest behave

-- `get_behaviour` and `get_behaviour_from_prio`: the address of the first match.
unfoldable pub get_behaviour : List Behaviour → Option ℕ → Option ℕ
get_behaviour [] function = none
get_behaviour (job ∷ rest) function =
    if same_ptr job.work function then some job.address else get_behaviour rest function

unfoldable pub get_behaviour_from_prio : List Behaviour → ℕ → Option ℕ
get_behaviour_from_prio [] prio = none
get_behaviour_from_prio (job ∷ rest) prio =
    if job.priority == prio then some job.address else get_behaviour_from_prio rest prio

-- The record at an address, and a write through a pointer.
unfoldable pub at : List Behaviour → ℕ → Option Behaviour
at [] a = none
at (b ∷ bs) a = if b.address == a then some b else at bs a

unfoldable pub write : List Behaviour → Option ℕ → (Behaviour → Behaviour) → List Behaviour
write bs none f = bs
write [] (some a) f = []
write (b ∷ bs) (some a) f = (if b.address == a then f b else b) ∷ write bs (some a) f

-- `deactivate_behaviour`
pub deactivate_behaviour : List Behaviour → Option ℕ → List Behaviour
unfolding write
deactivate_behaviour bs beh = write bs beh (λ b. record b { active = false; caller = none })

abbrev pub active_at : Option Behaviour → Bool
active_at none = false
active_at (some b) = b.active

-- `behaviour_is_activated`
pub behaviour_is_activated : List Behaviour → Option ℕ → Bool
unfolding get_behaviour at
behaviour_is_activated bs function = elim (get_behaviour bs function) [
  | none ↦ false
  | some a ↦ active_at (at bs a)
]

-- ===== src/Bot2Bot/Bots.antt =====
-- The list of the known bots in bot-2-bot.c: add_bot_to_list, delete_bot_from_list,
-- get_next_available_bot and set_received_bot_state. The chain of entries is a list; `room` says
-- whether malloc finds memory for another entry.
use ct_bot.Base.{ℕ, ◌%◌, Bool, Option, none, some, List, [], ◌∷◌, ◌==◌, if◌then◌else◌}

pub record Entry : Type 0 where
  pub address : ℕ
  pub state : ℕ

abbrev pub available : ℕ
available = 0

abbrev pub busy : ℕ
busy = 1

abbrev pub gone : ℕ
gone = 2

abbrev pub behind : Entry → Option (List Entry) → Option (List Entry)
behind x none = none
behind x (some ys) = some (x ∷ ys)

-- The first entry that passes a test is replaced; none when there is none.
abbrev pub update_first : (Entry → Bool) → Entry → List Entry → Option (List Entry)
update_first test e [] = none
update_first test e (x ∷ xs) =
    let rest = update_first test e xs in if test x then some (e ∷ xs) else behind x rest

abbrev pub or_else : Option (List Entry) → List Entry → List Entry
or_else none bots = bots
or_else (some found) bots = found

abbrev pub append_entry : List Entry → Entry → List Entry
append_entry [] e = e ∷ []
append_entry (x ∷ xs) e = x ∷ append_entry xs e

abbrev pub with_address : ℕ → Entry → Bool
with_address a e = e.address == a

abbrev pub is_gone : Entry → Bool
is_gone e = e.state == gone

-- The entry of a bot: its own one is looked for first, then one of a bot that is gone, then one is
-- appended.
unfoldable pub enter_bot : (room : Bool) → Entry → List Entry → List Entry
enter_bot room e bots =
    or_else (update_first (with_address e.address) e bots)
      (or_else (update_first is_gone e bots) (if room then append_entry bots e else bots))

-- The new bot is told the own state: the address and the state of the command that is sent.
unfoldable pub add_bot_to_list :
    (room : Bool) → (my_state addr : ℕ) → List Entry → (ℕ × ℕ) × List Entry
add_bot_to_list room my_state addr bots =
    ((addr, my_state), enter_bot room (record { address = addr; state = available }) bots)

unfoldable pub delete_bot_from_list : ℕ → List Entry → List Entry
delete_bot_from_list addr [] = []
delete_bot_from_list addr (x ∷ xs) =
    (if x.address == addr then record x { state = gone } else x) ∷ delete_bot_from_list addr xs

-- The next available bot behind the entries that were looked at before.
unfoldable pub get_next_available_bot : List Entry → Option Entry
get_next_available_bot [] = none
get_next_available_bot (x ∷ xs) =
    let rest = get_next_available_bot xs in if x.state == available then some x else rest

-- The state that a bot has sent; a bot that is not in the list is added as an available one.
unfoldable pub set_received_bot_state :
    (room : Bool) → (my_state addr data_l : ℕ) → List Entry → Option (ℕ × ℕ) × List Entry
set_received_bot_state room my_state addr data_l bots =
    elim (update_first (with_address addr) (record { address = addr; state = data_l % 256 }) bots) [
      | some found ↦ (none, found)
      | none ↦
          let (greeting, added) = add_bot_to_list room my_state addr bots in (some greeting, added)
    ]

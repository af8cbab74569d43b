-- ===== src/Bot2Bot/States.antt =====
-- The states that the list of the known bots in bot-2-bot.c has for their addresses.
use ct_bot.Base.{
  ℕ, ap, ◌∙◌, ◌≡◌, ◌≢◌, refl, subst, ℕ_discrete, Bool, true, Option, none, some, List, [], ◌∷◌,
  arith, ◌==◌, if◌then◌else◌,
}
use ct_bot.Bot2Bot.Bots.{
  Entry, available, gone, append_entry, with_address, is_gone, add_bot_to_list,
}
use ct_bot.Bot2Bot.Known.{
  IsFresh, IsUnique, Updated, Entered, enter_bot-Entered, Entered-IsUnique, own_address,
}

-- The state that the list has for an address; a bot that is gone is not there.
abbrev pub present_of : ℕ → List Entry → Option ℕ
present_of a [] = none
present_of a (x ∷ xs) =
    let rest = present_of a xs in
    if x.address == a then (if x.state == gone then none else some x.state) else rest

-- That of a list where one bot has entered with a state.
abbrev pub with_bot : Entry → ℕ → Option ℕ → Option ℕ
with_bot e b before = if b == e.address then some e.state else before

present_of-IsFresh : (b : ℕ) (xs : List Entry) → IsFresh b xs → present_of b xs ≡ none
present_of-IsFresh b [] f = refl
present_of-IsFresh b (x ∷ xs) (n, ns) = ground (arith, present_of-IsFresh b xs ns)

-- The entry's state is not that of a bot that is gone.
module _ (e : Entry) (here_now : e.state ≢ gone) where
  own-present :
      (b : ℕ) {xs ys : List Entry}
      → Updated (with_address e.address) e xs ys
      → present_of b ys ≡ with_bot e b (present_of b xs)
  own-present b (Updated.here {x = x} t) = ground (arith, own_address e x t)
  own-present b (Updated.later {x = x} t d) = ground (arith, t, own-present b d)

  reused-present :
      (b : ℕ) {xs ys : List Entry}
      → Updated is_gone e xs ys
      → IsFresh e.address xs
      → IsUnique xs
      → present_of b ys ≡ with_bot e b (present_of b xs)
  reused-present b (Updated.here {x = x} {xs = xs} t) (n, ns) (f, u) =
      elim (ℕ_discrete x.address b) [
        | yes p ↦ ground (arith, t, p, n, present_of-IsFresh b xs (subst (λ a. IsFresh a xs) p f))
        | no ne ↦ ground (arith, t)
      ]
  reused-present b (Updated.later {x = x} t d) (n, ns) (f, u) =
      ground (arith, reused-present b d ns u)

  append-present :
      (b : ℕ) (xs : List Entry)
      → IsFresh e.address xs
      → present_of b (append_entry xs e) ≡ with_bot e b (present_of b xs)
  append-present b [] f = ground arith
  append-present b (x ∷ xs) (n, ns) = ground (arith, append-present b xs ns)

  Entered-present :
      (b : ℕ) {xs ys : List Entry}
      → IsUnique xs
      → Entered e true xs ys
      → present_of b ys ≡ with_bot e b (present_of b xs)
  Entered-present b u (Entered.own d) = own-present b d
  Entered-present b u (Entered.reused f d) = reused-present b d f u
  Entered-present b {xs} u (Entered.appended f r q) = ap (present_of b) q ∙ append-present b xs f
  Entered-present b u (Entered.no_room f r q) = absurd (cc)

-- Adding a bot, with or without memory for another entry, keeps the list free of second entries for
-- one address.
pub add_bot_to_list-IsUnique :
    (room : Bool) (my_state addr : ℕ) (bots : List Entry)
    → IsUnique bots
    → IsUnique (add_bot_to_list room my_state addr bots).1
unfolding add_bot_to_list
add_bot_to_list-IsUnique room my_state addr bots u =
    let e : Entry = record { address = addr; state = available } in
    Entered-IsUnique e (enter_bot-Entered e room bots) u

-- Adding a bot to a list without second entries, with memory for another entry: the list then has the
-- bot as an available one, and for every other address it has what it had before, no bot or one that is
-- gone being the same.
pub add_bot_to_list-present_of :
    (my_state addr b : ℕ) (bots : List Entry)
    → IsUnique bots
    → present_of b (add_bot_to_list true my_state addr bots).1
      ≡ (if b == addr then some available else present_of b bots)
unfolding add_bot_to_list
add_bot_to_list-present_of my_state addr b bots u =
    let e : Entry = record { address = addr; state = available } in
    Entered-present e (λ h. omega (arith, h)) b u (enter_bot-Entered e true bots)

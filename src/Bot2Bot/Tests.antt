-- ===== src/Bot2Bot/Tests.antt =====
-- Examples: two bots with the blocks of the payload tables, and lists of known bots.
use ct_bot.Base.{◌%◌, ◌≡◌, ◌≢◌, refl, true, none, some, List, [], ◌∷◌, arith}
use ct_bot.Bot2Bot.Payload.{Bot, Mapping, ended, bot_2_bot_send_payload_request, refuses}
use ct_bot.Bot2Bot.Transfer.{
  all, delivered, Accepts, send_payload_request-delivered, send_payload_request-refused,
}
use ct_bot.Bot2Bot.Bots.{enter_bot, Entry, available, busy, gone, add_bot_to_list}
use ct_bot.Bot2Bot.Known.{IsUnique}
use ct_bot.Bot2Bot.States.{present_of, add_bot_to_list-IsUnique, add_bot_to_list-present_of}

abbrev sender : Bot
sender = record {
  address = 1;
  block = none;
  callback = none;
  payload_size = 0;
  active_transfer = 0;
  mappings = [];
  v_left = 0;
  v_right = 0;
  memory = λ i. i % 256;
  called = [];
}

-- The remote calls have a block, the position stores have none.
abbrev calls_mapping : Mapping
calls_mapping = record { function = 7; block = some 200; size = 44 }

abbrev no_mapping : Mapping
no_mapping = record { function = 8; block = none; size = 0 }

abbrev receiver : Bot
receiver = record sender {
  address = 2;
  mappings = no_mapping ∷ calls_mapping ∷ no_mapping ∷ [];
  memory = λ _. 0;
}

receiver-Accepts : Accepts receiver 1 40 7 200
receiver-Accepts = record {
  limit = 44;
  mapping = refl;
  fits = omega arith;
  small = omega arith;
  left_stands = refl;
  right_stands = refl;
}

others : receiver.address ≢ sender.address
others e = omega (arith, e)

send_payload_request-delivered_example :
    bot_2_bot_send_payload_request all 4 2 1 100 40 sender receiver
    ≡ some (0, ended sender 65534, delivered sender receiver 100 200 7 40)
send_payload_request-delivered_example =
    send_payload_request-delivered 4 1 100 40 sender receiver {f = 7} {target = 200} others
      receiver-Accepts (omega arith)

too_large : refuses receiver calls_mapping 45 ≡ true
unfolding refuses
too_large = refl

send_payload_request-refused_example :
    bot_2_bot_send_payload_request all 2 2 1 100 45 sender receiver
    ≡ some (251, ended sender 65535, record receiver { payload_size = 0 })
send_payload_request-refused_example =
    send_payload_request-refused 2 1 100 45 sender receiver {m = calls_mapping} others refl
      too_large (omega arith) (omega arith)

abbrev three : List Entry
three =
    record { address = 5; state = busy }
    ∷ record { address = 6; state = gone }
    ∷ record { address = 9; state = available }
    ∷ []

three-IsUnique : IsUnique three
three-IsUnique =
    ((λ e. omega (arith, e), (λ e. omega (arith, e), tt)), ((λ e. omega (arith, e), tt), (tt, tt)))

add_bot_to_list-IsUnique_example : IsUnique (add_bot_to_list true 0 7 three).1
add_bot_to_list-IsUnique_example = add_bot_to_list-IsUnique true 0 7 three three-IsUnique

add_bot_to_list-present_of_example :
    present_of 7 (add_bot_to_list true 0 7 three).1 ≡ some available
add_bot_to_list-present_of_example = add_bot_to_list-present_of 0 7 7 three three-IsUnique

-- Also where no bot was known.
first_bot : present_of 7 (add_bot_to_list true 0 7 []).1 ≡ some available
unfolding add_bot_to_list enter_bot
first_bot = refl

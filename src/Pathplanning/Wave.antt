-- ===== src/Pathplanning/Wave.antt =====
-- The wave of behaviour_pathplanning.c: get_neighbour, and the case NEIGHBOURS_FROM_FIFO of
-- bot_calc_wave_behaviour. The queue is a position store.
use ct_bot.Base.{
  ℕ, zero, suc, ◌+◌, ◌%◌, Option, Bool, true, false, ◌&&◌, ◌||◌, not, none, some, ◌==◌,
  if◌then◌else◌,
}
use mathlib.Core.Option
use ct_bot.PosStore.{Position, PosStore, push, dequeue, clear}
use ct_bot.Map.Store.{less_int16}
use ct_bot.Pathplanning.Lowres.{
  Lowres, Area, Memory, access_field_lowres, is_negative, next, before,
}

-- The state of the search: `fields` is the coarse map, `store` the queue behind the pointer
-- planning_pos_store, `found` is neighbour_found and `reached` is endreached.
pub record Search : Type 0 where
  pub fields : Lowres
  pub store : Option PosStore
  pub wavecounter : ℕ
  pub found : Bool
  pub reached : Bool

abbrev pub same_place : Position → Position → Bool
same_place a b = a.x == b.x && a.y == b.y

-- (999, 999) in the queue ends a round of the wave.
abbrev pub marker : Position
marker = record { x = 999; y = 999 }

abbrev pub out_of_area : Area → Position → Bool
out_of_area a map =
    is_negative map.x
    || is_negative map.y
    || less_int16 map.x a.min_x
    || less_int16 a.max_x map.x
    || less_int16 map.y a.min_y
    || less_int16 a.max_y map.y

-- The end of a round, when the marker has been taken from the queue.
unfoldable pub next_round : Search → Search
next_round s = record s {
  wavecounter = (s.wavecounter + 1) % 256;
  store = if not s.reached && s.found then (push s.store marker).1 else s.store;
  found = false;
}

-- The case NEIGHBOURS_FROM_FIFO, up to the end of its loop, and the queue cleared behind it.
unfoldable pub spread : Position → Search → Search
spread startwave s = record s {
  wavecounter = (s.wavecounter + 1) % 256;
  store = (push (push s.store startwave).1 marker).1;
  reached = false;
}

module _ (h : Memory) where
  -- A field of the map that is still free gets the wave's number and is put in the queue.
  unfoldable pub mark : Position → Search → Search
  mark map s =
      let (mapval, l) = access_field_lowres h map 0 false s.fields in
      if mapval == 0
      then record {
        fields = (access_field_lowres h map s.wavecounter true l).1;
        store = (push s.store map).1;
        wavecounter = s.wavecounter;
        found = true;
        reached = s.reached;
      }
      else record s { fields = l }

  module _ (a : Area) (endkoord : Position) where
    unfoldable pub get_neighbour : Position → Search → Search
    get_neighbour map s =
        if out_of_area a map
        then s
        else (let t = mark map s in
            if same_place map endkoord then record t { reached = true } else t)

    -- The four neighbours of a place, in the order of the two loops.
    unfoldable pub neighbours : Position → Search → Search
    neighbours pos s =
        get_neighbour (record { x = pos.x; y = next pos.y })
          (get_neighbour (record { x = next pos.x; y = pos.y })
            (get_neighbour (record { x = before pos.x; y = pos.y })
              (get_neighbour (record { x = pos.x; y = before pos.y }) s)))

    unfoldable pub expand : Position → Search → Search
    expand pos s = if same_place pos marker then next_round s else neighbours pos s

    -- The loop, on fuel: `none` stands for a search that goes on.
    unfoldable pub wave_loop : ℕ → Search → Option Search
    wave_loop zero s = none
    wave_loop (suc fuel) s =
        let (taken, pos, store) = dequeue s.store in
        elim (s.reached || not taken) [
          | true ↦ some s
          | false ↦ elim pos [
            | none ↦ none
            | some p ↦ wave_loop fuel (expand p (record s { store = store }))
          ]
        ]

    unfoldable pub search_wave : ℕ → Position → Search → Option Search
    search_wave fuel startwave s =
        Option.map {A = Search} (λ t. record t { store = Option.map clear t.store })
          (wave_loop fuel (spread startwave s))

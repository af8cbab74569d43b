-- ===== src/Pathplanning/Ends.antt =====
-- The loop of the wave ends, and what it has seen can be reached.
use ct_bot.Base.{
  ℕ, zero, suc, ap, sym, subst, ◌∙◌, ◌+◌, ◌*◌, ◌%◌, ◌<◌, ◌≤◌, ◌≡◌, ◌⊎◌, inl, inr, refl, Bool, true,
  false, List, [], ◌∷◌, ◌++◌, All, arith, ltb, if◌then◌else◌, length, drop, length-append,
  ℕ_discrete, Bool-cases, Option, some,
}
use mathlib.Core.Option
use ct_bot.PosStore.{Position, push, dequeue, clear}
use ct_bot.Pathplanning.Lowres.{Area, Memory}
use ct_bot.Pathplanning.Wave.{
  Search, same_place, marker, neighbours, next_round, expand, wave_loop, spread, search_wave,
}
use ct_bot.Pathplanning.Fields.{IsWhole, field_at}
use ct_bot.Pathplanning.Queue.{
  HasQueue, HasQueue-length, push-HasQueue, dequeue-empty, dequeue-HasQueue,
}
use ct_bot.Pathplanning.Step.{IsArea, IsSearch}
use ct_bot.Pathplanning.Zeros.{zeros, zeros-le}
use ct_bot.Pathplanning.Reached.{
  Reach, Waits, Sees, IsReached, All-append, neighbours-keep, Offered-IsReached,
}
use ct_bot.Pathplanning.Rounds.{IsCell, InRound, InTurn, extra, work, Offered-InTurn}

-- A turn with a place, and one with the marker.
place_less :
    (c n0 n z0 z k : ℕ) (f0 f : Bool)
    → n ≤ 32
    → (z < z0) ⊎ (z ≡ z0) × ((c ≡ 0) ⊎ (n ≡ n0) × (f ≡ f0))
    → z * 140 + extra c n f k < z0 * 140 + extra c (suc n0) f0 (suc k)
place_less c n0 n z0 z k f0 f le h = ground (arith, le, h)

marker_less : (c n k : ℕ) → n ≤ 32 → k < n → extra ((c + 1) % 256) n false k < extra c n true 0
marker_less c n k le lt = ground (arith, le, lt)

module _ (h : Memory) {a : Area} (r : IsArea a) (endkoord start : Position) (f : ℕ → ℕ → ℕ) where
  record Runs (s : Search) (q left : List Position) : Type 0 where
    search : IsSearch s q
    next : List Position
    round : InRound s q left next
    seen : IsReached a start f endkoord s q

  taken : Search → Search
  taken s = record s { store = (dequeue s.store).2 }

  -- A place of the round is taken from the queue.
  turn_place :
      (s : Search) (p : Position) (q left : List Position)
      → Runs s (p ∷ q) (p ∷ left)
      → s.reached ≡ false
      → (q' : List Position) × Runs (expand h a endkoord p (taken s)) q' left
        × (work (expand h a endkoord p (taken s)) q' left < work s (p ∷ q) (p ∷ left))
  unfolding taken expand
  turn_place s p q left w e =
      let cell : same_place p marker ≡ false = w.round.left_cells.0 in
      let (_, _, rest) = dequeue-HasQueue w.search.queue in
      let s0 = taken s in
      let reach : Reach a f start p = elim (w.seen.waiting.0) [
        | inl m ↦ cc (m, cell)
        | inr reached ↦ reached
      ] in
      let round : InRound s0 q left w.next = record {
        shape = ap (drop 1) w.round.shape;
        left_cells = w.round.left_cells.1;
        next_cells = w.round.next_cells;
        quiet = w.round.quiet;
      } in
      let (q', search, (turn, seen)) =
        neighbours-keep h r endkoord p
          (λ t l. InTurn s0 q left t l × IsReached a start f endkoord t l)
          (λ p' t u q1 q2 near o (x, y).
            (Offered-InTurn r p' t u q1 q2 near o x, Offered-IsReached reach p' t u q1 q2 near o y))
          s0 q (record { whole = w.search.whole; queue = rest })
          (
            record {
              next = w.next;
              round = round;
              counter = refl;
              nearer = inr (refl, inr (refl, refl));
            },
            record { kept = w.seen.kept; waiting = w.seen.waiting.1; goal = w.seen.goal },
          ) in
      (
        q',
        rw cell (record { search = search; next = turn.next; round = turn.round; seen = seen }),
        rw cell (
            subst
              (λ c.
                zeros (neighbours h a endkoord p s0).fields * 140
                  + extra c (length q') (neighbours h a endkoord p s0).found (length left)
                < work s (p ∷ q) (p ∷ left))
              (sym turn.counter)
              (place_less s.wavecounter (length q) (length q') (zeros s.fields) _ (length left)
                s.found _ (HasQueue-length search.queue) turn.nearer)),
      )

  -- The marker is taken when a neighbour was found: the next round begins.
  turn_marker :
      (s : Search) (next : List Position)
      → Runs s (marker ∷ next) []
      → All IsCell next
      → s.reached ≡ false
      → s.found ≡ true
      → Runs (expand h a endkoord marker (taken s)) (next ++ (marker ∷ [])) next
        × (work (expand h a endkoord marker (taken s)) (next ++ (marker ∷ [])) next
            < work s (marker ∷ next) [])
  unfolding taken expand next_round
  turn_marker s next w cells e found =
      let (_, _, rest) = dequeue-HasQueue w.search.queue in
      let bound : suc (length next) ≤ 32 = HasQueue-length w.search.queue in
      let size : length (next ++ (marker ∷ [])) ≡ suc (length next) =
        omega (arith, length-append next (marker ∷ [])) in
      let room : ltb (length next) 32 ≡ true = ground (arith, bound) in
      let queue =
        subst
          (λ b.
            HasQueue (push (dequeue s.store).2 marker).1
              (if b then next ++ (marker ∷ []) else next))
          room (push-HasQueue rest marker) in
      (
        record {
          search = record { whole = w.search.whole; queue = rw (e, found) queue };
          next = [];
          round = record { shape = refl; left_cells = cells; next_cells = tt; quiet = λ _. refl };
          seen = record {
            kept = w.seen.kept;
            waiting =
                All-append (Waits a start f) next (marker ∷ []) w.seen.waiting.1 (inl refl, tt);
            goal = w.seen.goal;
          };
        },
        subst
            (λ n.
              zeros s.fields * 140 + extra ((s.wavecounter + 1) % 256) n false (length next)
              < work s (marker ∷ next) [])
            (sym size)
            (subst
              (λ b.
                zeros s.fields * 140
                  + extra ((s.wavecounter + 1) % 256) (suc (length next)) false (length next)
                < zeros s.fields * 140 + extra s.wavecounter (suc (length next)) b 0)
              (sym found)
              (omega (
                arith,
                marker_less s.wavecounter (suc (length next)) (length next) bound (omega arith),
              ))),
      )

  -- The marker is taken when none was found: the queue is empty.
  last_turn :
      (s : Search)
      → Runs s (marker ∷ []) []
      → s.reached ≡ false
      → s.found ≡ false
      → IsSearch (expand h a endkoord marker (taken s)) []
        × IsReached a start f endkoord (expand h a endkoord marker (taken s)) []
  unfolding taken expand next_round
  last_turn s w e found =
      let (_, _, rest) = dequeue-HasQueue w.search.queue in
      (
        record { whole = w.search.whole; queue = rw (e, found) rest },
        record { kept = w.seen.kept; waiting = tt; goal = w.seen.goal },
      )

  Ended : ℕ → Search → Type 0
  Ended fuel s =
      (t : Search) × (q : List Position) × (wave_loop h a endkoord fuel s ≡ some t)
      × IsReached a start f endkoord t q

  loop_empty :
      (fuel : ℕ) (s : Search)
      → 0 < fuel
      → IsSearch s []
      → IsReached a start f endkoord s []
      → Ended fuel s
  unfolding Ended wave_loop
  loop_empty zero s p w v = absurd (omega (arith, p))
  loop_empty (suc fuel) s p w v = (s, [], ground (arith, dequeue-empty w.queue), v)

  loop_reached :
      (fuel : ℕ) (s : Search) (q : List Position)
      → 0 < fuel
      → s.reached ≡ true
      → IsReached a start f endkoord s q
      → Ended fuel s
  unfolding Ended wave_loop
  loop_reached zero s q p e v = absurd (omega (arith, p))
  loop_reached (suc fuel) s q p e v = (s, q, ground (arith, e), v)

  loop_turn :
      (fuel : ℕ) (s : Search) (p : Position) (q : List Position)
      → IsSearch s (p ∷ q)
      → s.reached ≡ false
      → wave_loop h a endkoord (suc fuel) s
        ≡ wave_loop h a endkoord fuel (expand h a endkoord p (taken s))
  unfolding wave_loop taken
  loop_turn fuel s p q w e =
      let (some_taken, place, _) = dequeue-HasQueue w.queue in ground (arith, e, some_taken, place)

  -- A turn that is made, and then the rest of the loop.
  turned :
      (fuel : ℕ) (s : Search) (p : Position) (q : List Position)
      → IsSearch s (p ∷ q)
      → s.reached ≡ false
      → Ended fuel (expand h a endkoord p (taken s))
      → Ended (suc fuel) s
  unfolding Ended
  turned fuel s p q w e (t, l, run, v) = (t, l, loop_turn fuel s p q w e ∙ run, v)

  wave_loop-Ended :
      (fuel : ℕ) (s : Search) (q left : List Position)
      → Runs s q left
      → work s q left < fuel
      → Ended fuel s
  wave_loop-Ended zero s q left w f = absurd (omega (arith, f))
  wave_loop-Ended (suc fuel) s q (p ∷ left) w f = elim (Bool-cases s.reached) [
    | inl e ↦ loop_reached (suc fuel) s q (omega arith) e w.seen
    | inr e ↦
        let (w', f') =
          subst (λ l. Runs s l (p ∷ left) × (work s l (p ∷ left) < suc fuel)) w.round.shape
            (w, f) in
        let (q', later, less) = turn_place s p (left ++ (marker ∷ w.next)) left w' e in
        turned fuel s p _ w'.search e (
          wave_loop-Ended fuel (expand h a endkoord p (taken s)) q' left later
            (omega (arith, less, f')))
  ]
  wave_loop-Ended (suc fuel) s q [] w f = elim (Bool-cases s.reached) [
    | inl e ↦ loop_reached (suc fuel) s q (omega arith) e w.seen
    | inr e ↦
        let (w', f') = subst (λ l. Runs s l [] × (work s l [] < suc fuel)) w.round.shape (w, f) in
        elim (Bool-cases s.found) [
          | inl found ↦
              let (later, less) = turn_marker s w.next w' w.round.next_cells e found in
              turned fuel s marker _ w'.search e (
                wave_loop-Ended fuel (expand h a endkoord marker (taken s)) _ w.next later
                  (omega (arith, less, f')))
          | inr none_found ↦
              let alone = subst (λ l. Runs s (marker ∷ l) []) (w.round.quiet none_found) w' in
              let (search, seen) = last_turn s alone e none_found in
              turned fuel s marker _ w'.search e (
                loop_empty fuel (expand h a endkoord marker (taken s)) (ground (arith, f')) search
                  seen)
        ]
  ]

-- What the wave leaves behind: when it says that the robot's place is reached, a way over fields
-- that were free leads from the target to a neighbour of that place, and no obstacle is overwritten.
pub record Spreads (a : Area) (endkoord startwave : Position) (s : Search) (r : Option Search)
    : Type 0 where
  pub out : Search
  pub returns : r ≡ some out
  pub path : (out.reached ≡ false) ⊎ Sees a startwave (field_at s.fields) endkoord
  pub kept :
      (x y : ℕ) → (field_at s.fields x y ≡ 0) ⊎ (field_at out.fields x y ≡ field_at s.fields x y)

module _ (h : Memory) {a : Area} (r : IsArea a) (endkoord startwave : Position) where
  started :
      (s : Search)
      → IsWhole s.fields
      → HasQueue s.store []
      → startwave.x < 96
      → Runs h r endkoord startwave
          (field_at s.fields)
          (spread startwave s)
          (startwave ∷ (marker ∷ []))
          (startwave ∷ [])
  unfolding spread
  started s w q lt = record {
    search = record { whole = w; queue = push-HasQueue (push-HasQueue q startwave) marker };
    next = [];
    round = record {
      shape = refl;
      left_cells = (ground (arith, lt), tt);
      next_cells = tt;
      quiet = λ _. refl;
    };
    seen = record {
      kept = λ x y _. refl;
      waiting = (inr Reach.here, (inl refl, tt));
      goal = λ e. cc e;
    };
  }

  -- Over a map with all its sections, with an empty queue and a target within the map, and for a
  -- rectangle within the map: the wave ends after at most 1290374 turns, also where its number runs
  -- over or the queue is full. When it says that the robot's place is reached, a way over free fields of
  -- the rectangle leads from the target to a neighbour of that place; and a field that was not free
  -- is as it was.
  pub search_wave-Spreads :
      (fuel : ℕ) (s : Search)
      → IsWhole s.fields
      → HasQueue s.store []
      → startwave.x < 96
      → 1290374 ≤ fuel
      → Spreads a endkoord startwave s (search_wave h a endkoord fuel startwave s)
  unfolding search_wave Ended spread
  search_wave-Spreads fuel s w q lt le =
      let (t, l, run, v) =
        wave_loop-Ended h r endkoord startwave (field_at s.fields) fuel (spread startwave s) _ _
          (started s w q lt) (ground (arith, zeros-le s.fields, le)) in
      record {
        out = record t { store = Option.map clear t.store };
        returns =
            ap (Option.map {A = Search} (λ u. record u { store = Option.map clear u.store })) run;
        path = elim (Bool-cases t.reached) [ inl e ↦ inr (v.goal e) | inr e ↦ inl e ];
        kept = λ x y. elim (ℕ_discrete (field_at s.fields x y) 0) [
          | yes z ↦ inl z
          | no nz ↦ inr (v.kept x y nz)
        ];
      }

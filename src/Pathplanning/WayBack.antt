-- ===== src/Pathplanning/WayBack.antt =====
-- The points that the way back puts in the queue, and the end of its loop.
use ct_bot.Base.{
  ℕ, zero, suc, ap, sym, subst, ◌∙◌, ◌+◌, ◌%◌, ◌<◌, ◌≤◌, ◌≡◌, ◌⊎◌, inl, inr, refl, true, false,
  ◌||◌, List, [], ◌∷◌, All, arith, Bool-cases, Option, some, split_last, Option-cases,
}
use ct_bot.PosStore.{Position, PosStore, pop}
use ct_bot.Map.Update.{less_int8}
use ct_bot.Pathplanning.Lowres.{Lowres, Memory, access_field_lowres}
use ct_bot.Pathplanning.Wave.{same_place}
use ct_bot.Pathplanning.Follow.{
  Trace, start_trace, centre, straighten, look, look_row, look_around, enter_point, follow_turn,
  follow_loop, search_stackpath,
}
use ct_bot.Pathplanning.Queue.{HasQueue, push-HasQueue, pop-HasQueue, but_last}
use ct_bot.Pathplanning.Reached.{All-queued, same_place-eq}

module _ (h : Memory) (fields : Lowres) where
  -- A field that the wave has numbered: its value is from 2 to 127, so it is no obstacle.
  abbrev pub IsNumbered : Position → Type 0
  IsNumbered c = less_int8 1 (access_field_lowres h c 0 false fields).0 ≡ true

  -- The middle of such a field.
  abbrev pub IsPoint : Position → Type 0
  IsPoint p = (c : Position) × (p ≡ centre c) × IsNumbered c

All-but_last :
    (P : Position → Type 0) (q : List Position) → All P q → All P (but_last q (split_last q))
All-but_last P [] w = tt
All-but_last P (x ∷ xs) w = elim (Option-cases (split_last xs)) [
  | inl e ↦ rw e tt
  | inr ((l, r), e) ↦
      let rest = subst (λ o. All P (but_last xs o)) e (All-but_last P xs w.1) in rw e (w.0, rest)
]

-- The target has the number 2; the next point is a numbered field, unless none was found so far and
-- each number below that of the wave is still good.
module _ (h : Memory) (fields : Lowres) (startwave endkoord : Position) where
  record IsTraced (t : Trace) : Type 0 where
    chosen :
        IsNumbered h fields t.nextdest
        ⊎ (t.found ≡ false) × (less_int8 2 t.mapval_min ≡ true) × (t.reached ≡ false)

  look-IsTraced :
      (i j : ℕ) (t : Trace)
      → (access_field_lowres h startwave 0 false fields).0 ≡ 2
      → IsTraced t
      → IsTraced (look h fields startwave endkoord i j t)
  unfolding look
  look-IsTraced i j t two w =
      let tmp : Position = record {
        x = (t.pos.x + 65535 + i) % 65536;
        y = (t.pos.y + 65535 + j) % 65536;
      } in
      let minval = (access_field_lowres h tmp 0 false fields).0 in
      let target : (same_place tmp startwave ≡ false) ⊎ (minval ≡ 2) =
        elim (Bool-cases (same_place tmp startwave)) [
          | inl e ↦ inr (
              ap (λ p. (access_field_lowres h p 0 false fields).0) (same_place-eq tmp startwave e)
              ∙ two)
          | inr e ↦ inl e
        ] in
      ground (arith, w.chosen, target)

  -- Nothing but the choice of the next field is changed.
  look_rest :
      (i j : ℕ) (t : Trace)
      → ((look h fields startwave endkoord i j t).store ≡ t.store)
        × ((look h fields startwave endkoord i j t).counter ≡ t.counter)
  unfolding look
  look_rest i j t = ground arith

  Looked : Trace → Trace → Type 0
  Looked t u = IsTraced u × (u.store ≡ t.store) × (u.counter ≡ t.counter)

  look-Looked :
      (access_field_lowres h startwave 0 false fields).0 ≡ 2
      → (i j : ℕ) (t u : Trace) → Looked t u
      → Looked t (look h fields startwave endkoord i j u)
  unfolding Looked
  look-Looked two i j t u (w, s, c) =
      let (s', c') = look_rest i j u in (look-IsTraced i j u two w, s' ∙ s, c' ∙ c)

  look_around-Looked :
      (access_field_lowres h startwave 0 false fields).0 ≡ 2
      → (t : Trace) → IsTraced t
      → Looked t (look_around h fields startwave endkoord t)
  unfolding look_around look_row Looked
  look_around-Looked two t w =
      let step = λ (i j : ℕ) (u : Trace). look-Looked two i j t u in
      let start : Looked t (record t { found = false }) = (
        record { chosen = elim (w.chosen) [ inl n ↦ inl n | inr (_, m, r) ↦ inr (refl, m, r) ] },
        refl,
        refl,
      ) in
      step 2 2 _ (
        step 1 2 _ (
          step 0 2 _
            (step 2 1 _ (step 1 1 _ (step 0 1 _ (step 2 0 _ (step 1 0 _ (step 0 0 _ start))))))))

  -- What the queue holds are middles of numbered fields.
  Holds : Option PosStore → Type 0
  Holds st = (q : List Position) × HasQueue st q × All (IsPoint h fields) q

  straighten_store :
      (pos : Position) (t : Trace)
      → ((straighten pos t).store ≡ t.store) ⊎ ((straighten pos t).store ≡ (pop t.store).2)
  unfolding straighten
  straighten_store pos t = ground arith

  straighten-Holds : (pos : Position) (t : Trace) → Holds t.store → Holds (straighten pos t).store
  unfolding Holds
  straighten-Holds pos t (q, hq, w) =
      let popped : Holds (pop t.store).2 =
        (but_last q (split_last q), pop-HasQueue hq, All-but_last (IsPoint h fields) q w) in
      let kept : Holds t.store = (q, hq, w) in
      elim (straighten_store pos t) [
        | inl e ↦ subst Holds (sym e) kept
        | inr e ↦ subst Holds (sym e) popped
      ]

  straighten_rest :
      (pos : Position) (t : Trace)
      → ((straighten pos t).nextdest ≡ t.nextdest)
        × ((straighten pos t).mapval_min ≡ t.mapval_min)
        × ((straighten pos t).found ≡ t.found)
        × ((straighten pos t).reached ≡ t.reached)
        × ((straighten pos t).counter ≡ t.counter)
  unfolding straighten
  straighten_rest pos t = ground arith

  enter_point-Holds :
      (t : Trace)
      → IsTraced t
      → Holds t.store
      → Holds (enter_point t).1.store
        × IsTraced (enter_point t).1
        × ((enter_point t).1.counter ≡ t.counter)
  unfolding enter_point Holds
  enter_point-Holds t w hold = elim (Bool-cases (t.found || t.reached)) [
    | inl e ↦
        let t1 = straighten (centre t.nextdest) t in
        let rest = straighten_rest (centre t.nextdest) t in
        let numbered : IsNumbered h fields t.nextdest = elim (w.chosen) [
          | inl n ↦ n
          | inr (f, _, r) ↦ cc (e, f, r)
        ] in
        let (q, hq, held) = straighten-Holds (centre t.nextdest) t hold in
        rw e (
          (
            _,
            push-HasQueue hq (centre t.nextdest),
            All-queued (IsPoint h fields) q (centre t.nextdest) held (t.nextdest, refl, numbered),
          ),
          record { chosen = ground (arith, rest, numbered) },
          rest.4,
        )
    | inr e ↦ rw e (hold, w, refl)
  ]

  follow_turn-Holds :
      (access_field_lowres h startwave 0 false fields).0 ≡ 2
      → (t : Trace) → IsTraced t
      → Holds t.store
      → t.counter < 120
      → Holds (follow_turn h fields startwave endkoord t).1.store
        × IsTraced (follow_turn h fields startwave endkoord t).1
        × (((follow_turn h fields startwave endkoord t).0 ≡ true)
            ⊎ ((follow_turn h fields startwave endkoord t).0 ≡ false)
              × (t.counter < 119)
              × ((follow_turn h fields startwave endkoord t).1.counter ≡ t.counter + 1))
  unfolding follow_turn Looked
  follow_turn-Holds two t w hold lt =
      let (w1, s1, c1) = look_around-Looked two t w in
      let (hold2, w2, c2) =
        enter_point-Holds (look_around h fields startwave endkoord t) w1
          (subst Holds (sym s1) hold) in
      let same : (follow_turn h fields startwave endkoord t).1.store
          ≡ (enter_point (look_around h fields startwave endkoord t)).1.store =
        ground arith in
      (
        subst Holds (sym same) hold2,
        record { chosen = ground (arith, w2.chosen) },
        ground (arith, c1, c2, lt),
      )

  Ended : ℕ → Trace → Type 0
  Ended fuel t =
      (u : Trace) × (follow_loop h fields startwave endkoord fuel t ≡ some u) × Holds u.store

  follow_loop-Ended :
      (access_field_lowres h startwave 0 false fields).0 ≡ 2
      → (fuel : ℕ) (t : Trace) → IsTraced t
      → Holds t.store
      → t.counter < 120
      → 120 ≤ fuel + t.counter
      → 0 < fuel
      → Ended fuel t
  unfolding Ended follow_loop
  follow_loop-Ended two zero t w hold lt le p = absurd (omega (arith, p))
  follow_loop-Ended two (suc fuel) t w hold lt le p = elim (Bool-cases t.reached) [
    | inl e ↦ (t, ground (arith, e), hold)
    | inr e ↦
        let t1 = (follow_turn h fields startwave endkoord t).1 in
        let (hold1, w1, step) = follow_turn-Holds two t w hold lt in
        elim step [
          | inl out ↦ (t1, ground (arith, e, out), hold1)
          | inr (stays, room, up) ↦
              let (u, run, held) =
                follow_loop-Ended two fuel t1 w1 hold1 (omega (arith, room, up))
                  (omega (arith, le, up)) (omega (arith, le, room)) in
              (u, ground (arith, e, stays, run), held)
        ]
  ]

  -- With an empty queue, the target's field with the wave's first number and a last number from 2 to
  -- 126, the way back ends within 120 turns. Whatever it answers, and whatever a read left of or
  -- below the map gives: each point in its queue is the middle of a field that reads as a number of
  -- the wave, so that none is an obstacle.
  pub search_stackpath-Holds :
      (fuel wavecounter : ℕ) (store : Option PosStore)
      → (access_field_lowres h startwave 0 false fields).0 ≡ 2
      → 2 ≤ wavecounter
      → wavecounter ≤ 126
      → HasQueue store []
      → 120 ≤ fuel
      → (u : Trace) × (search_stackpath h fields startwave endkoord fuel wavecounter store ≡ some u)
        × (q : List Position) × HasQueue u.store q
        × All (IsPoint h fields) q
  unfolding search_stackpath Ended Holds
  search_stackpath-Holds fuel wavecounter store two lo hi q le =
      let (u, run, (q', hq, held)) =
        follow_loop-Ended two fuel (start_trace endkoord wavecounter store)
          (record { chosen = inr (refl, ground (arith, lo, hi), refl) }) ([], q, tt) (omega arith)
          (omega (arith, le)) (omega (arith, le)) in
      (u, run, q', hq, held)

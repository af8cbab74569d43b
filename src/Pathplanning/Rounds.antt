-- ===== src/Pathplanning/Rounds.antt =====
-- The rounds of the wave: the queue has one marker, and each turn of the loop brings the search
-- nearer to its end, also where the wave's number runs over.
use ct_bot.Base.{
  ℕ, ap, sym, ◌∙◌, ◌+◌, ◌*◌, ◌<◌, ◌≡◌, ◌⊎◌, inl, inr, Bool, false, List, [], ◌∷◌, ◌++◌, All, arith,
  ◌==◌, leb, ltb, if◌then◌else◌, length, ℕ_discrete, Bool-cases, append_assoc,
}
use ct_bot.PosStore.{Position}
use ct_bot.Pathplanning.Lowres.{Area}
use ct_bot.Pathplanning.Wave.{Search, same_place, marker}
use ct_bot.Pathplanning.Step.{IsArea, Offered, inside-lt}
use ct_bot.Pathplanning.Zeros.{zeros, zeros-marked, zeros-unmarked}
use ct_bot.Pathplanning.Reached.{Adjacent, All-append}

abbrev pub IsCell : Position → Type 0
IsCell p = same_place p marker ≡ false

-- The queue holds what is left of the round, the marker, and the next round so far, of which there
-- is nothing when no neighbour was found.
pub record InRound (s : Search) (q left next : List Position) : Type 0 where
  pub shape : q ≡ left ++ (marker ∷ next)
  pub left_cells : All IsCell left
  pub next_cells : All IsCell next
  pub quiet : s.found ≡ false → next ≡ []

-- A bound on the turns that are still to come. `n` places wait, `k` of them before the marker.
abbrev pub bit : Bool → ℕ
bit b = if b then 1 else 0

abbrev pub extra : (counter n : ℕ) → Bool → (k : ℕ) → ℕ
extra counter n found k =
    if counter == 0
    then 40 + k
    else n + bit found + (if leb 256 (counter + n + bit found) then 100 else 0)

abbrev pub work : Search → List Position → List Position → ℕ
work s q left = zeros s.fields * 140 + extra s.wavecounter (length q) s.found (length left)

-- From `s` to `t` within a turn: a field less is free, or nothing has changed, or the number is 0,
-- which leaves the fields free.
abbrev pub Nearer : Search → List Position → Search → List Position → Type 0
Nearer s q t q' =
    (zeros t.fields < zeros s.fields)
    ⊎ (zeros t.fields ≡ zeros s.fields)
      × ((s.wavecounter ≡ 0) ⊎ (length q' ≡ length q) × (t.found ≡ s.found))

pub record InTurn (s : Search) (q left : List Position) (t : Search) (q' : List Position)
    : Type 0 where
  pub next : List Position
  pub round : InRound t q' left next
  pub counter : t.wavecounter ≡ s.wavecounter
  pub nearer : Nearer s q t q'

module _ {a : Area} (r : IsArea a) {endkoord : Position} where
  Offered-InRound :
      {p : Position} {s t : Search} {q q' left next : List Position}
      → Offered a endkoord p s t q q'
      → InRound s q left next
      → (next' : List Position) × InRound t q' left next'
  Offered-InRound {p} {s} {t} {q} {q'} {left} {next} o w = elim (o.change) [
    | inl (e, found, _) ↦ (
      next,
      record {
        shape = e ∙ w.shape;
        left_cells = w.left_cells;
        next_cells = w.next_cells;
        quiet = λ z. w.quiet (sym found ∙ z);
      },
    )
    | inr (e, m) ↦
        let (px, py) = inside-lt r p m.inside in
        let cell : IsCell p = ground (arith, px) in
        elim (Bool-cases (ltb (length q) 32)) [
          | inl room ↦ (
            next ++ (p ∷ []),
            record {
              shape =
                  e
                  ∙ rw room (
                      ap (λ l. l ++ (p ∷ [])) w.shape ∙ append_assoc left (marker ∷ next) (p ∷ []));
              left_cells = w.left_cells;
              next_cells = All-append IsCell next (p ∷ []) w.next_cells (cell, tt);
              quiet = λ z. cc (m.found, z);
            },
          )
          | inr full ↦ (
            next,
            record {
              shape = e ∙ rw full w.shape;
              left_cells = w.left_cells;
              next_cells = w.next_cells;
              quiet = λ z. cc (m.found, z);
            },
          )
        ]
  ]

  pub Offered-InTurn :
      {s : Search} {q left : List Position} {pos : Position} (p : Position) (t u : Search)
      (q1 q2 : List Position)
      → Adjacent pos p
      → Offered a endkoord p t u q1 q2
      → InTurn s q left t q1
      → InTurn s q left u q2
  Offered-InTurn {s} {q} {left} p t u q1 q2 near o w =
      let (next, round) = Offered-InRound o w.round in
      record {
        next = next;
        round = round;
        counter = o.counter ∙ w.counter;
        nearer = elim (o.change) [
          | inl (e, found, same) ↦ ground (arith, ap zeros same, ap length e, found, w.nearer)
          | inr (_, m) ↦
              let (px, py) = inside-lt r p m.inside in
              elim (ℕ_discrete t.wavecounter 0) [
                | yes z ↦ ground (arith, zeros-unmarked m z, w.nearer, w.counter, z)
                | no nz ↦ ground (arith, zeros-marked m px py nz, w.nearer)
              ]
        ];
      }

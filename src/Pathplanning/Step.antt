-- ===== src/Pathplanning/Step.antt =====
-- What one field does in the wave of behaviour_pathplanning.c, and what a rule that each step keeps
-- gives for the four neighbours of a place.
use ct_bot.Base.{
  ℕ, ◌<◌, ◌≡◌, refl, ◌⊎◌, inl, inr, true, false, ◌&&◌, List, [], ◌∷◌, ◌++◌, arith, ltb, ◌==◌,
  if◌then◌else◌, length, Bool-cases, ℕ_discrete,
}
use ct_bot.PosStore.{Position}
use ct_bot.Pathplanning.Lowres.{Memory, Area}
use ct_bot.Pathplanning.Wave.{Search, out_of_area, same_place, mark, get_neighbour}
use ct_bot.Pathplanning.Fields.{IsWhole, field_at, read_lem, write-IsWhole, field_at-write}
use ct_bot.Pathplanning.Queue.{HasQueue, push-HasQueue}

-- The bounds of the used rectangle are within the map.
pub record IsArea (a : Area) : Type 0 where
  pub width : a.max_x < 96
  pub height : a.max_y < 96
  pub left : a.min_x < 96
  pub low : a.min_y < 96

-- A search over a map with all its sections, whose queue holds `q`.
pub record IsSearch (s : Search) (q : List Position) : Type 0 where
  pub whole : IsWhole s.fields
  pub queue : HasQueue s.store q

-- The queue with one more place, if there is room.
abbrev pub queued : List Position → Position → List Position
queued q p = if ltb (length q) 32 then q ++ (p ∷ []) else q

-- A free field inside of the rectangle has got the number of the round.
pub record Marks (a : Area) (p : Position) (s t : Search) : Type 0 where
  pub inside : out_of_area a p ≡ false
  pub free : field_at s.fields p.x p.y ≡ 0
  pub fields :
      (x y : ℕ)
      → field_at t.fields x y
        ≡ (if x == p.x && y == p.y then s.wavecounter else field_at s.fields x y)
  pub found : t.found ≡ true

-- Either nothing but the end has changed, or the field is marked.
pub record Offered (a : Area) (endkoord p : Position) (s t : Search) (q q' : List Position)
    : Type 0 where
  pub search : IsSearch t q'
  pub counter : t.wavecounter ≡ s.wavecounter
  pub reached :
      t.reached ≡ true
      → (s.reached ≡ true) ⊎ (out_of_area a p ≡ false) × (same_place p endkoord ≡ true)
  pub change :
      (q' ≡ q) × (t.found ≡ s.found) × (t.fields ≡ s.fields) ⊎ (q' ≡ queued q p) × Marks a p s t

pub inside-lt :
    {a : Area} (r : IsArea a) (p : Position) → out_of_area a p ≡ false → (p.x < 96) × (p.y < 96)
inside-lt {a} r p e = ground (arith, r.width, r.height, r.left, r.low)

module _ (h : Memory) {a : Area} (r : IsArea a) (endkoord : Position) where
  mark-Offered :
      (p : Position) {s : Search} {q : List Position}
      → out_of_area a p ≡ false
      → IsSearch s q
      → (q' : List Position) × Offered a endkoord p s (mark h p s) q q'
  unfolding mark
  mark-Offered p {s} {q} e w =
      let (px, py) = inside-lt r p e in
      let read = read_lem h s.fields p px py 0 in
      elim (ℕ_discrete (field_at s.fields p.x p.y) 0) [
        | yes z ↦ (
          queued q p,
          record {
            search = record {
              whole = rw (read, z) (write-IsWhole h s.fields p px py s.wavecounter w.whole);
              queue = rw (read, z) (push-HasQueue w.queue p);
            };
            counter = rw (read, z);
            reached = rw (read, z) (λ t. inl t);
            change = inr (
              refl,
              record {
                inside = e;
                free = z;
                fields = rw (read, z) (field_at-write h s.fields p px py s.wavecounter w.whole);
                found = rw (read, z);
              },
            );
          },
        )
        | no nz ↦
            let ne : (field_at s.fields p.x p.y == 0) ≡ false = ground (arith, nz) in
            (
              q,
              record {
                search = record { whole = rw (read, ne) w.whole; queue = rw (read, ne) w.queue };
                counter = rw (read, ne);
                reached = rw (read, ne) (λ t. inl t);
                change = rw (read, ne) (inl (refl, refl, refl));
              },
            )
      ]

  pub get_neighbour-Offered :
      (p : Position) {s : Search} {q : List Position}
      → IsSearch s q
      → (q' : List Position) × Offered a endkoord p s (get_neighbour h a endkoord p s) q q'
  unfolding get_neighbour
  get_neighbour-Offered p {s} {q} w = elim (Bool-cases (out_of_area a p)) [
    | inl e ↦ (
      q,
      rw e (record {
        search = w;
        counter = refl;
        reached = λ t. inl t;
        change = inl (refl, refl, refl);
      }),
    )
    | inr e ↦
        let (q', o) = mark-Offered p e w in
        (
          q',
          rw e (elim (Bool-cases (same_place p endkoord)) [
            | inl here ↦ rw here (record {
              search = record { whole = o.search.whole; queue = o.search.queue };
              counter = o.counter;
              reached = λ _. inr (e, here);
              change = elim (o.change) [
                | inl c ↦ inl c
                | inr (c, k) ↦ inr (
                  c,
                  record { inside = k.inside; free = k.free; fields = k.fields; found = k.found },
                )
              ];
            })
            | inr apart ↦ rw apart o
          ]),
        )
  ]

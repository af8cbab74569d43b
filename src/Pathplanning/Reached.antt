-- ===== src/Pathplanning/Reached.antt =====
-- The fields that the wave can reach, and what holds of a search all the time.
use ct_bot.Base.{
  ℕ, ap, ap₂, sym, subst, ◌∙◌, ◌≡◌, ◌≢◌, ◌⊎◌, inl, inr, true, false, List, [], ◌∷◌, ◌++◌, All,
  arith, ltb, length, ℕ_discrete, Bool-cases,
}
use ct_bot.PosStore.{Position}
use ct_bot.Pathplanning.Lowres.{Area, next, before, Memory}
use ct_bot.Pathplanning.Wave.{Search, out_of_area, same_place, marker, neighbours}
use ct_bot.Pathplanning.Fields.{field_at}
use ct_bot.Pathplanning.Step.{IsArea, IsSearch, Offered, queued, get_neighbour-Offered}

-- The four neighbours of a place.
pub data Adjacent (p : Position) : Position → Type 0 where
  lower : Adjacent p (record { x = p.x; y = before p.y })
  left : Adjacent p (record { x = before p.x; y = p.y })
  right : Adjacent p (record { x = next p.x; y = p.y })
  upper : Adjacent p (record { x = p.x; y = next p.y })

-- The places that a way over free fields of the rectangle leads to.
pub data Reach (a : Area) (f : ℕ → ℕ → ℕ) (start : Position) : Position → Type 0 where
  here : Reach a f start start
  step :
      {p q : Position}
      → Reach a f start p
      → Adjacent p q
      → out_of_area a q ≡ false
      → f q.x q.y ≡ 0
      → Reach a f start q

-- The neighbours of a place keep what each of them keeps.
module _ (h : Memory) {a : Area} (r : IsArea a) (endkoord pos : Position)
    (P : Search → List Position → Type 0)
    (keeps : (p : Position) (s t : Search) (q q' : List Position)
      → Adjacent pos p
      → Offered a endkoord p s t q q'
      → P s q
      → P t q') where
  pub neighbours-keep :
      (s : Search) (q : List Position)
      → IsSearch s q
      → P s q
      → (q' : List Position) × IsSearch (neighbours h a endkoord pos s) q'
        × P (neighbours h a endkoord pos s) q'
  unfolding neighbours
  neighbours-keep s q w p =
      let (q1, o1) =
        get_neighbour-Offered h r endkoord (record { x = pos.x; y = before pos.y }) w in
      let (q2, o2) =
        get_neighbour-Offered h r endkoord (record { x = before pos.x; y = pos.y }) o1.search in
      let (q3, o3) =
        get_neighbour-Offered h r endkoord (record { x = next pos.x; y = pos.y }) o2.search in
      let (q4, o4) =
        get_neighbour-Offered h r endkoord (record { x = pos.x; y = next pos.y }) o3.search in
      (
        q4,
        o4.search,
        keeps _ _ _ _ _ Adjacent.upper o4 (
            keeps _ _ _ _ _ Adjacent.right o3
              (keeps _ _ _ _ _ Adjacent.left o2 (keeps _ _ _ _ _ Adjacent.lower o1 p))),
      )

-- Fields that were not free are as they were, what waits in the queue can be reached, and so can a
-- neighbour of the end when it has been seen.
module _ (a : Area) (start : Position) (f : ℕ → ℕ → ℕ) where
  abbrev pub Waits : Position → Type 0
  Waits p = (same_place p marker ≡ true) ⊎ Reach a f start p

  pub record Sees (endkoord : Position) : Type 0 where
    pub from : Position
    pub reach : Reach a f start from
    pub near : Adjacent from endkoord

  pub record IsReached (endkoord : Position) (s : Search) (q : List Position) : Type 0 where
    pub kept : (x y : ℕ) → f x y ≢ 0 → field_at s.fields x y ≡ f x y
    pub waiting : All Waits q
    pub goal : s.reached ≡ true → Sees endkoord

pub All-append :
    (P : Position → Type 0) (xs ys : List Position) → All P xs → All P ys → All P (xs ++ ys)
All-append P [] ys p q = q
All-append P (x ∷ xs) ys (px, pxs) q = (px, All-append P xs ys pxs q)

pub same_place-eq : (p q : Position) → same_place p q ≡ true → p ≡ q
same_place-eq p q e =
    let ex : p.x ≡ q.x = ground (arith, e) in
    let ey : p.y ≡ q.y = ground (arith, e) in
    let place : ℕ → ℕ → Position = λ x y. record { x = x; y = y } in ap₂ place ex ey

pub All-queued :
    (P : Position → Type 0) (q : List Position) (p : Position) → All P q → P p → All P (queued q p)
All-queued P q p w x = elim (Bool-cases (ltb (length q) 32)) [
  | inl room ↦ rw room (All-append P q (p ∷ []) w (x, tt))
  | inr full ↦ rw full w
]

module _ {a : Area} {endkoord start : Position} {f : ℕ → ℕ → ℕ} where
  -- A field that is free now was free at the beginning.
  was_free :
      {s : Search} {q : List Position}
      → IsReached a start f endkoord s q
      → (x y : ℕ) → field_at s.fields x y ≡ 0
      → f x y ≡ 0
  was_free v x y e = elim (ℕ_discrete (f x y) 0) [ yes z ↦ z | no nz ↦ sym (v.kept x y nz) ∙ e ]

  pub Offered-IsReached :
      {pos : Position}
      → Reach a f start pos
      → (p : Position) (s t : Search) (q q' : List Position) → Adjacent pos p
      → Offered a endkoord p s t q q'
      → IsReached a start f endkoord s q
      → IsReached a start f endkoord t q'
  Offered-IsReached {pos} r p s t q q' near o v = record {
    kept = λ x y ne. elim (o.change) [
      | inl (_, _, same) ↦ ap (λ l. field_at l x y) same ∙ v.kept x y ne
      | inr (_, m) ↦ ground (arith, m.fields x y, was_free v p.x p.y m.free, v.kept x y ne, ne)
    ];
    waiting = elim (o.change) [
      | inl (e, _, _) ↦ subst (All (Waits a start f)) (sym e) v.waiting
      | inr (e, m) ↦ subst (All (Waits a start f)) (sym e) (
          All-queued (Waits a start f) q p v.waiting
            (inr (Reach.step r near m.inside (was_free v p.x p.y m.free))))
    ];
    goal = λ e. elim (o.reached e) [
      | inl old ↦ v.goal old
      | inr (_, same) ↦ record {
        from = pos;
        reach = r;
        near = subst (Adjacent pos) (same_place-eq p endkoord same) near;
      }
    ];
  }

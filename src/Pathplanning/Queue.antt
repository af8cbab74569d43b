-- ===== src/Pathplanning/Queue.antt =====
-- The queue of the wave, a position store of 32 entries, as the list of its positions.
use ct_bot.Base.{
  ap, ◌∙◌, ◌+◌, ◌≤◌, ◌≡◌, refl, true, false, Option, none, some, List, [], ◌∷◌, ◌++◌,
  some-injective, arith, ltb, if◌then◌else◌, length, split_last, Option-cases, inl, inr,
}
use ct_bot.PosStore.{Position, PosStore, push, pop, dequeue}
use ct_bot.PosStore.Ring.{IsRing, contents}
use ct_bot.PosStore.Deque.{Call, Reply, reply, step, call}
use ct_bot.PosStore.Refine.{Agrees, call-Agrees, length-contents}

pub record HasQueue (st : Option PosStore) (q : List Position) : Type 0 where
  pub store : PosStore
  pub buf : List Position
  pub is_some : st ≡ some store
  pub ring : IsRing buf store
  pub size : store.mask ≡ 31
  pub holds : contents buf store ≡ q

pub HasQueue-length : {st : Option PosStore} {q : List Position} → HasQueue st q → length q ≤ 32
HasQueue-length h =
    omega (arith, length-contents h.buf h.store, ap length h.holds, h.ring.count_in, h.size)

-- A queue after a pop.
abbrev pub but_last : List Position → Option (Position × List Position) → List Position
but_last q none = q
but_last q (some (p, r)) = r

-- A call leaves the queue that the bounded sequence of its positions gives.
module _ {st : Option PosStore} {q : List Position} (h : HasQueue st q) where
  called :
      (c : Call) (q' : List Position) (r : Reply)
      → Agrees h.buf h.store c
      → step 32 q c ≡ (r, q')
      → ((call st c).0 ≡ r) × HasQueue (call st c).1 q'
  called c q' r a e =
      let size : h.store.mask + 1 ≡ 32 = omega (arith, h.size) in
      let answer =
        a.answer
        ∙ ap (λ n. step n (contents h.buf h.store) c) size
        ∙ ap (λ l. step 32 l c) h.holds
        ∙ e in
      (
        ap (λ s. (call s c).0) h.is_some ∙ ap (λ z. z.0) answer,
        record {
          store = a.after;
          buf = a.buf';
          is_some = ap (λ s. (call s c).1) h.is_some ∙ a.left;
          ring = a.valid;
          size = a.same_size ∙ h.size;
          holds = ap (λ z. z.1) answer;
        },
      )

  pub push-HasQueue :
      (p : Position) → HasQueue (push st p).1 (if ltb (length q) 32 then q ++ (p ∷ []) else q)
  unfolding call step
  push-HasQueue p =
      (called (Call.pushes p) _ (reply (ltb (length q) 32) none)
        (call-Agrees (Call.pushes p) h.ring tt) (ground arith)).1

  pub pop-HasQueue : HasQueue (pop st).2 (but_last q (split_last q))
  unfolding call step
  pop-HasQueue = elim (Option-cases (split_last q)) [
    | inl e ↦
        rw e (called Call.pops q (reply false none) (call-Agrees Call.pops h.ring tt) (rw e)).1
    | inr ((p, r), e) ↦
        rw e (called Call.pops r (reply true (some p)) (call-Agrees Call.pops h.ring tt) (rw e)).1
  ]

pub dequeue-empty : {st : Option PosStore} → HasQueue st [] → (dequeue st).0 ≡ false
unfolding call step
dequeue-empty h =
    let c =
      called h Call.dequeues [] (reply false none) (call-Agrees Call.dequeues h.ring tt) refl in
    some-injective (ap (λ (r : Reply). r.flag) c.0)

pub dequeue-HasQueue :
    {st : Option PosStore} {p : Position} {q : List Position}
    → HasQueue st (p ∷ q)
    → ((dequeue st).0 ≡ true) × ((dequeue st).1 ≡ some p) × HasQueue (dequeue st).2 q
unfolding call step
dequeue-HasQueue {st} {p} {q} h =
    let c =
      called h Call.dequeues q (reply true (some p)) (call-Agrees Call.dequeues h.ring tt) refl in
    (some-injective (ap (λ (r : Reply). r.flag) c.0), ap (λ (r : Reply). r.pos) c.0, c.1)

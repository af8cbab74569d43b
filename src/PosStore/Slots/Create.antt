-- ===== src/PosStore/Slots/Create.antt =====
-- `pos_store_create_size` on a valid array of stores.
use ct_bot.Base.{
  ℕ, ◌+◌, ◌-◌, ◌^◌, ◌≤◌, ◌<◌, ◌≡◌, refl, subst, sym, ap, ◌∙◌, Option, none, some, List, arith, ◌==◌,
  ==_iff, Bool, true, not, ◌&&◌, ◌||◌, ltb, bit_and, length, table, table-entry, All-modify,
  All-get_elem?, get_elem?, get_elem?-modify, modify, modify-modify, if◌then◌else◌, inl, inr,
  Bool-cases, Option-cases,
}
use ct_bot.PosStore.{Position, PosStore, clear}
use ct_bot.PosStore.Mask.{IsPower}
use ct_bot.PosStore.Ring.{IsRing}
use ct_bot.PosStore.Slots.{
  from_beh, release, clear_at, reuse, claim, occupied, block_for, store_for, create_size,
}
use ct_bot.PosStore.Slots.Owners.{
  IsValid, Usable, Distinct-drop, Distinct-occupy, released-owner, from_beh_found, from_beh-none,
  from_beh-release, same_ptr_iff, release-IsValid,
}

none≢some : {o : ℕ} → ◌≡◌ {A = Option ℕ} none (some o) → ⊥
none≢some e = cc

-- What the source tests of a size, and what it means.
is_power : ℕ → Bool
is_power size = bit_and size (size - 1) == 0

order_of : ℕ → ℕ
order_of size =
    if size == 1
    then 0
    else if size == 2
    then 1
    else if size == 4
    then 2
    else if size == 8
    then 3
    else if size == 16
    then 4
    else if size == 32
    then 5
    else 6

power_test : ℕ → Bool
power_test size =
    size == 0
    || not (bit_and size (size - 1) == 0)
    || size == 2 ^ order_of size && ltb (order_of size) 7

power_table : table power_test 65 ≡ true
unfolding table power_test order_of
power_table = refl

pub IsPower-of_size :
    (size : ℕ) → 0 < size → size ≤ 64 → (bit_and size (size - 1) == 0) ≡ true → IsPower (size - 1)
unfolding power_test
IsPower-of_size size pos le t =
    let p = table-entry power_test size power_table (omega arith) in
    record { order = order_of size; order_in = ground arith; size = ground arith }

-- A store as `create_size` leaves it with a behaviour.
pub record Fresh (owner size : ℕ) (s : PosStore) : Type 0 where
  pub owned : s.owner ≡ some owner
  pub no_entries : s.count ≡ 0
  pub sized : s.mask + 1 ≡ size
  pub buffer : List Position
  pub ring : IsRing buffer s

clear-IsRing : {buf : List Position} {s : PosStore} → IsRing buf s → IsRing buf (clear s)
unfolding clear
clear-IsRing v = record {
  array = v.array;
  power = v.power;
  room = v.room;
  sp_in = omega arith;
  fp_in = omega arith;
  count_in = omega arith;
  distance = ground arith;
}

module _ (malloc : ℕ → Option (List Position)) (owner : ℕ) (given : Option (List Position))
    (size : ℕ) (pos : 0 < size) (le : size ≤ 64) (power : (bit_and size (size - 1) == 0) ≡ true)
    (enough : (b : List Position) → block_for malloc given size ≡ some b → size ≤ length b) where
  occupied-Fresh :
      (b : List Position)
      → block_for malloc given size ≡ some b
      → (s : PosStore) → Fresh owner size (clear (occupied malloc owner given size s))
  unfolding clear
  occupied-Fresh b e s = record {
    owned = refl;
    no_entries = refl;
    sized = omega arith;
    buffer = b;
    ring = record {
      array = e;
      power = subst IsPower (omega arith) (IsPower-of_size size pos le power);
      room = omega (arith, enough b e);
      sp_in = omega arith;
      fp_in = omega arith;
      count_in = omega arith;
      distance = ground arith;
    };
  }

  -- What `store_for` and the final `clear` do, at each of its answers.
  record Created (r : Option ℕ × List PosStore) : Type 0 where
    valid : IsValid (clear_at r.1 r.0)
    store :
        (i : ℕ)
        → r.0 ≡ some i
        → (s : PosStore) × (get_elem? (clear_at r.1 r.0) i ≡ some s) × Fresh owner size s

  given_back :
      (slots : List PosStore) (i : ℕ)
      → IsValid slots
      → Created (none, release (modify slots i (occupied malloc owner given size)) (some i))
  unfolding clear_at release
  given_back slots i v = record {
    valid = rw modify-modify (record {
      usable =
          All-modify Usable _ slots i
            (λ t g u h. absurd (h (released-owner (occupied malloc owner given size t)))) v.usable;
      distinct =
          Distinct-drop _ slots i
            (λ t o h.
              absurd (none≢some (sym (released-owner (occupied malloc owner given size t)) ∙ h)))
            v.distinct;
    });
    store = λ i e. cc;
  }

  claim-Created :
      (slots : List PosStore)
      → IsValid slots
      → from_beh slots (some owner) ≡ none
      → Created (claim malloc slots owner given size (from_beh slots none))
  unfolding claim clear_at
  claim-Created slots v absent = elim (Option-cases (from_beh slots none)) [
    | inl n ↦ rw n (record { valid = v; store = λ i e. cc })
    | inr (i, e) ↦ elim (Option-cases (block_for malloc given size)) [
      | inl no_block ↦ rw (e, no_block, claim) (given_back slots i v)
      | inr (b, block) ↦
          let (s, found, free) = from_beh_found slots none i e in
          rw (e, block, claim)
            (record {
              valid = rw modify-modify (record {
                usable =
                    All-modify Usable _ slots i
                      (λ t g u h. let f = occupied-Fresh b block t in (f.buffer, f.ring)) v.usable;
                distinct =
                    Distinct-occupy _ owner slots i (λ t. (occupied-Fresh b block t).owned)
                      (from_beh-none slots owner absent) v.distinct;
              });
              store = λ j h.
                  let p : i ≡ j = cc in
                  (
                    clear (occupied malloc owner given size s),
                    subst
                        (λ k.
                          get_elem?
                            (modify (modify slots i (occupied malloc owner given size)) i clear) k
                          ≡ some (clear (occupied malloc owner given size s)))
                        p (rw modify-modify (get_elem?-modify _ slots i s found)),
                    occupied-Fresh b block s,
                  );
            })
    ]
  ]

  store_for-Created :
      (slots : List PosStore)
      → IsValid slots
      → Created (store_for malloc owner given size (reuse slots size (from_beh slots (some owner))))
  unfolding reuse clear_at clear
  store_for-Created slots v = elim (Option-cases (from_beh slots (some owner))) [
    | inl none_yet ↦ rw (none_yet, reuse) (claim-Created slots v none_yet)
    | inr (i, e) ↦
        let (s, found, mine) = from_beh_found slots (some owner) i e in
        elim (Bool-cases (s.mask + 1 == size)) [
          | inl fits ↦
              rw (e, found, fits, reuse)
                (record {
                  valid = record {
                    usable =
                        All-modify Usable clear slots i
                          (λ t g u h. let (b, r) = u h in (b, clear-IsRing r)) v.usable;
                    distinct = Distinct-drop clear slots i (λ t o h. h) v.distinct;
                  };
                  store = λ j h.
                      let p : i ≡ j = cc in
                      let o = same_ptr_iff s.owner owner mine in
                      let (b, r) =
                        All-get_elem? Usable slots i s v.usable found
                          (λ n. none≢some (sym n ∙ o)) in
                      (
                        clear s,
                        subst (λ k. get_elem? (modify slots i clear) k ≡ some (clear s)) p
                            (get_elem?-modify clear slots i s found),
                        record {
                          owned = o;
                          no_entries = refl;
                          sized = (==_iff (s.mask + 1) size).0 fits;
                          buffer = b;
                          ring = clear-IsRing r;
                        },
                      );
                })
          | inr other ↦
              rw (e, found, other, reuse)
                (claim-Created (release slots (some i)) (release-IsValid slots (some i) v)
                  (from_beh-release slots owner i v e))
        ]
  ]

  create_size_eq :
      (slots : List PosStore)
      → let r =
          store_for malloc owner given size (reuse slots size (from_beh slots (some owner))) in
        create_size malloc slots (some owner) given size ≡ (r.0, clear_at r.1 r.0)
  unfolding create_size
  create_size_eq slots = ground (arith, power, le, pos)

  -- For a size that is a power of 2 from 1 to 64, and memory of that size wherever there is memory, the
  -- call leaves a valid array of stores valid, whatever it answers.
  pub create_size-IsValid :
      (slots : List PosStore)
      → IsValid slots
      → IsValid (create_size malloc slots (some owner) given size).1
  create_size-IsValid slots v = rw (create_size_eq slots) ((store_for-Created slots v).valid)

  -- For such a size and memory, and a valid array of stores, a pointer that is not NULL is to a valid
  -- store of the caller's, of the wanted size and empty.
  pub create_size-Fresh :
      (slots : List PosStore) (i : ℕ)
      → IsValid slots
      → (create_size malloc slots (some owner) given size).0 ≡ some i
      → (s : PosStore) × (get_elem? (create_size malloc slots (some owner) given size).1 i ≡ some s)
        × Fresh owner size s
  create_size-Fresh slots i v e =
      rw (create_size_eq slots)
        ((store_for-Created slots v).store i (ap (λ r. r.0) (sym (create_size_eq slots)) ∙ e))

-- ===== src/PosStore/Ends.antt =====
-- What each operation of a position store does at the two ends of its sequence.
use ct_bot.Base.{
  ℕ, zero, suc, ap, ◌∙◌, prev, ◌+◌, ◌-◌, ◌≤◌, ◌<◌, ◌≡◌, ◌≢◌, refl, true, false, some, List, [], ◌∷◌,
  ◌++◌, arith, ◌==◌, if◌then◌else◌, set, length-set, get_or, wrap, window, window-set_end,
  window-set_front, window-snoc, get_or-window, sym,
}
use ct_bot.PosStore.{Position, PosStore, origin, insert, push, pop, dequeue, top, is_empty}
use ct_bot.PosStore.Mask.{power-le}
use ct_bot.PosStore.Ring.{
  IsRing, contents, step_up, step_down, step_back, is_full_lem, entry_lem, write_entry_lem,
}

-- The store after a push, and after an insert, that found room, and after a pop and a dequeue of a
-- position.
abbrev pub pushed : List Position → PosStore → Position → PosStore
pushed buf s pos = record s {
  buffer = some (set buf s.sp pos);
  sp = wrap (s.mask + 1) (s.sp + 1);
  count = s.count + 1;
}

abbrev pub inserted : List Position → PosStore → Position → PosStore
inserted buf s pos = record s {
  buffer = some (set buf (prev (s.mask + 1) s.fp) pos);
  fp = prev (s.mask + 1) s.fp;
  count = s.count + 1;
}

abbrev pub popped : PosStore → PosStore
popped s = record s { sp = prev (s.mask + 1) s.sp; count = s.count - 1 }

abbrev pub dequeued : PosStore → PosStore
dequeued s = record s { fp = wrap (s.mask + 1) (s.fp + 1); count = s.count - 1 }

wrap-prev : (size i : ℕ) → i < size → wrap size (prev size i + 1) ≡ i
wrap-prev size zero h = ground arith
wrap-prev size (suc i) h = ground arith

prev-lt : (size i : ℕ) → i < size → prev size i < size
prev-lt size zero h = omega arith
prev-lt size (suc i) h = omega arith

prev_if : (size i : ℕ) → prev size i ≡ (if i == 0 then size - 1 else i - 1)
prev_if size zero = ground arith
prev_if size (suc i) = ground arith

prev-wrap : (size i : ℕ) → 0 < i → i < size + size → prev size (wrap size i) ≡ wrap size (i - 1)
prev-wrap size i h k = prev_if size (wrap size i) ∙ ground arith

module _ {buf : List Position} {s : PosStore} (v : IsRing buf s) where
  pub push_room :
      (pos : Position)
      → s.count ≤ s.mask
      → (push (some s) pos ≡ (true, some (pushed buf s pos)))
        × IsRing (set buf s.sp pos) (pushed buf s pos)
        × (contents (set buf s.sp pos) (pushed buf s pos) ≡ contents buf s ++ (pos ∷ []))
  unfolding push
  push_room pos h = (
    rw (is_full_lem v, write_entry_lem v, step_up v s.sp v.sp_in)
        (ground (arith, power-le v.power)),
    record {
      array = refl;
      power = v.power;
      room = omega (arith, v.room, length-set buf s.sp pos);
      sp_in = ground (arith, v.sp_in);
      fp_in = v.fp_in;
      count_in = omega arith;
      distance = ground (arith, v.distance, v.fp_in, v.sp_in);
    },
    ap (λ n. window origin (set buf s.sp pos) (s.mask + 1) s.fp n) {x = s.count + 1}
          {y = suc s.count} (omega arith)
        ∙ window-set_end origin buf (s.mask + 1) pos s.count s.fp s.sp (omega (arith, v.room))
            (omega (arith, v.fp_in)) (omega arith) v.distance,
  )

  pub insert_room :
      (pos : Position)
      → s.count ≤ s.mask
      → let buf' = set buf (prev (s.mask + 1) s.fp) pos in
        (insert (some s) pos ≡ (true, some (inserted buf s pos)))
        × IsRing buf' (inserted buf s pos)
        × (contents buf' (inserted buf s pos) ≡ pos ∷ contents buf s)
  unfolding insert
  insert_room pos h = (
    rw (is_full_lem v, step_down v s.fp v.fp_in, write_entry_lem v)
        (ground (arith, power-le v.power)),
    record {
      array = refl;
      power = v.power;
      room = omega (arith, v.room, length-set buf (prev (s.mask + 1) s.fp) pos);
      sp_in = v.sp_in;
      fp_in = omega (arith, prev-lt (s.mask + 1) s.fp (omega (arith, v.fp_in)));
      count_in = omega arith;
      distance =
          ground
            (arith, v.distance, v.fp_in, prev-lt (s.mask + 1) s.fp, wrap-prev (s.mask + 1) s.fp);
    },
    ap
          (λ n.
            window origin (set buf (prev (s.mask + 1) s.fp) pos) (s.mask + 1)
              (prev (s.mask + 1) s.fp) n)
          {x = s.count + 1} {y = suc s.count} (omega arith)
        ∙ window-set_front origin buf (s.mask + 1) pos s.count s.fp (omega (arith, v.room))
            (omega (arith, v.fp_in)) (omega arith),
  )

  pub pop-some :
      s.count ≢ 0
      → let pos = get_or buf (prev (s.mask + 1) s.sp) origin in
        (pop (some s) ≡ (true, some pos, some (popped s)))
        × IsRing buf (popped s)
        × (contents buf s ≡ contents buf (popped s) ++ (pos ∷ []))
  unfolding pop is_empty
  pop-some ne = (
    rw (entry_lem v, step_down v s.sp v.sp_in) (ground (arith, power-le v.power, v.count_in)),
    record {
      array = v.array;
      power = v.power;
      room = v.room;
      sp_in = omega (arith, prev-lt (s.mask + 1) s.sp (omega (arith, v.sp_in)));
      fp_in = v.fp_in;
      count_in = omega (arith, v.count_in);
      distance = before;
    },
    ap (λ n. window origin buf (s.mask + 1) s.fp n) {x = s.count} {y = suc (s.count - 1)}
          (omega arith)
        ∙ window-snoc origin buf (s.mask + 1) (s.count - 1) s.fp (omega (arith, v.fp_in))
            (omega (arith, v.count_in))
        ∙ ap (λ i. contents buf (popped s) ++ (get_or buf i origin ∷ [])) (sym before),
  )
    where
      before : prev (s.mask + 1) s.sp ≡ wrap (s.mask + 1) (s.fp + (s.count - 1))
      before =
          ap (prev (s.mask + 1)) v.distance
          ∙ prev-wrap (s.mask + 1) (s.fp + s.count) (omega arith)
              (omega (arith, v.fp_in, v.count_in))
          ∙ ap (wrap (s.mask + 1)) (omega arith)

  pub dequeue-some :
      s.count ≢ 0
      → let pos = get_or buf s.fp origin in
        (dequeue (some s) ≡ (true, some pos, some (dequeued s)))
        × IsRing buf (dequeued s)
        × (contents buf s ≡ pos ∷ contents buf (dequeued s))
  unfolding dequeue is_empty
  dequeue-some ne = (
    rw (entry_lem v, step_up v s.fp v.fp_in) (ground (arith, power-le v.power, v.count_in)),
    record {
      array = v.array;
      power = v.power;
      room = v.room;
      sp_in = v.sp_in;
      fp_in = ground (arith, v.fp_in);
      count_in = omega (arith, v.count_in);
      distance = ground (arith, v.distance, v.fp_in, v.count_in);
    },
    ap (λ n. window origin buf (s.mask + 1) s.fp n) {x = s.count} {y = suc (s.count - 1)}
        (omega arith),
  )

  pub top-some :
      (index : ℕ)
      → index ≢ 0
      → index ≤ s.count
      → top (some s) index ≡ (true, some (get_or (contents buf s) (s.count - index) origin))
  unfolding top
  top-some index ne h =
      rw
        (
          entry_lem v,
          step_back v index ne h,
          get_or-window origin buf (s.mask + 1) s.count s.fp (s.count - index)
              (omega (arith, v.fp_in)) v.count_in (omega arith),
        )
        (ground arith)

  pub full :
      (pos : Position)
      → s.mask < s.count
      → (push (some s) pos ≡ (false, some s)) × (insert (some s) pos ≡ (false, some s))
  unfolding push insert
  full pos h = (rw (is_full_lem v) (ground arith), rw (is_full_lem v) (ground arith))

-- ===== src/Fifo/Block.antt =====
-- `fifo_put_data` and `fifo_get_data` against the queue.
use ct_bot.Base.{
  ℕ, ◌+◌, ◌-◌, ◌≤◌, ◌<◌, ◌≡◌, refl, sym, List, ◌++◌, arith, length-append, Bool-cases, ◌⊎◌, ◌≡⟨◌⟩◌,
  ◌∎, ap, ◌∙◌, inl, inr, length, length-drop, take, drop, take-add, wrap, window, blit, length-blit,
  window-blit, run_of, window-run_of, length-run_of, ltb, append_assoc,
}
use ct_bot.Fifo.{Fifo, write_data, read_data}
use ct_bot.Fifo.Single.{IsValid, contents}
use ct_bot.Fifo.Rounds.{first, first-le, write_data_lem, read_data_lem}

module _ {f : Fifo} (source : List ℕ) (n : ℕ) (v : IsValid f) (h : 0 < n)
    (space : f.count + n ≤ f.size) (enough : n ≤ length source) where
  two_blits :
      let a = first f.write2end n in
      window 0
        (blit
          (n - a)
          (blit a f.buffer f.pwrite source)
          (wrap f.size (f.pwrite + a))
          (drop a source))
        f.size
        f.pread
        (f.count + n)
      ≡ contents f ++ take n source
  two_blits =
      let a : ℕ = first f.write2end n in
      let e : f.count + n ≡ f.count + a + (n - a) = ground arith in
      let g : take a source ++ take (n - a) (drop a source) ≡ take n source =
        sym (take-add a (n - a) source)
        ∙ ap (λ k. take k source) {x = a + (n - a)} (ground arith) in
      rw e (
        window-blit 0 (n - a) (blit a f.buffer f.pwrite source) f.size (f.count + a) f.pread
          (wrap f.size (f.pwrite + a)) (drop a source)
          (omega (arith, v.storage, length-blit a f.buffer f.pwrite source)) v.read_in
          (ground arith) (ground arith) (ground (arith, length-drop a source)) (place a refl)
        ∙ ap (λ l. l ++ take (n - a) (drop a source))
            (window-blit 0 a f.buffer f.size f.count f.pread f.pwrite source v.storage v.read_in
              (ground arith) (ground arith) (ground arith) (inr v.distance))
        ∙ append_assoc (contents f) (take a source) (take (n - a) (drop a source))
        ∙ ap (λ l. contents f ++ l) g)
    where
      place :
          (a : ℕ)
          → a ≡ first f.write2end n
          → (n - a ≡ 0) ⊎ (wrap f.size (f.pwrite + a) ≡ wrap f.size (f.pread + (f.count + a)))
      place a e = elim (Bool-cases (ltb f.write2end n)) [
        | inl two ↦ inr (ground arith)
        | inr one ↦ inl (ground arith)
      ]

  -- In a valid queue with space for a block of `n` bytes, `n` at least 1, the block goes to the end
  -- of the contents in its order; the queue stays valid, and `locked` and `size` stay the same.
  pub write_data-contents :
      IsValid (write_data f source n)
      × (contents (write_data f source n) ≡ contents f ++ take n source)
      × ((write_data f source n).locked ≡ f.locked)
      × ((write_data f source n).size ≡ f.size)
  write_data-contents =
      let a = first f.write2end n in
      rw (write_data_lem f source n v h space enough) (
        ground (
          arith,
          length-blit a f.buffer f.pwrite source,
          length-blit (n - a) (blit a f.buffer f.pwrite source) (wrap f.size (f.pwrite + a))
              (drop a source),
        ),
        two_blits,
        refl,
        refl,
      )

module _ {f : Fifo} (n : ℕ) (v : IsValid f) (h : 0 < n) (enough : n ≤ f.count) where
  two_runs :
      let a = first f.read2end n in
      contents f
      ≡ (run_of 0 f.buffer f.pread a ++ run_of 0 f.buffer (wrap f.size (f.pread + a)) (n - a))
        ++ window 0 f.buffer f.size (wrap f.size (f.pread + n)) (f.count - n)
  two_runs =
      let a : ℕ = first f.read2end n in
      let p : ℕ = wrap f.size (f.pread + a) in
      let rest : ℕ = f.count - n in
      let s1 = run_of 0 f.buffer f.pread a in
      let s2 = run_of 0 f.buffer p (n - a) in
      contents f
      ≡⟨ ap (window 0 f.buffer f.size f.pread) (ground arith) ⟩
        window 0 f.buffer f.size f.pread (a + (n - a + rest))
      ≡⟨ window-run_of 0 f.buffer f.size a (n - a + rest) f.pread v.read_in (ground arith) ⟩
        s1 ++ window 0 f.buffer f.size p (n - a + rest)
      ≡⟨ ap (λ l. s1 ++ l)
          (window-run_of 0 f.buffer f.size (n - a) rest p (ground arith) (ground arith)) ⟩
        s1 ++ (s2 ++ window 0 f.buffer f.size (wrap f.size (p + (n - a))) rest)
      ≡⟨ sym (append_assoc s1 s2 _) ⟩
        (s1 ++ s2) ++ window 0 f.buffer f.size (wrap f.size (p + (n - a))) rest
      ≡⟨ ap (λ i. (s1 ++ s2) ++ window 0 f.buffer f.size i rest) (ground arith) ⟩
        (s1 ++ s2) ++ window 0 f.buffer f.size (wrap f.size (f.pread + n)) rest ∎

  -- From a valid queue that holds at least `n` bytes, `n` at least 1, the `n` oldest bytes are handed
  -- over in their order and leave it; the queue stays valid and ends unlocked.
  pub read_data-contents :
      IsValid (read_data f n).1
      × (contents f ≡ (read_data f n).0 ++ contents (read_data f n).1)
      × (length (read_data f n).0 ≡ n)
      × ((read_data f n).1.size ≡ f.size)
      × ((read_data f n).1.locked ≡ 0)
  read_data-contents =
      let a = first f.read2end n in
      rw (read_data_lem f n v h enough) (
        ground arith,
        two_runs,
        omega (
          arith,
          length-append (run_of 0 f.buffer f.pread a)
              (run_of 0 f.buffer (wrap f.size (f.pread + a)) (n - a)),
          length-run_of 0 f.buffer f.pread a,
          length-run_of 0 f.buffer (wrap f.size (f.pread + a)) (n - a),
          first-le f.read2end n,
        ),
        refl,
        refl,
      )

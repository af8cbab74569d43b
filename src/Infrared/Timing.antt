-- ===== src/Infrared/Timing.antt =====
-- What one sample, and a row of equal samples, do to the decoder.
use ct_bot.Base.{
  ℕ, zero, suc, ◌+◌, ◌≤◌, ◌<◌, ◌≡◌, refl, ap, ◌∙◌, Bool, true, false, not, List, [], ◌∷◌, ◌++◌,
  arith, replicate,
}
use ct_bot.Infrared.{Decoder, take_sample, level, same}

module _ (pause spb bits : ℕ) where
  -- The decoder after a list of samples.
  unfoldable pub listen : Decoder → List Bool → Decoder
  listen d [] = d
  listen d (s ∷ ss) = listen (take_sample pause spb bits d s) ss

  pub listen-append :
      (d : Decoder) (xs ys : List Bool) → listen d (xs ++ ys) ≡ listen (listen d xs) ys
  unfolding listen
  listen-append d [] ys = refl
  listen-append d (x ∷ xs) ys = listen-append (take_sample pause spb bits d x) xs ys

  same-same : (s : Bool) → same s s ≡ true
  same-same true = refl
  same-same false = refl

  same-not : (s : Bool) → same (not s) s ≡ false
  same-not true = refl
  same-not false = refl

  -- Samples without an edge, within the time of a bit, only count.
  pub listen_quiet :
      (k : ℕ) (d : Decoder)
      → spb < 250
      → d.bittimer + k ≤ spb + 2
      → listen d (replicate k d.lastsample) ≡ record d { bittimer = d.bittimer + k }
  unfolding listen take_sample level
  listen_quiet zero d h t = grind arith
  listen_quiet (suc k) d h t =
      let step : take_sample pause spb bits d d.lastsample
          ≡ record d { bittimer = d.bittimer + 1 } =
        rw (same-same d.lastsample) (ground arith) in
      ap (λ e. listen e (replicate k d.lastsample)) step
      ∙ listen_quiet k (record d { bittimer = d.bittimer + 1 }) h (omega arith)
      ∙ ground arith

-- ===== src/Infrared/Silence.antt =====
-- Where a frame begins and ends: the edge behind a pause, and the silence behind the last bit.
use ct_bot.Base.{
  ℕ, zero, suc, ◌+◌, ◌*◌, ◌≤◌, ◌<◌, ◌≡◌, ◌≢◌, refl, ap, ◌∙◌, Bool, true, false, ◌∷◌, ◌++◌, arith,
  replicate,
}
use ct_bot.Infrared.{Decoder, take_sample, edge, level}
use ct_bot.Infrared.Timing.{listen, listen-append}
use ct_bot.Infrared.Decode.{behind, take_repeated, lasts}

module _ (pause k bits : ℕ) (enough : 2 ≤ k) (few : k < 120) where
  abbrev spb : ℕ
  spb = 2 * (k + 1)

  -- The start bit's edge, after a pause.
  starts :
      (d : Decoder)
      → 2 ≤ pause
      → pause < 255
      → pause ≤ d.bittimer
      → d.bittimer ≤ 255
      → d.bitcount ≡ 0
      → d.lastsample ≡ false
      → take_sample pause spb bits d true
        ≡ record d { lastsample = true; bittimer = 0; data_tmp = 1; bitcount = 1 }
  unfolding take_sample edge
  starts d low high p q c e = grind (arith, low, high, p, q, c, e)

  pub start_bit :
      (d : Decoder)
      → 2 ≤ pause
      → pause < 255
      → pause ≤ d.bittimer
      → d.bittimer ≤ 255
      → d.bitcount ≡ 0
      → d.lastsample ≡ false
      → listen pause spb bits d (replicate (suc k) true) ≡ behind pause k bits enough few d true 1 1
  start_bit d low high p q c e =
      take_repeated pause k bits enough few d true k
      ∙ ap (λ f. listen pause spb bits f (replicate k true)) (starts d low high p q c e)
      ∙ lasts pause k bits enough few
          (record d { lastsample = true; bittimer = 0; data_tmp = 1; bitcount = 1 }) true k refl
          (omega arith)
      ∙ grind arith

  -- Silence behind pause k bits enough few the last bit: the first sample may be an edge, the last one ends the frame.
  falls :
      (d : Decoder) (s : Bool) (n count : ℕ)
      → count ≢ 0
      → take_sample pause spb bits (behind pause k bits enough few d s n count) false
        ≡ record (behind pause k bits enough few d s n count) {
          lastsample = false;
          bittimer = k + 1;
        }
  unfolding take_sample edge level
  falls d true n count c = grind (arith, few, enough, c)
  falls d false n count c = grind (arith, few, enough, c)

  ends :
      (d : Decoder) (n : ℕ)
      → take_sample pause spb bits
          (record d { lastsample = false; bittimer = 2 * k + 4; data_tmp = n; bitcount = bits })
          false
        ≡ record d {
          lastsample = false;
          bittimer = 2 * k + 5;
          data_tmp = n;
          bitcount = 0;
          ir_data = n;
        }
  unfolding take_sample level
  ends d n = grind (arith, few)

  silent :
      (m : ℕ) (d : Decoder)
      → bits ≢ 0
      → d.bitcount ≡ 0
      → d.lastsample ≡ false
      → (listen pause spb bits d (replicate m false)).ir_data ≡ d.ir_data
  unfolding listen take_sample level
  silent zero d b c e = refl
  silent (suc m) d b c e =
      let next : Decoder = take_sample pause spb bits d false in
      silent m next b (grind (arith, c, e)) (grind (arith, e)) ∙ grind (arith, b, c, e)

  pub frame_end :
      (m : ℕ) (d : Decoder) (s : Bool) (n : ℕ)
      → bits ≢ 0
      → (listen pause spb bits
          (behind pause k bits enough few d s n bits)
          (replicate (suc (k + 3) + suc m) false)).ir_data
        ≡ n
  frame_end m d s n b =
      ap (λ l. (listen pause spb bits (behind pause k bits enough few d s n bits) l).ir_data)
        (replicate-add (suc (k + 3)) (suc m))
      ∙ ap (λ f. f.ir_data)
          (listen-append pause spb bits (behind pause k bits enough few d s n bits)
            (replicate (suc (k + 3)) false) (replicate (suc m) false))
      ∙ ap (λ f. (listen pause spb bits f (replicate (suc m) false)).ir_data) waited
      ∙ ap (λ f. f.ir_data) (take_repeated pause k bits enough few late_one false m)
      ∙ ap (λ f. (listen pause spb bits f (replicate m false)).ir_data) (ends d n)
      ∙ silent m _ b refl refl
    where
      replicate-add : (i j : ℕ) → replicate (i + j) false ≡ replicate i false ++ replicate j false
      replicate-add zero j = ap (λ x. replicate x false) (omega arith)
      replicate-add (suc i) j =
          ap (λ x. replicate x false) {x = suc i + j} {y = suc (i + j)} (omega arith)
          ∙ ap (λ l. false ∷ l) (replicate-add i j)

      low : Decoder
      low = record (behind pause k bits enough few d s n bits) {
        lastsample = false;
        bittimer = k + 1;
      }

      late_one : Decoder
      late_one = record d {
        lastsample = false;
        bittimer = 2 * k + 4;
        data_tmp = n;
        bitcount = bits;
      }

      waited :
          listen pause spb bits
            (behind pause k bits enough few d s n bits)
            (replicate (suc (k + 3)) false)
          ≡ late_one
      waited =
          take_repeated pause k bits enough few (behind pause k bits enough few d s n bits) false
            (k + 3)
          ∙ ap (λ f. listen pause spb bits f (replicate (k + 3) false)) (falls d s n bits b)
          ∙ lasts pause k bits enough few low false (k + 3) refl (omega arith)
          ∙ grind arith

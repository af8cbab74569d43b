-- ===== src/Infrared/Frame.antt =====
-- A whole frame, from the pin to `ir_read`.
use ct_bot.Base.{
  ℕ, suc, ◌+◌, ◌*◌, ◌≤◌, ◌<◌, ◌≡◌, refl, ap, ◌∙◌, Bool, true, false, List, [], ◌∷◌, ◌++◌, arith,
  replicate, length, map,
}
use ct_bot.Infrared.{Decoder, take_sample, ir_isr, ir_read, sample_of}
use ct_bot.Infrared.Timing.{listen, listen-append}
use ct_bot.Infrared.Decode.{bits_signal, number_of, behind, last_of, all_bits}
use ct_bot.Infrared.Silence.{start_bit, frame_end}

-- The calls of the interrupt routine with the values of the port, in order.
unfoldable pub interrupts : (pause spb bits pin : ℕ) → Decoder → List ℕ → Decoder
unfolding ir_isr
interrupts pause spb bits pin d [] = d
interrupts pause spb bits pin d (port ∷ ports) =
    interrupts pause spb bits pin (ir_isr pause spb bits pin d port) ports

interrupts-listen :
    (pause spb bits pin : ℕ) (d : Decoder) (ports : List ℕ)
    → interrupts pause spb bits pin d ports ≡ listen pause spb bits d (map (sample_of pin) ports)
unfolding interrupts ir_isr listen
interrupts-listen pause spb bits pin d [] = refl
interrupts-listen pause spb bits pin d (port ∷ ports) =
    interrupts-listen pause spb bits pin (take_sample pause spb bits d (sample_of pin port)) ports

module _ (pause k bits pin : ℕ) (enough : 2 ≤ k) (few : k < 120) where
  -- After a pause, the samples of a start bit and of `bits` - 1 further Manchester coded bits, each of two
  -- halves of k + 1 samples (from 3 to 120), and k + 5 or more samples of silence, are decoded to the
  -- number that the bits stand for: `ir_read` gives it once, and then the code for no data.
  pub ir_read-interrupts :
      (d : Decoder) (ports : List ℕ) (bs : List Bool) (m : ℕ)
      → 2 ≤ pause
      → pause < 255
      → pause ≤ d.bittimer
      → d.bittimer ≤ 255
      → d.bitcount ≡ 0
      → d.lastsample ≡ false
      → 1 + length bs ≡ bits
      → bits < 256
      → map (sample_of pin) ports
        ≡ replicate (suc k) true
          ++ (bits_signal (suc k) bs ++ replicate (suc (k + 3) + suc m) false)
      → let r = ir_read (interrupts pause (2 * (k + 1)) bits pin d ports) in
        (r.0 ≡ number_of 1 bs) × ((ir_read r.1).0 ≡ r.1.no_data)
  unfolding ir_read
  ir_read-interrupts d ports bs m low high p q c e n short signal = (
    ap (λ f. f.ir_data) heard
        ∙ frame_end pause k bits enough few m d (last_of pause k bits enough few true bs)
            (number_of 1 bs) (omega arith),
    refl,
  )
    where
      spb : ℕ
      spb = 2 * (k + 1)

      heard :
          interrupts pause spb bits pin d ports
          ≡ listen pause spb bits
              (behind pause k bits enough few d
                (last_of pause k bits enough few true bs)
                (number_of 1 bs)
                bits)
              (replicate (suc (k + 3) + suc m) false)
      heard =
          interrupts-listen pause spb bits pin d ports
          ∙ ap (listen pause spb bits d) signal
          ∙ listen-append pause spb bits d (replicate (suc k) true)
              (bits_signal (suc k) bs ++ replicate (suc (k + 3) + suc m) false)
          ∙ ap
              (λ f.
                listen pause spb bits f
                  (bits_signal (suc k) bs ++ replicate (suc (k + 3) + suc m) false))
              (start_bit pause k bits enough few d low high p q c e)
          ∙ listen-append pause spb bits (behind pause k bits enough few d true 1 1)
              (bits_signal (suc k) bs) (replicate (suc (k + 3) + suc m) false)
          ∙ ap (λ f. listen pause spb bits f (replicate (suc (k + 3) + suc m) false))
              (all_bits pause k bits enough few bs d true 1 1 (omega arith) (omega arith)
                ∙ ap
                    (behind pause k bits enough few d (last_of pause k bits enough few true bs)
                      (number_of 1 bs))
                    n)

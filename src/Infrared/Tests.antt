-- ===== src/Infrared/Tests.antt =====
-- A frame of a beacon: a start bit and four bits of six samples.
use ct_bot.Base.{
  ℕ, ◌+◌, ◌*◌, ◌≡◌, refl, Bool, true, false, List, [], ◌∷◌, ◌++◌, arith, replicate, map,
  if◌then◌else◌,
}
use ct_bot.Infrared.{Decoder, ir_read, sample_of}
use ct_bot.Infrared.Decode.{bits_signal, number_of}
use ct_bot.Infrared.Frame.{interrupts, ir_read-interrupts}

abbrev rested : Decoder
rested = record {
  lastsample = false;
  bittimer = 255;
  data_tmp = 0;
  bitcount = 0;
  ir_data = 0;
  no_data = 0;
}

abbrev code : List Bool
code = true ∷ false ∷ true ∷ true ∷ []

abbrev signal : List Bool
signal = replicate 3 true ++ (bits_signal 3 code ++ replicate 7 false)

-- Bit 2 of the port is low for the sample 1.
abbrev ports : List ℕ
ports = map (λ s. if s then 8 else 12) signal

ports_signal : map (sample_of 2) ports ≡ signal
unfolding sample_of
ports_signal = refl

ir_read-interrupts_example :
    let r = ir_read (interrupts 20 (2 * (2 + 1)) 5 2 rested ports) in
    (r.0 ≡ number_of 1 code) × ((ir_read r.1).0 ≡ r.1.no_data)
ir_read-interrupts_example =
    ir_read-interrupts 20 2 5 2 (omega arith) (omega arith) rested ports code 0 (omega arith)
      (omega arith) (omega arith) (omega arith) refl refl refl (omega arith) ports_signal

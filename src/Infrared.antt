-- ===== src/Infrared.antt =====
-- mcu/ir-rc5.c: the decoder of the infrared remote control (and of the beacons), an interrupt routine
-- that looks at the receiver's pin at regular times. The bits of a frame are Manchester coded: a bit
-- is the level behind the edge in its middle.
pub mod Timing
pub mod Decode
pub mod Silence
pub mod Frame
mod Tests
use ct_bot.Base.{
  ℕ, ◌+◌, ◌*◌, ◌%◌, ◌^◌, Bool, true, false, ◌&&◌, List, [], ◌∷◌, ltb, leb, ◌==◌, if◌then◌else◌,
  bit_and,
}

-- `ir_data_t`; `lastsample` is 0 or 1.
pub record Decoder : Type 0 where
  pub lastsample : Bool
  pub bittimer : ℕ
  pub data_tmp : ℕ
  pub bitcount : ℕ
  pub ir_data : ℕ
  pub no_data : ℕ

abbrev pub ir_samples_per_bit_min : ℕ
ir_samples_per_bit_min = 2

abbrev pub number : Bool → ℕ
number false = 0
number true = 1

abbrev pub same : Bool → Bool → Bool
same false false = true
same false true = false
same true false = false
same true true = true

-- The pin is low for the sample 1.
unfoldable pub sample_of : ℕ → ℕ → Bool
sample_of pin port = bit_and port (2 ^ pin) == 0

-- The bit timer stays at 255.
abbrev pub ticked : ℕ → ℕ
ticked t = if ltb t 255 then t + 1 else t

module _ (pause_samples samples_per_bit bits : ℕ) where
  abbrev pub early : ℕ
  early = (samples_per_bit + 254) % 256

  abbrev pub late : ℕ
  late = (samples_per_bit + 2) % 256

  -- The branch of an edge, with the timer's new value `t`; shifted left, a number's lowest bit is 0.
  unfoldable pub edge : Decoder → Bool → ℕ → Decoder
  edge d sample t =
      if leb t ir_samples_per_bit_min
      then record d { bitcount = 0; bittimer = t }
      else if d.bitcount == 0
      then (if sample && ltb pause_samples t
          then record d { data_tmp = 1; bitcount = 1; bittimer = 0 }
          else record d { data_tmp = 0; bittimer = 0 })
      else if leb early t
      then (if leb t late
          then record d {
            data_tmp = (2 * d.data_tmp + number sample) % 2 ^ 16;
            bitcount = (d.bitcount + 1) % 256;
            bittimer = 0;
          }
          else record d { bitcount = 0; bittimer = 0 })
      else record d { bittimer = t }

  -- The branch without an edge.
  unfoldable pub level : Decoder → ℕ → Decoder
  level d t =
      if ltb late t
      then record d {
        ir_data = if d.bitcount == bits then d.data_tmp else d.ir_data;
        bitcount = 0;
        bittimer = t;
      }
      else record d { bittimer = t }

  -- `ir_isr` behind the read of the pin.
  unfoldable pub take_sample : Decoder → Bool → Decoder
  unfolding edge level
  take_sample d sample =
      let t = ticked d.bittimer in
      let d' = if same d.lastsample sample then level d t else edge d sample t in
      record d' { lastsample = sample }

  -- `ir_isr` with the value of the input port.
  unfoldable pub ir_isr : ℕ → Decoder → ℕ → Decoder
  unfolding take_sample sample_of
  ir_isr pin d port = take_sample d (sample_of pin port)

-- `ir_read`
unfoldable pub ir_read : Decoder → ℕ × Decoder
ir_read d = (d.ir_data, record d { ir_data = d.no_data })

-- ===== src/Infrared/Decode.antt =====
-- The decoder on the samples of one Manchester coded bit, and of a row of bits.
use ct_bot.Base.{
  ℕ, suc, ◌+◌, ◌*◌, ◌%◌, ◌^◌, ◌≤◌, ◌<◌, ◌≡◌, ◌≢◌, refl, ap, ◌∙◌, Bool, true, false, not, List, [],
  ◌∷◌, ◌++◌, arith, replicate, length, Bool-cases, inl, inr,
}
use ct_bot.Infrared.{Decoder, take_sample, edge, same, number}
use ct_bot.Infrared.Timing.{listen, listen-append, listen_quiet}

-- The level in the two halves of a bit, of `half` samples each.
abbrev pub bit_signal : ℕ → Bool → List Bool
bit_signal half b = replicate half (not b) ++ replicate half b

abbrev pub bits_signal : ℕ → List Bool → List Bool
bits_signal half [] = []
bits_signal half (b ∷ bs) = bit_signal half b ++ bits_signal half bs

-- The number that the bits stand for behind those that `n` stands for, in 16 bits.
abbrev pub number_of : ℕ → List Bool → ℕ
number_of n [] = n
number_of n (b ∷ bs) = number_of ((2 * n + number b) % 2 ^ 16) bs

module _ (pause k bits : ℕ) (enough : 2 ≤ k) (few : k < 120) where
  abbrev spb : ℕ
  spb = 2 * (k + 1)

  pub take_repeated :
      (d : Decoder) (s : Bool) (n : ℕ)
      → listen pause spb bits d (replicate (suc n) s)
        ≡ listen pause spb bits (take_sample pause spb bits d s) (replicate n s)
  unfolding listen
  take_repeated d s n = refl

  -- The edge between two equal bits comes too early to count.
  between :
      (d : Decoder) (s : Bool)
      → d.bittimer ≡ k
      → d.bitcount ≢ 0
      → d.lastsample ≡ not s
      → take_sample pause spb bits d s ≡ record d { lastsample = s; bittimer = k + 1 }
  unfolding take_sample edge
  between d true t c e = grind (arith, t, c, e, few, enough)
  between d false t c e = grind (arith, t, c, e, few, enough)

  -- The edge in the middle of a bit stores it.
  middle :
      (d : Decoder) (s : Bool)
      → d.bittimer ≡ 2 * k + 1
      → d.bitcount ≢ 0
      → d.lastsample ≡ not s
      → take_sample pause spb bits d s ≡ record d {
        lastsample = s;
        bittimer = 0;
        data_tmp = (2 * d.data_tmp + number s) % 2 ^ 16;
        bitcount = (d.bitcount + 1) % 256;
      }
  unfolding take_sample edge
  middle d true t c e = grind (arith, t, c, e, few, enough)
  middle d false t c e = grind (arith, t, c, e, few, enough)

  -- A level that lasts.
  pub lasts :
      (d : Decoder) (s : Bool) (n : ℕ)
      → d.lastsample ≡ s
      → d.bittimer + n ≤ spb + 2
      → listen pause spb bits d (replicate n s) ≡ record d { bittimer = d.bittimer + n }
  lasts d s n e h = rw (← e) (listen_quiet pause spb bits n d (omega arith) h)

  first_half :
      (d : Decoder) (s : Bool)
      → d.bittimer ≡ k
      → d.bitcount ≢ 0
      → listen pause spb bits d (replicate (suc k) s)
        ≡ record d { lastsample = s; bittimer = 2 * k + 1 }
  first_half d s t c = elim (Bool-cases (same d.lastsample s)) [
    | inl level_stays ↦
        lasts d s (suc k) (equal d.lastsample s level_stays) (omega (arith, t))
        ∙ grind (arith, equal d.lastsample s level_stays)
    | inr changed ↦
        take_repeated d s k
        ∙ ap (λ e. listen pause spb bits e (replicate k s))
            (between d s t c (other d.lastsample s changed))
        ∙ lasts (record d { lastsample = s; bittimer = k + 1 }) s k refl (omega arith)
        ∙ grind arith
  ]
    where
      equal : (a b : Bool) → same a b ≡ true → a ≡ b
      equal true true e = refl
      equal true false e = cc
      equal false true e = cc
      equal false false e = refl

      other : (a b : Bool) → same a b ≡ false → a ≡ not b
      other true true e = cc
      other true false e = refl
      other false true e = refl
      other false false e = cc

  -- The decoder in a frame, behind the second half of a bit.
  abbrev pub behind : Decoder → Bool → ℕ → ℕ → Decoder
  behind d s n count = record d { lastsample = s; bittimer = k; data_tmp = n; bitcount = count }

  one_bit :
      (d : Decoder) (s : Bool)
      → d.bittimer ≡ k
      → d.bitcount ≢ 0
      → listen pause spb bits d (bit_signal (suc k) s)
        ≡ behind d s ((2 * d.data_tmp + number s) % 2 ^ 16) ((d.bitcount + 1) % 256)
  one_bit d s t c =
      listen-append pause spb bits d (replicate (suc k) (not s)) (replicate (suc k) s)
      ∙ ap (λ e. listen pause spb bits e (replicate (suc k) s)) (first_half d (not s) t c)
      ∙ take_repeated half s k
      ∙ ap (λ e. listen pause spb bits e (replicate k s)) (middle half s refl c refl)
      ∙ lasts stored s k refl (omega arith)
      ∙ grind arith
    where
      half : Decoder
      half = record d { lastsample = not s; bittimer = 2 * k + 1 }

      stored : Decoder
      stored = record d {
        lastsample = s;
        bittimer = 0;
        data_tmp = (2 * d.data_tmp + number s) % 2 ^ 16;
        bitcount = (d.bitcount + 1) % 256;
      }

  abbrev pub last_of : Bool → List Bool → Bool
  last_of s [] = s
  last_of s (b ∷ bs) = last_of b bs

  pub all_bits :
      (bs : List Bool) (d : Decoder) (s : Bool) (n count : ℕ)
      → count ≢ 0
      → count + length bs < 256
      → listen pause spb bits (behind d s n count) (bits_signal (suc k) bs)
        ≡ behind d (last_of s bs) (number_of n bs) (count + length bs)
  unfolding listen
  all_bits [] d s n count c h = grind arith
  all_bits (b ∷ bs) d s n count c h =
      listen-append pause spb bits (behind d s n count) (bit_signal (suc k) b)
        (bits_signal (suc k) bs)
      ∙ ap (λ e. listen pause spb bits e (bits_signal (suc k) bs))
          (one_bit (behind d s n count) b refl c)
      ∙ ap
          (λ c'.
            listen pause spb bits (behind d b ((2 * n + number b) % 2 ^ 16) c')
              (bits_signal (suc k) bs))
          {x = (count + 1) % 256} {y = count + 1} (omega arith)
      ∙ all_bits bs d b ((2 * n + number b) % 2 ^ 16) (count + 1) (omega arith) (omega arith)
      ∙ ap (behind d (last_of b bs) (number_of ((2 * n + number b) % 2 ^ 16) bs)) (omega arith)

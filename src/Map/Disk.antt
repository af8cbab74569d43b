-- ===== src/Map/Disk.antt =====
-- A file system in memory, without faults: an example of what the map of map.c is used with.
use ct_bot.Base.{
  ℕ, zero, suc, ap, sym, ◌+◌, ◌-◌, ◌≤◌, ◌<◌, ◌≡◌, ◌⊎◌, refl, false, ◌&&◌, List, [], ◌∷◌, arith,
  length, get_or, ltb, leb, if◌then◌else◌, ◌∙◌, ap₂,
}
use ct_bot.Map.Sdfat.{Sdfat, IsReliable}

pub record Disk : Type 0 where
  pub place : ℕ
  pub byte : ℕ → ℕ

abbrev pub from : (ℕ → ℕ) → ℕ → ℕ → List ℕ
from f zero o = []
from f (suc n) o = f o ∷ from f n (suc o)

pub length-from : (f : ℕ → ℕ) (n o : ℕ) → length (from f n o) ≡ n
length-from f zero o = refl
length-from f (suc n) o = ap suc (length-from f n (suc o))

from-same :
    (f g : ℕ → ℕ) (n o : ℕ) → ((i : ℕ) → o ≤ i → i < o + n → f i ≡ g i) → from f n o ≡ from g n o
from-same f g zero o e = refl
from-same f g (suc n) o e =
    ap₂ (λ a l. a ∷ l) (e o (omega arith) (omega arith))
      (from-same f g n (suc o) (λ i h k. e i (omega (arith, h)) (omega (arith, k))))

from-get_or :
    (f : ℕ → ℕ) (xs : List ℕ) (n o : ℕ)
    → length xs ≡ n
    → ((i : ℕ) → i < n → f (o + i) ≡ get_or xs i 0)
    → from f n o ≡ xs
from-get_or f [] zero o l e = refl
from-get_or f [] (suc n) o l e = absurd (omega arith)
from-get_or f (x ∷ xs) zero o l e = absurd (omega arith)
from-get_or f (x ∷ xs) (suc n) o l e =
    let z : o + 0 ≡ o = omega arith in
    ap₂ (λ a r. a ∷ r) (ap f (sym z) ∙ e 0 (omega arith))
      (from-get_or f xs n (suc o) (omega arith) (λ i h.
        let c : suc o + i ≡ o + suc i = omega arith in ap f c ∙ e (suc i) (omega (arith, h))))

abbrev pub over : List ℕ → ℕ → Disk → ℕ → ℕ
over buffer n d i =
    if leb d.place i && ltb i (d.place + n) then get_or buffer (i - d.place) 0 else d.byte i

pub over-same :
    (buffer : List ℕ) (n : ℕ) (d : Disk)
    → length buffer ≡ n
    → from (over buffer n d) n d.place ≡ buffer
over-same buffer n d l = from-get_or (over buffer n d) buffer n d.place l λ i k.
    let e : d.place + i - d.place ≡ i = omega arith in
    ground (arith, k, ap (λ j. get_or buffer j 0) e)

pub over-apart :
    (buffer : List ℕ) (n : ℕ) (d : Disk) (q m : ℕ)
    → (q + m ≤ d.place) ⊎ (d.place + n ≤ q)
    → from (over buffer n d) m q ≡ from d.byte m q
over-apart buffer n d q m a =
    from-same (over buffer n d) d.byte m q λ i h k. ground (arith, a, h, k)

abbrev pub disk : Sdfat
disk = record {
  File = Disk;
  seek = λ o d. (false, record d { place = o });
  rewind = λ d. record d { place = 0 };
  read = λ buffer n d. (n, from d.byte n d.place, record d { place = d.place + n });
  write = λ buffer n d. (n, record d { place = d.place + n; byte = over buffer n d });
  flush = λ d. d;
}

abbrev pub reliable : IsReliable disk
reliable = record {
  size = λ _. 3000000;
  place = λ d. d.place;
  bytes = λ d o. from d.byte 512 o;
  length-bytes = λ d o. length-from d.byte 512 o;
  seek_lem = λ o d h. (refl, refl, refl, λ _. refl);
  rewind_lem = λ d. (refl, refl, λ _. refl);
  read_lem = λ buffer d h. (refl, refl, refl, λ _. refl);
  write_lem = λ buffer d l h.
      (refl, refl, over-same buffer 512 d l, λ q a. over-apart buffer 512 d q 512 a);
  flush_lem = λ d. (refl, λ _. refl);
}

-- ===== src/Base/Window.antt =====
-- Windows of an array that is used as a ring: the `n` entries from index `h` on, going round at
-- `size`. An index past the end by less than `size` is brought back by one subtraction.
use Prim.Native.Nat.{ℕ, zero, suc, ◌+◌, ◌-◌, ◌≤◌, ◌<◌}
use mathlib.Core.Path.{◌≡◌, refl, sym, ap, ap₂, ◌∙◌}
use mathlib.Core.Logic.{◌⊎◌, inl, inr}
use mathlib.Core.List.{List, [], ◌∷◌, ◌++◌, append-nil, append_assoc}
use native.Mathlib.Omega.{arith}
use ct_bot.Base.Tests.{ltb, if◌then◌else◌}
use ct_bot.Base.Lists.{length, get_or, set, take, length-set, get_or-set_self, get_or-set_ne}

abbrev pub wrap : ℕ → ℕ → ℕ
wrap size i = if ltb i size then i else i - size

abbrev pub prev : ℕ → ℕ → ℕ
prev size zero = size - 1
prev size (suc i) = i

module _ {ℓ} {A : Type ℓ} where
  -- The array after `n` entries from the front of a list are copied to `p` and on.
  abbrev pub blit : ℕ → List A → ℕ → List A → List A
  blit zero buf p xs = buf
  blit (suc n) buf p [] = buf
  blit (suc n) buf p (x ∷ xs) = blit n (set buf p x) (p + 1) xs

  pub length-blit :
      (n : ℕ) (buf : List A) (p : ℕ) (xs : List A) → length (blit n buf p xs) ≡ length buf
  length-blit zero buf p xs = refl
  length-blit (suc n) buf p [] = refl
  length-blit (suc n) buf p (x ∷ xs) = length-blit n (set buf p x) (p + 1) xs ∙ length-set buf p x

-- The place after one that ends a window ends the longer window, while there is room.
next_place :
    (n h m p size : ℕ)
    → h < size
    → m + suc n ≤ size
    → p + suc n ≤ size
    → (suc n ≡ 0) ⊎ (p ≡ wrap size (h + m))
    → (n ≡ 0) ⊎ (p + 1 ≡ wrap size (h + suc m))
next_place zero h m p size hh hm hp at = inl refl
next_place (suc n) h m p size hh hm hp (inl e) = absurd (omega arith)
next_place (suc n) h m p size hh hm hp (inr e) = inr (ground arith)

module _ {ℓ} {A : Type ℓ} (d : A) where
  abbrev pub window : List A → ℕ → ℕ → ℕ → List A
  window buf size h zero = []
  window buf size h (suc n) = get_or buf h d ∷ window buf size (wrap size (h + 1)) n

  pub length-window : (buf : List A) (size h n : ℕ) → length (window buf size h n) ≡ n
  length-window buf size h zero = refl
  length-window buf size h (suc n) = ap suc (length-window buf size (wrap size (h + 1)) n)

  -- A write outside a window does not show in it.
  pub window-set_outside :
      (buf : List A) (size : ℕ) (x : A) (n h i : ℕ)
      → h < size
      → i < size
      → n ≤ (if ltb i h then i + size - h else i - h)
      → window (set buf i x) size h n ≡ window buf size h n
  window-set_outside buf size x zero h i hh hi hn = refl
  window-set_outside buf size x (suc n) h i hh hi hn =
      ap₂ ◌∷◌ (get_or-set_ne buf i h x d (ground arith))
        (window-set_outside buf size x n (wrap size (h + 1)) i (ground arith) hi (ground arith))

  -- A window longer by one at its end.
  pub window-snoc :
      (buf : List A) (size n h : ℕ)
      → h < size
      → n < size
      → window buf size h (suc n) ≡ window buf size h n ++ (get_or buf (wrap size (h + n)) d ∷ [])
  window-snoc buf size zero h hh hn = ap (λ i. get_or buf i d ∷ []) (ground arith)
  window-snoc buf size (suc n) h hh hn =
      ap (λ l. get_or buf h d ∷ l)
        (window-snoc buf size n (wrap size (h + 1)) (ground arith) (ground arith)
          ∙ ap (λ i. window buf size (wrap size (h + 1)) n ++ (get_or buf i d ∷ [])) (ground arith))

  -- Writing just past a window extends it at its end.
  pub window-set_end :
      (buf : List A) (size : ℕ) (x : A) (n h i : ℕ)
      → size ≤ length buf
      → h < size
      → n < size
      → i ≡ wrap size (h + n)
      → window (set buf i x) size h (suc n) ≡ window buf size h n ++ (x ∷ [])
  window-set_end buf size x n h i hs hh hn e =
      window-snoc (set buf i x) size n h hh hn
      ∙ ap₂ (λ l y. l ++ (y ∷ []))
          (window-set_outside buf size x n h i hh (ground arith) (ground arith))
          (ap (λ j. get_or (set buf i x) j d) {x = wrap size (h + n)} {y = i} (ground arith)
            ∙ get_or-set_self buf i x d (ground arith))

  -- Writing just before a window extends it at its front.
  pub window-set_front :
      (buf : List A) (size : ℕ) (x : A) (n h : ℕ)
      → size ≤ length buf
      → h < size
      → n < size
      → window (set buf (prev size h) x) size (prev size h) (suc n) ≡ x ∷ window buf size h n
  window-set_front buf size x n zero hs hh hn =
      ap₂ ◌∷◌ (get_or-set_self buf (size - 1) x d (omega arith)) (
        ap (λ i. window (set buf (size - 1) x) size i n) {x = wrap size (size - 1 + 1)} {y = 0}
          (ground arith)
        ∙ window-set_outside buf size x n 0 (size - 1) hh (omega arith) (ground arith))
  window-set_front buf size x n (suc h) hs hh hn =
      ap₂ ◌∷◌ (get_or-set_self buf h x d (omega arith)) (
        ap (λ i. window (set buf h x) size i n) {x = wrap size (h + 1)} {y = suc h} (ground arith)
        ∙ window-set_outside buf size x n (suc h) h hh (omega arith) (ground arith))

  -- The entries of a window by their position.
  pub get_or-window :
      (buf : List A) (size n h i : ℕ)
      → h < size
      → n ≤ size
      → i < n
      → get_or (window buf size h n) i d ≡ get_or buf (wrap size (h + i)) d
  get_or-window buf size zero h i hh hn hi = absurd (omega arith)
  get_or-window buf size (suc n) h zero hh hn hi = ap (λ j. get_or buf j d) (ground arith)
  get_or-window buf size (suc n) h (suc i) hh hn hi =
      get_or-window buf size n (wrap size (h + 1)) i (ground arith) (omega arith) (omega arith)
      ∙ ap (λ j. get_or buf j d) (ground arith)

  -- The entries from `p` on, with no way round the end.
  abbrev pub run_of : List A → ℕ → ℕ → List A
  run_of buf p zero = []
  run_of buf p (suc n) = get_or buf p d ∷ run_of buf (p + 1) n

  pub length-run_of : (buf : List A) (p n : ℕ) → length (run_of buf p n) ≡ n
  length-run_of buf p zero = refl
  length-run_of buf p (suc n) = ap suc (length-run_of buf (p + 1) n)

  -- A window begins with the run up to the end of the array.
  pub window-run_of :
      (buf : List A) (size n m h : ℕ)
      → h < size
      → h + n ≤ size
      → window buf size h (n + m) ≡ run_of buf h n ++ window buf size (wrap size (h + n)) m
  window-run_of buf size zero m h hh hn =
      ap₂ (λ i k. window buf size i k) {x = h} {y = wrap size (h + 0)} (ground arith) (omega arith)
  window-run_of buf size (suc zero) m h hh hn = let e : 1 + m ≡ suc m = omega arith in rw e
  window-run_of buf size (suc (suc n)) m h hh hn =
      let e : suc (suc n) + m ≡ suc (suc n + m) = omega arith in
      rw e (
        ap (λ l. get_or buf h d ∷ l)
          (ap (λ i. window buf size i (suc n + m)) {x = wrap size (h + 1)} {y = h + 1}
              (ground arith)
            ∙ window-run_of buf size (suc n) m (h + 1) (omega arith) (omega arith)
            ∙ ap (λ i. run_of buf (h + 1) (suc n) ++ window buf size (wrap size i) m)
                (omega arith)))

  -- Copying just past a window extends it by what is copied.
  pub window-blit :
      (n : ℕ) (buf : List A) (size m h p : ℕ) (xs : List A)
      → size ≤ length buf
      → h < size
      → m + n ≤ size
      → p + n ≤ size
      → n ≤ length xs
      → (n ≡ 0) ⊎ (p ≡ wrap size (h + m))
      → window (blit n buf p xs) size h (m + n) ≡ window buf size h m ++ take n xs
  window-blit zero buf size m h p xs hs hh hm hp hx at =
      ap (λ k. window buf size h k) {x = m + 0} {y = m} (omega arith) ∙ sym (append-nil _)
  window-blit (suc n) buf size m h p [] hs hh hm hp hx at = absurd (omega arith)
  window-blit (suc n) buf size m h p (x ∷ xs) hs hh hm hp hx at =
      let e : m + suc n ≡ suc m + n = omega arith in
      rw e (
        window-blit n (set buf p x) size (suc m) h (p + 1) xs (omega (arith, length-set buf p x)) hh
          (omega arith) (omega arith) (omega arith) (next_place n h m p size hh (omega arith) hp at)
        ∙ ap (λ l. l ++ take n xs)
            (window-set_end buf size x m h p hs hh (omega arith) (ground arith))
        ∙ append_assoc (window buf size h m) (x ∷ []) (take n xs))

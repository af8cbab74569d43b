-- ===== src/Abl/Loops.antt =====
-- The search of endf() in behaviour_abl.c, from the end of a row of instructions to its beginning.
use ct_bot.Base.{
  ℕ, suc, ap, ap₂, sym, subst, ◌∙◌, ◌+◌, ◌%◌, ◌≡◌, refl, Bool, true, false, not, ◌&&◌, ◌||◌, List,
  [], ◌∷◌, ◌++◌, append_assoc, length, length-append, arith, ltb, if◌then◌else◌,
}
use ct_bot.Abl.{Instruction, Ending, is_for, is_endf, is_unknown, search_for}
use ct_bot.Abl.Listing.{Item, Machine, overlay, listing}
use ct_bot.Abl.Blocks.{IsPlain, Block, at, behind, behind-append}

-- The number of loops in a block.
unfoldable pub loops : {xs : List Item} → Block xs → ℕ
loops Block.end = 0
loops (Block.line x p c) = loops c
loops (Block.loop x y ex ey b c) = loops b + 1 + loops c
loops (Block.branch x y ex ey b c) = loops b + loops c
loops (Block.branches x e y ex ee ey b b' c) = loops b + loops b' + loops c

-- The parameters behind a row of instructions that is read from its end to its beginning.
abbrev pub redecoded : List Item → List ℕ → List ℕ
redecoded [] params = params
redecoded (x ∷ xs) params = overlay x.parameters (redecoded xs params)

redecoded-append :
    (xs ys : List Item) (params : List ℕ)
    → redecoded (xs ++ ys) params ≡ redecoded xs (redecoded ys params)
redecoded-append [] ys params = refl
redecoded-append (x ∷ xs) ys params = ap (overlay x.parameters) (redecoded-append xs ys params)

abbrev pub HasOne : List Item → Type 0
HasOne [] = ⊥
HasOne (x ∷ xs) = Unit {0}

pub HasOne-behind : (xs passed : List Item) → HasOne passed → HasOne (behind xs passed)
HasOne-behind [] passed h = h
HasOne-behind (x ∷ xs) passed h = HasOne-behind xs (x ∷ passed) tt

pub HasOne-append : (xs ys : List Item) → HasOne ys → HasOne (xs ++ ys)
HasOne-append [] ys h = h
HasOne-append (x ∷ xs) ys h = tt

abbrev pub IsStill : Instruction → Type 0
IsStill Instruction.for_ = ⊥
IsStill Instruction.endf = ⊥
IsStill Instruction.unknown = ⊥
IsStill _ = Unit {0}

pub IsPlain-IsStill : {k : Instruction} → IsPlain k → IsStill k
IsPlain-IsStill IsPlain.jumps = tt
IsPlain-IsStill IsPlain.pushes = tt
IsPlain-IsStill IsPlain.pops = tt
IsPlain-IsStill IsPlain.labels = tt
IsPlain-IsStill IsPlain.calls = tt
IsPlain-IsStill IsPlain.comments = tt

module _ (s : Machine) where
  -- The machine that searches between two rows: the first instruction of the second one was read last.
  abbrev pub between : List ℕ → List Item → List Item → Machine
  between params passed [] = at s params passed []
  between params passed (x ∷ rest) = at s params (x ∷ passed) rest

  abbrev pub Search : ℕ → ℕ → ℕ → List ℕ → List Item → List Item → Ending Machine
  Search f i j params passed rest = search_for listing f i j (between params passed rest)

  abbrev pub next_i : Instruction → ℕ → ℕ
  next_i k i = if is_for k then (i + 1) % 256 else i

  abbrev pub next_j : Instruction → ℕ → ℕ
  next_j k j = if is_endf k then (j + 1) % 256 else j

  abbrev pub found : Instruction → ℕ → ℕ → Bool
  found k i j = is_unknown k || is_for k && not (ltb (next_i k i) (next_j k j))

  pub search_step :
      (x : Item) (f i j : ℕ) (params : List ℕ) (passed rest : List Item) (c : Bool)
      → HasOne passed
      → HasOne rest
      → found x.kind i j ≡ c
      → Search (suc f) i j params (x ∷ passed) rest ≡ (elim c [
        | true ↦ Ending.done (between (overlay x.parameters params) passed (x ∷ rest))
        | false ↦
            Search f
              (next_i x.kind i)
              (next_j x.kind j)
              (overlay x.parameters params)
              passed
              (x ∷ rest)
      ])
  unfolding search_for
  search_step x f i j params (z ∷ passed) (a ∷ rest) c hp hr e =
      ap
        (λ (c : Bool). elim c as (λ b. Ending Machine) [
          | true ↦ Ending.done (between (overlay x.parameters params) (z ∷ passed) (x ∷ (a ∷ rest)))
          | false ↦
              Search f (next_i x.kind i) (next_j x.kind j) (overlay x.parameters params)
                (z ∷ passed) (x ∷ (a ∷ rest))
        ])
        e
  search_step x f i j params passed [] c hp hr e = absurd hr
  search_step x f i j params [] (a ∷ rest) c hp hr e = absurd hp

  -- The search passes the instructions `xs` from their end, and counts them.
  pub record Walks (xs : List Item) (i j i' j' : ℕ) : Type 0 where
    pub walks :
        (n f : ℕ) (params : List ℕ) (passed rest : List Item)
        → n ≡ length xs + f
        → HasOne passed
        → HasOne rest
        → Search n i j params (behind xs passed) rest
          ≡ Search f i' j' (redecoded xs params) passed (xs ++ rest)

  pub Walks-one :
      (x : Item) (k : Instruction) {i j : ℕ}
      → x.kind ≡ k
      → found k i j ≡ false
      → Walks (x ∷ []) i j (next_i k i) (next_j k j)
  Walks-one x k {i = i} {j = j} e h = record {
    walks = λ n f params passed rest en hp hr.
        let en' : n ≡ suc f = omega (arith, en) in
        ap (λ m. Search m i j params (x ∷ passed) rest) en'
        ∙ search_step x f i j params passed rest false hp hr (ap (λ m. found m i j) e ∙ h)
        ∙ ap
            (λ m.
              Search f (next_i m i) (next_j m j) (overlay x.parameters params) passed (x ∷ rest))
            e;
  }

  pub Walks-append :
      {xs ys : List Item} {i j i' j' i'' j'' : ℕ}
      → Walks ys i j i' j'
      → Walks xs i' j' i'' j''
      → Walks (xs ++ ys) i j i'' j''
  Walks-append {xs = xs} {ys = ys} {i = i} {j = j} {i'' = i''} {j'' = j''} hy hx = record {
    walks = λ n f params passed rest en hp hr.
        let el : length (xs ++ ys) ≡ length xs + length ys = length-append xs ys in
        ap (λ q. Search n i j params q rest) (behind-append xs ys passed)
        ∙ hy.walks n (length xs + f) params (behind xs passed) rest (omega arith)
            (HasOne-behind xs passed hp) hr
        ∙ hx.walks (length xs + f) f (redecoded ys params) passed (ys ++ rest) refl hp
            (HasOne-append ys rest hr)
        ∙ ap₂ (λ q r. Search f i'' j'' q passed r) (sym (redecoded-append xs ys params))
            (sym (append_assoc xs ys rest));
  }

  pub Walks-to :
      {xs : List Item} {i j a b a' b' : ℕ} → a ≡ a' → b ≡ b' → Walks xs i j a b → Walks xs i j a' b'
  Walks-to {xs = xs} {i = i} {j = j} {b = b} {a' = a'} ea eb h =
      subst (λ m. Walks xs i j a' m) eb (subst (λ m. Walks xs i j m b) ea h)

  -- An instruction that the search does not count.
  pub Walks-still : (x : Item) (i j : ℕ) → IsStill x.kind → Walks (x ∷ []) i j i j
  Walks-still x i j h = still x.kind refl h
    where
      still : (k : Instruction) → x.kind ≡ k → IsStill k → Walks (x ∷ []) i j i j
      still Instruction.for_ e h = absurd h
      still Instruction.endf e h = absurd h
      still Instruction.unknown e h = absurd h
      still Instruction.jump e h = Walks-one x Instruction.jump e refl
      still Instruction.if_ e h = Walks-one x Instruction.if_ e refl
      still Instruction.else_ e h = Walks-one x Instruction.else_ e refl
      still Instruction.fi e h = Walks-one x Instruction.fi e refl
      still Instruction.push e h = Walks-one x Instruction.push e refl
      still Instruction.pop e h = Walks-one x Instruction.pop e refl
      still Instruction.label e h = Walks-one x Instruction.label e refl
      still Instruction.call e h = Walks-one x Instruction.call e refl
      still Instruction.comment e h = Walks-one x Instruction.comment e refl

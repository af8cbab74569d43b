-- ===== src/Abl/Runs.antt =====
-- The interpreter of behaviour_abl.c runs a program without loops, jumps and calls to its end.
use ct_bot.Base.{
  ℕ, ap, sym, subst, ◌∙◌, ◌%◌, ◌<◌, ◌≡◌, ◌==◌, refl, Bool, true, false, Option, none, List, [], ◌∷◌,
  ◌++◌, append_assoc, length, if◌then◌else◌,
}
use ct_bot.Abl.{
  Instruction, Ending, abl_push, fi_handler, keyword_handler, if_handler, else_handler, execute,
  goes_on, bot_abl_behaviour, skip_depth,
}
use ct_bot.Abl.Listing.{Item, Machine, listing}
use ct_bot.Abl.Blocks.{Block, FewBranches, behind, behind-append}
use ct_bot.Abl.Skip.{skip_block-Block}
use ct_bot.Abl.Meaning.{Runs, IsSimple, reads, passes, simple, holds, untaken, taken}

pub if_true {ℓ} : {A : Type ℓ} {c : Bool} (x y : A) → c ≡ true → (if c then x else y) ≡ x
if_true x y e = rw e

pub if_false {ℓ} : {A : Type ℓ} {c : Bool} (x y : A) → c ≡ false → (if c then x else y) ≡ y
if_false x y e = rw e

-- A machine at a place of the program.
abbrev pub place : Machine → List Item → List Item → Machine
place s passed rest = record s { cursor = (passed, rest) }

module _ (bot_remotecall : Machine → Option Machine) (fuel : ℕ) where
  abbrev pub Run : Machine → Machine → Type 0
  Run = Runs bot_remotecall fuel

  Runs-trans : {s t u : Machine} → Run s t → Run t u → Run s u
  Runs-trans (Runs.rests s) r = r
  Runs-trans (Runs.moves s t u e q) r = Runs.moves s t _ e (Runs-trans q r)

  -- One call, for an instruction of a known kind.
  behaviour_lem :
      (x : Item) (k : Instruction) (s : Machine) (passed rest : List Item)
      → x.kind ≡ k
      → bot_abl_behaviour listing bot_remotecall fuel (place s passed (x ∷ rest))
        ≡ execute listing bot_remotecall fuel k (place (reads x s) (x ∷ passed) rest)
  unfolding bot_abl_behaviour
  behaviour_lem x k s passed rest e =
      ap (λ i. execute listing bot_remotecall fuel i (place (reads x s) (x ∷ passed) rest)) e

  Run-one :
      {s t : Machine}
      → bot_abl_behaviour listing bot_remotecall fuel s ≡ Ending.done (false, t)
      → Run s t
  Run-one {s = s} {t = t} e = Runs.moves s t t e (Runs.rests t)

  simple_lem :
      {k : Instruction}
      → IsSimple k
      → (s : Machine) (passed rest : List Item)
      → execute listing bot_remotecall fuel k (place s passed rest)
        ≡ Ending.done (false, place (simple k s) passed rest)
  unfolding execute keyword_handler abl_push
  simple_lem IsSimple.pushes s passed rest = refl
  simple_lem IsSimple.labels s passed rest = refl
  simple_lem IsSimple.comments s passed rest = refl

  pub Run-simple :
      (x : Item) (s : Machine) (passed rest : List Item)
      → IsSimple x.kind
      → Run (place s passed (x ∷ rest)) (place (simple x.kind (reads x s)) (x ∷ passed) rest)
  Run-simple x s passed rest h =
      Run-one
        (behaviour_lem x x.kind s passed rest refl ∙ simple_lem h (reads x s) (x ∷ passed) rest)

  pub Run-fi :
      (y : Item) (s : Machine) (passed rest : List Item)
      → y.kind ≡ Instruction.fi
      → Run (place s passed (y ∷ rest)) (place (fi_handler (reads y s)) (y ∷ passed) rest)
  unfolding execute keyword_handler fi_handler
  Run-fi y s passed rest e = Run-one (behaviour_lem y Instruction.fi s passed rest e)

  -- An if() whose condition holds.
  pub Run-if_ :
      (x : Item) (s : Machine) (passed rest : List Item)
      → x.kind ≡ Instruction.if_
      → holds (reads x s) ≡ true
      → Run (place s passed (x ∷ rest)) (place (taken (reads x s)) (x ∷ passed) rest)
  unfolding execute keyword_handler if_handler
  Run-if_ x s passed rest e h = Run-one (
      behaviour_lem x Instruction.if_ s passed rest e ∙ ap (λ r. goes_on listing r) (if_true _ _ h))

  -- An if() whose condition does not hold, up to its else() or fi().
  pub Run-if_-else_ :
      (x y : Item) {bs : List Item} (b : Block bs) (s : Machine) (passed rest : List Item)
      → x.kind ≡ Instruction.if_
      → skip_depth true y.kind 0 ≡ none
      → FewBranches 0 b
      → length bs < fuel
      → holds (reads x s) ≡ false
      → Run
          (place s passed (x ∷ (bs ++ (y ∷ rest))))
          (place (reads y (passes bs (untaken (reads x s)))) (y ∷ behind bs (x ∷ passed)) rest)
  unfolding execute keyword_handler if_handler
  Run-if_-else_ x y {bs = bs} b s passed rest e ey few l h = Run-one (
      behaviour_lem x Instruction.if_ s passed (bs ++ (y ∷ rest)) e
      ∙ ap (λ r. goes_on listing r)
          (if_false _ _ h
            ∙ skip_block-Block true (untaken (reads x s)) b y fuel _ (x ∷ passed) rest few ey l))

  -- An else() behind a block that was executed, by the bit of the if().
  pub Run-else_-over :
      (e y : Item) {bs : List Item} (b : Block bs) (s : Machine) (passed rest : List Item)
      → e.kind ≡ Instruction.else_
      → skip_depth false y.kind 0 ≡ none
      → FewBranches 0 b
      → length bs < fuel
      → s.if_state % 2 == 1 ≡ true
      → Run
          (place s passed (e ∷ (bs ++ (y ∷ rest))))
          (place (reads y (passes bs (reads e s))) (y ∷ behind bs (e ∷ passed)) rest)
  unfolding execute keyword_handler else_handler
  Run-else_-over e y {bs = bs} b s passed rest ee ey few l h = Run-one (
      behaviour_lem e Instruction.else_ s passed (bs ++ (y ∷ rest)) ee
      ∙ ap (λ r. goes_on listing r)
          (if_true _ _ h
            ∙ skip_block-Block false (reads e s) b y fuel _ (e ∷ passed) rest few ey l))

  pub Run-else_ :
      (e : Item) (s : Machine) (passed rest : List Item)
      → e.kind ≡ Instruction.else_
      → s.if_state % 2 == 1 ≡ false
      → Run (place s passed (e ∷ rest)) (place (reads e s) (e ∷ passed) rest)
  unfolding execute keyword_handler else_handler
  Run-else_ e s passed rest ee h = Run-one (
      behaviour_lem e Instruction.else_ s passed rest ee
      ∙ ap (λ r. goes_on listing r) (if_false _ _ h))

  -- The instructions `xs` are executed or left out, which turns the machine `s` into `t`.
  pub record Passes (xs : List Item) (s t : Machine) : Type 0 where
    pub runs :
        (passed rest : List Item)
        → Run (place s passed (xs ++ rest)) (place t (behind xs passed) rest)

  pub Passes-append :
      {xs ys : List Item} {s t u : Machine} → Passes xs s t → Passes ys t u → Passes (xs ++ ys) s u
  Passes-append {xs = xs} {ys = ys} {s = s} {t = t} {u = u} hx hy = record {
    runs = λ passed rest.
        subst (λ r. Run (place s passed r) (place u (behind (xs ++ ys) passed) rest))
          (sym (append_assoc xs ys rest))
          (subst (λ q. Run (place s passed (xs ++ (ys ++ rest))) (place u q rest))
            (sym (behind-append xs ys passed))
            (Runs-trans (hx.runs passed (ys ++ rest)) (hy.runs (behind xs passed) rest)));
  }

  -- A block that is left out, with the instruction in front of it and the one behind it.
  abbrev pub around : Item → List Item → Item → List Item
  around x bs y = x ∷ (bs ++ (y ∷ []))

  pub around_lem :
      (x y : Item) (bs : List Item) (s t : Machine)
      → ((passed rest : List Item)
          → Run
              (place s passed (x ∷ (bs ++ (y ∷ rest))))
              (place t (y ∷ behind bs (x ∷ passed)) rest))
      → Passes (around x bs y) s t
  around_lem x y bs s t h = record {
    runs = λ passed rest.
        subst
          (λ r. Run (place s passed (x ∷ r)) (place t (behind (bs ++ (y ∷ [])) (x ∷ passed)) rest))
          (sym (append_assoc bs (y ∷ []) rest))
          (subst (λ q. Run (place s passed (x ∷ (bs ++ (y ∷ rest)))) (place t q rest))
            (sym (behind-append bs (y ∷ []) (x ∷ passed))) (h passed rest));
  }

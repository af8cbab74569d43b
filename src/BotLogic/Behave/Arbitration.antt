-- ===== src/BotLogic/Behave/Arbitration.antt =====
-- The calls of `motor_set` in a round, and the behaviours behind one with a wish.
use ct_bot.Base.{
  ℕ, ◌≡◌, refl, ap, sym, ◌∙◌, true, false, ◌==◌, if◌then◌else◌, Option, none, some, List, [], ◌∷◌,
  ◌++◌, map, Bool-cases, Option-cases, subst, inl, inr,
}
use ct_bot.BotLogic.{Behaviour, at, active_at}
use ct_bot.BotLogic.Behave.{
  Robot, Factors, cleared, scaled, has_wish, at_end, run_job, decide, round, bot_behave,
  bot_speed_ignore,
}

-- `t` has made one more call of `motor_set` than `s`.
abbrev pub OneMore : {F : Type 0} → Robot F → Robot F → Type 0
OneMore s t = (l : ℕ) × (r : ℕ) × (t.motors ≡ s.motors ++ ((l, r) ∷ []))

module _ {F : Type 0} (fs : Factors F) (work : ℕ → ℕ → Robot F → Robot F)
    (wishes : (f a : ℕ) (s : Robot F) → (work f a s).motors ≡ s.motors) where
  motors-run_job :
      (job : ℕ) (b : Option Behaviour) (s : Robot F) → (run_job fs work job b s).motors ≡ s.motors
  unfolding run_job
  motors-run_job job none s = refl
  motors-run_job job (some b) s = elim (Option-cases b.work) [
    | inl null ↦ rw (null, run_job)
    | inr (f, e) ↦ rw (e, run_job) (wishes f job s)
  ]

  -- One behaviour's turn, with what the rest of the round does.
  turn-OneMore :
      (job : ℕ) (rest : List ℕ) (left right : F) (s : Robot F)
      → ((l r : F) (t : Robot F)
          → t.motors ≡ s.motors
          → OneMore s (round fs work rest l r (at_end rest t)))
      → OneMore s (round fs work (job ∷ rest) left right s)
  unfolding round decide
  turn-OneMore job rest left right s go = elim (Bool-cases (active_at (at s.behaviours job))) [
    | inl on ↦
        let s' : Robot F = run_job fs work job (at s.behaviours job) (cleared fs work s) in
        let same : s'.motors ≡ s.motors =
          motors-run_job job (at s.behaviours job) (cleared fs work s) in
        elim (Bool-cases (has_wish s')) [
          | inl wish ↦
              rw (on, wish, round)
                (
                  scaled fs work (fs.times left s'.factor_left) s'.wish_left,
                  scaled fs work (fs.times right s'.factor_right) s'.wish_right,
                  rw same,
                )
          | inr no_wish ↦
              rw (on, no_wish, round)
                (go (fs.times left s'.factor_left) (fs.times right s'.factor_right) s' same)
        ]
    | inr off ↦ rw (off, round) (go left right s refl)
  ]

  round-OneMore :
      (job : ℕ) (rest : List ℕ) (left right : F) (s : Robot F)
      → OneMore s (round fs work (job ∷ rest) left right s)
  round-OneMore job [] left right s = turn-OneMore job [] left right s (λ l r t e. (
    bot_speed_ignore,
    bot_speed_ignore,
    unfold round in ap (λ m. m ++ ((bot_speed_ignore, bot_speed_ignore) ∷ [])) e,
  ))
  round-OneMore job (n ∷ ns) left right s = turn-OneMore job (n ∷ ns) left right s (λ l r t e.
      let (a, b, p) = round-OneMore n ns l r t in (a, b, p ∙ ap (λ m. m ++ ((a, b) ∷ [])) e))

  -- A round over a list that is not empty calls `motor_set` exactly once, if the work functions leave
  -- the motors to their wishes.
  pub bot_behave-OneMore :
      (s : Robot F) (b : Behaviour) (bs : List Behaviour)
      → s.behaviours ≡ b ∷ bs
      → OneMore s (bot_behave fs work s)
  unfolding bot_behave
  bot_behave-OneMore s b bs e =
      subst (λ l. OneMore s (round fs work (map (λ b. b.address) l) fs.one fs.one s)) (sym e)
        (round-OneMore b.address (map (λ b. b.address) bs) fs.one fs.one s)

-- Behaviours of the list that are not active.
abbrev pub AllIdle : List Behaviour → List Behaviour → Type 0
AllIdle bs [] = Unit {0}
AllIdle bs (x ∷ xs) = (active_at (at bs x.address) ≡ false) × AllIdle bs xs

abbrev addresses : List Behaviour → List ℕ
addresses = map λ b. b.address

addresses-append : (xs ys : List Behaviour) → addresses (xs ++ ys) ≡ addresses xs ++ addresses ys
addresses-append [] ys = refl
addresses-append (x ∷ xs) ys = ap (λ l. x.address ∷ l) (addresses-append xs ys)

module _ {F : Type 0} (fs : Factors F) where
  -- A state whose wish is multiplied by its own factors and goes to the motors.
  abbrev decided : Robot F → Robot F
  decided s =
      let wished : F → ℕ → ℕ = λ factor wish.
        if wish == bot_speed_ignore then wish else fs.scale (fs.times fs.one factor) wish in
      let l = wished s.factor_left s.wish_left in
      let r = wished s.factor_right s.wish_right in
      record s { wish_left = l; wish_right = r; motors = s.motors ++ ((l, r) ∷ []) }

  abbrev begun : Robot F → Robot F
  begun s = record s {
    wish_left = bot_speed_ignore;
    wish_right = bot_speed_ignore;
    factor_left = fs.one;
    factor_right = fs.one;
  }

  module _ (work : ℕ → ℕ → Robot F → Robot F) where
    -- The round goes past behaviours that are not active.
    round-idle :
        (front : List Behaviour) (a : ℕ) (rest : List ℕ) (left right : F) (s : Robot F)
        → AllIdle s.behaviours front
        → round fs work (addresses front ++ (a ∷ rest)) left right s
          ≡ round fs work (a ∷ rest) left right s
    round-idle [] a rest left right s h = refl
    round-idle (x ∷ []) a rest left right s (off, hs) = unfold round in rw (off, round) refl
    round-idle (x ∷ (y ∷ ys)) a rest left right s (off, hs) =
        let first : round fs work (addresses (x ∷ (y ∷ ys)) ++ (a ∷ rest)) left right s
            ≡ round fs work (addresses (y ∷ ys) ++ (a ∷ rest)) left right s =
          unfold round in rw (off, round) refl in
        first ∙ round-idle (y ∷ ys) a rest left right s hs

    -- What the first active behaviour does to the state of the round, if it has a wish.
    bot_behave-decided :
        (s : Robot F) (front rest : List Behaviour) (b : Behaviour) (f : ℕ)
        → s.behaviours ≡ front ++ (b ∷ rest)
        → AllIdle s.behaviours front
        → at s.behaviours b.address ≡ some b
        → b.active ≡ true
        → b.work ≡ some f
        → has_wish (work f b.address (begun s)) ≡ true
        → bot_behave fs work s ≡ decided (work f b.address (begun s))
    unfolding bot_behave
    bot_behave-decided s front rest b f e idle there on works wish =
        ap (λ l. round fs work l fs.one fs.one s)
          (ap addresses e ∙ addresses-append front (b ∷ rest))
        ∙ round-idle front b.address (addresses rest) fs.one fs.one s idle
        ∙ decides
      where
        turn : Robot F
        turn = run_job fs work b.address (at s.behaviours b.address) (cleared fs work s)

        runs : turn ≡ work f b.address (begun s)
        runs =
            ap (λ o. run_job fs work b.address o (cleared fs work s)) there
            ∙ (unfold run_job in rw (works, run_job) refl)

        first :
            round fs work (b.address ∷ addresses rest) fs.one fs.one s
            ≡ decide fs work
                (fs.times fs.one turn.factor_left)
                (fs.times fs.one turn.factor_right)
                turn
        first = unfold round in rw (ap active_at there ∙ on, ap has_wish runs ∙ wish, round) refl

        decides :
            round fs work (b.address ∷ addresses rest) fs.one fs.one s
            ≡ decided (work f b.address (begun s))
        decides =
            first
            ∙ ap
                (λ (t : Robot F).
                  decide fs work (fs.times fs.one t.factor_left) (fs.times fs.one t.factor_right) t)
                runs
            ∙ (unfold decide in refl)

-- A behaviour of the list that is active, with a work function and no active one in front of it, and
-- whose record is the one at its address: when its turn ends with a wish for a speed, it decides the
-- round alone. Whatever the work functions do for the other behaviours, the state that the round leaves
-- is the same, the motors' speeds and the list of the behaviours included.
pub bot_behave_preempts :
    {F : Type 0} (fs : Factors F) (work other : ℕ → ℕ → Robot F → Robot F) (s : Robot F)
    (front rest : List Behaviour) (b : Behaviour) (f : ℕ)
    → s.behaviours ≡ front ++ (b ∷ rest)
    → AllIdle s.behaviours front
    → at s.behaviours b.address ≡ some b
    → b.active ≡ true
    → b.work ≡ some f
    → has_wish (work f b.address (begun fs s)) ≡ true
    → ((t : Robot F) → other f b.address t ≡ work f b.address t)
    → bot_behave fs other s ≡ bot_behave fs work s
bot_behave_preempts fs work other s front rest b f e idle there on works wish same =
    let h = same (begun fs s) in
    bot_behave-decided fs other s front rest b f e idle there on works (ap has_wish h ∙ wish)
    ∙ ap (decided fs) h
    ∙ sym (bot_behave-decided fs work s front rest b f e idle there on works wish)

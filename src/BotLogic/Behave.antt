-- ===== src/BotLogic/Behave.antt =====
-- bot-logic.c, `bot_behave`: one round over the behaviours, and the choice of the motors' speeds.
-- The work functions are the behaviours' own code: `work f a s` is what function `f` does to the
-- state when it runs for the behaviour at address `a`. The factors of BEHAVIOUR_FACTOR_WISH_AVAILABLE
-- are floats; `scale` is the product with a factor and the cast to int16_t.
pub mod Arbitration
use ct_bot.Base.{
  ℕ, Bool, true, false, not, ◌&&◌, ◌||◌, Option, none, some, List, [], ◌∷◌, ◌++◌, ◌==◌,
  if◌then◌else◌, map,
}
use ct_bot.BotLogic.{Behaviour, at, active_at, write}

-- Speeds are the bit patterns of int16_t; the value 1000 means that there is no wish.
abbrev pub bot_speed_ignore : ℕ
bot_speed_ignore = 1000

-- The globals that a round reads and writes; `motors` are the calls of `motor_set`, in order.
pub record Robot (F : Type 0) : Type 0 where
  pub behaviours : List Behaviour
  pub wish_left : ℕ
  pub wish_right : ℕ
  pub factor_left : F
  pub factor_right : F
  pub motors : List (ℕ × ℕ)

-- The operations on factors: the value 1.0f, the product, and a speed times a factor.
pub record Factors (F : Type 0) : Type 0 where
  pub one : F
  pub times : F → F → F
  pub scale : F → ℕ → ℕ

module _ {F : Type 0} where
  -- `motor_set` is another module's: here it only counts with which speeds it is called.
  abbrev pub motor_set : ℕ → ℕ → Robot F → Robot F
  motor_set l r s = record s { motors = s.motors ++ ((l, r) ∷ []) }

  abbrev pub has_wish : Robot F → Bool
  has_wish s = not (s.wish_left == bot_speed_ignore) || not (s.wish_right == bot_speed_ignore)

  -- Past the last behaviour no rule wants the motors.
  abbrev pub at_end : List ℕ → Robot F → Robot F
  at_end [] s = motor_set bot_speed_ignore bot_speed_ignore s
  at_end (job ∷ rest) s = s

module _ {F : Type 0} (fs : Factors F) (work : ℕ → ℕ → Robot F → Robot F) where
  abbrev pub cleared : Robot F → Robot F
  cleared s = record s {
    wish_left = bot_speed_ignore;
    wish_right = bot_speed_ignore;
    factor_left = fs.one;
    factor_right = fs.one;
  }

  -- What runs for an active behaviour: its work function, or its deactivation if it has none.
  unfoldable pub run_job : ℕ → Option Behaviour → Robot F → Robot F
  unfolding write
  run_job job none s = s
  run_job job (some b) s = elim (b.work) [
    | none ↦ record s {
      behaviours = write s.behaviours (some job) (λ x. record x { active = false });
    }
    | some f ↦ work f job s
  ]

  -- A wish times the collected factors; what is no wish stays so.
  abbrev pub scaled : F → ℕ → ℕ
  scaled factor wish = if wish == bot_speed_ignore then wish else fs.scale factor wish

  -- The end of a round by a behaviour with a wish.
  unfoldable pub decide : F → F → Robot F → Robot F
  decide left right s =
      let l = scaled left s.wish_left in
      let r = scaled right s.wish_right in
      motor_set l r (record s { wish_left = l; wish_right = r })

  -- The loop of `bot_behave` over the addresses of the list, with the factors collected so far.
  unfoldable pub round : List ℕ → F → F → Robot F → Robot F
  unfolding at run_job decide
  round [] left right s = s
  round (job ∷ rest) left right s = elim (active_at (at s.behaviours job)) [
    | false ↦ round rest left right (at_end rest s)
    | true ↦
        let s' = run_job job (at s.behaviours job) (cleared s) in
        let left' = fs.times left s'.factor_left in
        let right' = fs.times right s'.factor_right in
        elim (has_wish s') [
          | true ↦ decide left' right' s'
          | false ↦ round rest left' right' (at_end rest s')
        ]
  ]

  unfoldable pub bot_behave : Robot F → Robot F
  unfolding round
  bot_behave s = round (map (λ b. b.address) s.behaviours) fs.one fs.one s

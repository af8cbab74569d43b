-- ===== src/BotLogic/Emergency.antt =====
-- bot-logic.c: the table of MAX_EMERG_PROCS emergency procedures.
use ct_bot.Base.{
  ℕ, zero, suc, ◌+◌, ◌≤◌, ◌<◌, ◌≡◌, refl, sym, ap, ◌∙◌, ℕ_discrete, Option, none, some, List, [],
  ◌∷◌, ◌++◌, ◌==◌, if◌then◌else◌, set, length, arith,
}

-- `bot_logic_emerg_functions` and `count_arr_emerg`
pub record Procs : Type 0 where
  pub count : ℕ
  pub functions : List (Option ℕ)

abbrev pub max_emerg_procs : ℕ
max_emerg_procs = 3

abbrev pub no_procs : Procs
no_procs = record { count = 0; functions = none ∷ none ∷ none ∷ [] }

-- `register_emergency_proc`: the index, or `none` for -1.
unfoldable pub register_emergency_proc : Procs → ℕ → Option ℕ × Procs
register_emergency_proc p fkt = if p.count == max_emerg_procs then (none, p) else (
  some p.count,
  record { count = p.count + 1; functions = set p.functions p.count (some fkt) },
)

abbrev pub present : List (Option ℕ) → List ℕ
present [] = []
present (none ∷ fs) = present fs
present (some f ∷ fs) = f ∷ present fs

-- `start_registered_emergency_procs`: the procedures that it calls, in order.
unfoldable pub start_registered_emergency_procs : Procs → List ℕ
start_registered_emergency_procs p = present p.functions

abbrev pub AllNull : List (Option ℕ) → Type 0
AllNull [] = Unit {0}
AllNull (none ∷ fs) = AllNull fs
AllNull (some f ∷ fs) = ⊥

-- The entries from `count` on are NULL.
abbrev pub FilledTo : ℕ → List (Option ℕ) → Type 0
FilledTo n [] = Unit {0}
FilledTo zero (f ∷ fs) = AllNull (f ∷ fs)
FilledTo (suc n) (f ∷ fs) = FilledTo n fs

pub record IsValid (p : Procs) : Type 0 where
  pub entries : length p.functions ≡ max_emerg_procs
  pub in_table : p.count ≤ max_emerg_procs
  pub filled : FilledTo p.count p.functions

present_null : (fs : List (Option ℕ)) → AllNull fs → present fs ≡ []
present_null [] h = refl
present_null (none ∷ fs) h = present_null fs h
present_null (some f ∷ fs) h = absurd h

present-set :
    (fs : List (Option ℕ)) (n fkt : ℕ)
    → n < length fs
    → FilledTo n fs
    → present (set fs n (some fkt)) ≡ present fs ++ (fkt ∷ [])
present-set [] n fkt h f = absurd (omega arith)
present-set (none ∷ fs) zero fkt h f =
    ap (λ l. fkt ∷ l) (present_null fs f) ∙ sym (ap (λ l. l ++ (fkt ∷ [])) (present_null fs f))
present-set (some x ∷ fs) zero fkt h f = absurd f
present-set (none ∷ fs) (suc n) fkt h f = present-set fs n fkt (omega arith) f
present-set (some x ∷ fs) (suc n) fkt h f = ap (λ l. x ∷ l) (present-set fs n fkt (omega arith) f)

-- In a valid table, a procedure that is registered is called after those before it; with the table
-- full it is refused and the calls stay the same.
pub start-register :
    (p : Procs) (fkt : ℕ)
    → IsValid p
    → start_registered_emergency_procs (register_emergency_proc p fkt).1 ≡ (
        if p.count == max_emerg_procs
        then start_registered_emergency_procs p
        else start_registered_emergency_procs p ++ (fkt ∷ []))
unfolding start_registered_emergency_procs register_emergency_proc
start-register p fkt v = elim (ℕ_discrete p.count max_emerg_procs) [
  | yes full ↦ ground arith
  | no room ↦
      ground
        (arith, present-set p.functions p.count fkt (omega (arith, v.entries, v.in_table)) v.filled)
]

-- ===== src/Bot2Bot/Known.antt =====
-- The list of the known bots in bot-2-bot.c: one entry for each address, and the states in it.
use ct_bot.Base.{
  ℕ, subst, sym, inl, inr, ◌∙◌, ◌≡◌, ◌≢◌, refl, Bool, true, false, Bool-cases, none, some,
  Option-cases, List, [], ◌∷◌, arith, All, ==_iff,
}
use ct_bot.Bot2Bot.Bots.{Entry, update_first, append_entry, with_address, is_gone, enter_bot}

-- No entry has the address.
abbrev pub IsFresh : ℕ → List Entry → Type 0
IsFresh a = All λ e. e.address ≢ a

abbrev pub IsUnique : List Entry → Type 0
IsUnique [] = Unit
IsUnique (x ∷ xs) = IsFresh x.address xs × IsUnique xs

-- What is known of a list whose first entry that passes a test was replaced.
pub data Updated (test : Entry → Bool) (e : Entry) : List Entry → List Entry → Type 0 where
  here : {x : Entry} {xs : List Entry} → test x ≡ true → Updated test e (x ∷ xs) (e ∷ xs)
  later :
      {x : Entry} {xs ys : List Entry}
      → test x ≡ false
      → Updated test e xs ys
      → Updated test e (x ∷ xs) (x ∷ ys)

update_first-none :
    (test : Entry → Bool) (e : Entry) (xs : List Entry)
    → update_first test e xs ≡ none
    → All (λ x. test x ≡ false) xs
update_first-none test e [] h = tt
update_first-none test e (x ∷ xs) h = elim (Bool-cases (test x)) [
  | inl t ↦ absurd (ground (arith, t, h))
  | inr t ↦ elim (Option-cases (update_first test e xs)) [
    | inl n ↦ (t, update_first-none test e xs n)
    | inr (ys, s) ↦ absurd (ground (arith, t, s, h))
  ]
]

update_first-some :
    (test : Entry → Bool) (e : Entry) (xs ys : List Entry)
    → update_first test e xs ≡ some ys
    → Updated test e xs ys
update_first-some test e [] ys h = absurd (cc)
update_first-some test e (x ∷ xs) ys h = elim (Bool-cases (test x)) [
  | inl t ↦ let q : e ∷ xs ≡ ys = ground (arith, t, h) in subst (Updated test e (x ∷ xs)) q (here t)
  | inr t ↦ elim (Option-cases (update_first test e xs)) [
    | inl n ↦ absurd (ground (arith, t, n, h))
    | inr (zs, s) ↦
        let q : x ∷ zs ≡ ys = ground (arith, t, s, h) in
        subst (Updated test e (x ∷ xs)) q (later t (update_first-some test e xs zs s))
  ]
]

module _ (e : Entry) where
  pub own_address : (x : Entry) → with_address e.address x ≡ true → x.address ≡ e.address
  own_address x t = (==_iff x.address e.address).0 t

  -- An entry replaced by one with its own address.
  own-IsFresh :
      (b : ℕ) {xs ys : List Entry}
      → Updated (with_address e.address) e xs ys
      → IsFresh b xs
      → IsFresh b ys
  own-IsFresh b (here {x = x} t) (f, fs) = ((λ q. f (own_address x t ∙ q)), fs)
  own-IsFresh b (later t u) (f, fs) = (f, own-IsFresh b u fs)

  own-IsUnique :
      {xs ys : List Entry} → Updated (with_address e.address) e xs ys → IsUnique xs → IsUnique ys
  own-IsUnique (here {x = x} {xs = xs} t) (f, u) =
      (subst (λ a. IsFresh a xs) (own_address x t) f, u)
  own-IsUnique (later {x = x} t d) (f, u) = (own-IsFresh x.address d f, own-IsUnique d u)

  -- An entry of another bot replaced.
  reused-IsFresh :
      {test : Entry → Bool} (b : ℕ) {xs ys : List Entry}
      → e.address ≢ b
      → Updated test e xs ys
      → IsFresh b xs
      → IsFresh b ys
  reused-IsFresh b ne (here t) (f, fs) = (ne, fs)
  reused-IsFresh b ne (later t u) (f, fs) = (f, reused-IsFresh b ne u fs)

  reused-IsUnique :
      {test : Entry → Bool} {xs ys : List Entry}
      → Updated test e xs ys
      → IsFresh e.address xs
      → IsUnique xs
      → IsUnique ys
  reused-IsUnique (here t) (n, ns) (f, u) = (ns, u)
  reused-IsUnique (later {x = x} t d) (n, ns) (f, u) =
      (reused-IsFresh x.address (λ q. n (sym q)) d f, reused-IsUnique d ns u)

  append-IsFresh :
      (b : ℕ) (xs : List Entry) → e.address ≢ b → IsFresh b xs → IsFresh b (append_entry xs e)
  append-IsFresh b [] ne f = (ne, tt)
  append-IsFresh b (x ∷ xs) ne (f, fs) = (f, append-IsFresh b xs ne fs)

  append-IsUnique :
      (xs : List Entry) → IsFresh e.address xs → IsUnique xs → IsUnique (append_entry xs e)
  append-IsUnique [] n u = (tt, tt)
  append-IsUnique (x ∷ xs) (n, ns) (f, u) =
      (append-IsFresh x.address xs (λ q. n (sym q)) f, append-IsUnique xs ns u)

  missing-IsFresh :
      (xs : List Entry) → All (λ x. with_address e.address x ≡ false) xs → IsFresh e.address xs
  missing-IsFresh [] a = tt
  missing-IsFresh (x ∷ xs) (f, fs) = ((λ q. ground (arith, f, q)), missing-IsFresh xs fs)

  -- What enter_bot does to the list.
  pub data Entered (room : Bool) (xs ys : List Entry) : Type 0 where
    own : Updated (with_address e.address) e xs ys → Entered room xs ys
    reused : IsFresh e.address xs → Updated is_gone e xs ys → Entered room xs ys
    appended : IsFresh e.address xs → room ≡ true → ys ≡ append_entry xs e → Entered room xs ys
    no_room : IsFresh e.address xs → room ≡ false → ys ≡ xs → Entered room xs ys

  pub enter_bot-Entered : (room : Bool) (xs : List Entry) → Entered room xs (enter_bot room e xs)
  unfolding enter_bot
  enter_bot-Entered room xs = elim (Option-cases (update_first (with_address e.address) e xs)) [
    | inr (ys, s) ↦ rw s (own (update_first-some _ e xs ys s))
    | inl n ↦
        let f = missing-IsFresh xs (update_first-none _ e xs n) in
        elim (Option-cases (update_first is_gone e xs)) [
          | inr (ys, s) ↦ rw (n, s) (reused f (update_first-some _ e xs ys s))
          | inl m ↦
              rw (n, m)
                (elim (Bool-cases room) [
                  | inl r ↦ rw r (appended f refl refl)
                  | inr r ↦ rw r (no_room f refl refl)
                ])
        ]
  ]

  pub Entered-IsUnique :
      {room : Bool} {xs ys : List Entry} → Entered room xs ys → IsUnique xs → IsUnique ys
  Entered-IsUnique (own d) u = own-IsUnique d u
  Entered-IsUnique (reused f d) u = reused-IsUnique d f u
  Entered-IsUnique {xs = xs} (appended f r q) u = subst IsUnique (sym q) (append-IsUnique xs f u)
  Entered-IsUnique (no_room f r q) u = subst IsUnique (sym q) u

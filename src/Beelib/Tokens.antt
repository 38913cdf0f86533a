-- ===== src/Beelib/Tokens.antt =====
-- next_token.
use rubsd.Prelude.{
  ℕ, zero, suc, ◌+◌, ◌≤◌, ◌≡◌, ◌≢◌, refl, ap, ◌⊎◌, inl, inr, Bool, true, false, arith, List, [],
  ◌∷◌, ◌++◌, Option, none, some, length, Bool-cases, Option-cases,
}
use rubsd.Prelude.Run.{ok, Yields, value, Yields-weaken}
use rubsd.Beelib.{one_of, strsep, token_loop, next_token}

-- The bytes are all delimiters, or none of them is.
abbrev pub AllAre : Bool → List ℕ → List ℕ → Type 0
AllAre b delim [] = Unit {0}
AllAre b delim (c ∷ s) = (one_of delim c ≡ b) × AllAre b delim s

-- Where strsep cuts.
abbrev Cut : List ℕ → List ℕ → List ℕ → Option (List ℕ) → Type 0
Cut delim s str none = s ≡ str
Cut delim s str (some rest) = (d : ℕ) × (one_of delim d ≡ true) × (s ≡ str ++ (d ∷ rest))

pub list-cases : (s : List ℕ) → (s ≡ []) ⊎ ((c : ℕ) × (more : List ℕ) × (s ≡ c ∷ more))
list-cases [] = inl refl
list-cases (c ∷ more) = inr (c, more, refl)

Cut-cons :
    (delim s str : List ℕ) (c : ℕ) (rest : Option (List ℕ))
    → Cut delim s str rest
    → Cut delim (c ∷ s) (c ∷ str) rest
Cut-cons delim s str c none e = ap (◌∷◌ c) e
Cut-cons delim s str c (some rest) (d, is, e) = (d, is, ap (◌∷◌ c) e)

pub strsep-at :
    (delim s : List ℕ) (c : ℕ) → one_of delim c ≡ true → strsep delim (c ∷ s) ≡ ([], some s)
unfolding strsep
strsep-at delim s c is = rw (strsep, is) refl

pub strsep-behind :
    (delim s : List ℕ) (c : ℕ)
    → one_of delim c ≡ false
    → strsep delim (c ∷ s) ≡ (c ∷ (strsep delim s).0, (strsep delim s).1)
unfolding strsep
strsep-behind delim s c isnt = rw (strsep, isnt) refl

strsep_lem :
    (delim s : List ℕ)
    → AllAre false delim (strsep delim s).0 × Cut delim s (strsep delim s).0 (strsep delim s).1
unfolding strsep
strsep_lem delim [] = (tt, refl)
strsep_lem delim (c ∷ s) = elim (Bool-cases (one_of delim c)) [
  | inl is ↦ rw (strsep-at delim s c is) (tt, (c, is, refl))
  | inr isnt ↦
      let (clean, cut) = strsep_lem delim s in
      rw (strsep-behind delim s c isnt)
        ((isnt, clean), Cut-cons delim s (strsep delim s).0 c (strsep delim s).1 cut)
]

-- What next_token does to the text `s`: it skips delimiters, and takes the bytes up to the next one.
abbrev pub Next : List ℕ → List ℕ → Option (List ℕ) × Option (List ℕ) → Type 0
Next delim s (ptr, none) = (ptr ≡ none) × AllAre true delim s
Next delim s (ptr, some str) =
    (skipped body : List ℕ) × (s ≡ skipped ++ body)
    × AllAre true delim skipped
    × (str ≢ [])
    × AllAre false delim str
    × Cut delim body str ptr

Next-skip :
    (delim s : List ℕ) (d : ℕ) (r : Option (List ℕ) × Option (List ℕ))
    → one_of delim d ≡ true
    → Next delim s r
    → Next delim (d ∷ s) r
Next-skip delim s d (ptr, none) is (e, all) = (e, (is, all))
Next-skip delim s d (ptr, some str) is (skipped, body, e, all, some_bytes, clean, cut) =
    (d ∷ skipped, body, ap (◌∷◌ d) e, (is, all), some_bytes, clean, cut)

loop_null : (fuel : ℕ) (delim : List ℕ) → 1 ≤ fuel → token_loop fuel delim none ≡ ok (none, none)
unfolding token_loop
loop_null zero delim h = absurd (omega arith)
loop_null (suc fuel) delim h = refl

token_loop_lem :
    (fuel : ℕ) (delim s : List ℕ)
    → length s + 2 ≤ fuel
    → Yields (Next delim s) (token_loop fuel delim (some s))
unfolding token_loop
token_loop_lem zero delim s h = absurd (omega arith)
token_loop_lem (suc fuel) delim s h =
    let (clean, cut) = strsep_lem delim s in
    elim (list-cases ((strsep delim s).0)) [
      | inl e ↦ elim (Option-cases ((strsep delim s).1)) [
        | inl last ↦
            let none_left : s ≡ [] = (rw (e, last) at cut) in
            let size : length s ≡ 0 = ap length none_left in
            rw (token_loop, e, last, loop_null fuel delim (omega arith))
              (value (refl, rw none_left tt))
        | inr (rest, more) ↦
            let (d, is, split) : Cut delim s [] (some rest) = (rw (e, more) at cut) in
            let size : length s ≡ suc (length rest) = ap length split in
            rw (token_loop, e, more)
              (Yields-weaken (token_loop_lem fuel delim rest (omega arith))
                λ r p. rw split (Next-skip delim rest d r is p))
      ]
      | inr (c, str, e) ↦
          rw (token_loop, e) (value ([], s, refl, tt, (λ n. cc), (rw e at clean), (rw e at cut)))
    ]

-- next_token comes back, on every text and for every set of delimiters: it skips the delimiters at
-- the front, and gives the bytes up to the next one, at least one, with the pointer behind that; or
-- NULL, when the text has delimiters only.
pub next_token_lem : (delim s : List ℕ) → Yields (Next delim s) (next_token delim (some s))
unfolding next_token
next_token_lem delim s = token_loop_lem (length s + 2) delim s (omega arith)

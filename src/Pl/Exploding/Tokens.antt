-- ===== src/Pl/Exploding/Tokens.antt =====
-- The tokens of a text, and what one call of next_tok takes of them.
use rubsd.Prelude.{ℕ, ◌≡◌, ◌≢◌, refl, true, false, List, [], ◌∷◌, ◌++◌, Option, none, some}
use rubsd.Beelib.{one_of}
use rubsd.Beelib.Tokens.{AllAre, Next}

-- The pieces of a text between its delimiters, with a byte before the first of them.
abbrev onto : ℕ → List (List ℕ) → List (List ℕ)
onto c [] = (c ∷ []) ∷ []
onto c (f ∷ fs) = (c ∷ f) ∷ fs

abbrev pub pieces : List ℕ → List ℕ → List (List ℕ)
pieces delim [] = [] ∷ []
pieces delim (c ∷ s) = elim (one_of delim c) [
  | true ↦ [] ∷ pieces delim s
  | false ↦ onto c (pieces delim s)
]

-- Those that are not empty.
abbrev pub filled : List (List ℕ) → List (List ℕ)
filled [] = []
filled ([] ∷ fs) = filled fs
filled ((c ∷ f) ∷ fs) = (c ∷ f) ∷ filled fs

-- The tokens of a text, in order.
abbrev pub tokens : List ℕ → List ℕ → List (List ℕ)
tokens delim s = filled (pieces delim s)

abbrev pub rest_tokens : List ℕ → Option (List ℕ) → List (List ℕ)
rest_tokens delim none = []
rest_tokens delim (some s) = tokens delim s

tokens-skip :
    (delim skipped s : List ℕ)
    → AllAre true delim skipped
    → tokens delim (skipped ++ s) ≡ tokens delim s
tokens-skip delim [] s all = refl
tokens-skip delim (c ∷ skipped) s (is, all) = rw (pieces, is) (tokens-skip delim skipped s all)

pieces-at :
    (delim str rest : List ℕ) (d : ℕ)
    → AllAre false delim str
    → one_of delim d ≡ true
    → pieces delim (str ++ (d ∷ rest)) ≡ str ∷ pieces delim rest
pieces-at delim [] rest d clean is = rw (pieces, is) refl
pieces-at delim (c ∷ str) rest d (isnt, clean) is =
    rw (pieces, isnt, pieces-at delim str rest d clean is) refl

pieces-clean : (delim str : List ℕ) → AllAre false delim str → pieces delim str ≡ str ∷ []
pieces-clean delim [] clean = refl
pieces-clean delim (c ∷ str) (isnt, clean) = rw (pieces, isnt, pieces-clean delim str clean) refl

filled-first : (str : List ℕ) (fs : List (List ℕ)) → str ≢ [] → filled (str ∷ fs) ≡ str ∷ filled fs
filled-first [] fs some_bytes = absurd (some_bytes refl)
filled-first (c ∷ str) fs some_bytes = refl

-- A call of next_tok takes the first token, or there is none.
pub tokens-Next :
    (delim s : List ℕ) (rest : Option (List ℕ)) (str : List ℕ)
    → Next delim s (rest, some str)
    → tokens delim s ≡ str ∷ rest_tokens delim rest
tokens-Next delim s none str (skipped, body, e, all, some_bytes, clean, cut) =
    rw (e, tokens-skip delim skipped body all, cut, pieces-clean delim str clean)
      (filled-first str [] some_bytes)
tokens-Next delim s (some rest) str (skipped, body, e, all, some_bytes, clean, (d, is, cut)) =
    rw (e, tokens-skip delim skipped body all, cut, pieces-at delim str rest d clean is)
      (filled-first str (pieces delim rest) some_bytes)

tokens-none : (delim s : List ℕ) → AllAre true delim s → tokens delim s ≡ []
tokens-none delim [] all = refl
tokens-none delim (c ∷ s) (is, all) = rw (pieces, is) (tokens-none delim s all)

pub tokens-none-Next :
    (delim s : List ℕ) (rest : Option (List ℕ))
    → Next delim s (rest, none)
    → (rest ≡ none) × (tokens delim s ≡ [])
tokens-none-Next delim s rest (e, all) = (e, tokens-none delim s all)

-- ===== src/Beelib.antt =====
-- src/bee/lib/bee/beelib.c: tokens. A text is the list of its bytes before the NUL, and `none` is NULL.
pub mod Tokens
mod Tests
use rubsd.Prelude.{
  ℕ, zero, suc, ◌+◌, ◌-◌, Bool, true, false, ◌||◌, ◌==◌, List, [], ◌∷◌, Option, none, some, length,
  take, get_or, if◌then◌else◌,
}
use rubsd.Prelude.Run.{Run, ok, out_of_fuel}

-- strchr(delim, c) != NULL, for a byte that is not NUL
abbrev pub one_of : List ℕ → ℕ → Bool
one_of [] c = false
one_of (d ∷ delim) c = (d == c) || one_of delim c

-- strsep: the text before the first delimiter, and what is behind the delimiter.
unfoldable pub strsep : List ℕ → List ℕ → List ℕ × Option (List ℕ)
strsep delim [] = ([], none)
strsep delim (c ∷ s) = elim (one_of delim c) [
  | true ↦ ([], some s)
  | false ↦ let (str, rest) = strsep delim s in (c ∷ str, rest)
]

-- The loop of next_token.
unfoldable pub token_loop : ℕ → List ℕ → Option (List ℕ) → Run (Option (List ℕ) × Option (List ℕ))
unfolding strsep
token_loop zero delim ptr = out_of_fuel
token_loop (suc fuel) delim none = ok (none, none)
token_loop (suc fuel) delim (some s) =
    let (str, rest) = strsep delim s in
    elim str [ [] ↦ token_loop fuel delim rest | c ∷ more ↦ ok (rest, some (c ∷ more)) ]

-- next_token: what `*ptr` is after it, and the token.
unfoldable pub next_token : List ℕ → Option (List ℕ) → Run (Option (List ℕ) × Option (List ℕ))
next_token delim none = token_loop 1 delim none
next_token delim (some s) = token_loop (length s + 2) delim (some s)

-- The first loop of strtrim, and the second with `p` bytes before the last one.
unfoldable pub skip_front : List ℕ → List ℕ → List ℕ
skip_front delim [] = []
skip_front delim (c ∷ s) = elim (one_of delim c) [ true ↦ skip_front delim s | false ↦ c ∷ s ]

unfoldable pub cut_tail : List ℕ → ℕ → List ℕ → List ℕ
cut_tail delim zero str = str
cut_tail delim (suc p) str = elim (one_of delim (get_or str (suc p) 0)) [
  | true ↦ cut_tail delim p (take (suc p) str)
  | false ↦ str
]

-- strtrim
unfoldable pub strtrim : List ℕ → Option (List ℕ) → Option (List ℕ)
unfolding skip_front cut_tail
strtrim delim none = none
strtrim delim (some ptr) =
    let str = skip_front delim ptr in some (cut_tail delim (length str - 1) str)

-- ===== src/Pl/Exploding.antt =====
-- pl_str_explode of lists.c: a text is split into tokens, and copies of them are added to a list.
pub mod Tokens
pub mod Adding
mod Tests
use rubsd.Prelude.{
  ℕ, zero, suc, ◌+◌, Bool, true, false, ◌==◌, List, [], ◌∷◌, Option, none, some, length,
}
use rubsd.Prelude.Int.{ℤ, pos, eq_ℤ}
use rubsd.Prelude.Run.{Run, ok, fault, out_of_fuel, ◌>>=◌}
use rubsd.Beelib.{next_token}
use rubsd.Pl.State.{Pl, Realloc}
use rubsd.Pl.Edit.{minus_one, add}

-- next_tok, the loop of next_token over strsep.
unfoldable pub next_tok : List ℕ → Option (List ℕ) → Run (Option (List ℕ) × Option (List ℕ))
next_tok delim ptr = next_token delim ptr

-- `free(ptr)`: behind a token the pointer is not the one that strdup gave, and NULL is for free.
abbrev pub free_rest : Option (List ℕ) → Pl × ℤ → Run (Pl × ℤ)
free_rest none result = ok result
free_rest (some s) result = fault

-- strdup: the copy of a text, or 0, at the `n`th call.
abbrev pub Strdup : Type 0
Strdup = ℕ → List ℕ → ℕ

module _ (realloc : Realloc) (strdup : Strdup) (delim : List ℕ) where
  -- The loop of pl_str_explode, and what it returns.
  unfoldable pub explode_loop : ℕ → ℕ → Pl → Option (List ℕ) → Run (Pl × ℤ)
  explode_loop zero n args ptr = out_of_fuel
  explode_loop (suc fuel) n args ptr = do
    (rest, tok) ← next_tok delim ptr
    elim tok [
      | none ↦ free_rest rest (args, pos args.count)
      | some t ↦ elim (strdup n t == 0) [
        | true ↦ free_rest rest (args, minus_one)
        | false ↦ (do
          (l, rc) ← add realloc args (strdup n t)
          elim (eq_ℤ rc minus_one) [
            | true ↦ free_rest rest (l, minus_one)
            | false ↦ explode_loop fuel (n + 1) l rest
          ])
      ]
    ]

  -- pl_str_explode, for arguments that are not NULL
  unfoldable pub explode_text : Pl → List ℕ → Run (Pl × ℤ)
  explode_text args str = elim (strdup 0 str == 0) [
    | true ↦ ok (args, minus_one)
    | false ↦ explode_loop (length str + 2) 1 args (some str)
  ]

-- pl_str_explode; `none` is NULL.
unfoldable pub str_explode :
    Realloc → Strdup → Option Pl → Option (List ℕ) → Option (List ℕ) → Run (Option Pl × ℤ)
str_explode realloc strdup (some args) (some str) (some delim) = do
  (l, rc) ← explode_text realloc strdup delim args str
  ok (some l, rc)
str_explode realloc strdup args str delim = ok (args, minus_one)

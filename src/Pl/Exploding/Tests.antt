-- ===== src/Pl/Exploding/Tests.antt =====
-- A line of three words.
use rubsd.Prelude.{ℕ, ◌+◌, List, [], ◌∷◌, arith}
use rubsd.Prelude.Run.{Yields}
use rubsd.Pl.Exploding.{Strdup, explode_text}
use rubsd.Pl.Exploding.Tokens.{tokens}
use rubsd.Pl.Exploding.Adding.{copies, Exploded, explode_text_lem}
use rubsd.Pl.Tests.{padded, padded-IsRealloc, sample, sample-IsValid}

-- " ab c  d"
abbrev line : List ℕ
line = 32 ∷ 97 ∷ 98 ∷ 32 ∷ 99 ∷ 32 ∷ 32 ∷ 100 ∷ []

abbrev numbered : Strdup
numbered n t = n + 100

explode_text_lem_example :
    Yields
      (Exploded padded padded-IsRealloc numbered
        (32 ∷ [])
        sample
        (copies numbered 1 (tokens (32 ∷ []) line)))
      (explode_text padded numbered (32 ∷ []) sample line)
explode_text_lem_example =
    explode_text_lem padded padded-IsRealloc numbered (32 ∷ []) line sample sample-IsValid
      (λ k t. omega arith) (λ a k. cc) (omega arith)

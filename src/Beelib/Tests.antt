-- ===== src/Beelib/Tests.antt =====
-- Tokens of a path.
use rubsd.Prelude.{◌≡◌, refl, [], ◌∷◌, some}
use rubsd.Prelude.Run.{ok, Yields}
use rubsd.Beelib.{strsep, token_loop, next_token, skip_front, cut_tail, strtrim}
use rubsd.Beelib.Tokens.{Next, next_token_lem}

-- "//ab/c" gives "ab" and leaves "c".
second :
    next_token (47 ∷ []) (some (47 ∷ 47 ∷ 97 ∷ 98 ∷ 47 ∷ 99 ∷ []))
    ≡ ok (some (99 ∷ []), some (97 ∷ 98 ∷ []))
unfolding next_token token_loop strsep
second = refl

-- "  a b " is cut to "a b".
trimmed : strtrim (32 ∷ []) (some (32 ∷ 32 ∷ 97 ∷ 32 ∷ 98 ∷ 32 ∷ [])) ≡ some (97 ∷ 32 ∷ 98 ∷ [])
unfolding strtrim skip_front cut_tail
trimmed = refl

next_token_lem_example :
    Yields (Next (47 ∷ []) (47 ∷ 97 ∷ 47 ∷ [])) (next_token (47 ∷ []) (some (47 ∷ 97 ∷ 47 ∷ [])))
next_token_lem_example = next_token_lem (47 ∷ []) (47 ∷ 97 ∷ 47 ∷ [])

-- ===== src/Recode/Tests.antt =====
-- The theorem on recode, at concrete strings.
use rubsd.Prelude.{ℕ, ◌≡◌, List, [], ◌∷◌, arith}
use rubsd.Prelude.Int.{pos}
use rubsd.Prelude.Run.{ok, Yields}
use rubsd.Recode.{recode}
use rubsd.Recode.Trips.{IsPlain, stop, more, recode-recode}

abbrev word : List ℕ
word = 98 ∷ 224 ∷ 0 ∷ []

win-IsPlain : IsPlain 163 179 word
win-IsPlain =
    more (omega arith) (omega arith) (omega arith) (omega arith)
      (more (omega arith) (omega arith) (omega arith) (omega arith) stop)

koi8-IsPlain : IsPlain 168 184 word
koi8-IsPlain =
    more (omega arith) (omega arith) (omega arith) (omega arith)
      (more (omega arith) (omega arith) (omega arith) (omega arith) stop)

recode-recode_example :
    Yields (λ b. recode b (pos 1) ≡ ok word) (recode word (pos 0))
    × Yields (λ b. recode b (pos 0) ≡ ok word) (recode word (pos 1))
recode-recode_example = recode-recode word word win-IsPlain koi8-IsPlain

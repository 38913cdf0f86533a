-- ===== src/Recode/Trips.antt =====
-- There and back.
use rubsd.Prelude.{
  ℕ, ◌-◌, ◌<◌, ◌≡◌, refl, ◌≢◌, Bool, true, ◌&&◌, ◌||◌, List, [], ◌∷◌, ◌==◌, ltb, arith,
}
use rubsd.Prelude.Int.{pos}
use rubsd.Prelude.Run.{ok, Yields, value, Yields-bind}
use rubsd.Misc.Tables.{holds_from, holds_from-each}
use rubsd.Misc.{recase}
use rubsd.Misc.Folding.{recase-step}
use rubsd.Recode.{to_koi8, to_win, recode}

-- A block that holds a string of bytes, none of them `x` or `y`.
pub data IsPlain (x y : ℕ) : List ℕ → Type 0 where
  stop : {rest : List ℕ} → IsPlain x y (0 ∷ rest)
  more :
      {c : ℕ} {rest : List ℕ}
      → 0 < c
      → c < 256
      → c ≢ x
      → c ≢ y
      → IsPlain x y rest
      → IsPlain x y (c ∷ rest)

returns_koi8 : ℕ → Bool
returns_koi8 c = (to_win (to_koi8 c) == c && ltb 0 (to_koi8 c)) || c == 163 || c == 179

returns_win : ℕ → Bool
returns_win c = (to_koi8 (to_win c) == c && ltb 0 (to_win c)) || c == 168 || c == 184

table_koi8 : holds_from 1 255 returns_koi8 ≡ true
unfolding holds_from returns_koi8 to_koi8 to_win
table_koi8 = refl

table_win : holds_from 1 255 returns_win ≡ true
unfolding holds_from returns_win to_koi8 to_win
table_win = refl

-- `other` undoes `table`, but for the bytes `x` and `y`.
record IsUndone (table other : ℕ → ℕ) (x y : ℕ) : Type 0 where
  back : (c : ℕ) → 0 < c → c < 256 → c ≢ x → c ≢ y → other (table c) ≡ c
  positive : (c : ℕ) → 0 < c → c < 256 → c ≢ x → c ≢ y → 0 < table c

koi8-IsUndone : IsUndone to_koi8 to_win 163 179
unfolding returns_koi8
koi8-IsUndone =
    let each : (c : ℕ) → 0 < c → c < 256 → returns_koi8 c ≡ true = λ c p q.
      holds_from-each 1 255 returns_koi8 table_koi8 c (c - 1) (omega arith) (omega arith) in
    record {
      back = λ c p q n m. ground (arith, each c p q);
      positive = λ c p q n m. ground (arith, each c p q);
    }

win-IsUndone : IsUndone to_win to_koi8 168 184
unfolding returns_win
win-IsUndone =
    let each : (c : ℕ) → 0 < c → c < 256 → returns_win c ≡ true =
      λ c p q. holds_from-each 1 255 returns_win table_win c (c - 1) (omega arith) (omega arith) in
    record {
      back = λ c p q n m. ground (arith, each c p q);
      positive = λ c p q n m. ground (arith, each c p q);
    }

trip_lem :
    (table other : ℕ → ℕ) (x y : ℕ)
    → IsUndone table other x y
    → (str : List ℕ) → IsPlain x y str
    → Yields (λ b. recase other b ≡ ok str) (recase table str)
unfolding recase
trip_lem table other x y k [] t = elim t [ ]
trip_lem table other x y k (c ∷ rest) stop = value refl
trip_lem table other x y k (c ∷ rest) (more p q n m t) = rw (recase-step table c rest p) (
    Yields-bind (trip_lem table other x y k rest t) λ b same.
      value
        (rw (recase-step other (table c) b (k.positive c p q n m), same, k.back c p q n m) refl))

-- recode from windows-1251 to KOI8-R returns, and recode back restores a string without the bytes A3
-- and B3; so does the other way round a string without the bytes A8 and B8.
pub recode-recode :
    (win koi8 : List ℕ)
    → IsPlain 163 179 win
    → IsPlain 168 184 koi8
    → Yields (λ b. recode b (pos 1) ≡ ok win) (recode win (pos 0))
      × Yields (λ b. recode b (pos 0) ≡ ok koi8) (recode koi8 (pos 1))
unfolding recode
recode-recode win koi8 s t = (
  trip_lem to_koi8 to_win 163 179 koi8-IsUndone win s,
  trip_lem to_win to_koi8 168 184 win-IsUndone koi8 t,
)

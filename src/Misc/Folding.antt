-- ===== src/Misc/Folding.antt =====
-- How the two cases go together.
use rubsd.Prelude.{
  ℕ, suc, ◌-◌, ◌<◌, ◌≡◌, refl, ap, Bool, true, ◌&&◌, List, [], ◌∷◌, ◌==◌, ltb, arith, length,
}
use rubsd.Prelude.Run.{ok, ◌>>=◌, Yields, value, Yields-bind}
use rubsd.Misc.Tables.{holds_from, holds_from-each}
use rubsd.Misc.{lower, upper, recase, strupper, strlower}

-- Of a byte that is not 0, the capital and the small letter are not 0 either, and each case can be
-- got from the other.
fits : ℕ → Bool
fits c =
    lower (upper c) == lower c
    && upper (lower c) == upper c
    && ltb 0 (upper c)
    && ltb (upper c) 256
    && ltb 0 (lower c)
    && ltb (lower c) 256

table_fits : holds_from 1 255 fits ≡ true
unfolding holds_from fits lower upper
table_fits = refl

-- What `fits` says, of one byte.
record Fits (c : ℕ) : Type 0 where
  down : lower (upper c) ≡ lower c
  up : upper (lower c) ≡ upper c
  capital : 0 < upper c
  capital_byte : upper c < 256
  small : 0 < lower c
  small_byte : lower c < 256

byte-Fits : (c : ℕ) → 0 < c → c < 256 → Fits c
unfolding fits
byte-Fits c p q =
    let h : fits c ≡ true =
      holds_from-each 1 255 fits table_fits c (c - 1) (omega arith) (omega arith) in
    record {
      down = ground arith;
      up = ground arith;
      capital = ground arith;
      capital_byte = ground arith;
      small = ground arith;
      small_byte = ground arith;
    }

-- A block that holds a string: bytes, with a 0 among them.
pub data IsText : List ℕ → Type 0 where
  stop : {rest : List ℕ} → IsText (0 ∷ rest)
  more : {c : ℕ} {rest : List ℕ} → 0 < c → c < 256 → IsText rest → IsText (c ∷ rest)

pub recase-step :
    (table : ℕ → ℕ) (c : ℕ) (rest : List ℕ)
    → 0 < c
    → recase table (c ∷ rest) ≡ (recase table rest >>= λ b. ok (table c ∷ b))
unfolding recase
recase-step table c rest p = ground arith

-- The two cases `table` and `other`, `other` undone by `table`.
record IsCase (table other : ℕ → ℕ) : Type 0 where
  undoes : (c : ℕ) → 0 < c → c < 256 → other (table c) ≡ other c
  positive : (c : ℕ) → 0 < c → c < 256 → 0 < table c
  byte : (c : ℕ) → 0 < c → c < 256 → table c < 256

-- What the loop makes of a block.
abbrev Recased : (ℕ → ℕ) → List ℕ → List ℕ → Type 0
Recased other str b = IsText b × (length b ≡ length str) × (recase other b ≡ recase other str)

recase_lem :
    (table other : ℕ → ℕ)
    → IsCase table other
    → (str : List ℕ) → IsText str
    → Yields (Recased other str) (recase table str)
unfolding recase
recase_lem table other k [] t = elim t [ ]
recase_lem table other k (c ∷ rest) stop = value (stop, refl, refl)
recase_lem table other k (c ∷ rest) (more p q t) = rw (recase-step table c rest p) (
    Yields-bind (recase_lem table other k rest t) λ b (text, size, same). value (
      more (k.positive c p q) (k.byte c p q) text,
      ap suc size,
      rw
          (
            recase-step other (table c) b (k.positive c p q),
            recase-step other c rest p,
            same,
            k.undoes c p q,
          )
          refl,
    ))

upper-IsCase : IsCase upper lower
upper-IsCase = record {
  undoes = λ c p q. (byte-Fits c p q).down;
  positive = λ c p q. (byte-Fits c p q).capital;
  byte = λ c p q. (byte-Fits c p q).capital_byte;
}

lower-IsCase : IsCase lower upper
lower-IsCase = record {
  undoes = λ c p q. (byte-Fits c p q).up;
  positive = λ c p q. (byte-Fits c p q).small;
  byte = λ c p q. (byte-Fits c p q).small_byte;
}

-- strupper and strlower on a string of bytes return, with a string as long as before; strupper makes
-- one that strlower takes to the same string as the old one, and strlower one that strupper does.
pub strupper-strlower :
    (str : List ℕ)
    → IsText str
    → Yields (λ b. IsText b × (length b ≡ length str) × (strlower b ≡ strlower str)) (strupper str)
      × Yields
          (λ b. IsText b × (length b ≡ length str) × (strupper b ≡ strupper str))
          (strlower str)
unfolding strupper strlower
strupper-strlower str t =
    (recase_lem upper lower upper-IsCase str t, recase_lem lower upper lower-IsCase str t)

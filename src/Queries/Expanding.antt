-- ===== src/Queries/Expanding.antt =====
-- query_vcatstr on a buffer with room: the text with its places filled.
use mathlib.Core.List.{append-nil, append_assoc}
use rubsd.Prelude.{
  ℕ, zero, suc, ◌+◌, ◌-◌, ◌≤◌, ◌≡◌, refl, ◌∙◌, sym, ap, true, false, ◌==◌, ◌&&◌, arith, List, [],
  ◌∷◌, ◌++◌, Option, none, some, length, length-append, length-drop, length-set, take, drop, set,
  get_elem?, ltb, leb, if◌then◌else◌,
}
use rubsd.Prelude.Run.{ok, Yields, value, ◌>>=◌}
use rubsd.Prelude.Cells.{write, write-ok}
use rubsd.Queries.{dollar, is_place, blit, put_piece, put_text}

-- A byte, or a text, before the rest of an expansion.
abbrev pub before : List ℕ → Option (List ℕ) → Option (List ℕ)
before a none = none
before a (some s) = some (a ++ s)

-- What a text stands for: `$1` to `$9` stand for the arguments, and every other byte for itself; `none` if
-- an argument is missing.
abbrev pub expand : List (List ℕ) → List ℕ → Option (List ℕ)
expand args [] = some []
expand args (c ∷ []) = some (c ∷ [])
expand args (c ∷ x ∷ s) =
    let as_place = expand args s in
    let as_byte = expand args (x ∷ s) in
    if (c == dollar) && is_place x
    then elim (get_elem? args (x - 49)) [ none ↦ none | some arg ↦ before arg as_place ]
    else before (c ∷ []) as_byte

take_front : (a b : List ℕ) → take (length a) (a ++ b) ≡ a
take_front [] b = refl
take_front (x ∷ a) b = ap (◌∷◌ x) (take_front a b)

drop_behind : (a b : List ℕ) (n k : ℕ) → k ≡ length a + n → drop k (a ++ b) ≡ drop n b
drop_behind [] b n k e = let same : k ≡ n = omega arith in rw same refl
drop_behind (x ∷ a) b n zero e = absurd (omega arith)
drop_behind (x ∷ a) b n (suc k) e = drop_behind a b n k (omega arith)

set_behind : (a b : List ℕ) (i k v : ℕ) → k ≡ length a + i → set (a ++ b) k v ≡ a ++ set b i v
set_behind [] b i k v e = let same : k ≡ i = omega arith in rw same refl
set_behind (x ∷ a) b i zero v e = absurd (omega arith)
set_behind (x ∷ a) b i (suc k) v e = ap (◌∷◌ x) (set_behind a b i k v (omega arith))

-- The buffer holds `done`, the length is that of `done`, and there are `total` bytes.
pub record Holds (done : List ℕ) (total : ℕ) (r : List ℕ × ℕ) : Type 0 where
  pub rest : List ℕ
  pub bytes : r.0 ≡ done ++ rest
  pub size : length done + length rest ≡ total
  pub len : r.1 ≡ length done

blit_lem :
    (done bytes rest : List ℕ)
    → length bytes ≤ length rest
    → blit (length done) bytes (done ++ rest) ≡ ok (done ++ (bytes ++ drop (length bytes) rest))
unfolding blit
blit_lem done bytes rest fits =
    let inside : leb (length done + length bytes) (length (done ++ rest)) ≡ true =
      ground (arith, length-append done rest) in
    rw
      (
        inside,
        take_front done rest,
        drop_behind done rest (length bytes) (length done + length bytes) refl,
      )
      refl

take_all : (a : List ℕ) → take (length a) a ≡ a
take_all [] = refl
take_all (x ∷ a) = ap (◌∷◌ x) (take_all a)

take_more : (n : ℕ) (a : List ℕ) → length a ≤ n → take n a ≡ a
take_more zero [] h = refl
take_more (suc n) [] h = refl
take_more zero (x ∷ a) h = absurd (omega arith)
take_more (suc n) (x ∷ a) h = ap (◌∷◌ x) (take_more n a (omega arith))

-- What a copy and the NUL behind it leave.
copied_lem :
    (total : ℕ) (done piece rest : List ℕ)
    → length done + length rest ≡ total
    → length done + length piece + 2 ≤ total
    → Yields (Holds (done ++ piece) total) (
        blit (length done) piece (done ++ rest) >>= λ b.
        write b (length done + length piece + 1) 0 >>= λ c. ok (c, length done + length piece))
copied_lem total done piece rest all room =
    let r2 = drop (length piece) rest in
    let left : length r2 ≡ length rest - length piece = length-drop (length piece) rest in
    let front : length (done ++ piece) ≡ length done + length piece = length-append done piece in
    let whole = length-append done (piece ++ r2) in
    let back = length-append piece r2 in
    let moved : set (done ++ (piece ++ r2)) (length done + length piece + 1) 0
        ≡ (done ++ piece) ++ set r2 1 0 =
      ap (λ (b : List ℕ). set b (length done + length piece + 1) 0)
        (sym (append_assoc done piece r2))
      ∙ set_behind (done ++ piece) r2 1 (length done + length piece + 1) 0 (omega arith) in
    rw
      (
        blit_lem done piece rest (omega arith),
        write-ok (done ++ (piece ++ r2)) (length done + length piece + 1) 0 (omega arith),
      )
      (value (record {
        rest = set r2 1 0;
        bytes = moved;
        size = omega (arith, length-set r2 1 0);
        len = sym front;
      }))

pub put_piece_lem :
    (size total : ℕ) (done piece rest : List ℕ)
    → length done + length rest ≡ total
    → length done + length piece + 2 ≤ size
    → size ≤ total
    → Yields (Holds (done ++ piece) total) (put_piece size (length done) piece (done ++ rest))
unfolding put_piece
put_piece_lem size total done [] rest all room fits =
    let fit : ltb size (length done + 0) ≡ false = ground arith in
    rw (put_piece, fit)
      (value (record {
        rest = rest;
        bytes = ap (λ (xs : List ℕ). xs ++ rest) (sym (append-nil done));
        size = omega (arith, ap length (append-nil done));
        len = sym (ap length (append-nil done));
      }))
put_piece_lem size total done (c ∷ piece) rest all room fits =
    let fit : ltb size (length done + length (c ∷ piece)) ≡ false = ground arith in
    let some_bytes : (length (c ∷ piece) == 0) ≡ false = ground arith in
    rw (put_piece, fit, some_bytes, take_all piece)
      (copied_lem total done (c ∷ piece) rest all (omega arith))

pub put_text_lem :
    (size total : ℕ) (done text rest : List ℕ)
    → length done + length rest ≡ total
    → length done + length text + 1 ≤ size
    → size ≤ total
    → Yields
        (λ r. Holds (done ++ text) total r × ((tail : List ℕ) × (r.0 ≡ (done ++ text) ++ 0 ∷ tail)))
        (put_text size (length done) text (done ++ rest))
unfolding put_text
put_text_lem size total done text rest all room fits =
    let fit : ltb size (length done) ≡ false = ground arith in
    let more : (size == length done) ≡ false = ground arith in
    let whole : take (size - length done - 1) text ≡ text =
      take_more (size - length done - 1) text (omega arith) in
    let end = text ++ 0 ∷ [] in
    let end_size = length-append text (0 ∷ []) in
    let r2 = drop (length end) rest in
    let same : done ++ (end ++ r2) ≡ (done ++ text) ++ 0 ∷ r2 =
      ap (done ++◌) (append_assoc text (0 ∷ []) r2) ∙ sym (append_assoc done text (0 ∷ r2)) in
    rw (put_text, fit, more, whole, blit_lem done end rest (omega arith))
      (value (
        record {
          rest = 0 ∷ r2;
          bytes = same;
          size = omega (arith, length-append done text, length-drop (length end) rest);
          len = sym (length-append done text);
        },
        (r2, same),
      ))

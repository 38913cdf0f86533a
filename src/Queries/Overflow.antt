-- ===== src/Queries/Overflow.antt =====
-- query_vcatstr on a piece of text that fills the buffer.
use rubsd.Prelude.{
  ℕ, suc, ◌+◌, ◌-◌, ◌≤◌, ◌<◌, ◌≡◌, refl, inl, inr, true, false, ◌==◌, arith, List, [], ◌∷◌, ◌++◌,
  some, length, length-append, length-take, length-drop, take, drop, get_elem?, ltb, leb,
  Bool-cases, Option-cases,
}
use rubsd.Prelude.Run.{Run, ok, fault, ◌>>=◌}
use rubsd.Prelude.Cells.{write, write-fault}
use rubsd.Queries.{dollar, is_place, blit, to_dollar, put_piece, put_arg, vcat_loop, query_vcatstr}

-- A text with no '$' in it.
abbrev pub NoDollar : List ℕ → Type 0
NoDollar [] = Unit {0}
NoDollar (c ∷ s) = ((c == dollar) ≡ false) × NoDollar s

to_dollar-NoDollar :
    (piece rest : List ℕ) → NoDollar piece → to_dollar (piece ++ dollar ∷ rest) ≡ (piece, some rest)
unfolding to_dollar
to_dollar-NoDollar [] rest clean = refl
to_dollar-NoDollar (c ∷ piece) rest (isnt, clean) =
    rw (to_dollar, isnt, to_dollar-NoDollar piece rest clean) refl

abbrev with_length : ℕ → List ℕ → Run (List ℕ × ℕ)
with_length n buf = ok (buf, n)

-- `m` bytes of a piece fill a buffer but for one byte at most, and the NUL comes behind its end.
cut-fault :
    (m : ℕ) (piece buf : List ℕ)
    → m ≤ length piece
    → m ≤ length buf
    → length buf ≤ m + 1
    → (blit 0 (take m piece) buf >>= λ b. write b (0 + m + 1) 0 >>= λ c. with_length (0 + m) c)
      ≡ fault
unfolding blit
cut-fault m piece buf short fits full =
    let bytes = take m piece in
    let size : length bytes ≡ m = omega (arith, length-take m piece) in
    let inside : leb (0 + length bytes) (length buf) ≡ true = ground (arith, size) in
    let tail = drop (0 + length bytes) buf in
    let whole : length (bytes ++ tail) ≡ length buf =
      omega (arith, length-append bytes tail, length-drop (0 + length bytes) buf, size) in
    rw (inside, write-fault (bytes ++ tail) (0 + m + 1) 0 (omega arith)) refl

put_piece-fault :
    (piece buf : List ℕ)
    → 1 < length buf
    → length buf ≤ length piece + 1
    → put_piece (length buf) 0 piece buf ≡ fault
unfolding put_piece
put_piece-fault piece buf some_room long = elim (Bool-cases (ltb (length buf) (0 + length piece))) [
  | inl longer ↦
      let filled : (length buf - 0 == 0) ≡ false = ground arith in
      rw (put_piece, longer, filled)
        (cut-fault (length buf - 0) piece buf (ground arith) (omega arith) (omega arith))
  | inr fits ↦
      let filled : (length piece == 0) ≡ false = ground arith in
      rw (put_piece, fits, filled)
        (cut-fault (length piece) piece buf (omega arith) (ground arith) (omega arith))
]

-- A piece of text before a place, one byte shorter than the buffer or longer: query_vcatstr cuts the piece
-- to the buffer and then writes a NUL behind the end of the buffer, for every argument.
pub query_vcatstr-fault :
    (args : List (List ℕ)) (buf piece rest : List ℕ) (x : ℕ)
    → NoDollar piece
    → is_place x ≡ true
    → 1 < length buf
    → length buf ≤ length piece + 1
    → query_vcatstr buf (length buf) (piece ++ dollar ∷ x ∷ rest) args ≡ fault
unfolding query_vcatstr vcat_loop put_arg
query_vcatstr-fault args buf piece rest x clean place some_room long =
    let split = to_dollar-NoDollar piece (x ∷ rest) clean in
    let rounds : length (piece ++ dollar ∷ x ∷ rest) + 1
        ≡ suc (length (piece ++ dollar ∷ x ∷ rest)) =
      omega arith in
    let cut : put_piece (length buf) 0 (to_dollar (piece ++ dollar ∷ x ∷ rest)).0 buf ≡ fault =
      rw split (put_piece-fault piece buf some_room long) in
    rw (query_vcatstr, rounds, vcat_loop, split, place)
      (elim (Option-cases (get_elem? args (x - 49))) [
        | inl missing ↦ rw (put_arg, missing) refl
        | inr (arg, given) ↦ rw (put_arg, given, cut) refl
      ])

-- ===== src/Db/Slots.antt =====
-- Records of one size as slices of a file's bytes.
use mathlib.Core.List.{append-nil}
use native.Mathlib.Nat.{le-div_iff_mul-le}
use rubsd.Prelude.{
  ℕ, zero, suc, ◌+◌, ◌-◌, ◌*◌, ◌/◌, ◌≤◌, ◌<◌, ◌≡◌, refl, ◌≢◌, ◌↔◌, List, [], ◌∷◌, ◌++◌, arith,
  length, length-append, length-take, length-drop, take, drop, ltb, if◌then◌else◌,
}
use rubsd.Prelude.Cells.{at, at-append, at-take, at-drop, cells-ext}
use rubsd.Db.Calls.{splice}
use rubsd.Db.{overlay}

-- The record `n` of a file.
abbrev pub slot : ℕ → ℕ → List ℕ → List ℕ
slot size n file = take size (drop (n * size) file)

pub drop-all : (n : ℕ) (xs : List ℕ) → length xs ≤ n → drop n xs ≡ []
drop-all zero [] h = refl
drop-all zero (x ∷ xs) h = absurd (omega arith)
drop-all (suc n) [] h = refl
drop-all (suc n) (x ∷ xs) h = drop-all n xs (omega arith)

-- A buffer that is overwritten whole.
pub overlay-full : (b buf : List ℕ) → length b ≡ length buf → overlay b buf ≡ b
overlay-full b buf e = rw (drop-all (length b) buf (omega arith)) (append-nil b)

pub take-all : (n : ℕ) (xs : List ℕ) → length xs ≤ n → take n xs ≡ xs
take-all zero [] h = refl
take-all zero (x ∷ xs) h = absurd (omega arith)
take-all (suc n) [] h = refl
take-all (suc n) (x ∷ xs) h = rw (take-all n xs (omega arith))

-- A record lies in the file exactly when all its bytes do.
pub lt-div_iff : (size n len : ℕ) → 0 < size → (n < len / size) ↔ (n * size + size ≤ len)
lt-div_iff size n len p =
    let law = le-div_iff_mul-le {k = size} {x = n + 1} {y = len} p in
    ((λ h. grind (arith, law.0 (omega arith))), λ h. omega (arith, law.1 (grind arith)))

-- Two records do not overlap.
pub slots_apart : (size n m : ℕ) → n < m → n * size + size ≤ m * size
slots_apart size n m h = grind arith

pub length-slot :
    (size n : ℕ) (file : List ℕ) → n * size + size ≤ length file → length (slot size n file) ≡ size
length-slot size n file h =
    omega (arith, length-take size (drop (n * size) file), length-drop (n * size) file)

pub length-splice :
    (n : ℕ) (b file : List ℕ) → n + length b ≤ length file → length (splice n b file) ≡ length file
length-splice n b file h = omega (
  arith,
  length-append (take n file) (b ++ drop (n + length b) file),
  length-append b (drop (n + length b) file),
  length-take n file,
  length-drop (n + length b) file,
)

-- A write that may go past the end.
pub length-splice_over :
    (n : ℕ) (b file : List ℕ) → n ≤ length file → n + length b ≤ length (splice n b file)
length-splice_over n b file h = omega (
  arith,
  length-append (take n file) (b ++ drop (n + length b) file),
  length-append b (drop (n + length b) file),
  length-take n file,
)

pub at-splice :
    (n : ℕ) (b file : List ℕ) (i : ℕ)
    → n ≤ length file
    → at (splice n b file) i
      ≡ (if ltb i n then at file i else if ltb i (n + length b) then at b (i - n) else at file i)
at-splice n b file i h = ground (
  arith,
  length-take n file,
  at-append (take n file) (b ++ drop (n + length b) file) i,
  at-append b (drop (n + length b) file) (i - n),
  at-take n file i,
  at-drop (n + length b) file (i - n - length b),
)

-- A write into the record `n`, whole or cut short, leaves the other records as they were.
pub slot-splice_ne :
    (size n m : ℕ) (b file : List ℕ)
    → n * size + size ≤ length file
    → length b ≤ size
    → m ≢ n
    → m * size + size ≤ length file
    → slot size m (splice (n * size) b file) ≡ slot size m file
slot-splice_ne size n m b file fits small ne inside =
    let long = length-splice (n * size) b file (omega arith) in
    let new_size = length-slot size m (splice (n * size) b file) (omega arith) in
    let old_size = length-slot size m file inside in
    cells-ext (slot size m (splice (n * size) b file)) (slot size m file) (omega arith) λ i h.
      ground (
        arith,
        at-take size (drop (m * size) (splice (n * size) b file)) i,
        at-take size (drop (m * size) file) i,
        at-drop (m * size) (splice (n * size) b file) i,
        at-drop (m * size) file i,
        at-splice (n * size) b file (m * size + i),
        slots_apart size n m,
        slots_apart size m n,
      )

-- A write behind the record `m`, which may go past the end, leaves it as it was.
pub slot-splice_before :
    (size n m : ℕ) (b file : List ℕ)
    → n * size ≤ length file
    → m < n
    → slot size m (splice (n * size) b file) ≡ slot size m file
slot-splice_before size n m b file fits below =
    let apart = slots_apart size m n below in
    let long = length-splice_over (n * size) b file fits in
    let new_size = length-slot size m (splice (n * size) b file) (omega arith) in
    let old_size = length-slot size m file (omega arith) in
    cells-ext (slot size m (splice (n * size) b file)) (slot size m file) (omega arith) λ i h.
      ground (
        arith,
        at-take size (drop (m * size) (splice (n * size) b file)) i,
        at-take size (drop (m * size) file) i,
        at-drop (m * size) (splice (n * size) b file) i,
        at-drop (m * size) file i,
        at-splice (n * size) b file (m * size + i),
      )

-- A whole record that is written, over an old one or just behind the last, is the record there.
pub slot-splice :
    (size n : ℕ) (b file : List ℕ)
    → n * size ≤ length file
    → length b ≡ size
    → slot size n (splice (n * size) b file) ≡ b
slot-splice size n b file fits whole =
    let file' = splice (n * size) b file in
    let long : n * size + size ≤ length file' = omega (
      arith,
      length-append (take (n * size) file) (b ++ drop (n * size + length b) file),
      length-append b (drop (n * size + length b) file),
      length-take (n * size) file,
    ) in
    let new_size = length-slot size n file' long in
    cells-ext (slot size n file') b (omega arith) λ i h. ground (
      arith,
      at-take size (drop (n * size) file') i,
      at-drop (n * size) file' i,
      at-splice (n * size) b file (n * size + i),
    )

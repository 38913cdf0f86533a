-- ===== src/Links/Masks.antt =====
-- make_addr_mask and mask2bits.
use rubsd.Prelude.{
  ℕ, zero, suc, ◌+◌, ◌*◌, ◌/◌, ◌%◌, ◌^◌, ◌<◌, ◌≡◌, refl, ◌∙◌, ap, Bool, true, false, ◌&&◌, arith,
  List, [], ◌∷◌, leb, ◌==◌, length, get_or, if◌then◌else◌, Bool-cases, ==_iff, inl, inr,
}
use rubsd.Prelude.Int.{ℤ, pos, negsuc, eq_ℤ, eq_ℤ→eq}
use rubsd.Links.{htonl, make_addr_mask, mask_cases, taken_case, mask2bits}

-- A test on all numbers below `n`.
abbrev all_below : ℕ → (ℕ → Bool) → Bool
all_below zero p = true
all_below (suc n) p = p n && all_below n p

all_below_lem : (n : ℕ) (p : ℕ → Bool) (x : ℕ) → all_below n p ≡ true → x < n → p x ≡ true
all_below_lem zero p x h lt = absurd (omega arith)
all_below_lem (suc n) p x h lt = ground (arith, all_below_lem n p x)

abbrev is_round : Bool → ℕ → Bool
is_round big n = eq_ℤ (mask2bits big (make_addr_mask big (pos n))) (pos n)

all_round : (big : Bool) → all_below 32 (is_round big) ≡ true
unfolding mask2bits taken_case make_addr_mask htonl
all_round true = refl
all_round false = refl

abbrev is_case : Bool → ℕ → Bool
is_case big n = make_addr_mask big (pos n) == htonl big (get_or mask_cases n 0)

all_cases : (big : Bool) → all_below 33 (is_case big) ≡ true
unfolding make_addr_mask htonl
all_cases true = refl
all_cases false = refl

-- The number of bits that make_addr_mask takes a number for.
abbrev pub clamped : ℤ → ℤ
clamped (negsuc n) = pos 0
clamped (pos n) = if leb 32 n then pos 32 else pos n

large_mask : (big : Bool) (n : ℕ) → leb 32 n ≡ true → make_addr_mask big (pos n) ≡ 0xffffffff
unfolding make_addr_mask
large_mask big n h = let positive : (n == 0) ≡ false = ground arith in rw (positive, h) refl

all_ones : (big : Bool) → mask2bits big 0xffffffff ≡ pos 32
unfolding mask2bits taken_case htonl
all_ones true = refl
all_ones false = refl

small_mask : (big : Bool) (n : ℕ) → mask2bits big (make_addr_mask big (negsuc n)) ≡ pos 0
unfolding mask2bits taken_case make_addr_mask htonl
small_mask true n = refl
small_mask false n = refl

-- From bits to a mask and back: the number is the same from 0 to 32, a smaller one counts as 0 and a
-- larger one as 32, whichever order the machine keeps bytes in.
pub mask2bits-make_addr_mask :
    (big : Bool) (bits : ℤ) → mask2bits big (make_addr_mask big bits) ≡ clamped bits
mask2bits-make_addr_mask big (negsuc n) = small_mask big n
mask2bits-make_addr_mask big (pos n) = elim (Bool-cases (leb 32 n)) [
  | inl large ↦ rw large (ap (mask2bits big) (large_mask big n large) ∙ all_ones big)
  | inr small ↦
      rw small (eq_ℤ→eq _ _ (all_below_lem 32 (is_round big) n (all_round big) (ground arith)))
]

-- Two changes of the order of bytes give the number back.
htonl-htonl : (big : Bool) (x : ℕ) → x < 2 ^ 32 → htonl big (htonl big x) ≡ x
unfolding htonl
htonl-htonl true x h = refl
htonl-htonl false x h =
    let a = x % 256 in
    let b = x / 256 % 256 in
    let c = x / 65536 % 256 in
    let d = x / 16777216 % 256 in
    let y = a * 16777216 + b * 65536 + c * 256 + d in
    let whole : x ≡ a + b * 256 + c * 65536 + d * 16777216 = omega arith in
    let e0 : y % 256 ≡ d = omega arith in
    let e1 : y / 256 % 256 ≡ c = omega arith in
    let e2 : y / 65536 % 256 ≡ b = omega arith in
    let e3 : y / 16777216 % 256 ≡ a = omega arith in omega arith

taken_case_lem :
    (x : ℕ) (cases : List ℕ) (i n : ℕ)
    → taken_case x cases i ≡ pos n
    → (k : ℕ) × (n ≡ i + k) × (k < length cases) × (get_or cases k 0 ≡ x)
unfolding taken_case
taken_case_lem x [] i n h = absurd (ground arith)
taken_case_lem x (c ∷ cases) i n h = elim (Bool-cases (x == c)) [
  | inl e ↦ (0, ground arith, omega arith, ground arith)
  | inr e ↦
      let (k, place, inside, same) = taken_case_lem x cases (i + 1) n (ground arith) in
      (suc k, omega arith, omega arith, same)
]

-- From a mask to bits and back: where mask2bits gives a number, at least 0, the mask of that number is
-- the one that it was asked for.
pub make_addr_mask-mask2bits :
    (big : Bool) (mask n : ℕ)
    → mask < 2 ^ 32
    → mask2bits big mask ≡ pos n
    → make_addr_mask big (pos n) ≡ mask
unfolding mask2bits
make_addr_mask-mask2bits big mask n small h =
    let (k, place, inside, same) = taken_case_lem (htonl big mask) mask_cases 0 n h in
    let below : n < 33 = omega arith in
    let entry : make_addr_mask big (pos n) ≡ htonl big (get_or mask_cases n 0) =
      (==_iff _ _).0 (all_below_lem 33 (is_case big) n (all_cases big) below) in
    let found : get_or mask_cases n 0 ≡ htonl big mask =
      let e : n ≡ k = omega arith in ap (λ j. get_or mask_cases j 0) e ∙ same in
    entry ∙ ap (htonl big) found ∙ htonl-htonl big mask small

-- ===== src/Prelude/Bits.antt =====
-- Laws of `bit_and` and `bit_xor`, C's `&` and `^` on unsigned numbers, by their digits.
use Prim.Native.Nat.{
  ℕ, zero, suc, ◌+◌, ◌*◌, ◌-◌, ◌/◌, ◌%◌, ◌^◌, ◌≤◌, ◌<◌, min, bit_and, digits, bit_and-bitwise,
  bit_xor, bit_xor-bitwise, differ,
}
use mathlib.Core.Path.{◌≡◌, refl, sym, ap, ◌∙◌}
use mathlib.Core.Logic.{◌⊎◌, inl, inr}
use native.Mathlib.Omega.{arith}

abbrev and_of : ℕ → ℕ → ℕ → ℕ
and_of = digits (λ _. 0) min

-- A count of digits that is larger than it must be changes nothing.
and_of_more : (few many a b : ℕ) → few ≤ many → a ≤ few → and_of many a b ≡ and_of few a b
and_of_more zero zero a b h e = refl
and_of_more few (suc many) zero b h e = elim few [ zero ↦ refl | suc few ↦ refl ]
and_of_more zero many (suc a) b h e = absurd (omega arith)
and_of_more (suc few) zero a b h e = absurd (omega arith)
and_of_more (suc few) (suc many) (suc a) b h e =
    ap (λ x. x * 2 + min (suc a % 2) (b % 2))
      (and_of_more few many (suc a / 2) (b / 2) (omega arith) (omega arith))

pub zero-and : (b : ℕ) → bit_and 0 b ≡ 0
zero-and b = bit_and-bitwise 0 b

-- Halves and lowest digits.
pub and_halves : (a b : ℕ) → bit_and a b ≡ bit_and (a / 2) (b / 2) * 2 + min (a % 2) (b % 2)
and_halves zero b = omega (arith, zero-and b, zero-and (b / 2))
and_halves (suc a) b =
    let half = suc a / 2 in
    let body : and_of a half (b / 2) ≡ bit_and half (b / 2) =
      and_of_more half a half (b / 2) (omega arith) (omega arith)
      ∙ sym (bit_and-bitwise half (b / 2)) in
    bit_and-bitwise (suc a) b ∙ ap (λ x. x * 2 + min (suc a % 2) (b % 2)) body

and_comm_below : (n a b : ℕ) → a ≤ n → b ≤ n → bit_and a b ≡ bit_and b a
and_comm_below zero zero zero p q = refl
and_comm_below zero (suc a) b p q = absurd (omega arith)
and_comm_below zero zero (suc b) p q = absurd (omega arith)
and_comm_below (suc n) a b p q = omega (
  arith,
  and_halves a b,
  and_halves b a,
  and_comm_below n (a / 2) (b / 2) (omega arith) (omega arith),
)

pub and_comm : (a b : ℕ) → bit_and a b ≡ bit_and b a
and_comm a b = and_comm_below (a + b) a b (omega arith) (omega arith)

and_idem_below : (n a : ℕ) → a ≤ n → bit_and a a ≡ a
and_idem_below zero zero p = refl
and_idem_below zero (suc a) p = absurd (omega arith)
and_idem_below (suc n) a p = omega (arith, and_halves a a, and_idem_below n (a / 2) (omega arith))

pub and_idem : (a : ℕ) → bit_and a a ≡ a
and_idem a = and_idem_below a a (omega arith)

and_assoc_below : (n a b c : ℕ) → a ≤ n → bit_and (bit_and a b) c ≡ bit_and a (bit_and b c)
and_assoc_below zero zero b c p =
    ap (λ x. bit_and x c) (zero-and b) ∙ zero-and c ∙ sym (zero-and (bit_and b c))
and_assoc_below zero (suc a) b c p = absurd (omega arith)
and_assoc_below (suc n) a b c p =
    let ab = and_halves a b in
    let bc = and_halves b c in
    let ab_half : bit_and a b / 2 ≡ bit_and (a / 2) (b / 2) = omega arith in
    let bc_half : bit_and b c / 2 ≡ bit_and (b / 2) (c / 2) = omega arith in
    let ab_digit : bit_and a b % 2 ≡ min (a % 2) (b % 2) = omega arith in
    let bc_digit : bit_and b c % 2 ≡ min (b % 2) (c % 2) = omega arith in
    let left : bit_and (bit_and a b / 2) (c / 2) ≡ bit_and (bit_and (a / 2) (b / 2)) (c / 2) =
      ap (λ x. bit_and x (c / 2)) ab_half in
    let right : bit_and (a / 2) (bit_and b c / 2) ≡ bit_and (a / 2) (bit_and (b / 2) (c / 2)) =
      ap (bit_and (a / 2)) bc_half in
    omega (
      arith,
      and_halves (bit_and a b) c,
      and_halves a (bit_and b c),
      and_assoc_below n (a / 2) (b / 2) (c / 2) (omega arith),
    )

pub and_assoc : (a b c : ℕ) → bit_and (bit_and a b) c ≡ bit_and a (bit_and b c)
and_assoc a b c = and_assoc_below a a b c (omega arith)

-- A mask of ones keeps a number of that many digits.
pub and_ones : (w a : ℕ) → a < 2 ^ w → bit_and a (2 ^ w - 1) ≡ a
and_ones zero zero h = refl
and_ones zero (suc a) h = absurd (omega arith)
and_ones (suc w) a h =
    let double : 2 ^ suc w ≡ 2 ^ w * 2 = grind arith in
    let low : a / 2 < 2 ^ w = omega arith in
    let half : (2 ^ suc w - 1) / 2 ≡ 2 ^ w - 1 = omega arith in
    let digit : (2 ^ suc w - 1) % 2 ≡ 1 = omega arith in
    let rest : bit_and (a / 2) ((2 ^ suc w - 1) / 2) ≡ a / 2 =
      ap (bit_and (a / 2)) half ∙ and_ones w (a / 2) low in
    omega (arith, and_halves a (2 ^ suc w - 1))

-- Two numbers that agree with one number under two masks agree under both masks at once.
pub and_meet :
    (x a b m n : ℕ)
    → a ≡ bit_and x m
    → b ≡ bit_and x n
    → bit_and a (bit_and m n) ≡ bit_and b (bit_and m n)
and_meet x a b m n p q =
    let left : bit_and a (bit_and m n) ≡ bit_and x (bit_and m n) =
      ap (λ y. bit_and y (bit_and m n)) p
      ∙ and_assoc x m (bit_and m n)
      ∙ ap (bit_and x) (sym (and_assoc m m n) ∙ ap (λ y. bit_and y n) (and_idem m)) in
    let again : bit_and n (bit_and m n) ≡ bit_and m n =
      and_comm n (bit_and m n) ∙ and_assoc m n n ∙ ap (bit_and m) (and_idem n) in
    let right : bit_and b (bit_and m n) ≡ bit_and x (bit_and m n) =
      ap (λ y. bit_and y (bit_and m n)) q ∙ and_assoc x n (bit_and m n) ∙ ap (bit_and x) again in
    left ∙ sym right

abbrev xor_of : ℕ → ℕ → ℕ → ℕ
xor_of = digits (λ b. b) differ

xor_of_more : (few many a b : ℕ) → few ≤ many → a ≤ few → xor_of many a b ≡ xor_of few a b
xor_of_more zero zero a b h e = refl
xor_of_more few (suc many) zero b h e = elim few [ zero ↦ refl | suc few ↦ refl ]
xor_of_more zero many (suc a) b h e = absurd (omega arith)
xor_of_more (suc few) zero a b h e = absurd (omega arith)
xor_of_more (suc few) (suc many) (suc a) b h e =
    ap (λ x. x * 2 + differ (suc a % 2) (b % 2))
      (xor_of_more few many (suc a / 2) (b / 2) (omega arith) (omega arith))

-- A digit is 0 or 1, and `differ` on digits.
digit : (a : ℕ) → (a % 2 ≡ 0) ⊎ (a % 2 ≡ 1)
digit a = ground arith

xor_halves : (a b : ℕ) → bit_xor a b ≡ bit_xor (a / 2) (b / 2) * 2 + differ (a % 2) (b % 2)
xor_halves zero b =
    let e : differ (0 % 2) (b % 2) ≡ b % 2 = refl in
    omega (arith, bit_xor-bitwise 0 b, bit_xor-bitwise 0 (b / 2))
xor_halves (suc a) b =
    let half = suc a / 2 in
    let body : xor_of a half (b / 2) ≡ bit_xor half (b / 2) =
      xor_of_more half a half (b / 2) (omega arith) (omega arith)
      ∙ sym (bit_xor-bitwise half (b / 2)) in
    bit_xor-bitwise (suc a) b ∙ ap (λ x. x * 2 + differ (suc a % 2) (b % 2)) body

differ_small : (a b : ℕ) → differ (a % 2) (b % 2) < 2
differ_small a b = elim (digit a) [
  | inl p ↦ elim (digit b) [ inl q ↦ rw (p, q) (omega arith) | inr q ↦ rw (p, q) (omega arith) ]
  | inr p ↦ elim (digit b) [ inl q ↦ rw (p, q) (omega arith) | inr q ↦ rw (p, q) (omega arith) ]
]

differ_comm : (a b : ℕ) → differ (a % 2) (b % 2) ≡ differ (b % 2) (a % 2)
differ_comm a b = elim (digit a) [
  | inl p ↦ elim (digit b) [ inl q ↦ rw (p, q) refl | inr q ↦ rw (p, q) refl ]
  | inr p ↦ elim (digit b) [ inl q ↦ rw (p, q) refl | inr q ↦ rw (p, q) refl ]
]

differ_undo : (a b : ℕ) → differ (b % 2) (differ (a % 2) (b % 2)) ≡ a % 2
differ_undo a b = elim (digit a) [
  | inl p ↦ elim (digit b) [ inl q ↦ rw (p, q) refl | inr q ↦ rw (p, q) refl ]
  | inr p ↦ elim (digit b) [ inl q ↦ rw (p, q) refl | inr q ↦ rw (p, q) refl ]
]

xor_comm_below : (n a b : ℕ) → a ≤ n → b ≤ n → bit_xor a b ≡ bit_xor b a
xor_comm_below zero zero zero p q = refl
xor_comm_below zero (suc a) b p q = absurd (omega arith)
xor_comm_below zero zero (suc b) p q = absurd (omega arith)
xor_comm_below (suc n) a b p q = omega (
  arith,
  xor_halves a b,
  xor_halves b a,
  differ_comm a b,
  xor_comm_below n (a / 2) (b / 2) (omega arith) (omega arith),
)

pub xor_comm : (a b : ℕ) → bit_xor a b ≡ bit_xor b a
xor_comm a b = xor_comm_below (a + b) a b (omega arith) (omega arith)

xor_undo_below : (n a b : ℕ) → a ≤ n → b ≤ n → bit_xor b (bit_xor a b) ≡ a
xor_undo_below zero zero zero p q = refl
xor_undo_below zero (suc a) b p q = absurd (omega arith)
xor_undo_below zero zero (suc b) p q = absurd (omega arith)
xor_undo_below (suc n) a b p q =
    let x = bit_xor a b in
    let small = differ_small a b in
    let halves = xor_halves a b in
    let half : x / 2 ≡ bit_xor (a / 2) (b / 2) = omega arith in
    let low : x % 2 ≡ differ (a % 2) (b % 2) = omega arith in
    let rest : bit_xor (b / 2) (x / 2) ≡ a / 2 =
      ap (bit_xor (b / 2)) half ∙ xor_undo_below n (a / 2) (b / 2) (omega arith) (omega arith) in
    let last : differ (b % 2) (x % 2) ≡ a % 2 = ap (differ (b % 2)) low ∙ differ_undo a b in
    omega (arith, xor_halves b x)

-- Exclusive or with the same number twice.
pub xor_undo : (a b : ℕ) → bit_xor b (bit_xor a b) ≡ a
xor_undo a b = xor_undo_below (a + b) a b (omega arith) (omega arith)

xor_self_below : (n a : ℕ) → a ≤ n → bit_xor a a ≡ 0
xor_self_below zero zero p = refl
xor_self_below zero (suc a) p = absurd (omega arith)
xor_self_below (suc n) a p =
    let same : differ (a % 2) (a % 2) ≡ 0 = elim (digit a) [
      | inl q ↦ rw q refl
      | inr q ↦ rw q refl
    ] in
    omega (arith, xor_halves a a, xor_self_below n (a / 2) (omega arith))

pub xor_self : (a : ℕ) → bit_xor a a ≡ 0
xor_self a = xor_self_below a a (omega arith)

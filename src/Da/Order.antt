-- ===== src/Da/Order.antt =====
-- da_swap, memswap, da_reverse and da_bsort. An item is a number whose digits are the bits of its bytes,
-- so that exclusive or of all its words and bytes is exclusive or of the number.
use Prim.Native.Nat.{bit_xor}
use rubsd.Prelude.{
  ℕ, zero, suc, ◌+◌, ◌-◌, ◌*◌, ◌||◌, ◌==◌, Bool, true, false, not, List, Option, none, some, ltb,
  leb, length, if◌then◌else◌,
}
use rubsd.Prelude.Int.{ℤ, pos, negsuc, is_neg, eq_ℤ, ◌+ℤ◌}
use rubsd.Pl.State.{int_max}
use rubsd.Prelude.Run.{Run, ok, fault, out_of_fuel, ◌>>=◌}
use rubsd.Prelude.Cells.{read, write}
use rubsd.Da.{Da, ptr_to}

-- `a ^= b`, for two items of a block.
unfoldable pub xor_into : ℕ → ℕ → List ℕ → Run (List ℕ)
xor_into i j a = do x ← read a i; y ← read a j; write a i (bit_xor x y)

-- memswap of two items: the macro SWAP, with its three assignments one after the other.
unfoldable pub memswap : ℕ → ℕ → List ℕ → Run (List ℕ)
memswap i j a = do b ← xor_into i j a; c ← xor_into j i b; xor_into i j c

-- da_swap
unfoldable pub swap : Bool → Da → ℤ → ℤ → Run (Da × ℤ)
swap given l ind1 ind2 = elim (ptr_to given l ind1) [
  | none ↦ ok (l, negsuc 0)
  | some i ↦ elim (ptr_to given l ind2) [
    | none ↦ ok (l, negsuc 0)
    | some j ↦ (do cells ← memswap i j l.cells; ok (record l { cells = cells }, pos 0))
  ]
]

-- The loop of da_reverse; `b` is at most half the count.
unfoldable pub reverse_loop : ℕ → Bool → Da → ℕ → ℕ → Run (Da × ℤ)
reverse_loop zero given l b e = out_of_fuel
reverse_loop (suc fuel) given l b e = if not (ltb b e) then ok (l, pos 0) else (do
  (k, rc) ← swap given l (pos b) (pos e)
  elim (is_neg rc) [ true ↦ ok (k, negsuc 0) | false ↦ reverse_loop fuel given k (b + 1) (e - 1) ])

-- da_reverse, with whether the count is there.
unfoldable pub reverse : Bool → Bool → Da → Run (Da × ℤ)
reverse counted given l =
    if not counted then ok (l, negsuc 0) else reverse_loop (l.count + 1) given l 0 (l.count - 1)

-- The result of a pass: the index after it, the number of swaps and the items, or an error of `func`
-- with the items.
pub data Pass : Type 0 where
  passed : ℤ → ℕ → List ℕ → Pass
  stopped : List ℕ → Pass

-- The product of an index and the size of an item, both of type int.
unfoldable pub mul_int : ℕ → ℕ → Run ℕ
mul_int i size = if leb (i * size) int_max then ok (i * size) else fault

module _ (func : ℕ → ℕ → ℤ) (size w_cnt : ℕ) where
  -- The body of the loop of a pass at the item `p`, which is the cell `p` at the offset `p * size`.
  unfoldable pub settle_pair : ℕ → ℕ → List ℕ → Run (Option (ℕ × List ℕ))
  settle_pair p n a = mul_int p size >>= λ offset. (do
    item1 ← read a p
    item2 ← read a (p + 1)
    let rc = func item1 item2 in
        if is_neg rc
        then ok none
        else if eq_ℤ rc (pos 0)
        then ok (some (n, a))
        else (do b ← memswap p (p + 1) a; ok (some (n + 1, b))))

  -- The inner loop of da_bsort.
  unfoldable pub pass : ℕ → ℤ → ℤ → ℕ → List ℕ → Run Pass
  pass zero d i n a = out_of_fuel
  pass (suc fuel) d (negsuc q) n a = ok (passed (negsuc q) n a)
  pass (suc fuel) d (pos p) n a = if not (ltb p w_cnt) then ok (passed (pos p) n a) else (do
    r ← settle_pair p n a
    elim r [ none ↦ ok (stopped a) | some (m, b) ↦ pass fuel d (pos p +ℤ d) m b ])

  -- The outer loop, with the fuel of both.
  unfoldable pub bsort_loop : ℕ → Bool → ℤ → List ℕ → Run (List ℕ × ℤ)
  bsort_loop zero up i a = out_of_fuel
  bsort_loop (suc fuel) up i a = do
    r ← pass (w_cnt + 1) (if up then pos 1 else negsuc 0) i 0 a
    elim r [
      | stopped b ↦ ok (b, negsuc 0)
      | passed j n b ↦ elim n [
        | zero ↦ ok (b, pos 0)
        | suc m ↦ bsort_loop fuel (not up) (j +ℤ (if up then negsuc 0 else pos 1)) b
      ]
    ]

-- da_bsort of items of `size` bytes; `given` is whether no pointer is NULL.
unfoldable pub bsort : Bool → (ℕ → ℕ → ℤ) → ℕ → Da → Run (Da × ℤ)
bsort given func size l =
    if not given || (size == 0)
    then ok (l, negsuc 0)
    else if leb l.count 1 || (length l.cells == 0)
    then ok (l, pos 0)
    else (do
      (cells, rc) ← bsort_loop func size (l.count - 1) (l.count * l.count + 1) true (pos 0) l.cells
      ok (record l { cells = cells }, rc))

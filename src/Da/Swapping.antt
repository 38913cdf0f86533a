-- ===== src/Da/Swapping.antt =====
-- memswap.
use Prim.Native.Nat.{bit_xor}
use rubsd.Prelude.{ℕ, ◌<◌, ◌≡◌, ◌≢◌, ◌∙◌, ap, arith, List, length, set, length-set}
use rubsd.Prelude.Run.{ok, Yields, value}
use rubsd.Prelude.Cells.{at, read-ok, write-ok, at-set, cells-ext}
use rubsd.Prelude.Bits.{xor_comm, xor_undo, xor_self}
use rubsd.Da.Order.{xor_into, memswap}

xor_into_lem :
    (i j : ℕ) (a : List ℕ)
    → i < length a
    → j < length a
    → xor_into i j a ≡ ok (set a i (bit_xor (at a i) (at a j)))
unfolding xor_into
xor_into_lem i j a p q =
    rw (read-ok a i p, read-ok a j q) (write-ok a i (bit_xor (at a i) (at a j)) p)

-- memswap of two different items exchanges them.
pub memswap_lem :
    (i j : ℕ) (a : List ℕ)
    → i ≢ j
    → i < length a
    → j < length a
    → memswap i j a ≡ ok (set (set a i (at a j)) j (at a i))
unfolding memswap
memswap_lem i j a apart p q =
    let x = at a i in
    let y = at a j in
    let b = set a i (bit_xor x y) in
    let size_b = length-set a i (bit_xor x y) in
    let c = set b j (bit_xor (at b j) (at b i)) in
    let size_c = length-set b j (bit_xor (at b j) (at b i)) in
    let d = set c i (bit_xor (at c i) (at c j)) in
    let size_d = length-set c i (bit_xor (at c i) (at c j)) in
    let b_i : at b i ≡ bit_xor x y = ground (arith, at-set a i i (bit_xor x y) p) in
    let b_j : at b j ≡ y = ground (arith, at-set a i j (bit_xor x y) p) in
    let c_j : at c j ≡ x =
      ground (arith, at-set b j j (bit_xor (at b j) (at b i)) (omega arith))
      ∙ ap (λ u. bit_xor u (at b i)) b_j
      ∙ ap (bit_xor y) b_i
      ∙ xor_undo x y in
    let c_i : at c i ≡ bit_xor x y =
      ground (arith, at-set b j i (bit_xor (at b j) (at b i)) (omega arith)) ∙ b_i in
    let new_i : bit_xor (at c i) (at c j) ≡ y =
      ap (λ u. bit_xor u (at c j)) (c_i ∙ xor_comm x y)
      ∙ ap (bit_xor (bit_xor y x)) c_j
      ∙ xor_comm (bit_xor y x) x
      ∙ xor_undo y x in
    let goal_size = length-set (set a i y) j x in
    let inner_size = length-set a i y in
    let same : d ≡ set (set a i y) j x = cells-ext d (set (set a i y) j x) (omega arith) λ k h.
      ground (
        arith,
        at-set c i k (bit_xor (at c i) (at c j)) (omega arith),
        at-set b j k (bit_xor (at b j) (at b i)) (omega arith),
        at-set a i k (bit_xor x y) p,
        at-set (set a i y) j k x (omega arith),
        at-set a i k y p,
      ) in
    rw
      (
        xor_into_lem i j a p q,
        xor_into_lem j i b (omega arith) (omega arith),
        xor_into_lem i j c (omega arith) (omega arith),
      )
      (ap ok same)

-- memswap of an item with itself clears it.
pub memswap_self : (i : ℕ) (a : List ℕ) → i < length a → Yields (λ b. at b i ≡ 0) (memswap i i a)
unfolding memswap
memswap_self i a p =
    let b = set a i (bit_xor (at a i) (at a i)) in
    let size_b = length-set a i (bit_xor (at a i) (at a i)) in
    let c = set b i (bit_xor (at b i) (at b i)) in
    let size_c = length-set b i (bit_xor (at b i) (at b i)) in
    let last = bit_xor (at c i) (at c i) in
    let here = at-set c i i last (omega arith) in
    rw
      (
        xor_into_lem i i a p p,
        xor_into_lem i i b (omega arith) (omega arith),
        xor_into_lem i i c (omega arith) (omega arith),
      )
      (value (ground (arith, here, xor_self (at c i))))

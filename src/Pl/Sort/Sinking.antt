-- ===== src/Pl/Sort/Sinking.antt =====
-- The inner loop of pl_hsort: an item sinks into a heap.
use mathlib.Core.List.{Perm}
use mathlib.Core.List.Perm
use rubsd.Prelude.{
  ℕ, zero, suc, ◌+◌, ◌-◌, ◌*◌, ◌/◌, ◌^◌, ◌≤◌, ◌<◌, ◌≡◌, refl, ◌≢◌, ◌⊎◌, inl, inr, Bool, true, false,
  List, arith, leb, length, set, length-set, Bool-cases,
}
use rubsd.Prelude.Run.{Yields, value, Yields-bind, Yields-weaken, Yields-test, ◌>>=◌}
use rubsd.Prelude.Cells.{at, read-ok, write-ok, at-set, set-perm}
use rubsd.Pl.Sort.{twice-ok, larger_child, sink, settle}

-- What the caller's comparison has to be: `less a b` excludes `less b a`, and "not before" is
-- transitive.
pub record IsOrder (less : ℕ → ℕ → Bool) : Type 0 where
  pub asym : (a b : ℕ) → less a b ≡ true → less b a ≡ false
  pub trans : (a b c : ℕ) → less a b ≡ false → less b c ≡ false → less a c ≡ false

abbrev pub parent : ℕ → ℕ
parent c = (c - 1) / 2

-- Moving the child's item up into the hole exchanges the two items of the block that the hole
-- stands for.
pub hole-perm :
    (a : List ℕ) (j m tmp : ℕ)
    → j < length a
    → m < length a
    → j ≢ m
    → Perm (set (set a j (at a m)) m tmp) (set a j tmp)
hole-perm a j m tmp hj hm ne =
    let b = set a j (at a m) in
    let size : m < length b = omega (arith, length-set a j (at a m)) in
    let same : at b m ≡ at a m = ground (arith, at-set a j m (at a m) hj) in
    let down = rw same at (set-perm b m tmp size) in
    let up = set-perm a j (at a m) hj in
    let old = set-perm a j tmp hj in
    Perm.cons_inv (
      Perm.cons_inv (
        Perm.trans (Perm.cons (at a j) down) (
          Perm.trans (Perm.swap _ _ _) (
            Perm.trans (Perm.cons tmp up) (
              Perm.trans (Perm.swap _ _ _)
                (Perm.trans (Perm.cons (at a m) (Perm.symm old)) (Perm.swap _ _ _)))))))

module _ (less : ℕ → ℕ → Bool) where
  -- Every edge of the first `n` cells whose parent is at `lo` or later is in order.
  abbrev pub IsHeapFrom : ℕ → ℕ → List ℕ → Type 0
  IsHeapFrom lo n f =
      (c : ℕ) → 0 < c → c < n → lo ≤ parent c → less (at f (parent c)) (at f c) ≡ false

  -- Only the edges below `j` may be out of order.
  pub record IsHeapBut (lo n : ℕ) (f : List ℕ) (j : ℕ) : Type 0 where
    pub edges :
        (c : ℕ)
        → 0 < c
        → c < n
        → lo ≤ parent c
        → parent c ≢ j
        → less (at f (parent c)) (at f c) ≡ false
    pub bridged :
        (c : ℕ)
        → 0 < c
        → c < n
        → parent c ≡ j
        → 0 < j
        → lo ≤ parent j
        → less (at f (parent j)) (at f c) ≡ false

  -- `g` holds the items of `f`, in order from `lo`; the cells past the first `n` are kept, and so
  -- is every upper bound of the first `n`.
  pub record IsSunk (lo n : ℕ) (f g : List ℕ) : Type 0 where
    pub heap : IsHeapFrom lo n g
    pub perm : Perm g f
    pub kept : (i : ℕ) → n ≤ i → at g i ≡ at f i
    pub bounded :
        (v : ℕ)
        → ((i : ℕ) → i < n → less v (at f i) ≡ false)
        → (i : ℕ) → i < n
        → less v (at g i) ≡ false

  -- `m` is a child of `j`, and no child goes after it.
  record IsLargerChild (n : ℕ) (a : List ℕ) (j m : ℕ) : Type 0 where
    inside : m < n
    child : (m ≡ 2 * j + 1) ⊎ (m ≡ 2 * j + 2)
    largest : (c : ℕ) → 0 < c → c < n → parent c ≡ j → less (at a m) (at a c) ≡ false

  module _ (order : IsOrder less) where
    irrefl : (x : ℕ) → less x x ≡ false
    irrefl x = ground (arith, order.asym x x)

    larger_child_lem :
        (n : ℕ) (a : List ℕ) (j : ℕ)
        → 2 * j + 2 ≤ n
        → n ≤ length a
        → n ≤ 2 ^ 30
        → Yields (IsLargerChild n a j) (larger_child less n a j)
    unfolding larger_child
    larger_child_lem n a j h size small =
        let left = at a (2 * j + 1) in
        let right = at a (2 * j + 2) in
        rw (twice-ok j (omega arith)) (
          Yields-test (leb n (2 * j + 2))
            (λ e. value (record {
              inside = omega arith;
              child = inl refl;
              largest = λ c p q r. let only : c ≡ 2 * j + 1 = ground arith in rw only (irrefl left);
            }))
            (λ e.
              rw (read-ok a (2 * j + 1) (omega arith), read-ok a (2 * j + 2) (ground arith))
                (elim (Bool-cases (less left right)) [
                  | inl up ↦ rw up (
                      value (record {
                        inside = ground arith;
                        child = inr refl;
                        largest = λ c p q r. ground (arith, irrefl right, order.asym left right up);
                      }))
                  | inr down ↦ rw down (
                      value (record {
                        inside = omega arith;
                        child = inl refl;
                        largest = λ c p q r. ground (arith, irrefl left);
                      }))
                ])))

    sink_step :
        (lo n : ℕ) (a : List ℕ) (j m tmp : ℕ)
        → j < n
        → n ≤ length a
        → IsLargerChild n a j m
        → less tmp (at a m) ≡ true
        → IsHeapBut lo n (set a j tmp) j
        → IsHeapBut lo n (set (set a j (at a m)) m tmp) m
    sink_step lo n a j m tmp hj size s below v =
        let hja : j < length a = omega arith in
        let hm : m < length (set a j (at a m)) = omega (arith, length-set a j (at a m), s.inside) in
        let before = λ (c : ℕ). at-set a j c tmp hja in
        let moved = λ (c : ℕ). at-set a j c (at a m) hja in
        let after = λ (c : ℕ). at-set (set a j (at a m)) m c tmp hm in
        let rises : less (at a m) tmp ≡ false = order.asym tmp (at a m) below in
        record {
          edges = λ c p q r t. ground (
            arith,
            s.child,
            after c,
            after (parent c),
            moved c,
            moved (parent c),
            before c,
            before (parent c),
            before m,
            v.edges c,
            v.bridged m,
            s.largest c,
          );
          bridged = λ c p q r t u. ground (
            arith,
            s.child,
            after c,
            after (parent m),
            moved c,
            moved (parent m),
            before c,
            before m,
            v.edges c,
          );
        }

    -- What one exchange leaves to do carries over to the block before it.
    IsSunk-step :
        (lo n : ℕ) (a : List ℕ) (j m tmp : ℕ) (g : List ℕ)
        → j < n
        → n ≤ length a
        → m < n
        → j ≢ m
        → IsSunk lo n (set (set a j (at a m)) m tmp) g
        → IsSunk lo n (set a j tmp) g
    IsSunk-step lo n a j m tmp g hj size hmn ne s =
        let hja : j < length a = omega arith in
        let hm : m < length (set a j (at a m)) = omega (arith, length-set a j (at a m)) in
        let before = λ (c : ℕ). at-set a j c tmp hja in
        let moved = λ (c : ℕ). at-set a j c (at a m) hja in
        let after = λ (c : ℕ). at-set (set a j (at a m)) m c tmp hm in
        record {
          heap = s.heap;
          perm = Perm.trans s.perm (hole-perm a j m tmp hja (omega arith) ne);
          kept = λ i p. ground (arith, s.kept i p, after i, moved i, before i);
          bounded = λ v h. s.bounded v λ i p.
              ground
                (arith, h i p, h j hj, h m hmn, after i, moved i, before i, before j, before m);
        }

    pub sink_lem :
        (fuel lo n tmp : ℕ) (a : List ℕ) (j : ℕ)
        → n - j < fuel
        → j < n
        → n ≤ length a
        → n ≤ 2 ^ 30
        → IsHeapBut lo n (set a j tmp) j
        → Yields
            (λ (r : List ℕ × ℕ). (r.1 < length r.0) × IsSunk lo n (set a j tmp) (set r.0 r.1 tmp))
            (sink less fuel n tmp a j)
    unfolding sink
    sink_lem zero lo n tmp a j f hj size small v = absurd (omega arith)
    sink_lem (suc fuel) lo n tmp a j f hj size small v =
        rw (sink, twice-ok j (omega arith), ◌>>=◌)
          (elim (Bool-cases (leb (2 * j + 2) n)) [
            | inl more ↦ rw more (
                Yields-bind (larger_child_lem n a j (ground arith) size small) λ m s.
                  rw (read-ok a m (omega (arith, s.inside)))
                    (elim (Bool-cases (less tmp (at a m))) [
                      | inl below ↦
                          rw (below, write-ok a j (at a m) (omega arith))
                            (Yields-weaken
                              (sink_lem fuel lo n tmp (set a j (at a m)) m
                                (omega (arith, s.child, s.inside)) s.inside (rw length-set size)
                                small (sink_step lo n a j m tmp hj size s below v))
                              λ r t. (
                                t.0,
                                IsSunk-step lo n a j m tmp _ hj size s.inside
                                    (omega (arith, s.child)) t.1,
                              ))
                      | inr settled ↦ rw settled (
                          value (
                            omega arith,
                            record {
                              heap = λ c p q r. ground (
                                arith,
                                v.edges c,
                                s.largest c,
                                order.trans tmp (at a m) (at a c),
                                at-set a j c tmp (omega arith),
                                at-set a j (parent c) tmp (omega arith),
                              );
                              perm = Perm.rfl;
                              kept = λ i p. refl;
                              bounded = λ u h. h;
                            },
                          ))
                    ]))
            | inr leaf ↦ rw leaf (
                value (
                  omega arith,
                  record {
                    heap = λ c p q r. ground (arith, v.edges c);
                    perm = Perm.rfl;
                    kept = λ i p. refl;
                    bounded = λ u h. h;
                  },
                ))
          ])

    -- A round of pl_hsort: `tmp` put at `j` sinks to where it belongs.
    pub settle_lem :
        (lo n j tmp : ℕ) (a : List ℕ)
        → j < n
        → n ≤ length a
        → n ≤ 2 ^ 30
        → IsHeapBut lo n (set a j tmp) j
        → Yields (IsSunk lo n (set a j tmp)) (settle less n j tmp a)
    unfolding settle
    settle_lem lo n j tmp a hj size small v =
        Yields-bind (sink_lem (n + 1) lo n tmp a j (omega arith) hj size small v)
          λ r t. rw (write-ok r.0 r.1 tmp t.0) (value t.1)

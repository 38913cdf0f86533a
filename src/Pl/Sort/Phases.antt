-- ===== src/Pl/Sort/Phases.antt =====
-- The two phases of pl_hsort, and the whole.
use mathlib.Core.List.{Perm}
use mathlib.Core.List.Perm
use rubsd.Prelude.{
  ℕ, zero, suc, ◌-◌, ◌*◌, ◌^◌, ◌≤◌, ◌<◌, ◌≡◌, refl, ◌∙◌, Bool, false, List, arith, length, set,
  length-set, ◌==◌, if◌then◌else◌,
}
use rubsd.Prelude.Run.{Yields, value, Yields-bind, Yields-weaken}
use rubsd.Prelude.Cells.{at, read-ok, write-ok, at-set, length-perm, set-at_self}
use rubsd.Pl.State.{Pl, items, IsValid, lst_esuccess}
use rubsd.Pl.Sort.{build, drain}
use rubsd.Pl.Sort.Sinking.{IsOrder, parent, IsHeapFrom, IsSunk, hole-perm, settle_lem}

module _ (less : ℕ → ℕ → Bool) where
  -- From cell `k` on, no item of the first `n` goes before an earlier one.
  abbrev pub IsOrderedFrom : ℕ → ℕ → List ℕ → Type 0
  IsOrderedFrom k n a = (i j : ℕ) → i < j → k ≤ j → j < n → less (at a j) (at a i) ≡ false

  -- `g` holds the items of `a`, the first `n` of them in order and the others where they were.
  pub record IsSorting (n : ℕ) (a g : List ℕ) : Type 0 where
    pub ordered : IsOrderedFrom 1 n g
    pub perm : Perm g a
    pub kept : (i : ℕ) → n ≤ i → at g i ≡ at a i

  -- `k` is `l` with its items in order.
  abbrev pub Sorted : Pl → Pl → Type 0
  Sorted l k =
      IsOrderedFrom 0 l.count k.cells
      × Perm (items k) (items l)
      × ((i : ℕ) → l.count ≤ i → at k.cells i ≡ at l.cells i)
      × (k ≡ record l { cells = k.cells; rc = lst_esuccess })
      × IsValid k

  module _ (order : IsOrder less) where
    IsSunk-trans :
        {lo lo' n : ℕ} {f g h : List ℕ}
        → IsSunk less lo n f g
        → IsSunk less lo' n g h
        → IsSunk less lo' n f h
    IsSunk-trans s t = record {
      heap = t.heap;
      perm = Perm.trans t.perm s.perm;
      kept = λ i p. t.kept i p ∙ s.kept i p;
      bounded = λ v b. t.bounded v (s.bounded v b);
    }

    -- The first phase makes a heap of the first `n` cells.
    pub build_lem :
        (k n : ℕ) (a : List ℕ)
        → 2 * k ≤ n
        → n ≤ length a
        → n ≤ 2 ^ 30
        → IsHeapFrom less k n a
        → Yields (IsSunk less 0 n a) (build less k n a)
    unfolding build
    build_lem zero n a fits size small h =
        value (record { heap = h; perm = Perm.rfl; kept = λ i p. refl; bounded = λ v b. b })
    build_lem (suc k) n a fits size small h = rw (read-ok a k (omega arith)) (
        Yields-bind
          (settle_lem less order k n k (at a k) a (omega arith) size small (
            rw (set-at_self a k) (record {
              edges = λ c p q r t. h c p q (omega arith);
              bridged = λ c p q r t u. absurd (omega arith);
            })))
          λ b s.
            let t : IsSunk less k n a b = rw (set-at_self a k) at s in
            Yields-weaken
              (build_lem k n b (omega arith) (rw (length-perm t.perm) size) small t.heap)
              λ c u. IsSunk-trans t u)

    root_largest :
        (fuel n : ℕ) (a : List ℕ) (i : ℕ)
        → i < fuel
        → i < n
        → IsHeapFrom less 0 n a
        → less (at a 0) (at a i) ≡ false
    root_largest zero n a i f p h = absurd (omega arith)
    root_largest (suc fuel) n a zero f p h = ground (arith, order.asym (at a 0) (at a 0))
    root_largest (suc fuel) n a (suc i) f p h =
        order.trans (at a 0) (at a (parent (suc i))) (at a (suc i))
          (root_largest fuel n a (parent (suc i)) (omega arith) (omega arith) h)
          (h (suc i) (omega arith) p (omega arith))

    -- What the second phase moves before the item sinks: the last item of the heap is at the root,
    -- and the root's behind the heap.
    abbrev exchanged : ℕ → List ℕ → List ℕ
    exchanged k a = set (set a (suc k) (at a 0)) 0 (at a (suc k))

    at-exchanged :
        (k : ℕ) (a : List ℕ) (c : ℕ)
        → suc k < length a
        → at (exchanged k a) c
          ≡ (if c == 0 then at a (suc k) else if c == suc k then at a 0 else at a c)
    at-exchanged k a c h =
        let b = set a (suc k) (at a 0) in
        ground (
          arith,
          at-set a (suc k) c (at a 0) h,
          at-set b 0 c (at a (suc k)) (omega (arith, length-set a (suc k) (at a 0))),
        )

    -- A round of the second phase keeps the tail in order, one cell longer.
    tail_grows :
        (k n : ℕ) (a g : List ℕ)
        → suc k < n
        → n ≤ length a
        → IsHeapFrom less 0 (suc (suc k)) a
        → IsOrderedFrom (suc (suc k)) n a
        → IsSunk less 0 (suc k) (exchanged k a) g
        → IsOrderedFrom (suc k) n g
    tail_grows k n a g hk size h tail s i j lt low high =
        let x = λ (c : ℕ). at-exchanged k a c (omega arith) in
        let top = λ (c : ℕ) (p : c < suc (suc k)).
          root_largest (suc c) (suc (suc k)) a c (omega arith) p h in
        let bound =
          s.bounded (at (exchanged k a) j)
            (λ c p. ground (arith, x c, x j, top c, top (suc k), tail c j, tail (suc k) j)) in
        ground (arith, s.kept j low, s.kept i, bound i, x i, x j, top i, tail i j, tail 0 j)

    exchanged-perm : (k : ℕ) (a : List ℕ) → suc k < length a → Perm (exchanged k a) a
    exchanged-perm k a h =
        rw (set-at_self a (suc k)) at
          (hole-perm a (suc k) 0 (at a (suc k)) h (omega arith) (λ e. omega arith))

    -- The second phase takes the heap apart from the end, into items in order.
    pub drain_lem :
        (k n : ℕ) (a : List ℕ)
        → k ≤ n - 1
        → n ≤ length a
        → n ≤ 2 ^ 30
        → IsHeapFrom less 0 (suc k) a
        → IsOrderedFrom (suc k) n a
        → Yields (IsSorting n a) (drain less k a)
    unfolding drain
    drain_lem zero n a hk size small h tail =
        value (record { ordered = tail; perm = Perm.rfl; kept = λ i p. refl })
    drain_lem (suc k) n a hk size small h tail =
        let x = λ (c : ℕ). at-exchanged k a c (omega arith) in
        rw
          (
            read-ok a (suc k) (omega arith),
            read-ok a 0 (omega arith),
            write-ok a (suc k) (at a 0) (omega arith),
          )
          (Yields-bind
            (settle_lem less order 0 (suc k) 0 (at a (suc k)) (set a (suc k) (at a 0)) (omega arith)
              (omega (arith, length-set a (suc k) (at a 0))) (omega arith)
              (record {
                edges = λ c p q r t. ground (arith, h c, x c, x (parent c));
                bridged = λ c p q r t u. absurd (omega arith);
              }))
            λ g s.
              let same = Perm.trans s.perm (exchanged-perm k a (omega arith)) in
              Yields-weaken
                (drain_lem k n g (omega arith) (rw (length-perm same) size) small s.heap
                  (tail_grows k n a g (omega arith) size h tail s))
                λ f t. record {
                  ordered = t.ordered;
                  perm = Perm.trans t.perm same;
                  kept = λ i p. ground (arith, t.kept i p, s.kept i, x i);
                })

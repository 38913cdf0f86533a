-- ===== src/Pl/Search/Binary.antt =====
-- pl_bsearch.
use native.Mathlib.Decide.{dec_lt, ℕ_discrete}
use native.Mathlib.Nat.{le_refl}
use rubsd.Prelude.{
  ℕ, zero, suc, ◌+◌, ◌-◌, ◌/◌, ◌^◌, ◌≤◌, ◌<◌, ◌≡◌, refl, ◌≢◌, ◌⊎◌, inl, inr, true, arith, length,
  leb, ◌==◌, Bool-cases,
}
use rubsd.Prelude.Int.{ℤ, pos, negsuc, is_neg, is_pos, sign-cases}
use rubsd.Prelude.Run.{Yields, value, Yields-test}
use rubsd.Prelude.Cells.{at, read-ok}
use rubsd.Pl.State.{Pl, IsValid, add_int-ok}
use rubsd.Pl.Search.{Found, found, missing, bsearch_loop, bsearch}

-- The items are in the order that the search relies on: those that the comparison with the key
-- calls positive, then those that it calls 0, then those that it calls negative.
pub record IsOrderedFor (rank : ℕ → ℤ) (l : Pl) : Type 0 where
  pub neg_after :
      (i j : ℕ)
      → i < j
      → j < l.count
      → is_neg (rank (at l.cells i)) ≡ true
      → is_neg (rank (at l.cells j)) ≡ true
  pub pos_before :
      (i j : ℕ)
      → i < j
      → j < l.count
      → is_pos (rank (at l.cells j)) ≡ true
      → is_pos (rank (at l.cells i)) ≡ true

module _ (l : Pl) (key : ℕ) (compare : ℕ → ℕ → ℤ) where
  abbrev pub rank : ℕ → ℤ
  rank item = compare item key

  -- What lies outside `lo .. hi` does not match.
  record IsNarrowed (lo hi : ℕ) : Type 0 where
    low : lo < hi
    high : hi ≤ l.count
    before : (j : ℕ) → j < lo → is_pos (rank (at l.cells j)) ≡ true
    after : (j : ℕ) → hi ≤ j → j < l.count → is_neg (rank (at l.cells j)) ≡ true

  -- A match with its index, or NULL and -1 where there is none.
  abbrev pub Outcome : Found → Type 0
  Outcome r =
      ((m : ℕ) × (r ≡ found l (at l.cells m) m) × (m < l.count) × (rank (at l.cells m) ≡ pos 0))
      ⊎ ((r ≡ missing l) × ((j : ℕ) → j < l.count → rank (at l.cells j) ≢ pos 0))

  module _ (sorted : IsOrderedFor rank l) where
    -- A negative answer at `m` rules out all from `m` on, a positive one all up to `m`.
    after_neg :
        (m n : ℕ)
        → rank (at l.cells m) ≡ negsuc n
        → (j : ℕ) → m ≤ j
        → j < l.count
        → is_neg (rank (at l.cells j)) ≡ true
    after_neg m n e j p q = elim (ℕ_discrete m j) [
      | yes s ↦ rw (← s, e)
      | no d ↦ sorted.neg_after m j (omega arith) q (rw e)
    ]

    before_pos :
        (m n : ℕ)
        → rank (at l.cells m) ≡ pos (suc n)
        → m < l.count
        → (j : ℕ) → j < suc m
        → is_pos (rank (at l.cells j)) ≡ true
    before_pos m n e h j p = elim (ℕ_discrete m j) [
      | yes s ↦ rw (← s, e)
      | no d ↦ sorted.pos_before j m (omega arith) h (rw e)
    ]

    -- When nothing is left between the two, nothing matches.
    none_left :
        (m : ℕ)
        → ((j : ℕ) → j < m → is_pos (rank (at l.cells j)) ≡ true)
        → ((j : ℕ) → m ≤ j → j < l.count → is_neg (rank (at l.cells j)) ≡ true)
        → Outcome (missing l)
    none_left m before after = inr (
      refl,
      λ j p e. elim (dec_lt j m) [
        | yes q ↦ cc (before j q, e)
        | no q ↦ cc (after j (omega arith) p, e)
      ],
    )

    bsearch_loop_lem :
        (fuel lo hi : ℕ)
        → hi - lo < fuel
        → l.count ≤ length l.cells
        → l.count ≤ 2 ^ 30
        → IsNarrowed lo hi
        → Yields Outcome (bsearch_loop fuel l key compare lo hi)
    unfolding bsearch_loop
    bsearch_loop_lem zero lo hi f size small s = absurd (omega arith)
    bsearch_loop_lem (suc fuel) lo hi f size small s =
        let m = (lo + (hi - 1)) / 2 in
        let mlo : lo ≤ m = omega (arith, s.low) in
        let mhi : m < hi = omega (arith, s.low) in
        let mcount : m < l.count = omega (arith, s.high) in
        rw (add_int-ok lo (hi - 1) (omega (arith, s.low, s.high)), read-ok l.cells m (omega arith))
          (elim (sign-cases (rank (at l.cells m))) [
            | inl (n, e) ↦ rw e (elim (Bool-cases (leb m lo)) [
              | inl t ↦
                  rw t (value (none_left m (λ j p. s.before j (ground arith)) (after_neg m n e)))
              | inr t ↦ rw t (
                  bsearch_loop_lem fuel lo m (omega arith) size small (record {
                    low = ground arith;
                    high = omega arith;
                    before = s.before;
                    after = after_neg m n e;
                  }))
            ])
            | inr (inl (n, e)) ↦ rw e (elim (Bool-cases (leb hi (m + 1))) [
              | inl t ↦ rw t (
                  value (
                    none_left (suc m) (before_pos m n e mcount)
                      λ j p q. s.after j (ground arith) q))
              | inr t ↦ rw t (
                  bsearch_loop_lem fuel (m + 1) hi (omega arith) size small (record {
                    low = ground arith;
                    high = s.high;
                    before = λ j p. before_pos m n e mcount j (omega arith);
                    after = s.after;
                  }))
            ])
            | inr (inr e) ↦ rw e (value (inl (m, refl, mcount, e)))
          ])

-- pl_bsearch on a valid list of at most 2^30 items, in the order that the comparison with the key
-- needs, returns: an item that the comparison calls 0, with its index, or NULL and -1, and then
-- there is no such item.
pub bsearch_finds :
    (l : Pl) (key : ℕ) (compare : ℕ → ℕ → ℤ)
    → IsValid l
    → l.count ≤ 2 ^ 30
    → IsOrderedFor (λ item. compare item key) l
    → Yields (Outcome l key compare) (bsearch l key compare)
unfolding bsearch
bsearch_finds l key compare v small sorted =
    Yields-test (l.count == 0) (λ e. value (inr (refl, λ j p. absurd (ground arith))))
      λ e.
        bsearch_loop_lem l key compare sorted (l.count + 1) 0 l.count (omega arith)
          (omega (arith, v.block, v.fits)) small
          (record {
            low = ground arith;
            high = le_refl _;
            before = λ j p. absurd (omega arith);
            after = λ j p q. absurd (omega arith);
          })

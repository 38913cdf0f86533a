-- ===== src/Da/Passing.antt =====
-- The passes of da_bsort.
use mathlib.Core.List.{Perm}
use mathlib.Core.List.Perm
use mathlib.Core.Path.{subst}
use rubsd.Prelude.{
  ℕ, zero, suc, ◌+◌, ◌-◌, ◌*◌, ◌≤◌, ◌<◌, ◌≡◌, ◌≢◌, refl, ◌∙◌, ap, ◌⊎◌, inl, inr, true, false, arith,
  List, Option, none, some, length, ltb, leb, Bool-cases,
}
use rubsd.Prelude.Int.{ℤ, pos, negsuc, is_neg, eq_ℤ, eq_ℤ→eq, ◌+ℤ◌}
use rubsd.Prelude.Run.{Run, ok, ◌>>=◌, Yields, value, Yields-bind, Yields-weaken}
use rubsd.Prelude.Cells.{at, read-ok, length-perm}
use rubsd.Da.Order.{Pass, passed, stopped, mul_int, settle_pair, pass}
use rubsd.Pl.State.{int_max}
use rubsd.Da.Swapping.{memswap_lem}
use rubsd.Da.Sorting.{swapped-set, swapped-perm, wrong, disorder, disorder-swapped}

-- A comparison that gives no error, and does not want two items exchanged both ways.
pub record IsOrder (func : ℕ → ℕ → ℤ) : Type 0 where
  pub no_error : (x y : ℕ) → is_neg (func x y) ≡ false
  pub one_way : (x y : ℕ) → func x y ≢ pos 0 → func y x ≡ pos 0

mul_int-ok : (p w bytes : ℕ) → p ≤ w → w * bytes ≤ int_max → mul_int p bytes ≡ ok (p * bytes)
unfolding mul_int
mul_int-ok p w bytes h fits =
    let less : p * bytes ≤ w * bytes = grind arith in
    let fine : leb (p * bytes) int_max ≡ true = ground arith in rw fine refl

module _ (func : ℕ → ℕ → ℤ) (order : IsOrder func) (bytes : ℕ) where
  abbrev InOrder : List ℕ → ℕ → Type 0
  InOrder a p = func (at a p) (at a (suc p)) ≡ pos 0

  -- The items `b` and the number `m` of swaps, after `a` and `n`.
  abbrev pub After : ℕ → List ℕ → ℕ → List ℕ → Type 0
  After n a m b = Perm b a × (n ≤ m) × (disorder func b + m ≡ disorder func a + n) × (m ≡ n → b ≡ a)

  After-trans :
      (n : ℕ) (a : List ℕ) (m : ℕ) (b : List ℕ) (l : ℕ) (c : List ℕ)
      → After n a m b
      → After m b l c
      → After n a l c
  After-trans n a m b l c (p, q, r, s) (p', q', r', s') =
      (Perm.trans p' p, omega arith, omega arith, λ e. s' (omega arith) ∙ s (omega arith))

  abbrev Settled : ℕ → ℕ → List ℕ → Option (ℕ × List ℕ) → Type 0
  Settled p n a none = true ≡ false
  Settled p n a (some (m, b)) = After n a m b × (m ≡ n → InOrder a p)

  settle_pair_lem :
      (w p n : ℕ) (a : List ℕ)
      → p ≤ w
      → w * bytes ≤ int_max
      → suc p < length a
      → Yields (Settled p n a) (settle_pair func bytes w p n a)
  unfolding settle_pair
  settle_pair_lem w p n a inside fits h =
      let x = at a p in
      let y = at a (suc p) in
      let next : p + 1 ≡ suc p = omega arith in
      let right = order.no_error x y in
      elim (Bool-cases (eq_ℤ (func x y) (pos 0))) [
        | inl e ↦
            rw
              (
                mul_int-ok p w bytes inside fits,
                next,
                read-ok a p (omega arith),
                read-ok a (suc p) h,
                right,
                e,
              )
              (value ((Perm.refl a, omega arith, refl, λ _. refl), λ _. eq_ℤ→eq _ _ e))
        | inr e ↦
            let no_zero : func x y ≢ pos 0 =
              λ z. absurd (ground (arith, ap (λ u. eq_ℤ u (pos 0)) z, e)) in
            let back = order.one_way x y no_zero in
            let one : wrong func x y ≡ 1 = rw e refl in
            let none_back : wrong func y x ≡ 0 = rw back refl in
            let less = disorder-swapped func p a h one none_back in
            rw
              (
                mul_int-ok p w bytes inside fits,
                next,
                read-ok a p (omega arith),
                read-ok a (suc p) h,
                right,
                e,
                memswap_lem p (suc p) a (omega arith) (omega arith) h,
                swapped-set p a h,
              )
              (value (
                (swapped-perm p a, omega arith, omega arith, λ z. absurd (omega arith)),
                λ z. absurd (omega arith),
              ))
      ]

  -- A pass over the pairs from `lo` to `hi`.
  abbrev pub Walk : ℤ → ℕ → ℕ → ℕ → List ℕ → Pass → Type 0
  Walk end lo hi n a (stopped b) = true ≡ false
  Walk end lo hi n a (passed j m b) =
      (j ≡ end) × After n a m b × (m ≡ n → (p : ℕ) → lo ≤ p → p < hi → InOrder a p)

  Walk-step :
      (end : ℤ) (p lo hi lo' hi' n : ℕ) (a : List ℕ) (m : ℕ) (b : List ℕ) (r : Pass)
      → Settled p n a (some (m, b))
      → ((q : ℕ) → lo' ≤ q → q < hi' → (q ≡ p) ⊎ ((lo ≤ q) × (q < hi)))
      → Walk end lo hi m b r
      → Walk end lo' hi' n a r
  Walk-step end p lo hi lo' hi' n a m b (stopped c) s cover w = w
  Walk-step end p lo hi lo' hi' n a m b (passed j l c) ((pb, nb, db, sb), here) cover
        (e, (pc, nc, dc, sc), rest) =
      (
        e,
        After-trans n a m b l c (pb, nb, db, sb) (pc, nc, dc, sc),
        λ same q low high. elim (cover q low high) [
          | inl at_p ↦ rw at_p (here (omega arith))
          | inr (low', high') ↦
              subst (λ u. InOrder u q) (sb (omega arith)) (rest (omega arith) q low' high')
        ],
      )

  Settled-step :
      (w p n : ℕ) (a : List ℕ) (k : ℕ → List ℕ → Run Pass) (P : Pass → Type 0)
      → p ≤ w
      → w * bytes ≤ int_max
      → suc p < length a
      → ((m : ℕ) (b : List ℕ) → Settled p n a (some (m, b)) → Yields P (k m b))
      → Yields P (
          settle_pair func bytes w p n a >>= λ r. elim r [
            | none ↦ ok (stopped a)
            | some (m, b) ↦ k m b
          ])
  Settled-step w p n a k P inside fits h go =
      Yields-bind (settle_pair_lem w p n a inside fits h) λ r s.
        elim r
            as (λ o.
              Settled p n a o → Yields P (elim o [ none ↦ ok (stopped a) | some (m, b) ↦ k m b ])) [
                | none ↦ (λ bad. absurd cc)
                | some (m, b) ↦ (λ good. go m b good)
              ]
          s

  next_up : (p : ℕ) → pos p +ℤ pos 1 ≡ pos (suc p)
  unfolding ◌+ℤ◌
  next_up p = ground arith

  -- The index of a pass downwards with `c` pairs to go.
  abbrev pub down_at : ℕ → ℤ
  down_at zero = negsuc 0
  down_at (suc p) = pos p

  pub next_down : (p : ℕ) → pos p +ℤ negsuc 0 ≡ down_at p
  unfolding ◌+ℤ◌
  next_down zero = refl
  next_down (suc p) = ground arith

  pub pass_up :
      (fuel w i n : ℕ) (a : List ℕ)
      → i ≤ w
      → w - i < fuel
      → w * bytes ≤ int_max
      → w < length a
      → Yields (Walk (pos w) i w n a) (pass func bytes w fuel (pos 1) (pos i) n a)
  unfolding pass
  pass_up zero w i n a h f fits size = absurd (omega arith)
  pass_up (suc fuel) w i n a h f fits size = elim (Bool-cases (ltb i w)) [
    | inr out ↦
        let end : i ≡ w = ground arith in
        rw out (
          value (
            ap pos end,
            (Perm.refl a, omega arith, refl, λ _. refl),
            λ _ p low high. absurd (omega arith),
          ))
    | inl in_range ↦
        let below : i < w = ground arith in
        rw in_range (
          Settled-step w i n a (λ m b. pass func bytes w fuel (pos 1) (pos i +ℤ pos 1) m b) _
            (omega arith) fits (omega arith)
            λ m b s.
              let size_b = length-perm s.0.0 in
              rw (next_up i) (
                Yields-weaken
                  (pass_up fuel w (suc i) m b (omega arith) (omega arith) fits (omega arith))
                  λ r walk.
                    Walk-step (pos w) i (suc i) w i w n a m b r s (λ q low high. ground arith)
                      walk))
  ]

  pub pass_down :
      (fuel w c n : ℕ) (a : List ℕ)
      → c ≤ w
      → c < fuel
      → w * bytes ≤ int_max
      → w < length a
      → Yields (Walk (negsuc 0) 0 c n a) (pass func bytes w fuel (negsuc 0) (down_at c) n a)
  unfolding pass
  pass_down zero w c n a h f fits size = absurd (omega arith)
  pass_down (suc fuel) w zero n a h f fits size =
      value
        (refl, (Perm.refl a, omega arith, refl, λ _. refl), λ _ p low high. absurd (omega arith))
  pass_down (suc fuel) w (suc p) n a h f fits size =
      let in_range : ltb p w ≡ true = ground arith in
      rw in_range (
        Settled-step w p n a (λ m b. pass func bytes w fuel (negsuc 0) (pos p +ℤ negsuc 0) m b) _
          (omega arith) fits (omega arith)
          λ m b s.
            let size_b = length-perm s.0.0 in
            rw (next_down p) (
              Yields-weaken (pass_down fuel w p m b (omega arith) (omega arith) fits (omega arith))
                λ r walk.
                  Walk-step (negsuc 0) p 0 p 0 (suc p) n a m b r s (λ q low high. ground arith)
                    walk))

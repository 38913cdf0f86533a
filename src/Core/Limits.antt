-- ===== src/Core/Limits.antt =====
-- The limits of accounts: their table is read inside its bounds.
use rubsd.Prelude.{
  ℕ, zero, suc, ◌+◌, ◌<◌, ◌≡◌, refl, ◌⊎◌, inl, inr, Bool, true, false, ◌||◌, arith, List, [], ◌∷◌,
  length, Bool-cases,
}
use rubsd.Prelude.Int.{ℤ, is_neg, eq_ℤ}
use rubsd.Prelude.Run.{Yields, value, Yields-test, Yields-bind, Yields-weaken}
use rubsd.Base.Env.{Double}
use rubsd.Base.Record.{Acc}
use rubsd.Res.{Reals}
use rubsd.Tariffs.{Limit}
use rubsd.Core.{find_limit, min_at, acc_limit, is_below, accs_state, answer}

module _ (d : Double) (r : Reals d) where
  open d use {D}

  -- An entry with a negative plan ends the table of limits.
  abbrev pub has_limit_end : List (Limit d) → Bool
  has_limit_end [] = false
  has_limit_end (t ∷ ts) = is_neg t.tariff || has_limit_end ts

  find_limit_lem :
      (plan : ℤ) (i : ℕ) (ts : List (Limit d))
      → has_limit_end ts ≡ true
      → Yields (λ k. (k ≡ 0) ⊎ (k < i + length ts)) (find_limit d r plan i ts)
  unfolding find_limit
  find_limit_lem plan i [] = λ h. absurd cc
  find_limit_lem plan i (t ∷ ts) = elim (Bool-cases (is_neg t.tariff)) [
    | inl over ↦ rw (find_limit, over) (λ h. value (inl refl))
    | inr more ↦ elim (Bool-cases (eq_ℤ plan t.tariff)) [
      | inl own ↦ rw (find_limit, more, own) (λ h. value (inr (omega arith)))
      | inr other ↦
          rw (find_limit, more, other)
            (λ h. Yields-weaken (find_limit_lem plan (i + 1) ts h) (λ k b. omega arith))
    ]
  ]

  min_at_lem :
      (limits : List (Limit d)) (k : ℕ)
      → k < length limits
      → Yields (λ x. Unit {0}) (min_at d r limits k)
  unfolding min_at
  min_at_lem [] k below = absurd (omega arith)
  min_at_lem (t ∷ ts) zero below = value tt
  min_at_lem (t ∷ ts) (suc k) below = min_at_lem ts k (omega arith)

  limit-below :
      (limits : List (Limit d)) (k : ℕ)
      → has_limit_end limits ≡ true
      → (k ≡ 0) ⊎ (k < 0 + length limits)
      → k < length limits
  limit-below [] k ended h = absurd cc
  limit-below (t ∷ ts) k ended (inl first) = omega arith
  limit-below (t ∷ ts) k ended (inr below) = omega arith

  is_below_lem :
      (limits : List (Limit d)) (acc : Acc d)
      → has_limit_end limits ≡ true
      → Yields (λ b. Unit {0}) (is_below d r limits acc)
  unfolding is_below acc_limit
  is_below_lem limits acc ended = elim (Bool-cases (r.is_zero acc.tcredit)) [
    | inr own ↦ rw (is_below, acc_limit, own) (value tt)
    | inl none_own ↦
        rw (is_below, acc_limit, none_own)
          (Yields-bind
            (Yields-bind (find_limit_lem acc.tariff 0 limits ended)
              (λ k b. min_at_lem limits k (limit-below limits k ended b)))
            (λ x u. value tt))
  ]

  accs_state_lem :
      (limits : List (Limit d)) (acc : Acc d)
      → has_limit_end limits ≡ true
      → Yields (λ c. Unit {0}) (accs_state d r limits acc)
  unfolding accs_state
  accs_state_lem limits acc ended = Yields-bind (is_below_lem limits acc ended) (λ b u. value tt)

  pub answer_lem :
      (limits : List (Limit d)) (code : ℤ) (acc : Acc d)
      → has_limit_end limits ≡ true
      → Yields (λ c. Unit {0}) (answer d r limits code acc)
  unfolding answer
  answer_lem limits code acc ended =
      Yields-test (is_neg code) (λ failed. value tt) (λ fine. accs_state_lem limits acc ended)

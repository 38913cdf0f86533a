-- ===== src/Timer/Asking.antt =====
-- Asking a timer.
use rubsd.Prelude.{
  ℕ, ◌+◌, ◌-◌, ◌*◌, ◌<◌, ◌≡◌, refl, ◌↔◌, ◌⊎◌, inl, inr, true, some, arith, Bool-cases, ap,
}
use rubsd.Prelude.Int.{
  ltb_ℤ, ℤ, pos, pos_part, neg_part, ◌+ℤ◌, ◌-ℤ◌, ◌≤ℤ◌, ◌<ℤ◌, +ℤ_parts, -ℤ_parts, eq_of_parts,
}
use rubsd.Timer.{Timeval, timer_overflow, state, is_earlier, minus, rem, left, setsu}
use rubsd.Timer.Setting.{scaled, scaled_parts, micros, IsNormal, setsu_lem}

-- The microseconds of a time, by parts.
sum_parts :
    (t : Timeval)
    → pos_part (micros t) + neg_part t.sec * 1000000 + neg_part t.usec
      ≡ neg_part (micros t) + pos_part t.sec * 1000000 + pos_part t.usec
sum_parts t = omega (arith, +ℤ_parts (scaled t.sec) t.usec, scaled_parts t.sec)

micros_parts :
    (t : Timeval) (u : ℕ)
    → t.usec ≡ pos u
    → pos_part (micros t) + neg_part t.sec * 1000000
      ≡ neg_part (micros t) + pos_part t.sec * 1000000 + u
micros_parts t u e = omega (arith, sum_parts t, ap pos_part e, ap neg_part e)

is_earlier_lem :
    (a b : Timeval) → IsNormal a → IsNormal b → (is_earlier a b ≡ true) ↔ (micros a <ℤ micros b)
unfolding is_earlier
is_earlier_lem a b (u, e, h) (v, f, k) =
    let p = micros_parts a u e in
    let q = micros_parts b v f in rw (e, f) ((λ t. ground (arith, p, q)), λ t. ground (arith, p, q))

-- The difference of two times, the later one first.
abbrev pub IsDifference : Timeval → Timeval → Timeval → Type 0
IsDifference a b d = IsNormal d × (micros d +ℤ micros b ≡ micros a)

micros-minus : (a b : Timeval) → micros (minus a b) +ℤ micros b ≡ micros a
unfolding minus
micros-minus a b =
    let borrowed : Timeval = record {
      sec = a.sec -ℤ pos 1 -ℤ b.sec;
      usec = a.usec +ℤ pos 1000000 -ℤ b.usec;
    } in
    let plain : Timeval = record { sec = a.sec -ℤ b.sec; usec = a.usec -ℤ b.usec } in
    elim (Bool-cases (ltb_ℤ a.usec b.usec)) [
      | inl s ↦ rw s (
          eq_of_parts _ _ (
            omega (
              arith,
              sum_parts a,
              sum_parts b,
              sum_parts borrowed,
              -ℤ_parts a.sec (pos 1),
              -ℤ_parts (a.sec -ℤ pos 1) b.sec,
              +ℤ_parts a.usec (pos 1000000),
              -ℤ_parts (a.usec +ℤ pos 1000000) b.usec,
              +ℤ_parts (micros borrowed) (micros b),
            )))
      | inr s ↦ rw s (
          eq_of_parts _ _ (
            omega (
              arith,
              sum_parts a,
              sum_parts b,
              sum_parts plain,
              -ℤ_parts a.sec b.sec,
              -ℤ_parts a.usec b.usec,
              +ℤ_parts (micros plain) (micros b),
            )))
    ]

minus-IsNormal :
    (a b : Timeval) (u v : ℕ)
    → a.usec ≡ pos u
    → b.usec ≡ pos v
    → u < 1000000
    → v < 1000000
    → IsNormal (minus a b)
unfolding minus ◌+ℤ◌ ◌-ℤ◌
minus-IsNormal a b u v e f h k =
    rw (e, f)
      (elim (Bool-cases (ltb_ℤ (pos u) (pos v))) [
        | inl s ↦ rw s (u + 1000000 - v, ground arith, ground arith)
        | inr s ↦ rw s (u - v, ground arith, omega arith)
      ])

minus_lem : (a b : Timeval) → IsNormal a → IsNormal b → IsDifference a b (minus a b)
minus_lem a b (u, e, h) (v, f, k) = (minus-IsNormal a b u v e f h k, micros-minus a b)

-- tm_rem at a time before the timer or at it returns 0 and the time that remains; past the timer it
-- returns TIMER_OVERFLOW and keeps the destination.
pub rem_lem :
    (tm dest now : Timeval)
    → IsNormal tm
    → IsNormal now
    → ((micros now ≤ℤ micros tm)
        × (d : Timeval) × (rem (some tm) (some dest) (some now) ≡ (some d, pos 0))
        × IsDifference tm now d)
      ⊎ ((micros tm <ℤ micros now)
          × (rem (some tm) (some dest) (some now) ≡ (some dest, timer_overflow)))
unfolding rem
rem_lem tm dest now m n =
    let early = is_earlier_lem tm now m n in
    elim (Bool-cases (is_earlier tm now)) [
      | inl e ↦ rw e (inr (early.0 e, refl))
      | inr e ↦ rw e (inl (ground (arith, early), minus tm now, refl, minus_lem tm now m n))
    ]

-- tm_left at a time after the timer or at it returns 0 and the time that has passed; before the
-- timer it returns TIMER_OVERFLOW and keeps the destination.
pub left_lem :
    (tm dest now : Timeval)
    → IsNormal tm
    → IsNormal now
    → ((micros tm ≤ℤ micros now)
        × (d : Timeval) × (left (some tm) (some dest) (some now) ≡ (some d, pos 0))
        × IsDifference now tm d)
      ⊎ ((micros now <ℤ micros tm)
          × (left (some tm) (some dest) (some now) ≡ (some dest, timer_overflow)))
unfolding left
left_lem tm dest now m n =
    let early = is_earlier_lem now tm n m in
    elim (Bool-cases (is_earlier now tm)) [
      | inl e ↦ rw e (inr (early.0 e, refl))
      | inr e ↦ rw e (inl (ground (arith, early), minus now tm, refl, minus_lem now tm n m))
    ]

-- tm_state returns 1 before the timer, and 0 at it and after.
pub state_lem :
    (tm now : Timeval)
    → IsNormal tm
    → IsNormal now
    → ((micros now <ℤ micros tm) × (state (some tm) (some now) ≡ pos 1))
      ⊎ ((micros tm ≤ℤ micros now) × (state (some tm) (some now) ≡ pos 0))
unfolding state
state_lem tm now (u, e, h) (v, f, k) =
    let p = micros_parts tm u e in let q = micros_parts now v f in rw (e, f) (ground (arith, p, q))

-- A timer that tm_setsu has set, with microseconds that are not negative, and that tm_state is
-- asked about at another time, has been reached exactly when the
-- seconds and microseconds asked for have passed since it was set.
pub setsu-state :
    (tm now later : Timeval) (sec : ℤ) (n : ℕ)
    → IsNormal now
    → IsNormal later
    → (state (setsu (some tm) (some now) sec (pos n)).0 (some later) ≡ pos 0)
      ↔ (micros now +ℤ (scaled sec +ℤ pos n) ≤ℤ micros later)
setsu-state tm now later sec n m l =
    let (t, e, normal, q) = setsu_lem tm now sec n m in
    let asked = state_lem t later normal l in
    rw (e, ← q) ((λ z. ground (arith, asked)), λ z. ground (arith, asked))

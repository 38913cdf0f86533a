-- ===== src/Timer/Setting.antt =====
-- Setting a timer.
use rubsd.Prelude.{ℕ, ◌+◌, ◌*◌, ◌%◌, ◌<◌, ◌≡◌, refl, some, arith}
use rubsd.Prelude.Int.{
  ℤ, pos, negsuc, pos_part, neg_part, sub_ℕ, ◌+ℤ◌, ◌/ℤ◌, ◌%ℤ◌, +ℤ_parts, eq_of_parts,
}
use rubsd.Timer.{Timeval, increased, setsu}

-- A time in microseconds, and so many seconds.
unfoldable pub scaled : ℤ → ℤ
scaled sec = sub_ℕ (pos_part sec * 1000000) (neg_part sec * 1000000)

abbrev pub micros : Timeval → ℤ
micros t = scaled t.sec +ℤ t.usec

-- The microseconds lie within the second, as gettimeofday has them.
abbrev pub IsNormal : Timeval → Type 0
IsNormal t = (u : ℕ) × (t.usec ≡ pos u) × (u < 1000000)

pub scaled_parts :
    (a : ℤ)
    → pos_part (scaled a) + neg_part a * 1000000 ≡ neg_part (scaled a) + pos_part a * 1000000
unfolding scaled
scaled_parts a = ground arith

pub split_parts :
    (a : ℤ)
    → pos_part (a /ℤ 1000000) * 1000000 + pos_part (a %ℤ 1000000) + neg_part a
      ≡ neg_part (a /ℤ 1000000) * 1000000 + neg_part (a %ℤ 1000000) + pos_part a
unfolding ◌/ℤ◌ ◌%ℤ◌
split_parts (pos n) = ground arith
split_parts (negsuc n) = ground arith

-- The time that is set lies by the seconds and microseconds asked for, whatever their signs, after
-- the current one.
pub micros-increased :
    (now : Timeval) (sec usec : ℤ)
    → micros (increased now sec usec) ≡ micros now +ℤ (scaled sec +ℤ usec)
unfolding increased
micros-increased now sec usec =
    let u = now.usec +ℤ usec %ℤ 1000000 in
    let whole = sec +ℤ u /ℤ 1000000 +ℤ usec /ℤ 1000000 in
    eq_of_parts _ _ (
      omega (
        arith,
        +ℤ_parts now.usec (usec %ℤ 1000000),
        +ℤ_parts sec (u /ℤ 1000000),
        +ℤ_parts (sec +ℤ u /ℤ 1000000) (usec /ℤ 1000000),
        +ℤ_parts now.sec whole,
        split_parts u,
        split_parts usec,
        scaled_parts (now.sec +ℤ whole),
        scaled_parts now.sec,
        scaled_parts sec,
        +ℤ_parts (scaled (now.sec +ℤ whole)) (u %ℤ 1000000),
        +ℤ_parts (scaled now.sec) now.usec,
        +ℤ_parts (scaled sec) usec,
        +ℤ_parts (micros now) (scaled sec +ℤ usec),
      ))

increased-IsNormal :
    (now : Timeval) (sec : ℤ) (n : ℕ) → IsNormal now → IsNormal (increased now sec (pos n))
unfolding increased ◌+ℤ◌ ◌%ℤ◌
increased-IsNormal now sec n (u, e, h) =
    rw e ((u + n % 1000000) % 1000000, ground arith, omega arith)

-- tm_setsu with a period of seconds, of any sign, and microseconds that are not negative, and with
-- a clock in whole seconds and microseconds, returns 0 and sets the timer to the current time and
-- the period after it; its microseconds lie within the second.
pub setsu_lem :
    (tm now : Timeval) (sec : ℤ) (n : ℕ)
    → IsNormal now
    → (t : Timeval) × (setsu (some tm) (some now) sec (pos n) ≡ (some t, pos 0))
      × IsNormal t
      × (micros t ≡ micros now +ℤ (scaled sec +ℤ pos n))
unfolding setsu
setsu_lem tm now sec n normal = (
  increased now sec (pos n),
  refl,
  increased-IsNormal now sec n normal,
  micros-increased now sec (pos n),
)

-- ===== src/Timer.antt =====
-- src/bee/lib/bee/timer.c: timers. A pointer is an Option, with `none` for NULL, and `now` is what
-- gettimeofday gives, `none` when it fails.
pub mod Setting
pub mod Asking
mod Tests
use rubsd.Prelude.{
  ℕ, ◌+◌, ◌-◌, ◌%◌, ◌^◌, Bool, true, false, not, ◌&&◌, ◌||◌, Option, none, some, ltb, if◌then◌else◌,
}
use rubsd.Prelude.Int.{ℤ, pos, negsuc, ◌+ℤ◌, ◌-ℤ◌, ◌/ℤ◌, ◌%ℤ◌, ltb_ℤ, eq_ℤ}

-- `timeval_t`
pub record Timeval : Type 0 where
  pub sec : ℤ
  pub usec : ℤ

abbrev pub timer_error : ℤ
timer_error = negsuc 0

abbrev pub timer_seconds : ℤ
timer_seconds = negsuc 1

abbrev pub timer_overflow : ℤ
timer_overflow = negsuc 2

-- A `long` that becomes an `int` of 32 bits.
unfoldable pub signed : ℕ → ℤ
signed n = if ltb n (2 ^ 31) then pos n else negsuc (2 ^ 32 - 1 - n)

unfoldable pub to_int : ℤ → ℤ
to_int (pos n) = signed (n % 2 ^ 32)
to_int (negsuc n) = signed (2 ^ 32 - 1 - n % 2 ^ 32)

-- tm_zero
unfoldable pub set_zero : Option Timeval → Option Timeval → Option Timeval × ℤ
set_zero none now = (none, timer_error)
set_zero (some tm) none = (some tm, timer_error)
set_zero (some tm) (some now) = (some now, pos 0)

-- The current time, increased.
unfoldable pub increased : Timeval → ℤ → ℤ → Timeval
increased now sec usec =
    let u = now.usec +ℤ usec %ℤ 1000000 in
    record { sec = now.sec +ℤ (sec +ℤ u /ℤ 1000000 +ℤ usec /ℤ 1000000); usec = u %ℤ 1000000 }

-- tm_setsu
unfoldable pub setsu : Option Timeval → Option Timeval → ℤ → ℤ → Option Timeval × ℤ
setsu none now sec usec = (none, timer_error)
setsu (some tm) none sec usec = (some tm, timer_error)
setsu (some tm) (some now) sec usec = (some (increased now sec usec), pos 0)

-- tm_sets and tm_setu
unfoldable pub sets : Option Timeval → Option Timeval → ℤ → Option Timeval × ℤ
sets none now sec = (none, timer_error)
sets (some tm) now sec = setsu (some tm) now sec (pos 0)

unfoldable pub setu : Option Timeval → Option Timeval → ℤ → Option Timeval × ℤ
setu none now usec = (none, timer_error)
setu (some tm) now usec = setsu (some tm) now (pos 0) usec

-- tm_set. The period's fields become `int`s.
unfoldable pub set_period : Option Timeval → Option Timeval → Option Timeval → Option Timeval × ℤ
set_period none now per = (none, timer_error)
set_period (some tm) now none = (some tm, timer_error)
set_period (some tm) now (some per) = setsu (some tm) now (to_int per.sec) (to_int per.usec)

-- tm_state
unfoldable pub state : Option Timeval → Option Timeval → ℤ
state none now = timer_error
state (some tm) none = timer_error
state (some tm) (some now) =
    if ltb_ℤ now.sec tm.sec
    then pos 1
    else if ltb_ℤ tm.sec now.sec
    then pos 0
    else if ltb_ℤ now.usec tm.usec
    then pos 1
    else pos 0

-- The test and the subtraction of tm_rem and tm_left.
unfoldable pub is_earlier : Timeval → Timeval → Bool
is_earlier a b = ltb_ℤ a.sec b.sec || eq_ℤ a.sec b.sec && ltb_ℤ a.usec b.usec

unfoldable pub minus : Timeval → Timeval → Timeval
minus a b =
    if ltb_ℤ a.usec b.usec
    then record { sec = a.sec -ℤ pos 1 -ℤ b.sec; usec = a.usec +ℤ pos 1000000 -ℤ b.usec }
    else record { sec = a.sec -ℤ b.sec; usec = a.usec -ℤ b.usec }

-- tm_rem
unfoldable pub rem : Option Timeval → Option Timeval → Option Timeval → Option Timeval × ℤ
rem none dest now = (dest, timer_error)
rem (some tm) none now = (none, timer_error)
rem (some tm) (some dest) none = (some dest, timer_error)
rem (some tm) (some dest) (some now) =
    if is_earlier tm now then (some dest, timer_overflow) else (some (minus tm now), pos 0)

-- tm_left
unfoldable pub left : Option Timeval → Option Timeval → Option Timeval → Option Timeval × ℤ
left none dest now = (dest, timer_error)
left (some tm) none now = (none, timer_error)
left (some tm) (some dest) none = (some dest, timer_error)
left (some tm) (some dest) (some now) =
    if is_earlier now tm then (some dest, timer_overflow) else (some (minus now tm), pos 0)

-- The ends of tm_remu and tm_leftu, and of tm_rems and tm_lefts.
unfoldable pub useconds : Option Timeval × ℤ → ℤ
useconds (none, rc) = rc
useconds (some t, rc) =
    if not (eq_ℤ rc (pos 0))
    then rc
    else if ltb_ℤ (pos 0) t.sec
    then timer_seconds
    else to_int t.usec

unfoldable pub seconds : Option Timeval × ℤ → ℤ
seconds (none, rc) = rc
seconds (some t, rc) = if not (eq_ℤ rc (pos 0)) then rc else to_int t.sec

-- tm_remu, tm_rems, tm_leftu and tm_lefts; `uninit` is what the structure on the stack holds.
unfoldable pub remu : Timeval → Option Timeval → Option Timeval → ℤ
remu uninit tm now = useconds (rem tm (some uninit) now)

unfoldable pub rems : Timeval → Option Timeval → Option Timeval → ℤ
rems uninit tm now = seconds (rem tm (some uninit) now)

unfoldable pub leftu : Timeval → Option Timeval → Option Timeval → ℤ
leftu uninit tm now = useconds (left tm (some uninit) now)

unfoldable pub lefts : Timeval → Option Timeval → Option Timeval → ℤ
lefts uninit tm now = seconds (left tm (some uninit) now)

-- ===== src/Timer/Tests.antt =====
-- The theorems on timers, at concrete times.
use rubsd.Prelude.{◌≡◌, refl, ◌⊎◌, ◌↔◌, some, arith}
use rubsd.Prelude.Int.{pos, ◌+ℤ◌, ◌≤ℤ◌, ◌<ℤ◌}
use rubsd.Timer.{Timeval, timer_overflow, setsu, state, rem, left}
use rubsd.Timer.Setting.{scaled, micros, IsNormal, setsu_lem}
use rubsd.Timer.Asking.{IsDifference, rem_lem, left_lem, state_lem, setsu-state}

abbrev morning : Timeval
morning = record { sec = pos 100; usec = pos 900000 }

abbrev evening : Timeval
evening = record { sec = pos 103; usec = pos 200000 }

morning-IsNormal : IsNormal morning
morning-IsNormal = (900000, refl, omega arith)

evening-IsNormal : IsNormal evening
evening-IsNormal = (200000, refl, omega arith)

setsu_lem_run :
    (t : Timeval) × (setsu (some evening) (some morning) (pos 2) (pos 300000) ≡ (some t, pos 0))
    × IsNormal t
    × (micros t ≡ micros morning +ℤ (scaled (pos 2) +ℤ pos 300000))
setsu_lem_run = setsu_lem evening morning (pos 2) 300000 morning-IsNormal

rem_lem_run :
    ((micros morning ≤ℤ micros evening)
      × (d : Timeval) × (rem (some evening) (some morning) (some morning) ≡ (some d, pos 0))
      × IsDifference evening morning d)
    ⊎ ((micros evening <ℤ micros morning)
        × (rem (some evening) (some morning) (some morning) ≡ (some morning, timer_overflow)))
rem_lem_run = rem_lem evening morning morning evening-IsNormal morning-IsNormal

left_lem_run :
    ((micros morning ≤ℤ micros evening)
      × (d : Timeval) × (left (some morning) (some morning) (some evening) ≡ (some d, pos 0))
      × IsDifference evening morning d)
    ⊎ ((micros evening <ℤ micros morning)
        × (left (some morning) (some morning) (some evening) ≡ (some morning, timer_overflow)))
left_lem_run = left_lem morning morning evening morning-IsNormal evening-IsNormal

state_lem_run :
    ((micros morning <ℤ micros evening) × (state (some evening) (some morning) ≡ pos 1))
    ⊎ ((micros evening ≤ℤ micros morning) × (state (some evening) (some morning) ≡ pos 0))
state_lem_run = state_lem evening morning evening-IsNormal morning-IsNormal

setsu-state_run :
    (state (setsu (some evening) (some morning) (pos 2) (pos 300000)).0 (some evening) ≡ pos 0)
    ↔ (micros morning +ℤ (scaled (pos 2) +ℤ pos 300000) ≤ℤ micros evening)
setsu-state_run =
    setsu-state evening morning evening (pos 2) 300000 morning-IsNormal evening-IsNormal

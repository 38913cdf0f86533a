-- ===== src/Misc/Dates.antt =====
-- check_ymd and check_hms of src/bee/lib/bee/misc.c.
use rubsd.Prelude.{
  ℕ, ◌+◌, ◌/◌, ◌%◌, ◌<◌, ◌≤◌, ◌≡◌, refl, ◌↔◌, Bool, true, false, not, ◌&&◌, ◌||◌, List, [], ◌∷◌,
  ◌==◌, ltb, if◌then◌else◌, get_or, set, arith, ◌-◌, Bool-cases, inl, inr, ◌⊎◌,
}
use rubsd.Misc.Tables.{holds_from, holds_from-each}
use rubsd.Prelude.Int.{ℤ, pos, negsuc, ltb_ℤ, leb_ℤ}

-- ISLEAP
unfoldable pub is_leap : ℕ → Bool
is_leap y = y % 4 == 0 && (not (y % 100 == 0) || y % 400 == 0)

-- Days per month, by what ISLEAP says of the year.
unfoldable pub dpm : Bool → List ℕ
dpm leap =
    let year = 31 ∷ 28 ∷ 31 ∷ 30 ∷ 31 ∷ 30 ∷ 31 ∷ 31 ∷ 30 ∷ 31 ∷ 30 ∷ 31 ∷ [] in
    if leap then set year 1 29 else year

unfoldable pub check_ymd : ℤ → ℤ → ℤ → ℤ
check_ymd (pos y) (pos m) (pos d) =
    if ltb y 1583 || ltb m 1 || ltb 12 m || ltb d 1
    then pos 0
    else if ltb (get_or (dpm (is_leap y)) (m - 1) 0) d
    then pos 0
    else pos 1
check_ymd _ _ _ = pos 0

unfoldable pub check_hms : ℤ → ℤ → ℤ → ℤ
check_hms h m s =
    if leb_ℤ (pos 0) h
      && ltb_ℤ h (pos 23)
      && leb_ℤ (pos 0) m
      && ltb_ℤ m (pos 60)
      && leb_ℤ (pos 0) s
      && ltb_ℤ s (pos 60)
    then pos 1
    else pos 0

-- The length of a month, by a formula.
abbrev pub month_length : Bool → ℕ → ℕ
month_length leap m = if m == 2 then (if leap then 29 else 28) else 30 + (m + m / 8) % 2

month_fits : ℕ → Bool
month_fits m =
    get_or (dpm true) (m - 1) 0 == month_length true m
    && get_or (dpm false) (m - 1) 0 == month_length false m

months_fit : holds_from 1 12 month_fits ≡ true
unfolding holds_from month_fits dpm
months_fit = refl

dpm_lem : (leap : Bool) (m : ℕ) → 0 < m → m ≤ 12 → get_or (dpm leap) (m - 1) 0 ≡ month_length leap m
unfolding month_fits
dpm_lem leap m p q =
    let h : month_fits m ≡ true =
      holds_from-each 1 12 month_fits months_fit m (m - 1) (omega arith) (omega arith) in
    elim (Bool-cases leap) [ inl e ↦ rw e (ground arith) | inr e ↦ rw e (ground arith) ]

-- Whether a year, a month and a day, possibly negative, are a date from 1583 on.
unfoldable pub IsDate : ℤ → ℤ → ℤ → Type 0
IsDate (pos y) (pos m) (pos d) =
    (1583 ≤ y)
    × (0 < m)
    × (m ≤ 12)
    × (0 < d)
    × (d ≤ month_length (y % 4 == 0 && not (y % 100 == 0) || y % 400 == 0) m)
IsDate _ _ _ = ⊥

-- check_ymd returns 1 for the dates of the Gregorian calendar from the year 1583 on, and 0 for all
-- other numbers, negative ones included. A date has a month from 1 to 12, and a day from 1 to the
-- month's length, 29 for February in a year that 4 divides and 100 does not, or that 400 divides.
pub check_ymd_lem :
    (y m d : ℤ)
    → (IsDate y m d × (check_ymd y m d ≡ pos 1)) ⊎ (¬ IsDate y m d × (check_ymd y m d ≡ pos 0))
unfolding check_ymd is_leap IsDate
check_ymd_lem (pos y) (pos m) (pos d) =
    let days = dpm_lem (is_leap y) m in
    let leap : (y % 4 == 0 && not (y % 100 == 0) || y % 400 == 0) ≡ is_leap y = ground arith in
    rw leap (elim (Bool-cases (ltb y 1583 || ltb m 1 || ltb 12 m || ltb d 1)) [
      | inl out ↦ rw out (inr ((λ h. absurd (ground (arith, h))), refl))
      | inr inside ↦ rw inside (elim (Bool-cases (ltb (get_or (dpm (is_leap y)) (m - 1) 0) d)) [
        | inl late ↦ rw late (inr ((λ h. absurd (ground (arith, h, days))), refl))
        | inr early ↦ rw early (inl (ground (arith, days), refl))
      ])
    ])
check_ymd_lem (negsuc y) m d = inr ((λ h. h), refl)
check_ymd_lem (pos y) (negsuc m) d = inr ((λ h. h), refl)
check_ymd_lem (pos y) (pos m) (negsuc d) = inr ((λ h. h), refl)

-- check_hms, for a minute and a second below 60, returns 1 for the hours up to 22 only: it refuses
-- 23, and accepts no other value past it.
pub check_hms_lem :
    (h m s : ℕ) → m < 60 → s < 60 → (check_hms (pos h) (pos m) (pos s) ≡ pos 1) ↔ (h ≤ 22)
unfolding check_hms
check_hms_lem h m s p q = ((λ e. ground arith), λ e. ground arith)

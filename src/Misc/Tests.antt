-- ===== src/Misc/Tests.antt =====
-- The theorems on case, dates and times, at concrete values.
use rubsd.Prelude.Int.{pos}
use rubsd.Misc.Dates.{IsDate, check_ymd, check_hms, check_ymd_lem, check_hms_lem}
use rubsd.Prelude.{◌⊎◌, ℕ, ◌≡◌, ◌↔◌, ◌≤◌, some, ◌==◌, List, [], ◌∷◌, length, arith}
use rubsd.Prelude.Run.{Yields}
use rubsd.Misc.{strupper, strlower}
use rubsd.Misc.Strings.{rtrim, find_chain}
use rubsd.Misc.Strings.Trimming.{Trimmed, rtrim_lem}
use rubsd.Misc.Strings.Chains.{Answer, find_chain_lem}
use rubsd.Misc.Folding.{IsText, stop, more, strupper-strlower}

-- A Latin and a Cyrillic letter, the end, and a byte behind it.
abbrev word : List ℕ
word = 98 ∷ 194 ∷ 0 ∷ 7 ∷ []

word-IsText : IsText word
word-IsText = more (omega arith) (omega arith) (more (omega arith) (omega arith) stop)

strupper-strlower_run :
    Yields (λ b. IsText b × (length b ≡ 4) × (strlower b ≡ strlower word)) (strupper word)
    × Yields (λ b. IsText b × (length b ≡ 4) × (strupper b ≡ strupper word)) (strlower word)
strupper-strlower_run = strupper-strlower word word-IsText

check_ymd_lem_example :
    (IsDate (pos 2004) (pos 2) (pos 29) × (check_ymd (pos 2004) (pos 2) (pos 29) ≡ pos 1))
    ⊎ (¬ IsDate (pos 2004) (pos 2) (pos 29) × (check_ymd (pos 2004) (pos 2) (pos 29) ≡ pos 0))
check_ymd_lem_example = check_ymd_lem (pos 2004) (pos 2) (pos 29)

check_hms_lem_run : (check_hms (pos 23) (pos 30) (pos 0) ≡ pos 1) ↔ (23 ≤ 22)
check_hms_lem_run = check_hms_lem 23 30 0 (omega arith) (omega arith)

-- "ab  "
abbrev padded : List ℕ
padded = 97 ∷ 98 ∷ 32 ∷ 32 ∷ []

rtrim_lem_example : Trimmed (◌==◌ 32) padded (rtrim (◌==◌ 32) padded)
rtrim_lem_example = rtrim_lem (◌==◌ 32) padded (omega arith)

find_chain_lem_run :
    Yields (Answer (◌==◌ 32) padded 4) (find_chain (◌==◌ 32) (some padded) 4 (pos 3))
find_chain_lem_run = find_chain_lem (◌==◌ 32) padded 4 3 (omega arith)

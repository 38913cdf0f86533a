-- ===== src/Misc/Tables.antt =====
-- Tests on the entries of a table, one by one.
use rubsd.Prelude.{ℕ, zero, suc, ◌+◌, ◌<◌, ◌≡◌, Bool, true, ◌&&◌, arith}

-- Whether a test holds from `i` on, for `n` numbers.
unfoldable pub holds_from : ℕ → ℕ → (ℕ → Bool) → Bool
holds_from i zero test = true
holds_from i (suc n) test = test i && holds_from (suc i) n test

pub holds_from-each :
    (i n : ℕ) (test : ℕ → Bool)
    → holds_from i n test ≡ true
    → (c k : ℕ) → c ≡ i + k
    → k < n
    → test c ≡ true
unfolding holds_from
holds_from-each i zero test h c k e p = absurd (omega arith)
holds_from-each i (suc n) test h c zero e p = let z : c ≡ i = omega arith in rw z (ground arith)
holds_from-each i (suc n) test h c (suc k) e p =
    holds_from-each (suc i) n test (ground arith) c k (omega arith) (omega arith)

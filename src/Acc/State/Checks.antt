-- ===== src/Acc/State/Checks.antt =====
-- What acci_get says of a record that is loaded.
use rubsd.Prelude.{ℕ, ◌≡◌, true, false, ◌&&◌, ◌||◌, arith, if◌then◌else◌}
use rubsd.Prelude.Int.{ℤ, pos, is_neg, eq_ℤ, ltb_ℤ}
use rubsd.Base.Env.{Double, success, negative, acc_unlimit, acc_broken}
use rubsd.Base.Record.{Acc, is_deleted, is_broken, is_frozen, is_off, is_unlimit, set_broken}
use rubsd.Acc.State.{balance_state, check}

pub set_broken-IsBroken : (tag : ℕ) → is_broken (set_broken tag) ≡ true
set_broken-IsBroken tag = ground arith

module _ (d : Double) where
  -- A record that passes the checks for broken, deleted, frozen and turned off accounts: no mark
  -- forbids it, and its CRC and number are right.
  pub record IsUsable (crc rec : ℤ) (acc : Acc d) : Type 0 where
    pub not_deleted : is_deleted acc.tag ≡ false
    pub not_broken : is_broken acc.tag ≡ false
    pub same_crc : eq_ℤ acc.crc crc ≡ true
    pub not_frozen : is_frozen acc.tag ≡ false
    pub not_off : is_off acc.tag ≡ false
    pub same_number : eq_ℤ acc.accno rec ≡ true

  balance_state-nonneg : (ctime : ℤ) (acc : Acc d) → is_neg (balance_state d ctime acc) ≡ false
  unfolding balance_state
  balance_state-nonneg ctime acc = ground arith

  -- For a record that passes these checks they keep the record, and the code is ACC_UNLIMIT for
  -- one without limit; for one with neither a start nor a stop date NEGATIVE if the balance is below
  -- 0.01, and SUCCESS if not; and for the others SUCCESS after the start and, if there is a stop,
  -- before it, and NEGATIVE outside.
  pub check_code :
      (crc ctime rec : ℤ) (acc : Acc d)
      → IsUsable crc rec acc
      → check d crc ctime rec acc ≡ (
        (if is_unlimit acc.tag
            then acc_unlimit
            else if eq_ℤ acc.start (pos 0) && eq_ℤ acc.stop (pos 0)
            then (if d.lt acc.balance d.cent then negative else success)
            else if ltb_ℤ acc.start ctime && (eq_ℤ acc.stop (pos 0) || ltb_ℤ ctime acc.stop)
            then success
            else negative),
        acc,
      )
  unfolding check balance_state
  check_code crc ctime rec acc u = ground arith

  -- When the checks answer ACC_BROKEN, the record that they leave in memory carries the mark.
  pub check_marks :
      (crc ctime rec : ℤ) (acc : Acc d)
      → (check d crc ctime rec acc).0 ≡ acc_broken
      → is_broken (check d crc ctime rec acc).1.tag ≡ true
  unfolding check balance_state
  check_marks crc ctime rec acc h = ground (arith, set_broken-IsBroken acc.tag)

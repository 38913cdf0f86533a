-- ===== src/Acc/Old.antt =====
-- acci_get_old: accounts of the old format, for conversion.
use rubsd.Prelude.{ℕ, ◌≡◌, not, ◌&&◌, ◌||◌, arith, if◌then◌else◌}
use rubsd.Prelude.Int.{ℤ, pos, is_neg, eq_ℤ, ltb_ℤ}
use rubsd.Base.Env.{
  Double, M, ◌>>=◌, return, Store, System, Handle, success, negative, acc_unlimit, acc_deleted,
  acc_broken, acc_frozen, acc_off,
}
use rubsd.Base.Record.{Acc, is_deleted, is_broken, is_frozen, is_off, is_unlimit, set_broken}
use rubsd.Acc.State.{balance_state, check}

module _ (d : Double) where
  open d use {D}

  -- `acc_t_old`
  pub record AccOld : Type 0 where
    pub tag : ℕ
    pub accno : ℤ
    pub balance : D
    pub start : ℤ
    pub stop : ℤ
    pub reserv : ℤ
    pub crc : ℤ

  -- The end of acci_get_old.
  unfoldable pub old_state : ℤ → AccOld → ℤ
  old_state ctime acc =
      if not (eq_ℤ acc.start (pos 0)) || not (eq_ℤ acc.stop (pos 0))
      then (if ltb_ℤ acc.start ctime && (ltb_ℤ ctime acc.stop || eq_ℤ acc.stop (pos 0))
          then success
          else negative)
      else if d.lt acc.balance d.cent
      then negative
      else success

  -- The checks of acci_get_old on a record that is loaded.
  unfoldable pub check_old : ℤ → ℤ → ℤ → AccOld → ℤ × AccOld
  check_old crc ctime rec acc =
      if is_deleted acc.tag
      then (acc_deleted, acc)
      else if is_broken acc.tag
      then (acc_broken, acc)
      else if not (eq_ℤ acc.crc crc)
      then (acc_broken, record acc { tag = set_broken acc.tag })
      else if is_frozen acc.tag
      then (acc_frozen, acc)
      else if is_off acc.tag
      then (acc_off, acc)
      else if not (eq_ℤ acc.accno rec)
      then (acc_broken, record acc { tag = set_broken acc.tag })
      else if is_unlimit acc.tag
      then (acc_unlimit, acc)
      else (old_state ctime acc, acc)

  unfoldable pub acci_get_old :
      {Os : Type 0} → System Os → Store Os AccOld → Handle → ℤ → AccOld → M Os (ℤ × AccOld)
  acci_get_old sys store base rec buf = do
    ctime ← sys.time
    (rc, acc) ← store.get base.fd rec buf
    if is_neg rc then return (rc, acc) else return (check_old (store.checksum acc) ctime rec acc)

  -- The old record that has the fields of an account, its tariff in `reserv`, as the conversion reads it.
  abbrev pub narrowed : Acc d → AccOld
  narrowed acc = record {
    tag = acc.tag;
    accno = acc.accno;
    balance = acc.balance;
    start = acc.start;
    stop = acc.stop;
    reserv = acc.tariff;
    crc = acc.crc;
  }

  -- acci_get_old judges a record as acci_get judges an account that has its fields: the code is the
  -- same, and so is the record that is left, with the mark that a failed check sets.
  pub check_old-check :
      (crc ctime rec : ℤ) (acc : Acc d)
      → check_old crc ctime rec (narrowed acc)
        ≡ ((check d crc ctime rec acc).0, narrowed (check d crc ctime rec acc).1)
  unfolding check_old check balance_state old_state
  check_old-check crc ctime rec acc = ground arith

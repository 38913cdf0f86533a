-- ===== src/Acc/State.antt =====
-- The functions of acc.c on single accounts, and the locks of the base.
pub mod Checks
pub mod Storing
pub mod Locking
use rubsd.Prelude.{ℕ, Bool, true, false, not, ◌&&◌, ◌||◌, if◌then◌else◌}
use rubsd.Prelude.Int.{ℤ, pos, negsuc, is_neg, eq_ℤ, ltb_ℤ}
use rubsd.Base.Env.{
  Double, M, ◌>>=◌, ◌>>◌, return, Store, System, Handle, success, negative, acc_unlimit,
  acc_deleted, io_error, acc_broken, acc_frozen, acc_off,
}
use rubsd.Base.Record.{Acc, is_deleted, is_broken, is_frozen, is_off, is_unlimit, set_broken}

module _ {Os : Type 0} (sys : System Os) where
  -- acc_baselock, acc_baseunlock
  unfoldable pub baselock : Handle → M Os ℤ
  baselock base = if base.fasync then return (pos 0) else sys.exlock base.fd

  unfoldable pub baseunlock : Handle → M Os ℤ
  baseunlock base = if base.fasync then return (pos 0) else sys.unlock base.fd

  -- acc_async_on and acc_async_off, with the handle after.
  unfoldable pub async_on : Handle → M Os (Handle × ℤ)
  async_on base = if base.fasync then return (base, io_error) else (do
    rc ← sys.exlock base.fd
    if is_neg rc then return (base, rc) else return (record base { fasync = true }, pos 0))

  unfoldable pub async_off : Handle → M Os (Handle × ℤ)
  async_off base =
      if base.fasync
      then (do
        sys.sync base.fd
        rc ← sys.unlock base.fd
        if is_neg rc then return (base, rc) else return (record base { fasync = false }, pos 0))
      else return (base, io_error)

module _ (d : Double) where
  -- The end of acci_get: whether an account that may be charged has a good balance.
  unfoldable pub balance_state : ℤ → Acc d → ℤ
  balance_state ctime acc =
      if not (eq_ℤ acc.start (pos 0)) || not (eq_ℤ acc.stop (pos 0))
      then (if ltb_ℤ acc.start ctime && (ltb_ℤ ctime acc.stop || eq_ℤ acc.stop (pos 0))
          then success
          else negative)
      else if d.lt acc.balance d.cent
      then negative
      else success

  -- The checks of acci_get on a record that is loaded: the code, and the record, which a failed
  -- check marks broken.
  unfoldable pub check : ℤ → ℤ → ℤ → Acc d → ℤ × Acc d
  check crc ctime rec acc =
      if is_deleted acc.tag
      then (acc_deleted, acc)
      else if is_broken acc.tag
      then (acc_broken, acc)
      else if not (eq_ℤ acc.crc crc)
      then (acc_broken, record acc { tag = set_broken acc.tag })
      else if is_frozen acc.tag
      then (acc_frozen, acc)
      else if is_off acc.tag
      then (acc_off, acc)
      else if not (eq_ℤ acc.accno rec)
      then (acc_broken, record acc { tag = set_broken acc.tag })
      else if is_unlimit acc.tag
      then (acc_unlimit, acc)
      else (balance_state ctime acc, acc)

  module _ {Os : Type 0} (sys : System Os) (store : Store Os (Acc d)) where
    unfoldable pub reccount : Handle → M Os ℤ
    reccount base = store.reccount base.fd

    unfoldable pub acci_get : Handle → ℤ → Acc d → M Os (ℤ × Acc d)
    acci_get base rec buf = do
      ctime ← sys.time
      (rc, acc) ← store.get base.fd rec buf
      if is_neg rc then return (rc, acc) else return (check (store.checksum acc) ctime rec acc)

    -- acci_put's record: its time of change, and its CRC unless it is marked broken.
    unfoldable pub stamped : ℤ → Acc d → Acc d
    stamped now acc =
        let fresh : Acc d = record acc { upd_time = now } in
        if is_broken acc.tag then fresh else record fresh { crc = store.checksum fresh }

    unfoldable pub acci_put : Handle → ℤ → Acc d → M Os (ℤ × Acc d)
    acci_put base rec acc = if not (eq_ℤ acc.accno rec) then return (io_error, acc) else (do
      now ← sys.time
      let out : Acc d = stamped now acc
      rc ← store.put base.fd rec out
      if is_neg rc then return (rc, out) else if base.fasync then return (success, out) else (do
        synced ← sys.sync base.fd
        if is_neg synced then return (synced, out) else return (success, out)))

    -- acc_get
    unfoldable pub get : Handle → ℤ → Acc d → M Os (ℤ × Acc d)
    get base rec buf = do
      rc ← (if base.fasync then return (pos 0) else sys.shlock base.fd)
      if is_neg rc
          then return (io_error, buf)
          else (do r ← acci_get base rec buf; baseunlock sys base; return r)

    -- acc_put
    unfoldable pub put : Handle → ℤ → Acc d → M Os (ℤ × Acc d)
    put base rec acc = do
      rc ← baselock sys base
      if is_neg rc
          then return (io_error, acc)
          else (do r ← acci_put base rec acc; baseunlock sys base; return r)

    -- The "fictive cycle" of acc_add, under the lock: the code, the number and the record.
    unfoldable pub add_locked : Handle → Acc d → M Os (ℤ × ℤ × Acc d)
    add_locked base acc = do
      recno ← reccount base
      if is_neg recno then return (recno, negsuc 0, acc) else (do
        now ← sys.time
        let fresh : Acc d = record acc { accno = recno; upd_time = now }
        let out : Acc d = record fresh { crc = store.checksum fresh }
        rc ← store.append base.fd out
        if eq_ℤ rc io_error
            then return (rc, recno, out)
            else if base.fasync
            then return (rc, recno, out)
            else (do synced ← sys.sync base.fd; return (synced, recno, out)))

    -- acc_add
    unfoldable pub add : Handle → Acc d → M Os (ℤ × Acc d)
    add base acc = do
      rc ← baselock sys base
      if is_neg rc then return (rc, acc) else (do
        (code, recno, out) ← add_locked base acc
        baseunlock sys base
        if is_neg code then return (code, out) else return (recno, out))

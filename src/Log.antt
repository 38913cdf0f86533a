-- ===== src/Log.antt =====
-- src/bee/lib/db/log.c: the transaction log. `base->fd` is the file, and every function that takes
-- a lock of its own leaves it out in asynchronous mode.
pub mod Locking
pub mod Opening
use rubsd.Prelude.{ℕ, Bool, true, false, if◌then◌else◌}
use rubsd.Prelude.Int.{ℤ, pos, negsuc, is_neg, eq_ℤ}
use rubsd.Base.Env.{
  Double, M, ◌>>=◌, ◌>>◌, return, Store, System, Handle, success, io_error, acc_broken,
}
use rubsd.Base.Record.{Logrec}

module _ {Os : Type 0} (sys : System Os) where
  -- log_baselock, log_baseunlock
  unfoldable pub baselock : Handle → M Os ℤ
  baselock base = if base.fasync then return (pos 0) else sys.exlock base.fd

  unfoldable pub baseunlock : Handle → M Os ℤ
  baseunlock base = if base.fasync then return (pos 0) else sys.unlock base.fd

  -- log_async_on and log_async_off, with the handle after.
  unfoldable pub async_on : Handle → M Os (Handle × ℤ)
  async_on base = if base.fasync then return (base, io_error) else (do
    rc ← sys.exlock base.fd
    if is_neg rc then return (base, rc) else return (record base { fasync = true }, pos 0))

  unfoldable pub async_off : Handle → M Os (Handle × ℤ)
  async_off base =
      if base.fasync
      then (do
        sys.sync base.fd
        rc ← sys.unlock base.fd
        if is_neg rc then return (base, rc) else return (record base { fasync = false }, pos 0))
      else return (base, io_error)

  module _ (d : Double) (store : Store Os (Logrec d)) where
    unfoldable pub reccount : Handle → M Os ℤ
    reccount base = store.reccount base.fd

    -- logi_get, with the record that is loaded.
    unfoldable pub logi_get : Handle → ℤ → Logrec d → M Os (ℤ × Logrec d)
    logi_get base rec buf = do
      (rc, r) ← store.get base.fd rec buf
      if is_neg rc
          then return (rc, r)
          else if eq_ℤ (store.checksum r) r.crc
          then return (success, r)
          else return (acc_broken, r)

    -- logi_put, with the caller's record, which gets its CRC.
    unfoldable pub logi_put : Handle → ℤ → Logrec d → M Os (ℤ × Logrec d)
    logi_put base rec r = do
      let sealed : Logrec d = record r { crc = store.checksum r }
      rc ← store.put base.fd rec sealed
      if is_neg rc then return (rc, sealed) else return (success, sealed)

    -- log_get
    unfoldable pub get : Handle → ℤ → Logrec d → M Os (ℤ × Logrec d)
    get base rec buf = do
      rc ← (if base.fasync then return (pos 0) else sys.shlock base.fd)
      if is_neg rc
          then return (io_error, buf)
          else (do r ← logi_get base rec buf; baseunlock base; return r)

    -- log_put
    unfoldable pub put : Handle → ℤ → Logrec d → M Os (ℤ × Logrec d)
    put base rec r = do
      rc ← baselock base
      if is_neg rc
          then return (io_error, r)
          else (do out ← logi_put base rec r; baseunlock base; return out)

    -- log_add
    unfoldable pub add : Handle → Logrec d → M Os (ℤ × Logrec d)
    add base r = do
      rc ← baselock base
      if is_neg rc then return (rc, r) else (do
        let sealed : Logrec d = record r { crc = store.checksum r }
        recno ← store.append base.fd sealed
        baseunlock base
        return (recno, sealed))

-- ===== src/Log/Opening.antt =====
-- log_baseopen, log_baseopen_sr and log_baseclose, over the files of db.c.
use rubsd.Prelude.{ℕ, List, false}
use rubsd.Prelude.Int.{ℤ, pos, negsuc}
use rubsd.Base.Env.{M, ◌>>=◌, return, Handle, success}
use rubsd.Db.Calls.{Kernel}
use rubsd.Db.{Seqread, open_base, open_sequential, close_base}

-- The handle of a file that was opened, unless that failed.
unfoldable pub opened : Handle → ℤ → Handle × ℤ
opened base (pos fd) = (record { fd = fd; fasync = false }, success)
opened base (negsuc rc) = (base, negsuc rc)

module _ {Os : Type 0} (k : Kernel Os) where
  unfoldable pub baseopen : Handle → List ℕ → M Os (Handle × ℤ)
  baseopen base file = do rc ← open_base k file; return (opened base rc)

  unfoldable pub baseopen_sr : Handle → List ℕ → M (Os × Seqread) (Handle × ℤ)
  baseopen_sr base file = do rc ← open_sequential k file; return (opened base rc)

  unfoldable pub baseclose : Handle → M (Os × Seqread) ℤ
  baseclose base = close_base k base.fd

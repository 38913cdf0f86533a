-- ===== src/Acc/Opening.antt =====
-- acc_baseopen and acc_baseclose, over the files of db.c.
use rubsd.Prelude.{ℕ, List}
use rubsd.Prelude.Int.{ℤ}
use rubsd.Base.Env.{M, ◌>>=◌, return, Handle}
use rubsd.Db.Calls.{Kernel}
use rubsd.Db.{Seqread, open_base, close_base}
use rubsd.Log.Opening.{opened}

module _ {Os : Type 0} (k : Kernel Os) where
  unfoldable pub baseopen : Handle → List ℕ → M Os (Handle × ℤ)
  baseopen base file = do rc ← open_base k file; return (opened base rc)

  unfoldable pub baseclose : Handle → M (Os × Seqread) ℤ
  baseclose base = close_base k base.fd

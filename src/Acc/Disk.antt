-- ===== src/Acc/Disk.antt =====
-- The transaction of acc.c over the files of db.c.
mod Tests
use rubsd.Prelude.{ℕ, List, Option, some, ◌≡◌}
use rubsd.Prelude.Int.{ℤ}
use rubsd.Base.Env.{Double, Handle, Store}
use rubsd.Base.Record.{Acc}
use rubsd.Acc.State.{check}
use rubsd.Acc.Trans.{charge}
use rubsd.Acc.Trans.Charging.{Changes, Rewritten, credited, charge_stores}
use rubsd.Db.Calls.{Kernel, IsKernel}
use rubsd.Db.Codec.{Codec, records}
use rubsd.Db.Refine.{record_store, record_store-IsStore}
use rubsd.Db.{system}

module _ (d : Double) {Os : Type 0} (k : Kernel Os) (codec : Codec (Acc d))
    {image : Os → ℕ → List ℕ} {offset : Os → ℕ → ℕ} (law : IsKernel k image offset)
    (checksum : Acc d → ℤ) where
  open d use {D}

  -- acc.c on a file of accounts, as bytes: when the account's part of acc_trans answers with a code that
  -- is not negative, or with ACC_OFF, the bytes of the record were an account with that verdict, and they
  -- now are that account with the sum added to its balance, but for ACC_UNLIMIT, and a new time of change
  -- and CRC; also where the system cuts reads and writes short and acc.c tries again.
  pub charge_writes :
      (base : Handle) (rec : ℤ) (sum : D) (uninit : Acc d) (s : Os)
      → let accs = record_store k codec checksum in
        let kept = record_store-IsStore k codec law checksum in
        let (t, (serrno, before, out)) = charge d (system k) accs base rec sum uninit s in
        Changes d (system k) accs kept serrno
        → (acc : Acc d) × (ctime : ℤ) × (records codec image s base.fd rec ≡ some acc)
          × (serrno ≡ (check d (checksum acc) ctime rec acc).0)
          × (records codec image t base.fd rec ≡ some out)
          × Rewritten d (system k) accs kept (credited d (system k) accs kept serrno sum acc) out
          × (before ≡ acc.balance)
  charge_writes base rec sum uninit s changes =
      charge_stores d (system k) (record_store k codec checksum)
        (record_store-IsStore k codec law checksum) base rec sum uninit s changes

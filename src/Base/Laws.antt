-- ===== src/Base/Laws.antt =====
-- What the account base relies on of its record files and of the system.
use rubsd.Prelude.{ℕ, ◌≡◌, ◌≢◌, ◌⊎◌, Option, some, none, Bool, true, false, ◌==◌, if◌then◌else◌}
use rubsd.Prelude.Int.{ℤ, pos, is_neg}
use rubsd.Base.Env.{Double, Store, System, success, not_found, io_error}
use rubsd.Base.Record.{Acc}

-- `content s fd rec` is the record that the file holds in state `s`. No other program writes to the
-- files meanwhile.
pub record IsStore {Os R : Type 0} (sys : System Os) (store : Store Os R)
    (content : Os → ℕ → ℤ → Option R) : Type 0 where
  -- db_get returns SUCCESS, and then the buffer has the record, or NOT_FOUND, and then it keeps the
  -- buffer, or IO_ERROR; it writes nothing.
  pub get_code :
      (s : Os) (fd : ℕ) (rec : ℤ) (buf : R)
      → ((store.get fd rec buf s).1.0 ≡ success)
        ⊎ ((store.get fd rec buf s).1.0 ≡ not_found)
        ⊎ ((store.get fd rec buf s).1.0 ≡ io_error)
  pub get_misses :
      (s : Os) (fd : ℕ) (rec : ℤ) (buf : R)
      → (store.get fd rec buf s).1.0 ≡ not_found
      → (store.get fd rec buf s).1.1 ≡ buf
  pub get_loads :
      (s : Os) (fd : ℕ) (rec : ℤ) (buf : R)
      → (store.get fd rec buf s).1.0 ≡ success
      → content s fd rec ≡ some (store.get fd rec buf s).1.1
  pub get_keeps :
      (s : Os) (fd : ℕ) (rec : ℤ) (buf : R) → content (store.get fd rec buf s).0 ≡ content s
  -- db_put returns SUCCESS, and then the file has the record, or NOT_FOUND or IO_ERROR; it touches
  -- no other record.
  pub put_code :
      (s : Os) (fd : ℕ) (rec : ℤ) (r : R)
      → ((store.put fd rec r s).1 ≡ success)
        ⊎ ((store.put fd rec r s).1 ≡ not_found)
        ⊎ ((store.put fd rec r s).1 ≡ io_error)
  pub put_stores :
      (s : Os) (fd : ℕ) (rec : ℤ) (r : R)
      → (store.put fd rec r s).1 ≡ success
      → content (store.put fd rec r s).0 fd rec ≡ some r
  pub put_others :
      (s : Os) (fd : ℕ) (rec : ℤ) (r : R) (f : ℕ) (n : ℤ)
      → (f ≢ fd) ⊎ (n ≢ rec)
      → content (store.put fd rec r s).0 f n ≡ content s f n
  -- db_add returns the number of the record that it wrote behind the others, or a negative code.
  pub append_stores :
      (s : Os) (fd : ℕ) (r : R) (n : ℕ)
      → (store.append fd r s).1 ≡ pos n
      → content (store.append fd r s).0 fd (pos n) ≡ some r
  -- It writes over no record, whatever its code: the number was free, and what is there stays.
  pub append_new :
      (s : Os) (fd : ℕ) (r : R) (n : ℕ)
      → (store.append fd r s).1 ≡ pos n
      → content s fd (pos n) ≡ none
  pub append_others :
      (s : Os) (fd : ℕ) (r : R) (f : ℕ) (n : ℤ)
      → (f ≢ fd) ⊎ (content s f n ≢ none)
      → content (store.append fd r s).0 f n ≡ content s f n
  pub reccount_keeps : (s : Os) (fd : ℕ) → content (store.reccount fd s).0 ≡ content s
  pub time_keeps : (s : Os) → content (sys.time s).0 ≡ content s
  -- fsync returns 0 or -1.
  pub sync_code :
      (s : Os) (fd : ℕ) → ((sys.sync fd s).1 ≡ success) ⊎ ((sys.sync fd s).1 ≡ not_found)
  pub sync_keeps : (s : Os) (fd : ℕ) → content (sys.sync fd s).0 ≡ content s
  pub shlock_keeps : (s : Os) (fd : ℕ) → content (sys.shlock fd s).0 ≡ content s
  pub exlock_keeps : (s : Os) (fd : ℕ) → content (sys.exlock fd s).0 ≡ content s
  pub unlock_keeps : (s : Os) (fd : ℕ) → content (sys.unlock fd s).0 ≡ content s

-- The CRC of an account is counted over the bytes before the field `crc`.
abbrev pub IgnoresCrc : {Os : Type 0} (d : Double) → Store Os (Acc d) → Type 0
IgnoresCrc d store =
    (acc : Acc d) (x : ℤ) → store.checksum (record acc { crc = x }) ≡ store.checksum acc

-- `held s fd` says whether this program holds the lock of a file. A lock that is granted is held,
-- one that is refused changes nothing, and an unlock always releases.
pub record IsLocking {Os : Type 0} (sys : System Os) (held : Os → ℕ → Bool) : Type 0 where
  pub shlock_takes :
      (s : Os) (fd f : ℕ)
      → held (sys.shlock fd s).0 f
        ≡ (if is_neg (sys.shlock fd s).1 then held s f else if f == fd then true else held s f)
  pub exlock_takes :
      (s : Os) (fd f : ℕ)
      → held (sys.exlock fd s).0 f
        ≡ (if is_neg (sys.exlock fd s).1 then held s f else if f == fd then true else held s f)
  -- flock returns 0 or -1.
  pub exlock_code :
      (s : Os) (fd : ℕ) → ((sys.exlock fd s).1 ≡ success) ⊎ (is_neg (sys.exlock fd s).1 ≡ true)
  pub unlock_gives :
      (s : Os) (fd f : ℕ) → held (sys.unlock fd s).0 f ≡ (if f == fd then false else held s f)
  pub sync_holds : (s : Os) (fd f : ℕ) → held (sys.sync fd s).0 f ≡ held s f
  pub time_holds : (s : Os) (f : ℕ) → held (sys.time s).0 f ≡ held s f

-- The calls on records leave the locks alone.
pub record HoldsLocks {Os R : Type 0} (store : Store Os R) (held : Os → ℕ → Bool) : Type 0 where
  pub get_holds :
      (s : Os) (fd : ℕ) (rec : ℤ) (buf : R) (f : ℕ) → held (store.get fd rec buf s).0 f ≡ held s f
  pub put_holds :
      (s : Os) (fd : ℕ) (rec : ℤ) (r : R) (f : ℕ) → held (store.put fd rec r s).0 f ≡ held s f
  pub append_holds : (s : Os) (fd : ℕ) (r : R) (f : ℕ) → held (store.append fd r s).0 f ≡ held s f
  pub reccount_holds : (s : Os) (fd f : ℕ) → held (store.reccount fd s).0 f ≡ held s f

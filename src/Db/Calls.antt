-- ===== src/Db/Calls.antt =====
-- The system calls that db.c makes, as parameters, and what their manuals say of them.
use rubsd.Prelude.{
  ℕ, ◌+◌, ◌≤◌, ◌≡◌, ◌≢◌, ◌⊎◌, List, ◌++◌, Option, some, Bool, true, false, length, take, drop,
}
use rubsd.Prelude.Int.{ℤ, pos, negsuc, is_neg}
use rubsd.Base.Env.{M, success, not_found}

-- LOCK_SH, LOCK_EX and LOCK_UN
pub data Lock : Type 0 where
  shared : Lock
  exclusive : Lock
  unlocked : Lock

-- A file is known by its descriptor. `fstat` gives the size, `read` the bytes that it read, and
-- both `none` for -1; `lseek` is the one from the start of the file.
pub record Kernel (Os : Type 0) : Type 0 where
  pub open_file : List ℕ → Bool → M Os ℤ
  pub close_file : ℕ → M Os ℤ
  pub fstat : ℕ → M Os (Option ℕ)
  pub lseek : ℕ → ℤ → M Os ℤ
  pub read : ℕ → ℕ → M Os (Option (List ℕ))
  pub write : ℕ → List ℕ → M Os ℤ
  pub flock : ℕ → Lock → M Os ℤ
  pub fsync : ℕ → M Os ℤ
  pub calloc : ℕ → M Os Bool
  pub time : M Os ℤ

-- The bytes of a file with `b` written over those from `n` on.
abbrev pub splice : ℕ → List ℕ → List ℕ → List ℕ
splice n b file = take n file ++ (b ++ drop (n + length b) file)

-- `image s fd` are the bytes of a file and `offset s fd` is the place of the next access. No other
-- program writes to the files meanwhile.
pub record IsKernel {Os : Type 0} (k : Kernel Os) (image : Os → ℕ → List ℕ) (offset : Os → ℕ → ℕ)
    : Type 0 where
  pub fstat_size : (s : Os) (fd n : ℕ) → (k.fstat fd s).1 ≡ some n → n ≡ length (image s fd)
  pub fstat_keeps : (s : Os) (fd : ℕ) → image (k.fstat fd s).0 ≡ image s
  -- A place before the file is refused.
  pub lseek_refuses : (s : Os) (fd n : ℕ) → is_neg (k.lseek fd (negsuc n) s).1 ≡ true
  pub lseek_moves :
      (s : Os) (fd n : ℕ)
      → is_neg (k.lseek fd (pos n) s).1 ≡ false
      → offset (k.lseek fd (pos n) s).0 fd ≡ n
  pub lseek_keeps : (s : Os) (fd : ℕ) (n : ℤ) → image (k.lseek fd n s).0 ≡ image s
  pub read_bytes :
      (s : Os) (fd n : ℕ) (b : List ℕ)
      → (k.read fd n s).1 ≡ some b
      → (length b ≤ n) × (b ≡ take (length b) (drop (offset s fd) (image s fd)))
  pub read_keeps : (s : Os) (fd n : ℕ) → image (k.read fd n s).0 ≡ image s
  -- A write may be cut short; it says how many bytes it has written.
  pub write_count : (s : Os) (fd m : ℕ) (b : List ℕ) → (k.write fd b s).1 ≡ pos m → m ≤ length b
  pub write_splices :
      (s : Os) (fd m : ℕ) (b : List ℕ)
      → (k.write fd b s).1 ≡ pos m
      → offset s fd ≤ length (image s fd)
      → image (k.write fd b s).0 fd ≡ splice (offset s fd) (take m b) (image s fd)
  pub write_fails :
      (s : Os) (fd n : ℕ) (b : List ℕ)
      → (k.write fd b s).1 ≡ negsuc n
      → image (k.write fd b s).0 ≡ image s
  pub write_others :
      (s : Os) (fd f : ℕ) (b : List ℕ) → f ≢ fd → image (k.write fd b s).0 f ≡ image s f
  pub fsync_code : (s : Os) (fd : ℕ) → ((k.fsync fd s).1 ≡ success) ⊎ ((k.fsync fd s).1 ≡ not_found)
  pub fsync_keeps : (s : Os) (fd : ℕ) → image (k.fsync fd s).0 ≡ image s
  pub flock_keeps : (s : Os) (fd : ℕ) (l : Lock) → image (k.flock fd l s).0 ≡ image s
  pub calloc_keeps : (s : Os) (n : ℕ) → image (k.calloc n s).0 ≡ image s
  pub time_keeps : (s : Os) → image (k.time s).0 ≡ image s

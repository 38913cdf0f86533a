-- ===== src/Base/Env.antt =====
-- The world around the account base, as parameters: C's `double`, files of records behind the
-- calls of db.c, locks, the clock, and zlib's CRC.
use rubsd.Prelude.{ℕ, Bool}
use rubsd.Prelude.Int.{ℤ, pos, negsuc}

-- The operations on `double` that the account base uses, and the values that it names.
pub record Double : Type 1 where
  pub D : Type 0
  pub add : D → D → D
  pub lt : D → D → Bool
  -- 0, 0.01 and BALANCE_NA
  pub zero_sum : D
  pub cent : D
  pub balance_na : D

-- The state of the operating system passes through every call.
abbrev pub M : Type 0 → Type 0 → Type 0
M Os A = Os → Os × A

infixl 5 ◌>>=◌ ◌>>◌
abbrev pub ◌>>=◌ : {Os A B : Type 0} → M Os A → (A → M Os B) → M Os B
◌>>=◌ m f s = let (t, a) = m s in f a t

abbrev pub ◌>>◌ : {Os A B : Type 0} → M Os A → M Os B → M Os B
m >> k = m >>= λ _. k

abbrev pub return : {Os A : Type 0} → A → M Os A
return a s = (s, a)

-- A file of records of one type, as db.c offers it: db_get (with the buffer before and after),
-- db_put, db_add, db_reccount, and count_crc of a record's bytes but the last four.
pub record Store (Os R : Type 0) : Type 0 where
  pub get : ℕ → ℤ → R → M Os (ℤ × R)
  pub put : ℕ → ℤ → R → M Os ℤ
  pub append : ℕ → R → M Os ℤ
  pub reccount : ℕ → M Os ℤ
  pub checksum : R → ℤ

-- The calls on a file as a whole, and the clock.
pub record System (Os : Type 0) : Type 0 where
  pub shlock : ℕ → M Os ℤ
  pub exlock : ℕ → M Os ℤ
  pub unlock : ℕ → M Os ℤ
  pub sync : ℕ → M Os ℤ
  pub time : M Os ℤ

-- The codes of db.h.
abbrev pub success : ℤ
success = pos 0

abbrev pub negative : ℤ
negative = pos 1

abbrev pub acc_unlimit : ℤ
acc_unlimit = pos 33

abbrev pub not_found : ℤ
not_found = negsuc 0

abbrev pub acc_deleted : ℤ
acc_deleted = negsuc 1

abbrev pub io_error : ℤ
io_error = negsuc 2

abbrev pub acc_broken : ℤ
acc_broken = negsuc 49

abbrev pub acc_frozen : ℤ
acc_frozen = negsuc 50

abbrev pub acc_off : ℤ
acc_off = negsuc 51

-- `accbase_t` and `logbase_t`: a file, and whether its lock is held for good (asynchronous mode).
pub record Handle : Type 0 where
  pub fd : ℕ
  pub fasync : Bool

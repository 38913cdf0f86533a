-- ===== src/Db/Memory.antt =====
-- A system that keeps its files in memory, for the tests.
use rubsd.Prelude.{
  ℕ, zero, suc, ◌≤◌, ◌≡◌, refl, inl, List, [], ◌∷◌, some, Bool, true, false, arith, length,
  length-take, ap, take, drop, ◌==◌, if◌then◌else◌,
}
use rubsd.Prelude.Int.{pos, negsuc}
use rubsd.Db.Calls.{Kernel, IsKernel, unlocked, splice}
use rubsd.Db.Slots.{take-all}

-- The bytes of each file, the place of each, and whether it is locked.
pub record Disk : Type 0 where
  pub files : ℕ → List ℕ
  pub places : ℕ → ℕ
  pub locked : ℕ → Bool

abbrev pub disk_kernel : Kernel Disk
disk_kernel = record {
  open_file = λ name writable s. (s, pos 3);
  close_file = λ fd s. (s, pos 0);
  fstat = λ fd s. (s, some (length (s.files fd)));
  lseek = λ fd n s. elim n [
    | pos p ↦ (record s { places = λ f. if f == fd then p else s.places f }, pos p)
    | negsuc p ↦ (s, negsuc 0)
  ];
  read = λ fd n s. (s, some (take n (drop (s.places fd) (s.files fd))));
  write = λ fd b s. (
    record s { files = λ f. if f == fd then splice (s.places fd) b (s.files fd) else s.files f },
    pos (length b),
  );
  flock = λ fd l s. (
    record s {
      locked = λ f. if f == fd then (elim l [ unlocked ↦ false | _ ↦ true ]) else s.locked f;
    },
    pos 0,
  );
  fsync = λ fd s. (s, pos 0);
  calloc = λ n s. (s, true);
  time = λ s. (s, pos 5000);
}

take-length : (n : ℕ) (xs : List ℕ) → take n xs ≡ take (length (take n xs)) xs
take-length zero xs = refl
take-length (suc n) [] = refl
take-length (suc n) (x ∷ xs) = ap (◌∷◌ x) (take-length n xs)

read-took :
    (n : ℕ) (file b : List ℕ) → take n file ≡ b → (length b ≤ n) × (b ≡ take (length b) file)
read-took n file b e = rw (← e) (omega (arith, length-take n file), take-length n file)

write-whole :
    (places : ℕ → ℕ) (files : ℕ → List ℕ) (fd m : ℕ) (b : List ℕ)
    → m ≡ length b
    → (if fd == fd then splice (places fd) b (files fd) else files fd)
      ≡ splice (places fd) (take m b) (files fd)
write-whole places files fd m b e =
    let whole : take m b ≡ b = take-all m b (omega arith) in
    let same : (fd == fd) ≡ true = ground arith in rw (whole, same)

pub disk-IsKernel : IsKernel disk_kernel (λ s. s.files) (λ s. s.places)
disk-IsKernel = record {
  fstat_size = λ s fd n e. cc;
  fstat_keeps = λ s fd. refl;
  lseek_refuses = λ s fd n. refl;
  lseek_moves = λ s fd n e. ground arith;
  lseek_keeps = λ s fd n. elim n as (λ x. (disk_kernel.lseek fd x s).0.files ≡ s.files) [
    | pos p ↦ refl
    | negsuc p ↦ refl
  ];
  read_bytes = λ s fd n b e. read-took n (drop (s.places fd) (s.files fd)) b (cc);
  read_keeps = λ s fd n. refl;
  write_count = λ s fd m b e. ground arith;
  write_splices = λ s fd m b e inside. write-whole s.places s.files fd m b (ground arith);
  write_fails = λ s fd n b e. cc;
  write_others = λ s fd f b ne. ground arith;
  fsync_code = λ s fd. inl refl;
  fsync_keeps = λ s fd. refl;
  flock_keeps = λ s fd l. refl;
  calloc_keeps = λ s n. refl;
  time_keeps = λ s. refl;
}

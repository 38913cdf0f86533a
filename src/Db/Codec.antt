-- ===== src/Db/Codec.antt =====
-- Records as bytes, and the records of a file.
use rubsd.Prelude.{
  ℕ, ◌/◌, ◌<◌, ◌≡◌, refl, ap, ◌⊎◌, inl, inr, List, Option, some, none, length, ltb, if◌then◌else◌,
  Option-cases,
}
use rubsd.Prelude.Int.{ℤ, pos, negsuc}
use rubsd.Db.Calls.{Kernel, IsKernel}
use rubsd.Db.Slots.{slot}
use rubsd.Db.{count_records}

-- A record as the bytes that it has in memory.
pub record Codec (R : Type 0) : Type 0 where
  pub size : ℕ
  pub encode : R → List ℕ
  pub decode : List ℕ → R
  pub size_pos : 0 < size
  pub length-encode : (r : R) → length (encode r) ≡ size
  pub decode-encode : (r : R) → decode (encode r) ≡ r

-- The record that a file holds: its bytes, if all of them are there.
abbrev pub record_in : {R : Type 0} → Codec R → List ℕ → ℤ → Option R
record_in codec file (negsuc n) = none
record_in codec file (pos n) =
    if ltb n (length file / codec.size) then some (codec.decode (slot codec.size n file)) else none

-- The records of all files.
abbrev pub records : {Os R : Type 0} → Codec R → (Os → ℕ → List ℕ) → Os → ℕ → ℤ → Option R
records codec image s fd = record_in codec (image s fd)

module _ {Os R : Type 0} (k : Kernel Os) (codec : Codec R) {image : Os → ℕ → List ℕ}
    {offset : Os → ℕ → ℕ} (law : IsKernel k image offset) where
  open codec use {size, encode, decode}

  pub count_lem :
      (s : Os) (fd : ℕ)
      → (image (count_records k size fd s).0 ≡ image s)
        × (((count_records k size fd s).1 ≡ negsuc 0)
            ⊎ ((count_records k size fd s).1 ≡ pos (length (image s fd) / size)))
  unfolding count_records
  count_lem s fd = elim (Option-cases ((k.fstat fd s).1)) [
    | inl e ↦ rw e (law.fstat_keeps s fd, inl refl)
    | inr (n, e) ↦
        rw e (law.fstat_keeps s fd, inr (ap (λ x. pos (x / size)) (law.fstat_size s fd n e)))
  ]

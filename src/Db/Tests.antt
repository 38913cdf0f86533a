-- ===== src/Db/Tests.antt =====
-- The theorems on db.c, with a system in memory.
use rubsd.Prelude.{ℕ, refl, [], ◌∷◌, some, false, arith, ◌==◌, if◌then◌else◌}
use rubsd.Prelude.Int.{pos}
use rubsd.Db.Codec.{Codec}
use rubsd.Db.Serving.{Reads, get_record_lem}
use rubsd.Db.{Seqread, no_seqread, get_record}
use rubsd.Db.Memory.{Disk, disk_kernel, disk-IsKernel}

-- A record is two bytes.
abbrev byte_pair : Codec (ℕ × ℕ)
byte_pair = record {
  size = 2;
  encode = λ r. r.0 ∷ r.1 ∷ [];
  decode = λ b. elim b [ [] ↦ (0, 0) | x ∷ rest ↦ elim rest [ [] ↦ (x, 0) | y ∷ more ↦ (x, y) ] ];
  size_pos = omega arith;
  length-encode = λ r. refl;
  decode-encode = λ r. refl;
}

-- File 3 has two records and a byte.
abbrev disk : Disk
disk = record {
  files = λ f. if f == 3 then 10 ∷ 11 ∷ 20 ∷ 21 ∷ 30 ∷ [] else [];
  places = λ f. 0;
  locked = λ f. false;
}

-- The cache of file 3, empty as yet.
abbrev sequential : Seqread
sequential = record no_seqread { fd = pos 3; cache = some (0 ∷ 0 ∷ []) }

get_record_lem_example :
    Reads disk_kernel byte_pair disk-IsKernel disk 3
      (pos 1)
      (0 ∷ 0 ∷ [])
      (get_record disk_kernel 2 3 (pos 1) (0 ∷ 0 ∷ []) (disk, sequential))
get_record_lem_example =
    get_record_lem disk_kernel byte_pair disk-IsKernel disk sequential 3 (pos 1) (0 ∷ 0 ∷ [])
      (λ own cache e ne. absurd (ne refl)) refl

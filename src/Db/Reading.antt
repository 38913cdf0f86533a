-- ===== src/Db/Reading.antt =====
-- db_get of a file that is not cached.
use mathlib.Core.Path.{subst}
use rubsd.Prelude.{
  ℕ, ◌+◌, ◌-◌, ◌*◌, ◌/◌, ◌≤◌, ◌<◌, ◌≡◌, refl, ◌∙◌, ap, ◌⊎◌, inl, inr, List, some, true, false,
  arith, length, ltb, Bool-cases, Option-cases,
}
use rubsd.Prelude.Int.{ℤ, pos, negsuc, is_neg, leb_ℤ}
use rubsd.Base.Env.{success, not_found, io_error}
use rubsd.Db.Calls.{Kernel, IsKernel}
use rubsd.Db.Slots.{slot, overlay-full, lt-div_iff, length-slot}
use rubsd.Db.{overlay, count_records, random_read, random_get}
use rubsd.Db.Codec.{Codec, records, count_lem}

-- A buffer that a record of the file has been copied to.
abbrev pub Slotted : ℕ → ℤ → List ℕ → List ℕ → List ℕ → Type 0
Slotted size rec buf file b =
    (n : ℕ) × (rec ≡ pos n) × (n * size + size ≤ length file) × (b ≡ overlay (slot size n file) buf)

module _ {Os R : Type 0} (k : Kernel Os) (codec : Codec R) {image : Os → ℕ → List ℕ}
    {offset : Os → ℕ → ℕ} (law : IsKernel k image offset) where
  open codec use {size, encode, decode}

  -- A record that is read whole, or an input/output code.
  abbrev pub Read : ℤ → List ℕ → List ℕ → ℤ × List ℕ → Type 0
  Read rec buf file r =
      (r.0 ≡ io_error)
      ⊎ ((r.0 ≡ success) × (n : ℕ) × (rec ≡ pos n) × (r.1 ≡ overlay (slot size n file) buf))

  pub random_read_lem :
      (s : Os) (fd : ℕ) (rec : ℤ) (buf : List ℕ)
      → (image (random_read k size fd rec buf s).0 ≡ image s)
        × Read rec buf (image s fd) (random_read k size fd rec buf s).1
  unfolding random_read
  random_read_lem s fd (negsuc n) buf =
      rw (law.lseek_refuses s fd ((n + 1) * size - 1)) (law.lseek_keeps s fd _, inl refl)
  random_read_lem s fd (pos n) buf =
      let (t, off) = k.lseek fd (pos (n * size)) s in
      let same = law.lseek_keeps s fd (pos (n * size)) in
      let kept = law.read_keeps t fd size ∙ same in
      elim (Bool-cases (is_neg off)) [
        | inl e ↦ rw e (same, inl refl)
        | inr e ↦ elim (Option-cases ((k.read fd size t).1)) [
          | inl none_read ↦ rw (e, none_read) (kept, inl refl)
          | inr (b, got) ↦
              let (small, bytes) = law.read_bytes t fd size b got in
              let place = law.lseek_moves s fd (n * size) e in
              elim (Bool-cases (ltb (length b) size)) [
                | inl short ↦ rw (e, got, short) (kept, inl refl)
                | inr whole ↦
                    let full : length b ≡ size = ground arith in
                    let found : b ≡ slot size n (image s fd) = cc in
                    rw (e, got, whole) (kept, inr (refl, n, refl, ap (λ x. overlay x buf) found))
              ]
        ]
      ]

  -- What db_get does: NOT_FOUND keeps the buffer, and SUCCESS is a record of the file.
  pub record Got (s : Os) (fd : ℕ) (rec : ℤ) (buf : List ℕ) (t : Os) (r : ℤ × List ℕ) : Type 0 where
    pub kept : image t ≡ image s
    pub code : (r.0 ≡ success) ⊎ (r.0 ≡ not_found) ⊎ (r.0 ≡ io_error)
    pub missed : r.0 ≡ not_found → r.1 ≡ buf
    pub loaded : r.0 ≡ success → Slotted size rec buf (image s fd) r.1

  pub Read-loaded :
      (s : Os) (fd : ℕ) (rec : ℤ) (buf : List ℕ) (r : ℤ × List ℕ)
      → Read rec buf (image s fd) r
      → leb_ℤ (pos (length (image s fd) / size)) rec ≡ false
      → r.0 ≡ success
      → Slotted size rec buf (image s fd) r.1
  Read-loaded s fd rec buf r (inl e) there ok = cc
  Read-loaded s fd rec buf r (inr (e, n, at_n, bytes)) there ok =
      let inside : n < length (image s fd) / size =
        ground
          (arith, subst (λ x. leb_ℤ (pos (length (image s fd) / size)) x ≡ false) at_n there) in
      (n, at_n, (lt-div_iff size n (length (image s fd)) codec.size_pos).0 inside, bytes)

  -- Such a buffer is the record that the file holds.
  pub Slotted-records :
      (s : Os) (fd : ℕ) (rec : ℤ) (buf b : List ℕ)
      → Slotted size rec buf (image s fd) b
      → length buf ≡ size
      → records codec image s fd rec ≡ some (decode b)
  Slotted-records s fd rec buf b (n, at_n, fits, bytes) whole =
      let long = length-slot size n (image s fd) fits in
      let test : ltb n (length (image s fd) / size) ≡ true =
        ground (arith, (lt-div_iff size n (length (image s fd)) codec.size_pos).1 fits) in
      rw (at_n, test, bytes, overlay-full (slot size n (image s fd)) buf (omega arith))

  pub random_get_lem :
      (s : Os) (fd : ℕ) (rec : ℤ) (buf : List ℕ)
      → let (t, r) = random_get k size fd rec buf s in Got s fd rec buf t r
  unfolding random_get
  random_get_lem s fd rec buf =
      let (same, counted) = count_lem k codec law s fd in
      let t = (count_records k size fd s).0 in
      let (kept, read) = random_read_lem t fd rec buf in
      elim counted [
        | inl e ↦
            rw e (record { kept = same; code = inr (inr refl); missed = λ z. cc; loaded = λ z. cc })
        | inr e ↦ elim (Bool-cases (leb_ℤ (pos (length (image s fd) / size)) rec)) [
          | inl out ↦
              rw (e, out)
                (record {
                  kept = same;
                  code = inr (inl refl);
                  missed = λ z. refl;
                  loaded = λ z. cc;
                })
          | inr there ↦
              let read' : Read rec buf (image s fd) (random_read k size fd rec buf t).1 =
                subst (λ (i : ℕ → List ℕ). Read rec buf (i fd) (random_read k size fd rec buf t).1)
                  same read in
              rw (e, there)
                (record {
                  kept = kept ∙ same;
                  code = elim read' [ inl z ↦ inr (inr z) | inr (z, _, _, _) ↦ inl z ];
                  missed = λ z. elim read' [ inl w ↦ cc | inr (w, _, _, _) ↦ cc ];
                  loaded = Read-loaded s fd rec buf _ read' there;
                })
        ]
      ]

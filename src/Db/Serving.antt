-- ===== src/Db/Serving.antt =====
-- db_get, cached or not.
use mathlib.Core.Path.{subst}
use rubsd.Prelude.{
  ℕ, ◌/◌, ◌≡◌, refl, ◌≢◌, ◌∙◌, sym, ap, ◌⊎◌, inl, inr, List, some, false, length, Bool-cases,
}
use rubsd.Prelude.Int.{ℤ, pos, leb_ℤ, eq_ℤ, eq_ℤ→eq}
use rubsd.Base.Env.{success, not_found, io_error}
use rubsd.Db.Calls.{Kernel, IsKernel}
use rubsd.Db.Codec.{Codec, records, count_lem}
use rubsd.Db.Reading.{Read, Slotted-records, Read-loaded, random_read_lem}
use rubsd.Db.Cache.{IsCoherent, Served, Served-from, cached_read_lem}
use rubsd.Db.{Seqread, count_records, random_read, get_record}

module _ {Os R : Type 0} (k : Kernel Os) (codec : Codec R) {image : Os → ℕ → List ℕ}
    {offset : Os → ℕ → ℕ} (law : IsKernel k image offset) where
  open codec use {size, decode}

  -- The cache of a file, where there is one, has what the file has.
  abbrev pub IsCurrent : Os → ℕ → Seqread → Type 0
  IsCurrent s fd q = q.fd ≡ pos fd → IsCoherent size (image s fd) q

  abbrev pub Reads : Os → ℕ → ℤ → List ℕ → (Os × Seqread) × (ℤ × List ℕ) → Type 0
  Reads s fd rec buf r =
      (image r.0.0 ≡ image s)
      × ((r.1.0 ≡ success) ⊎ (r.1.0 ≡ not_found) ⊎ (r.1.0 ≡ io_error))
      × (r.1.0 ≢ io_error → IsCurrent r.0.0 fd r.0.1)
      × (r.1.0 ≡ success → records codec image s fd rec ≡ some (decode r.1.1))

  Reads-Served :
      (s : Os) (fd : ℕ) (rec : ℤ) (buf : List ℕ) (r : (Os × Seqread) × (ℤ × List ℕ))
      → length buf ≡ size
      → Served k codec law s fd rec buf r
      → Reads s fd rec buf r
  Reads-Served s fd rec buf r whole v = (
    v.kept,
    v.code,
    (λ ne own.
        subst (λ (i : ℕ → List ℕ). IsCoherent size (i fd) r.0.1) (sym v.kept) (v.coherent ne)),
    λ z. Slotted-records k codec law s fd rec buf r.1.1 (v.loaded z) whole,
  )

  Reads-Read :
      (s : Os) (q : Seqread) (fd : ℕ) (rec : ℤ) (buf : List ℕ) (t : Os) (r : ℤ × List ℕ)
      → length buf ≡ size
      → image t ≡ image s
      → IsCurrent s fd q
      → leb_ℤ (pos (length (image s fd) / size)) rec ≡ false
      → Read k codec law rec buf (image s fd) r
      → Reads s fd rec buf ((t, q), r)
  Reads-Read s q fd rec buf t r whole same current there read = (
    same,
    elim read [ inl z ↦ inr (inr z) | inr (z, _, _, _) ↦ inl z ],
    (λ ne own. subst (λ (i : ℕ → List ℕ). IsCoherent size (i fd) q) (sym same) (current own)),
    λ z.
        Slotted-records k codec law s fd rec buf r.1
          (Read-loaded k codec law s fd rec buf r read there z) whole,
  )

  -- db_get with a buffer of a record's size, whether the file is cached or not, and whatever the
  -- system refuses or cuts short: it writes nothing, it returns SUCCESS, NOT_FOUND or IO_ERROR, on
  -- SUCCESS the buffer has the record of the file, and a cache that has what the file has still has
  -- it, unless the code is IO_ERROR.
  pub get_record_lem :
      (s : Os) (q : Seqread) (fd : ℕ) (rec : ℤ) (buf : List ℕ)
      → IsCurrent s fd q
      → length buf ≡ size
      → Reads s fd rec buf (get_record k size fd rec buf (s, q))
  unfolding get_record
  get_record_lem s q fd rec buf current whole =
      let (same, counted) = count_lem k codec law s fd in
      let t = (count_records k size fd s).0 in
      let at_fd : image t fd ≡ image s fd = ap (λ (i : ℕ → List ℕ). i fd) same in
      let current' : IsCurrent t fd q =
        λ own. subst (λ x. IsCoherent size x q) (sym at_fd) (current own) in
      elim counted [
        | inl e ↦ rw e (same, inr (inr refl), (λ ne own. absurd (ne refl)), λ z. cc)
        | inr e ↦ elim (Bool-cases (leb_ℤ (pos (length (image s fd) / size)) rec)) [
          | inl out ↦ rw (e, out) (same, inr (inl refl), (λ ne own. current' own), λ z. cc)
          | inr there ↦ elim (Bool-cases (eq_ℤ q.fd (pos fd))) [
            | inl own ↦
                rw (e, there, own)
                  (Reads-Served s fd rec buf _ whole (
                    Served-from k codec law s t fd rec buf _ same (
                      cached_read_lem k codec law t q fd rec buf
                        (current' (eq_ℤ→eq q.fd (pos fd) own)))))
            | inr other ↦
                let (kept, read) = random_read_lem k codec law t fd rec buf in
                rw (e, there, other)
                  (Reads-Read s q fd rec buf _ _ whole (kept ∙ same) current there (
                    subst (λ x. Read k codec law rec buf x (random_read k size fd rec buf t).1)
                      at_fd read))
          ]
        ]
      ]

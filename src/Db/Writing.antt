-- ===== src/Db/Writing.antt =====
-- db_put, and the write of db_add.
use mathlib.Core.Path.{subst}
use native.Mathlib.Decide.{ℕ_discrete}
use rubsd.Prelude.{
  ℕ, ◌+◌, ◌-◌, ◌*◌, ◌/◌, ◌≤◌, ◌<◌, ◌≡◌, refl, ◌≢◌, ◌∙◌, ap, ◌⊎◌, inl, inr, List, some, none, true,
  false, ◌||◌, arith, length, length-take, take, ltb, if◌then◌else◌, Bool-cases,
}
use rubsd.Prelude.Int.{ℤ, pos, negsuc, ℤ-cases, is_neg, leb_ℤ, ltb_ℤ}
use rubsd.Base.Env.{success, not_found, io_error}
use rubsd.Db.Calls.{Kernel, IsKernel, splice}
use rubsd.Db.Slots.{
  take-all, lt-div_iff, length-splice, slot-splice, slot-splice_ne, slot-splice_before,
  length-splice_over, slots_apart,
}
use rubsd.Db.{place_of, count_records, put_record}
use rubsd.Db.Codec.{Codec, record_in, records, count_lem}

module _ {Os R : Type 0} (k : Kernel Os) (codec : Codec R) {image : Os → ℕ → List ℕ}
    {offset : Os → ℕ → ℕ} (law : IsKernel k image offset) where
  open codec use {size, encode, decode}

  -- A write at the place of the record `n`, from a state whose offset is there.
  pub record Wrote (s : Os) (fd n : ℕ) (bytes : List ℕ) (t : Os) (m : ℤ) : Type 0 where
    pub here :
        is_neg m ≡ false
        → ltb_ℤ m (pos size) ≡ false
        → records codec image t fd (pos n) ≡ some (decode bytes)
    pub elsewhere :
        n * size + size ≤ length (image s fd)
        → (f : ℕ) (i : ℤ) → (f ≢ fd) ⊎ (i ≢ pos n)
        → records codec image t f i ≡ records codec image s f i
    pub behind :
        length (image s fd) < n * size + size
        → (f : ℕ) (i : ℤ) → (f ≢ fd) ⊎ (records codec image s f i ≢ none)
        → records codec image t f i ≡ records codec image s f i

  -- A write behind the last whole record keeps those that are there.
  splice-behind :
      (n m : ℕ) (b file : List ℕ)
      → n * size ≤ length file
      → length file < n * size + size
      → record_in codec file (pos m) ≢ none
      → record_in codec (splice (n * size) b file) (pos m) ≡ record_in codec file (pos m)
  splice-behind n m b file fits last there = elim (Bool-cases (ltb m (length file / size))) [
    | inr out ↦ absurd (there (rw out refl))
    | inl inside ↦
        let fit : m * size + size ≤ length file =
          (lt-div_iff size m (length file) codec.size_pos).0 (ground arith) in
        let below : m < n = elim (Bool-cases (ltb m n)) [
          | inl less ↦ ground arith
          | inr past ↦
              let more : n ≤ m = ground arith in
              let over : n * size ≤ m * size = grind arith in absurd (omega arith)
        ] in
        let apart = slots_apart size m n below in
        let long = length-splice_over (n * size) b file fits in
        let kept : ltb m (length (splice (n * size) b file) / size) ≡ true = ground (
          arith,
          (lt-div_iff size m (length (splice (n * size) b file)) codec.size_pos).1 (omega arith),
        ) in
        rw (inside, kept, slot-splice_before size n m b file fits below)
  ]

  splice-others :
      (n m : ℕ) (b file : List ℕ)
      → n * size + size ≤ length file
      → length b ≤ size
      → m ≢ n
      → record_in codec (splice (n * size) b file) (pos m) ≡ record_in codec file (pos m)
  splice-others n m b file fits small ne =
      let long = length-splice (n * size) b file (omega arith) in
      rw long (elim (Bool-cases (ltb m (length file / size))) [
        | inr out ↦ rw out
        | inl inside ↦
            let fit : m * size + size ≤ length file =
              (lt-div_iff size m (length file) codec.size_pos).0 (ground arith) in
            rw (inside, slot-splice_ne size n m b file fits small ne fit)
      ])

  pub write_lem :
      (s t : Os) (fd n : ℕ) (bytes : List ℕ)
      → image t ≡ image s
      → offset t fd ≡ n * size
      → n * size ≤ length (image s fd)
      → length bytes ≡ size
      → let (u, m) = k.write fd bytes t in Wrote s fd n bytes u m
  write_lem s t fd n bytes same place inside whole = elim (ℤ-cases (k.write fd bytes t).1) [
    | inr (e, code) ↦ record {
      here = λ p q. cc;
      elsewhere = λ fits f i ne. rw (law.write_fails t fd e bytes code, same);
      behind = λ last f i ne. rw (law.write_fails t fd e bytes code, same);
    }
    | inl (m, code) ↦
        let size_m = law.write_count t fd m bytes code in
        let at_fd : image t fd ≡ image s fd = ap (λ (i : ℕ → List ℕ). i fd) same in
        let splices =
          law.write_splices t fd m bytes code (omega (arith, place, ap length at_fd, inside)) in
        let written : image (k.write fd bytes t).0 fd
            ≡ splice (n * size) (take m bytes) (image s fd) =
          rw (place, at_fd) at splices in
        record {
          here = λ p q.
              let all : take m bytes ≡ bytes = take-all m bytes (ground (arith, code)) in
              let now : image (k.write fd bytes t).0 fd ≡ splice (n * size) bytes (image s fd) =
                cc in
              let long = length-splice_over (n * size) bytes (image s fd) inside in
              let there : ltb n (length (splice (n * size) bytes (image s fd)) / size) ≡ true =
                ground (
                  arith,
                  (lt-div_iff size n (length (splice (n * size) bytes (image s fd)))
                      codec.size_pos).1,
                ) in
              rw (now, there, slot-splice size n bytes (image s fd) inside whole);
          elsewhere = λ fits f i ne. elim (ℕ_discrete f fd) [
            | no apart ↦ rw (law.write_others t fd f bytes apart, same)
            | yes own ↦ elim (ℤ-cases i) [
              | inr (j, neg) ↦ rw neg
              | inl (j, num) ↦
                  let other : j ≢ n = λ e. elim ne [ inl x ↦ x own | inr x ↦ x (num ∙ ap pos e) ] in
                  rw (own, num, written)
                    (splice-others n j (take m bytes) (image s fd) fits
                      (omega (arith, length-take m bytes)) other)
            ]
          ];
          behind = λ last f i ne. elim (ℕ_discrete f fd) [
            | no apart ↦ rw (law.write_others t fd f bytes apart, same)
            | yes own ↦ elim (ℤ-cases i) [
              | inr (j, neg) ↦ rw neg
              | inl (j, num) ↦
                  let there : record_in codec (image s fd) (pos j) ≢ none = elim ne [
                    | inl x ↦ absurd (x own)
                    | inr x ↦ (rw (own, num) at x)
                  ] in
                  rw (own, num, written)
                    (splice-behind n j (take m bytes) (image s fd) inside last there)
            ]
          ];
        }
  ]

  seek-nonneg :
      (s : Os) (fd n : ℕ) (rec : ℤ)
      → rec ≡ negsuc n
      → is_neg (k.lseek fd (place_of size rec) s).1 ≡ false
      → ⊥
  seek-nonneg s fd n rec neg good =
      let refused = law.lseek_refuses s fd ((n + 1) * size - 1) in
      let good' = subst (λ x. is_neg (k.lseek fd (place_of size x) s).1 ≡ false) neg good in cc

  -- What db_put does: SUCCESS is a record that is written, and no other record changes.
  pub record PutDone (s : Os) (fd : ℕ) (rec : ℤ) (bytes : List ℕ) (t : Os) (c : ℤ) : Type 0 where
    pub code : (c ≡ success) ⊎ (c ≡ not_found) ⊎ (c ≡ io_error)
    pub stored : c ≡ success → records codec image t fd rec ≡ some (decode bytes)
    pub others :
        (f : ℕ) (i : ℤ)
        → (f ≢ fd) ⊎ (i ≢ rec)
        → records codec image t f i ≡ records codec image s f i

  PutDone-same :
      (s t : Os) (fd : ℕ) (rec : ℤ) (bytes : List ℕ) (c : ℤ)
      → image t ≡ image s
      → (c ≡ not_found) ⊎ (c ≡ io_error)
      → PutDone s fd rec bytes t c
  PutDone-same s t fd rec bytes c same e = record {
    code = inr e;
    stored = λ z. elim e [ inl w ↦ cc | inr w ↦ cc ];
    others = λ f i ne. rw same;
  }

  -- The code that db_put makes of what `write` answers.
  abbrev pub answer : ℤ → ℤ → ℤ
  answer ok m = if is_neg m || ltb_ℤ m (pos size) then io_error else ok

  PutDone-write :
      (s : Os) (fd n : ℕ) (rec : ℤ) (bytes : List ℕ) (t : Os) (m : ℤ)
      → rec ≡ pos n
      → n * size + size ≤ length (image s fd)
      → Wrote s fd n bytes t m
      → PutDone s fd rec bytes t (answer success m)
  PutDone-write s fd n rec bytes t m num fits w = record {
    code = ground arith;
    stored = λ z. rw num (w.here (ground arith) (ground arith));
    others = λ f i ne. w.elsewhere fits f i (subst (λ x. (f ≢ fd) ⊎ (i ≢ x)) num ne);
  }

  pub put_record_lem :
      (s : Os) (fd : ℕ) (rec : ℤ) (bytes : List ℕ)
      → length bytes ≡ size
      → let (t, c) = put_record k size fd rec bytes s in PutDone s fd rec bytes t c
  unfolding put_record
  put_record_lem s fd rec bytes whole =
      let (same, counted) = count_lem k codec law s fd in
      let t = (count_records k size fd s).0 in
      let (u, off) = k.lseek fd (place_of size rec) t in
      let same' = law.lseek_keeps t fd (place_of size rec) ∙ same in
      elim counted [
        | inl e ↦ rw e (PutDone-same s t fd rec bytes io_error same (inr refl))
        | inr e ↦ elim (Bool-cases (leb_ℤ (pos (length (image s fd) / size)) rec)) [
          | inl out ↦ rw (e, out) (PutDone-same s t fd rec bytes not_found same (inl refl))
          | inr there ↦ elim (Bool-cases (is_neg off)) [
            | inl bad ↦ rw (e, there, bad) (PutDone-same s u fd rec bytes io_error same' (inr refl))
            | inr good ↦ elim (ℤ-cases rec) [
              | inr (n, neg) ↦ absurd (seek-nonneg t fd n rec neg good)
              | inl (n, num) ↦
                  let inside : n < length (image s fd) / size = ground (
                    arith,
                    subst (λ x. leb_ℤ (pos (length (image s fd) / size)) x ≡ false) num there,
                  ) in
                  let fits = (lt-div_iff size n (length (image s fd)) codec.size_pos).0 inside in
                  let place =
                    law.lseek_moves t fd (n * size)
                      (subst (λ x. is_neg (k.lseek fd (place_of size x) t).1 ≡ false) num good) in
                  let seek : k.lseek fd (place_of size rec) t ≡ k.lseek fd (pos (n * size)) t =
                    ap (λ x. k.lseek fd (place_of size x) t) num in
                  let place' : offset u fd ≡ n * size =
                    ap (λ (x : Os × ℤ). offset x.0 fd) seek ∙ place in
                  let w = write_lem s u fd n bytes same' place' (omega (arith, fits)) whole in
                  rw (e, there, good) (PutDone-write s fd n rec bytes _ _ num fits w)
            ]
          ]
        ]
      ]

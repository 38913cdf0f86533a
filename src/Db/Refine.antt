-- ===== src/Db/Refine.antt =====
-- db.c, on files that it does not cache, is the store of records that the account base relies on.
use native.Mathlib.Nat.{div-mul-le_self}
use rubsd.Prelude.{
  ℕ, ◌*◌, ◌/◌, ◌≡◌, ◌<◌, ◌+◌, ◌≢◌, ◌⊎◌, refl, ltb, false, none, ◌∙◌, ap, inl, inr, List, Option,
  some, arith, length, Bool-cases,
}
use rubsd.Prelude.Int.{ℤ, pos, is_neg}
use rubsd.Base.Env.{M, ◌>>=◌, return, Store, io_error}
use rubsd.Base.Laws.{IsStore}
use rubsd.Db.Calls.{Kernel, IsKernel, shared, exclusive, unlocked}
use rubsd.Db.{count_records, random_get, put_record, add_record, system}
use rubsd.Db.Slots.{lt-div_iff}
use rubsd.Db.Codec.{Codec, record_in, records, count_lem}
use rubsd.Db.Reading.{Slotted-records, random_get_lem}
use rubsd.Db.Writing.{Wrote, write_lem, put_record_lem, answer}

module _ {Os R : Type 0} (k : Kernel Os) (codec : Codec R) where
  open codec use {size, encode, decode}

  -- db_get, db_put and db_add, as a caller with a record in place of its bytes uses them.
  abbrev pub get_bytes : ℕ → ℤ → R → M Os (ℤ × R)
  get_bytes fd rec buf = do
    (code, bytes) ← random_get k size fd rec (encode buf)
    return (code, decode bytes)

  abbrev pub record_store : (R → ℤ) → Store Os R
  record_store checksum = record {
    get = get_bytes;
    put = λ fd rec r. put_record k size fd rec (encode r);
    append = λ fd r. add_record k size fd (encode r);
    reccount = count_records k size;
    checksum = checksum;
  }

module _ {Os R : Type 0} (k : Kernel Os) (codec : Codec R) {image : Os → ℕ → List ℕ}
    {offset : Os → ℕ → ℕ} (law : IsKernel k image offset) where
  open codec use {size, encode, decode}

  -- What db_add does: the number that it returns was free, and has the record, and no record that was
  -- there changes.
  record Appended (s : Os) (fd : ℕ) (bytes : List ℕ) (t : Os) (c : ℤ) : Type 0 where
    pub stored : (n : ℕ) → c ≡ pos n → records codec image t fd (pos n) ≡ some (decode bytes)
    pub new : (n : ℕ) → c ≡ pos n → records codec image s fd (pos n) ≡ none
    pub others :
        (f : ℕ) (i : ℤ)
        → (f ≢ fd) ⊎ (records codec image s f i ≢ none)
        → records codec image t f i ≡ records codec image s f i

  Appended-same :
      (s t : Os) (fd : ℕ) (bytes : List ℕ) → image t ≡ image s → Appended s fd bytes t io_error
  Appended-same s t fd bytes same = record {
    stored = λ n e. cc;
    new = λ n e. cc;
    others = λ f i ne. rw same;
  }

  Appended-write :
      (s : Os) (fd last : ℕ) (bytes : List ℕ) (t : Os) (m : ℤ)
      → last ≡ length (image s fd) / size
      → Wrote k codec law s fd last bytes t m
      → Appended s fd bytes t (answer k codec law (pos last) m)
  Appended-write s fd last bytes t m count w =
      let behind : length (image s fd) < last * size + size =
        let past = lt-div_iff size last (length (image s fd)) codec.size_pos in
        ground (arith, past.1) in
      record {
        stored = λ n e.
            let same : last ≡ n = ground arith in
            rw (← same) (w.here (ground arith) (ground arith));
        new = λ n e.
            let same : last ≡ n = ground arith in
            let free : ltb n (length (image s fd) / size) ≡ false = ground arith in rw free refl;
        others = w.behind behind;
      }

  add_record_lem :
      (s : Os) (fd : ℕ) (bytes : List ℕ)
      → length bytes ≡ size
      → let (t, c) = add_record k size fd bytes s in Appended s fd bytes t c
  unfolding add_record
  add_record_lem s fd bytes whole =
      let (same, counted) = count_lem k codec law s fd in
      let t = (count_records k size fd s).0 in
      let last = length (image s fd) / size in
      let (u, off) = k.lseek fd (pos (last * size)) t in
      let same' = law.lseek_keeps t fd (pos (last * size)) ∙ same in
      elim counted [
        | inl e ↦ rw e (Appended-same s t fd bytes same)
        | inr e ↦ elim (Bool-cases (is_neg off)) [
          | inl bad ↦ rw (e, bad) (Appended-same s u fd bytes same')
          | inr good ↦
              let place = law.lseek_moves t fd (last * size) good in
              let w =
                write_lem k codec law s u fd last bytes same' place
                  (div-mul-le_self (length (image s fd)) size) whole in
              rw (e, good) (Appended-write s fd last bytes _ _ refl w)
        ]
      ]

  records-cong : {t s : Os} → image t ≡ image s → records codec image t ≡ records codec image s
  records-cong e = ap {B = ℕ → ℤ → Option R} (λ (i : ℕ → List ℕ) f. record_in codec (i f)) e

  pub record_store-IsStore :
      (checksum : R → ℤ) → IsStore (system k) (record_store k codec checksum) (records codec image)
  unfolding system
  record_store-IsStore checksum = record {
    get_code = λ s fd rec buf. (random_get_lem k codec law s fd rec (encode buf)).code;
    get_misses = λ s fd rec buf e.
        ap decode ((random_get_lem k codec law s fd rec (encode buf)).missed e)
        ∙ codec.decode-encode buf;
    get_loads = λ s fd rec buf e.
        Slotted-records k codec law s fd rec (encode buf) _
          ((random_get_lem k codec law s fd rec (encode buf)).loaded e) (codec.length-encode buf);
    get_keeps =
        λ s fd rec buf. records-cong (random_get_lem k codec law s fd rec (encode buf)).kept;
    put_code =
        λ s fd rec r. (put_record_lem k codec law s fd rec (encode r) (codec.length-encode r)).code;
    put_stores = λ s fd rec r e.
        (put_record_lem k codec law s fd rec (encode r) (codec.length-encode r)).stored e
        ∙ ap some (codec.decode-encode r);
    put_others = λ s fd rec r f n ne.
        (put_record_lem k codec law s fd rec (encode r) (codec.length-encode r)).others f n ne;
    append_stores = λ s fd r n e.
        (add_record_lem s fd (encode r) (codec.length-encode r)).stored n e
        ∙ ap some (codec.decode-encode r);
    append_new = λ s fd r. (add_record_lem s fd (encode r) (codec.length-encode r)).new;
    append_others = λ s fd r. (add_record_lem s fd (encode r) (codec.length-encode r)).others;
    reccount_keeps = λ s fd. records-cong (count_lem k codec law s fd).0;
    time_keeps = λ s. records-cong (law.time_keeps s);
    sync_code = λ s fd. law.fsync_code s fd;
    sync_keeps = λ s fd. records-cong (law.fsync_keeps s fd);
    shlock_keeps = λ s fd. records-cong (law.flock_keeps s fd shared);
    exlock_keeps = λ s fd. records-cong (law.flock_keeps s fd exclusive);
    unlock_keeps = λ s fd. records-cong (law.flock_keeps s fd unlocked);
  }

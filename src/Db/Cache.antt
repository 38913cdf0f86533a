-- ===== src/Db/Cache.antt =====
-- The cached reading of db_get.
use mathlib.Core.Path.{subst}
use native.Mathlib.Nat.{div-mul-le_self, le-div_iff_mul-le}
use rubsd.Prelude.{
  ℕ, ◌+◌, ◌-◌, ◌*◌, ◌/◌, ◌≤◌, ◌<◌, ◌≡◌, refl, ◌≢◌, ◌∙◌, sym, ap, ◌⊎◌, inl, inr, List, ◌++◌, some,
  true, arith, length, length-take, length-drop, length-append, replicate, take, drop, ltb,
  Bool-cases, Option-cases,
}
use rubsd.Prelude.Int.{ℤ, pos, negsuc, pos_part, is_neg, ◌+ℤ◌, ◌-ℤ◌}
use rubsd.Prelude.Cells.{at, at-append_left, at-take, at-drop, cells-ext}
use rubsd.Base.Env.{success, not_found, io_error}
use rubsd.Db.Calls.{Kernel, IsKernel, shared, unlocked}
use rubsd.Db.Slots.{slot, length-slot, slots_apart}
use rubsd.Db.Codec.{Codec}
use rubsd.Db.Reading.{Slotted, Got, random_get_lem}
use rubsd.Db.{Seqread, cache_recs, overlay, is_hit, cached_record, fill, cached_read}

-- What the cache says of a file: its records are those of the file from `first` on.
pub record Covers (size : ℕ) (file : List ℕ) (q : Seqread) (cache : List ℕ) : Type 0 where
  pub start : ℕ
  pub at_start : q.first ≡ pos start
  pub inside : start * size + q.recs * size ≤ length file
  pub same : (i : ℕ) → i < q.recs * size → at cache i ≡ at file (start * size + i)
  pub long : q.recs * size ≤ length cache

abbrev pub IsCoherent : ℕ → List ℕ → Seqread → Type 0
IsCoherent size file q =
    (cache : List ℕ) → q.cache ≡ some cache → q.recs ≢ 0 → Covers size file q cache

at-append-take :
    (b c d : List ℕ) (i : ℕ) → b ≡ take (length b) d → i < length b → at (b ++ c) i ≡ at d i
at-append-take b c d i e p = at-append_left b c i p ∙ ap (λ x. at x i) e ∙ at-take (length b) d i p

mul-split : (a d size : ℕ) → (a + d) * size ≡ a * size + d * size
mul-split a d size = grind arith

-- A record that the cache has is the file's.
hit_lem :
    (size : ℕ) (file : List ℕ) (q : Seqread) (cache : List ℕ) (rec : ℤ)
    → Covers size file q cache
    → is_hit q rec ≡ true
    → (n : ℕ) × (rec ≡ pos n)
      × (n * size + size ≤ length file)
      × (cached_record size q cache rec ≡ slot size n file)
unfolding is_hit cached_record ◌+ℤ◌ ◌-ℤ◌
hit_lem size file q cache (negsuc m) c h = absurd (ground (arith, c.at_start))
hit_lem size file q cache (pos n) c h =
    let low : c.start ≤ n = ground (arith, c.at_start) in
    let high : n < c.start + q.recs = ground (arith, c.at_start) in
    let d = n - c.start in
    let place : n * size ≡ c.start * size + d * size =
      ap (λ x. x * size) (omega arith) ∙ mul-split c.start d size in
    let below = slots_apart size d q.recs (omega arith) in
    let fits : n * size + size ≤ length file = omega (arith, c.inside) in
    let d_eq : pos_part (pos n -ℤ q.first) ≡ d = ground (arith, c.at_start) in
    let old_size = length-slot size n file fits in
    let got = take size (drop (d * size) cache) in
    let new_size : length got ≡ size =
      omega
        (arith, length-take size (drop (d * size) cache), length-drop (d * size) cache, c.long) in
    (
      n,
      refl,
      fits,
      rw d_eq (
          cells-ext got (slot size n file) (omega arith) λ i p. ground (
            arith,
            at-take size (drop (d * size) cache) i,
            at-drop (d * size) cache i,
            at-take size (drop (n * size) file) i,
            at-drop (n * size) file i,
            c.same (d * size + i),
          )),
    )

hit-first : (q : Seqread) (n : ℕ) → q.first ≡ pos n → 1 ≤ q.recs → is_hit q (pos n) ≡ true
unfolding is_hit ◌+ℤ◌
hit-first q n e h = ground arith

first-cached :
    (size : ℕ) (q : Seqread) (cache : List ℕ) (n : ℕ)
    → q.first ≡ pos n
    → cached_record size q cache (pos n) ≡ take size cache
unfolding cached_record ◌-ℤ◌
first-cached size q cache n e =
    let none_before : pos_part (pos n -ℤ q.first) ≡ 0 = ground arith in
    let zeroth : 0 * size ≡ 0 = omega arith in rw (none_before, zeroth)

hit-recs : (q : Seqread) (rec : ℤ) → is_hit q rec ≡ true → q.recs ≢ 0
unfolding is_hit
hit-recs q rec h = ground arith

some-inj : (a b : List ℕ) → some a ≡ some b → a ≡ b
some-inj a b e = cc

module _ {Os R : Type 0} (k : Kernel Os) (codec : Codec R) {image : Os → ℕ → List ℕ}
    {offset : Os → ℕ → ℕ} (law : IsKernel k image offset) where
  open codec use {size}

  -- What a cached read does: SUCCESS is a record of the file, and but for an input/output error the
  -- cache says what the file has.
  pub record Served (s : Os) (fd : ℕ) (rec : ℤ) (buf : List ℕ) (r : (Os × Seqread) × (ℤ × List ℕ))
      : Type 0 where
    pub kept : image r.0.0 ≡ image s
    pub code : (r.1.0 ≡ success) ⊎ (r.1.0 ≡ not_found) ⊎ (r.1.0 ≡ io_error)
    pub coherent : r.1.0 ≢ io_error → IsCoherent size (image s fd) r.0.1
    pub loaded : r.1.0 ≡ success → Slotted size rec buf (image s fd) r.1.1

  pub Served-error :
      (s t : Os) (q : Seqread) (fd : ℕ) (rec : ℤ) (buf : List ℕ)
      → image t ≡ image s
      → Served s fd rec buf ((t, q), (io_error, buf))
  Served-error s t q fd rec buf same = record {
    kept = same;
    code = inr (inr refl);
    coherent = λ ne. absurd (ne refl);
    loaded = λ z. cc;
  }

  -- The bytes that were read are those of the file from `n` on, at least a record of them.
  filled-Covers :
      (file b cache : List ℕ) (n : ℕ) (q : Seqread)
      → b ≡ take (length b) (drop (n * size) file)
      → size ≤ length b
      → q.first ≡ pos n
      → q.recs ≡ length b / size
      → Covers size file q (overlay b cache)
  filled-Covers file b cache n q bytes enough first recs =
      let whole : q.recs * size ≤ length b = rw recs (div-mul-le_self (length b) size) in
      let short : length b ≤ length file - n * size = omega (
        arith,
        ap length bytes,
        length-take (length b) (drop (n * size) file),
        length-drop (n * size) file,
      ) in
      record {
        start = n;
        at_start = first;
        inside = omega arith;
        same = λ i p.
            at-append-take b (drop (length b) cache) (drop (n * size) file) i bytes (omega arith)
            ∙ at-drop (n * size) file i;
        long = omega (arith, length-append b (drop (length b) cache));
      }

  filled-Served :
      (s t : Os) (fd n : ℕ) (buf full : List ℕ) (q : Seqread)
      → image t ≡ image s
      → Covers size (image s fd) q full
      → q.first ≡ pos n
      → q.cache ≡ some full
      → 1 ≤ q.recs
      → Served s fd (pos n) buf ((t, q), (success, overlay (take size full) buf))
  filled-Served s t fd n buf full q same c first held some_recs =
      let hit : is_hit q (pos n) ≡ true = hit-first q n first some_recs in
      let (m, at_m, fits, slots) = hit_lem size (image s fd) q full (pos n) c hit in
      record {
        kept = same;
        code = inl refl;
        coherent = λ ne other e ne'.
            subst (Covers size (image s fd) q) (some-inj full other (sym held ∙ e)) c;
        loaded = λ z. (
          m,
          at_m,
          fits,
          ap (λ x. overlay x buf) (sym (first-cached size q full n first) ∙ slots),
        );
      }

  fill_lem :
      (s : Os) (q : Seqread) (fd : ℕ) (rec : ℤ) (buf cache : List ℕ)
      → Served s fd rec buf (fill k size fd rec buf cache (s, q))
  unfolding fill
  fill_lem s q fd (negsuc m) buf cache =
      let t = (k.flock fd shared s).0 in
      rw (law.lseek_refuses t fd ((m + 1) * size - 1)) (
        Served-error s _ q fd (negsuc m) buf (law.lseek_keeps t fd _ ∙ law.flock_keeps s fd shared))
  fill_lem s q fd (pos n) buf cache =
      let t = (k.flock fd shared s).0 in
      let (u, off) = k.lseek fd (pos (n * size)) t in
      let at_u = law.lseek_keeps t fd (pos (n * size)) ∙ law.flock_keeps s fd shared in
      let (v, bytes) = k.read fd (size * cache_recs) u in
      let at_v = law.read_keeps u fd (size * cache_recs) ∙ at_u in
      let at_w = law.flock_keeps v fd unlocked ∙ at_v in
      elim (Bool-cases (is_neg off)) [
        | inl e ↦ rw e (Served-error s u q fd (pos n) buf at_u)
        | inr e ↦ elim (Option-cases bytes) [
          | inl nothing ↦ rw (e, nothing) (Served-error s _ q fd (pos n) buf at_w)
          | inr (b, got) ↦
              let (_, read) = law.read_bytes u fd (size * cache_recs) b got in
              let place = law.lseek_moves t fd (n * size) e in
              let found : b ≡ take (length b) (drop (n * size) (image s fd)) =
                rw (place, ap (λ (i : ℕ → List ℕ). i fd) at_u) at read in
              elim (Bool-cases (ltb (length b) size)) [
                | inl short ↦ rw (e, got, short) (Served-error s _ _ fd (pos n) buf at_w)
                | inr whole ↦
                    let full = overlay b cache in
                    let q' : Seqread = record q {
                      cache = some full;
                      first = pos n;
                      recs = length b / size;
                    } in
                    let enough : size ≤ length b = ground arith in
                    let c = filled-Covers (image s fd) b cache n q' found enough refl refl in
                    rw (e, got, whole)
                      (filled-Served s _ fd n buf full q' at_w c refl refl (
                        (le-div_iff_mul-le {k = size} {x = 1} {y = length b} codec.size_pos).1
                          (omega arith)))
              ]
        ]
      ]

  pub Served-from :
      (s t : Os) (fd : ℕ) (rec : ℤ) (buf : List ℕ) (r : (Os × Seqread) × (ℤ × List ℕ))
      → image t ≡ image s
      → Served t fd rec buf r
      → Served s fd rec buf r
  Served-from s t fd rec buf r same v =
      let at_fd : image t fd ≡ image s fd = ap (λ (i : ℕ → List ℕ). i fd) same in
      record {
        kept = v.kept ∙ same;
        code = v.code;
        coherent = λ ne. subst (λ x. IsCoherent size x r.0.1) at_fd (v.coherent ne);
        loaded = λ z. subst (λ x. Slotted size rec buf x r.1.1) at_fd (v.loaded z);
      }

  Got-Served :
      (s : Os) (q : Seqread) (fd : ℕ) (rec : ℤ) (buf : List ℕ) (t : Os) (r : ℤ × List ℕ)
      → Got k codec law s fd rec buf t r
      → IsCoherent size (image s fd) q
      → Served s fd rec buf ((t, q), r)
  Got-Served s q fd rec buf t r g coherent = record {
    kept = g.kept;
    code = g.code;
    coherent = λ ne. coherent;
    loaded = g.loaded;
  }

  -- After a count that says that there is such a record.
  pub cached_read_lem :
      (s : Os) (q : Seqread) (fd : ℕ) (rec : ℤ) (buf : List ℕ)
      → IsCoherent size (image s fd) q
      → Served s fd rec buf (cached_read k size fd rec buf (s, q))
  unfolding cached_read
  cached_read_lem s q fd rec buf coherent = elim (Option-cases (q.cache)) [
    | inr (cache, held) ↦ elim (Bool-cases (is_hit q rec)) [
      | inr miss ↦ rw (held, miss) (fill_lem s q fd rec buf cache)
      | inl hit ↦
          let c = coherent cache held (hit-recs q rec hit) in
          let (n, at_n, fits, found) = hit_lem size (image s fd) q cache rec c hit in
          rw (held, hit)
            (record {
              kept = refl;
              code = inl refl;
              coherent = λ ne. coherent;
              loaded = λ z. (n, at_n, fits, ap (λ x. overlay x buf) found);
            })
    ]
    | inl empty ↦
        let (t, granted) = k.calloc (size * cache_recs) s in
        let same = law.calloc_keeps s (size * cache_recs) in
        let zeroes : List ℕ = replicate (size * cache_recs) 0 in
        let q' : Seqread = record q { cache = some zeroes } in
        let off : Seqread = record q { fd = negsuc 0 } in
        elim (Bool-cases granted) [
          | inl yes_mem ↦
              rw (empty, yes_mem)
                (Served-from s t fd rec buf _ same (fill_lem t q' fd rec buf zeroes))
          | inr no_mem ↦
              rw (empty, no_mem)
                (Served-from s t fd rec buf _ same (
                  Got-Served t off fd rec buf _ _ (random_get_lem k codec law t fd rec buf)
                    (λ cache e. cc)))
        ]
  ]

-- ===== src/Acc/Trans/Merging.antt =====
-- The log's part of acc_trans: an entry is merged into an earlier one, or added.
use rubsd.Prelude.{
  ℕ, zero, suc, ◌+◌, ◌<◌, ◌≡◌, refl, sym, ap, ◌∙◌, ◌≢◌, ◌⊎◌, inl, inr, true, false, Option, some,
  arith, Bool-cases, if◌then◌else◌,
}
use rubsd.Prelude.Int.{ℤ, pos, negsuc, is_neg, eq_ℤ, eq_ℤ→eq}
use rubsd.Base.Env.{Double, Store, System, Handle, success}
use rubsd.Base.Record.{Logrec}
use rubsd.Base.Laws.{IsStore}
use rubsd.Log
use rubsd.Acc.Trans.{same_step, mergeable, merged, merge_down, uint_max}

module _ (d : Double) where
  -- What may be merged adds up: the traffic of the two entries, with no wrap in the `u_int`, and
  -- the sum of money. The merged entry keeps the number, the time and the data of the old one.
  pub merged_adds :
      (new old : Logrec d)
      → mergeable d new old ≡ true
      → let m = merged d new old in
        (m.isdata.value ≡ old.isdata.value + new.isdata.value)
        × (m.isdata.value < uint_max)
        × (m.sum ≡ d.add old.sum new.sum)
        × (m.accno ≡ new.accno)
        × (m.serrno ≡ new.serrno)
        × (m.isdata.res_id ≡ new.isdata.res_id)
        × (m.isdata.host ≡ new.isdata.host)
        × (m.time ≡ old.time)
  unfolding merged mergeable
  merged_adds new old h = ground arith

  module _ {Os : Type 0} (sys : System Os) (logs : Store Os (Logrec d))
      {content : Os → ℕ → ℤ → Option (Logrec d)} (law : IsStore sys logs content) where
    logi_get_lem :
        (base : Handle) (rec : ℤ) (buf : Logrec d) (s : Os)
        → let (t, (code, r)) = Log.logi_get sys d logs base rec buf s in
          (content t ≡ content s)
          × (code ≡ success → content s base.fd rec ≡ some r)
          × ((code ≡ success) ⊎ (is_neg code ≡ true))
    unfolding Log.logi_get
    logi_get_lem base rec buf s = (
      ground (arith, law.get_keeps s base.fd rec buf),
      (λ e. ground (arith, law.get_code s base.fd rec buf, law.get_loads s base.fd rec buf)),
      ground (arith, law.get_code s base.fd rec buf),
    )

    -- An entry as the log stores it.
    abbrev pub sealed : Logrec d → Logrec d
    sealed r = record r { crc = logs.checksum r }

    logi_put_lem :
        (base : Handle) (rec : ℤ) (r : Logrec d) (s : Os)
        → let (t, (code, out)) = Log.logi_put sys d logs base rec r s in
          is_neg code ≡ false
          → (content t base.fd rec ≡ some (sealed r))
            × ((n : ℤ) → n ≢ rec → content t base.fd n ≡ content s base.fd n)
    unfolding Log.logi_put
    logi_put_lem base rec r s h = (
      ground
          (arith, law.put_code s base.fd rec (sealed r), law.put_stores s base.fd rec (sealed r)),
      λ n ne. ground (arith, law.put_others s base.fd rec (sealed r) base.fd n (inr ne)),
    )

    -- What a merge that worked has done: entry `m`, the one that was there and fits, now is the
    -- merged entry, and no other entry of the log is changed.
    abbrev pub HasMerged : ℕ → ℕ → Logrec d → Os → Os → Type 0
    HasMerged n fd new s t =
        (m : ℕ) × (old : Logrec d) × (m < n)
        × (content s fd (pos m) ≡ some old)
        × (same_step d new old ≡ true)
        × (mergeable d new old ≡ true)
        × (content t fd (pos m) ≡ some (sealed (merged d new old)))
        × ((k : ℤ) → k ≢ pos m → content t fd k ≡ content s fd k)

    merge_down-step :
        (n : ℕ) (base : Handle) (new buf : Logrec d) (rc : ℤ) (s : Os)
        → let (t, (code, old)) = Log.logi_get sys d logs base (pos n) buf s in
          let (u, (put_code, out)) = Log.logi_put sys d logs base (pos n) (merged d new old) t in
          merge_down d sys logs (suc n) base new buf rc s ≡ (
            if eq_ℤ code success
            then (if same_step d new old
                then (if mergeable d new old
                    then (u, put_code)
                    else merge_down d sys logs n base new old (negsuc 0) t)
                else (t, negsuc 0))
            else merge_down d sys logs n base new old code t)
    unfolding merge_down
    merge_down-step n base new buf rc s = ground arith

    HasMerged-grow :
        (n fd : ℕ) (new : Logrec d) (s t u : Os)
        → content t ≡ content s
        → HasMerged n fd new t u
        → HasMerged (suc n) fd new s u
    HasMerged-grow n fd new s t u same (m, old, low, there, step, fits, stored, others) = (
      m,
      old,
      omega arith,
      ap (λ (c : ℕ → ℤ → Option (Logrec d)). c fd (pos m)) (sym same) ∙ there,
      step,
      fits,
      stored,
      λ k ne. others k ne ∙ ap (λ (c : ℕ → ℤ → Option (Logrec d)). c fd k) same,
    )

    -- The search for an entry to merge into answers with a code that is not negative only after it
    -- has merged the new entry into one of the `n` entries, of the same step and alike, and has
    -- changed no other.
    pub merge_down_merges :
        (n : ℕ) (base : Handle) (new buf : Logrec d) (rc : ℤ) (s : Os)
        → is_neg rc ≡ true
        → is_neg (merge_down d sys logs n base new buf rc s).1 ≡ false
        → HasMerged n base.fd new s (merge_down d sys logs n base new buf rc s).0
    unfolding merge_down
    merge_down_merges zero base new buf rc s neg h = cc
    merge_down_merges (suc n) base new buf rc s neg h =
        let (t, (code, old)) = Log.logi_get sys d logs base (pos n) buf s in
        let (same, there, sort) = logi_get_lem base (pos n) buf s in
        let step = merge_down-step n base new buf rc s in
        elim (Bool-cases (eq_ℤ code success)) [
          | inr failed ↦
              let neg' : is_neg code ≡ true = ground (arith, sort) in
              let h' = rw (step, failed) at h in
              rw (step, failed)
                (HasMerged-grow n base.fd new s t _ same
                  (merge_down_merges n base new old code t neg' h'))
          | inl read ↦ elim (Bool-cases (same_step d new old)) [
            | inr far ↦ let h' = rw (step, read, far) at h in cc
            | inl near ↦ elim (Bool-cases (mergeable d new old)) [
              | inr unlike ↦
                  let h' = rw (step, read, near, unlike) at h in
                  rw (step, read, near, unlike)
                    (HasMerged-grow n base.fd new s t _ same
                      (merge_down_merges n base new old (negsuc 0) t refl h'))
              | inl alike ↦
                  let h' = rw (step, read, near, alike) at h in
                  let (stored, others) = logi_put_lem base (pos n) (merged d new old) t h' in
                  rw (step, read, near, alike)
                    (
                      n,
                      old,
                      omega arith,
                      there (eq_ℤ→eq code success read),
                      near,
                      alike,
                      stored,
                      λ k ne.
                          others k ne ∙ ap (λ (c : ℕ → ℤ → Option (Logrec d)). c base.fd k) same,
                    )
            ]
          ]
        ]

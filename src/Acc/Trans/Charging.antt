-- ===== src/Acc/Trans/Charging.antt =====
-- The account's part of acc_trans.
use mathlib.Core.Path.{subst}
use rubsd.Prelude.{
  ℕ, zero, suc, ◌≡◌, refl, sym, ap, ◌∙◌, ◌≢◌, ◌⊎◌, inl, inr, true, false, Option, some, arith, not,
  if◌then◌else◌, Bool-cases,
}
use rubsd.Prelude.Int.{ℤ, is_neg, eq_ℤ, eq_ℤ→eq}
use rubsd.Base.Env.{
  Double, Store, System, Handle, success, not_found, io_error, acc_broken, acc_off, acc_unlimit,
  negative, acc_deleted, acc_frozen,
}
use rubsd.Base.Record.{Acc}
use rubsd.Base.Laws.{IsStore}
use rubsd.Acc.State.{balance_state, check, acci_get, stamped, acci_put}
use rubsd.Acc.State.Storing.{acci_put_lem}
use rubsd.Acc.Trans.{charges, writes_back, logs_balance, charged, retry_get, retry_put, charge}

module _ (d : Double) {Os : Type 0} (sys : System Os) (accs : Store Os (Acc d))
    {content : Os → ℕ → ℤ → Option (Acc d)} (law : IsStore sys accs content) where
  open d use {D}

  io_error-ne-success : io_error ≢ success
  io_error-ne-success e = cc

  -- What a load left: a record of the file and the verdict on it, or an input/output code and no
  -- record.
  abbrev pub Loaded : ℕ → ℤ → Os → ℤ × Acc d → Type 0
  Loaded fd rec s r =
      ((acc : Acc d) × (ctime : ℤ) × (content s fd rec ≡ some acc)
        × (r ≡ check d (accs.checksum acc) ctime rec acc))
      ⊎ (r.0 ≡ not_found)
      ⊎ (r.0 ≡ io_error)

  acci_get_lem :
      (base : Handle) (rec : ℤ) (buf : Acc d) (s : Os)
      → Loaded base.fd rec s (acci_get d sys accs base rec buf s).1
        × (content (acci_get d sys accs base rec buf s).0 ≡ content s)
  unfolding acci_get
  acci_get_lem base rec buf s =
      let now = sys.time s in
      let got = accs.get base.fd rec buf now.0 in
      let kept = law.get_keeps now.0 base.fd rec buf ∙ law.time_keeps s in
      elim (law.get_code now.0 base.fd rec buf) [
        | inl e ↦
            let here =
              ap (λ (c : ℕ → ℤ → Option (Acc d)). c base.fd rec) (sym (law.time_keeps s)) in
            let loaded = here ∙ law.get_loads now.0 base.fd rec buf e in
            rw e (inl (got.1.1, now.1, loaded, refl), kept)
        | inr (inl e) ↦ rw e (inr (inl refl), kept)
        | inr (inr e) ↦ rw e (inr (inr refl), kept)
      ]

  pub retry_get-step :
      (n : ℕ) (base : Handle) (rec : ℤ) (last : ℤ × Acc d) (s : Os)
      → let (t, r) = acci_get d sys accs base rec last.1 s in
        retry_get d sys accs (suc n) base rec last s
        ≡ (if eq_ℤ r.0 io_error then retry_get d sys accs n base rec r t else (t, r))
  unfolding retry_get
  retry_get-step n base rec last s = ground arith

  pub retry_get_lem :
      (n : ℕ) (base : Handle) (rec : ℤ) (last : ℤ × Acc d) (s : Os)
      → (n ≡ 0 → last.0 ≡ io_error)
      → Loaded base.fd rec s (retry_get d sys accs n base rec last s).1
        × (content (retry_get d sys accs n base rec last s).0 ≡ content s)
  unfolding retry_get
  retry_get_lem zero base rec last s h = (inr (inr (h refl)), refl)
  retry_get_lem (suc n) base rec last s h =
      let (t, r) = acci_get d sys accs base rec last.1 s in
      let (loaded, kept) = acci_get_lem base rec last.1 s in
      elim (Bool-cases (eq_ℤ r.0 io_error)) [
        | inl e ↦
            let (later, same) = retry_get_lem n base rec r t (λ z. eq_ℤ→eq r.0 io_error e) in
            rw (retry_get-step n base rec last s, e) ((rw kept at later), same ∙ kept)
        | inr e ↦ rw (retry_get-step n base rec last s, e) (loaded, kept)
      ]

  -- `out` is `acc` but for its time of change and its CRC.
  abbrev pub Rewritten : Acc d → Acc d → Type 0
  Rewritten acc out = record out { upd_time = acc.upd_time; crc = acc.crc } ≡ acc

  Rewritten-trans : (a b c : Acc d) → Rewritten a b → Rewritten b c → Rewritten a c
  Rewritten-trans a b c p q =
      ap (λ (x : Acc d). record x { upd_time = a.upd_time; crc = a.crc }) q ∙ p

  acci_put-Rewritten :
      (base : Handle) (rec : ℤ) (acc : Acc d) (s : Os)
      → Rewritten acc (acci_put d sys accs base rec acc s).1.1
  unfolding acci_put stamped
  acci_put-Rewritten base rec acc s = ground arith

  -- acci_put and its retries answer with one of three codes.
  abbrev PutCode : ℤ → Type 0
  PutCode rc = (rc ≡ success) ⊎ (rc ≡ not_found) ⊎ (rc ≡ io_error)

  acci_put-code :
      (base : Handle) (rec : ℤ) (acc : Acc d) (s : Os)
      → PutCode (acci_put d sys accs base rec acc s).1.0
  unfolding acci_put
  acci_put-code base rec acc s =
      let now = sys.time s in
      let out = stamped d sys accs now.1 acc in
      ground (
        arith,
        law.put_code now.0 base.fd rec out,
        law.sync_code (accs.put base.fd rec out now.0).0 base.fd,
      )

  retry_put-step :
      (n : ℕ) (base : Handle) (rec : ℤ) (last : ℤ × Acc d) (s : Os)
      → let (t, r) = acci_put d sys accs base rec last.1 s in
        retry_put d sys accs (suc n) base rec last s
        ≡ (if eq_ℤ r.0 io_error then retry_put d sys accs n base rec r t else (t, r))
  unfolding retry_put
  retry_put-step n base rec last s = ground arith

  pub retry_put_lem :
      (n : ℕ) (base : Handle) (rec : ℤ) (last : ℤ × Acc d) (s : Os)
      → (n ≡ 0 → last.0 ≡ io_error)
      → let (t, (rc, out)) = retry_put d sys accs n base rec last s in
        rc ≡ success → Rewritten last.1 out × (content t base.fd rec ≡ some out)
  unfolding retry_put
  retry_put_lem zero base rec last s h e = absurd (io_error-ne-success (sym (h refl) ∙ e))
  retry_put_lem (suc n) base rec last s h e =
      let (t, r) = acci_put d sys accs base rec last.1 s in
      let one = acci_put-Rewritten base rec last.1 s in
      elim (Bool-cases (eq_ℤ r.0 io_error)) [
        | inl again ↦
            let e' = rw (retry_put-step n base rec last s, again) at e in
            let (later, stored) =
              retry_put_lem n base rec r t (λ z. eq_ℤ→eq r.0 io_error again) e' in
            rw (retry_put-step n base rec last s, again)
              (
                Rewritten-trans last.1 r.1 (retry_put d sys accs n base rec r t).1.1 one later,
                stored,
              )
        | inr done ↦
            let e' = rw (retry_put-step n base rec last s, done) at e in
            let (same, number, stored) = acci_put_lem d sys accs law base rec last.1 s e' in
            rw (retry_put-step n base rec last s, done) (one, stored)
      ]

  pub retry_put-code :
      (n : ℕ) (base : Handle) (rec : ℤ) (last : ℤ × Acc d) (s : Os)
      → (n ≡ 0 → last.0 ≡ io_error)
      → PutCode (retry_put d sys accs n base rec last s).1.0
  unfolding retry_put
  retry_put-code zero base rec last s h = inr (inr (h refl))
  retry_put-code (suc n) base rec last s h =
      let (t, r) = acci_put d sys accs base rec last.1 s in
      elim (Bool-cases (eq_ℤ r.0 io_error)) [
        | inl again ↦
            rw (retry_put-step n base rec last s, again)
              (retry_put-code n base rec r t (λ z. eq_ℤ→eq r.0 io_error again))
        | inr done ↦ rw (retry_put-step n base rec last s, done) (acci_put-code base rec last.1 s)
      ]

  pub check-keeps :
      (crc ctime rec : ℤ) (acc : Acc d)
      → (check d crc ctime rec acc).0 ≢ acc_broken
      → (check d crc ctime rec acc).1 ≡ acc
  unfolding check
  check-keeps crc ctime rec acc h = ground arith

  -- An account that the transaction changes: one that may be charged, or one that is turned off.
  abbrev pub Changes : ℤ → Type 0
  Changes code = (is_neg code ≡ false) ⊎ (code ≡ acc_off)

  pub charge-eq :
      (base : Handle) (rec : ℤ) (sum : D) (uninit : Acc d) (s : Os)
      → let (t, (rc, acc)) = retry_get d sys accs 3 base rec (success, uninit) s in
        let (u, (put_rc, out)) = retry_put d sys accs 3 base rec (rc, charged d rc sum acc) t in
        let before = if logs_balance rc then acc.balance else d.zero_sum in
        charge d sys accs base rec sum uninit s ≡ (
          if writes_back rc
          then (u, (if is_neg put_rc then put_rc else rc, before, out))
          else (t, (rc, before, charged d rc sum acc)))
  unfolding charge
  charge-eq base rec sum uninit s = ground arith

  pub writes_back-facts :
      (rc : ℤ)
      → writes_back rc ≡ true
      → (logs_balance rc ≡ true) × (rc ≢ acc_broken) × ((rc ≡ not_found) ⊎ (rc ≡ io_error) → ⊥)
  unfolding writes_back logs_balance
  writes_back-facts rc h = (ground arith, ground arith, λ z. ground arith)

  pub Changes-back :
      (rc put_rc : ℤ)
      → Changes (if writes_back rc then (if is_neg put_rc then put_rc else rc) else rc)
      → writes_back rc ≡ true
  unfolding writes_back
  Changes-back rc put_rc h = ground arith

  pub Changes-stored :
      (rc put_rc : ℤ)
      → PutCode put_rc
      → Changes (if writes_back rc then (if is_neg put_rc then put_rc else rc) else rc)
      → put_rc ≡ success
  unfolding writes_back
  Changes-stored rc put_rc code h = ground arith

  -- The account with the sum on its balance, if it has a limit.
  abbrev pub credited : ℤ → D → Acc d → Acc d
  credited serrno sum acc =
      if eq_ℤ serrno acc_unlimit then acc else record acc { balance = d.add acc.balance sum }

  balance_state-code :
      (ctime : ℤ) (acc : Acc d)
      → (balance_state d ctime acc ≡ success) ⊎ (balance_state d ctime acc ≡ negative)
  unfolding balance_state
  balance_state-code ctime acc = ground arith

  -- The codes of an account that is loaded, those that forbid a charge first.
  abbrev Verdict : ℤ → Type 0
  Verdict c =
      (c ≡ acc_deleted)
      ⊎ (c ≡ acc_broken)
      ⊎ (c ≡ acc_frozen)
      ⊎ (c ≡ acc_off)
      ⊎ (c ≡ acc_unlimit)
      ⊎ (c ≡ success)
      ⊎ (c ≡ negative)

  pub check-Verdict : (crc ctime rec : ℤ) (acc : Acc d) → Verdict (check d crc ctime rec acc).0
  unfolding check
  check-Verdict crc ctime rec acc = ground (arith, balance_state-code ctime acc)

  pub Verdict-charges :
      (rc : ℤ) → Verdict rc → writes_back rc ≡ true → charges rc ≡ not (eq_ℤ rc acc_unlimit)
  unfolding writes_back charges
  Verdict-charges rc v b = ground arith

  charged-credited :
      (rc : ℤ) (sum : D) (acc : Acc d)
      → charges rc ≡ not (eq_ℤ rc acc_unlimit)
      → charged d rc sum acc ≡ credited rc sum acc
  unfolding charged
  charged-credited rc sum acc h = elim (Bool-cases (eq_ℤ rc acc_unlimit)) [
    | inl e ↦ rw (h, e)
    | inr e ↦ rw (h, e)
  ]

  charged-verdict :
      (crc ctime rec rc : ℤ) (sum : D) (acc : Acc d)
      → rc ≡ (check d crc ctime rec acc).0
      → writes_back rc ≡ true
      → charged d rc sum acc ≡ credited rc sum acc
  charged-verdict crc ctime rec rc sum acc v b =
      charged-credited rc sum acc
        (Verdict-charges rc (subst Verdict (sym v) (check-Verdict crc ctime rec acc)) b)

  -- When the account's part of acc_trans answers with a code that is not negative, or with ACC_OFF,
  -- the file had an account with that verdict. It now has that account with the sum added to its
  -- balance, but for ACC_UNLIMIT, and a new time of change and CRC; the balance for the log is the
  -- one before.
  pub charge_stores :
      (base : Handle) (rec : ℤ) (sum : D) (uninit : Acc d) (s : Os)
      → Changes (charge d sys accs base rec sum uninit s).1.0
      → let (t, (serrno, before, out)) = charge d sys accs base rec sum uninit s in
        (acc : Acc d) × (ctime : ℤ) × (content s base.fd rec ≡ some acc)
        × (serrno ≡ (check d (accs.checksum acc) ctime rec acc).0)
        × (content t base.fd rec ≡ some out)
        × Rewritten (credited serrno sum acc) out
        × (before ≡ acc.balance)
  charge_stores base rec sum uninit s h =
      let (t, (rc, acc)) = retry_get d sys accs 3 base rec (success, uninit) s in
      let (u, (put_rc, out)) = retry_put d sys accs 3 base rec (rc, charged d rc sum acc) t in
      let h' : Changes (if writes_back rc then (if is_neg put_rc then put_rc else rc) else rc) =
        ground (arith, charge-eq base rec sum uninit s) in
      let code =
        retry_put-code 3 base rec (rc, charged d rc sum acc) t (λ z. absurd (omega arith)) in
      let put = retry_put_lem 3 base rec (rc, charged d rc sum acc) t (λ z. absurd (omega arith)) in
      let back : writes_back rc ≡ true = Changes-back rc put_rc h' in
      let stored : put_rc ≡ success = Changes-stored rc put_rc code h' in
      elim (retry_get_lem 3 base rec (success, uninit) s (λ z. absurd (omega arith))).0 [
        | inr none_loaded ↦ absurd ((writes_back-facts rc back).2 none_loaded)
        | inl (a, ctime, c, e) ↦
            let verdict = ap (λ (r : ℤ × Acc d). r.0) e in
            let (logged, sound, _) = writes_back-facts rc back in
            let same : acc ≡ a =
              ap (λ (r : ℤ × Acc d). r.1) e
              ∙ check-keeps (accs.checksum a) ctime rec a (λ z. sound (verdict ∙ z)) in
            let (rewritten, kept) = put stored in
            rw (charge-eq base rec sum uninit s, back, stored, logged)
              (
                a,
                ctime,
                c,
                verdict,
                kept,
                subst (λ (x : Acc d). Rewritten x out)
                    (ap (λ (x : Acc d). charged d rc sum x) same
                      ∙ charged-verdict (accs.checksum a) ctime rec rc sum a verdict back)
                    rewritten,
                ap (λ (x : Acc d). x.balance) same,
              )
      ]

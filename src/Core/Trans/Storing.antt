-- ===== src/Core/Trans/Storing.antt =====
-- The account's part of acc_transaction: what the file holds after it.
use mathlib.Core.Path.{subst}
use rubsd.Prelude.{
  ℕ, ◌≡◌, refl, sym, ap, ◌∙◌, inl, inr, true, Option, some, arith, not, if◌then◌else◌, Bool-cases,
}
use rubsd.Prelude.Int.{ℤ, pos, is_neg, eq_ℤ}
use rubsd.Prelude.Run.{ok, Yields, value}
use rubsd.Base.Env.{Double, Store, System, Handle, success, acc_unlimit}
use rubsd.Base.Record.{Acc, IsData}
use rubsd.Base.Laws.{IsStore}
use rubsd.Acc.State.{check}
use rubsd.Acc.Trans.{charges, writes_back, logs_balance, retry_get, retry_put}
use rubsd.Acc.Trans.Charging.{
  Rewritten, Changes, retry_get_lem, retry_put_lem, retry_put-code, check-keeps, writes_back-facts,
  Changes-back, Changes-stored, check-Verdict, Verdict-charges,
}
use rubsd.Res.{Calendar, Reals}
use rubsd.Core.{res_adder, takes, with_sum, paid, logged_sum}
use rubsd.Core.Trans.Stepping.{after-ok}
use rubsd.Core.Trans.{Globals, sum_of, write_back, store_part, account_part}

module _ (d : Double) (r : Reals d) where
  open d use {D}

  -- The account with the sum. One without limit takes payments only, and a payment ends the temporary
  -- credit.
  abbrev pub settled : ℤ → ℤ → D → Acc d → Acc d
  settled rc res_id sum acc =
      if eq_ℤ res_id res_adder
      then record acc { balance = d.add acc.balance sum; tcredit = d.zero_sum; res_tcredit = pos 0 }
      else if eq_ℤ rc acc_unlimit
      then acc
      else record acc { balance = d.add acc.balance sum }

  paid-settled :
      (rc res_id : ℤ) (sum : D) (acc : Acc d)
      → charges rc ≡ not (eq_ℤ rc acc_unlimit)
      → paid d r rc res_id sum acc ≡ settled rc res_id sum acc
  unfolding paid with_sum takes
  paid-settled rc res_id sum acc h = elim (Bool-cases (eq_ℤ rc acc_unlimit)) [
    | inl e ↦ elim (Bool-cases (eq_ℤ res_id res_adder)) [
      | inl a ↦ rw (h, e, a) refl
      | inr a ↦ rw (h, e, a) refl
    ]
    | inr e ↦ elim (Bool-cases (eq_ℤ res_id res_adder)) [
      | inl a ↦ rw (h, e, a) refl
      | inr a ↦ rw (h, e, a) refl
    ]
  ]

  module _ (cal : Calendar) (g : Globals d) {Os : Type 0} (sys : System Os)
      (accs : Store Os (Acc d)) {content : Os → ℕ → ℤ → Option (Acc d)}
      (law : IsStore sys accs content) where
    write_back-eq :
        (base : Handle) (rec rc : ℤ) (acc : Acc d) (s : Os)
        → let (t, (put_rc, out)) = retry_put d sys accs 3 base rec (rc, acc) s in
          write_back d r cal g sys accs base rec rc acc s ≡ (
            if writes_back rc
            then (t, (if is_neg put_rc then put_rc else rc, out))
            else (s, (rc, acc)))
    unfolding write_back
    write_back-eq base rec rc acc s = ground arith

    -- When the code for the log is that of a change, the account is in the file.
    pub write_back_lem :
        (base : Handle) (rec rc : ℤ) (acc : Acc d) (s : Os)
        → let (t, (serrno, out)) = write_back d r cal g sys accs base rec rc acc s in
          Changes d sys accs law serrno
          → (writes_back rc ≡ true)
            × (serrno ≡ rc)
            × (content t base.fd rec ≡ some out)
            × Rewritten d sys accs law acc out
    write_back_lem base rec rc acc s h =
        let (t, (put_rc, out)) = retry_put d sys accs 3 base rec (rc, acc) s in
        let h' : Changes d sys accs law
            (if writes_back rc then (if is_neg put_rc then put_rc else rc) else rc) =
          ground (arith, write_back-eq base rec rc acc s) in
        let code =
          retry_put-code d sys accs law 3 base rec (rc, acc) s (λ z. absurd (omega arith)) in
        let back = Changes-back d sys accs law rc put_rc h' in
        let stored = Changes-stored d sys accs law rc put_rc code h' in
        let (rewritten, kept) =
          retry_put_lem d sys accs law 3 base rec (rc, acc) s (λ z. absurd (omega arith)) stored in
        rw (write_back-eq base rec rc acc s, back, stored) (refl, refl, kept, rewritten)

    loaded_lem :
        (base : Handle) (rec : ℤ) (uninit : Acc d) (s : Os)
        → let (rc, acc) = (retry_get d sys accs 3 base rec (success, uninit) s).1 in
          writes_back rc ≡ true
          → (ctime : ℤ) × (content s base.fd rec ≡ some acc)
            × (rc ≡ (check d (accs.checksum acc) ctime rec acc).0)
            × (logs_balance rc ≡ true)
            × (charges rc ≡ not (eq_ℤ rc acc_unlimit))
    loaded_lem base rec uninit s back =
        let (rc, acc) = (retry_get d sys accs 3 base rec (success, uninit) s).1 in
        let (logged, sound, loads) = writes_back-facts d sys accs law rc back in
        elim (retry_get_lem d sys accs law 3 base rec (success, uninit) s
          (λ z. absurd (omega arith))).0 [
            | inr none_loaded ↦ absurd (loads none_loaded)
            | inl (a, ctime, c, e) ↦
                let verdict = ap (λ (x : ℤ × Acc d). x.0) e in
                let same : acc ≡ a =
                  ap (λ (x : ℤ × Acc d). x.1) e
                  ∙ check-keeps d sys accs law (accs.checksum a) ctime rec a
                      (λ z. sound (verdict ∙ z)) in
                let kinds =
                  Verdict-charges d sys accs law rc
                    (rw verdict (check-Verdict d sys accs law (accs.checksum a) ctime rec a))
                    back in
                rw same (ctime, c, verdict, logged, kinds)
          ]

    -- What the transaction has done to the file, with the account that was loaded in `s`.
    pub record Stored (base : Handle) (rec : ℤ) (s : Os) (acc counted : Acc d) (given : IsData)
        (sum : D) (u : Os) (serrno : ℤ) (before : D) (out : Acc d) : Type 0 where
      pub ctime : ℤ
      pub loaded : content s base.fd rec ≡ some acc
      pub verdict : serrno ≡ (check d (accs.checksum acc) ctime rec acc).0
      pub balance : before ≡ acc.balance
      pub stored : content u base.fd rec ≡ some out
      pub change : Rewritten d sys accs law (settled serrno given.res_id sum counted) out

    -- When the procedure of the resource gives a sum for the account as it was loaded, the account's
    -- part of acc_transaction comes back. If its code for the log is that of a change, the file had the
    -- account with that verdict, and now has the account after the procedure, with the sum on its
    -- balance, but for traffic of ACC_UNLIMIT, without its temporary credit after a payment, and with
    -- a new time of change and CRC. The entry gets the balance before, the procedure's data, and the
    -- sum, or 0 for traffic of an account without limit that is not logged.
    pub account_part_stores :
        (uninit : Acc d) (base : Handle) (rec : ℤ) (isdata : IsData) (realarg limit : D) (s : Os)
        (given : IsData) (counted : Acc d) (sum : D)
        → let (t, (rc, acc)) = retry_get d sys accs 3 base rec (success, uninit) s in
          (sum_of d r cal g sys isdata acc realarg limit t).1 ≡ ok (given, counted, sum)
          → let (u, result) =
              account_part d r cal g sys accs uninit base rec isdata realarg limit s in
            Yields
              (λ (serrno, before, data', logged, out).
                (data' ≡ given)
                × (logged ≡ logged_sum d r counted given.res_id sum)
                × (Changes d sys accs law serrno
                    → Stored base rec s acc counted given sum u serrno before out))
              result
    unfolding account_part store_part
    account_part_stores uninit base rec isdata realarg limit s given counted sum e =
        let (t, (rc, acc)) = retry_get d sys accs 3 base rec (success, uninit) s in
        let first = if logs_balance rc then acc.balance else d.zero_sum in
        let m = sum_of d r cal g sys isdata acc realarg limit in
        let next = paid d r rc given.res_id sum counted in
        rw (after-ok m (store_part d r cal g sys accs base rec rc first) t (given, counted, sum) e)
          (value (
            refl,
            refl,
            λ h.
                let (back, code, stored, rewritten) = write_back_lem base rec rc next (m t).0 h in
                let (ctime, loaded, verdict, logged, kinds) = loaded_lem base rec uninit s back in
                record {
                  ctime = ctime;
                  loaded = loaded;
                  verdict = code ∙ verdict;
                  balance = rw logged refl;
                  stored = stored;
                  change =
                      subst
                        (λ (x : Acc d).
                          Rewritten d sys accs law x
                            (write_back d r cal g sys accs base rec rc next (m t).0).1.1)
                        (paid-settled rc given.res_id sum counted kinds
                          ∙ ap (λ (c : ℤ). settled c given.res_id sum counted) (sym code))
                        rewritten;
                },
          ))

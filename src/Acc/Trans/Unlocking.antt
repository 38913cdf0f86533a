-- ===== src/Acc/Trans/Unlocking.antt =====
-- The locks of acc_trans: it leaves the account base and the log unlocked.
use rubsd.Prelude.{ℕ, zero, suc, ◌≡◌, refl, ◌≢◌, ◌∙◌, Bool, Option, arith, Bool-cases, inl, inr}
use rubsd.Prelude.Int.{ℤ, pos, negsuc, is_neg}
use rubsd.Base.Env.{Double, Store, System, Handle, success}
use rubsd.Base.Record.{Acc, IsData, Logrec}
use rubsd.Base.Laws.{IsLocking, HoldsLocks}
use rubsd.Log
use rubsd.Log.Locking.{log_lock_code, log_lock_refused, log_unlock_restores}
use rubsd.Acc.State.{baselock, acci_get, acci_put}
use rubsd.Acc.State.Locking.{
  lock_refused, lock_others, unlock_restores, acci_get-holds, acci_put-holds,
}
use rubsd.Acc.Trans.{
  retry_get, retry_put, merged, merge_down, try_merge, log_trans, charge, charged, entries_of,
  entry_of, trans,
}

module _ {Os : Type 0} (sys : System Os) {held : Os → ℕ → Bool} (locks : IsLocking sys held)
    (d : Double) (accs : Store Os (Acc d)) (logs : Store Os (Logrec d))
    (acc_keeps : HoldsLocks accs held) (log_keeps : HoldsLocks logs held) where
  open d use {D}

  pub retry_get-holds :
      (n : ℕ) (base : Handle) (rec : ℤ) (last : ℤ × Acc d) (s : Os) (f : ℕ)
      → held (retry_get d sys accs n base rec last s).0 f ≡ held s f
  unfolding retry_get
  retry_get-holds zero base rec last s f = refl
  retry_get-holds (suc n) base rec last s f =
      let (t, r) = acci_get d sys accs base rec last.1 s in
      let one = acci_get-holds sys locks d accs acc_keeps base rec last.1 s f in
      ground (arith, one, retry_get-holds n base rec r t f)

  pub retry_put-holds :
      (n : ℕ) (base : Handle) (rec : ℤ) (last : ℤ × Acc d) (s : Os) (f : ℕ)
      → held (retry_put d sys accs n base rec last s).0 f ≡ held s f
  unfolding retry_put
  retry_put-holds zero base rec last s f = refl
  retry_put-holds (suc n) base rec last s f =
      let (t, r) = acci_put d sys accs base rec last.1 s in
      let one = acci_put-holds sys locks d accs acc_keeps base rec last.1 s f in
      ground (arith, one, retry_put-holds n base rec r t f)

  charge-holds :
      (base : Handle) (rec : ℤ) (sum : D) (uninit : Acc d) (s : Os) (f : ℕ)
      → held (charge d sys accs base rec sum uninit s).0 f ≡ held s f
  unfolding charge
  charge-holds base rec sum uninit s f =
      let (t, (rc, acc)) = retry_get d sys accs 3 base rec (success, uninit) s in
      ground (
        arith,
        retry_get-holds 3 base rec (success, uninit) s f,
        retry_put-holds 3 base rec (rc, charged d rc sum acc) t f,
      )

  logi_get-holds :
      (base : Handle) (rec : ℤ) (buf : Logrec d) (s : Os) (f : ℕ)
      → held (Log.logi_get sys d logs base rec buf s).0 f ≡ held s f
  unfolding Log.logi_get
  logi_get-holds base rec buf s f = ground (arith, log_keeps.get_holds s base.fd rec buf f)

  logi_put-holds :
      (base : Handle) (rec : ℤ) (r : Logrec d) (s : Os) (f : ℕ)
      → held (Log.logi_put sys d logs base rec r s).0 f ≡ held s f
  unfolding Log.logi_put
  logi_put-holds base rec r s f =
      ground (arith, log_keeps.put_holds s base.fd rec (record r { crc = logs.checksum r }) f)

  merge_down-holds :
      (n : ℕ) (base : Handle) (new buf : Logrec d) (rc : ℤ) (s : Os) (f : ℕ)
      → held (merge_down d sys logs n base new buf rc s).0 f ≡ held s f
  unfolding merge_down
  merge_down-holds zero base new buf rc s f = refl
  merge_down-holds (suc n) base new buf rc s f =
      let (t, (code, old)) = Log.logi_get sys d logs base (pos n) buf s in
      ground (
        arith,
        logi_get-holds base (pos n) buf s f,
        merge_down-holds n base new old code t f,
        merge_down-holds n base new old (negsuc 0) t f,
        logi_put-holds base (pos n) (merged d new old) t f,
      )

  try_merge-holds :
      (base : Handle) (new buf : Logrec d) (s : Os)
      → held s base.fd ≡ base.fasync
      → (f : ℕ) → held (try_merge d sys logs base new buf s).0 f ≡ held s f
  unfolding try_merge Log.reccount
  try_merge-holds base new buf s m f =
      let (t, rc) = Log.baselock sys base s in
      let (u, recs) = logs.reccount base.fd t in
      let v = (merge_down d sys logs (entries_of recs) base new buf (negsuc 0) u).0 in
      let inside = λ (f' : ℕ).
        merge_down-holds (entries_of recs) base new buf (negsuc 0) u f'
        ∙ log_keeps.reccount_holds t base.fd f' in
      ground (
        arith,
        log_lock_code sys locks base s,
        log_lock_refused sys locks base s f,
        log_unlock_restores sys locks base s v m inside f,
      )

  pub log_add-holds :
      (base : Handle) (r : Logrec d) (s : Os)
      → held s base.fd ≡ base.fasync
      → (f : ℕ) → held (Log.add sys d logs base r s).0 f ≡ held s f
  unfolding Log.add
  log_add-holds base r s m f =
      let (t, rc) = Log.baselock sys base s in
      let sealed : Logrec d = record r { crc = logs.checksum r } in
      let u = (logs.append base.fd sealed t).0 in
      ground (
        arith,
        log_lock_refused sys locks base s f,
        log_unlock_restores sys locks base s u m (λ f'. log_keeps.append_holds t base.fd sealed f')
            f,
      )

  log_trans-holds :
      (base : Handle) (new buf : Logrec d) (s : Os)
      → held s base.fd ≡ base.fasync
      → (f : ℕ) → held (log_trans d sys logs base new buf s).0 f ≡ held s f
  unfolding log_trans
  log_trans-holds base new buf s m f =
      let (t, rc) = try_merge d sys logs base new buf s in
      let merging = try_merge-holds base new buf s m in
      ground (arith, merging f, log_add-holds base new t (merging base.fd ∙ m) f)

  -- If the account base and the log are two files whose locks are held exactly in asynchronous mode,
  -- acc_trans, on every branch, leaves each lock of the program as it was.
  pub trans-holds :
      (uninit : Acc d) (buf : Logrec d) (base : Handle) (rec : ℤ) (sum : D) (isdata : Option IsData)
      (logbase : Handle) (s : Os)
      → base.fd ≢ logbase.fd
      → held s base.fd ≡ base.fasync
      → held s logbase.fd ≡ logbase.fasync
      → (f : ℕ)
      → held (trans d sys accs logs uninit buf base rec sum isdata logbase s).0 f ≡ held s f
  unfolding trans
  trans-holds uninit buf base rec sum isdata logbase s apart m n f =
      let (t, rc) = baselock sys base s in
      let (u, now) = sys.time t in
      let (v, (serrno, before, acc)) = charge d sys accs base rec sum uninit u in
      let entry = entry_of d now rec sum isdata serrno before in
      let w = (log_trans d sys logs logbase entry buf v).0 in
      let charging = λ (f' : ℕ). charge-holds base rec sum uninit u f' ∙ locks.time_holds t f' in
      elim (Bool-cases (is_neg rc)) [
        | inl e ↦ rw e (lock_refused sys locks base s f e)
        | inr e ↦
            let same = charging logbase.fd ∙ lock_others sys locks base s logbase.fd apart e ∙ n in
            let inside = λ (f' : ℕ). log_trans-holds logbase entry buf v same f' ∙ charging f' in
            rw e (ground (arith, unlock_restores sys locks base s w m inside f e))
      ]

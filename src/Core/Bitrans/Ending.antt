-- ===== src/Core/Bitrans/Ending.antt =====
-- acc_bitrans comes back, and leaves the locks as they were.
use rubsd.Prelude.{
  ℕ, ◌≡◌, refl, ◌∙◌, ◌≢◌, ◌⊎◌, inl, inr, Bool, true, false, ◌==◌, some, arith, if◌then◌else◌,
  Bool-cases,
}
use rubsd.Prelude.Int.{ℤ, pos, is_neg}
use rubsd.Prelude.Run.{Yields, value, Yields-value}
use rubsd.Base.Env.{Double, Store, System, Handle, success}
use rubsd.Base.Record.{Acc, IsData, Logrec}
use rubsd.Base.Laws.{IsLocking, HoldsLocks}
use rubsd.Log
use rubsd.Log.Locking.{log_lock_code, log_lock_refused}
use rubsd.Acc.State.{baselock, baseunlock}
use rubsd.Acc.State.Locking.{lock_refused, unlock_restores}
use rubsd.Acc.Trans.{logs_balance, retry_get, entry_of}
use rubsd.Acc.Trans.Unlocking.{retry_get-holds}
use rubsd.Res.{Calendar, Reals}
use rubsd.Tariffs.{elements}
use rubsd.Core.{logged_sum}
use rubsd.Core.Trans.Keeping.{after-holds, count_call-holds, write_back-holds}
use rubsd.Core.Limits.{answer_lem}
use rubsd.Core.Tables.{IsReady, IsKnown}
use rubsd.Core.Trans.Ending.{count_call_lem}
use rubsd.Core.Trans.{after, Globals, count_call, write_back}
use rubsd.Core.Bitrans.{outbound, count_way, log_way, log_both, bi_rest, acc_bitrans}

-- Locks that are the same in two states, but for a file's own lock outside asynchronous mode.
abbrev OthersKept : {Os : Type 0} → (Os → ℕ → Bool) → Handle → Os → Os → Type 0
OthersKept held base s t = (f : ℕ) → (base.fasync ≡ true) ⊎ (f ≢ base.fd) → held t f ≡ held s f

module _ {Os : Type 0} (sys : System Os) {held : Os → ℕ → Bool} (locks : IsLocking sys held)
    (d : Double) (r : Reals d) (cal : Calendar) (g : Globals d) (accs : Store Os (Acc d))
    (logs : Store Os (Logrec d)) (acc_keeps : HoldsLocks accs held)
    (log_keeps : HoldsLocks logs held) where
  open d use {D}

  log_add-OthersKept :
      (base : Handle) (entry : Logrec d) (s : Os)
      → OthersKept held base s (Log.add sys d logs base entry s).0
  unfolding Log.add Log.baselock Log.baseunlock
  log_add-OthersKept base entry s f apart =
      let t = (sys.exlock base.fd s).0 in
      let sealed : Logrec d = record entry { crc = logs.checksum entry } in
      ground (
        arith,
        apart,
        locks.exlock_takes s base.fd f,
        log_keeps.append_holds s base.fd sealed f,
        log_keeps.append_holds t base.fd sealed f,
        locks.unlock_gives (logs.append base.fd sealed t).0 base.fd f,
      )

  log_way-OthersKept :
      (base : Handle) (val : ℕ) (entry : Logrec d) (rc : ℤ) (s : Os)
      → OthersKept held base s (log_way d r cal g sys accs logs base val entry rc s).0
  unfolding log_way
  log_way-OthersKept base val entry rc s f apart =
      ground (arith, log_add-OthersKept base entry s f apart)

  log_unlocked :
      (base : Handle) (s t : Os)
      → held s base.fd ≡ base.fasync
      → OthersKept held base (Log.baselock sys base s).0 t
      → (f : ℕ) → is_neg (Log.baselock sys base s).1 ≡ false
      → held (Log.baseunlock sys base t).0 f ≡ held s f
  unfolding Log.baselock Log.baseunlock
  log_unlocked base s t m kept f granted = elim (Bool-cases base.fasync) [
    | inl async ↦ ground (arith, kept f (inl async))
    | inr sync ↦ elim (Bool-cases (f == base.fd)) [
      | inl own ↦ ground (arith, locks.unlock_gives t base.fd f)
      | inr other ↦ ground (
        arith,
        kept f (inr (λ e. ground arith)),
        locks.exlock_takes s base.fd f,
        locks.unlock_gives t base.fd f,
      )
    ]
  ]

  log_both-restores :
      (base : Handle) (val_in : ℕ) (entry_in : Logrec d) (val_out : ℕ) (entry_out : Logrec d)
      (s : Os)
      → held s base.fd ≡ base.fasync
      → (f : ℕ)
      → held (log_both d r cal g sys accs logs base val_in entry_in val_out entry_out s).0 f
        ≡ held s f
  unfolding log_both
  log_both-restores base val_in entry_in val_out entry_out s m f =
      let (t, rc) = Log.baselock sys base s in
      let (u, rc_in) = log_way d r cal g sys accs logs base val_in entry_in rc t in
      let v = (log_way d r cal g sys accs logs base val_out entry_out rc_in u).0 in
      let kept = λ (f' : ℕ) (apart : (base.fasync ≡ true) ⊎ (f' ≢ base.fd)).
        log_way-OthersKept base val_out entry_out rc_in u f' apart
        ∙ log_way-OthersKept base val_in entry_in rc t f' apart in
      ground (
        arith,
        log_lock_code sys locks base s,
        log_lock_refused sys locks base s f,
        log_unlocked base s v m kept f,
      )

  count_way-holds :
      (rc : ℤ) (val : ℕ) (proto_id : ℤ) (isdata : IsData) (acc : Acc d) (s : Os) (f : ℕ)
      → held (count_way d r cal g sys rc val proto_id isdata acc s).0 f ≡ held s f
  unfolding count_way
  count_way-holds rc val proto_id isdata acc s f =
      let way : IsData = record isdata { value = val; proto_id = proto_id } in
      elim (Bool-cases (val == 0)) [
        | inl nothing ↦ rw (count_way, nothing) refl
        | inr counts ↦
            rw (count_way, counts)
              (after-holds sys locks d r cal g (count_call d r cal g sys way acc) _ s f
                (count_call-holds sys locks d r cal g way acc s f) (λ x t. refl))
      ]

  bi_rest-restores :
      (base logbase : Handle) (rec now rc : ℤ) (before : D) (val_in val_out : ℕ)
      (way_in way_out : IsData × D) (acc : Acc d) (s t : Os)
      → base.fd ≢ logbase.fd
      → held s base.fd ≡ base.fasync
      → held s logbase.fd ≡ logbase.fasync
      → is_neg (baselock sys base s).1 ≡ false
      → ((f : ℕ) → held t f ≡ held (baselock sys base s).0 f)
      → (f : ℕ)
      → held
          (bi_rest d r cal g sys accs logs base logbase rec now rc before val_in val_out way_in
            way_out acc t).0
          f
        ≡ held s f
  unfolding bi_rest
  bi_rest-restores base logbase rec now rc before val_in val_out (given_in, sum_in)
        (given_out, sum_out) acc s t apart m n granted same f =
      let (u, (serrno, out)) = write_back d r cal g sys accs base rec rc acc t in
      let v = (baseunlock sys base u).0 in
      let writing = λ (f' : ℕ).
        write_back-holds sys locks d r cal g accs logs acc_keeps log_keeps base rec rc acc t f'
        ∙ same f' in
      let unlocked = λ (f' : ℕ). unlock_restores sys locks base s u m writing f' granted in
      let logged = logged_sum d r acc given_out.res_id in
      let before_out = if val_in == 0 then before else d.balance_na in
      log_both-restores logbase val_in
        (entry_of d now rec (logged sum_in) (some given_in) serrno before) val_out
        (entry_of d now rec (logged sum_out) (some given_out) serrno before_out) v
        (unlocked logbase.fd ∙ n) f
      ∙ unlocked f

  count_way_lem :
      (rc : ℤ) (val : ℕ) (proto_id : ℤ) (isdata : IsData) (acc : Acc d) (s : Os)
      → IsReady d r g.tables
      → IsKnown isdata
      → Yields (λ x. IsKnown x.0) (count_way d r cal g sys rc val proto_id isdata acc s).1
  unfolding count_way after
  count_way_lem rc val proto_id isdata acc s ready known =
      let way : IsData = record isdata { value = val; proto_id = proto_id } in
      elim (Bool-cases (val == 0)) [
        | inl nothing ↦ rw (count_way, nothing) (value known)
        | inr counts ↦
            let m = count_call d r cal g sys way acc in
            let (x, summed, same) =
              Yields-value (count_call_lem d r cal g sys way acc s ready known) in
            let (n, e, below) = known in
            rw (count_way, counts, after, summed) (value (n, same ∙ e, below))
      ]

  bi_rest_lem :
      (base logbase : Handle) (rec now rc : ℤ) (before : D) (val_in val_out : ℕ)
      (way_in way_out : IsData × D) (acc : Acc d) (s : Os)
      → IsReady d r g.tables
      → Yields
          (λ c. Unit {0})
          (bi_rest d r cal g sys accs logs base logbase rec now rc before val_in val_out way_in
            way_out acc s).1
  unfolding bi_rest
  bi_rest_lem base logbase rec now rc before val_in val_out (given_in, sum_in) (given_out, sum_out)
        acc s ready =
      answer_lem d r (elements g.tables.limit) _ _ ready.limits

  -- With tables that end, acc_bitrans comes back with a code from every account and every traffic of a
  -- known resource in both directions, without a fault. It leaves each lock of the program as it was,
  -- if the account base and the log are two files whose locks are held exactly in asynchronous mode.
  pub acc_bitrans_lem :
      (uninit : Acc d) (base logbase : Handle) (rec : ℤ) (isdata : IsData) (val_in val_out : ℕ)
      (s : Os)
      → IsReady d r g.tables
      → IsKnown isdata
      → base.fd ≢ logbase.fd
      → held s base.fd ≡ base.fasync
      → held s logbase.fd ≡ logbase.fasync
      → let (t, code) =
          acc_bitrans d r cal g sys accs logs uninit base logbase rec
            (some isdata)
            val_in
            val_out
            s in
        Yields (λ c. Unit {0}) code × ((f : ℕ) → held t f ≡ held s f)
  unfolding acc_bitrans after
  acc_bitrans_lem uninit base logbase rec isdata val_in val_out s ready known apart m n =
      elim (Bool-cases (is_neg (baselock sys base s).1)) [
        | inl e ↦ rw e (value tt, λ f. lock_refused sys locks base s f e)
        | inr e ↦
            let now = sys.time (baselock sys base s).0 in
            let (t, (rc, acc)) = retry_get d sys accs 3 base rec (success, uninit) now.0 in
            let before = if logs_balance rc then acc.balance else d.zero_sum in
            let way_in = count_way d r cal g sys rc val_in (pos 0) isdata acc in
            let (x, summed_in, known_in) =
              Yields-value (count_way_lem rc val_in (pos 0) isdata acc t ready known) in
            let u = (way_in t).0 in
            let way_out = count_way d r cal g sys rc val_out outbound x.0 x.1 in
            let (y, summed_out, known_out) =
              Yields-value (count_way_lem rc val_out outbound x.0 x.1 u ready known_in) in
            let kept = λ (f : ℕ).
              count_way-holds rc val_out outbound x.0 x.1 u f
              ∙ (count_way-holds rc val_in (pos 0) isdata acc t f
                  ∙ (retry_get-holds sys locks d accs logs acc_keeps log_keeps 3 base rec
                        (success, uninit) now.0 f
                      ∙ locks.time_holds (baselock sys base s).0 f)) in
            rw (e, after, summed_in, summed_out)
              (
                bi_rest_lem base logbase rec now.1 rc before val_in val_out (x.0, x.2) (y.0, y.2)
                    y.1 (way_out u).0 ready,
                bi_rest-restores base logbase rec now.1 rc before val_in val_out (x.0, x.2)
                    (y.0, y.2) y.1 s (way_out u).0 apart m n e kept,
              )
      ]

-- ===== src/Core/Bitrans.antt =====
-- acc_bitrans: the traffic of both directions in one transaction.
pub mod Ending
use mathlib.Core.Path.{subst}
use rubsd.Prelude.{
  ℕ, ◌+◌, ◌^◌, ◌-◌, ◌≡◌, refl, sym, ◌∙◌, ◌≢◌, ◌⊎◌, inl, inr, Bool, true, false, not, ◌==◌, Option,
  none, some, arith, if◌then◌else◌, Bool-cases,
}
use rubsd.Prelude.Int.{ℤ, pos, negsuc, is_neg, eq_ℤ}
use rubsd.Prelude.Run.{Run, ok, Yields, value, Yields-test, Yields-value}
use rubsd.Base.Env.{Double, M, ◌>>=◌, ◌>>◌, return, Store, System, Handle, success, io_error}
use rubsd.Base.Record.{Acc, IsData, Logrec}
use rubsd.Base.Laws.{IsLocking, HoldsLocks}
use rubsd.Log
use rubsd.Log.Locking.{log_lock_code, log_lock_refused}
use rubsd.Acc.State.{baselock, baseunlock}
use rubsd.Acc.State.Locking.{lock_refused, lock_others, unlock_restores}
use rubsd.Acc.Trans.{logs_balance, retry_get, entry_of}
use rubsd.Acc.Trans.Unlocking.{retry_get-holds, log_add-holds}
use rubsd.Res.{Calendar, Reals}
use rubsd.Tariffs.{elements}
use rubsd.Core.{answer, with_sum, logged_sum}
use rubsd.Core.Trans.Keeping.{after-holds, count_call-holds, write_back-holds}
use rubsd.Core.Limits.{answer_lem}
use rubsd.Core.Tables.{IsReady, IsKnown}
use rubsd.Core.Trans.Ending.{count_call_lem}
use rubsd.Core.Trans.{after, Globals, count_call, write_back}

-- 2147483648u as an int.
abbrev pub outbound : ℤ
outbound = negsuc (2 ^ 31 - 1)

module _ (d : Double) (r : Reals d) (cal : Calendar) (g : Globals d) {Os : Type 0}
    (sys : System Os) where
  open d use {D}

  -- "Count transaction sum" of one direction, with the account's new balance.
  unfoldable pub count_way : ℤ → ℕ → ℤ → IsData → Acc d → M Os (Run (IsData × Acc d × D))
  count_way rc val proto_id isdata acc =
      if val == 0
      then return (ok (isdata, acc, d.zero_sum))
      else after (count_call d r cal g sys (record isdata { value = val; proto_id = proto_id }) acc)
          λ (given, counted, sum).
            return (ok (given, with_sum d r rc given.res_id sum counted, sum))

  module _ (accs : Store Os (Acc d)) (logs : Store Os (Logrec d)) where
    -- The entry of a direction, if it has traffic.
    unfoldable pub log_way : Handle → ℕ → Logrec d → ℤ → M Os ℤ
    log_way logbase val entry rc =
        if val == 0
        then return rc
        else (do added ← Log.add sys d logs logbase entry; return added.0)

    -- Both entries, under the lock of the log.
    unfoldable pub log_both : Handle → ℕ → Logrec d → ℕ → Logrec d → M Os ℤ
    log_both logbase val_in entry_in val_out entry_out = do
      rc ← Log.baselock sys logbase
      if not (eq_ℤ rc success) then return rc else (do
        rc_in ← log_way logbase val_in entry_in rc
        rc_out ← log_way logbase val_out entry_out rc_in
        Log.baseunlock sys logbase
        return rc_out)

    -- What follows the sums: `given` and `sum` of each direction, and the account with both.
    unfoldable pub bi_rest :
        Handle → Handle → ℤ → ℤ → ℤ → D → ℕ → ℕ → IsData × D → IsData × D → Acc d → M Os (Run ℤ)
    bi_rest base logbase rec now rc before val_in val_out (given_in, sum_in) (given_out, sum_out)
          acc =
        do
          (serrno, out) ← write_back d r cal g sys accs base rec rc acc
          baseunlock sys base
          let logged : D → D = logged_sum d r acc given_out.res_id
          let before_out : D = if val_in == 0 then before else d.balance_na
          code ←
              log_both logbase val_in
                (entry_of d now rec (logged sum_in) (some given_in) serrno before) val_out
                (entry_of d now rec (logged sum_out) (some given_out) serrno before_out)
          return (answer d r (elements g.tables.limit) code out)

    unfoldable pub acc_bitrans : Acc d → Handle → Handle → ℤ → Option IsData → ℕ → ℕ → M Os (Run ℤ)
    acc_bitrans uninit base logbase rec none val_in val_out = return (ok io_error)
    acc_bitrans uninit base logbase rec (some isdata) val_in val_out = do
      locked ← baselock sys base
      if is_neg locked then return (ok io_error) else (do
        now ← sys.time
        (rc, acc) ← retry_get d sys accs 3 base rec (success, uninit)
        let before : D = if logs_balance rc then acc.balance else d.zero_sum
        after (count_way rc val_in (pos 0) isdata acc) λ (given_in, acc_in, sum_in).
            after (count_way rc val_out outbound given_in acc_in) λ (given_out, acc_out, sum_out).
              bi_rest base logbase rec now rc before val_in val_out (given_in, sum_in)
                (given_out, sum_out) acc_out)

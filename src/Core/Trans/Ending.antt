-- ===== src/Core/Trans/Ending.antt =====
-- acc_transaction comes back from every account and sum, and leaves the locks as they were.
use mathlib.Core.Path.{subst}
use rubsd.Prelude.{
  ℕ, zero, suc, ◌≡◌, ap, ◌∙◌, ◌≢◌, inl, inr, Bool, ◌&&◌, arith, List, none, some, if◌then◌else◌,
  Bool-cases,
}
use rubsd.Prelude.Int.{ℤ, pos, negsuc, is_neg, eq_ℤ}
use rubsd.Prelude.Run.{Yields, value, Yields-weaken, Yields-value}
use rubsd.Base.Env.{Double, Store, System, Handle, success}
use rubsd.Base.Record.{Acc, IsData, Logrec}
use rubsd.Base.Laws.{IsLocking, HoldsLocks}
use rubsd.Acc.State.{baselock}
use rubsd.Acc.State.Locking.{lock_refused}
use rubsd.Acc.Trans.{retry_get, logs_balance, entry_of}
use rubsd.Res.{Calendar, Reals, Table}
use rubsd.Res.Spending.{Outcome, inet_count_proc_lem}
use rubsd.Res.Counting.{count_proc}
use rubsd.Tariffs.{Plan, Parser, Tables, elements, tariffs_load}
use rubsd.Tariffs.Charging.{AllHours}
use rubsd.Core.{res_adder}
use rubsd.Core.Limits.{answer_lem}
use rubsd.Core.Tables.{IsReady, IsKnown, IsReady-tariffs_load}
use rubsd.Core.Trans.{
  after, Globals, count_time, count_call, sum_of, store_part, account_part, finish, acc_transaction,
}
use rubsd.Core.Trans.Stepping.{after-ok}
use rubsd.Core.Trans.Keeping.{account_part-holds, finish-restores}

module _ (d : Double) (r : Reals d) where
  open d use {D}

  module _ (cal : Calendar) (g : Globals d) {Os : Type 0} (sys : System Os) where
    Outcome-res_id :
        (table : Table d) (curtime : ℤ) (isdata : IsData) (acc : Acc d) (out : IsData × Acc d × D)
        → Outcome d r cal table curtime isdata acc out
        → out.0.res_id ≡ isdata.res_id
    Outcome-res_id table curtime isdata acc out (_, inl (same, _, _)) =
        ap (λ (x : IsData). x.res_id) same
    Outcome-res_id table curtime isdata acc out (_, inr counted) =
        ap (λ (x : IsData). x.res_id) counted.data_kept

    -- The procedure of a known resource has an answer, and keeps the resource.
    pub count_call_lem :
        (isdata : IsData) (acc : Acc d) (s : Os)
        → IsReady d r g.tables
        → IsKnown isdata
        → Yields (λ x. x.0.res_id ≡ isdata.res_id) (count_call d r cal g sys isdata acc s).1
    unfolding count_call count_proc
    count_call_lem isdata acc s ready (zero, e, below) =
        let table = elements g.tables.inet in
        let curtime = (count_time d r cal g sys 0 s).1 in
        rw (count_call, e)
          (Yields-weaken (inet_count_proc_lem d r cal table curtime isdata acc ready.prices)
            (λ x o. Outcome-res_id table curtime isdata acc x o ∙ e))
    count_call_lem isdata acc s ready (suc zero, e, below) = rw (count_call, e) (value e)
    count_call_lem isdata acc s ready (suc (suc zero), e, below) = rw (count_call, e) (value e)
    count_call_lem isdata acc s ready (suc (suc (suc zero)), e, below) =
        rw (count_call, e) (value e)
    count_call_lem isdata acc s ready (suc (suc (suc (suc n))), e, below) = absurd (omega arith)

    -- "Count transaction sum" has an answer.
    pub sum_of_lem :
        (isdata : IsData) (acc : Acc d) (realarg limit : D) (s : Os)
        → IsReady d r g.tables
        → IsKnown isdata
        → Yields (λ x. Unit {0}) (sum_of d r cal g sys isdata acc realarg limit s).1
    unfolding sum_of
    sum_of_lem isdata acc realarg limit s ready known =
        let minus_one = r.of_int (negsuc 0) in
        elim (Bool-cases (eq_ℤ isdata.res_id res_adder)) [
          | inl payment ↦ rw (sum_of, payment) (value tt)
          | inr traffic ↦ elim (Bool-cases (r.le realarg minus_one && r.le minus_one realarg)) [
            | inl counts ↦
                rw (sum_of, traffic, counts)
                  (Yields-weaken (count_call_lem isdata acc s ready known) (λ x same. tt))
            | inr priced ↦ rw (sum_of, traffic, priced) (value tt)
          ]
        ]

    module _ (accs : Store Os (Acc d)) where
      account_part_lem :
          (uninit : Acc d) (base : Handle) (rec : ℤ) (isdata : IsData) (realarg limit : D) (s : Os)
          → IsReady d r g.tables
          → IsKnown isdata
          → Yields
              (λ x. Unit {0})
              (account_part d r cal g sys accs uninit base rec isdata realarg limit s).1
      unfolding account_part store_part
      account_part_lem uninit base rec isdata realarg limit s ready known =
          let (t, (rc, acc)) = retry_get d sys accs 3 base rec (success, uninit) s in
          let before = if logs_balance rc then acc.balance else d.zero_sum in
          let m = sum_of d r cal g sys isdata acc realarg limit in
          let (x, summed, _) = Yields-value (sum_of_lem isdata acc realarg limit t ready known) in
          rw (after-ok m (store_part d r cal g sys accs base rec rc before) t x summed) (value tt)

      finish_lem :
          (logs : Store Os (Logrec d)) (base logbase : Handle) (entry : Logrec d) (out : Acc d)
          (s : Os)
          → IsReady d r g.tables
          → Yields (λ c. Unit {0}) (finish d r cal g sys accs logs base logbase entry out s).1
      unfolding finish
      finish_lem logs base logbase entry out s ready =
          answer_lem d r (elements g.tables.limit) _ out ready.limits

      module _ {held : Os → ℕ → Bool} (locks : IsLocking sys held) (logs : Store Os (Logrec d))
          (acc_keeps : HoldsLocks accs held) (log_keeps : HoldsLocks logs held) where
        acc_transaction_lem :
            (uninit : Acc d) (base logbase : Handle) (rec : ℤ) (isdata : IsData) (realarg limit : D)
            (s : Os)
            → IsReady d r g.tables
            → IsKnown isdata
            → base.fd ≢ logbase.fd
            → held s base.fd ≡ base.fasync
            → held s logbase.fd ≡ logbase.fasync
            → let (t, code) =
                acc_transaction d r cal g sys accs logs uninit base logbase rec
                  (some isdata)
                  realarg
                  limit
                  s in
              Yields (λ c. Unit {0}) code × ((f : ℕ) → held t f ≡ held s f)
        unfolding acc_transaction after
        acc_transaction_lem uninit base logbase rec isdata realarg limit s ready known apart m n =
            let (t, rc) = baselock sys base s in
            elim (Bool-cases (is_neg rc)) [
              | inl e ↦ rw e (value tt, λ f. lock_refused sys locks base s f e)
              | inr e ↦
                  let (u, now) = sys.time t in
                  let part = account_part d r cal g sys accs uninit base rec isdata realarg limit in
                  let ((serrno, before, given, sum, out), done, _) =
                    Yields-value
                      (account_part_lem uninit base rec isdata realarg limit u ready known) in
                  let entry = entry_of d now rec sum (some given) serrno before in
                  let kept = λ (f : ℕ).
                    account_part-holds sys locks d r cal g accs logs acc_keeps log_keeps uninit base
                      rec isdata realarg limit u f
                    ∙ locks.time_holds t f in
                  rw (e, after, done)
                    (
                      finish_lem logs base logbase entry out (part u).0 ready,
                      finish-restores sys locks d r cal g accs logs acc_keeps log_keeps base logbase
                          entry out s (part u).0 apart m n e kept,
                    )
            ]

        -- After tariffs_load has filled empty tables and answered 0, from a file in which all hours are
        -- not negative, acc_transaction comes back with a code from every account, every data of a
        -- known resource, every sum and every limit, without a fault. It leaves each lock of the
        -- program as it was, if the account base and the log are two files whose locks are held
        -- exactly in asynchronous mode.
        pub acc_transaction-tariffs_load :
            (p : Parser d) (plans : List Plan) (t : Tables d) (uninit : Acc d)
            (base logbase : Handle) (rec : ℤ) (isdata : IsData) (realarg limit : D) (s : Os)
            → AllHours plans
            → t.inet.block ≡ none
            → t.inet.cnt ≡ 0
            → tariffs_load d r p (some plans) t ≡ (g.tables, pos 0)
            → IsKnown isdata
            → base.fd ≢ logbase.fd
            → held s base.fd ≡ base.fasync
            → held s logbase.fd ≡ logbase.fasync
            → let (u, code) =
                acc_transaction d r cal g sys accs logs uninit base logbase rec
                  (some isdata)
                  realarg
                  limit
                  s in
              Yields (λ c. Unit {0}) code × ((f : ℕ) → held u f ≡ held s f)
        acc_transaction-tariffs_load p plans t uninit base logbase rec isdata realarg limit s hours
              null count loaded =
            acc_transaction_lem uninit base logbase rec isdata realarg limit s (
              subst (IsReady d r) (ap (λ x. x.0) loaded)
                (IsReady-tariffs_load d r p plans t hours null count (ap (λ x. x.1) loaded)))

-- ===== src/Core/Trans.antt =====
-- acc_transaction and acc_charge_trans. Every lock, file and clock is a call on the system, and a fault
-- of a procedure or of a table ends the run where it happens.
pub mod Stepping
pub mod Keeping
pub mod Storing
pub mod Leaking
pub mod Ending
use rubsd.Prelude.{ℕ, Bool, true, false, not, ◌&&◌, ◌==◌, Option, none, some, if◌then◌else◌}
use rubsd.Prelude.Int.{ℤ, pos, negsuc, is_neg, eq_ℤ}
use rubsd.Prelude.Run.{Run, ok, fault, out_of_fuel}
use rubsd.Base.Env.{Double, M, ◌>>=◌, ◌>>◌, return, Store, System, Handle, success, io_error}
use rubsd.Base.Record.{Acc, IsData, Logrec}
use rubsd.Log
use rubsd.Acc.State.{baselock, baseunlock}
use rubsd.Acc.Trans.{writes_back, logs_balance, retry_get, retry_put, charged, entry_of}
use rubsd.Res.{Calendar, Reals}
use rubsd.Res.Counting.{count_proc, charge_proc}
use rubsd.Tariffs.{Tables, elements}
use rubsd.Core.{res_adder, acc_nocharge, answer, paid_in, paid, logged_sum, refuses}

-- A step whose value may be missing, for a fault, and what follows it.
unfoldable pub after : {Os A B : Type 0} → M Os (Run A) → (A → M Os (Run B)) → M Os (Run B)
after m f s = elim ((m s).1) [
  | ok a ↦ f a (m s).0
  | fault ↦ ((m s).0, fault)
  | out_of_fuel ↦ ((m s).0, out_of_fuel)
]

-- What the transactions read: `HackTime`, and the tables of tariffs.
pub record Globals (d : Double) : Type 0 where
  pub hack_time : ℤ
  pub tables : Tables d

module _ (d : Double) (r : Reals d) where
  open d use {D}

  module _ (cal : Calendar) (g : Globals d) {Os : Type 0} (sys : System Os) where
    -- The time of a resource's count procedure: only inet_count_proc asks for it, and only if
    -- `HackTime` is 0.
    unfoldable pub count_time : ℕ → M Os ℤ
    count_time n =
        if not (eq_ℤ g.hack_time (pos 0))
        then return g.hack_time
        else if n == 0
        then sys.time
        else return (pos 0)

    -- `resource[isdata->res_id].count(isdata, &acc)`
    unfoldable pub count_call : IsData → Acc d → M Os (Run (IsData × Acc d × D))
    count_call isdata acc s = elim (isdata.res_id) [
      | negsuc n ↦ (s, fault)
      | pos n ↦
          let (t, curtime) = count_time n s in
          (
            t,
            elim (count_proc d r cal (elements g.tables.inet) curtime n) [
              | none ↦ fault
              | some count ↦ count isdata acc
            ],
          )
    ]

    -- `resource[isdata->res_id].charge(&acc)`
    unfoldable pub charge_call : Option IsData → Acc d → M Os (Run (Acc d × D))
    charge_call none acc s = (s, fault)
    charge_call (some isdata) acc s = elim (isdata.res_id) [
      | negsuc n ↦ (s, fault)
      | pos n ↦
          let (t, now) = sys.time s in
          (
            t,
            elim (charge_proc d r cal (elements g.tables.inet) now n) [
              | none ↦ fault
              | some charge ↦ charge acc
            ],
          )
    ]

    -- "Count transaction sum"
    unfoldable pub sum_of : IsData → Acc d → D → D → M Os (Run (IsData × Acc d × D))
    sum_of isdata acc realarg limit =
        let minus_one = r.of_int (negsuc 0) in
        if eq_ℤ isdata.res_id res_adder
        then return (ok (isdata, acc, paid_in d r acc realarg limit))
        else if r.le realarg minus_one && r.le minus_one realarg
        then count_call isdata acc
        else return (
            ok (
              isdata,
              acc,
              r.neg (r.div (r.mul (r.of_int (pos isdata.value)) realarg) (r.of_int (pos 1048576))),
            ))

    module _ (accs : Store Os (Acc d)) where
      -- "if account is valid - write account back", with the code for the log.
      unfoldable pub write_back : Handle → ℤ → ℤ → Acc d → M Os (ℤ × Acc d)
      write_back base rec rc acc = if not (writes_back rc) then return (rc, acc) else (do
        (put_rc, out) ← retry_put d sys accs 3 base rec (rc, acc)
        return (if is_neg put_rc then put_rc else rc, out))

      -- The account with the sum, written back, and what the entry gets.
      unfoldable pub store_part :
          Handle → ℤ → ℤ → D → IsData × Acc d × D → M Os (Run (ℤ × D × IsData × D × Acc d))
      store_part base rec rc before (given, counted, sum) = do
        (serrno, out) ← write_back base rec rc (paid d r rc given.res_id sum counted)
        return (ok (serrno, before, given, logged_sum d r counted given.res_id sum, out))

      -- The account's part of acc_transaction: the code for the log, the balance before, the data and
      -- the sum for the log, and the account.
      unfoldable pub account_part :
          Acc d → Handle → ℤ → IsData → D → D → M Os (Run (ℤ × D × IsData × D × Acc d))
      account_part uninit base rec isdata realarg limit = do
        (rc, acc) ← retry_get d sys accs 3 base rec (success, uninit)
        let before : D = if logs_balance rc then acc.balance else d.zero_sum
        after (sum_of isdata acc realarg limit) (store_part base rec rc before)

      module _ (logs : Store Os (Logrec d)) where
        -- The entry for the log, the unlock and the answer of both transactions.
        unfoldable pub finish : Handle → Handle → Logrec d → Acc d → M Os (Run ℤ)
        finish base logbase entry out = do
          added ← Log.add sys d logs logbase entry
          baseunlock sys base
          return (answer d r (elements g.tables.limit) added.0 out)

        -- acc_transaction; `uninit` is what the record on the stack holds before it is loaded.
        unfoldable pub acc_transaction :
            Acc d → Handle → Handle → ℤ → Option IsData → D → D → M Os (Run ℤ)
        acc_transaction uninit base logbase rec none realarg limit = return (ok io_error)
        acc_transaction uninit base logbase rec (some isdata) realarg limit = do
          locked ← baselock sys base
          if is_neg locked then return (ok io_error) else (do
            now ← sys.time
            after (account_part uninit base rec isdata realarg limit)
                λ (serrno, before, given, sum, out).
                  finish base logbase (entry_of d now rec sum (some given) serrno before) out)

        -- What acc_charge_trans does once it has the sum.
        unfoldable pub charge_rest :
            Handle → Handle → ℤ → Option IsData → ℤ → ℤ → D → Acc d → D → M Os (Run ℤ)
        charge_rest base logbase rec isdata now rc before acc sum =
            if r.is_zero sum then (do baseunlock sys base; return (ok acc_nocharge)) else (do
              (serrno, out) ← write_back base rec rc (charged d rc sum acc)
              finish base logbase (entry_of d now rec sum isdata serrno before) out)

        -- acc_charge_trans; its answer to an account that it refuses comes before the unlock.
        unfoldable pub acc_charge_trans : Acc d → Handle → Handle → ℤ → Option IsData → M Os (Run ℤ)
        acc_charge_trans uninit base logbase rec isdata = do
          locked ← baselock sys base
          if is_neg locked then return (ok io_error) else (do
            now ← sys.time
            (rc, acc) ← retry_get d sys accs 3 base rec (success, uninit)
            let before : D = if logs_balance rc then acc.balance else d.zero_sum
            after (return (refuses d r (elements g.tables.limit) acc)) λ refused.
                if refused
                then return (ok acc_nocharge)
                else after (charge_call isdata acc)
                    λ (counted, sum). charge_rest base logbase rec isdata now rc before counted sum)

-- ===== src/Acc/Trans.antt =====
-- acc_trans: the transaction on an account, with its entry in the log.
pub mod Merging
pub mod Charging
pub mod Refusing
pub mod Unlocking
use rubsd.Prelude.{
  ℕ, zero, suc, ◌+◌, ◌%◌, ◌^◌, ◌-◌, Bool, true, false, not, ◌&&◌, ◌||◌, Option, none, some, ltb,
  if◌then◌else◌, ◌==◌,
}
use rubsd.Prelude.Int.{ℤ, pos, negsuc, is_neg, eq_ℤ, leb_ℤ, ◌/ℤ◌}
use rubsd.Base.Env.{
  Double, M, ◌>>=◌, ◌>>◌, return, Store, System, Handle, success, negative, io_error, acc_frozen,
  acc_off,
}
use rubsd.Base.Record.{Acc, IsData, Logrec}
use rubsd.Log
use rubsd.Acc.State.{baselock, baseunlock, acci_get, acci_put}

-- LogStep, in seconds.
abbrev pub log_step : ℕ
log_step = 1800

abbrev pub uint_max : ℕ
uint_max = 2 ^ 32 - 1

-- What stands for the count module's data when there is none.
abbrev pub no_data : IsData
no_data = record {
  res_id = negsuc 0;
  user_id = pos 0;
  value = 0;
  proto_id = pos 0;
  host = 0;
  proto2 = pos 0;
}

-- Whether acc_trans counts a new balance for an account in this state.
unfoldable pub charges : ℤ → Bool
charges rc = eq_ℤ rc success || eq_ℤ rc negative || eq_ℤ rc acc_off

-- Whether it writes the account back.
unfoldable pub writes_back : ℤ → Bool
writes_back rc = not (is_neg rc) || eq_ℤ rc acc_off

-- Whether the balance that was loaded is logged.
unfoldable pub logs_balance : ℤ → Bool
logs_balance rc = not (is_neg rc) || leb_ℤ rc acc_frozen

-- log_reccount's answer as the number of entries; there is none to try after -1.
unfoldable pub entries_of : ℤ → ℕ
entries_of (pos n) = n
entries_of (negsuc n) = 0

module _ (d : Double) where
  open d use {D}

  unfoldable pub charged : ℤ → D → Acc d → Acc d
  unfolding charges
  charged rc sum acc = if charges rc then record acc { balance = d.add acc.balance sum } else acc

  -- Whether two entries fall into one step of the log.
  unfoldable pub same_step : Logrec d → Logrec d → Bool
  same_step new old = eq_ℤ (new.time /ℤ log_step) (old.time /ℤ log_step)

  -- Whether the new entry may be merged into the old one.
  unfoldable pub mergeable : Logrec d → Logrec d → Bool
  mergeable new old =
      eq_ℤ new.accno old.accno
      && eq_ℤ new.serrno old.serrno
      && eq_ℤ new.isdata.res_id old.isdata.res_id
      && eq_ℤ new.isdata.user_id old.isdata.user_id
      && eq_ℤ new.isdata.proto_id old.isdata.proto_id
      && eq_ℤ new.isdata.proto2 old.isdata.proto2
      && new.isdata.host == old.isdata.host
      && ltb (new.isdata.value + old.isdata.value) uint_max

  unfoldable pub merged : Logrec d → Logrec d → Logrec d
  merged new old = record old {
    isdata = record (old.isdata) { value = (old.isdata.value + new.isdata.value) % 2 ^ 32 };
    sum = d.add old.sum new.sum;
    balance = d.balance_na;
  }

  module _ {Os : Type 0} (sys : System Os) (accs : Store Os (Acc d)) where
    -- `for (i = 0; i < 3; i++) if ((rc = acci_get(...)) != IO_ERROR) break`, by the tries left.
    unfoldable pub retry_get : ℕ → Handle → ℤ → ℤ × Acc d → M Os (ℤ × Acc d)
    retry_get zero base rec last = return last
    retry_get (suc n) base rec last = do
      r ← acci_get d sys accs base rec last.1
      elim (eq_ℤ r.0 io_error) [ true ↦ retry_get n base rec r | false ↦ return r ]

    unfoldable pub retry_put : ℕ → Handle → ℤ → ℤ × Acc d → M Os (ℤ × Acc d)
    retry_put zero base rec last = return last
    retry_put (suc n) base rec last = do
      r ← acci_put d sys accs base rec last.1
      elim (eq_ℤ r.0 io_error) [ true ↦ retry_put n base rec r | false ↦ return r ]

    -- The account's part: the code that is logged, the balance before, and the account.
    unfoldable pub charge : Handle → ℤ → D → Acc d → M Os (ℤ × D × Acc d)
    charge base rec sum uninit = do
      (rc, acc) ← retry_get 3 base rec (success, uninit)
      let before : D = if logs_balance rc then acc.balance else d.zero_sum
      if writes_back rc
          then (do
            (put_rc, out) ← retry_put 3 base rec (rc, charged rc sum acc)
            return (if is_neg put_rc then put_rc else rc, before, out))
          else return (rc, before, charged rc sum acc)

  module _ {Os : Type 0} (sys : System Os) (logs : Store Os (Logrec d)) where
    -- The search for an entry to merge into, from entry `n - 1` down to 0; `rc` is the code so far.
    unfoldable pub merge_down : ℕ → Handle → Logrec d → Logrec d → ℤ → M Os ℤ
    merge_down zero logbase new buf rc = return rc
    merge_down (suc n) logbase new buf rc = do
      (code, old) ← Log.logi_get sys d logs logbase (pos n) buf
      elim (eq_ℤ code success) [
        | false ↦ merge_down n logbase new old code
        | true ↦ elim (same_step new old) [
          | false ↦ return (negsuc 0)
          | true ↦ elim (mergeable new old) [
            | false ↦ merge_down n logbase new old (negsuc 0)
            | true ↦ (do r ← Log.logi_put sys d logs logbase (pos n) (merged new old); return r.0)
          ]
        ]
      ]

    -- The merge under the log's lock, or the lock's code.
    unfoldable pub try_merge : Handle → Logrec d → Logrec d → M Os ℤ
    try_merge logbase new buf = do
      rc ← Log.baselock sys logbase
      if eq_ℤ rc success
          then (do
            recs ← Log.reccount sys d logs logbase
            code ← merge_down (entries_of recs) logbase new buf (negsuc 0)
            Log.baseunlock sys logbase
            return code)
          else return rc

    -- The log's part: merge, or add an entry.
    unfoldable pub log_trans : Handle → Logrec d → Logrec d → M Os ℤ
    log_trans logbase new buf = do
      rc ← try_merge logbase new buf
      if is_neg rc then (do r ← Log.add sys d logs logbase new; return r.0) else return rc

  -- The entry for the log.
  unfoldable pub entry_of : ℤ → ℤ → D → Option IsData → ℤ → D → Logrec d
  entry_of now rec sum isdata serrno before = record {
    time = now;
    accno = rec;
    sum = sum;
    isdata = elim isdata [ none ↦ no_data | some i ↦ i ];
    balance = before;
    serrno = serrno;
    crc = pos 0;
  }

  module _ {Os : Type 0} (sys : System Os) (accs : Store Os (Acc d))
      (logs : Store Os (Logrec d)) where
    -- acc_trans. `uninit` and `buf` are what the two records on the stack hold before they are
    -- loaded.
    unfoldable pub trans : Acc d → Logrec d → Handle → ℤ → D → Option IsData → Handle → M Os ℤ
    trans uninit buf base rec sum isdata logbase = do
      locked ← baselock sys base
      if is_neg locked then return io_error else (do
        now ← sys.time
        (serrno, before, acc) ← charge sys accs base rec sum uninit
        let entry : Logrec d = entry_of now rec sum isdata serrno before
        rc ← log_trans sys logs logbase entry buf
        baseunlock sys base
        if is_neg rc then return rc else return (if d.lt acc.balance d.cent then pos 1 else pos 0))

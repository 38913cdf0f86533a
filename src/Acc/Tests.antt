-- ===== src/Acc/Tests.antt =====
-- A system in memory, and the theorems on the account base in it.
use rubsd.Prelude.{
  ℕ, suc, ◌+◌, ◌≡◌, refl, ◌≢◌, ◌⊎◌, Option-cases, inl, inr, ◌<◌, Option, none, some, Bool, true,
  false, ◌&&◌, arith, ltb, ◌==◌, if◌then◌else◌, ap, ◌∙◌,
}
use rubsd.Prelude.Int.{ℤ, pos, negsuc, eq_ℤ, eq_ℤ-refl, eq_ℤ→eq, ◌/ℤ◌}
use rubsd.Base.Env.{Double, M, Store, System, Handle, success, not_found, io_error, acc_broken}
use rubsd.Base.Record.{Acc, Logrec, is_broken}
use rubsd.Base.Laws.{IsStore, IgnoresCrc, IsLocking, HoldsLocks}
use rubsd.Log
use rubsd.Acc.State.{baselock, balance_state, check, acci_get, stamped, acci_put, get, put, add}
use rubsd.Acc.Old.{check_old, narrowed, check_old-check}
use rubsd.Acc.State.Checks.{IsUsable, check_code, check_marks}
use rubsd.Acc.State.Storing.{acci_get-acci_put}
use rubsd.Acc.State.Locking.{calls-hold}
use rubsd.Acc.Trans.{
  charges, writes_back, logs_balance, charged, retry_get, retry_put, charge, same_step, mergeable,
  merged, merge_down, try_merge, log_trans, entries_of, entry_of, trans, uint_max,
}
use rubsd.Acc.Trans.Unlocking.{trans-holds}
use rubsd.Acc.Trans.Charging.{Rewritten, credited, charge_stores}
use rubsd.Acc.Trans.Refusing.{charge_keeps, trans_missing}
use rubsd.Acc.Trans.Merging.{merged_adds, HasMerged, merge_down_merges}

-- Sums of money in cents.
abbrev cents : Double
cents = record { D = ℕ; add = ◌+◌; lt = ltb; zero_sum = 0; cent = 1; balance_na = 0 }

record Files (R : Type 0) : Type 0 where
  records : ℕ → ℤ → Option R
  counts : ℕ → ℕ

record World : Type 0 where
  accounts : Files (Acc cents)
  entries : Files (Logrec cents)
  locked : ℕ → Bool

abbrev system : System World
system = record {
  shlock = λ fd w. (record w { locked = λ f. if f == fd then true else w.locked f }, success);
  exlock = λ fd w. (record w { locked = λ f. if f == fd then true else w.locked f }, success);
  unlock = λ fd w. (record w { locked = λ f. if f == fd then false else w.locked f }, success);
  sync = λ fd w. (w, success);
  time = λ w. (w, pos 5000);
}

system-IsLocking : IsLocking system (λ w. w.locked)
system-IsLocking = record {
  shlock_takes = λ s fd f. refl;
  exlock_takes = λ s fd f. refl;
  exlock_code = λ s fd. inl refl;
  unlock_gives = λ s fd f. refl;
  sync_holds = λ s fd f. refl;
  time_holds = λ s f. refl;
}

abbrev set_record : {R : Type 0} → ℕ → ℤ → R → Files R → Files R
set_record fd rec r f = record f {
  records = λ g n. if g == fd && eq_ℤ n rec then some r else f.records g n;
}

module _ {R : Type 0} (view : World → Files R) (update : World → Files R → World) where
  abbrev mem_get : ℕ → ℤ → R → M World (ℤ × R)
  mem_get fd rec buf w = elim ((view w).records fd rec) [
    | none ↦ (w, (not_found, buf))
    | some r ↦ (w, (success, r))
  ]

  abbrev mem_put : ℕ → ℤ → R → M World ℤ
  mem_put fd rec r w = elim ((view w).records fd rec) [
    | none ↦ (w, not_found)
    | some old ↦ (update w (set_record fd rec r (view w)), success)
  ]

  abbrev extended : ℕ → R → Files R → Files R
  extended fd r f = record (set_record fd (pos (f.counts fd)) r f) {
    counts = λ g. if g == fd then suc (f.counts fd) else f.counts g;
  }

  abbrev mem_append : ℕ → R → M World ℤ
  mem_append fd r w = elim ((view w).records fd (pos ((view w).counts fd))) [
    | none ↦ (update w (extended fd r (view w)), pos ((view w).counts fd))
    | some old ↦ (w, io_error)
  ]

  abbrev mem_store : (R → ℤ) → Store World R
  mem_store checksum = record {
    get = mem_get;
    put = mem_put;
    append = mem_append;
    reccount = λ fd w. (w, pos ((view w).counts fd));
    checksum = checksum;
  }

  abbrev content : World → ℕ → ℤ → Option R
  content w = (view w).records

  module _ (checksum : R → ℤ) (seen : (w : World) (f : Files R) → view (update w f) ≡ f) where
    mem_append_lem :
        (s : World) (fd : ℕ) (r : R)
        → let (t, c) = mem_append fd r s in
          ((n : ℕ) → c ≡ pos n → content t fd (pos n) ≡ some r)
          × ((n : ℕ) → c ≡ pos n → content s fd (pos n) ≡ none)
          × ((f : ℕ) (n : ℤ) → (f ≢ fd) ⊎ (content s f n ≢ none) → content t f n ≡ content s f n)
    mem_append_lem s fd r =
        let next = (view s).counts fd in
        elim (Option-cases ((view s).records fd (pos next))) [
          | inr (old, taken) ↦
              rw (mem_append, taken) ((λ n e. absurd cc), (λ n e. absurd cc), λ f n ne. refl)
          | inl free ↦
              let now = λ (f : ℕ) (n : ℤ).
                ap (λ (x : Files R). x.records f n) (seen s (extended fd r (view s))) in
              rw (mem_append, free)
                (
                  (λ n e. now fd (pos n) ∙ ground (arith, eq_ℤ-refl (pos next))),
                  (λ n e. let same : next ≡ n = ground arith in rw (← same) free),
                  λ f n ne. now f n ∙ ground (arith, eq_ℤ→eq n (pos next)),
                )
        ]

    mem_store-IsStore :
        ((w : World) (x : ℕ → Bool) → (view (record w { locked = x })).records ≡ (view w).records)
        → IsStore system (mem_store checksum) content
    mem_store-IsStore apart = record {
      get_code = λ s fd rec buf. ground arith;
      get_misses = λ s fd rec buf e. ground arith;
      get_loads = λ s fd rec buf e. ground arith;
      get_keeps = λ s fd rec buf. ground arith;
      put_code = λ s fd rec r. ground arith;
      put_stores =
          λ s fd rec r e. ground (arith, seen s (set_record fd rec r (view s)), eq_ℤ-refl rec);
      put_others = λ s fd rec r f n ne. ground (arith, seen s (set_record fd rec r (view s)));
      append_stores = λ s fd r n. (mem_append_lem s fd r).0 n;
      append_new = λ s fd r n. (mem_append_lem s fd r).1 n;
      append_others = λ s fd r. (mem_append_lem s fd r).2;
      reccount_keeps = λ s fd. refl;
      time_keeps = λ s. refl;
      sync_code = λ s fd. inl refl;
      sync_keeps = λ s fd. refl;
      shlock_keeps = λ s fd. apart s _;
      exlock_keeps = λ s fd. apart s _;
      unlock_keeps = λ s fd. apart s _;
    }

    mem_store-HoldsLocks :
        ((w : World) (f : Files R) → (update w f).locked ≡ w.locked)
        → HoldsLocks (mem_store checksum) (λ w. w.locked)
    mem_store-HoldsLocks same = record {
      get_holds = λ s fd rec buf f. ground arith;
      put_holds = λ s fd rec r f. ground (arith, same s (set_record fd rec r (view s)));
      append_holds = λ s fd r f.
          elim (Option-cases ((view s).records fd (pos ((view s).counts fd)))) [
            | inr (old, taken) ↦ rw (mem_append, taken) refl
            | inl free ↦ rw (mem_append, free) (ap (λ (x : ℕ → Bool). x f) (same s _))
          ];
      reccount_holds = λ s fd f. refl;
    }

abbrev acc_sum : Acc cents → ℤ
acc_sum r = r.accno

abbrev log_sum : Logrec cents → ℤ
log_sum r = r.accno

abbrev accs : Store World (Acc cents)
accs = mem_store (λ w. w.accounts) (λ w f. record w { accounts = f }) acc_sum

abbrev logs : Store World (Logrec cents)
logs = mem_store (λ w. w.entries) (λ w f. record w { entries = f }) log_sum

abbrev accounts_of : World → ℕ → ℤ → Option (Acc cents)
accounts_of = content (λ w. w.accounts) (λ w f. record w { accounts = f })

abbrev entries_in : World → ℕ → ℤ → Option (Logrec cents)
entries_in = content (λ w. w.entries) (λ w f. record w { entries = f })

accs-IsStore : IsStore system accs accounts_of
accs-IsStore =
    mem_store-IsStore (λ w. w.accounts) (λ w f. record w { accounts = f }) acc_sum (λ w f. refl)
      λ w x. refl

logs-IsStore : IsStore system logs entries_in
logs-IsStore =
    mem_store-IsStore (λ w. w.entries) (λ w f. record w { entries = f }) log_sum (λ w f. refl)
      λ w x. refl

accs-HoldsLocks : HoldsLocks accs (λ w. w.locked)
accs-HoldsLocks =
    mem_store-HoldsLocks (λ w. w.accounts) (λ w f. record w { accounts = f }) acc_sum (λ w f. refl)
      λ w f. refl

logs-HoldsLocks : HoldsLocks logs (λ w. w.locked)
logs-HoldsLocks =
    mem_store-HoldsLocks (λ w. w.entries) (λ w f. record w { entries = f }) log_sum (λ w f. refl)
      λ w f. refl

accs-IgnoresCrc : IgnoresCrc cents accs
accs-IgnoresCrc acc x = refl

-- Account 0, with 90 cents.
abbrev account : Acc cents
account = record {
  tag = 0;
  accno = pos 0;
  balance = 90;
  start = pos 0;
  stop = pos 0;
  tariff = pos 2;
  summ_rsttime = pos 0;
  inet_summ_in = pos 0;
  money_summ = 0;
  inet_summ_out = pos 0;
  res_balance = pos 0;
  tcredit = 0;
  res_tcredit = pos 0;
  upd_time = pos 4000;
  crc = pos 0;
}

abbrev entry : Logrec cents
entry = record {
  time = pos 4900;
  accno = pos 0;
  sum = 25;
  isdata = record {
    res_id = pos 1;
    user_id = pos 2;
    value = 700;
    proto_id = pos 0;
    host = 9;
    proto2 = pos 0;
  };
  balance = 90;
  serrno = pos 0;
  crc = pos 0;
}

-- File 3 holds the accounts, with one account, and file 4 the log, with one entry.
abbrev world : World
world = record {
  accounts = record {
    records = λ f n. if f == 3 && eq_ℤ n (pos 0) then some account else none;
    counts = λ f. if f == 3 then 1 else 0;
  };
  entries = record {
    records = λ f n. if f == 4 && eq_ℤ n (pos 0) then some entry else none;
    counts = λ f. if f == 4 then 1 else 0;
  };
  locked = λ f. false;
}

abbrev base : Handle
base = record { fd = 3; fasync = false }

abbrev logbase : Handle
logbase = record { fd = 4; fasync = false }

charge_stores_example :
    let (t, (serrno, before, out)) = charge cents system accs base (pos 0) 5 account world in
    (acc : Acc cents) × (ctime : ℤ) × (accounts_of world 3 (pos 0) ≡ some acc)
    × (serrno ≡ (check cents (acc_sum acc) ctime (pos 0) acc).0)
    × (accounts_of t 3 (pos 0) ≡ some out)
    × Rewritten cents system accs accs-IsStore
        (credited cents system accs accs-IsStore serrno 5 acc)
        out
    × (before ≡ acc.balance)
unfolding charge retry_get retry_put acci_get acci_put check balance_state stamped writes_back
    charged
charge_stores_example =
    charge_stores cents system accs accs-IsStore base (pos 0) 5 account world (inl refl)

-- Another 50 seconds later, for 300 octets more.
abbrev later : Logrec cents
later = record entry { time = pos 4950; sum = 10; isdata = record (entry.isdata) { value = 300 } }

merge_down_merges_example :
    HasMerged cents system logs logs-IsStore 1 4 later world
      (merge_down cents system logs 1 logbase later entry (negsuc 0) world).0
unfolding merge_down Log.logi_get Log.logi_put same_step mergeable merged ◌/ℤ◌
merge_down_merges_example =
    merge_down_merges cents system logs logs-IsStore 1 logbase later entry (negsuc 0) world refl
      refl

trans-holds_example :
    (trans cents system accs logs account entry base (pos 0) 5 none logbase world).0.locked 4
    ≡ false
trans-holds_example =
    trans-holds system system-IsLocking cents accs logs accs-HoldsLocks logs-HoldsLocks account
      entry base (pos 0) 5 none logbase world (omega arith) refl refl 4

acci_get-acci_put_example :
    let t = (acci_put cents system accs base (pos 0) account world).0 in
    let (u, (code, got)) = acci_get cents system accs base (pos 0) account t in
    (code ≢ acc_broken) × (got ≡ stamped cents system accs (pos 5000) account)
unfolding acci_put stamped
acci_get-acci_put_example =
    acci_get-acci_put cents system accs accs-IsStore accs-IgnoresCrc base (pos 0) account account
      world refl refl refl

account-IsUsable : IsUsable cents (pos 0) (pos 0) account
account-IsUsable = record {
  not_deleted = refl;
  not_broken = refl;
  same_crc = refl;
  not_frozen = refl;
  not_off = refl;
  same_number = refl;
}

check_code_run : check cents (pos 0) (pos 5000) (pos 0) account ≡ (success, account)
check_code_run = check_code cents (pos 0) (pos 5000) (pos 0) account account-IsUsable

check_marks_example : is_broken (check cents (pos 7) (pos 5000) (pos 0) account).1.tag ≡ true
unfolding check
check_marks_example = check_marks cents (pos 7) (pos 5000) (pos 0) account refl

calls-hold_example :
    ((get cents system accs base (pos 0) account world).0.locked 3 ≡ false)
    × ((put cents system accs base (pos 0) account world).0.locked 3 ≡ false)
    × ((add cents system accs base account world).0.locked 3 ≡ false)
calls-hold_example =
    calls-hold system system-IsLocking cents accs accs-HoldsLocks base (pos 0) account world refl 3

abbrev frozen_world : World
frozen_world = record world {
  accounts = record (world.accounts) {
    records = λ f n. if f == 3 && eq_ℤ n (pos 0) then some (record account { tag = 4 }) else none;
  };
}

charge_keeps_run :
    accounts_of (charge cents system accs base (pos 0) 5 account frozen_world).0
    ≡ accounts_of frozen_world
charge_keeps_run =
    charge_keeps cents system accs accs-IsStore base (pos 0) 5 account (record account { tag = 4 })
      frozen_world refl (inr (inr refl))

-- There is no account 7, and the answer is the one for the balance of the record on the stack.
trans_missing_example :
    (trans cents system accs logs account entry base (pos 7) 5 none logbase world).1 ≡ pos 0
unfolding baselock Log.baselock Log.baseunlock Log.reccount Log.add charge retry_get acci_get
    log_trans try_merge entries_of entry_of merge_down Log.logi_get same_step mergeable writes_back
    logs_balance charged charges ◌/ℤ◌
trans_missing_example =
    trans_missing cents system accs accs-IsStore logs account entry base (pos 7) 5 none logbase
      world refl refl refl

merged_adds_run :
    let m = merged cents later entry in
    (m.isdata.value ≡ 1000)
    × (m.isdata.value < uint_max)
    × (m.sum ≡ 35)
    × (m.accno ≡ pos 0)
    × (m.serrno ≡ pos 0)
    × (m.isdata.res_id ≡ pos 1)
    × (m.isdata.host ≡ 9)
    × (m.time ≡ pos 4900)
unfolding mergeable
merged_adds_run = merged_adds cents later entry refl

check_old-check_run : check_old cents (pos 5) (pos 100) (pos 7) (narrowed cents account) ≡ (
  (check cents (pos 5) (pos 100) (pos 7) account).0,
  narrowed cents (check cents (pos 5) (pos 100) (pos 7) account).1,
)
check_old-check_run = check_old-check cents (pos 5) (pos 100) (pos 7) account

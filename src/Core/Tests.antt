-- ===== src/Core/Tests.antt =====
-- A daemon with one account in file 3 and a log in file 4.
use rubsd.Prelude.{
  ℕ, ◌≡◌, refl, inl, inr, arith, Bool, true, false, ◌&&◌, Option, some, none, ◌==◌, if◌then◌else◌,
}
use rubsd.Prelude.Int.{ℤ, pos, negsuc, eq_ℤ, eq_ℤ→eq, ◌/ℤ◌, ◌+ℤ◌, ◌-ℤ◌}
use rubsd.Prelude.Run.{ok, Yields}
use rubsd.Base.Env.{Store, System, Handle, success, not_found, io_error}
use rubsd.Base.Record.{Acc, Logrec}
use rubsd.Base.Laws.{IsStore, IsLocking, HoldsLocks}
use rubsd.Acc.State.{baselock, acci_get, check, balance_state}
use rubsd.Acc.Trans.{retry_get}
use rubsd.Acc.Trans.Charging.{Changes}
use rubsd.Res.Tests.{cents, reals, calendar, account, traffic, noon}
use rubsd.Tariffs.{
  no_tables, tariffs_load, elements, finish, load_plans, load_plan, load_inets, add_limit, add,
}
use rubsd.Tariffs.Tests.{parser, file}
use rubsd.Core.{acc_nocharge, logged_sum, acc_limit, find_limit, min_at}
use rubsd.Core.Tables.{IsReady-tariffs_load}
use rubsd.Core.Bitrans.{acc_bitrans}
use rubsd.Core.Bitrans.Ending.{acc_bitrans_lem}
use rubsd.Core.Trans.{Globals, sum_of, charge_call, account_part, acc_transaction, acc_charge_trans}
use rubsd.Core.Trans.Storing.{Stored, account_part_stores}
use rubsd.Core.Trans.Ending.{acc_transaction-tariffs_load}
use rubsd.Core.Trans.Leaking.{IsRefused, IsCharged, acc_charge_trans-locked}

record World : Type 0 where
  acc : Acc cents
  locked : ℕ → Bool

abbrev system : System World
system = record {
  shlock = λ fd w. (record w { locked = λ f. if f == fd then true else w.locked f }, success);
  exlock = λ fd w. (record w { locked = λ f. if f == fd then true else w.locked f }, success);
  unlock = λ fd w. (record w { locked = λ f. if f == fd then false else w.locked f }, success);
  sync = λ fd w. (w, success);
  time = λ w. (w, noon);
}

system-IsLocking : IsLocking system (λ w. w.locked)
system-IsLocking = record {
  shlock_takes = λ s fd f. refl;
  exlock_takes = λ s fd f. refl;
  exlock_code = λ s fd. inl refl;
  unlock_gives = λ s fd f. refl;
  sync_holds = λ s fd f. refl;
  time_holds = λ s f. refl;
}

abbrev is_there : ℕ → ℤ → Bool
is_there fd rec = fd == 3 && eq_ℤ rec (pos 0)

abbrev accs : Store World (Acc cents)
accs = record {
  get = λ fd rec buf w. if is_there fd rec then (w, (success, w.acc)) else (w, (not_found, buf));
  put = λ fd rec r w. if is_there fd rec then (record w { acc = r }, success) else (w, not_found);
  append = λ fd r w. (w, io_error);
  reccount = λ fd w. (w, pos 1);
  checksum = λ r. r.accno;
}

abbrev content : World → ℕ → ℤ → Option (Acc cents)
content w fd rec = if is_there fd rec then some w.acc else none

accs-IsStore : IsStore system accs content
accs-IsStore = record {
  get_code = λ s fd rec buf. ground arith;
  get_misses = λ s fd rec buf e. ground arith;
  get_loads = λ s fd rec buf e. ground arith;
  get_keeps = λ s fd rec buf. ground arith;
  put_code = λ s fd rec r. ground arith;
  put_stores = λ s fd rec r e. ground arith;
  put_others = λ s fd rec r f n ne. ground (arith, eq_ℤ→eq rec (pos 0), eq_ℤ→eq n (pos 0));
  append_stores = λ s fd r n e. absurd cc;
  append_new = λ s fd r n e. absurd cc;
  append_others = λ s fd r f n ne. refl;
  reccount_keeps = λ s fd. refl;
  time_keeps = λ s. refl;
  sync_code = λ s fd. inl refl;
  sync_keeps = λ s fd. refl;
  shlock_keeps = λ s fd. refl;
  exlock_keeps = λ s fd. refl;
  unlock_keeps = λ s fd. refl;
}

accs-HoldsLocks : HoldsLocks accs (λ w. w.locked)
accs-HoldsLocks = record {
  get_holds = λ s fd rec buf f. ground arith;
  put_holds = λ s fd rec r f. ground arith;
  append_holds = λ s fd r f. refl;
  reccount_holds = λ s fd f. refl;
}

-- Every entry is the last of the log.
abbrev logs : Store World (Logrec cents)
logs = record {
  get = λ fd rec buf w. (w, (not_found, buf));
  put = λ fd rec r w. (w, not_found);
  append = λ fd r w. (w, pos 8);
  reccount = λ fd w. (w, pos 9);
  checksum = λ r. r.accno;
}

logs-HoldsLocks : HoldsLocks logs (λ w. w.locked)
logs-HoldsLocks = record {
  get_holds = λ s fd rec buf f. refl;
  put_holds = λ s fd rec r f. refl;
  append_holds = λ s fd r f. refl;
  reccount_holds = λ s fd f. refl;
}

abbrev customer : Acc cents
customer = record account { accno = pos 0 }

abbrev world : World
world = record { acc = customer; locked = λ f. false }

abbrev base : Handle
base = record { fd = 3; fasync = false }

abbrev logbase : Handle
logbase = record { fd = 4; fasync = false }

abbrev globals : Globals cents
globals = record {
  hack_time = pos 0;
  tables = (tariffs_load cents reals parser (some file) (no_tables cents)).0;
}

acc_transaction-tariffs_load_example :
    let (u, code) =
      acc_transaction cents reals calendar globals system accs logs customer base logbase
        (pos 0)
        (some traffic)
        (negsuc 0)
        (pos 0)
        world in
    Yields (λ c. Unit {0}) code × ((f : ℕ) → u.locked f ≡ false)
unfolding tariffs_load finish load_plans load_plan add add_limit load_inets
acc_transaction-tariffs_load_example =
    acc_transaction-tariffs_load cents reals calendar globals system accs system-IsLocking logs
      accs-HoldsLocks logs-HoldsLocks parser file (no_tables cents) customer base logbase (pos 0)
      traffic (negsuc 0) (pos 0) world ((refl, tt), ((refl, tt), tt)) refl refl refl
      (0, refl, omega arith) (omega arith) refl refl

-- Three megabytes at 100 cents each.
account_part_stores_example :
    let (u, result) =
      account_part cents reals calendar globals system accs customer base
        (pos 0)
        traffic
        (pos 100)
        (pos 0)
        world in
    Yields
      (λ (serrno, before, given, logged, out).
        (given ≡ traffic)
        × (logged ≡ logged_sum cents reals customer (pos 0) (negsuc 299))
        × (Changes cents system accs accs-IsStore serrno
            → Stored cents reals calendar globals system accs accs-IsStore base
                (pos 0)
                world
                customer
                customer
                traffic
                (negsuc 299)
                u
                serrno
                before
                out))
      result
unfolding retry_get acci_get check balance_state sum_of ◌/ℤ◌ ◌-ℤ◌
account_part_stores_example =
    account_part_stores cents reals calendar globals system accs accs-IsStore customer base (pos 0)
      traffic (pos 100) (pos 0) world traffic customer (negsuc 299) refl

abbrev poor : World
poor = record world { acc = record customer { balance = negsuc 49 } }

acc_charge_trans-locked_example :
    let (u, code) =
      acc_charge_trans cents reals calendar globals system accs logs customer base logbase
        (pos 0)
        (some traffic)
        poor in
    (IsRefused cents reals (elements globals.tables.limit) poor.acc
      → (code ≡ ok acc_nocharge) × (u.locked 3 ≡ true))
    × ((x : Acc cents × ℤ)
        → IsCharged cents reals (elements globals.tables.limit) poor.acc
        → (charge_call cents reals calendar globals system
            (some traffic)
            poor.acc
            (baselock system base poor).0).1
          ≡ ok x
        → (f : ℕ) → u.locked f ≡ false)
unfolding retry_get acci_get check balance_state baselock
acc_charge_trans-locked_example =
    acc_charge_trans-locked system system-IsLocking cents reals calendar globals accs logs
      accs-HoldsLocks logs-HoldsLocks customer base logbase (pos 0) (some traffic) poor
      (omega arith) refl refl refl refl

-- That account is refused.
poor_run : IsRefused cents reals (elements globals.tables.limit) poor.acc
unfolding acc_limit find_limit min_at tariffs_load finish load_plans load_plan load_inets add_limit
    add ◌+ℤ◌
poor_run = inr (inr (inr (pos 0, refl, refl)))

acc_bitrans_lem_example :
    let (u, code) =
      acc_bitrans cents reals calendar globals system accs logs customer base logbase
        (pos 0)
        (some traffic)
        1048576
        2097152
        world in
    Yields (λ c. Unit {0}) code × ((f : ℕ) → u.locked f ≡ false)
unfolding tariffs_load finish load_plans load_plan add add_limit load_inets
acc_bitrans_lem_example =
    acc_bitrans_lem system system-IsLocking cents reals calendar globals accs logs accs-HoldsLocks
      logs-HoldsLocks customer base logbase (pos 0) traffic 1048576 2097152 world
      (IsReady-tariffs_load cents reals parser file (no_tables cents) ((refl, tt), ((refl, tt), tt))
        refl refl refl)
      (0, refl, omega arith) (omega arith) refl refl

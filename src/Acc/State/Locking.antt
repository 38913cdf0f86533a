-- ===== src/Acc/State/Locking.antt =====
-- The locks of the account base: every function leaves them as it found them.
use rubsd.Prelude.{ℕ, ◌≡◌, ◌≢◌, ◌⊎◌, Bool, true, false, arith}
use rubsd.Prelude.Int.{ℤ, is_neg}
use rubsd.Base.Env.{Double, Store, System, Handle, success}
use rubsd.Base.Record.{Acc}
use rubsd.Base.Laws.{IsLocking, HoldsLocks}
use rubsd.Acc.State.{
  baselock, baseunlock, acci_get, stamped, acci_put, get, put, add_locked, add, reccount,
}

module _ {Os : Type 0} (sys : System Os) {held : Os → ℕ → Bool} (locks : IsLocking sys held)
    (base : Handle) (s : Os) where
  pub lock_code : ((baselock sys base s).1 ≡ success) ⊎ (is_neg (baselock sys base s).1 ≡ true)
  unfolding baselock
  lock_code = ground (arith, locks.exlock_code s base.fd)

  -- A lock that is refused changes none.
  pub lock_refused :
      (f : ℕ) → is_neg (baselock sys base s).1 ≡ true → held (baselock sys base s).0 f ≡ held s f
  unfolding baselock
  lock_refused f e = ground (arith, locks.exlock_takes s base.fd f)

  -- One that is granted changes its own only.
  pub lock_others :
      (f : ℕ)
      → base.fd ≢ f
      → is_neg (baselock sys base s).1 ≡ false
      → held (baselock sys base s).0 f ≡ held s f
  unfolding baselock
  lock_others f ne e = ground (arith, locks.exlock_takes s base.fd f)

  -- The unlock after it, at any later state with the same locks, restores the state before.
  pub unlock_restores :
      (t : Os)
      → held s base.fd ≡ base.fasync
      → ((f : ℕ) → held t f ≡ held (baselock sys base s).0 f)
      → (f : ℕ) → is_neg (baselock sys base s).1 ≡ false
      → held (baseunlock sys base t).0 f ≡ held s f
  unfolding baselock baseunlock
  unlock_restores t m same f e =
      ground (arith, locks.exlock_takes s base.fd f, locks.unlock_gives t base.fd f, same f)

module _ {Os : Type 0} (sys : System Os) {held : Os → ℕ → Bool} (locks : IsLocking sys held) where
  -- A handle's own lock is held exactly in asynchronous mode.
  abbrev pub LocksMatch : Handle → Os → Type 0
  LocksMatch base s = held s base.fd ≡ base.fasync

  module _ (d : Double) (store : Store Os (Acc d)) (keeps : HoldsLocks store held) where
    pub acci_get-holds :
        (base : Handle) (rec : ℤ) (buf : Acc d) (s : Os) (f : ℕ)
        → held (acci_get d sys store base rec buf s).0 f ≡ held s f
    unfolding acci_get
    acci_get-holds base rec buf s f =
        ground (arith, locks.time_holds s f, keeps.get_holds (sys.time s).0 base.fd rec buf f)

    pub acci_put-holds :
        (base : Handle) (rec : ℤ) (acc : Acc d) (s : Os) (f : ℕ)
        → held (acci_put d sys store base rec acc s).0 f ≡ held s f
    unfolding acci_put
    acci_put-holds base rec acc s f =
        let now = sys.time s in
        let out = stamped d sys store now.1 acc in
        ground (
          arith,
          locks.time_holds s f,
          keeps.put_holds now.0 base.fd rec out f,
          locks.sync_holds (store.put base.fd rec out now.0).0 base.fd f,
        )

    add_locked-holds :
        (base : Handle) (acc : Acc d) (s : Os) (f : ℕ)
        → held (add_locked d sys store base acc s).0 f ≡ held s f
    unfolding add_locked reccount
    add_locked-holds base acc s f =
        let counted = store.reccount base.fd s in
        let now = sys.time counted.0 in
        let fresh : Acc d = record acc { accno = counted.1; upd_time = now.1 } in
        let out : Acc d = record fresh { crc = store.checksum fresh } in
        ground (
          arith,
          keeps.reccount_holds s base.fd f,
          locks.time_holds counted.0 f,
          keeps.append_holds now.0 base.fd out f,
          locks.sync_holds (store.append base.fd out now.0).0 base.fd f,
        )

    -- If the lock of the account base is held exactly in asynchronous mode, acc_get, acc_put and
    -- acc_add, on every branch, leave each lock of the program as it was.
    pub calls-hold :
        (base : Handle) (rec : ℤ) (acc : Acc d) (s : Os)
        → LocksMatch base s
        → (f : ℕ)
        → (held (get d sys store base rec acc s).0 f ≡ held s f)
          × (held (put d sys store base rec acc s).0 f ≡ held s f)
          × (held (add d sys store base acc s).0 f ≡ held s f)
    unfolding get put add baselock baseunlock
    calls-hold base rec acc s m f =
        let shared = sys.shlock base.fd s in
        let exclusive = sys.exlock base.fd s in
        (
          ground (
            arith,
            m,
            locks.shlock_takes s base.fd f,
            acci_get-holds base rec acc s f,
            acci_get-holds base rec acc shared.0 f,
            locks.unlock_gives (acci_get d sys store base rec acc shared.0).0 base.fd f,
          ),
          ground (
            arith,
            m,
            locks.exlock_takes s base.fd f,
            acci_put-holds base rec acc s f,
            acci_put-holds base rec acc exclusive.0 f,
            locks.unlock_gives (acci_put d sys store base rec acc exclusive.0).0 base.fd f,
          ),
          ground (
            arith,
            m,
            locks.exlock_takes s base.fd f,
            add_locked-holds base acc s f,
            add_locked-holds base acc exclusive.0 f,
            locks.unlock_gives (add_locked d sys store base acc exclusive.0).0 base.fd f,
          ),
        )

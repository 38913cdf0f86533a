-- ===== src/Log/Locking.antt =====
-- The lock of the log around the functions of log.c.
use rubsd.Prelude.{ℕ, ◌≡◌, ◌⊎◌, Bool, true, false, arith}
use rubsd.Prelude.Int.{is_neg}
use rubsd.Base.Env.{System, Handle, success}
use rubsd.Base.Laws.{IsLocking}
use rubsd.Log.{baselock, baseunlock}

module _ {Os : Type 0} (sys : System Os) {held : Os → ℕ → Bool} (locks : IsLocking sys held)
    (base : Handle) (s : Os) where
  pub log_lock_code : ((baselock sys base s).1 ≡ success) ⊎ (is_neg (baselock sys base s).1 ≡ true)
  unfolding baselock
  log_lock_code = ground (arith, locks.exlock_code s base.fd)

  -- A lock that is refused changes none.
  pub log_lock_refused :
      (f : ℕ) → is_neg (baselock sys base s).1 ≡ true → held (baselock sys base s).0 f ≡ held s f
  unfolding baselock
  log_lock_refused f e = ground (arith, locks.exlock_takes s base.fd f)

  -- The unlock after it, at any later state with the same locks, restores the state before.
  pub log_unlock_restores :
      (t : Os)
      → held s base.fd ≡ base.fasync
      → ((f : ℕ) → held t f ≡ held (baselock sys base s).0 f)
      → (f : ℕ) → is_neg (baselock sys base s).1 ≡ false
      → held (baseunlock sys base t).0 f ≡ held s f
  unfolding baselock baseunlock
  log_unlock_restores t m same f e =
      ground (arith, locks.exlock_takes s base.fd f, locks.unlock_gives t base.fd f, same f)

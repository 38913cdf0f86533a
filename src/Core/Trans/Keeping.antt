-- ===== src/Core/Trans/Keeping.antt =====
-- The locks of the transactions: what each of their parts does to them.
use rubsd.Prelude.{
  ℕ, ◌≡◌, refl, ◌≢◌, ◌∙◌, inl, inr, Bool, false, Option, none, some, arith, if◌then◌else◌,
}
use rubsd.Prelude.Int.{ℤ, is_neg}
use rubsd.Prelude.Run.{Run}
use rubsd.Base.Env.{Double, M, Store, System, Handle, success}
use rubsd.Base.Record.{Acc, IsData, Logrec}
use rubsd.Base.Laws.{IsLocking, HoldsLocks}
use rubsd.Log
use rubsd.Acc.State.{baselock}
use rubsd.Acc.State.Locking.{lock_others, unlock_restores}
use rubsd.Acc.Trans.{retry_get, logs_balance}
use rubsd.Acc.Trans.Unlocking.{retry_get-holds, retry_put-holds, log_add-holds}
use rubsd.Res.{Calendar, Reals}
use rubsd.Core.{paid}
use rubsd.Core.Trans.Stepping.{after-cases}
use rubsd.Core.Trans.{
  after, Globals, count_time, count_call, charge_call, sum_of, write_back, store_part, account_part,
  finish,
}

module _ {Os : Type 0} (sys : System Os) {held : Os → ℕ → Bool} (locks : IsLocking sys held)
    (d : Double) (r : Reals d) (cal : Calendar) (g : Globals d) where
  open d use {D}

  pub after-holds :
      {A B : Type 0} (m : M Os (Run A)) (f : A → M Os (Run B)) (s : Os) (fd : ℕ)
      → held (m s).0 fd ≡ held s fd
      → ((a : A) (t : Os) → held (f a t).0 fd ≡ held t fd)
      → held (after m f s).0 fd ≡ held s fd
  after-holds m f s fd first then_f = elim (after-cases m f s) [
    | inl (a, _, e) ↦ rw e (then_f a (m s).0 ∙ first)
    | inr (e, _) ↦ rw e first
  ]

  pub count_call-holds :
      (isdata : IsData) (acc : Acc d) (s : Os) (f : ℕ)
      → held (count_call d r cal g sys isdata acc s).0 f ≡ held s f
  unfolding count_call count_time
  count_call-holds isdata acc s f = ground (arith, locks.time_holds s f)

  pub charge_call-holds :
      (isdata : Option IsData) (acc : Acc d) (s : Os) (f : ℕ)
      → held (charge_call d r cal g sys isdata acc s).0 f ≡ held s f
  unfolding charge_call
  charge_call-holds none acc s f = refl
  charge_call-holds (some isdata) acc s f = ground (arith, locks.time_holds s f)

  sum_of-holds :
      (isdata : IsData) (acc : Acc d) (realarg limit : D) (s : Os) (f : ℕ)
      → held (sum_of d r cal g sys isdata acc realarg limit s).0 f ≡ held s f
  unfolding sum_of
  sum_of-holds isdata acc realarg limit s f = ground (arith, count_call-holds isdata acc s f)

  module _ (accs : Store Os (Acc d)) (logs : Store Os (Logrec d)) (acc_keeps : HoldsLocks accs held)
      (log_keeps : HoldsLocks logs held) where
    pub write_back-holds :
        (base : Handle) (rec rc : ℤ) (acc : Acc d) (s : Os) (f : ℕ)
        → held (write_back d r cal g sys accs base rec rc acc s).0 f ≡ held s f
    unfolding write_back
    write_back-holds base rec rc acc s f =
        ground (
          arith,
          retry_put-holds sys locks d accs logs acc_keeps log_keeps 3 base rec (rc, acc) s f,
        )

    store_part-holds :
        (base : Handle) (rec rc : ℤ) (before : D) (x : IsData × Acc d × D) (s : Os) (f : ℕ)
        → held (store_part d r cal g sys accs base rec rc before x s).0 f ≡ held s f
    unfolding store_part
    store_part-holds base rec rc before (given, counted, sum) s f =
        write_back-holds base rec rc (paid d r rc given.res_id sum counted) s f

    pub account_part-holds :
        (uninit : Acc d) (base : Handle) (rec : ℤ) (isdata : IsData) (realarg limit : D) (s : Os)
        (f : ℕ)
        → held (account_part d r cal g sys accs uninit base rec isdata realarg limit s).0 f
          ≡ held s f
    unfolding account_part
    account_part-holds uninit base rec isdata realarg limit s f =
        let (t, (rc, acc)) = retry_get d sys accs 3 base rec (success, uninit) s in
        let before = if logs_balance rc then acc.balance else d.zero_sum in
        after-holds (sum_of d r cal g sys isdata acc realarg limit)
          (store_part d r cal g sys accs base rec rc before) t f
          (sum_of-holds isdata acc realarg limit t f)
          (λ x u. store_part-holds base rec rc before x u f)
        ∙ retry_get-holds sys locks d accs logs acc_keeps log_keeps 3 base rec (success, uninit) s f

    -- The end of a transaction, at a state with the locks that its start took, gives them back.
    pub finish-restores :
        (base logbase : Handle) (entry : Logrec d) (out : Acc d) (s t : Os)
        → base.fd ≢ logbase.fd
        → held s base.fd ≡ base.fasync
        → held s logbase.fd ≡ logbase.fasync
        → is_neg (baselock sys base s).1 ≡ false
        → ((f : ℕ) → held t f ≡ held (baselock sys base s).0 f)
        → (f : ℕ) → held (finish d r cal g sys accs logs base logbase entry out t).0 f ≡ held s f
    unfolding finish
    finish-restores base logbase entry out s t apart m n granted same f =
        let at_log = same logbase.fd ∙ lock_others sys locks base s logbase.fd apart granted ∙ n in
        let adding =
          log_add-holds sys locks d accs logs acc_keeps log_keeps logbase entry t at_log in
        unlock_restores sys locks base s (Log.add sys d logs logbase entry t).0 m
          (λ f'. adding f' ∙ same f') f granted

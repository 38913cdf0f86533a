-- ===== src/Core/Trans/Leaking.antt =====
-- The locks of acc_charge_trans.
use rubsd.Prelude.{
  ℕ, ◌≡◌, refl, ◌≢◌, ◌∙◌, ◌⊎◌, ◌||◌, sym, inl, inr, Bool, true, false, List, Option, arith,
  if◌then◌else◌, Bool-cases,
}
use rubsd.Prelude.Int.{ℤ, is_neg}
use rubsd.Prelude.Run.{ok}
use rubsd.Base.Env.{Double, Store, System, Handle, success}
use rubsd.Base.Record.{Acc, IsData, Logrec, is_deleted, is_broken, is_frozen}
use rubsd.Base.Laws.{IsLocking, HoldsLocks}
use rubsd.Acc.State.{baselock}
use rubsd.Acc.State.Locking.{unlock_restores}
use rubsd.Acc.Trans.{retry_get, logs_balance, charged, entry_of}
use rubsd.Acc.Trans.Unlocking.{retry_get-holds}
use rubsd.Res.{Calendar, Reals}
use rubsd.Tariffs.{Limit, elements}
use rubsd.Core.{acc_nocharge, acc_limit, is_below, refuses}
use rubsd.Core.Trans.{after, Globals, charge_call, write_back, charge_rest, acc_charge_trans}
use rubsd.Core.Trans.Keeping.{charge_call-holds, write_back-holds, finish-restores}

module _ (d : Double) (r : Reals d) (limits : List (Limit d)) where
  open d use {D}

  -- An account that no charge is due from: it is not valid, or its balance is below its limit.
  abbrev pub IsRefused : Acc d → Type 0
  IsRefused acc =
      (is_deleted acc.tag ≡ true)
      ⊎ (is_broken acc.tag ≡ true)
      ⊎ (is_frozen acc.tag ≡ true)
      ⊎ ((limit : D) × (acc_limit d r limits acc ≡ ok limit)
          × (d.lt acc.balance (d.add limit d.cent) ≡ true))

  -- One that a charge is due from.
  abbrev pub IsCharged : Acc d → Type 0
  IsCharged acc =
      (is_deleted acc.tag ≡ false)
      × (is_broken acc.tag ≡ false)
      × (is_frozen acc.tag ≡ false)
      × ((limit : D) × (acc_limit d r limits acc ≡ ok limit)
          × (d.lt acc.balance (d.add limit d.cent) ≡ false))

  IsRefused-refuses : (acc : Acc d) → IsRefused acc → refuses d r limits acc ≡ ok true
  unfolding refuses is_below
  IsRefused-refuses acc h =
      elim (Bool-cases (is_deleted acc.tag || is_broken acc.tag || is_frozen acc.tag)) [
        | inl marked ↦ rw (refuses, marked) refl
        | inr unmarked ↦ elim h [
          | inl e ↦ absurd (ground arith)
          | inr (inl e) ↦ absurd (ground arith)
          | inr (inr (inl e)) ↦ absurd (ground arith)
          | inr (inr (inr (limit, known, below))) ↦
              rw (refuses, unmarked, is_below, known, below) refl
        ]
      ]

  IsCharged-refuses : (acc : Acc d) → IsCharged acc → refuses d r limits acc ≡ ok false
  unfolding refuses is_below
  IsCharged-refuses acc (kept, sound, live, (limit, known, above)) =
      let unmarked : (is_deleted acc.tag || is_broken acc.tag || is_frozen acc.tag) ≡ false =
        ground arith in
      rw (refuses, unmarked, is_below, known, above) refl

module _ {Os : Type 0} (sys : System Os) {held : Os → ℕ → Bool} (locks : IsLocking sys held)
    (d : Double) (r : Reals d) (cal : Calendar) (g : Globals d) (accs : Store Os (Acc d))
    (logs : Store Os (Logrec d)) (acc_keeps : HoldsLocks accs held)
    (log_keeps : HoldsLocks logs held) where
  open d use {D}

  baselock_takes :
      (base : Handle) (s : Os)
      → is_neg (baselock sys base s).1 ≡ false
      → base.fasync ≡ false
      → held (baselock sys base s).0 base.fd ≡ true
  unfolding baselock
  baselock_takes base s granted sync = ground (arith, locks.exlock_takes s base.fd base.fd)

  charge_rest-restores :
      (base logbase : Handle) (rec : ℤ) (isdata : Option IsData) (now rc : ℤ) (before : D)
      (acc : Acc d) (sum : D) (s t : Os)
      → base.fd ≢ logbase.fd
      → held s base.fd ≡ base.fasync
      → held s logbase.fd ≡ logbase.fasync
      → is_neg (baselock sys base s).1 ≡ false
      → ((f : ℕ) → held t f ≡ held (baselock sys base s).0 f)
      → (f : ℕ)
      → held
          (charge_rest d r cal g sys accs logs base logbase rec isdata now rc before acc sum t).0
          f
        ≡ held s f
  unfolding charge_rest
  charge_rest-restores base logbase rec isdata now rc before acc sum s t apart m n granted same f =
      elim (Bool-cases (r.is_zero sum)) [
        | inl free ↦ rw (charge_rest, free) (unlock_restores sys locks base s t m same f granted)
        | inr due ↦
            let next = charged d rc sum acc in
            let (u, (serrno, out)) = write_back d r cal g sys accs base rec rc next t in
            rw (charge_rest, due)
              (finish-restores sys locks d r cal g accs logs acc_keeps log_keeps base logbase
                (entry_of d now rec sum isdata serrno before) out s u apart m n granted
                (λ f'.
                  write_back-holds sys locks d r cal g accs logs acc_keeps log_keeps base rec rc
                    next t f'
                  ∙ same f')
                f)
      ]

  -- Outside asynchronous mode and with the account base unlocked before, acc_charge_trans, once it has
  -- the base's lock and has loaded the account, answers ACC_NOCHARGE to an account that is deleted,
  -- broken, frozen or below its limit, and keeps the lock then. For any other account that has a limit,
  -- and for which the resource gives a charge, it gives back the locks as they were, if the log is
  -- another file whose lock is held exactly in asynchronous mode.
  pub acc_charge_trans-locked :
      (uninit : Acc d) (base logbase : Handle) (rec : ℤ) (isdata : Option IsData) (s : Os)
      → base.fd ≢ logbase.fd
      → base.fasync ≡ false
      → held s base.fd ≡ false
      → held s logbase.fd ≡ logbase.fasync
      → is_neg (baselock sys base s).1 ≡ false
      → let now = sys.time (baselock sys base s).0 in
        let (t, (rc, acc)) = retry_get d sys accs 3 base rec (success, uninit) now.0 in
        let (u, code) = acc_charge_trans d r cal g sys accs logs uninit base logbase rec isdata s in
        (IsRefused d r (elements g.tables.limit) acc
          → (code ≡ ok acc_nocharge) × (held u base.fd ≡ true))
        × ((x : Acc d × D)
            → IsCharged d r (elements g.tables.limit) acc
            → (charge_call d r cal g sys isdata acc t).1 ≡ ok x
            → (f : ℕ) → held u f ≡ held s f)
  unfolding acc_charge_trans after
  acc_charge_trans-locked uninit base logbase rec isdata s apart sync free n granted =
      let now = sys.time (baselock sys base s).0 in
      let (t, (rc, acc)) = retry_get d sys accs 3 base rec (success, uninit) now.0 in
      let before = if logs_balance rc then acc.balance else d.zero_sum in
      let loading = λ (f : ℕ).
        retry_get-holds sys locks d accs logs acc_keeps log_keeps 3 base rec (success, uninit) now.0
          f
        ∙ locks.time_holds (baselock sys base s).0 f in
      rw granted (
        λ refused.
            rw (IsRefused-refuses d r (elements g.tables.limit) acc refused)
              (refl, loading base.fd ∙ baselock_takes base s granted sync),
        λ x fine summed f.
            let due : refuses d r (elements g.tables.limit) acc ≡ ok false =
              IsCharged-refuses d r (elements g.tables.limit) acc fine in
            rw (due, after, summed)
              (charge_rest-restores base logbase rec isdata now.1 rc before x.0 x.1 s
                (charge_call d r cal g sys isdata acc t).0 apart (free ∙ sym sync) n granted
                (λ f'. charge_call-holds sys locks d r cal g isdata acc t f' ∙ loading f') f),
      )

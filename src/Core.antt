-- ===== src/Core.antt =====
-- src/bee/core/core.c: the transactions of the daemon. Here are the limits of accounts, and what a sum
-- does to an account and to its entry; Trans has the transactions.
pub mod Limits
pub mod Tables
pub mod Trans
pub mod Bitrans
mod Tests
use rubsd.Prelude.{
  ℕ, ◌+◌, Bool, true, false, not, ◌&&◌, ◌||◌, List, [], ◌∷◌, none, some, get_elem?, if◌then◌else◌,
}
use rubsd.Prelude.Int.{ℤ, pos, negsuc, is_neg, eq_ℤ}
use rubsd.Prelude.Run.{Run, ok, fault, ◌>>=◌}
use rubsd.Base.Env.{Double, acc_unlimit}
use rubsd.Base.Record.{Acc, has_bit, is_deleted, is_broken, is_frozen, is_unlimit}
use rubsd.Acc.Trans.{charges}
use rubsd.Res.{Reals}
use rubsd.Tariffs.{Limit}

-- RES_ADDER, ACC_NOCHARGE and ATAG_LOG
abbrev pub res_adder : ℤ
res_adder = pos 2

abbrev pub acc_nocharge : ℤ
acc_nocharge = negsuc 99

abbrev pub is_logged : ℕ → Bool
is_logged = has_bit 128

module _ (d : Double) (r : Reals d) where
  open d use {D}

  -- The loop of acc_limit: the index of the plan's limit, or 0.
  unfoldable pub find_limit : ℤ → ℕ → List (Limit d) → Run ℕ
  find_limit plan i [] = fault
  find_limit plan i (t ∷ ts) = elim (is_neg t.tariff) [
    | true ↦ ok 0
    | false ↦ elim (eq_ℤ plan t.tariff) [ true ↦ ok i | false ↦ find_limit plan (i + 1) ts ]
  ]

  -- `tariffs_limit[limit].min`
  unfoldable pub min_at : List (Limit d) → ℕ → Run D
  min_at limits i = elim (get_elem? limits i) [ none ↦ fault | some t ↦ ok t.min ]

  unfoldable pub acc_limit : List (Limit d) → Acc d → Run D
  acc_limit limits acc =
      if not (r.is_zero acc.tcredit)
      then ok acc.tcredit
      else find_limit acc.tariff 0 limits >>= min_at limits

  -- The comparison of accs_state, which is 1 or 0 as the balance is below the limit.
  unfoldable pub is_below : List (Limit d) → Acc d → Run Bool
  is_below limits acc = acc_limit limits acc >>= λ limit. ok (d.lt acc.balance (d.add limit d.cent))

  unfoldable pub accs_state : List (Limit d) → Acc d → Run ℤ
  accs_state limits acc = is_below limits acc >>= λ b. ok (if b then pos 1 else pos 0)

  -- "return error or account state"
  unfoldable pub answer : List (Limit d) → ℤ → Acc d → Run ℤ
  answer limits code acc = if is_neg code then ok code else accs_state limits acc

  -- The part of a payment that the limit lets through.
  unfoldable pub paid_in : Acc d → D → D → D
  paid_in acc realarg limit =
      let after = d.add acc.balance realarg in
      r.sub realarg
        (if not (r.is_zero limit) && d.lt limit after then r.sub after limit else d.zero_sum)

  -- Whether an account with this code of acci_get takes the sum.
  unfoldable pub takes : ℤ → ℤ → Bool
  takes rc res_id = charges rc || (eq_ℤ rc acc_unlimit && eq_ℤ res_id res_adder)

  unfoldable pub with_sum : ℤ → ℤ → D → Acc d → Acc d
  with_sum rc res_id sum acc =
      if takes rc res_id then record acc { balance = d.add acc.balance sum } else acc

  -- acc_transaction resets the temporary credit then, for a payment.
  unfoldable pub paid : ℤ → ℤ → D → Acc d → Acc d
  paid rc res_id sum acc =
      let out = with_sum rc res_id sum acc in
      if takes rc res_id && eq_ℤ res_id res_adder
      then record out { tcredit = d.zero_sum; res_tcredit = pos 0 }
      else out

  -- The sum for the log, 0 for traffic of an account without limit that is not logged.
  unfoldable pub logged_sum : Acc d → ℤ → D → D
  logged_sum acc res_id sum =
      if is_unlimit acc.tag && not (is_logged acc.tag) && not (eq_ℤ res_id res_adder)
      then d.zero_sum
      else sum

  -- Whether acc_charge_trans leaves an account alone: it is not valid, or below its limit.
  unfoldable pub refuses : List (Limit d) → Acc d → Run Bool
  refuses limits acc =
      if is_deleted acc.tag || is_broken acc.tag || is_frozen acc.tag
      then ok true
      else is_below limits acc

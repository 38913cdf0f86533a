-- ===== src/Res.antt =====
-- src/bee/core/res.c and include/tariffs.h: what traffic and other resources cost. The table of tariffs
-- is the list `tariffs_inet`, with the entry that ends it; an index outside it is a fault.
pub mod Plans
pub mod Counting
pub mod Settling
pub mod Timing
pub mod Spending
pub mod Aliases
pub mod Charging
pub mod Tests
use rubsd.Prelude.{
  ℕ, zero, suc, ◌+◌, ◌/◌, ◌%◌, Bool, true, false, not, ◌&&◌, ◌||◌, ◌==◌, List, [], ◌∷◌, Option,
  none, some, get_elem?, if◌then◌else◌,
}
use rubsd.Prelude.Int.{ℤ, pos, negsuc, is_neg, eq_ℤ, leb_ℤ, ltb_ℤ, ◌+ℤ◌, ◌-ℤ◌}
use rubsd.Prelude.Run.{Run, ok, fault, ◌>>=◌}
use rubsd.Base.Env.{Double}
use rubsd.Base.Record.{Acc, has_bit}

-- `struct tm`
pub record Tm : Type 0 where
  pub sec : ℤ
  pub min : ℤ
  pub hour : ℤ
  pub mday : ℤ
  pub mon : ℤ
  pub year : ℤ
  pub wday : ℤ

-- localtime_r, and timelocal, which also brings the fields of its argument into their ranges.
pub record Calendar : Type 0 where
  pub localtime : ℤ → Tm
  pub timelocal : Tm → ℤ × Tm

module _ (d : Double) where
  open d use {D}

  -- The operations on `double` that the tariffs need besides those of the account base.
  pub record Reals : Type 0 where
    pub sub : D → D → D
    pub mul : D → D → D
    pub div : D → D → D
    pub neg : D → D
    pub of_int : ℤ → D
    pub le : D → D → Bool
    pub is_zero : D → Bool

  -- `tariff_inet_t`
  pub record Tariff : Type 0 where
    pub tariff : ℤ
    pub weekday : ℤ
    pub hour_from : ℤ
    pub hour_to : ℤ
    pub price_in : D
    pub price_out : D
    pub month_charge : D
    pub sw_tariff : ℤ
    pub sw_summ : D
    pub sw_inetsumm : ℤ
    pub flags : ℕ

  abbrev pub Table : Type 0
  Table = List Tariff

-- INET_TFLAG_SIN and INET_TFLAG_SOUT
abbrev pub skips_in : ℕ → Bool
skips_in = has_bit 1

abbrev pub skips_out : ℕ → Bool
skips_out = has_bit 2

-- CORR_VALUE
abbrev pub corr_value : ℤ
corr_value = pos 300

-- The start of the month after that of `stm`, as inet_count_proc assembles it.
unfoldable pub next_month : Tm → Tm
next_month stm =
    let mon = stm.mon +ℤ pos 1 in
    let over = ltb_ℤ (pos 11) mon in
    record stm {
      mday = pos 1;
      mon = if over then pos 0 else mon;
      year = if over then stm.year +ℤ pos 1 else stm.year;
      hour = pos 0;
      min = pos 0;
      sec = pos 0;
    }

module _ (d : Double) where
  open d use {D}

  -- `tariffs_inet[i]`
  unfoldable pub entry : Table d → ℕ → Run (Tariff d)
  entry table i = elim (get_elem? table i) [ none ↦ fault | some t ↦ ok t ]

  -- The counters of the month, which start again when the time for that has come.
  unfoldable pub reset : Calendar → ℤ → Acc d → Acc d
  reset cal curtime acc =
      if leb_ℤ acc.summ_rsttime curtime
      then (let stime = (cal.timelocal (next_month (cal.localtime curtime))).0 in
          record acc {
            inet_summ_in = pos 0;
            inet_summ_out = pos 0;
            money_summ = d.zero_sum;
            summ_rsttime = if is_neg stime then acc.summ_rsttime else stime;
          })
      else acc

  -- An entry of the plan for whole days.
  unfoldable pub is_default : ℤ → ℤ → Tariff d → Bool
  is_default plan wday t =
      eq_ℤ plan t.tariff
      && (is_neg t.weekday || eq_ℤ t.weekday wday)
      && eq_ℤ t.hour_from (pos 0)
      && eq_ℤ t.hour_to (pos 0)

  -- The last entry that passes the test, up to the one that ends the table; the first of the list has
  -- the index `i`.
  unfoldable pub find_last : (Tariff d → Bool) → ℕ → ℕ → Table d → Run ℕ
  find_last test i found [] = fault
  find_last test i found (t ∷ ts) = elim (is_neg t.hour_from) [
    | true ↦ ok found
    | false ↦ find_last test (i + 1) (if test t then i else found) ts
  ]

  -- The variables of the loop over plans: `target_plan`, `def_tariff`, `inet_start`, `money_start`.
  pub record Target : Type 0 where
    pub plan : ℤ
    pub index : ℕ
    pub inet_start : ℤ
    pub money_start : D

  -- The traffic that counts for a switch.
  unfoldable pub summ_for : Tariff d → Acc d → ℤ
  summ_for t acc =
      (if skips_in t.flags then pos 0 else acc.inet_summ_in)
      +ℤ (if skips_out t.flags then pos 0 else acc.inet_summ_out)

module _ (d : Double) (r : Reals d) where
  open d use {D}

  -- The switch to another plan, by traffic, by money or always, or none.
  unfoldable pub switch_of : Tariff d → Acc d → Target d → Option (Target d)
  unfolding summ_for
  switch_of t acc at =
      if is_neg t.sw_tariff
      then none
      else if not (eq_ℤ t.sw_inetsumm (pos 0))
          && leb_ℤ t.sw_inetsumm (summ_for d t acc -ℤ at.inet_start)
      then some (record at { plan = t.sw_tariff; inet_start = at.inet_start +ℤ t.sw_inetsumm })
      else if not (r.is_zero t.sw_summ) && r.le t.sw_summ (r.sub acc.money_summ at.money_start)
      then some (record at { plan = t.sw_tariff; money_start = d.add at.money_start t.sw_summ })
      else if r.is_zero t.sw_summ && eq_ℤ t.sw_inetsumm (pos 0)
      then some (record at { plan = t.sw_tariff })
      else none

  -- The loop over plans, with the rounds that are left; `none` is the end by the loop detection.
  unfoldable pub settle : Table d → ℤ → Acc d → ℕ → Target d → Run (Option (Target d))
  settle table wday acc zero at = ok none
  settle table wday acc (suc n) at = do
    index ← find_last d (is_default d at.plan wday) 0 at.index table
    t ← entry d table index
    let here : Target d = record at { index = index }
    elim (switch_of t acc here) [ none ↦ ok (some here) | some next ↦ settle table wday acc n next ]

-- The rounds before the loop detection: `loop` is from 0 to 256 at the test.
abbrev pub plan_rounds : ℕ
plan_rounds = 257

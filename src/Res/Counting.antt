-- ===== src/Res/Counting.antt =====
-- inet_count_proc and the other procedures of res.c.
use Prim.Native.Nat.{bit_or}
use rubsd.Prelude.{
  ℕ, ◌+◌, ◌-◌, ◌*◌, ◌/◌, ◌%◌, ◌^◌, Bool, true, false, not, ◌&&◌, ◌||◌, ◌==◌, List, [], ◌∷◌, Option,
  none, some, get_elem?, drop, if◌then◌else◌,
}
use rubsd.Prelude.Int.{ℤ, pos, negsuc, is_neg, eq_ℤ, leb_ℤ, ltb_ℤ, ◌+ℤ◌, ◌-ℤ◌}
use rubsd.Prelude.Run.{Run, ok, fault, ◌>>=◌}
use rubsd.Base.Env.{Double}
use rubsd.Base.Record.{Acc, IsData}
use rubsd.Timer.{signed}
use rubsd.Res.{
  Tm, Calendar, Reals, Tariff, Table, corr_value, entry, reset, Target, settle, plan_rounds,
}

-- An int as the 32 bits that C keeps.
abbrev pub to_bits : ℤ → ℕ
to_bits (pos n) = n % 2 ^ 32
to_bits (negsuc n) = 2 ^ 32 - 1 - n % 2 ^ 32

-- `(data->proto_id & 0x80000000) == 0`
abbrev pub is_inbound : ℤ → Bool
is_inbound proto_id = to_bits proto_id / 2 ^ 31 == 0

-- `proto2 |= (target_plan << 16) | ((tariff - def_tariff) << 24)`
unfoldable pub marked : ℤ → ℤ → ℕ → ℕ → ℤ
marked proto2 plan tariff def_tariff = signed (
    bit_or (to_bits proto2) (
      bit_or (to_bits plan * 2 ^ 16 % 2 ^ 32)
        (to_bits (pos tariff -ℤ pos def_tariff) * 2 ^ 24 % 2 ^ 32)))

module _ (d : Double) where
  open d use {D}

  -- The hours of an entry on the day of `stm`: their start, their end, and `stm` after that.
  unfoldable pub hours_of : Calendar → ℤ → Tariff d → Tm → ℤ × ℤ × Tm
  hours_of cal ndtime t stm =
      let (from, stm1) = cal.timelocal (record stm { hour = t.hour_from }) in
      if eq_ℤ t.hour_to (pos 0)
      then (from +ℤ corr_value, ndtime, stm1)
      else (let (to, stm2) = cal.timelocal (record stm1 { hour = t.hour_to }) in
          (from +ℤ corr_value, to +ℤ corr_value, stm2))

  -- Whether an entry of the plan has the hour of the day.
  unfoldable pub is_timed : ℤ → ℤ → Tariff d → ℤ × ℤ × Tm → Bool
  is_timed plan curtime t (stime, etime, stm) =
      eq_ℤ plan t.tariff
      && (is_neg t.weekday || eq_ℤ t.weekday stm.wday)
      && not (eq_ℤ t.hour_from t.hour_to)
      && leb_ℤ stime curtime
      && ltb_ℤ curtime etime

  -- The loop that finds the entry for the hour.
  unfoldable pub find_timed : Calendar → ℤ → ℤ → ℤ → ℕ → ℕ → Tm → Table d → Run ℕ
  find_timed cal plan curtime ndtime i tariff stm [] = fault
  find_timed cal plan curtime ndtime i tariff stm (t ∷ ts) = elim (is_neg t.hour_from) [
    | true ↦ ok tariff
    | false ↦
        let hours = hours_of cal ndtime t stm in
        find_timed cal plan curtime ndtime (i + 1)
          (if is_timed plan curtime t hours then i else tariff) hours.2 ts
  ]

  -- The index of the entry that has the price, by the hour or the default of the plan.
  unfoldable pub price_index : Calendar → Table d → ℤ → Target d → Tm → Run ℕ
  price_index cal table curtime at stm = do
    let (last, stm2) = cal.timelocal (record stm { hour = pos 23; min = pos 0; sec = pos 0 })
    let ndtime = last +ℤ corr_value +ℤ pos 3600
    tariff ← find_timed cal at.plan curtime ndtime 1 at.index stm2 (drop 1 table)
    t ← entry d table tariff
    ok (if d.lt t.price_in d.zero_sum then at.index else tariff)

module _ (d : Double) (r : Reals d) where
  open d use {D}

  -- The price of the value, in either direction.
  unfoldable pub price_of : Tariff d → IsData → D
  price_of t isdata =
      r.div
        (r.mul (r.of_int (pos isdata.value))
          (if is_inbound isdata.proto_id then t.price_in else t.price_out))
        (r.of_int (pos 1048576))

  -- The counters with the value and its price.
  unfoldable pub counted : D → IsData → Acc d → Acc d
  counted val isdata acc = record acc {
    money_summ = d.add acc.money_summ val;
    inet_summ_in =
        if is_inbound isdata.proto_id
        then acc.inet_summ_in +ℤ pos isdata.value
        else acc.inet_summ_in;
    inet_summ_out =
        if is_inbound isdata.proto_id
        then acc.inet_summ_out
        else acc.inet_summ_out +ℤ pos isdata.value;
  }

  -- inet_count_proc
  unfoldable pub inet_count_proc :
      Calendar → Table d → ℤ → IsData → Acc d → Run (IsData × Acc d × D)
  inet_count_proc cal table curtime isdata acc =
      let acc1 = reset d cal curtime acc in
      let stm = cal.localtime curtime in
      let start : Target d = record {
        plan = acc1.tariff;
        index = 0;
        inet_start = pos 0;
        money_start = d.zero_sum;
      } in
      do
        settled ← settle d r table stm.wday acc1 plan_rounds start
        elim settled [
          | none ↦ ok (isdata, acc1, d.zero_sum)
          | some at ↦ (do
            tariff ← price_index d cal table curtime at stm
            t ← entry d table tariff
            let val = price_of t isdata
            ok (
              record isdata { proto2 = marked isdata.proto2 at.plan tariff at.index },
              counted val isdata acc1,
              r.neg val,
            ))
        ]

  -- mail_count_proc, intra_count_stub and adder_count_proc
  unfoldable pub free_count : IsData → Acc d → D
  free_count isdata acc = d.zero_sum

  unfoldable pub adder_count_proc : IsData → Acc d → D
  adder_count_proc isdata acc = r.div (r.of_int (pos isdata.value)) (r.of_int (pos 100))

-- `no_of_days`
abbrev pub no_of_days : List ℕ
no_of_days = 31 ∷ 28 ∷ 31 ∷ 30 ∷ 31 ∷ 30 ∷ 31 ∷ 31 ∷ 30 ∷ 31 ∷ 30 ∷ 31 ∷ []

-- The days of the month, one more in February if the 29th can be a time.
unfoldable pub month_length : ℤ → Bool → Run ℕ
month_length (negsuc m) leap = fault
month_length (pos m) leap = elim (get_elem? no_of_days m) [
  | none ↦ fault
  | some days ↦ ok (if m == 1 && leap then days + 1 else days)
]

-- `timelocal(&stm) > 0` on the 29th
unfoldable pub has_29th : Calendar → Tm → Bool
has_29th cal stm = ltb_ℤ (pos 0) (cal.timelocal (record stm { mday = pos 29 })).0

unfoldable pub days_of : Calendar → Tm → Run ℕ
days_of cal stm = month_length stm.mon (has_29th cal stm)

module _ (d : Double) (r : Reals d) where
  open d use {D}

  -- The last entry of the plan; here an entry with a negative plan ends the table.
  unfoldable pub find_plan : ℤ → ℕ → ℕ → Table d → Run ℕ
  find_plan plan i found [] = fault
  find_plan plan i found (t ∷ ts) = elim (is_neg t.tariff) [
    | true ↦ ok found
    | false ↦ find_plan plan (i + 1) (if eq_ℤ plan t.tariff then i else found) ts
  ]

  -- inet_charge_proc
  unfoldable pub inet_charge_proc : Calendar → Table d → ℤ → Acc d → Run (Acc d × D)
  inet_charge_proc cal table curtime acc = do
    days ← days_of cal (cal.localtime curtime)
    tariff ← find_plan acc.tariff 1 0 (drop 1 table)
    t ← entry d table tariff
    let val = r.div t.month_charge (r.of_int (pos days))
    ok (record acc { money_summ = d.add acc.money_summ val }, r.neg val)

  -- The procedures that res_coreinit puts into the table of resources: `count` and `charge`.
  unfoldable pub count_proc :
      Calendar → Table d → ℤ → ℕ → Option (IsData → Acc d → Run (IsData × Acc d × D))
  count_proc cal table curtime res_id =
      if res_id == 0
      then some (inet_count_proc d r cal table curtime)
      else if res_id == 1 || res_id == 3
      then some (λ isdata acc. ok (isdata, acc, free_count d r isdata acc))
      else if res_id == 2
      then some (λ isdata acc. ok (isdata, acc, adder_count_proc d r isdata acc))
      else none

  unfoldable pub charge_proc : Calendar → Table d → ℤ → ℕ → Option (Acc d → Run (Acc d × D))
  charge_proc cal table curtime res_id =
      if res_id == 0 then some (inet_charge_proc cal table curtime) else none

-- ===== src/Res/Tests.antt =====
-- A table of three tariffs, and the theorems on what resources cost.
use mathlib.Core.Path.{subst}
use rubsd.Prelude.{
  ℕ, zero, suc, ◌+◌, ◌*◌, ◌-◌, ◌/◌, ◌%◌, ◌<◌, ◌≡◌, refl, Bool, true, false, arith, [], ◌∷◌, Option,
  some, get_elem?, if◌then◌else◌,
}
use rubsd.Prelude.Int.{ℤ, pos, negsuc, pos_part, is_neg, eq_ℤ, leb_ℤ, ltb_ℤ, ◌+ℤ◌, ◌-ℤ◌, ◌/ℤ◌}
use rubsd.Prelude.Run.{ok, Yields}
use rubsd.Base.Env.{Double}
use rubsd.Base.Record.{Acc, IsData}
use rubsd.Res.{Calendar, Reals, Tariff, Table, is_default, reset}
use rubsd.Res.Counting.{inet_count_proc, inet_charge_proc}
use rubsd.Res.Settling.{IsTable, HasDefault, Falls}
use rubsd.Res.Spending.{Outcome, Counted, inet_count_proc_lem, inet_count_proc-counts, wday_of}
use rubsd.Res.Aliases.{IsAlias, inet_count_proc-IsAlias}
use rubsd.Res.Charging.{Charged, inet_charge_proc_lem}

-- Sums in cents.
abbrev times : ℤ → ℤ → ℤ
times (pos a) (pos b) = pos (a * b)
times (pos a) (negsuc b) = pos 0 -ℤ pos (a * (b + 1))
times (negsuc a) (pos b) = pos 0 -ℤ pos ((a + 1) * b)
times (negsuc a) (negsuc b) = pos ((a + 1) * (b + 1))

abbrev pub cents : Double
cents = record {
  D = ℤ;
  add = ◌+ℤ◌;
  lt = ltb_ℤ;
  zero_sum = pos 0;
  cent = pos 1;
  balance_na = negsuc 0;
}

abbrev pub reals : Reals cents
reals = record {
  sub = ◌-ℤ◌;
  mul = times;
  div = λ a b. a /ℤ pos_part b;
  neg = λ a. pos 0 -ℤ a;
  of_int = λ a. a;
  le = leb_ℤ;
  is_zero = eq_ℤ (pos 0);
}

-- Months of 30 days.
abbrev pub calendar : Calendar
calendar = record {
  localtime = λ time.
      let n = pos_part time in
      record {
        sec = pos (n % 60);
        min = pos (n / 60 % 60);
        hour = pos (n / 3600 % 24);
        mday = pos (1 + n / 86400 % 30);
        mon = pos (n / (86400 * 30) % 12);
        year = pos (70 + n / (86400 * 360));
        wday = pos (n / 86400 % 7);
      };
  timelocal = λ stm.
      let days = (pos_part stm.year - 70) * 360 + pos_part stm.mon * 30 + (pos_part stm.mday - 1) in
      (
        pos (days * 86400 + pos_part stm.hour * 3600 + pos_part stm.min * 60 + pos_part stm.sec),
        stm,
      );
}

abbrev plain : ℤ → ℤ → Tariff cents
plain plan price = record {
  tariff = plan;
  weekday = negsuc 0;
  hour_from = pos 0;
  hour_to = pos 0;
  price_in = price;
  price_out = price;
  month_charge = pos 3000;
  sw_tariff = negsuc 0;
  sw_summ = pos 0;
  sw_inetsumm = pos 0;
  flags = 0;
}

-- A tariff that switches to another at one megabyte.
abbrev day_plan : Tariff cents
day_plan = record (plain (pos 0) (pos 200)) { sw_tariff = pos 1; sw_inetsumm = pos 1048576 }

-- The price at night.
abbrev night : Tariff cents
night = record (plain (pos 1) (pos 50)) { hour_to = pos 8 }

abbrev last : Tariff cents
last = record (plain (negsuc 0) (pos 0)) { hour_from = negsuc 0 }

abbrev pub tariffs : Table cents
tariffs = day_plan ∷ plain (pos 1) (pos 100) ∷ night ∷ last ∷ []

-- The first of February 1970, at noon.
abbrev pub noon : ℤ
noon = pos 2635200

abbrev pub account : Acc cents
account = record {
  tag = 0;
  accno = pos 7;
  balance = pos 10000;
  start = pos 0;
  stop = pos 0;
  tariff = pos 0;
  summ_rsttime = pos 5000000;
  inet_summ_in = pos 2000000;
  money_summ = pos 300;
  inet_summ_out = pos 0;
  res_balance = pos 0;
  tcredit = pos 0;
  res_tcredit = pos 0;
  upd_time = pos 0;
  crc = pos 0;
}

abbrev pub traffic : IsData
traffic = record {
  res_id = pos 0;
  user_id = pos 0;
  value = 3145728;
  proto_id = pos 6;
  host = 0;
  proto2 = pos 0;
}

tariffs-IsTable : IsTable cents tariffs
tariffs-IsTable = record { ended = refl; first = (day_plan, refl) }

inet_count_proc_lem_example :
    Yields
      (Outcome cents reals calendar tariffs noon traffic account)
      (inet_count_proc cents reals calendar tariffs noon traffic account)
inet_count_proc_lem_example =
    inet_count_proc_lem cents reals calendar tariffs noon traffic account tariffs-IsTable

abbrev rank : ℤ → ℕ
rank plan = if eq_ℤ plan (pos 0) then 1 else 0

of_some :
    (P : Tariff cents → Type 0) (x t : Tariff cents)
    → ◌≡◌ {A = Option (Tariff cents)} (some x) (some t)
    → P x
    → P t
of_some P x t e p = let same : x ≡ t = cc in subst P same p

tariffs-Falls : Falls cents tariffs (wday_of cents reals calendar noon) rank
unfolding is_default
tariffs-Falls zero t e =
    of_some
      (λ t.
        is_neg t.sw_tariff ≡ false
        → (rank t.sw_tariff < rank t.tariff)
          × HasDefault cents tariffs (wday_of cents reals calendar noon) t.sw_tariff)
      day_plan t e (λ switches. (omega arith, (1, plain (pos 1) (pos 100), refl, refl)))
tariffs-Falls (suc zero) t e =
    let no_switch = of_some (λ t. is_neg t.sw_tariff ≡ true) (plain (pos 1) (pos 100)) t e refl in
    λ switches. absurd cc
tariffs-Falls (suc (suc zero)) t e =
    let no_switch = of_some (λ t. is_neg t.sw_tariff ≡ true) night t e refl in λ switches. absurd cc
tariffs-Falls (suc (suc (suc i))) t e = absurd cc

inet_count_proc-counts_example :
    Yields
      (Counted cents reals tariffs
        (wday_of cents reals calendar noon)
        traffic
        (reset cents calendar noon account))
      (inet_count_proc cents reals calendar tariffs noon traffic account)
unfolding is_default
inet_count_proc-counts_example =
    inet_count_proc-counts cents reals calendar tariffs noon traffic account rank tariffs-IsTable
      tariffs-Falls (0, day_plan, refl, refl) (omega arith)

-- A tariff that stands for one that the table does not have.
abbrev lost : Tariff cents
lost = record (plain (pos 0) (pos 200)) { sw_tariff = pos 5 }

abbrev lost_table : Table cents
lost_table = lost ∷ last ∷ []

single :
    (test : Tariff cents → Bool) (m : ℕ) (t : Tariff cents)
    → get_elem? (lost ∷ []) m ≡ some t
    → test lost ≡ false
    → test t ≡ false
single test zero t e = of_some (λ t. test t ≡ false) lost t e
single test (suc m) t e = absurd cc

behind :
    (test : Tariff cents → Bool) (m : ℕ) (t : Tariff cents)
    → 0 < m
    → get_elem? (lost ∷ []) m ≡ some t
    → test t ≡ false
behind test zero t below e = absurd (omega arith)
behind test (suc m) t below e = absurd cc

lost-IsAlias : IsAlias cents reals lost_table (wday_of cents reals calendar noon) (pos 0)
unfolding is_default
lost-IsAlias = record {
  index = 0;
  last = record {
    tariff = lost;
    there = refl;
    passes = refl;
    after = behind (is_default cents (pos 0) (pos 2));
  };
  switches = refl;
  traffic = refl;
  money = refl;
}

inet_count_proc-IsAlias_example :
    inet_count_proc cents reals calendar lost_table noon traffic account
    ≡ ok (traffic, reset cents calendar noon account, pos 0)
unfolding is_default lost-IsAlias
inet_count_proc-IsAlias_example =
    inet_count_proc-IsAlias cents reals calendar lost_table noon traffic account
      (record { ended = refl; first = (lost, refl) }) lost-IsAlias
      (λ k t e. single (is_default cents (pos 5) (pos 2)) k t e refl)

inet_charge_proc_lem_example :
    Yields
      (Charged cents reals calendar tariffs (calendar.localtime noon) 1 account)
      (inet_charge_proc cents reals calendar tariffs noon account)
inet_charge_proc_lem_example =
    inet_charge_proc_lem cents reals calendar day_plan (plain (pos 1) (pos 100) ∷ night ∷ last ∷ [])
      noon account 1 refl refl (omega arith)

-- ===== src/Acc/Disk/Tests.antt =====
-- An account in a file in memory.
use rubsd.Prelude.{
  ℕ, ◌+◌, ◌*◌, ◌/◌, ◌%◌, ◌≡◌, refl, inl, false, arith, List, [], ◌∷◌, some, get_or, ltb, ◌==◌,
  if◌then◌else◌,
}
use rubsd.Prelude.Int.{ℤ, pos, negsuc}
use rubsd.Base.Env.{Double, Handle, Store}
use rubsd.Base.Laws.{IsStore}
use rubsd.Base.Record.{Acc}
use rubsd.Acc.State.{check, balance_state, acci_get, stamped, acci_put}
use rubsd.Acc.Trans.{charge, charged, retry_get, retry_put, writes_back}
use rubsd.Acc.Trans.Charging.{Rewritten, credited}
use rubsd.Acc.Disk.{charge_writes}
use rubsd.Db.Codec.{Codec, records}
use rubsd.Db.Memory.{Disk, disk_kernel, disk-IsKernel}
use rubsd.Db.Refine.{record_store, record_store-IsStore}
use rubsd.Db.{system, random_get, count_records, with_record, random_read, put_record}

abbrev money : Double
money = record { D = ℕ; add = ◌+◌; lt = ltb; zero_sum = 0; cent = 1; balance_na = 0 }

abbrev to_code : ℤ → ℕ
to_code (pos n) = n * 2
to_code (negsuc n) = n * 2 + 1

abbrev of_code : ℕ → ℤ
of_code x = if x % 2 == 0 then pos (x / 2) else negsuc (x / 2)

of_code-to_code : (z : ℤ) → of_code (to_code z) ≡ z
of_code-to_code (pos n) = ground arith
of_code-to_code (negsuc n) = ground arith

abbrev to_cells : Acc money → List ℕ
to_cells a =
    a.tag
    ∷ to_code a.accno
    ∷ a.balance
    ∷ to_code a.start
    ∷ to_code a.stop
    ∷ to_code a.tariff
    ∷ to_code a.summ_rsttime
    ∷ to_code a.inet_summ_in
    ∷ a.money_summ
    ∷ to_code a.inet_summ_out
    ∷ to_code a.res_balance
    ∷ a.tcredit
    ∷ to_code a.res_tcredit
    ∷ to_code a.upd_time
    ∷ to_code a.crc
    ∷ []

abbrev of_cells : List ℕ → Acc money
of_cells b = record {
  tag = get_or b 0 0;
  accno = of_code (get_or b 1 0);
  balance = get_or b 2 0;
  start = of_code (get_or b 3 0);
  stop = of_code (get_or b 4 0);
  tariff = of_code (get_or b 5 0);
  summ_rsttime = of_code (get_or b 6 0);
  inet_summ_in = of_code (get_or b 7 0);
  money_summ = get_or b 8 0;
  inet_summ_out = of_code (get_or b 9 0);
  res_balance = of_code (get_or b 10 0);
  tcredit = get_or b 11 0;
  res_tcredit = of_code (get_or b 12 0);
  upd_time = of_code (get_or b 13 0);
  crc = of_code (get_or b 14 0);
}

of_cells-to_cells : (a : Acc money) → of_cells (to_cells a) ≡ a
of_cells-to_cells a = λ i. record {
  tag = a.tag;
  accno = of_code-to_code a.accno i;
  balance = a.balance;
  start = of_code-to_code a.start i;
  stop = of_code-to_code a.stop i;
  tariff = of_code-to_code a.tariff i;
  summ_rsttime = of_code-to_code a.summ_rsttime i;
  inet_summ_in = of_code-to_code a.inet_summ_in i;
  money_summ = a.money_summ;
  inet_summ_out = of_code-to_code a.inet_summ_out i;
  res_balance = of_code-to_code a.res_balance i;
  tcredit = a.tcredit;
  res_tcredit = of_code-to_code a.res_tcredit i;
  upd_time = of_code-to_code a.upd_time i;
  crc = of_code-to_code a.crc i;
}

abbrev cells : Codec (Acc money)
cells = record {
  size = 15;
  encode = to_cells;
  decode = of_cells;
  size_pos = omega arith;
  length-encode = λ a. refl;
  decode-encode = of_cells-to_cells;
}

-- Account 0 with 90 cents, the only one of file 3.
abbrev rich : Acc money
rich = record {
  tag = 0;
  accno = pos 0;
  balance = 90;
  start = pos 0;
  stop = pos 0;
  tariff = pos 2;
  summ_rsttime = pos 0;
  inet_summ_in = pos 0;
  money_summ = 0;
  inet_summ_out = pos 0;
  res_balance = pos 0;
  tcredit = 0;
  res_tcredit = pos 0;
  upd_time = pos 4000;
  crc = pos 0;
}

abbrev disk : Disk
disk = record {
  files = λ f. if f == 3 then to_cells rich else [];
  places = λ f. 0;
  locked = λ f. false;
}

abbrev base : Handle
base = record { fd = 3; fasync = false }

abbrev no_crc : Acc money → ℤ
no_crc a = pos 0

abbrev accs : Store Disk (Acc money)
accs = record_store disk_kernel cells no_crc

abbrev kept : IsStore (system disk_kernel) accs (records cells (λ s. s.files))
kept = record_store-IsStore disk_kernel cells disk-IsKernel no_crc

charge_writes_example :
    let (t, (serrno, before, out)) =
      charge money (system disk_kernel) accs base (pos 0) 5 rich disk in
    (acc : Acc money) × (ctime : ℤ) × (records cells (λ s. s.files) disk 3 (pos 0) ≡ some acc)
    × (serrno ≡ (check money (no_crc acc) ctime (pos 0) acc).0)
    × (records cells (λ s. s.files) t 3 (pos 0) ≡ some out)
    × Rewritten money
        (system disk_kernel)
        accs
        kept
        (credited money (system disk_kernel) accs kept serrno 5 acc)
        out
    × (before ≡ acc.balance)
unfolding charge retry_get retry_put acci_get acci_put check balance_state stamped writes_back
    charged system random_get count_records with_record random_read put_record
charge_writes_example =
    charge_writes money disk_kernel cells disk-IsKernel no_crc base (pos 0) 5 rich disk (inl refl)

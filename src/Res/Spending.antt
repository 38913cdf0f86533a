-- ===== src/Res/Spending.antt =====
-- inet_count_proc as a whole.
use rubsd.Prelude.{
  ℕ, ◌<◌, ◌≡◌, refl, ap, ◌⊎◌, inl, inr, true, false, Option, none, some, Bool-cases,
}
use rubsd.Prelude.Int.{ℤ, pos, leb_ℤ, ◌+ℤ◌}
use rubsd.Prelude.Run.{ok, Yields, value, Yields-bind, Yields-weaken, ◌>>=◌}
use rubsd.Base.Env.{Double}
use rubsd.Base.Record.{Acc, IsData}
use rubsd.Res.{Calendar, Reals, Tariff, Table, entry, reset, Target, plan_rounds}
use rubsd.Res.Plans.{entry-at}
use rubsd.Res.Counting.{is_inbound, marked, price_index, price_of, counted, inet_count_proc}
use rubsd.Res.Settling.{IsTable, IsSettled, Settles, HasDefault, Falls, settle_lem, settle-settles}
use rubsd.Res.Timing.{Priced, price_index_lem}

module _ (d : Double) (r : Reals d) where
  open d use {D}

  -- The account but for its summary of the month.
  abbrev pub SameBut : Acc d → Acc d → Type 0
  SameBut acc before =
      record acc {
        money_summ = before.money_summ;
        inet_summ_in = before.inet_summ_in;
        inet_summ_out = before.inet_summ_out;
        summ_rsttime = before.summ_rsttime;
      }
      ≡ before

  -- A value counted on the account, at the price of an entry of the plan that the loop settles on.
  pub record Counted (table : Table d) (wday : ℤ) (isdata : IsData) (acc : Acc d)
      (out : IsData × Acc d × D) : Type 0 where
    pub at : Target d
    pub settled : IsSettled d r table wday acc at
    pub index : ℕ
    pub tariff : Tariff d
    pub priced : Priced d table at index tariff
    pub proto2 : out.0.proto2 ≡ marked isdata.proto2 at.plan index at.index
    pub data_kept : record out.0 { proto2 = isdata.proto2 } ≡ isdata
    pub result : out.2 ≡ r.neg (price_of d r tariff isdata)
    pub money : out.1.money_summ ≡ d.add acc.money_summ (price_of d r tariff isdata)
    pub traffic :
        ((is_inbound isdata.proto_id ≡ true)
          × (out.1.inet_summ_in ≡ acc.inet_summ_in +ℤ pos isdata.value)
          × (out.1.inet_summ_out ≡ acc.inet_summ_out))
        ⊎ ((is_inbound isdata.proto_id ≡ false)
            × (out.1.inet_summ_in ≡ acc.inet_summ_in)
            × (out.1.inet_summ_out ≡ acc.inet_summ_out +ℤ pos isdata.value))

  -- The loop detection: nothing is counted.
  abbrev pub IsLoop : IsData → Acc d → IsData × Acc d × D → Type 0
  IsLoop isdata acc out = (out.0 ≡ isdata) × (out.1 ≡ acc) × (out.2 ≡ d.zero_sum)

  abbrev pub wday_of : Calendar → ℤ → ℤ
  wday_of cal curtime = (cal.localtime curtime).wday

  -- What inet_count_proc gives.
  abbrev pub Outcome : Calendar → Table d → ℤ → IsData → Acc d → IsData × Acc d × D → Type 0
  Outcome cal table curtime isdata acc out =
      SameBut out.1 acc
      × (IsLoop isdata (reset d cal curtime acc) out
          ⊎ Counted table (wday_of cal curtime) isdata (reset d cal curtime acc) out)

  SameBut-reset :
      (cal : Calendar) (curtime : ℤ) (acc : Acc d) → SameBut (reset d cal curtime acc) acc
  unfolding reset
  SameBut-reset cal curtime acc = elim (Bool-cases (leb_ℤ acc.summ_rsttime curtime)) [
    | inl due ↦ rw (reset, due) refl
    | inr later ↦ rw (reset, later) refl
  ]

  counted_lem :
      (table : Table d) (wday : ℤ) (isdata : IsData) (acc : Acc d) (at : Target d) (k : ℕ)
      (t : Tariff d)
      → IsSettled d r table wday acc at
      → Priced d table at k t
      → Counted table wday isdata acc (
        record isdata { proto2 = marked isdata.proto2 at.plan k at.index },
        counted d r (price_of d r t isdata) isdata acc,
        r.neg (price_of d r t isdata),
      )
  unfolding counted
  counted_lem table wday isdata acc at k t settled priced = record {
    at = at;
    settled = settled;
    index = k;
    tariff = t;
    priced = priced;
    proto2 = refl;
    data_kept = refl;
    result = refl;
    money = refl;
    traffic = elim (Bool-cases (is_inbound isdata.proto_id)) [
      | inl is_in ↦ rw is_in (inl (refl, refl, refl))
      | inr is_out ↦ rw is_out (inr (refl, refl, refl))
    ];
  }

  -- The start of the loop over plans.
  abbrev pub start_of : Acc d → Target d
  start_of acc = record {
    plan = acc.tariff;
    index = 0;
    inet_start = pos 0;
    money_start = d.zero_sum;
  }

  priced_run :
      (cal : Calendar) (table : Table d) (curtime : ℤ) (isdata : IsData) (acc before : Acc d)
      (at : Target d)
      → IsTable d table
      → SameBut acc before
      → IsSettled d r table (wday_of cal curtime) acc at
      → Yields
          (λ out. SameBut out.1 before × Counted table (wday_of cal curtime) isdata acc out)
          (price_index d cal table curtime at (cal.localtime curtime) >>= λ tariff.
            entry d table tariff >>= λ t. ok (
              record isdata { proto2 = marked isdata.proto2 at.plan tariff at.index },
              counted d r (price_of d r t isdata) isdata acc,
              r.neg (price_of d r t isdata),
            ))
  unfolding counted
  priced_run cal table curtime isdata acc before at sound same settled =
      Yields-bind
        (price_index_lem d cal table curtime at (cal.localtime curtime) settled.tariff sound
          settled.there)
        (λ k (t, priced).
          rw (entry-at d table k t priced.0) (
            value (same, counted_lem table (wday_of cal curtime) isdata acc at k t settled priced)))

  after-IsLoop :
      (cal : Calendar) (table : Table d) (curtime : ℤ) (isdata : IsData) (acc1 acc : Acc d)
      → IsTable d table
      → SameBut acc1 acc
      → (o : Option (Target d)) → Settles d r table (wday_of cal curtime) acc1 o
      → Yields
          (λ out.
            SameBut out.1 acc
            × (IsLoop isdata acc1 out ⊎ Counted table (wday_of cal curtime) isdata acc1 out))
          (elim o [
            | none ↦ ok (isdata, acc1, d.zero_sum)
            | some at ↦ price_index d cal table curtime at (cal.localtime curtime) >>= λ tariff.
                entry d table tariff >>= λ t. ok (
                  record isdata { proto2 = marked isdata.proto2 at.plan tariff at.index },
                  counted d r (price_of d r t isdata) isdata acc1,
                  r.neg (price_of d r t isdata),
                )
          ])
  after-IsLoop cal table curtime isdata acc1 acc sound same none settles =
      value (same, inl (refl, refl, refl))
  after-IsLoop cal table curtime isdata acc1 acc sound same (some at) settles =
      Yields-weaken (priced_run cal table curtime isdata acc1 acc at sound same settles)
        (λ out (kept, count). (kept, inr count))

  -- On a table that ends, with an entry before its end, inet_count_proc comes back and reads no entry
  -- outside the table. Either the loop detection returned zero and no more than the reset of the
  -- month was done, or one of the counters of traffic has grown by the value and `money_summ` by its
  -- price. The price is that of the entry that the loop over plans has settled on, or of another entry
  -- of that plan with a price that is not negative. Nothing of the account changes but its summary of
  -- the month.
  pub inet_count_proc_lem :
      (cal : Calendar) (table : Table d) (curtime : ℤ) (isdata : IsData) (acc : Acc d)
      → IsTable d table
      → Yields
          (Outcome cal table curtime isdata acc)
          (inet_count_proc d r cal table curtime isdata acc)
  unfolding inet_count_proc
  inet_count_proc_lem cal table curtime isdata acc sound =
      let acc1 = reset d cal curtime acc in
      Yields-bind
        (settle_lem d r table sound (wday_of cal curtime) acc1 plan_rounds (start_of acc1)
          sound.first)
        (after-IsLoop cal table curtime isdata acc1 acc sound (SameBut-reset cal curtime acc))

  pub reset-tariff :
      (cal : Calendar) (curtime : ℤ) (acc : Acc d) → (reset d cal curtime acc).tariff ≡ acc.tariff
  reset-tariff cal curtime acc =
      let same = SameBut-reset cal curtime acc in ap (λ (a : Acc d). a.tariff) same

  -- If every switch of the table leads to a plan that has an entry for whole days on the day of the
  -- week, and a measure falls with each switch, and the account's plan has such an entry and a
  -- measure of at most 256, then the loop detection is not reached: the value is counted.
  pub inet_count_proc-counts :
      (cal : Calendar) (table : Table d) (curtime : ℤ) (isdata : IsData) (acc : Acc d)
      (rank : ℤ → ℕ)
      → IsTable d table
      → Falls d table (wday_of cal curtime) rank
      → HasDefault d table (wday_of cal curtime) acc.tariff
      → rank acc.tariff < plan_rounds
      → Yields
          (Counted table (wday_of cal curtime) isdata (reset d cal curtime acc))
          (inet_count_proc d r cal table curtime isdata acc)
  unfolding inet_count_proc
  inet_count_proc-counts cal table curtime isdata acc rank sound falls has below =
      let acc1 = reset d cal curtime acc in
      let same = reset-tariff cal curtime acc in
      Yields-bind
        (settle-settles d r table sound (wday_of cal curtime) acc1 rank plan_rounds (start_of acc1)
          falls (rw same has) sound.first (rw same below))
        (λ o (at, is_some, settled). rw is_some (
          Yields-weaken
            (priced_run cal table curtime isdata acc1 acc at sound (SameBut-reset cal curtime acc)
              settled)
            (λ out (kept, count). count)))

-- ===== src/Res/Aliases.antt =====
-- A plan that always switches to a plan with no entry for whole days.
use rubsd.Prelude.{
  ℕ, suc, ◌<◌, ◌≡◌, refl, ◌∙◌, sym, ap, ◌⊎◌, inl, inr, Bool, true, false, arith, none, some,
  get_elem?,
}
use rubsd.Prelude.Int.{ℤ, pos, is_neg}
use rubsd.Prelude.Run.{ok}
use rubsd.Base.Env.{Double}
use rubsd.Base.Record.{Acc, IsData}
use rubsd.Res.{Calendar, Reals, Tariff, Table, is_default, reset, Target, switch_of, settle}
use rubsd.Res.Plans.{live, NoneOf, LastOf, Answer}
use rubsd.Res.Counting.{inet_count_proc}
use rubsd.Res.Settling.{IsTable, Found, round_lem, alias_switch, settle_alias}
use rubsd.Res.Spending.{reset-tariff, wday_of, start_of}

module _ (d : Double) where
  LastOf-unique :
      (test : Tariff d → Bool) (ts : Table d) (k m : ℕ)
      → LastOf d test ts k
      → LastOf d test ts m
      → k ≡ m
  LastOf-unique test ts k m a b = elim (order k m) [
    | inl same ↦ same
    | inr (inl below) ↦
        let fails = a.after m b.tariff below b.there in let passes = b.passes in absurd cc
    | inr (inr above) ↦
        let fails = b.after k a.tariff above a.there in let passes = a.passes in absurd cc
  ]
    where
      order : (k m : ℕ) → (k ≡ m) ⊎ ((k < m) ⊎ (m < k))
      order k m = omega arith

  found_last :
      (table : Table d) (wday : ℤ) (at : Target d) (plan : ℤ) (k m : ℕ) (u : Tariff d)
      → at.plan ≡ plan
      → (l : LastOf d (is_default d plan wday) (live d table) k) → Found d table wday at m u
      → (m ≡ k) × (u ≡ l.tariff)
  found_last table wday at plan k m u same_plan l f = last (at_plan at.plan same_plan f.answer)
    where
      at_plan :
          (p : ℤ)
          → p ≡ plan
          → Answer d (is_default d p wday) (live d table) 0 at.index m
          → Answer d (is_default d plan wday) (live d table) 0 at.index m
      at_plan p e = rw e (λ a. a)

      last :
          Answer d (is_default d plan wday) (live d table) 0 at.index m → (m ≡ k) × (u ≡ l.tariff)
      last (inl (e, none_of)) =
          let fails = none_of k l.tariff l.there in let passes = l.passes in absurd cc
      last (inr (j, e, o)) =
          let same : j ≡ k = LastOf-unique (is_default d plan wday) (live d table) j k o l in
          let here : m ≡ k = omega arith in
          let one : get_elem? (live d table) k ≡ some u =
            ap (get_elem? (live d table)) (sym here) ∙ f.there in
          let two = l.there in (here, cc)

module _ (d : Double) (r : Reals d) where
  open d use {D}

  -- The plan's last entry for whole days switches to another plan always.
  pub record IsAlias (table : Table d) (wday plan : ℤ) : Type 0 where
    pub index : ℕ
    pub last : LastOf d (is_default d plan wday) (live d table) index
    pub switches : is_neg last.tariff.sw_tariff ≡ false
    pub traffic : last.tariff.sw_inetsumm ≡ pos 0
    pub money : r.is_zero last.tariff.sw_summ ≡ true

  settle-IsAlias :
      (table : Table d) (wday : ℤ) (acc : Acc d) (n : ℕ) (at : Target d) (plan : ℤ)
      → (sound : IsTable d table) → at.plan ≡ plan
      → (alias : IsAlias table wday plan)
      → NoneOf d (is_default d alias.last.tariff.sw_tariff wday) (live d table)
      → (t : Tariff d) × (get_elem? (live d table) at.index ≡ some t)
      → settle d r table wday acc (suc n) at ≡ ok none
  settle-IsAlias table wday acc n at plan sound same_plan alias none_of here =
      let (m, u, f, e) = round_lem d r table sound wday acc n at here in
      let (same_m, same_u) =
        found_last d table wday at plan alias.index m u same_plan alias.last f in
      let t = alias.last.tariff in
      let next : Target d = record at { plan = t.sw_tariff; index = m } in
      let goes : switch_of d r u acc (record at { index = m }) ≡ some next = rw same_u (
        alias_switch d r table sound wday acc t (record at { index = m }) alias.switches
          alias.traffic alias.money) in
      rw (e, goes)
        (settle_alias d r table sound wday acc n next t (rw same_m alias.last.there) alias.switches
          alias.traffic alias.money refl none_of)

  -- If the last entry for whole days of the account's plan switches to another plan always, and that
  -- plan has no entry for whole days on the day of the week, then inet_count_proc returns zero by the
  -- loop detection: the value is not counted, and the account changes no more than by the reset of the
  -- month.
  pub inet_count_proc-IsAlias :
      (cal : Calendar) (table : Table d) (curtime : ℤ) (isdata : IsData) (acc : Acc d)
      → IsTable d table
      → (alias : IsAlias table (wday_of d r cal curtime) acc.tariff)
      → NoneOf d (is_default d alias.last.tariff.sw_tariff (wday_of d r cal curtime)) (live d table)
      → inet_count_proc d r cal table curtime isdata acc
        ≡ ok (isdata, reset d cal curtime acc, d.zero_sum)
  unfolding inet_count_proc
  inet_count_proc-IsAlias cal table curtime isdata acc sound alias none_of =
      let acc1 = reset d cal curtime acc in
      let same = reset-tariff d r cal curtime acc in
      rw
        (settle-IsAlias table (wday_of d r cal curtime) acc1 256 (start_of d r acc1) acc.tariff
          sound same alias none_of sound.first)
        refl

-- ===== src/Res/Charging.antt =====
-- inet_charge_proc: the charge for a day of the month.
use rubsd.Prelude.{
  ℕ, zero, suc, ◌+◌, ◌<◌, ◌≤◌, ◌≡◌, refl, ◌∙◌, ap, ◌⊎◌, inl, inr, Bool, true, false, ◌||◌, ◌==◌,
  ◌&&◌, arith, List, [], ◌∷◌, some, get_elem?, if◌then◌else◌, leb, sym, Bool-cases, length,
}
use rubsd.Prelude.Int.{ℤ, pos, is_neg, eq_ℤ, eq_ℤ→eq}
use rubsd.Prelude.Run.{ok, Yields, value, Yields-bind, Yields-weaken, ◌>>=◌}
use rubsd.Base.Env.{Double}
use rubsd.Base.Record.{Acc}
use rubsd.Res.{Tm, Calendar, Reals, Tariff, Table, entry}
use rubsd.Res.Counting.{no_of_days, month_length, has_29th, days_of, find_plan, inet_charge_proc}

-- The days that the charge of a month is spread over.
abbrev pub IsMonth : Calendar → Tm → ℕ → ℕ → Type 0
IsMonth cal stm m days = (28 ≤ days) × (days ≤ 31) × (m ≡ 1 → has_29th cal stm ≡ true → days ≡ 29)

-- Every number of the list can be that of a month.
abbrev all_months : List ℕ → Bool
all_months [] = true
all_months (x ∷ xs) = leb 28 x && leb x 31 && all_months xs

range_at :
    (xs : List ℕ) (m : ℕ)
    → all_months xs ≡ true
    → m < length xs
    → (x : ℕ) × (get_elem? xs m ≡ some x) × ((28 ≤ x) × (x ≤ 31))
range_at [] m all below = absurd (omega arith)
range_at (x ∷ xs) zero all below = (x, refl, (ground arith, ground arith))
range_at (x ∷ xs) (suc m) all below = range_at xs m (ground arith) (omega arith)

days_at :
    (m : ℕ)
    → m < 12
    → (days : ℕ) × (get_elem? no_of_days m ≡ some days)
      × ((28 ≤ days) × (days ≤ 31))
      × (m ≡ 1 → days ≡ 28)
days_at m below =
    let (days, e, plain) = range_at no_of_days m refl below in
    (
      days,
      e,
      plain,
      λ is_one.
          let february : get_elem? no_of_days 1 ≡ some days =
            ap (get_elem? no_of_days) (sym is_one) ∙ e in
          cc,
    )

IsMonth-days :
    (cal : Calendar) (stm : Tm) (m days : ℕ)
    → (28 ≤ days) × (days ≤ 31)
    → (m ≡ 1 → days ≡ 28)
    → IsMonth cal stm m (if m == 1 && has_29th cal stm then days + 1 else days)
IsMonth-days cal stm m days plain february = ground arith

month_length_lem :
    (cal : Calendar) (stm : Tm) (mon : ℤ) (m : ℕ)
    → mon ≡ pos m
    → m < 12
    → Yields (IsMonth cal stm m) (month_length mon (has_29th cal stm))
unfolding month_length
month_length_lem cal stm mon m is_m below =
    let (days, e, plain, february) = days_at m below in
    rw (is_m, e) (value (IsMonth-days cal stm m days plain february))

module _ (d : Double) (r : Reals d) where
  open d use {D}

  -- An entry with a negative plan ends the table.
  abbrev pub has_end : Table d → Bool
  has_end [] = false
  has_end (t ∷ ts) = is_neg t.tariff || has_end ts

  -- An entry of the plan, or the first one.
  abbrev pub IsChosen : ℤ → Table d → ℕ → ℕ → ℕ → Type 0
  IsChosen plan ts i found k =
      (k ≡ found)
      ⊎ ((m : ℕ) × (t : Tariff d) × (k ≡ i + m) × (get_elem? ts m ≡ some t) × (plan ≡ t.tariff))

  IsChosen-cons :
      (plan : ℤ) (x : Tariff d) (ts : Table d) (i found k : ℕ)
      → IsChosen plan ts (i + 1) (if eq_ℤ plan x.tariff then i else found) k
      → IsChosen plan (x ∷ ts) i found k
  IsChosen-cons plan x ts i found k (inl e) = elim (Bool-cases (eq_ℤ plan x.tariff)) [
    | inl hit ↦
        let here : k ≡ i = e ∙ rw hit refl in
        let k_is_i : k ≡ i + 0 = omega arith in inr (0, x, k_is_i, refl, eq_ℤ→eq plan x.tariff hit)
    | inr miss ↦ inl (e ∙ rw miss refl)
  ]
  IsChosen-cons plan x ts i found k (inr (m, t, e, there, own)) =
      let next : k ≡ i + suc m = omega arith in inr (suc m, t, next, there, own)

  find_plan_lem :
      (plan : ℤ) (i found : ℕ) (ts : Table d)
      → has_end ts ≡ true
      → Yields (IsChosen plan ts i found) (find_plan d r plan i found ts)
  unfolding find_plan
  find_plan_lem plan i found [] = λ h. absurd cc
  find_plan_lem plan i found (x ∷ ts) = elim (Bool-cases (is_neg x.tariff)) [
    | inl over ↦ rw (find_plan, over) (λ h. value (inl refl))
    | inr more ↦
        rw (find_plan, more)
          (λ h.
            Yields-weaken
              (find_plan_lem plan (i + 1) (if eq_ℤ plan x.tariff then i else found) ts h)
              (λ k a. IsChosen-cons plan x ts i found k a))
  ]

  -- The charge of a day: the part of the month's charge of the first entry, or of an entry of the plan.
  pub record Charged (cal : Calendar) (table : Table d) (stm : Tm) (m : ℕ) (acc : Acc d)
      (out : Acc d × D) : Type 0 where
    pub days : ℕ
    pub month : IsMonth cal stm m days
    pub index : ℕ
    pub tariff : Tariff d
    pub there : get_elem? table index ≡ some tariff
    pub own : (index ≡ 0) ⊎ (acc.tariff ≡ tariff.tariff)
    pub result : out.1 ≡ r.neg (r.div tariff.month_charge (r.of_int (pos days)))
    pub spent : out.0 ≡ record acc {
      money_summ = d.add acc.money_summ (r.div tariff.month_charge (r.of_int (pos days)));
    }

  chosen_at :
      (x : Tariff d) (ts : Table d) (plan : ℤ) (k : ℕ)
      → IsChosen plan ts 1 0 k
      → (t : Tariff d) × (get_elem? (x ∷ ts) k ≡ some t) × ((k ≡ 0) ⊎ (plan ≡ t.tariff))
  chosen_at x ts plan k (inl e) = (x, rw e refl, inl e)
  chosen_at x ts plan k (inr (m, t, e, at_m, own)) =
      let next : k ≡ suc m = omega arith in (t, rw next at_m, inr own)

  charged_lem :
      (cal : Calendar) (x : Tariff d) (ts : Table d) (stm : Tm) (m : ℕ) (acc : Acc d) (days k : ℕ)
      → IsMonth cal stm m days
      → ((t : Tariff d) × (get_elem? (x ∷ ts) k ≡ some t) × ((k ≡ 0) ⊎ (acc.tariff ≡ t.tariff)))
      → Yields (Charged cal (x ∷ ts) stm m acc) (
          entry d (x ∷ ts) k >>= λ t.
          let val = r.div t.month_charge (r.of_int (pos days)) in
          ok (record acc { money_summ = d.add acc.money_summ val }, r.neg val))
  unfolding entry
  charged_lem cal x ts stm m acc days k month (t, at_k, own) =
      rw (entry, at_k)
        (value (record {
          days = days;
          month = month;
          index = k;
          tariff = t;
          there = at_k;
          own = own;
          result = refl;
          spent = refl;
        }))

  -- On a table with an entry of a negative plan behind the first one, and a month from 0 to 11,
  -- inet_charge_proc comes back, reads no entry outside the table, and takes the charge for a month of
  -- an entry of the plan or of the first entry, divided by 28 to 31 days. In February these are 29 days,
  -- whatever the year, if timelocal takes the 29th for a time behind 1970.
  pub inet_charge_proc_lem :
      (cal : Calendar) (x : Tariff d) (ts : Table d) (curtime : ℤ) (acc : Acc d) (m : ℕ)
      → has_end ts ≡ true
      → (cal.localtime curtime).mon ≡ pos m
      → m < 12
      → Yields
          (Charged cal (x ∷ ts) (cal.localtime curtime) m acc)
          (inet_charge_proc d r cal (x ∷ ts) curtime acc)
  unfolding inet_charge_proc days_of
  inet_charge_proc_lem cal x ts curtime acc m ended is_m below =
      Yields-bind
        (month_length_lem cal (cal.localtime curtime) (cal.localtime curtime).mon m is_m below)
        (λ days month. Yields-bind (find_plan_lem acc.tariff 1 0 ts ended) (λ k a.
          charged_lem cal x ts (cal.localtime curtime) m acc days k month
            (chosen_at x ts acc.tariff k a)))

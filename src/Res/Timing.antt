-- ===== src/Res/Timing.antt =====
-- The entry of a tariff plan for the hour of the day.
use rubsd.Prelude.{
  ℕ, suc, ◌+◌, ◌≡◌, refl, ◌∙◌, ◌⊎◌, inl, inr, true, false, arith, [], ◌∷◌, some, get_elem?,
  if◌then◌else◌, Bool-cases,
}
use rubsd.Prelude.Int.{ℤ, pos, is_neg, eq_ℤ→eq, ◌+ℤ◌}
use rubsd.Prelude.Run.{ok, Yields, value, Yields-bind, Yields-weaken, ◌>>=◌}
use rubsd.Base.Env.{Double}
use rubsd.Res.{Tm, Calendar, Tariff, Table, entry, corr_value, Target}
use rubsd.Res.Plans.{is_ended, live, entry-at}
use rubsd.Res.Counting.{hours_of, is_timed, find_timed, price_index}
use rubsd.Res.Settling.{IsEntry, IsTable}

module _ (d : Double) where
  -- What the search for the hour gives: `tariff`, or an entry of the plan.
  abbrev pub Timed : ℤ → Table d → ℕ → ℕ → ℕ → Type 0
  Timed plan ts i tariff k =
      (k ≡ tariff)
      ⊎ ((m : ℕ) × (t : Tariff d) × (k ≡ i + m) × (get_elem? ts m ≡ some t) × (plan ≡ t.tariff))

  is_timed-tariff :
      (plan curtime : ℤ) (t : Tariff d) (hours : ℤ × ℤ × Tm)
      → is_timed d plan curtime t hours ≡ true
      → plan ≡ t.tariff
  unfolding is_timed
  is_timed-tariff plan curtime t hours h = eq_ℤ→eq plan t.tariff (ground arith)

  Timed-cons :
      (plan curtime : ℤ) (x : Tariff d) (hours : ℤ × ℤ × Tm) (ts : Table d) (i tariff k : ℕ)
      → Timed plan ts (i + 1) (if is_timed d plan curtime x hours then i else tariff) k
      → Timed plan (x ∷ ts) i tariff k
  Timed-cons plan curtime x hours ts i tariff k (inl e) =
      elim (Bool-cases (is_timed d plan curtime x hours)) [
        | inl hit ↦
            let here : k ≡ i = e ∙ rw hit refl in
            let k_is_i : k ≡ i + 0 = omega arith in
            inr (0, x, k_is_i, refl, is_timed-tariff plan curtime x hours hit)
        | inr miss ↦ inl (e ∙ rw miss refl)
      ]
  Timed-cons plan curtime x hours ts i tariff k (inr (m, t, e, there, own)) =
      let next : k ≡ i + suc m = omega arith in inr (suc m, t, next, there, own)

  find_timed_lem :
      (cal : Calendar) (plan curtime ndtime : ℤ) (i tariff : ℕ) (stm : Tm) (ts : Table d)
      → is_ended d ts ≡ true
      → Yields
          (Timed plan (live d ts) i tariff)
          (find_timed d cal plan curtime ndtime i tariff stm ts)
  unfolding find_timed
  find_timed_lem cal plan curtime ndtime i tariff stm [] = λ h. absurd cc
  find_timed_lem cal plan curtime ndtime i tariff stm (x ∷ ts) =
      elim (Bool-cases (is_neg x.hour_from)) [
        | inl over ↦ rw (find_timed, over) (λ h. value (inl refl))
        | inr more ↦
            rw (find_timed, more)
              (λ h.
                let hours = hours_of d cal ndtime x stm in
                Yields-weaken
                  (find_timed_lem cal plan curtime ndtime (i + 1)
                    (if is_timed d plan curtime x hours then i else tariff) hours.2 ts h)
                  (λ k a. Timed-cons plan curtime x hours (live d ts) i tariff k a))
      ]

  -- The entry that has the price: that of the plan for whole days, or another entry of the plan with a
  -- price that is not negative.
  abbrev pub Priced : Table d → Target d → ℕ → Tariff d → Type 0
  Priced table at k t =
      (get_elem? (live d table) k ≡ some t)
      × ((k ≡ at.index) ⊎ ((at.plan ≡ t.tariff) × (d.lt t.price_in d.zero_sum ≡ false)))

  chosen :
      (table : Table d) (at : Target d) (k : ℕ) (t u : Tariff d)
      → get_elem? (live d table) at.index ≡ some u
      → get_elem? (live d table) k ≡ some t
      → (k ≡ at.index) ⊎ (at.plan ≡ t.tariff)
      → (v : Tariff d) × Priced table at (if d.lt t.price_in d.zero_sum then at.index else k) v
  chosen table at k t u there at_k own = elim (Bool-cases (d.lt t.price_in d.zero_sum)) [
    | inl below ↦ rw below (u, (there, inl refl))
    | inr above ↦ rw above (t, (at_k, elim own [ inl e ↦ inl e | inr e ↦ inr (e, above) ]))
  ]

  price_index_from :
      (table : Table d) (at : Target d) (u : Tariff d) (k : ℕ)
      → get_elem? (live d table) at.index ≡ some u
      → ((t : Tariff d) × (get_elem? (live d table) k ≡ some t)
          × ((k ≡ at.index) ⊎ (at.plan ≡ t.tariff)))
      → Yields
          (λ j. (v : Tariff d) × Priced table at j v)
          (entry d table k >>= λ t. ok (if d.lt t.price_in d.zero_sum then at.index else k))
  price_index_from table at u k there (t, at_k, own) =
      rw (entry-at d table k t at_k) (value (chosen table at k t u there at_k own))

  Timed-at :
      (x : Tariff d) (ts : Table d) (at : Target d) (u : Tariff d) (k : ℕ)
      → is_neg x.hour_from ≡ false
      → get_elem? (live d (x ∷ ts)) at.index ≡ some u
      → Timed at.plan (live d ts) 1 at.index k
      → (t : Tariff d) × (get_elem? (live d (x ∷ ts)) k ≡ some t)
        × ((k ≡ at.index) ⊎ (at.plan ≡ t.tariff))
  Timed-at x ts at u k more there (inl e) = (u, rw e there, inl e)
  Timed-at x ts at u k more there (inr (m, t, e, at_m, own)) =
      let next : k ≡ suc m = omega arith in (t, rw (next, more) at_m, inr own)

  price_index_table :
      (cal : Calendar) (x : Tariff d) (ts : Table d) (curtime : ℤ) (at : Target d) (stm : Tm)
      (u : Tariff d)
      → is_neg x.hour_from ≡ false
      → is_ended d ts ≡ true
      → get_elem? (live d (x ∷ ts)) at.index ≡ some u
      → Yields
          (λ k. (t : Tariff d) × Priced (x ∷ ts) at k t)
          (price_index d cal (x ∷ ts) curtime at stm)
  unfolding price_index
  price_index_table cal x ts curtime at stm u more ended there =
      let set = cal.timelocal (record stm { hour = pos 23; min = pos 0; sec = pos 0 }) in
      let timed =
        find_timed_lem cal at.plan curtime (set.0 +ℤ corr_value +ℤ pos 3600) 1 at.index set.1 ts
          ended in
      Yields-bind timed
        (λ k a. price_index_from (x ∷ ts) at u k there (Timed-at x ts at u k more there a))

  not-IsEntry : ¬ IsEntry d [] 0
  not-IsEntry (t, e) = absurd cc

  table_parts :
      (x : Tariff d) (ts : Table d)
      → IsTable d (x ∷ ts)
      → (is_neg x.hour_from ≡ false) × (is_ended d ts ≡ true)
  table_parts x ts sound = parts sound.ended sound.first
    where
      parts :
          is_ended d (x ∷ ts) ≡ true
          → IsEntry d (x ∷ ts) 0
          → (is_neg x.hour_from ≡ false) × (is_ended d ts ≡ true)
      parts = elim (Bool-cases (is_neg x.hour_from)) [
        | inl over ↦ rw over (λ h first. absurd (not-IsEntry first))
        | inr more ↦ rw more (λ h first. (refl, h))
      ]

  pub price_index_lem :
      (cal : Calendar) (table : Table d) (curtime : ℤ) (at : Target d) (stm : Tm) (u : Tariff d)
      → IsTable d table
      → get_elem? (live d table) at.index ≡ some u
      → Yields (λ k. (t : Tariff d) × Priced table at k t) (price_index d cal table curtime at stm)
  price_index_lem cal [] curtime at stm u sound there = absurd (not-IsEntry sound.first)
  price_index_lem cal (x ∷ ts) curtime at stm u sound there =
      let (more, ended) = table_parts x ts sound in
      price_index_table cal x ts curtime at stm u more ended there

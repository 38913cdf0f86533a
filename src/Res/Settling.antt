-- ===== src/Res/Settling.antt =====
-- The loop over tariff plans.
use rubsd.Prelude.{
  ℕ, zero, suc, ◌<◌, ◌≡◌, refl, ◌∙◌, sym, ap, ◌⊎◌, inl, inr, Bool, true, false, arith, Option, none,
  some, get_elem?, Option-cases,
}
use rubsd.Prelude.Int.{ℤ, pos, is_neg, eq_ℤ→eq}
use rubsd.Prelude.Run.{ok, Yields, value, Yields-value}
use rubsd.Base.Env.{Double}
use rubsd.Base.Record.{Acc}
use rubsd.Res.{Reals, Tariff, Table, is_default, Target, switch_of, settle}
use rubsd.Res.Plans.{is_ended, live, entry-at, NoneOf, LastOf, Answer, find_last_lem}

module _ (d : Double) where
  -- The index of an entry of the table.
  abbrev pub IsEntry : Table d → ℕ → Type 0
  IsEntry table i = (t : Tariff d) × (get_elem? (live d table) i ≡ some t)

  -- A table that can be read: it ends, and has an entry before its end.
  pub record IsTable (table : Table d) : Type 0 where
    pub ended : is_ended d table ≡ true
    pub first : IsEntry table 0

  found-IsEntry :
      (test : Tariff d → Bool) (table : Table d) (found k : ℕ)
      → Answer d test (live d table) 0 found k
      → IsEntry table found
      → IsEntry table k
  found-IsEntry test table found k (inl (e, h)) there = rw e there
  found-IsEntry test table found k (inr (m, e, l)) there =
      let same : k ≡ m = omega arith in rw same (l.tariff, l.there)

module _ (d : Double) (table : Table d) (wday : ℤ) where
  -- What a round of the loop over plans finds: the entry of the plan for whole days, the last one in
  -- the table, or the entry of the round before if the plan has none.
  pub record Found (at : Target d) (k : ℕ) (t : Tariff d) : Type 0 where
    pub answer : Answer d (is_default d at.plan wday) (live d table) 0 at.index k
    pub there : get_elem? (live d table) k ≡ some t

  -- The plan has an entry for whole days.
  abbrev pub HasDefault : ℤ → Type 0
  HasDefault plan =
      (i : ℕ) × (t : Tariff d) × (get_elem? (live d table) i ≡ some t)
      × (is_default d plan wday t ≡ true)

  -- A measure that falls with each switch, to plans that have entries for whole days.
  abbrev pub Falls : (ℤ → ℕ) → Type 0
  Falls rank =
      (i : ℕ) (t : Tariff d)
      → get_elem? (live d table) i ≡ some t
      → is_neg t.sw_tariff ≡ false
      → (rank t.sw_tariff < rank t.tariff) × HasDefault t.sw_tariff

  own_of :
      (plan : ℤ) (found k : ℕ)
      → Answer d (is_default d plan wday) (live d table) 0 found k
      → NoneOf d (is_default d plan wday) (live d table)
        ⊎ LastOf d (is_default d plan wday) (live d table) k
  own_of plan found k (inl (e, h)) = inl h
  own_of plan found k (inr (m, e, l)) = let same : k ≡ m = omega arith in inr (rw same l)

module _ (d : Double) (r : Reals d) (table : Table d) (wday : ℤ) (acc : Acc d) where
  -- The plan that the loop settles on: its entry does not switch, and is the plan's last one for whole
  -- days, unless the plan has none.
  pub record IsSettled (at : Target d) : Type 0 where
    pub tariff : Tariff d
    pub there : get_elem? (live d table) at.index ≡ some tariff
    pub stays : switch_of d r tariff acc at ≡ none
    pub own :
        NoneOf d (is_default d at.plan wday) (live d table)
        ⊎ LastOf d (is_default d at.plan wday) (live d table) at.index

  abbrev pub Settles : Option (Target d) → Type 0
  Settles none = Unit {0}
  Settles (some at) = IsSettled at

module _ (d : Double) (r : Reals d) (table : Table d) (sound : IsTable d table) (wday : ℤ)
    (acc : Acc d) where
  pub round_lem :
      (n : ℕ) (at : Target d)
      → IsEntry d table at.index
      → (k : ℕ) × (t : Tariff d) × Found d table wday at k t
        × (settle d r table wday acc (suc n) at
            ≡ elim (switch_of d r t acc (record at { index = k })) [
              | none ↦ ok (some (record at { index = k }))
              | some next ↦ settle d r table wday acc n next
            ])
  unfolding settle
  round_lem n at has =
      let (k, e, a) =
        Yields-value (find_last_lem d (is_default d at.plan wday) 0 at.index table sound.ended) in
      let (t, there) = found-IsEntry d (is_default d at.plan wday) table at.index k a has in
      (k, t, record { answer = a; there = there }, rw (e, entry-at d table k t there) refl)

  switch_of_lem :
      (t : Tariff d) (at next : Target d)
      → switch_of d r t acc at ≡ some next
      → (is_neg t.sw_tariff ≡ false) × (next.plan ≡ t.sw_tariff) × (next.index ≡ at.index)
  unfolding switch_of
  switch_of_lem t at next e = ground arith

  pub settle_lem :
      (n : ℕ) (at : Target d)
      → IsEntry d table at.index
      → Yields (Settles d r table wday acc) (settle d r table wday acc n at)
  unfolding settle
  settle_lem zero at has = value tt
  settle_lem (suc n) at has =
      let (k, t, f, e) = round_lem n at has in
      elim (Option-cases (switch_of d r t acc (record at { index = k }))) [
        | inl stays ↦
            rw (e, stays)
              (value (record {
                tariff = t;
                there = f.there;
                stays = stays;
                own = own_of d table wday at.plan at.index k f.answer;
              }))
        | inr (next, goes) ↦
            let (_, _, same) = switch_of_lem t (record at { index = k }) next goes in
            rw (e, goes) (settle_lem n next (rw same (t, f.there)))
      ]

  default-tariff : (plan : ℤ) (t : Tariff d) → is_default d plan wday t ≡ true → plan ≡ t.tariff
  unfolding is_default
  default-tariff plan t h = eq_ℤ→eq plan t.tariff (ground arith)

  own_entry :
      (at : Target d) (k : ℕ) (t : Tariff d)
      → HasDefault d table wday at.plan
      → Found d table wday at k t
      → at.plan ≡ t.tariff
  own_entry at k t (i, u, at_i, passes) f = elim (own_of d table wday at.plan at.index k f.answer) [
    | inl none_of ↦ let fails = none_of i u at_i in absurd cc
    | inr l ↦
        let here = f.there in
        let there = l.there in
        let same : l.tariff ≡ t = cc in
        default-tariff at.plan l.tariff l.passes ∙ ap (λ (x : Tariff d). x.tariff) same
  ]

  pub settle-settles :
      (rank : ℤ → ℕ) (n : ℕ) (at : Target d)
      → Falls d table wday rank
      → HasDefault d table wday at.plan
      → IsEntry d table at.index
      → rank at.plan < n
      → Yields
          (λ o. (at' : Target d) × (o ≡ some at') × IsSettled d r table wday acc at')
          (settle d r table wday acc n at)
  unfolding settle
  settle-settles rank zero at falls default has below = absurd (omega arith)
  settle-settles rank (suc n) at falls default has below =
      let (k, t, f, e) = round_lem n at has in
      elim (Option-cases (switch_of d r t acc (record at { index = k }))) [
        | inl stays ↦
            rw (e, stays)
              (value (
                record at { index = k },
                refl,
                record {
                  tariff = t;
                  there = f.there;
                  stays = stays;
                  own = own_of d table wday at.plan at.index k f.answer;
                },
              ))
        | inr (next, goes) ↦
            let (switches, plan, same) = switch_of_lem t (record at { index = k }) next goes in
            let (less, more) = falls k t f.there switches in
            let ranks : rank at.plan ≡ rank t.tariff = ap rank (own_entry at k t default f) in
            let next_rank : rank next.plan ≡ rank t.sw_tariff = ap rank plan in
            rw (e, goes)
              (settle-settles rank n next falls (rw plan more) (rw same (t, f.there)) (omega arith))
      ]

  pub alias_switch :
      (t : Tariff d) (at : Target d)
      → is_neg t.sw_tariff ≡ false
      → t.sw_inetsumm ≡ pos 0
      → r.is_zero t.sw_summ ≡ true
      → switch_of d r t acc at ≡ some (record at { plan = t.sw_tariff })
  unfolding switch_of
  alias_switch t at switches traffic money = rw (switches, traffic, money) refl

  same_entry :
      (at : Target d) (k : ℕ) (t u : Tariff d)
      → NoneOf d (is_default d at.plan wday) (live d table)
      → get_elem? (live d table) at.index ≡ some t
      → Found d table wday at k u
      → (k ≡ at.index) × (u ≡ t)
  same_entry at k t u none_of there f = same f.answer
    where
      same :
          Answer d (is_default d at.plan wday) (live d table) 0 at.index k
          → (k ≡ at.index) × (u ≡ t)
      same (inl (e, h)) =
          let here : get_elem? (live d table) at.index ≡ some u =
            ap (get_elem? (live d table)) (sym e) ∙ f.there in
          (e, cc)
      same (inr (m, e, l)) = let yes = l.passes in let no = none_of m l.tariff l.there in absurd cc

  -- An entry that always switches to a plan with no entry for whole days is found again and again.
  pub settle_alias :
      (n : ℕ) (at : Target d) (t : Tariff d)
      → get_elem? (live d table) at.index ≡ some t
      → is_neg t.sw_tariff ≡ false
      → t.sw_inetsumm ≡ pos 0
      → r.is_zero t.sw_summ ≡ true
      → at.plan ≡ t.sw_tariff
      → NoneOf d (is_default d t.sw_tariff wday) (live d table)
      → settle d r table wday acc n at ≡ ok none
  unfolding settle
  settle_alias zero at t there switches traffic money plan none_of = refl
  settle_alias (suc n) at t there switches traffic money plan none_of =
      let (k, u, f, e) = round_lem n at (t, there) in
      let (same_k, same_t) = same_entry at k t u (rw plan none_of) there f in
      let next : Target d = record at { plan = t.sw_tariff; index = k } in
      let goes : switch_of d r u acc (record at { index = k }) ≡ some next =
        rw same_t (alias_switch t (record at { index = k }) switches traffic money) in
      rw (e, goes) (settle_alias n next t (rw same_k there) switches traffic money refl none_of)

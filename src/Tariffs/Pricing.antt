-- ===== src/Tariffs/Pricing.antt =====
-- What the entries of the table of prices take from the sections of the file.
use mathlib.Core.List.{append_assoc}
use rubsd.Prelude.{
  ◌≡◌, refl, Bool, true, false, List, [], ◌∷◌, ◌++◌, Option, none, some, ℕ, if◌then◌else◌,
}
use rubsd.Prelude.Int.{ℤ, pos, negsuc}
use rubsd.Base.Env.{Double}
use rubsd.Res.{Reals, Tariff, Table}
use rubsd.Tariffs.{Inet, Plan, Parser, inet_entry, inet_end, number_or}
use rubsd.Tariffs.Loading.{entries_of, all_entries}

-- A section `inet`, with the number of its plan, and whether it is the first one of it.
pub record Section : Type 0 where
  pub plan : ℤ
  pub first : Bool
  pub inet : Inet

-- The sections of a plan, and those of the file, in order.
abbrev pub sections_of : ℤ → Bool → List Inet → List Section
sections_of plan first [] = []
sections_of plan first (s ∷ ss) =
    record { plan = plan; first = first; inet = s } ∷ sections_of plan false ss

abbrev pub sections : List Plan → List Section
sections [] = []
sections (s ∷ ss) = sections_of s.number true s.inets ++ sections ss

module _ (d : Double) (r : Reals d) (p : Parser d) where
  open d use {D}

  -- A number is that of `own`, or else that of `common`, or else `default`.
  pub record IsPrice (own common : Option (List ℕ)) (default price : D) : Type 0 where
    pub by_own : (text : List ℕ) → own ≡ some text → price ≡ p.strtod text
    pub by_common : (text : List ℕ) → own ≡ none → common ≡ some text → price ≡ p.strtod text
    pub by_default : own ≡ none → common ≡ none → price ≡ default

  -- An entry takes from its section the plan, the days, the hours and the prices: that of a direction
  -- is the section's own one for it, or else the one for both, or else 0 in the first section of a plan
  -- and -1 in the others. What is not given is every day, the hours from 0 to 0, a monthly charge of 0,
  -- limits of 0 for a switch, and no switch. The tariff to switch to is the alias, or else the switch.
  pub record IsEntry (s : Section) (t : Tariff d) : Type 0 where
    pub tariff : t.tariff ≡ s.plan
    pub days : (x : ℤ) → s.inet.weekday ≡ some x → t.weekday ≡ x
    pub each_day : s.inet.weekday ≡ none → t.weekday ≡ negsuc 0
    pub since : (x : ℤ) → s.inet.hour_from ≡ some x → t.hour_from ≡ x
    pub from_midnight : s.inet.hour_from ≡ none → t.hour_from ≡ pos 0
    pub until : (x : ℤ) → s.inet.hour_to ≡ some x → t.hour_to ≡ x
    pub to_midnight : s.inet.hour_to ≡ none → t.hour_to ≡ pos 0
    pub inbound :
        IsPrice s.inet.inbound s.inet.price
          (if s.first then d.zero_sum else r.of_int (negsuc 0))
          t.price_in
    pub outbound :
        IsPrice s.inet.outbound s.inet.price
          (if s.first then d.zero_sum else r.of_int (negsuc 0))
          t.price_out
    pub month : IsPrice s.inet.charge none d.zero_sum t.month_charge
    pub money : IsPrice s.inet.sw_money none d.zero_sum t.sw_summ
    pub bytes : (x : ℤ) → s.inet.sw_bytes ≡ some x → t.sw_inetsumm ≡ x
    pub no_bytes : s.inet.sw_bytes ≡ none → t.sw_inetsumm ≡ pos 0
    pub alias : (x : ℤ) → s.inet.alias ≡ some x → t.sw_tariff ≡ x
    pub switch : (x : ℤ) → s.inet.alias ≡ none → s.inet.switch ≡ some x → t.sw_tariff ≡ x
    pub no_switch : s.inet.alias ≡ none → s.inet.switch ≡ none → t.sw_tariff ≡ negsuc 0

  -- The table has one entry for each section, in order, and then the entry that ends it.
  abbrev pub HasEntries : List Section → Table d → Type 0
  HasEntries [] ts = ts ≡ inet_end d r p ∷ []
  HasEntries (s ∷ ss) [] = ⊥
  HasEntries (s ∷ ss) (t ∷ ts) = IsEntry s t × HasEntries ss ts

  number_or-IsPrice :
      (own common : Option (List ℕ)) (default : D)
      → IsPrice own common default (number_or d r p own (number_or d r p common default))
  unfolding number_or
  number_or-IsPrice own common default = record {
    by_own = λ text e. rw e refl;
    by_common = λ text e f. rw (e, f) refl;
    by_default = λ e f. rw (e, f) refl;
  }

  inet_entry-IsEntry :
      (plan : ℤ) (first : Bool) (s : Inet)
      → IsEntry (record { plan = plan; first = first; inet = s }) (inet_entry d r p plan first s)
  unfolding inet_entry number_or
  inet_entry-IsEntry plan first s =
      let default = if first then d.zero_sum else r.of_int (negsuc 0) in
      record {
        tariff = refl;
        days = λ x e. rw e refl;
        each_day = λ e. rw e refl;
        since = λ x e. rw e refl;
        from_midnight = λ e. rw e refl;
        until = λ x e. rw e refl;
        to_midnight = λ e. rw e refl;
        inbound = number_or-IsPrice s.inbound s.price default;
        outbound = number_or-IsPrice s.outbound s.price default;
        month = number_or-IsPrice s.charge none d.zero_sum;
        money = number_or-IsPrice s.sw_money none d.zero_sum;
        bytes = λ x e. rw e refl;
        no_bytes = λ e. rw e refl;
        alias = λ x e. rw e refl;
        switch = λ x e f. rw (e, f) refl;
        no_switch = λ e f. rw (e, f) refl;
      }

  entries_of-HasEntries :
      (plan : ℤ) (first : Bool) (ss : List Inet) (more : List Section) (ts : Table d)
      → HasEntries more ts
      → HasEntries (sections_of plan first ss ++ more) (entries_of d r p plan first ss ++ ts)
  entries_of-HasEntries plan first [] more ts rest = rest
  entries_of-HasEntries plan first (s ∷ ss) more ts rest =
      (inet_entry-IsEntry plan first s, entries_of-HasEntries plan false ss more ts rest)

  pub all_entries-HasEntries :
      (plans : List Plan)
      → HasEntries (sections plans) (all_entries d r p plans ++ inet_end d r p ∷ [])
  all_entries-HasEntries [] = refl
  all_entries-HasEntries (s ∷ ss) =
      rw
        (append_assoc (entries_of d r p s.number true s.inets) (all_entries d r p ss)
          (inet_end d r p ∷ []))
        (entries_of-HasEntries s.number true s.inets (sections ss)
          (all_entries d r p ss ++ inet_end d r p ∷ []) (all_entries-HasEntries ss))

-- ===== src/Tariffs.antt =====
-- src/bee/lib/db/tariffs.c: the tables of tariffs from the sections of a file. What g3c.c has parsed is
-- the list of sections `plan`, each with its sections `inet`, in order; a value that is not there is
-- `none`. Memory is found for every entry.
pub mod Loading
pub mod Pricing
pub mod Charging
pub mod Freeing
pub mod Tests
use rubsd.Prelude.{
  ℕ, zero, suc, ◌+◌, Bool, true, false, not, ◌&&◌, ◌||◌, List, [], ◌∷◌, ◌++◌, Option, none, some,
  length, take, drop, if◌then◌else◌,
}
use rubsd.Prelude.Int.{ℤ, pos, negsuc, eq_ℤ}
use rubsd.Base.Env.{Double}
use rubsd.Res.{Reals, Tariff}

-- A section `inet`.
pub record Inet : Type 0 where
  pub weekday : Option ℤ
  pub hour_from : Option ℤ
  pub hour_to : Option ℤ
  pub price : Option (List ℕ)
  pub inbound : Option (List ℕ)
  pub outbound : Option (List ℕ)
  pub charge : Option (List ℕ)
  pub alias : Option ℤ
  pub switch : Option ℤ
  pub sw_money : Option (List ℕ)
  pub sw_bytes : Option ℤ
  pub sw_dir : Option (List ℕ)

-- A section `plan`.
pub record Plan : Type 0 where
  pub number : ℤ
  pub name : List ℕ
  pub credit : Option (List ℕ)
  pub inets : List Inet

-- strtod, and strcasecmp as a test for equality.
pub record Parser (d : Double) : Type 0 where
  pub strtod : List ℕ → d.D
  pub same_text : List ℕ → List ℕ → Bool

-- A growing array of the module: its count, and its block, `none` for NULL.
pub record Array {ℓ} (A : Type ℓ) : Type ℓ where
  pub cnt : ℕ
  pub block : Option (List A)

abbrev pub value_or {ℓ} : {A : Type ℓ} → Option A → A → A
value_or none x = x
value_or (some y) x = y

module _ {ℓ} {A : Type ℓ} where
  abbrev pub elements : Array A → List A
  elements a = value_or a.block []

  abbrev pub is_null : Array A → Bool
  is_null a = elim (a.block) [ none ↦ true | some xs ↦ false ]

  -- da_ins at the end
  unfoldable pub add : A → Array A → Array A
  add x a = record { cnt = a.cnt + 1; block = some (take a.cnt (elements a) ++ x ∷ []) }

-- "in" and "out"
abbrev pub dir_in : List ℕ
dir_in = 105 ∷ 110 ∷ []

abbrev pub dir_out : List ℕ
dir_out = 111 ∷ 117 ∷ 116 ∷ []

module _ (d : Double) where
  open d use {D}

  -- `tariff_info_t`, with `none` for a name that is NULL, and `tariff_limit_t`
  pub record Info : Type 0 where
    pub tariff : ℤ
    pub name : Option (List ℕ)

  pub record Limit : Type 0 where
    pub tariff : ℤ
    pub min : D
    pub res_min : ℤ

  -- `tariffs_info`, `tariffs_limit` and `tariffs_inet` with their counts.
  pub record Tables : Type 0 where
    pub info : Array Info
    pub limit : Array Limit
    pub inet : Array (Tariff d)

  -- The tables as they are at first.
  abbrev pub no_tables : Tables
  no_tables = record {
    info = record { cnt = 0; block = none };
    limit = record { cnt = 0; block = none };
    inet = record { cnt = 0; block = none };
  }

module _ (d : Double) (r : Reals d) (p : Parser d) where
  open d use {D}

  -- A price in a section, or the one before it.
  unfoldable pub number_or : Option (List ℕ) → D → D
  number_or none x = x
  number_or (some text) x = p.strtod text

  -- The direction that counts for a switch.
  unfoldable pub flags_of : Option (List ℕ) → ℕ
  flags_of none = 0
  flags_of (some dir) =
      let flags = if p.same_text dir dir_in then 2 else 0 in
      if p.same_text dir dir_out then 1 else flags

  -- The entry of a section `inet`; `minus_one` is -1 as a double.
  unfoldable pub inet_entry : ℤ → Bool → Inet → Tariff d
  unfolding number_or flags_of
  inet_entry plan first s =
      let minus_one = r.of_int (negsuc 0) in
      let price = if first then d.zero_sum else minus_one in
      record {
        tariff = plan;
        weekday = value_or s.weekday (negsuc 0);
        hour_from = value_or s.hour_from (pos 0);
        hour_to = value_or s.hour_to (pos 0);
        price_in = number_or s.inbound (number_or s.price price);
        price_out = number_or s.outbound (number_or s.price price);
        month_charge = number_or s.charge d.zero_sum;
        sw_tariff = value_or s.alias (value_or s.switch (negsuc 0));
        sw_summ = number_or s.sw_money d.zero_sum;
        sw_inetsumm = value_or s.sw_bytes (pos 0);
        flags = flags_of s.sw_dir;
      }

  -- The loop over the sections `inet` of a plan.
  unfoldable pub load_inets : ℤ → Bool → List Inet → Array (Tariff d) → Array (Tariff d)
  load_inets plan first [] a = a
  load_inets plan first (s ∷ ss) a = load_inets plan false ss (add (inet_entry plan first s) a)

  -- A plan with a credit, and plan 0 without one, has a limit.
  unfoldable pub add_limit : Plan → Array (Limit d) → Array (Limit d)
  add_limit s a = elim (s.credit) [
    | some text ↦ add (record { tariff = s.number; min = r.neg (p.strtod text); res_min = pos 0 }) a
    | none ↦
        if eq_ℤ s.number (pos 0)
        then add (record { tariff = s.number; min = d.zero_sum; res_min = pos 0 }) a
        else a
  ]

  -- The sections `plan`: one of them, and the loop over them.
  unfoldable pub load_plan : Plan → Tables d → Tables d
  load_plan s t = record {
    info = add (record { tariff = s.number; name = some s.name }) t.info;
    limit = add_limit s t.limit;
    inet = load_inets s.number true s.inets t.inet;
  }

  unfoldable pub load_plans : List Plan → Tables d → Tables d
  load_plans [] t = t
  load_plans (s ∷ ss) t = load_plans ss (load_plan s t)

  -- The entries that end the tables.
  abbrev pub info_end : Info d
  info_end = record { tariff = negsuc 0; name = none }

  abbrev pub limit_end : ℤ → Limit d
  limit_end res_min = record { tariff = negsuc 0; min = r.of_int (negsuc 0); res_min = res_min }

  abbrev pub inet_end : Tariff d
  inet_end = record {
    tariff = negsuc 0;
    weekday = negsuc 0;
    hour_from = negsuc 0;
    hour_to = negsuc 0;
    price_in = r.of_int (negsuc 0);
    price_out = r.of_int (negsuc 0);
    month_charge = r.of_int (negsuc 0);
    sw_tariff = negsuc 0;
    sw_summ = r.of_int (negsuc 0);
    sw_inetsumm = negsuc 0;
    flags = 0;
  }

  -- What follows the loops. The limit's end has the `res_min` of the limit before it, which is 0.
  unfoldable pub finish : Tables d → Tables d × ℤ
  finish t = if is_null t.info || is_null t.limit || is_null t.inet then (t, negsuc 0) else (
    record {
      info = add info_end t.info;
      limit = add (limit_end (pos 0)) t.limit;
      inet = add inet_end t.inet;
    },
    pos 0,
  )

  -- tariffs_load; `none` is a file that g3c.c cannot load, parse or search.
  unfoldable pub tariffs_load : Option (List Plan) → Tables d → Tables d × ℤ
  tariffs_load none t = (t, negsuc 0)
  tariffs_load (some plans) t = finish (load_plans plans t)

-- da_empty
unfoldable pub emptied {ℓ} : {A : Type ℓ} → Array A → Array A
emptied a = record { cnt = 0; block = none }

-- tariffs_free, as it is written: the third call empties `tariffs_info` again, and sets the count of
-- `tariffs_inet` to zero.
unfoldable pub tariffs_free : (d : Double) → Tables d → Tables d
unfolding emptied
tariffs_free d t = record {
  info = emptied t.info;
  limit = emptied t.limit;
  inet = record t.inet { cnt = 0 };
}

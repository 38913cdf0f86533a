-- ===== src/Tariffs/Charging.antt =====
-- The tables that tariffs_load leaves are those that inet_count_proc and inet_charge_proc can read.
use rubsd.Prelude.{
  ◌<◌, ◌≡◌, refl, ◌∙◌, ap, Bool, true, false, arith, List, [], ◌∷◌, ◌++◌, none, some, length,
}
use rubsd.Prelude.Int.{ℤ, pos, is_neg}
use rubsd.Prelude.Run.{Yields}
use rubsd.Base.Env.{Double}
use rubsd.Base.Record.{Acc, IsData}
use rubsd.Res.{Calendar, Reals, Tariff, Table}
use rubsd.Res.Plans.{is_ended}
use rubsd.Res.Settling.{IsTable}
use rubsd.Res.Counting.{inet_count_proc}
use rubsd.Res.Spending.{Outcome, inet_count_proc_lem}
use rubsd.Tariffs.{
  Inet, Plan, Parser, Tables, elements, value_or, inet_entry, inet_end, tariffs_load,
}
use rubsd.Tariffs.Pricing.{sections, HasEntries, all_entries-HasEntries}
use rubsd.Tariffs.Loading.{IsFull, entries_of, all_entries, tariffs_load_lem}

-- The hours of every section are not negative, as the rules of the file say.
abbrev pub HasHours : List Inet → Type 0
HasHours [] = Unit {0}
HasHours (s ∷ ss) = (is_neg (value_or s.hour_from (pos 0)) ≡ false) × HasHours ss

abbrev pub AllHours : List Plan → Type 0
AllHours [] = Unit {0}
AllHours (s ∷ ss) = HasHours s.inets × AllHours ss

module _ (d : Double) (r : Reals d) (p : Parser d) where
  -- No entry of the list ends a table.
  abbrev AllLive : Table d → Type 0
  AllLive [] = Unit {0}
  AllLive (t ∷ ts) = (is_neg t.hour_from ≡ false) × AllLive ts

  AllLive-append : (xs ys : Table d) → AllLive xs → AllLive ys → AllLive (xs ++ ys)
  AllLive-append [] ys all more = more
  AllLive-append (x ∷ xs) ys (one, all) more = (one, AllLive-append xs ys all more)

  entries-AllLive :
      (plan : ℤ) (first : Bool) (ss : List Inet)
      → HasHours ss
      → AllLive (entries_of d r p plan first ss)
  unfolding inet_entry
  entries-AllLive plan first [] hours = tt
  entries-AllLive plan first (s ∷ ss) (hour, hours) = (hour, entries-AllLive plan false ss hours)

  all_entries-AllLive : (plans : List Plan) → AllHours plans → AllLive (all_entries d r p plans)
  all_entries-AllLive [] hours = tt
  all_entries-AllLive (s ∷ ss) (own, hours) =
      AllLive-append (entries_of d r p s.number true s.inets) (all_entries d r p ss)
        (entries-AllLive s.number true s.inets own) (all_entries-AllLive ss hours)

  ended-AllLive :
      (xs : Table d) (t : Tariff d)
      → is_neg t.hour_from ≡ true
      → AllLive xs
      → is_ended d (xs ++ t ∷ []) ≡ true
  ended-AllLive [] t ends all = rw ends refl
  ended-AllLive (x ∷ xs) t ends (one, all) = rw one (ended-AllLive xs t ends all)

  AllLive-IsTable :
      (xs : Table d) (t : Tariff d)
      → is_neg t.hour_from ≡ true
      → AllLive xs
      → 0 < length xs
      → IsTable d (xs ++ t ∷ [])
  AllLive-IsTable [] t ends all long = absurd (omega arith)
  AllLive-IsTable (x ∷ xs) t ends (one, all) long = record {
    ended = ended-AllLive (x ∷ xs) t ends (one, all);
    first = (x, rw one refl);
  }

  empty-IsFull : (t : Tables d) → t.inet.block ≡ none → t.inet.cnt ≡ 0 → IsFull t.inet
  empty-IsFull t null count = record {
    size = rw (null, count) refl;
    filled = rw null (λ e. absurd cc);
  }

  -- The table of prices that tariffs_load leaves in empty tables.
  loaded_table :
      (plans : List Plan) (t : Tables d)
      → t.inet.block ≡ none
      → t.inet.cnt ≡ 0
      → (tariffs_load d r p (some plans) t).1 ≡ pos 0
      → (elements (tariffs_load d r p (some plans) t).0.inet
          ≡ all_entries d r p plans ++ inet_end d r p ∷ [])
        × (0 < length (all_entries d r p plans))
  loaded_table plans t null count loaded =
      let (entries, some_entry) =
        tariffs_load_lem d r p plans t (empty-IsFull t null count) loaded in
      let nothing : elements t.inet ≡ [] = rw null refl in
      (
        entries
            ∙ ap (λ (xs : Table d). xs ++ (all_entries d r p plans ++ inet_end d r p ∷ [])) nothing,
        omega (arith, ap length nothing),
      )

  pub IsTable-tariffs_load :
      (plans : List Plan) (t : Tables d)
      → AllHours plans
      → t.inet.block ≡ none
      → t.inet.cnt ≡ 0
      → (tariffs_load d r p (some plans) t).1 ≡ pos 0
      → IsTable d (elements (tariffs_load d r p (some plans) t).0.inet)
  IsTable-tariffs_load plans t hours null count loaded =
      let (same, long) = loaded_table plans t null count loaded in
      rw same (
        AllLive-IsTable (all_entries d r p plans) (inet_end d r p) refl
          (all_entries-AllLive plans hours) long)

  HasEntries-tariffs_load :
      (plans : List Plan) (t : Tables d)
      → t.inet.block ≡ none
      → t.inet.cnt ≡ 0
      → (tariffs_load d r p (some plans) t).1 ≡ pos 0
      → HasEntries d r p (sections plans) (elements (tariffs_load d r p (some plans) t).0.inet)
  HasEntries-tariffs_load plans t null count loaded =
      rw (loaded_table plans t null count loaded).0 (all_entries-HasEntries d r p plans)

  -- After tariffs_load has filled empty tables and answered 0, from a file in which all hours are not
  -- negative, the table of prices has one entry for each section `inet`, in the order of the file, and
  -- then the one that ends it. An entry has the plan's number, the section's days and hours, and for
  -- each direction the section's own price, or else its price for both, or else 0 in the first section
  -- of a plan and -1 in the others. With this table inet_count_proc comes back for every account, every
  -- traffic and every time, without a fault: it counts the value at the price of an entry, or the loop
  -- detection stops it.
  pub inet_count_proc-tariffs_load :
      (plans : List Plan) (t : Tables d) (cal : Calendar) (curtime : ℤ) (isdata : IsData)
      (acc : Acc d)
      → AllHours plans
      → t.inet.block ≡ none
      → t.inet.cnt ≡ 0
      → (tariffs_load d r p (some plans) t).1 ≡ pos 0
      → let table = elements (tariffs_load d r p (some plans) t).0.inet in
        IsTable d table
        × HasEntries d r p (sections plans) table
        × Yields
            (Outcome d r cal table curtime isdata acc)
            (inet_count_proc d r cal table curtime isdata acc)
  inet_count_proc-tariffs_load plans t cal curtime isdata acc hours null count loaded =
      let sound = IsTable-tariffs_load plans t hours null count loaded in
      (
        sound,
        HasEntries-tariffs_load plans t null count loaded,
        inet_count_proc_lem d r cal (elements (tariffs_load d r p (some plans) t).0.inet) curtime
            isdata acc sound,
      )

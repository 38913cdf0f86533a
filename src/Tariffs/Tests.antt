-- ===== src/Tariffs/Tests.antt =====
-- A file of two plans.
use rubsd.Prelude.{◌≡◌, refl, List, [], ◌∷◌, none, some, length, ◌==◌}
use rubsd.Prelude.Int.{pos, negsuc}
use rubsd.Prelude.Run.{Yields}
use rubsd.Res.Counting.{inet_count_proc}
use rubsd.Res.Settling.{IsTable}
use rubsd.Res.Spending.{Outcome}
use rubsd.Res.Tests.{cents, reals, calendar, noon, account, traffic, tariffs}
use rubsd.Tariffs.{
  Inet, Plan, Parser, Tables, no_tables, elements, inet_end, add, load_inets, load_plan, load_plans,
  add_limit, finish, tariffs_load, tariffs_free,
}
use rubsd.Tariffs.Pricing.{sections, HasEntries}
use rubsd.Tariffs.Charging.{inet_count_proc-tariffs_load}
use rubsd.Tariffs.Freeing.{bare_file, tariffs_load-tariffs_free}

-- A text stands for the number that is its length.
abbrev pub parser : Parser cents
parser = record { strtod = λ text. pos (length text); same_text = λ a b. length a == length b }

abbrev section : Inet
section = record {
  weekday = none;
  hour_from = none;
  hour_to = none;
  price = some (49 ∷ 48 ∷ []);
  inbound = none;
  outbound = none;
  charge = none;
  alias = none;
  switch = none;
  sw_money = none;
  sw_bytes = none;
  sw_dir = none;
}

abbrev pub file : List Plan
file =
    record { number = pos 0; name = 97 ∷ []; credit = none; inets = section ∷ [] }
    ∷ record {
      number = pos 1;
      name = 98 ∷ [];
      credit = some (53 ∷ []);
      inets = record section { hour_from = some (pos 8); hour_to = some (pos 20) } ∷ [];
    }
    ∷ []

inet_count_proc-tariffs_load_example :
    let table = elements (tariffs_load cents reals parser (some file) (no_tables cents)).0.inet in
    IsTable cents table
    × HasEntries cents reals parser (sections file) table
    × Yields
        (Outcome cents reals calendar table noon traffic account)
        (inet_count_proc cents reals calendar table noon traffic account)
unfolding tariffs_load finish load_plans load_plan load_inets add_limit add
inet_count_proc-tariffs_load_example =
    inet_count_proc-tariffs_load cents reals parser file (no_tables cents) calendar noon traffic
      account ((refl, tt), ((refl, tt), tt)) refl refl refl

tariffs_load-tariffs_free_example :
    let bare = some (bare_file (pos 0) (97 ∷ []) (53 ∷ [])) in
    let held : Tables cents = record (no_tables cents) {
      inet = record { cnt = 4; block = some tariffs };
    } in
    let again = tariffs_load cents reals parser bare (tariffs_free cents held) in
    ((tariffs_load cents reals parser bare (no_tables cents)).1 ≡ negsuc 0)
    × (again.1 ≡ pos 0)
    × (elements again.0.inet ≡ inet_end cents reals parser ∷ [])
tariffs_load-tariffs_free_example =
    tariffs_load-tariffs_free cents reals parser (pos 0) (97 ∷ []) (53 ∷ [])
      (record (no_tables cents) { inet = record { cnt = 4; block = some tariffs } }) tariffs refl

-- ===== src/Tariffs/Freeing.antt =====
-- tariffs_free, and a second load.
use rubsd.Prelude.{ℕ, ◌≡◌, refl, List, [], ◌∷◌, some}
use rubsd.Prelude.Int.{ℤ, pos, negsuc}
use rubsd.Base.Env.{Double}
use rubsd.Res.{Reals, Tariff}
use rubsd.Tariffs.{
  Plan, Parser, Tables, elements, no_tables, add, inet_end, load_inets, load_plan, load_plans,
  add_limit, finish, tariffs_load, tariffs_free,
}

-- A file with one plan, which has a credit, and no section `inet`.
abbrev pub bare_file : ℤ → List ℕ → List ℕ → List Plan
bare_file number name credit =
    record { number = number; name = name; credit = some credit; inets = [] } ∷ []

module _ (d : Double) (r : Reals d) (p : Parser d) where
  -- tariffs_load refuses a file with one plan, which has a credit, and no section `inet`, when the
  -- tables are as at first. But after tariffs_free of tables that held prices it answers 0 on that
  -- file, and the table of prices is the entry that ends it alone.
  pub tariffs_load-tariffs_free :
      (number : ℤ) (name credit : List ℕ) (t : Tables d) (old : List (Tariff d))
      → t.inet.block ≡ some old
      → let file = some (bare_file number name credit) in
        let again = tariffs_load d r p file (tariffs_free d t) in
        ((tariffs_load d r p file (no_tables d)).1 ≡ negsuc 0)
        × (again.1 ≡ pos 0)
        × (elements again.0.inet ≡ inet_end d r p ∷ [])
  unfolding tariffs_load tariffs_free finish load_plans load_plan load_inets add_limit add
  tariffs_load-tariffs_free number name credit t old held = (refl, rw held refl, rw held refl)

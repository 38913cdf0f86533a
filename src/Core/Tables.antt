-- ===== src/Core/Tables.antt =====
-- What the transactions need of the tables of tariffs and of the data, and that tariffs_load gives it.
use rubsd.Prelude.{
  ℕ, ◌<◌, ◌≡◌, refl, ap, ◌∙◌, inl, inr, true, ◌||◌, arith, List, [], ◌∷◌, ◌++◌, none, some, take,
  Bool-cases,
}
use rubsd.Prelude.Int.{pos, is_neg}
use rubsd.Base.Env.{Double}
use rubsd.Base.Record.{IsData}
use rubsd.Res.{Reals}
use rubsd.Res.Settling.{IsTable}
use rubsd.Tariffs.{
  Plan, Parser, Limit, Tables, elements, is_null, add, limit_end, load_plans, finish, tariffs_load,
}
use rubsd.Tariffs.Charging.{AllHours, IsTable-tariffs_load}
use rubsd.Core.Limits.{has_limit_end}

-- The resources that res_coreinit knows.
abbrev pub IsKnown : IsData → Type 0
IsKnown isdata = (n : ℕ) × (isdata.res_id ≡ pos n) × (n < 4)

module _ (d : Double) (r : Reals d) where
  -- The tables of prices and of limits have their ends.
  pub record IsReady (t : Tables d) : Type 0 where
    pub prices : IsTable d (elements t.inet)
    pub limits : has_limit_end d r (elements t.limit) ≡ true

  limits-ended :
      (xs : List (Limit d)) (t : Limit d)
      → is_neg t.tariff ≡ true
      → has_limit_end d r (xs ++ t ∷ []) ≡ true
  limits-ended [] t e = rw e refl
  limits-ended (x ∷ xs) t e = ground (arith, limits-ended xs t e)

  module _ (p : Parser d) where
    finish_limit :
        (u : Tables d)
        → (finish d r p u).1 ≡ pos 0
        → (finish d r p u).0.limit ≡ add (limit_end d r p (pos 0)) u.limit
    unfolding finish
    finish_limit u = elim (Bool-cases (is_null u.info || is_null u.limit || is_null u.inet)) [
      | inl missing ↦ rw (finish, missing) (λ e. absurd cc)
      | inr found ↦ rw (finish, found) (λ e. refl)
    ]

    -- tariffs_load into empty tables.
    pub IsReady-tariffs_load :
        (plans : List Plan) (t : Tables d)
        → AllHours plans
        → t.inet.block ≡ none
        → t.inet.cnt ≡ 0
        → (tariffs_load d r p (some plans) t).1 ≡ pos 0
        → IsReady (tariffs_load d r p (some plans) t).0
    unfolding tariffs_load add
    IsReady-tariffs_load plans t hours null count loaded =
        let u = load_plans d r p plans t in
        record {
          prices = IsTable-tariffs_load d r p plans t hours null count loaded;
          limits =
              ap (λ a. has_limit_end d r (elements a)) (finish_limit u loaded)
              ∙ limits-ended (take u.limit.cnt (elements u.limit)) (limit_end d r p (pos 0)) refl;
        }

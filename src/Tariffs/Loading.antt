-- ===== src/Tariffs/Loading.antt =====
-- The table of prices that tariffs_load leaves.
use mathlib.Core.List.{append-nil, append_assoc}
use rubsd.Prelude.{
  ℕ, zero, suc, ◌+◌, ◌<◌, ◌≡◌, refl, ◌∙◌, sym, ap, inl, inr, Bool, true, false, ◌||◌, arith, List,
  [], ◌∷◌, ◌++◌, some, length, take, length-append, Bool-cases,
}
use rubsd.Prelude.Int.{ℤ, pos}
use rubsd.Base.Env.{Double}
use rubsd.Res.{Reals, Tariff}
use rubsd.Tariffs.{
  Inet, Plan, Parser, Array, Tables, elements, add, inet_entry, load_inets, load_plan, load_plans,
  inet_end, is_null, finish, tariffs_load,
}

module _ {ℓ} {A : Type ℓ} where
  -- The block has as many entries as the count says, and one at least.
  pub record IsFull (a : Array A) : Type 0 where
    pub size : length (elements a) ≡ a.cnt
    pub filled : is_null a ≡ false → 0 < a.cnt

  take-all : (n : ℕ) (xs : List A) → length xs ≡ n → take n xs ≡ xs
  take-all zero [] e = refl
  take-all (suc n) [] e = refl
  take-all zero (x ∷ xs) e = absurd (omega arith)
  take-all (suc n) (x ∷ xs) e = ap (◌∷◌ x) (take-all n xs (omega arith))

  pub add_lem :
      (x : A) (a : Array A)
      → IsFull a
      → (elements (add x a) ≡ elements a ++ x ∷ []) × IsFull (add x a)
  unfolding add
  add_lem x a full =
      let same = take-all a.cnt (elements a) full.size in
      (
        ap (λ (xs : List A). xs ++ x ∷ []) same,
        record {
          size = rw same (omega (arith, length-append (elements a) (x ∷ []), full.size));
          filled = λ e. omega arith;
        },
      )

module _ (d : Double) (r : Reals d) (p : Parser d) where
  -- The entries of a plan, and those of all plans, in the order of the file: the first of a plan has the
  -- price 0 where none is given, and the others -1.
  abbrev pub entries_of : ℤ → Bool → List Inet → List (Tariff d)
  entries_of plan first [] = []
  entries_of plan first (s ∷ ss) = inet_entry d r p plan first s ∷ entries_of plan false ss

  abbrev pub all_entries : List Plan → List (Tariff d)
  all_entries [] = []
  all_entries (s ∷ ss) = entries_of s.number true s.inets ++ all_entries ss

  load_inets_lem :
      (plan : ℤ) (first : Bool) (ss : List Inet) (a : Array (Tariff d))
      → IsFull a
      → (elements (load_inets d r p plan first ss a) ≡ elements a ++ entries_of plan first ss)
        × IsFull (load_inets d r p plan first ss a)
  unfolding load_inets
  load_inets_lem plan first [] a full = (sym (append-nil (elements a)), full)
  load_inets_lem plan first (s ∷ ss) a full =
      let x = inet_entry d r p plan first s in
      let (grown, full1) = add_lem x a full in
      let (more, full2) = load_inets_lem plan false ss (add x a) full1 in
      (
        more
            ∙ (ap (λ (xs : List (Tariff d)). xs ++ entries_of plan false ss) grown
                ∙ append_assoc (elements a) (x ∷ []) (entries_of plan false ss)),
        full2,
      )

  load_plans_lem :
      (ss : List Plan) (t : Tables d)
      → IsFull t.inet
      → (elements (load_plans d r p ss t).inet ≡ elements t.inet ++ all_entries ss)
        × IsFull (load_plans d r p ss t).inet
  unfolding load_plans load_plan
  load_plans_lem [] t full = (sym (append-nil (elements t.inet)), full)
  load_plans_lem (s ∷ ss) t full =
      let (grown, full1) = load_inets_lem s.number true s.inets t.inet full in
      let (more, full2) = load_plans_lem ss (load_plan d r p s t) full1 in
      (
        more
            ∙ (ap (λ (xs : List (Tariff d)). xs ++ all_entries ss) grown
                ∙ append_assoc (elements t.inet) (entries_of s.number true s.inets)
                    (all_entries ss)),
        full2,
      )

  finish_lem :
      (u : Tables d)
      → (finish d r p u).1 ≡ pos 0
      → (is_null u.inet ≡ false) × ((finish d r p u).0.inet ≡ add (inet_end d r p) u.inet)
  unfolding finish
  finish_lem u = elim (Bool-cases (is_null u.info || is_null u.limit || is_null u.inet)) [
    | inl missing ↦ rw (finish, missing) (λ e. absurd cc)
    | inr found ↦ rw (finish, found) (λ e. (ground arith, refl))
  ]

  -- When tariffs_load answers 0, the table of prices has behind its entries one for each section `inet`,
  -- in the order of the file, and then the entry that ends it; it is not empty before the latter.
  pub tariffs_load_lem :
      (plans : List Plan) (t : Tables d)
      → IsFull t.inet
      → (tariffs_load d r p (some plans) t).1 ≡ pos 0
      → (elements (tariffs_load d r p (some plans) t).0.inet
          ≡ elements t.inet ++ (all_entries plans ++ inet_end d r p ∷ []))
        × (0 < length (elements t.inet) + length (all_entries plans))
  unfolding tariffs_load
  tariffs_load_lem plans t full e =
      let u = load_plans d r p plans t in
      let (entries, full1) = load_plans_lem plans t full in
      let (found, inet) = finish_lem u e in
      let (ended, full2) = add_lem (inet_end d r p) u.inet full1 in
      let size = ap length entries ∙ length-append (elements t.inet) (all_entries plans) in
      (
        ap elements inet
            ∙ (ended
                ∙ (ap (λ (xs : List (Tariff d)). xs ++ inet_end d r p ∷ []) entries
                    ∙ append_assoc (elements t.inet) (all_entries plans) (inet_end d r p ∷ []))),
        omega (arith, full1.filled found, full1.size, size),
      )

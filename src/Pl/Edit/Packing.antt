-- ===== src/Pl/Edit/Packing.antt =====
-- pl_init and pl_pack.
use native.Mathlib.Nat.{le_refl}
use rubsd.Prelude.{
  ℕ, ◌≤◌, ◌<◌, ◌≡◌, refl, ◌⊎◌, inl, inr, Bool, true, ◌&&◌, ◌||◌, [], ◌==◌, none, some, arith,
  length-take, take, ltb, Bool-cases, Option-cases,
}
use rubsd.Prelude.Int.{ℤ, pos, negsuc}
use rubsd.Prelude.Cells.{at-take, cells-ext}
use rubsd.Pl.State.{
  Pl, items, IsValid, Realloc, IsRealloc, lst_esuccess, lst_max_delta, lst_def_delta,
}
use rubsd.Pl.Edit.{init, pack}

-- A valid empty list with a step chosen from what was asked for.
abbrev pub IsFresh : ℤ → Pl → Type 0
IsFresh delta l =
    IsValid l
    × (items l ≡ [])
    × (l.freed ≡ [])
    × (((delta ≡ pos l.delta) × (l.delta ≤ lst_max_delta))
        ⊎ ((l.delta ≡ lst_def_delta) × ((n : ℕ) → delta ≡ pos n → (n ≡ 0) ⊎ (lst_max_delta < n))))

-- pl_init, given a structure, makes a valid empty list that has destroyed nothing. Its step is at
-- most LST_MAX_DELTA: the one asked for, if that lies from 1 to LST_MAX_DELTA, and else
-- LST_DEF_DELTA.
pub init_lem :
    (delta : ℤ) (dealloc : Bool) → (l : Pl) × (init true delta dealloc ≡ some l) × IsFresh delta l
unfolding init
init_lem (pos m) dealloc = elim (Bool-cases (m == 0 || ltb lst_max_delta m)) [
  | inl out ↦ rw out (_, refl, (omega arith, refl, refl, inr (refl, λ n e. ground arith)))
  | inr within ↦ rw within (_, refl, (ground arith, refl, refl, inl (refl, ground arith)))
]
init_lem (negsuc m) dealloc = (_, refl, (omega arith, refl, refl, inr (refl, λ n e. cc)))

module _ (realloc : Realloc) (law : IsRealloc realloc) where
  -- The same items, with no cell to spare but for an empty list or for a refusal.
  abbrev pub Packed : Pl → Pl → Type 0
  Packed l k =
      IsValid k
      × (items k ≡ items l)
      × (k.rc ≡ lst_esuccess)
      × ((k.size ≡ l.count) ⊎ (l.count ≡ 0) ⊎ (realloc l.cells l.count ≡ none))

  -- pl_pack keeps a valid list valid and keeps its items; unless the list is empty or `realloc`
  -- refuses, no cell is left over.
  pub pack_lem : (l : Pl) → IsValid l → Packed l (pack realloc l)
  unfolding pack
  pack_lem l v = elim (Bool-cases (ltb 0 l.count && ltb l.count l.size)) [
    | inr whole ↦ rw whole (omega arith, refl, refl, ground (arith, v.fits))
    | inl spare ↦ elim (Option-cases (realloc l.cells l.count)) [
      | inl out ↦ rw (spare, out) (omega arith, refl, refl, inr (inr refl))
      | inr (b, e) ↦
          rw (spare, e)
            (let size = law.length_of l.cells l.count b e in
              (
                record {
                  block = size;
                  fits = le_refl _;
                  grows = v.grows;
                  bounded = omega (arith, v.fits, v.bounded);
                },
                cells-ext (take l.count b) (items l)
                    (omega (
                      arith,
                      length-take l.count b,
                      length-take l.count l.cells,
                      size,
                      v.block,
                      v.fits,
                    ))
                    λ i h.
                      let p : i < l.count = omega (arith, length-take l.count b) in
                      rw (at-take l.count b i p, at-take l.count l.cells i p)
                        (law.kept l.cells l.count b e i p (omega (arith, v.fits, v.block))),
                refl,
                inl refl,
              ))
    ]
  ]

-- ===== src/Pl/Edit/Growing.antt =====
-- The room that pl_add and pl_insert make, and pl_add.
use rubsd.Prelude.{
  ℕ, ◌+◌, ◌≤◌, ◌<◌, ◌≡◌, refl, ◌⊎◌, inl, inr, Bool, true, false, List, none, some, arith, length,
  length-take, take, ◌==◌, Option-cases,
}
use rubsd.Prelude.Int.{ℤ, pos}
use rubsd.Prelude.Run.{Yields, value, Yields-test}
use rubsd.Prelude.Cells.{at-take, cells-ext}
use rubsd.Pl.State.{
  Pl, items, IsValid, Realloc, IsRealloc, int_max, add_int-ok, lst_esuccess, lst_ememory,
}
use rubsd.Pl.Edit.{minus_one, grow}

pub length-items : (l : Pl) → IsValid l → length (items l) ≡ l.count
length-items l v = omega (arith, length-take l.count l.cells, v.block, v.fits)

-- `k` is `l` with the items `xs`, after a call that succeeded.
pub record HoldsNow (l : Pl) (xs : List ℕ) (k : Pl) : Type 0 where
  pub valid : IsValid k
  pub contents : items k ≡ xs
  pub code : k.rc ≡ lst_esuccess
  pub same_delta : k.delta ≡ l.delta
  pub same_dealloc : k.dealloc ≡ l.dealloc
  pub same_freed : k.freed ≡ l.freed

-- `g` is `l` with room for one item more.
pub record HasRoom (l g : Pl) : Type 0 where
  pub valid : IsValid g
  pub room : g.count < g.size
  pub same_count : g.count ≡ l.count
  pub contents : items g ≡ items l
  pub same_delta : g.delta ≡ l.delta
  pub same_dealloc : g.dealloc ≡ l.dealloc
  pub same_freed : g.freed ≡ l.freed

module _ (realloc : Realloc) where
  -- The list is full and memory is out: only `rc` is set.
  abbrev pub OutOfMemory : Pl → Pl → Type 0
  OutOfMemory l k =
      (l.count ≡ l.size)
      × (realloc l.cells (l.size + l.delta) ≡ none)
      × (k ≡ record l { rc = lst_ememory })

  -- A call that makes the list hold `xs` and returns `index`, unless memory is out.
  abbrev pub AddsOrRefuses : Pl → List ℕ → ℕ → Pl × ℤ → Type 0
  AddsOrRefuses l xs index r =
      ((r.1 ≡ pos index) × HoldsNow l xs r.0) ⊎ ((r.1 ≡ minus_one) × OutOfMemory l r.0)

  module _ (law : IsRealloc realloc) where
    resized :
        (l : Pl) (b : List ℕ)
        → IsValid l
        → l.size + l.delta ≤ int_max
        → realloc l.cells (l.size + l.delta) ≡ some b
        → HasRoom l (record l { cells = b; size = l.size + l.delta })
    resized l b v fits e =
        let size = law.length_of l.cells (l.size + l.delta) b e in
        record {
          valid = record {
            block = size;
            fits = omega (arith, v.fits);
            grows = v.grows;
            bounded = fits;
          };
          room = omega (arith, v.fits, v.grows);
          same_count = refl;
          contents =
              cells-ext (take l.count b) (items l)
                (omega (
                  arith,
                  length-take l.count b,
                  length-take l.count l.cells,
                  size,
                  v.block,
                  v.fits,
                ))
                λ i h.
                  let p : i < l.count = omega (arith, length-take l.count b) in
                  rw (at-take l.count b i p, at-take l.count l.cells i p)
                    (law.kept l.cells (l.size + l.delta) b e i (omega (arith, v.fits))
                      (omega (arith, v.fits, v.block)));
          same_delta = refl;
          same_dealloc = refl;
          same_freed = refl;
        }

    pub grow_lem :
        (l : Pl)
        → IsValid l
        → l.size + l.delta ≤ int_max
        → Yields
            (λ (r : Pl × Bool).
              ((r.1 ≡ true) × HasRoom l r.0) ⊎ ((r.1 ≡ false) × OutOfMemory l r.0))
            (grow realloc l)
    unfolding grow
    grow_lem l v fits =
        Yields-test (l.count == l.size)
          (λ full.
            rw (add_int-ok l.size l.delta fits)
              (elim (Option-cases (realloc l.cells (l.size + l.delta))) [
                | inl out ↦ rw out (value (inr (refl, (ground arith, refl, refl))))
                | inr (b, e) ↦ rw e (value (inl (refl, resized l b v fits e)))
              ]))
          (λ room. value (
            inl (
              refl,
              record {
                valid = v;
                room = ground (arith, v.fits);
                same_count = refl;
                contents = refl;
                same_delta = refl;
                same_dealloc = refl;
                same_freed = refl;
              },
            )))

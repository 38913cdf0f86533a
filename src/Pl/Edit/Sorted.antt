-- ===== src/Pl/Edit/Sorted.antt =====
-- pl_sinsert, the "sorted insertion".
use rubsd.Prelude.{
  ℕ, zero, suc, ◌+◌, ◌-◌, ◌/◌, ◌^◌, ◌≤◌, ◌<◌, ◌≡◌, ◌⊎◌, inl, inr, [], ◌∷◌, ◌++◌, arith, leb, ◌==◌,
  Bool-cases,
}
use rubsd.Prelude.Int.{ℤ, pos, negsuc}
use rubsd.Prelude.Run.{Yields, Yields-test}
use rubsd.Pl.State.{Pl, items, IsValid, Realloc, IsRealloc, int_max, add_int-ok, lst_esuccess}
use rubsd.Pl.Edit.{add, sinsert_loop, sinsert}
use rubsd.Pl.Edit.Growing.{AddsOrRefuses}
use rubsd.Pl.Edit.Adding.{add_lem}

module _ (realloc : Realloc) (law : IsRealloc realloc) where
  module _ (l : Pl) (item : ℕ) (compare : Pl → ℕ → ℕ → ℤ) (v : IsValid l)
      (fits : l.size + l.delta ≤ int_max) (small : l.count ≤ 2 ^ 30)
      (never_equal : (m : ℕ)
        → m < l.count
        → (compare l item m ≡ negsuc 0) ⊎ (compare l item m ≡ pos 1)) where
    -- `add` after `rc` is reset differs from `add` in nothing but the state that a refusal leaves.
    abbrev pub Appended : Pl × ℤ → Type 0
    Appended = AddsOrRefuses realloc (record l { rc = lst_esuccess }) (items l ++ item ∷ []) l.count

    append_now : Yields Appended (add realloc (record l { rc = lst_esuccess }) item)
    append_now =
        add_lem realloc law (record l { rc = lst_esuccess }) item
          (record { block = v.block; fits = v.fits; grows = v.grows; bounded = v.bounded }) fits

    sinsert_loop_lem :
        (fuel lo hi : ℕ)
        → hi - lo < fuel
        → lo < hi
        → hi ≤ l.count
        → Yields Appended (sinsert_loop realloc fuel l item compare lo hi)
    unfolding sinsert_loop
    sinsert_loop_lem zero lo hi f p q = absurd (omega arith)
    sinsert_loop_lem (suc fuel) lo hi f p q =
        let m = (lo + (hi - 1)) / 2 in
        rw (add_int-ok lo (hi - 1) (omega arith)) (elim (never_equal m (omega arith)) [
          | inl e ↦ rw e (elim (Bool-cases (leb m lo)) [
            | inl t ↦ rw t append_now
            | inr t ↦ rw t (sinsert_loop_lem fuel lo m (omega arith) (ground arith) (omega arith))
          ])
          | inr e ↦ rw e (elim (Bool-cases (leb hi (m + 1))) [
            | inl t ↦ rw t append_now
            | inr t ↦ rw t (sinsert_loop_lem fuel (m + 1) hi (omega arith) (ground arith) q)
          ])
        ])

    -- pl_sinsert into a valid list that is not empty, of at most 2^30 items, with a comparison that
    -- is 1 or -1 at each of them: it returns, and the item goes to the end of the list, wherever the
    -- comparison puts it; or the list is full, `realloc` refuses, and the list keeps all but `rc`.
    pub sinsert_appends : 0 < l.count → Yields Appended (sinsert realloc l item compare)
    unfolding sinsert
    sinsert_appends some_item =
        Yields-test (l.count == 0) (λ e. absurd (ground arith))
          λ e. sinsert_loop_lem (l.count + 1) 0 l.count (omega arith) some_item (omega arith)

-- ===== src/Pl/Search/Linear.antt =====
-- pl_lsearch.
use native.Mathlib.Decide.{ℕ_discrete}
use rubsd.Prelude.{
  ℕ, zero, suc, ◌+◌, ◌≤◌, ◌<◌, ◌≡◌, refl, ◌⊎◌, inl, inr, Bool, true, false, arith, length,
  Bool-cases,
}
use rubsd.Prelude.Run.{Yields, value, Yields-weaken}
use rubsd.Prelude.Cells.{at, read-ok, at-take}
use rubsd.Pl.State.{Pl, items, IsValid}
use rubsd.Pl.Search.{Found, found, missing, lsearch_from, lsearch}

-- The first match from index `i` up to `hi`, or none.
abbrev FirstMatch : (ℕ → Bool) → Pl → ℕ → ℕ → Found → Type 0
FirstMatch matches l i hi r =
    ((m : ℕ) × (r ≡ found l (at l.cells m) m)
      × (i ≤ m)
      × (m < hi)
      × (matches (at l.cells m) ≡ true)
      × ((j : ℕ) → i ≤ j → j < m → matches (at l.cells j) ≡ false))
    ⊎ ((r ≡ missing l) × ((j : ℕ) → i ≤ j → j < hi → matches (at l.cells j) ≡ false))

module _ (l : Pl) (key : ℕ) (compare : ℕ → ℕ → Bool) where
  abbrev matches : ℕ → Bool
  matches item = compare item key

  FirstMatch-cons :
      (i hi : ℕ) (r : Found)
      → matches (at l.cells i) ≡ false
      → FirstMatch matches l (i + 1) hi r
      → FirstMatch matches l i hi r
  FirstMatch-cons i hi r miss (inl (m, e, low, high, hit, first)) = inl (
    m,
    e,
    omega arith,
    high,
    hit,
    λ j p q. elim (ℕ_discrete i j) [ yes s ↦ rw (← s) miss | no d ↦ first j (omega arith) q ],
  )
  FirstMatch-cons i hi r miss (inr (e, none_left)) = inr (
    e,
    λ j p q. elim (ℕ_discrete i j) [ yes s ↦ rw (← s) miss | no d ↦ none_left j (omega arith) q ],
  )

  lsearch_from_lem :
      (n i hi : ℕ)
      → i + n ≡ hi
      → hi ≤ length l.cells
      → Yields (FirstMatch matches l i hi) (lsearch_from n i l key compare)
  unfolding lsearch_from
  lsearch_from_lem zero i hi e h = value (inr (refl, λ j p q. absurd (omega arith)))
  lsearch_from_lem (suc n) i hi e h =
      rw (read-ok l.cells i (omega arith)) (elim (Bool-cases (compare (at l.cells i) key)) [
        | inl hit ↦
            rw hit
              (value (inl (i, refl, omega arith, omega arith, hit, λ j p q. absurd (omega arith))))
        | inr miss ↦ rw miss (
            Yields-weaken (lsearch_from_lem n (i + 1) hi (omega arith) h)
              λ r s. FirstMatch-cons i hi r miss s)
      ])

-- The first item that matches the key, and its index, or none.
abbrev pub FirstItem : Pl → ℕ → (ℕ → ℕ → Bool) → Found → Type 0
FirstItem l key compare r =
    ((m : ℕ) × (r ≡ found l (at (items l) m) m)
      × (m < l.count)
      × (compare (at (items l) m) key ≡ true)
      × ((j : ℕ) → j < m → compare (at (items l) j) key ≡ false))
    ⊎ ((r ≡ missing l) × ((j : ℕ) → j < l.count → compare (at (items l) j) key ≡ false))

-- pl_lsearch on a valid list returns the first item that matches the key, and its index, or NULL
-- and -1 if none does.
pub lsearch_first :
    (l : Pl) (key : ℕ) (compare : ℕ → ℕ → Bool)
    → IsValid l
    → Yields (FirstItem l key compare) (lsearch l key compare)
unfolding lsearch
lsearch_first l key compare v =
    Yields-weaken
      (lsearch_from_lem l key compare l.count 0 l.count (omega arith)
        (omega (arith, v.block, v.fits)))
      λ r first. elim first [
        | inl (m, e, low, high, hit, before) ↦
            let same = λ (j : ℕ) (p : j < l.count). at-take l.count l.cells j p in
            inl (
              m,
              rw (same m high) e,
              high,
              rw (same m high) hit,
              λ j p. rw (same j (omega arith)) (before j (omega arith) p),
            )
        | inr (e, none_left) ↦
            inr (e, λ j p. rw (at-take l.count l.cells j p) (none_left j (omega arith) p))
      ]

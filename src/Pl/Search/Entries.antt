-- ===== src/Pl/Search/Entries.antt =====
-- pl_fentry and pl_lentry: the first and the last entry of a key.
use native.Mathlib.Decide.{dec_lt}
use rubsd.Prelude.{
  ℕ, zero, suc, ◌+◌, ◌-◌, ◌^◌, ◌≤◌, ◌<◌, ◌≡◌, refl, ◌≢◌, ◌↔◌, ◌⊎◌, inl, inr, Bool, true, false,
  arith, length, ap, Bool-cases,
}
use rubsd.Prelude.Int.{ℤ, pos, negsuc, sign-cases}
use rubsd.Prelude.Run.{ok, Yields, value, Yields-bind, Yields-weaken}
use rubsd.Prelude.Cells.{at, read-ok}
use rubsd.Pl.State.{Pl, IsValid}
use rubsd.Pl.Search.{Found, found, missing, first_from, fentry, step_back, last_from, lentry}
use rubsd.Pl.Search.Binary.{IsOrderedFor, bsearch_finds}

module _ (l : Pl) (key : ℕ) (compare : ℕ → ℕ → Bool) where
  abbrev hits : ℕ → Bool
  hits j = compare (at l.cells j) key

  -- Down from cell `i`, the walk stops at `m`: all from `m` to `i` match, and the one before not.
  abbrev StopsDown : ℕ → Found → Type 0
  StopsDown i r =
      (m : ℕ) × (r ≡ found l (at l.cells m) m)
      × (m ≤ i + 1)
      × ((j : ℕ) → m ≤ j → j ≤ i → hits j ≡ true)
      × ((m ≡ 0) ⊎ (hits (m - 1) ≡ false))

  first_from_lem :
      (i : ℕ)
      → i < length l.cells
      → (hits i ≡ true) ⊎ (suc i < length l.cells)
      → Yields (StopsDown i) (first_from i l key compare)
  unfolding first_from
  first_from_lem zero h c = rw (read-ok l.cells 0 h) (elim (Bool-cases (hits 0)) [
    | inl e ↦
        rw e
          (value (0, refl, omega arith, (λ j p q. let z : j ≡ 0 = omega arith in rw z e), inl refl))
    | inr e ↦
        let more : 1 < length l.cells = ground arith in
        rw (e, read-ok l.cells 1 more)
          (value (1, refl, omega arith, (λ j p q. absurd (omega arith)), inr e))
  ])
  first_from_lem (suc i) h c = rw (read-ok l.cells (suc i) h) (elim (Bool-cases (hits (suc i))) [
    | inl e ↦ rw e (
        Yields-weaken (first_from_lem i (omega arith) (inr h)) λ r (m, s, low, all, stop). (
          m,
          s,
          omega arith,
          (λ j p q. elim (dec_lt i j) [
            | yes t ↦ let z : j ≡ suc i = omega arith in rw z e
            | no t ↦ all j p (omega arith)
          ]),
          stop,
        ))
    | inr e ↦
        let more : suc i + 1 < length l.cells = ground arith in
        let back : suc i + 1 - 1 ≡ suc i = omega arith in
        rw (e, read-ok l.cells (suc i + 1) more)
          (value (suc i + 1, refl, omega arith, (λ j p q. absurd (omega arith)), inr (rw back e)))
  ])

  -- Up from cell `i`, the walk stops after `m`.
  abbrev StopsUp : ℕ → Found → Type 0
  StopsUp i r =
      (m : ℕ) × (r ≡ found l (at l.cells m) m)
      × (i ≤ m + 1)
      × (m < l.count)
      × ((j : ℕ) → i ≤ j → j ≤ m → hits j ≡ true)
      × ((m + 1 ≡ l.count) ⊎ (hits (m + 1) ≡ false))

  step_back-ok :
      (i : ℕ)
      → 0 < i
      → i ≤ length l.cells
      → step_back l i ≡ ok (found l (at l.cells (i - 1)) (i - 1))
  unfolding step_back
  step_back-ok zero p h = absurd (omega arith)
  step_back-ok (suc i) p h =
      let e : suc i - 1 ≡ i = omega arith in rw (e, read-ok l.cells i (omega arith))

  last_from_lem :
      (n i : ℕ)
      → i + n ≡ l.count
      → l.count ≤ length l.cells
      → ((0 < n) × (hits i ≡ true)) ⊎ (0 < i)
      → Yields (StopsUp i) (last_from n i l key compare)
  unfolding last_from
  last_from_lem zero i e size c =
      let back : i - 1 + 1 ≡ i = omega arith in
      rw (step_back-ok i (omega arith) (omega arith)) (
        value (
          i - 1,
          refl,
          omega arith,
          omega arith,
          (λ j p q. absurd (omega arith)),
          inl (omega arith),
        ))
  last_from_lem (suc n) i e size c =
      rw (read-ok l.cells i (omega arith)) (elim (Bool-cases (hits i)) [
        | inl t ↦ rw t (
            Yields-weaken (last_from_lem n (i + 1) (omega arith) size (inr (omega arith)))
              λ r (m, s, low, high, all, stop). (
                m,
                s,
                omega arith,
                high,
                (λ j p q. elim (dec_lt i j) [
                  | yes u ↦ all j (omega arith) q
                  | no u ↦ let z : j ≡ i = omega arith in rw z t
                ]),
                stop,
              ))
        | inr t ↦
            let later : 0 < i = ground arith in
            let back : i - 1 + 1 ≡ i = omega arith in
            rw (t, step_back-ok i later (omega arith))
              (value (
                i - 1,
                refl,
                omega arith,
                omega arith,
                (λ j p q. absurd (omega arith)),
                inr (rw back t),
              ))
      ])

module _ (l : Pl) (key : ℕ) (matches : ℕ → ℕ → Bool) where
  -- The first of the items that match, with its index, or NULL and -1 where none does.
  abbrev pub FirstEntry : Found → Type 0
  FirstEntry r =
      ((m : ℕ) × (r ≡ found l (at l.cells m) m)
        × (m < l.count)
        × (matches (at l.cells m) key ≡ true)
        × ((j : ℕ) → j < m → matches (at l.cells j) key ≡ false))
      ⊎ ((r ≡ missing l) × ((j : ℕ) → j < l.count → matches (at l.cells j) key ≡ false))

  -- The last of them.
  abbrev pub LastEntry : Found → Type 0
  LastEntry r =
      ((m : ℕ) × (r ≡ found l (at l.cells m) m)
        × (m < l.count)
        × (matches (at l.cells m) key ≡ true)
        × ((j : ℕ) → m < j → j < l.count → matches (at l.cells j) key ≡ false))
      ⊎ ((r ≡ missing l) × ((j : ℕ) → j < l.count → matches (at l.cells j) key ≡ false))

module _ (l : Pl) (key : ℕ) (order : ℕ → ℕ → ℤ) (matches : ℕ → ℕ → Bool) (v : IsValid l)
    (small : l.count ≤ 2 ^ 30) (sorted : IsOrderedFor (λ item. order item key) l)
    (agree : (item : ℕ) → (matches item key ≡ true) ↔ (order item key ≡ pos 0)) where
  -- Between two places that match, all match: what matches lies together.
  together :
      (i j k : ℕ)
      → i < j
      → j < k
      → k < l.count
      → matches (at l.cells i) key ≡ true
      → matches (at l.cells k) key ≡ true
      → matches (at l.cells j) key ≡ true
  together i j k p q h a b = elim (sign-cases (order (at l.cells j) key)) [
    | inl (n, e) ↦ cc (sorted.neg_after j k q h (rw e), (agree (at l.cells k)).0 b)
    | inr (inl (n, e)) ↦
        cc (sorted.pos_before i j p (omega arith) (rw e), (agree (at l.cells i)).0 a)
    | inr (inr e) ↦ (agree (at l.cells j)).1 e
  ]

  absent :
      ((j : ℕ) → j < l.count → order (at l.cells j) key ≢ pos 0)
      → (j : ℕ) → j < l.count
      → matches (at l.cells j) key ≡ false
  absent nothing j p = elim (Bool-cases (matches (at l.cells j) key)) [
    | inl t ↦ absurd (nothing j p ((agree (at l.cells j)).0 t))
    | inr t ↦ t
  ]

  -- Nothing before a match matches, if the item just before it does not.
  none_before :
      (m : ℕ)
      → m < l.count
      → matches (at l.cells m) key ≡ true
      → (m ≡ 0) ⊎ (matches (at l.cells (m - 1)) key ≡ false)
      → (j : ℕ) → j < m
      → matches (at l.cells j) key ≡ false
  none_before m h hit (inl e) j p = absurd (omega arith)
  none_before m h hit (inr e) j p = elim (Bool-cases (matches (at l.cells j) key)) [
    | inr t ↦ t
    | inl t ↦ elim (dec_lt j (m - 1)) [
      | yes q ↦ cc (together j (m - 1) m q (omega arith) h t hit)
      | no q ↦ let z : j ≡ m - 1 = omega arith in rw z e
    ]
  ]

  none_after :
      (m : ℕ)
      → matches (at l.cells m) key ≡ true
      → (m + 1 ≡ l.count) ⊎ (matches (at l.cells (m + 1)) key ≡ false)
      → (j : ℕ) → m < j
      → j < l.count
      → matches (at l.cells j) key ≡ false
  none_after m hit (inl e) j p h = absurd (omega arith)
  none_after m hit (inr e) j p h = elim (Bool-cases (matches (at l.cells j) key)) [
    | inr t ↦ t
    | inl t ↦ elim (dec_lt (m + 1) j) [
      | yes q ↦ cc (together m (m + 1) j (omega arith) q h hit t)
      | no q ↦ let z : j ≡ m + 1 = omega arith in rw z e
    ]
  ]

  -- pl_fentry on a valid list of at most 2^30 items in the order that the two comparisons share
  -- returns the first item that matches, and its index, or NULL and -1 if none does.
  pub fentry_first : Yields (FirstEntry l key matches) (fentry l key order matches)
  unfolding fentry
  fentry_first = Yields-bind (bsearch_finds l key order v small sorted) λ r outcome. elim outcome [
    | inl (n, e, h, z) ↦
        let at_n : r.2 ≡ pos n = ap (λ (t : Found). t.2) e in
        let hit : matches (at l.cells n) key ≡ true = (agree (at l.cells n)).1 z in
        rw at_n (
          Yields-weaken (first_from_lem l key matches n (omega (arith, v.block, v.fits)) (inl hit))
            λ s (m, t, low, all, stop).
              let inside : m ≤ n = ground (arith, stop, hit) in
              let here = all m (omega arith) inside in
              inl (m, t, omega arith, here, none_before m (omega arith) here stop))
    | inr (e, nothing) ↦
        let no_index : r.2 ≡ negsuc 0 = ap (λ (t : Found). t.2) e in
        rw no_index (value (inr (refl, absent nothing)))
  ]

  -- pl_lentry on a valid list of at most 2^30 items in the order that the two comparisons share
  -- returns the last item that matches, and its index, or NULL and -1 if none does.
  pub lentry_last : Yields (LastEntry l key matches) (lentry l key order matches)
  unfolding lentry
  lentry_last = Yields-bind (bsearch_finds l key order v small sorted) λ r outcome. elim outcome [
    | inl (n, e, h, z) ↦
        let at_n : r.2 ≡ pos n = ap (λ (t : Found). t.2) e in
        let hit : matches (at l.cells n) key ≡ true = (agree (at l.cells n)).1 z in
        rw at_n (
          Yields-weaken
            (last_from_lem l key matches (l.count - n) n (omega arith)
              (omega (arith, v.block, v.fits)) (inl (omega arith, hit)))
            λ s (m, t, low, high, all, stop).
              let inside : n ≤ m = ground (arith, stop, hit) in
              let here = all m inside (omega arith) in
              inl (m, t, high, here, none_after m here stop))
    | inr (e, nothing) ↦
        let no_index : r.2 ≡ negsuc 0 = ap (λ (t : Found). t.2) e in
        rw no_index (value (inr (refl, absent nothing)))
  ]

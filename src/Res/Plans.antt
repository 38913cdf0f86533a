-- ===== src/Res/Plans.antt =====
-- The table of tariffs, and the last entry in it that passes a test.
use rubsd.Prelude.{
  ℕ, zero, suc, ◌+◌, ◌<◌, ◌≡◌, refl, ◌∙◌, ◌⊎◌, inl, inr, Bool, true, false, ◌||◌, arith, [], ◌∷◌,
  some, get_elem?, if◌then◌else◌, Bool-cases,
}
use rubsd.Prelude.Int.{is_neg}
use rubsd.Prelude.Run.{ok, Yields, value, Yields-weaken}
use rubsd.Base.Env.{Double}
use rubsd.Res.{Tariff, Table, entry, find_last}

module _ (d : Double) where
  -- An entry ends the table.
  abbrev pub is_ended : Table d → Bool
  is_ended [] = false
  is_ended (t ∷ ts) = is_neg t.hour_from || is_ended ts

  -- The entries before the one that ends the table.
  abbrev pub live : Table d → Table d
  live [] = []
  live (t ∷ ts) = if is_neg t.hour_from then [] else t ∷ live ts

  live_tail :
      (x : Tariff d) (ts : Table d) (i : ℕ) (t : Tariff d)
      → ((j : ℕ) → get_elem? (live ts) j ≡ some t → get_elem? ts j ≡ some t)
      → get_elem? (x ∷ live ts) i ≡ some t
      → get_elem? (x ∷ ts) i ≡ some t
  live_tail x ts zero t rest e = e
  live_tail x ts (suc i) t rest e = rest i e

  pub live-at :
      (table : Table d) (i : ℕ) (t : Tariff d)
      → get_elem? (live table) i ≡ some t
      → get_elem? table i ≡ some t
  live-at [] i t = λ e. absurd cc
  live-at (x ∷ ts) i t = elim (Bool-cases (is_neg x.hour_from)) [
    | inl over ↦ rw over (λ e. absurd cc)
    | inr more ↦ rw more (live_tail x ts i t (λ j. live-at ts j t))
  ]

  pub entry-at :
      (table : Table d) (i : ℕ) (t : Tariff d)
      → get_elem? (live table) i ≡ some t
      → entry d table i ≡ ok t
  unfolding entry
  entry-at table i t e = rw (entry, live-at table i t e) refl

  -- No entry passes the test.
  abbrev pub NoneOf : (Tariff d → Bool) → Table d → Type 0
  NoneOf test ts = (k : ℕ) (t : Tariff d) → get_elem? ts k ≡ some t → test t ≡ false

  -- The entry at `k` is the last one that passes the test.
  pub record LastOf (test : Tariff d → Bool) (ts : Table d) (k : ℕ) : Type 0 where
    pub tariff : Tariff d
    pub there : get_elem? ts k ≡ some tariff
    pub passes : test tariff ≡ true
    pub after : (m : ℕ) (t : Tariff d) → k < m → get_elem? ts m ≡ some t → test t ≡ false

  -- What a search from the index `i` gives: the last entry that passes, or `found` if none does.
  abbrev pub Answer : (Tariff d → Bool) → Table d → ℕ → ℕ → ℕ → Type 0
  Answer test ts i found k =
      ((k ≡ found) × NoneOf test ts) ⊎ ((m : ℕ) × (k ≡ i + m) × LastOf test ts m)

  NoneOf-cons :
      (test : Tariff d → Bool) (x : Tariff d) (ts : Table d)
      → test x ≡ false
      → NoneOf test ts
      → NoneOf test (x ∷ ts)
  NoneOf-cons test x ts e h zero t at_k = cc
  NoneOf-cons test x ts e h (suc k) t at_k = h k t at_k

  after-head :
      (test : Tariff d → Bool) (x : Tariff d) (ts : Table d)
      → NoneOf test ts
      → (m : ℕ) (t : Tariff d) → 0 < m
      → get_elem? (x ∷ ts) m ≡ some t
      → test t ≡ false
  after-head test x ts h zero t below at_m = absurd (omega arith)
  after-head test x ts h (suc m) t below at_m = h m t at_m

  after-cons :
      (test : Tariff d → Bool) (x : Tariff d) (ts : Table d) (k : ℕ)
      → ((m : ℕ) (t : Tariff d) → k < m → get_elem? ts m ≡ some t → test t ≡ false)
      → (m : ℕ) (t : Tariff d) → suc k < m
      → get_elem? (x ∷ ts) m ≡ some t
      → test t ≡ false
  after-cons test x ts k h zero t below at_m = absurd (omega arith)
  after-cons test x ts k h (suc m) t below at_m = h m t (omega arith) at_m

  Answer-cons :
      (test : Tariff d → Bool) (x : Tariff d) (ts : Table d) (i found k : ℕ)
      → Answer test ts (i + 1) (if test x then i else found) k
      → Answer test (x ∷ ts) i found k
  Answer-cons test x ts i found k (inl (e, h)) = elim (Bool-cases (test x)) [
    | inl yes_x ↦
        let k_eq : k ≡ i = e ∙ rw yes_x refl in
        inr (
          0,
          omega arith,
          record { tariff = x; there = refl; passes = yes_x; after = after-head test x ts h },
        )
    | inr no_x ↦ inl (e ∙ rw no_x refl, NoneOf-cons test x ts no_x h)
  ]
  Answer-cons test x ts i found k (inr (m, e, l)) = inr (
    suc m,
    omega arith,
    record {
      tariff = l.tariff;
      there = l.there;
      passes = l.passes;
      after = after-cons test x ts m l.after;
    },
  )

  pub find_last_lem :
      (test : Tariff d → Bool) (i found : ℕ) (table : Table d)
      → is_ended table ≡ true
      → Yields (Answer test (live table) i found) (find_last d test i found table)
  unfolding find_last
  find_last_lem test i found [] = λ h. absurd cc
  find_last_lem test i found (x ∷ ts) = elim (Bool-cases (is_neg x.hour_from)) [
    | inl over ↦ rw (find_last, over) (λ h. value (inl (refl, λ k t e. absurd cc)))
    | inr more ↦
        rw (find_last, more)
          (λ h.
            Yields-weaken (find_last_lem test (i + 1) (if test x then i else found) ts h)
              (λ k a. Answer-cons test x (live ts) i found k a))
  ]

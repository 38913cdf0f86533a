-- ===== src/Misc/Strings/Trimming.antt =====
-- rtrim.
use rubsd.Prelude.{
  ℕ, zero, suc, ◌≤◌, ◌<◌, ◌≡◌, refl, sym, ap, ◌⊎◌, inl, inr, Bool, true, false, arith, List, [],
  ◌∷◌, ◌++◌, length, take, drop, get_or, ltb, length-take, take-append-drop, Bool-cases,
}
use rubsd.Misc.Strings.{rtrim_end, rtrim}

module _ (isspace : ℕ → Bool) where
  abbrev pub AllSpace : List ℕ → Type 0
  AllSpace [] = Unit {0}
  AllSpace (c ∷ s) = (isspace c ≡ true) × AllSpace s

  -- `t` is `s` without the blanks at its end: it ends in another byte, or `s` is blank and `t` has one
  -- of its blanks.
  pub record Trimmed (s t : List ℕ) : Type 0 where
    pub blanks : List ℕ
    pub whole : s ≡ t ++ blanks
    pub all : AllSpace blanks
    pub end :
        ((front : List ℕ) × (c : ℕ) × (t ≡ front ++ c ∷ []) × (isspace c ≡ false))
        ⊎ (AllSpace s × (length t ≡ 1))

  drop-get : (s : List ℕ) (j : ℕ) → j < length s → drop j s ≡ get_or s j 0 ∷ drop (suc j) s
  drop-get [] j h = absurd (omega arith)
  drop-get (c ∷ s) zero h = refl
  drop-get (c ∷ s) (suc j) h = drop-get s j (omega arith)

  take-get : (s : List ℕ) (j : ℕ) → j < length s → take (suc j) s ≡ take j s ++ get_or s j 0 ∷ []
  take-get [] j h = absurd (omega arith)
  take-get (c ∷ s) zero h = refl
  take-get (c ∷ s) (suc j) h = ap (◌∷◌ c) (take-get s j (omega arith))

  AllSpace-drop : (s : List ℕ) → AllSpace s → AllSpace (drop 1 s)
  AllSpace-drop [] all = tt
  AllSpace-drop (c ∷ s) (one, all) = all

  rtrim_end_lem :
      (s : List ℕ) (k : ℕ)
      → 1 < length s
      → k ≤ length s
      → AllSpace (drop k s)
      → Trimmed s (take (rtrim_end isspace s k) s)
  unfolding rtrim_end
  rtrim_end_lem s zero long inside all = record {
    blanks = drop 1 s;
    whole = sym (take-append-drop 1 s);
    all = AllSpace-drop s all;
    end = inr (all, omega (arith, length-take 1 s));
  }
  rtrim_end_lem s (suc j) long inside all = elim (Bool-cases (isspace (get_or s j 0))) [
    | inl blank ↦
        rw (rtrim_end, blank)
          (rtrim_end_lem s j long (omega arith) (rw (drop-get s j (omega arith)) (blank, all)))
    | inr stop ↦
        rw (rtrim_end, stop)
          (record {
            blanks = drop (suc j) s;
            whole = sym (take-append-drop (suc j) s);
            all = all;
            end = inl (take j s, get_or s j 0, take-get s j (omega arith), stop);
          })
  ]

  drop-length : (s : List ℕ) → AllSpace (drop (length s) s)
  drop-length [] = tt
  drop-length (c ∷ s) = drop-length s

  -- rtrim takes the blanks off the end of a text of two bytes or more, but leaves one byte of a text that
  -- is blank throughout.
  pub rtrim_lem : (s : List ℕ) → 1 < length s → Trimmed s (rtrim isspace s)
  unfolding rtrim
  rtrim_lem s long =
      let is_long : ltb 1 (length s) ≡ true = ground arith in
      rw (rtrim, is_long) (rtrim_end_lem s (length s) long (omega arith) (drop-length s))

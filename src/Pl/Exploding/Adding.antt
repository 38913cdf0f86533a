-- ===== src/Pl/Exploding/Adding.antt =====
-- The list behind pl_str_explode.
use mathlib.Core.List.{append-nil, append_assoc}
use native.Mathlib.Nat.{mul-suc}
use rubsd.Prelude.{
  ℕ, zero, suc, ◌+◌, ◌*◌, ◌≤◌, ◌<◌, ◌≡◌, ◌≢◌, refl, ◌∙◌, sym, ap, inl, inr, true, false, ◌==◌,
  arith, List, [], ◌∷◌, ◌++◌, Option, none, some, length, length-append, Bool-cases, Option-cases,
}
use rubsd.Prelude.Int.{ℤ, pos, eq_ℤ}
use rubsd.Prelude.Run.{
  Run, Yields, value, Yields-value, Yields-both, Yields-bind, Yields-weaken, ◌>>=◌,
}
use rubsd.Prelude.Cells.{write-ok}
use rubsd.Beelib.{next_token, token_loop}
use rubsd.Beelib.Tokens.{Next, next_token_lem}
use rubsd.Pl.State.{Pl, items, IsValid, Realloc, IsRealloc, int_max, add_int-ok}
use rubsd.Pl.Edit.{minus_one, grow, append_item, add}
use rubsd.Pl.Edit.Growing.{length-items, HoldsNow, HasRoom, grow_lem}
use rubsd.Pl.Edit.Adding.{add_lem}
use rubsd.Pl.Exploding.{next_tok, free_rest, Strdup, explode_loop, explode_text}
use rubsd.Pl.Exploding.Tokens.{tokens, rest_tokens, tokens-Next, tokens-none-Next}

-- The bytes that a pointer has before it, and one more for the end of the text.
abbrev left_of : Option (List ℕ) → ℕ
left_of none = 0
left_of (some s) = length s + 1

left_of-Next :
    (delim s : List ℕ) (rest : Option (List ℕ)) (str : List ℕ)
    → Next delim s (rest, some str)
    → left_of rest < left_of (some s)
left_of-Next delim s none str n = omega arith
left_of-Next delim s (some rest) str (skipped, body, e, all, some_bytes, clean, (d, is, cut)) =
    let long : length s ≡ length skipped + length body = ap length e ∙ length-append skipped body in
    let longer : length body ≡ length str + suc (length rest) =
      ap length cut ∙ length-append str (d ∷ rest) in
    omega arith

-- The copies of the tokens, the first of them from the `n`th call of strdup.
abbrev pub copies : Strdup → ℕ → List (List ℕ) → List ℕ
copies strdup n [] = []
copies strdup n (t ∷ ts) = strdup n t ∷ copies strdup (n + 1) ts

module _ (realloc : Realloc) (law : IsRealloc realloc) where
  grow_size :
      (l : Pl)
      → l.size + l.delta ≤ int_max
      → Yields (λ r. r.0.size ≤ l.size + l.delta) (grow realloc l)
  unfolding grow
  grow_size l fits = elim (Bool-cases (l.count == l.size)) [
    | inl full ↦ elim (Option-cases (realloc l.cells (l.size + l.delta))) [
      | inl refused ↦ rw (grow, full, add_int-ok l.size l.delta fits, refused) (value (omega arith))
      | inr (b, granted) ↦
          rw (grow, full, add_int-ok l.size l.delta fits, granted) (value (omega arith))
    ]
    | inr room ↦ rw (grow, room) (value (omega arith))
  ]

  append_size :
      (l g : Pl) (item : ℕ)
      → HasRoom l g
      → Yields (λ r. r.0.size ≡ g.size) (append_item realloc g item)
  unfolding append_item
  append_size l g item r =
      let inside : g.count < length g.cells = omega (arith, r.valid.block, r.room) in
      rw
        (
          write-ok g.cells g.count item inside,
          add_int-ok g.count 1 (omega (arith, r.room, r.valid.bounded)),
        )
        (value refl)

  add_size :
      (l : Pl) (item : ℕ)
      → IsValid l
      → l.size + l.delta ≤ int_max
      → ((a : List ℕ) (n : ℕ) → realloc a n ≢ none)
      → Yields (λ r. r.0.size ≤ l.size + l.delta) (add realloc l item)
  unfolding add
  add_size l item v fits grants =
      let (r, e, (grown, size)) =
        Yields-value (Yields-both (grow_lem realloc law l v fits) (grow_size l fits)) in
      elim grown [
        | inl (flag, room) ↦
            rw (e, flag) (Yields-weaken (append_size l r.0 item room) (λ s same. omega arith))
        | inr (flag, out) ↦ absurd (grants l.cells (l.size + l.delta) out.1)
      ]

  -- An item added to a list for which there is memory.
  pub record Added (l : Pl) (item : ℕ) (r : Pl × ℤ) : Type 0 where
    pub holds : HoldsNow l (items l ++ item ∷ []) r.0
    pub index : r.1 ≡ pos l.count
    pub size : r.0.size ≤ l.size + l.delta

  pub add-Added :
      (l : Pl) (item : ℕ)
      → IsValid l
      → l.size + l.delta ≤ int_max
      → ((a : List ℕ) (n : ℕ) → realloc a n ≢ none)
      → Yields (Added l item) (add realloc l item)
  unfolding add
  add-Added l item v fits grants =
      Yields-weaken
        (Yields-both (add_lem realloc law l item v fits) (add_size l item v fits grants))
        (λ r (added, size). elim added [
          | inl (index, holds) ↦ record { holds = holds; index = index; size = size }
          | inr (code, out) ↦ absurd (grants l.cells (l.size + l.delta) out.1)
        ])

  module _ (strdup : Strdup) (delim : List ℕ) where
    -- What the loop of pl_str_explode leaves of a list.
    abbrev pub Exploded : Pl → List ℕ → Pl × ℤ → Type 0
    Exploded l new r =
        IsValid r.0 × (items r.0 ≡ items l ++ new) × (r.1 ≡ pos (l.count + length new))

    -- The rest of a round of the loop, behind next_tok.
    abbrev round : ℕ → ℕ → Pl → Option (List ℕ) × Option (List ℕ) → Run (Pl × ℤ)
    round fuel n args (rest, tok) = elim tok [
      | none ↦ free_rest rest (args, pos args.count)
      | some t ↦ elim (strdup n t == 0) [
        | true ↦ free_rest rest (args, minus_one)
        | false ↦ add realloc args (strdup n t) >>= λ (l, rc). elim (eq_ℤ rc minus_one) [
          | true ↦ free_rest rest (l, minus_one)
          | false ↦ explode_loop realloc strdup delim fuel (n + 1) l rest
        ]
      ]
    ]

    Exploded-nil : (l : Pl) → IsValid l → Exploded l [] (l, pos l.count)
    Exploded-nil l v = (v, sym (append-nil (items l)), ap pos (omega arith))

    Exploded-cons :
        (l : Pl) (item : ℕ) (new : List ℕ) (k : Pl) (r : Pl × ℤ)
        → HoldsNow l (items l ++ item ∷ []) k
        → IsValid l
        → Exploded k new r
        → Exploded l (item ∷ new) r
    Exploded-cons l item new k r h v (valid, same, index) =
        let size : length (items k) ≡ length (items l) + 1 =
          ap length h.contents ∙ length-append (items l) (item ∷ []) in
        let longer : k.count + length new ≡ l.count + suc (length new) =
          omega (arith, length-items l v, length-items k h.valid) in
        (
          valid,
          same
              ∙ (ap (λ (xs : List ℕ). xs ++ new) h.contents
                  ∙ append_assoc (items l) (item ∷ []) new),
          index ∙ ap pos longer,
        )

    round_lem :
        (fuel n : ℕ) (l : Pl) (s : List ℕ) (out : Option (List ℕ) × Option (List ℕ))
        → IsValid l
        → ((k : ℕ) (t : List ℕ) → strdup k t ≢ 0)
        → ((a : List ℕ) (k : ℕ) → realloc a k ≢ none)
        → left_of (some s) ≤ suc fuel
        → l.size + l.delta * suc fuel ≤ int_max
        → ((k : Pl)
            → IsValid k
            → left_of out.0 ≤ fuel
            → k.size + k.delta * fuel ≤ int_max
            → Yields
                (Exploded k (copies strdup (n + 1) (rest_tokens delim out.0)))
                (explode_loop realloc strdup delim (suc fuel) (n + 1) k out.0))
        → Next delim s out
        → Yields (Exploded l (copies strdup n (tokens delim s))) (round (suc fuel) n l out)
    round_lem fuel n l s (rest, none) v copied granted enough fits ih next =
        let (ends, no_tokens) = tokens-none-Next delim s rest next in
        rw (no_tokens, ends) (value (Exploded-nil l v))
    round_lem fuel n l s (rest, some t) v copied granted enough fits ih next =
        let shorter = left_of-Next delim s rest t next in
        let more : l.delta * suc fuel ≡ l.delta * fuel + l.delta = mul-suc l.delta fuel in
        let is_copied : (strdup n t == 0) ≡ false = ground (arith, copied n t) in
        rw (tokens-Next delim s rest t next, round, is_copied)
          (Yields-bind (add-Added l (strdup n t) v (omega arith) granted) (λ r added.
            let good : eq_ℤ r.1 minus_one ≡ false = ground (arith, added.index) in
            let room : r.0.size + r.0.delta * fuel ≤ int_max =
              rw added.holds.same_delta (omega (arith, added.size, more, fits)) in
            rw good (
              Yields-weaken (ih r.0 added.holds.valid (omega arith) room) (λ out done.
                Exploded-cons l (strdup n t) (copies strdup (n + 1) (rest_tokens delim rest)) r.0
                  out added.holds v done))))

    explode_loop_lem :
        (fuel n : ℕ) (l : Pl) (ptr : Option (List ℕ))
        → IsValid l
        → ((k : ℕ) (t : List ℕ) → strdup k t ≢ 0)
        → ((a : List ℕ) (k : ℕ) → realloc a k ≢ none)
        → left_of ptr ≤ fuel
        → l.size + l.delta * fuel ≤ int_max
        → Yields
            (Exploded l (copies strdup n (rest_tokens delim ptr)))
            (explode_loop realloc strdup delim (suc fuel) n l ptr)
    unfolding explode_loop next_tok next_token token_loop
    explode_loop_lem fuel n l none v copied granted enough fits = value (Exploded-nil l v)
    explode_loop_lem zero n l (some s) v copied granted enough fits = absurd (omega arith)
    explode_loop_lem (suc fuel) n l (some s) v copied granted enough fits =
        Yields-bind (next_token_lem delim s) (λ out next.
          round_lem fuel n l s out v copied granted enough fits
            (λ k valid less room.
              explode_loop_lem fuel (n + 1) k out.0 valid copied granted less room)
            next)

  -- With memory for all copies and all cells, and `l.size + l.delta * (length of the text + 1)` up to
  -- INT_MAX, pl_str_explode of a text and a valid list comes back, and the list
  -- has behind its items the copies of the text's tokens, in order: the pieces between delimiters that
  -- are not empty. The result is the number of items that it has now.
  pub explode_text_lem :
      (strdup : Strdup) (delim str : List ℕ) (l : Pl)
      → IsValid l
      → ((k : ℕ) (t : List ℕ) → strdup k t ≢ 0)
      → ((a : List ℕ) (k : ℕ) → realloc a k ≢ none)
      → l.size + l.delta * (length str + 1) ≤ int_max
      → Yields
          (Exploded strdup delim l (copies strdup 1 (tokens delim str)))
          (explode_text realloc strdup delim l str)
  unfolding explode_text
  explode_text_lem strdup delim str l v copied granted fits =
      let is_copied : (strdup 0 str == 0) ≡ false = ground (arith, copied 0 str) in
      let rounds : length str + 2 ≡ suc (length str + 1) = omega arith in
      rw (explode_text, is_copied, rounds)
        (explode_loop_lem strdup delim (length str + 1) 1 l (some str) v copied granted
          (omega arith) fits)

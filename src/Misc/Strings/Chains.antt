-- ===== src/Misc/Strings/Chains.antt =====
-- find_chain.
use rubsd.Prelude.{
  ℕ, zero, suc, ◌+◌, ◌≤◌, ◌<◌, ◌≡◌, refl, sym, ◌⊎◌, inl, inr, Bool, true, false, arith, List,
  Option, none, some, length, Bool-cases,
}
use rubsd.Prelude.Int.{pos}
use rubsd.Prelude.Run.{fault, Yields, value, Yields-bind}
use rubsd.Prelude.Cells.{at, read-ok, read-fault}
use rubsd.Misc.Strings.{chain_loop, find_chain}

module _ (f : ℕ → Bool) (start : List ℕ) where
  -- The bytes from `a` on, before `b`, are all of the class, or none of them is.
  abbrev pub Are : Bool → ℕ → ℕ → Type 0
  Are v a b = (j : ℕ) → a ≤ j → j < b → f (at start j) ≡ v

  -- The first chain before `end`: from `s`, up to `e`.
  pub record IsChain (end s e : ℕ) : Type 0 where
    pub order : (s < e) × (e ≤ end)
    pub before : Are false 0 s
    pub inside : Are true s e
    pub stops : (e ≡ end) ⊎ (f (at start e) ≡ false)

  -- A search of the bytes before `end`; the chain is given by its first and its last byte.
  abbrev pub Found : ℕ → Option (ℕ × ℕ) → Type 0
  Found end none = Are false 0 end
  Found end (some (s, e)) = IsChain end s (e + 1)

  Are-one : (v : Bool) (a i : ℕ) → Are v a i → f (at start i) ≡ v → Are v a (i + 1)
  Are-one v a i all one j above below = elim (place j i below) [
    | inl less ↦ all j above less
    | inr same ↦ rw same one
  ]
    where
      place : (j i : ℕ) → j < i + 1 → (j < i) ⊎ (j ≡ i)
      place j i h = omega arith

  chain_on :
      (end n i s e : ℕ)
      → i + n ≡ end
      → end ≤ length start
      → e + 1 ≡ i
      → s < i
      → Are false 0 s
      → Are true s i
      → Yields (Found end) (chain_loop f start n i (some (s, e)))
  unfolding chain_loop
  chain_on end zero i s e sum fits last order none_before inside = value (record {
    order = (omega arith, omega arith);
    before = none_before;
    inside = rw last inside;
    stops = inl (omega arith);
  })
  chain_on end (suc n) i s e sum fits last order none_before inside =
      elim (Bool-cases (f (at start i))) [
        | inl yes_f ↦
            rw (read-ok start i (omega arith), yes_f)
              (chain_on end n (i + 1) s i (omega arith) fits refl (omega arith) none_before
                (Are-one true s i inside yes_f))
        | inr no_f ↦
            rw (read-ok start i (omega arith), no_f)
              (value (record {
                order = (omega arith, omega arith);
                before = none_before;
                inside = rw last inside;
                stops = inr (rw last no_f);
              }))
      ]

  chain_start :
      (end n i : ℕ)
      → i + n ≡ end
      → end ≤ length start
      → Are false 0 i
      → Yields (Found end) (chain_loop f start n i none)
  unfolding chain_loop
  chain_start end zero i sum fits none_before =
      let same : i ≡ end = omega arith in value (rw (sym same) none_before)
  chain_start end (suc n) i sum fits none_before = elim (Bool-cases (f (at start i))) [
    | inl yes_f ↦
        rw (read-ok start i (omega arith), yes_f)
          (chain_on end n (i + 1) i i (omega arith) fits refl (omega arith) none_before
            (Are-one true i i (λ j above below. absurd (omega arith)) yes_f))
    | inr no_f ↦
        rw (read-ok start i (omega arith), no_f)
          (chain_start end n (i + 1) (omega arith) fits (Are-one false 0 i none_before no_f))
  ]

  -- What find_chain gives of `end` bytes.
  abbrev pub Answer : ℕ → Option (ℕ × ℕ) → Type 0
  Answer end none = Are false 0 end
  Answer end (some (s, e)) = IsChain end s e

  answered :
      (end : ℕ) (o : Option (ℕ × ℕ))
      → Found end o
      → Answer end (elim o [ none ↦ none | some (s, e) ↦ some (s, e + 1) ])
  answered end none found = found
  answered end (some (s, e)) found = found

  -- find_chain gives the first chain of bytes of the class among the `len + 1` bytes at `start`, the whole
  -- of it, or says that none of them is of the class; if there are as many bytes.
  pub find_chain_lem :
      (strlen len : ℕ)
      → len + 1 ≤ length start
      → Yields (Answer (len + 1)) (find_chain f (some start) strlen (pos len))
  unfolding find_chain
  find_chain_lem strlen len fits =
      Yields-bind
        (chain_start (len + 1) (len + 1) 0 (omega arith) fits
          (λ j above below. absurd (omega arith)))
        (λ o found. value (answered (len + 1) o found))

-- No byte of the block is of the class: the search reads one behind the `len` bytes that it is given.
chain-fault :
    (f : ℕ → Bool) (start : List ℕ) (n i : ℕ)
    → i + n ≡ length start
    → Are f start false 0 (length start)
    → chain_loop f start (suc n) i none ≡ fault
unfolding chain_loop
chain-fault f start zero i sum none_of = rw (read-fault start i (omega arith)) refl
chain-fault f start (suc n) i sum none_of =
    rw (read-ok start i (omega arith), none_of i (omega arith) (omega arith))
      (chain-fault f start n (i + 1) (omega arith) none_of)

-- On a block of `len` bytes, none of them of the class, find_chain with that `len` reads behind the block.
pub find_chain-fault :
    (f : ℕ → Bool) (start : List ℕ) (strlen : ℕ)
    → Are f start false 0 (length start)
    → find_chain f (some start) strlen (pos (length start)) ≡ fault
unfolding find_chain
find_chain-fault f start strlen none_of =
    let rounds : length start + 1 ≡ suc (length start) = omega arith in
    rw (find_chain, rounds, chain-fault f start (length start) 0 (omega arith) none_of) refl

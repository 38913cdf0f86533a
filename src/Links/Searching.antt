-- ===== src/Links/Searching.antt =====
-- What a lookup finds.
use rubsd.Prelude.{
  ℕ, zero, suc, ◌+◌, ◌-◌, ◌≤◌, ◌<◌, ◌≡◌, refl, ◌∙◌, sym, ap, ◌⊎◌, inl, inr, Bool, true, false,
  arith, List, [], ◌∷◌, none, some, get_elem?, drop, Bool-cases,
}
use rubsd.Prelude.Int.{ℤ, pos, negsuc, ◌+ℤ◌}
use rubsd.Prelude.Run.{Yields, value}
use rubsd.Links.Gates.{Reslink, first_hit, search_from}

-- No gate of the list has the property.
abbrev pub NoneOf : (Reslink → Bool) → List Reslink → Type 0
NoneOf p links = (k : ℕ) (link : Reslink) → get_elem? links k ≡ some link → p link ≡ false

head_or_tail :
    (p : Reslink → Bool) (x : Reslink) (links : List Reslink) (j : ℕ)
    → p x ≡ false
    → ((k : ℕ) (link : Reslink) → k < j → get_elem? links k ≡ some link → p link ≡ false)
    → (k : ℕ) (link : Reslink) → k < suc j
    → get_elem? (x ∷ links) k ≡ some link
    → p link ≡ false
head_or_tail p x links j e h zero link below at_k = cc
head_or_tail p x links j e h (suc k) link below at_k = h k link (omega arith) at_k

-- The first gate with the property, `j` places behind the start of the list.
record FirstOf (p : Reslink → Bool) (links : List Reslink) (j : ℕ) : Type 0 where
  pub gate : Reslink
  pub there : get_elem? links j ≡ some gate
  pub holds : p gate ≡ true
  pub before : (k : ℕ) (link : Reslink) → k < j → get_elem? links k ≡ some link → p link ≡ false

NoneOf-cons :
    (p : Reslink → Bool) (x : Reslink) (links : List Reslink)
    → p x ≡ false
    → NoneOf p links
    → NoneOf p (x ∷ links)
NoneOf-cons p x links e h zero link at_k = cc
NoneOf-cons p x links e h (suc k) link at_k = h k link at_k

FirstOf-cons :
    (p : Reslink → Bool) (x : Reslink) (links : List Reslink) (j : ℕ)
    → p x ≡ false
    → FirstOf p links j
    → FirstOf p (x ∷ links) (suc j)
FirstOf-cons p x links j e f = record {
  gate = f.gate;
  there = f.there;
  holds = f.holds;
  before = head_or_tail p x links j e f.before;
}

first_hit_lem :
    (p : Reslink → Bool) (i : ℕ) (links : List Reslink)
    → ((first_hit p i links ≡ none) × NoneOf p links)
      ⊎ ((j : ℕ) × (first_hit p i links ≡ some (i + j)) × FirstOf p links j)
unfolding first_hit
first_hit_lem p i [] = inl (refl, λ k link at_k. cc)
first_hit_lem p i (x ∷ links) = elim (Bool-cases (p x)) [
  | inl e ↦ inr (
    0,
    ground arith,
    record { gate = x; there = refl; holds = e; before = λ k link h at_k. absurd (omega arith) },
  )
  | inr e ↦ elim (first_hit_lem p (i + 1) links) [
    | inl (none_found, all) ↦ inl (rw (first_hit, e) none_found, NoneOf-cons p x links e all)
    | inr (j, found, f) ↦
        inr (suc j, rw (first_hit, e) (found ∙ ap some (omega arith)), FirstOf-cons p x links j e f)
  ]
]

pub get_elem?-drop :
    (i : ℕ) (links : List Reslink) (j : ℕ) → get_elem? (drop i links) j ≡ get_elem? links (i + j)
get_elem?-drop zero links j = let e : j ≡ 0 + j = omega arith in ap (get_elem? links) e
get_elem?-drop (suc i) [] j = refl
get_elem?-drop (suc i) (x ∷ links) j =
    let e : suc (i + j) ≡ suc i + j = omega arith in
    get_elem?-drop i links j ∙ ap (get_elem? (x ∷ links)) e

place_behind :
    (links : List Reslink) (i k : ℕ) (link : Reslink)
    → i ≤ k
    → get_elem? links k ≡ some link
    → get_elem? (drop i links) (k - i) ≡ some link
place_behind links i k link h at_k =
    let e : i + (k - i) ≡ k = omega arith in
    get_elem?-drop i links (k - i) ∙ ap (get_elem? links) e ∙ at_k

-- The first gate with the property from the place `i` on.
pub record Found (p : Reslink → Bool) (links : List Reslink) (i j : ℕ) : Type 0 where
  pub gate : Reslink
  pub there : get_elem? links j ≡ some gate
  pub holds : p gate ≡ true
  pub behind : i ≤ j
  pub before :
      (k : ℕ) (link : Reslink) → i ≤ k → k < j → get_elem? links k ≡ some link → p link ≡ false

-- What a lookup returns, with what it leaves in the index: the first such gate, or -1 when no gate
-- from `i` on has the property.
abbrev pub Answer : (Reslink → Bool) → List Reslink → ℕ → ℤ × ℤ → Type 0
Answer p links i (index, pos j) = (index ≡ pos j) × Found p links i j
Answer p links i (index, negsuc n) =
    (n ≡ 0) × ((k : ℕ) (link : Reslink) → i ≤ k → get_elem? links k ≡ some link → p link ≡ false)

Found-FirstOf :
    (p : Reslink → Bool) (links : List Reslink) (i j : ℕ)
    → FirstOf p (drop i links) j
    → Found p links i (i + j)
Found-FirstOf p links i j f = record {
  gate = f.gate;
  there = sym (get_elem?-drop i links j) ∙ f.there;
  holds = f.holds;
  behind = omega arith;
  before = λ k link h below at_k.
      f.before (k - i) link (omega arith) (place_behind links i k link h at_k);
}

-- A lookup from an index of -1 or more comes back with the first gate behind the index that has the
-- property, which is also what it leaves in the index, or with -1 if there is none.
pub search_from_lem :
    (p : Reslink → Bool) (links : List Reslink) (index : ℤ) (i : ℕ)
    → index +ℤ pos 1 ≡ pos i
    → Yields (Answer p links i) (search_from p links index)
unfolding search_from
search_from_lem p links index i start = elim (first_hit_lem p i (drop i links)) [
  | inl (none_found, all) ↦
      rw (search_from, start, none_found)
        (value (refl, λ k link h at_k. all (k - i) link (place_behind links i k link h at_k)))
  | inr (j, found, f) ↦ rw (search_from, start, found) (value (refl, Found-FirstOf p links i j f))
]

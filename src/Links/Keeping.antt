-- ===== src/Links/Keeping.antt =====
-- reslink_new and reslink_del keep the table sound, and what is added is found.
use Prim.Native.Nat.{bit_and}
use rubsd.Prelude.{
  ℕ, zero, suc, ◌+◌, ◌^◌, ◌≤◌, ◌<◌, ◌≡◌, ◌≢◌, refl, ◌∙◌, sym, ◌⊎◌, inl, inr, Bool, true, arith,
  List, [], ◌∷◌, ◌++◌, some, length, get_elem?, take, drop, ltb, leb, if◌then◌else◌, Bool-cases,
}
use rubsd.Prelude.Int.{ℤ, pos, negsuc}
use rubsd.Prelude.Run.{ok, Yields, Yields-weaken}
use rubsd.Links.{Libc}
use rubsd.Links.Gates.{Reslink, covers, lookup_baddr, reslink_new, reslink_del}
use rubsd.Links.Table.{IsTable, lookup_baddr_finds}
use rubsd.Links.Adding.{HasRoom, Added, IsTable-end, reslink_new_lem}

last_of :
    (links : List Reslink) (link : Reslink)
    → get_elem? (links ++ (link ∷ [])) (length links) ≡ some link
last_of [] link = refl
last_of (x ∷ links) link = last_of links link

covers_own :
    (link : Reslink)
    → bit_and link.addr link.mask ≡ link.addr
    → link.mask ≢ 0
    → covers link.addr link ≡ true
unfolding covers
covers_own link net has = ground (arith, net)

-- The table stays sound, and if a gate with addresses was added, it is the one that is found for any
-- address that it has, its own first of all.
abbrev pub Keeps : List Reslink → List Reslink × ℤ → Type 0
Keeps links (after, rc) =
    IsTable after
    × (rc ≡ pos 0
        → (link : Reslink) × (get_elem? after (length links) ≡ some link)
          × (link.mask ≢ 0 → covers link.addr link ≡ true)
          × ((x : ℕ)
              → covers x link ≡ true
              → lookup_baddr after x (negsuc 0) ≡ ok (pos (length links), pos (length links))))

Keeps-Added :
    (links : List Reslink) (rid accno : ℤ) (r : List Reslink × ℤ)
    → IsTable links
    → Added links rid accno r
    → Keeps links r
Keeps-Added links rid accno (after, rc) t (inl (e, f)) = (rw e t, λ zero_code. absurd cc)
Keeps-Added links rid accno (after, rc) t (inr (link, e, f, res, acc, allowed, net, fresh)) =
    let sound = IsTable-end links link t fresh in
    rw e (
      sound,
      λ _. (
        link,
        last_of links link,
        covers_own link net,
        λ x has.
            lookup_baddr_finds (links ++ (link ∷ [])) x (length links) link sound.disjoint
              (last_of links link) allowed has,
      ),
    )

-- reslink_new keeps the table sound: no two gates have the same resource and user, and an allowed gate
-- has no address in common with the gates before it. When it returns 0, lookup_baddr finds the gate
-- that it has added for every address that the gate covers, and an added gate with a mask covers its
-- own. The resource is one of the eight, and the numbers of the table leave one more.
pub reslink_new-IsTable :
    (libc : Libc) (calloc realloc : Bool) (links : List Reslink) (n : ℕ) (accno : ℤ) (name : List ℕ)
    → ((str : List ℕ) (addr : ℕ) → libc.inet_pton str ≡ some addr → addr < 2 ^ 32)
    → n < 8
    → HasRoom links
    → IsTable links
    → Yields (Keeps links) (reslink_new libc calloc realloc links (pos n) accno name)
reslink_new-IsTable libc calloc realloc links n accno name small inside room t =
    Yields-weaken (reslink_new_lem libc calloc realloc links n accno name small inside room)
      λ r added. Keeps-Added links (pos n) accno r t added

-- Where a gate of the smaller table was.
abbrev pub old_place : ℕ → ℕ → ℕ
old_place i k = if ltb k i then k else k + 1

without :
    (i : ℕ) (links : List Reslink) (k : ℕ)
    → i < length links
    → get_elem? (take i links ++ drop (i + 1) links) k ≡ get_elem? links (old_place i k)
without i [] k h = absurd (omega arith)
without zero (x ∷ links) k h = let e : old_place 0 k ≡ suc k = ground arith in rw e refl
without (suc i) (x ∷ links) zero h = let e : old_place (suc i) 0 ≡ 0 = ground arith in rw e refl
without (suc i) (x ∷ links) (suc k) h =
    let d : suc i + 1 ≡ suc (i + 1) = omega arith in
    let e : old_place (suc i) (suc k) ≡ suc (old_place i k) = ground arith in
    rw (d, e) (without i links k (omega arith))

place_mono : (i j k : ℕ) → j < k → old_place i j < old_place i k
place_mono i j k h = ground arith

place_inj : (i j k : ℕ) → old_place i j ≡ old_place i k → j ≡ k
place_inj i j k h = ground arith

IsTable-without :
    (links : List Reslink) (i : ℕ)
    → i < length links
    → IsTable links
    → IsTable (take i links ++ drop (i + 1) links)
IsTable-without links i h t = record {
  disjoint = λ j k old link below at_j at_k.
      t.disjoint (old_place i j) (old_place i k) old link (place_mono i j k below)
        (sym (without i links j h) ∙ at_j) (sym (without i links k h) ∙ at_k);
  unique = λ j k a b at_j at_k res user. place_inj i j k (
      t.unique (old_place i j) (old_place i k) a b (sym (without i links j h) ∙ at_j)
        (sym (without i links k h) ∙ at_k) res user);
}

-- What reslink_del does with an index.
abbrev pub Deleted : List Reslink → ℤ → List Reslink × ℤ → Type 0
Deleted links index (after, rc) =
    ((after ≡ links) × (rc ≡ negsuc 0) × ((i : ℕ) → index ≡ pos i → length links ≤ i))
    ⊎ ((i : ℕ) × (index ≡ pos i)
        × (i < length links)
        × (rc ≡ pos 0)
        × ((k : ℕ) → get_elem? after k ≡ get_elem? links (old_place i k)))

-- reslink_del keeps the table sound. It returns 0 for an index of the table, and then the gates but
-- that one are left in their order; for any other index it returns -1 and changes nothing.
pub reslink_del-IsTable :
    (links : List Reslink) (index : ℤ)
    → IsTable links
    → IsTable (reslink_del links index).0 × Deleted links index (reslink_del links index)
unfolding reslink_del
reslink_del-IsTable links (negsuc n) t = (t, inl (refl, refl, λ i e. absurd cc))
reslink_del-IsTable links (pos i) t = elim (Bool-cases (leb (length links) i)) [
  | inl out ↦ rw out (t, inl (refl, refl, λ k e. ground arith))
  | inr there ↦
      let h : i < length links = ground arith in
      rw there (IsTable-without links i h t, inr (i, refl, h, refl, λ k. without i links k h))
]

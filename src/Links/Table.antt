-- ===== src/Links/Table.antt =====
-- What the table of gates keeps to.
use Prim.Native.Nat.{bit_and}
use rubsd.Prelude.{
  ℕ, ◌<◌, ◌≡◌, ◌≢◌, refl, ◌∙◌, sym, ap, inl, inr, Bool, true, false, ltb, not, arith, List, some,
  get_elem?, Bool-cases,
}
use rubsd.Prelude.Int.{ℤ, pos, negsuc, eq_ℤ, ◌+ℤ◌}
use rubsd.Prelude.Run.{ok, Yields-value}
use rubsd.Prelude.Bits.{and_meet, and_comm}
use rubsd.Links.Gates.{Reslink, covers, intersects, lookup_baddr}
use rubsd.Links.Searching.{Answer, search_from_lem}

abbrev pub is_allowed : Reslink → Bool
is_allowed link = not (eq_ℤ link.allow (pos 0))

-- An allowed gate with addresses has none in common with the gates before it.
abbrev pub IsDisjoint : List Reslink → Type 0
IsDisjoint links =
    (j k : ℕ) (old link : Reslink)
    → j < k
    → get_elem? links j ≡ some old
    → get_elem? links k ≡ some link
    → is_allowed link ≡ true
    → link.mask ≢ 0
    → intersects link.addr link.mask old ≡ false

-- No two gates have the same resource and user.
abbrev pub IsUnique : List Reslink → Type 0
IsUnique links =
    (j k : ℕ) (a b : Reslink)
    → get_elem? links j ≡ some a
    → get_elem? links k ≡ some b
    → a.res_id ≡ b.res_id
    → a.user_id ≡ b.user_id
    → j ≡ k

pub record IsTable (links : List Reslink) : Type 0 where
  pub disjoint : IsDisjoint links
  pub unique : IsUnique links

-- Two gates with an address in common intersect.
pub covers-intersects :
    (x : ℕ) (old link : Reslink)
    → covers x old ≡ true
    → covers x link ≡ true
    → intersects link.addr link.mask old ≡ true
unfolding covers intersects
covers-intersects x old link p q =
    let low = and_meet x old.addr link.addr old.mask link.mask (ground arith) (ground arith) in
    let masks = and_comm link.mask old.mask in
    let e : bit_and old.addr (bit_and link.mask old.mask)
        ≡ bit_and link.addr (bit_and link.mask old.mask) =
      ap (bit_and old.addr) masks ∙ low ∙ ap (bit_and link.addr) (sym masks) in
    ground (arith, e)

covers-mask : (x : ℕ) (link : Reslink) → covers x link ≡ true → link.mask ≢ 0
unfolding covers
covers-mask x link h e = ground arith

sole_hit :
    (links : List Reslink) (x k : ℕ) (link : Reslink)
    → IsDisjoint links
    → get_elem? links k ≡ some link
    → is_allowed link ≡ true
    → covers x link ≡ true
    → (r : ℤ × ℤ) → Answer (covers x) links 0 r
    → r ≡ (pos k, pos k)
sole_hit links x k link apart there allowed has (index, negsuc n) (e, all) =
    let missed = all k link (omega arith) there in absurd cc
sole_hit links x k link apart there allowed has (index, pos j) (e, f) =
    elim (Bool-cases (ltb j k)) [
      | inl below ↦
          let met = covers-intersects x f.gate link f.holds has in
          let clear =
            apart j k f.gate link (ground arith) f.there there allowed (covers-mask x link has) in
          absurd cc
      | inr not_below ↦ elim (Bool-cases (ltb k j)) [
        | inl above ↦ let missed = f.before k link (omega arith) (ground arith) there in absurd cc
        | inr not_above ↦ let same : j ≡ k = ground arith in rw (e, same) refl
      ]
    ]

-- Where allowed gates have no addresses in common with those before them, an allowed gate that has an
-- address is the gate that lookup_baddr, asked from the start, finds for it.
pub lookup_baddr_finds :
    (links : List Reslink) (x k : ℕ) (link : Reslink)
    → IsDisjoint links
    → get_elem? links k ≡ some link
    → is_allowed link ≡ true
    → covers x link ≡ true
    → lookup_baddr links x (negsuc 0) ≡ ok (pos k, pos k)
unfolding lookup_baddr ◌+ℤ◌
lookup_baddr_finds links x k link apart there allowed has =
    let (r, e, answer) = Yields-value (search_from_lem (covers x) links (negsuc 0) 0 refl) in
    e ∙ ap ok (sole_hit links x k link apart there allowed has r answer)

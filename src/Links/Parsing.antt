-- ===== src/Links/Parsing.antt =====
-- make_addrandmask.
use Prim.Native.Nat.{bit_and}
use rubsd.Prelude.{
  ℕ, ◌^◌, ◌≤◌, ◌<◌, ◌≡◌, refl, sym, inl, inr, Bool, ◌||◌, arith, List, Option, none, some, ◌==◌,
  ==_iff, if◌then◌else◌, Bool-cases, Option-cases,
}
use rubsd.Prelude.Int.{ℤ, pos, negsuc, is_neg, ltb_ℤ}
use rubsd.Prelude.Run.{ok, Yields, value, Yields-bind, Yields-weaken}
use rubsd.Prelude.Bits.{and_ones}
use rubsd.Beelib.{token_loop, next_token}
use rubsd.Beelib.Tokens.{next_token_lem}
use rubsd.Links.{Libc, slash, buffered, narrow, make_addr_mask, make_addrandmask}

-- A network: an address that has no bits outside the mask, and the mask of 0 to 32 bits.
abbrev pub IsNetwork : Bool → Option (ℕ × ℕ) → Type 0
IsNetwork big none = Unit {0}
IsNetwork big (some (addr, mask)) =
    (bit_and addr mask ≡ addr) × (n : ℕ) × (n ≤ 32) × (mask ≡ make_addr_mask big (pos n))

pub next_token-returns :
    (delim : List ℕ) (ptr : Option (List ℕ)) → Yields (λ r. Unit {0}) (next_token delim ptr)
unfolding next_token token_loop
next_token-returns delim none = value tt
next_token-returns delim (some s) = Yields-weaken (next_token_lem delim s) λ r p. tt

whole_mask : (big : Bool) → make_addr_mask big (pos 32) ≡ 0xffffffff
unfolding make_addr_mask
whole_mask big = refl

cut_mask :
    (big : Bool) (bits : ℤ) (addr : ℕ)
    → Yields (IsNetwork big) (
        if is_neg bits || ltb_ℤ (pos 32) bits
        then ok none
        else if bit_and addr (make_addr_mask big bits) == addr
        then ok (some (addr, make_addr_mask big bits))
        else ok none)
cut_mask big (negsuc n) addr = value tt
cut_mask big (pos n) addr = elim (Bool-cases (ltb_ℤ (pos 32) (pos n))) [
  | inl e ↦ rw e (value tt)
  | inr e ↦ elim (Bool-cases (bit_and addr (make_addr_mask big (pos n)) == addr)) [
    | inl same ↦ rw (e, same) (value ((==_iff _ _).0 same, n, ground arith, refl))
    | inr other ↦ rw (e, other) (value tt)
  ]
]

pub make_addrandmask_lem :
    (libc : Libc) (straddr : List ℕ)
    → ((str : List ℕ) (addr : ℕ) → libc.inet_pton str ≡ some addr → addr < 2 ^ 32)
    → Yields (IsNetwork libc.is_big_endian) (make_addrandmask libc straddr)
unfolding make_addrandmask
make_addrandmask_lem libc straddr small =
    Yields-bind (next_token-returns slash (some (buffered straddr))) λ r p.
      elim (Option-cases (r.1)) [
        | inl e ↦ rw e (value tt)
        | inr (str, e) ↦ elim (Option-cases (libc.inet_pton str)) [
          | inl f ↦ rw (e, f) (value tt)
          | inr (addr, f) ↦
              rw (e, f)
                (Yields-bind (next_token-returns slash r.0) λ q _. elim (Option-cases (q.1)) [
                  | inl g ↦
                      let whole : bit_and addr 0xffffffff ≡ addr =
                        and_ones 32 addr (small str addr f) in
                      rw g (value (whole, 32, omega arith, sym (whole_mask libc.is_big_endian)))
                  | inr (digits, g) ↦
                      rw g (cut_mask libc.is_big_endian (narrow 128 (libc.strtol digits)) addr)
                ])
        ]
      ]

-- ===== src/Links.antt =====
-- src/bee/lib/db/links.c and include/links.h: gates, which link a user of a resource to an account, and
-- their addresses. An address or a mask is the `u_int` that holds it in the network's order of bytes.
pub mod Gates
pub mod Loading
pub mod Files
pub mod Masks
pub mod Searching
pub mod Parsing
pub mod Table
pub mod Adding
pub mod Keeping
pub mod Accepting
mod Tests
use Prim.Native.Nat.{bit_and}
use rubsd.Prelude.{
  ℕ, zero, suc, ◌+◌, ◌-◌, ◌*◌, ◌/◌, ◌%◌, ◌^◌, Bool, true, false, not, ◌&&◌, ◌||◌, ltb, leb, ◌==◌,
  List, [], ◌∷◌, Option, none, some, take, if◌then◌else◌,
}
use rubsd.Prelude.Int.{ℤ, pos, negsuc, is_neg, ltb_ℤ}
use rubsd.Prelude.Run.{Run, ok, ◌>>=◌}
use rubsd.Beelib.{next_token}

-- What the library of C is asked: the addresses of inet_pton and inet_aton, which may refuse a text;
-- `asprintf` is the call with "%s/%d".
pub record Libc : Type 0 where
  pub is_big_endian : Bool
  pub inet_pton : List ℕ → Option ℕ
  pub inet_aton : List ℕ → Option ℕ
  pub inet_ntop : ℕ → List ℕ
  pub strtol : List ℕ → ℤ
  pub asprintf : List ℕ → ℤ → Option (List ℕ)
  pub strcasecmp : List ℕ → List ℕ → ℤ
  pub strstr : List ℕ → List ℕ → Bool

-- An integer kept in a signed type with `half` numbers from 0 on.
abbrev pub narrow : ℕ → ℤ → ℤ
narrow half (pos n) =
    let r = n % (half + half) in if ltb r half then pos r else negsuc (half + half - 1 - r)
narrow half (negsuc n) =
    let r = n % (half + half) in if ltb r half then negsuc r else pos (half + half - 1 - r)

-- htonl and ntohl
unfoldable pub htonl : Bool → ℕ → ℕ
htonl true x = x
htonl false x =
    x % 256 * 16777216 + x / 256 % 256 * 65536 + x / 65536 % 256 * 256 + x / 16777216 % 256

-- make_addr_mask
unfoldable pub make_addr_mask : Bool → ℤ → ℕ
make_addr_mask big (negsuc n) = 0
make_addr_mask big (pos n) =
    if n == 0
    then 0
    else if leb 32 n
    then 0xffffffff
    else htonl big (0xffffffff * 2 ^ (32 - n) % 2 ^ 32)

-- The cases of the switch in mask2bits, in their order.
abbrev pub mask_cases : List ℕ
mask_cases =
    0x00000000 ∷ 0x80000000 ∷ 0xc0000000 ∷ 0xe0000000 ∷ 0xf0000000 ∷ 0xf8000000 ∷ 0xfc000000
    ∷ 0xfe000000 ∷ 0xff000000 ∷ 0xff800000 ∷ 0xffc00000 ∷ 0xffe00000 ∷ 0xfff00000 ∷ 0xfff80000
    ∷ 0xfffc0000 ∷ 0xfffe0000 ∷ 0xffff0000 ∷ 0xffff8000 ∷ 0xffffc000 ∷ 0xffffe000 ∷ 0xfffff000
    ∷ 0xfffff800 ∷ 0xfffffc00 ∷ 0xfffffe00 ∷ 0xffffff00 ∷ 0xffffff80 ∷ 0xffffffc0 ∷ 0xffffffe0
    ∷ 0xfffffff0 ∷ 0xfffffff8 ∷ 0xfffffffc ∷ 0xfffffffe ∷ 0xffffffff ∷ []

-- The number of the case that is taken, counted from `i`, or -1.
unfoldable pub taken_case : ℕ → List ℕ → ℕ → ℤ
taken_case x [] i = negsuc 0
taken_case x (c ∷ cases) i = if x == c then pos i else taken_case x cases (i + 1)

-- mask2bits
unfoldable pub mask2bits : Bool → ℕ → ℤ
mask2bits big mask = taken_case (htonl big mask) mask_cases 0

abbrev pub slash : List ℕ
slash = 47 ∷ []

-- `buf`, which has 32 bytes with the NUL
abbrev pub buffered : List ℕ → List ℕ
buffered straddr = take 31 straddr

module _ (libc : Libc) where
  -- make_addrandmask; `bits` is a char.
  unfoldable pub make_addrandmask : List ℕ → Run (Option (ℕ × ℕ))
  make_addrandmask straddr = do
    (ptr, host) ← next_token slash (some (buffered straddr))
    elim host [
      | none ↦ ok none
      | some str ↦ elim (libc.inet_pton str) [
        | none ↦ ok none
        | some addr ↦ (do
          (end, text) ← next_token slash ptr
          elim text [
            | none ↦ ok (some (addr, 0xffffffff))
            | some digits ↦
                let bits = narrow 128 (libc.strtol digits) in
                let mask = make_addr_mask libc.is_big_endian bits in
                if is_neg bits || ltb_ℤ (pos 32) bits
                then ok none
                else if bit_and addr mask == addr
                then ok (some (addr, mask))
                else ok none
          ])
      ]
    ]

  -- make_addr
  unfoldable pub make_addr : List ℕ → Run (Option (ℕ × ℤ))
  make_addr straddr = do
    (ptr, host) ← next_token slash (some (buffered straddr))
    elim host [
      | none ↦ ok none
      | some str ↦ elim (libc.inet_aton str) [
        | none ↦ ok none
        | some addr ↦ (do
          (end, text) ← next_token slash ptr
          let bits : ℤ = elim text [
            | none ↦ pos 32
            | some digits ↦ narrow (2 ^ 31) (libc.strtol digits)
          ]
          ok (some (bit_and addr (make_addr_mask libc.is_big_endian bits), bits)))
      ]
    ]

  -- The comparison at the end of inaddr_cmp.
  unfoldable pub compare_addr : ℕ × ℤ → ℕ × ℤ → ℤ
  compare_addr (laddr, lbits) (uaddr, ubits) =
      if ltb_ℤ ubits lbits
      then pos 1
      else let cut =
          (if ltb_ℤ lbits ubits
            then bit_and uaddr (make_addr_mask libc.is_big_endian lbits)
            else uaddr) in
        if cut == laddr then pos 0 else pos 1

  -- inaddr_cmp
  unfoldable pub inaddr_cmp : List ℕ → List ℕ → Run ℤ
  inaddr_cmp user link = do
    l ← make_addr link
    elim l [
      | none ↦ ok (negsuc 0)
      | some laddr ↦ (do
        u ← make_addr user
        elim u [ none ↦ ok (negsuc 0) | some uaddr ↦ ok (compare_addr laddr uaddr) ])
    ]

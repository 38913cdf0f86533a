-- ===== src/Links/Adding.antt =====
-- reslink_new.
use Prim.Native.Nat.{bit_and}
use rubsd.Prelude.{
  ℕ, zero, suc, ◌^◌, ◌<◌, ◌≡◌, ◌≢◌, refl, ◌∙◌, sym, ap, ◌⊎◌, inl, inr, Bool, true, false, not, ◌&&◌,
  arith, List, [], ◌∷◌, ◌++◌, some, length, get_elem?, ltb, ◌==◌, if◌then◌else◌, Bool-cases,
  Option-cases,
}
use rubsd.Prelude.Int.{ℤ, pos, negsuc, is_neg, eq_ℤ, eq_ℤ-refl, ltb_ℤ, ◌+ℤ◌, +ℤ_parts, ◌<ℤ◌, ◌≤ℤ◌}
use rubsd.Prelude.Run.{ok, Yields, value, Yields-bind}
use rubsd.Prelude.Bits.{zero-and}
use rubsd.Links.{Libc, mask2bits}
use rubsd.Links.Parsing.{IsNetwork, make_addrandmask_lem}
use rubsd.Links.Gates.{
  Reslink, intersects, is_addressed, largest_uid, next_uid, append_link, lookup_intersect,
  reslink_new,
}
use rubsd.Links.Searching.{NoneOf, Answer, search_from_lem}
use rubsd.Links.Table.{is_allowed, IsDisjoint, IsUnique, IsTable}

-- The gate at the end of a list is the last one.
at_end :
    (links : List Reslink) (last : Reslink) (k : ℕ) (link : Reslink)
    → get_elem? (links ++ (last ∷ [])) k ≡ some link
    → (get_elem? links k ≡ some link) ⊎ ((k ≡ length links) × (link ≡ last))
at_end [] last zero link e = inr (refl, cc)
at_end [] last (suc k) link e = absurd cc
at_end (x ∷ links) last zero link e = inl e
at_end (x ∷ links) last (suc k) link e = elim (at_end links last k link e) [
  | inl p ↦ inl p
  | inr (p, q) ↦ inr (ap suc p, q)
]

inside :
    (links : List Reslink) (k : ℕ) (link : Reslink)
    → get_elem? links k ≡ some link
    → k < length links
inside [] k link e = absurd cc
inside (x ∷ links) zero link e = omega arith
inside (x ∷ links) (suc k) link e = omega (arith, inside links k link e)

-- What a gate needs to be added: a number above those of its resource, and, if it is allowed, no
-- address in common with another.
pub record IsFresh (links : List Reslink) (link : Reslink) : Type 0 where
  pub above :
      (k : ℕ) (old : Reslink)
      → get_elem? links k ≡ some old
      → old.res_id ≡ link.res_id
      → old.user_id <ℤ link.user_id
  pub apart : is_allowed link ≡ true → link.mask ≢ 0 → NoneOf (intersects link.addr link.mask) links

pub IsDisjoint-end :
    (links : List Reslink) (last : Reslink)
    → IsDisjoint links
    → (is_allowed last ≡ true → last.mask ≢ 0 → NoneOf (intersects last.addr last.mask) links)
    → IsDisjoint (links ++ (last ∷ []))
IsDisjoint-end links last d apart j k old link below at_j at_k allowed masked =
    elim (at_end links last k link at_k) [
      | inl in_k ↦ elim (at_end links last j old at_j) [
        | inl in_j ↦ d j k old link below in_j in_k allowed masked
        | inr (e, _) ↦ absurd (omega (arith, inside links k link in_k))
      ]
      | inr (e, same) ↦ elim (at_end links last j old at_j) [
        | inl in_j ↦
            let open_gate : is_allowed last ≡ true = (rw same at allowed) in
            let has_mask : last.mask ≢ 0 = (rw same at masked) in
            rw same (apart open_gate has_mask j old in_j)
        | inr (f, _) ↦ absurd (omega arith)
      ]
    ]

IsUnique-end :
    (links : List Reslink) (last : Reslink)
    → IsUnique links
    → IsFresh links last
    → IsUnique (links ++ (last ∷ []))
IsUnique-end links last u fresh j k a b at_j at_k res user = elim (at_end links last j a at_j) [
  | inl in_j ↦ elim (at_end links last k b at_k) [
    | inl in_k ↦ u j k a b in_j in_k res user
    | inr (e, same) ↦
        let old_res : a.res_id ≡ last.res_id = (rw same at res) in
        let old_user : a.user_id ≡ last.user_id = (rw same at user) in
        absurd (ground (arith, fresh.above j a in_j old_res))
  ]
  | inr (e, same) ↦ elim (at_end links last k b at_k) [
    | inl in_k ↦
        let old_res : last.res_id ≡ b.res_id = (rw same at res) in
        let old_user : last.user_id ≡ b.user_id = (rw same at user) in
        absurd (ground (arith, fresh.above k b in_k (sym old_res)))
    | inr (f, _) ↦ omega arith
  ]
]

pub IsTable-end :
    (links : List Reslink) (last : Reslink)
    → IsTable links
    → IsFresh links last
    → IsTable (links ++ (last ∷ []))
IsTable-end links last t fresh = record {
  disjoint = IsDisjoint-end links last t.disjoint fresh.apart;
  unique = IsUnique-end links last t.unique fresh;
}

-- The largest number, taken from `uid` on.
pub record IsLargest (rid : ℤ) (links : List Reslink) (uid top : ℤ) : Type 0 where
  pub from : uid ≤ℤ top
  pub over :
      (k : ℕ) (link : Reslink)
      → get_elem? links k ≡ some link
      → link.res_id ≡ rid
      → link.user_id ≤ℤ top

over-cons :
    (rid : ℤ) (x : Reslink) (links : List Reslink) (top : ℤ)
    → (x.res_id ≡ rid → x.user_id ≤ℤ top)
    → ((k : ℕ) (link : Reslink)
        → get_elem? links k ≡ some link
        → link.res_id ≡ rid
        → link.user_id ≤ℤ top)
    → (k : ℕ) (link : Reslink) → get_elem? (x ∷ links) k ≡ some link
    → link.res_id ≡ rid
    → link.user_id ≤ℤ top
over-cons rid x links top first rest zero link e same =
    let s : x ≡ link = cc in rw (← s) (first (ap (λ (l : Reslink). l.res_id) s ∙ same))
over-cons rid x links top first rest (suc k) link e same = rest k link e same

abbrev pub larger : ℤ → Reslink → ℤ → ℤ
larger rid x uid = if eq_ℤ x.res_id rid && ltb_ℤ uid x.user_id then x.user_id else uid

larger_keeps : (rid : ℤ) (x : Reslink) (uid : ℤ) → uid ≤ℤ larger rid x uid
larger_keeps rid x uid = elim (Bool-cases (eq_ℤ x.res_id rid)) [
  | inl e ↦ elim (Bool-cases (ltb_ℤ uid x.user_id)) [
    | inl f ↦ rw (e, f) (ground arith)
    | inr f ↦ rw (e, f) (ground arith)
  ]
  | inr e ↦ rw e (ground arith)
]

larger_over : (rid : ℤ) (x : Reslink) (uid : ℤ) → x.res_id ≡ rid → x.user_id ≤ℤ larger rid x uid
larger_over rid x uid same =
    let e : eq_ℤ x.res_id rid ≡ true = rw same (eq_ℤ-refl rid) in
    elim (Bool-cases (ltb_ℤ uid x.user_id)) [
      | inl f ↦ rw (e, f) (ground arith)
      | inr f ↦ rw (e, f) (ground arith)
    ]

≤ℤ_trans : (a b c : ℤ) → a ≤ℤ b → b ≤ℤ c → a ≤ℤ c
≤ℤ_trans a b c p q = omega arith

pub largest_uid_lem :
    (rid : ℤ) (links : List Reslink) (uid : ℤ) → IsLargest rid links uid (largest_uid rid links uid)
unfolding largest_uid
largest_uid_lem rid [] uid = record { from = omega arith; over = λ k link e same. absurd cc }
largest_uid_lem rid (x ∷ links) uid =
    let next = larger rid x uid in
    let r = largest_uid_lem rid links next in
    record {
      from = ≤ℤ_trans uid next _ (larger_keeps rid x uid) r.from;
      over =
          over-cons rid x links _
            (λ same. ≤ℤ_trans x.user_id next _ (larger_over rid x uid same) r.from) r.over;
    }

-- The numbers of the table, which are of type int, leave one more.
abbrev pub HasRoom : List Reslink → Type 0
HasRoom links =
    (k : ℕ) (link : Reslink) → get_elem? links k ≡ some link → link.user_id <ℤ pos 0x7fffffff

pub largest_uid-room :
    (rid : ℤ) (links : List Reslink) (uid : ℤ)
    → HasRoom links
    → uid <ℤ pos 0x7fffffff
    → largest_uid rid links uid <ℤ pos 0x7fffffff
unfolding largest_uid
largest_uid-room rid [] uid room h = h
largest_uid-room rid (x ∷ links) uid room h =
    largest_uid-room rid links (larger rid x uid) (λ k link e. room (suc k) link e)
      (elim (Bool-cases (eq_ℤ x.res_id rid && ltb_ℤ uid x.user_id)) [
        | inl e ↦ rw e (room 0 x refl)
        | inr e ↦ rw e h
      ])

pub next_above : (a top : ℤ) → a ≤ℤ top → a <ℤ top +ℤ pos 1
next_above a top h = omega (arith, +ℤ_parts top (pos 1))

-- What reslink_new does: nothing, with the code -1, or it adds a gate.
abbrev pub Added : List Reslink → ℤ → ℤ → List Reslink × ℤ → Type 0
Added links rid accno (after, rc) =
    ((after ≡ links) × (rc ≡ negsuc 0))
    ⊎ ((link : Reslink) × (after ≡ links ++ (link ∷ []))
        × (rc ≡ pos 0)
        × (link.res_id ≡ rid)
        × (link.accno ≡ accno)
        × (is_allowed link ≡ true)
        × (bit_and link.addr link.mask ≡ link.addr)
        × IsFresh links link)

append_link_lem :
    (granted : Bool) (links : List Reslink) (link : Reslink)
    → HasRoom links
    → link.allow ≡ pos 1
    → bit_and link.addr link.mask ≡ link.addr
    → (link.mask ≢ 0 → NoneOf (intersects link.addr link.mask) links)
    → Yields (Added links link.res_id link.accno) (append_link granted links link)
unfolding append_link next_uid
append_link_lem granted links link room allowed net apart =
    let top = largest_uid link.res_id links (negsuc 0) in
    let low = largest_uid-room link.res_id links (negsuc 0) room (omega arith) in
    let fine : eq_ℤ top (pos 0x7fffffff) ≡ false = ground arith in
    let r = largest_uid_lem link.res_id links (negsuc 0) in
    elim (Bool-cases granted) [
      | inl e ↦
          rw (fine, e)
            (value (
              inr (
                record link { user_id = top +ℤ pos 1 },
                refl,
                refl,
                refl,
                refl,
                rw allowed refl,
                net,
                record {
                  above = λ k old at_k same. next_above old.user_id top (r.over k old at_k same);
                  apart = λ is has. apart has;
                },
              )))
      | inr e ↦ rw (fine, e) (value (inl (refl, refl)))
    ]

-- The end of reslink_new for a resource of addresses.
add_network :
    (realloc : Bool) (links : List Reslink) (link : Reslink)
    → HasRoom links
    → link.allow ≡ pos 1
    → bit_and link.addr link.mask ≡ link.addr
    → (r : ℤ × ℤ) → Answer (intersects link.addr link.mask) links 0 r
    → Yields
        (Added links link.res_id link.accno)
        (if not (is_neg r.1) then ok (links, negsuc 0) else append_link realloc links link)
add_network realloc links link room allowed net (index, pos j) answer = value (inl (refl, refl))
add_network realloc links link room allowed net (index, negsuc n) (e, all) =
    append_link_lem realloc links link room allowed net
      (λ has k old at_k. all k old (omega arith) at_k)

pub from_start : negsuc 0 +ℤ pos 1 ≡ pos 0
unfolding ◌+ℤ◌
from_start = refl

-- reslink_new comes back for every name and every answer of the memory, for one of the eight resources
-- and a table whose numbers leave one more: it changes nothing and returns -1, or it returns 0 and has
-- added one gate, of the resource and the account, at the end of the table. That gate is allowed, its
-- number is above those of its resource, and its addresses are a network without one of another gate.
pub reslink_new_lem :
    (libc : Libc) (calloc realloc : Bool) (links : List Reslink) (n : ℕ) (accno : ℤ) (name : List ℕ)
    → ((str : List ℕ) (addr : ℕ) → libc.inet_pton str ≡ some addr → addr < 2 ^ 32)
    → n < 8
    → HasRoom links
    → Yields (Added links (pos n) accno) (reslink_new libc calloc realloc links (pos n) accno name)
unfolding reslink_new is_addressed lookup_intersect
reslink_new_lem libc false realloc links n accno name small inside room = value (inl (refl, refl))
reslink_new_lem libc true realloc links n accno name small inside room =
    let known : ltb n 8 ≡ true = ground arith in
    let fits = make_addrandmask_lem libc name small in
    elim (Bool-cases (n == 0)) [
      | inr other ↦
          rw (known, other)
            (append_link_lem realloc links _ room refl (zero-and 0) (λ has. absurd (has refl)))
      | inl addressed ↦
          rw (known, addressed)
            (Yields-bind fits λ parsed net. elim (Option-cases parsed) [
              | inl e ↦ rw e (value (inl (refl, refl)))
              | inr ((addr, mask), e) ↦
                  let network : IsNetwork libc.is_big_endian (some (addr, mask)) = (rw e at net) in
                  elim (Option-cases
                    (libc.asprintf (libc.inet_ntop addr) (mask2bits libc.is_big_endian mask))) [
                      | inl f ↦ rw (e, f) (value (inl (refl, refl)))
                      | inr (text, f) ↦
                          rw (e, f)
                            (Yields-bind
                              (search_from_lem (intersects addr mask) links (negsuc 0) 0 from_start)
                              λ r answer. add_network realloc links _ room refl network.0 r answer)
                    ]
            ])
    ]

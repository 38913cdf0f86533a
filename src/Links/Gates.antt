-- ===== src/Links/Gates.antt =====
-- The table of gates: the lookups, reslink_new and reslink_del. The table `linktab` is a list of
-- `linktabsz` gates.
use Prim.Native.Nat.{bit_and}
use rubsd.Prelude.{
  ℕ, ◌+◌, Bool, true, false, not, ◌&&◌, ltb, leb, ◌==◌, List, [], ◌∷◌, ◌++◌, Option, none, some,
  length, take, drop, if◌then◌else◌,
}
use rubsd.Prelude.Int.{ℤ, pos, negsuc, is_neg, eq_ℤ, ltb_ℤ, ◌+ℤ◌}
use rubsd.Prelude.Run.{Run, ok, fault, ◌>>=◌}
use rubsd.Links.{Libc, make_addrandmask, mask2bits}

-- `reslink_t`
pub record Reslink : Type 0 where
  pub res_id : ℤ
  pub user_id : ℤ
  pub accno : ℤ
  pub username : List ℕ
  pub allow : ℤ
  pub addr : ℕ
  pub mask : ℕ

-- strcmp(a, b) == 0
abbrev pub same_text : List ℕ → List ℕ → Bool
same_text [] [] = true
same_text [] (y ∷ b) = false
same_text (x ∷ a) [] = false
same_text (x ∷ a) (y ∷ b) = (x == y) && same_text a b

-- `resource[rid].fAddr` in the table of eight resources
unfoldable pub is_addressed : ℤ → Run Bool
is_addressed (negsuc n) = fault
is_addressed (pos n) = if ltb n 8 then ok (n == 0) else fault

-- The loop of the lookups, from the gate `i` on, which is the first of the list.
unfoldable pub first_hit : (Reslink → Bool) → ℕ → List Reslink → Option ℕ
first_hit p i [] = none
first_hit p i (link ∷ links) = if p link then some i else first_hit p (i + 1) links

-- A lookup: what `*index` is after it, and its result. The loop starts behind `*index`; an index
-- below -1 makes it read outside the table.
unfoldable pub search_from : (Reslink → Bool) → List Reslink → ℤ → Run (ℤ × ℤ)
search_from p links index = elim (index +ℤ pos 1) [
  | negsuc n ↦ fault
  | pos i ↦ elim (first_hit p i (drop i links)) [
    | none ↦ ok (pos (if ltb i (length links) then length links else i), negsuc 0)
    | some j ↦ ok (pos j, pos j)
  ]
]

unfoldable pub lookup_res : List Reslink → ℤ → ℤ → ℤ → Run (ℤ × ℤ)
lookup_res links rid uid index =
    search_from (λ link. eq_ℤ link.res_id rid && eq_ℤ link.user_id uid) links index

unfoldable pub lookup_accno : List Reslink → ℤ → ℤ → Run (ℤ × ℤ)
lookup_accno links accno index = search_from (λ link. eq_ℤ link.accno accno) links index

unfoldable pub lookup_accres : List Reslink → ℤ → ℤ → ℤ → Run (ℤ × ℤ)
lookup_accres links accno rid index =
    search_from (λ link. eq_ℤ link.accno accno && eq_ℤ link.res_id rid) links index

-- Whether a gate has the address.
unfoldable pub covers : ℕ → Reslink → Bool
covers addr link = not (link.mask == 0) && (link.addr == bit_and addr link.mask)

unfoldable pub lookup_baddr : List Reslink → ℕ → ℤ → Run (ℤ × ℤ)
lookup_baddr links addr index = search_from (covers addr) links index

-- Whether a gate has addresses in common with those of `addr` and `mask`.
unfoldable pub intersects : ℕ → ℕ → Reslink → Bool
intersects addr mask link =
    let minmask = bit_and mask link.mask in
    not (link.mask == 0) && (bit_and link.addr minmask == bit_and addr minmask)

-- lookup_intersect, where no index stands for NULL.
unfoldable pub lookup_intersect : List Reslink → ℕ → ℕ → Option ℤ → Run (ℤ × ℤ)
lookup_intersect links addr mask none = search_from (intersects addr mask) links (negsuc 0)
lookup_intersect links addr mask (some index) = search_from (intersects addr mask) links index

-- The number that reslink_new gives: one more than the largest of the resource, which is at least -1.
unfoldable pub largest_uid : ℤ → List Reslink → ℤ → ℤ
largest_uid rid [] uid = uid
largest_uid rid (link ∷ links) uid =
    largest_uid rid links
      (if eq_ℤ link.res_id rid && ltb_ℤ uid link.user_id then link.user_id else uid)

unfoldable pub next_uid : ℤ → List Reslink → Run ℤ
next_uid rid links =
    let uid = largest_uid rid links (negsuc 0) in
    if eq_ℤ uid (pos 0x7fffffff) then fault else ok (uid +ℤ pos 1)

-- The end of reslink_new: the number, and the gate at the end of a larger table, if there is memory.
unfoldable pub append_link : Bool → List Reslink → Reslink → Run (List Reslink × ℤ)
append_link granted links link = do
  uid ← next_uid link.res_id links
  if granted
      then ok (links ++ (record link { user_id = uid } ∷ []), pos 0)
      else ok (links, negsuc 0)

-- reslink_del; whether the smaller table is moved changes nothing.
unfoldable pub reslink_del : List Reslink → ℤ → List Reslink × ℤ
reslink_del links (negsuc n) = (links, negsuc 0)
reslink_del links (pos i) =
    if leb (length links) i then (links, negsuc 0) else (take i links ++ drop (i + 1) links, pos 0)

module _ (libc : Libc) where
  unfoldable pub lookup_name : List Reslink → List ℕ → ℤ → Run (ℤ × ℤ)
  lookup_name links name index =
      search_from (λ link. eq_ℤ (libc.strcasecmp link.username name) (pos 0)) links index

  unfoldable pub lookup_pname : List Reslink → List ℕ → ℤ → Run (ℤ × ℤ)
  lookup_pname links name index = search_from (λ link. libc.strstr link.username name) links index

  unfoldable pub lookup_addr : List Reslink → List ℕ → ℤ → Run (ℤ × ℤ)
  lookup_addr links text index = do
    parsed ← make_addrandmask libc text
    elim parsed [ none ↦ ok (index, negsuc 0) | some (addr, mask) ↦ lookup_baddr links addr index ]

  unfoldable pub lookup_resname : List Reslink → ℤ → List ℕ → ℤ → Run (ℤ × ℤ)
  lookup_resname links rid name index = do
    addressed ← is_addressed rid
    if addressed
        then (do
          parsed ← make_addrandmask libc name
          elim parsed [
            | none ↦ ok (index, negsuc 0)
            | some (addr, mask) ↦
                search_from (λ link. eq_ℤ link.res_id rid && covers addr link) links index
          ])
        else search_from (λ link. eq_ℤ link.res_id rid && same_text name link.username) links index

  -- reslink_new, with whether calloc and realloc find memory.
  unfoldable pub reslink_new : Bool → Bool → List Reslink → ℤ → ℤ → List ℕ → Run (List Reslink × ℤ)
  reslink_new calloc realloc links rid accno name =
      let link : Reslink = record {
        res_id = rid;
        user_id = pos 0;
        accno = accno;
        username = name;
        allow = pos 1;
        addr = 0;
        mask = 0;
      } in
      if not calloc then ok (links, negsuc 0) else (do
        addressed ← is_addressed rid
        if not addressed then append_link realloc links link else (do
          parsed ← make_addrandmask libc name
          elim parsed [
            | none ↦ ok (links, negsuc 0)
            | some (addr, mask) ↦
                elim (libc.asprintf (libc.inet_ntop addr) (mask2bits libc.is_big_endian mask)) [
                  | none ↦ ok (links, negsuc 0)
                  | some text ↦ (do
                    (index, rc) ← lookup_intersect links addr mask none
                    if not (is_neg rc)
                        then ok (links, negsuc 0)
                        else append_link realloc links
                            (record link { username = text; addr = addr; mask = mask }))
                ]
          ]))

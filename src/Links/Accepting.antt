-- ===== src/Links/Accepting.antt =====
-- When reslink_new adds a gate.
use rubsd.Prelude.{
  ℕ, zero, suc, ◌^◌, ◌<◌, ◌≡◌, ◌≢◌, refl, ◌∙◌, ap, ◌⊎◌, inl, inr, true, false, not, ◌&&◌, arith,
  List, [], ◌∷◌, ◌++◌, Option, some, none, get_elem?, ltb, ◌==◌, if◌then◌else◌, Bool-cases,
  Option-cases,
}
use rubsd.Prelude.Int.{ℤ, pos, negsuc, is_neg, eq_ℤ, eq_ℤ→eq, ltb_ℤ, ◌+ℤ◌, ◌<ℤ◌}
use rubsd.Prelude.Run.{ok, Yields, value, Yields-value, Yields-bind}
use rubsd.Links.{Libc, make_addrandmask, mask2bits}
use rubsd.Links.Parsing.{make_addrandmask_lem}
use rubsd.Links.Gates.{
  Reslink, intersects, is_addressed, largest_uid, next_uid, append_link, lookup_intersect,
  reslink_new,
}
use rubsd.Links.Searching.{NoneOf, Answer, search_from_lem}
use rubsd.Links.Adding.{HasRoom, largest_uid-room, largest_uid_lem, next_above, from_start}

-- The number that a gate of the resource gets: above those of its resource, and not further than
-- needed, which is 0 or one above one of them.
pub record IsNext (rid : ℤ) (links : List Reslink) (uid : ℤ) : Type 0 where
  pub above :
      (k : ℕ) (old : Reslink) → get_elem? links k ≡ some old → old.res_id ≡ rid → old.user_id <ℤ uid
  pub least :
      (uid ≡ pos 0)
      ⊎ ((k : ℕ) × (old : Reslink) × (get_elem? links k ≡ some old)
          × (old.res_id ≡ rid)
          × (uid ≡ old.user_id +ℤ pos 1))

-- The gate that reslink_new makes of a name, an address and a mask.
pub record IsGate (links : List Reslink) (rid accno : ℤ) (name : List ℕ) (addr mask : ℕ)
    (link : Reslink) : Type 0 where
  pub resource : link.res_id ≡ rid
  pub number : IsNext rid links link.user_id
  pub account : link.accno ≡ accno
  pub named : link.username ≡ name
  pub allowed : link.allow ≡ pos 1
  pub address : link.addr ≡ addr
  pub masked : link.mask ≡ mask

-- The names that are good for a gate: any one for a resource without addresses, else one of a network
-- that has no address in common with a gate of the table; with the name and the network it gets.
abbrev pub IsGood : Libc → List Reslink → ℕ → List ℕ → List ℕ → ℕ → ℕ → Type 0
IsGood libc links n name text addr mask =
    ((n ≢ 0) × (text ≡ name) × (addr ≡ 0) × (mask ≡ 0))
    ⊎ ((n ≡ 0)
        × (make_addrandmask libc name ≡ ok (some (addr, mask)))
        × (libc.asprintf (libc.inet_ntop addr) (mask2bits libc.is_big_endian mask) ≡ some text)
        × NoneOf (intersects addr mask) links)

-- What reslink_new does: for a good name, it adds a gate at the end and returns 0, and for any other
-- one it changes nothing and returns -1.
abbrev pub Accepted : Libc → List Reslink → ℕ → ℤ → List ℕ → List Reslink × ℤ → Type 0
Accepted libc links n accno name (after, rc) =
    ((rc ≡ pos 0)
      × (text : List ℕ) × (addr : ℕ) × (mask : ℕ) × (link : Reslink) × IsGood libc links n name text
          addr mask
      × IsGate links (pos n) accno text addr mask link
      × (after ≡ links ++ (link ∷ [])))
    ⊎ ((rc ≡ negsuc 0)
        × (after ≡ links)
        × ((text : List ℕ) (addr mask : ℕ) → ¬ IsGood libc links n name text addr mask))

-- The largest number is the one that the search starts with, or that of a gate of the resource.
largest_uid-met :
    (rid : ℤ) (links : List Reslink) (uid : ℤ)
    → (largest_uid rid links uid ≡ uid)
      ⊎ ((k : ℕ) × (old : Reslink) × (get_elem? links k ≡ some old)
          × (old.res_id ≡ rid)
          × (largest_uid rid links uid ≡ old.user_id))
unfolding largest_uid
largest_uid-met rid [] uid = inl refl
largest_uid-met rid (x ∷ links) uid = elim (Bool-cases (eq_ℤ x.res_id rid && ltb_ℤ uid x.user_id)) [
  | inl e ↦ rw e (elim (largest_uid-met rid links x.user_id) [
    | inl same ↦ inr (0, x, refl, eq_ℤ→eq x.res_id rid (ground arith), same)
    | inr (k, old, at_k, own, same) ↦ inr (suc k, old, at_k, own, same)
  ])
  | inr e ↦ rw e (elim (largest_uid-met rid links uid) [
    | inl same ↦ inl same
    | inr (k, old, at_k, own, same) ↦ inr (suc k, old, at_k, own, same)
  ])
]

IsNext-largest_uid :
    (rid : ℤ) (links : List Reslink) → IsNext rid links (largest_uid rid links (negsuc 0) +ℤ pos 1)
IsNext-largest_uid rid links =
    let top = largest_uid_lem rid links (negsuc 0) in
    record {
      above = λ k old at_k own. next_above old.user_id _ (top.over k old at_k own);
      least = elim (largest_uid-met rid links (negsuc 0)) [
        | inl none_met ↦ inl (ap (λ (u : ℤ). u +ℤ pos 1) none_met ∙ from_start)
        | inr (k, old, at_k, own, met) ↦ inr (k, old, at_k, own, ap (λ (u : ℤ). u +ℤ pos 1) met)
      ];
    }

append_link_adds :
    (libc : Libc) (links : List Reslink) (n : ℕ) (accno uid : ℤ) (name text : List ℕ)
    (addr mask : ℕ)
    → HasRoom links
    → IsGood libc links n name text addr mask
    → Yields (Accepted libc links n accno name) (
        append_link true links (record {
          res_id = pos n;
          user_id = uid;
          accno = accno;
          username = text;
          allow = pos 1;
          addr = addr;
          mask = mask;
        }))
unfolding append_link next_uid
append_link_adds libc links n accno uid name text addr mask room good =
    let low = largest_uid-room (pos n) links (negsuc 0) room (omega arith) in
    let fine : eq_ℤ (largest_uid (pos n) links (negsuc 0)) (pos 0x7fffffff) ≡ false =
      ground arith in
    let link : Reslink = record {
      res_id = pos n;
      user_id = largest_uid (pos n) links (negsuc 0) +ℤ pos 1;
      accno = accno;
      username = text;
      allow = pos 1;
      addr = addr;
      mask = mask;
    } in
    let gate : IsGate links (pos n) accno text addr mask link = record {
      resource = refl;
      number = IsNext-largest_uid (pos n) links;
      account = refl;
      named = refl;
      allowed = refl;
      address = refl;
      masked = refl;
    } in
    rw fine (value (inl (refl, text, addr, mask, link, good, gate, refl)))

-- The end of reslink_new for a resource of addresses.
network_adds :
    (libc : Libc) (links : List Reslink) (accno uid : ℤ) (name text : List ℕ) (addr mask : ℕ)
    → HasRoom links
    → make_addrandmask libc name ≡ ok (some (addr, mask))
    → libc.asprintf (libc.inet_ntop addr) (mask2bits libc.is_big_endian mask) ≡ some text
    → (r : ℤ × ℤ) → Answer (intersects addr mask) links 0 r
    → Yields (Accepted libc links 0 accno name) (
        if not (is_neg r.1)
        then ok (links, negsuc 0)
        else append_link true links (record {
          res_id = pos 0;
          user_id = uid;
          accno = accno;
          username = text;
          allow = pos 1;
          addr = addr;
          mask = mask;
        }))
network_adds libc links accno uid name text addr mask room parsed printed (index, pos j) (e, f) =
    value (
      inr (
        refl,
        refl,
        λ text' addr' mask' good. elim good [
          | inl (other, _, _, _) ↦ other refl
          | inr (_, parsed', _, free) ↦
              let same_addr : addr' ≡ addr = cc in
              let same_mask : mask' ≡ mask = cc in
              let own : NoneOf (intersects addr mask) links = (rw (same_addr, same_mask) at free) in
              let missed = own j f.gate f.there in let hit = f.holds in absurd cc
        ],
      ))
network_adds libc links accno uid name text addr mask room parsed printed (index, negsuc m)
      (e, all) =
    append_link_adds libc links 0 accno uid name text addr mask room
      (inr (refl, parsed, printed, λ k old at_k. all k old (omega arith) at_k))

make_addrandmask-cases :
    (libc : Libc) (name : List ℕ)
    → ((str : List ℕ) (addr : ℕ) → libc.inet_pton str ≡ some addr → addr < 2 ^ 32)
    → (make_addrandmask libc name ≡ ok none)
      ⊎ ((addr : ℕ) × (mask : ℕ) × (make_addrandmask libc name ≡ ok (some (addr, mask))))
make_addrandmask-cases libc name small =
    let (parsed, e, _) = Yields-value (make_addrandmask_lem libc name small) in
    elim (Option-cases parsed) [
      | inl none_there ↦ inl (e ∙ ap (λ (x : Option (ℕ × ℕ)). ok x) none_there)
      | inr ((addr, mask), f) ↦ inr (addr, mask, e ∙ ap (λ (x : Option (ℕ × ℕ)). ok x) f)
    ]

-- When calloc and realloc find memory, reslink_new comes back for every name, for one of the eight
-- resources and a table whose numbers are all below INT_MAX. It returns 0 exactly if the name is good:
-- any name for a resource without addresses, else one that make_addrandmask reads as a network and
-- asprintf can print, where the network has no address in common with a gate of the table. Then the
-- table has one gate more, at its end: of the resource and the account, with the network and its text,
-- and with a number above those of its resource, which is 0 or one above one of them. Else it returns
-- -1, and the table is as it was.
pub reslink_new_adds :
    (libc : Libc) (links : List Reslink) (n : ℕ) (accno : ℤ) (name : List ℕ)
    → ((str : List ℕ) (addr : ℕ) → libc.inet_pton str ≡ some addr → addr < 2 ^ 32)
    → n < 8
    → HasRoom links
    → Yields
        (Accepted libc links n accno name)
        (reslink_new libc true true links (pos n) accno name)
unfolding reslink_new is_addressed lookup_intersect
reslink_new_adds libc links zero accno name small inside room =
    elim (make_addrandmask-cases libc name small) [
      | inl e ↦ rw e (
          value (
            inr (
              refl,
              refl,
              λ text addr mask good. elim good [
                | inl (other, _, _, _) ↦ other refl
                | inr (_, parsed, _, _) ↦ absurd cc
              ],
            )))
      | inr (addr, mask, e) ↦
          elim (Option-cases
            (libc.asprintf (libc.inet_ntop addr) (mask2bits libc.is_big_endian mask))) [
              | inl f ↦
                  rw (e, f)
                    (value (
                      inr (
                        refl,
                        refl,
                        λ text addr' mask' good. elim good [
                          | inl (other, _, _, _) ↦ other refl
                          | inr (_, parsed, printed, _) ↦ absurd cc
                        ],
                      )))
              | inr (text, f) ↦
                  rw (e, f)
                    (Yields-bind
                      (search_from_lem (intersects addr mask) links (negsuc 0) 0 from_start)
                      λ r answer.
                        network_adds libc links accno (pos 0) name text addr mask room e f r answer)
            ]
    ]
reslink_new_adds libc links (suc n) accno name small inside room =
    let known : ltb (suc n) 8 ≡ true = ground arith in
    let plain : (suc n == 0) ≡ false = ground arith in
    rw (known, plain)
      (append_link_adds libc links (suc n) accno (pos 0) name name 0 0 room
        (inl ((λ e. absurd cc), refl, refl, refl)))

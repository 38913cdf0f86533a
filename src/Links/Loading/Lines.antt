-- ===== src/Links/Loading/Lines.antt =====
-- The loop of reslinks_load.
use rubsd.Prelude.{
  ℕ, ◌^◌, ◌<◌, ◌≡◌, ◌≢◌, refl, inl, inr, ◌⊎◌, true, false, not, ◌==◌, List, [], ◌∷◌, ◌++◌, Option,
  some, arith, if◌then◌else◌, Bool-cases, Option-cases,
}
use rubsd.Prelude.Int.{ℤ, pos, negsuc, is_neg, eq_ℤ}
use rubsd.Prelude.Run.{ok, Yields, value, Yields-bind}
use rubsd.Beelib.{strtrim}
use rubsd.Beelib.Tokens.{list-cases}
use rubsd.Links.{Libc, mask2bits}
use rubsd.Links.Parsing.{next_token-returns, make_addrandmask_lem}
use rubsd.Links.Gates.{Reslink, intersects, lookup_intersect}
use rubsd.Links.Searching.{NoneOf, Answer, search_from_lem}
use rubsd.Links.Table.{IsDisjoint, is_allowed}
use rubsd.Links.Adding.{IsDisjoint-end, from_start}
use rubsd.Links.Loading.{
  delim, resource_names, find_resource, Line, Outcome, skipped, failed, loaded, Fields, is_comment,
  parse_numbers, parse_fields, inet_gate, load_line, load_lines,
}

-- A gate that the loop adds has, if it is allowed, no address in common with those before it.
abbrev pub Fits : List Reslink → Outcome → Type 0
Fits links skipped = Unit {0}
Fits links failed = Unit {0}
Fits links (loaded link) =
    is_allowed link ≡ true → link.mask ≢ 0 → NoneOf (intersects link.addr link.mask) links

-- A table whose gates keep apart, and the code 0 or -1.
abbrev pub Loaded : List Reslink × ℤ → Type 0
Loaded (links, rc) = IsDisjoint links × ((rc ≡ pos 0) ⊎ (rc ≡ negsuc 0))

sign_of :
    (rc : ℤ) → not (eq_ℤ (if is_neg rc then pos 1 else pos 0) (pos 0)) ≡ true → is_neg rc ≡ true
sign_of (pos n) h = absurd cc
sign_of (negsuc n) h = refl

apart :
    (links : List Reslink) (addr mask : ℕ) (r : ℤ × ℤ)
    → Answer (intersects addr mask) links 0 r
    → is_neg r.1 ≡ true
    → NoneOf (intersects addr mask) links
apart links addr mask (index, pos j) answer h = absurd cc
apart links addr mask (index, negsuc n) (e, all) h = λ k old at_k. all k old (omega arith) at_k

module _ (libc : Libc) where
  parse_numbers-returns :
      (res : ℕ) (ptr : Option (List ℕ)) → Yields (λ r. Unit {0}) (parse_numbers libc res ptr)
  unfolding parse_numbers
  parse_numbers-returns res ptr = Yields-bind (next_token-returns delim ptr) λ q _.
      elim (Option-cases (q.1)) [
        | inl e ↦ rw e (value tt)
        | inr (u, e) ↦ rw e (
            Yields-bind (next_token-returns delim q.0) λ r _. elim (Option-cases (r.1)) [
              | inl f ↦ rw f (value tt)
              | inr (a, f) ↦ elim (Option-cases (strtrim delim r.0)) [
                | inl g ↦ rw (f, g) (value tt)
                | inr (str, g) ↦ elim (list-cases str) [
                  | inl h ↦ rw (f, g, h) (value tt)
                  | inr (c, more, h) ↦ rw (f, g, h) (value tt)
                ]
              ]
            ])
      ]

  parse_fields-returns : (buf : List ℕ) → Yields (λ r. Unit {0}) (parse_fields libc buf)
  unfolding parse_fields
  parse_fields-returns buf = elim (Bool-cases (is_comment buf)) [
    | inl c ↦ rw c (value tt)
    | inr c ↦ rw c (
        Yields-bind (next_token-returns delim (some buf)) λ q _. elim (Option-cases (q.1)) [
          | inl e ↦ rw e (value tt)
          | inr (name, e) ↦ elim (Option-cases (find_resource 0 resource_names name)) [
            | inl f ↦ rw (e, f) (value tt)
            | inr (res, f) ↦ rw (e, f) (parse_numbers-returns res q.0)
          ]
        ])
  ]

module _ (libc : Libc)
    (small : (str : List ℕ) (addr : ℕ) → libc.inet_pton str ≡ some addr → addr < 2 ^ 32) where
  inet_gate_lem : (links : List Reslink) (f : Fields) → Yields (Fits links) (inet_gate libc links f)
  unfolding inet_gate lookup_intersect
  inet_gate_lem links f = Yields-bind (make_addrandmask_lem libc f.name small) λ parsed net.
      elim (Option-cases parsed) [
        | inl e ↦ rw e (value tt)
        | inr ((addr, mask), e) ↦
            elim (Option-cases
              (libc.asprintf (libc.inet_ntop addr) (mask2bits libc.is_big_endian mask))) [
                | inl g ↦ rw (e, g) (value tt)
                | inr (text, g) ↦
                    rw (e, g)
                      (Yields-bind
                        (search_from_lem (intersects addr mask) links (negsuc 0) 0 from_start)
                        λ r answer. value (λ allowed has k old at_k.
                          apart links addr mask r answer (sign_of r.1 allowed) k old at_k))
              ]
      ]

  load_line_lem :
      (links : List Reslink) (line : Line) → Yields (Fits links) (load_line libc links line)
  unfolding load_line
  load_line_lem links line = Yields-bind (parse_fields-returns libc line.buf) λ fields _.
      elim (Option-cases fields) [
        | inl e ↦ rw e (value tt)
        | inr (f, e) ↦ elim (Bool-cases (line.calloc)) [
          | inr full ↦ rw (e, full) (value tt)
          | inl free ↦ elim (Bool-cases (f.res == 0)) [
            | inl inet ↦ rw (e, free, inet) (inet_gate_lem links f)
            | inr other ↦ rw (e, free, other) (value (λ allowed has. absurd (has refl)))
          ]
        ]
      ]

  next_lines :
      (links : List Reslink) (line : Line) (lines : List Line)
      → IsDisjoint links
      → ((more : List Reslink) → IsDisjoint more → Yields Loaded (load_lines libc more lines))
      → (outcome : Outcome) → Fits links outcome
      → Yields Loaded (elim outcome [
        | skipped ↦ load_lines libc links lines
        | failed ↦ ok (links, negsuc 0)
        | loaded link ↦ elim (line.realloc) [
          | false ↦ ok (links, negsuc 0)
          | true ↦ load_lines libc (links ++ (link ∷ [])) lines
        ]
      ])
  next_lines links line lines d rest skipped fits = rest links d
  next_lines links line lines d rest failed fits = value (d, inr refl)
  next_lines links line lines d rest (loaded link) fits = elim (Bool-cases (line.realloc)) [
    | inl e ↦ rw e (rest (links ++ (link ∷ [])) (IsDisjoint-end links link d fits))
    | inr e ↦ rw e (value (d, inr refl))
  ]

  -- The loop of reslinks_load comes back for every file: it returns 0 or -1, and in the table that it
  -- has made, as far as it came, an allowed gate has no address in common with the gates before it.
  pub load_lines-IsDisjoint :
      (links : List Reslink) (lines : List Line)
      → IsDisjoint links
      → Yields Loaded (load_lines libc links lines)
  unfolding load_lines
  load_lines-IsDisjoint links [] d = value (d, inl refl)
  load_lines-IsDisjoint links (line ∷ lines) d =
      Yields-bind (load_line_lem links line)
        (next_lines links line lines d (λ more e. load_lines-IsDisjoint more lines e))

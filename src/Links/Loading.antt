-- ===== src/Links/Loading.antt =====
-- reslinks_load, reslinks_save and the lock of the file of gates.
pub mod Lines
use rubsd.Prelude.{
  ℕ, zero, suc, ◌+◌, ◌^◌, Bool, true, false, not, ◌==◌, List, [], ◌∷◌, ◌++◌, Option, none, some,
  if◌then◌else◌,
}
use rubsd.Prelude.Int.{ℤ, pos, negsuc, is_neg}
use rubsd.Prelude.Run.{Run, ok, ◌>>=◌}
use rubsd.Beelib.{next_token, strtrim}
use rubsd.Links.{Libc, narrow, make_addrandmask, mask2bits}
use rubsd.Links.Gates.{Reslink, same_text, lookup_intersect}

-- DELIM
abbrev pub delim : List ℕ
delim = 32 ∷ 44 ∷ 9 ∷ 10 ∷ 13 ∷ []

-- The names in the table of resources: inet, mail, adder, intra, list, login, label, maxrate.
abbrev pub resource_names : List (List ℕ)
resource_names =
    (105 ∷ 110 ∷ 101 ∷ 116 ∷ [])
    ∷ (109 ∷ 97 ∷ 105 ∷ 108 ∷ [])
    ∷ (97 ∷ 100 ∷ 100 ∷ 101 ∷ 114 ∷ [])
    ∷ (105 ∷ 110 ∷ 116 ∷ 114 ∷ 97 ∷ [])
    ∷ (108 ∷ 105 ∷ 115 ∷ 116 ∷ [])
    ∷ (108 ∷ 111 ∷ 103 ∷ 105 ∷ 110 ∷ [])
    ∷ (108 ∷ 97 ∷ 98 ∷ 101 ∷ 108 ∷ [])
    ∷ (109 ∷ 97 ∷ 120 ∷ 114 ∷ 97 ∷ 116 ∷ 101 ∷ [])
    ∷ []

-- The number of a resource, counted from `i`.
unfoldable pub find_resource : ℕ → List (List ℕ) → List ℕ → Option ℕ
find_resource i [] str = none
find_resource i (name ∷ names) str =
    if same_text name str then some i else find_resource (i + 1) names str

-- What fgets puts into `buf`, and whether calloc and realloc find memory while it is read.
pub record Line : Type 0 where
  pub buf : List ℕ
  pub calloc : Bool
  pub realloc : Bool

-- A line is skipped, or it stops the loading, or it gives a gate.
pub data Outcome : Type 0 where
  skipped : Outcome
  failed : Outcome
  loaded : Reslink → Outcome

-- The fields of a line up to the name: resource, user, account and the rest, trimmed.
pub record Fields : Type 0 where
  pub res : ℕ
  pub uid : ℤ
  pub acc : ℤ
  pub name : List ℕ

abbrev is_comment : List ℕ → Bool
is_comment [] = false
is_comment (c ∷ s) = c == 35

-- An int of the file.
abbrev file_int : Libc → List ℕ → ℤ
file_int libc str = narrow (2 ^ 31) (libc.strtol str)

module _ (libc : Libc) where
  -- The two numbers, and what is behind them.
  unfoldable pub parse_numbers : ℕ → Option (List ℕ) → Run (Option Fields)
  parse_numbers res ptr = do
    (behind_uid, uid) ← next_token delim ptr
    elim uid [
      | none ↦ ok none
      | some u ↦ (do
        (behind_acc, acc) ← next_token delim behind_uid
        elim acc [
          | none ↦ ok none
          | some a ↦ elim (strtrim delim behind_acc) [
            | none ↦ ok none
            | some str ↦ elim str [
              | [] ↦ ok none
              | c ∷ more ↦ ok (
                  some (record {
                    res = res;
                    uid = file_int libc u;
                    acc = file_int libc a;
                    name = c ∷ more;
                  }))
            ]
          ]
        ])
    ]

  unfoldable pub parse_fields : List ℕ → Run (Option Fields)
  parse_fields buf = if is_comment buf then ok none else (do
    (ptr, str) ← next_token delim (some buf)
    elim str [
      | none ↦ ok none
      | some name ↦ elim (find_resource 0 resource_names name) [
        | none ↦ ok none
        | some res ↦ parse_numbers res ptr
      ]
    ])

  -- `worksp` with the fields of the line.
  abbrev pub base_gate : Fields → Reslink
  base_gate f = record {
    res_id = pos f.res;
    user_id = f.uid;
    accno = f.acc;
    username = f.name;
    allow = pos 1;
    addr = 0;
    mask = 0;
  }

  -- The address of a gate of inet, and whether it intersects a gate of the table.
  unfoldable pub inet_gate : List Reslink → Fields → Run Outcome
  inet_gate links f = do
    parsed ← make_addrandmask libc f.name
    elim parsed [
      | none ↦ ok skipped
      | some (addr, mask) ↦
          elim (libc.asprintf (libc.inet_ntop addr) (mask2bits libc.is_big_endian mask)) [
            | none ↦ ok failed
            | some text ↦ (do
              (index, rc) ← lookup_intersect links addr mask none
              ok (
                  loaded (record (base_gate f) {
                    username = text;
                    addr = addr;
                    mask = mask;
                    allow = if is_neg rc then pos 1 else pos 0;
                  })))
          ]
    ]

  -- The body of the loop for a line, up to the memory for the larger table.
  unfoldable pub load_line : List Reslink → Line → Run Outcome
  load_line links line = do
    fields ← parse_fields line.buf
    elim fields [
      | none ↦ ok skipped
      | some f ↦
          if not line.calloc
          then ok failed
          else if f.res == 0
          then inet_gate links f
          else ok (loaded (base_gate f))
    ]

  -- The loop.
  unfoldable pub load_lines : List Reslink → List Line → Run (List Reslink × ℤ)
  load_lines links [] = ok (links, pos 0)
  load_lines links (line ∷ lines) = do
    outcome ← load_line links line
    elim outcome [
      | skipped ↦ load_lines links lines
      | failed ↦ ok (links, negsuc 0)
      | loaded link ↦ elim (line.realloc) [
        | false ↦ ok (links, negsuc 0)
        | true ↦ load_lines (links ++ (link ∷ [])) lines
      ]
    ]

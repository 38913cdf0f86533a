-- ===== src/Misc/Strings.antt =====
-- The conversions, the trimming and the searches of misc.c. A text is the list of its bytes before the NUL,
-- and `none` is NULL; isspace, strtol and the like are parameters.
pub mod Trimming
pub mod Chains
use rubsd.Prelude.{
  ℕ, zero, suc, ◌+◌, ◌-◌, ◌^◌, Bool, true, false, not, ◌&&◌, ◌||◌, ◌==◌, List, [], ◌∷◌, ◌++◌,
  Option, none, some, length, take, drop, get_or, ltb, if◌then◌else◌,
}
use rubsd.Prelude.Int.{ℤ, pos, negsuc, eq_ℤ}
use rubsd.Prelude.Run.{Run, ok, fault, ◌>>=◌}
use rubsd.Prelude.Cells.{read}
use rubsd.Beelib.{next_token}

-- strnalloc, when memory is found: the block, with the NUL at its end.
unfoldable pub strnalloc : Option (List ℕ) → ℕ → Run (Option (List ℕ))
strnalloc none len = ok none
strnalloc (some str) len =
    let n = if len == 0 then length str else len in
    if ltb (length str + 1) n then fault else ok (some (take n (str ++ 0 ∷ []) ++ 0 ∷ []))

-- strrealloc: what `*dst` is after it, and what is freed; 0 is the pointer that is NULL.
unfoldable pub strrealloc : (List ℕ → ℕ) → Option ℕ → List ℕ → Option ℕ × List ℕ × ℤ
strrealloc strdup none src = (none, [], negsuc 0)
strrealloc strdup (some old) src =
    let tmp = strdup src in
    if tmp == 0
    then (some old, [], negsuc 0)
    else (some tmp, (if old == 0 then [] else old ∷ []), pos 0)

-- What strtol and its kin give of a text and a base: the value, the bytes that it took, and whether they
-- set errno to ERANGE.
abbrev pub Convert : Type 0
Convert = List ℕ → ℤ → ℤ × ℕ × Bool

-- The result of a conversion: -1 for a text that is not a number, -2 out of range.
unfoldable pub converted : List ℕ → ℕ → Bool → ℤ
converted str taken out_of_range =
    if (length str == 0) || ltb taken (length str)
    then negsuc 0
    else if out_of_range
    then negsuc 1
    else pos 0

-- str2long and str2ulong: the value, and the code.
unfoldable pub str2long : Convert → List ℕ → ℤ → ℤ × ℤ
str2long strtol str base =
    let (value, taken, erange) = strtol str base in
    let limit = eq_ℤ value (pos (2 ^ 63 - 1)) || eq_ℤ value (negsuc (2 ^ 63 - 1)) in
    (value, converted str taken (erange && limit))

unfoldable pub str2ulong : Convert → List ℕ → ℤ → ℤ × ℤ
str2ulong strtoul str base =
    let (value, taken, erange) = strtoul str base in
    (value, converted str taken (erange && eq_ℤ value (pos (2 ^ 64 - 1))))

-- str264, which does not clear errno: `stale` says that it is ERANGE before the call.
unfoldable pub str264 : Convert → Bool → List ℕ → ℤ → ℤ × ℤ
str264 strtoull stale str base =
    let (value, taken, erange) = strtoull str base in
    let limit = eq_ℤ value (pos (2 ^ 64 - 1)) || eq_ℤ value (pos 0) in
    (value, converted str taken ((stale || erange) && limit))

-- The loop of rtrim with `k` bytes before it, and the place of the NUL.
unfoldable pub rtrim_end : (ℕ → Bool) → List ℕ → ℕ → ℕ
rtrim_end isspace str zero = 1
rtrim_end isspace str (suc j) = elim (isspace (get_or str j 0)) [
  | true ↦ rtrim_end isspace str j
  | false ↦ suc j
]

unfoldable pub rtrim : (ℕ → Bool) → List ℕ → List ℕ
rtrim isspace str =
    if ltb 1 (length str) then take (rtrim_end isspace str (length str)) str else str

-- ltrim
unfoldable pub ltrim : (ℕ → Bool) → List ℕ → List ℕ
ltrim isspace [] = []
ltrim isspace (c ∷ str) = elim (isspace c) [ true ↦ ltrim isspace str | false ↦ c ∷ str ]

abbrev pub same_text : List ℕ → List ℕ → Bool
same_text [] [] = true
same_text [] (d ∷ b) = false
same_text (c ∷ a) [] = false
same_text (c ∷ a) (d ∷ b) = (c == d) && same_text a b

-- get_string_index, on the texts before the NULL that ends the table; the first has the index `i`.
unfoldable pub get_string_index : List (List ℕ) → List ℕ → ℕ → ℤ
get_string_index [] str i = negsuc 0
get_string_index (t ∷ table) str i = elim (same_text t str) [
  | true ↦ pos i
  | false ↦ get_string_index table str (i + 1)
]

-- The bytes before the first `c`, or none if there is no such byte.
unfoldable pub cut_at : ℕ → List ℕ → Option (List ℕ)
cut_at c [] = none
cut_at c (d ∷ s) = elim (d == c) [
  | true ↦ some []
  | false ↦ elim (cut_at c s) [ none ↦ none | some front ↦ some (d ∷ front) ]
]

-- "\t "
abbrev pub field_delim : List ℕ
field_delim = 9 ∷ 32 ∷ []

-- The do loop of find_field, with the rounds that are left behind the first.
unfoldable pub nth_field : ℕ → Option (List ℕ) → Run (Option (List ℕ))
nth_field zero ptr = do (rest, field) ← next_token field_delim ptr; ok field
nth_field (suc n) ptr = do
  (rest, field) ← next_token field_delim ptr
  elim field [ none ↦ ok none | some f ↦ nth_field n rest ]

-- A line of the file: the field, if the line is whole and its first field is `match`.
unfoldable pub field_of : List ℕ → ℕ → List ℕ → Run (Option (List ℕ))
field_of match field_no buf = elim (cut_at 10 buf) [
  | none ↦ ok none
  | some line ↦
      let text : List ℕ = elim (cut_at 35 line) [ none ↦ line | some front ↦ front ] in
      (do
        (rest, first) ← next_token field_delim (some text)
        elim first [
          | none ↦ ok none
          | some f ↦ if same_text match f then nth_field (field_no - 2) rest else ok none
        ])
]

-- find_field, on the lines that fgets reads with its buffer of 1024 bytes; `none` is a file that cannot be
-- opened, whose code is errno. The field that it gives lies in that buffer, which is its own.
unfoldable pub find_lines : List ℕ → ℕ → List (List ℕ) → Run (Option (List ℕ) × ℤ)
find_lines match field_no [] = ok (none, negsuc 0)
find_lines match field_no (buf ∷ lines) = do
  field ← field_of match field_no buf
  elim field [ some f ↦ ok (some f, pos 0) | none ↦ find_lines match field_no lines ]

unfoldable pub find_field : List ℕ → Option (List (List ℕ)) → ℤ → ℕ → Run (Option (List ℕ) × ℤ)
find_field match none errno field_no = ok (none, errno)
find_field match (some lines) errno field_no = find_lines match field_no lines

-- The loop of find_chain with the rounds that are left: the first byte of the chain, and its last.
unfoldable pub chain_loop : (ℕ → Bool) → List ℕ → ℕ → ℕ → Option (ℕ × ℕ) → Run (Option (ℕ × ℕ))
chain_loop f start zero i found = ok found
chain_loop f start (suc n) i found = do
  c ← read start i
  elim (f c) [
    | true ↦ elim found [
      | none ↦ chain_loop f start n (i + 1) (some (i, i))
      | some (s, e) ↦ chain_loop f start n (i + 1) (some (s, i))
    ]
    | false ↦ elim found [
      | none ↦ chain_loop f start n (i + 1) none
      | some (s, e) ↦ ok (some (s, e))
    ]
  ]

-- find_chain, on the block behind `start`, whose text has `strlen` bytes: the start of the chain, and the
-- place behind its end; `none` is the code -1. The loop runs up to `len`, that place included.
unfoldable pub find_chain : (ℕ → Bool) → Option (List ℕ) → ℕ → ℤ → Run (Option (ℕ × ℕ))
find_chain f none strlen len = ok none
find_chain f (some start) strlen len = do
  let rounds : ℕ = elim len [ negsuc zero ↦ strlen + 1 | negsuc (suc n) ↦ 0 | pos n ↦ n + 1 ]
  found ← chain_loop f start rounds 0 none
  ok (elim found [ none ↦ none | some (s, e) ↦ some (s, e + 1) ])

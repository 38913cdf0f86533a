-- ===== src/Queries.antt =====
-- src/bee/core/queries.c: named texts of queries, and the texts that they expand to. A text is the list
-- of its bytes before the NUL, a buffer the list of all its bytes, and an access outside it is a fault.
-- Memory is found for every copy.
pub mod Expanding
pub mod Filling
pub mod Overflow
pub mod Loading
mod Tests
use rubsd.Prelude.{
  ℕ, zero, suc, ◌+◌, ◌-◌, Bool, true, false, not, ◌&&◌, ◌||◌, ◌==◌, List, [], ◌∷◌, ◌++◌, Option,
  none, some, length, take, drop, get_elem?, get_or, ltb, leb, if◌then◌else◌,
}
use rubsd.Prelude.Int.{ℤ, pos, negsuc}
use rubsd.Prelude.Run.{Run, ok, fault, out_of_fuel, ◌>>=◌}
use rubsd.Prelude.Cells.{write}
use rubsd.Beelib.{next_token}

abbrev pub dollar : ℕ
dollar = 36

-- '1' to '9'
abbrev pub is_place : ℕ → Bool
is_place x = leb 49 x && leb x 57

-- `n` bytes are written to a buffer from `at` on.
unfoldable pub blit : ℕ → List ℕ → List ℕ → Run (List ℕ)
blit at bytes buf =
    if leb (at + length bytes) (length buf)
    then ok (take at buf ++ (bytes ++ drop (at + length bytes) buf))
    else fault

-- strchr(ptr, '$'): the bytes before it, and those behind it.
unfoldable pub to_dollar : List ℕ → List ℕ × Option (List ℕ)
to_dollar [] = ([], none)
to_dollar (c ∷ s) = elim (c == dollar) [
  | true ↦ ([], some s)
  | false ↦ let (piece, rest) = to_dollar s in (c ∷ piece, rest)
]

-- The copy of a piece of the text, cut to the room in the buffer, and the NUL that is written one byte
-- behind the place for it.
unfoldable pub put_piece : ℕ → ℕ → List ℕ → List ℕ → Run (List ℕ × ℕ)
put_piece size len piece buf =
    let m = if ltb size (len + length piece) then size - len else length piece in
    if m == 0
    then ok (buf, len)
    else (do b ← blit len (take m piece) buf; c ← write b (len + m + 1) 0; ok (c, len + m))

-- `len += snprintf(buf + len, size - len, "%s", text)`; behind the buffer's end `buf + len` is no pointer.
unfoldable pub put_text : ℕ → ℕ → List ℕ → List ℕ → Run (List ℕ × ℕ)
put_text size len text buf =
    if ltb size len
    then fault
    else if size == len
    then ok (buf, len + length text)
    else (do b ← blit len (take (size - len - 1) text ++ 0 ∷ []) buf; ok (b, len + length text))

-- The end of a round of query_vcatstr, for the argument of a place.
unfoldable pub put_arg : List (List ℕ) → ℕ → ℕ → ℕ → List ℕ → List ℕ → Run (List ℕ × ℕ)
put_arg args size x len piece buf = elim (get_elem? args (x - 49)) [
  | none ↦ fault
  | some arg ↦ (do (b, n) ← put_piece size len piece buf; put_text size n arg b)
]

-- The loop of query_vcatstr.
unfoldable pub vcat_loop : ℕ → List (List ℕ) → ℕ → List ℕ → ℕ → List ℕ → Run (List ℕ × ℕ)
vcat_loop zero args size ptr len buf = out_of_fuel
vcat_loop (suc fuel) args size ptr len buf =
    let (piece, found) = to_dollar ptr in
    elim found [
      | none ↦ put_text size len ptr buf
      | some rest ↦ elim (is_place (get_or rest 0 0)) [
        | true ↦ (do
          (b, n) ← put_arg args size (get_or rest 0 0) len piece buf
          vcat_loop fuel args size (drop 1 rest) n b)
        | false ↦ (do
          (b, n) ← put_piece size len (piece ++ dollar ∷ []) buf
          vcat_loop fuel args size rest n b)
      ]
    ]

-- query_vcatstr: the buffer, and the length
unfoldable pub query_vcatstr : List ℕ → ℕ → List ℕ → List (List ℕ) → Run (List ℕ × ℕ)
query_vcatstr buf size str args = vcat_loop (length str + 1) args size str 0 buf

-- query_catstr, with `none` for NULL
unfoldable pub query_catstr :
    Option (List ℕ) → ℤ → Option (List ℕ) → List (List ℕ) → Run (Option (List ℕ) × ℤ)
query_catstr none size str args = ok (none, negsuc 0)
query_catstr (some buf) (negsuc n) str args = ok (some buf, negsuc 0)
query_catstr (some buf) (pos size) str args =
    if ltb size 2 then ok (some buf, negsuc 0) else elim str [
      | none ↦ ok (some buf, pos 0)
      | some text ↦ (do (b, n) ← query_vcatstr buf size text args; ok (some b, pos n))
    ]

-- `query_t`; `none` for a name that is NULL
pub record Query : Type 0 where
  pub name : Option (List ℕ)
  pub query : List ℕ

-- The list, and the variables of qlist_load: `mode`, and the fields of `item`.
pub record Loader : Type 0 where
  pub items : List Query
  pub mode : Bool
  pub name : Option (List ℕ)
  pub query : Option (List ℕ)

-- " \t\n\r"
abbrev pub blanks : List ℕ
blanks = 32 ∷ 9 ∷ 10 ∷ 13 ∷ []

-- A line that fills the buffer and has no end.
unfoldable pub is_too_long : List ℕ → Bool
is_too_long line =
    (length line == 255) && not (get_or line 254 0 == 10) && not (get_or line 254 0 == 13)

-- A line outside a query, and whether the loading goes on.
unfoldable pub open_query : List ℕ → Loader → Run (Loader × Bool)
open_query line q =
    if get_or line 0 0 == 60
    then (do
      (ptr, tok) ← next_token blanks (some (drop 1 line))
      ok (elim tok [
        | none ↦ (record q { mode = true }, true)
        | some t ↦ (record q { mode = true; name = some t; query = none }, true)
      ]))
    else ok (q, not (get_or line 0 0 == 62))

-- A line of a query: its end, an unexpected '<', or text.
unfoldable pub close_query : Loader → Loader × Bool
close_query q = elim (q.query) [
  | none ↦ (q, false)
  | some text ↦ (
    record {
      items = q.items ++ record { name = q.name; query = text } ∷ [];
      mode = false;
      name = none;
      query = none;
    },
    true,
  )
]

abbrev pub text_of : Option (List ℕ) → List ℕ
text_of none = []
text_of (some text) = text

unfoldable pub query_line : List ℕ → Loader → Loader × Bool
query_line line q =
    if get_or line 0 0 == 62
    then close_query q
    else if get_or line 0 0 == 60
    then (q, false)
    else (record q { query = some (text_of q.query ++ line) }, true)

-- A round of the loop of qlist_load.
unfoldable pub load_line : List ℕ → Loader → Run (Loader × Bool)
load_line line q =
    if is_too_long line
    then ok (q, false)
    else elim (q.mode) [ false ↦ open_query line q | true ↦ ok (query_line line q) ]

-- The loop: the list, and the code.
unfoldable pub load_lines : List (List ℕ) → Loader → Run (List Query × ℤ)
load_lines [] q = ok (q.items, pos 0)
load_lines (line ∷ lines) q = do
  (next, goes_on) ← load_line line q
  elim goes_on [ true ↦ load_lines lines next | false ↦ ok (next.items, negsuc 0) ]

-- qlist_load, on the lines that fgets reads; `none` is a file that cannot be opened.
unfoldable pub qlist_load : Option (List (List ℕ)) → List Query → Run (List Query × ℤ)
qlist_load none items = ok (items, negsuc 0)
qlist_load (some lines) items =
    load_lines lines (record { items = items; mode = false; name = none; query = none })

-- qlist_free
unfoldable pub qlist_free : List Query → List Query
qlist_free items = []

-- query_ptr, with strcasecmp as a test for equality; a name that is NULL is a fault.
unfoldable pub query_ptr :
    (List ℕ → List ℕ → Bool) → List Query → Option (List ℕ) → Run (Option (List ℕ))
query_ptr same_text items none = ok none
query_ptr same_text [] (some name) = ok none
query_ptr same_text (q ∷ items) (some name) = elim (q.name) [
  | none ↦ fault
  | some text ↦ elim (same_text text name) [
    | true ↦ ok (some q.query)
    | false ↦ query_ptr same_text items (some name)
  ]
]

-- What query_cat, dbex_search and dbex_execute have in common: the query by its name, expanded.
unfoldable pub query_expand :
    (List ℕ → List ℕ → Bool)
    → List Query
    → List ℕ
    → ℕ
    → List ℕ
    → List (List ℕ)
    → Run (Option (List ℕ × ℕ))
query_expand same_text items buf size name args = do
  found ← query_ptr same_text items (some name)
  elim found [ none ↦ ok none | some str ↦ (do r ← query_vcatstr buf size str args; ok (some r)) ]

-- query_cat, with `none` for NULL
unfoldable pub query_cat :
    (List ℕ → List ℕ → Bool)
    → List Query
    → Option (List ℕ)
    → ℤ
    → Option (List ℕ)
    → List (List ℕ)
    → Run (Option (List ℕ) × ℤ)
query_cat same_text items (some buf) (pos size) (some name) args =
    if ltb size 2 then ok (some buf, negsuc 0) else (do
      found ← query_expand same_text items buf size name args
      ok (elim found [ none ↦ (some buf, pos 0) | some (b, n) ↦ (some b, pos n) ]))
query_cat same_text items buf size name args = ok (buf, negsuc 0)

-- dbex_execute and dbex_search, with db2_execute and db2_search on the text in the buffer of 65536 bytes.
unfoldable pub dbex_execute :
    (List ℕ → ℤ)
    → (List ℕ → List ℕ → Bool)
    → List Query
    → List ℕ
    → Option (List ℕ)
    → List (List ℕ)
    → Run (List ℕ × ℤ)
dbex_execute execute same_text items buf none args = ok (buf, negsuc 0)
dbex_execute execute same_text items buf (some name) args = do
  found ← query_expand same_text items buf 65536 name args
  ok (elim found [ none ↦ (buf, negsuc 0) | some (b, n) ↦ (b, execute b) ])

unfoldable pub dbex_search :
    {R : Type 0}
    → (List ℕ → Option R)
    → (List ℕ → List ℕ → Bool)
    → List Query
    → List ℕ
    → Option (List ℕ)
    → List (List ℕ)
    → Run (List ℕ × Option R)
dbex_search search same_text items buf none args = ok (buf, none)
dbex_search search same_text items buf (some name) args = do
  found ← query_expand same_text items buf 65536 name args
  ok (elim found [ none ↦ (buf, none) | some (b, n) ↦ (b, search b) ])

-- ===== src/Queries/Loading.antt =====
-- A file of queries that qlist_load reads back.
use rubsd.Prelude.{ℕ, ◌<◌, ◌≡◌, ◌≢◌, false, ◌==◌, List, [], ◌∷◌, ◌++◌, some, length, get_or}
use rubsd.Beelib.Tokens.{AllAre}
use rubsd.Queries.{Query, blanks, is_too_long}

-- A query as it is written: its name, and its lines.
pub record Source : Type 0 where
  pub name : List ℕ
  pub first : List ℕ
  pub more : List (List ℕ)

-- A line of a query that stands for itself: it is short enough, and starts with neither '<' nor '>'.
pub record IsPlain (line : List ℕ) : Type 0 where
  pub short : is_too_long line ≡ false
  pub no_end : (get_or line 0 0 == 62) ≡ false
  pub no_start : (get_or line 0 0 == 60) ≡ false

abbrev pub AllPlain : List (List ℕ) → Type 0
AllPlain [] = Unit {0}
AllPlain (line ∷ lines) = IsPlain line × AllPlain lines

-- A name of one byte at least and 250 at most, none of them a blank, and plain lines.
pub record IsSource (s : Source) : Type 0 where
  pub some_name : s.name ≢ []
  pub clean : AllAre false blanks s.name
  pub short : length s.name < 251
  pub first : IsPlain s.first
  pub more : AllPlain s.more

abbrev pub AllSources : List Source → Type 0
AllSources [] = Unit {0}
AllSources (s ∷ ss) = IsSource s × AllSources ss

-- The lines of a file of queries.
abbrev pub print_query : Source → List (List ℕ) → List (List ℕ)
print_query s rest = (60 ∷ (s.name ++ 10 ∷ [])) ∷ s.first ∷ (s.more ++ ((62 ∷ 10 ∷ []) ∷ rest))

abbrev pub print_queries : List Source → List (List ℕ)
print_queries [] = []
print_queries (s ∷ ss) = print_query s (print_queries ss)

-- The text of lines.
abbrev pub joined : List ℕ → List (List ℕ) → List ℕ
joined text [] = text
joined text (line ∷ lines) = joined (text ++ line) lines

abbrev pub query_of : Source → Query
query_of s = record { name = some s.name; query = joined s.first s.more }

abbrev pub queries_of : List Source → List Query
queries_of [] = []
queries_of (s ∷ ss) = query_of s ∷ queries_of ss

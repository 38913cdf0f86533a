-- ===== src/Queries/Tests.antt =====
-- A query with two places.
use rubsd.Prelude.{ℕ, ◌≡◌, refl, List, [], ◌∷◌, replicate, arith}
use rubsd.Prelude.Run.{fault, Yields}
use rubsd.Queries.{query_vcatstr}
use rubsd.Queries.Filling.{Final, query_vcatstr_lem}
use rubsd.Queries.Overflow.{query_vcatstr-fault}
use rubsd.Queries.Loading.{Source}

-- "a$2$x$1", "bc" and "d"
abbrev text : List ℕ
text = 97 ∷ 36 ∷ 50 ∷ 36 ∷ 120 ∷ 36 ∷ 49 ∷ []

abbrev arguments : List (List ℕ)
arguments = (98 ∷ 99 ∷ []) ∷ (100 ∷ []) ∷ []

query_vcatstr_lem_example :
    Yields
      (Final (97 ∷ 100 ∷ 36 ∷ 120 ∷ 98 ∷ 99 ∷ []))
      (query_vcatstr (replicate 9 7) 8 text arguments)
query_vcatstr_lem_example =
    query_vcatstr_lem arguments 8 (replicate 9 7) text (97 ∷ 100 ∷ 36 ∷ 120 ∷ 98 ∷ 99 ∷ []) refl
      (omega arith) (omega arith)

query_vcatstr-fault_example :
    query_vcatstr (replicate 4 7) 4 (97 ∷ 98 ∷ 99 ∷ 36 ∷ 49 ∷ []) arguments ≡ fault
query_vcatstr-fault_example =
    query_vcatstr-fault arguments (replicate 4 7) (97 ∷ 98 ∷ 99 ∷ []) [] 49
      (refl, (refl, (refl, tt))) refl (omega arith) (omega arith)

abbrev sources : List Source
sources = record { name = 113 ∷ []; first = text; more = text ∷ [] } ∷ []

-- ===== src/Pl/Tests.antt =====
-- Runs of the list functions, and their theorems at concrete lists.
use rubsd.Prelude.{
  ℕ, zero, suc, ◌↔◌, ◌+◌, ◌≤◌, ◌<◌, ◌≡◌, refl, ◌⊎◌, inl, true, [], ◌∷◌, ◌++◌, some, arith,
  length-take, length-append, length-replicate, take, replicate, ltb, ◌==◌,
}
use rubsd.Prelude.Int.{ℤ, pos, negsuc}
use rubsd.Prelude.Run.{ok, fault, Yields}
use rubsd.Prelude.Cells.{read, write, at, at-take, at-append}
use rubsd.Pl.State.{Pl, IsValid, Realloc, IsRealloc, lst_esuccess, lst_einvarg}
use rubsd.Pl.Edit.{minus_one, def_compare, init, add, insert, sinsert, pack}
use rubsd.Pl.Edit.Growing.{AddsOrRefuses, OutOfMemory}
use rubsd.Pl.Edit.Adding.{add_lem}
use rubsd.Pl.Edit.Inserting.{insert_lem, insert_refuses, insert-head}
use rubsd.Pl.Edit.Packing.{IsFresh, Packed, init_lem, pack_lem}
use rubsd.Pl.Edit.Sorted.{sinsert_appends}
use rubsd.Pl.Drop.{delete, exchange, replace, clear, free}
use rubsd.Pl.Drop.Deleting.{
  IsWithout, FrontExchanged, Replaced, delete_lem, exchange_front, replace_lem,
}
use rubsd.Pl.Drop.Clearing.{clear_lem, free-fault}
use rubsd.Pl.Search.{lsearch, bsearch, fentry, lentry}
use rubsd.Pl.Search.Linear.{FirstItem, lsearch_first}
use rubsd.Pl.Search.Binary.{IsOrderedFor, Outcome, bsearch_finds}
use rubsd.Pl.Search.Entries.{FirstEntry, LastEntry, fentry_first, lentry_last}
use rubsd.Pl.Sort.{twice, larger_child, sink, settle, build, drain, hsort}
use rubsd.Pl.Sort.Phases.{Sorted}

-- A `realloc` that always grants, and fills with null pointers.
abbrev pub padded : Realloc
padded a n = some (take n (a ++ replicate n 0))

pub padded-IsRealloc : IsRealloc padded
padded-IsRealloc = record {
  length_of = λ a n b e. ground (
    arith,
    length-take n (a ++ replicate n 0),
    length-append a (replicate n 0),
    length-replicate n (◌+◌ 0 0),
  );
  kept = λ a n b e i p q.
      ground (arith, at-take n (a ++ replicate n 0) i p, at-append a (replicate n 0) i);
}

abbrev pub sample : Pl
sample = record {
  count = 3;
  size = 4;
  delta = 2;
  rc = 0;
  cells = 5 ∷ 3 ∷ 9 ∷ 0 ∷ [];
  dealloc = true;
  freed = [];
}

pub sample-IsValid : IsValid sample
sample-IsValid = omega arith

-- A full list, in descending order, which pl_def_compare wants.
abbrev falling : Pl
falling = record sample { count = 4; cells = 9 ∷ 7 ∷ 7 ∷ 2 ∷ [] }

falling-IsValid : IsValid falling
falling-IsValid = omega arith

hsort-sample : hsort ltb sample ≡ ok (record sample { cells = 3 ∷ 5 ∷ 9 ∷ 0 ∷ [] })
unfolding hsort build read settle sink twice larger_child write drain
hsort-sample = refl

add_lem_run : Yields (AddsOrRefuses padded sample (5 ∷ 3 ∷ 9 ∷ 6 ∷ []) 3) (add padded sample 6)
add_lem_run = add_lem padded padded-IsRealloc sample 6 sample-IsValid (omega arith)

insert_lem_example :
    Yields (AddsOrRefuses padded sample (5 ∷ 6 ∷ 3 ∷ 9 ∷ []) 1) (insert padded sample 6 (pos 1))
insert_lem_example =
    insert_lem padded padded-IsRealloc sample 6 1 sample-IsValid (omega arith) (omega arith)
      (omega arith)

insert-head_example :
    (insert padded sample 6 (pos 0) ≡ fault)
    ⊎ ((k : Pl) × (insert padded sample 6 (pos 0) ≡ ok (k, minus_one))
        × OutOfMemory padded sample k)
insert-head_example = insert-head padded padded-IsRealloc sample 6 sample-IsValid (omega arith)

insert_refuses_example :
    insert padded sample 6 (pos 7) ≡ ok (record sample { rc = lst_einvarg }, minus_one)
insert_refuses_example = insert_refuses padded sample 6 7 (omega arith)

-- A comparison that puts the item before all of the list.
abbrev before_all : Pl → ℕ → ℕ → ℤ
before_all l item m = negsuc 0

sinsert_appends_run :
    Yields
      (AddsOrRefuses padded (record sample { rc = lst_esuccess }) (5 ∷ 3 ∷ 9 ∷ 1 ∷ []) 3)
      (sinsert padded sample 1 before_all)
sinsert_appends_run =
    sinsert_appends padded padded-IsRealloc sample 1 before_all sample-IsValid (omega arith)
      (omega arith) (λ m h. inl refl) (omega arith)

pack_lem_run : Packed padded padded-IsRealloc sample (pack padded sample)
pack_lem_run = pack_lem padded padded-IsRealloc sample sample-IsValid

init_lem_run : (l : Pl) × (init true (pos 5) true ≡ some l) × IsFresh (pos 5) l
init_lem_run = init_lem (pos 5) true

delete_lem_example :
    Yields (λ (r : Pl × ℕ). (r.1 ≡ lst_esuccess) × IsWithout sample 1 r.0) (delete sample (pos 1))
delete_lem_example = delete_lem sample 1 sample-IsValid (omega arith)

exchange_front_run : Yields (FrontExchanged falling) (exchange falling (pos 2) (pos 3))
exchange_front_run =
    exchange_front falling 2 3 falling-IsValid (omega arith) (omega arith) (omega arith)

replace_lem_run : Yields (Replaced sample 8 2) (replace sample 8 (pos 2))
replace_lem_run = replace_lem sample 8 2 sample-IsValid (omega arith)

clear_lem_run :
    clear sample ≡ ok (record sample { count = 0; rc = lst_esuccess; freed = 5 ∷ 3 ∷ 9 ∷ [] })
clear_lem_run = clear_lem sample sample-IsValid

free-fault_run : free sample ≡ fault
free-fault_run = free-fault sample sample-IsValid

lsearch_first_run : Yields (FirstItem sample 9 ◌==◌) (lsearch sample 9 ◌==◌)
lsearch_first_run = lsearch_first sample 9 ◌==◌ sample-IsValid

falling-descends : (i j : ℕ) → i < j → j < 4 → at falling.cells j ≤ at falling.cells i
unfolding at
falling-descends zero zero p q = absurd (omega arith)
falling-descends zero (suc zero) p q = omega arith
falling-descends zero (suc (suc zero)) p q = omega arith
falling-descends zero (suc (suc (suc zero))) p q = omega arith
falling-descends zero (suc (suc (suc (suc j)))) p q = absurd (omega arith)
falling-descends (suc zero) zero p q = absurd (omega arith)
falling-descends (suc zero) (suc zero) p q = absurd (omega arith)
falling-descends (suc zero) (suc (suc zero)) p q = omega arith
falling-descends (suc zero) (suc (suc (suc zero))) p q = omega arith
falling-descends (suc zero) (suc (suc (suc (suc j)))) p q = absurd (omega arith)
falling-descends (suc (suc i)) zero p q = absurd (omega arith)
falling-descends (suc (suc i)) (suc zero) p q = absurd (omega arith)
falling-descends (suc (suc i)) (suc (suc zero)) p q = absurd (omega arith)
falling-descends (suc (suc zero)) (suc (suc (suc zero))) p q = omega arith
falling-descends (suc (suc (suc i))) (suc (suc (suc zero))) p q = absurd (omega arith)
falling-descends (suc (suc i)) (suc (suc (suc (suc j)))) p q = absurd (omega arith)

falling-IsOrderedFor : IsOrderedFor (λ item. def_compare item 7) falling
unfolding def_compare
falling-IsOrderedFor = record {
  neg_after = λ i j p q h. ground (arith, falling-descends i j p q);
  pos_before = λ i j p q h. ground (arith, falling-descends i j p q);
}

equal-agrees : (item : ℕ) → (item == 7 ≡ true) ↔ (def_compare item 7 ≡ pos 0)
unfolding def_compare
equal-agrees item = (λ e. ground arith, λ e. ground arith)

bsearch_finds_example : Yields (Outcome falling 7 def_compare) (bsearch falling 7 def_compare)
bsearch_finds_example =
    bsearch_finds falling 7 def_compare falling-IsValid (omega arith) falling-IsOrderedFor

fentry_first_run : Yields (FirstEntry falling 7 ◌==◌) (fentry falling 7 def_compare ◌==◌)
fentry_first_run =
    fentry_first falling 7 def_compare ◌==◌ falling-IsValid (omega arith) falling-IsOrderedFor
      equal-agrees

lentry_last_run : Yields (LastEntry falling 7 ◌==◌) (lentry falling 7 def_compare ◌==◌)
lentry_last_run =
    lentry_last falling 7 def_compare ◌==◌ falling-IsValid (omega arith) falling-IsOrderedFor
      equal-agrees

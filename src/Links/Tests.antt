-- ===== src/Links/Tests.antt =====
-- A table with one gate, a library for texts of a byte, and the theorems on links.c with them.
use rubsd.Prelude.{
  ℕ, zero, suc, ◌%◌, ◌^◌, ◌<◌, ◌≡◌, refl, inr, Bool, true, false, arith, List, [], ◌∷◌, none, some,
  get_or, ◌++◌, not, ◌&&◌, ◌⊎◌, inl, Bool-cases, if◌then◌else◌,
}
use rubsd.Prelude.Int.{ℤ, pos, negsuc, eq_ℤ, eq_ℤ→eq}
use rubsd.Prelude.Run.{ok, Yields}
use rubsd.Db.Calls.{shared, exclusive}
use rubsd.Links.{Libc, make_addr_mask, mask2bits}
use rubsd.Links.Gates.{Reslink, covers, lookup_baddr, reslink_new, reslink_del}
use rubsd.Links.Masks.{mask2bits-make_addr_mask}
use rubsd.Links.Table.{IsTable, lookup_baddr_finds}
use rubsd.Links.Adding.{HasRoom, IsTable-end}
use rubsd.Links.Keeping.{Keeps, reslink_new-IsTable, Deleted, reslink_del-IsTable}
use rubsd.Links.Accepting.{Accepted, reslink_new_adds}
use rubsd.Links.Loading.{Line}
use rubsd.Links.Loading.Lines.{Loaded}
use rubsd.Links.Files.{GateSystem, reslinks_load, reslinks_save}
use rubsd.Links.Files.Releasing.{
  IsGateSystem, is_locking, reslinks-released, reslinks_load-IsDisjoint,
}

-- The address of a text is its first byte, and so is its number.
abbrev byte_libc : Libc
byte_libc = record {
  is_big_endian = true;
  inet_pton = λ str. elim str [ [] ↦ none | c ∷ more ↦ some (c % 256) ];
  inet_aton = λ str. elim str [ [] ↦ none | c ∷ more ↦ some (c % 256) ];
  inet_ntop = λ addr. addr ∷ [];
  strtol = λ str. pos (get_or str 0 0);
  asprintf = λ str bits. some (str ++ (47 ∷ 28 ∷ []));
  strcasecmp = λ a b. pos 0;
  strstr = λ a b. true;
}

byte_small : (str : List ℕ) (addr : ℕ) → byte_libc.inet_pton str ≡ some addr → addr < 2 ^ 32
byte_small [] addr e = absurd cc
byte_small (c ∷ more) addr e = ground arith

-- 192 with 28 bits, of the inet resource.
abbrev old_gate : Reslink
old_gate = record {
  res_id = pos 0;
  user_id = pos 4;
  accno = pos 1;
  username = 192 ∷ 47 ∷ 28 ∷ [];
  allow = pos 1;
  addr = 192;
  mask = 0xfffffff0;
}

abbrev gates : List Reslink
gates = old_gate ∷ []

abbrev new_name : List ℕ
new_name = 16 ∷ 47 ∷ 28 ∷ []

none_yet : IsTable []
none_yet = record {
  disjoint = λ j k old link below at_j at_k allowed has. absurd cc;
  unique = λ j k a b at_j at_k res user. absurd cc;
}

gates-IsTable : IsTable gates
gates-IsTable =
    IsTable-end [] old_gate none_yet
      (record { above = λ k old at_k same. absurd cc; apart = λ allowed has k old at_k. absurd cc })

gates-HasRoom : HasRoom gates
gates-HasRoom zero link e = let s : old_gate ≡ link = cc in rw (← s) (omega arith)
gates-HasRoom (suc k) link e = absurd cc

covers_200 : covers 200 old_gate ≡ true
unfolding covers
covers_200 = refl

lookup_baddr_finds_run : lookup_baddr gates 200 (negsuc 0) ≡ ok (pos 0, pos 0)
lookup_baddr_finds_run =
    lookup_baddr_finds gates 200 0 old_gate gates-IsTable.disjoint refl refl covers_200

reslink_new-IsTable_example :
    Yields (Keeps gates) (reslink_new byte_libc true true gates (pos 0) (pos 7) new_name)
reslink_new-IsTable_example =
    reslink_new-IsTable byte_libc true true gates 0 (pos 7) new_name byte_small (omega arith)
      gates-HasRoom gates-IsTable

reslink_del-IsTable_example :
    IsTable (reslink_del gates (pos 0)).0 × Deleted gates (pos 0) (reslink_del gates (pos 0))
reslink_del-IsTable_example = reslink_del-IsTable gates (pos 0) gates-IsTable

reslink_new_adds_example :
    Yields
      (Accepted byte_libc gates 0 (pos 7) new_name)
      (reslink_new byte_libc true true gates (pos 0) (pos 7) new_name)
reslink_new_adds_example =
    reslink_new_adds byte_libc gates 0 (pos 7) new_name byte_small (omega arith) gates-HasRoom

mask2bits-make_addr_mask_run : mask2bits false (make_addr_mask false (pos 20)) ≡ pos 20
mask2bits-make_addr_mask_run = mask2bits-make_addr_mask false (pos 20)

-- A line "inet", 1, 2, and the name.
abbrev gate_line : Line
gate_line = record {
  buf = 105 ∷ 110 ∷ 101 ∷ 116 ∷ 32 ∷ 1 ∷ 32 ∷ 2 ∷ 32 ∷ 16 ∷ 47 ∷ 28 ∷ 10 ∷ [];
  calloc = true;
  realloc = true;
}

-- The state is whether the lock is held, by the descriptor 3.
abbrev one_lock : GateSystem Bool
one_lock = record {
  open_lock = λ s. (s, pos 3);
  flock = λ fd tag s. if eq_ℤ fd (pos 3) then (is_locking tag, pos 0) else (s, negsuc 0);
  close_lock = λ fd s. (s && not (eq_ℤ fd (pos 3)), pos 0);
  read_gates = λ s. (s, some (gate_line ∷ gate_line ∷ []));
  close_gates = λ s. (s, pos 0);
  open_temp = λ s. (s, true);
  fprintf = λ text s. (s, pos 1);
  close_temp = λ s. (s, pos 0);
  rename_temp = λ s. (s, pos 0);
  decimal = λ z. 48 ∷ [];
}

abbrev holds : Bool → ℤ → Bool
holds s fd = s && eq_ℤ fd (pos 3)

at_three : (fd : ℤ) → eq_ℤ fd (pos 3) ≡ true → fd ≡ pos 3
at_three fd e = eq_ℤ→eq fd (pos 3) e

one_lock-IsGateSystem : IsGateSystem one_lock holds
one_lock-IsGateSystem = record {
  refused = λ s fd tag e. elim (Bool-cases (eq_ℤ fd (pos 3))) [
    | inl own ↦ let e' = rw own at e in absurd cc
    | inr other ↦ rw other refl
  ];
  taken = λ s fd tag f locks e. elim (Bool-cases (eq_ℤ fd (pos 3))) [
    | inl own ↦ rw (at_three fd own) (ground arith)
    | inr other ↦ let e' = rw other at e in absurd cc
  ];
  released = λ s fd f e. elim (Bool-cases (eq_ℤ fd (pos 3))) [
    | inl own ↦ rw (at_three fd own) (ground arith)
    | inr other ↦ let e' = rw other at e in absurd cc
  ];
  unlocks = λ s fd h. elim (Bool-cases (eq_ℤ fd (pos 3))) [
    | inl own ↦ rw own refl
    | inr other ↦ absurd (ground arith)
  ];
  close_releases = λ s fd f. elim (Bool-cases (eq_ℤ fd (pos 3))) [
    | inl own ↦ rw (at_three fd own) (ground arith)
    | inr other ↦ elim (Bool-cases (eq_ℤ f fd)) [
      | inl same ↦ rw (eq_ℤ→eq f fd same) (ground (arith, other))
      | inr apart ↦ ground (arith, other, apart)
    ]
  ];
  open_keeps = λ s. refl;
  read_keeps = λ s. refl;
  close_gates_keeps = λ s. refl;
  open_temp_keeps = λ s. refl;
  fprintf_keeps = λ s text. refl;
  close_temp_keeps = λ s. refl;
  rename_keeps = λ s. refl;
}

reslinks-released_example :
    let (t, loaded) = reslinks_load one_lock byte_libc exclusive gates false in
    let (u, saved) = reslinks_save one_lock exclusive gates false in
    Yields (λ x. (x.1 ≡ pos 0) ⊎ (x.1 ≡ negsuc 0)) loaded
    × Yields (λ c. Unit {0}) saved
    × ((f : ℤ) → (holds t f ≡ false) × (holds u f ≡ false))
reslinks-released_example =
    reslinks-released one_lock one_lock-IsGateSystem byte_libc false exclusive gates byte_small
      ((0, refl, omega arith), tt) (λ locks f. refl)

reslinks_load-IsDisjoint_example :
    Yields Loaded (reslinks_load one_lock byte_libc shared gates false).1
reslinks_load-IsDisjoint_example =
    reslinks_load-IsDisjoint one_lock byte_libc false shared gates byte_small gates-IsTable.disjoint

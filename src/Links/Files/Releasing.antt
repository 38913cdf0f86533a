-- ===== src/Links/Files/Releasing.antt =====
-- reslinks_load and reslinks_save give back the lock of the gates.
use rubsd.Prelude.{
  ℕ, zero, suc, length, ◌^◌, ◌<◌, ◌≡◌, refl, ◌∙◌, ◌⊎◌, inl, inr, ap, Bool, true, false, not, ◌&&◌,
  ◌||◌, List, [], ◌∷◌, some, arith, if◌then◌else◌, Bool-cases, Option-cases, get_elem?,
}
use rubsd.Prelude.Int.{ℤ, pos, negsuc, eq_ℤ, eq_ℤ→eq, eq_ℤ-refl, ℤ-cases}
use rubsd.Prelude.Run.{Run, ok, fault, out_of_fuel, Yields, value, Yields-value, Yields-weaken}
use rubsd.Base.Env.{M, ◌>>=◌}
use rubsd.Db.Calls.{Lock, shared, exclusive, unlocked}
use rubsd.Links.{Libc}
use rubsd.Links.Gates.{Reslink}
use rubsd.Links.Table.{IsDisjoint}
use rubsd.Links.Loading.{Line, resource_names, load_lines}
use rubsd.Links.Loading.Lines.{Loaded, load_lines-IsDisjoint}
use rubsd.Links.Files.{
  GateSystem, reslinks_lock, reslinks_unlock, take_lock, gives_up, let_go, load_ends, load_file,
  reslinks_load, gate_text, print_links, print_file, save_ends, save_file, reslinks_save, file_head,
}

no_gates : IsDisjoint []
no_gates j k old link below at_j at_k allowed has = absurd cc

abbrev pub is_locking : Lock → Bool
is_locking unlocked = false
is_locking shared = true
is_locking exclusive = true

-- `held s fd` says whether the descriptor holds the lock of the gates. A flock that succeeds takes or
-- releases the lock of its own descriptor, one that fails changes nothing, LOCK_UN on a descriptor that
-- holds the lock succeeds, and a close lets go of what is left. The other calls take no lock.
pub record IsGateSystem {Os : Type 0} (sys : GateSystem Os) (held : Os → ℤ → Bool) : Type 0 where
  pub refused :
      (s : Os) (fd : ℤ) (tag : Lock)
      → (sys.flock fd tag s).1 ≡ negsuc 0
      → held (sys.flock fd tag s).0 ≡ held s
  pub taken :
      (s : Os) (fd : ℤ) (tag : Lock) (f : ℤ)
      → is_locking tag ≡ true
      → eq_ℤ (sys.flock fd tag s).1 (negsuc 0) ≡ false
      → held (sys.flock fd tag s).0 f ≡ (held s f || eq_ℤ f fd)
  pub released :
      (s : Os) (fd f : ℤ)
      → eq_ℤ (sys.flock fd unlocked s).1 (negsuc 0) ≡ false
      → held (sys.flock fd unlocked s).0 f ≡ (held s f && not (eq_ℤ f fd))
  pub unlocks :
      (s : Os) (fd : ℤ) → held s fd ≡ true → eq_ℤ (sys.flock fd unlocked s).1 (negsuc 0) ≡ false
  pub close_releases :
      (s : Os) (fd f : ℤ) → held (sys.close_lock fd s).0 f ≡ (held s f && not (eq_ℤ f fd))
  pub open_keeps : (s : Os) → held (sys.open_lock s).0 ≡ held s
  pub read_keeps : (s : Os) → held (sys.read_gates s).0 ≡ held s
  pub close_gates_keeps : (s : Os) → held (sys.close_gates s).0 ≡ held s
  pub open_temp_keeps : (s : Os) → held (sys.open_temp s).0 ≡ held s
  pub fprintf_keeps : (s : Os) (text : List ℕ) → held (sys.fprintf text s).0 ≡ held s
  pub close_temp_keeps : (s : Os) → held (sys.close_temp s).0 ≡ held s
  pub rename_keeps : (s : Os) → held (sys.rename_temp s).0 ≡ held s

name_at :
    (names : List (List ℕ)) (n : ℕ)
    → n < length names
    → (name : List ℕ) × (get_elem? names n ≡ some name)
name_at [] n below = absurd (omega arith)
name_at (name ∷ names) zero below = (name, refl)
name_at (name ∷ names) (suc n) below = name_at names n (omega arith)

module _ {Os : Type 0} (sys : GateSystem Os) (P : List Reslink × ℤ → Type 0) where
  load_ends-value :
      (fd : ℤ) (x : Run (List Reslink × ℤ)) (s : Os)
      → Yields P x
      → Yields P (load_ends sys fd x s).1
  unfolding load_ends
  load_ends-value fd (ok (links, pos n)) s come = come
  load_ends-value fd (ok (links, negsuc n)) s come = come
  load_ends-value fd fault s come = elim come [ ]
  load_ends-value fd out_of_fuel s come = elim come [ ]

  reslinks_load-value :
      (libc : Libc) (s : Os) (tag : Lock) (links : List Reslink)
      → P (links, negsuc 0)
      → P ([], negsuc 0)
      → ((lines : List Line) → Yields P (load_lines libc [] lines))
      → Yields P (reslinks_load sys libc tag links s).1
  unfolding reslinks_load load_file
  reslinks_load-value libc s tag links given_up not_open come =
      let (t, fd) = take_lock sys tag s in
      elim (Bool-cases (gives_up sys tag fd)) [
        | inl e ↦ rw (reslinks_load, ◌>>=◌, e) (value given_up)
        | inr e ↦
            rw (reslinks_load, ◌>>=◌, e)
              (elim (Option-cases ((sys.read_gates t).1)) [
                | inl f ↦ rw (load_file, ◌>>=◌, f) (value not_open)
                | inr (lines, f) ↦
                    rw (load_file, ◌>>=◌, f)
                      (load_ends-value fd (load_lines libc [] lines) _ (come lines))
              ])
      ]

module _ {Os : Type 0} (sys : GateSystem Os) {held : Os → ℤ → Bool}
    (law : IsGateSystem sys held) where
  -- The locks in `t` are those in `s`, and that of `fd` besides, unless it is -1.
  abbrev Holds : Os → ℤ → Os → Type 0
  Holds s fd t = (f : ℤ) → held t f ≡ (held s f || (not (eq_ℤ fd (negsuc 0)) && eq_ℤ f fd))

  -- A descriptor that holds nothing in `s`, or -1.
  abbrev IsFree : Os → ℤ → Type 0
  IsFree s fd = (eq_ℤ fd (negsuc 0) ≡ true) ⊎ (held s fd ≡ false)

  Holds-later : (s : Os) (fd : ℤ) (t u : Os) → held u ≡ held t → Holds s fd t → Holds s fd u
  Holds-later s fd t u e h f = ap (λ (x : ℤ → Bool). x f) e ∙ h f

  let_go_lem :
      (s : Os) (fd : ℤ) (t : Os)
      → Holds s fd t
      → IsFree s fd
      → (f : ℤ) → held (let_go sys fd t).0 f ≡ held s f
  unfolding let_go reslinks_unlock
  let_go_lem s fd t h free f = elim (Bool-cases (eq_ℤ fd (negsuc 0))) [
    | inl e ↦ rw (let_go, e) (ground (arith, h f))
    | inr e ↦
        let own : held t fd ≡ true = ground (arith, h fd, eq_ℤ-refl fd) in
        let u = (sys.flock fd unlocked t).0 in
        let gone = law.unlocks t fd own in
        rw (let_go, e, reslinks_unlock, gone)
          (elim (Bool-cases (eq_ℤ f fd)) [
            | inl same ↦
                let here : held s f ≡ held s fd = ap (held s) (eq_ℤ→eq f fd same) in
                ground (arith, free, h f, law.close_releases u fd f)
            | inr other ↦ ground (arith, h f, law.close_releases u fd f, law.released t fd f gone)
          ])
  ]

  reslinks_lock_lem :
      (s : Os) (tag : Lock)
      → is_locking tag ≡ true
      → let (t, fd) = reslinks_lock sys tag s in
        ((eq_ℤ fd (negsuc 0) ≡ true) × ((f : ℤ) → held t f ≡ held s f))
        ⊎ ((eq_ℤ fd (negsuc 0) ≡ false) × Holds s fd t)
  unfolding reslinks_lock
  reslinks_lock_lem s tag locks =
      let (t, fd) = sys.open_lock s in
      let opened = λ (f : ℤ). ap (λ (x : ℤ → Bool). x f) (law.open_keeps s) in
      elim (Bool-cases (eq_ℤ fd (negsuc 0))) [
        | inl e ↦ rw e (inl (refl, opened))
        | inr e ↦ elim (Bool-cases (eq_ℤ (sys.flock fd tag t).1 (negsuc 0))) [
          | inl r ↦
              let same = law.refused t fd tag (eq_ℤ→eq _ _ r) in
              rw (e, r) (inl (refl, λ f. ap (λ (x : ℤ → Bool). x f) same ∙ opened f))
          | inr r ↦
              rw (e, r) (inr (e, λ f. ground (arith, e, law.taken t fd tag f locks r, opened f)))
        ]
      ]

  -- Before LOCK_SH and LOCK_EX, no descriptor of this process holds the lock.
  abbrev pub IsReady : Lock → Os → Type 0
  IsReady tag s = is_locking tag ≡ true → (f : ℤ) → held s f ≡ false

  take_lock_lem :
      (s : Os) (tag : Lock)
      → IsReady tag s
      → let (t, fd) = take_lock sys tag s in
        ((gives_up sys tag fd ≡ true) × ((f : ℤ) → held t f ≡ held s f))
        ⊎ ((gives_up sys tag fd ≡ false) × Holds s fd t × IsFree s fd)
  unfolding take_lock gives_up
  take_lock_lem s unlocked ready = inr (refl, (λ f. ground arith), inl refl)
  take_lock_lem s shared ready = elim (reslinks_lock_lem s shared refl) [
    | inl failed ↦ inl failed
    | inr (e, holds) ↦ inr (e, holds, inr (ready refl _))
  ]
  take_lock_lem s exclusive ready = elim (reslinks_lock_lem s exclusive refl) [
    | inl failed ↦ inl failed
    | inr (e, holds) ↦ inr (e, holds, inr (ready refl _))
  ]

  -- When the work behind the lock gives it back, so does the whole.
  around_lem :
      {A : Type 0} (s : Os) (tag : Lock) (given_up : A) (work : ℤ → M Os A)
      → IsReady tag s
      → ((fd : ℤ) (t : Os) → Holds s fd t → IsFree s fd → (f : ℤ) → held (work fd t).0 f ≡ held s f)
      → let (t, fd) = take_lock sys tag s in
        (f : ℤ)
        → held ((if gives_up sys tag fd then (λ u. (u, given_up)) else work fd) t).0 f ≡ held s f
  around_lem s tag given_up work ready done f =
      let (t, fd) = take_lock sys tag s in
      elim (take_lock_lem s tag ready) [
        | inl (e, same) ↦ rw e (same f)
        | inr (e, holds, free) ↦ rw e (done fd t holds free f)
      ]

  load_ends_lem :
      (s : Os) (fd : ℤ) (t : Os) (x : List Reslink × ℤ)
      → Holds s fd t
      → IsFree s fd
      → (f : ℤ) → held (load_ends sys fd (ok x) t).0 f ≡ held s f
  unfolding load_ends
  load_ends_lem s fd t (links, pos n) h free =
      let_go_lem s fd _ (Holds-later s fd t _ (law.close_gates_keeps t) h) free
  load_ends_lem s fd t (links, negsuc n) h free =
      let_go_lem s fd _ (Holds-later s fd t _ (law.close_gates_keeps t) h) free

  load_file_lem :
      (libc : Libc) (s : Os) (fd : ℤ) (t : Os)
      → ((str : List ℕ) (addr : ℕ) → libc.inet_pton str ≡ some addr → addr < 2 ^ 32)
      → Holds s fd t
      → IsFree s fd
      → (f : ℤ) → held (load_file sys libc fd t).0 f ≡ held s f
  unfolding load_file load_ends
  load_file_lem libc s fd t small h free f =
      let (u, file) = sys.read_gates t in
      let reading = Holds-later s fd t u (law.read_keeps t) h in
      elim (Option-cases file) [
        | inl e ↦ rw (◌>>=◌, e) (let_go_lem s fd u reading free f)
        | inr (lines, e) ↦
            let (x, come, _) = Yields-value (load_lines-IsDisjoint libc small [] lines no_gates) in
            rw (◌>>=◌, e, come) (load_ends_lem s fd u x reading free f)
      ]

  -- The gates that reslinks_save can print: those of a known resource.
  abbrev pub AllKnown : List Reslink → Type 0
  AllKnown [] = Unit {0}
  AllKnown (link ∷ links) = ((n : ℕ) × (link.res_id ≡ pos n) × (n < 8)) × AllKnown links

  gate_text_lem :
      (link : Reslink) (n : ℕ)
      → link.res_id ≡ pos n
      → n < 8
      → Yields (λ text. Unit {0}) (gate_text sys link)
  unfolding gate_text
  gate_text_lem link n e below =
      let (name, found) = name_at resource_names n below in rw (gate_text, e, found) (value tt)

  -- The printing comes back, and leaves the locks alone.
  Prints : Os → Os × Run ℤ → Type 0
  Prints s (t, rc) = Yields (λ c. Unit {0}) rc × ((f : ℤ) → held t f ≡ held s f)

  print_links_lem :
      (links : List Reslink) (s : Os) → AllKnown links → Prints s (print_links sys links s)
  unfolding print_links Prints
  print_links_lem [] s known = (value tt, λ f. refl)
  print_links_lem (link ∷ links) s ((n, e, below), known) =
      let (text, done, _) = Yields-value (gate_text_lem link n e below) in
      let printed = λ (f : ℤ). ap (λ (x : ℤ → Bool). x f) (law.fprintf_keeps s text) in
      let (t, rc) = sys.fprintf text s in
      elim (ℤ-cases rc) [
        | inl (m, is_m) ↦
            let (more, kept) = print_links_lem links t known in
            rw (print_links, done, ◌>>=◌, is_m) (more, λ f. kept f ∙ printed f)
        | inr (m, is_m) ↦ rw (print_links, done, ◌>>=◌, is_m) (value tt, printed)
      ]

  print_file_lem :
      (links : List Reslink) (s : Os) → AllKnown links → Prints s (print_file sys links s)
  unfolding print_file Prints
  print_file_lem links s known =
      let printed = λ (f : ℤ). ap (λ (x : ℤ → Bool). x f) (law.fprintf_keeps s file_head) in
      let (t, rc) = sys.fprintf file_head s in
      elim (ℤ-cases rc) [
        | inl (m, is_m) ↦
            let (more, kept) = print_links_lem links t known in
            rw (print_file, ◌>>=◌, is_m) (more, λ f. kept f ∙ printed f)
        | inr (m, is_m) ↦ rw (print_file, ◌>>=◌, is_m) (value tt, printed)
      ]

  -- An end of reslinks_save comes back, without the lock.
  abbrev SaveEnds : Os → Os × Run ℤ → Type 0
  SaveEnds s (t, rc) = Yields (λ c. Unit {0}) rc × ((f : ℤ) → held t f ≡ held s f)

  save_ends_lem :
      (s : Os) (fd : ℤ) (t : Os) (rc : ℤ)
      → Holds s fd t
      → IsFree s fd
      → SaveEnds s (save_ends sys fd (ok rc) t)
  unfolding save_ends
  save_ends_lem s fd t (negsuc n) h free =
      (value tt, let_go_lem s fd _ (Holds-later s fd t _ (law.close_temp_keeps t) h) free)
  save_ends_lem s fd t (pos n) h free =
      let u = (sys.close_temp t).0 in
      let closed = Holds-later s fd t u (law.close_temp_keeps t) h in
      (value tt, let_go_lem s fd _ (Holds-later s fd u _ (law.rename_keeps u) closed) free)

  save_file_lem :
      (links : List Reslink) (s : Os) (fd : ℤ) (t : Os)
      → AllKnown links
      → Holds s fd t
      → IsFree s fd
      → SaveEnds s (save_file sys links fd t)
  unfolding save_file Prints
  save_file_lem links s fd t known h free =
      let u = (sys.open_temp t).0 in
      let opened = Holds-later s fd t u (law.open_temp_keeps t) h in
      elim (Bool-cases (sys.open_temp t).1) [
        | inr e ↦ rw (save_file, ◌>>=◌, e) (value tt, let_go_lem s fd u opened free)
        | inl e ↦
            let (come, kept) = print_file_lem links u known in
            let (rc, done, _) = Yields-value come in
            let v = (print_file sys links u).0 in
            rw (save_file, ◌>>=◌, e, done) (save_ends_lem s fd v rc (λ f. kept f ∙ opened f) free)
      ]

  save_value :
      (tag : Lock) (links : List Reslink) (s : Os)
      → IsReady tag s
      → AllKnown links
      → Yields (λ c. Unit {0}) (reslinks_save sys tag links s).1
  unfolding reslinks_save
  save_value tag links s ready known =
      let (t, fd) = take_lock sys tag s in
      elim (take_lock_lem s tag ready) [
        | inl (e, same) ↦ rw (reslinks_save, ◌>>=◌, e) (value tt)
        | inr (e, holds, free) ↦
            rw (reslinks_save, ◌>>=◌, e) (save_file_lem links s fd t known holds free).0
      ]

  -- reslinks_load and reslinks_save come back, whatever fails of the system's calls, with gates of known
  -- resources to save and addresses of 32 bits from inet_pton. If no descriptor of this process holds
  -- the lock of the gates before LOCK_SH and LOCK_EX, none holds it afterwards, and under LOCK_UN they
  -- leave the locks as they were.
  pub reslinks-released :
      (libc : Libc) (s : Os) (tag : Lock) (links : List Reslink)
      → ((str : List ℕ) (addr : ℕ) → libc.inet_pton str ≡ some addr → addr < 2 ^ 32)
      → AllKnown links
      → (is_locking tag ≡ true → (f : ℤ) → held s f ≡ false)
      → let (t, loaded) = reslinks_load sys libc tag links s in
        let (u, saved) = reslinks_save sys tag links s in
        Yields (λ x. (x.1 ≡ pos 0) ⊎ (x.1 ≡ negsuc 0)) loaded
        × Yields (λ c. Unit {0}) saved
        × ((f : ℤ) → (held t f ≡ held s f) × (held u f ≡ held s f))
  unfolding reslinks_load reslinks_save
  reslinks-released libc s tag links small known ready = (
    reslinks_load-value sys (λ x. (x.1 ≡ pos 0) ⊎ (x.1 ≡ negsuc 0)) libc s tag links (inr refl)
        (inr refl)
        (λ lines. Yields-weaken (load_lines-IsDisjoint libc small [] lines no_gates) (λ x e. e.1)),
    save_value tag links s ready known,
    λ f. (
      around_lem s tag (ok (links, negsuc 0)) (load_file sys libc) ready
          (λ fd t h free. load_file_lem libc s fd t small h free) f,
      around_lem s tag (ok (negsuc 0)) (save_file sys links) ready
          (λ fd t h free. (save_file_lem links s fd t known h free).1) f,
    ),
  )

module _ {Os : Type 0} (sys : GateSystem Os) where
  -- reslinks_load comes back for every file of gates and every failure of the system, with 0 or -1, and
  -- in the table that it leaves an allowed gate has no address in common with the gates before it, if
  -- that was so in the table before.
  pub reslinks_load-IsDisjoint :
      (libc : Libc) (s : Os) (tag : Lock) (links : List Reslink)
      → ((str : List ℕ) (addr : ℕ) → libc.inet_pton str ≡ some addr → addr < 2 ^ 32)
      → IsDisjoint links
      → Yields Loaded (reslinks_load sys libc tag links s).1
  reslinks_load-IsDisjoint libc s tag links small d =
      reslinks_load-value sys Loaded libc s tag links (d, inr refl) (no_gates, inr refl)
        (λ lines. load_lines-IsDisjoint libc small [] lines no_gates)

-- ===== src/Links/Files.antt =====
-- reslinks_load and reslinks_save as a whole, with the lock of the gates, over the calls of the system.
pub mod Releasing
use rubsd.Prelude.{
  ℕ, Bool, true, false, not, List, [], ◌∷◌, ◌++◌, Option, none, some, get_elem?, if◌then◌else◌,
}
use rubsd.Prelude.Int.{ℤ, pos, negsuc, eq_ℤ}
use rubsd.Prelude.Run.{Run, ok, fault, out_of_fuel}
use rubsd.Base.Env.{M, ◌>>=◌, ◌>>◌, return}
use rubsd.Db.Calls.{Lock, shared, exclusive, unlocked}
use rubsd.Links.{Libc}
use rubsd.Links.Gates.{Reslink}
use rubsd.Links.Loading.{Line, resource_names, load_lines}

-- What the system is asked: open and flock of conf_gatelock; fopen of conf_gatefile with the lines that
-- fgets gives until the end, and fclose; fopen, fprintf, fclose and rename of conf_gatetemp. `decimal`
-- is the text of "%d".
pub record GateSystem (Os : Type 0) : Type 0 where
  pub open_lock : M Os ℤ
  pub flock : ℤ → Lock → M Os ℤ
  pub close_lock : ℤ → M Os ℤ
  pub read_gates : M Os (Option (List Line))
  pub close_gates : M Os ℤ
  pub open_temp : M Os Bool
  pub fprintf : List ℕ → M Os ℤ
  pub close_temp : M Os ℤ
  pub rename_temp : M Os ℤ
  pub decimal : ℤ → List ℕ

-- The two lines at the start of the file.
abbrev pub file_head : List ℕ
file_head =
    35 ∷ 32 ∷ 67 ∷ 114 ∷ 101 ∷ 97 ∷ 116 ∷ 101 ∷ 100 ∷ 32 ∷ 98 ∷ 121 ∷ 32 ∷ 98 ∷ 101 ∷ 101 ∷ 10 ∷ 35
    ∷ 9 ∷ 114 ∷ 101 ∷ 115 ∷ 9 ∷ 117 ∷ 105 ∷ 100 ∷ 9 ∷ 97 ∷ 99 ∷ 99 ∷ 9 ∷ 110 ∷ 97 ∷ 109 ∷ 101 ∷ 10
    ∷ []

module _ {Os : Type 0} (sys : GateSystem Os) where
  -- reslinks_lock
  unfoldable pub reslinks_lock : Lock → M Os ℤ
  reslinks_lock locktag = do
    lockfd ← sys.open_lock
    if eq_ℤ lockfd (negsuc 0) then return (negsuc 0) else (do
      rc ← sys.flock lockfd locktag
      return (if eq_ℤ rc (negsuc 0) then negsuc 0 else lockfd))

  -- reslinks_unlock
  unfoldable pub reslinks_unlock : ℤ → M Os ℤ
  reslinks_unlock lockfd = do
    rc ← sys.flock lockfd unlocked
    if eq_ℤ rc (negsuc 0) then return (negsuc 0) else (do sys.close_lock lockfd; return (pos 0))

  -- `fdlock` and `lockfd`: -1 under LOCK_UN, and when the lock fails, which ends the call.
  unfoldable pub take_lock : Lock → M Os ℤ
  take_lock unlocked = return (negsuc 0)
  take_lock locktag = reslinks_lock locktag

  unfoldable pub gives_up : Lock → ℤ → Bool
  gives_up unlocked fdlock = false
  gives_up locktag fdlock = eq_ℤ fdlock (negsuc 0)

  -- `if (fdlock != -1) reslinks_unlock(fdlock)`
  unfoldable pub let_go : ℤ → M Os ℤ
  let_go fdlock = if eq_ℤ fdlock (negsuc 0) then return (pos 0) else reslinks_unlock fdlock

  -- How reslinks_load ends behind fopen: in the loop, when memory is out, or after it.
  unfoldable pub load_ends : ℤ → Run (List Reslink × ℤ) → M Os (Run (List Reslink × ℤ))
  load_ends fdlock fault = return fault
  load_ends fdlock out_of_fuel = return out_of_fuel
  load_ends fdlock (ok (links, negsuc n)) = do
    sys.close_gates
    let_go fdlock
    return (ok (links, negsuc n))
  load_ends fdlock (ok (links, pos n)) = do
    sys.close_gates
    let_go fdlock
    return (ok (links, pos n))

  -- reslinks_load behind the lock, with the old table dropped.
  unfoldable pub load_file : Libc → ℤ → M Os (Run (List Reslink × ℤ))
  load_file libc fdlock = do
    file ← sys.read_gates
    elim file [
      | none ↦ (do let_go fdlock; return (ok ([], negsuc 0)))
      | some lines ↦ load_ends fdlock (load_lines libc [] lines)
    ]

  -- reslinks_load
  unfoldable pub reslinks_load : Libc → Lock → List Reslink → M Os (Run (List Reslink × ℤ))
  reslinks_load libc locktag links = do
    fdlock ← take_lock locktag
    if gives_up locktag fdlock then return (ok (links, negsuc 0)) else load_file libc fdlock

  -- The line of a gate: tabs before the resource, the two numbers and the name.
  unfoldable pub gate_text : Reslink → Run (List ℕ)
  gate_text link = elim (link.res_id) [
    | negsuc n ↦ fault
    | pos n ↦ elim (get_elem? resource_names n) [
      | none ↦ fault
      | some name ↦ ok (
          (9 ∷ name)
          ++ ((9 ∷ sys.decimal link.user_id)
              ++ ((9 ∷ sys.decimal link.accno) ++ ((9 ∷ link.username) ++ (10 ∷ [])))))
    ]
  ]

  -- The loop of reslinks_save, up to the first fprintf that fails.
  unfoldable pub print_links : List Reslink → M Os (Run ℤ)
  unfolding gate_text
  print_links [] = return (ok (pos 0))
  print_links (link ∷ links) = elim (gate_text link) [
    | fault ↦ return fault
    | out_of_fuel ↦ return out_of_fuel
    | ok text ↦ (do
      rc ← sys.fprintf text
      elim rc [ negsuc n ↦ return (ok (negsuc n)) | pos n ↦ print_links links ])
  ]

  -- How reslinks_save ends behind fopen, with the answer to the last fprintf.
  unfoldable pub save_ends : ℤ → Run ℤ → M Os (Run ℤ)
  save_ends lockfd fault = return fault
  save_ends lockfd out_of_fuel = return out_of_fuel
  save_ends lockfd (ok (negsuc n)) = do sys.close_temp; let_go lockfd; return (ok (negsuc 0))
  save_ends lockfd (ok (pos n)) = do
    sys.close_temp
    sys.rename_temp
    let_go lockfd
    return (ok (pos 0))

  -- The two lines at the start and, if they are written, the gates.
  unfoldable pub print_file : List Reslink → M Os (Run ℤ)
  print_file links = do
    rc ← sys.fprintf file_head
    elim rc [ negsuc n ↦ return (ok (negsuc n)) | pos n ↦ print_links links ]

  -- reslinks_save behind the lock.
  unfoldable pub save_file : List Reslink → ℤ → M Os (Run ℤ)
  save_file links lockfd = do
    opened ← sys.open_temp
    if not opened
        then (do let_go lockfd; return (ok (negsuc 0)))
        else (do printed ← print_file links; save_ends lockfd printed)

  -- reslinks_save
  unfoldable pub reslinks_save : Lock → List Reslink → M Os (Run ℤ)
  reslinks_save locktag links = do
    lockfd ← take_lock locktag
    if gives_up locktag lockfd then return (ok (negsuc 0)) else save_file links lockfd

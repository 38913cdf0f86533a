-- ===== src/Acc/State/Storing.antt =====
-- An account that is written reads back.
use rubsd.Prelude.{ℕ, ◌≡◌, refl, ◌≢◌, ap, Option, some, true, false, arith}
use rubsd.Prelude.Int.{ℤ, eq_ℤ, eq_ℤ-refl}
use rubsd.Base.Env.{Double, Store, System, Handle, success, acc_broken}
use rubsd.Base.Record.{Acc, is_broken}
use rubsd.Base.Laws.{IsStore, IgnoresCrc}
use rubsd.Acc.State.{balance_state, check, acci_get, stamped, acci_put}

module _ (d : Double) where
  -- With its CRC and number right, and no mark, an account is not called broken, and is kept.
  check-intact :
      (crc ctime rec : ℤ) (acc : Acc d)
      → is_broken acc.tag ≡ false
      → eq_ℤ acc.crc crc ≡ true
      → eq_ℤ acc.accno rec ≡ true
      → ((check d crc ctime rec acc).0 ≢ acc_broken) × ((check d crc ctime rec acc).1 ≡ acc)
  unfolding check balance_state
  check-intact crc ctime rec acc b c n = (ground arith, ground arith)

  module _ {Os : Type 0} (sys : System Os) (store : Store Os (Acc d))
      {content : Os → ℕ → ℤ → Option (Acc d)} (law : IsStore sys store content) where
    -- What a call of acci_put that succeeds has done.
    pub acci_put_lem :
        (base : Handle) (rec : ℤ) (acc : Acc d) (s : Os)
        → let (t, (rc, out)) = acci_put d sys store base rec acc s in
          rc ≡ success
          → (out ≡ stamped d sys store (sys.time s).1 acc)
            × (eq_ℤ acc.accno rec ≡ true)
            × (content t base.fd rec ≡ some out)
    unfolding acci_put
    acci_put_lem base rec acc s h =
        let now = sys.time s in
        let out = stamped d sys store now.1 acc in
        let put = store.put base.fd rec out now.0 in
        let kept =
          ap (λ (c : ℕ → ℤ → Option (Acc d)). c base.fd rec) (law.sync_keeps put.0 base.fd) in
        ground
          (arith, law.put_code now.0 base.fd rec out, law.put_stores now.0 base.fd rec out, kept)

    module _ (ignores : IgnoresCrc d store) where
      stamped-sealed :
          (now : ℤ) (acc : Acc d)
          → is_broken acc.tag ≡ false
          → let out = stamped d sys store now acc in
            (eq_ℤ out.crc (store.checksum out) ≡ true)
            × (is_broken out.tag ≡ false)
            × (out.accno ≡ acc.accno)
      unfolding stamped
      stamped-sealed now acc b =
          let fresh : Acc d = record acc { upd_time = now } in
          let same = ignores fresh (store.checksum fresh) in
          rw (b, same) (eq_ℤ-refl (store.checksum fresh), b, refl)

      -- An account without the mark of a broken one that acci_put has written, when acci_get can read
      -- it, is the one written but for its time of change and its CRC, and is not called broken.
      pub acci_get-acci_put :
          (base : Handle) (rec : ℤ) (acc buf : Acc d) (s : Os)
          → is_broken acc.tag ≡ false
          → (acci_put d sys store base rec acc s).1.0 ≡ success
          → (store.get base.fd rec buf (sys.time (acci_put d sys store base rec acc s).0).0).1.0
            ≡ success
          → let (u, (code, got)) =
              acci_get d sys store base rec buf (acci_put d sys store base rec acc s).0 in
            (code ≢ acc_broken) × (got ≡ stamped d sys store (sys.time s).1 acc)
      unfolding acci_get
      acci_get-acci_put base rec acc buf s b h r =
          let (t, (rc, out)) = acci_put d sys store base rec acc s in
          let now = sys.time t in
          let (same, number, stored) = acci_put_lem base rec acc s h in
          let loaded = law.get_loads now.0 base.fd rec buf r in
          let kept = ap (λ (c : ℕ → ℤ → Option (Acc d)). c base.fd rec) (law.time_keeps t) in
          let out' = stamped d sys store (sys.time s).1 acc in
          let read : (store.get base.fd rec buf now.0).1.1 ≡ out' = cc in
          let (crc, mark, no_change) = stamped-sealed (sys.time s).1 acc b in
          let intact =
            check-intact (store.checksum out') now.1 rec out' mark crc (rw no_change number) in
          rw (r, read) intact

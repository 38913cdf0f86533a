-- ===== src/Acc/Trans/Refusing.antt =====
-- acc_trans where there is nothing to charge.
use rubsd.Prelude.{ℕ, ◌≡◌, ap, ◌∙◌, ◌⊎◌, inl, inr, true, false, Option, some, arith, if◌then◌else◌}
use rubsd.Prelude.Int.{ℤ, pos, is_neg}
use rubsd.Base.Env.{Double, Store, System, Handle, success, not_found, io_error}
use rubsd.Base.Record.{Acc, IsData, Logrec, is_deleted, is_broken, is_frozen}
use rubsd.Base.Laws.{IsStore}
use rubsd.Acc.State.{check, acci_get, baselock}
use rubsd.Acc.Trans.{
  writes_back, logs_balance, charged, retry_get, charge, log_trans, entry_of, trans,
}
use rubsd.Acc.Trans.Charging.{retry_get_lem, retry_get-step, charge-eq}

module _ (d : Double) where
  -- An account that acc_trans must leave alone.
  abbrev pub IsMarked : Acc d → Type 0
  IsMarked acc =
      (is_deleted acc.tag ≡ true) ⊎ (is_broken acc.tag ≡ true) ⊎ (is_frozen acc.tag ≡ true)

  IsMarked-stays :
      (crc ctime rec : ℤ) (acc : Acc d)
      → IsMarked acc
      → writes_back (check d crc ctime rec acc).0 ≡ false
  unfolding check writes_back
  IsMarked-stays crc ctime rec acc m = ground arith

  unread_stays : (rc : ℤ) → (rc ≡ not_found) ⊎ (rc ≡ io_error) → writes_back rc ≡ false
  unfolding writes_back
  unread_stays rc e = ground arith

  module _ {Os : Type 0} (sys : System Os) (accs : Store Os (Acc d))
      {content : Os → ℕ → ℤ → Option (Acc d)} (law : IsStore sys accs content) where
    open d use {D}

    -- The account's part of acc_trans changes no account when the one asked for is marked as
    -- deleted, broken or frozen.
    pub charge_keeps :
        (base : Handle) (rec : ℤ) (sum : D) (uninit acc : Acc d) (s : Os)
        → content s base.fd rec ≡ some acc
        → IsMarked acc
        → content (charge d sys accs base rec sum uninit s).0 ≡ content s
    charge_keeps base rec sum uninit acc s there m =
        let (t, (rc, a)) = retry_get d sys accs 3 base rec (success, uninit) s in
        let (loaded, kept) =
          retry_get_lem d sys accs law 3 base rec (success, uninit) s (λ z. absurd (omega arith)) in
        let stays : writes_back rc ≡ false = elim loaded [
          | inl (a', ctime, c, e) ↦
              let found : a' ≡ acc = cc in
              ap (λ (r : ℤ × Acc d). writes_back r.0) e
              ∙ ap (λ (x : Acc d). writes_back (check d (accs.checksum x) ctime rec x).0) found
              ∙ IsMarked-stays (accs.checksum acc) ctime rec acc m
          | inr e ↦ unread_stays rc e
        ] in
        rw (charge-eq d sys accs law base rec sum uninit s, stays) kept

    -- An account that the file does not have: the code is NOT_FOUND, and the record that acc_trans
    -- goes on with is the one that it never loaded.
    charge_missing :
        (base : Handle) (rec : ℤ) (sum : D) (uninit : Acc d) (s : Os)
        → (accs.get base.fd rec uninit (sys.time s).0).1.0 ≡ not_found
        → (charge d sys accs base rec sum uninit s).1 ≡ (not_found, d.zero_sum, uninit)
    unfolding acci_get writes_back logs_balance charged
    charge_missing base rec sum uninit s e =
        let kept = law.get_misses (sys.time s).0 base.fd rec uninit e in
        let got : (acci_get d sys accs base rec uninit s).1 ≡ (not_found, uninit) =
          rw e (ap (λ (x : Acc d). (not_found, x)) kept) in
        let tried : (retry_get d sys accs 3 base rec (success, uninit) s).1 ≡ (not_found, uninit) =
          ground (arith, retry_get-step d sys accs law 2 base rec (success, uninit) s, got) in
        ground (arith, charge-eq d sys accs law base rec sum uninit s, tried)

    -- The file has no such account when acc_trans looks for it.
    abbrev pub IsMissing : Handle → ℤ → Acc d → Os → Type 0
    IsMissing base rec uninit s = (accs.get base.fd rec uninit (sys.time s).0).1.0 ≡ not_found

    -- The log's part of acc_trans for such an account.
    abbrev pub log_missing :
        Store Os (Logrec d)
        → Logrec d
        → Handle
        → ℤ
        → D
        → Acc d
        → Option IsData
        → Handle
        → Os
        → Os × ℤ
    log_missing logs buf base rec sum uninit isdata logbase s =
        let now = sys.time (baselock sys base s).0 in
        log_trans d sys logs logbase (entry_of d now.1 rec sum isdata not_found d.zero_sum) buf
          (charge d sys accs base rec sum uninit now.0).0

    -- When the account base can be locked, the file has no such account, and the entry gets logged,
    -- acc_trans answers with the state of a balance that it never loaded.
    pub trans_missing :
        (logs : Store Os (Logrec d)) (uninit : Acc d) (buf : Logrec d) (base : Handle) (rec : ℤ)
        (sum : D) (isdata : Option IsData) (logbase : Handle) (s : Os)
        → is_neg (baselock sys base s).1 ≡ false
        → IsMissing base rec uninit (sys.time (baselock sys base s).0).0
        → is_neg (log_missing logs buf base rec sum uninit isdata logbase s).1 ≡ false
        → (trans d sys accs logs uninit buf base rec sum isdata logbase s).1
          ≡ (if d.lt uninit.balance d.cent then pos 1 else pos 0)
    unfolding trans
    trans_missing logs uninit buf base rec sum isdata logbase s locked missing logged =
        let now = sys.time (baselock sys base s).0 in
        let out = charge_missing base rec sum uninit now.0 missing in rw (locked, out, logged)

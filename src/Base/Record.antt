-- ===== src/Base/Record.antt =====
-- `acc_t`, `is_data_t` and `logrec_t`. The fields that C keeps for later use stay out, as the
-- checksum, a parameter, covers a record as a whole.
use rubsd.Prelude.{ℕ, Bool, ◌+◌, ◌/◌, ◌%◌, ◌==◌, if◌then◌else◌}
use rubsd.Prelude.Int.{ℤ}
use rubsd.Base.Env.{Double}

-- The bits of `tag`: ATAG_DELETED to ATAG_UNLIMIT, by their place.
abbrev pub has_bit : ℕ → ℕ → Bool
has_bit weight tag = tag / weight % 2 == 1

abbrev pub is_deleted : ℕ → Bool
is_deleted = has_bit 1

abbrev pub is_broken : ℕ → Bool
is_broken = has_bit 2

abbrev pub is_frozen : ℕ → Bool
is_frozen = has_bit 4

abbrev pub is_off : ℕ → Bool
is_off = has_bit 8

abbrev pub is_unlimit : ℕ → Bool
is_unlimit = has_bit 16

pub record IsData : Type 0 where
  pub res_id : ℤ
  pub user_id : ℤ
  pub value : ℕ
  pub proto_id : ℤ
  pub host : ℕ
  pub proto2 : ℤ

module _ (d : Double) where
  open d use {D}

  pub record Acc : Type 0 where
    pub tag : ℕ
    pub accno : ℤ
    pub balance : D
    pub start : ℤ
    pub stop : ℤ
    pub tariff : ℤ
    pub summ_rsttime : ℤ
    pub inet_summ_in : ℤ
    pub money_summ : D
    pub inet_summ_out : ℤ
    pub res_balance : ℤ
    pub tcredit : D
    pub res_tcredit : ℤ
    pub upd_time : ℤ
    pub crc : ℤ

  pub record Logrec : Type 0 where
    pub time : ℤ
    pub accno : ℤ
    pub sum : D
    pub isdata : IsData
    pub balance : D
    pub serrno : ℤ
    pub crc : ℤ

-- `tag |= ATAG_BROKEN`
abbrev pub set_broken : ℕ → ℕ
set_broken tag = if is_broken tag then tag else tag + 2

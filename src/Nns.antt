-- ===== src/Nns.antt =====
-- The name service (nns/nns_contract.go, nns/namestate.go and nns/recordtype.go): domain names as
-- tokens, and records for them. Names are checked in Nns.Names and Nns.Addresses; the tokens are in
-- Nns.Tokens, the records in Nns.Records, and the methods in Nns.Methods.
pub mod Names
pub mod Addresses
pub mod Tokens
pub mod Records
pub mod Registration
pub mod Methods
pub mod Fragments
pub mod Domains
pub mod Frames
pub mod Ownership
pub mod Transfers
pub mod Quiet
pub mod Checks
pub mod Taking
use frostfs_contract.Prelude.{
  Bool, ◌==◌, ℕ, ◌-◌, ◌/◌, Option, none, some, List, [], ◌∷◌, ◌++◌, length, if◌then◌else◌,
}
use frostfs_contract.Prelude.Int.{ℤ, pos, leb_ℤ}
use frostfs_contract.Prelude.Bytes.{Bytes}
use frostfs_contract.Host.Storage.{Vm, Env}
use frostfs_contract.Host.Exec.{Exec, done, panic, require}

pub record NameState : Type 0 where
  pub owner : Bytes
  pub name : Bytes
  pub expiration : ℤ
  -- none for nil
  pub admin : Option Bytes

-- `RecordType`, a byte, and its constants
abbrev pub RecordType : Type 0
RecordType = ℕ

abbrev pub type_a : RecordType
type_a = 1

abbrev pub type_cname : RecordType
type_cname = 5

abbrev pub type_soa : RecordType
type_soa = 6

abbrev pub type_txt : RecordType
type_txt = 16

abbrev pub type_aaaa : RecordType
type_aaaa = 28

pub record RecordState : Type 0 where
  pub name : Bytes
  pub type : RecordType
  pub data_text : Bytes
  pub id : ℕ

abbrev pub is_valid : Bytes → Bool
is_valid address = length address == 20

-- The prefixes of the cells.
abbrev pub total_supply_key : Bytes
total_supply_key = 0x00 ∷ []

abbrev pub balance_key : Bytes → Bytes
balance_key account = 0x01 ∷ account

abbrev pub price_key : Bytes
price_key = 0x10 ∷ []

abbrev pub root_key : Bytes → Bytes
root_key root = 0x20 ∷ root

module _ ⦃vm : Vm⦄ where
  -- `getTokenKey`
  abbrev pub token_key : Bytes → Bytes
  token_key token_id = vm.ripemd160 token_id

  abbrev pub account_token_key : Bytes → Bytes → Bytes
  account_token_key account token_id = 0x02 ∷ (account ++ token_key token_id)

  -- the cell of the state of a name
  abbrev pub name_key : Bytes → Bytes
  name_key token_id = 0x21 ∷ token_key token_id

  -- `getRecordsKey`, `getRecordsKeyByType` and `getIdRecordKey`
  unfoldable pub records_key : Bytes → Bytes → Bytes
  records_key token_id name = 0x22 ∷ (token_key token_id ++ token_key name)

  unfoldable pub records_key_by_type : Bytes → Bytes → RecordType → Bytes
  unfolding records_key
  records_key_by_type token_id name type = records_key token_id name ++ type ∷ []

  unfoldable pub id_record_key : Bytes → Bytes → RecordType → ℕ → Bytes
  unfolding records_key
  id_record_key token_id name type id = records_key token_id name ++ type ∷ id ∷ []

module _ ⦃vm : Vm⦄ (env : Env) where
  unfoldable pub ensure_not_expired : NameState → Exec Unit
  ensure_not_expired ns =
      if leb_ℤ ns.expiration (pos env.time) then panic "name has expired" else done

  unfoldable pub check_admin : NameState → Exec Unit
  check_admin ns = if env.check_witness ns.owner then done else elim ns.admin [
    | none ↦ panic "not witnessed by admin"
    | some admin ↦ require (env.check_witness admin) "not witnessed by admin"
  ]

  -- `neo.GetCommittee` and the multisignature account are never nil here
  unfoldable pub check_committee : Exec Unit
  check_committee =
      require
        (env.check_witness (
          vm.create_multisig_account (length env.committee - (length env.committee - 1) / 2)
            env.committee))
        "not witnessed by committee"

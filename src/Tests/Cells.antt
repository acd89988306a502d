-- ===== src/Tests/Cells.antt =====
-- What the cells of the tests' storage hold, by its type.
use frostfs_contract.Prelude.{Bool, Option, none, some, List}
use frostfs_contract.Prelude.Int.{ℤ}
use frostfs_contract.Prelude.Bytes.{Bytes}
use frostfs_contract.Host.Storage.{Ballot}
use frostfs_contract.Balance.{Account}
use frostfs_contract.Netmap.{Node}
use frostfs_contract.Container.{Container, ExtendedAcl}
use frostfs_contract.Container.Estimations.{Estimation}
use frostfs_contract.Nns.{NameState, RecordState}

pub data Cell : Type 0 where
  flag_cell : Bool → Cell
  number_cell : ℤ → Cell
  raw_cell : Bytes → Cell
  keys_cell : List Bytes → Cell
  ballots_cell : List Ballot → Cell
  account_cell : Account → Cell
  node_cell : Node → Cell
  map_cell : List Node → Cell
  container_cell : Container → Cell
  acl_cell : ExtendedAcl → Cell
  estimation_cell : Estimation → Cell
  epochs_cell : List ℤ → Cell
  name_cell : NameState → Cell
  record_cell : RecordState → Cell

abbrev pub as_flag : Option Cell → Option Bool
as_flag (some (flag_cell x)) = some x
as_flag _ = none

abbrev pub as_number : Option Cell → Option ℤ
as_number (some (number_cell x)) = some x
as_number _ = none

abbrev pub as_raw : Option Cell → Option Bytes
as_raw (some (raw_cell x)) = some x
as_raw _ = none

abbrev pub as_keys : Option Cell → Option (List Bytes)
as_keys (some (keys_cell x)) = some x
as_keys _ = none

abbrev pub as_ballots : Option Cell → Option (List Ballot)
as_ballots (some (ballots_cell x)) = some x
as_ballots _ = none

abbrev pub as_account : Option Cell → Option Account
as_account (some (account_cell x)) = some x
as_account _ = none

abbrev pub as_node : Option Cell → Option Node
as_node (some (node_cell x)) = some x
as_node _ = none

abbrev pub as_map : Option Cell → Option (List Node)
as_map (some (map_cell x)) = some x
as_map _ = none

abbrev pub as_container : Option Cell → Option Container
as_container (some (container_cell x)) = some x
as_container _ = none

abbrev pub as_acl : Option Cell → Option ExtendedAcl
as_acl (some (acl_cell x)) = some x
as_acl _ = none

abbrev pub as_estimation : Option Cell → Option Estimation
as_estimation (some (estimation_cell x)) = some x
as_estimation _ = none

abbrev pub as_epochs : Option Cell → Option (List ℤ)
as_epochs (some (epochs_cell x)) = some x
as_epochs _ = none

abbrev pub as_name : Option Cell → Option NameState
as_name (some (name_cell x)) = some x
as_name _ = none

abbrev pub as_record : Option Cell → Option RecordState
as_record (some (record_cell x)) = some x
as_record _ = none

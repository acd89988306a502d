-- ===== src/Audit.antt =====
-- The audit contract (audit/audit_contract.go): results of audits, under keys that are made of the
-- epoch, the container and the node that each result names.
pub mod Header
pub mod Access
use frostfs_contract.Prelude.{
  ℕ, ◌+◌, Bool, Option, none, some, List, [], ◌∷◌, ◌++◌, ◌==◌, ◌&&◌, ◌||◌, leb, if◌then◌else◌,
  length, take, drop,
}
use frostfs_contract.Prelude.Int.{ℤ}
use frostfs_contract.Prelude.Bytes.{Bytes, codes, bytes_equal, slice}
use frostfs_contract.Host.Storage.{Vm, Env, Arg}
use frostfs_contract.Host.Exec.{Exec, pure, require, or_fault, put, read, ◌>>=◌, ◌>>◌}
use frostfs_contract.Common.Ir.{inner_ring_nodes_from_netmap}
use frostfs_contract.Common.Version.{check_version, update_version}
use frostfs_contract.Common.Vote.{contains}
use frostfs_contract.Common.Quorum.{notary_key}

pub record AuditHeader : Type 0 where
  pub epoch : ℤ
  pub cid : Bytes
  pub from : Bytes

-- `maxKeySize`
abbrev pub max_key_size : ℕ
max_key_size = 24

abbrev pub netmap_key : Bytes
netmap_key = codes "netmapScriptHash"

-- The first argument of `_deploy`.
pub data DeployData : Type 0 where
  initial : Bool → Bytes → DeployData
  upgrade : List Arg → DeployData

-- `input[from:]`, which faults out of range
abbrev pub slice_from : Bytes → ℕ → Option Bytes
slice_from input from = if leb from (length input) then some (drop from input) else none

-- the data behind a length of one byte, and how far to go on
unfoldable pub read_next : Bytes → Option (Bytes × ℕ)
read_next [] = none
read_next (ln ∷ rest) = elim (slice rest 0 ln) [ none ↦ none | some next ↦ some (next, 1 + ln) ]

-- the container and the node behind the epoch
unfoldable pub read_fields : Bytes → Option (Bytes × Bytes)
unfolding read_next
read_fields input = elim (slice_from input 3) [
  | none ↦ none
  | some first ↦ elim (read_next first) [
    | none ↦ none
    | some (cid, cid_offset) ↦ elim (slice_from input (3 + cid_offset + 1)) [
      | none ↦ none
      | some second ↦ elim (read_next second) [ none ↦ none | some (key, _) ↦ some (cid, key) ]
    ]
  ]
]

module _ ⦃vm : Vm⦄ where
  -- the header at an offset
  unfoldable pub header_at : Bytes → ℕ → Option AuditHeader
  unfolding read_fields
  header_at input offset = elim (slice input offset 8) [
    | none ↦ none
    | some buf ↦ elim (slice_from input (offset + 8)) [
      | none ↦ none
      | some rest ↦ elim (read_fields rest) [
        | none ↦ none
        | some (cid, key) ↦ some (record { epoch = vm.bytes_to_int buf; cid = cid; from = key })
      ]
    ]
  ]

  unfoldable pub new_audit_header : Bytes → Option AuditHeader
  unfolding header_at
  new_audit_header (first ∷ offset ∷ rest) = header_at (first ∷ offset ∷ rest) (2 + offset + 1)
  new_audit_header _ = none

  -- `ID`
  unfoldable pub header_id : AuditHeader → Bytes
  header_id a = vm.int_to_bytes a.epoch ++ (a.cid ++ take max_key_size (vm.sha256 a.from))

  unfoldable pub deploy : DeployData → Exec Unit
  deploy (upgrade args) = or_fault (update_version args) >>= check_version
  deploy (initial notary_disabled addr_netmap) = do
    require (length addr_netmap == 20) "incorrect length of contract script hash"
    put vm.raw netmap_key addr_netmap
    put vm.flags notary_key notary_disabled

  -- `Get`
  unfoldable pub get_result : Bytes → Exec Bytes
  get_result id = read vm.raw id

  -- the loop of `list` over the keys that were found
  unfoldable pub result_ids : List (Bytes × vm.Value) → List Bytes
  result_ids [] = []
  result_ids ((key, _) ∷ rest) =
      let others = result_ids rest in
      if bytes_equal key netmap_key || bytes_equal key notary_key then others else key ∷ others

  -- `List`, `ListByEpoch`, `ListByCID` and `ListByNode`, each for its prefix
  unfoldable pub list_results : Bytes → Exec (List Bytes)
  unfolding result_ids
  list_results prefix s = pure (result_ids (vm.find s.storage prefix)) s

  unfoldable pub list_all : Exec (List Bytes)
  unfolding list_results
  list_all = list_results []

  unfoldable pub list_by_epoch : ℤ → Exec (List Bytes)
  unfolding list_results
  list_by_epoch epoch = list_results (vm.int_to_bytes epoch)

  unfoldable pub list_by_cid : ℤ → Bytes → Exec (List Bytes)
  unfolding list_results
  list_by_cid epoch cid = list_results (vm.int_to_bytes epoch ++ cid)

  unfoldable pub list_by_node : ℤ → Bytes → Bytes → Exec (List Bytes)
  unfolding list_results header_id
  list_by_node epoch cid key =
      list_results (header_id (record { epoch = epoch; cid = cid; from = key }))

module _ ⦃vm : Vm⦄ (env : Env) where
  -- the nodes that may save results
  unfoldable pub result_nodes : Exec (List Bytes)
  result_nodes = do
    notary_disabled ← read vm.flags notary_key
    if notary_disabled
        then (read vm.raw netmap_key >>= λ addr. inner_ring_nodes_from_netmap env addr)
        else pure env.designated

  -- `Put`
  unfoldable pub put_result : Bytes → Exec Unit
  unfolding result_nodes new_audit_header header_id
  put_result raw_audit_result = do
    inner_ring ← result_nodes
    hdr ← or_fault (new_audit_header raw_audit_result)
    require (env.check_witness hdr.from && contains inner_ring hdr.from) "put access denied"
    put vm.raw (header_id hdr) raw_audit_result

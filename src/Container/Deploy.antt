-- ===== src/Container/Deploy.antt =====
-- How the container contract is deployed (container/container_contract.go, `_deploy`): its cells are
-- filled and the top-level domain of the containers' aliases is registered, or on an update the cells
-- of earlier versions move under their prefixes.
use frostfs_contract.Prelude.{◌+◌, Bool, List, [], ◌∷◌, ◌==◌, ◌&&◌, if◌then◌else◌, length}
use frostfs_contract.Prelude.Int.{pos}
use frostfs_contract.Prelude.Bytes.{Bytes, codes}
use frostfs_contract.Host.Storage.{Vm, Env, Arg, int, bytes, text}
use frostfs_contract.Host.Exec.{
  Exec, ok, done, require, or_fault, put, call_contract, query_contract, ◌>>=◌, ◌>>◌,
}
use frostfs_contract.Host.Reply.{as_flag}
use frostfs_contract.Common.Version.{check_version, update_version}
use frostfs_contract.Common.Vote.{init_vote}
use frostfs_contract.Common.Quorum.{notary_key}
use frostfs_contract.Container.{container_id_size, owner_id_size, container_key, owner_key}
use frostfs_contract.Container.Estimations.{netmap_key}

abbrev pub frostfs_id_key : Bytes
frostfs_id_key = codes "identityScriptHash"

abbrev pub balance_contract_key : Bytes
balance_contract_key = codes "balanceScriptHash"

abbrev pub nns_key : Bytes
nns_key = codes "nnsScriptHash"

abbrev pub nns_root_key : Bytes
nns_root_key = codes "nnsRoot"

-- the default fields of an SOA record: refresh, retry, expire and the time to live
abbrev pub soa_defaults : List Arg
soa_defaults = int (pos 3600) ∷ int (pos 600) ∷ int (pos 315360000) ∷ int (pos 3600) ∷ []

-- the first arguments of `register` of the name service are a name, this contract and a mail address
abbrev pub register_args : Env → Bytes → List Arg
register_args env name =
    bytes name ∷ bytes env.executing_script_hash ∷ text "ops@nspcc.ru" ∷ soa_defaults

pub record DeployArgs : Type 0 where
  pub notary_disabled : Bool
  pub addr_netmap : Bytes
  pub addr_balance : Bytes
  pub addr_id : Bytes
  pub addr_nns : Bytes
  pub nns_root : Bytes

-- The first argument of `_deploy`.
pub data DeployData : Type 0 where
  initial : DeployArgs → DeployData
  upgrade : List Arg → DeployData

module _ ⦃vm : Vm⦄ where
  -- a cell moves under a prefix, and its value stays as it is
  unfoldable pub move_cell : Bytes → Bytes → vm.Value → Exec Unit
  move_cell from to v s = ok (tt, record s { storage = vm.put (vm.delete s.storage from) to v })

  -- the body of the loop over all cells on an update
  unfoldable pub migrate_cell : Bytes → vm.Value → Exec Unit
  unfolding move_cell
  migrate_cell k v = do
    if length k == container_id_size then move_cell k (container_key k) v else done
    if length k == owner_id_size + container_id_size then move_cell k (owner_key k) v else done

  unfoldable pub migrate_cells : List (Bytes × vm.Value) → Exec Unit
  unfolding migrate_cell
  migrate_cells [] = done
  migrate_cells ((k, v) ∷ rest) = migrate_cell k v >> migrate_cells rest

module _ ⦃vm : Vm⦄ (env : Env) where
  unfoldable pub register_nice_name_tld : Bytes → Bytes → Exec Unit
  register_nice_name_tld addr_nns nns_root = do
    available ← query_contract env addr_nns "isAvailable" (text "container" ∷ [])
    is_avail ← as_flag available
    if is_avail
        then (do
          reply ← call_contract env addr_nns "register" (register_args env nns_root)
          res ← as_flag reply
          require res "can't register NNS TLD")
        else done

  unfoldable pub deploy : DeployData → Exec Unit
  unfolding migrate_cells register_nice_name_tld
  deploy (upgrade args) = do
    from ← or_fault (update_version args)
    check_version from
    λ s. migrate_cells (vm.find s.storage []) s
  deploy (initial args) = do
    require
        ((length args.addr_netmap == 20)
          && (length args.addr_balance == 20)
          && (length args.addr_id == 20))
        "incorrect length of contract script hash"
    put vm.raw netmap_key args.addr_netmap
    put vm.raw balance_contract_key args.addr_balance
    put vm.raw frostfs_id_key args.addr_id
    put vm.raw nns_key args.addr_nns
    put vm.raw nns_root_key args.nns_root
    put vm.flags notary_key args.notary_disabled
    if args.notary_disabled then init_vote else done
    register_nice_name_tld args.addr_nns args.nns_root

-- ===== src/Container/Aliases.antt =====
-- The names of containers in the name service (container/container_contract.go): the aliases that
-- `PutNamed` makes and `Delete` takes away.
use frostfs_contract.Prelude.{
  Bool, true, false, Option, none, some, List, [], ◌∷◌, ◌++◌, if◌then◌else◌,
}
use frostfs_contract.Prelude.Int.{pos}
use frostfs_contract.Prelude.Bytes.{Bytes, codes, bytes_equal}
use frostfs_contract.Host.Storage.{Vm, Env, Arg, null, int, bytes}
use frostfs_contract.Host.Exec.{
  Exec, pure, done, require, or_fault, get, put, delete, read, call_contract, query_contract, ◌>>=◌,
  ◌>>◌,
}
use frostfs_contract.Host.Reply.{as_flag, as_bytes, as_list}
use frostfs_contract.Common.Ir.{committee_address}
use frostfs_contract.Common.Quorum.{is_empty}
use frostfs_contract.Container.Deploy.{nns_key, nns_root_key, register_args}

abbrev pub alias_key : Bytes → Bytes
alias_key container_id = codes "nnsHasAlias" ++ container_id

abbrev pub is_null : Arg → Bool
is_null null = true
is_null _ = false

abbrev pub first_of : List Bytes → Option Bytes
first_of [] = none
first_of (b ∷ bs) = some b

-- `TXT` of the name service
abbrev pub txt : Arg
txt = int (pos 16)

-- what `PutNamed` finds out about the alias: the empty domain stands for no alias
pub record Alias : Type 0 where
  pub nns_addr : Bytes
  pub domain : Bytes
  pub need_register : Bool

module _ ⦃vm : Vm⦄ (env : Env) where
  unfoldable pub check_nice_name_available : Bytes → Bytes → Exec Bool
  check_nice_name_available nns_addr domain = do
    available ← query_contract env nns_addr "isAvailable" (bytes domain ∷ [])
    is_avail ← as_flag available
    if is_avail then pure true else (do
      reply ← query_contract env nns_addr "ownerOf" (bytes domain ∷ [])
      owner ← as_bytes reply
      require
          (if bytes_equal owner (committee_address env)
            then true
            else bytes_equal owner env.executing_script_hash)
          "committee or container contract must own registered domain"
      res ← query_contract env nns_addr "getRecords" (bytes domain ∷ txt ∷ [])
      require (is_null res) "name is already taken"
      pure false)

  unfoldable pub find_alias : Bytes → Bytes → Exec Alias
  unfolding check_nice_name_available
  find_alias name zone =
      if is_empty name
      then pure (record { nns_addr = []; domain = []; need_register = false })
      else (do
        root ← if is_empty zone then read vm.raw nns_root_key else pure zone
        nns_addr ← read vm.raw nns_key
        need ← check_nice_name_available nns_addr (name ++ codes "." ++ root)
        pure (record {
          nns_addr = nns_addr;
          domain = name ++ codes "." ++ root;
          need_register = need;
        }))

  -- the alias of a new container
  unfoldable pub add_alias : Bytes → Alias → Exec Unit
  add_alias container_id alias = do
    if alias.need_register
        then (do
          reply ← call_contract env alias.nns_addr "register" (register_args env alias.domain)
          res ← as_flag reply
          require res "can't register the domain")
        else done
    call_contract env alias.nns_addr "addRecord"
        (bytes alias.domain ∷ txt ∷ bytes (vm.base58 container_id) ∷ [])
    put vm.raw (alias_key container_id) alias.domain

  -- the alias of a container that is deleted
  unfoldable pub remove_alias : Bytes → Exec Unit
  remove_alias container_id = do
    cell ← get (alias_key container_id)
    domain ← elim cell [ none ↦ pure [] | some raw ↦ or_fault (vm.raw.cast (some raw)) ]
    if is_empty domain then done else (do
      delete (alias_key container_id)
      nns_addr ← read vm.raw nns_key
      res ← query_contract env nns_addr "getRecords" (bytes domain ∷ txt ∷ [])
      if is_null res then done else (do
        records ← as_list res
        record_data ← or_fault (first_of records)
        if bytes_equal (vm.base58 container_id) record_data
            then (do call_contract env nns_addr "deleteRecords" (bytes domain ∷ txt ∷ []); done)
            else done))

-- ===== src/Container/Methods.antt =====
-- The methods of the container contract that an alphabet node or the multisignature of the alphabet
-- must invoke (container/container_contract.go).
use frostfs_contract.Prelude.{Bool, not, none, some, String, List, [], ◌∷◌, if◌then◌else◌, length}
use frostfs_contract.Prelude.Int.{ℤ, ◌+ℤ◌, ltb_ℤ, scale_ℤ}
use frostfs_contract.Prelude.Bytes.{Bytes, codes}
use frostfs_contract.Host.Storage.{Vm, Env, Codec, Arg, int, bytes, text, list}
use frostfs_contract.Host.Exec.{
  Exec, pure, done, require, or_fault, put, read, notify, call_contract, query_contract, ◌>>=◌,
  ◌>>◌,
}
use frostfs_contract.Host.Reply.{as_int}
use frostfs_contract.Common.Ir.{inner_ring_invoker, check_alphabet_witness, alphabet_address}
use frostfs_contract.Common.Transfer.{wallet_to_script_hash, container_fee_transfer_details}
use frostfs_contract.Common.Vote.{invoke_id, from_known_contract}
use frostfs_contract.Common.Quorum.{notary_key, is_empty, collect_votes, by_nodes}
use frostfs_contract.Container.{
  Container, ExtendedAcl, not_found, eacl_key, field_behind_version, owner_from_binary_container,
  add_container, remove_container, get_owner_by_id, get_eacl,
}
use frostfs_contract.Container.Estimations.{netmap_key, cleanup_containers}
use frostfs_contract.Container.Deploy.{frostfs_id_key, balance_contract_key}
use frostfs_contract.Container.Aliases.{Alias, find_alias, add_alias, remove_alias}

-- what `PutNamed` finds out before its guard
pub record Charge : Type 0 where
  pub frostfs_id_addr : Bytes
  pub balance_addr : Bytes
  pub container_fee : ℤ
  pub alias : Alias

module _ ⦃vm : Vm⦄ (env : Env) where
  -- The guard of the methods that only notify the alphabet where no node of it has signed; behind
  -- it, the rest of the method.
  unfoldable pub by_alphabet : Bool → String → List Arg → Bytes → Exec Unit → Exec Unit
  unfolding collect_votes alphabet_address
  by_alphabet notary_disabled event args id action =
      if notary_disabled
      then (if is_empty (inner_ring_invoker env env.committee)
          then notify event args
          else collect_votes env env.committee (inner_ring_invoker env env.committee) id action)
      else (check_alphabet_witness env (alphabet_address env) >> action)

  -- a fee in the configuration of the netmap contract
  unfoldable pub fee : Bytes → String → Exec ℤ
  fee netmap_addr key = do
    reply ← query_contract env netmap_addr "config" (text key ∷ [])
    as_int reply

  -- the part of `PutNamed` before its guard, for an owner: the addresses, the alias and the fee, which
  -- the balance of the owner must cover for every alphabet node
  unfoldable pub quote : Bytes → Bytes → Bytes → Exec Charge
  unfolding find_alias fee
  quote owner name zone = do
    frostfs_id_addr ← read vm.raw frostfs_id_key
    alias ← find_alias env name zone
    netmap_addr ← read vm.raw netmap_key
    balance_addr ← read vm.raw balance_contract_key
    registration_fee ← fee netmap_addr "ContainerFee"
    reply ← query_contract env balance_addr "balanceOf" (bytes (wallet_to_script_hash owner) ∷ [])
    balance ← as_int reply
    container_fee ←
        if is_empty name
        then pure registration_fee
        else (fee netmap_addr "ContainerAliasFee" >>= λ alias_fee.
            pure (registration_fee +ℤ alias_fee))
    require (not (ltb_ℤ balance (scale_ℤ container_fee (length env.committee))))
        "insufficient balance to create container"
    pure (record {
      frostfs_id_addr = frostfs_id_addr;
      balance_addr = balance_addr;
      container_fee = container_fee;
      alias = alias;
    })

  -- the loop that pays every alphabet node
  unfoldable pub pay_alphabet : Bytes → Bytes → ℤ → Bytes → List Bytes → Exec Unit
  pay_alphabet balance_addr from container_fee details [] = done
  pay_alphabet balance_addr from container_fee details (node ∷ alphabet) = do
    call_contract env balance_addr "transferX" (
        bytes from
        ∷ bytes (vm.create_standard_account node)
        ∷ int container_fee
        ∷ bytes details
        ∷ [])
    pay_alphabet balance_addr from container_fee details alphabet

  -- the end of `PutNamed`, behind `addContainer`
  unfoldable pub finish_container : Bytes → Bytes → Container → Bytes → Alias → Exec Unit
  unfolding add_alias
  finish_container id owner cnr frostfs_id_addr alias = do
    if is_empty alias.domain then done else add_alias env id alias
    if is_empty cnr.token
        then (call_contract env frostfs_id_addr "addKey" (bytes owner ∷ list (cnr.key ∷ []) ∷ [])
            >>= λ reply. done)
        else done
    notify "PutSuccess" (bytes id ∷ bytes cnr.key ∷ [])

  -- `NewEpoch`
  unfoldable pub new_epoch : ℤ → Exec Unit
  unfolding cleanup_containers
  new_epoch epoch = do
    notary_disabled ← read vm.flags notary_key
    if notary_disabled
        then (do
          indirect_call ← from_known_contract env.calling_script_hash netmap_key
          require indirect_call "method must be invoked by inner ring")
        else check_alphabet_witness env (alphabet_address env)
    cleanup_containers epoch

  unfoldable pub start_container_estimation : ℤ → Exec Unit
  start_container_estimation epoch =
      by_nodes env env.committee "method must be invoked by inner ring"
        (invoke_id (vm.int_to_bytes epoch ∷ []) (codes "startEstimation"))
        (notify "StartEstimation" (int epoch ∷ []))

  unfoldable pub stop_container_estimation : ℤ → Exec Unit
  stop_container_estimation epoch =
      by_nodes env env.committee "method must be invoked by inner ring"
        (invoke_id (vm.int_to_bytes epoch ∷ []) (codes "stopEstimation"))
        (notify "StopEstimation" (int epoch ∷ []))

module _ ⦃vm : Vm⦄ ⦃containers : Codec vm.Value Container⦄ (env : Env) where
  -- `PutNamed` behind its guard
  unfoldable pub store_container : Bytes → Bytes → Container → Bytes → Bytes → ℤ → Alias → Exec Unit
  unfolding finish_container add_container pay_alphabet
  store_container id owner cnr frostfs_id_addr balance_addr container_fee alias = do
    pay_alphabet env balance_addr (wallet_to_script_hash owner) container_fee
        (container_fee_transfer_details id) env.committee
    add_container id owner cnr
    finish_container env id owner cnr frostfs_id_addr alias

  unfoldable pub put_named : Container → Bytes → Bytes → Exec Unit
  unfolding by_alphabet quote store_container
  put_named cnr name zone = do
    notary_disabled ← read vm.flags notary_key
    owner ← or_fault (owner_from_binary_container cnr.value)
    charge ← quote env owner name zone
    by_alphabet env notary_disabled "containerPut"
        (bytes cnr.value ∷ bytes cnr.sig ∷ bytes cnr.key ∷ bytes cnr.token ∷ [])
        (invoke_id (cnr.value ∷ cnr.sig ∷ cnr.key ∷ []) (codes "put"))
        (store_container (vm.sha256 cnr.value) owner cnr charge.frostfs_id_addr charge.balance_addr
          charge.container_fee charge.alias)

  -- `Put`
  unfoldable pub put_method : Container → Exec Unit
  unfolding put_named
  put_method cnr = put_named cnr [] []

  -- `Delete` behind its guard
  unfoldable pub erase_container : Bytes → Bytes → Exec Unit
  unfolding remove_alias remove_container
  erase_container id owner = do
    remove_alias env id
    remove_container id owner
    notify "DeleteSuccess" (bytes id ∷ [])

  -- `Delete`
  unfoldable pub delete_method : Bytes → Bytes → Bytes → Exec Unit
  unfolding by_alphabet get_owner_by_id erase_container
  delete_method id signature token = do
    notary_disabled ← read vm.flags notary_key
    found ← get_owner_by_id id
    elim found [
      | none ↦ done
      | some owner ↦
          by_alphabet env notary_disabled "containerDelete"
            (bytes id ∷ bytes signature ∷ bytes token ∷ [])
            (invoke_id (id ∷ signature ∷ []) (codes "delete")) (erase_container id owner)
    ]

module _ ⦃vm : Vm⦄ ⦃containers : Codec vm.Value Container⦄ ⦃acls : Codec vm.Value ExtendedAcl⦄ where
  -- `SetEACL`
  unfoldable pub set_eacl : Env → ExtendedAcl → Exec Unit
  unfolding by_alphabet get_owner_by_id field_behind_version
  set_eacl env rule = do
    notary_disabled ← read vm.flags notary_key
    id ← or_fault (field_behind_version rule.value 32)
    found ← get_owner_by_id id
    elim found [
      | none ↦ not_found
      | some owner ↦
          by_alphabet env notary_disabled "setEACL"
            (bytes rule.value ∷ bytes rule.sig ∷ bytes rule.key ∷ bytes rule.token ∷ [])
            (invoke_id (rule.value ∷ []) (codes "setEACL"))
            (put acls (eacl_key id) rule
              >> notify "SetEACLSuccess" (bytes id ∷ bytes rule.key ∷ []))
    ]

  -- `EACL`
  unfoldable pub eacl : Bytes → Exec ExtendedAcl
  unfolding get_owner_by_id get_eacl
  eacl container_id = do
    found ← get_owner_by_id container_id
    elim found [ none ↦ not_found | some owner ↦ get_eacl container_id ]

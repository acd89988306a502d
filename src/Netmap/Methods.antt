-- ===== src/Netmap/Methods.antt =====
-- The methods of the netmap contract (netmap/netmap_contract.go).
use frostfs_contract.Prelude.{
  ℕ, zero, suc, Bool, not, Option, none, some, List, [], ◌∷◌, ◌++◌, ◌&&◌, ◌==◌, if◌then◌else◌,
  length,
}
use frostfs_contract.Prelude.Int.{ℤ, pos, ◌+ℤ◌, leb_ℤ, mod_ℤ}
use frostfs_contract.Prelude.Bytes.{Bytes, codes, slice}
use frostfs_contract.Host.Storage.{Vm, Env, Codec, int, bytes}
use frostfs_contract.Host.Exec.{
  Exec, pure, panic, done, require, or_fault, get, put, read, notify, call_contract, ◌>>=◌, ◌>>◌,
}
use frostfs_contract.Common.Ir.{
  inner_ring_invoker, check_alphabet_witness, check_witness, alphabet_address,
}
use frostfs_contract.Common.Version.{check_version}
use frostfs_contract.Common.Vote.{init_vote, invoke_id}
use frostfs_contract.Common.Quorum.{notary_key, is_empty, collect_votes, by_nodes}
use frostfs_contract.Netmap.{
  Node, online, get_config, set_config, add_to_netmap, update_candidate_state, get_netmap_nodes,
  filter_netmap,
}
use frostfs_contract.Netmap.Snapshots.{
  count_key, current_key, epoch_key, block_key, snapshot_key, get_snapshot_count,
}

abbrev pub inner_ring_key : Bytes
inner_ring_key = codes "innerring"

abbrev pub balance_key : Bytes
balance_key = codes "balanceScriptHash"

abbrev pub container_key : Bytes
container_key = codes "containerScriptHash"

-- The arguments of `_deploy`.
pub record DeployArgs : Type 0 where
  pub notary_disabled : Bool
  pub addr_balance : Bytes
  pub addr_container : Bytes
  pub keys : List Bytes
  pub config : List Bytes
  pub version : ℤ

module _ ⦃vm : Vm⦄ where
  -- the loop over the pairs of a configuration list; a list of odd length panics before it
  unfoldable pub set_configs : List Bytes → Exec Unit
  unfolding set_config
  set_configs [] = done
  set_configs (key ∷ []) = panic "bad configuration"
  set_configs (key ∷ val ∷ config) = set_config key val >>= λ _. set_configs config

  -- `keysID`
  unfoldable pub keys_id : List Bytes → Bytes → Bytes
  keys_id [] result = vm.sha256 result
  keys_id (key ∷ keys) result = keys_id keys (result ++ key)

  -- `getIRNodes`, which `InnerRingList` returns
  unfoldable pub inner_ring_list : Exec (List Bytes)
  inner_ring_list = do
    cell ← get inner_ring_key
    elim cell [ none ↦ pure [] | some v ↦ or_fault (vm.key_lists.cast (some v)) ]

  unfoldable pub update_inner_ring : Env → List Bytes → Exec Unit
  unfolding keys_id
  update_inner_ring env keys =
      by_nodes env env.committee "this method must be invoked by alphabet nodes"
        (keys_id keys (codes "updateIR")) (put vm.key_lists inner_ring_key keys)

  unfoldable pub epoch : Exec ℤ
  epoch = read vm.numbers epoch_key

  unfoldable pub last_epoch_block : Exec ℤ
  last_epoch_block = read vm.numbers block_key

  unfoldable pub config : Bytes → Exec (Option vm.Value)
  unfolding get_config
  config key = get_config key

  unfoldable pub set_config_method : Env → Bytes → Bytes → Bytes → Exec Unit
  unfolding set_config
  set_config_method env id key val =
      by_nodes env env.committee "invoked by non inner ring node" id (set_config key val)

  -- the clean up routines of the other contracts
  unfoldable pub cleanup : Env → ℤ → Exec Unit
  cleanup env epoch = do
    balance_addr ← read vm.raw balance_key
    call_contract env balance_addr "newEpoch" (int epoch ∷ [])
    container_addr ← read vm.raw container_key
    call_contract env container_addr "newEpoch" (int epoch ∷ [])
    done

module _ ⦃vm : Vm⦄ ⦃node_codec : Codec vm.Value Node⦄ (env : Env) where
  -- the candidate that a descriptor stands for, with its key in the bytes from 2 to 35
  abbrev pub candidate : Bytes → Node
  candidate node_info = record { blob = node_info; state = online }

  unfoldable pub add_peer_ir : Bytes → Exec Unit
  add_peer_ir node_info = do
    notary_disabled ← read vm.flags notary_key
    require (not notary_disabled) "AddPeerIR should only be called in notary-enabled environment"
    check_alphabet_witness env (alphabet_address env)
    public_key ← or_fault (slice node_info 2 33)
    add_to_netmap public_key (candidate node_info)

  unfoldable pub add_peer : Bytes → Exec Unit
  add_peer node_info = do
    notary_disabled ← read vm.flags notary_key
    public_key ← or_fault (slice node_info 2 33)
    if not notary_disabled
        then check_witness env public_key
        else if is_empty (inner_ring_invoker env env.committee)
        then (check_witness env public_key >> notify "AddPeer" (bytes node_info ∷ []))
        else (or_fault (vm.raw.cast (some (node_codec.encode (candidate node_info))))
            >>= λ raw_candidate.
                collect_votes env env.committee (inner_ring_invoker env env.committee)
                  (vm.sha256 raw_candidate) (add_to_netmap public_key (candidate node_info)))

  unfoldable pub update_state : ℤ → Bytes → Exec Unit
  update_state state public_key = do
    require (length public_key == 33) "incorrect public key"
    notary_disabled ← read vm.flags notary_key
    if notary_disabled
        then (if is_empty (inner_ring_invoker env env.committee)
            then (check_witness env public_key
                >> notify "UpdateState" (int state ∷ bytes public_key ∷ []))
            else collect_votes env env.committee (inner_ring_invoker env env.committee)
                (invoke_id (vm.int_to_bytes state ∷ public_key ∷ []) (codes "update"))
                (update_candidate_state public_key state))
        else (check_witness env public_key
            >> (check_alphabet_witness env (alphabet_address env)
                >> update_candidate_state public_key state))

  unfoldable pub update_state_ir : ℤ → Bytes → Exec Unit
  update_state_ir state public_key = do
    notary_disabled ← read vm.flags notary_key
    require (not notary_disabled)
        "UpdateStateIR should only be called in notary-enabled environment"
    check_alphabet_witness env (alphabet_address env)
    update_candidate_state public_key state

  unfoldable pub netmap_candidates : Exec (List Node)
  unfolding get_netmap_nodes
  netmap_candidates = get_netmap_nodes

module _ ⦃vm : Vm⦄ ⦃node_codec : Codec vm.Value Node⦄ ⦃map_codec : Codec vm.Value (List Node)⦄
    (env : Env) where
  -- the part of `NewEpoch` that changes the storage, behind its guard
  unfoldable pub tick : ℤ → Exec Unit
  unfolding filter_netmap get_snapshot_count
  tick epoch_num = do
    current_epoch ← read vm.numbers epoch_key
    require (not (leb_ℤ epoch_num current_epoch)) "invalid epoch"
    data_online_state ← filter_netmap
    put vm.numbers epoch_key epoch_num
    put vm.numbers block_key (pos env.current_index)
    current ← read vm.numbers current_key
    count ← get_snapshot_count
    id ← or_fault (mod_ℤ (current +ℤ pos 1) count)
    put vm.numbers current_key id
    put map_codec (snapshot_key id) data_online_state

  unfoldable pub new_epoch : ℤ → Exec Unit
  unfolding tick cleanup
  new_epoch epoch_num =
      by_nodes env env.committee "this method must be invoked by inner ring nodes"
        (invoke_id (vm.int_to_bytes epoch_num ∷ []) (codes "epoch"))
        (tick epoch_num >> (cleanup env epoch_num >> notify "NewEpoch" (int epoch_num ∷ [])))

  -- the loop of `_deploy` over the snapshots
  unfoldable pub put_snapshots : ℕ → ℤ → Exec Unit
  put_snapshots zero i = done
  put_snapshots (suc n) i = put map_codec (snapshot_key i) [] >>= λ _. put_snapshots n (i +ℤ pos 1)

  -- the part of `_deploy` that only a first deployment runs
  unfoldable pub initialize : DeployArgs → Exec Unit
  unfolding put_snapshots
  initialize args = do
    require (length args.addr_balance == 20 && length args.addr_container == 20)
        "incorrect length of contract script hash"
    put vm.numbers count_key (pos 10)
    put vm.numbers epoch_key (pos 0)
    put vm.numbers block_key (pos 0)
    put_snapshots 10 (pos 0)
    put vm.numbers current_key (pos 0)
    put vm.raw balance_key args.addr_balance
    put vm.raw container_key args.addr_container
    put vm.flags notary_key args.notary_disabled
    if args.notary_disabled then (put vm.key_lists inner_ring_key args.keys >> init_vote) else done

  unfoldable pub deploy : DeployArgs → Bool → Exec Unit
  unfolding set_configs initialize
  deploy args is_update = do
    set_configs args.config
    if is_update then check_version args.version else initialize args

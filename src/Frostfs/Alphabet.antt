-- ===== src/Frostfs/Alphabet.antt =====
-- The methods of the frostfs contract that keep its alphabet, its candidates and its configuration
-- (frostfs/frostfs_contract.go).
use frostfs_contract.Prelude.{
  Bool, true, false, not, Option, none, some, String, List, [], ◌∷◌, ◌++◌, ◌==◌, if◌then◌else◌,
  length, map, drop,
}
use frostfs_contract.Prelude.Bytes.{Bytes, codes}
use frostfs_contract.Host.Storage.{Vm, Env, Arg, bytes, list}
use frostfs_contract.Host.Exec.{
  Exec, pure, panic, done, require, or_fault, get, put, delete, read, notify, call_contract, ◌>>=◌,
  ◌>>◌,
}
use frostfs_contract.Common.Ir.{inner_ring_invoker, multiaddress, check_alphabet_witness}
use frostfs_contract.Common.Version.{check_version, update_version, append_version}
use frostfs_contract.Common.Vote.{init_vote}
use frostfs_contract.Common.Quorum.{notary_key, is_empty, collect_votes}
use frostfs_contract.Frostfs.{
  config_prefix, alphabet_key, candidates_key, processing_key, get_alphabet_nodes, set_config,
}

-- The arguments of `_deploy`.
pub data DeployData : Type 0 where
  initial : Bool → Bytes → List Bytes → List Bytes → DeployData
  upgrade : List Arg → DeployData

-- Every key of a list is 33 bytes long.
abbrev pub are_public_keys : List Bytes → Bool
are_public_keys [] = true
are_public_keys (key ∷ keys) = if length key == 33 then are_public_keys keys else false

module _ ⦃vm : Vm⦄ where
  -- the pairs of the configuration list of `_deploy`
  unfoldable pub set_configs : List Bytes → Exec Unit
  unfolding set_config
  set_configs [] = done
  set_configs (key ∷ []) = panic "bad configuration"
  set_configs (key ∷ val ∷ config) = set_config key val >>= λ _. set_configs config

  unfoldable pub deploy : DeployData → Exec Unit
  unfolding set_configs
  deploy (upgrade args) = or_fault (update_version args) >>= check_version
  deploy (initial notary_disabled addr_proc keys config) = do
    require (not (length keys == 0)) "at least one alphabet key must be provided"
    require (length addr_proc == 20) "incorrect length of contract script hash"
    require (are_public_keys keys) "incorrect public key length"
    put vm.key_lists alphabet_key keys
    put vm.raw processing_key addr_proc
    put vm.flags notary_key notary_disabled
    if notary_disabled then init_vote else done
    set_configs config

  -- `AlphabetAddress`
  unfoldable pub alphabet_address : Exec Bytes
  unfolding get_alphabet_nodes multiaddress
  alphabet_address = do nodes ← get_alphabet_nodes; pure (multiaddress nodes false)

  -- `InnerRingCandidates`
  unfoldable pub inner_ring_candidates : Exec (List Bytes)
  inner_ring_candidates s =
      pure
        (map (λ (e : Bytes × vm.Value). drop (length candidates_key) e.0)
          (vm.find s.storage candidates_key))
        s

  -- `ListConfig`
  unfoldable pub list_config : Exec (List (Bytes × vm.Value))
  list_config s =
      pure
        (map (λ (e : Bytes × vm.Value). (drop (length config_prefix) e.0, e.1))
          (vm.find s.storage config_prefix))
        s

module _ ⦃vm : Vm⦄ (env : Env) where
  unfoldable pub update : Bytes → Bytes → Option (List Arg) → Exec Unit
  unfolding multiaddress append_version
  update script manifest args = do
    check_alphabet_witness env (multiaddress env.designated true)
    call_contract env env.management_hash "update"
        (bytes script ∷ bytes manifest ∷ append_version args)
    done

  -- the end of `InnerRingCandidateRemove`
  unfoldable pub remove_candidate : Bytes → Exec Unit
  remove_candidate key = do
    cell ← get (candidates_key ++ key)
    elim cell [ none ↦ done | some _ ↦ delete (candidates_key ++ key) ]

  abbrev not_candidate_or_alphabet : String
  not_candidate_or_alphabet = "this method must be invoked by candidate or alphabet"

  unfoldable pub inner_ring_candidate_remove : Bytes → Exec Unit
  unfolding remove_candidate get_alphabet_nodes multiaddress
  inner_ring_candidate_remove key = do
    notary_disabled ← read vm.flags notary_key
    if env.check_witness key
        then remove_candidate key
        else (get_alphabet_nodes >>= λ alphabet.
            if notary_disabled
            then (require (not (is_empty (inner_ring_invoker env alphabet)))
                  not_candidate_or_alphabet
                >> collect_votes env alphabet (inner_ring_invoker env alphabet)
                    (vm.sha256 (key ++ codes "delete")) (remove_candidate key))
            else (require (env.check_witness (multiaddress alphabet false))
                  not_candidate_or_alphabet
                >> remove_candidate key))

  -- `Bind` and `Unbind`
  unfoldable pub bind_keys : String → Bytes → List Bytes → Exec Unit
  bind_keys event user keys = do
    require (env.check_witness user) "you should be the owner of the wallet"
    require (are_public_keys keys) "incorrect public key size"
    notify event (bytes user ∷ list keys ∷ [])

  unfoldable pub bind : Bytes → List Bytes → Exec Unit
  unfolding bind_keys
  bind user keys = bind_keys "Bind" user keys

  unfoldable pub unbind : Bytes → List Bytes → Exec Unit
  unfolding bind_keys
  unbind user keys = bind_keys "Unbind" user keys

  unfoldable pub alphabet_update : Bytes → List Bytes → Exec Unit
  unfolding get_alphabet_nodes
  alphabet_update id args = do
    notary_disabled ← read vm.flags notary_key
    require (not (length args == 0)) "bad arguments"
    alphabet ← get_alphabet_nodes
    if notary_disabled
        then require (not (is_empty (inner_ring_invoker env alphabet)))
            "this method must be invoked by alphabet"
        else check_alphabet_witness env (multiaddress alphabet false)
    require (are_public_keys args) "invalid public key in alphabet list"
    if notary_disabled
        then collect_votes env alphabet (inner_ring_invoker env alphabet) id (
            put vm.key_lists alphabet_key args
            >> notify "AlphabetUpdate" (bytes id ∷ list args ∷ []))
        else (put vm.key_lists alphabet_key args
            >> notify "AlphabetUpdate" (bytes id ∷ list args ∷ []))

  -- the end of `SetConfig`
  unfoldable pub store_config : Bytes → Bytes → Bytes → Exec Unit
  unfolding set_config
  store_config id key val =
      set_config key val >> notify "SetConfig" (bytes id ∷ bytes key ∷ bytes val ∷ [])

  -- `SetConfig`, which tests the length of `key` where the other methods test that of the node
  unfoldable pub set_config_method : Bytes → Bytes → Bytes → Exec Unit
  unfolding store_config get_alphabet_nodes
  set_config_method id key val = do
    notary_disabled ← read vm.flags notary_key
    alphabet ← get_alphabet_nodes
    if notary_disabled
        then (require (not (length key == 0)) "this method must be invoked by alphabet"
            >> collect_votes env alphabet (inner_ring_invoker env alphabet) id
                (store_config id key val))
        else (check_alphabet_witness env (multiaddress alphabet false) >> store_config id key val)

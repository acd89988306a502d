-- ===== src/Frostfsid.antt =====
-- The frostfsid contract (frostfsid/frostfsid_contract.go): the public keys of owners, one storage
-- cell for each pair.
pub mod Keys
use frostfs_contract.Prelude.{
  ℕ, Bool, true, false, not, Option, none, some, List, [], ◌∷◌, ◌++◌, ◌==◌, ◌&&◌, if◌then◌else◌,
  length, map, drop,
}
use frostfs_contract.Prelude.Bytes.{Bytes, codes}
use frostfs_contract.Host.Storage.{Vm, Env, Arg}
use frostfs_contract.Host.Exec.{Exec, pure, done, require, or_fault, put, delete, read, ◌>>=◌, ◌>>◌}
use frostfs_contract.Common.Ir.{inner_ring_invoker, check_alphabet_witness, alphabet_address}
use frostfs_contract.Common.Version.{check_version, update_version}
use frostfs_contract.Common.Vote.{init_vote, invoke_id, from_known_contract}
use frostfs_contract.Common.Quorum.{notary_key, is_empty, collect_votes, by_nodes}

abbrev pub netmap_key : Bytes
netmap_key = codes "netmapScriptHash"

abbrev pub container_key : Bytes
container_key = codes "containerScriptHash"

-- `ownerSize`
abbrev pub owner_size : ℕ
owner_size = 25

abbrev pub owner_prefix : Bytes → Bytes
owner_prefix owner = b'o' ∷ owner

-- The first argument of `_deploy`.
pub data DeployData : Type 0 where
  initial : Bool → Bytes → Bytes → DeployData
  upgrade : List Arg → DeployData

-- Every key of a list is 33 bytes long.
abbrev pub are_public_keys : List Bytes → Bool
are_public_keys [] = true
are_public_keys (key ∷ keys) = if length key == 33 then are_public_keys keys else false

module _ ⦃vm : Vm⦄ where
  unfoldable pub deploy : DeployData → Exec Unit
  deploy (upgrade args) = or_fault (update_version args) >>= check_version
  deploy (initial notary_disabled addr_netmap addr_container) = do
    require (length addr_netmap == 20 && length addr_container == 20)
        "incorrect length of contract script hash"
    put vm.raw netmap_key addr_netmap
    put vm.raw container_key addr_container
    put vm.flags notary_key notary_disabled
    if notary_disabled then init_vote else done

  -- the loop of `AddKey` that writes the cells
  unfoldable pub put_keys : Bytes → List Bytes → Exec Unit
  put_keys owner [] = done
  put_keys owner (key ∷ keys) =
      put vm.raw (owner_prefix owner ++ key) (1 ∷ []) >>= λ _. put_keys owner keys

  -- the loop of `RemoveKey` that deletes the cells
  unfoldable pub delete_keys : Bytes → List Bytes → Exec Unit
  delete_keys owner [] = done
  delete_keys owner (key ∷ keys) =
      delete (owner_prefix owner ++ key) >>= λ _. delete_keys owner keys

  -- `Key`
  unfoldable pub key : Bytes → Exec (List Bytes)
  key owner = do
    require (length owner == owner_size) "incorrect owner"
    λ s.
        pure
          (map (λ (e : Bytes × vm.Value). drop (length (owner_prefix owner)) e.0)
            (vm.find s.storage (owner_prefix owner)))
          s

  abbrev pub check_keys : Bytes → List Bytes → Exec Unit
  check_keys owner keys =
      require (length owner == owner_size) "incorrect owner"
      >> require (are_public_keys keys) "incorrect public key"

module _ ⦃vm : Vm⦄ (env : Env) where
  -- `AddKey`: without notary it collects votes for the calls of the container contract
  unfoldable pub add_key : Bytes → List Bytes → Exec Unit
  unfolding put_keys from_known_contract
  add_key owner keys = do
    check_keys owner keys
    notary_disabled ← read vm.flags notary_key
    if notary_disabled
        then (require (not (is_empty (inner_ring_invoker env env.committee)))
              "invocation from non inner ring node"
            >> (from_known_contract env.calling_script_hash container_key >>= λ indirect_call.
                if indirect_call
                then collect_votes env env.committee (inner_ring_invoker env env.committee)
                    (invoke_id (owner ∷ keys) (codes "add")) (put_keys owner keys)
                else put_keys owner keys))
        else (check_alphabet_witness env (alphabet_address env) >> put_keys owner keys)

  unfoldable pub remove_key : Bytes → List Bytes → Exec Unit
  unfolding delete_keys
  remove_key owner keys = do
    check_keys owner keys
    notary_disabled ← read vm.flags notary_key
    if notary_disabled
        then (require (not (is_empty (inner_ring_invoker env env.committee)))
              "invocation from non inner ring node"
            >> collect_votes env env.committee (inner_ring_invoker env env.committee)
                (invoke_id (owner ∷ keys) (codes "remove")) (delete_keys owner keys))
        else (require (env.check_witness (alphabet_address env))
              "invocation from non inner ring node"
            >> delete_keys owner keys)

-- ===== src/Container/Estimations.antt =====
-- Estimations of the size of containers (container/container_contract.go): one cell for each epoch,
-- container and node, and for each container and node the list of the epochs that have a cell.
use frostfs_contract.Prelude.{
  ℕ, ◌+◌, ◌-◌, Bool, true, false, not, Option, none, some, List, [], ◌∷◌, ◌++◌, ◌&&◌, leb,
  if◌then◌else◌, length, take, drop,
}
use frostfs_contract.Prelude.Int.{ℤ, pos, ◌-ℤ◌, ltb_ℤ}
use frostfs_contract.Prelude.Bytes.{Bytes, codes, bytes_equal, slice}
use frostfs_contract.Host.Storage.{Vm, Env, Codec, int}
use frostfs_contract.Host.Entries.{cast_values}
use frostfs_contract.Host.Exec.{
  Exec, pure, done, require, or_fault, get, put, delete, read, query_contract, ◌>>=◌, ◌>>◌,
}
use frostfs_contract.Host.Reply.{as_list}
use frostfs_contract.Common.Ir.{check_witness}
use frostfs_contract.Common.Vote.{contains}
use frostfs_contract.Container.{Container, container_id_size, not_found, get_owner_by_id}

pub record Estimation : Type 0 where
  pub from : Bytes
  pub size : ℤ

pub record ContainerSizes : Type 0 where
  pub cid : Bytes
  pub estimations : List Estimation

abbrev pub single_prefix : Bytes
single_prefix = codes "est"

abbrev pub estimate_prefix : Bytes
estimate_prefix = codes "cnr"

abbrev pub postfix_size : ℕ
postfix_size = 10

abbrev pub cleanup_delta : ℤ
cleanup_delta = pos 3

abbrev pub total_cleanup_delta : ℤ
total_cleanup_delta = pos 4

abbrev pub netmap_key : Bytes
netmap_key = codes "netmapScriptHash"

-- the loop of `isStorageNode`; `none` where the descriptor of a node is too short
unfoldable pub is_node_of : Bytes → List Bytes → Option Bool
is_node_of key [] = some false
is_node_of key (node_info ∷ snapshot) =
    let rest = is_node_of key snapshot in
    elim (slice node_info 2 33) [
      | none ↦ none
      | some node_key ↦ if bytes_equal key node_key then some true else rest
    ]

-- the loop of `ListContainerSizes`: the keys without their last 10 bytes, each once
unfoldable pub unique_ids : ⦃vm : Vm⦄ → List (Bytes × vm.Value) → List Bytes → Option (List Bytes)
unique_ids [] uniq = some uniq
unique_ids ((key, _) ∷ rest) uniq =
    let id = take (length key - postfix_size) key in
    let more = unique_ids rest (if contains uniq id then uniq else uniq ++ id ∷ []) in
    if leb postfix_size (length key) then more else none

module _ ⦃vm : Vm⦄ where
  unfoldable pub estimation_key : ℤ → Bytes → Bytes → Bytes
  estimation_key epoch cid key =
      estimate_prefix ++ (vm.int_to_bytes epoch ++ (cid ++ take postfix_size (vm.ripemd160 key)))

  abbrev pub epochs_key : Bytes → Bytes → Bytes
  epochs_key cid key = single_prefix ++ (cid ++ vm.ripemd160 key)

  -- the prefix of all estimations of an epoch
  abbrev pub epoch_prefix : ℤ → Bytes
  epoch_prefix epoch = estimate_prefix ++ vm.int_to_bytes epoch

  -- the loop of `updateEstimations`: estimations that are too old are deleted, the other epochs stay
  unfoldable pub drop_old : ℤ → Bytes → Bytes → Bool → List ℤ → Exec (List ℤ)
  unfolding estimation_key
  drop_old epoch cid key is_update [] = pure []
  drop_old epoch cid key is_update (old_epoch ∷ epochs) =
      if not is_update && ltb_ℤ cleanup_delta (epoch -ℤ old_epoch)
      then (delete (estimation_key old_epoch cid key) >>= λ _.
          drop_old epoch cid key is_update epochs)
      else (drop_old epoch cid key is_update epochs >>= λ new_epochs. pure (old_epoch ∷ new_epochs))

  -- the epoch in the key of an estimation, `none` where the key is too short
  unfoldable pub epoch_of_key : Bytes → Option ℤ
  epoch_of_key k =
      if leb (3 + container_id_size + postfix_size) (length k)
      then some
          (vm.bytes_to_int (take (length k - container_id_size - postfix_size - 3) (drop 3 k)))
      else none

  -- the loop of `cleanupContainers`
  unfoldable pub cleanup_keys : ℤ → List (Bytes × vm.Value) → Exec Unit
  unfolding epoch_of_key
  cleanup_keys epoch [] = done
  cleanup_keys epoch ((k, _) ∷ rest) = or_fault (epoch_of_key k) >>= λ n.
      ((if ltb_ℤ total_cleanup_delta (epoch -ℤ n) then delete k else done) >>= λ _.
      cleanup_keys epoch rest)

  unfoldable pub cleanup_containers : ℤ → Exec Unit
  unfolding cleanup_keys
  cleanup_containers epoch s = cleanup_keys epoch (vm.find s.storage estimate_prefix) s

  unfoldable pub list_container_sizes : ℤ → Exec (List Bytes)
  unfolding unique_ids
  list_container_sizes epoch s = or_fault (unique_ids (vm.find s.storage (epoch_prefix epoch)) []) s

  -- `IterateContainerSizes`, the iterator run to its end
  unfoldable pub iterate_container_sizes : ℤ → Exec (List (Bytes × vm.Value))
  iterate_container_sizes epoch s = pure (vm.find s.storage (epoch_prefix epoch)) s

  unfoldable pub is_storage_node : Env → Bytes → Exec Bool
  unfolding is_node_of
  is_storage_node env key = do
    netmap_addr ← read vm.raw netmap_key
    reply ← query_contract env netmap_addr "snapshot" (int (pos 1) ∷ [])
    snapshot ← as_list reply
    or_fault (is_node_of key snapshot)

module _ ⦃vm : Vm⦄ ⦃epoch_lists : Codec vm.Value (List ℤ)⦄ where
  unfoldable pub update_estimations : ℤ → Bytes → Bytes → Bool → Exec Unit
  unfolding drop_old
  update_estimations epoch cid key is_update = do
    cell ← get (epochs_key cid key)
    new_epochs ← elim cell [
      | none ↦ pure []
      | some raw_list ↦
          (or_fault (epoch_lists.cast (some raw_list)) >>= λ epochs.
          drop_old epoch cid key is_update epochs)
    ]
    put epoch_lists (epochs_key cid key) (new_epochs ++ epoch ∷ [])

module _ ⦃vm : Vm⦄ ⦃estimations : Codec vm.Value Estimation⦄ where
  unfoldable pub get_container_size_estimation : Bytes → Bytes → Exec ContainerSizes
  unfolding cast_values
  get_container_size_estimation key cid s =
      (or_fault (cast_values estimations (vm.find s.storage key)) >>= λ found.
      pure (record { cid = cid; estimations = found }))
        s

  unfoldable pub get_container_size : Bytes → Exec ContainerSizes
  unfolding get_container_size_estimation
  get_container_size id = do
    cid ← or_fault (slice id (length id - container_id_size) container_id_size)
    get_container_size_estimation id cid

module _ ⦃vm : Vm⦄ ⦃containers : Codec vm.Value Container⦄ ⦃estimations : Codec vm.Value Estimation⦄
    ⦃epoch_lists : Codec vm.Value (List ℤ)⦄ where
  unfoldable pub put_container_size : Env → ℤ → Bytes → ℤ → Bytes → Exec Unit
  unfolding get_owner_by_id is_storage_node estimation_key update_estimations
  put_container_size env epoch cid used_size pub_key = do
    owner ← get_owner_by_id cid
    elim owner [ none ↦ not_found {A = Unit} | some o ↦ done ]
    check_witness env pub_key
    is_node ← is_storage_node env pub_key
    require is_node "method must be invoked by storage node from network map"
    put estimations (estimation_key epoch cid pub_key) (record { from = pub_key; size = used_size })
    update_estimations epoch cid pub_key false

-- ===== src/Netmap.antt =====
-- The netmap contract: the candidates for the network map, the configuration, and the ring of
-- snapshots of the map (netmap/netmap_contract.go).
pub mod Snapshots
pub mod Filter
pub mod Methods
pub mod Ring
pub mod Start
pub mod Epoch
pub mod History
pub mod Resize
pub mod Candidates
use frostfs_contract.Prelude.{
  ℕ, Bool, true, false, Option, none, some, List, [], ◌∷◌, ◌++◌, ◌||◌, if◌then◌else◌,
}
use frostfs_contract.Prelude.Int.{ℤ, pos, eqb_ℤ}
use frostfs_contract.Prelude.Bytes.{Bytes, codes}
use frostfs_contract.Host.Storage.{Vm, Codec, int, bytes}
use frostfs_contract.Host.Exec.{
  Exec, pure, panic, done, or_fault, get, put, delete, notify, ◌>>=◌, ◌>>◌,
}

-- `NodeState`, an integer of which the contract knows three values.
abbrev pub online : ℤ
online = pos 1

abbrev pub offline : ℤ
offline = pos 2

abbrev pub maintenance : ℤ
maintenance = pos 3

pub record Node : Type 0 where
  pub blob : Bytes
  pub state : ℤ

abbrev pub config_prefix : Bytes
config_prefix = codes "config"

abbrev pub candidate_prefix : Bytes
candidate_prefix = codes "candidate"

abbrev pub candidate_key : Bytes → Bytes
candidate_key public_key = candidate_prefix ++ public_key

module _ ⦃vm : Vm⦄ where
  -- `getConfig` and `setConfig`; the value is what the cell holds
  unfoldable pub get_config : Bytes → Exec (Option vm.Value)
  get_config key = get (config_prefix ++ key)

  unfoldable pub set_config : Bytes → Bytes → Exec Unit
  set_config key val = put vm.raw (config_prefix ++ key) val

  unfoldable pub remove_from_netmap : Bytes → Exec Unit
  remove_from_netmap key = delete (candidate_key key)

module _ ⦃vm : Vm⦄ ⦃node_codec : Codec vm.Value Node⦄ where
  unfoldable pub add_to_netmap : Bytes → Node → Exec Unit
  add_to_netmap public_key node = do
    put node_codec (candidate_key public_key) node
    notify "AddPeerSuccess" (bytes public_key ∷ [])

  unfoldable pub update_netmap_state : Bytes → ℤ → Exec Unit
  update_netmap_state key state = do
    cell ← get (candidate_key key)
    elim cell [
      | none ↦ panic "peer is missing"
      | some raw ↦
          (or_fault (node_codec.cast (some raw)) >>= λ node.
          put node_codec (candidate_key key) (record node { state = state }))
    ]

  -- `updateCandidateState`
  unfoldable pub update_candidate_state : Bytes → ℤ → Exec Unit
  unfolding remove_from_netmap update_netmap_state
  update_candidate_state public_key state = do
    if eqb_ℤ state offline
        then remove_from_netmap public_key
        else if eqb_ℤ state online || eqb_ℤ state maintenance
        then update_netmap_state public_key state
        else panic "unsupported state"
    notify "UpdateStateSuccess" (bytes public_key ∷ int state ∷ [])

  -- the values of the entries that `storage.Find` returns, deserialized
  unfoldable pub decode_nodes : List (Bytes × vm.Value) → Option (List Node)
  decode_nodes [] = some []
  decode_nodes ((k, v) ∷ rest) = elim (node_codec.cast (some v)) [
    | none ↦ none
    | some node ↦ elim (decode_nodes rest) [ none ↦ none | some nodes ↦ some (node ∷ nodes) ]
  ]

  unfoldable pub get_netmap_nodes : Exec (List Node)
  unfolding decode_nodes
  get_netmap_nodes s = or_fault (decode_nodes (vm.find s.storage candidate_prefix)) s

  -- the loop of `filterNetmap`
  unfoldable pub not_offline : List Node → List Node
  not_offline [] = []
  not_offline (item ∷ netmap) =
      if eqb_ℤ item.state offline then not_offline netmap else item ∷ not_offline netmap

  unfoldable pub filter_netmap : Exec (List Node)
  unfolding get_netmap_nodes not_offline
  filter_netmap = do netmap ← get_netmap_nodes; pure (not_offline netmap)

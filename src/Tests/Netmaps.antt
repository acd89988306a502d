-- ===== src/Tests/Netmaps.antt =====
-- The theorems about the netmap contract at a ring of ten snapshots.
use frostfs_contract.Prelude.{
  ◌≡◌, ◌≢◌, refl, true, false, some, List, [], ◌∷◌, arith, ltb, if◌then◌else◌, ◌⊎◌, ◌||◌, none,
  ◌++◌,
}
use frostfs_contract.Prelude.Int.{ℤ, pos, eqb_ℤ, ◌+ℤ◌}
use frostfs_contract.Prelude.Bytes.{Bytes, bytes_equal}
use frostfs_contract.Host.Storage.{Env, int, bytes}
use frostfs_contract.Host.Exec.{State, ok, err, panicked}
use frostfs_contract.Common.Ir.{check_alphabet_witness, multiaddress, alphabet_address}
use frostfs_contract.Common.Quorum.{notary_key, by_nodes}
use frostfs_contract.Common.Vote.{init_vote}
use frostfs_contract.Common.Vote.Effects.{SameButVotes}
use frostfs_contract.Netmap.{
  Node, online, offline, maintenance, candidate_key, candidate_prefix, decode_nodes, not_offline,
  update_candidate_state,
}
use frostfs_contract.Netmap.Snapshots.{
  count_key, current_key, epoch_key, block_key, snapshot_key, snapshot, snapshot_by_epoch,
  update_snapshot_count,
}
use frostfs_contract.Netmap.Filter.{IsFiltered}
use frostfs_contract.Netmap.Methods.{DeployArgs, deploy, balance_key, container_key, new_epoch}
use frostfs_contract.Netmap.Ring.{IsRing, Advanced, index, map_at, returned, snapshot_lem}
use frostfs_contract.Netmap.Start.{Started, deploy-Started}
use frostfs_contract.Tests.Balances.{address_of}
use frostfs_contract.Netmap.History.{IsEpoch, Follows, snapshot_by_epoch-Follows}
use frostfs_contract.Netmap.Epoch.{new_epoch-Advanced}
use frostfs_contract.Netmap.Candidates.{candidate_at, in_state, update_candidate_state_lem}
use frostfs_contract.Netmap.Resize.{update_snapshot_count-zero}
use frostfs_contract.Tests.Cells.{flag_cell, number_cell, raw_cell, node_cell, map_cell}
use frostfs_contract.Tests.Machine.{machine, node_codec, map_codec, holding, after, signed_by}

abbrev pub first_node : Node
first_node = record { blob = 1 ∷ []; state = online }

abbrev pub second_node : Node
second_node = record { blob = 2 ∷ []; state = offline }

-- The epoch is 7, the newest of ten snapshots stands at 9, and notary is enabled.
abbrev pub ring_state : State
ring_state = holding (
    (notary_key, flag_cell false)
    ∷ (epoch_key, number_cell (pos 7))
    ∷ (block_key, number_cell (pos 50))
    ∷ (count_key, number_cell (pos 10))
    ∷ (current_key, number_cell (pos 9))
    ∷ (snapshot_key (pos 9), map_cell (first_node ∷ []))
    ∷ (candidate_key (1 ∷ []), node_cell first_node)
    ∷ (candidate_key (2 ∷ []), node_cell second_node)
    ∷ (balance_key, raw_cell (11 ∷ []))
    ∷ (container_key, raw_cell (12 ∷ []))
    ∷ [])

ring_state-IsRing : IsRing ring_state (pos 7) 9 9
ring_state-IsRing = record {
  epoch_eq = refl;
  count_eq = refl;
  current_eq = refl;
  current_lt = omega arith;
  count_le = omega arith;
}

-- The multisignature of the alphabet.
abbrev pub alphabet_signature : Bytes
alphabet_signature = 3 ∷ []

abbrev next_state : State
unfolding new_epoch
next_state = after (new_epoch (signed_by alphabet_signature) (pos 8) ring_state)

next_state-eq : new_epoch (signed_by alphabet_signature) (pos 8) ring_state ≡ ok (tt, next_state)
unfolding new_epoch by_nodes check_alphabet_witness multiaddress ◌+ℤ◌
next_state-eq = refl

new_epoch-Advanced_example :
    SameButVotes ring_state next_state
    ⊎ ((u : State) × (nodes : List Node) × SameButVotes ring_state u
        × (decode_nodes (machine.find u.storage candidate_prefix) ≡ some nodes)
        × Advanced u next_state (pos 7) (pos 8) 100 9 9 nodes)
new_epoch-Advanced_example =
    new_epoch-Advanced (signed_by alphabet_signature) ring_state next_state (pos 7) (pos 8) 9 9
      ring_state-IsRing next_state-eq

snapshot_example : snapshot (pos 3) ring_state ≡ (
    if ltb 3 10
    then returned (map_at ring_state (index 10 9 3)) ring_state
    else err (panicked "incorrect diff"))
snapshot_example = snapshot_lem ring_state (pos 7) 9 9 3 ring_state-IsRing

abbrev kept_state : State
unfolding update_candidate_state
kept_state = after (update_candidate_state (2 ∷ []) maintenance ring_state)

kept_state-eq : update_candidate_state (2 ∷ []) maintenance ring_state ≡ ok (tt, kept_state)
unfolding update_candidate_state
kept_state-eq = refl

update_candidate_state_example :
    ((eqb_ℤ maintenance offline || (eqb_ℤ maintenance online || eqb_ℤ maintenance maintenance))
      ≡ true)
    × (candidate_at kept_state (2 ∷ []) ≡ (
        if eqb_ℤ maintenance offline
        then none
        else in_state maintenance (candidate_at ring_state (2 ∷ []))))
    × ((eqb_ℤ maintenance offline ≡ true) ⊎ (candidate_at ring_state (2 ∷ []) ≢ none))
    × ((k : Bytes)
        → bytes_equal (candidate_key (2 ∷ [])) k ≡ false
        → machine.get kept_state.storage k ≡ machine.get ring_state.storage k)
    × (kept_state.events
        ≡ ring_state.events ++ ("UpdateStateSuccess", bytes (2 ∷ []) ∷ int maintenance ∷ []) ∷ [])
update_candidate_state_example =
    update_candidate_state_lem (2 ∷ []) maintenance ring_state kept_state kept_state-eq

update_snapshot_count-zero_example :
    (t : State) × (update_snapshot_count (signed_by alphabet_signature) (pos 0) ring_state
      ≡ ok (tt, t))
    × (machine.numbers.cast (machine.get t.storage count_key) ≡ some (pos 0))
    × ((later : Env) (u v : State) (e' : ℤ)
        → machine.get u.storage count_key ≡ machine.get t.storage count_key
        → new_epoch later e' u ≡ ok (tt, v)
        → SameButVotes u v)
unfolding alphabet_address
update_snapshot_count-zero_example =
    update_snapshot_count-zero (signed_by alphabet_signature) ring_state (pos 7) 9 9
      ring_state-IsRing refl

-- The state after one more epoch, the ninth.
abbrev last_state : State
unfolding new_epoch
last_state = after (new_epoch (signed_by alphabet_signature) (pos 9) next_state)

last_state-eq :
    new_epoch (signed_by alphabet_signature) (pos 8 +ℤ pos 1) next_state ≡ ok (tt, last_state)
unfolding new_epoch by_nodes check_alphabet_witness multiaddress ◌+ℤ◌
last_state-eq = refl

last_state-IsEpoch : IsEpoch last_state (pos 8 +ℤ pos 1)
unfolding new_epoch by_nodes check_alphabet_witness multiaddress ◌+ℤ◌
last_state-IsEpoch = refl

next_state-IsEpoch : IsEpoch next_state (pos 8)
unfolding new_epoch by_nodes check_alphabet_witness multiaddress ◌+ℤ◌
next_state-IsEpoch = refl

last_state-Follows : Follows next_state (pos 8) 1 last_state
last_state-Follows =
    Follows.next (signed_by alphabet_signature) Follows.here last_state-eq last_state-IsEpoch

seven-ne-eight : pos 7 ≢ pos 8
seven-ne-eight h = ground arith

snapshot_by_epoch_example :
    (u : State) × (nodes : List Node) × SameButVotes ring_state u
    × (decode_nodes (machine.find u.storage candidate_prefix) ≡ some nodes)
    × IsFiltered nodes (not_offline nodes)
    × (snapshot_by_epoch (pos 8) last_state ≡ (
        if ltb 1 10 then ok (not_offline nodes, last_state) else err (panicked "incorrect diff")))
snapshot_by_epoch_example =
    snapshot_by_epoch-Follows (signed_by alphabet_signature) ring_state next_state last_state
      (pos 7) (pos 8) 9 9 1 ring_state-IsRing seven-ne-eight next_state-eq next_state-IsEpoch
      last_state-Follows

abbrev deploy_args : DeployArgs
deploy_args = record {
  notary_disabled = true;
  addr_balance = address_of 1;
  addr_container = address_of 2;
  keys = (1 ∷ []) ∷ [];
  config = (1 ∷ []) ∷ (2 ∷ []) ∷ [];
  version = pos 0;
}

abbrev deployed_state : State
unfolding deploy
deployed_state = after (deploy (signed_by []) deploy_args false (holding []))

deployed_state-eq : deploy (signed_by []) deploy_args false (holding []) ≡ ok (tt, deployed_state)
unfolding deploy init_vote
deployed_state-eq = refl

deploy-Started_example : Started deploy_args deployed_state
deploy-Started_example =
    deploy-Started (signed_by []) deploy_args (holding []) deployed_state deployed_state-eq

-- ===== src/Tests/Subnets.antt =====
-- The theorems about the subnet contract at a subnet with one node administrator.
use frostfs_contract.Prelude.{ℕ, ◌≡◌, refl, true, false, [], ◌∷◌, if◌then◌else◌, ◌++◌}
use frostfs_contract.Prelude.Bytes.{Bytes, bytes_equal}
use frostfs_contract.Host.Storage.{Env}
use frostfs_contract.Host.Exec.{State, ok, err, panicked}
use frostfs_contract.Common.Ir.{alphabet_address}
use frostfs_contract.Subnet.{
  owner_key, info_key, node_admin_prefix, node_prefix, get_owner, flag_key,
}
use frostfs_contract.Subnet.Methods.{add_node, node_allowed, delete_subnet, put_subnet, get_info}
use frostfs_contract.Subnet.Registry.{
  Erased, belongs, with_event, delete_subnet_lem, put_subnet-get_info,
}
use frostfs_contract.Subnet.Access.{OwnerOrAdmin, add_node_lem}
use frostfs_contract.Tests.Cells.{raw_cell, flag_cell}
use frostfs_contract.Tests.Machine.{machine, holding, after, signed_by}

abbrev pub subnet_id : Bytes
subnet_id = 1 ∷ 2 ∷ 3 ∷ 4 ∷ 5 ∷ []

-- A public key whose bytes are all the same.
abbrev pub key_of : ℕ → Bytes
key_of n =
    n ∷ n ∷ n ∷ n ∷ n ∷ n ∷ n ∷ n ∷ n ∷ n ∷ n ∷ n ∷ n ∷ n ∷ n ∷ n ∷ n ∷ n ∷ n ∷ n ∷ n ∷ n ∷ n ∷ n
    ∷ n ∷ n ∷ n ∷ n ∷ n ∷ n ∷ n ∷ n ∷ n ∷ []

abbrev pub subnet_state : State
subnet_state = holding (
    (owner_key subnet_id, raw_cell (key_of 1))
    ∷ (info_key subnet_id, raw_cell (8 ∷ []))
    ∷ (node_admin_prefix subnet_id ++ key_of 2, raw_cell (1 ∷ []))
    ∷ [])

-- The administrator adds a node.
abbrev added_state : State
unfolding add_node
added_state = after (add_node (signed_by (key_of 2)) subnet_id (key_of 3) subnet_state)

added_state-eq :
    add_node (signed_by (key_of 2)) subnet_id (key_of 3) subnet_state ≡ ok (tt, added_state)
unfolding add_node
added_state-eq = refl

add_node_example :
    (owner : Bytes) × (get_owner subnet_id subnet_state ≡ ok (owner, subnet_state))
    × OwnerOrAdmin (signed_by (key_of 2)) owner (node_admin_prefix subnet_id) subnet_state
    × (node_allowed subnet_id (key_of 3) added_state ≡ ok (true, added_state))
    × ((k : Bytes)
        → bytes_equal (node_prefix subnet_id ++ key_of 3) k ≡ false
        → machine.get added_state.storage k ≡ machine.get subnet_state.storage k)
add_node_example =
    add_node_lem (signed_by (key_of 2)) subnet_id (key_of 3) subnet_state added_state added_state-eq

delete_subnet_example :
    (t : State) × (delete_subnet (signed_by (key_of 1)) subnet_id subnet_state ≡ (
      if bytes_equal (key_of 1) (key_of 1)
      then ok (tt, with_event t subnet_id)
      else err (panicked "owner witness check failed")))
    × Erased subnet_state t (belongs subnet_id)
delete_subnet_example =
    delete_subnet_lem (signed_by (key_of 1)) subnet_id (key_of 1) (raw_cell (key_of 1)) subnet_state
      refl refl refl

abbrev other_id : Bytes
other_id = 9 ∷ 9 ∷ 9 ∷ 9 ∷ 9 ∷ []

-- Notary is enabled, and there is no subnet.
abbrev no_subnets : State
no_subnets = holding ((flag_key, flag_cell false) ∷ [])

-- The owner and the alphabet have signed.
abbrev both_signed : Env
both_signed = record (signed_by []) { check_witness = λ key. true }

put_subnet-get_info_example :
    (t : State) × (put_subnet both_signed other_id (key_of 1) (8 ∷ []) no_subnets ≡ (
      if both_signed.check_witness (key_of 1)
      then (if both_signed.check_witness (alphabet_address both_signed)
          then ok (tt, t)
          else err (panicked "alphabet witness check failed"))
      else err (panicked "owner witness check failed")))
    × (get_info other_id t ≡ ok (8 ∷ [], t))
    × (get_owner other_id t ≡ ok (key_of 1, t))
    × ((k : Bytes)
        → bytes_equal (owner_key other_id) k ≡ false
        → bytes_equal (info_key other_id) k ≡ false
        → machine.get t.storage k ≡ machine.get no_subnets.storage k)
put_subnet-get_info_example =
    put_subnet-get_info both_signed other_id (key_of 1) (8 ∷ []) no_subnets refl refl refl refl

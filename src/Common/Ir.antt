-- ===== src/Common/Ir.antt =====
-- Inner ring and alphabet nodes and their witnesses (common/ir.go, common/witness.go and
-- common/update.go).
use frostfs_contract.Prelude.{
  ℕ, ◌+◌, ◌*◌, ◌/◌, Bool, true, false, String, List, [], ◌∷◌, if◌then◌else◌, length,
}
use frostfs_contract.Prelude.Bytes.{Bytes}
use frostfs_contract.Host.Storage.{Vm, Env}
use frostfs_contract.Host.Exec.{Exec, require, query_contract, ◌>>=◌}
use frostfs_contract.Host.Reply.{as_list}

-- The first node of the list that has signed the transaction; nil, the empty key, if there is none.
unfoldable pub inner_ring_invoker : Env → List Bytes → Bytes
inner_ring_invoker env [] = []
inner_ring_invoker env (node ∷ ir) =
    if env.check_witness node then node else inner_ring_invoker env ir

-- The number of nodes that must agree, `len(n)*2/3 + 1`.
unfoldable pub alphabet_threshold : List Bytes → ℕ
alphabet_threshold n = length n * 2 / 3 + 1

unfoldable pub committee_threshold : List Bytes → ℕ
committee_threshold n = length n / 2 + 1

module _ ⦃vm : Vm⦄ where
  unfoldable pub multiaddress : List Bytes → Bool → Bytes
  unfolding alphabet_threshold committee_threshold
  multiaddress n committee =
      vm.create_multisig_account (if committee then committee_threshold n else alphabet_threshold n)
        n

module _ ⦃vm : Vm⦄ (env : Env) where
  unfoldable pub alphabet_address : Bytes
  unfolding multiaddress
  alphabet_address = multiaddress env.committee false

  unfoldable pub committee_address : Bytes
  unfolding multiaddress
  committee_address = multiaddress env.committee true

  unfoldable pub has_update_access : Bool
  unfolding committee_address
  has_update_access = env.check_witness committee_address

  unfoldable pub check_witness_with_panic : Bytes → String → Exec Unit
  check_witness_with_panic caller message = require (env.check_witness caller) message

  unfoldable pub check_alphabet_witness : Bytes → Exec Unit
  unfolding check_witness_with_panic
  check_alphabet_witness caller = check_witness_with_panic caller "alphabet witness check failed"

  unfoldable pub check_owner_witness : Bytes → Exec Unit
  unfolding check_witness_with_panic
  check_owner_witness caller = check_witness_with_panic caller "owner witness check failed"

  unfoldable pub check_witness : Bytes → Exec Unit
  unfolding check_witness_with_panic
  check_witness caller = check_witness_with_panic caller "witness check failed"

  -- `InnerRingNodesFromNetmap`
  unfoldable pub inner_ring_nodes_from_netmap : Bytes → Exec (List Bytes)
  inner_ring_nodes_from_netmap sc = do
    reply ← query_contract env sc "innerRingList" []
    as_list reply

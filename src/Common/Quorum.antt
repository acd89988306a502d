-- ===== src/Common/Quorum.antt =====
-- The guard that most methods of the contracts that change state begin with: with notary, the
-- multisignature of the alphabet; without notary, the votes of the alphabet nodes, one transaction
-- each. The contracts write it out in every method (for example balance/balance_contract.go, `Mint`).
pub mod Outcome
use frostfs_contract.Prelude.{ℕ, Bool, true, false, not, String, List, [], ◌∷◌, ltb, if◌then◌else◌}
use frostfs_contract.Prelude.Bytes.{Bytes, codes}
use frostfs_contract.Host.Storage.{Vm, Env}
use frostfs_contract.Host.Exec.{Exec, done, require, read, ◌>>=◌, ◌>>◌}
use frostfs_contract.Common.Ir.{
  inner_ring_invoker, alphabet_threshold, multiaddress, check_alphabet_witness,
}
use frostfs_contract.Common.Vote.{vote, remove_votes}

-- `notaryDisabledKey`
abbrev pub notary_key : Bytes
notary_key = codes "notary"

abbrev pub is_empty : Bytes → Bool
is_empty [] = true
is_empty (b ∷ bs) = false

module _ ⦃vm : Vm⦄ (env : Env) (nodes : List Bytes) where
  -- `n := common.Vote(...)`, `if n < threshold { return }`, `common.RemoveVotes(...)`, and the rest
  -- of the method
  unfoldable pub collect_votes : Bytes → Bytes → Exec Unit → Exec Unit
  collect_votes node id action = do
    n ← vote env id node
    if ltb n (alphabet_threshold nodes) then done else (remove_votes id >> action)

  -- The guard as a whole; `nodes` are the alphabet nodes and `message` is what the method panics
  -- with when no node has signed.
  unfoldable pub by_nodes : String → Bytes → Exec Unit → Exec Unit
  unfolding collect_votes
  by_nodes message id action = do
    notary_disabled ← read vm.flags notary_key
    if notary_disabled
        then (require (not (is_empty (inner_ring_invoker env nodes))) message
            >> collect_votes (inner_ring_invoker env nodes) id action)
        else (check_alphabet_witness env (multiaddress nodes false) >> action)

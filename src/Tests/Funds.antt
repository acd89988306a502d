-- ===== src/Tests/Funds.antt =====
-- The theorems about the frostfs and frostfsid contracts at concrete states.
use frostfs_contract.Prelude.{
  ◌≡◌, refl, true, false, [], ◌∷◌, if◌then◌else◌, ◌++◌, ◌&&◌, ◌||◌, ◌==◌, String, length, arith,
}
use frostfs_contract.Prelude.Int.{pos, ◌≤ℤ◌}
use frostfs_contract.Prelude.Bytes.{Bytes, bytes_equal}
use frostfs_contract.Host.Storage.{int, bytes}
use frostfs_contract.Host.Exec.{State, ok, err, aborted}
use frostfs_contract.Common.Ir.{inner_ring_invoker}
use frostfs_contract.Common.Vote.{vote_key, contains}
use frostfs_contract.Common.Quorum.{notary_key}
use frostfs_contract.Common.Quorum.Outcome.{Voted}
use frostfs_contract.Frostfs.{
  processing_key, alphabet_key, max_balance_amount, in_gas, get_alphabet_nodes,
}
use frostfs_contract.Frostfs.Funds.{
  check_bounds, pay_fee, fee_paid, fee_key, on_nep17_payment, withdraw,
}
use frostfs_contract.Frostfs.Deposit.{amount_valid, deposited, on_nep17_payment_lem, withdraw_lem}
use frostfs_contract.Frostfs.Alphabet.{set_config_method, store_config}
use frostfs_contract.Frostfs.Config.{set_config_method-unsigned}
use frostfs_contract.Frostfsid.{add_key, container_key}
use frostfs_contract.Frostfsid.Keys.{is_bound, add_key-single_node}
use frostfs_contract.Tests.Cells.{flag_cell, number_cell, raw_cell, keys_cell, ballots_cell}
use frostfs_contract.Tests.Machine.{machine, holding, after, signed_by}
use frostfs_contract.Tests.Votes.{four_nodes, two_ballots, two_ballots-IsTidy}
use frostfs_contract.Tests.Subnets.{key_of}

-- The user 5 with notary enabled.
abbrev funds_state : State
funds_state = holding (
    (notary_key, flag_cell false)
    ∷ (fee_key, number_cell (pos 10))
    ∷ (processing_key, raw_cell (12 ∷ []))
    ∷ [])

abbrev withdrawn_state : State
unfolding withdraw
withdrawn_state = after (withdraw (signed_by (5 ∷ [])) (5 ∷ []) (pos 3) funds_state)

withdrawn_state-eq :
    withdraw (signed_by (5 ∷ [])) (5 ∷ []) (pos 3) funds_state ≡ ok (tt, withdrawn_state)
unfolding withdraw check_bounds pay_fee fee_paid
withdrawn_state-eq = refl

withdraw_example :
    (bytes_equal (5 ∷ []) (5 ∷ []) ≡ true)
    × (pos 0 ≤ℤ pos 3)
    × (pos 3 ≤ℤ max_balance_amount)
    × (withdrawn_state.storage ≡ funds_state.storage)
    × (withdrawn_state.events
        ≡ funds_state.events
          ++ ("Withdraw", bytes (5 ∷ []) ∷ int (in_gas (pos 3)) ∷ bytes (7 ∷ []) ∷ []) ∷ [])
withdraw_example =
    withdraw_lem (signed_by (5 ∷ [])) (5 ∷ []) (pos 3) funds_state withdrawn_state
      withdrawn_state-eq

-- A payment without data.
abbrev no_data : Bytes
no_data = []

on_nep17_payment_example :
    let valid =
      amount_valid (signed_by []) (pos 3)
      && (bytes_equal (9 ∷ []) (9 ∷ []) && (length no_data == 20 || length no_data == 0)) in
    (reason : String) × (on_nep17_payment (signed_by []) (5 ∷ []) (pos 3) no_data funds_state ≡ (
      if valid
      then ok (
        tt,
        deposited
            (signed_by [])
            funds_state
            (5 ∷ [])
            (pos 3)
            (if length no_data == 20 then no_data else 5 ∷ []),
      )
      else err (aborted reason)))
on_nep17_payment_example =
    on_nep17_payment_lem (signed_by []) (5 ∷ []) no_data (pos 3) funds_state refl

-- The alphabet is the nodes 1 to 4, without notary.
abbrev alphabet_state : State
alphabet_state = holding (
    (notary_key, flag_cell true)
    ∷ (alphabet_key, keys_cell four_nodes)
    ∷ (vote_key, ballots_cell two_ballots)
    ∷ [])

set_config_method-unsigned_example :
    Voted
      (signed_by [])
      four_nodes
      []
      (5 ∷ [])
      (store_config (signed_by []) (5 ∷ []) (1 ∷ []) (2 ∷ []))
      alphabet_state
      two_ballots
      (set_config_method (signed_by []) (5 ∷ []) (1 ∷ []) (2 ∷ []) alphabet_state)
unfolding get_alphabet_nodes inner_ring_invoker
set_config_method-unsigned_example =
    set_config_method-unsigned (signed_by []) (5 ∷ []) (1 ∷ []) (2 ∷ []) alphabet_state four_nodes
      two_ballots refl refl (λ e. omega arith) refl refl two_ballots-IsTidy

-- The frostfsid contract without notary; the container contract is 12, the caller is another.
abbrev ids_state : State
ids_state = holding ((notary_key, flag_cell true) ∷ (container_key, raw_cell (12 ∷ [])) ∷ [])

-- A wallet of 25 bytes.
abbrev owner_id : Bytes
owner_id =
    1 ∷ 1 ∷ 1 ∷ 1 ∷ 1 ∷ 1 ∷ 1 ∷ 1 ∷ 1 ∷ 1 ∷ 1 ∷ 1 ∷ 1 ∷ 1 ∷ 1 ∷ 1 ∷ 1 ∷ 1 ∷ 1 ∷ 1 ∷ 1 ∷ 1 ∷ 1 ∷ 1
    ∷ 1 ∷ []

add_key-single_node_example :
    (t : State) × (add_key (signed_by (3 ∷ [])) owner_id (key_of 7 ∷ []) ids_state ≡ ok (tt, t))
    × ((k : Bytes)
        → is_bound t owner_id k ≡ (contains (key_of 7 ∷ []) k || is_bound ids_state owner_id k))
unfolding inner_ring_invoker
add_key-single_node_example =
    add_key-single_node (signed_by (3 ∷ [])) owner_id (12 ∷ []) (key_of 7 ∷ []) ids_state refl refl
      refl refl refl refl

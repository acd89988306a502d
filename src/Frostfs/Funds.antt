-- ===== src/Frostfs/Funds.antt =====
-- The methods of the frostfs contract that take and give GAS (frostfs/frostfs_contract.go).
use frostfs_contract.Prelude.{
  Bool, true, false, none, some, List, [], ◌∷◌, ◌++◌, ◌==◌, if◌then◌else◌, length,
}
use frostfs_contract.Prelude.Int.{ℤ, pos, ltb_ℤ, leb_ℤ}
use frostfs_contract.Prelude.Bytes.{Bytes, codes, bytes_equal}
use frostfs_contract.Host.Storage.{Vm, Env, null, int, bytes}
use frostfs_contract.Host.Exec.{
  Exec, pure, panic, abort, done, require, get, put, read, notify, call_back, ◌>>=◌, ◌>>◌,
}
use frostfs_contract.Host.Reply.{as_flag}
use frostfs_contract.Common.Ir.{check_witness}
use frostfs_contract.Common.Quorum.{notary_key, by_nodes}
use frostfs_contract.Frostfs.{
  config_prefix, candidates_key, processing_key, max_balance_amount, max_balance_amount_gas,
  ignore_deposit_notification, in_gas, get_alphabet_nodes, gas_transfer,
}

abbrev pub fee_key : Bytes
fee_key = config_prefix ++ codes "WithdrawFee"

module _ ⦃vm : Vm⦄ (env : Env) where
  -- the checks of the amount and of the caller in `OnNEP17Payment`
  unfoldable pub check_amount : ℤ → Exec Unit
  check_amount amount =
      if leb_ℤ amount (pos 0)
      then abort "amount must be positive"
      else if ltb_ℤ max_balance_amount_gas amount
      then abort "out of max amount limit"
      else done

  unfoldable pub check_gas_caller : Exec Unit
  check_gas_caller =
      if bytes_equal env.calling_script_hash env.gas_hash
      then done
      else abort "only GAS can be accepted for deposit"

  -- the `switch` on the length of the data
  unfoldable pub receiver_of : Bytes → Bytes → Exec Bytes
  receiver_of from rcv =
      if length rcv == 20
      then pure rcv
      else if length rcv == 0
      then pure from
      else abort "invalid data argument, expected Hash160"

  -- `OnNEP17Payment`; `rcv` is its argument `data`
  unfoldable pub on_nep17_payment : Bytes → ℤ → Bytes → Exec Unit
  on_nep17_payment from amount rcv =
      if bytes_equal rcv ignore_deposit_notification then done else do
        check_amount amount
        check_gas_caller
        receiver ← receiver_of from rcv
        notify "Deposit" (bytes from ∷ int amount ∷ bytes receiver ∷ bytes env.tx_hash ∷ [])

  -- the loop of `Withdraw` over the alphabet nodes
  unfoldable pub pay_nodes : Bytes → ℤ → List Bytes → Exec Unit
  unfolding gas_transfer
  pay_nodes user fee [] = done
  pay_nodes user fee (node ∷ alphabet) =
      gas_transfer env user (vm.create_standard_account node) fee (bytes []) >>= λ transferred.
      (require transferred "failed to transfer withdraw fee, aborting" >>= λ _.
      pay_nodes user fee alphabet)

  -- the bounds on the amount of `Withdraw`
  unfoldable pub check_bounds : ℤ → Exec Unit
  check_bounds amount =
      if ltb_ℤ amount (pos 0)
      then panic "non positive amount number"
      else if ltb_ℤ max_balance_amount amount
      then panic "out of max amount limit"
      else done

  -- the transfer of the fee in `Withdraw`, to each node or to the processing contract
  unfoldable pub fee_paid : Bytes → Bool → ℤ → Exec Unit
  unfolding pay_nodes get_alphabet_nodes gas_transfer
  fee_paid user true fee = get_alphabet_nodes >>= λ alphabet. pay_nodes user fee alphabet
  fee_paid user false fee = read vm.raw processing_key >>= λ processing_addr.
      (gas_transfer env user processing_addr fee (bytes []) >>= λ transferred.
      require transferred "failed to transfer withdraw fee, aborting")

  unfoldable pub pay_fee : Bytes → Exec Unit
  pay_fee user = do
    notary_disabled ← read vm.flags notary_key
    fee ← read vm.numbers fee_key
    fee_paid user notary_disabled fee

  unfoldable pub withdraw : Bytes → ℤ → Exec Unit
  withdraw user amount = do
    require (env.check_witness user) "you should be the owner of the wallet"
    check_bounds amount
    pay_fee user
    notify "Withdraw" (bytes user ∷ int (in_gas amount) ∷ bytes env.tx_hash ∷ [])

  unfoldable pub cheque : Bytes → Bytes → ℤ → Bytes → Exec Unit
  unfolding get_alphabet_nodes gas_transfer
  cheque id user amount lock_acc = do
    alphabet ← get_alphabet_nodes
    by_nodes env alphabet "this method must be invoked by alphabet" id (do
      reply ←
          call_back env env.gas_hash "transfer"
            (bytes env.executing_script_hash ∷ bytes user ∷ int amount ∷ null ∷ [])
      transferred ← as_flag reply
      require transferred "failed to transfer funds, aborting"
      notify "Cheque" (bytes id ∷ bytes user ∷ int amount ∷ bytes lock_acc ∷ []))

  unfoldable pub inner_ring_candidate_add : Bytes → Exec Unit
  unfolding gas_transfer
  inner_ring_candidate_add key = do
    check_witness env key
    cell ← get (candidates_key ++ key)
    elim cell [ none ↦ done | some _ ↦ panic "candidate already in the list" ]
    fee ← read vm.numbers (config_prefix ++ codes "InnerRingCandidateFee")
    transferred ←
        gas_transfer env (vm.create_standard_account key) env.executing_script_hash fee
          (bytes ignore_deposit_notification)
    require transferred "failed to transfer funds, aborting"
    put vm.raw (candidates_key ++ key) (1 ∷ [])

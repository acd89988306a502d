-- ===== src/Frostfs/Deposit.antt =====
-- Deposits and withdrawals of the frostfs contract (frostfs/frostfs_contract.go, `OnNEP17Payment`,
-- `Withdraw`): the bounds on the amounts, and the notifications that the side chain acts on.
use frostfs_contract.Prelude.{
  ◌≡◌, refl, inl, inr, Bool, true, false, not, String, List, [], ◌∷◌, ◌++◌, ◌==◌, ◌||◌, ◌&&◌, arith,
  if◌then◌else◌, length, Option-cases,
}
use frostfs_contract.Prelude.Int.{ℤ, pos, ltb_ℤ, leb_ℤ, ◌≤ℤ◌}
use frostfs_contract.Prelude.Bytes.{Bytes, bytes_equal}
use frostfs_contract.Host.Storage.{Vm, Env, int, bytes}
use frostfs_contract.Host.Exec.{
  State, ok, err, aborted, >>=-eq-ok, ◌>>=◌, ◌>>◌, require, read, notify, Exec,
}
use frostfs_contract.Common.Quorum.{notary_key}
use frostfs_contract.Frostfs.{
  processing_key, max_balance_amount, max_balance_amount_gas, ignore_deposit_notification, in_gas,
  gas_transfer, get_alphabet_nodes,
}
use frostfs_contract.Frostfs.Funds.{
  check_amount, check_gas_caller, receiver_of, on_nep17_payment, pay_nodes, fee_key, fee_paid,
  pay_fee, check_bounds, withdraw,
}

module _ ⦃vm : Vm⦄ (env : Env) where
  gas_transfer-kept :
      (from to : Bytes) (amount : ℤ) (s t : State) (b : Bool)
      → gas_transfer env from to amount (bytes []) s ≡ ok (b, t)
      → (t.events ≡ s.events) × (t.storage ≡ s.storage)
  unfolding gas_transfer
  gas_transfer-kept from to amount s t b h = ground arith

  abbrev pub deposited : State → Bytes → ℤ → Bytes → State
  deposited s from amount receiver = record s {
    events =
        s.events
        ++ ("Deposit", bytes from ∷ int amount ∷ bytes receiver ∷ bytes env.tx_hash ∷ []) ∷ [];
  }

  -- The amounts that are accepted.
  abbrev pub amount_valid : ℤ → Bool
  amount_valid amount = not (leb_ℤ amount (pos 0)) && not (ltb_ℤ max_balance_amount_gas amount)

  check_amount-eq :
      (amount : ℤ) (s : State)
      → (reason : String) × (check_amount env amount s
          ≡ (if amount_valid amount then ok (tt, s) else err (aborted reason)))
  unfolding check_amount
  check_amount-eq amount s = (
    if leb_ℤ amount (pos 0) then "amount must be positive" else "out of max amount limit",
    ground arith,
  )

  check_gas_caller-eq :
      (s : State)
      → check_gas_caller env s ≡ (
          if bytes_equal env.calling_script_hash env.gas_hash
          then ok (tt, s)
          else err (aborted "only GAS can be accepted for deposit"))
  unfolding check_gas_caller
  check_gas_caller-eq s = ground arith

  receiver_of-eq :
      (from rcv : Bytes) (s : State)
      → receiver_of env from rcv s ≡ (
          if length rcv == 20 || length rcv == 0
          then ok (if length rcv == 20 then rcv else from, s)
          else err (aborted "invalid data argument, expected Hash160"))
  unfolding receiver_of
  receiver_of-eq from rcv s = ground arith

  -- A payment that is not marked to be ignored is a deposit exactly if its amount is positive and
  -- at most 9000 GAS, it comes from the GAS contract and its data are an address or empty; the
  -- deposit is for the address, or for the payer, and changes nothing but the notifications. Every
  -- other payment is aborted.
  pub on_nep17_payment_lem :
      (from rcv : Bytes) (amount : ℤ) (s : State)
      → bytes_equal rcv ignore_deposit_notification ≡ false
      → let valid =
          amount_valid amount
          && (bytes_equal env.calling_script_hash env.gas_hash
              && (length rcv == 20 || length rcv == 0)) in
        (reason : String) × (on_nep17_payment env from amount rcv s ≡ (
          if valid
          then ok (tt, deposited s from amount (if length rcv == 20 then rcv else from))
          else err (aborted reason)))
  on_nep17_payment_lem from rcv amount s payment =
      let (reason, eq) = check_amount-eq amount s in
      (
        if amount_valid amount
            then (if bytes_equal env.calling_script_hash env.gas_hash
                then "invalid data argument, expected Hash160"
                else "only GAS can be accepted for deposit")
            else reason,
        unfold on_nep17_payment in
            ground (arith, eq, check_gas_caller-eq s, receiver_of-eq from rcv s),
      )

  -- A payment that the contract makes to itself for a candidate's fee is no deposit.
  pub on_nep17_payment-ignored :
      (from : Bytes) (amount : ℤ) (s : State)
      → on_nep17_payment env from amount ignore_deposit_notification s ≡ ok (tt, s)
  unfolding on_nep17_payment
  on_nep17_payment-ignored from amount s = refl

  -- Paying the nodes of the alphabet tells nobody and changes no storage of the contract.
  pay_nodes-kept :
      (user : Bytes) (fee : ℤ) (nodes : List Bytes) (s t : State)
      → pay_nodes env user fee nodes s ≡ ok (tt, t)
      → (t.events ≡ s.events) × (t.storage ≡ s.storage)
  unfolding pay_nodes
  pay_nodes-kept user fee [] s t h = ground arith
  pay_nodes-kept user fee (node ∷ nodes) s t h =
      let (paid, u, paying, more) =
        >>=-eq-ok (gas_transfer env user (vm.create_standard_account node) fee (bytes []))
          (λ transferred. require transferred "failed to transfer withdraw fee, aborting" >>= λ _.
            pay_nodes env user fee nodes)
          s h in
      let (_, v, required, rest) =
        >>=-eq-ok (require paid "failed to transfer withdraw fee, aborting")
          (λ _. pay_nodes env user fee nodes) u more in
      let (events, storage) = pay_nodes-kept user fee nodes v t rest in
      (
        ground
            (arith, gas_transfer-kept user (vm.create_standard_account node) fee s u paid paying),
        ground
            (arith, gas_transfer-kept user (vm.create_standard_account node) fee s u paid paying),
      )

  get_alphabet_nodes-kept :
      (s t : State) (nodes : List Bytes) → get_alphabet_nodes s ≡ ok (nodes, t) → t ≡ s
  unfolding get_alphabet_nodes
  get_alphabet_nodes-kept s t nodes h = ground arith

  one_fee-kept :
      (user to : Bytes) (fee : ℤ) (s t : State)
      → (gas_transfer env user to fee (bytes []) >>= λ transferred.
            require transferred "failed to transfer withdraw fee, aborting")
          s
        ≡ ok (tt, t)
      → (t.events ≡ s.events) × (t.storage ≡ s.storage)
  one_fee-kept user to fee s t h =
      let (paid, u, paying, required) =
        >>=-eq-ok (gas_transfer env user to fee (bytes []))
          (λ transferred. require transferred "failed to transfer withdraw fee, aborting") s h in
      let kept = gas_transfer-kept user to fee s u paid paying in
      (ground (arith, kept.0), ground (arith, kept.1))

  fee_paid-kept :
      (user : Bytes) (off : Bool) (fee : ℤ) (s t : State)
      → fee_paid env user off fee s ≡ ok (tt, t)
      → (t.events ≡ s.events) × (t.storage ≡ s.storage)
  unfolding fee_paid
  fee_paid-kept user true fee s t h =
      let (nodes, u, listed, paying) =
        >>=-eq-ok get_alphabet_nodes (λ alphabet. pay_nodes env user fee alphabet) s h in
      rw (← get_alphabet_nodes-kept s u nodes listed) (pay_nodes-kept user fee nodes u t paying)
  fee_paid-kept user false fee s t h =
      let (to, u, known, paying) =
        >>=-eq-ok (read vm.raw processing_key)
          (λ to. gas_transfer env user to fee (bytes []) >>= λ transferred.
            require transferred "failed to transfer withdraw fee, aborting")
          s h in
      let same : u ≡ s = ground arith in rw (← same) (one_fee-kept user to fee u t paying)

  pay_fee-kept :
      (user : Bytes) (s t : State)
      → pay_fee env user s ≡ ok (tt, t)
      → (t.events ≡ s.events) × (t.storage ≡ s.storage)
  unfolding pay_fee
  pay_fee-kept user s t h = elim (Option-cases (vm.flags.cast (vm.get s.storage notary_key))) [
    | inl e ↦ absurd (ground arith)
    | inr (off, e) ↦ elim (Option-cases (vm.numbers.cast (vm.get s.storage fee_key))) [
      | inl e' ↦ absurd (ground arith)
      | inr (fee, e') ↦ fee_paid-kept user off fee s t (ground arith)
    ]
  ]

  check_bounds-ok :
      (amount : ℤ) (s t : State)
      → check_bounds env amount s ≡ ok (tt, t)
      → (pos 0 ≤ℤ amount) × (amount ≤ℤ max_balance_amount) × (t ≡ s)
  unfolding check_bounds
  check_bounds-ok amount s t h = ground arith

  abbrev told : Bytes → ℤ → Exec Unit
  told user amount = notify "Withdraw" (bytes user ∷ int (in_gas amount) ∷ bytes env.tx_hash ∷ [])

  -- A successful Withdraw is signed by the user, its amount lies between 0 and 9000, zero
  -- included, it changes no storage, and it adds one notification, of the amount in the precision
  -- of GAS.
  pub withdraw_lem :
      (user : Bytes) (amount : ℤ) (s t : State)
      → withdraw env user amount s ≡ ok (tt, t)
      → (env.check_witness user ≡ true)
        × (pos 0 ≤ℤ amount)
        × (amount ≤ℤ max_balance_amount)
        × (t.storage ≡ s.storage)
        × (t.events
            ≡ s.events
              ++ ("Withdraw", bytes user ∷ int (in_gas amount) ∷ bytes env.tx_hash ∷ []) ∷ [])
  unfolding withdraw
  withdraw_lem user amount s t h =
      let (_, u, signing, h1) =
        >>=-eq-ok (require (env.check_witness user) "you should be the owner of the wallet")
          (λ _. check_bounds env amount >> (pay_fee env user >> told user amount)) s h in
      let (_, v, bounding, h2) =
        >>=-eq-ok (check_bounds env amount) (λ _. pay_fee env user >> told user amount) u h1 in
      let (_, w, paying, h3) = >>=-eq-ok (pay_fee env user) (λ _. told user amount) v h2 in
      let (e1, st) = pay_fee-kept user v w paying in
      let (low, high, same) = check_bounds-ok amount u v bounding in
      let signed : (env.check_witness user ≡ true) × (u ≡ s) = ground arith in
      (signed.0, low, high, ground (arith, st), ground (arith, e1))

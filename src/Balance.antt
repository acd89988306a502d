-- ===== src/Balance.antt =====
-- The balance contract: accounts, the supply and the transfer of the token
-- (balance/balance_contract.go). The methods that the contract exports are in Balance.Methods.
pub mod Methods
pub mod Ledger
pub mod Accounts
pub mod Transfers
pub mod Supply
pub mod Invariant
pub mod Locks
pub mod Epoch
pub mod Locking
pub mod Negative
use frostfs_contract.Prelude.{
  ℕ, Bool, true, false, Option, none, some, List, [], ◌∷◌, ◌||◌, ◌&&◌, not, ◌==◌, if◌then◌else◌,
  length,
}
use frostfs_contract.Prelude.Int.{ℤ, pos, ◌+ℤ◌, ◌-ℤ◌, ltb_ℤ, eqb_ℤ}
use frostfs_contract.Prelude.Bytes.{Bytes, codes, bytes_equal}
use frostfs_contract.Host.Storage.{Vm, Env, Codec, Arg, int, bytes}
use frostfs_contract.Host.Exec.{Exec, pure, done, or_fault, get, put, delete, notify, ◌>>=◌, ◌>>◌}

pub record Account : Type 0 where
  pub balance : ℤ
  pub until : ℤ
  pub parent : Bytes

-- `Account{}`
abbrev pub empty_account : Account
empty_account = record { balance = pos 0; until = pos 0; parent = [] }

-- `token.CirculationKey`
abbrev pub circulation_key : Bytes
circulation_key = codes "MainnetGAS"

-- `interop.Hash160Len`
abbrev pub hash160_len : ℕ
hash160_len = 20

-- `isUsableAddress`
unfoldable pub is_usable_address : Env → Bytes → Bool
is_usable_address env addr =
    length addr == hash160_len
    && (env.check_witness addr || bytes_equal env.calling_script_hash addr)

module _ ⦃vm : Vm⦄ where
  -- `Token.getSupply`
  unfoldable pub get_supply : Exec ℤ
  get_supply = do
    cell ← get circulation_key
    elim cell [ none ↦ pure (pos 0) | some v ↦ or_fault (vm.numbers.cast (some v)) ]

module _ ⦃vm : Vm⦄ ⦃accounts : Codec vm.Value Account⦄ where
  unfoldable pub get_account : Bytes → Exec Account
  get_account key = do
    cell ← get key
    elim cell [ none ↦ pure empty_account | some v ↦ or_fault (accounts.cast (some v)) ]

  unfoldable pub balance_of : Bytes → Exec ℤ
  unfolding get_account
  balance_of holder = do acc ← get_account holder; pure acc.balance

  -- the end of `canTransfer`: the sender's account, if it holds the amount
  unfoldable pub check_funds : Bytes → ℤ → Exec (Account × Bool)
  unfolding get_account
  check_funds from amount = do
    amount_from ← get_account from
    if ltb_ℤ amount_from.balance amount
        then pure (empty_account, false)
        else pure (amount_from, true)

  unfoldable pub can_transfer : Env → Bytes → Bytes → ℤ → Bool → Exec (Account × Bool)
  unfolding check_funds is_usable_address
  can_transfer env from to amount inner_ring =
      if not inner_ring
      then (if not (length to == hash160_len) || not (is_usable_address env from)
          then pure (empty_account, false)
          else check_funds from amount)
      else if length from == 0
      then pure (empty_account, true)
      else check_funds from amount

  -- the part of `transfer` that takes the amount from the sender
  unfoldable pub debit : Bytes → Account → ℤ → Exec Unit
  debit from amount_from amount =
      if length from == hash160_len
      then (if eqb_ℤ amount_from.balance amount
          then delete from
          else put accounts from (record amount_from { balance = amount_from.balance -ℤ amount }))
      else done

  -- the part of `transfer` that gives the amount to the receiver
  unfoldable pub credit : Bytes → ℤ → Exec Unit
  unfolding get_account
  credit to amount =
      if length to == hash160_len
      then (get_account to >>= λ amount_to.
          put accounts to (record amount_to { balance = amount_to.balance +ℤ amount }))
      else done

  -- `Token.transfer`
  unfoldable pub transfer : Env → Bytes → Bytes → ℤ → Bool → Bytes → Exec Bool
  unfolding can_transfer debit credit
  transfer env from to amount inner_ring details = do
    (amount_from, possible) ← can_transfer env from to amount inner_ring
    if not possible then pure false else do
      debit from amount_from amount
      credit to amount
      notify "Transfer" (bytes from ∷ bytes to ∷ int amount ∷ [])
      notify "TransferX" (bytes from ∷ bytes to ∷ int amount ∷ bytes details ∷ [])
      pure true

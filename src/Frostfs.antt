-- ===== src/Frostfs.antt =====
-- The frostfs contract of the main chain (frostfs/frostfs_contract.go): deposits and withdrawals of
-- GAS, the candidates for the inner ring, the alphabet and the configuration.
pub mod Alphabet
pub mod Funds
pub mod Deposit
pub mod Config
use frostfs_contract.Prelude.{
  ℕ, zero, suc, ◌+◌, ◌-◌, ◌*◌, Bool, true, false, not, Option, none, some, List, [], ◌∷◌, ◌++◌,
  ◌==◌, if◌then◌else◌, length,
}
use frostfs_contract.Prelude.Int.{ℤ, pos, negsuc}
use frostfs_contract.Prelude.Bytes.{Bytes, codes}
use frostfs_contract.Host.Storage.{Vm, Env, Arg, int, bytes, flag}
use frostfs_contract.Host.Reply.{as_flag}
use frostfs_contract.Host.Exec.{
  Exec, ok, err, fault, pure, panic, done, require, or_fault, get, put, call_contract, ◌>>=◌, ◌>>◌,
}

abbrev pub config_prefix : Bytes
config_prefix = codes "config"

abbrev pub alphabet_key : Bytes
alphabet_key = codes "alphabet"

abbrev pub candidates_key : Bytes
candidates_key = codes "candidates"

abbrev pub processing_key : Bytes
processing_key = codes "processingScriptHash"

-- `maxBalanceAmount` and `maxBalanceAmountGAS`
abbrev pub max_balance_amount : ℤ
max_balance_amount = pos 9000

abbrev pub max_balance_amount_gas : ℤ
max_balance_amount_gas = pos 900000000000

-- `ignoreDepositNotification`
abbrev pub ignore_deposit_notification : Bytes
ignore_deposit_notification = 0x57 ∷ 0x0b ∷ []

-- `amount * 100000000`
abbrev pub in_gas : ℤ → ℤ
in_gas (pos n) = pos (n * 100000000)
in_gas (negsuc n) = negsuc (suc n * 100000000 - 1)

module _ ⦃vm : Vm⦄ where
  -- `getAlphabetNodes`
  unfoldable pub get_alphabet_nodes : Exec (List Bytes)
  get_alphabet_nodes = do
    cell ← get alphabet_key
    elim cell [ none ↦ pure [] | some v ↦ or_fault (vm.key_lists.cast (some v)) ]

  unfoldable pub get_config : Bytes → Exec (Option vm.Value)
  get_config key = get (config_prefix ++ key)

  unfoldable pub set_config : Bytes → Bytes → Exec Unit
  set_config key val = put vm.raw (config_prefix ++ key) val

  -- `gas.Transfer`
  unfoldable pub gas_transfer : Env → Bytes → Bytes → ℤ → Arg → Exec Bool
  gas_transfer env from to amount payload = do
    reply ←
        call_contract env env.gas_hash "transfer"
          (bytes from ∷ bytes to ∷ int amount ∷ payload ∷ [])
    as_flag reply

-- ===== src/Nns/Tokens.antt =====
-- Domain names as tokens (nns/nns_contract.go): the state of a name, the expiration of the parents,
-- the tokens and balances of accounts, and the token that a name belongs to.
use mathlib.Core.List.{reverse}
use frostfs_contract.Prelude.{
  ℕ, ◌+◌, Bool, true, false, none, some, List, [], ◌∷◌, ◌++◌, length, drop, if◌then◌else◌,
}
use frostfs_contract.Prelude.Int.{ℤ, pos, ◌+ℤ◌, ltb_ℤ, leb_ℤ, eqb_ℤ}
use frostfs_contract.Prelude.Bytes.{Bytes}
use frostfs_contract.Host.Storage.{Vm, Env, Codec, Arg, int, bytes}
use frostfs_contract.Host.Exec.{
  Exec, pure, panic, done, or_fault, get, put, delete, read, notify, call_back, ◌>>=◌, ◌>>◌,
}
use frostfs_contract.Nns.{
  NameState, total_supply_key, balance_key, price_key, account_token_key, name_key,
  ensure_not_expired,
}
use frostfs_contract.Nns.Names.{split_and_check}

module _ ⦃vm : Vm⦄ where
  -- `getTotalSupply` and `updateTotalSupply`
  unfoldable pub get_total_supply : Exec ℤ
  get_total_supply = read vm.numbers total_supply_key

  unfoldable pub update_total_supply : ℤ → Exec Unit
  unfolding get_total_supply
  update_total_supply diff = do ts ← get_total_supply; put vm.numbers total_supply_key (ts +ℤ diff)

  -- the cell of a balance; no cell stands for 0
  unfoldable pub read_balance : Bytes → Exec ℤ
  read_balance account = do
    cell ← get (balance_key account)
    elim cell [ none ↦ pure (pos 0) | some b ↦ or_fault (vm.numbers.cast (some b)) ]

  unfoldable pub update_balance : Bytes → Bytes → ℤ → Exec Unit
  unfolding read_balance
  update_balance token_id account diff = do
    balance ← read_balance account
    if eqb_ℤ (balance +ℤ diff) (pos 0)
        then delete (balance_key account)
        else put vm.numbers (balance_key account) (balance +ℤ diff)
    if ltb_ℤ diff (pos 0)
        then delete (account_token_key account token_id)
        else put vm.raw (account_token_key account token_id) token_id

  -- `GetPrice`
  unfoldable pub get_price : Exec ℤ
  get_price = read vm.numbers price_key

module _ ⦃vm : Vm⦄ (env : Env) where
  -- `runtime.BurnGas(GetPrice())`
  unfoldable pub burn_price : Exec Unit
  unfolding get_price
  burn_price = do price ← get_price; or_fault (if env.can_burn price then some tt else none)

  -- nil stands for no previous owner
  unfoldable pub post_transfer : Arg → Bytes → Bytes → Arg → Exec Unit
  post_transfer from to token_id data_arg = do
    notify "Transfer" (from ∷ bytes to ∷ int (pos 1) ∷ bytes token_id ∷ [])
    λ s.
        (if vm.is_contract s.world to
            then (call_back env to "onNEP11Payment"
                  (from ∷ int (pos 1) ∷ bytes token_id ∷ data_arg ∷ [])
                >>= λ reply. done)
            else done)
          s

module _ ⦃vm : Vm⦄ ⦃names : Codec vm.Value NameState⦄ where
  -- `putNameState`, of the name that the state holds, and `putNameStateWithKey`
  unfoldable pub put_name_state_at : Bytes → NameState → Exec Unit
  put_name_state_at token_id ns = put names (name_key token_id) ns

  unfoldable pub put_name_state : NameState → Exec Unit
  unfolding put_name_state_at
  put_name_state ns = put_name_state_at ns.name ns

module _ ⦃vm : Vm⦄ ⦃names : Codec vm.Value NameState⦄ (env : Env) where
  -- a name that has no state, or an expired one
  unfoldable pub is_expired : Bytes → Exec Bool
  is_expired name = do
    cell ← get (name_key name)
    elim cell [
      | none ↦ pure true
      | some raw ↦
          (or_fault (names.cast (some raw)) >>= λ ns. pure (leb_ℤ ns.expiration (pos env.time)))
    ]

  -- the loop of `parentExpired` over the fragments, the last one first, behind a name
  unfoldable pub any_expired : Bytes → List Bytes → Exec Bool
  unfolding is_expired
  any_expired name [] = pure false
  any_expired name (fragment ∷ fragments) = do
    expired ← is_expired (fragment ++ b'.' ∷ name)
    if expired then pure true else any_expired (fragment ++ b'.' ∷ name) fragments

  -- the loop from its begin, where the last fragment is a name itself
  unfoldable pub expired_from_root : List Bytes → Exec Bool
  unfolding is_expired any_expired
  expired_from_root [] = pure false
  expired_from_root (root ∷ fragments) = do
    expired ← is_expired root
    if expired then pure true else any_expired root fragments

  unfoldable pub parent_expired : ℕ → List Bytes → Exec Bool
  unfolding expired_from_root
  parent_expired first fragments = expired_from_root (reverse (drop first fragments))

  -- `getNameStateWithKey`, for the key of a token
  unfoldable pub get_name_state_at : Bytes → Exec NameState
  unfolding ensure_not_expired
  get_name_state_at token_id = do
    cell ← get (name_key token_id)
    elim cell [
      | none ↦ panic "token not found"
      | some raw ↦ do ns ← or_fault (names.cast (some raw)); ensure_not_expired env ns; pure ns
    ]

  unfoldable pub get_name_state : Bytes → Exec NameState
  unfolding get_name_state_at parent_expired
  get_name_state token_id = do
    ns ← get_name_state_at token_id
    expired ← parent_expired 1 (vm.string_split token_id b'.')
    if expired then panic "parent domain has expired" else pure ns

  -- the loop of `tokenIDFromName` over all fragments but the last one; `rest` is `name[sum:]`
  unfoldable pub find_token : Bytes → Bytes → List Bytes → Exec Bytes
  find_token name rest [] = pure name
  find_token name rest (_ ∷ []) = pure name
  find_token name rest (fragment ∷ next ∷ fragments) = do
    expired ← is_expired rest
    if expired
        then find_token name (drop (length fragment + 1) rest) (next ∷ fragments)
        else pure rest

  unfoldable pub token_id_from_name : Bytes → Exec Bytes
  unfolding find_token split_and_check
  token_id_from_name name = elim (split_and_check name true) [
    | none ↦ panic "invalid domain name format"
    | some fragments ↦ find_token name name fragments
  ]

-- ===== src/Balance/Ledger.antt =====
-- The accounts of a state as balances of addresses, and the sum of balances over a list of
-- addresses (balance/balance_contract.go, `getAccount`, `getSupply`).
use frostfs_contract.Prelude.{
  ◌≡◌, refl, true, false, Option, none, some, List, [], ◌∷◌, arith, if◌then◌else◌, length,
}
use frostfs_contract.Prelude.Int.{ℤ, pos, ◌+ℤ◌, int_laws}
use frostfs_contract.Prelude.Bytes.{Bytes, bytes_equal, bytes_equal_sound, bytes_equal_refl}
use frostfs_contract.Host.Storage.{Vm, Codec}
use frostfs_contract.Host.Exec.{State, ok}
use frostfs_contract.Common.Vote.{contains}
use frostfs_contract.Common.Vote.Ballots.{NoRepeat}
use frostfs_contract.Balance.{Account, empty_account, hash160_len, get_account, circulation_key}

module _ ⦃vm : Vm⦄ where
  -- The supply that `totalSupply` returns, none if it cannot be read.
  abbrev pub supply_at : State → Option ℤ
  supply_at s = elim (vm.get s.storage circulation_key) [
    | none ↦ some (pos 0)
    | some v ↦ vm.numbers.cast (some v)
  ]

module _ ⦃vm : Vm⦄ ⦃accounts : Codec vm.Value Account⦄ where
  -- What `getAccount` finds, none if the cell cannot be read.
  abbrev pub account_at : State → Bytes → Option Account
  account_at s k = elim (vm.get s.storage k) [
    | none ↦ some empty_account
    | some v ↦ accounts.cast (some v)
  ]

  abbrev pub balance_at : State → Bytes → ℤ
  balance_at s k = elim (account_at s k) [ none ↦ pos 0 | some a ↦ a.balance ]

  -- Every cell whose key is an address holds an account.
  abbrev pub HasAccounts : State → Type 0
  HasAccounts s = (k : Bytes) → length k ≡ hash160_len → (a : Account) × (account_at s k ≡ some a)

  pub get_account-eq :
      (k : Bytes) (s : State) (a : Account) → account_at s k ≡ some a → get_account k s ≡ ok (a, s)
  unfolding get_account
  get_account-eq k s a h = ground arith

-- The sum of a function over a list of addresses.
abbrev pub sum_of : (Bytes → ℤ) → List Bytes → ℤ
sum_of f [] = pos 0
sum_of f (k ∷ ks) = f k +ℤ sum_of f ks

-- One address has another value: the change is that of the sum.
abbrev pub changed_by : (Bytes → ℤ) → Bytes → ℤ → Bytes → ℤ
changed_by f a x k = if bytes_equal a k then f k +ℤ x else f k

pub sum_of-changed_missing :
    (f : Bytes → ℤ) (a : Bytes) (x : ℤ) (ks : List Bytes)
    → contains ks a ≡ false
    → sum_of (changed_by f a x) ks ≡ sum_of f ks
unfolding contains
sum_of-changed_missing f a x [] h = refl
sum_of-changed_missing f a x (k ∷ ks) h =
    ground (arith, sum_of-changed_missing f a x ks, bytes_equal_sound a k, bytes_equal_refl k)

pub sum_of-changed :
    (f : Bytes → ℤ) (a : Bytes) (x : ℤ) (ks : List Bytes)
    → NoRepeat ks
    → contains ks a ≡ true
    → sum_of (changed_by f a x) ks ≡ sum_of f ks +ℤ x
unfolding contains
sum_of-changed f a x [] once known = cc
sum_of-changed f a x (k ∷ ks) once known = grind (
  int_laws,
  sum_of-changed f a x ks once.1,
  sum_of-changed_missing f a x ks,
  bytes_equal_sound a k,
  bytes_equal_sound k a,
  bytes_equal_refl k,
)

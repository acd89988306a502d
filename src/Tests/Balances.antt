-- ===== src/Tests/Balances.antt =====
-- The theorems about the balance contract at a state with an account and a lock of its assets.
use frostfs_contract.Prelude.{
  ℕ, ◌≡◌, refl, true, false, none, some, List, [], ◌∷◌, arith, if◌then◌else◌, length, ◌⊎◌, inl, inr,
  Bool-cases, ◌||◌,
}
use frostfs_contract.Prelude.Int.{◌≤ℤ◌, pos, negsuc, ◌+ℤ◌, ◌-ℤ◌, ltb_ℤ}
use frostfs_contract.Prelude.Bytes.{Bytes, bytes_equal, bytes_equal_sound}
use frostfs_contract.Host.Storage.{lookup}
use frostfs_contract.Host.Exec.{State, ok, err, panicked}
use frostfs_contract.Common.Ir.{alphabet_address}
use frostfs_contract.Common.Vote.{contains}
use frostfs_contract.Common.Quorum.{notary_key}
use frostfs_contract.Balance.{Account, circulation_key, hash160_len, transfer, is_usable_address}
use frostfs_contract.Balance.Ledger.{balance_at, account_at, HasAccounts, changed_by}
use frostfs_contract.Balance.Methods.{
  mint, mint_assets, lock_assets, burn, burn_assets, new_epoch, transfer_method,
}
use frostfs_contract.Balance.Transfers.{Transferred, Unlocking, moved, transfer_lem}
use frostfs_contract.Balance.Supply.{Accounted, Backed, mint_assets_lem, burn_assets_lem}
use frostfs_contract.Balance.Invariant.{transfer_method-Backed}
use frostfs_contract.Balance.Negative.{transfer_method-negative}
use frostfs_contract.Balance.Locks.{ValidLocks, Released}
use frostfs_contract.Balance.Locking.{Locked, lock_assets-Locked}
use frostfs_contract.Balance.Epoch.{new_epoch_lem}
use frostfs_contract.Tests.Cells.{flag_cell, number_cell, account_cell}
use frostfs_contract.Tests.Machine.{machine, account_codec, Cells, holding, after, signed_by}

-- An address whose bytes are all the same.
abbrev pub address_of : ℕ → Bytes
address_of n = n ∷ n ∷ n ∷ n ∷ n ∷ n ∷ n ∷ n ∷ n ∷ n ∷ n ∷ n ∷ n ∷ n ∷ n ∷ n ∷ n ∷ n ∷ n ∷ n ∷ []

abbrev alice : Bytes
alice = address_of 1

abbrev vault : Bytes
vault = address_of 2

abbrev everybody : List Bytes
everybody = alice ∷ vault ∷ []

abbrev alice_account : Account
alice_account = record { balance = pos 100; until = pos 0; parent = [] }

-- Assets of the first account, locked until the epoch 5.
abbrev vault_account : Account
vault_account = record { balance = pos 50; until = pos 5; parent = alice }

abbrev settings : Cells
settings = (notary_key, flag_cell false) ∷ (circulation_key, number_cell (pos 150)) ∷ []

abbrev bank_state : State
bank_state =
    holding ((alice, account_cell alice_account) ∷ (vault, account_cell vault_account) ∷ settings)

settings-lookup : (k : Bytes) → length k ≡ hash160_len → lookup k settings ≡ none
settings-lookup k len =
    ground (arith, bytes_equal_sound notary_key k, bytes_equal_sound circulation_key k)

bank_state-account :
    (k : Bytes)
    → length k ≡ hash160_len
    → account_at bank_state k ≡ (
        if bytes_equal alice k
        then some alice_account
        else if bytes_equal vault k
        then some vault_account
        else some (record { balance = pos 0; until = pos 0; parent = [] }))
bank_state-account k len = ground (arith, settings-lookup k len)

bank_state-HasAccounts : HasAccounts bank_state
bank_state-HasAccounts k len = elim (Bool-cases (bytes_equal alice k)) [
  | inl e ↦ (alice_account, ground (arith, bank_state-account k len))
  | inr ne ↦ elim (Bool-cases (bytes_equal vault k)) [
    | inl e ↦ (vault_account, ground (arith, bank_state-account k len))
    | inr ne' ↦ (
      record { balance = pos 0; until = pos 0; parent = [] },
      ground (arith, bank_state-account k len),
    )
  ]
]

bank_state-Accounted : Accounted bank_state (balance_at bank_state) (pos 150)
bank_state-Accounted = record {
  balances = λ k len. refl;
  has_accounts = bank_state-HasAccounts;
  supply_eq = refl;
}

bank_state-elsewhere :
    (k : Bytes)
    → length k ≡ hash160_len
    → bytes_equal alice k ≡ false
    → bytes_equal vault k ≡ false
    → balance_at bank_state k ≡ pos 0
bank_state-elsewhere k len not_alice not_vault =
    rw (bank_state-account k len, not_alice, not_vault) refl

not_listed :
    (a b k : Bytes)
    → contains (a ∷ b ∷ []) k ≡ false
    → (bytes_equal a k ≡ false) × (bytes_equal b k ≡ false)
unfolding contains
not_listed a b k out = ground arith

listed_less : (a k : Bytes) (ks : List Bytes) → contains (a ∷ ks) k ≡ false → contains ks k ≡ false
unfolding contains
listed_less a k ks out = ground arith

listed_more : (a k : Bytes) (ks : List Bytes) → contains ks k ≡ true → contains (a ∷ ks) k ≡ true
unfolding contains
listed_more a k ks h = ground arith

bank_state-Backed : Backed everybody bank_state (pos 150)
unfolding contains ◌+ℤ◌
bank_state-Backed = record {
  are_addresses = (refl, (refl, tt));
  distinct = (refl, (refl, tt));
  accounted = bank_state-Accounted;
  elsewhere = λ k len out.
      bank_state-elsewhere k len (not_listed alice vault k out).0 (not_listed alice vault k out).1;
  sum_eq = refl;
}

bank_state-ValidLocks : ValidLocks everybody bank_state
unfolding contains
bank_state-ValidLocks = record {
  valid = λ k a len h locked. elim (Bool-cases (bytes_equal alice k)) [
    | inl e ↦
        let same : alice_account ≡ a = ground (arith, bank_state-account k len) in
        absurd (locked (rw (← same) refl))
    | inr ne ↦ elim (Bool-cases (bytes_equal vault k)) [
      | inl e ↦
          let same : vault_account ≡ a = ground (arith, bank_state-account k len) in
          (ground arith, rw (← same) refl, rw (← same) refl)
      | inr ne' ↦ absurd (locked (ground (arith, bank_state-account k len)))
    ]
  ];
}

-- The multisignature of the alphabet.
abbrev signature : Bytes
signature = 3 ∷ []

abbrev minted_state : State
unfolding mint
minted_state = after (mint (signed_by signature) alice (pos 7) [] bank_state)

abbrev burnt_state : State
unfolding burn
burnt_state = after (burn (signed_by signature) alice (pos 7) [] bank_state)

mint_assets_example :
    (t : State) × (mint_assets (signed_by signature) alice (pos 7) [] bank_state ≡ ok (tt, t))
    × Accounted t (changed_by (balance_at bank_state) alice (pos 7)) (pos 150 +ℤ pos 7)
mint_assets_example =
    mint_assets_lem (signed_by signature) bank_state (pos 150) (pos 7) [] alice bank_state-Accounted
      refl

burn_assets_example :
    (t : State) × (burn_assets (signed_by signature) alice (pos 7) [] bank_state ≡ (
      if ltb_ℤ (balance_at bank_state alice) (pos 7)
      then err (panicked "can't transfer assets")
      else if ltb_ℤ (pos 150) (pos 7)
      then err (panicked "negative supply after burn")
      else ok (tt, t)))
    × Accounted t (changed_by (balance_at bank_state) alice (pos 0 -ℤ pos 7)) (pos 150 -ℤ pos 7)
burn_assets_example =
    burn_assets_lem (signed_by signature) bank_state (pos 150) (pos 7) [] alice bank_state-Accounted
      refl

transfer_example :
    (t : State) × (transfer (signed_by alice) alice vault (pos 7) false [] bank_state ≡ (
      if false || is_usable_address (signed_by alice) alice
      then (if ltb_ℤ (balance_at bank_state alice) (pos 7)
          then ok (false, bank_state)
          else ok (true, t))
      else ok (false, bank_state)))
    × Transferred bank_state t (moved bank_state alice vault (pos 7)) alice vault (pos 7) []
    × Unlocking (signed_by alice) alice vault (pos 7) [] bank_state t
transfer_example =
    transfer_lem (signed_by alice) alice vault (pos 7) [] bank_state false bank_state-HasAccounts
      refl refl

transfer_method-negative_example :
    (t : State) × (transfer_method (signed_by alice) alice vault (negsuc 6) bank_state
      ≡ ok (true, t))
    × (balance_at t alice ≡ balance_at bank_state alice +ℤ pos 7)
    × (balance_at t vault ≡ balance_at bank_state vault -ℤ pos 7)
unfolding is_usable_address
transfer_method-negative_example =
    transfer_method-negative (signed_by alice) alice vault 6 bank_state bank_state-HasAccounts refl
      refl refl refl (omega arith)

new_epoch_example :
    (t : State) × (new_epoch (signed_by signature) (pos 6) bank_state ≡ ok (tt, t))
    × Released (signed_by signature) everybody (pos 150) (pos 6) (λ k. Unit {0}) bank_state t
unfolding alphabet_address
new_epoch_example =
    new_epoch_lem (signed_by signature) everybody (pos 150) (pos 6) bank_state bank_state-Backed
      bank_state-ValidLocks (inl (refl, refl))

abbrev paid_state : State
unfolding transfer_method
paid_state = after (transfer_method (signed_by alice) alice vault (pos 7) bank_state)

paid_state-eq :
    transfer_method (signed_by alice) alice vault (pos 7) bank_state ≡ ok (true, paid_state)
unfolding transfer_method transfer
paid_state-eq = refl

transfer_method-Backed_example :
    Backed everybody paid_state (pos 150)
    × ((paid_state ≡ bank_state)
        ⊎ (is_usable_address (signed_by alice) alice ≡ true)
          × (pos 7 ≤ℤ balance_at bank_state alice))
unfolding contains
transfer_method-Backed_example =
    transfer_method-Backed (signed_by alice) everybody bank_state paid_state (pos 150) (pos 7) alice
      vault true bank_state-Backed refl refl refl refl paid_state-eq

-- A third address without an account.
abbrev safe : Bytes
safe = address_of 3

abbrev everybody_else : List Bytes
everybody_else = safe ∷ everybody

bank_state-safe_Backed : Backed everybody_else bank_state (pos 150)
unfolding contains ◌+ℤ◌
bank_state-safe_Backed = record {
  are_addresses = (refl, bank_state-Backed.are_addresses);
  distinct = (refl, bank_state-Backed.distinct);
  accounted = bank_state-Accounted;
  elsewhere = λ k len out. bank_state-Backed.elsewhere k len (listed_less safe k everybody out);
  sum_eq = refl;
}

bank_state-safe_ValidLocks : ValidLocks everybody_else bank_state
bank_state-safe_ValidLocks = record {
  valid = λ k a len h locked.
      let (listed, plen, plisted) = bank_state-ValidLocks.valid k a len h locked in
      (listed_more safe k everybody listed, plen, listed_more safe a.parent everybody plisted);
}

abbrev locked_state : State
unfolding lock_assets
locked_state = after (lock_assets (signed_by signature) [] alice safe (pos 7) (pos 9) bank_state)

locked_state-eq :
    lock_assets (signed_by signature) [] alice safe (pos 7) (pos 9) bank_state
    ≡ ok (tt, locked_state)
unfolding lock_assets transfer
locked_state-eq = refl

lock_assets-Locked_example :
    Locked
      (signed_by signature)
      everybody_else
      bank_state
      (pos 150)
      (pos 7)
      (pos 9)
      alice
      safe
      []
      locked_state
unfolding contains
lock_assets-Locked_example =
    lock_assets-Locked (signed_by signature) everybody_else bank_state (pos 150) (pos 7) (pos 9)
      alice safe [] locked_state bank_state-safe_Backed bank_state-safe_ValidLocks refl refl refl
      refl refl refl locked_state-eq

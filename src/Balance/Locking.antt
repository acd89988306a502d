-- ===== src/Balance/Locking.antt =====
-- `Lock` of the balance contract behind its guard: a new lock account that is filled from the account
-- of its owner (balance/balance_contract.go, `Lock`).
use frostfs_contract.Prelude.{
  ◌≡◌, refl, ◌∙◌, sym, ap, inl, inr, true, false, some, List, [], ◌∷◌, ◌++◌, arith, if◌then◌else◌,
  length, Bool-cases,
}
use mathlib.Core.Path.{subst}
use frostfs_contract.Prelude.Int.{ℤ, pos, ◌-ℤ◌, ltb_ℤ, int_laws}
use frostfs_contract.Prelude.Bytes.{Bytes, bytes_equal, bytes_equal_sound, bytes_equal_refl}
use frostfs_contract.Host.Storage.{Vm, Env, Codec, int, bytes}
use frostfs_contract.Host.Exec.{State, ok}
use frostfs_contract.Common.Transfer.{lock_transfer_details}
use frostfs_contract.Common.Vote.{contains}
use frostfs_contract.Balance.{Account, hash160_len, circulation_key}
use frostfs_contract.Balance.Ledger.{account_at, balance_at, HasAccounts}
use frostfs_contract.Balance.Transfers.{transfer_lem, Transferred, Unlocking, moved}
use frostfs_contract.Balance.Methods.{lock_assets}
use frostfs_contract.Balance.Supply.{Backed, ne_cell, sum_of-ext}
use frostfs_contract.Balance.Invariant.{Transferred-Backed}
use frostfs_contract.Balance.Locks.{ValidLocks, NoNewLocks, ValidLocks-kept}

module _ ⦃vm : Vm⦄ ⦃accounts : Codec vm.Value Account⦄ (s : State) (from to : Bytes)
    (until : ℤ) where
  abbrev pub lock_account : Account
  lock_account = record { balance = pos 0; until = until; parent = from }

  abbrev pub opened_lock : State
  opened_lock = record s { storage = vm.put s.storage to (accounts.encode lock_account) }

  opened_lock-account :
      (k : Bytes)
      → account_at opened_lock k ≡ (if bytes_equal to k then some lock_account else account_at s k)
  opened_lock-account k = ground (
    arith,
    vm.get-put s.storage to k (accounts.encode lock_account),
    accounts.cast-encode lock_account,
  )

  opened_lock-balance :
      balance_at s to ≡ pos 0 → (k : Bytes) → balance_at opened_lock k ≡ balance_at s k
  opened_lock-balance free k = elim (Bool-cases (bytes_equal to k)) [
    | inl e ↦ ground (arith, opened_lock-account k, bytes_equal_sound to k e)
    | inr ne ↦ ground (arith, opened_lock-account k)
  ]

  opened_lock-HasAccounts : HasAccounts s → HasAccounts opened_lock
  opened_lock-HasAccounts has k len = elim (Bool-cases (bytes_equal to k)) [
    | inl e ↦ (lock_account, ground (arith, opened_lock-account k))
    | inr ne ↦ let (a, h) = has k len in (a, ground (arith, opened_lock-account k))
  ]

  opened_lock-Backed :
      (addresses : List Bytes) (supply : ℤ)
      → Backed addresses s supply
      → length to ≡ hash160_len
      → balance_at s to ≡ pos 0
      → Backed addresses opened_lock supply
  opened_lock-Backed addresses supply h lt free = record {
    are_addresses = h.are_addresses;
    distinct = h.distinct;
    accounted = record {
      balances = λ k len. refl;
      has_accounts = opened_lock-HasAccounts h.accounted.has_accounts;
      supply_eq = ground (
        arith,
        h.accounted.supply_eq,
        vm.get-put s.storage to circulation_key (accounts.encode lock_account),
        ne_cell circulation_key to (omega arith) lt,
      );
    };
    elsewhere = λ k len out. opened_lock-balance free k ∙ h.elsewhere k len out;
    sum_eq =
        sum_of-ext (balance_at opened_lock) (balance_at s) addresses h.are_addresses
          (λ k len. opened_lock-balance free k)
        ∙ h.sum_eq;
  }

  opened_lock-ValidLocks :
      (addresses : List Bytes)
      → ValidLocks addresses s
      → length from ≡ hash160_len
      → contains addresses from ≡ true
      → contains addresses to ≡ true
      → ValidLocks addresses opened_lock
  opened_lock-ValidLocks addresses v lf kf kt = record {
    valid = λ k a len h locked. elim (Bool-cases (bytes_equal to k)) [
      | inl e ↦
          let same : lock_account ≡ a = ground (arith, opened_lock-account k) in
          (ground (arith, bytes_equal_sound to k e), rw (← same) lf, rw (← same) kf)
      | inr ne ↦ v.valid k a len (ground (arith, opened_lock-account k)) locked
    ];
  }

module _ ⦃vm : Vm⦄ ⦃accounts : Codec vm.Value Account⦄ (env : Env) (addresses : List Bytes)
    (s : State) (supply amount until : ℤ) (from to tx_details : Bytes) where
  -- The state after a lock: the invariants hold, the amount has moved to the lock account, and that
  -- is for the owner until the epoch.
  pub record Locked (t : State) : Type 0 where
    pub backed : Backed addresses t supply
    pub locks : ValidLocks addresses t
    pub locked : balance_at t to ≡ amount
    pub left : balance_at t from ≡ balance_at s from -ℤ amount
    pub owned : (a : Account) × (account_at t to ≡ some a) × (a.until ≡ until) × (a.parent ≡ from)

  abbrev lock_told : State → State
  lock_told u = record u {
    events =
        u.events
        ++ ("Lock", bytes tx_details ∷ bytes from ∷ bytes to ∷ int amount ∷ int until ∷ []) ∷ [];
  }

  opened_lock-Locked :
      (u : State)
      → Backed addresses s supply
      → ValidLocks addresses s
      → length from ≡ hash160_len
      → length to ≡ hash160_len
      → contains addresses from ≡ true
      → contains addresses to ≡ true
      → bytes_equal from to ≡ false
      → balance_at s to ≡ pos 0
      → Transferred
          (opened_lock s from to until)
          u
          (moved (opened_lock s from to until) from to amount)
          from
          to
          amount
          (lock_transfer_details tx_details)
      → Unlocking env from to amount
          (lock_transfer_details tx_details)
          (opened_lock s from to until)
          u
      → Locked (lock_told u)
  opened_lock-Locked u h v lf lt kf kt ne free moves frees =
      let o = opened_lock s from to until in
      let ho = opened_lock-Backed s from to until addresses supply h lt free in
      let vo = opened_lock-ValidLocks s from to until addresses v lf kf kt in
      let hu =
        Transferred-Backed addresses o u supply amount from to (lock_transfer_details tx_details) ho
          lf lt kf kt moves in
      let w = lock_told u in
      let kept : NoNewLocks o w = record { kept = frees.kept } in
      let (a, ha) = hu.accounted.has_accounts to lt in
      let (b, hb, until_kept, parent_kept) = frees.received a ne ha in
      let apart : bytes_equal to from ≡ false =
        ground (arith, bytes_equal_sound to from, bytes_equal_refl from) in
      let same : lock_account s from to until ≡ b =
        ground (arith, opened_lock-account s from to until to, bytes_equal_refl to) in
      record {
        backed = record {
          are_addresses = hu.are_addresses;
          distinct = hu.distinct;
          accounted = record {
            balances = λ k len. refl;
            has_accounts = hu.accounted.has_accounts;
            supply_eq = hu.accounted.supply_eq;
          };
          elsewhere = hu.elsewhere;
          sum_eq = hu.sum_eq;
        };
        locks = ValidLocks-kept addresses o w vo kept;
        locked =
            moves.balances to
            ∙ rw (bytes_equal_refl to, ne, opened_lock-balance s from to until free to, free)
                (omega int_laws);
        left =
            moves.balances from
            ∙ rw (bytes_equal_refl from, opened_lock-balance s from to until free from)
                (rw apart (omega int_laws));
        owned = (
          a,
          ha,
          sym until_kept ∙ ap (λ (x : Account). x.until) (sym same),
          sym parent_kept ∙ ap (λ (x : Account). x.parent) (sym same),
        );
      }

  -- When the guarded part of Lock succeeds from a backed state with valid locks, for two different
  -- listed addresses of which the second has no balance, the supply stays the sum of the balances,
  -- the locks stay valid, the amount has moved to the lock account, and that belongs to the first
  -- address until the given epoch.
  pub lock_assets-Locked :
      (t : State)
      → Backed addresses s supply
      → ValidLocks addresses s
      → length from ≡ hash160_len
      → length to ≡ hash160_len
      → contains addresses from ≡ true
      → contains addresses to ≡ true
      → bytes_equal from to ≡ false
      → balance_at s to ≡ pos 0
      → lock_assets env tx_details from to amount until s ≡ ok (tt, t)
      → Locked t
  unfolding lock_assets
  lock_assets-Locked t h v lf lt kf kt ne free run =
      let o = opened_lock s from to until in
      let has = opened_lock-HasAccounts s from to until h.accounted.has_accounts in
      let (u, eq, moves, frees) =
        transfer_lem env from to amount (lock_transfer_details tx_details) o true has lf lt in
      elim (Bool-cases (ltb_ℤ (balance_at o from) amount)) [
        | inl poor ↦ absurd (ground (arith, eq))
        | inr rich ↦
            let same : lock_told u ≡ t = ground (arith, eq) in
            subst (λ w. Locked w) same (opened_lock-Locked u h v lf lt kf kt ne free moves frees)
      ]

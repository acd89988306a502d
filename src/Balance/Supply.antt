-- ===== src/Balance/Supply.antt =====
-- `Mint` and `Burn` against the balances (balance/balance_contract.go): what the guarded actions do
-- on every branch, and the invariant that the supply is the sum of the balances.
use frostfs_contract.Prelude.{
  ◌≡◌, refl, true, false, some, List, [], ◌∷◌, arith, if◌then◌else◌, length, ap, ◌++◌, String, ◌∙◌,
  ◌≢◌,
}
use frostfs_contract.Prelude.Int.{ℤ, pos, ◌+ℤ◌, ◌-ℤ◌, ltb_ℤ}
use frostfs_contract.Prelude.Bytes.{Bytes, bytes_equal, bytes_equal-length, bytes_equal_sound}
use frostfs_contract.Host.Storage.{Vm, Env, Codec, Arg, int, bytes}
use frostfs_contract.Host.Exec.{State, ok, err, panicked}
use frostfs_contract.Common.Transfer.{mint_transfer_details, burn_transfer_details}
use frostfs_contract.Common.Vote.{contains, vote_key}
use frostfs_contract.Common.Vote.Ballots.{NoRepeat}
use frostfs_contract.Common.Vote.Effects.{SameButVotes}
use frostfs_contract.Balance.{Account, hash160_len, circulation_key, get_supply}
use frostfs_contract.Balance.Ledger.{
  balance_at, HasAccounts, supply_at, sum_of, changed_by, sum_of-changed,
}
use frostfs_contract.Balance.Transfers.{transfer-nil_from, transfer-nil_to}
use frostfs_contract.Balance.Methods.{mint_assets, burn_assets}

-- A key of another length is the key of no address.
pub ne_address :
    (p k : Bytes) → length p ≢ hash160_len → length k ≡ hash160_len → bytes_equal p k ≡ false
ne_address p k np lk = bytes_equal-length p k (λ e. np (cc (e, lk)))

pub ne_cell :
    (p k : Bytes) → length p ≢ hash160_len → length k ≡ hash160_len → bytes_equal k p ≡ false
ne_cell p k np lk = bytes_equal-length k p (λ e. np (cc (e, lk)))

-- Every key of a list is an address.
abbrev pub AreAddresses : List Bytes → Type 0
AreAddresses [] = Unit
AreAddresses (k ∷ ks) = (length k ≡ hash160_len) × AreAddresses ks

pub sum_of-ext :
    (f g : Bytes → ℤ) (ks : List Bytes)
    → AreAddresses ks
    → ((k : Bytes) → length k ≡ hash160_len → f k ≡ g k)
    → sum_of f ks ≡ sum_of g ks
sum_of-ext f g [] h e = refl
sum_of-ext f g (k ∷ ks) h e = cc (e k h.0, sum_of-ext f g ks h.1 e)

module _ ⦃vm : Vm⦄ ⦃accounts : Codec vm.Value Account⦄ where
  -- The accounts and the supply of a state.
  pub record Accounted (t : State) (after : Bytes → ℤ) (supply : ℤ) : Type 0 where
    pub balances : (k : Bytes) → length k ≡ hash160_len → balance_at t k ≡ after k
    pub has_accounts : HasAccounts t
    pub supply_eq : supply_at t ≡ some supply

  -- The accounts are those of the listed addresses, and the supply is the sum of their balances.
  pub record Backed (addresses : List Bytes) (s : State) (supply : ℤ) : Type 0 where
    pub are_addresses : AreAddresses addresses
    pub distinct : NoRepeat addresses
    pub accounted : Accounted s (balance_at s) supply
    pub elsewhere :
        (k : Bytes) → length k ≡ hash160_len → contains addresses k ≡ false → balance_at s k ≡ pos 0
    pub sum_eq : sum_of (balance_at s) addresses ≡ supply

  Accounted-SameButVotes :
      (s t : State) (f : Bytes → ℤ) (x : ℤ) → SameButVotes s t → Accounted s f x → Accounted t f x
  Accounted-SameButVotes s t f x same a = record {
    balances = λ k len.
        ground (arith, a.balances k len, same.cells k (ne_address vote_key k (omega arith) len));
    has_accounts = λ k len.
        let (b, e) = a.has_accounts k len in
        (b, ground (arith, same.cells k (ne_address vote_key k (omega arith) len)));
    supply_eq = ground (arith, a.supply_eq, same.cells circulation_key refl);
  }

  -- A transaction that only votes keeps the invariant.
  pub Backed-SameButVotes :
      (addresses : List Bytes) (s t : State) (x : ℤ)
      → SameButVotes s t
      → Backed addresses s x
      → Backed addresses t x
  Backed-SameButVotes addresses s t x same h =
      let a = Accounted-SameButVotes s t (balance_at s) x same h.accounted in
      record {
        are_addresses = h.are_addresses;
        distinct = h.distinct;
        accounted = record {
          balances = λ k len. refl;
          has_accounts = a.has_accounts;
          supply_eq = a.supply_eq;
        };
        elsewhere = λ k len out. a.balances k len ∙ h.elsewhere k len out;
        sum_eq =
            sum_of-ext (balance_at t) (balance_at s) addresses h.are_addresses a.balances
            ∙ h.sum_eq;
      }

  -- The invariant after one account has changed by as much as the supply.
  pub Backed-changed :
      (addresses : List Bytes) (s t : State) (x y : ℤ) (a : Bytes)
      → Backed addresses s x
      → contains addresses a ≡ true
      → Accounted t (changed_by (balance_at s) a y) (x +ℤ y)
      → Backed addresses t (x +ℤ y)
  Backed-changed addresses s t x y a h known acc = record {
    are_addresses = h.are_addresses;
    distinct = h.distinct;
    accounted = record {
      balances = λ k len. refl;
      has_accounts = acc.has_accounts;
      supply_eq = acc.supply_eq;
    };
    elsewhere = λ k len out.
        ground (arith, acc.balances k len, h.elsewhere k len out, bytes_equal_sound a k);
    sum_eq =
        sum_of-ext (balance_at t) (changed_by (balance_at s) a y) addresses h.are_addresses
          acc.balances
        ∙ (sum_of-changed (balance_at s) a y addresses h.distinct known
            ∙ ap (λ (z : ℤ). z +ℤ y) h.sum_eq);
  }

  get_supply-eq : (s : State) (x : ℤ) → supply_at s ≡ some x → get_supply s ≡ ok (x, s)
  unfolding get_supply
  get_supply-eq s x h = ground arith

  -- The state with another supply, and one more notification.
  abbrev supplied : State → ℤ → String → List Arg → State
  supplied t x name args = record t {
    storage = vm.put t.storage circulation_key (vm.numbers.encode x);
    events = t.events ++ (name, args) ∷ [];
  }

  supplied-Accounted :
      (t : State) (f : Bytes → ℤ) (x : ℤ) (name : String) (args : List Arg)
      → ((k : Bytes) → balance_at t k ≡ f k)
      → HasAccounts t
      → Accounted (supplied t x name args) f x
  supplied-Accounted t f x name args b has = record {
    balances = λ k len. ground (
      arith,
      b k,
      vm.get-put t.storage circulation_key k (vm.numbers.encode x),
      ne_address circulation_key k (omega arith) len,
    );
    has_accounts = λ k len.
        let (a, e) = has k len in
        (
          a,
          ground (
            arith,
            vm.get-put t.storage circulation_key k (vm.numbers.encode x),
            ne_address circulation_key k (omega arith) len,
          ),
        );
    supply_eq = ground (
      arith,
      vm.get-put t.storage circulation_key circulation_key (vm.numbers.encode x),
      vm.numbers.cast-encode x,
    );
  }

  module _ (env : Env) (s : State) (supply : ℤ) (amount : ℤ) (tx_details : Bytes) where
    -- With readable accounts and a readable supply, the guarded part of Mint to an address never
    -- fails: the balance of the address and the supply grow by the amount, and the other balances
    -- stay.
    pub mint_assets_lem :
        (to : Bytes)
        → Accounted s (balance_at s) supply
        → length to ≡ hash160_len
        → (t : State) × (mint_assets env to amount tx_details s ≡ ok (tt, t))
          × Accounted t (changed_by (balance_at s) to amount) (supply +ℤ amount)
    unfolding mint_assets
    mint_assets_lem to a len =
        let details = mint_transfer_details tx_details in
        let (t, eq, moves) = transfer-nil_from env to to amount details s a.has_accounts len in
        let same = ne_cell circulation_key to (omega arith) len in
        let supply_t : supply_at t ≡ some supply =
          ground (arith, moves.cells circulation_key refl same, a.supply_eq) in
        (
          supplied t (supply +ℤ amount) "Mint" (bytes to ∷ int amount ∷ []),
          ground (arith, eq, get_supply-eq t supply supply_t),
          supplied-Accounted t (changed_by (balance_at s) to amount) (supply +ℤ amount) "Mint"
              (bytes to ∷ int amount ∷ []) moves.balances moves.has_accounts,
        )

    -- With readable accounts and a readable supply, the guarded part of Burn from an address fails
    -- if the address or the supply holds less than the amount, and otherwise takes the amount from
    -- both and leaves the other balances.
    pub burn_assets_lem :
        (from : Bytes)
        → Accounted s (balance_at s) supply
        → length from ≡ hash160_len
        → (t : State) × (burn_assets env from amount tx_details s ≡ (
            if ltb_ℤ (balance_at s from) amount
            then err (panicked "can't transfer assets")
            else if ltb_ℤ supply amount
            then err (panicked "negative supply after burn")
            else ok (tt, t)))
          × Accounted t (changed_by (balance_at s) from (pos 0 -ℤ amount)) (supply -ℤ amount)
    unfolding burn_assets
    burn_assets_lem from a len =
        let details = burn_transfer_details tx_details in
        let (t, eq, moves) = transfer-nil_to env from from amount details s a.has_accounts len in
        let same = ne_cell circulation_key from (omega arith) len in
        let supply_t : supply_at t ≡ some supply =
          ground (arith, moves.cells circulation_key same refl, a.supply_eq) in
        (
          supplied t (supply -ℤ amount) "Burn" (bytes from ∷ int amount ∷ []),
          ground (arith, eq, get_supply-eq t supply supply_t),
          supplied-Accounted t (changed_by (balance_at s) from (pos 0 -ℤ amount)) (supply -ℤ amount)
              "Burn" (bytes from ∷ int amount ∷ []) moves.balances moves.has_accounts,
        )

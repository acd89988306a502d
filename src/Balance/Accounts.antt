-- ===== src/Balance/Accounts.antt =====
-- What a debit and a credit do to one account (balance/balance_contract.go, `transfer`).
use frostfs_contract.Prelude.{
  ◌≡◌, refl, true, false, some, arith, if◌then◌else◌, length, Bool-cases, inl, inr,
}
use frostfs_contract.Prelude.Int.{ℤ, pos, ◌+ℤ◌, ◌-ℤ◌, eqb_ℤ, int_laws, eq_of_parts}
use frostfs_contract.Prelude.Bytes.{Bytes, bytes_equal, bytes_equal_sound, bytes_equal_refl}
use frostfs_contract.Host.Storage.{Vm, Codec}
use frostfs_contract.Host.Exec.{State, ok}
use frostfs_contract.Balance.{Account, empty_account, hash160_len, debit, credit}
use frostfs_contract.Balance.Ledger.{account_at, balance_at, HasAccounts, changed_by}

eqb_ℤ-zero : (a b : ℤ) → eqb_ℤ a b ≡ true → a +ℤ (pos 0 -ℤ b) ≡ pos 0
eqb_ℤ-zero a b h = let e : a ≡ b = ground (arith, eq_of_parts a b) in rw e (omega int_laws)

sub-eq-add : (a b : ℤ) → a -ℤ b ≡ a +ℤ (pos 0 -ℤ b)
sub-eq-add a b = omega int_laws

module _ ⦃vm : Vm⦄ ⦃accounts : Codec vm.Value Account⦄ where
  -- The state `t` is `s` but for the account of `a`, whose balance has grown by `x`.
  pub record Changed (s t : State) (a : Bytes) (x : ℤ) : Type 0 where
    pub balances : (k : Bytes) → balance_at t k ≡ changed_by (balance_at s) a x k
    pub readable : (b : Account) × (account_at t a ≡ some b)
    pub cells : (k : Bytes) → bytes_equal a k ≡ false → vm.get t.storage k ≡ vm.get s.storage k
    pub worlds : t.world ≡ s.world
    pub events_eq : t.events ≡ s.events

  abbrev pub debited : State → Bytes → Account → ℤ → State
  debited s from a amount = record s {
    storage =
        if eqb_ℤ a.balance amount
        then vm.delete s.storage from
        else vm.put s.storage from (accounts.encode (record a { balance = a.balance -ℤ amount }));
  }

  abbrev pub credited : State → Bytes → Account → ℤ → State
  credited s to a amount = record s {
    storage = vm.put s.storage to (accounts.encode (record a { balance = a.balance +ℤ amount }));
  }

  module _ (s : State) (k : Bytes) (a : Account) (amount : ℤ) where
    pub debit-eq : length k ≡ hash160_len → debit k a amount s ≡ ok (tt, debited s k a amount)
    unfolding debit
    debit-eq len = ground arith

    pub credit-eq :
        length k ≡ hash160_len
        → account_at s k ≡ some a
        → credit k amount s ≡ ok (tt, credited s k a amount)
    unfolding credit
    credit-eq len h = ground arith

    pub credited-Changed : account_at s k ≡ some a → Changed s (credited s k a amount) k amount
    credited-Changed h =
        let b : Account = record a { balance = a.balance +ℤ amount } in
        record {
          balances = λ j. ground (
            arith,
            vm.get-put s.storage k j (accounts.encode b),
            accounts.cast-encode b,
            bytes_equal_sound k j,
          );
          readable = (
            b,
            ground (
              arith,
              vm.get-put s.storage k k (accounts.encode b),
              accounts.cast-encode b,
              bytes_equal_refl k,
            ),
          );
          cells = λ j ne. ground (arith, vm.get-put s.storage k j (accounts.encode b));
          worlds = refl;
          events_eq = refl;
        }

    pub debited-Changed :
        account_at s k ≡ some a → Changed s (debited s k a amount) k (pos 0 -ℤ amount)
    debited-Changed h =
        let b : Account = record a { balance = a.balance -ℤ amount } in
        record {
          balances = λ j. ground (
            arith,
            vm.get-put s.storage k j (accounts.encode b),
            vm.get-delete s.storage k j,
            accounts.cast-encode b,
            bytes_equal_sound k j,
            eqb_ℤ-zero a.balance amount,
            sub-eq-add a.balance amount,
          );
          readable = (
            if eqb_ℤ a.balance amount then empty_account else b,
            ground (
              arith,
              vm.get-put s.storage k k (accounts.encode b),
              vm.get-delete s.storage k k,
              accounts.cast-encode b,
              bytes_equal_refl k,
            ),
          );
          cells = λ j ne.
              ground
                (arith, vm.get-put s.storage k j (accounts.encode b), vm.get-delete s.storage k j);
          worlds = refl;
          events_eq = refl;
        }

  pub Changed-HasAccounts :
      (s t : State) (a : Bytes) (x : ℤ) → HasAccounts s → Changed s t a x → HasAccounts t
  Changed-HasAccounts s t a x has c k len = elim (Bool-cases (bytes_equal a k)) [
    | inl e ↦ (c.readable.0, ground (arith, c.readable.1, bytes_equal_sound a k e))
    | inr ne ↦ let (b, found) = has k len in (b, ground (arith, c.cells k ne))
  ]

-- ===== src/Balance/Transfers.antt =====
-- The effect of `Token.transfer` on the balances (balance/balance_contract.go, `transfer` and
-- `canTransfer`).
use frostfs_contract.Prelude.{
  ◌≡◌, refl, Bool, true, false, some, [], ◌∷◌, ◌++◌, ◌||◌, arith, if◌then◌else◌, length, Bool-cases,
  ◌⊎◌, inl, inr, ap, sym, ◌∙◌,
}
use frostfs_contract.Prelude.Int.{ℤ, pos, ◌+ℤ◌, ◌-ℤ◌, ltb_ℤ, eqb_ℤ}
use frostfs_contract.Prelude.Bytes.{Bytes, bytes_equal, bytes_equal_sound, bytes_equal_refl}
use frostfs_contract.Host.Storage.{Vm, Env, Codec, int, bytes}
use frostfs_contract.Host.Exec.{State, ok}
use frostfs_contract.Balance.{
  Account, empty_account, hash160_len, is_usable_address, get_account, check_funds, can_transfer,
  debit, credit, transfer,
}
use frostfs_contract.Balance.Ledger.{account_at, balance_at, HasAccounts, changed_by}
use frostfs_contract.Balance.Accounts.{
  debited, credited, debit-eq, credit-eq, credited-Changed, debited-Changed, Changed-HasAccounts,
}

module _ ⦃vm : Vm⦄ ⦃accounts : Codec vm.Value Account⦄ where
  -- An account that is found later is no lock, or it was found before with the same lock.
  abbrev pub LockKept : State → Bytes → Account → Type 0
  LockKept s k a =
      (a.until ≡ pos 0)
      ⊎ ((b : Account) × (account_at s k ≡ some b) × (b.until ≡ a.until) × (b.parent ≡ a.parent))

  -- The state `t` comes from `s` by a transfer of the token that leaves the balances `after`: other
  -- cells, and other contracts, are as they were, and both notifications have been sent.
  pub record Transferred (s t : State) (after : Bytes → ℤ) (from to : Bytes) (amount : ℤ)
      (details : Bytes) : Type 0 where
    pub balances : (k : Bytes) → balance_at t k ≡ after k
    pub has_accounts : HasAccounts t
    pub cells :
        (k : Bytes)
        → bytes_equal from k ≡ false
        → bytes_equal to k ≡ false
        → vm.get t.storage k ≡ vm.get s.storage k
    pub worlds : t.world ≡ s.world
    pub notified :
        t.events
        ≡ (s.events ++ ("Transfer", bytes from ∷ bytes to ∷ int amount ∷ []) ∷ [])
          ++ ("TransferX", bytes from ∷ bytes to ∷ int amount ∷ bytes details ∷ []) ∷ []

  abbrev announced : State → Bytes → Bytes → ℤ → Bytes → State
  announced s from to amount details = record s {
    events =
        (s.events ++ ("Transfer", bytes from ∷ bytes to ∷ int amount ∷ []) ∷ [])
        ++ ("TransferX", bytes from ∷ bytes to ∷ int amount ∷ bytes details ∷ []) ∷ [];
  }

  -- The amount moves from one address to another.
  abbrev pub moved : State → Bytes → Bytes → ℤ → Bytes → ℤ
  moved s from to amount = changed_by (changed_by (balance_at s) from (pos 0 -ℤ amount)) to amount

  debit-nil : (a : Account) (amount : ℤ) (s : State) → debit [] a amount s ≡ ok (tt, s)
  unfolding debit
  debit-nil a amount s = refl

  credit-nil : (amount : ℤ) (s : State) → credit [] amount s ≡ ok (tt, s)
  unfolding credit
  credit-nil amount s = refl

  module _ (env : Env) (from to : Bytes) (amount : ℤ) (details : Bytes) (s : State) where
    transfer-eq :
        (inner_ring : Bool) (a b : Account)
        → length from ≡ hash160_len
        → length to ≡ hash160_len
        → account_at s from ≡ some a
        → account_at (debited s from a amount) to ≡ some b
        → transfer env from to amount inner_ring details s ≡ (
            if inner_ring || is_usable_address env from
            then (if ltb_ℤ a.balance amount
                then ok (false, s)
                else ok (
                  true,
                  announced (credited (debited s from a amount) to b amount) from to amount details,
                ))
            else ok (false, s))
    unfolding transfer can_transfer check_funds get_account
    transfer-eq inner_ring a b lf lt ha hb =
        ground (
          arith,
          debit-eq s from a amount lf,
          credit-eq (debited s from a amount) to b amount lt hb,
        )

    -- The locks behind a transfer: no account gets a lock, a sender who gives everything away loses
    -- his, and a receiver keeps his.
    pub record Unlocking (t : State) : Type 0 where
      pub kept : (k : Bytes) (a : Account) → account_at t k ≡ some a → LockKept s k a
      pub drained :
          (a b : Account)
          → account_at s from ≡ some a
          → eqb_ℤ a.balance amount ≡ true
          → account_at t from ≡ some b
          → b.until ≡ pos 0
      pub received :
          (a : Account)
          → bytes_equal from to ≡ false
          → account_at t to ≡ some a
          → (b : Account) × (account_at s to ≡ some b) × (b.until ≡ a.until) × (b.parent ≡ a.parent)

    credited-LockKept :
        (d : State) (k : Bytes) (b a : Account)
        → account_at d to ≡ some b
        → account_at (credited d to b amount) k ≡ some a
        → (e : Account) × (account_at d k ≡ some e) × (e.until ≡ a.until) × (e.parent ≡ a.parent)
    credited-LockKept d k b a hb ha =
        let b' : Account = record b { balance = b.balance +ℤ amount } in
        elim (Bool-cases (bytes_equal to k)) [
          | inl e ↦
              let same : b' ≡ a =
                ground (
                  arith,
                  vm.get-put d.storage to k (accounts.encode b'),
                  accounts.cast-encode b',
                ) in
              (
                b,
                ground (arith, bytes_equal_sound to k e),
                ap (λ (x : Account). x.until) same,
                ap (λ (x : Account). x.parent) same,
              )
          | inr ne ↦ (a, ground (arith, vm.get-put d.storage to k (accounts.encode b')), refl, refl)
        ]

    debited-LockKept :
        (k : Bytes) (b a : Account)
        → account_at s from ≡ some b
        → account_at (debited s from b amount) k ≡ some a
        → LockKept s k a
    debited-LockKept k b a hb ha =
        let b' : Account = record b { balance = b.balance -ℤ amount } in
        elim (Bool-cases (bytes_equal from k)) [
          | inl e ↦ elim (Bool-cases (eqb_ℤ b.balance amount)) [
            | inl all ↦
                let same : empty_account ≡ a = ground (arith, vm.get-delete s.storage from k) in
                inl (ap (λ (x : Account). x.until) (sym same))
            | inr some_left ↦
                let same : b' ≡ a = ground (
                  arith,
                  vm.get-put s.storage from k (accounts.encode b'),
                  accounts.cast-encode b',
                ) in
                inr (
                  b,
                  ground (arith, bytes_equal_sound from k e),
                  ap (λ (x : Account). x.until) same,
                  ap (λ (x : Account). x.parent) same,
                )
          ]
          | inr ne ↦ inr (
            a,
            ground (
              arith,
              vm.get-put s.storage from k (accounts.encode b'),
              vm.get-delete s.storage from k,
            ),
            refl,
            refl,
          )
        ]

    transfer-Unlocking :
        (a b : Account)
        → account_at s from ≡ some a
        → account_at (debited s from a amount) to ≡ some b
        → Unlocking
            (announced (credited (debited s from a amount) to b amount) from to amount details)
    transfer-Unlocking a b ha hb =
        let d = debited s from a amount in
        record {
          kept = λ k x hx.
              let (e, he, u, p) = credited-LockKept d k b x hb hx in
              elim (debited-LockKept k a e ha he) [
                | inl z ↦ inl (sym u ∙ z)
                | inr (f, hf, u', p') ↦ inr (f, hf, u' ∙ u, p' ∙ p)
              ];
          drained = λ a' x ha' all hx.
              let (e, he, u, p) = credited-LockKept d from b x hb hx in
              let same : a' ≡ a = ground arith in
              let gone : empty_account ≡ e =
                ground (arith, vm.get-delete s.storage from from, bytes_equal_refl from) in
              sym u ∙ ap (λ (y : Account). y.until) (sym gone);
          received = λ x ne hx.
              let (e, he, u, p) = credited-LockKept d to b x hb hx in
              let a' : Account = record a { balance = a.balance -ℤ amount } in
              let before : account_at s to ≡ some e = ground (
                arith,
                vm.get-put s.storage from to (accounts.encode a'),
                vm.get-delete s.storage from to,
              ) in
              (e, before, u, p);
        }

    -- In a state where all accounts can be read, which holds after it too, a transfer between two
    -- addresses succeeds exactly if the inner ring asks for it or the sender's address is usable,
    -- and the balance covers the amount; then it moves the amount between the balances, also if
    -- both are one, changes no other cell, sends the two notifications and creates no lock.
    pub transfer_lem :
        (inner_ring : Bool)
        → HasAccounts s
        → length from ≡ hash160_len
        → length to ≡ hash160_len
        → (t : State) × (transfer env from to amount inner_ring details s ≡ (
            if inner_ring || is_usable_address env from
            then (if ltb_ℤ (balance_at s from) amount then ok (false, s) else ok (true, t))
            else ok (false, s)))
          × Transferred s t (moved s from to amount) from to amount details
          × Unlocking t
    transfer_lem inner_ring has lf lt =
        let (a, ha) = has from lf in
        let d = debited s from a amount in
        let taken = debited-Changed s from a amount ha in
        let has_d = Changed-HasAccounts s d from (pos 0 -ℤ amount) has taken in
        let (b, hb) = has_d to lt in
        let c = credited d to b amount in
        let given = credited-Changed d to b amount hb in
        (
          announced c from to amount details,
          ground (arith, transfer-eq inner_ring a b lf lt ha hb),
          record {
            balances = λ k. ground (arith, given.balances k, taken.balances k);
            has_accounts = Changed-HasAccounts d c to amount has_d given;
            cells = λ k nf nt. ground (arith, given.cells k nt, taken.cells k nf);
            worlds = refl;
            notified = refl;
          },
          transfer-Unlocking a b ha hb,
        )

    -- A transfer from the empty address, as `Mint` makes it, creates the amount.
    pub transfer-nil_from :
        HasAccounts s
        → length to ≡ hash160_len
        → (t : State) × (transfer env [] to amount true details s ≡ ok (true, t))
          × Transferred s t (changed_by (balance_at s) to amount) [] to amount details
    unfolding transfer can_transfer
    transfer-nil_from has lt =
        let (b, hb) = has to lt in
        let c = credited s to b amount in
        let given = credited-Changed s to b amount hb in
        (
          announced c [] to amount details,
          ground (arith, credit-eq s to b amount lt hb, debit-nil empty_account amount s),
          record {
            balances = λ k. ground (arith, given.balances k);
            has_accounts = Changed-HasAccounts s c to amount has given;
            cells = λ k nf nt. ground (arith, given.cells k nt);
            worlds = refl;
            notified = refl;
          },
        )

    -- A transfer to the empty address, as `Burn` makes it, destroys the amount.
    pub transfer-nil_to :
        HasAccounts s
        → length from ≡ hash160_len
        → (t : State) × (transfer env from [] amount true details s
            ≡ (if ltb_ℤ (balance_at s from) amount then ok (false, s) else ok (true, t)))
          × Transferred s t
              (changed_by (balance_at s) from (pos 0 -ℤ amount))
              from
              []
              amount
              details
    unfolding transfer can_transfer check_funds get_account
    transfer-nil_to has lf =
        let (a, ha) = has from lf in
        let d = debited s from a amount in
        let taken = debited-Changed s from a amount ha in
        (
          announced d from [] amount details,
          ground (arith, debit-eq s from a amount lf, credit-nil amount d),
          record {
            balances = λ k. ground (arith, taken.balances k);
            has_accounts = Changed-HasAccounts s d from (pos 0 -ℤ amount) has taken;
            cells = λ k nf nt. ground (arith, taken.cells k nf);
            worlds = refl;
            notified = refl;
          },
        )

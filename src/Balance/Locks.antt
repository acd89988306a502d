-- ===== src/Balance/Locks.antt =====
-- `NewEpoch` of the balance contract: the loop over the storage returns the assets of the lock
-- accounts whose time has come (balance/balance_contract.go, `NewEpoch`).
use frostfs_contract.Prelude.{
  ◌≡◌, refl, ◌≢◌, sym, ◌∙◌, ◌⊎◌, inl, inr, true, false, some, List, ◌==◌, arith, length, Bool-cases,
}
use frostfs_contract.Prelude.Int.{ℤ, pos, leb_ℤ, ltb_ℤ, eqb_ℤ, eq_of_parts}
use frostfs_contract.Prelude.Bytes.{Bytes}
use frostfs_contract.Host.Storage.{Vm, Env, Codec}
use frostfs_contract.Host.Exec.{State, ok}
use frostfs_contract.Common.Transfer.{unlock_transfer_details}
use frostfs_contract.Common.Vote.{contains}
use frostfs_contract.Balance.{Account, hash160_len, get_account}
use frostfs_contract.Balance.Ledger.{account_at}
use frostfs_contract.Balance.Transfers.{transfer_lem, LockKept}
use frostfs_contract.Balance.Methods.{release}
use frostfs_contract.Balance.Supply.{Backed}
use frostfs_contract.Balance.Invariant.{Transferred-Backed}

-- The account is no lock that has run out at the epoch.
abbrev pub IsUnlocked : ℤ → Account → Type 0
IsUnlocked epoch a = (a.until ≡ pos 0) ⊎ (leb_ℤ a.until epoch ≡ false)

eqb_ℤ_refl : (a : ℤ) → eqb_ℤ a a ≡ true
eqb_ℤ_refl a = ground arith

ltb_ℤ_irrefl : (a : ℤ) → ltb_ℤ a a ≡ false
ltb_ℤ_irrefl a = ground arith

eqb_ℤ-sound : (a b : ℤ) → eqb_ℤ a b ≡ true → a ≡ b
eqb_ℤ-sound a b h = ground (arith, eq_of_parts a b)

eqb_ℤ-ne : (a b : ℤ) → eqb_ℤ a b ≡ false → a ≢ b
eqb_ℤ-ne a b h e = ground (arith, eqb_ℤ_refl b)

module _ ⦃vm : Vm⦄ ⦃accounts : Codec vm.Value Account⦄ where
  -- Every lock account is listed, and so is the account that gets its assets back.
  pub record ValidLocks (addresses : List Bytes) (s : State) : Type 0 where
    pub valid :
        (k : Bytes) (a : Account)
        → length k ≡ hash160_len
        → account_at s k ≡ some a
        → a.until ≢ pos 0
        → (contains addresses k ≡ true)
          × (length a.parent ≡ hash160_len)
          × (contains addresses a.parent ≡ true)

  -- No account of `t` has a lock that it did not have in `s`.
  pub record NoNewLocks (s t : State) : Type 0 where
    pub kept : (k : Bytes) (a : Account) → account_at t k ≡ some a → LockKept s k a

  pub NoNewLocks-refl : (s : State) → NoNewLocks s s
  NoNewLocks-refl s = record { kept = λ k a h. inr (a, h, refl, refl) }

  pub NoNewLocks-trans : {s t u : State} → NoNewLocks s t → NoNewLocks t u → NoNewLocks s u
  NoNewLocks-trans st tu = record {
    kept = λ k a h. elim (tu.kept k a h) [
      | inl z ↦ inl z
      | inr (b, hb, u, p) ↦ elim (st.kept k b hb) [
        | inl z ↦ inl (sym u ∙ z)
        | inr (c, hc, u', p') ↦ inr (c, hc, u' ∙ u, p' ∙ p)
      ]
    ];
  }

  pub ValidLocks-kept :
      (addresses : List Bytes) (s t : State)
      → ValidLocks addresses s
      → NoNewLocks s t
      → ValidLocks addresses t
  ValidLocks-kept addresses s t v kept = record {
    valid = λ k a len h locked. elim (kept.kept k a h) [
      | inl z ↦ absurd (locked z)
      | inr (b, hb, u, p) ↦
          let (listed, plen, plisted) = v.valid k b len hb (λ z. locked (sym u ∙ z)) in
          (listed, rw (← p) plen, rw (← p) plisted)
    ];
  }

  module _ (env : Env) (addresses : List Bytes) (supply epoch : ℤ) where
    -- What a part of the loop has done: the state is still backed, no lock is new, and the
    -- accounts for which `Seen` holds are unlocked.
    pub record Released (Seen : Bytes → Type 0) (s t : State) : Type 0 where
      pub backed : Backed addresses t supply
      pub locks : ValidLocks addresses t
      pub kept : NoNewLocks s t
      pub unlocked :
          (k : Bytes) (a : Account)
          → length k ≡ hash160_len
          → Seen k
          → account_at t k ≡ some a
          → IsUnlocked epoch a

    release-transfer :
        (addr : Bytes) (a : Account) (s : State)
        → Backed addresses s supply
        → ValidLocks addresses s
        → length addr ≡ hash160_len
        → account_at s addr ≡ some a
        → eqb_ℤ a.until (pos 0) ≡ false
        → leb_ℤ a.until epoch ≡ true
        → (t : State) × (release env epoch addr s ≡ ok (tt, t)) × Released (λ k. k ≡ addr) s t
    unfolding release get_account
    release-transfer addr a s h v len ha locked due =
        let (listed, plen, plisted) = v.valid addr a len ha (eqb_ℤ-ne a.until (pos 0) locked) in
        let details = unlock_transfer_details epoch in
        let (t, eq, moves, frees) =
          transfer_lem env addr a.parent a.balance details s true h.accounted.has_accounts len
            plen in
        let kept : NoNewLocks s t = record { kept = frees.kept } in
        (
          t,
          ground (arith, eq, ltb_ℤ_irrefl a.balance),
          record {
            backed =
                Transferred-Backed addresses s t supply a.balance addr a.parent details h len plen
                  listed plisted moves;
            locks = ValidLocks-kept addresses s t v kept;
            kept = kept;
            unlocked =
                λ k b lk e hb. inl (frees.drained a b ha (eqb_ℤ_refl a.balance) (rw e at hb));
          },
        )

    -- One key of the storage.
    pub release_lem :
        (addr : Bytes) (s : State)
        → Backed addresses s supply
        → ValidLocks addresses s
        → (t : State) × (release env epoch addr s ≡ ok (tt, t)) × Released (λ k. k ≡ addr) s t
    release_lem addr s h v = elim (Bool-cases (length addr == hash160_len)) [
      | inr no_address ↦ (
        s,
        unfold release in ground arith,
        record {
          backed = h;
          locks = v;
          kept = NoNewLocks-refl s;
          unlocked = λ k a len e ha. absurd (ground arith);
        },
      )
      | inl address ↦
          let len : length addr ≡ hash160_len = ground arith in
          let (a, ha) = h.accounted.has_accounts addr len in
          elim (Bool-cases (eqb_ℤ a.until (pos 0))) [
            | inl free ↦ (
              s,
              unfold release get_account in ground arith,
              record {
                backed = h;
                locks = v;
                kept = NoNewLocks-refl s;
                unlocked = λ k b lk e hb. inl (ground (arith, eqb_ℤ-sound a.until (pos 0) free));
              },
            )
            | inr locked ↦ elim (Bool-cases (leb_ℤ a.until epoch)) [
              | inl due ↦ release-transfer addr a s h v len ha locked due
              | inr early ↦ (
                s,
                unfold release get_account in ground arith,
                record {
                  backed = h;
                  locks = v;
                  kept = NoNewLocks-refl s;
                  unlocked = λ k b lk e hb. inr (ground arith);
                },
              )
            ]
          ]
    ]

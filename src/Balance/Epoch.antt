-- ===== src/Balance/Epoch.antt =====
-- The loop of `NewEpoch` of the balance contract over the whole storage, and the method
-- (balance/balance_contract.go, `NewEpoch`).
use frostfs_contract.Prelude.{
  ◌≡◌, refl, sym, ◌⊎◌, inl, inr, true, false, some, List, [], ◌∷◌, arith, Bool-cases, Option-cases,
}
use frostfs_contract.Prelude.Int.{ℤ}
use frostfs_contract.Prelude.Bytes.{Bytes, bytes_equal, bytes_equal_sound, bytes_equal_refl}
use frostfs_contract.Host.Storage.{Vm, Env, Codec, lookup}
use frostfs_contract.Host.Exec.{State, ok}
use frostfs_contract.Common.Ir.{check_alphabet_witness, alphabet_address}
use frostfs_contract.Common.Vote.{from_known_contract}
use frostfs_contract.Common.Quorum.Outcome.{NotaryDisabled}
use frostfs_contract.Balance.{Account}
use frostfs_contract.Balance.Ledger.{account_at}
use frostfs_contract.Balance.Transfers.{LockKept}
use frostfs_contract.Balance.Methods.{release_all, new_epoch, netmap_key}
use frostfs_contract.Balance.Supply.{Backed}
use frostfs_contract.Balance.Locks.{
  IsUnlocked, ValidLocks, NoNewLocks-refl, NoNewLocks-trans, Released, release_lem,
}

-- The key of an entry of a list.
abbrev pub HasKey : {V : Type 0} → Bytes → List (Bytes × V) → Type 0
HasKey k [] = ⊥
HasKey k ((j, v) ∷ m) = (k ≡ j) ⊎ HasKey k m

pub lookup-HasKey :
    {V : Type 0} (k : Bytes) (m : List (Bytes × V)) (v : V) → lookup k m ≡ some v → HasKey k m
lookup-HasKey k [] v h = cc
lookup-HasKey k ((j, w) ∷ m) v h = elim (Bool-cases (bytes_equal j k)) [
  | inl e ↦ inl (sym (bytes_equal_sound j k e))
  | inr ne ↦ inr (lookup-HasKey k m v (rw ne at h))
]

module _ ⦃vm : Vm⦄ ⦃accounts : Codec vm.Value Account⦄ where
  LockKept-IsUnlocked :
      (epoch : ℤ) (s : State) (k : Bytes) (a : Account)
      → LockKept s k a
      → ((b : Account) → account_at s k ≡ some b → IsUnlocked epoch b)
      → IsUnlocked epoch a
  LockKept-IsUnlocked epoch s k a kept before = elim kept [
    | inl z ↦ inl z
    | inr (b, hb, u, p) ↦ rw (← u) (before b hb)
  ]

  module _ (env : Env) (addresses : List Bytes) (supply epoch : ℤ) where
    -- The loop never fails: it keeps the balances backed and unlocks every account it has met.
    pub release_all_lem :
        (entries : List (Bytes × vm.Value)) (s : State)
        → Backed addresses s supply
        → ValidLocks addresses s
        → (t : State) × (release_all env epoch entries s ≡ ok (tt, t))
          × Released env addresses supply epoch (λ k. HasKey k entries) s t
    unfolding release_all
    release_all_lem [] s h v = (
      s,
      refl,
      record {
        backed = h;
        locks = v;
        kept = NoNewLocks-refl s;
        unlocked = λ k a len seen ha. elim seen [ ];
      },
    )
    release_all_lem ((addr, w) ∷ rest) s h v =
        let (u, eq, first) = release_lem env addresses supply epoch addr s h v in
        let (t, eq', others) = release_all_lem rest u first.backed first.locks in
        (
          t,
          ground (arith, eq, eq'),
          record {
            backed = others.backed;
            locks = others.locks;
            kept = NoNewLocks-trans first.kept others.kept;
            unlocked = λ k a len seen ha. elim seen [
              | inl e ↦
                  LockKept-IsUnlocked epoch u k a (others.kept.kept k a ha)
                    (λ b hb. first.unlocked k b len e hb)
              | inr later ↦ others.unlocked k a len later ha
            ];
          },
        )

    -- What `NewEpoch` has done, for the accounts of all addresses.
    pub new_epoch-Released :
        (s : State)
        → Backed addresses s supply
        → ValidLocks addresses s
        → (t : State) × (release_all env epoch (vm.find s.storage []) s ≡ ok (tt, t))
          × Released env addresses supply epoch (λ k. Unit {0}) s t
    new_epoch-Released s h v =
        let entries = vm.find s.storage [] in
        let (t, eq, r) = release_all_lem entries s h v in
        (
          t,
          eq,
          record {
            backed = r.backed;
            locks = r.locks;
            kept = r.kept;
            unlocked = λ k a len _ ha. elim (Option-cases (vm.get s.storage k)) [
              | inl missing ↦
                  LockKept-IsUnlocked epoch s k a (r.kept.kept k a ha) (λ b hb. inl (ground arith))
              | inr (w, present) ↦
                  r.unlocked k a len
                    (lookup-HasKey k entries w (ground (arith, vm.lookup-find s.storage [] k))) ha
            ];
          },
        )

    -- From a backed state with valid locks, NewEpoch called with the signature of the alphabet, or
    -- by the netmap contract without notary, always succeeds; the supply stays the sum of the
    -- balances, no lock is new, and no lock whose time has come is left.
    pub new_epoch_lem :
        (s : State)
        → Backed addresses s supply
        → ValidLocks addresses s
        → (NotaryDisabled s false × (env.check_witness (alphabet_address env) ≡ true))
          ⊎ (NotaryDisabled s true
              × (vm.raw.cast (vm.get s.storage netmap_key) ≡ some env.calling_script_hash))
        → (t : State) × (new_epoch env epoch s ≡ ok (tt, t))
          × Released env addresses supply epoch (λ k. Unit {0}) s t
    unfolding new_epoch from_known_contract check_alphabet_witness
    new_epoch_lem s h v caller =
        let (t, eq, r) = new_epoch-Released s h v in
        (t, ground (arith, eq, bytes_equal_refl env.calling_script_hash), r)

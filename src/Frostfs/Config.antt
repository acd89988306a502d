-- ===== src/Frostfs/Config.antt =====
-- `SetConfig` of the frostfs contract without notary (frostfs/frostfs_contract.go): it does not ask
-- who has signed.
use frostfs_contract.Prelude.{◌≡◌, ◌≢◌, refl, true, some, List, [], ◌∷◌, arith, length}
use frostfs_contract.Prelude.Bytes.{Bytes}
use frostfs_contract.Host.Storage.{Vm, Env, Ballot}
use frostfs_contract.Host.Exec.{State, ok}
use frostfs_contract.Common.Ir.{inner_ring_invoker}
use frostfs_contract.Common.Vote.Ballots.{IsTidy}
use frostfs_contract.Common.Vote.Effects.{ballots_of}
use frostfs_contract.Common.Quorum.{is_empty, collect_votes}
use frostfs_contract.Common.Quorum.Outcome.{NotaryDisabled, Voted, collect_votes-Voted}
use frostfs_contract.Frostfs.{get_alphabet_nodes}
use frostfs_contract.Frostfs.Alphabet.{set_config_method, store_config}

is_empty-nil : (b : Bytes) → is_empty b ≡ true → b ≡ []
is_empty-nil [] h = refl
is_empty-nil (x ∷ b) h = cc

module _ ⦃vm : Vm⦄ (env : Env) (id key val : Bytes) (s : State) (nodes : List Bytes)
    (bs : List Ballot) where
  set_config_method-eq :
      NotaryDisabled s true
      → get_alphabet_nodes s ≡ ok (nodes, s)
      → length key ≢ 0
      → set_config_method env id key val s
        ≡ collect_votes env nodes (inner_ring_invoker env nodes) id (store_config env id key val) s
  unfolding set_config_method
  set_config_method-eq off listed some_key = ground arith

  -- Without notary and with tidy ballots, a transaction that no alphabet node has signed is
  -- counted by SetConfig as the vote of one more voter, the empty key, for any configuration with
  -- a key that is not empty; with the threshold reached the value is stored.
  pub set_config_method-unsigned :
      NotaryDisabled s true
      → get_alphabet_nodes s ≡ ok (nodes, s)
      → length key ≢ 0
      → is_empty (inner_ring_invoker env nodes) ≡ true
      → ballots_of s ≡ some bs
      → IsTidy bs
      → Voted env nodes [] id
          (store_config env id key val)
          s
          bs
          (set_config_method env id key val s)
  set_config_method-unsigned off listed some_key nobody voted tidy =
      rw
        (
          set_config_method-eq off listed some_key,
          is_empty-nil (inner_ring_invoker env nodes) nobody,
        )
        (collect_votes-Voted env nodes [] id (store_config env id key val) s bs voted tidy)

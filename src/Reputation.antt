-- ===== src/Reputation.antt =====
-- The reputation contract (reputation/reputation_contract.go): for every epoch and peer a counter, and
-- the values that the peer has sent, numbered by it.
pub mod Log
use frostfs_contract.Prelude.{Bool, not, none, some, List, [], ◌∷◌, ◌++◌, if◌then◌else◌, map, drop}
use frostfs_contract.Prelude.Int.{ℤ, pos, ◌+ℤ◌}
use frostfs_contract.Prelude.Bytes.{Bytes}
use frostfs_contract.Host.Storage.{Vm, Env, Arg, int, bytes}
use frostfs_contract.Host.Entries.{cast_values}
use frostfs_contract.Host.Exec.{Exec, pure, done, or_fault, get, put, read, notify, ◌>>=◌, ◌>>◌}
use frostfs_contract.Common.Ir.{inner_ring_invoker, alphabet_address}
use frostfs_contract.Common.Version.{check_version, update_version}
use frostfs_contract.Common.Vote.{init_vote}
use frostfs_contract.Common.Quorum.{notary_key, is_empty, collect_votes}

-- The first argument of `_deploy`.
pub data DeployData : Type 0 where
  initial : Bool → DeployData
  upgrade : List Arg → DeployData

-- `getReputationKey` with its two prefixes
abbrev pub count_key : Bytes → Bytes
count_key id = b'c' ∷ id

abbrev pub value_prefix : Bytes → Bytes
value_prefix id = b'r' ∷ id

module _ ⦃vm : Vm⦄ where
  unfoldable pub deploy : DeployData → Exec Unit
  deploy (upgrade args) = or_fault (update_version args) >>= check_version
  deploy (initial notary_disabled) = do
    put vm.flags notary_key notary_disabled
    if notary_disabled then init_vote else done

  unfoldable pub storage_id : ℤ → Bytes → Bytes
  storage_id epoch peer_id = vm.int_to_bytes epoch ++ peer_id

  -- the end of `Put`
  unfoldable pub append_value : Bytes → Bytes → Exec Unit
  append_value id value = do
    cell ← get (count_key id)
    count ← elim cell [ none ↦ pure (pos 0) | some v ↦ or_fault (vm.numbers.cast (some v)) ]
    put vm.numbers (count_key id) (count +ℤ pos 1)
    put vm.raw (value_prefix id ++ vm.int_to_bytes (count +ℤ pos 1)) value

  unfoldable pub get_by_id : Bytes → Exec (List Bytes)
  unfolding cast_values
  get_by_id id s = or_fault (cast_values vm.raw (vm.find s.storage (value_prefix id))) s

  -- `Get`
  unfoldable pub get_values : ℤ → Bytes → Exec (List Bytes)
  unfolding get_by_id storage_id
  get_values epoch peer_id = get_by_id (storage_id epoch peer_id)

  unfoldable pub list_by_epoch : ℤ → Exec (List Bytes)
  list_by_epoch epoch s =
      pure
        (map (λ (e : Bytes × vm.Value). drop 1 e.0)
          (vm.find s.storage (count_key (vm.int_to_bytes epoch))))
        s

module _ ⦃vm : Vm⦄ (env : Env) where
  -- `Put`; without the alphabet it only tells the nodes
  unfoldable pub put_value : ℤ → Bytes → Bytes → Exec Unit
  unfolding append_value storage_id
  put_value epoch peer_id value = do
    notary_disabled ← read vm.flags notary_key
    let invoker = inner_ring_invoker env env.committee
    let alphabet_call =
        if notary_disabled then not (is_empty invoker) else env.check_witness (alphabet_address env)
    if not alphabet_call
        then notify "reputationPut" (int epoch ∷ bytes peer_id ∷ bytes value ∷ [])
        else if notary_disabled
        then collect_votes env env.committee invoker (storage_id epoch peer_id)
            (append_value (storage_id epoch peer_id) value)
        else append_value (storage_id epoch peer_id) value

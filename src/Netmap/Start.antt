-- ===== src/Netmap/Start.antt =====
-- The first deployment of the netmap contract (netmap/netmap_contract.go, `_deploy`) builds the ring.
use frostfs_contract.Prelude.{
  ℕ, zero, suc, ◌<◌, ◌≡◌, refl, ◌∙◌, ap, ◌&&◌, ◌==◌, true, false, Option, some, List, [], ◌∷◌,
  arith, if◌then◌else◌, length, Bool-cases, inl, inr,
}
use mathlib.Core.Path.{subst}
use frostfs_contract.Prelude.Int.{pos, ◌+ℤ◌}
use frostfs_contract.Prelude.Bytes.{Bytes, bytes_equal}
use frostfs_contract.Host.Storage.{Vm, Env, Codec}
use frostfs_contract.Host.Exec.{State, ok, >>=-eq-ok}
use frostfs_contract.Common.Vote.{init_vote, vote_key}
use frostfs_contract.Common.Quorum.{notary_key}
use frostfs_contract.Netmap.{Node}
use frostfs_contract.Netmap.Snapshots.{count_key, current_key, epoch_key, block_key, snapshot_key}
use frostfs_contract.Netmap.Methods.{
  DeployArgs, set_configs, put_snapshots, initialize, deploy, balance_key, container_key,
  inner_ring_key,
}
use frostfs_contract.Netmap.Ring.{IsRing}

-- A property of all numbers below a bound, one by one.
abbrev EachBelow : ℕ → (ℕ → Type 0) → Type 0
EachBelow zero P = Unit
EachBelow (suc n) P = P 0 × EachBelow n (λ x. P (suc x))

each_below : (n : ℕ) (P : ℕ → Type 0) → EachBelow n P → (x : ℕ) → x < n → P x
each_below zero P ps x lt = absurd (omega arith)
each_below (suc n) P (p, ps) zero lt = p
each_below (suc n) P (p, ps) (suc x) lt = each_below n (λ y. P (suc y)) ps x (omega arith)

module _ ⦃vm : Vm⦄ where
  -- A list of writes, the first one first.
  abbrev stores : vm.Store → List (Bytes × vm.Value) → vm.Store
  stores st [] = st
  stores st ((k, v) ∷ rest) = stores (vm.put st k v) rest

  abbrev written : List (Bytes × vm.Value) → Bytes → Option vm.Value → Option vm.Value
  written [] k d = d
  written ((j, v) ∷ rest) k d = written rest k (if bytes_equal j k then some v else d)

  get-stores :
      (kvs : List (Bytes × vm.Value)) (st : vm.Store) (k : Bytes)
      → vm.get (stores st kvs) k ≡ written kvs k (vm.get st k)
  get-stores [] st k = refl
  get-stores ((j, v) ∷ rest) st k =
      get-stores rest (vm.put st j v) k
      ∙ ap (λ (d : Option vm.Value). written rest k d) (vm.get-put st j k v)

module _ ⦃vm : Vm⦄ ⦃node_codec : Codec vm.Value Node⦄ ⦃map_codec : Codec vm.Value (List Node)⦄ where
  abbrev empty_map : ℕ → Bytes × vm.Value
  empty_map i = (snapshot_key (pos i), map_codec.encode [])

  abbrev voting_writes : DeployArgs → List (Bytes × vm.Value)
  voting_writes args =
      if args.notary_disabled
      then ((inner_ring_key, vm.key_lists.encode args.keys)
          ∷ (vote_key, vm.ballot_lists.encode [])
          ∷ [])
      else []

  -- What the first deployment writes behind the configuration.
  abbrev writes : DeployArgs → List (Bytes × vm.Value)
  writes args =
      (count_key, vm.numbers.encode (pos 10))
      ∷ (epoch_key, vm.numbers.encode (pos 0))
      ∷ (block_key, vm.numbers.encode (pos 0))
      ∷ empty_map 0
      ∷ empty_map 1
      ∷ empty_map 2
      ∷ empty_map 3
      ∷ empty_map 4
      ∷ empty_map 5
      ∷ empty_map 6
      ∷ empty_map 7
      ∷ empty_map 8
      ∷ empty_map 9
      ∷ (current_key, vm.numbers.encode (pos 0))
      ∷ (balance_key, vm.raw.encode args.addr_balance)
      ∷ (container_key, vm.raw.encode args.addr_container)
      ∷ (notary_key, vm.flags.encode args.notary_disabled)
      ∷ voting_writes args

  abbrev started : DeployArgs → State → State
  started args s = record s { storage = stores s.storage (writes args) }

  initialize-eq :
      (env : Env) (args : DeployArgs) (s : State)
      → (length args.addr_balance == 20 && length args.addr_container == 20) ≡ true
      → initialize env args s ≡ ok (tt, started args s)
  unfolding initialize put_snapshots init_vote ◌+ℤ◌
  initialize-eq env args s good = elim (Bool-cases args.notary_disabled) [
    | inl off ↦ rw (good, off) refl
    | inr on ↦ rw (good, on) refl
  ]

  started-IsRing : (args : DeployArgs) (s : State) → IsRing (started args s) (pos 0) 9 0
  started-IsRing args s = record {
    epoch_eq =
        ground
          (arith, get-stores (writes args) s.storage epoch_key, vm.numbers.cast-encode (pos 0));
    count_eq =
        ground
          (arith, get-stores (writes args) s.storage count_key, vm.numbers.cast-encode (pos 10));
    current_eq =
        ground
          (arith, get-stores (writes args) s.storage current_key, vm.numbers.cast-encode (pos 0));
    current_lt = omega arith;
    count_le = omega arith;
  }

  -- What a first deployment leaves in the storage.
  pub record Started (args : DeployArgs) (t : State) : Type 0 where
    pub ring : IsRing t (pos 0) 9 0
    pub block_eq : vm.numbers.cast (vm.get t.storage block_key) ≡ some (pos 0)
    -- each of the ten cells of the ring holds an empty map
    pub maps :
        (x : ℕ) → x < 10 → vm.get t.storage (snapshot_key (pos x)) ≡ some (map_codec.encode [])
    pub balance_eq : vm.raw.cast (vm.get t.storage balance_key) ≡ some args.addr_balance
    pub container_eq : vm.raw.cast (vm.get t.storage container_key) ≡ some args.addr_container
    pub notary_eq : vm.flags.cast (vm.get t.storage notary_key) ≡ some args.notary_disabled
    -- without notary, the keys of the inner ring and no ballots
    pub voting :
        args.notary_disabled ≡ true
        → (vm.key_lists.cast (vm.get t.storage inner_ring_key) ≡ some args.keys)
          × (vm.ballot_lists.cast (vm.get t.storage vote_key) ≡ some [])

  started-map :
      (args : DeployArgs) (s : State) (x : ℕ)
      → x < 10
      → vm.get (started args s).storage (snapshot_key (pos x)) ≡ some (map_codec.encode [])
  started-map args s =
      let cell = λ (x : ℕ). get-stores (writes args) s.storage (snapshot_key (pos x)) in
      each_below 10
        (λ x. vm.get (started args s).storage (snapshot_key (pos x)) ≡ some (map_codec.encode []))
        (
          ground (arith, cell 0),
          (
            ground (arith, cell 1),
            (
              ground (arith, cell 2),
              (
                ground (arith, cell 3),
                (
                  ground (arith, cell 4),
                  (
                    ground (arith, cell 5),
                    (
                      ground (arith, cell 6),
                      (
                        ground (arith, cell 7),
                        (ground (arith, cell 8), (ground (arith, cell 9), tt)),
                      ),
                    ),
                  ),
                ),
              ),
            ),
          ),
        )

  started-Started : (args : DeployArgs) (s : State) → Started args (started args s)
  started-Started args s =
      let cell = get-stores (writes args) s.storage in
      record {
        ring = started-IsRing args s;
        block_eq = ground (arith, cell block_key, vm.numbers.cast-encode (pos 0));
        maps = started-map args s;
        balance_eq = ground (arith, cell balance_key, vm.raw.cast-encode args.addr_balance);
        container_eq = ground (arith, cell container_key, vm.raw.cast-encode args.addr_container);
        notary_eq = ground (arith, cell notary_key, vm.flags.cast-encode args.notary_disabled);
        voting = λ off. (
          ground (arith, cell inner_ring_key, vm.key_lists.cast-encode args.keys),
          ground (arith, cell vote_key, vm.ballot_lists.cast-encode []),
        );
      }

  initialize-Started :
      (env : Env) (args : DeployArgs) (s t : State)
      → initialize env args s ≡ ok (tt, t)
      → Started args t
  unfolding initialize
  initialize-Started env args s t h =
      elim (Bool-cases (length args.addr_balance == 20 && length args.addr_container == 20)) [
        | inr bad ↦ absurd (ground arith)
        | inl good ↦
            let same : started args s ≡ t = ground (arith, initialize-eq env args s good) in
            subst (λ w. Started args w) same (started-Started args s)
      ]

  -- A first deployment of the netmap contract that succeeds leaves a ring of ten snapshots, each
  -- of them stored as an empty map, with the newest at index 0, in epoch 0 with the block 0; the
  -- addresses of the two contracts and the choice of notary are stored, and without notary the
  -- keys of the inner ring and an empty list of ballots.
  pub deploy-Started :
      (env : Env) (args : DeployArgs) (s t : State)
      → deploy env args false s ≡ ok (tt, t)
      → Started args t
  unfolding deploy
  deploy-Started env args s t h =
      let (_, u, _, rest) = >>=-eq-ok (set_configs args.config) (λ _. initialize env args) s h in
      initialize-Started env args u t rest

-- ===== src/Netmap/Epoch.antt =====
-- `NewEpoch` of the netmap contract (netmap/netmap_contract.go): the epoch only grows, and every
-- successful call either votes or moves the history on by one map.
use frostfs_contract.Prelude.{
  ℕ, suc, ◌≡◌, refl, ◌≢◌, ◌⊎◌, inl, inr, false, none, some, List, [], ◌∷◌, arith, Bool-cases,
  Option-cases,
}
use mathlib.Core.Path.{subst}
use frostfs_contract.Prelude.Int.{ℤ, pos, leb_ℤ}
use frostfs_contract.Prelude.Bytes.{codes}
use frostfs_contract.Host.Storage.{Vm, Env, Codec, int}
use frostfs_contract.Host.Exec.{State, ok, >>=-eq-ok, ◌>>◌, notify}
use frostfs_contract.Common.Vote.{invoke_id}
use frostfs_contract.Common.Vote.Effects.{SameButVotes}
use frostfs_contract.Common.Quorum.Outcome.{by_nodes-Guarded}
use frostfs_contract.Netmap.{
  Node, candidate_prefix, decode_nodes, not_offline, filter_netmap, get_netmap_nodes,
}
use frostfs_contract.Netmap.Snapshots.{count_key, current_key, epoch_key, block_key, snapshot_key}
use frostfs_contract.Netmap.Filter.{not_offline-IsFiltered}
use frostfs_contract.Netmap.Methods.{tick, cleanup, new_epoch}
use frostfs_contract.Netmap.Ring.{
  index, index-lt, next, index-next, index-next_zero, index-ne-next, to_byte-lt, IsRing, Advanced,
  ticked, get-ticked, tick-eq,
}

module _ ⦃vm : Vm⦄ ⦃node_codec : Codec vm.Value Node⦄ ⦃map_codec : Codec vm.Value (List Node)⦄
    (env : Env) (s : State) (e e' : ℤ) (c i : ℕ) (nodes : List Node) where
  ticked-IsRing : IsRing s e c i → IsRing (ticked env s e e' c i nodes) e' c (next (suc c) i)
  ticked-IsRing ring = record {
    epoch_eq = ground (arith, get-ticked env s e e' c i nodes epoch_key, vm.numbers.cast-encode e');
    count_eq = ground (arith, get-ticked env s e e' c i nodes count_key, ring.count_eq);
    current_eq = ground (
      arith,
      get-ticked env s e e' c i nodes current_key,
      vm.numbers.cast-encode (pos (next (suc c) i)),
    );
    current_lt = ground (arith, ring.current_lt);
    count_le = ring.count_le;
  }

  -- The storage after a new epoch, for a later one.
  ticked-Advanced :
      IsRing s e c i
      → leb_ℤ e' e ≡ false
      → Advanced s (ticked env s e e' c i nodes) e e' env.current_index c i nodes
  ticked-Advanced ring late = record {
    later = late;
    ring = ticked-IsRing ring;
    block_eq = ground (
      arith,
      get-ticked env s e e' c i nodes block_key,
      vm.numbers.cast-encode (pos env.current_index),
    );
    newest = rw (index-next_zero (suc c) i ring.current_lt) (
        ground (
          arith,
          get-ticked env s e e' c i nodes (snapshot_key (pos (next (suc c) i))),
          map_codec.cast-encode (not_offline nodes),
        ));
    filtered = not_offline-IsFiltered nodes;
    older = λ d lt.
        let x = index (suc c) i d in
        let ne = index-ne-next (suc c) i d ring.current_lt lt in
        let x_lt = index-lt (suc c) i d ring.current_lt (omega arith) in
        rw (index-next (suc c) i d ring.current_lt lt) (
          ground (
            arith,
            get-ticked env s e e' c i nodes (snapshot_key (pos x)),
            ne,
            ring.current_lt,
            to_byte-lt (suc c) x x_lt ring.count_le,
            to_byte-lt (suc c) (next (suc c) i) (ground (arith, ring.current_lt)) ring.count_le,
          ));
  }

module _ ⦃vm : Vm⦄ where
  -- Calls of other contracts leave the storage alone.
  cleanup-storage :
      (env : Env) (epoch : ℤ) (s t : State)
      → cleanup env epoch s ≡ ok (tt, t)
      → t.storage ≡ s.storage
  unfolding cleanup
  cleanup-storage env epoch s t h = ground arith

  IsRing-SameButVotes :
      (s u : State) (e : ℤ) (c i : ℕ) → SameButVotes s u → IsRing s e c i → IsRing u e c i
  IsRing-SameButVotes s u e c i same ring = record {
    epoch_eq = rw (same.cells epoch_key refl) ring.epoch_eq;
    count_eq = rw (same.cells count_key refl) ring.count_eq;
    current_eq = rw (same.cells current_key refl) ring.current_eq;
    current_lt = ring.current_lt;
    count_le = ring.count_le;
  }

module _ ⦃vm : Vm⦄ ⦃node_codec : Codec vm.Value Node⦄ ⦃map_codec : Codec vm.Value (List Node)⦄
    (env : Env) where
  Advanced-storage :
      (s u t : State) (e e' : ℤ) (block c i : ℕ) (nodes : List Node)
      → t.storage ≡ u.storage
      → Advanced s u e e' block c i nodes
      → Advanced s t e e' block c i nodes
  Advanced-storage s u t e e' block c i nodes same a = record {
    later = a.later;
    ring = record {
      epoch_eq = rw same a.ring.epoch_eq;
      count_eq = rw same a.ring.count_eq;
      current_eq = rw same a.ring.current_eq;
      current_lt = a.ring.current_lt;
      count_le = a.ring.count_le;
    };
    block_eq = rw same a.block_eq;
    newest = rw same a.newest;
    filtered = a.filtered;
    older = λ d lt. rw same (a.older d lt);
  }

  tick-fault :
      (s : State) (e e' : ℤ) (c i : ℕ)
      → IsRing s e c i
      → decode_nodes (vm.find s.storage candidate_prefix) ≡ none
      → (t : State) → tick env e' s ≢ ok (tt, t)
  unfolding tick filter_netmap get_netmap_nodes
  tick-fault s e e' c i ring bad t h = ground (arith, ring.epoch_eq)

  -- A successful tick is for a later epoch, and moves the history on.
  tick_lem :
      (s t : State) (e e' : ℤ) (c i : ℕ)
      → IsRing s e c i
      → tick env e' s ≡ ok (tt, t)
      → (nodes : List Node) × (decode_nodes (vm.find s.storage candidate_prefix) ≡ some nodes)
        × Advanced s t e e' env.current_index c i nodes
  tick_lem s t e e' c i ring h =
      elim (Option-cases (decode_nodes (vm.find s.storage candidate_prefix))) [
        | inl bad ↦ absurd (tick-fault s e e' c i ring bad t h)
        | inr (nodes, good) ↦
            let eq = tick-eq env s e e' c i nodes ring good in
            elim (Bool-cases (leb_ℤ e' e)) [
              | inl early ↦ absurd (ground arith)
              | inr late ↦
                  let same : ticked env s e e' c i nodes ≡ t = ground arith in
                  (
                    nodes,
                    good,
                    subst (λ w. Advanced s w e e' env.current_index c i nodes) same
                        (ticked-Advanced env s e e' c i nodes ring late),
                  )
            ]
      ]

  -- A successful NewEpoch on a ring of at most 256 snapshots either only votes, or its epoch is
  -- later than the current one and the ring moves on: the newest map has exactly the candidates
  -- whose state is not offline, and every older map that still has a place is one call of NewEpoch
  -- older.
  pub new_epoch-Advanced :
      (s t : State) (e e' : ℤ) (c i : ℕ)
      → IsRing s e c i
      → new_epoch env e' s ≡ ok (tt, t)
      → SameButVotes s t
        ⊎ ((u : State) × (nodes : List Node) × SameButVotes s u
            × (decode_nodes (vm.find u.storage candidate_prefix) ≡ some nodes)
            × Advanced u t e e' env.current_index c i nodes)
  unfolding new_epoch
  new_epoch-Advanced s t e e' c i ring run =
      elim (by_nodes-Guarded env env.committee "this method must be invoked by inner ring nodes"
        (invoke_id (vm.int_to_bytes e' ∷ []) (codes "epoch"))
        (tick env e' >> (cleanup env e' >> notify "NewEpoch" (int e' ∷ []))) s t run) [
          | inl same ↦ inl same
          | inr (u, same, ran) ↦
              let (_, v, ticking, rest) =
                >>=-eq-ok (tick env e') (λ _. cleanup env e' >> notify "NewEpoch" (int e' ∷ [])) u
                  ran in
              let (_, w, cleaning, told) =
                >>=-eq-ok (cleanup env e') (λ _. notify "NewEpoch" (int e' ∷ [])) v rest in
              let (nodes, good, a) =
                tick_lem u v e e' c i (IsRing-SameButVotes s u e c i same ring) ticking in
              let kept : t.storage ≡ v.storage =
                ground (arith, cleanup-storage env e' v w cleaning) in
              inr (
                u,
                nodes,
                same,
                good,
                Advanced-storage u v t e e' env.current_index c i nodes kept a,
              )
        ]

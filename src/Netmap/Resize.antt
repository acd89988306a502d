-- ===== src/Netmap/Resize.antt =====
-- The number of snapshots (netmap/netmap_contract.go, `UpdateSnapshotCount`): zero is accepted, and then
-- no epoch can follow until the number is set again.
use frostfs_contract.Prelude.{
  ℕ, zero, suc, ◌≡◌, refl, ◌≢◌, ◌∙◌, true, false, some, List, [], ◌∷◌, inl, inr, arith,
}
use frostfs_contract.Prelude.Int.{ℤ, pos, ◌+ℤ◌, ◌-ℤ◌, ltb_ℤ, eqb_ℤ, rounds}
use frostfs_contract.Host.Storage.{Vm, Env, Codec, int}
use frostfs_contract.Host.Exec.{Exec, State, ok, notify, ◌>>=◌, ◌>>◌, >>=-eq-ok}
use frostfs_contract.Common.Ir.{check_alphabet_witness, alphabet_address}
use frostfs_contract.Prelude.Bytes.{codes}
use frostfs_contract.Common.Vote.{invoke_id}
use frostfs_contract.Common.Vote.Effects.{SameButVotes}
use frostfs_contract.Common.Quorum.Outcome.{by_nodes-Guarded}
use frostfs_contract.Netmap.{Node, filter_netmap, get_netmap_nodes}
use frostfs_contract.Netmap.Snapshots.{
  count_key, current_key, epoch_key, block_key, snapshot_key, delete_snapshots, move_up, decrease,
  update_snapshot_count, get_snapshot_count,
}
use frostfs_contract.Netmap.Methods.{tick, cleanup, new_epoch}
use frostfs_contract.Netmap.Ring.{IsRing}

module _ ⦃vm : Vm⦄ where
  -- Deleting snapshots never fails and leaves the other cells alone.
  delete_snapshots_lem :
      (n : ℕ) (k : ℤ) (s : State)
      → (t : State) × (delete_snapshots n k s ≡ ok (tt, t))
        × (vm.get t.storage count_key ≡ vm.get s.storage count_key)
        × (vm.get t.storage current_key ≡ vm.get s.storage current_key)
  unfolding delete_snapshots
  delete_snapshots_lem zero k s = (s, refl, refl, refl)
  delete_snapshots_lem (suc n) k s =
      let u : State = record s { storage = vm.delete s.storage (snapshot_key k) } in
      let (t, eq, count, current) = delete_snapshots_lem n (k +ℤ pos 1) u in
      (
        t,
        eq,
        count ∙ vm.get-delete s.storage (snapshot_key k) count_key,
        current ∙ vm.get-delete s.storage (snapshot_key k) current_key,
      )

  -- Shrinking the history to no snapshots: the current index becomes -1.
  decrease-zero :
      (curr : ℤ) (i : ℕ) (s t : State)
      → delete_snapshots
          (rounds (pos 0) curr)
          (pos 0)
          (record s { storage = vm.put s.storage current_key (vm.numbers.encode (pos 0 -ℤ pos 1)) })
        ≡ ok (tt, t)
      → decrease curr (pos 0) (pos i) s ≡ ok (tt, t)
  unfolding decrease move_up
  decrease-zero curr i s t h = ground arith

  update-zero :
      (env : Env) (s t : State) (curr : ℤ) (i : ℕ)
      → env.check_witness (alphabet_address env) ≡ true
      → eqb_ℤ curr (pos 0) ≡ false
      → ltb_ℤ curr (pos 0) ≡ false
      → vm.numbers.cast (vm.get s.storage count_key) ≡ some curr
      → vm.numbers.cast (vm.get s.storage current_key) ≡ some (pos i)
      → decrease curr
          (pos 0)
          (pos i)
          (record s { storage = vm.put s.storage count_key (vm.numbers.encode (pos 0)) })
        ≡ ok (tt, t)
      → update_snapshot_count env (pos 0) s ≡ ok (tt, t)
  unfolding update_snapshot_count check_alphabet_witness get_snapshot_count
  update-zero env s t curr i signed ne gt count current h =
      let s1 = vm.put s.storage count_key (vm.numbers.encode (pos 0)) in
      let kept : vm.get s1 current_key ≡ vm.get s.storage current_key =
        vm.get-put s.storage count_key current_key (vm.numbers.encode (pos 0)) in
      let current' : vm.numbers.cast (vm.get s1 current_key) ≡ some (pos i) = rw kept current in
      rw (signed, ◌>>=◌, count, ne, current', gt) h

module _ ⦃vm : Vm⦄ ⦃node_codec : Codec vm.Value Node⦄ ⦃map_codec : Codec vm.Value (List Node)⦄
    (env : Env) where
  -- With no snapshots a new epoch is a division by zero.
  tick-no_snapshots :
      (s : State)
      → vm.numbers.cast (vm.get s.storage count_key) ≡ some (pos 0)
      → (e' : ℤ) (t : State) → tick env e' s ≢ ok (tt, t)
  unfolding tick filter_netmap get_netmap_nodes get_snapshot_count
  tick-no_snapshots s none_left e' t h =
      let s1 = vm.put s.storage epoch_key (vm.numbers.encode e') in
      let block = vm.numbers.encode (pos env.current_index) in
      ground (
        arith,
        vm.get-put s.storage epoch_key count_key (vm.numbers.encode e'),
        vm.get-put s1 block_key count_key block,
        none_left,
      )

module _ ⦃vm : Vm⦄ ⦃node_codec : Codec vm.Value Node⦄ ⦃map_codec : Codec vm.Value (List Node)⦄ where
  -- With no snapshots a call of NewEpoch changes nothing but the ballots, if it does not fail.
  new_epoch-no_snapshots :
      (env : Env) (e' : ℤ) (u v : State)
      → vm.numbers.cast (vm.get u.storage count_key) ≡ some (pos 0)
      → new_epoch env e' u ≡ ok (tt, v)
      → SameButVotes u v
  unfolding new_epoch
  new_epoch-no_snapshots env e' u v none_left run =
      let finish : Exec Unit = cleanup env e' >> notify "NewEpoch" (int e' ∷ []) in
      elim (by_nodes-Guarded env env.committee "this method must be invoked by inner ring nodes"
        (invoke_id (vm.int_to_bytes e' ∷ []) (codes "epoch")) (tick env e' >> finish) u v run) [
          | inl same ↦ same
          | inr (w, same, ran) ↦
              let (_, x, ticking, _) = >>=-eq-ok (tick env e') (λ _. finish) w ran in
              absurd
                (tick-no_snapshots env w (rw (same.cells count_key refl) none_left) e' x ticking)
        ]

  -- The alphabet can set the number of snapshots of any ring of at most 256 to zero; in every
  -- state in which that number still stands, a call of NewEpoch in any transaction fails or
  -- changes nothing but the ballots.
  pub update_snapshot_count-zero :
      (env : Env) (s : State) (e : ℤ) (c i : ℕ)
      → IsRing s e c i
      → env.check_witness (alphabet_address env) ≡ true
      → (t : State) × (update_snapshot_count env (pos 0) s ≡ ok (tt, t))
        × (vm.numbers.cast (vm.get t.storage count_key) ≡ some (pos 0))
        × ((later : Env) (u v : State) (e' : ℤ)
            → vm.get u.storage count_key ≡ vm.get t.storage count_key
            → new_epoch later e' u ≡ ok (tt, v)
            → SameButVotes u v)
  update_snapshot_count-zero env s e c i ring signed =
      let zero_count = vm.numbers.encode (pos 0) in
      let s1 = vm.put s.storage count_key zero_count in
      let minus_one = vm.numbers.encode (pos 0 -ℤ pos 1) in
      let u : State = record s { storage = vm.put s1 current_key minus_one } in
      let (t, eq, count, _) = delete_snapshots_lem (rounds (pos 0) (pos (suc c))) (pos 0) u in
      let counted : vm.numbers.cast (vm.get t.storage count_key) ≡ some (pos 0) = ground (
        arith,
        count,
        vm.get-put s1 current_key count_key minus_one,
        vm.get-put s.storage count_key count_key zero_count,
        vm.numbers.cast-encode (pos 0),
      ) in
      (
        t,
        update-zero env s t (pos (suc c)) i signed (ground arith) (ground arith) ring.count_eq
            ring.current_eq (decrease-zero (pos (suc c)) i (record s { storage = s1 }) t eq),
        counted,
        λ later u v e' same run. new_epoch-no_snapshots later e' u v (rw same counted) run,
      )

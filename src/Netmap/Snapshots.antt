-- ===== src/Netmap/Snapshots.antt =====
-- The ring of snapshots (netmap/netmap_contract.go, `Snapshot`, `UpdateSnapshotCount` and the
-- functions that they call).
use frostfs_contract.Prelude.{ℕ, zero, suc, none, some, List, [], ◌∷◌, ◌++◌, ◌||◌, if◌then◌else◌}
use frostfs_contract.Prelude.Int.{ℤ, pos, ◌+ℤ◌, ◌-ℤ◌, ltb_ℤ, leb_ℤ, eqb_ℤ, mod_ℤ, to_byte, rounds}
use frostfs_contract.Prelude.Bytes.{Bytes, codes}
use frostfs_contract.Host.Storage.{Vm, Env, Codec}
use frostfs_contract.Host.Exec.{
  Exec, pure, panic, done, or_fault, err, fault, ok, get, put, delete, read, ◌>>=◌, ◌>>◌,
}
use frostfs_contract.Common.Ir.{check_alphabet_witness, alphabet_address}
use frostfs_contract.Netmap.{Node}

abbrev pub count_key : Bytes
count_key = codes "snapshotCount"

abbrev pub current_key : Bytes
current_key = codes "snapshotCurrent"

abbrev pub epoch_key : Bytes
epoch_key = codes "snapshotEpoch"

abbrev pub block_key : Bytes
block_key = codes "snapshotBlock"

-- `snapshotKeyPrefix + string([]byte{byte(id)})`
abbrev pub snapshot_key : ℤ → Bytes
snapshot_key id = codes "snapshot_" ++ to_byte id ∷ []

module _ ⦃vm : Vm⦄ where
  unfoldable pub get_snapshot_count : Exec ℤ
  get_snapshot_count = read vm.numbers count_key

  -- `storage.Put` of what `storage.Get` returns, nil for a missing snapshot
  unfoldable pub move_snapshot : ℤ → ℤ → Exec Unit
  move_snapshot from to s = elim (vm.get s.storage (snapshot_key from)) [
    | none ↦ elim (vm.put_null s.storage (snapshot_key to)) [
      | none ↦ err fault
      | some store ↦ ok (tt, record s { storage = store })
    ]
    | some v ↦ ok (tt, record s { storage = vm.put s.storage (snapshot_key to) v })
  ]

  -- `for k := count - 1; k >= lower; k--`, by the number of its rounds
  unfoldable pub move_down : ℕ → ℤ → ℤ → Exec Unit
  unfolding move_snapshot
  move_down zero diff k = done
  move_down (suc n) diff k = move_snapshot (k -ℤ diff) k >>= λ _. move_down n diff (k -ℤ pos 1)

  -- `for k := start; k < count; k++`
  unfoldable pub move_up : ℕ → ℤ → ℤ → Exec Unit
  unfolding move_snapshot
  move_up zero step k = done
  move_up (suc n) step k = move_snapshot (k +ℤ step) k >>= λ _. move_up n step (k +ℤ pos 1)

  -- `for k := delStart; k < delFinish; k++`
  unfoldable pub delete_snapshots : ℕ → ℤ → Exec Unit
  delete_snapshots zero k = done
  delete_snapshots (suc n) k = delete (snapshot_key k) >>= λ _. delete_snapshots n (k +ℤ pos 1)

  -- the branch of `UpdateSnapshotCount` that makes the history longer
  unfoldable pub increase : ℤ → ℤ → ℤ → Exec Unit
  unfolding move_down delete_snapshots
  increase curr count id =
      let diff = count -ℤ curr in
      let lower = diff +ℤ id +ℤ pos 1 in
      let finish = id +ℤ pos 1 +ℤ diff in
      let del_finish = if ltb_ℤ curr finish then curr else finish in
      do
        move_down (rounds lower count) diff (count -ℤ pos 1)
        delete_snapshots (rounds (id +ℤ pos 1) del_finish) (id +ℤ pos 1)

  -- the branch that makes the history shorter
  unfoldable pub decrease : ℤ → ℤ → ℤ → Exec Unit
  unfolding move_up delete_snapshots
  decrease curr count id =
      if ltb_ℤ id count
      then (move_up (rounds (id +ℤ pos 1) count) (curr -ℤ count) (id +ℤ pos 1)
          >> delete_snapshots (rounds count curr) count)
      else (put vm.numbers current_key (count -ℤ pos 1)
          >> (move_up (rounds (pos 0) count) (id -ℤ count +ℤ pos 1) (pos 0)
              >> delete_snapshots (rounds count curr) count))

  unfoldable pub update_snapshot_count : Env → ℤ → Exec Unit
  unfolding get_snapshot_count increase decrease
  update_snapshot_count env count = do
    check_alphabet_witness env (alphabet_address env)
    if ltb_ℤ count (pos 0) then panic "count must be positive" else done
    curr ← get_snapshot_count
    if eqb_ℤ curr count then panic "count has not changed" else done
    put vm.numbers count_key count
    id ← read vm.numbers current_key
    if ltb_ℤ curr count then increase curr count id else decrease curr count id

module _ ⦃vm : Vm⦄ ⦃map_codec : Codec vm.Value (List Node)⦄ where
  unfoldable pub get_snapshot : Bytes → Exec (List Node)
  get_snapshot key = do
    cell ← get key
    elim cell [ none ↦ pure [] | some v ↦ or_fault (map_codec.cast (some v)) ]

  -- `Netmap`
  unfoldable pub netmap : Exec (List Node)
  unfolding get_snapshot
  netmap = do id ← read vm.numbers current_key; get_snapshot (snapshot_key id)

  unfoldable pub snapshot : ℤ → Exec (List Node)
  unfolding get_snapshot get_snapshot_count
  snapshot diff = do
    count ← get_snapshot_count
    if ltb_ℤ diff (pos 0) || leb_ℤ count diff then panic "incorrect diff" else done
    id ← read vm.numbers current_key
    need_id ← or_fault (mod_ℤ (id -ℤ diff +ℤ count) count)
    get_snapshot (snapshot_key need_id)

  unfoldable pub snapshot_by_epoch : ℤ → Exec (List Node)
  unfolding snapshot
  snapshot_by_epoch epoch = do
    current_epoch ← read vm.numbers epoch_key
    snapshot (current_epoch -ℤ epoch)

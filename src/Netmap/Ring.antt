-- ===== src/Netmap/Ring.antt =====
-- The ring of snapshots under `NewEpoch` of the netmap contract (netmap/netmap_contract.go): the
-- history moves by one epoch and loses nothing but its oldest map.
use frostfs_contract.Prelude.{
  ℕ, suc, ◌+◌, ◌-◌, ◌%◌, ◌≤◌, ◌<◌, ◌≡◌, ◌≢◌, ap, false, Option, none, some, List, [], arith, ◌==◌,
  ltb, leb, if◌then◌else◌, Bool-cases, inl, inr, ◌∙◌,
}
use native.Mathlib.Nat.{mod-eq_of_lt, mod_self, add-mod_right}
use frostfs_contract.Prelude.Int.{ℤ, pos, ◌+ℤ◌, ◌-ℤ◌, leb_ℤ, mod_ℤ, to_byte, int_laws}
use frostfs_contract.Prelude.Bytes.{Bytes, bytes_equal}
use frostfs_contract.Host.Storage.{Vm, Env, Codec}
use frostfs_contract.Host.Exec.{State, Result, ok, err, panicked, fault}
use frostfs_contract.Netmap.{
  Node, candidate_prefix, decode_nodes, get_netmap_nodes, filter_netmap, not_offline,
}
use frostfs_contract.Netmap.Snapshots.{
  count_key, current_key, epoch_key, block_key, snapshot_key, get_snapshot_count, get_snapshot,
  snapshot_by_epoch, snapshot,
}
use frostfs_contract.Netmap.Filter.{IsFiltered}
use frostfs_contract.Netmap.Methods.{tick}

-- The index of the snapshot that is `d` epochs old.
abbrev pub index : ℕ → ℕ → ℕ → ℕ
index n i d = if leb d i then i - d else i + n - d

pub index-lt : (n i d : ℕ) → i < n → d < n → index n i d < n
index-lt n i d hi hd = ground arith

mod-index : (n i d : ℕ) → i < n → d < n → (i + n - d) % n ≡ index n i d
mod-index n i d hi hd = elim (Bool-cases (leb d i)) [
  | inl le ↦
      let e : i + n - d ≡ (i - d) + n = ground arith in
      rw (e, add-mod_right) (mod-eq_of_lt (ground arith) ∙ ground arith)
  | inr gt ↦ mod-eq_of_lt (ground arith) ∙ ground arith
]

mod-next : (n i : ℕ) → i < n → (i + 1) % n ≡ (if i + 1 == n then 0 else i + 1)
mod-next n i hi = elim (Bool-cases (i + 1 == n)) [
  | inl e ↦ let e' : i + 1 ≡ n = ground arith in rw e (rw e' (mod_self n))
  | inr ne ↦ rw ne (mod-eq_of_lt (ground arith))
]

sub-add-pos : (i d n : ℕ) → d < n → pos i -ℤ pos d +ℤ pos n ≡ pos (i + n - d)
sub-add-pos i d n h = omega int_laws

sub-sub-pos : (e : ℤ) (d : ℕ) → e -ℤ (e -ℤ pos d) ≡ pos d
sub-sub-pos e d = omega int_laws

add-one-pos : (i : ℕ) → pos i +ℤ pos 1 ≡ pos (i + 1)
add-one-pos i = omega int_laws

pub to_byte-lt : (n i : ℕ) → i < n → n ≤ 256 → to_byte (pos i) ≡ i
to_byte-lt n i hi hn = omega arith

-- The index of the newest snapshot after one more epoch.
abbrev pub next : ℕ → ℕ → ℕ
next n i = if i + 1 == n then 0 else i + 1

pub index-next : (n i d : ℕ) → i < n → suc d < n → index n (next n i) (suc d) ≡ index n i d
index-next n i d hi hd = ground arith

pub index-next_zero : (n i : ℕ) → i < n → index n (next n i) 0 ≡ next n i
index-next_zero n i hi = ground arith

pub index-ne-next : (n i d : ℕ) → i < n → suc d < n → next n i ≢ index n i d
index-ne-next n i d hi hd = ground arith

module _ ⦃vm : Vm⦄ where
  -- The epoch `e`, a ring of `suc c` snapshots and the index `i` of the newest.
  pub record IsRing (s : State) (e : ℤ) (c i : ℕ) : Type 0 where
    pub epoch_eq : vm.numbers.cast (vm.get s.storage epoch_key) ≡ some e
    pub count_eq : vm.numbers.cast (vm.get s.storage count_key) ≡ some (pos (suc c))
    pub current_eq : vm.numbers.cast (vm.get s.storage current_key) ≡ some (pos i)
    pub current_lt : i < suc c
    pub count_le : suc c ≤ 256

module _ ⦃vm : Vm⦄ ⦃node_codec : Codec vm.Value Node⦄ ⦃map_codec : Codec vm.Value (List Node)⦄ where
  -- The map that is stored at an index of the ring: the empty map if there is none.
  abbrev pub map_at : State → ℕ → Option (List Node)
  map_at s x = elim (vm.get s.storage (snapshot_key (pos x))) [
    | none ↦ some []
    | some v ↦ map_codec.cast (some v)
  ]

  abbrev pub returned : Option (List Node) → State → Result (List Node × State)
  returned none s = err fault
  returned (some m) s = ok (m, s)

  -- On a ring of at most 256 snapshots, Snapshot returns the map whose place is as many before the
  -- newest as its argument says, the empty map if none is stored there, for every argument below
  -- the number of snapshots, and panics for any greater one.
  pub snapshot_lem :
      (s : State) (e : ℤ) (c i d : ℕ)
      → IsRing s e c i
      → snapshot (pos d) s ≡ (
          if ltb d (suc c)
          then returned (map_at s (index (suc c) i d)) s
          else err (panicked "incorrect diff"))
  unfolding snapshot get_snapshot get_snapshot_count
  snapshot_lem s e c i d ring = elim (Bool-cases (ltb d (suc c))) [
    | inr out ↦ ground (arith, ring.count_eq)
    | inl in_range ↦
        let lt : d < suc c = ground arith in
        let there : mod_ℤ (pos i -ℤ pos d +ℤ pos (suc c)) (pos (suc c))
            ≡ some (pos (index (suc c) i d)) =
          rw (sub-add-pos i d (suc c) lt)
            (ap (λ (x : ℕ). some (pos x)) (mod-index (suc c) i d ring.current_lt lt)) in
        ground (arith, ring.count_eq, ring.current_eq, there)
  ]

  -- SnapshotByEpoch counts an epoch as its distance from the current one.
  pub snapshot_by_epoch_lem :
      (s : State) (e : ℤ) (c i d : ℕ)
      → IsRing s e c i
      → snapshot_by_epoch (e -ℤ pos d) s ≡ (
          if ltb d (suc c)
          then returned (map_at s (index (suc c) i d)) s
          else err (panicked "incorrect diff"))
  unfolding snapshot_by_epoch
  snapshot_by_epoch_lem s e c i d ring =
      ground (arith, ring.epoch_eq, sub-sub-pos e d, snapshot_lem s e c i d ring)

  -- What a new epoch does to the ring of snapshots.
  pub record Advanced (s t : State) (e e' : ℤ) (block c i : ℕ) (nodes : List Node) : Type 0 where
    pub later : leb_ℤ e' e ≡ false
    pub ring : IsRing t e' c (next (suc c) i)
    pub block_eq : vm.numbers.cast (vm.get t.storage block_key) ≡ some (pos block)
    -- the newest map is that of the candidates that are not offline
    pub newest : map_at t (index (suc c) (next (suc c) i) 0) ≡ some (not_offline nodes)
    pub filtered : IsFiltered nodes (not_offline nodes)
    -- every other map is one epoch older than before
    pub older :
        (d : ℕ)
        → suc d < suc c
        → map_at t (index (suc c) (next (suc c) i) (suc d)) ≡ map_at s (index (suc c) i d)

  module _ (env : Env) (s : State) (e e' : ℤ) (c i : ℕ) (nodes : List Node) where
    abbrev pub ticked : State
    ticked = record s {
      storage =
          vm.put
            (vm.put
              (vm.put (vm.put s.storage epoch_key (vm.numbers.encode e')) block_key
                (vm.numbers.encode (pos env.current_index)))
              current_key (vm.numbers.encode (pos (next (suc c) i))))
            (snapshot_key (pos (next (suc c) i))) (map_codec.encode (not_offline nodes));
    }

    -- A cell of the new state, by the writes that it may come from.
    pub get-ticked :
        (k : Bytes)
        → vm.get ticked.storage k ≡ (
            if bytes_equal (snapshot_key (pos (next (suc c) i))) k
            then some (map_codec.encode (not_offline nodes))
            else if bytes_equal current_key k
            then some (vm.numbers.encode (pos (next (suc c) i)))
            else if bytes_equal block_key k
            then some (vm.numbers.encode (pos env.current_index))
            else if bytes_equal epoch_key k
            then some (vm.numbers.encode e')
            else vm.get s.storage k)
    get-ticked k = simp vm.get-put

    pub tick-eq :
        IsRing s e c i
        → decode_nodes (vm.find s.storage candidate_prefix) ≡ some nodes
        → tick env e' s ≡ (if leb_ℤ e' e then err (panicked "invalid epoch") else ok (tt, ticked))
    unfolding tick filter_netmap get_netmap_nodes get_snapshot_count
    tick-eq ring nodes_eq =
        let s1 = vm.put s.storage epoch_key (vm.numbers.encode e') in
        let block = vm.numbers.encode (pos env.current_index) in
        let there : mod_ℤ (pos i +ℤ pos 1) (pos (suc c)) ≡ some (pos (next (suc c) i)) =
          rw (add-one-pos i) (ap (λ (x : ℕ). some (pos x)) (mod-next (suc c) i ring.current_lt)) in
        ground (
          arith,
          ring.epoch_eq,
          ring.current_eq,
          ring.count_eq,
          nodes_eq,
          there,
          vm.get-put s.storage epoch_key current_key (vm.numbers.encode e'),
          vm.get-put s.storage epoch_key count_key (vm.numbers.encode e'),
          vm.get-put s1 block_key current_key block,
          vm.get-put s1 block_key count_key block,
        )

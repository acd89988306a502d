-- ===== src/Frostfsid/Keys.antt =====
-- Binding and unbinding of keys (frostfsid/frostfsid_contract.go, `AddKey`, `RemoveKey`).
use frostfs_contract.Prelude.{
  ◌≡◌, refl, Bool, true, false, none, some, List, [], ◌∷◌, ◌++◌, ◌||◌, arith, if◌then◌else◌, length,
}
use frostfs_contract.Prelude.Bytes.{Bytes, bytes_equal, bytes_equal-append}
use frostfs_contract.Host.Storage.{Vm, Env}
use frostfs_contract.Host.Exec.{State, ok}
use frostfs_contract.Common.Ir.{inner_ring_invoker}
use frostfs_contract.Common.Vote.{contains}
use frostfs_contract.Common.Quorum.{is_empty}
use frostfs_contract.Common.Quorum.Outcome.{NotaryDisabled}
use frostfs_contract.Frostfsid.{
  owner_size, owner_prefix, are_public_keys, container_key, put_keys, delete_keys, add_key,
}

module _ ⦃vm : Vm⦄ where
  -- A key is bound to an owner if their cell exists.
  abbrev pub is_bound : State → Bytes → Bytes → Bool
  is_bound s owner k = elim (vm.get s.storage (owner_prefix owner ++ k)) [
    | none ↦ false
    | some _ ↦ true
  ]

  -- The loop over the keys binds each of them, and unbinds none.
  pub put_keys_lem :
      (owner : Bytes) (keys : List Bytes) (s : State)
      → (t : State) × (put_keys owner keys s ≡ ok (tt, t))
        × ((k : Bytes) → is_bound t owner k ≡ (contains keys k || is_bound s owner k))
        × (t.events ≡ s.events)
  unfolding put_keys contains
  put_keys_lem owner [] s = (s, refl, (λ k. refl), refl)
  put_keys_lem owner (key ∷ keys) s =
      let one = vm.raw.encode (1 ∷ []) in
      let cell = owner_prefix owner ++ key in
      let u : State = record s { storage = vm.put s.storage cell one } in
      let (t, eq, bound, events) = put_keys_lem owner keys u in
      (
        t,
        eq,
        (λ k. ground (
          arith,
          bound k,
          vm.get-put s.storage cell (owner_prefix owner ++ k) one,
          bytes_equal-append (owner_prefix owner) key k,
        )),
        events,
      )

  -- The loop over the keys unbinds each of them, and no other.
  pub delete_keys_lem :
      (owner : Bytes) (keys : List Bytes) (s : State)
      → (t : State) × (delete_keys owner keys s ≡ ok (tt, t))
        × ((k : Bytes)
            → is_bound t owner k ≡ (if contains keys k then false else is_bound s owner k))
        × (t.events ≡ s.events)
  unfolding delete_keys contains
  delete_keys_lem owner [] s = (s, refl, (λ k. refl), refl)
  delete_keys_lem owner (key ∷ keys) s =
      let cell = owner_prefix owner ++ key in
      let u : State = record s { storage = vm.delete s.storage cell } in
      let (t, eq, bound, events) = delete_keys_lem owner keys u in
      (
        t,
        eq,
        (λ k. ground (
          arith,
          bound k,
          vm.get-delete s.storage cell (owner_prefix owner ++ k),
          bytes_equal-append (owner_prefix owner) key k,
        )),
        events,
      )

  -- Without notary a transaction that one inner ring node has signed, and that calls AddKey with
  -- valid arguments and not through the container contract, binds the keys at once: no vote is
  -- collected, and the calls of no other node are asked for.
  pub add_key-single_node :
      (env : Env) (owner address : Bytes) (keys : List Bytes) (s : State)
      → length owner ≡ owner_size
      → are_public_keys keys ≡ true
      → NotaryDisabled s true
      → is_empty (inner_ring_invoker env env.committee) ≡ false
      → vm.raw.cast (vm.get s.storage container_key) ≡ some address
      → bytes_equal env.calling_script_hash address ≡ false
      → (t : State) × (add_key env owner keys s ≡ ok (tt, t))
        × ((k : Bytes) → is_bound t owner k ≡ (contains keys k || is_bound s owner k))
  unfolding add_key
  add_key-single_node env owner address keys s len valid off signed known direct =
      let (t, eq, bound, _) = put_keys_lem owner keys s in (t, ground (arith, eq), bound)

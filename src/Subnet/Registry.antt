-- ===== src/Subnet/Registry.antt =====
-- The registry of subnets (subnet/subnet_contract.go, `Delete`, `Get`, `deleteByPrefix`): a deletion
-- removes every cell of the subnet and no other.
use frostfs_contract.Prelude.{
  ◌≡◌, refl, ◌∙◌, Bool, true, false, none, some, List, [], ◌∷◌, ◌++◌, ◌||◌, arith, if◌then◌else◌,
  length,
}
use frostfs_contract.Prelude.Bytes.{Bytes, bytes_equal_refl, bytes_equal, is_prefix}
use frostfs_contract.Host.Storage.{Vm, Env, lookup, bytes}
use frostfs_contract.Host.Exec.{State, ok, err, panicked}
use frostfs_contract.Common.Ir.{check_owner_witness, check_alphabet_witness, alphabet_address}
use frostfs_contract.Subnet.{
  owner_key, info_key, node_admin_prefix, client_admin_prefix, node_prefix, user_prefix,
  subnet_id_size, public_key_len, flag_key, get_owner, delete_keys, delete_by_prefix,
}
use frostfs_contract.Subnet.Methods.{put_subnet, get_info, register, erase_subnet, delete_subnet}

module _ ⦃vm : Vm⦄ where
  -- A state that differs in its storage alone.
  pub record Erased (s t : State) (gone : Bytes → Bool) : Type 0 where
    pub cells : (k : Bytes) → vm.get t.storage k ≡ (if gone k then none else vm.get s.storage k)
    pub worlds : t.world ≡ s.world
    pub events_eq : t.events ≡ s.events

  abbrev listed : List (Bytes × vm.Value) → Bytes → Bool
  listed entries k = elim (lookup k entries) [ none ↦ false | some v ↦ true ]

  delete_keys_lem :
      (entries : List (Bytes × vm.Value)) (s : State)
      → (t : State) × (delete_keys entries s ≡ ok (tt, t)) × Erased s t (listed entries)
  unfolding delete_keys
  delete_keys_lem [] s = (s, refl, record { cells = λ k. refl; worlds = refl; events_eq = refl })
  delete_keys_lem ((j, v) ∷ rest) s =
      let u : State = record s { storage = vm.delete s.storage j } in
      let (t, eq, e) = delete_keys_lem rest u in
      (
        t,
        eq,
        record {
          cells = λ k. ground (arith, e.cells k, vm.get-delete s.storage j k);
          worlds = e.worlds;
          events_eq = e.events_eq;
        },
      )

  -- Every cell under the prefix is deleted, and no other.
  pub delete_by_prefix_lem :
      (p : Bytes) (s : State)
      → (t : State) × (delete_by_prefix p s ≡ ok (tt, t)) × Erased s t (is_prefix p)
  unfolding delete_by_prefix
  delete_by_prefix_lem p s =
      let (t, eq, e) = delete_keys_lem (vm.find s.storage p) s in
      (
        t,
        eq,
        record {
          cells = λ k. ground (arith, e.cells k, vm.lookup-find s.storage p k);
          worlds = e.worlds;
          events_eq = e.events_eq;
        },
      )

  -- The keys of a subnet: its owner, its description, and its lists.
  abbrev pub belongs : Bytes → Bytes → Bool
  belongs id k =
      is_prefix (user_prefix id) k
      || (is_prefix (client_admin_prefix id) k
          || (is_prefix (node_prefix id) k
              || (is_prefix (node_admin_prefix id) k
                  || (bytes_equal (info_key id) k || bytes_equal (owner_key id) k))))

  erase_subnet_lem :
      (env : Env) (id : Bytes) (s : State)
      → (t : State) × (erase_subnet env id s ≡ ok (tt, t)) × Erased s t (belongs id)
  unfolding erase_subnet
  erase_subnet_lem env id s =
      let s1 : State = record s { storage = vm.delete s.storage (owner_key id) } in
      let s2 : State = record s1 { storage = vm.delete s1.storage (info_key id) } in
      let (s3, eq3, e3) = delete_by_prefix_lem (node_admin_prefix id) s2 in
      let (s4, eq4, e4) = delete_by_prefix_lem (node_prefix id) s3 in
      let (s5, eq5, e5) = delete_by_prefix_lem (client_admin_prefix id) s4 in
      let (s6, eq6, e6) = delete_by_prefix_lem (user_prefix id) s5 in
      (
        s6,
        ground (arith, eq3, eq4, eq5, eq6),
        record {
          cells = λ k. ground (
            arith,
            vm.get-delete s.storage (owner_key id) k,
            vm.get-delete s1.storage (info_key id) k,
            e3.cells k,
            e4.cells k,
            e5.cells k,
            e6.cells k,
          );
          worlds = e6.worlds ∙ (e5.worlds ∙ (e4.worlds ∙ e3.worlds));
          events_eq = e6.events_eq ∙ (e5.events_eq ∙ (e4.events_eq ∙ e3.events_eq));
        },
      )

  abbrev pub with_event : State → Bytes → State
  with_event t id = record t { events = t.events ++ ("Delete", bytes id ∷ []) ∷ [] }

  -- Delete of a subnet that has a readable owner panics unless the owner has signed; then it
  -- removes exactly the cells that belong to the subnet, and tells of it.
  pub delete_subnet_lem :
      (env : Env) (id owner : Bytes) (v : vm.Value) (s : State)
      → length id ≡ subnet_id_size
      → vm.get s.storage (owner_key id) ≡ some v
      → vm.raw.cast (some v) ≡ some owner
      → (t : State) × (delete_subnet env id s ≡ (
          if env.check_witness owner
          then ok (tt, with_event t id)
          else err (panicked "owner witness check failed")))
        × Erased s t (belongs id)
  unfolding delete_subnet check_owner_witness
  delete_subnet_lem env id owner v s len present readable =
      let (t, eq, e) = erase_subnet_lem env id s in (t, ground (arith, eq), e)

  -- `Delete` of a subnet that does not exist changes nothing.
  pub delete_subnet-missing :
      (env : Env) (id : Bytes) (s : State)
      → length id ≡ subnet_id_size
      → vm.get s.storage (owner_key id) ≡ none
      → delete_subnet env id s ≡ ok (tt, s)
  unfolding delete_subnet
  delete_subnet-missing env id s len missing = ground arith

  -- With notary, Put of a new subnet with an id and an owner of the right lengths succeeds exactly
  -- under the signatures of the owner and of the alphabet; then Get returns the description, the
  -- owner is registered, and no other cell has changed.
  pub put_subnet-get_info :
      (env : Env) (id owner info : Bytes) (s : State)
      → length id ≡ subnet_id_size
      → length owner ≡ public_key_len
      → vm.get s.storage (owner_key id) ≡ none
      → vm.flags.cast (vm.get s.storage flag_key) ≡ some false
      → (t : State) × (put_subnet env id owner info s ≡ (
          if env.check_witness owner
          then (if env.check_witness (alphabet_address env)
              then ok (tt, t)
              else err (panicked "alphabet witness check failed"))
          else err (panicked "owner witness check failed")))
        × (get_info id t ≡ ok (info, t))
        × (get_owner id t ≡ ok (owner, t))
        × ((k : Bytes)
            → bytes_equal (owner_key id) k ≡ false
            → bytes_equal (info_key id) k ≡ false
            → vm.get t.storage k ≡ vm.get s.storage k)
  unfolding put_subnet check_owner_witness check_alphabet_witness get_info get_owner register
  put_subnet-get_info env id owner info s li lo fresh on =
      let o = vm.raw.encode owner in
      let i = vm.raw.encode info in
      let s1 = vm.put s.storage (owner_key id) o in
      let t : State = record s { storage = vm.put s1 (info_key id) i } in
      (
        t,
        ground arith,
        ground (
          arith,
          vm.get-put s1 (info_key id) (info_key id) i,
          bytes_equal_refl (info_key id),
          vm.raw.cast-encode info,
        ),
        ground (
          arith,
          vm.get-put s1 (info_key id) (owner_key id) i,
          vm.get-put s.storage (owner_key id) (owner_key id) o,
          bytes_equal_refl (owner_key id),
          vm.raw.cast-encode owner,
        ),
        λ k no ni.
            ground
              (arith, vm.get-put s1 (info_key id) k i, vm.get-put s.storage (owner_key id) k o),
      )

-- ===== src/Subnet/Access.antt =====
-- Who may change the lists of a subnet (subnet/subnet_contract.go, `calledByOwnerOrAdmin`, `AddNode`,
-- `NodeAllowed`, `RemoveNode`).
use frostfs_contract.Prelude.{
  ℕ, ◌≡◌, refl, ◌≢◌, ◌⊎◌, inl, inr, true, false, none, some, List, [], ◌∷◌, ◌++◌, ◌||◌, arith,
  length, drop, Bool-cases, Option-cases,
}
use frostfs_contract.Prelude.Bytes.{
  Bytes, bytes_equal, is_prefix, bytes_equal_refl, bytes_equal_sound,
}
use frostfs_contract.Host.Storage.{Vm, Env, lookup, Distinct}
use frostfs_contract.Host.Exec.{State, ok}
use frostfs_contract.Subnet.{
  owner_key, node_admin_prefix, node_prefix, subnet_id_size, public_key_len, any_witness,
  called_by_owner_or_admin, get_owner,
}
use frostfs_contract.Subnet.Methods.{add_once, add_node, node_allowed}

is_prefix-drop : (p k : Bytes) → is_prefix p k ≡ true → p ++ drop (length p) k ≡ k
is_prefix-drop [] k h = refl
is_prefix-drop (x ∷ p) [] h = cc
is_prefix-drop (x ∷ p) (y ∷ k) h = ground (arith, is_prefix-drop p k)

module _ ⦃vm : Vm⦄ where
  any_witness-found :
      (env : Env) (n : ℕ) (entries : List (Bytes × vm.Value))
      → Distinct entries
      → any_witness env n entries ≡ true
      → (k : Bytes) × (v : vm.Value) × (lookup k entries ≡ some v)
        × (env.check_witness (drop n k) ≡ true)
  unfolding any_witness
  any_witness-found env n [] d h = cc
  any_witness-found env n ((k, v) ∷ rest) d h = elim (Bool-cases (env.check_witness (drop n k))) [
    | inl signed ↦ (k, v, rw (bytes_equal_refl k), signed)
    | inr unsigned ↦
        let (j, w, found, signed) = any_witness-found env n rest d.1 (rw unsigned at h) in
        (j, w, ground (arith, bytes_equal_sound k j), signed)
  ]

  -- The transaction is signed by the owner, or by a key that is listed under the prefix.
  abbrev pub OwnerOrAdmin : Env → Bytes → Bytes → State → Type 0
  OwnerOrAdmin env owner prefix s =
      (env.check_witness owner ≡ true)
      ⊎ ((admin : Bytes) × (vm.get s.storage (prefix ++ admin) ≢ none)
          × (env.check_witness admin ≡ true))

  listed_witness :
      (env : Env) (prefix : Bytes) (s : State)
      → any_witness env (length prefix) (vm.find s.storage prefix) ≡ true
      → (admin : Bytes) × (vm.get s.storage (prefix ++ admin) ≢ none)
        × (env.check_witness admin ≡ true)
  listed_witness env prefix s h =
      let (k, v, found, signed) =
        any_witness-found env (length prefix) (vm.find s.storage prefix)
          (vm.find-Distinct s.storage prefix) h in
      elim (Bool-cases (is_prefix prefix k)) [
        | inl below ↦ (
          drop (length prefix) k,
          rw (is_prefix-drop prefix k below)
              (λ e. ground (arith, vm.lookup-find s.storage prefix k)),
          signed,
        )
        | inr other ↦ absurd (ground (arith, vm.lookup-find s.storage prefix k))
      ]

  pub called_by_owner_or_admin_lem :
      (env : Env) (owner prefix : Bytes) (s : State)
      → called_by_owner_or_admin env owner prefix s ≡ ok (true, s)
      → OwnerOrAdmin env owner prefix s
  unfolding called_by_owner_or_admin
  called_by_owner_or_admin_lem env owner prefix s h = elim (Bool-cases (env.check_witness owner)) [
    | inl signed ↦ inl signed
    | inr unsigned ↦ inr (listed_witness env prefix s (ground arith))
  ]

  add_once_lem :
      (env : Env) (key prefix : Bytes) (s : State)
      → (t : State) × (add_once env key prefix s ≡ ok (tt, t))
        × (vm.get t.storage (prefix ++ key) ≢ none)
        × ((k : Bytes)
            → bytes_equal (prefix ++ key) k ≡ false
            → vm.get t.storage k ≡ vm.get s.storage k)
  unfolding add_once
  add_once_lem env key prefix s =
      let cell = prefix ++ key in
      let one = vm.raw.encode (1 ∷ []) in
      elim (Option-cases (vm.get s.storage cell)) [
        | inl missing ↦ (
          record s { storage = vm.put s.storage cell one },
          ground arith,
          (λ e. ground (arith, vm.get-put s.storage cell cell one, bytes_equal_refl cell)),
          λ k ne. ground (arith, vm.get-put s.storage cell k one),
        )
        | inr (v, present) ↦ (s, ground arith, (λ e. ground arith), λ k ne. refl)
      ]

  node_allowed-listed :
      (id node : Bytes) (s : State)
      → length id ≡ subnet_id_size
      → length node ≡ public_key_len
      → vm.get s.storage (owner_key id) ≢ none
      → vm.get s.storage (node_prefix id ++ node) ≢ none
      → node_allowed id node s ≡ ok (true, s)
  unfolding node_allowed
  node_allowed-listed id node s li ln owned there =
      elim (Option-cases (vm.get s.storage (owner_key id))) [
        | inl e ↦ absurd (owned e)
        | inr (v, e) ↦ elim (Option-cases (vm.get s.storage (node_prefix id ++ node))) [
          | inl m ↦ absurd (there m)
          | inr (w, m) ↦ ground arith
        ]
      ]

  -- A successful AddNode is signed by the owner of the subnet or by one of its node
  -- administrators; after it NodeAllowed answers true for the node, and no other cell has changed.
  pub add_node_lem :
      (env : Env) (id node : Bytes) (s t : State)
      → add_node env id node s ≡ ok (tt, t)
      → (owner : Bytes) × (get_owner id s ≡ ok (owner, s))
        × OwnerOrAdmin env owner (node_admin_prefix id) s
        × (node_allowed id node t ≡ ok (true, t))
        × ((k : Bytes)
            → bytes_equal (node_prefix id ++ node) k ≡ false
            → vm.get t.storage k ≡ vm.get s.storage k)
  unfolding add_node get_owner called_by_owner_or_admin
  add_node_lem env id node s t h =
      let admins = node_admin_prefix id in
      let (u, eq, there, others) = add_once_lem env node (node_prefix id) s in
      elim (Option-cases (vm.get s.storage (owner_key id))) [
        | inl missing ↦ absurd (ground arith)
        | inr (raw, present) ↦ elim (Option-cases (vm.raw.cast (some raw))) [
          | inl bad ↦ absurd (ground arith)
          | inr (owner, readable) ↦
              elim (Bool-cases (
                env.check_witness owner
                || any_witness env (length admins) (vm.find s.storage admins))) [
                  | inl allowed ↦
                      let same : u ≡ t = ground arith in
                      let owned : vm.get u.storage (owner_key id) ≢ none =
                        λ e. ground (arith, others (owner_key id)) in
                      (
                        owner,
                        ground arith,
                        called_by_owner_or_admin_lem env owner admins s (ground arith),
                        rw (← same) (
                            node_allowed-listed id node u (ground arith) (ground arith) owned
                              there),
                        rw (← same) others,
                      )
                  | inr denied ↦ absurd (ground arith)
                ]
        ]
      ]

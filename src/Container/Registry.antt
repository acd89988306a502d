-- ===== src/Container/Registry.antt =====
-- What the container contract keeps of a container (container/container_contract.go, `PutNamed` and
-- `Delete` behind their guards).
use frostfs_contract.Prelude.{
  ◌≡◌, ◌≢◌, refl, ◌∙◌, false, none, some, List, [], ◌∷◌, ◌++◌, arith, length,
}
use frostfs_contract.Prelude.Int.{ℤ}
use frostfs_contract.Prelude.Bytes.{Bytes, bytes_equal, bytes_equal_refl}
use frostfs_contract.Host.Storage.{Vm, Env, Codec, bytes}
use frostfs_contract.Host.Exec.{State, ok, >>=-eq-ok, ◌>>=◌, notify}
use frostfs_contract.Host.Frame.{
  Keeps, Keeps->>=, Keeps-pure, Keeps-require, Keeps-or_fault, Keeps-get, Keeps-read, Keeps-put,
  Keeps-delete, Keeps-notify, Keeps-call_contract, Keeps-query_contract, Keeps-if, Keeps-as_flag,
  Keeps-as_list, Keeps-Option,
}
use frostfs_contract.Container.{
  Container, not_found, container_key, owner_key, add_container, get_container, get_method,
  get_owner_by_id, owner, owner_from_binary_container, remove_container,
}
use frostfs_contract.Common.Quorum.{is_empty}
use frostfs_contract.Common.Transfer.{wallet_to_script_hash, container_fee_transfer_details}
use frostfs_contract.Container.Deploy.{nns_key}
use frostfs_contract.Container.Methods.{
  pay_alphabet, finish_container, store_container, erase_container,
}
use frostfs_contract.Container.Aliases.{
  Alias, alias_key, is_null, txt, first_of, add_alias, remove_alias,
}

module _ ⦃vm : Vm⦄ (P : Bytes → Type 0) (env : Env) where
  pay_alphabet-Keeps :
      (balance_addr from : Bytes) (fee : ℤ) (details : Bytes) (alphabet : List Bytes)
      → Keeps P (pay_alphabet env balance_addr from fee details alphabet)
  unfolding pay_alphabet
  pay_alphabet-Keeps balance_addr from fee details [] = Keeps-pure P tt
  pay_alphabet-Keeps balance_addr from fee details (node ∷ alphabet) =
      Keeps->>= P _ _ (Keeps-call_contract P env balance_addr "transferX" _)
        (λ reply. pay_alphabet-Keeps balance_addr from fee details alphabet)

-- A cell that is not that of the alias of a container.
abbrev pub NotAlias : Bytes → Bytes → Type 0
NotAlias id k = bytes_equal (alias_key id) k ≡ false

module _ ⦃vm : Vm⦄ (P : Bytes → Type 0) (env : Env) (id : Bytes)
    (other : (k : Bytes) → P k → NotAlias id k) where
  add_alias-Keeps : (alias : Alias) → Keeps P (add_alias env id alias)
  unfolding add_alias
  add_alias-Keeps alias =
      Keeps->>= P _ _
        (Keeps-if P alias.need_register _ _
          (Keeps->>= P _ _ (Keeps-call_contract P env alias.nns_addr "register" _)
            (λ reply. Keeps->>= P _ _ (Keeps-as_flag P reply) (λ res. Keeps-require P res _)))
          (Keeps-pure P tt))
        (λ _.
          Keeps->>= P _ _ (Keeps-call_contract P env alias.nns_addr "addRecord" _)
            (λ reply. Keeps-put P vm.raw (alias_key id) alias.domain other))

  remove_alias-Keeps : Keeps P (remove_alias env id)
  unfolding remove_alias
  remove_alias-Keeps = Keeps->>= P _ _ (Keeps-get P (alias_key id)) (λ cell.
      Keeps->>= P _ _
        (Keeps-Option P cell _ _ (Keeps-pure P [])
          (λ raw. Keeps-or_fault P (vm.raw.cast (some raw))))
        (λ domain. Keeps-if P (is_empty domain) _ _ (Keeps-pure P tt) (
          Keeps->>= P _ _ (Keeps-delete P (alias_key id) other) (λ _.
            Keeps->>= P _ _ (Keeps-read P vm.raw nns_key) (λ nns_addr.
              Keeps->>= P _ _
                (Keeps-query_contract P env nns_addr "getRecords" (bytes domain ∷ txt ∷ []))
                (λ res. Keeps-if P (is_null res) _ _ (Keeps-pure P tt) (
                  Keeps->>= P _ _ (Keeps-as_list P res) (λ records.
                    Keeps->>= P _ _ (Keeps-or_fault P (first_of records)) (λ record_data.
                      Keeps-if P (bytes_equal (vm.base58 id) record_data) _ _
                        (Keeps->>= P _ _
                          (Keeps-call_contract P env nns_addr "deleteRecords"
                            (bytes domain ∷ txt ∷ []))
                          (λ reply. Keeps-pure P tt))
                        (Keeps-pure P tt))))))))))

  finish_container-Keeps :
      (owner : Bytes) (cnr : Container) (frostfs_id_addr : Bytes) (alias : Alias)
      → Keeps P (finish_container env id owner cnr frostfs_id_addr alias)
  unfolding finish_container
  finish_container-Keeps owner cnr frostfs_id_addr alias =
      Keeps->>= P _ _
        (Keeps-if P (is_empty alias.domain) _ _ (Keeps-pure P tt) (add_alias-Keeps alias))
        (λ _.
          Keeps->>= P _ _
            (Keeps-if P (is_empty cnr.token) _ _
              (Keeps->>= P _ _ (Keeps-call_contract P env frostfs_id_addr "addKey" _)
                (λ reply. Keeps-pure P tt))
              (Keeps-pure P tt))
            (λ _. Keeps-notify P "PutSuccess" _))

module _ ⦃vm : Vm⦄ ⦃containers : Codec vm.Value Container⦄ (env : Env) (id owner_id : Bytes) where
  -- the cells that do not belong to the container
  abbrev pub Foreign : Bytes → Type 0
  Foreign k =
      NotAlias id k
      × (bytes_equal (container_key id) k ≡ false)
      × (bytes_equal (owner_key owner_id ++ id) k ≡ false)

  get-add_container :
      (cnr : Container) (s t : State)
      → add_container id owner_id cnr s ≡ ok (tt, t)
      → (vm.get t.storage (container_key id) ≡ some (containers.encode cnr))
        × (vm.get t.storage (owner_key owner_id ++ id) ≡ some (vm.raw.encode id))
        × ((k : Bytes) → Foreign k → vm.get t.storage k ≡ vm.get s.storage k)
  unfolding add_container
  get-add_container cnr s t h =
      let cell = owner_key owner_id ++ id in
      let one = vm.raw.encode id in
      let u = vm.put s.storage cell one in
      let two = containers.encode cnr in
      (
        ground (arith, vm.get-put u (container_key id) (container_key id) two, bytes_equal_refl id),
        ground (
          arith,
          vm.get-put u (container_key id) cell two,
          vm.get-put s.storage cell cell one,
          bytes_equal_refl cell,
        ),
        λ k (_, p, q).
            ground (arith, vm.get-put u (container_key id) k two, vm.get-put s.storage cell k one),
      )

  get-remove_container :
      (s t : State)
      → remove_container id owner_id s ≡ ok (tt, t)
      → (vm.get t.storage (container_key id) ≡ none)
        × (vm.get t.storage (owner_key owner_id ++ id) ≡ none)
        × ((k : Bytes) → Foreign k → vm.get t.storage k ≡ vm.get s.storage k)
  unfolding remove_container
  get-remove_container s t h =
      let cell = owner_key owner_id ++ id in
      let u = vm.delete s.storage cell in
      (
        ground (arith, vm.get-delete u (container_key id) (container_key id), bytes_equal_refl id),
        ground (
          arith,
          vm.get-delete u (container_key id) cell,
          vm.get-delete s.storage cell cell,
          bytes_equal_refl cell,
        ),
        λ k (_, p, q).
            ground (arith, vm.get-delete u (container_key id) k, vm.get-delete s.storage cell k),
      )

  -- Get and Owner of a stored container
  get_method-stored :
      (cnr : Container) (t : State)
      → length cnr.value ≢ 0
      → owner_from_binary_container cnr.value ≡ some owner_id
      → vm.get t.storage (container_key id) ≡ some (containers.encode cnr)
      → (get_method id t ≡ ok (cnr, t)) × (owner id t ≡ ok (owner_id, t))
  unfolding get_method owner get_owner_by_id get_container
  get_method-stored cnr t filled names e =
      (ground (arith, containers.cast-encode cnr), ground (arith, containers.cast-encode cnr))

  -- When the part of PutNamed behind its guard succeeds for a container that is not empty and
  -- names the owner, Get returns the container and Owner its owner, the entry in the list of the
  -- owner is stored, and no other cell has changed but that of the alias.
  pub store_container_lem :
      (cnr : Container) (frostfs_id_addr balance_addr : Bytes) (fee : ℤ) (alias : Alias)
      (s t : State)
      → length cnr.value ≢ 0
      → owner_from_binary_container cnr.value ≡ some owner_id
      → store_container env id owner_id cnr frostfs_id_addr balance_addr fee alias s ≡ ok (tt, t)
      → (get_method id t ≡ ok (cnr, t))
        × (owner id t ≡ ok (owner_id, t))
        × (vm.get t.storage (owner_key owner_id ++ id) ≡ some (vm.raw.encode id))
        × ((k : Bytes) → Foreign k → vm.get t.storage k ≡ vm.get s.storage k)
  unfolding store_container
  store_container_lem cnr frostfs_id_addr balance_addr fee alias s t filled names h =
      let (_, u, h1, rest) =
        >>=-eq-ok
          (pay_alphabet env balance_addr (wallet_to_script_hash owner_id) fee
            (container_fee_transfer_details id) env.committee)
          (λ _. add_container id owner_id cnr >>= λ _.
            finish_container env id owner_id cnr frostfs_id_addr alias)
          s h in
      let (_, v, h2, h3) =
        >>=-eq-ok (add_container id owner_id cnr)
          (λ _. finish_container env id owner_id cnr frostfs_id_addr alias) u rest in
      let (here, listed, kept) = get-add_container cnr u v h2 in
      let after =
        finish_container-Keeps (NotAlias id) env id (λ k p. p) owner_id cnr frostfs_id_addr alias v
          t tt h3 in
      let before =
        pay_alphabet-Keeps (λ k. Unit) env balance_addr (wallet_to_script_hash owner_id) fee
          (container_fee_transfer_details id) env.committee s u tt h1 in
      let (got, owned) =
        get_method-stored cnr t filled names (after (container_key id) refl ∙ here) in
      (
        got,
        owned,
        after (owner_key owner_id ++ id) refl ∙ listed,
        λ k foreign. after k foreign.0 ∙ (kept k foreign ∙ before k tt),
      )

  owner-removed :
      (t : State) → vm.get t.storage (container_key id) ≡ none → owner id t ≡ not_found t
  unfolding owner get_owner_by_id get_container
  owner-removed t e = ground arith

  -- When the part of Delete behind its guard succeeds, the container and its entry in the list of
  -- its owner are gone, Owner panics as for a container that does not exist, and no other cell has
  -- changed but that of the alias.
  pub erase_container_lem :
      (s t : State)
      → erase_container env id owner_id s ≡ ok (tt, t)
      → (owner id t ≡ not_found t)
        × (vm.get t.storage (container_key id) ≡ none)
        × (vm.get t.storage (owner_key owner_id ++ id) ≡ none)
        × ((k : Bytes) → Foreign k → vm.get t.storage k ≡ vm.get s.storage k)
  unfolding erase_container
  erase_container_lem s t h =
      let told = notify "DeleteSuccess" (bytes id ∷ []) in
      let (_, u, h1, rest) =
        >>=-eq-ok (remove_alias env id) (λ _. remove_container id owner_id >>= λ _. told) s h in
      let (_, v, h2, h3) = >>=-eq-ok (remove_container id owner_id) (λ _. told) u rest in
      let (gone, unlisted, kept) = get-remove_container u v h2 in
      let before = remove_alias-Keeps (NotAlias id) env id (λ k p. p) s u tt h1 in
      let after = Keeps-notify (λ k. Unit) "DeleteSuccess" (bytes id ∷ []) v t tt h3 in
      (
        owner-removed t (after (container_key id) tt ∙ gone),
        after (container_key id) tt ∙ gone,
        after (owner_key owner_id ++ id) tt ∙ unlisted,
        λ k foreign. after k tt ∙ (kept k foreign ∙ before k foreign.0),
      )

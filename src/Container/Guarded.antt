-- ===== src/Container/Guarded.antt =====
-- Put and Delete of the container contract with notary, from the call to the stored cells
-- (container/container_contract.go, `PutNamed` and `Delete`).
use frostfs_contract.Prelude.{
  ◌≡◌, ◌≢◌, sym, ap, ◌∙◌, Bool, true, false, String, Option, none, some, List, [], ◌∷◌, ◌++◌, arith,
  ◌==◌, ◌⊎◌, if◌then◌else◌, length, inl, inr, Bool-cases, Option-cases,
}
use frostfs_contract.Prelude.Bytes.{Bytes, codes}
use frostfs_contract.Host.Storage.{Vm, Env, Codec, Arg, bytes}
use frostfs_contract.Host.Exec.{Exec, State, ok, pure, done, read, or_fault, >>=-eq-ok, ◌>>=◌}
use frostfs_contract.Host.Frame.{or_fault-eq-ok}
use frostfs_contract.Common.Ir.{alphabet_address, check_alphabet_witness, check_witness_with_panic}
use frostfs_contract.Common.Vote.{invoke_id}
use frostfs_contract.Common.Quorum.{notary_key}
use frostfs_contract.Common.Quorum.Outcome.{NotaryDisabled}
use frostfs_contract.Container.{
  Container, not_found, container_key, owner_key, get_container, get_method, get_owner_by_id, owner,
  owner_from_binary_container, field_behind_version,
}
use frostfs_contract.Container.Methods.{
  Charge, by_alphabet, quote, store_container, put_named, erase_container, delete_method,
}
use frostfs_contract.Container.Registry.{Foreign, store_container_lem, erase_container_lem}
use frostfs_contract.Container.Quotes.{quote-Keeps}

-- With notary, what is behind the guard runs exactly under the signature of the alphabet.
module _ ⦃vm : Vm⦄ (env : Env) where
  by_alphabet-notary :
      (event : String) (args : List Arg) (id : Bytes) (action : Exec Unit) (s t : State)
      → by_alphabet env false event args id action s ≡ ok (tt, t)
      → (env.check_witness (alphabet_address env) ≡ true) × (action s ≡ ok (tt, t))
  unfolding by_alphabet check_alphabet_witness check_witness_with_panic
  by_alphabet-notary event args id action s t h =
      elim (Bool-cases (env.check_witness (alphabet_address env))) [
        | inl signed ↦ (signed, ground arith)
        | inr unsigned ↦ absurd (ground arith)
      ]

module _ ⦃vm : Vm⦄ ⦃containers : Codec vm.Value Container⦄ (env : Env) where
  get_container-same :
      (id : Bytes) (cnr : Container) (s t : State) → get_container id s ≡ ok (cnr, t) → t ≡ s
  unfolding get_container
  get_container-same id cnr s t h = elim (Option-cases (vm.get s.storage (container_key id))) [
    | inl missing ↦ ground arith
    | inr (v, present) ↦ (or_fault-eq-ok (containers.cast (some v)) cnr s t (ground arith)).0
  ]

  get_owner_by_id-same :
      (id : Bytes) (found : Option Bytes) (s t : State)
      → get_owner_by_id id s ≡ ok (found, t)
      → t ≡ s
  unfolding get_owner_by_id
  get_owner_by_id-same id found s t h =
      let rest : Container → Exec (Option Bytes) = λ container.
        if length container.value == 0
        then pure none
        else (or_fault (owner_from_binary_container container.value) >>= λ owner.
            pure (some owner)) in
      let (cnr, u, h1, h2) = >>=-eq-ok (get_container id) rest s h in
      let same = get_container-same id cnr s u h1 in
      elim (Bool-cases (length cnr.value == 0)) [
        | inl empty ↦ ground (arith, same)
        | inr filled ↦ elim (Option-cases (owner_from_binary_container cnr.value)) [
          | inl bad ↦ absurd (ground arith)
          | inr (o, named) ↦ ground (arith, same)
        ]
      ]

  filled_value : (value o : Bytes) → owner_from_binary_container value ≡ some o → length value ≢ 0
  unfolding owner_from_binary_container field_behind_version
  filled_value [] o h e = cc
  filled_value (b ∷ value) o h e = omega (arith, e)

  -- With notary, a successful PutNamed is signed by the alphabet, and the container names an
  -- owner; then Get of its hash returns the container and Owner that owner, the entry in the list
  -- of the owner is stored, and no other cell has changed but that of the alias.
  pub put_named-Stored :
      (cnr : Container) (name zone : Bytes) (s t : State)
      → NotaryDisabled s false
      → put_named env cnr name zone s ≡ ok (tt, t)
      → (o : Bytes) × (owner_from_binary_container cnr.value ≡ some o)
        × (env.check_witness (alphabet_address env) ≡ true)
        × (get_method (vm.sha256 cnr.value) t ≡ ok (cnr, t))
        × (owner (vm.sha256 cnr.value) t ≡ ok (o, t))
        × (vm.get t.storage (owner_key o ++ vm.sha256 cnr.value)
            ≡ some (vm.raw.encode (vm.sha256 cnr.value)))
        × ((k : Bytes)
            → Foreign env (vm.sha256 cnr.value) o k
            → vm.get t.storage k ≡ vm.get s.storage k)
  unfolding put_named
  put_named-Stored cnr name zone s t off h =
      let id = vm.sha256 cnr.value in
      let P : Bytes → Type 0 = λ k. Unit in
      let guarded : Bool → Bytes → Charge → Exec Unit = λ notary_disabled o charge.
        by_alphabet env notary_disabled "containerPut"
          (bytes cnr.value ∷ bytes cnr.sig ∷ bytes cnr.key ∷ bytes cnr.token ∷ [])
          (invoke_id (cnr.value ∷ cnr.sig ∷ cnr.key ∷ []) (codes "put"))
          (store_container env id o cnr charge.frostfs_id_addr charge.balance_addr
            charge.container_fee charge.alias) in
      let (nd, u, h1, rest) =
        >>=-eq-ok (read vm.flags notary_key)
          (λ nd. or_fault (owner_from_binary_container cnr.value) >>= λ o.
            (quote env o name zone >>= λ charge. guarded nd o charge))
          s h in
      let (o, v, h2, rest2) =
        >>=-eq-ok (or_fault (owner_from_binary_container cnr.value))
          (λ o. quote env o name zone >>= λ charge. guarded nd o charge) u rest in
      let (charge, w, h3, h4) =
        >>=-eq-ok (quote env o name zone) (λ charge. guarded nd o charge) v rest2 in
      let (same1, flag) = or_fault-eq-ok (vm.flags.cast (vm.get s.storage notary_key)) nd s u h1 in
      let (same2, named) = or_fault-eq-ok (owner_from_binary_container cnr.value) o u v h2 in
      let notary : nd ≡ false = ground arith in
      let (signed, stored) =
        by_alphabet-notary env "containerPut"
          (bytes cnr.value ∷ bytes cnr.sig ∷ bytes cnr.key ∷ bytes cnr.token ∷ [])
          (invoke_id (cnr.value ∷ cnr.sig ∷ cnr.key ∷ []) (codes "put"))
          (store_container env id o cnr charge.frostfs_id_addr charge.balance_addr
            charge.container_fee charge.alias)
          w t (ap (λ b. guarded b o charge w) (sym notary) ∙ h4) in
      let (got, owned, listed, kept) =
        store_container_lem env id o cnr charge.frostfs_id_addr charge.balance_addr
          charge.container_fee charge.alias w t (filled_value cnr.value o named) named stored in
      let before = quote-Keeps P env o name zone v w charge h3 in
      (
        o,
        named,
        signed,
        got,
        owned,
        listed,
        λ k foreign.
            kept k foreign ∙ (before k tt ∙ ap (λ x. vm.get (State.storage x) k) (same2 ∙ same1)),
      )

  -- what Delete leaves of a container that has an owner
  abbrev pub Deleted : Bytes → Bytes → State → State → Type 0
  Deleted id o s t =
      (env.check_witness (alphabet_address env) ≡ true)
      × (owner id t ≡ not_found t)
      × (vm.get t.storage (container_key id) ≡ none)
      × (vm.get t.storage (owner_key o ++ id) ≡ none)
      × ((k : Bytes) → Foreign env id o k → vm.get t.storage k ≡ vm.get s.storage k)

  -- With notary, a successful Delete changes nothing where the container does not exist; else the
  -- alphabet has signed, the container and its entry in the list of its owner are gone, Owner
  -- panics as for a container that does not exist, and no other cell has changed but that of the
  -- alias.
  pub delete_method-Deleted :
      (id signature token : Bytes) (s t : State)
      → NotaryDisabled s false
      → delete_method env id signature token s ≡ ok (tt, t)
      → ((get_owner_by_id id s ≡ ok (none, s)) × (t ≡ s))
        ⊎ ((o : Bytes) × (get_owner_by_id id s ≡ ok (some o, s)) × Deleted id o s t)
  unfolding delete_method
  delete_method-Deleted id signature token s t off h =
      let vote = invoke_id (id ∷ signature ∷ []) (codes "delete") in
      let args = bytes id ∷ bytes signature ∷ bytes token ∷ [] in
      let erase : Bool → Option Bytes → Exec Unit = λ nd found. elim found [
        | none ↦ done
        | some o ↦ by_alphabet env nd "containerDelete" args vote (erase_container env id o)
      ] in
      let (nd, u, h1, rest) =
        >>=-eq-ok (read vm.flags notary_key) (λ nd. get_owner_by_id id >>= erase nd) s h in
      let (found, v, h2, h3) = >>=-eq-ok (get_owner_by_id id) (erase nd) u rest in
      let (same1, flag) = or_fault-eq-ok (vm.flags.cast (vm.get s.storage notary_key)) nd s u h1 in
      let notary : nd ≡ false = ground arith in
      let same : v ≡ s = get_owner_by_id-same id found u v h2 ∙ same1 in
      let read_owner : get_owner_by_id id s ≡ ok (found, s) =
        ap (get_owner_by_id id) (sym same1) ∙ (h2 ∙ ap (λ x. ok (found, x)) same) in
      let erased : erase false found s ≡ ok (tt, t) =
        ap (λ x. erase false found x) (sym same) ∙ (ap (λ b. erase b found v) (sym notary) ∙ h3) in
      elim (Option-cases found) [
        | inl missing ↦ inl (read_owner ∙ ap (λ f. ok (f, s)) missing, ground arith)
        | inr (o, present) ↦
            let (signed, through) =
              by_alphabet-notary env "containerDelete" args vote (erase_container env id o) s t
                (ap (λ f. erase false f s) (sym present) ∙ erased) in
            let (gone, cell, unlisted, kept) = erase_container_lem env id o s t through in
            inr (o, read_owner ∙ ap (λ f. ok (f, s)) present, (signed, gone, cell, unlisted, kept))
      ]

-- ===== src/Nns/Checks.antt =====
-- The checks of a registration (nns/nns_contract.go, `Register`): which cells they leave alone, and
-- what they ask of the new owner.
use mathlib.Core.List.{reverse}
use frostfs_contract.Prelude.{
  ◌+◌, ◌≡◌, true, false, Option, some, List, [], ◌∷◌, arith, length, not, drop, last, ◌==◌,
}
use frostfs_contract.Prelude.Int.{pos}
use frostfs_contract.Prelude.Bytes.{Bytes, bytes_equal}
use frostfs_contract.Host.Storage.{Vm, Env, Codec}
use frostfs_contract.Host.Exec.{State, ok}
use frostfs_contract.Host.Frame.{
  Keeps, Keeps->>=, Keeps-pure, Keeps-panic, Keeps-require, Keeps-or_fault, Keeps-get, Keeps-put,
  Keeps-if, Keeps-Option,
}
use frostfs_contract.Common.Ir.{check_owner_witness, check_witness_with_panic}
use frostfs_contract.Nns.{NameState, RecordState, name_key, root_key}
use frostfs_contract.Nns.Tokens.{parent_expired}
use frostfs_contract.Nns.Frames.{
  check_admin-Keeps, check_committee-Keeps, burn_price-Keeps, expired_from_root-Keeps,
}
use frostfs_contract.Nns.{is_valid}
use frostfs_contract.Nns.Registration.{
  first_fragment, check_conflicts, register_root, check_parent, check_name, check_new_owner,
}

-- A cell that is not that of a top-level domain.
abbrev pub NotRoot : Bytes → Type 0
NotRoot k = (root : Bytes) → bytes_equal (root_key root) k ≡ false

module _ ⦃vm : Vm⦄ ⦃names : Codec vm.Value NameState⦄ ⦃records : Codec vm.Value RecordState⦄
    (env : Env) where
  check_conflicts-Keeps :
      (P : Bytes → Type 0) (name : Bytes) (es : List (Bytes × vm.Value))
      → Keeps P (check_conflicts env name es)
  unfolding check_conflicts
  check_conflicts-Keeps P name [] = Keeps-pure P tt
  check_conflicts-Keeps P name ((k, v) ∷ es) =
      Keeps->>= P _ _ (Keeps-or_fault P (records.cast (some v))) (λ r.
        Keeps->>= P _ _ (Keeps-require P _ "parent domain has conflicting records")
          (λ _. check_conflicts-Keeps P name es))

  check_parent-Keeps :
      (P : Bytes → Type 0) (name : Bytes) (fs : List Bytes) (cell : Option vm.Value)
      → Keeps P (check_parent env name fs cell)
  unfolding check_parent parent_expired
  check_parent-Keeps P name fs cell =
      Keeps->>= P _ _
        (Keeps-Option P cell _ _ (Keeps-panic P "TLD not found") (λ v. Keeps-pure P tt))
        (λ _. Keeps->>= P _ _ (expired_from_root-Keeps P env (reverse (drop 1 fs))) (λ expired.
          Keeps->>= P _ _
            (Keeps-require P (not expired) "one of the parent domains is not registered")
            (λ _. Keeps->>= P _ _ (Keeps-or_fault P (first_fragment fs)) (λ first.
              Keeps->>= P _ _ (Keeps-get P (name_key (drop (length first + 1) name))) (λ raw.
                Keeps->>= P _ _ (Keeps-or_fault P (names.cast raw)) (λ ns.
                  Keeps->>= P _ _ (check_admin-Keeps P env ns) (λ _ s.
                    check_conflicts-Keeps P name
                      (vm.find s.storage (0x22 ∷ vm.ripemd160 (drop (length first + 1) name)))
                      s)))))))

  register_root-Keeps :
      (root : Bytes) (cell : Option vm.Value) → Keeps NotRoot (register_root env root cell)
  unfolding register_root
  register_root-Keeps root cell = Keeps->>= NotRoot _ _ (check_committee-Keeps NotRoot env) (λ _.
      Keeps-Option NotRoot cell _ _
        (Keeps-put NotRoot vm.numbers (root_key root) (pos 0) (λ k p. p root))
        (λ v. Keeps-panic NotRoot "TLD already exists"))

  pub check_name-Keeps : (name : Bytes) (fs : List Bytes) → Keeps NotRoot (check_name env name fs)
  unfolding check_name
  check_name-Keeps name fs = Keeps->>= NotRoot _ _ (Keeps-or_fault NotRoot (last fs)) (λ root.
      Keeps->>= NotRoot _ _ (Keeps-get NotRoot (root_key root)) (λ tld.
        Keeps-if NotRoot (length fs == 1) _ _ (register_root-Keeps root tld)
          (check_parent-Keeps NotRoot name fs tld)))

  pub check_new_owner-Keeps :
      (P : Bytes → Type 0) (owner : Bytes) → Keeps P (check_new_owner env owner)
  unfolding check_new_owner check_owner_witness check_witness_with_panic
  check_new_owner-Keeps P owner =
      Keeps->>= P _ _ (Keeps-require P (is_valid owner) "invalid owner") (λ _.
        Keeps->>= P _ _ (Keeps-require P (env.check_witness owner) "owner witness check failed")
          (λ _. burn_price-Keeps P env))

  pub check_new_owner-signed :
      (owner : Bytes) (s t : State)
      → check_new_owner env owner s ≡ ok (tt, t)
      → (length owner ≡ 20) × (env.check_witness owner ≡ true)
  unfolding check_new_owner check_owner_witness check_witness_with_panic
  check_new_owner-signed owner s t h = ground arith

-- ===== src/Nns/Ownership.antt =====
-- Who owns a domain name (nns/nns_contract.go, `Register` and `Transfer`).
use mathlib.Core.Path.{subst}
use frostfs_contract.Prelude.{
  ◌≡◌, refl, sym, ap, ◌∙◌, Bool, true, false, none, some, arith, length, inl, inr, Bool-cases,
  Option-cases,
}
use frostfs_contract.Prelude.Int.{pos, negsuc, ltb_ℤ}
use frostfs_contract.Prelude.Bytes.{Bytes}
use frostfs_contract.Host.Storage.{Vm, Env, Codec, null, bytes}
use frostfs_contract.Host.Exec.{State, ok, ◌>>=◌, >>=-eq-ok}
use frostfs_contract.Nns.{NameState, RecordState, name_key}
use frostfs_contract.Nns.Names.{split_and_check}
use frostfs_contract.Nns.Tokens.{update_balance, update_total_supply}
use frostfs_contract.Nns.Frames.{cell_state, state_of}
use frostfs_contract.Nns.Quiet.{
  Silent, Silent-trans, update_balance-IsQuiet, update_total_supply-IsQuiet,
  check_new_owner-IsQuiet, check_name-IsQuiet,
}
use frostfs_contract.Nns.Registration.{Soa, claim_name, check_name, check_new_owner, register}
use frostfs_contract.Nns.Checks.{
  NotRoot, check_name-Keeps, check_new_owner-Keeps, check_new_owner-signed,
}
use frostfs_contract.Nns.Taking.{taken, previous, Told, Told-after, take_name-after}

module _ ⦃vm : Vm⦄ ⦃names : Codec vm.Value NameState⦄ ⦃records : Codec vm.Value RecordState⦄
    (env : Env) where
  -- a name that may be registered
  abbrev pub IsFree : State → Bytes → Type 0
  IsFree s name =
      (ns : NameState) → state_of s name ≡ some ns → ltb_ℤ (pos env.time) ns.expiration ≡ false

  claim_name-held :
      (name owner : Bytes) (soa : Soa) (ns : NameState) (s : State)
      → state_of s name ≡ some ns
      → ltb_ℤ (pos env.time) ns.expiration ≡ true
      → claim_name env name owner soa s ≡ ok (false, s)
  unfolding claim_name
  claim_name-held name owner soa ns s held unexpired =
      elim (Option-cases (vm.get s.storage (name_key name))) [
        | inl missing ↦ absurd (ground arith)
        | inr (raw, present) ↦ ground arith
      ]

  claim_name-true :
      (name owner : Bytes) (soa : Soa) (s t : State)
      → claim_name env name owner soa s ≡ ok (true, t)
      → IsFree s name
        × Told env (previous (state_of s name)) name owner (taken env name owner soa) s t
  unfolding claim_name
  claim_name-true name owner soa s t h = elim (Option-cases (vm.get s.storage (name_key name))) [
    | inl missing ↦
        let unknown : state_of s name ≡ none = ground arith in
        let told =
          take_name-after env (update_total_supply (pos 1)) null name owner soa s t
            (update_total_supply-IsQuiet (pos 1)) (ground arith) in
        (
          (λ ns held. absurd (ground arith)),
          subst (λ o. Told env (previous o) name owner (taken env name owner soa) s t) (sym unknown)
              told,
        )
    | inr (raw, present) ↦ elim (Option-cases (names.cast (some raw))) [
      | inl bad ↦ absurd (ground arith)
      | inr (ns, readable) ↦ elim (Bool-cases (ltb_ℤ (pos env.time) ns.expiration)) [
        | inl unexpired ↦ absurd (ground arith)
        | inr expired ↦
            let known : state_of s name ≡ some ns = ground arith in
            let told =
              take_name-after env (update_balance name ns.owner (negsuc 0)) (bytes ns.owner) name
                owner soa s t (update_balance-IsQuiet name ns.owner (negsuc 0)) (ground arith) in
            (
              (λ other held. ground arith),
              subst (λ o. Told env (previous o) name owner (taken env name owner soa) s t)
                  (sym known) told,
            )
      ]
    ]
  ]

  -- the end of a registration that returns an answer
  register-claim :
      (name owner : Bytes) (soa : Soa) (r : Bool) (s t : State)
      → register env name owner soa s ≡ ok (r, t)
      → (u : State) × (claim_name env name owner soa u ≡ ok (r, t))
        × (length owner ≡ 20)
        × (env.check_witness owner ≡ true)
        × ((k : Bytes) → NotRoot k → vm.get u.storage k ≡ vm.get s.storage k)
        × Silent s u
  unfolding register
  register-claim name owner soa r s t h = elim (Option-cases (split_and_check name true)) [
    | inl bad ↦ absurd (ground arith)
    | inr (fs, good) ↦
        let (_, u, h1, rest) =
          >>=-eq-ok (check_name env name fs)
            (λ _. check_new_owner env owner >>= λ _. claim_name env name owner soa) s
            (ground arith) in
        let (_, v, h2, h3) =
          >>=-eq-ok (check_new_owner env owner) (λ _. claim_name env name owner soa) u rest in
        let (long, signed) = check_new_owner-signed env owner u v h2 in
        (
          v,
          h3,
          long,
          signed,
          (λ k p.
              check_new_owner-Keeps env NotRoot owner u v tt h2 k p
              ∙ check_name-Keeps env name fs s u tt h1 k p),
          Silent-trans s u v (check_name-IsQuiet env name fs s u tt h1)
              (check_new_owner-IsQuiet env owner u v tt h2),
        )
  ]

  name_key-NotRoot : (name : Bytes) → NotRoot (name_key name)
  name_key-NotRoot name root = refl

  -- If Register of a name that is registered and has not expired returns an answer, it returns
  -- false, and no cell has changed but those of top-level domains.
  pub register-held :
      (name owner : Bytes) (soa : Soa) (ns : NameState) (r : Bool) (s t : State)
      → state_of s name ≡ some ns
      → ltb_ℤ (pos env.time) ns.expiration ≡ true
      → register env name owner soa s ≡ ok (r, t)
      → (r ≡ false) × ((k : Bytes) → NotRoot k → vm.get t.storage k ≡ vm.get s.storage k)
  register-held name owner soa ns r s t held unexpired h =
      let (u, claimed, _, _, kept, _) = register-claim name owner soa r s t h in
      let still = ap cell_state (kept (name_key name) (name_key-NotRoot name)) ∙ held in
      let same = claim_name-held name owner soa ns u still unexpired in
      let here : u ≡ t = ground arith in
      (ground arith, λ k p. ap (λ x. vm.get (State.storage x) k) (sym here) ∙ kept k p)

  -- If Register returns true, the name was not registered or had expired, the new owner has 20
  -- bytes and has signed, and when the new owner is told of it, with the previous owner if there
  -- was one, and before anybody else is notified or called, the state of the name is that of the
  -- new owner, without an administrator, with the expiration that the arguments give. It is also
  -- so at the end if the new owner is no contract; a contract may call back.
  pub register-true :
      (name owner : Bytes) (soa : Soa) (s t : State)
      → register env name owner soa s ≡ ok (true, t)
      → IsFree s name
        × (length owner ≡ 20)
        × (env.check_witness owner ≡ true)
        × Told env (previous (state_of s name)) name owner (taken env name owner soa) s t
  register-true name owner soa s t h =
      let (u, claimed, long, signed, kept, silent) = register-claim name owner soa true s t h in
      let (free, told) = claim_name-true name owner soa u t claimed in
      let still = ap cell_state (kept (name_key name) (name_key-NotRoot name)) in
      let old : state_of u name ≡ state_of s name = still in
      (
        (λ ns held. free ns (still ∙ held)),
        long,
        signed,
        subst (λ o. Told env (previous o) name owner (taken env name owner soa) s t) old
            (Told-after env s u t (previous (state_of u name)) name owner (taken env name owner soa)
              silent told),
      )

-- ===== src/Nns/Taking.antt =====
-- The end of a registration (nns/nns_contract.go, `Register`): the name gets its new state, and then
-- the new owner is told of it.
use frostfs_contract.Prelude.{
  ◌≡◌, refl, ap, ◌∙◌, Bool, true, false, Option, none, some, arith, last,
}
use frostfs_contract.Prelude.Int.{pos, ◌+ℤ◌, scale_ℤ}
use frostfs_contract.Prelude.Bytes.{Bytes, bytes_equal_refl}
use frostfs_contract.Host.Storage.{Vm, Env, Codec, Arg, null, bytes}
use frostfs_contract.Host.Exec.{Exec, State, ok, pure, ◌>>=◌, >>=-eq-ok}
use frostfs_contract.Host.Frame.{Keeps->>=}
use frostfs_contract.Nns.{NameState, RecordState, name_key}
use frostfs_contract.Nns.Tokens.{update_balance, post_transfer, put_name_state_at}
use frostfs_contract.Nns.Frames.{
  cell_state, state_of, update_balance-Keeps, post_transfer-account, put_soa_record-Keeps,
}
use frostfs_contract.Nns.Records.{put_soa_record}
use frostfs_contract.Nns.Quiet.{
  Silent, IsQuiet, Silent-trans, IsQuiet->>=, update_balance-IsQuiet, put_soa_record-IsQuiet,
}
use frostfs_contract.Nns.Registration.{Soa, take_name}

-- What the new owner is told of the previous one.
abbrev pub previous : Option NameState → Arg
previous none = null
previous (some ns) = bytes ns.owner

module _ ⦃vm : Vm⦄ ⦃names : Codec vm.Value NameState⦄ ⦃records : Codec vm.Value RecordState⦄
    (env : Env) where
  -- the state of a name that is taken
  abbrev pub taken : Bytes → Bytes → Soa → NameState
  taken name owner soa = record {
    owner = owner;
    name = name;
    expiration = pos env.time +ℤ scale_ℤ soa.expire 1000;
    admin = none;
  }

  -- The name has some state when its new owner is told of it, the first call and notification, and
  -- has it at the end where the new owner is no contract, which could call back.
  abbrev pub Told : Arg → Bytes → Bytes → NameState → State → State → Type 0
  Told old_owner name owner ns s t =
      (u : State) × Silent s u
      × (state_of u name ≡ some ns)
      × (post_transfer env old_owner owner name null u ≡ ok (tt, t))
      × (vm.is_contract s.world owner ≡ false → state_of t name ≡ some ns)

  pub Told-after :
      (s v t : State) (old_owner : Arg) (name owner : Bytes) (ns : NameState)
      → Silent s v
      → Told old_owner name owner ns v t
      → Told old_owner name owner ns s t
  Told-after s v t old_owner name owner ns silent (u, quiet, there, told, last) =
      (u, Silent-trans s v u silent quiet, there, told, λ account. last (rw silent.0 account))

  take_name-Told :
      (old_owner : Arg) (name owner : Bytes) (soa : Soa) (s t : State)
      → take_name env old_owner name owner soa s ≡ ok (true, t)
      → Told old_owner name owner (taken name owner soa) s t
  unfolding take_name put_name_state_at
  take_name-Told old_owner name owner soa s t h =
      let cell = name_key name in
      let state = names.encode (taken name owner soa) in
      let P : Bytes → Type 0 = λ k. k ≡ cell in
      let begin : State = record s { storage = vm.put s.storage cell state } in
      let finish : Exec Bool = post_transfer env old_owner owner name null >>= λ _. pure true in
      let balance = update_balance name owner (pos 1) in
      let soa_record = put_soa_record env name soa.email soa.refresh soa.retry soa.expire soa.ttl in
      let (_, v, h1, r1) = >>=-eq-ok soa_record (λ _. balance >>= λ _. finish) begin h in
      let (_, u, h2, r2) = >>=-eq-ok balance (λ _. finish) v r1 in
      let (_, w, h3, r3) =
        >>=-eq-ok (post_transfer env old_owner owner name null) (λ _. pure true) u r2 in
      let kept =
        Keeps->>= P soa_record (λ _. balance)
          (put_soa_record-Keeps P env name soa.email soa.refresh soa.retry soa.expire soa.ttl
            (λ k e rest. rw e refl))
          (λ _. update_balance-Keeps P name owner (pos 1) (λ k e. rw e refl) (λ k e. rw e refl)) in
      let steps : (soa_record >>= λ _. balance) begin ≡ ok (tt, u) = rw (◌>>=◌, h1) h2 in
      let stored : vm.get u.storage cell ≡ some state =
        kept begin u tt steps cell refl
        ∙ ground (arith, vm.get-put s.storage cell cell state, bytes_equal_refl cell) in
      let there = ap cell_state stored ∙ names.cast-encode (taken name owner soa) in
      let told : post_transfer env old_owner owner name null u ≡ ok (tt, t) = ground arith in
      let silent : Silent s u =
        IsQuiet->>= soa_record (λ _. balance)
          (put_soa_record-IsQuiet env name soa.email soa.refresh soa.retry soa.expire soa.ttl)
          (λ _. update_balance-IsQuiet name owner (pos 1)) begin u tt steps in
      (
        u,
        silent,
        there,
        told,
        λ account.
            ap (λ st. cell_state (vm.get st cell))
              (post_transfer-account env old_owner owner name null u t (rw silent.0 account) told)
            ∙ there,
      )

  -- the end of a claim, behind the step that updates the supply or the old owner's balance
  pub take_name-after :
      (step : Exec Unit) (old_owner : Arg) (name owner : Bytes) (soa : Soa) (s t : State)
      → IsQuiet step
      → (step >>= λ _. take_name env old_owner name owner soa) s ≡ ok (true, t)
      → Told old_owner name owner (taken name owner soa) s t
  take_name-after step old_owner name owner soa s t quiet h =
      let (_, u, first, rest) = >>=-eq-ok step (λ _. take_name env old_owner name owner soa) s h in
      Told-after s u t old_owner name owner (taken name owner soa) (quiet s u tt first)
        (take_name-Told old_owner name owner soa u t rest)

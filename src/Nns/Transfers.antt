-- ===== src/Nns/Transfers.antt =====
-- What a transfer of a domain name does (nns/nns_contract.go, `Transfer`).
use frostfs_contract.Prelude.{
  ◌≡◌, refl, sym, ap, ◌∙◌, Bool, true, false, not, none, some, arith, length, if◌then◌else◌, inl,
  inr, Bool-cases, Option-cases,
}
use frostfs_contract.Prelude.Int.{pos, negsuc, leb_ℤ}
use frostfs_contract.Prelude.Bytes.{Bytes, bytes_equal, bytes_equal_refl}
use frostfs_contract.Host.Storage.{Vm, Env, Codec, Arg, bytes}
use frostfs_contract.Host.Exec.{State, Exec, ok, done, pure, ◌>>=◌, require, >>=-eq-ok}
use frostfs_contract.Host.Frame.{Keeps->>=}
use frostfs_contract.Nns.{NameState, name_key, ensure_not_expired}
use frostfs_contract.Nns.Tokens.{post_transfer, put_name_state_at, get_name_state_at}
use frostfs_contract.Nns.Frames.{cell_state, state_of, update_balance-Keeps, post_transfer-account}
use frostfs_contract.Nns.Methods.{change_owner, transfer}
use frostfs_contract.Nns.Quiet.{Silent, IsQuiet, IsQuiet->>=, update_balance-IsQuiet}
use frostfs_contract.Nns.{is_valid}

module _ ⦃vm : Vm⦄ ⦃names : Codec vm.Value NameState⦄ (env : Env) where
  get_name_state_at_lem :
      (token_id : Bytes) (ns : NameState) (s t : State)
      → get_name_state_at env token_id s ≡ ok (ns, t)
      → (t ≡ s) × (state_of s token_id ≡ some ns) × (leb_ℤ ns.expiration (pos env.time) ≡ false)
  unfolding get_name_state_at ensure_not_expired
  get_name_state_at_lem token_id ns s t h =
      elim (Option-cases (vm.get s.storage (name_key token_id))) [
        | inl missing ↦ absurd (ground arith)
        | inr (raw, present) ↦ elim (Option-cases (names.cast (some raw))) [
          | inl bad ↦ absurd (ground arith)
          | inr (found, readable) ↦ elim (Bool-cases (leb_ℤ found.expiration (pos env.time))) [
            | inl expired ↦ absurd (ground arith)
            | inr valid ↦
                let same : found ≡ ns = ground arith in
                (
                  ground arith,
                  ground arith,
                  ap (λ (n : NameState). leb_ℤ n.expiration (pos env.time)) (sym same) ∙ valid,
                )
          ]
        ]
      ]

  change_owner-stored :
      (token_id : Bytes) (ns : NameState) (to : Bytes) (s t : State)
      → change_owner env token_id ns to s ≡ ok (tt, t)
      → vm.get t.storage (name_key token_id)
        ≡ some (names.encode (record ns { owner = to; admin = none }))
  unfolding change_owner put_name_state_at
  change_owner-stored token_id ns to s t h =
      let cell = name_key token_id in
      let state = names.encode (record ns { owner = to; admin = none }) in
      let P : Bytes → Type 0 = λ k. k ≡ cell in
      let u : State = record s { storage = vm.put s.storage cell state } in
      let kept =
        Keeps->>= P _ _
          (update_balance-Keeps P token_id ns.owner (negsuc 0) (λ k e. rw e refl)
            (λ k e. rw e refl))
          (λ _. update_balance-Keeps P token_id to (pos 1) (λ k e. rw e refl) (λ k e. rw e refl)) in
      kept u t tt h cell refl
      ∙ ground (arith, vm.get-put s.storage cell cell state, bytes_equal_refl cell)

  -- what a transfer does to the cells, for the owner itself or for another receiver
  abbrev pub Moved : Bool → Bytes → NameState → Bytes → State → State → Type 0
  Moved true token_id ns to s t = (k : Bytes) → vm.get t.storage k ≡ vm.get s.storage k
  Moved false token_id ns to s t =
      state_of t token_id ≡ some (record ns { owner = to; admin = none })

  Moved-after :
      (b : Bool) (token_id : Bytes) (ns : NameState) (to : Bytes) (s u t : State)
      → ((k : Bytes) → vm.get t.storage k ≡ vm.get u.storage k)
      → Moved b token_id ns to s u
      → Moved b token_id ns to s t
  Moved-after true token_id ns to s u t kept moved = λ k. kept k ∙ moved k
  Moved-after false token_id ns to s u t kept moved =
      ap cell_state (kept (name_key token_id)) ∙ moved

  hand_over-Moved :
      (token_id : Bytes) (ns : NameState) (to : Bytes) (b : Bool) (s t : State)
      → (if b then done else change_owner env token_id ns to) s ≡ ok (tt, t)
      → Moved b token_id ns to s t
  hand_over-Moved token_id ns to true s t h = λ k. ground arith
  hand_over-Moved token_id ns to false s t h =
      ap cell_state (change_owner-stored token_id ns to s t h)
      ∙ names.cast-encode (record ns { owner = to; admin = none })

  -- the end of a transfer that the owner has signed
  abbrev hand_over : Bytes → Bytes → Arg → NameState → Exec Bool
  hand_over to token_id data_arg ns =
      (if bytes_equal ns.owner to then done else change_owner env token_id ns to) >>= λ _.
      (post_transfer env (bytes ns.owner) to token_id data_arg >>= λ _. pure true)

  -- The name is handed over when its receiver is told of it, and is so at the end where the
  -- receiver is no contract, which could call back.
  abbrev pub Told : Bytes → Bytes → Arg → NameState → State → State → Type 0
  Told to token_id data_arg ns s t =
      (u : State) × Silent s u
      × Moved (bytes_equal ns.owner to) token_id ns to s u
      × (post_transfer env (bytes ns.owner) to token_id data_arg u ≡ ok (tt, t))
      × (vm.is_contract s.world to ≡ false → Moved (bytes_equal ns.owner to) token_id ns to s t)

  hand_over-IsQuiet :
      (token_id : Bytes) (ns : NameState) (to : Bytes) (b : Bool)
      → IsQuiet (if b then done else change_owner env token_id ns to)
  unfolding change_owner put_name_state_at
  hand_over-IsQuiet token_id ns to true s = λ t a h. ground arith
  hand_over-IsQuiet token_id ns to false s =
      IsQuiet->>= _ _ (update_balance-IsQuiet token_id ns.owner (negsuc 0))
        (λ _. update_balance-IsQuiet token_id to (pos 1))
        (record s {
          storage =
              vm.put s.storage (name_key token_id)
                (names.encode (record ns { owner = to; admin = none }));
        })

  hand_over_lem :
      (to token_id : Bytes) (data_arg : Arg) (ns : NameState) (r : Bool) (s t : State)
      → hand_over to token_id data_arg ns s ≡ ok (r, t)
      → (r ≡ true) × Told to token_id data_arg ns s t
  hand_over_lem to token_id data_arg ns r s t h =
      let b = bytes_equal ns.owner to in
      let tell = post_transfer env (bytes ns.owner) to token_id data_arg in
      let (_, u, h1, rest) =
        >>=-eq-ok (if b then done else change_owner env token_id ns to)
          (λ _. tell >>= λ _. pure true) s h in
      let (_, v, h2, h3) = >>=-eq-ok tell (λ _. pure true) u rest in
      let moved = hand_over-Moved token_id ns to b s u h1 in
      let silent = hand_over-IsQuiet token_id ns to b s u tt h1 in
      let told : tell u ≡ ok (tt, t) = ground arith in
      (
        ground arith,
        (
          u,
          silent,
          moved,
          told,
          λ account.
              Moved-after b token_id ns to s u t
                (λ k.
                  ap (λ st. vm.get st k)
                    (post_transfer-account env (bytes ns.owner) to token_id data_arg u t
                      (rw silent.0 account) told))
                moved,
        ),
      )

  -- the end of a transfer
  after_read-cases :
      (to token_id : Bytes) (data_arg : Arg) (ns : NameState) (w r : Bool) (s t : State)
      → (if not w then pure false else hand_over to token_id data_arg ns) s ≡ ok (r, t)
      → (w ≡ r) × (if r then Told to token_id data_arg ns s t else (t ≡ s))
  after_read-cases to token_id data_arg ns true r s t h =
      let (answer, told) = hand_over_lem to token_id data_arg ns r s t h in
      (sym answer, rw answer told)
  after_read-cases to token_id data_arg ns false r s t h =
      let answer : r ≡ false = ground arith in (sym answer, rw answer (ground arith))

  -- If Transfer of a name returns an answer, the receiver has 20 bytes, the name is registered and
  -- has not expired, and the answer is true exactly if its owner has signed; then, when the
  -- receiver is told of it, and before anybody else is notified or called, the name belongs to the
  -- receiver and has no administrator, or no cell has changed where the receiver is the owner.
  -- This is also so at the end if the receiver is no contract; a contract may call back. After the
  -- answer false the state is what it was.
  pub transfer-Moved :
      (to token_id : Bytes) (data_arg : Arg) (r : Bool) (s t : State)
      → transfer env to token_id data_arg s ≡ ok (r, t)
      → (ns : NameState) × (state_of s token_id ≡ some ns)
        × (leb_ℤ ns.expiration (pos env.time) ≡ false)
        × (length to ≡ 20)
        × (env.check_witness ns.owner ≡ r)
        × (if r then Told to token_id data_arg ns s t else (t ≡ s))
  unfolding transfer
  transfer-Moved to token_id data_arg r s t h =
      let after : NameState → Exec Bool = λ ns.
        if not (env.check_witness ns.owner)
        then pure false
        else hand_over to token_id data_arg ns in
      let (_, u, h1, rest) =
        >>=-eq-ok (require (is_valid to) "invalid receiver")
          (λ _. get_name_state_at env token_id >>= after) s h in
      let (ns, v, h2, h3) = >>=-eq-ok (get_name_state_at env token_id) after u rest in
      let (same, known, valid) = get_name_state_at_lem token_id ns u v h2 in
      let start : u ≡ s = ground arith in
      let (owned, finish) =
        after_read-cases to token_id data_arg ns (env.check_witness ns.owner) r v t h3 in
      let begin : v ≡ s = same ∙ start in
      (
        ns,
        ap (λ x. state_of x token_id) (sym start) ∙ known,
        valid,
        ground arith,
        owned,
        rw (← begin) finish,
      )

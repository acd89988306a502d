-- ===== src/Nns/Frames.antt =====
-- Which cells the steps of the name service leave alone (nns/nns_contract.go).
use frostfs_contract.Prelude.{
  ◌+◌, ◌≡◌, false, true, Option, none, some, List, [], ◌∷◌, ◌++◌, length, drop, if◌then◌else◌,
  arith,
}
use frostfs_contract.Prelude.Int.{ℤ, pos, ◌+ℤ◌, ltb_ℤ, leb_ℤ, eqb_ℤ}
use frostfs_contract.Prelude.Bytes.{Bytes, bytes_equal}
use frostfs_contract.Host.Storage.{Vm, Env, Codec, Arg}
use frostfs_contract.Host.Exec.{State, ok}
use frostfs_contract.Host.Frame.{
  Keeps, Keeps->>=, Keeps-pure, Keeps-panic, Keeps-require, Keeps-or_fault, Keeps-get, Keeps-read,
  Keeps-put, Keeps-delete, Keeps-if, Keeps-Option,
}
use frostfs_contract.Nns.{
  NameState, RecordState, balance_key, account_token_key, name_key, check_admin, check_committee,
  id_record_key, records_key,
}
use frostfs_contract.Nns.Names.{split_and_check}
use frostfs_contract.Nns.Tokens.{
  read_balance, update_balance, burn_price, get_price, post_transfer, is_expired, any_expired,
  expired_from_root, find_token, token_id_from_name,
}
use frostfs_contract.Nns.Records.{put_soa_record}

module _ ⦃vm : Vm⦄ ⦃names : Codec vm.Value NameState⦄ where
  -- the state of a name, expired or not
  abbrev pub cell_state : Option vm.Value → Option NameState
  cell_state none = none
  cell_state (some raw) = names.cast (some raw)

  abbrev pub state_of : State → Bytes → Option NameState
  state_of s name = cell_state (vm.get s.storage (name_key name))

  -- a receiver that is no contract is not called
  pub post_transfer-account :
      (env : Env) (from : Arg) (to token_id : Bytes) (data_arg : Arg) (s t : State)
      → vm.is_contract s.world to ≡ false
      → post_transfer env from to token_id data_arg s ≡ ok (tt, t)
      → t.storage ≡ s.storage
  unfolding post_transfer
  post_transfer-account env from to token_id data_arg s t account h = ground arith

-- A cell that holds no record.
abbrev pub NotRecord : Bytes → Type 0
NotRecord k = (rest : Bytes) → bytes_equal (0x22 ∷ rest) k ≡ false

module _ ⦃vm : Vm⦄ (P : Bytes → Type 0) where
  pub update_balance-Keeps :
      (token_id account : Bytes) (diff : ℤ)
      → ((k : Bytes) → P k → bytes_equal (balance_key account) k ≡ false)
      → ((k : Bytes) → P k → bytes_equal (account_token_key account token_id) k ≡ false)
      → Keeps P (update_balance token_id account diff)
  unfolding update_balance read_balance
  update_balance-Keeps token_id account diff p q =
      Keeps->>= P _ _
        (Keeps->>= P _ _ (Keeps-get P (balance_key account)) (λ cell.
          Keeps-Option P cell _ _ (Keeps-pure P (pos 0))
            (λ b. Keeps-or_fault P (vm.numbers.cast (some b)))))
        (λ balance.
          Keeps->>= P _ _
            (Keeps-if P (eqb_ℤ (balance +ℤ diff) (pos 0)) _ _
              (Keeps-delete P (balance_key account) p)
              (Keeps-put P vm.numbers (balance_key account) (balance +ℤ diff) p))
            (λ _.
              Keeps-if P (ltb_ℤ diff (pos 0)) _ _
                (Keeps-delete P (account_token_key account token_id) q)
                (Keeps-put P vm.raw (account_token_key account token_id) token_id q)))

  pub check_admin-Keeps : (env : Env) (ns : NameState) → Keeps P (check_admin env ns)
  unfolding check_admin
  check_admin-Keeps env ns = Keeps-if P (env.check_witness ns.owner) _ _ (Keeps-pure P tt) (
      Keeps-Option P ns.admin _ _ (Keeps-panic P "not witnessed by admin")
        (λ admin. Keeps-require P (env.check_witness admin) "not witnessed by admin"))

  pub check_committee-Keeps : (env : Env) → Keeps P (check_committee env)
  unfolding check_committee
  check_committee-Keeps env = Keeps-require P _ "not witnessed by committee"

  pub burn_price-Keeps : (env : Env) → Keeps P (burn_price env)
  unfolding burn_price get_price
  burn_price-Keeps env =
      Keeps->>= P _ _ (Keeps-read P vm.numbers _)
        (λ price. Keeps-or_fault P (if env.can_burn price then some tt else none))

module _ ⦃vm : Vm⦄ ⦃names : Codec vm.Value NameState⦄ (P : Bytes → Type 0) (env : Env) where
  is_expired-Keeps : (name : Bytes) → Keeps P (is_expired env name)
  unfolding is_expired
  is_expired-Keeps name = Keeps->>= P _ _ (Keeps-get P (name_key name)) (λ cell.
      Keeps-Option P cell _ _ (Keeps-pure P true) (λ raw.
        Keeps->>= P _ _ (Keeps-or_fault P (names.cast (some raw)))
          (λ ns. Keeps-pure P (leb_ℤ ns.expiration (pos env.time)))))

  any_expired-Keeps : (name : Bytes) (fs : List Bytes) → Keeps P (any_expired env name fs)
  unfolding any_expired
  any_expired-Keeps name [] = Keeps-pure P false
  any_expired-Keeps name (f ∷ fs) =
      Keeps->>= P _ _ (is_expired-Keeps (f ++ b'.' ∷ name)) (λ expired.
        Keeps-if P expired _ _ (Keeps-pure P true) (any_expired-Keeps (f ++ b'.' ∷ name) fs))

  pub expired_from_root-Keeps : (fs : List Bytes) → Keeps P (expired_from_root env fs)
  unfolding expired_from_root
  expired_from_root-Keeps [] = Keeps-pure P false
  expired_from_root-Keeps (root ∷ fs) =
      Keeps->>= P _ _ (is_expired-Keeps root)
        (λ expired. Keeps-if P expired _ _ (Keeps-pure P true) (any_expired-Keeps root fs))

  find_token-Keeps : (name rest : Bytes) (fs : List Bytes) → Keeps P (find_token env name rest fs)
  unfolding find_token
  find_token-Keeps name rest [] = Keeps-pure P name
  find_token-Keeps name rest (f ∷ []) = Keeps-pure P name
  find_token-Keeps name rest (f ∷ next ∷ fs) = Keeps->>= P _ _ (is_expired-Keeps rest) (λ expired.
      Keeps-if P expired _ _ (find_token-Keeps name (drop (length f + 1) rest) (next ∷ fs))
        (Keeps-pure P rest))

  pub token_id_from_name-Keeps : (name : Bytes) → Keeps P (token_id_from_name env name)
  unfolding token_id_from_name
  token_id_from_name-Keeps name =
      Keeps-Option P (split_and_check name true) _ _ (Keeps-panic P "invalid domain name format")
        (λ fs. find_token-Keeps name name fs)

module _ ⦃vm : Vm⦄ ⦃names : Codec vm.Value NameState⦄ ⦃records : Codec vm.Value RecordState⦄
    (P : Bytes → Type 0) (env : Env) where
  pub put_soa_record-Keeps :
      (name email : Bytes) (refresh retry expire ttl : ℤ)
      → ((k : Bytes) → P k → NotRecord k)
      → Keeps P (put_soa_record env name email refresh retry expire ttl)
  unfolding put_soa_record id_record_key records_key
  put_soa_record-Keeps name email refresh retry expire ttl other =
      Keeps->>= P _ _ (token_id_from_name-Keeps P env name)
        (λ token_id. Keeps-put P records _ _ (λ k p. other k p _))

-- ===== src/Nns/Methods.antt =====
-- The methods of the name service (nns/nns_contract.go).
use frostfs_contract.Prelude.{
  ℕ, Bool, true, false, not, Option, none, some, List, [], ◌∷◌, ◌==◌, ◌||◌, ltb, length, map, drop,
  last, if◌then◌else◌,
}
use frostfs_contract.Prelude.Int.{ℤ, pos, negsuc, ◌+ℤ◌, ltb_ℤ}
use frostfs_contract.Prelude.Bytes.{Bytes, bytes_equal}
use frostfs_contract.Host.Storage.{Vm, Env, Codec, Arg, bytes}
use frostfs_contract.Host.Entries.{cast_values}
use frostfs_contract.Host.Exec.{
  Exec, pure, panic, done, require, or_fault, get, put, call_contract, ◌>>=◌, ◌>>◌,
}
use frostfs_contract.Common.Ir.{check_owner_witness}
use frostfs_contract.Common.Version.{check_version, update_version, append_version}
use frostfs_contract.Nns.{
  NameState, RecordState, RecordType, type_soa, total_supply_key, price_key, root_key,
  records_key_by_type, check_admin, check_committee,
}
use frostfs_contract.Nns.Names.{split_and_check, max_name_length}
use frostfs_contract.Nns.Tokens.{
  read_balance, update_balance, burn_price, post_transfer, put_name_state, put_name_state_at,
  parent_expired, get_name_state, get_name_state_at, token_id_from_name,
}
use frostfs_contract.Nns.Records.{
  check_base_records, get_records_by_type, put_record, add_record, delete_keys, update_soa_serial,
  put_soa_record, resolve,
}
use frostfs_contract.Nns.{is_valid}
use frostfs_contract.Nns.Registration.{Soa}

abbrev pub max_register_price : ℤ
max_register_price = pos 1000000000000

abbrev pub default_register_price : ℤ
default_register_price = pos 1000000000

abbrev pub milliseconds_in_year : ℤ
milliseconds_in_year = pos 31536000000

-- The first argument of `_deploy`.
pub data DeployData : Type 0 where
  initial : DeployData
  upgrade : List Arg → DeployData

module _ ⦃vm : Vm⦄ where
  unfoldable pub deploy : DeployData → Exec Unit
  deploy (upgrade args) = or_fault (update_version args) >>= check_version
  deploy initial = do
    put vm.numbers total_supply_key (pos 0)
    put vm.numbers price_key default_register_price

  unfoldable pub balance_of : Bytes → Exec ℤ
  unfolding read_balance
  balance_of owner = do require (is_valid owner) "invalid owner"; read_balance owner

  -- `Roots`, the iterator run to its end
  unfoldable pub roots : Exec (List Bytes)
  roots s = pure (map (λ (e : Bytes × vm.Value). drop 1 e.0) (vm.find s.storage (0x20 ∷ []))) s

  -- `TokensOf`, the iterator run to its end
  unfoldable pub tokens_of : Bytes → Exec (List Bytes)
  unfolding cast_values
  tokens_of owner = do
    require (is_valid owner) "invalid owner"
    λ s. or_fault (cast_values vm.raw (vm.find s.storage (0x02 ∷ owner))) s

module _ ⦃vm : Vm⦄ (env : Env) where
  -- `Update`
  unfoldable pub update : Bytes → Bytes → Option (List Arg) → Exec Unit
  unfolding check_committee append_version
  update nef manifest args = do
    check_committee env
    call_contract env env.management_hash "update"
        (bytes nef ∷ bytes manifest ∷ append_version args)
    done

  unfoldable pub set_price : ℤ → Exec Unit
  unfolding check_committee
  set_price price = do
    check_committee env
    require (not (ltb_ℤ price (pos 0) || ltb_ℤ max_register_price price))
        "The price is out of range."
    put vm.numbers price_key price

module _ ⦃vm : Vm⦄ ⦃names : Codec vm.Value NameState⦄ (env : Env) where
  -- `Tokens`, the iterator run to its end
  unfoldable pub tokens : Exec (List Bytes)
  unfolding cast_values
  tokens s =
      (or_fault (cast_values names (vm.find s.storage (0x21 ∷ []))) >>= λ states.
      pure (map (λ (ns : NameState). ns.name) states))
        s

  unfoldable pub owner_of : Bytes → Exec Bytes
  unfolding get_name_state
  owner_of token_id = do ns ← get_name_state env token_id; pure ns.owner

  -- `Properties`: the name and the expiration
  unfoldable pub properties : Bytes → Exec (Bytes × ℤ)
  unfolding get_name_state
  properties token_id = do ns ← get_name_state env token_id; pure (ns.name, ns.expiration)

  -- the part of `Transfer` for another receiver than the owner
  unfoldable pub change_owner : Bytes → NameState → Bytes → Exec Unit
  unfolding put_name_state_at update_balance
  change_owner token_id ns to = do
    put_name_state_at token_id (record ns { owner = to; admin = none })
    update_balance token_id ns.owner (negsuc 0)
    update_balance token_id to (pos 1)

  unfoldable pub transfer : Bytes → Bytes → Arg → Exec Bool
  unfolding get_name_state_at change_owner post_transfer
  transfer to token_id data_arg = do
    require (is_valid to) "invalid receiver"
    ns ← get_name_state_at env token_id
    if not (env.check_witness ns.owner) then pure false else (do
      if bytes_equal ns.owner to then done else change_owner token_id ns to
      post_transfer env (bytes ns.owner) to token_id data_arg
      pure true)

  unfoldable pub is_available : Bytes → Exec Bool
  unfolding split_and_check parent_expired
  is_available name = elim (split_and_check name false) [
    | none ↦ panic "invalid domain name format"
    | some fragments ↦ do
      root ← or_fault (last fragments)
      cell ← get (root_key root)
      elim cell [
        | none ↦ if length fragments == 1 then pure true else panic "TLD not found"
        | some _ ↦ parent_expired env 0 fragments
      ]
  ]

  unfoldable pub renew : Bytes → Exec ℤ
  unfolding burn_price get_name_state check_admin put_name_state
  renew name = do
    require (not (ltb max_name_length (length name))) "invalid domain name format"
    burn_price env
    ns ← get_name_state env name
    check_admin env ns
    put_name_state (record ns { expiration = ns.expiration +ℤ milliseconds_in_year })
    pure (ns.expiration +ℤ milliseconds_in_year)

  -- no admin stands for nil
  unfoldable pub set_admin : Bytes → Option Bytes → Exec Unit
  unfolding get_name_state put_name_state
  set_admin name admin = do
    require (not (ltb max_name_length (length name))) "invalid domain name format"
    require (elim admin [ none ↦ true | some account ↦ env.check_witness account ])
        "not witnessed by admin"
    ns ← get_name_state env name
    check_owner_witness env ns.owner
    put_name_state (record ns { admin = admin })

module _ ⦃vm : Vm⦄ ⦃names : Codec vm.Value NameState⦄ ⦃records : Codec vm.Value RecordState⦄
    (env : Env) where
  -- `UpdateSOA`
  unfoldable pub update_soa : Bytes → Soa → Exec Unit
  unfolding get_name_state check_admin put_soa_record
  update_soa name soa = do
    require (not (ltb max_name_length (length name))) "invalid domain name format"
    ns ← get_name_state env name
    check_admin env ns
    put_soa_record env name soa.email soa.refresh soa.retry soa.expire soa.ttl

  -- what `SetRecord` and `AddRecord` begin with: the token of a name whose records may change
  unfoldable pub writable_token : Bytes → RecordType → Bytes → Exec Bytes
  unfolding token_id_from_name check_base_records get_name_state check_admin
  writable_token name type data_text = do
    token_id ← token_id_from_name env name
    valid ← check_base_records type data_text
    require valid "invalid record data"
    ns ← get_name_state env token_id
    check_admin env ns
    pure token_id

  unfoldable pub set_record_method : Bytes → RecordType → ℕ → Bytes → Exec Unit
  unfolding writable_token put_record update_soa_serial
  set_record_method name type id data_text = do
    token_id ← writable_token name type data_text
    put_record token_id name type id data_text
    update_soa_serial env token_id

  unfoldable pub add_record_method : Bytes → RecordType → Bytes → Exec Unit
  unfolding writable_token add_record update_soa_serial
  add_record_method name type data_text = do
    token_id ← writable_token name type data_text
    add_record token_id name type data_text
    update_soa_serial env token_id

  unfoldable pub get_records : Bytes → RecordType → Exec (List Bytes)
  unfolding token_id_from_name get_name_state get_records_by_type
  get_records name type = do
    token_id ← token_id_from_name env name
    get_name_state env token_id
    get_records_by_type token_id name type

  unfoldable pub delete_records : Bytes → RecordType → Exec Unit
  unfolding token_id_from_name get_name_state check_admin delete_keys update_soa_serial
  delete_records name type = do
    require (not (type == type_soa)) "you cannot delete soa record"
    token_id ← token_id_from_name env name
    ns ← get_name_state env token_id
    check_admin env ns
    λ s. delete_keys (vm.find s.storage (records_key_by_type token_id name type)) s
    update_soa_serial env token_id

  -- `Resolve`: at most two redirects
  unfoldable pub resolve_method : Bytes → RecordType → Exec (List Bytes)
  unfolding resolve
  resolve_method name type = resolve env 3 [] name type

-- ===== src/Nns/Registration.antt =====
-- Registration of domain names (nns/nns_contract.go, `Register`).
use frostfs_contract.Prelude.{
  ◌+◌, Bool, true, false, not, Option, none, some, List, [], ◌∷◌, ◌==◌, ◌&&◌, length, drop, last,
  if◌then◌else◌,
}
use frostfs_contract.Prelude.Int.{ℤ, pos, negsuc, ◌+ℤ◌, ltb_ℤ, eqb_ℤ, scale_ℤ}
use frostfs_contract.Prelude.Bytes.{Bytes}
use frostfs_contract.Host.Storage.{Vm, Env, Codec, Arg, null, bytes}
use frostfs_contract.Host.Exec.{Exec, pure, panic, done, require, or_fault, get, put, ◌>>=◌, ◌>>◌}
use frostfs_contract.Common.Ir.{check_owner_witness}
use frostfs_contract.Nns.{NameState, RecordState, root_key, name_key, check_admin, check_committee}
use frostfs_contract.Nns.Names.{split_and_check}
use frostfs_contract.Nns.Tokens.{
  update_total_supply, update_balance, burn_price, post_transfer, put_name_state_at, parent_expired,
}
use frostfs_contract.Nns.Records.{put_soa_record}
use frostfs_contract.Nns.{is_valid}

abbrev pub first_fragment : List Bytes → Option Bytes
first_fragment [] = none
first_fragment (fragment ∷ fragments) = some fragment

-- the arguments of `Register` for the SOA record
pub record Soa : Type 0 where
  pub email : Bytes
  pub refresh : ℤ
  pub retry : ℤ
  pub expire : ℤ
  pub ttl : ℤ

module _ ⦃vm : Vm⦄ ⦃names : Codec vm.Value NameState⦄ ⦃records : Codec vm.Value RecordState⦄
    (env : Env) where
  -- the loop of `Register` over the records of the parent
  unfoldable pub check_conflicts : Bytes → List (Bytes × vm.Value) → Exec Unit
  check_conflicts name [] = done
  check_conflicts name ((k, v) ∷ rest) = do
    r ← or_fault (records.cast (some v))
    let ind = vm.memory_search_last_index r.name name (length r.name)
    require (not (ltb_ℤ (pos 0) ind && eqb_ℤ (ind +ℤ pos (length name)) (pos (length r.name))))
        "parent domain has conflicting records"
    check_conflicts name rest

  -- the first part of `Register` for a top-level domain, whose cell is given
  unfoldable pub register_root : Bytes → Option vm.Value → Exec Unit
  unfolding check_committee
  register_root root cell = do
    check_committee env
    elim cell [
      | none ↦ put vm.numbers (root_key root) (pos 0)
      | some _ ↦ panic "TLD already exists"
    ]

  -- the first part of `Register` for other domains
  unfoldable pub check_parent : Bytes → List Bytes → Option vm.Value → Exec Unit
  unfolding parent_expired check_admin check_conflicts
  check_parent name fragments cell = do
    elim cell [ none ↦ panic {A = Unit} "TLD not found" | some _ ↦ done ]
    expired ← parent_expired env 1 fragments
    require (not expired) "one of the parent domains is not registered"
    first ← or_fault (first_fragment fragments)
    let parent = drop (length first + 1) name
    raw ← get (name_key parent)
    ns ← or_fault (names.cast raw)
    check_admin env ns
    λ s. check_conflicts name (vm.find s.storage (0x22 ∷ vm.ripemd160 parent)) s

  -- the end of `Register`, where the name is free; nil stands for no previous owner
  unfoldable pub take_name : Arg → Bytes → Bytes → Soa → Exec Bool
  unfolding put_name_state_at put_soa_record update_balance post_transfer
  take_name old_owner name owner soa = do
    put_name_state_at name (record {
      owner = owner;
      name = name;
      expiration = pos env.time +ℤ scale_ℤ soa.expire 1000;
      admin = none;
    })
    put_soa_record env name soa.email soa.refresh soa.retry soa.expire soa.ttl
    update_balance name owner (pos 1)
    post_transfer env old_owner owner name null
    pure true

  -- the part of `Register` behind its checks
  unfoldable pub claim_name : Bytes → Bytes → Soa → Exec Bool
  unfolding take_name update_balance update_total_supply
  claim_name name owner soa = do
    cell ← get (name_key name)
    elim cell [
      | none ↦ update_total_supply (pos 1) >> take_name null name owner soa
      | some raw ↦ do
        ns ← or_fault (names.cast (some raw))
        if ltb_ℤ (pos env.time) ns.expiration then pure false else (do
          update_balance name ns.owner (negsuc 0)
          take_name (bytes ns.owner) name owner soa)
    ]

  -- the checks of `Register` that are about the name
  unfoldable pub check_name : Bytes → List Bytes → Exec Unit
  unfolding register_root check_parent
  check_name name fragments = do
    root ← or_fault (last fragments)
    tld ← get (root_key root)
    if length fragments == 1 then register_root root tld else check_parent name fragments tld

  -- the checks of `Register` that are about the new owner, and the fee
  unfoldable pub check_new_owner : Bytes → Exec Unit
  unfolding burn_price
  check_new_owner owner = do
    require (is_valid owner) "invalid owner"
    check_owner_witness env owner
    burn_price env

  unfoldable pub register : Bytes → Bytes → Soa → Exec Bool
  unfolding split_and_check check_name check_new_owner claim_name
  register name owner soa = elim (split_and_check name true) [
    | none ↦ panic "invalid domain name format"
    | some fragments ↦ do
      check_name name fragments
      check_new_owner owner
      claim_name name owner soa
  ]

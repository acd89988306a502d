-- ===== src/Alphabet.antt =====
-- The alphabet contract (alphabet/alphabet_contract.go): it makes GAS out of the NEO that it holds,
-- gives it to the proxy contract and the inner ring, and votes for the committee of the sidechain.
pub mod Shares
use frostfs_contract.Prelude.{
  ℕ, zero, suc, Bool, false, not, Option, none, some, List, [], ◌∷◌, ◌++◌, ◌==◌, ◌&&◌, ◌||◌,
  if◌then◌else◌, length,
}
use frostfs_contract.Prelude.Int.{ℤ, pos, negsuc, ◌-ℤ◌, leb_ℤ, eqb_ℤ, mod_ℤ, scale_ℤ, div_ℤ}
use frostfs_contract.Prelude.Bytes.{Bytes, codes, bytes_equal}
use frostfs_contract.Host.Storage.{Vm, Env, Arg, null, int, bytes}
use frostfs_contract.Host.Exec.{
  Exec, pure, abort, done, require, or_fault, put, read, call_contract, query_contract, ◌>>=◌, ◌>>◌,
}
use frostfs_contract.Host.Reply.{as_int, as_flag}
use frostfs_contract.Common.Ir.{
  inner_ring_invoker, check_alphabet_witness, alphabet_address, inner_ring_nodes_from_netmap,
}
use frostfs_contract.Common.Version.{check_version, update_version}
use frostfs_contract.Common.Vote.{init_vote}
use frostfs_contract.Common.Quorum.{notary_key, is_empty, collect_votes}

abbrev pub netmap_key : Bytes
netmap_key = codes "netmapScriptHash"

abbrev pub proxy_key : Bytes
proxy_key = codes "proxyScriptHash"

abbrev pub index_key : Bytes
index_key = codes "index"

abbrev pub total_key : Bytes
total_key = codes "threshold"

abbrev pub name_key : Bytes
name_key = codes "name"

pub record DeployArgs : Type 0 where
  pub notary_disabled : Bool
  pub addr_netmap : Bytes
  pub addr_proxy : Bytes
  pub contract_name : Bytes
  pub index : ℤ
  pub total : ℤ

-- The first argument of `_deploy`.
pub data DeployData : Type 0 where
  initial : DeployArgs → DeployData
  upgrade : List Arg → DeployData

-- `l[i]`, which faults out of range
abbrev pub get_elem? : {A : Type 0} → List A → ℤ → Option A
get_elem? [] i = none
get_elem? (x ∷ xs) (negsuc i) = none
get_elem? (x ∷ xs) (pos zero) = some x
get_elem? (x ∷ xs) (pos (suc i)) = get_elem? xs (pos i)

-- the share of the proxy contract, and that of each of `n` nodes, which faults for no nodes
unfoldable pub proxy_share : ℤ → Option ℤ
proxy_share gas_balance = div_ℤ gas_balance 2

unfoldable pub node_share : ℤ → ℕ → Option ℤ
node_share gas_balance n = elim (div_ℤ (scale_ℤ gas_balance 7) 8) [
  | none ↦ none
  | some share ↦ div_ℤ share n
]

module _ ⦃vm : Vm⦄ where
  unfoldable pub deploy : DeployData → Exec Unit
  deploy (upgrade args) = or_fault (update_version args) >>= check_version
  deploy (initial args) = do
    require
        (length args.addr_netmap == 20 && (args.notary_disabled || length args.addr_proxy == 20))
        "incorrect length of contract script hash"
    put vm.raw netmap_key args.addr_netmap
    put vm.raw proxy_key args.addr_proxy
    put vm.raw name_key args.contract_name
    put vm.numbers index_key args.index
    put vm.numbers total_key args.total
    put vm.flags notary_key args.notary_disabled
    if args.notary_disabled then init_vote else done

  -- `Name`
  unfoldable pub name : Exec Bytes
  name = read vm.raw name_key

  -- `voteID`, with the bytes of the epoch first
  unfoldable pub vote_id : List Bytes → Bytes → Bytes
  vote_id [] result = vm.sha256 result
  vote_id (arg ∷ args) result = vote_id args (result ++ arg)

module _ ⦃vm : Vm⦄ (env : Env) where
  unfoldable pub on_nep17_payment : Exec Unit
  on_nep17_payment =
      if bytes_equal env.calling_script_hash env.gas_hash
      then done
      else if bytes_equal env.calling_script_hash env.neo_hash
      then done
      else abort "alphabet contract accepts GAS and NEO only"

  -- `BalanceOf` and `Transfer` of the native contracts `gas` and `neo`
  unfoldable pub balance_of : Bytes → Bytes → Exec ℤ
  balance_of token account = do
    reply ← query_contract env token "balanceOf" (bytes account ∷ [])
    as_int reply

  unfoldable pub token_transfer : Bytes → Bytes → Bytes → ℤ → Exec Bool
  token_transfer token from to amount = do
    reply ← call_contract env token "transfer" (bytes from ∷ bytes to ∷ int amount ∷ null ∷ [])
    as_flag reply

  -- `Gas` and `Neo`
  unfoldable pub gas : Exec ℤ
  unfolding balance_of
  gas = balance_of env.gas_hash env.executing_script_hash

  unfoldable pub neo : Exec ℤ
  unfolding balance_of
  neo = balance_of env.neo_hash env.executing_script_hash

  unfoldable pub current_epoch : Exec ℤ
  current_epoch = do
    netmap_addr ← read vm.raw netmap_key
    reply ← query_contract env netmap_addr "epoch" []
    as_int reply

  unfoldable pub check_permission : List Bytes → Exec Bool
  check_permission ir = do
    index ← read vm.numbers index_key
    if leb_ℤ (pos (length ir)) index
        then pure false
        else (or_fault (get_elem? ir index) >>= λ node. pure (env.check_witness node))

  -- the transfer to the proxy contract, which may fail; the rest of the balance
  unfoldable pub pay_proxy : ℤ → Exec ℤ
  unfolding token_transfer proxy_share
  pay_proxy gas_balance = do
    proxy_addr ← read vm.raw proxy_key
    proxy_gas ← or_fault (proxy_share gas_balance)
    require (not (eqb_ℤ proxy_gas (pos 0))) "no gas to emit"
    token_transfer env.gas_hash env.executing_script_hash proxy_addr proxy_gas
    pure (gas_balance -ℤ proxy_gas)

  -- the loop of `Emit` over the nodes, where a transfer may fail
  unfoldable pub pay_nodes : ℤ → List Bytes → Exec Unit
  unfolding token_transfer
  pay_nodes gas_per_node [] = done
  pay_nodes gas_per_node (node ∷ inner_ring) =
      token_transfer env.gas_hash env.executing_script_hash (vm.create_standard_account node)
        gas_per_node
      >>= λ transferred. pay_nodes gas_per_node inner_ring

  unfoldable pub emit : Exec Unit
  unfolding check_permission gas neo pay_proxy pay_nodes node_share
  emit = do
    notary_disabled ← read vm.flags notary_key
    permitted ← check_permission env.committee
    require permitted "invalid invoker"
    neo_balance ← neo
    transferred ←
        token_transfer env.neo_hash env.executing_script_hash env.executing_script_hash neo_balance
    require transferred "failed to transfer funds, aborting"
    all_gas ← gas
    gas_balance ← if notary_disabled then pure all_gas else pay_proxy all_gas
    inner_ring ←
        if notary_disabled
        then (read vm.raw netmap_key >>= λ addr. inner_ring_nodes_from_netmap env addr)
        else pure env.designated
    gas_per_node ← or_fault (node_share gas_balance (length inner_ring))
    if eqb_ℤ gas_per_node (pos 0) then done else pay_nodes gas_per_node inner_ring

  -- the end of `Vote`; the contract does not mind whether the vote counts
  unfoldable pub vote_for : Bytes → Exec Unit
  vote_for candidate = do
    reply ←
        call_contract env env.neo_hash "vote"
          (bytes env.executing_script_hash ∷ bytes candidate ∷ [])
    as_flag reply
    done

  -- the part of `Vote` behind its guard
  unfoldable pub choose : ℤ → List Bytes → ℤ → Exec Bytes
  unfolding current_epoch
  choose epoch candidates index = do
    cur_epoch ← current_epoch
    require (eqb_ℤ epoch cur_epoch) "invalid epoch"
    i ← or_fault (mod_ℤ index (pos (length candidates)))
    or_fault (get_elem? candidates i)

  unfoldable pub vote_method : ℤ → List Bytes → Exec Unit
  unfolding choose vote_for vote_id name
  vote_method epoch candidates = do
    notary_disabled ← read vm.flags notary_key
    index ← read vm.numbers index_key
    contract_name ← name
    let invoker = inner_ring_invoker env env.committee
    if notary_disabled
        then require (not (is_empty invoker)) "invalid invoker"
        else check_alphabet_witness env (alphabet_address env)
    candidate ← choose epoch candidates index
    if notary_disabled
        then collect_votes env env.committee invoker (vote_id candidates (vm.int_to_bytes epoch))
            (vote_for candidate)
        else vote_for candidate

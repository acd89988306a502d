-- ===== src/Proxy.antt =====
-- The proxy contract of the sidechain and the processing contract of the main chain, which pay for
-- transactions of the alphabet nodes (proxy/proxy_contract.go, processing/processing_contract.go).
use frostfs_contract.Prelude.{
  Bool, true, false, none, some, String, List, [], ◌∷◌, ◌==◌, length, if◌then◌else◌, Option,
}
use frostfs_contract.Prelude.Bytes.{Bytes, codes, bytes_equal}
use frostfs_contract.Host.Storage.{Vm, Env, Arg, bytes}
use frostfs_contract.Host.Exec.{
  Exec, pure, abort, done, require, or_fault, put, read, call_contract, query_contract, ◌>>=◌, ◌>>◌,
}
use frostfs_contract.Host.Reply.{as_bytes}
use frostfs_contract.Common.Ir.{multiaddress}
use frostfs_contract.Common.Version.{check_version, update_version, append_version}

abbrev pub frostfs_key : Bytes
frostfs_key = codes "frostfsScriptHash"

-- The first argument of `_deploy`: the script hash of the frostfs contract, or the arguments of an
-- update.
pub data DeployData : Type 0 where
  initial : Bytes → DeployData
  upgrade : List Arg → DeployData

module _ ⦃vm : Vm⦄ (env : Env) where
  -- `OnNEP17Payment` of both contracts
  unfoldable pub accept_gas : String → Exec Unit
  accept_gas message =
      if bytes_equal env.calling_script_hash env.gas_hash then done else abort message

  -- `Verify` of the proxy contract
  unfoldable pub verify_proxy : Bool
  unfolding multiaddress
  verify_proxy =
      if env.check_witness (multiaddress env.committee false)
      then true
      else env.check_witness (multiaddress env.committee true)

  -- `Verify` of the processing contract
  unfoldable pub verify_processing : Exec Bool
  verify_processing = do
    frostfs_addr ← read vm.raw frostfs_key
    reply ← query_contract env frostfs_addr "alphabetAddress" []
    multiaddr ← as_bytes reply
    pure (env.check_witness multiaddr)

  -- `_deploy` and `Update` of the processing contract
  unfoldable pub deploy_processing : DeployData → Exec Unit
  deploy_processing (upgrade args) = or_fault (update_version args) >>= check_version
  deploy_processing (initial addr_frostfs) = do
    require (length addr_frostfs == 20) "incorrect length of contract script hash"
    put vm.raw frostfs_key addr_frostfs

  unfoldable pub update_processing : Bytes → Bytes → Option (List Arg) → Exec Unit
  unfolding multiaddress append_version
  update_processing script manifest args = do
    require (env.check_witness (multiaddress env.designated true))
        "only side chain committee can update contract"
    call_contract env env.management_hash "update"
        (bytes script ∷ bytes manifest ∷ append_version args)
    done

  -- `_deploy` of the proxy contract
  unfoldable pub deploy_proxy : Option (List Arg) → Exec Unit
  deploy_proxy none = done
  deploy_proxy (some args) = or_fault (update_version args) >>= check_version

-- ===== src/Balance/Methods.antt =====
-- The methods of the balance contract (balance/balance_contract.go).
use frostfs_contract.Prelude.{
  Bool, true, false, not, String, List, [], ◌∷◌, ◌==◌, ◌&&◌, if◌then◌else◌, length,
}
use frostfs_contract.Prelude.Int.{ℤ, pos, ◌+ℤ◌, ◌-ℤ◌, ltb_ℤ, leb_ℤ, eqb_ℤ}
use frostfs_contract.Prelude.Bytes.{Bytes, codes}
use frostfs_contract.Host.Storage.{Vm, Env, Codec, Arg, int, bytes}
use frostfs_contract.Host.Exec.{Exec, done, require, read, put, notify, or_fault, ◌>>=◌, ◌>>◌}
use frostfs_contract.Common.Ir.{inner_ring_invoker, check_alphabet_witness, alphabet_address}
use frostfs_contract.Common.Transfer.{
  mint_transfer_details, burn_transfer_details, lock_transfer_details, unlock_transfer_details,
}
use frostfs_contract.Common.Version.{check_version, update_version}
use frostfs_contract.Common.Vote.{init_vote, invoke_id, from_known_contract}
use frostfs_contract.Common.Quorum.{notary_key, is_empty, collect_votes, by_nodes}
use frostfs_contract.Balance.{
  Account, hash160_len, circulation_key, get_supply, get_account, transfer,
}

abbrev pub netmap_key : Bytes
netmap_key = codes "netmapScriptHash"

abbrev pub container_key : Bytes
container_key = codes "containerScriptHash"

-- The first argument of `_deploy`: the deploy arguments, or those of an update.
pub data DeployData : Type 0 where
  initial : Bool → Bytes → Bytes → DeployData
  upgrade : List Arg → DeployData

module _ ⦃vm : Vm⦄ where
  unfoldable pub deploy : DeployData → Exec Unit
  deploy (upgrade args) = or_fault (update_version args) >>= check_version
  deploy (initial notary_disabled addr_netmap addr_container) = do
    require (length addr_netmap == hash160_len && length addr_container == hash160_len)
        "incorrect length of contract script hash"
    put vm.raw netmap_key addr_netmap
    put vm.raw container_key addr_container
    put vm.flags notary_key notary_disabled
    if notary_disabled then init_vote else done

  -- `panic("this method must be invoked from inner ring")`
  abbrev pub not_inner_ring : String
  not_inner_ring = "this method must be invoked from inner ring"

  -- The supply after a mint or a burn.
  abbrev pub put_supply : ℤ → Exec Unit
  put_supply supply = put vm.numbers circulation_key supply

module _ ⦃vm : Vm⦄ ⦃accounts : Codec vm.Value Account⦄ (env : Env) where
  -- `Transfer`, which the owner of `from` calls
  unfoldable pub transfer_method : Bytes → Bytes → ℤ → Exec Bool
  transfer_method from to amount = transfer env from to amount false []

  -- the rest of `TransferX` behind its guard
  unfoldable pub transfer_assets : Bytes → Bytes → ℤ → Bytes → Exec Unit
  transfer_assets from to amount details = do
    result ← transfer env from to amount true details
    require result "can't transfer assets"

  unfoldable pub transfer_x : Bytes → Bytes → ℤ → Bytes → Exec Unit
  unfolding transfer_assets
  transfer_x from to amount details = do
    notary_disabled ← read vm.flags notary_key
    if notary_disabled
        then (require (not (is_empty (inner_ring_invoker env env.committee))) not_inner_ring
            >> (from_known_contract env.calling_script_hash container_key >>= λ indirect_call.
                if indirect_call
                then transfer_assets from to amount details
                else collect_votes env env.committee (inner_ring_invoker env env.committee)
                    (invoke_id (from ∷ to ∷ vm.int_to_bytes amount ∷ []) (codes "transfer"))
                    (transfer_assets from to amount details)))
        else (check_alphabet_witness env (alphabet_address env)
            >> transfer_assets from to amount details)

  -- the rest of `Lock` behind its guard
  unfoldable pub lock_assets : Bytes → Bytes → Bytes → ℤ → ℤ → Exec Unit
  lock_assets tx_details from to amount until = do
    put accounts to (record { balance = pos 0; until = until; parent = from })
    result ← transfer env from to amount true (lock_transfer_details tx_details)
    require result "can't lock funds"
    notify "Lock" (bytes tx_details ∷ bytes from ∷ bytes to ∷ int amount ∷ int until ∷ [])

  unfoldable pub lock : Bytes → Bytes → Bytes → ℤ → ℤ → Exec Unit
  unfolding lock_assets
  lock tx_details from to amount until =
      by_nodes env env.committee not_inner_ring (invoke_id (tx_details ∷ []) (codes "lock"))
        (lock_assets tx_details from to amount until)

  -- The body of the loop of `NewEpoch`, for one key of the storage.
  unfoldable pub release : ℤ → Bytes → Exec Unit
  release epoch addr =
      if not (length addr == hash160_len)
      then done
      else (get_account addr >>= λ acc.
          if eqb_ℤ acc.until (pos 0)
          then done
          else if leb_ℤ acc.until epoch
          then (transfer env addr acc.parent acc.balance true (unlock_transfer_details epoch)
              >> done)
          else done)

  unfoldable pub release_all : ℤ → List (Bytes × vm.Value) → Exec Unit
  unfolding release
  release_all epoch [] = done
  release_all epoch ((addr, _) ∷ rest) = release epoch addr >>= λ _. release_all epoch rest

  unfoldable pub new_epoch : ℤ → Exec Unit
  unfolding release_all
  new_epoch epoch = do
    notary_disabled ← read vm.flags notary_key
    if notary_disabled
        then (from_known_contract env.calling_script_hash netmap_key >>= λ indirect_call.
            require indirect_call not_inner_ring)
        else check_alphabet_witness env (alphabet_address env)
    λ s. release_all epoch (vm.find s.storage []) s

  -- the rest of `Mint` behind its guard
  unfoldable pub mint_assets : Bytes → ℤ → Bytes → Exec Unit
  mint_assets to amount tx_details = do
    result ← transfer env [] to amount true (mint_transfer_details tx_details)
    require result "can't transfer assets"
    supply ← get_supply
    put_supply (supply +ℤ amount)
    notify "Mint" (bytes to ∷ int amount ∷ [])

  unfoldable pub mint : Bytes → ℤ → Bytes → Exec Unit
  unfolding mint_assets
  mint to amount tx_details =
      by_nodes env env.committee not_inner_ring (invoke_id (tx_details ∷ []) (codes "mint"))
        (mint_assets to amount tx_details)

  -- the rest of `Burn` behind its guard
  unfoldable pub burn_assets : Bytes → ℤ → Bytes → Exec Unit
  burn_assets from amount tx_details = do
    result ← transfer env from [] amount true (burn_transfer_details tx_details)
    require result "can't transfer assets"
    supply ← get_supply
    require (not (ltb_ℤ supply amount)) "negative supply after burn"
    put_supply (supply -ℤ amount)
    notify "Burn" (bytes from ∷ int amount ∷ [])

  unfoldable pub burn : Bytes → ℤ → Bytes → Exec Unit
  unfolding burn_assets
  burn from amount tx_details =
      by_nodes env env.committee not_inner_ring (invoke_id (tx_details ∷ []) (codes "burn"))
        (burn_assets from amount tx_details)

-- ===== src/Common/Transfer.antt =====
-- The details of transfers and the script hash of a wallet (common/transfer.go).
use frostfs_contract.Prelude.{◌-◌, ◌∷◌, length, take, drop}
use frostfs_contract.Prelude.Int.{ℤ}
use frostfs_contract.Prelude.Bytes.{Bytes}
use frostfs_contract.Host.Storage.{Vm}

-- `wallet[1 : len(wallet)-4]`
unfoldable pub wallet_to_script_hash : Bytes → Bytes
wallet_to_script_hash wallet = take (length wallet - 4 - 1) (drop 1 wallet)

unfoldable pub mint_transfer_details : Bytes → Bytes
mint_transfer_details details = 0x01 ∷ details

unfoldable pub burn_transfer_details : Bytes → Bytes
burn_transfer_details details = 0x02 ∷ details

unfoldable pub lock_transfer_details : Bytes → Bytes
lock_transfer_details details = 0x03 ∷ details

unfoldable pub unlock_transfer_details : ⦃vm : Vm⦄ → ℤ → Bytes
unlock_transfer_details ⦃vm⦄ epoch = 0x04 ∷ vm.int_to_bytes epoch

unfoldable pub container_fee_transfer_details : Bytes → Bytes
container_fee_transfer_details cid = 0x10 ∷ cid

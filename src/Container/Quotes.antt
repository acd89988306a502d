-- ===== src/Container/Quotes.antt =====
-- What `PutNamed` finds out before its guard changes no cell (container/container_contract.go).
use frostfs_contract.Prelude.{true, false, not, String, [], ◌∷◌, ◌++◌, if◌then◌else◌, length}
use frostfs_contract.Prelude.Int.{◌+ℤ◌, ltb_ℤ, scale_ℤ}
use frostfs_contract.Prelude.Bytes.{Bytes, codes, bytes_equal}
use frostfs_contract.Host.Storage.{Vm, Env, bytes, text}
use frostfs_contract.Host.Frame.{
  Keeps, Keeps->>=, Keeps-pure, Keeps-require, Keeps-read, Keeps-query_contract, Keeps-if,
  Keeps-as_int, Keeps-as_flag, Keeps-as_bytes,
}
use frostfs_contract.Common.Ir.{committee_address}
use frostfs_contract.Common.Transfer.{wallet_to_script_hash}
use frostfs_contract.Common.Quorum.{is_empty}
use frostfs_contract.Container.Estimations.{netmap_key}
use frostfs_contract.Container.Deploy.{frostfs_id_key, balance_contract_key, nns_key, nns_root_key}
use frostfs_contract.Container.Methods.{fee, quote}
use frostfs_contract.Container.Aliases.{txt, is_null, check_nice_name_available, find_alias}

module _ ⦃vm : Vm⦄ (P : Bytes → Type 0) (env : Env) where
  check_nice_name_available-Keeps :
      (nns_addr domain : Bytes) → Keeps P (check_nice_name_available env nns_addr domain)
  unfolding check_nice_name_available
  check_nice_name_available-Keeps nns_addr domain =
      Keeps->>= P _ _ (Keeps-query_contract P env nns_addr "isAvailable" (bytes domain ∷ []))
        (λ available. Keeps->>= P _ _ (Keeps-as_flag P available) (λ is_avail.
          Keeps-if P is_avail _ _ (Keeps-pure P true) (
            Keeps->>= P _ _ (Keeps-query_contract P env nns_addr "ownerOf" (bytes domain ∷ []))
              (λ reply. Keeps->>= P _ _ (Keeps-as_bytes P reply) (λ holder.
                Keeps->>= P _ _
                  (Keeps-require P
                    (if bytes_equal holder (committee_address env)
                      then true
                      else bytes_equal holder env.executing_script_hash)
                    "committee or container contract must own registered domain")
                  (λ _.
                    Keeps->>= P _ _
                      (Keeps-query_contract P env nns_addr "getRecords" (bytes domain ∷ txt ∷ []))
                      (λ res.
                        Keeps->>= P _ _ (Keeps-require P (is_null res) "name is already taken")
                          (λ _. Keeps-pure P false))))))))

  find_alias-Keeps : (name zone : Bytes) → Keeps P (find_alias env name zone)
  unfolding find_alias
  find_alias-Keeps name zone = Keeps-if P (is_empty name) _ _ (Keeps-pure P _) (
      Keeps->>= P _ _
        (Keeps-if P (is_empty zone) _ _ (Keeps-read P vm.raw nns_root_key) (Keeps-pure P zone))
        (λ root. Keeps->>= P _ _ (Keeps-read P vm.raw nns_key) (λ nns_addr.
          Keeps->>= P _ _ (check_nice_name_available-Keeps nns_addr (name ++ codes "." ++ root))
            (λ need. Keeps-pure P _))))

  fee-Keeps : (addr : Bytes) (key : String) → Keeps P (fee env addr key)
  unfolding fee
  fee-Keeps addr key =
      Keeps->>= P _ _ (Keeps-query_contract P env addr "config" (text key ∷ []))
        (λ reply. Keeps-as_int P reply)

  pub quote-Keeps : (owner_id name zone : Bytes) → Keeps P (quote env owner_id name zone)
  unfolding quote
  quote-Keeps owner_id name zone = Keeps->>= P _ _ (Keeps-read P vm.raw frostfs_id_key) (λ id_addr.
      Keeps->>= P _ _ (find_alias-Keeps name zone) (λ alias.
        Keeps->>= P _ _ (Keeps-read P vm.raw netmap_key) (λ netmap_addr.
          Keeps->>= P _ _ (Keeps-read P vm.raw balance_contract_key) (λ balance_addr.
            Keeps->>= P _ _ (fee-Keeps netmap_addr "ContainerFee") (λ registration_fee.
              Keeps->>= P _ _
                (Keeps-query_contract P env balance_addr "balanceOf"
                  (bytes (wallet_to_script_hash owner_id) ∷ []))
                (λ reply. Keeps->>= P _ _ (Keeps-as_int P reply) (λ balance.
                  Keeps->>= P _ _
                    (Keeps-if P (is_empty name) _ _ (Keeps-pure P registration_fee) (
                      Keeps->>= P _ _ (fee-Keeps netmap_addr "ContainerAliasFee")
                        (λ alias_fee. Keeps-pure P (registration_fee +ℤ alias_fee))))
                    (λ container_fee.
                      Keeps->>= P _ _
                        (Keeps-require P
                          (not (ltb_ℤ balance (scale_ℤ container_fee (length env.committee))))
                          "insufficient balance to create container")
                        (λ _. Keeps-pure P _)))))))))

-- ===== src/Tests/Results.antt =====
-- The theorems about audits, reputation and the alphabet contract at concrete input.
use frostfs_contract.Prelude.{
  ℕ, suc, ◌+◌, ◌*◌, ◌≤◌, ◌<◌, ◌≡◌, refl, true, false, some, List, [], ◌∷◌,
}
use frostfs_contract.Prelude.Int.{pos, ◌-ℤ◌}
use frostfs_contract.Prelude.Bytes.{Bytes, bytes_equal}
use frostfs_contract.Host.Storage.{Env, lookup}
use frostfs_contract.Host.Exec.{State, ok}
use frostfs_contract.Common.Ir.{alphabet_address}
use frostfs_contract.Common.Vote.{contains}
use frostfs_contract.Common.Quorum.{notary_key}
use frostfs_contract.Audit.{
  AuditHeader, new_audit_header, header_id, get_result, result_nodes, put_result,
}
use frostfs_contract.Audit.Header.{message, fields, new_audit_header_lem}
use frostfs_contract.Audit.Access.{put_result_lem}
use frostfs_contract.Reputation.{count_key, append_value, storage_id, put_value}
use frostfs_contract.Reputation.Log.{History, value_key, append_value_lem, put_value-notary}
use frostfs_contract.Alphabet.{proxy_share, node_share}
use frostfs_contract.Alphabet.Shares.{shares_lem}
use frostfs_contract.Tests.Cells.{flag_cell}
use frostfs_contract.Tests.Machine.{machine, holding, after, signed_by}

abbrev behind : Bytes
behind = fields 1 2 3 4 (11 ∷ 12 ∷ []) (1 ∷ []) (99 ∷ [])

abbrev result : Bytes
result = message 8 (5 ∷ 6 ∷ []) 9 (7 ∷ 0 ∷ 0 ∷ 0 ∷ 0 ∷ 0 ∷ 0 ∷ 0 ∷ []) behind

new_audit_header_example :
    new_audit_header result
    ≡ some (record {
      epoch = machine.bytes_to_int (7 ∷ 0 ∷ 0 ∷ 0 ∷ 0 ∷ 0 ∷ 0 ∷ 0 ∷ []);
      cid = 11 ∷ 12 ∷ [];
      from = 1 ∷ [];
    })
new_audit_header_example =
    new_audit_header_lem 8 9 1 2 3 4 (5 ∷ 6 ∷ []) (7 ∷ 0 ∷ 0 ∷ 0 ∷ 0 ∷ 0 ∷ 0 ∷ 0 ∷ [])
      (11 ∷ 12 ∷ []) (1 ∷ []) (99 ∷ []) refl

abbrev env : Env
env = signed_by (1 ∷ [])

abbrev with_notary : State
with_notary = holding ((notary_key, flag_cell false) ∷ [])

abbrev saved : State
saved = after (put_result env result with_notary)

put_result-eq : put_result env result with_notary ≡ ok (tt, saved)
unfolding put_result contains
put_result-eq = refl

put_result_example :
    (hdr : AuditHeader) × (nodes : List Bytes) × (new_audit_header result ≡ some hdr)
    × (result_nodes env with_notary ≡ ok (nodes, with_notary))
    × (contains nodes hdr.from ≡ true)
    × (env.check_witness hdr.from ≡ true)
    × (get_result (header_id hdr) saved ≡ ok (result, saved))
    × ((k : Bytes)
        → bytes_equal (header_id hdr) k ≡ false
        → lookup k saved.storage ≡ lookup k with_notary.storage)
put_result_example = put_result_lem env result with_notary saved put_result-eq

append_value_example :
    (t : State) × (append_value (5 ∷ []) (6 ∷ []) (holding []) ≡ ok (tt, t))
    × History t (5 ∷ []) ((6 ∷ []) ∷ [])
    × ((k : Bytes)
        → bytes_equal (count_key (5 ∷ [])) k ≡ false
        → bytes_equal (value_key (5 ∷ []) 1) k ≡ false
        → lookup k t.storage ≡ lookup k [])
    × (t.events ≡ [])
append_value_example = append_value_lem (5 ∷ []) (6 ∷ []) [] (holding []) (refl, λ i v h. cc)

signed_by_alphabet :
    (signed_by (3 ∷ [])).check_witness (alphabet_address (signed_by (3 ∷ []))) ≡ true
unfolding alphabet_address
signed_by_alphabet = refl

put_value-notary_example :
    (t : State) × (put_value (signed_by (3 ∷ [])) (pos 2) (5 ∷ []) (6 ∷ []) with_notary
      ≡ ok (tt, t))
    × History t (storage_id (pos 2) (5 ∷ [])) ((6 ∷ []) ∷ [])
put_value-notary_example =
    put_value-notary (signed_by (3 ∷ [])) (pos 2) (5 ∷ []) (6 ∷ []) [] with_notary refl
      signed_by_alphabet (refl, λ i v h. cc)

shares_example :
    (p q rest : ℕ) × (proxy_share (pos 1000) ≡ some (pos p))
    × (pos 1000 -ℤ pos p ≡ pos rest)
    × (node_share (pos rest) (suc 6) ≡ some (pos q))
    × (1000 + 16 * (p + q * suc 6) ≤ 16 * 1000)
    × (7 * rest < 8 * ((q + 1) * suc 6))
shares_example = shares_lem 1000 6

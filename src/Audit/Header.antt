-- ===== src/Audit/Header.antt =====
-- How the contract reads the header of a result (audit/audit_contract.go, `newAuditHeader`).
use mathlib.Core.List.{append_assoc}
use frostfs_contract.Prelude.{
  ℕ, ◌+◌, ◌≡◌, refl, sym, ap, ◌∙◌, true, some, [], ◌∷◌, ◌++◌, arith, leb, length, length-append,
  drop, drop-append,
}
use frostfs_contract.Prelude.Bytes.{Bytes, slice, slice-append}
use frostfs_contract.Host.Storage.{Vm}
use frostfs_contract.Audit.{slice_from, read_next, read_fields, header_at, new_audit_header}

-- A field: its length in one byte, and its bytes.
abbrev pub field : Bytes → Bytes
field b = length b ∷ b

-- what stands behind the epoch: three bytes, the container, one byte, the node, and the rest
abbrev pub fields : ℕ → ℕ → ℕ → ℕ → Bytes → Bytes → Bytes → Bytes
fields w1 w2 w3 w4 cid key rest = w1 ∷ w2 ∷ w3 ∷ (field cid ++ (w4 ∷ (field key ++ rest)))

-- a version, the type of the epoch's field, the epoch, and the fields behind it
abbrev pub message : ℕ → Bytes → ℕ → Bytes → Bytes → Bytes
message first version epoch_prefix epoch behind =
    first ∷ length version ∷ ((version ++ epoch_prefix ∷ []) ++ (epoch ++ behind))

slice_from-append : (a b : Bytes) (n : ℕ) → n ≡ length a → slice_from (a ++ b) n ≡ some b
slice_from-append a b n e =
    let fits : leb n (length (a ++ b)) ≡ true = ground (arith, length-append a b) in
    let end : drop n (a ++ b) ≡ b = rw e (drop-append a b) in rw (fits, end) refl

read_next-field : (b rest : Bytes) → read_next (field b ++ rest) ≡ some (b, 1 + length b)
unfolding read_next
read_next-field b rest = ground (arith, slice-append [] b rest 0 (length b) refl refl)

read_fields-fields :
    (w1 w2 w3 w4 : ℕ) (cid key rest : Bytes)
    → read_fields (fields w1 w2 w3 w4 cid key rest) ≡ some (cid, key)
unfolding read_fields
read_fields-fields w1 w2 w3 w4 cid key rest =
    let behind = field key ++ rest in
    let front = w1 ∷ w2 ∷ w3 ∷ length cid ∷ (cid ++ w4 ∷ []) in
    let input : front ++ behind ≡ fields w1 w2 w3 w4 cid key rest =
      ap (λ t. w1 ∷ w2 ∷ w3 ∷ length cid ∷ t) (append_assoc cid (w4 ∷ []) behind) in
    let second : slice_from (fields w1 w2 w3 w4 cid key rest) (3 + (1 + length cid) + 1)
        ≡ some behind =
      ap (λ t. slice_from t (3 + (1 + length cid) + 1)) (sym input)
      ∙ slice_from-append front behind (3 + (1 + length cid) + 1)
          (omega (arith, length-append cid (w4 ∷ []))) in
    ground (
      arith,
      slice_from-append (w1 ∷ w2 ∷ w3 ∷ []) (field cid ++ (w4 ∷ behind)) 3 refl,
      read_next-field cid (w4 ∷ behind),
      second,
      read_next-field key rest,
    )

module _ ⦃vm : Vm⦄ where
  -- From a message that is laid out as the contract expects it, with an epoch of eight bytes, the
  -- header that is read has the epoch, the container and the node that were written.
  pub new_audit_header_lem :
      (first epoch_prefix w1 w2 w3 w4 : ℕ) (version epoch cid key rest : Bytes)
      → length epoch ≡ 8
      → new_audit_header
          (message first version epoch_prefix epoch (fields w1 w2 w3 w4 cid key rest))
        ≡ some (record { epoch = vm.bytes_to_int epoch; cid = cid; from = key })
  unfolding new_audit_header header_at
  new_audit_header_lem first epoch_prefix w1 w2 w3 w4 version epoch cid key rest size =
      let behind = fields w1 w2 w3 w4 cid key rest in
      let front = first ∷ length version ∷ (version ++ epoch_prefix ∷ []) in
      let offset = 2 + length version + 1 in
      let at : offset ≡ length front = omega (arith, length-append version (epoch_prefix ∷ [])) in
      let input : (front ++ epoch) ++ behind ≡ message first version epoch_prefix epoch behind =
        append_assoc front epoch behind in
      let found : slice (message first version epoch_prefix epoch behind) offset 8 ≡ some epoch =
        slice-append front epoch behind offset 8 at (sym size) in
      let next : slice_from (message first version epoch_prefix epoch behind) (offset + 8)
          ≡ some behind =
        ap (λ t. slice_from t (offset + 8)) (sym input)
        ∙ slice_from-append (front ++ epoch) behind (offset + 8)
            (omega (arith, at, length-append front epoch, size)) in
      ground (arith, found, next, read_fields-fields w1 w2 w3 w4 cid key rest)

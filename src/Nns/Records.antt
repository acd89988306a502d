-- ===== src/Nns/Records.antt =====
-- The records of a name (nns/nns_contract.go): reading, adding and changing them, and the SOA record.
use frostfs_contract.Prelude.{
  ℕ, zero, suc, ◌+◌, ◌-◌, ◌%◌, Bool, true, false, not, Option, none, some, List, [], ◌∷◌, ◌++◌,
  ◌==◌, ◌&&◌, ◌||◌, leb, length, last, take, if◌then◌else◌,
}
use frostfs_contract.Prelude.Int.{ℤ, pos}
use frostfs_contract.Prelude.Bytes.{Bytes, bytes_equal}
use frostfs_contract.Host.Storage.{Vm, Env, Codec}
use frostfs_contract.Host.Exec.{
  Exec, pure, panic, done, require, or_fault, get, put, delete, ◌>>=◌, ◌>>◌,
}
use frostfs_contract.Nns.{
  NameState, RecordState, RecordType, type_a, type_cname, type_soa, type_txt, type_aaaa,
  records_key, records_key_by_type, id_record_key,
}
use frostfs_contract.Nns.Names.{split_and_check}
use frostfs_contract.Nns.Addresses.{check_ipv4, check_ipv6}
use frostfs_contract.Nns.Tokens.{get_name_state, token_id_from_name}

-- What `resolve` collects.
pub record Found : Type 0 where
  pub res : List Bytes
  pub cname : Bytes

-- `id++` of a byte
abbrev pub next_id : ℕ → ℕ
next_id id = (id + 1) % 256

-- seven fields with spaces between them
unfoldable pub soa_text : Bytes → Bytes → Bytes → Bytes → Bytes → Bytes → Bytes → Bytes
soa_text name email serial refresh retry expire ttl =
    name
    ++ b' '
      ∷ (email
          ++ b' ' ∷ (serial ++ b' ' ∷ (refresh ++ b' ' ∷ (retry ++ b' ' ∷ (expire ++ b' ' ∷ ttl)))))

-- the data of an SOA record with another serial; none for a record without seven fields
unfoldable pub with_serial : Bytes → List Bytes → Option Bytes
unfolding soa_text
with_serial serial (name ∷ email ∷ old ∷ refresh ∷ retry ∷ expire ∷ ttl ∷ []) =
    some (soa_text name email serial refresh retry expire ttl)
with_serial serial _ = none

module _ ⦃vm : Vm⦄ where
  unfoldable pub check_base_records : RecordType → Bytes → Exec Bool
  unfolding check_ipv4 check_ipv6 split_and_check
  check_base_records type data_text =
      if type == type_a
      then check_ipv4 data_text
      else if type == type_cname
      then pure (elim (split_and_check data_text true) [ none ↦ false | some fragments ↦ true ])
      else if type == type_txt
      then pure (leb (length data_text) 255)
      else if type == type_aaaa
      then check_ipv6 data_text
      else panic "unsupported record type"

module _ ⦃vm : Vm⦄ ⦃records : Codec vm.Value RecordState⦄ where
  -- the loop of `getRecordsByType`
  unfoldable pub data_of_type : RecordType → List (Bytes × vm.Value) → Exec (List Bytes)
  data_of_type type [] = pure []
  data_of_type type ((k, v) ∷ rest) = do
    r ← or_fault (records.cast (some v))
    found ← data_of_type type rest
    pure (if r.type == type then r.data_text ∷ found else found)

  unfoldable pub get_records_by_type : Bytes → Bytes → RecordType → Exec (List Bytes)
  unfolding data_of_type records_key_by_type
  get_records_by_type token_id name type s =
      data_of_type type (vm.find s.storage (records_key_by_type token_id name type)) s

  unfoldable pub store_record : Bytes → Bytes → RecordType → ℕ → Bytes → Exec Unit
  store_record record_key name type id data_text =
      put records record_key (record { name = name; type = type; data_text = data_text; id = id })

  unfoldable pub put_record : Bytes → Bytes → RecordType → ℕ → Bytes → Exec Unit
  unfolding id_record_key store_record
  put_record token_id name type id data_text = do
    cell ← get (id_record_key token_id name type id)
    elim cell [
      | none ↦ panic "invalid record id"
      | some rec_bytes ↦ store_record (id_record_key token_id name type id) name type id data_text
    ]

  -- `r.Name == name && r.Type == typ && r.Data == data`
  abbrev pub same_record : Bytes → RecordType → Bytes → RecordState → Bool
  same_record name type data_text r =
      bytes_equal r.name name && (r.type == type && bytes_equal r.data_text data_text)

  -- the loop of `addRecord`: the next identifier, behind an identifier
  unfoldable pub count_records : Bytes → RecordType → Bytes → ℕ → List (Bytes × vm.Value) → Exec ℕ
  count_records name type data_text id [] = pure id
  count_records name type data_text id ((k, v) ∷ rest) = do
    r ← or_fault (records.cast (some v))
    require (not (same_record name type data_text r)) "record already exists"
    count_records name type data_text (next_id id) rest

  unfoldable pub add_record : Bytes → Bytes → RecordType → Bytes → Exec Unit
  unfolding count_records records_key_by_type store_record
  add_record token_id name type data_text = do
    id ← λ s.
        count_records name type data_text 0
          (vm.find s.storage (records_key_by_type token_id name type)) s
    require (not ((type == type_cname) && not (id == 0)))
        "you shouldn't have more than one CNAME record"
    store_record (records_key_by_type token_id name type ++ id ∷ []) name type id data_text

  -- the loop of `DeleteRecords`
  unfoldable pub delete_keys : List (Bytes × vm.Value) → Exec Unit
  delete_keys [] = done
  delete_keys ((k, v) ∷ rest) = delete k >> delete_keys rest

  unfoldable pub update_soa_serial : Env → Bytes → Exec Unit
  unfolding id_record_key with_serial
  update_soa_serial env token_id = do
    cell ← get (id_record_key token_id token_id type_soa 0)
    elim cell [
      | none ↦ panic "not found soa record"
      | some rec_bytes ↦ do
        rec ← or_fault (records.cast (some rec_bytes))
        elim (with_serial (vm.itoa (pos env.time)) (vm.string_split_non_empty rec.data_text b' ')) [
          | none ↦ panic "invalid soa record"
          | some text ↦
              put records (id_record_key token_id token_id type_soa 0)
                (record rec { data_text = text })
        ]
    ]

  -- the loop of `resolve`
  unfoldable pub collect : RecordType → Found → List (Bytes × vm.Value) → Exec Found
  collect type found [] = pure found
  collect type found ((k, v) ∷ rest) = do
    r ← or_fault (records.cast (some v))
    collect type
        (record {
          res = if r.type == type then found.res ++ r.data_text ∷ [] else found.res;
          cname = if r.type == type_cname then r.data_text else found.cname;
        })
        rest

module _ ⦃vm : Vm⦄ ⦃names : Codec vm.Value NameState⦄ ⦃records : Codec vm.Value RecordState⦄
    (env : Env) where
  unfoldable pub put_soa_record : Bytes → Bytes → ℤ → ℤ → ℤ → ℤ → Exec Unit
  unfolding token_id_from_name id_record_key soa_text
  put_soa_record name email refresh retry expire ttl = do
    token_id ← token_id_from_name env name
    put records (id_record_key token_id name type_soa 0) (record {
      name = name;
      type = type_soa;
      data_text =
          soa_text name email (vm.itoa (pos env.time)) (vm.itoa refresh) (vm.itoa retry)
            (vm.itoa expire) (vm.itoa ttl);
      id = 0;
    })

  -- `getAllRecords`, the iterator run to its end
  unfoldable pub all_records : Bytes → Exec (List (Bytes × vm.Value))
  unfolding token_id_from_name get_name_state records_key
  all_records name = do
    token_id ← token_id_from_name env name
    get_name_state env token_id
    λ s. pure (vm.find s.storage (records_key token_id name)) s

  -- `name[:len(name)-1]` of a name that ends with a dot; none for an empty name
  unfoldable pub without_dot : Bytes → Option Bytes
  without_dot name = elim (last name) [
    | none ↦ none
    | some c ↦ some (if c == b'.' then take (length name - 1) name else name)
  ]

  -- the first argument is `redirect + 1`
  unfoldable pub resolve : ℕ → List Bytes → Bytes → RecordType → Exec (List Bytes)
  unfolding all_records collect without_dot
  resolve zero res name type = panic "invalid redirect"
  resolve (suc redirect) res name type = elim (without_dot name) [
    | none ↦ panic "invalid name"
    | some fqdn ↦ do
      entries ← all_records fqdn
      found ← collect type (record { res = res; cname = [] }) entries
      if (length found.cname == 0) || (type == type_cname)
          then pure found.res
          else resolve redirect (found.res ++ found.cname ∷ []) found.cname type
  ]

-- ===== src/Subnet.antt =====
-- The subnet contract (subnet/subnet_contract.go): the keys of its storage, and the guards and list
-- operations that its methods share. The methods are in Subnet.Methods.
pub mod Methods
pub mod Registry
pub mod Access
use frostfs_contract.Prelude.{
  ℕ, Bool, true, false, Option, none, some, List, [], ◌∷◌, ◌++◌, ◌==◌, ◌||◌, if◌then◌else◌, length,
  drop, String,
}
use frostfs_contract.Prelude.Bytes.{Bytes, codes, bytes_equal}
use frostfs_contract.Host.Storage.{Vm, Env}
use frostfs_contract.Host.Exec.{
  Exec, pure, panic, done, require, or_fault, get, put, delete, ◌>>=◌, ◌>>◌,
}

abbrev pub owner_key : Bytes → Bytes
owner_key id = b'o' ∷ id

abbrev pub info_key : Bytes → Bytes
info_key id = b'i' ∷ id

abbrev pub node_admin_prefix : Bytes → Bytes
node_admin_prefix id = b'a' ∷ id

abbrev pub client_admin_prefix : Bytes → Bytes
client_admin_prefix id = b'm' ∷ id

abbrev pub node_prefix : Bytes → Bytes
node_prefix id = b'n' ∷ id

abbrev pub user_prefix : Bytes → Bytes
user_prefix id = b'u' ∷ id

-- `notaryDisabledKey`
abbrev pub flag_key : Bytes
flag_key = b'z' ∷ []

abbrev pub subnet_id_size : ℕ
subnet_id_size = 5

abbrev pub group_id_size : ℕ
group_id_size = 5

abbrev pub user_id_size : ℕ
user_id_size = 27

-- `interop.PublicKeyCompressedLen`
abbrev pub public_key_len : ℕ
public_key_len = 33

module _ ⦃vm : Vm⦄ where
  unfoldable pub key_in_list : Bytes → Bytes → Exec Bool
  key_in_list searched_key prefix = do
    cell ← get (prefix ++ searched_key)
    pure (elim cell [ none ↦ false | some _ ↦ true ])

  unfoldable pub put_key_in_list : Bytes → Bytes → Exec Unit
  put_key_in_list key_to_put prefix = put vm.raw (prefix ++ key_to_put) (1 ∷ [])

  unfoldable pub delete_key_from_list : Bytes → Bytes → Exec Unit
  delete_key_from_list key_to_delete prefix = delete (prefix ++ key_to_delete)

  -- the loop of `deleteByPrefix` over the entries that were found
  unfoldable pub delete_keys : List (Bytes × vm.Value) → Exec Unit
  delete_keys [] = done
  delete_keys ((k, v) ∷ rest) = delete k >>= λ _. delete_keys rest

  unfoldable pub delete_by_prefix : Bytes → Exec Unit
  unfolding delete_keys
  delete_by_prefix prefix s = delete_keys (vm.find s.storage prefix) s

  -- one of the keys, without their prefix, has signed the transaction
  unfoldable pub any_witness : Env → ℕ → List (Bytes × vm.Value) → Bool
  any_witness env n [] = false
  any_witness env n ((k, v) ∷ rest) =
      if env.check_witness (drop n k) then true else any_witness env n rest

  unfoldable pub called_by_owner_or_admin : Env → Bytes → Bytes → Exec Bool
  unfolding any_witness
  called_by_owner_or_admin env owner admin_prefix s =
      pure
        (env.check_witness owner
          || any_witness env (length admin_prefix) (vm.find s.storage admin_prefix))
        s

  -- the owner of a subnet, with which most methods begin
  unfoldable pub get_owner : Bytes → Exec Bytes
  get_owner id = do
    cell ← get (owner_key id)
    elim cell [
      | none ↦ panic "subnet id doesn't exist"
      | some raw ↦ or_fault (vm.raw.cast (some raw))
    ]

-- ===== src/Subnet/Methods.antt =====
-- The methods of the subnet contract (subnet/subnet_contract.go).
use frostfs_contract.Prelude.{
  ℕ, ◌+◌, Bool, true, false, Option, none, some, List, [], ◌∷◌, ◌++◌, ◌==◌, if◌then◌else◌, length,
  drop, ltb,
}
use frostfs_contract.Prelude.Bytes.{Bytes, codes, bytes_equal}
use frostfs_contract.Host.Storage.{Vm, Env, Arg, bytes}
use frostfs_contract.Host.Exec.{
  Exec, panic, done, require, or_fault, get, put, delete, read, notify, ◌>>=◌, ◌>>◌,
}
use frostfs_contract.Common.Ir.{
  inner_ring_invoker, check_alphabet_witness, check_owner_witness, check_witness, alphabet_address,
}
use frostfs_contract.Common.Version.{check_version, update_version}
use frostfs_contract.Common.Vote.{invoke_id}
use frostfs_contract.Common.Quorum.{is_empty, collect_votes}
use frostfs_contract.Subnet.{
  owner_key, info_key, node_admin_prefix, client_admin_prefix, node_prefix, user_prefix, flag_key,
  subnet_id_size, group_id_size, user_id_size, public_key_len, key_in_list, put_key_in_list,
  delete_key_from_list, delete_by_prefix, called_by_owner_or_admin, get_owner,
}

-- The first argument of `_deploy`.
pub data DeployData : Type 0 where
  initial : Bool → DeployData
  upgrade : List Arg → DeployData

module _ ⦃vm : Vm⦄ where
  unfoldable pub deploy : DeployData → Exec Unit
  deploy (upgrade args) = or_fault (update_version args) >>= check_version
  deploy (initial notary_disabled) = put vm.flags flag_key notary_disabled

  -- the end of `Put`
  unfoldable pub register : Bytes → Bytes → Bytes → Exec Unit
  register id owner info = put vm.raw (owner_key id) owner >> put vm.raw (info_key id) info

  abbrev pub check_subnet_id : Bytes → Exec Unit
  check_subnet_id id = require (length id == subnet_id_size) "invalid subnet ID"

  -- `Get`
  unfoldable pub get_info : Bytes → Exec Bytes
  get_info id = do
    check_subnet_id id
    cell ← get (info_key id)
    elim cell [
      | none ↦ panic "subnet id doesn't exist"
      | some raw ↦ or_fault (vm.raw.cast (some raw))
    ]

  unfoldable pub node_allowed : Bytes → Bytes → Exec Bool
  unfolding key_in_list
  node_allowed id node = do
    check_subnet_id id
    require (length node == public_key_len) "invalid node key"
    owner ← get (owner_key id)
    elim owner [
      | none ↦ panic "subnet id doesn't exist"
      | some _ ↦ key_in_list node (node_prefix id)
    ]

  -- the loop of `UserAllowed`: the user's key stands behind the prefix and the group; `none` where a
  -- key is too short, which is out of range for the slice
  unfoldable pub user_found : Bytes → ℕ → List (Bytes × vm.Value) → Option Bool
  user_found user n [] = some false
  user_found user n ((k, v) ∷ rest) =
      let later = user_found user n rest in
      if ltb (length k) n then none else if bytes_equal user (drop n k) then some true else later

  unfoldable pub user_allowed : Bytes → Bytes → Exec Bool
  unfolding user_found
  user_allowed id user = do
    check_subnet_id id
    owner ← get (owner_key id)
    elim owner [
      | none ↦ panic "subnet id doesn't exist"
      | some _ ↦ λ s.
          or_fault
            (user_found user (length (user_prefix id) + group_id_size)
              (vm.find s.storage (user_prefix id)))
            s
    ]

module _ ⦃vm : Vm⦄ (env : Env) where
  -- `Put`
  unfoldable pub put_subnet : Bytes → Bytes → Bytes → Exec Unit
  unfolding register
  put_subnet id owner info = do
    check_subnet_id id
    require (length owner == public_key_len) "invalid owner"
    cell ← get (owner_key id)
    elim cell [ none ↦ done | some _ ↦ panic "subnet id already exists" ]
    notary_disabled ← read vm.flags flag_key
    if notary_disabled
        then (if is_empty (inner_ring_invoker env env.committee)
            then (check_witness env owner
                >> notify "Put" (bytes id ∷ bytes owner ∷ bytes info ∷ []))
            else collect_votes env env.committee (inner_ring_invoker env env.committee)
                (invoke_id (owner ∷ info ∷ []) (codes "put")) (register id owner info))
        else (check_owner_witness env owner
            >> (check_alphabet_witness env (alphabet_address env) >> register id owner info))

  -- the deletions of `Delete`
  unfoldable pub erase_subnet : Bytes → Exec Unit
  unfolding delete_by_prefix
  erase_subnet id = do
    delete (owner_key id)
    delete (info_key id)
    delete_by_prefix (node_admin_prefix id)
    delete_by_prefix (node_prefix id)
    delete_by_prefix (client_admin_prefix id)
    delete_by_prefix (user_prefix id)

  -- `Delete`
  unfoldable pub delete_subnet : Bytes → Exec Unit
  unfolding erase_subnet
  delete_subnet id = do
    check_subnet_id id
    cell ← get (owner_key id)
    elim cell [
      | none ↦ done
      | some raw ↦
          (or_fault (vm.raw.cast (some raw)) >>= λ owner.
          (check_owner_witness env owner >> (erase_subnet id >> notify "Delete" (bytes id ∷ []))))
    ]

  -- the methods that add to a list do nothing for a key that is there, and those that remove from
  -- one nothing for a key that is not
  unfoldable pub add_once : Bytes → Bytes → Exec Unit
  unfolding key_in_list put_key_in_list
  add_once key prefix = do
    found ← key_in_list key prefix
    if found then done else put_key_in_list key prefix

  unfoldable pub remove_once : Bytes → Bytes → Exec Unit
  unfolding key_in_list delete_key_from_list
  remove_once key prefix = do
    found ← key_in_list key prefix
    if found then delete_key_from_list key prefix else done

  unfoldable pub add_node_admin : Bytes → Bytes → Exec Unit
  unfolding get_owner add_once
  add_node_admin id admin_key = do
    check_subnet_id id
    require (length admin_key == public_key_len) "invalid administrator"
    owner ← get_owner id
    check_owner_witness env owner
    add_once admin_key (node_admin_prefix id)

  unfoldable pub remove_node_admin : Bytes → Bytes → Exec Unit
  unfolding get_owner remove_once
  remove_node_admin id admin_key = do
    check_subnet_id id
    require (length admin_key == public_key_len) "invalid administrator"
    owner ← get_owner id
    check_owner_witness env owner
    remove_once admin_key (node_admin_prefix id)

  unfoldable pub add_node : Bytes → Bytes → Exec Unit
  unfolding get_owner called_by_owner_or_admin add_once
  add_node id node = do
    check_subnet_id id
    require (length node == public_key_len) "invalid node key"
    owner ← get_owner id
    allowed ← called_by_owner_or_admin env owner (node_admin_prefix id)
    require allowed "access denied"
    add_once node (node_prefix id)

  unfoldable pub remove_node : Bytes → Bytes → Exec Unit
  unfolding get_owner called_by_owner_or_admin key_in_list delete_key_from_list
  remove_node id node = do
    check_subnet_id id
    require (length node == public_key_len) "invalid node key"
    owner ← get_owner id
    allowed ← called_by_owner_or_admin env owner (node_admin_prefix id)
    require allowed "access denied"
    found ← key_in_list node (node_prefix id)
    if found
        then (delete_key_from_list node (node_prefix id)
            >> notify "RemoveNode" (bytes id ∷ bytes node ∷ []))
        else done

  unfoldable pub add_client_admin : Bytes → Bytes → Bytes → Exec Unit
  unfolding get_owner add_once
  add_client_admin id group admin_key = do
    check_subnet_id id
    require (length group == group_id_size) "invalid group ID"
    require (length admin_key == public_key_len) "invalid administrator"
    owner ← get_owner id
    check_owner_witness env owner
    add_once admin_key (client_admin_prefix id ++ group)

  unfoldable pub remove_client_admin : Bytes → Bytes → Bytes → Exec Unit
  unfolding get_owner remove_once
  remove_client_admin id group admin_key = do
    check_subnet_id id
    require (length group == group_id_size) "invalid group ID"
    require (length admin_key == public_key_len) "invalid administrator"
    owner ← get_owner id
    check_owner_witness env owner
    remove_once admin_key (client_admin_prefix id ++ group)

  unfoldable pub add_user : Bytes → Bytes → Bytes → Exec Unit
  unfolding get_owner called_by_owner_or_admin add_once
  add_user id group user = do
    check_subnet_id id
    require (length user == user_id_size) "invalid user"
    require (length group == group_id_size) "invalid group ID"
    owner ← get_owner id
    allowed ← called_by_owner_or_admin env owner (client_admin_prefix id ++ group)
    require allowed "access denied"
    add_once user (user_prefix id ++ group)

  unfoldable pub remove_user : Bytes → Bytes → Bytes → Exec Unit
  unfolding get_owner called_by_owner_or_admin remove_once
  remove_user id group user = do
    check_subnet_id id
    require (length group == group_id_size) "invalid group ID"
    require (length user == user_id_size) "invalid user"
    owner ← get_owner id
    allowed ← called_by_owner_or_admin env owner (client_admin_prefix id ++ group)
    require allowed "access denied"
    remove_once user (user_prefix id ++ group)

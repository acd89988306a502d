-- ===== src/Container.antt =====
-- The container contract (container/container_contract.go): containers by their hash, the containers
-- of each owner, and extended access control lists. Estimations of the size of containers are in
-- Container.Estimations, the methods in Container.Methods.
pub mod Estimations
pub mod Deploy
pub mod Aliases
pub mod Methods
pub mod Cleanup
pub mod Registry
pub mod Quotes
pub mod Guarded
use frostfs_contract.Prelude.{
  ℕ, ◌+◌, Bool, true, false, Option, none, some, List, [], ◌∷◌, ◌++◌, ◌==◌, if◌then◌else◌, length,
  map, drop,
}
use frostfs_contract.Prelude.Int.{ℤ}
use frostfs_contract.Prelude.Bytes.{Bytes, codes, slice}
use frostfs_contract.Host.Storage.{Vm, Codec}
use frostfs_contract.Host.Entries.{cast_values}
use frostfs_contract.Host.Exec.{
  Exec, ok, pure, panic, done, or_fault, get, put, delete, ◌>>=◌, ◌>>◌,
}

-- `Container`, with the fields `value`, `sig`, `pub` and `token`
pub record Container : Type 0 where
  pub value : Bytes
  pub sig : Bytes
  pub key : Bytes
  pub token : Bytes

pub record ExtendedAcl : Type 0 where
  pub value : Bytes
  pub sig : Bytes
  pub key : Bytes
  pub token : Bytes

abbrev pub container_id_size : ℕ
container_id_size = 32

abbrev pub owner_id_size : ℕ
owner_id_size = 25

abbrev pub container_key : Bytes → Bytes
container_key id = b'x' ∷ id

abbrev pub owner_key : Bytes → Bytes
owner_key owner = b'o' ∷ owner

abbrev pub eacl_key : Bytes → Bytes
eacl_key id = codes "eACL" ++ id

-- The message of `NotFoundError`.
abbrev pub not_found : {A : Type 0} ⦃vm : Vm⦄ → Exec A
not_found = panic "container does not exist"

-- `b[1]` and, behind it and a fixed header of 6 bytes, a field of a given size
unfoldable pub field_behind_version : Bytes → ℕ → Option Bytes
field_behind_version (first ∷ offset ∷ rest) size =
    slice (first ∷ offset ∷ rest) (2 + offset + 4) size
field_behind_version _ size = none

unfoldable pub owner_from_binary_container : Bytes → Option Bytes
unfolding field_behind_version
owner_from_binary_container container = field_behind_version container owner_id_size

module _ ⦃vm : Vm⦄ ⦃containers : Codec vm.Value Container⦄ where
  unfoldable pub add_container : Bytes → Bytes → Container → Exec Unit
  add_container id owner container = do
    put vm.raw (owner_key owner ++ id) id
    put containers (container_key id) container

  unfoldable pub remove_container : Bytes → Bytes → Exec Unit
  remove_container id owner = do delete (owner_key owner ++ id); delete (container_key id)

  unfoldable pub get_container : Bytes → Exec Container
  get_container cid = do
    cell ← get (container_key cid)
    elim cell [
      | none ↦ pure (record { value = []; sig = []; key = []; token = [] })
      | some v ↦ or_fault (containers.cast (some v))
    ]

  -- the owner, none for a container that does not exist
  unfoldable pub get_owner_by_id : Bytes → Exec (Option Bytes)
  unfolding get_container owner_from_binary_container
  get_owner_by_id cid = do
    container ← get_container cid
    if length container.value == 0
        then pure none
        else (or_fault (owner_from_binary_container container.value) >>= λ owner. pure (some owner))

  -- `Get`
  unfoldable pub get_method : Bytes → Exec Container
  unfolding get_container
  get_method container_id = do
    cnt ← get_container container_id
    if length cnt.value == 0 then not_found else pure cnt

  -- `Owner`
  unfoldable pub owner : Bytes → Exec Bytes
  unfolding get_owner_by_id
  owner container_id = do
    found ← get_owner_by_id container_id
    elim found [ none ↦ not_found | some o ↦ pure o ]

  unfoldable pub count : Exec ℕ
  count s = ok (length (vm.find s.storage (b'x' ∷ [])), s)

  unfoldable pub get_all_containers : Exec (List Bytes)
  get_all_containers s =
      ok (map (λ (e : Bytes × vm.Value). drop 1 e.0) (vm.find s.storage (b'x' ∷ [])), s)

  -- `List`
  unfoldable pub list_containers : Bytes → Exec (List Bytes)
  unfolding get_all_containers cast_values
  list_containers owner = if length owner == 0 then get_all_containers else λ s.
      or_fault (cast_values vm.raw (vm.find s.storage (owner_key owner))) s

  -- `ContainersOf`, the iterator run to its end
  unfoldable pub containers_of : Bytes → Exec (List Bytes)
  unfolding cast_values
  containers_of owner s = or_fault (cast_values vm.raw (vm.find s.storage (owner_key owner))) s

module _ ⦃vm : Vm⦄ ⦃acls : Codec vm.Value ExtendedAcl⦄ where
  unfoldable pub get_eacl : Bytes → Exec ExtendedAcl
  get_eacl cid = do
    cell ← get (eacl_key cid)
    elim cell [
      | none ↦ pure (record { value = []; sig = []; key = []; token = [] })
      | some v ↦ or_fault (acls.cast (some v))
    ]

-- ===== src/Tests/Containers.antt =====
-- The theorems about containers at concrete input.
use frostfs_contract.Prelude.{
  ℕ, zero, suc, ◌≤◌, ◌≡◌, ◌≢◌, refl, true, false, some, none, Bool-cases, inl, inr, ◌⊎◌, [], ◌∷◌,
  ◌++◌, arith, length,
}
use frostfs_contract.Prelude.Int.{pos, ◌+ℤ◌}
use frostfs_contract.Prelude.Bytes.{Bytes, bytes_equal, bytes_equal_sound, is_prefix}
use frostfs_contract.Host.Storage.{Env, lookup}
use frostfs_contract.Host.Exec.{State, ok}
use frostfs_contract.Common.Ir.{alphabet_address, check_alphabet_witness}
use frostfs_contract.Common.Quorum.{notary_key}
use frostfs_contract.Container.{
  Container, owner_key, get_method, get_owner_by_id, owner, owner_from_binary_container,
}
use frostfs_contract.Container.Estimations.{estimate_prefix, netmap_key, cleanup_containers}
use frostfs_contract.Container.Deploy.{frostfs_id_key, balance_contract_key}
use frostfs_contract.Container.Methods.{put_named, delete_method}
use frostfs_contract.Container.Cleanup.{CleanedUp, cleanup_containers_lem}
use frostfs_contract.Container.Registry.{Foreign}
use frostfs_contract.Container.Guarded.{Deleted, put_named-Stored, delete_method-Deleted}
use frostfs_contract.Tests.Cells.{Cell, estimation_cell, flag_cell, raw_cell}
use frostfs_contract.Tests.Machine.{machine, container_codec, holding, after, signed_by}

-- some bytes that are all the same
abbrev pub repeated : ℕ → ℕ → Bytes
repeated b zero = []
repeated b (suc n) = b ∷ repeated b n

-- an estimation of epoch 1
abbrev old_key : Bytes
old_key = estimate_prefix ++ (1 ∷ (repeated 7 32 ++ repeated 8 10))

abbrev old_value : Cell
old_value = estimation_cell (record { from = 1 ∷ []; size = pos 5 })

abbrev one_estimation : State
one_estimation = holding ((old_key, old_value) ∷ [])

old_key-length :
    (k : Bytes)
    → is_prefix estimate_prefix k ≡ true
    → lookup k ((old_key, old_value) ∷ []) ≢ none
    → 45 ≤ length k
old_key-length k prefix present = elim (Bool-cases (bytes_equal old_key k)) [
  | inl e ↦ rw (← bytes_equal_sound old_key k e) (omega arith)
  | inr ne ↦ absurd (present (rw ne refl))
]

cleanup_containers_example :
    (t : State) × (cleanup_containers (pos 9) one_estimation ≡ ok (tt, t))
    × CleanedUp (pos 9) one_estimation t
    × (t.events ≡ one_estimation.events)
    × (t.world ≡ one_estimation.world)
cleanup_containers_example = cleanup_containers_lem (pos 9) one_estimation old_key-length

abbrev owner_id : Bytes
owner_id = repeated 5 25

abbrev some_container : Container
some_container = record {
  value = 0 ∷ 0 ∷ 1 ∷ 2 ∷ 3 ∷ 4 ∷ owner_id;
  sig = 9 ∷ [];
  key = 8 ∷ [];
  token = [];
}

-- the hash of the tests' machine is the text itself
abbrev container_id : Bytes
container_id = some_container.value

-- the alphabet has signed
abbrev env : Env
env = signed_by (3 ∷ [])

abbrev before : State
before = holding (
    (notary_key, flag_cell false)
    ∷ (frostfs_id_key, raw_cell (76 ∷ []))
    ∷ (netmap_key, raw_cell (77 ∷ []))
    ∷ (balance_contract_key, raw_cell (78 ∷ []))
    ∷ [])

abbrev with_container : State
with_container = after (put_named env some_container [] [] before)

put_named-eq : put_named env some_container [] [] before ≡ ok (tt, with_container)
unfolding put_named owner_from_binary_container check_alphabet_witness ◌+ℤ◌
put_named-eq = refl

put_named-Stored_example :
    (o : Bytes) × (owner_from_binary_container some_container.value ≡ some o)
    × (env.check_witness (alphabet_address env) ≡ true)
    × (get_method container_id with_container ≡ ok (some_container, with_container))
    × (owner container_id with_container ≡ ok (o, with_container))
    × (lookup (owner_key o ++ container_id) with_container.storage
        ≡ some (machine.raw.encode container_id))
    × ((k : Bytes)
        → Foreign env container_id o k
        → lookup k with_container.storage ≡ lookup k before.storage)
put_named-Stored_example =
    put_named-Stored env some_container [] [] before with_container refl put_named-eq

with_container-notary : machine.flags.cast (lookup notary_key with_container.storage) ≡ some false
unfolding put_named owner_from_binary_container check_alphabet_witness ◌+ℤ◌
with_container-notary = refl

abbrev without_container : State
without_container = after (delete_method env container_id (9 ∷ []) [] with_container)

delete_method-eq :
    delete_method env container_id (9 ∷ []) [] with_container ≡ ok (tt, without_container)
unfolding delete_method put_named owner_from_binary_container check_alphabet_witness ◌+ℤ◌
delete_method-eq = refl

delete_method-Deleted_example :
    ((get_owner_by_id container_id with_container ≡ ok (none, with_container))
      × (without_container ≡ with_container))
    ⊎ ((o : Bytes) × (get_owner_by_id container_id with_container ≡ ok (some o, with_container))
        × Deleted env container_id o with_container without_container)
delete_method-Deleted_example =
    delete_method-Deleted env container_id (9 ∷ []) [] with_container without_container
      with_container-notary delete_method-eq

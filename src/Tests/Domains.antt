-- ===== src/Tests/Domains.antt =====
-- The theorems about domain names at concrete input.
use frostfs_contract.Prelude.{◌≤◌, ◌≡◌, ◌↔◌, refl, true, false, some, List, [], ◌∷◌, length}
use frostfs_contract.Prelude.Int.{pos, ◌+ℤ◌, leb_ℤ}
use frostfs_contract.Prelude.Bytes.{Bytes, codes, join}
use frostfs_contract.Host.Storage.{Env, null, lookup}
use frostfs_contract.Host.Exec.{State, ok}
use frostfs_contract.Common.Ir.{check_owner_witness}
use frostfs_contract.Nns.{NameState, total_supply_key, price_key, root_key, name_key}
use frostfs_contract.Nns.Names.{min_name_length, max_name_length, check_fragment, split_and_check}
use frostfs_contract.Nns.Fragments.{IsFragment, check_fragment_lem}
use frostfs_contract.Nns.Domains.{IsDomain, split_and_check_lem}
use frostfs_contract.Nns.Frames.{state_of}
use frostfs_contract.Nns.Taking
use frostfs_contract.Nns.Checks.{NotRoot}
use frostfs_contract.Nns.Taking.{taken}
use frostfs_contract.Nns.Ownership.{IsFree, register-held, register-true}
use frostfs_contract.Nns.Transfers.{Told, transfer-Moved}
use frostfs_contract.Nns.Methods.{transfer}
use frostfs_contract.Nns.Registration.{Soa, register}
use frostfs_contract.Tests.Cells.{number_cell, name_cell}
use frostfs_contract.Tests.Machine.{
  machine, name_codec, record_codec, holding, after, signed_by, Cells,
}
use frostfs_contract.Tests.Containers.{repeated}

check_fragment_example :
    (check_fragment (codes "frost-fs") false ≡ true) ↔ IsFragment false (codes "frost-fs")
check_fragment_example = check_fragment_lem (codes "frost-fs") false

abbrev name : Bytes
name = codes "cat.neo"

abbrev fragments : List Bytes
fragments = codes "cat" ∷ codes "neo" ∷ []

split_and_check_example : (split_and_check name true ≡ some fragments) ↔ (
    (join b'.' fragments ≡ name)
    × IsDomain fragments
    × (min_name_length ≤ length name)
    × (length name ≤ max_name_length))
split_and_check_example = split_and_check_lem name (codes "cat") (codes "neo" ∷ [])

abbrev alice : Bytes
alice = repeated 1 20

abbrev bob : Bytes
bob = repeated 2 20

abbrev env : Env
env = signed_by alice

abbrev soa : Soa
soa = record { email = codes "a@b"; refresh = pos 1; retry = pos 2; expire = pos 3; ttl = pos 4 }

-- a name of Alice that expires at 9000
abbrev of_alice : Bytes → NameState
of_alice n = record { owner = alice; name = n; expiration = pos 9000; admin = some bob }

abbrev top_level : Cells
top_level =
    (root_key (codes "neo"), number_cell (pos 0))
    ∷ (name_key (codes "neo"), name_cell (of_alice (codes "neo")))
    ∷ (price_key, number_cell (pos 10))
    ∷ (total_supply_key, number_cell (pos 1))
    ∷ []

abbrev free : State
free = holding top_level

abbrev held : State
held = holding ((name_key name, name_cell (of_alice name)) ∷ top_level)

register-eq_held : register env name alice soa held ≡ ok (false, held)
unfolding register check_owner_witness
register-eq_held = refl

register-held_example :
    (false ≡ false) × ((k : Bytes) → NotRoot k → lookup k held.storage ≡ lookup k held.storage)
register-held_example =
    register-held env name alice soa (of_alice name) false held held refl refl register-eq_held

abbrev registered : State
registered = after (register env name alice soa free)

register-eq_free : register env name alice soa free ≡ ok (true, registered)
unfolding register check_owner_witness ◌+ℤ◌
register-eq_free = refl

register-true_example :
    IsFree env free name
    × (length alice ≡ 20)
    × (env.check_witness alice ≡ true)
    × Taking.Told env null name alice (taken env name alice soa) free registered
register-true_example = register-true env name alice soa free registered register-eq_free

abbrev moved : State
moved = after (transfer env bob name null held)

transfer-eq : transfer env bob name null held ≡ ok (true, moved)
unfolding transfer ◌+ℤ◌
transfer-eq = refl

transfer-Moved_example :
    (ns : NameState) × (state_of held name ≡ some ns)
    × (leb_ℤ ns.expiration (pos env.time) ≡ false)
    × (length bob ≡ 20)
    × (env.check_witness ns.owner ≡ true)
    × Told env bob name null ns held moved
transfer-Moved_example = transfer-Moved env bob name null true held moved transfer-eq

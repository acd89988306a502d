-- ===== src/Host/Entries.antt =====
-- The values of the entries that a search of the storage finds, as the code reads them one by one.
use frostfs_contract.Prelude.{Option, none, some, List, [], ◌∷◌}
use frostfs_contract.Prelude.Bytes.{Bytes}
use frostfs_contract.Host.Storage.{Vm, Codec}

-- none where a value is of another kind
unfoldable pub cast_values :
    ⦃vm : Vm⦄ {A : Type 0} → Codec vm.Value A → List (Bytes × vm.Value) → Option (List A)
cast_values codec [] = some []
cast_values codec ((k, v) ∷ rest) = elim (codec.cast (some v)) [
  | none ↦ none
  | some a ↦ elim (cast_values codec rest) [ none ↦ none | some more ↦ some (a ∷ more) ]
]

-- ===== src/Host/Storage.antt =====
-- The interface of the virtual machine. None of this code is in the repository, so it is a record
-- of operations with the documented laws of `storage` and of the conversions that the contracts
-- rely on; an implementation that satisfies them stands with the tests.
use frostfs_contract.Prelude.{
  ℕ, String, ◌≡◌, Bool, Option, none, some, List, [], ◌∷◌, if◌then◌else◌,
}
use frostfs_contract.Prelude.Int.{ℤ}
use frostfs_contract.Prelude.Bytes.{Bytes, bytes_equal, is_prefix, join, AllFree}

-- `common.Ballot` of common/vote.go.
pub record Ballot : Type 0 where
  pub id : Bytes
  pub voters : List Bytes
  pub height : ℕ

-- A conversion between a Go type and what a storage cell holds. `cast` reads the result of
-- `storage.Get`, also a missing one, and is `none` where the machine faults.
pub record Codec (V A : Type 0) : Type 0 where
  pub encode : A → V
  pub cast : Option V → Option A
  pub cast-encode : (a : A) → cast (some (encode a)) ≡ some a

-- The value of the first entry with the key.
abbrev pub lookup {ℓ} : {V : Type ℓ} → Bytes → List (Bytes × V) → Option V
lookup k [] = none
lookup k ((j, v) ∷ m) = if bytes_equal j k then some v else lookup k m

-- No key stands twice.
abbrev pub Distinct {ℓ} : {V : Type ℓ} → List (Bytes × V) → Type ℓ
Distinct [] = Unit
Distinct ((k, v) ∷ m) = (lookup k m ≡ none) × Distinct m

-- What is passed to `runtime.Notify` and to `contract.Call`.
pub data Arg : Type 0 where
  null : Arg
  int : ℤ → Arg
  flag : Bool → Arg
  bytes : Bytes → Arg
  text : String → Arg
  list : List Bytes → Arg

-- A notification: the name of the event and its arguments.
abbrev pub Event : Type 0
Event = String × List Arg

pub record Vm : Type 1 where
  pub Value : Type 0
  pub Store : Type 0
  -- the state of all other contracts
  pub World : Type 0
  pub get : Store → Bytes → Option Value
  pub put : Store → Bytes → Value → Store
  pub delete : Store → Bytes → Store
  -- `storage.Put` of nil; `none` where the machine faults
  pub put_null : Store → Bytes → Option Store
  -- `storage.Find`, run to its end: the entries whose keys begin with a prefix
  pub find : Store → Bytes → List (Bytes × Value)
  pub get-put :
      (s : Store) (k j : Bytes) (v : Value)
      → get (put s k v) j ≡ (if bytes_equal k j then some v else get s j)
  pub get-delete :
      (s : Store) (k j : Bytes) → get (delete s k) j ≡ (if bytes_equal k j then none else get s j)
  pub lookup-find :
      (s : Store) (p j : Bytes) → lookup j (find s p) ≡ (if is_prefix p j then get s j else none)
  pub find-Distinct : (s : Store) (p : Bytes) → Distinct (find s p)
  pub flags : Codec Value Bool
  pub numbers : Codec Value ℤ
  pub raw : Codec Value Bytes
  pub key_lists : Codec Value (List Bytes)
  pub ballot_lists : Codec Value (List Ballot)
  -- `int.([]byte)` and `[]byte.(int)`
  pub int_to_bytes : ℤ → Bytes
  pub bytes_to_int : Bytes → ℤ
  pub bytes_to_int-int_to_bytes : (n : ℤ) → bytes_to_int (int_to_bytes n) ≡ n
  -- `std.Itoa` with base 10, `std.Atoi` with a base (`none` where it faults), `std.Base58Encode`
  pub itoa : ℤ → Bytes
  pub atoi : Bytes → ℕ → Option ℤ
  pub base58 : Bytes → Bytes
  -- `std.StringSplit` and `std.StringSplitNonEmpty` at a character; a text is its parts joined, and
  -- parts without the character are the parts of the joined text
  pub string_split : Bytes → ℕ → List Bytes
  pub string_split_non_empty : Bytes → ℕ → List Bytes
  pub join-string_split : (b : Bytes) (c : ℕ) → join c (string_split b c) ≡ b
  pub string_split-join :
      (part : Bytes) (parts : List Bytes) (c : ℕ)
      → AllFree c (part ∷ parts)
      → string_split (join c (part ∷ parts)) c ≡ part ∷ parts
  -- `std.MemorySearchLastIndex` of a memory, a value and a start
  pub memory_search_last_index : Bytes → Bytes → ℕ → ℤ
  pub sha256 : Bytes → Bytes
  pub ripemd160 : Bytes → Bytes
  pub create_multisig_account : ℕ → List Bytes → Bytes
  pub create_standard_account : Bytes → Bytes
  -- `contract.Call`: the script hash of the caller, that of the callee, the method, the arguments;
  -- `none` where the call faults
  pub call : World → Bytes → Bytes → String → List Arg → Option (Arg × World)
  -- `contract.Call` of any contract with all permissions, which may call the caller back: it may
  -- change the storage of the caller too, and the caller may notify
  pub call_back :
      World
      → Store
      → Bytes
      → Bytes
      → String
      → List Arg
      → Option (Arg × (World × Store × List Event))
  -- `management.GetContract` of a script hash is not nil
  pub is_contract : World → Bytes → Bool

-- The transaction and the frame that a method runs in.
pub record Env : Type 0 where
  pub check_witness : Bytes → Bool
  pub calling_script_hash : Bytes
  pub executing_script_hash : Bytes
  -- `ledger.CurrentIndex`
  pub current_index : ℕ
  -- `runtime.GetTime`, in milliseconds
  pub time : ℕ
  -- `runtime.BurnGas` of an amount goes through; the machine faults otherwise
  pub can_burn : ℤ → Bool
  -- `neo.GetCommittee`
  pub committee : List Bytes
  -- `roles.GetDesignatedByRole(NeoFSAlphabet, CurrentIndex + 1)`
  pub designated : List Bytes
  -- `runtime.GetScriptContainer().Hash`
  pub tx_hash : Bytes
  -- the script hashes of the native contracts
  pub gas_hash : Bytes
  pub neo_hash : Bytes
  pub management_hash : Bytes

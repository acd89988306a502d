-- ===== src/Tests/Machine.antt =====
-- A concrete machine for the tests: a storage as a list of entries, the last write first, and
-- simple stand-ins for the hash functions and for the other contracts.
use frostfs_contract.Prelude.{
  ◌≡◌, refl, true, false, Option, none, some, List, [], ◌∷◌, arith, if◌then◌else◌,
}
use frostfs_contract.Prelude.Int.{ℤ, pos, negsuc}
use frostfs_contract.Prelude.Bytes.{
  Bytes, bytes_equal, bytes_equal_refl, bytes_equal_sound, is_prefix,
}
use frostfs_contract.Host.Storage.{Vm, Env, Codec, Arg, lookup, Distinct}
use frostfs_contract.Tests.Splitting.{split_at, non_empty, join-split_at, split_at-join}
use frostfs_contract.Host.Exec.{State, Result, ok, err}
use frostfs_contract.Balance.{Account}
use frostfs_contract.Netmap.{Node}
use frostfs_contract.Container.{Container, ExtendedAcl}
use frostfs_contract.Container.Estimations.{Estimation}
use frostfs_contract.Nns.{NameState, RecordState}
use frostfs_contract.Tests.Cells.{
  Cell, flag_cell, number_cell, raw_cell, keys_cell, ballots_cell, account_cell, node_cell,
  map_cell, container_cell, acl_cell, estimation_cell, epochs_cell, name_cell, record_cell, as_flag,
  as_number, as_raw, as_keys, as_ballots, as_account, as_node, as_map, as_container, as_acl,
  as_estimation, as_epochs, as_name, as_record,
}

abbrev pub Cells : Type 0
Cells = List (Bytes × Cell)

abbrev pub without : Bytes → Cells → Cells
without k [] = []
without k ((j, v) ∷ m) = let rest = without k m in if bytes_equal k j then rest else (j, v) ∷ rest

abbrev pub find_cells : Cells → Bytes → Cells
find_cells [] p = []
find_cells ((k, v) ∷ m) p =
    let rest = find_cells m p in if is_prefix p k then (k, v) ∷ without k rest else rest

pub lookup-without :
    (k j : Bytes) (m : Cells)
    → lookup j (without k m) ≡ (if bytes_equal k j then none else lookup j m)
lookup-without k j [] = ground arith
lookup-without k j ((i, v) ∷ m) = ground (
  arith,
  lookup-without k j m,
  bytes_equal_sound k i,
  bytes_equal_sound k j,
  bytes_equal_sound i j,
  bytes_equal_refl j,
  bytes_equal_refl i,
)

Distinct-without : (k : Bytes) (m : Cells) → Distinct m → Distinct (without k m)
Distinct-without k [] d = tt
Distinct-without k ((j, v) ∷ m) d = ground (arith, Distinct-without k m d.1, lookup-without k j m)

pub get-put_cells :
    (s : Cells) (k j : Bytes) (v : Cell)
    → lookup j ((k, v) ∷ s) ≡ (if bytes_equal k j then some v else lookup j s)
get-put_cells s k j v = refl

pub lookup-find_cells :
    (s : Cells) (p j : Bytes)
    → lookup j (find_cells s p) ≡ (if is_prefix p j then lookup j s else none)
lookup-find_cells [] p j = ground arith
lookup-find_cells ((k, v) ∷ s) p j =
    ground
      (arith, lookup-find_cells s p j, lookup-without k j (find_cells s p), bytes_equal_sound k j)

pub find_cells-Distinct : (s : Cells) (p : Bytes) → Distinct (find_cells s p)
find_cells-Distinct [] p = tt
find_cells-Distinct ((k, v) ∷ s) p = ground (
  arith,
  find_cells-Distinct s p,
  Distinct-without k (find_cells s p),
  lookup-without k k (find_cells s p),
  bytes_equal_refl k,
)

abbrev pub integer_bytes : ℤ → Bytes
integer_bytes (pos n) = n ∷ []
integer_bytes (negsuc n) = 0 ∷ n ∷ []

abbrev pub bytes_integer : Bytes → ℤ
bytes_integer [] = pos 0
bytes_integer (n ∷ []) = pos n
bytes_integer (_ ∷ n ∷ _) = negsuc n

pub bytes_integer-integer_bytes : (n : ℤ) → bytes_integer (integer_bytes n) ≡ n
bytes_integer-integer_bytes (pos n) = refl
bytes_integer-integer_bytes (negsuc n) = refl

-- The other contracts answer the calls one by one with the replies of a list, and then with true.
abbrev pub next_reply : List Arg → Option (Arg × List Arg)
next_reply [] = some (Arg.flag true, [])
next_reply (reply ∷ rest) = some (reply, rest)

-- The contracts at the addresses 77 and 78 always answer with a number.
abbrev pub reply_of : List Arg → Bytes → Option (Arg × List Arg)
reply_of w callee =
    if bytes_equal callee (77 ∷ [])
    then some (Arg.int (pos 10), w)
    else if bytes_equal callee (78 ∷ [])
    then some (Arg.int (pos 1000), w)
    else next_reply w

instance abbrev pub machine : Vm
machine = record {
  Value = Cell;
  Store = Cells;
  World = List Arg;
  get = λ s k. lookup k s;
  put = λ s k v. (k, v) ∷ s;
  delete = λ s k. without k s;
  put_null = λ s k. none;
  find = find_cells;
  get-put = get-put_cells;
  get-delete = λ s k j. lookup-without k j s;
  lookup-find = lookup-find_cells;
  find-Distinct = find_cells-Distinct;
  flags = record { encode = flag_cell; cast = as_flag; cast-encode = λ b. refl };
  numbers = record { encode = number_cell; cast = as_number; cast-encode = λ n. refl };
  raw = record { encode = raw_cell; cast = as_raw; cast-encode = λ b. refl };
  key_lists = record { encode = keys_cell; cast = as_keys; cast-encode = λ ks. refl };
  ballot_lists = record { encode = ballots_cell; cast = as_ballots; cast-encode = λ bs. refl };
  int_to_bytes = integer_bytes;
  bytes_to_int = bytes_integer;
  bytes_to_int-int_to_bytes = bytes_integer-integer_bytes;
  itoa = integer_bytes;
  atoi = λ text base. some (bytes_integer text);
  base58 = λ b. b;
  string_split = λ b c. split_at c b;
  string_split_non_empty = λ b c. non_empty (split_at c b);
  join-string_split = join-split_at;
  string_split-join = split_at-join;
  memory_search_last_index = λ memory value start. negsuc 0;
  sha256 = λ b. b;
  ripemd160 = λ b. b;
  create_multisig_account = λ m keys. m ∷ [];
  create_standard_account = λ key. key;
  call = λ w caller callee method args. reply_of w callee;
  call_back = λ w s caller callee method args. some (Arg.null, (w, s, []));
  is_contract = λ w address. false;
}

instance abbrev pub account_codec : Codec Cell Account
account_codec = record { encode = account_cell; cast = as_account; cast-encode = λ a. refl }

instance abbrev pub node_codec : Codec Cell Node
node_codec = record { encode = node_cell; cast = as_node; cast-encode = λ n. refl }

instance abbrev pub map_codec : Codec Cell (List Node)
map_codec = record { encode = map_cell; cast = as_map; cast-encode = λ ns. refl }

instance abbrev pub container_codec : Codec Cell Container
container_codec = record { encode = container_cell; cast = as_container; cast-encode = λ x. refl }

instance abbrev pub acl_codec : Codec Cell ExtendedAcl
acl_codec = record { encode = acl_cell; cast = as_acl; cast-encode = λ x. refl }

instance abbrev pub estimation_codec : Codec Cell Estimation
estimation_codec = record {
  encode = estimation_cell;
  cast = as_estimation;
  cast-encode = λ x. refl;
}

instance abbrev pub epochs_codec : Codec Cell (List ℤ)
epochs_codec = record { encode = epochs_cell; cast = as_epochs; cast-encode = λ x. refl }

instance abbrev pub name_codec : Codec Cell NameState
name_codec = record { encode = name_cell; cast = as_name; cast-encode = λ x. refl }

instance abbrev pub record_codec : Codec Cell RecordState
record_codec = record { encode = record_cell; cast = as_record; cast-encode = λ x. refl }

-- A state with some cells.
abbrev pub holding : Cells → State
holding cells = record { storage = cells; world = []; events = [] }

-- The state after a method that succeeds.
abbrev pub after : {A : Type 0} → Result (A × State) → State
after (ok (a, s)) = s
after (err e) = holding []

-- A transaction that four nodes, 1 to 4, may sign; `signer` has signed it.
abbrev pub signed_by : Bytes → Env
signed_by signer = record {
  check_witness = bytes_equal signer;
  calling_script_hash = 9 ∷ [];
  executing_script_hash = 8 ∷ [];
  current_index = 100;
  time = 5000;
  can_burn = λ amount. true;
  committee = (1 ∷ []) ∷ (2 ∷ []) ∷ (3 ∷ []) ∷ (4 ∷ []) ∷ [];
  designated = (1 ∷ []) ∷ (2 ∷ []) ∷ (3 ∷ []) ∷ (4 ∷ []) ∷ [];
  tx_hash = 7 ∷ [];
  gas_hash = 9 ∷ [];
  neo_hash = 6 ∷ [];
  management_hash = 5 ∷ [];
}

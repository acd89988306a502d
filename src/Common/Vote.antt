-- ===== src/Common/Vote.antt =====
-- Votes of the inner ring in an environment without notary (common/vote.go). The cell "ballots"
-- holds a list of ballots, which `Vote` rebuilds without those whose last vote is too old.
pub mod Ballots
pub mod Removal
pub mod Effects
use frostfs_contract.Prelude.{
  ℕ, suc, ◌+◌, ◌-◌, Bool, true, false, Option, none, some, String, List, [], ◌∷◌, ◌++◌,
  if◌then◌else◌, ltb, length,
}
use frostfs_contract.Prelude.Bytes.{Bytes, codes, bytes_equal}
use frostfs_contract.Host.Storage.{Vm, Env, Ballot}
use frostfs_contract.Host.Exec.{Exec, pure, done, or_fault, get, put, read, ◌>>=◌, ◌>>◌}

abbrev pub vote_key : Bytes
vote_key = codes "ballots"

abbrev pub block_diff : ℕ
block_diff = 20

-- `blockHeight-cnd.Height > blockDiff`; a height above the current one is no older than the block.
unfoldable pub expired : ℕ → Ballot → Bool
expired block_height cnd = ltb block_diff (block_height - cnd.height)

unfoldable pub contains : List Bytes → Bytes → Bool
contains [] from = false
contains (voter ∷ voters) from = if bytes_equal voter from then true else contains voters from

-- The loop of `Vote` over the candidates: it returns early with the number of voters of a ballot
-- that `from` has voted for, or ends with the new candidates and `found`.
pub data Scan : Type 0 where
  already : ℕ → Scan
  scanned : List Ballot → Option ℕ → Scan

unfoldable pub keep : Ballot → Scan → Scan
keep cnd (already n) = already n
keep cnd (scanned kept found) = scanned (cnd ∷ kept) found

unfoldable pub scan : ℕ → Bytes → Bytes → Option ℕ → List Ballot → Scan
unfolding expired contains keep
scan block_height id from found [] = scanned [] found
scan block_height id from found (cnd ∷ rest) =
    let skipped = scan block_height id from found rest in
    let voters = cnd.voters ++ from ∷ [] in
    let voted = scan block_height id from (some (length voters)) rest in
    if expired block_height cnd
    then skipped
    else if bytes_equal cnd.id id
    then (if contains cnd.voters from
        then already (length cnd.voters)
        else keep (record { id = id; voters = voters; height = block_height }) voted)
    else keep cnd skipped

-- The new ballots, `none` where the stored ones stay, and the number of votes.
unfoldable pub close_scan : ℕ → Bytes → Bytes → Scan → Option (List Ballot) × ℕ
close_scan block_height id from (already n) = (none, n)
close_scan block_height id from (scanned kept (some n)) = (some kept, n)
close_scan block_height id from (scanned kept none) =
    (some (kept ++ record { id = id; voters = from ∷ []; height = block_height } ∷ []), 1)

-- `Vote` as a function of the stored ballots.
unfoldable pub cast_vote : ℕ → Bytes → Bytes → List Ballot → Option (List Ballot) × ℕ
unfolding scan close_scan
cast_vote block_height id from candidates =
    close_scan block_height id from (scan block_height id from none candidates)

-- The index of the first ballot with the id, and 0 if there is none.
unfoldable pub ballot_index : Bytes → ℕ → List Ballot → ℕ
ballot_index id i [] = 0
ballot_index id i (cnd ∷ rest) = if bytes_equal cnd.id id then i else ballot_index id (i + 1) rest

-- `util.Remove`, which faults out of range.
unfoldable pub remove_at : {A : Type 0} → List A → ℕ → Option (List A)
remove_at [] i = none
remove_at (x ∷ xs) ℕ.zero = some xs
remove_at (x ∷ xs) (suc i) = elim (remove_at xs i) [ none ↦ none | some ys ↦ some (x ∷ ys) ]

unfoldable pub remove_ballot : Bytes → List Ballot → Option (List Ballot)
unfolding ballot_index remove_at
remove_ballot id candidates = remove_at candidates (ballot_index id 0 candidates)

module _ ⦃vm : Vm⦄ where
  unfoldable pub get_ballots : Exec (List Ballot)
  get_ballots = do
    cell ← get vote_key
    elim cell [ none ↦ pure [] | some v ↦ or_fault (vm.ballot_lists.cast (some v)) ]

  unfoldable pub init_vote : Exec Unit
  init_vote = put vm.ballot_lists vote_key []

  abbrev store_ballots : Option (List Ballot) → Exec Unit
  store_ballots none = done
  store_ballots (some candidates) = put vm.ballot_lists vote_key candidates

  unfoldable pub vote : Env → Bytes → Bytes → Exec ℕ
  unfolding cast_vote get_ballots
  vote env id from = do
    candidates ← get_ballots
    store_ballots (cast_vote env.current_index id from candidates).0
    pure (cast_vote env.current_index id from candidates).1

  unfoldable pub remove_votes : Bytes → Exec Unit
  unfolding remove_ballot get_ballots
  remove_votes id = do
    candidates ← get_ballots
    rest ← or_fault (remove_ballot id candidates)
    put vm.ballot_lists vote_key rest

  -- `InvokeID` of arguments that are converted to bytes
  unfoldable pub invoke_id : List Bytes → Bytes → Bytes
  invoke_id [] prefix = vm.sha256 prefix
  invoke_id (arg ∷ args) prefix = invoke_id args (prefix ++ arg)

  unfoldable pub from_known_contract : Bytes → Bytes → Exec Bool
  from_known_contract caller key = do address ← read vm.raw key; pure (bytes_equal caller address)

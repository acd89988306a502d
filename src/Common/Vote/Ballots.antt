-- ===== src/Common/Vote/Ballots.antt =====
-- The stored ballots as a map from the identifier of a decision to its voters, and what `Vote` and
-- `RemoveVotes` of common/vote.go do to that map.
use frostfs_contract.Prelude.{
  ℕ, ◌+◌, ◌≡◌, refl, Bool, true, false, Option, none, some, List, [], ◌∷◌, ◌++◌, arith,
  if◌then◌else◌, length, length-append,
}
use frostfs_contract.Prelude.Bytes.{Bytes, bytes_equal, bytes_equal_refl, bytes_equal_sound}
use frostfs_contract.Host.Storage.{Ballot}
use frostfs_contract.Common.Vote.{expired, contains, already, scanned, scan, close_scan, cast_vote}

-- The ballots that are not too old at a block height.
abbrev pub live : ℕ → List Ballot → List Ballot
live h [] = []
live h (b ∷ bs) = if expired h b then live h bs else b ∷ live h bs

abbrev pub has_ballot : Bytes → List Ballot → Bool
has_ballot id [] = false
has_ballot id (b ∷ bs) = if bytes_equal b.id id then true else has_ballot id bs

-- The voters of the first ballot for the decision; none if there is no ballot.
abbrev pub voters_of : Bytes → List Ballot → List Bytes
voters_of id [] = []
voters_of id (b ∷ bs) = if bytes_equal b.id id then b.voters else voters_of id bs

-- No voter stands twice.
abbrev pub NoRepeat : List Bytes → Type 0
NoRepeat [] = Unit
NoRepeat (v ∷ vs) = (contains vs v ≡ false) × NoRepeat vs

-- Each decision has one ballot at most, and each voter one vote at most in a ballot.
abbrev pub IsTidy : List Ballot → Type 0
IsTidy [] = Unit
IsTidy (b ∷ bs) = (has_ballot b.id bs ≡ false) × NoRepeat b.voters × IsTidy bs

-- A set of voters with one more.
abbrev pub add_voter : Bytes → List Bytes → List Bytes
add_voter from vs = if contains vs from then vs else vs ++ from ∷ []

-- What is stored after a vote.
abbrev pub stored : List Ballot → Option (List Ballot) → List Ballot
stored bs none = bs
stored bs (some bs') = bs'

abbrev pub update_ballot : ℕ → Bytes → Bytes → Ballot → Ballot
update_ballot h id from b = record { id = id; voters = b.voters ++ from ∷ []; height = h }

-- The live ballots, with the vote added to that of the decision.
abbrev pub with_vote : ℕ → Bytes → Bytes → List Ballot → List Ballot
with_vote h id from [] = []
with_vote h id from (b ∷ bs) =
    let rest = with_vote h id from bs in
    if expired h b
    then rest
    else if bytes_equal b.id id
    then update_ballot h id from b ∷ rest
    else b ∷ rest

abbrev pub count_if : Bool → ℕ → Option ℕ
count_if true n = some n
count_if false n = none

module _ (h : ℕ) (id from : Bytes) where
  scan-fresh :
      (found : Option ℕ) (bs : List Ballot)
      → has_ballot id (live h bs) ≡ false
      → scan h id from found bs ≡ scanned (live h bs) found
  unfolding scan
  scan-fresh found [] fresh = refl
  scan-fresh found (b ∷ bs) fresh = ground (arith, scan-fresh found bs)

  with_vote-fresh :
      (bs : List Ballot) → has_ballot id (live h bs) ≡ false → with_vote h id from bs ≡ live h bs
  with_vote-fresh [] fresh = refl
  with_vote-fresh (b ∷ bs) fresh = ground (arith, with_vote-fresh bs)

pub has_ballot-live :
    (h : ℕ) (id : Bytes) (bs : List Ballot)
    → has_ballot id bs ≡ false
    → has_ballot id (live h bs) ≡ false
has_ballot-live h id [] fresh = refl
has_ballot-live h id (b ∷ bs) fresh = ground (arith, has_ballot-live h id bs)

module _ (h : ℕ) (id from : Bytes) where
  pub scan-eq-with_vote :
      (bs : List Ballot)
      → IsTidy bs
      → scan h id from none bs ≡ (
          let vs = voters_of id (live h bs) in
          if contains vs from
          then already (length vs)
          else scanned
              (with_vote h id from bs)
              (count_if (has_ballot id (live h bs)) (length vs + 1)))
  unfolding scan contains
  scan-eq-with_vote [] tidy = refl
  scan-eq-with_vote (b ∷ bs) tidy = ground (
    arith,
    scan-eq-with_vote bs,
    scan-fresh h id from (some (length (b.voters ++ from ∷ []))) bs,
    has_ballot-live h b.id bs,
    with_vote-fresh h id from bs,
    bytes_equal_sound b.id id,
    length-append b.voters (from ∷ []),
  )

pub voters_of-fresh :
    (id : Bytes) (bs : List Ballot) → has_ballot id bs ≡ false → voters_of id bs ≡ []
voters_of-fresh id [] fresh = refl
voters_of-fresh id (b ∷ bs) fresh = ground (arith, voters_of-fresh id bs)

module _ (h : ℕ) (id from : Bytes) where
  live-with_vote : (bs : List Ballot) → live h (with_vote h id from bs) ≡ with_vote h id from bs
  unfolding expired
  live-with_vote [] = refl
  live-with_vote (b ∷ bs) = ground (arith, live-with_vote bs)

  voters_of-with_vote :
      (bs : List Ballot)
      → has_ballot id (live h bs) ≡ true
      → voters_of id (with_vote h id from bs) ≡ voters_of id (live h bs) ++ from ∷ []
  voters_of-with_vote [] known = cc
  voters_of-with_vote (b ∷ bs) known = ground (arith, voters_of-with_vote bs, bytes_equal_refl id)

  voters_of-with_vote_ne :
      (j : Bytes) (bs : List Ballot)
      → bytes_equal id j ≡ false
      → voters_of j (with_vote h id from bs) ≡ voters_of j (live h bs)
  voters_of-with_vote_ne j [] ne = refl
  voters_of-with_vote_ne j (b ∷ bs) ne =
      ground (arith, voters_of-with_vote_ne j bs, bytes_equal_sound b.id id)

  pub has_ballot-with_vote :
      (j : Bytes) (bs : List Ballot)
      → has_ballot j (with_vote h id from bs) ≡ has_ballot j (live h bs)
  has_ballot-with_vote j [] = refl
  has_ballot-with_vote j (b ∷ bs) =
      ground (arith, has_ballot-with_vote j bs, bytes_equal_sound b.id id)

  -- The ballot that a first vote opens.
  abbrev pub opened : Ballot
  opened = record { id = id; voters = from ∷ []; height = h }

  live-append-opened : (bs : List Ballot) → live h (bs ++ opened ∷ []) ≡ live h bs ++ opened ∷ []
  unfolding expired
  live-append-opened [] = ground arith
  live-append-opened (b ∷ bs) = ground (arith, live-append-opened bs)

voters_of-append :
    (j : Bytes) (bs cs : List Ballot)
    → voters_of j (bs ++ cs) ≡ (if has_ballot j bs then voters_of j bs else voters_of j cs)
voters_of-append j [] cs = refl
voters_of-append j (b ∷ bs) cs = ground (arith, voters_of-append j bs cs)

pub has_ballot-append :
    (j : Bytes) (bs cs : List Ballot)
    → has_ballot j (bs ++ cs) ≡ (if has_ballot j bs then true else has_ballot j cs)
has_ballot-append j [] cs = refl
has_ballot-append j (b ∷ bs) cs = ground (arith, has_ballot-append j bs cs)

module _ (h : ℕ) (id from : Bytes) (bs : List Ballot) (tidy : IsTidy bs) where
  -- On tidy ballots a vote adds the voter to the set of those who have voted for the decision at
  -- the current height, and returns the size of that set; a second vote of one node is not
  -- counted.
  pub cast_vote-voters_of :
      let (o, n) = cast_vote h id from bs in
      (voters_of id (live h (stored bs o)) ≡ add_voter from (voters_of id (live h bs)))
      × (n ≡ length (voters_of id (live h (stored bs o))))
  unfolding cast_vote close_scan contains
  cast_vote-voters_of = ground (
    arith,
    scan-eq-with_vote h id from bs tidy,
    live-with_vote h id from bs,
    voters_of-with_vote h id from bs,
    has_ballot-with_vote h id from id bs,
    live-append-opened h id from (with_vote h id from bs),
    voters_of-append id (with_vote h id from bs) (opened h id from ∷ []),
    bytes_equal_refl id,
    voters_of-fresh id (live h bs),
    length-append (voters_of id (live h bs)) (from ∷ []),
  )

  -- On tidy ballots a vote leaves the voters of every other decision alone.
  pub cast_vote-voters_of_ne :
      (j : Bytes)
      → bytes_equal id j ≡ false
      → voters_of j (live h (stored bs (cast_vote h id from bs).0)) ≡ voters_of j (live h bs)
  unfolding cast_vote close_scan
  cast_vote-voters_of_ne j ne = ground (
    arith,
    scan-eq-with_vote h id from bs tidy,
    live-with_vote h id from bs,
    voters_of-with_vote_ne h id from j bs ne,
    has_ballot-with_vote h id from j bs,
    live-append-opened h id from (with_vote h id from bs),
    voters_of-append j (with_vote h id from bs) (opened h id from ∷ []),
    voters_of-fresh j (live h bs),
  )

-- ===== src/Common/Vote/Removal.antt =====
-- The invariant of the stored ballots, and the removal of the ballot of an accepted decision.
use frostfs_contract.Prelude.{
  ℕ, suc, ◌+◌, ◌≡◌, refl, true, false, some, List, [], ◌∷◌, ◌++◌, arith, if◌then◌else◌,
}
use frostfs_contract.Prelude.Bytes.{Bytes, bytes_equal, bytes_equal_refl, bytes_equal_sound}
use frostfs_contract.Host.Storage.{Ballot}
use frostfs_contract.Common.Vote.{
  contains, close_scan, cast_vote, ballot_index, remove_at, remove_ballot,
}
use frostfs_contract.Common.Vote.Ballots.{
  live, has_ballot, voters_of, NoRepeat, IsTidy, stored, with_vote, scan-eq-with_vote,
  has_ballot-with_vote, has_ballot-live, has_ballot-append, opened, voters_of-fresh,
}

contains-append :
    (v from : Bytes) (vs : List Bytes)
    → contains (vs ++ from ∷ []) v ≡ (if contains vs v then true else bytes_equal from v)
unfolding contains
contains-append v from [] = ground arith
contains-append v from (w ∷ vs) = ground (arith, contains-append v from vs)

NoRepeat-append :
    (from : Bytes) (vs : List Bytes)
    → NoRepeat vs
    → contains vs from ≡ false
    → NoRepeat (vs ++ from ∷ [])
unfolding contains
NoRepeat-append from [] h fresh = (refl, tt)
NoRepeat-append from (v ∷ vs) h fresh = ground (
  arith,
  NoRepeat-append from vs h.1,
  contains-append v from vs,
  bytes_equal_sound from v,
  bytes_equal_refl v,
)

module _ (h : ℕ) (id from : Bytes) where
  with_vote-IsTidy :
      (bs : List Ballot)
      → IsTidy bs
      → contains (voters_of id (live h bs)) from ≡ false
      → IsTidy (with_vote h id from bs)
  unfolding contains
  with_vote-IsTidy [] tidy fresh = tt
  with_vote-IsTidy (b ∷ bs) tidy fresh = ground (
    arith,
    with_vote-IsTidy bs tidy.2,
    has_ballot-with_vote h id from b.id bs,
    has_ballot-with_vote h id from id bs,
    has_ballot-live h b.id bs,
    NoRepeat-append from b.voters tidy.1,
    bytes_equal_sound b.id id,
    voters_of-fresh id (live h bs),
  )

append-IsTidy :
    (bs : List Ballot) (b : Ballot)
    → IsTidy bs
    → has_ballot b.id bs ≡ false
    → NoRepeat b.voters
    → IsTidy (bs ++ b ∷ [])
append-IsTidy [] b tidy fresh once = (refl, once, tt)
append-IsTidy (c ∷ bs) b tidy fresh once = ground (
  arith,
  append-IsTidy bs b tidy.2,
  has_ballot-append c.id bs (b ∷ []),
  bytes_equal_sound b.id c.id,
  bytes_equal_refl c.id,
)

-- A vote keeps the ballots tidy: one ballot for a decision, one vote of a node in a ballot.
pub cast_vote-IsTidy :
    (h : ℕ) (id from : Bytes) (bs : List Ballot)
    → IsTidy bs
    → IsTidy (stored bs (cast_vote h id from bs).0)
unfolding cast_vote close_scan contains
cast_vote-IsTidy h id from bs tidy = ground (
  arith,
  scan-eq-with_vote h id from bs tidy,
  with_vote-IsTidy h id from bs tidy,
  append-IsTidy (with_vote h id from bs) (opened h id from),
  has_ballot-with_vote h id from id bs,
  voters_of-fresh id (live h bs),
)

abbrev without : Bytes → List Ballot → List Ballot
without id [] = []
without id (b ∷ bs) = if bytes_equal b.id id then bs else b ∷ without id bs

ballot_index-suc :
    (id : Bytes) (i : ℕ) (bs : List Ballot)
    → has_ballot id bs ≡ true
    → ballot_index id (i + 1) bs ≡ suc (ballot_index id i bs)
unfolding ballot_index
ballot_index-suc id i [] known = cc
ballot_index-suc id i (b ∷ bs) known = ground (arith, ballot_index-suc id (i + 1) bs)

remove_ballot-eq-without :
    (id : Bytes) (bs : List Ballot)
    → has_ballot id bs ≡ true
    → remove_ballot id bs ≡ some (without id bs)
unfolding remove_ballot ballot_index remove_at
remove_ballot-eq-without id [] known = cc
remove_ballot-eq-without id (b ∷ bs) known =
    ground (arith, remove_ballot-eq-without id bs, ballot_index-suc id 0 bs)

has_ballot-without :
    (id j : Bytes) (bs : List Ballot)
    → has_ballot j bs ≡ false
    → has_ballot j (without id bs) ≡ false
has_ballot-without id j [] fresh = refl
has_ballot-without id j (b ∷ bs) fresh = ground (arith, has_ballot-without id j bs)

without-IsTidy : (id : Bytes) (bs : List Ballot) → IsTidy bs → IsTidy (without id bs)
without-IsTidy id [] tidy = tt
without-IsTidy id (b ∷ bs) tidy =
    ground (arith, without-IsTidy id bs, has_ballot-without id b.id bs)

voters_of-without :
    (h : ℕ) (id j : Bytes) (bs : List Ballot)
    → IsTidy bs
    → voters_of j (live h (without id bs))
      ≡ (if bytes_equal id j then [] else voters_of j (live h bs))
voters_of-without h id j [] tidy = ground arith
voters_of-without h id j (b ∷ bs) tidy = ground (
  arith,
  voters_of-without h id j bs,
  bytes_equal_sound b.id id,
  bytes_equal_sound id j,
  bytes_equal_refl id,
  has_ballot-live h id bs,
  voters_of-fresh id (live h bs),
)

-- From tidy ballots, removing the votes of a decision that has a ballot succeeds, keeps the
-- ballots tidy, leaves no voter for the decision and does not touch the voters of the others.
pub remove_ballot_lem :
    (h : ℕ) (id : Bytes) (bs : List Ballot)
    → IsTidy bs
    → has_ballot id bs ≡ true
    → (rest : List Ballot) × (remove_ballot id bs ≡ some rest)
      × IsTidy rest
      × ((j : Bytes)
          → voters_of j (live h rest) ≡ (if bytes_equal id j then [] else voters_of j (live h bs)))
remove_ballot_lem h id bs tidy known = (
  without id bs,
  remove_ballot-eq-without id bs known,
  without-IsTidy id bs tidy,
  λ j. voters_of-without h id j bs tidy,
)

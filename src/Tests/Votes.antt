-- ===== src/Tests/Votes.antt =====
-- The theorems about votes at concrete ballots.
use frostfs_contract.Prelude.{◌≡◌, refl, true, List, [], ◌∷◌, some, length, if◌then◌else◌}
use frostfs_contract.Prelude.Bytes.{Bytes, bytes_equal}
use frostfs_contract.Host.Storage.{Ballot}
use frostfs_contract.Host.Exec.{State, done}
use frostfs_contract.Common.Vote.{contains, cast_vote, vote_key, remove_ballot}
use frostfs_contract.Common.Vote.Ballots.{
  live, voters_of, add_voter, stored, IsTidy, cast_vote-voters_of, cast_vote-voters_of_ne,
}
use frostfs_contract.Common.Vote.Removal.{cast_vote-IsTidy, remove_ballot_lem}
use frostfs_contract.Common.Quorum.{notary_key, collect_votes}
use frostfs_contract.Common.Quorum.Outcome.{Voted, collect_votes-Voted}
use frostfs_contract.Tests.Cells.{flag_cell, ballots_cell}
use frostfs_contract.Tests.Machine.{machine, holding, signed_by}

-- Two nodes have voted for the decision 5, and one, long ago, for the decision 6.
abbrev pub two_ballots : List Ballot
two_ballots =
    record { id = 6 ∷ []; voters = (1 ∷ []) ∷ []; height = 10 }
    ∷ record { id = 5 ∷ []; voters = (1 ∷ []) ∷ (2 ∷ []) ∷ []; height = 90 }
    ∷ []

pub two_ballots-IsTidy : IsTidy two_ballots
unfolding contains
two_ballots-IsTidy = (refl, (refl, tt), (refl, (refl, (refl, tt)), tt))

abbrev pub voting_state : State
voting_state = holding ((notary_key, flag_cell true) ∷ (vote_key, ballots_cell two_ballots) ∷ [])

abbrev pub four_nodes : List Bytes
four_nodes = (1 ∷ []) ∷ (2 ∷ []) ∷ (3 ∷ []) ∷ (4 ∷ []) ∷ []

-- The third vote of four nodes for the decision 5 reaches the threshold.
third_vote : (cast_vote 100 (5 ∷ []) (3 ∷ []) two_ballots).1 ≡ 3
unfolding cast_vote
third_vote = refl

collect_votes-Voted_example :
    Voted
      (signed_by (3 ∷ []))
      four_nodes
      (3 ∷ [])
      (5 ∷ [])
      done
      voting_state
      two_ballots
      (collect_votes (signed_by (3 ∷ [])) four_nodes (3 ∷ []) (5 ∷ []) done voting_state)
collect_votes-Voted_example =
    collect_votes-Voted (signed_by (3 ∷ [])) four_nodes (3 ∷ []) (5 ∷ []) done voting_state
      two_ballots refl two_ballots-IsTidy

cast_vote-voters_of_example :
    let (o, n) = cast_vote 100 (5 ∷ []) (3 ∷ []) two_ballots in
    (voters_of (5 ∷ []) (live 100 (stored two_ballots o))
      ≡ add_voter (3 ∷ []) (voters_of (5 ∷ []) (live 100 two_ballots)))
    × (n ≡ length (voters_of (5 ∷ []) (live 100 (stored two_ballots o))))
cast_vote-voters_of_example =
    cast_vote-voters_of 100 (5 ∷ []) (3 ∷ []) two_ballots two_ballots-IsTidy

cast_vote-voters_of_ne_example :
    voters_of (5 ∷ []) (live 20 (stored two_ballots (cast_vote 20 (6 ∷ []) (3 ∷ []) two_ballots).0))
    ≡ voters_of (5 ∷ []) (live 20 two_ballots)
cast_vote-voters_of_ne_example =
    cast_vote-voters_of_ne 20 (6 ∷ []) (3 ∷ []) two_ballots two_ballots-IsTidy (5 ∷ []) refl

cast_vote-IsTidy_example :
    IsTidy (stored two_ballots (cast_vote 100 (5 ∷ []) (3 ∷ []) two_ballots).0)
cast_vote-IsTidy_example = cast_vote-IsTidy 100 (5 ∷ []) (3 ∷ []) two_ballots two_ballots-IsTidy

remove_ballot_example :
    (rest : List Ballot) × (remove_ballot (5 ∷ []) two_ballots ≡ some rest)
    × IsTidy rest
    × ((j : Bytes)
        → voters_of j (live 20 rest)
          ≡ (if bytes_equal (5 ∷ []) j then [] else voters_of j (live 20 two_ballots)))
remove_ballot_example = remove_ballot_lem 20 (5 ∷ []) two_ballots two_ballots-IsTidy refl

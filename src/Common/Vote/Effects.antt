-- ===== src/Common/Vote/Effects.antt =====
-- What `vote` and `remove_votes` of common/vote.go do to the state of a contract: only the cell of
-- the ballots changes.
use frostfs_contract.Prelude.{
  ℕ, ◌≡◌, refl, false, Option, none, some, List, [], arith, Option-cases, inl, inr,
}
use mathlib.Core.Path.{subst}
use frostfs_contract.Prelude.Bytes.{Bytes, bytes_equal}
use frostfs_contract.Host.Storage.{Vm, Env, Ballot}
use frostfs_contract.Host.Exec.{State, ok, err, fault}
use frostfs_contract.Common.Vote.{
  vote_key, cast_vote, remove_ballot, get_ballots, vote, remove_votes,
}
use frostfs_contract.Common.Vote.Ballots.{stored}

module _ ⦃vm : Vm⦄ where
  -- Two states that differ in nothing but the ballots.
  pub record SameButVotes (s t : State) : Type 0 where
    pub cells :
        (k : Bytes) → bytes_equal vote_key k ≡ false → vm.get t.storage k ≡ vm.get s.storage k
    pub worlds : t.world ≡ s.world
    pub events_eq : t.events ≡ s.events

  pub SameButVotes-refl : (s : State) → SameButVotes s s
  SameButVotes-refl s = record { cells = λ k h. refl; worlds = refl; events_eq = refl }

  pub SameButVotes-trans : {s t u : State} → SameButVotes s t → SameButVotes t u → SameButVotes s u
  SameButVotes-trans a b = record {
    cells = λ k h. cc (a.cells k h, b.cells k h);
    worlds = cc (a.worlds, b.worlds);
    events_eq = cc (a.events_eq, b.events_eq);
  }

  -- The ballots that a contract has stored: none before the first vote.
  abbrev pub ballots_of : State → Option (List Ballot)
  ballots_of s = elim (vm.get s.storage vote_key) [
    | none ↦ some []
    | some v ↦ vm.ballot_lists.cast (some v)
  ]

  -- The state with other ballots.
  abbrev pub with_ballots : State → List Ballot → State
  with_ballots s bs = record s { storage = vm.put s.storage vote_key (vm.ballot_lists.encode bs) }

  pub ballots_of-with_ballots :
      (s : State) (bs : List Ballot) → ballots_of (with_ballots s bs) ≡ some bs
  ballots_of-with_ballots s bs = ground (
    arith,
    vm.get-put s.storage vote_key vote_key (vm.ballot_lists.encode bs),
    vm.ballot_lists.cast-encode bs,
  )

  pub SameButVotes-with_ballots :
      (s : State) (bs : List Ballot) → SameButVotes s (with_ballots s bs)
  SameButVotes-with_ballots s bs = record {
    cells = λ k h. ground (arith, vm.get-put s.storage vote_key k (vm.ballot_lists.encode bs));
    worlds = refl;
    events_eq = refl;
  }

  abbrev pub after_vote : State → Option (List Ballot) → State
  after_vote s none = s
  after_vote s (some bs) = with_ballots s bs

  pub SameButVotes-after_vote :
      (s : State) (o : Option (List Ballot)) → SameButVotes s (after_vote s o)
  SameButVotes-after_vote s none = SameButVotes-refl s
  SameButVotes-after_vote s (some bs) = SameButVotes-with_ballots s bs

  pub ballots_of-after_vote :
      (s : State) (bs : List Ballot) (o : Option (List Ballot))
      → ballots_of s ≡ some bs
      → ballots_of (after_vote s o) ≡ some (stored bs o)
  ballots_of-after_vote s bs none h = h
  ballots_of-after_vote s bs (some bs') h = ballots_of-with_ballots s bs'

  pub vote-eq :
      (env : Env) (id from : Bytes) (s : State) (bs : List Ballot)
      → ballots_of s ≡ some bs
      → vote env id from s
        ≡ ok (
          (cast_vote env.current_index id from bs).1,
          after_vote s (cast_vote env.current_index id from bs).0,
        )
  unfolding vote get_ballots
  vote-eq env id from s bs h = ground arith

  pub remove_votes-eq :
      (id : Bytes) (s : State) (bs rest : List Ballot)
      → ballots_of s ≡ some bs
      → remove_ballot id bs ≡ some rest
      → remove_votes id s ≡ ok (tt, with_ballots s rest)
  unfolding remove_votes get_ballots
  remove_votes-eq id s bs rest h removed = ground arith

  vote-fault :
      (env : Env) (id from : Bytes) (s : State)
      → ballots_of s ≡ none
      → vote env id from s ≡ err fault
  unfolding vote get_ballots
  vote-fault env id from s h = ground arith

  remove_votes-fault :
      (id : Bytes) (s : State) → ballots_of s ≡ none → remove_votes id s ≡ err fault
  unfolding remove_votes get_ballots
  remove_votes-fault id s h = ground arith

  remove_votes-missing :
      (id : Bytes) (s : State) (bs : List Ballot)
      → ballots_of s ≡ some bs
      → remove_ballot id bs ≡ none
      → remove_votes id s ≡ err fault
  unfolding remove_votes get_ballots
  remove_votes-missing id s bs h missing = ground arith

  SameButVotes-eq : {s t u : State} → SameButVotes s u → u ≡ t → SameButVotes s t
  SameButVotes-eq {s} same e = subst (SameButVotes s) e same

  -- Whatever the ballots are, a vote that does not fail changes nothing but the ballots.
  pub vote-SameButVotes :
      (env : Env) (id from : Bytes) (s t : State) (n : ℕ)
      → vote env id from s ≡ ok (n, t)
      → SameButVotes s t
  vote-SameButVotes env id from s t n h = elim (Option-cases (ballots_of s)) [
    | inl e ↦ absurd (ground (arith, vote-fault env id from s e))
    | inr (bs, e) ↦
        SameButVotes-eq (SameButVotes-after_vote s (cast_vote env.current_index id from bs).0)
          (ground (arith, vote-eq env id from s bs e))
  ]

  pub remove_votes-SameButVotes :
      (id : Bytes) (s t : State) → remove_votes id s ≡ ok (tt, t) → SameButVotes s t
  remove_votes-SameButVotes id s t h = elim (Option-cases (ballots_of s)) [
    | inl e ↦ absurd (ground (arith, remove_votes-fault id s e))
    | inr (bs, e) ↦ elim (Option-cases (remove_ballot id bs)) [
      | inl m ↦ absurd (ground (arith, remove_votes-missing id s bs e m))
      | inr (rest, m) ↦
          SameButVotes-eq (SameButVotes-with_ballots s rest)
            (ground (arith, remove_votes-eq id s bs rest e m))
    ]
  ]

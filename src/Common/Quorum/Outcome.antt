-- ===== src/Common/Quorum/Outcome.antt =====
-- What the guard of the methods lets through: how the votes of the alphabet nodes add up, and in
-- which state the guarded action runs.
use frostfs_contract.Prelude.{
  ℕ, ◌≡◌, ◌⊎◌, inl, inr, Bool, true, false, some, String, List, [], ◌∷◌, arith, ltb, if◌then◌else◌,
  length, Bool-cases, Option-cases,
}
use frostfs_contract.Prelude.Bytes.{Bytes, bytes_equal, bytes_equal_sound, bytes_equal_refl}
use frostfs_contract.Host.Storage.{Vm, Env, Ballot}
use frostfs_contract.Host.Exec.{State, Exec, Result, ok, err, panicked, done, ◌>>◌, >>=-eq-ok}
use frostfs_contract.Common.Ir.{
  inner_ring_invoker, alphabet_threshold, multiaddress, check_alphabet_witness,
}
use frostfs_contract.Common.Vote.{contains, vote, remove_votes, cast_vote, remove_ballot}
use frostfs_contract.Common.Vote.Ballots.{
  live, has_ballot, has_ballot-live, voters_of, voters_of-fresh, IsTidy, add_voter, stored,
  cast_vote-voters_of, cast_vote-voters_of_ne,
}
use frostfs_contract.Common.Vote.Removal.{cast_vote-IsTidy, remove_ballot_lem}
use frostfs_contract.Common.Vote.Effects.{
  SameButVotes, SameButVotes-refl, SameButVotes-trans, ballots_of, with_ballots, after_vote,
  SameButVotes-after_vote, SameButVotes-with_ballots, ballots_of-after_vote,
  ballots_of-with_ballots, vote-eq, remove_votes-eq, vote-SameButVotes, remove_votes-SameButVotes,
}
use frostfs_contract.Common.Quorum.{notary_key, is_empty, collect_votes, by_nodes}

-- A nonempty invoker is one of the nodes and has signed the transaction.
pub inner_ring_invoker-signed :
    (env : Env) (nodes : List Bytes)
    → is_empty (inner_ring_invoker env nodes) ≡ false
    → (contains nodes (inner_ring_invoker env nodes) ≡ true)
      × (env.check_witness (inner_ring_invoker env nodes) ≡ true)
unfolding inner_ring_invoker contains
inner_ring_invoker-signed env [] h = cc
inner_ring_invoker-signed env (node ∷ nodes) h =
    ground (arith, inner_ring_invoker-signed env nodes, bytes_equal_refl node)

add_voter-has_ballot :
    (h : ℕ) (id from : Bytes) (vs : List Bytes) (bs : List Ballot)
    → voters_of id (live h bs) ≡ add_voter from vs
    → has_ballot id bs ≡ true
unfolding contains
add_voter-has_ballot h id from [] bs e =
    ground (arith, has_ballot-live h id bs, voters_of-fresh id (live h bs))
add_voter-has_ballot h id from (v ∷ vs) bs e =
    ground (arith, has_ballot-live h id bs, voters_of-fresh id (live h bs))

module _ ⦃vm : Vm⦄ where
  -- Whether notary is disabled, as the contract has stored it.
  abbrev pub NotaryDisabled : State → Bool → Type 0
  NotaryDisabled s b = vm.flags.cast (vm.get s.storage notary_key) ≡ some b

-- The outcome of a vote of `node` for the decision `id` by a method that then runs `action`.
pub record Voted ⦃vm : Vm⦄ (env : Env) (nodes : List Bytes) (node id : Bytes) (action : Exec Unit)
    (s : State) (bs : List Ballot) (r : Result (Unit × State)) : Type 0 where
  pub counted : List Ballot
  pub cleared : List Ballot
  pub pending : State
  pub accepted : State
  -- the action runs exactly when the set of voters, with this one, has reached the threshold
  pub result : r ≡ (
      if ltb
        (length (add_voter node (voters_of id (live env.current_index bs))))
        (alphabet_threshold nodes)
      then ok (tt, pending)
      else action accepted)
  pub pending_same : SameButVotes s pending
  pub accepted_same : SameButVotes s accepted
  pub pending_ballots : ballots_of pending ≡ some counted
  pub accepted_ballots : ballots_of accepted ≡ some cleared
  pub counted_tidy : IsTidy counted
  pub cleared_tidy : IsTidy cleared
  pub counted_voters :
      (j : Bytes)
      → voters_of j (live env.current_index counted) ≡ (
          if bytes_equal id j
          then add_voter node (voters_of id (live env.current_index bs))
          else voters_of j (live env.current_index bs))
  pub cleared_voters :
      (j : Bytes)
      → voters_of j (live env.current_index cleared)
        ≡ (if bytes_equal id j then [] else voters_of j (live env.current_index bs))

module _ ⦃vm : Vm⦄ (env : Env) (nodes : List Bytes) (node id : Bytes) (action : Exec Unit)
    (s : State) (bs : List Ballot) where
  collect_votes-eq :
      (rest : List Ballot)
      → ballots_of s ≡ some bs
      → remove_ballot id (stored bs (cast_vote env.current_index id node bs).0) ≡ some rest
      → let (o, n) = cast_vote env.current_index id node bs in
        collect_votes env nodes node id action s ≡ (
          if ltb n (alphabet_threshold nodes)
          then ok (tt, after_vote s o)
          else action (with_ballots (after_vote s o) rest))
  unfolding collect_votes
  collect_votes-eq rest h removed =
      let o = (cast_vote env.current_index id node bs).0 in
      ground (
        arith,
        vote-eq env id node s bs h,
        remove_votes-eq id (after_vote s o) (stored bs o) rest (ballots_of-after_vote s bs o h)
            removed,
      )

  -- With tidy stored ballots, a vote refines adding the node to the set of voters of its decision:
  -- the guarded action runs exactly when that set reaches the threshold, then with the ballot of
  -- the decision removed; the voters of other decisions and all cells but the ballots stay, and
  -- the ballots stay tidy.
  pub collect_votes-Voted :
      ballots_of s ≡ some bs
      → IsTidy bs
      → Voted env nodes node id action s bs (collect_votes env nodes node id action s)
  collect_votes-Voted h tidy =
      let o = (cast_vote env.current_index id node bs).0 in
      let counting = cast_vote-voters_of env.current_index id node bs tidy in
      let others = cast_vote-voters_of_ne env.current_index id node bs tidy in
      let counted_tidy = cast_vote-IsTidy env.current_index id node bs tidy in
      let known =
        add_voter-has_ballot env.current_index id node (voters_of id (live env.current_index bs))
          (stored bs o) counting.0 in
      let (rest, removed, rest_tidy, rest_voters) =
        remove_ballot_lem env.current_index id (stored bs o) counted_tidy known in
      record {
        counted = stored bs o;
        cleared = rest;
        pending = after_vote s o;
        accepted = with_ballots (after_vote s o) rest;
        result = ground (arith, collect_votes-eq rest h removed, counting.0, counting.1);
        pending_same = SameButVotes-after_vote s o;
        accepted_same =
            SameButVotes-trans (SameButVotes-after_vote s o)
              (SameButVotes-with_ballots (after_vote s o) rest);
        pending_ballots = ballots_of-after_vote s bs o h;
        accepted_ballots = ballots_of-with_ballots (after_vote s o) rest;
        counted_tidy = counted_tidy;
        cleared_tidy = rest_tidy;
        counted_voters = λ j. ground (arith, counting.0, others j, bytes_equal_sound id j);
        cleared_voters = λ j. ground (arith, rest_voters j, others j);
      }

module _ ⦃vm : Vm⦄ (env : Env) (nodes : List Bytes) (message : String) (id : Bytes)
    (action : Exec Unit) (s : State) where
  -- Without notary, a transaction that no node has signed fails.
  pub by_nodes-refused :
      NotaryDisabled s true
      → is_empty (inner_ring_invoker env nodes) ≡ true
      → by_nodes env nodes message id action s ≡ err (panicked message)
  unfolding by_nodes
  by_nodes-refused off nobody = ground arith

  pub by_nodes-votes :
      NotaryDisabled s true
      → is_empty (inner_ring_invoker env nodes) ≡ false
      → by_nodes env nodes message id action s
        ≡ collect_votes env nodes (inner_ring_invoker env nodes) id action s
  unfolding by_nodes
  by_nodes-votes off signed = ground arith

  -- With notary the action runs exactly under the multisignature of the nodes.
  pub by_nodes-notary :
      NotaryDisabled s false
      → by_nodes env nodes message id action s ≡ (
          if env.check_witness (multiaddress nodes false)
          then action s
          else err (panicked "alphabet witness check failed"))
  unfolding by_nodes check_alphabet_witness
  by_nodes-notary on = ground arith

  -- What a guarded action has done when the method succeeds: nothing but a vote, or the action
  -- ran in a state with the same cells, but for the ballots.
  abbrev pub Guarded : State → Type 0
  Guarded t = SameButVotes s t ⊎ ((u : State) × SameButVotes s u × (action u ≡ ok (tt, t)))

  collect_votes-Guarded :
      (node : Bytes) (t : State) → collect_votes env nodes node id action s ≡ ok (tt, t) → Guarded t
  unfolding collect_votes
  collect_votes-Guarded node t h =
      let (n, u, voted, rest) =
        >>=-eq-ok (vote env id node)
          (λ n. if ltb n (alphabet_threshold nodes) then done else (remove_votes id >> action)) s
          h in
      elim (Bool-cases (ltb n (alphabet_threshold nodes))) [
        | inl few ↦ inl (vote-SameButVotes env id node s t n (ground arith))
        | inr many ↦
            let (_, v, removed, ran) =
              >>=-eq-ok (remove_votes id) (λ _. action) u (rw many at rest) in
            inr (
              v,
              SameButVotes-trans (vote-SameButVotes env id node s u n voted)
                  (remove_votes-SameButVotes id u v removed),
              ran,
            )
      ]

  pub by_nodes-Guarded :
      (t : State) → by_nodes env nodes message id action s ≡ ok (tt, t) → Guarded t
  unfolding by_nodes check_alphabet_witness
  by_nodes-Guarded t h = elim (Option-cases (vm.flags.cast (vm.get s.storage notary_key))) [
    | inl e ↦ absurd (ground arith)
    | inr (true, e) ↦ elim (Bool-cases (is_empty (inner_ring_invoker env nodes))) [
      | inl nobody ↦ absurd (ground (arith, by_nodes-refused e nobody))
      | inr signed ↦
          collect_votes-Guarded (inner_ring_invoker env nodes) t
            (ground (arith, by_nodes-votes e signed))
    ]
    | inr (false, e) ↦ inr (s, SameButVotes-refl s, ground (arith, by_nodes-notary e))
  ]

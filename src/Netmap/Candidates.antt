-- ===== src/Netmap/Candidates.antt =====
-- The candidates for the network map (netmap/netmap_contract.go, `updateCandidateState`,
-- `addToNetmap`, `filterNetmap`).
use frostfs_contract.Prelude.{
  ◌≡◌, ◌≢◌, ◌⊎◌, inl, inr, true, false, Option, none, some, [], ◌∷◌, ◌++◌, ◌||◌, arith,
  if◌then◌else◌, Option-cases, Bool-cases,
}
use frostfs_contract.Prelude.Int.{ℤ, eqb_ℤ}
use frostfs_contract.Prelude.Bytes.{Bytes, bytes_equal, bytes_equal_refl}
use frostfs_contract.Host.Storage.{Vm, Codec, int, bytes}
use frostfs_contract.Host.Exec.{State, ok}
use frostfs_contract.Netmap.{
  Node, online, offline, maintenance, candidate_key, update_candidate_state,
}

module _ ⦃vm : Vm⦄ ⦃node_codec : Codec vm.Value Node⦄ where
  -- The candidate with a key, if there is one that can be read.
  abbrev pub candidate_at : State → Bytes → Option Node
  candidate_at s k = elim (vm.get s.storage (candidate_key k)) [
    | none ↦ none
    | some v ↦ node_codec.cast (some v)
  ]

  abbrev pub in_state : ℤ → Option Node → Option Node
  in_state state none = none
  in_state state (some node) = some (record node { state = state })

  -- A successful change of the state of a candidate is to one of the three known states; it
  -- removes the candidate if that is offline and otherwise finds it and gives it the state,
  -- changes no other cell, and tells of it.
  pub update_candidate_state_lem :
      (key : Bytes) (state : ℤ) (s t : State)
      → update_candidate_state key state s ≡ ok (tt, t)
      → ((eqb_ℤ state offline || (eqb_ℤ state online || eqb_ℤ state maintenance)) ≡ true)
        × (candidate_at t key
            ≡ (if eqb_ℤ state offline then none else in_state state (candidate_at s key)))
        × ((eqb_ℤ state offline ≡ true) ⊎ (candidate_at s key ≢ none))
        × ((k : Bytes)
            → bytes_equal (candidate_key key) k ≡ false
            → vm.get t.storage k ≡ vm.get s.storage k)
        × (t.events ≡ s.events ++ ("UpdateStateSuccess", bytes key ∷ int state ∷ []) ∷ [])
  unfolding update_candidate_state
  update_candidate_state_lem key state s t h = elim (Bool-cases (eqb_ℤ state offline)) [
    | inl gone ↦ (
      ground arith,
      ground (
        arith,
        vm.get-delete s.storage (candidate_key key) (candidate_key key),
        bytes_equal_refl (candidate_key key),
      ),
      inl gone,
      λ k ne. ground (arith, vm.get-delete s.storage (candidate_key key) k),
      ground arith,
    )
    | inr stays ↦ elim (Option-cases (vm.get s.storage (candidate_key key))) [
      | inl missing ↦ absurd (ground arith)
      | inr (raw, present) ↦ elim (Option-cases (node_codec.cast (some raw))) [
        | inl bad ↦ absurd (ground arith)
        | inr (node, good) ↦
            let v = node_codec.encode (record node { state = state }) in
            (
              ground arith,
              ground (
                arith,
                vm.get-put s.storage (candidate_key key) (candidate_key key) v,
                node_codec.cast-encode (record node { state = state }),
                bytes_equal_refl (candidate_key key),
              ),
              inr (λ e. ground arith),
              λ k ne. ground (arith, vm.get-put s.storage (candidate_key key) k v),
              ground arith,
            )
      ]
    ]
  ]

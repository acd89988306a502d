-- ===== src/Container/Cleanup.antt =====
-- The clean up of old estimations (container/container_contract.go, `cleanupContainers`).
use frostfs_contract.Prelude.{
  ◌+◌, ◌≤◌, ◌≡◌, ◌≢◌, refl, ◌∙◌, ◌-◌, ◌++◌, leb, take, length-append, take-append, Bool, true,
  false, none, some, List, [], ◌∷◌, arith, ◌&&◌, if◌then◌else◌, length, inl, inr, Option-cases,
  Bool-cases,
}
use frostfs_contract.Prelude.Int.{ℤ, pos, ◌-ℤ◌, ltb_ℤ}
use frostfs_contract.Prelude.Bytes.{Bytes, bytes_equal_sound, bytes_equal_refl, is_prefix, codes}
use frostfs_contract.Host.Storage.{Vm, lookup}
use frostfs_contract.Host.Exec.{State, ok}
use frostfs_contract.Container.Estimations.{
  estimate_prefix, total_cleanup_delta, epoch_of_key, estimation_key, cleanup_keys,
  cleanup_containers,
}

-- the key of an estimation: the prefix, the bytes of the epoch, the container, ten bytes of a hash
abbrev pub laid_out : Bytes → Bytes → Bytes → Bytes
laid_out epoch_bytes cid node = codes "cnr" ++ (epoch_bytes ++ (cid ++ node))

module _ ⦃vm : Vm⦄ where
  -- the epoch in a key is more than four epochs behind another one
  abbrev pub is_old : ℤ → Bytes → Bool
  is_old epoch k = elim (epoch_of_key k) [
    | none ↦ false
    | some n ↦ ltb_ℤ total_cleanup_delta (epoch -ℤ n)
  ]

  abbrev pub has : Bytes → List (Bytes × vm.Value) → Bool
  has k es = elim (lookup k es) [ none ↦ false | some v ↦ true ]

  -- all entries have keys with an epoch
  abbrev pub AllReadable : List (Bytes × vm.Value) → Type 0
  AllReadable [] = Unit
  AllReadable ((k, v) ∷ es) = (epoch_of_key k ≢ none) × AllReadable es

  abbrev pub Cleaned : ℤ → List (Bytes × vm.Value) → State → State → Type 0
  Cleaned epoch es s t =
      ((k : Bytes)
        → vm.get t.storage k ≡ (if has k es && is_old epoch k then none else vm.get s.storage k))
      × (t.events ≡ s.events)
      × (t.world ≡ s.world)

  cleanup_keys_lem :
      (epoch : ℤ) (es : List (Bytes × vm.Value)) (s : State)
      → AllReadable es
      → (t : State) × (cleanup_keys epoch es s ≡ ok (tt, t)) × Cleaned epoch es s t
  unfolding cleanup_keys
  cleanup_keys_lem epoch [] s h = (s, refl, ((λ k. refl), refl, refl))
  cleanup_keys_lem epoch ((k, v) ∷ es) s (readable, h) = elim (Option-cases (epoch_of_key k)) [
    | inl e ↦ absurd (readable e)
    | inr (n, e) ↦ elim (Bool-cases (ltb_ℤ total_cleanup_delta (epoch -ℤ n))) [
      | inl old ↦
          let u : State = record s { storage = vm.delete s.storage k } in
          let (t, eq, (cells, events, world)) = cleanup_keys_lem epoch es u h in
          (
            t,
            ground (arith, eq),
            (
              (λ j. ground (arith, cells j, vm.get-delete s.storage k j, bytes_equal_sound k j)),
              events,
              world,
            ),
          )
      | inr young ↦
          let (t, eq, (cells, events, world)) = cleanup_keys_lem epoch es s h in
          (
            t,
            ground (arith, eq),
            ((λ j. ground (arith, cells j, bytes_equal_sound k j)), events, world),
          )
    ]
  ]

  -- a list whose keys all have an epoch
  AllReadable-intro :
      (es : List (Bytes × vm.Value))
      → ((k : Bytes) → has k es ≡ true → epoch_of_key k ≢ none)
      → AllReadable es
  AllReadable-intro [] h = tt
  AllReadable-intro ((k, v) ∷ es) h = (
    h k (ground (arith, bytes_equal_refl k)),
    AllReadable-intro es (λ j there. h j (ground (arith, bytes_equal_sound k j))),
  )

  has-find :
      (st : vm.Store) (p k : Bytes)
      → has k (vm.find st p) ≡ true
      → (is_prefix p k ≡ true) × (vm.get st k ≢ none)
  has-find st p k there = elim (Bool-cases (is_prefix p k)) [
    | inl prefix ↦ (prefix, λ e. ground (arith, vm.lookup-find st p k))
    | inr other ↦ absurd (ground (arith, vm.lookup-find st p k))
  ]

  -- deleting the entries of a search deletes the cells under its prefix
  find-cell :
      (st : vm.Store) (p k : Bytes) (old : Bool)
      → (if has k (vm.find st p) && old then none else vm.get st k)
        ≡ (if is_prefix p k && old then none else vm.get st k)
  find-cell st p k old = elim (Bool-cases (is_prefix p k)) [
    | inl prefix ↦ elim (Option-cases (vm.get st k)) [
      | inl e ↦ ground (arith, vm.lookup-find st p k)
      | inr (v, e) ↦ ground (arith, vm.lookup-find st p k)
    ]
    | inr other ↦ ground (arith, vm.lookup-find st p k)
  ]

  long-readable : (k : Bytes) → 45 ≤ length k → epoch_of_key k ≢ none
  unfolding epoch_of_key
  long-readable k long e = ground arith

  cleanup_containers-deleted :
      (epoch : ℤ) (s : State)
      → ((k : Bytes)
          → is_prefix estimate_prefix k ≡ true
          → vm.get s.storage k ≢ none
          → 45 ≤ length k)
      → (t : State) × (cleanup_containers epoch s ≡ ok (tt, t))
        × ((k : Bytes)
            → vm.get t.storage k ≡ (
                if is_prefix estimate_prefix k && is_old epoch k then none else vm.get s.storage k))
        × (t.events ≡ s.events)
        × (t.world ≡ s.world)
  unfolding cleanup_containers
  cleanup_containers-deleted epoch s long =
      let es = vm.find s.storage estimate_prefix in
      let readable : AllReadable es = AllReadable-intro es (λ k there.
        let (prefix, present) = has-find s.storage estimate_prefix k there in
        long-readable k (long k prefix present)) in
      let (t, eq, (cells, events, world)) = cleanup_keys_lem epoch es s readable in
      (
        t,
        eq,
        (λ k. cells k ∙ find-cell s.storage estimate_prefix k (is_old epoch k)),
        events,
        world,
      )

  epoch_of_key-laid_out :
      (m cid node : Bytes)
      → length cid ≡ 32
      → length node ≡ 10
      → epoch_of_key (laid_out m cid node) ≡ some (vm.bytes_to_int m)
  unfolding epoch_of_key
  epoch_of_key-laid_out m cid node lc ln =
      let rest = length-append cid node in
      let all = length-append m (cid ++ node) in
      let size : length (laid_out m cid node) ≡ length m + 45 = omega (arith, rest, all) in
      let here : length m + 45 - 32 - 10 - 3 ≡ length m = omega arith in
      let fits : leb 45 (length m + 45) ≡ true = ground arith in
      rw (size, fits, here, take-append m (cid ++ node)) refl

  is_old-laid_out :
      (epoch : ℤ) (m cid node : Bytes)
      → length cid ≡ 32
      → length node ≡ 10
      → is_old epoch (laid_out m cid node) ≡ ltb_ℤ (pos 4) (epoch -ℤ vm.bytes_to_int m)
  is_old-laid_out epoch m cid node lc ln = rw (is_old, epoch_of_key-laid_out m cid node lc ln) refl

  is_old-short : (epoch : ℤ) (k : Bytes) → leb 45 (length k) ≡ false → is_old epoch k ≡ false
  unfolding epoch_of_key
  is_old-short epoch k short = ground (arith, short)

  -- What the clean up for an epoch does to the cells.
  pub record CleanedUp (epoch : ℤ) (s t : State) : Type 0 where
    -- a key is read as the prefix, an epoch, a container and a node
    pub by_layout :
        (m cid node : Bytes)
        → length cid ≡ 32
        → length node ≡ 10
        → vm.get t.storage (laid_out m cid node) ≡ (
            if ltb_ℤ (pos 4) (epoch -ℤ vm.bytes_to_int m)
            then none
            else vm.get s.storage (laid_out m cid node))
    -- the cell that the estimation of a node for a container and an epoch is put into
    pub by_estimation :
        (n : ℤ) (cid key : Bytes)
        → length cid ≡ 32
        → length (take 10 (vm.ripemd160 key)) ≡ 10
        → vm.get t.storage (estimation_key n cid key) ≡ (
            if ltb_ℤ (pos 4) (epoch -ℤ n)
            then none
            else vm.get s.storage (estimation_key n cid key))
    -- all other cells
    pub others :
        (k : Bytes)
        → (is_prefix (codes "cnr") k && leb 45 (length k)) ≡ false
        → vm.get t.storage k ≡ vm.get s.storage k

  module _ (epoch : ℤ) (s t : State)
      (cells : (k : Bytes)
        → vm.get t.storage k ≡ (
            if is_prefix estimate_prefix k && is_old epoch k
            then none
            else vm.get s.storage k)) where
    by_layout_lem :
        (m cid node : Bytes)
        → length cid ≡ 32
        → length node ≡ 10
        → vm.get t.storage (laid_out m cid node) ≡ (
            if ltb_ℤ (pos 4) (epoch -ℤ vm.bytes_to_int m)
            then none
            else vm.get s.storage (laid_out m cid node))
    by_layout_lem m cid node lc ln =
        cells (laid_out m cid node) ∙ rw (is_old-laid_out epoch m cid node lc ln) refl

    others_lem :
        (k : Bytes)
        → (is_prefix (codes "cnr") k && leb 45 (length k)) ≡ false
        → vm.get t.storage k ≡ vm.get s.storage k
    others_lem k other = elim (Bool-cases (is_prefix (codes "cnr") k)) [
      | inr ne ↦ ground (arith, cells k)
      | inl prefix ↦ ground (arith, cells k, is_old-short epoch k)
    ]

    CleanedUp-intro : CleanedUp epoch s t
    unfolding estimation_key
    CleanedUp-intro = record {
      by_layout = by_layout_lem;
      by_estimation = λ n cid key lc ln.
          let m = vm.int_to_bytes n in
          let cell = by_layout_lem m cid (take 10 (vm.ripemd160 key)) lc ln in
          rw (vm.bytes_to_int-int_to_bytes n) at cell;
      others = others_lem;
    }

  -- The clean up for an epoch, of a storage in which every key under the prefix of the estimations
  -- has at least 45 bytes, succeeds. Of the keys that are the prefix, an epoch, 32 bytes of a
  -- container and 10 of a node, it deletes exactly those whose epoch is more than four behind, and
  -- so of the cells that the estimations of nodes are put into; it changes no other cell, and
  -- tells nobody.
  pub cleanup_containers_lem :
      (epoch : ℤ) (s : State)
      → ((k : Bytes) → is_prefix (codes "cnr") k ≡ true → vm.get s.storage k ≢ none → 45 ≤ length k)
      → (t : State) × (cleanup_containers epoch s ≡ ok (tt, t))
        × CleanedUp epoch s t
        × (t.events ≡ s.events)
        × (t.world ≡ s.world)
  cleanup_containers_lem epoch s long =
      let (t, eq, cells, events, world) = cleanup_containers-deleted epoch s long in
      (t, eq, CleanedUp-intro epoch s t cells, events, world)

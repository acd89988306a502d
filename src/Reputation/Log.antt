-- ===== src/Reputation/Log.antt =====
-- The values of a peer as a log to which Put appends (reputation/reputation_contract.go).
use frostfs_contract.Prelude.{
  ℕ, zero, suc, ◌<◌, ◌≡◌, refl, sym, ap, ◌∙◌, true, false, Option, none, some, List, [], ◌∷◌, ◌++◌,
  arith, length, length-append, get_elem?, ◌⊎◌, inl, inr, Bool-cases, Option-cases,
}
use frostfs_contract.Prelude.Int.{ℤ, pos, pos_part, ◌+ℤ◌}
use frostfs_contract.Prelude.Bytes.{
  Bytes, bytes_equal, bytes_equal_refl, bytes_equal_sound, bytes_equal-append,
}
use frostfs_contract.Host.Storage.{Vm, Env}
use frostfs_contract.Host.Exec.{State, ok}
use frostfs_contract.Common.Ir.{alphabet_address}
use frostfs_contract.Common.Quorum.Outcome.{NotaryDisabled}
use frostfs_contract.Reputation.{count_key, value_prefix, storage_id, append_value, put_value}

pos-next : (n : ℕ) → pos n +ℤ pos 1 ≡ pos (suc n)
unfolding ◌+ℤ◌
pos-next n = ground arith

module _ ⦃vm : Vm⦄ where
  -- the cell of a value, by its number
  abbrev pub value_key : Bytes → ℕ → Bytes
  value_key id n = value_prefix id ++ vm.int_to_bytes (pos n)

  -- the counter; no cell stands for 0
  abbrev pub counter : Option vm.Value → Option ℤ
  counter none = some (pos 0)
  counter (some v) = vm.numbers.cast (some v)

  -- The counter is the number of values, and the values stand under the numbers from 1 on.
  abbrev pub History : State → Bytes → List Bytes → Type 0
  History s id vs =
      (counter (vm.get s.storage (count_key id)) ≡ some (pos (length vs)))
      × ((i : ℕ) (v : Bytes)
          → get_elem? vs i ≡ some v
          → vm.get s.storage (value_key id (suc i)) ≡ some (vm.raw.encode v))

  value_key-injective :
      (id : Bytes) (i n : ℕ) → bytes_equal (value_key id i) (value_key id n) ≡ true → i ≡ n
  value_key-injective id i n h =
      let same = bytes_equal_sound (vm.int_to_bytes (pos i)) (vm.int_to_bytes (pos n)) (
        sym
          (bytes_equal-append (value_prefix id) (vm.int_to_bytes (pos i)) (vm.int_to_bytes (pos n)))
        ∙ h) in
      ap pos_part (
        sym (vm.bytes_to_int-int_to_bytes (pos i))
        ∙ (ap vm.bytes_to_int same ∙ vm.bytes_to_int-int_to_bytes (pos n)))

  -- the state after the two writes of Put
  abbrev pub appended : State → Bytes → Bytes → ℕ → State
  appended s id value n = record s {
    storage =
        vm.put (vm.put s.storage (count_key id) (vm.numbers.encode (pos (suc n))))
          (value_key id (suc n)) (vm.raw.encode value);
  }

  append_value-eq :
      (id value : Bytes) (s : State) (n : ℕ)
      → counter (vm.get s.storage (count_key id)) ≡ some (pos n)
      → append_value id value s ≡ ok (tt, appended s id value n)
  unfolding append_value
  append_value-eq id value s n counted = elim (Option-cases (vm.get s.storage (count_key id))) [
    | inl missing ↦ ground (arith, pos-next n)
    | inr (v, present) ↦ ground (arith, pos-next n)
  ]

  appended-other :
      (s : State) (id value : Bytes) (n : ℕ) (k : Bytes)
      → bytes_equal (count_key id) k ≡ false
      → bytes_equal (value_key id (suc n)) k ≡ false
      → vm.get (appended s id value n).storage k ≡ vm.get s.storage k
  appended-other s id value n k p q = ground (
    arith,
    vm.get-put s.storage (count_key id) k (vm.numbers.encode (pos (suc n))),
    vm.get-put (vm.put s.storage (count_key id) (vm.numbers.encode (pos (suc n))))
        (value_key id (suc n)) k (vm.raw.encode value),
  )

get_elem?-length : (vs : List Bytes) (v : Bytes) (i : ℕ) → get_elem? vs i ≡ some v → i < length vs
get_elem?-length [] v i h = cc
get_elem?-length (x ∷ vs) v zero h = omega arith
get_elem?-length (x ∷ vs) v (suc i) h = omega (arith, get_elem?-length vs v i h)

get_elem?-snoc :
    (vs : List Bytes) (v w : Bytes) (i : ℕ)
    → get_elem? (vs ++ v ∷ []) i ≡ some w
    → (get_elem? vs i ≡ some w) ⊎ ((i ≡ length vs) × (v ≡ w))
get_elem?-snoc [] v w zero h = inr (refl, ground arith)
get_elem?-snoc [] v w (suc i) h = cc
get_elem?-snoc (x ∷ vs) v w zero h = inl h
get_elem?-snoc (x ∷ vs) v w (suc i) h = elim (get_elem?-snoc vs v w i h) [
  | inl there ↦ inl there
  | inr (e, same) ↦ inr (ap suc e, same)
]

module _ ⦃vm : Vm⦄ where
  get-appended :
      (s : State) (id value : Bytes) (n : ℕ)
      → (vm.get (appended s id value n).storage (count_key id)
          ≡ some (vm.numbers.encode (pos (suc n))))
        × (vm.get (appended s id value n).storage (value_key id (suc n))
            ≡ some (vm.raw.encode value))
  get-appended s id value n =
      let u = vm.put s.storage (count_key id) (vm.numbers.encode (pos (suc n))) in
      let cell = value_key id (suc n) in
      (
        ground (
          arith,
          vm.get-put u cell (count_key id) (vm.raw.encode value),
          vm.get-put s.storage (count_key id) (count_key id) (vm.numbers.encode (pos (suc n))),
          bytes_equal_refl id,
        ),
        ground (arith, vm.get-put u cell cell (vm.raw.encode value), bytes_equal_refl cell),
      )

  earlier_value :
      (id : Bytes) (i n : ℕ)
      → i < n
      → bytes_equal (value_key id (suc n)) (value_key id (suc i)) ≡ false
  earlier_value id i n h =
      elim (Bool-cases (bytes_equal (value_key id (suc n)) (value_key id (suc i)))) [
        | inl e ↦ absurd (omega (arith, h, value_key-injective id (suc n) (suc i) e))
        | inr e ↦ e
      ]

  -- Where the cells of an identifier hold a list of values, the part of Put behind its guard
  -- succeeds and leaves that list with the new value at its end, and changes no cell but the
  -- counter and the one of the new value.
  pub append_value_lem :
      (id value : Bytes) (vs : List Bytes) (s : State)
      → History s id vs
      → (t : State) × (append_value id value s ≡ ok (tt, t))
        × History t id (vs ++ value ∷ [])
        × ((k : Bytes)
            → bytes_equal (count_key id) k ≡ false
            → bytes_equal (value_key id (suc (length vs))) k ≡ false
            → vm.get t.storage k ≡ vm.get s.storage k)
        × (t.events ≡ s.events)
  append_value_lem id value vs s (counted, stored) =
      let n = length vs in
      (
        appended s id value n,
        append_value-eq id value s n counted,
        (
          ap counter (get-appended s id value n).0
              ∙ (vm.numbers.cast-encode (pos (suc n))
                  ∙ ap (λ m. some (pos m)) (omega (arith, length-append vs (value ∷ [])))),
          λ i v there. elim (get_elem?-snoc vs value v i there) [
            | inl old ↦
                appended-other s id value n (value_key id (suc i)) refl
                  (earlier_value id i n (get_elem?-length vs v i old))
                ∙ stored i v old
            | inr (e, same) ↦
                ap (λ m. vm.get (appended s id value n).storage (value_key id (suc m))) e
                ∙ ((get-appended s id value n).1 ∙ ap (λ w. some (vm.raw.encode w)) same)
          ],
        ),
        appended-other s id value n,
        refl,
      )

  -- With notary, Put that the alphabet has signed succeeds at once, and the list of values of the
  -- epoch and the peer then ends with the new value.
  pub put_value-notary :
      (env : Env) (epoch : ℤ) (peer_id value : Bytes) (vs : List Bytes) (s : State)
      → NotaryDisabled s false
      → env.check_witness (alphabet_address env) ≡ true
      → History s (storage_id epoch peer_id) vs
      → (t : State) × (put_value env epoch peer_id value s ≡ ok (tt, t))
        × History t (storage_id epoch peer_id) (vs ++ value ∷ [])
  unfolding put_value
  put_value-notary env epoch peer_id value vs s off signed history =
      let (t, eq, next, _, _) = append_value_lem (storage_id epoch peer_id) value vs s history in
      (t, ground (arith, eq), next)

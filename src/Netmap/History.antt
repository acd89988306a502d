-- ===== src/Netmap/History.antt =====
-- The history under epochs that follow one another (netmap/netmap_contract.go, `NewEpoch` and
-- `SnapshotByEpoch`).
use frostfs_contract.Prelude.{
  ℕ, suc, ◌<◌, ◌≡◌, ◌≢◌, refl, ◌∙◌, sym, ap, some, List, arith, ltb, if◌then◌else◌, inl, inr,
  Bool-cases,
}
use mathlib.Core.Path.{subst}
use mathlib.Core.Option.{some-injective}
use frostfs_contract.Prelude.Int.{ℤ, pos, pos_part, neg_part, ◌+ℤ◌, ◌-ℤ◌, int_laws}
use frostfs_contract.Host.Storage.{Vm, Env, Codec}
use frostfs_contract.Host.Exec.{State, ok, err, panicked}
use frostfs_contract.Common.Vote.Effects.{SameButVotes}
use frostfs_contract.Netmap.{Node, candidate_prefix, decode_nodes, not_offline}
use frostfs_contract.Netmap.Snapshots.{
  count_key, current_key, epoch_key, snapshot_key, snapshot_by_epoch,
}
use frostfs_contract.Netmap.Filter.{IsFiltered}
use frostfs_contract.Netmap.Methods.{new_epoch}
use frostfs_contract.Netmap.Ring
use frostfs_contract.Netmap.Ring.{IsRing, Advanced, index, map_at, snapshot_by_epoch_lem}
use frostfs_contract.Netmap.Epoch.{new_epoch-Advanced}

module _ ⦃vm : Vm⦄ where
  -- Two states with the same ring of snapshots.
  pub record SameRing (s t : State) : Type 0 where
    pub epoch_same : vm.get t.storage epoch_key ≡ vm.get s.storage epoch_key
    pub count_same : vm.get t.storage count_key ≡ vm.get s.storage count_key
    pub current_same : vm.get t.storage current_key ≡ vm.get s.storage current_key
    pub snapshots_same :
        (x : ℕ) → vm.get t.storage (snapshot_key (pos x)) ≡ vm.get s.storage (snapshot_key (pos x))

  IsRing-SameRing : {s t : State} {e : ℤ} {c i : ℕ} → SameRing s t → IsRing s e c i → IsRing t e c i
  IsRing-SameRing same ring = record {
    epoch_eq = rw same.epoch_same ring.epoch_eq;
    count_eq = rw same.count_same ring.count_eq;
    current_eq = rw same.current_same ring.current_eq;
    current_lt = ring.current_lt;
    count_le = ring.count_le;
  }

  SameButVotes-SameRing : {s t : State} → SameButVotes s t → SameRing s t
  SameButVotes-SameRing same = record {
    epoch_same = same.cells epoch_key refl;
    count_same = same.cells count_key refl;
    current_same = same.cells current_key refl;
    snapshots_same = λ x. same.cells (snapshot_key (pos x)) refl;
  }

  -- The epoch is current.
  abbrev pub IsEpoch : State → ℤ → Type 0
  IsEpoch s e = vm.numbers.cast (vm.get s.storage epoch_key) ≡ some e

module _ ⦃vm : Vm⦄ ⦃node_codec : Codec vm.Value Node⦄ ⦃map_codec : Codec vm.Value (List Node)⦄ where
  -- The states that follow a state of some epoch, when each call of NewEpoch that starts an epoch is
  -- for the next number; other calls leave the ring as it is.
  pub data Follows (s : State) (e : ℤ) : ℕ → State → Type 0 where
    here : Follows s e 0 s
    other : {d : ℕ} {t u : State} → Follows s e d t → SameRing t u → Follows s e d u
    next :
        {d : ℕ} {t u : State} (env : Env)
        → Follows s e d t
        → new_epoch env (e +ℤ pos (suc d)) t ≡ ok (tt, u)
        → IsEpoch u (e +ℤ pos (suc d))
        → Follows s e (suc d) u

  map_at-SameRing : (s t : State) (x : ℕ) → SameRing s t → map_at t x ≡ map_at s x
  map_at-SameRing s t x same = rw (map_at, same.snapshots_same x) refl

  add_zero : (e : ℤ) → e +ℤ pos 0 ≡ e
  add_zero e = omega int_laws

  add_sub : (e : ℤ) (d : ℕ) → e +ℤ pos d -ℤ pos d ≡ e
  add_sub e d = omega int_laws

  add-ne-add_suc : (e : ℤ) (d : ℕ) → e +ℤ pos d ≢ e +ℤ pos (suc d)
  add-ne-add_suc e d h = omega (int_laws, ap pos_part h, ap neg_part h)

  -- A map of the ring has a place for as many epochs as there are snapshots.
  Follows-map_at :
      {s : State} {e : ℤ} (c i : ℕ) (m : List Node)
      → IsRing s e c i
      → map_at s (index (suc c) i 0) ≡ some m
      → {d : ℕ} {t : State} → Follows s e d t
      → (j : ℕ) × IsRing t (e +ℤ pos d) c j × (d < suc c → map_at t (index (suc c) j d) ≡ some m)
  Follows-map_at {s} {e} c i m ring stored here =
      (i, subst (λ x. IsRing s x c i) (sym (add_zero e)) ring, λ lt. stored)
  Follows-map_at {s} {e} c i m ring stored (other {d = d} {t = r} {u = t} before same) =
      let (j, here_ring, kept) = Follows-map_at c i m ring stored before in
      (
        j,
        IsRing-SameRing same here_ring,
        λ lt. map_at-SameRing r t (index (suc c) j d) same ∙ kept lt,
      )
  Follows-map_at {s} {e} c i m ring stored (next {d = d} {t = r} {u = t} env before run current) =
      let (j, here_ring, kept) = Follows-map_at c i m ring stored before in
      elim (new_epoch-Advanced env r t (e +ℤ pos d) (e +ℤ pos (suc d)) c j here_ring run) [
        | inl same ↦
            let old = IsRing-SameRing (SameButVotes-SameRing same) here_ring in
            absurd (add-ne-add_suc e d (some-injective _ _ (sym old.epoch_eq ∙ current)))
        | inr (u, nodes, same, good, a) ↦ (
          Ring.next (suc c) j,
          a.ring,
          λ lt.
              a.older d lt
              ∙ (map_at-SameRing r u (index (suc c) j d) (SameButVotes-SameRing same)
                  ∙ kept (omega arith)),
        )
      ]

  -- After a NewEpoch that starts an epoch on a ring of at most 256 snapshots, and any number of
  -- calls of NewEpoch that each start the next epoch, with other calls between them that leave the
  -- ring as it is, SnapshotByEpoch of that first epoch returns the map of the candidates that were
  -- not offline when it started, as long as fewer epochs have followed than the ring has
  -- snapshots, and panics after that.
  pub snapshot_by_epoch-Follows :
      (env : Env) (s s' t : State) (e0 e : ℤ) (c i d : ℕ)
      → IsRing s e0 c i
      → e0 ≢ e
      → new_epoch env e s ≡ ok (tt, s')
      → IsEpoch s' e
      → Follows s' e d t
      → (u : State) × (nodes : List Node) × SameButVotes s u
        × (decode_nodes (vm.find u.storage candidate_prefix) ≡ some nodes)
        × IsFiltered nodes (not_offline nodes)
        × (snapshot_by_epoch e t ≡ (
            if ltb d (suc c) then ok (not_offline nodes, t) else err (panicked "incorrect diff")))
  snapshot_by_epoch-Follows env s s' t e0 e c i d ring fresh run current after =
      elim (new_epoch-Advanced env s s' e0 e c i ring run) [
        | inl same ↦
            let old = IsRing-SameRing (SameButVotes-SameRing same) ring in
            absurd (fresh (some-injective _ _ (sym old.epoch_eq ∙ current)))
        | inr (u, nodes, same, good, a) ↦
            let (j, here_ring, kept) =
              Follows-map_at c (Ring.next (suc c) i) (not_offline nodes) a.ring a.newest after in
            let asked =
              rw (add_sub e d) at (snapshot_by_epoch_lem t (e +ℤ pos d) c j d here_ring) in
            let answer : snapshot_by_epoch e t ≡ (
                if ltb d (suc c)
                then ok (not_offline nodes, t)
                else err (panicked "incorrect diff")) =
              elim (Bool-cases (ltb d (suc c))) [
                | inl in_range ↦ ground (arith, asked, kept)
                | inr out ↦ ground (arith, asked)
              ] in
            (u, nodes, same, good, a.filtered, answer)
      ]

-- ===== src/Balance/Invariant.antt =====
-- The invariant of the balance contract under its methods: the supply is the sum of the balances
-- (balance/balance_contract.go, `Mint`, `Burn`, `Transfer`, `TransferX`).
use frostfs_contract.Prelude.{
  Bool, Bool-cases, false, ◌≡◌, refl, ◌∙◌, ap, ◌⊎◌, inl, inr, true, List, [], arith, length,
}
use mathlib.Core.Path.{subst, sym}
use frostfs_contract.Prelude.Int.{ltb_ℤ, ◌≤ℤ◌, ℤ, pos, ◌+ℤ◌, ◌-ℤ◌, int_laws}
use frostfs_contract.Prelude.Bytes.{Bytes, bytes_equal_sound}
use frostfs_contract.Host.Storage.{Vm, Env, Codec}
use frostfs_contract.Host.Exec.{State, ok}
use frostfs_contract.Common.Vote.{contains}
use frostfs_contract.Balance.{is_usable_address, Account, hash160_len, circulation_key}
use frostfs_contract.Balance.Ledger.{balance_at, changed_by, sum_of-changed}
use frostfs_contract.Balance.Transfers.{transfer_lem, Transferred, moved}
use frostfs_contract.Balance.Methods.{transfer_method}
use frostfs_contract.Balance.Supply.{Backed, ne_cell, sum_of-ext}

module _ ⦃vm : Vm⦄ ⦃accounts : Codec vm.Value Account⦄ (addresses : List Bytes) (s t : State)
    (supply amount : ℤ) (from to details : Bytes) where
  -- A transfer between two listed addresses keeps the supply and the sum of the balances.
  pub Transferred-Backed :
      Backed addresses s supply
      → length from ≡ hash160_len
      → length to ≡ hash160_len
      → contains addresses from ≡ true
      → contains addresses to ≡ true
      → Transferred s t (moved s from to amount) from to amount details
      → Backed addresses t supply
  Transferred-Backed h lf lt kf kt moves = record {
    are_addresses = h.are_addresses;
    distinct = h.distinct;
    accounted = record {
      balances = λ k len. refl;
      has_accounts = moves.has_accounts;
      supply_eq = ground (
        arith,
        h.accounted.supply_eq,
        moves.cells circulation_key (ne_cell circulation_key from (omega arith) lf)
            (ne_cell circulation_key to (omega arith) lt),
      );
    };
    elsewhere = λ k len out. ground (
      arith,
      moves.balances k,
      h.elsewhere k len out,
      bytes_equal_sound from k,
      bytes_equal_sound to k,
    );
    sum_eq =
        sum_of-ext (balance_at t) (moved s from to amount) addresses h.are_addresses
          (λ k len. moves.balances k)
        ∙ (sum_of-changed (changed_by (balance_at s) from (pos 0 -ℤ amount)) to amount addresses
              h.distinct kt
            ∙ (ap (λ (z : ℤ). z +ℤ amount)
                  (sum_of-changed (balance_at s) from (pos 0 -ℤ amount) addresses h.distinct kf)
                ∙ rw h.sum_eq (omega int_laws)));
  }

module _ ⦃vm : Vm⦄ ⦃accounts : Codec vm.Value Account⦄ (env : Env) (addresses : List Bytes)
    (s t : State) (supply amount : ℤ) (from to : Bytes) (moved_all : Bool) where
  -- A Transfer between two listed addresses of a backed state that returns an answer keeps the
  -- supply equal to the sum of the balances; it leaves the state as it was unless the sender's
  -- address is usable and its balance covers the amount.
  pub transfer_method-Backed :
      Backed addresses s supply
      → length from ≡ hash160_len
      → length to ≡ hash160_len
      → contains addresses from ≡ true
      → contains addresses to ≡ true
      → transfer_method env from to amount s ≡ ok (moved_all, t)
      → Backed addresses t supply
        × ((t ≡ s) ⊎ (is_usable_address env from ≡ true) × (amount ≤ℤ balance_at s from))
  unfolding transfer_method
  transfer_method-Backed h lf lt kf kt run =
      let (u, eq, moves, _) =
        transfer_lem env from to amount [] s false h.accounted.has_accounts lf lt in
      elim (Bool-cases (is_usable_address env from)) [
        | inr unusable ↦
            let same : s ≡ t = ground arith in
            (subst (λ w. Backed addresses w supply) same h, inl (sym same))
        | inl usable ↦ elim (Bool-cases (ltb_ℤ (balance_at s from) amount)) [
          | inl poor ↦
              let same : s ≡ t = ground arith in
              (subst (λ w. Backed addresses w supply) same h, inl (sym same))
          | inr rich ↦
              let same : u ≡ t = ground arith in
              (
                subst (λ w. Backed addresses w supply) same
                    (Transferred-Backed addresses s u supply amount from to [] h lf lt kf kt moves),
                inr (usable, ground arith),
              )
        ]
      ]

-- ===== src/Balance/Negative.antt =====
-- `Transfer` does not look at the sign of the amount (balance/balance_contract.go, `canTransfer`).
use frostfs_contract.Prelude.{ℕ, suc, ◌≡◌, true, false, [], arith, length}
use frostfs_contract.Prelude.Int.{ℤ, pos, negsuc, ◌+ℤ◌, ◌-ℤ◌, ◌≤ℤ◌, ltb_ℤ, int_laws}
use frostfs_contract.Prelude.Bytes.{Bytes, bytes_equal, bytes_equal_refl, bytes_equal_sound}
use frostfs_contract.Host.Storage.{Vm, Env, Codec}
use frostfs_contract.Host.Exec.{State, ok}
use frostfs_contract.Balance.{Account, hash160_len, is_usable_address}
use frostfs_contract.Balance.Ledger.{balance_at, HasAccounts}
use frostfs_contract.Balance.Transfers.{transfer_lem}
use frostfs_contract.Balance.Methods.{transfer_method}

negative_cover : (b : ℤ) (n : ℕ) → pos 0 ≤ℤ b → ltb_ℤ b (negsuc n) ≡ false
negative_cover b n h = ground arith

minus_negative : (b : ℤ) (n : ℕ) → b +ℤ (pos 0 -ℤ negsuc n) ≡ b +ℤ pos (suc n)
minus_negative b n = omega int_laws

plus_negative : (b : ℤ) (n : ℕ) → b +ℤ negsuc n ≡ b -ℤ pos (suc n)
plus_negative b n = omega int_laws

module _ ⦃vm : Vm⦄ ⦃accounts : Codec vm.Value Account⦄ (env : Env) (from to : Bytes) (n : ℕ)
    (s : State) where
  -- With readable accounts, whoever may act for an address with a balance that is not negative
  -- takes any positive amount from any other address, without its signature and whatever it holds,
  -- by a Transfer to it of the negated amount.
  pub transfer_method-negative :
      HasAccounts s
      → length from ≡ hash160_len
      → length to ≡ hash160_len
      → bytes_equal from to ≡ false
      → is_usable_address env from ≡ true
      → pos 0 ≤ℤ balance_at s from
      → (t : State) × (transfer_method env from to (negsuc n) s ≡ ok (true, t))
        × (balance_at t from ≡ balance_at s from +ℤ pos (suc n))
        × (balance_at t to ≡ balance_at s to -ℤ pos (suc n))
  unfolding transfer_method
  transfer_method-negative has lf lt ne usable enough =
      let (t, eq, moves, _) = transfer_lem env from to (negsuc n) [] s false has lf lt in
      (
        t,
        ground (arith, eq, negative_cover (balance_at s from) n enough),
        ground (
          arith,
          moves.balances from,
          minus_negative (balance_at s from) n,
          bytes_equal_refl from,
          bytes_equal_sound to from,
        ),
        ground (arith, moves.balances to, plus_negative (balance_at s to) n, bytes_equal_refl to),
      )

-- ===== src/Alphabet/Shares.antt =====
-- How the alphabet contract divides its GAS (alphabet/alphabet_contract.go, `Emit`).
use native.Mathlib.Nat.{div-mul-le_self, lt-div-mul-add}
use frostfs_contract.Prelude.{ℕ, suc, ◌+◌, ◌-◌, ◌*◌, ◌/◌, ◌≤◌, ◌<◌, ◌≡◌, refl, some, arith}
use frostfs_contract.Prelude.Int.{pos, ◌-ℤ◌}
use frostfs_contract.Alphabet.{proxy_share, node_share}

node_share-eq : (g n : ℕ) → node_share (pos g) (suc n) ≡ some (pos (g * 7 / 8 / suc n))
unfolding node_share
node_share-eq g n = refl

proxy_share-eq : (g : ℕ) → proxy_share (pos g) ≡ some (pos (g / 2))
unfolding proxy_share
proxy_share-eq g = refl

-- Of a balance of GAS that is not negative, the share of the proxy and those of one or more nodes
-- together leave at least a sixteenth, and the share of each node with one unit more exceeds its
-- part of seven eighths of what the proxy leaves.
pub shares_lem :
    (all n : ℕ)
    → (p q rest : ℕ) × (proxy_share (pos all) ≡ some (pos p))
      × (pos all -ℤ pos p ≡ pos rest)
      × (node_share (pos rest) (suc n) ≡ some (pos q))
      × (all + 16 * (p + q * suc n) ≤ 16 * all)
      × (7 * rest < 8 * ((q + 1) * suc n))
unfolding ◌-ℤ◌
shares_lem all n =
    let rest = all - all / 2 in
    let m = rest * 7 / 8 in
    (
      all / 2,
      m / suc n,
      rest,
      proxy_share-eq all,
      ground arith,
      node_share-eq rest n,
      omega (arith, div-mul-le_self m (suc n)),
      omega (arith, lt-div-mul-add {a = m} {b = suc n}),
    )

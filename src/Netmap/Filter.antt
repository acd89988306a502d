-- ===== src/Netmap/Filter.antt =====
-- Which nodes a network map takes from the candidates (netmap/netmap_contract.go, `filterNetmap`).
use frostfs_contract.Prelude.{
  ◌≡◌, ◌≢◌, ◌↔◌, ◌⊎◌, inl, inr, ◌∙◌, sym, ap, true, false, List, [], ◌∷◌, arith, Bool-cases,
}
use frostfs_contract.Prelude.Int.{ℤ, pos, negsuc, eqb_ℤ}
use frostfs_contract.Host.Storage.{Vm, Codec}
use frostfs_contract.Netmap.{Node, offline, not_offline}

abbrev pub Stands : Node → List Node → Type 0
Stands n [] = ⊥
Stands n (m ∷ ms) = (n ≡ m) ⊎ Stands n ms

-- A map has exactly the candidates whose state is not that of an offline node.
abbrev pub IsFiltered : List Node → List Node → Type 0
IsFiltered nodes map = (n : Node) → Stands n map ↔ (Stands n nodes × (n.state ≢ pos 2))

offline-yes : (x : ℤ) → eqb_ℤ x offline ≡ true → x ≡ pos 2
offline-yes (pos n) h = let e : n ≡ 2 = ground arith in ap pos e
offline-yes (negsuc n) h = ground arith

offline-not : (x : ℤ) → eqb_ℤ x offline ≡ false → x ≢ pos 2
offline-not x h e = ground arith

pub not_offline-IsFiltered :
    ⦃vm : Vm⦄ ⦃node_codec : Codec vm.Value Node⦄ (nodes : List Node)
    → IsFiltered nodes (not_offline nodes)
unfolding not_offline
not_offline-IsFiltered [] n = ((λ h. absurd h), (λ h. h.0))
not_offline-IsFiltered (m ∷ ms) n =
    let (to, back) = not_offline-IsFiltered ms n in
    elim (Bool-cases (eqb_ℤ m.state offline)) [
      | inl off ↦
          let gone = offline-yes m.state off in
          rw off (
            (λ h. let (there, active) = to h in (inr there, active)),
            (λ h. elim h.0 [
              | inl e ↦ absurd (h.1 (ap (λ (x : Node). x.state) e ∙ gone))
              | inr there ↦ back (there, h.1)
            ]),
          )
      | inr on ↦
          let kept = offline-not m.state on in
          rw on (
            (λ h. elim h [
              | inl e ↦ (inl e, λ p. kept (sym (ap (λ (x : Node). x.state) e) ∙ p))
              | inr rest ↦ let (there, active) = to rest in (inr there, active)
            ]),
            (λ h. elim h.0 [ inl e ↦ inl e | inr there ↦ inr (back (there, h.1)) ]),
          )
    ]

-- ===== src/Nns/Domains.antt =====
-- Domain names as lists of fragments (nns/nns_contract.go, `splitAndCheck`).
use frostfs_contract.Prelude.{
  ℕ, ◌≤◌, ◌≡◌, ◌≢◌, ◌↔◌, inl, inr, refl, sym, ap, ◌∙◌, Bool, true, false, some, List, [], ◌∷◌, ◌++◌,
  arith, length, ◌&&◌,
}
use frostfs_contract.Prelude.Bytes.{Bytes, join, Free, AllFree}
use frostfs_contract.Host.Storage.{Vm}
use frostfs_contract.Nns.Names.{
  min_name_length, max_name_length, check_fragment, check_fragments, split_and_check,
}
use frostfs_contract.Nns.Fragments.{IsFragment, First, AlNum, Inner, check_fragment_lem}

-- the last fragment is a root
abbrev pub IsDomain : List Bytes → Type 0
IsDomain [] = Unit
IsDomain (v ∷ []) = IsFragment true v
IsDomain (v ∷ next ∷ fragments) = IsFragment false v × IsDomain (next ∷ fragments)

and-true : (a b : Bool) → (a && b) ≡ true → (a ≡ true) × (b ≡ true)
and-true true true h = (refl, refl)
and-true true false h = cc
and-true false b h = cc

check_fragments_lem : (fs : List Bytes) → (check_fragments fs ≡ true) ↔ IsDomain fs
unfolding check_fragments
check_fragments_lem [] = (λ h. tt, λ h. refl)
check_fragments_lem (v ∷ []) = check_fragment_lem v true
check_fragments_lem (v ∷ next ∷ fragments) = (
  λ h.
      let (one, more) = and-true (check_fragment v false) (check_fragments (next ∷ fragments)) h in
      ((check_fragment_lem v false).0 one, (check_fragments_lem (next ∷ fragments)).0 more),
  λ (one, more).
      rw ((check_fragment_lem v false).1 one, (check_fragments_lem (next ∷ fragments)).1 more) refl,
)

Inner-Free : (v : Bytes) → Inner v → Free b'.' v
Inner-Free [] h = tt
Inner-Free (c ∷ cs) (h, inner) = (λ e. grind arith, Inner-Free cs inner)

Free-snoc : (mid : Bytes) (d : ℕ) → Free b'.' mid → AlNum d → Free b'.' (mid ++ d ∷ [])
Free-snoc [] d h al = (λ e. grind arith, tt)
Free-snoc (c ∷ mid) d (h, free) al = (h, Free-snoc mid d free al)

First-ne : (is_root : Bool) (c : ℕ) → First is_root c → c ≢ b'.'
First-ne true c h e = omega (arith, h.0, e)
First-ne false c h e = grind arith

IsFragment-Free : (is_root : Bool) (v : Bytes) → IsFragment is_root v → Free b'.' v
IsFragment-Free is_root v (len, shape) = elim shape [
  | inl (c, e, first, al) ↦ rw e (First-ne is_root c first, tt)
  | inr (c, mid, d, e, first, inner, al) ↦
      rw e (First-ne is_root c first, Free-snoc mid d (Inner-Free mid inner) al)
]

IsDomain-AllFree : (fs : List Bytes) → IsDomain fs → AllFree b'.' fs
IsDomain-AllFree [] h = tt
IsDomain-AllFree (v ∷ []) h = (IsFragment-Free true v h, tt)
IsDomain-AllFree (v ∷ next ∷ fs) (h, rest) =
    (IsFragment-Free false v h, IsDomain-AllFree (next ∷ fs) rest)

module _ ⦃vm : Vm⦄ where
  -- the tests of a split that succeeds
  split_and_check-ok :
      (name : Bytes) (fs : List Bytes)
      → split_and_check name true ≡ some fs
      → (min_name_length ≤ length name)
        × (length name ≤ max_name_length)
        × (check_fragments (vm.string_split name b'.') ≡ true)
        × (vm.string_split name b'.' ≡ fs)
  unfolding split_and_check
  split_and_check-ok name fs h = ground arith

  ok-split_and_check :
      (name : Bytes) (fs : List Bytes)
      → (min_name_length ≤ length name)
      → (length name ≤ max_name_length)
      → check_fragments fs ≡ true
      → vm.string_split name b'.' ≡ fs
      → split_and_check name true ≡ some fs
  unfolding split_and_check
  ok-split_and_check name fs lo hi checked e = ground arith

  -- The split of a name into several fragments succeeds exactly for the names of 3 to 255 bytes
  -- that are well-formed fragments joined by dots, the last one of them a root, and it gives these
  -- fragments.
  pub split_and_check_lem :
      (name part : Bytes) (parts : List Bytes)
      → (split_and_check name true ≡ some (part ∷ parts)) ↔ (
          (join b'.' (part ∷ parts) ≡ name)
          × IsDomain (part ∷ parts)
          × (min_name_length ≤ length name)
          × (length name ≤ max_name_length))
  split_and_check_lem name part parts = (
    λ h.
        let (lo, hi, checked, e) = split_and_check-ok name (part ∷ parts) h in
        (
          ap (join b'.') (sym e) ∙ vm.join-string_split name b'.',
          (check_fragments_lem (part ∷ parts)).0 (ap check_fragments (sym e) ∙ checked),
          lo,
          hi,
        ),
    λ (e, domain, lo, hi).
        ok-split_and_check name (part ∷ parts) lo hi ((check_fragments_lem (part ∷ parts)).1 domain)
          (ap (λ t. vm.string_split t b'.') (sym e)
            ∙ vm.string_split-join part parts b'.' (IsDomain-AllFree (part ∷ parts) domain)),
  )

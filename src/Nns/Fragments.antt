-- ===== src/Nns/Fragments.antt =====
-- Which domain names are well formed (nns/nns_contract.go, `checkFragment` and `splitAndCheck`),
-- described without the loops and indices of the code.
use frostfs_contract.Prelude.{
  ℕ, suc, ◌+◌, ◌-◌, ◌≤◌, ◌≡◌, ◌↔◌, ◌⊎◌, inl, inr, refl, ap, ◌∙◌, ltb, Bool, true, false, not, some,
  [], ◌∷◌, ◌++◌, arith, length, take, last, ◌&&◌, if◌then◌else◌,
}
use frostfs_contract.Prelude.Bytes.{Bytes}
use frostfs_contract.Nns.Names.{
  max_root_length, max_fragment_length, is_letter, is_al_num, middle_ok, last_ok, check_fragment,
}

abbrev pub Letter : ℕ → Type 0
Letter c = (b'a' ≤ c) × (c ≤ b'z')

abbrev pub AlNum : ℕ → Type 0
AlNum c = Letter c ⊎ ((b'0' ≤ c) × (c ≤ b'9'))

-- letters, digits and hyphens
abbrev pub Inner : Bytes → Type 0
Inner [] = Unit
Inner (c ∷ cs) = ((c ≡ b'-') ⊎ AlNum c) × Inner cs

-- a root begins with a letter, another fragment with a letter or a digit
abbrev pub First : Bool → ℕ → Type 0
First true c = Letter c
First false c = AlNum c

abbrev pub max_length : Bool → ℕ
max_length is_root = if is_root then max_root_length else max_fragment_length

-- One character that may stand first and last, or such a first and last one with an inner text
-- between them.
abbrev pub IsFragment : Bool → Bytes → Type 0
IsFragment is_root v =
    (length v ≤ max_length is_root)
    × (((c : ℕ) × (v ≡ c ∷ []) × First is_root c × AlNum c)
        ⊎ ((c : ℕ) × (mid : Bytes) × (d : ℕ) × (v ≡ c ∷ (mid ++ d ∷ []))
            × First is_root c
            × Inner mid
            × AlNum d))

is_al_num_iff : (c : ℕ) → (is_al_num c ≡ true) ↔ AlNum c
unfolding is_al_num
is_al_num_iff c = (λ h. grind arith, λ h. grind arith)

middle_ok_iff : (v : Bytes) → (middle_ok v ≡ true) ↔ Inner v
unfolding middle_ok
middle_ok_iff [] = (λ h. tt, λ h. refl)
middle_ok_iff (c ∷ cs) = (
  λ h. grind (arith, is_al_num_iff c, middle_ok_iff cs),
  λ h. grind (arith, is_al_num_iff c, middle_ok_iff cs),
)

last-snoc : (mid : Bytes) (d : ℕ) → last (mid ++ d ∷ []) ≡ some d
last-snoc [] d = refl
last-snoc (c ∷ []) d = refl
last-snoc (c ∷ b ∷ mid) d = last-snoc (b ∷ mid) d

length-snoc : (mid : Bytes) (d : ℕ) → length (mid ++ d ∷ []) ≡ length mid + 1
length-snoc [] d = refl
length-snoc (c ∷ mid) d = omega (arith, length-snoc mid d)

take-snoc : (mid : Bytes) (d : ℕ) → take (length mid) (mid ++ d ∷ []) ≡ mid
take-snoc [] d = refl
take-snoc (c ∷ mid) d = ap (λ t. c ∷ t) (take-snoc mid d)

take_all_but_last : (mid : Bytes) (d : ℕ) → take (length (mid ++ d ∷ []) - 1) (mid ++ d ∷ []) ≡ mid
take_all_but_last mid d =
    ap (λ n. take n (mid ++ d ∷ [])) (omega (arith, length-snoc mid d)) ∙ take-snoc mid d

snoc-cases : (v : Bytes) → (v ≡ []) ⊎ ((mid : Bytes) × (d : ℕ) × (v ≡ mid ++ d ∷ []))
snoc-cases [] = inl refl
snoc-cases (c ∷ cs) = elim (snoc-cases cs) [
  | inl e ↦ inr ([], c, ap (λ t. c ∷ t) e)
  | inr (mid, d, e) ↦ inr (c ∷ mid, d, ap (λ t. c ∷ t) e)
]

last_ok-snoc : (v : Bytes) (d : ℕ) → last_ok (v ++ d ∷ []) ≡ is_al_num d
unfolding last_ok
last_ok-snoc v d = ground (arith, last-snoc v d)

First-iff :
    (is_root : Bool) (c : ℕ)
    → ((if is_root then is_letter c else is_al_num c) ≡ true) ↔ First is_root c
First-iff true c = (λ h. grind arith, λ h. grind arith)
First-iff false c = is_al_num_iff c

check_fragment-snoc :
    (c : ℕ) (mid : Bytes) (d : ℕ) (is_root : Bool)
    → check_fragment (c ∷ (mid ++ d ∷ [])) is_root ≡ (
        not (ltb (max_length is_root) (suc (length mid + 1)))
        && ((if is_root then is_letter c else is_al_num c) && (middle_ok mid && is_al_num d)))
unfolding check_fragment
check_fragment-snoc c mid d is_root =
    rw (take_all_but_last mid d, last_ok-snoc (c ∷ mid) d, length-snoc mid d) refl

check_fragment-snoc_iff :
    (c : ℕ) (mid : Bytes) (d : ℕ) (is_root : Bool)
    → (check_fragment (c ∷ (mid ++ d ∷ [])) is_root ≡ true)
      ↔ ((length mid + 2 ≤ max_length is_root) × First is_root c × Inner mid × AlNum d)
check_fragment-snoc_iff c mid d is_root = (
  λ h. grind (
    arith,
    check_fragment-snoc c mid d is_root,
    First-iff is_root c,
    middle_ok_iff mid,
    is_al_num_iff d,
  ),
  λ h. grind (
    arith,
    check_fragment-snoc c mid d is_root,
    First-iff is_root c,
    middle_ok_iff mid,
    is_al_num_iff d,
  ),
)

check_fragment-one_iff :
    (c : ℕ) (is_root : Bool)
    → (check_fragment (c ∷ []) is_root ≡ true) ↔ (First is_root c × AlNum c)
unfolding check_fragment last_ok middle_ok
check_fragment-one_iff c true = (
  λ h. grind (arith, First-iff true c, is_al_num_iff c),
  λ h. grind (arith, First-iff true c, is_al_num_iff c),
)
check_fragment-one_iff c false =
    (λ h. grind (arith, is_al_num_iff c), λ h. grind (arith, is_al_num_iff c))

length_one : (is_root : Bool) → 1 ≤ max_length is_root
length_one true = omega arith
length_one false = omega arith

IsFragment-accepted :
    (v : Bytes) (is_root : Bool) → IsFragment is_root v → check_fragment v is_root ≡ true
IsFragment-accepted v is_root (len, shape) = elim shape [
  | inl (c, e, first, al) ↦ rw e ((check_fragment-one_iff c is_root).1 (first, al))
  | inr (c, mid, d, e, first, inner, al) ↦ rw e (
      (check_fragment-snoc_iff c mid d is_root).1
        (grind (arith, length-snoc mid d, ap length e), first, inner, al))
]

accepted-IsFragment :
    (c : ℕ) (cs : Bytes) (is_root : Bool)
    → check_fragment (c ∷ cs) is_root ≡ true
    → IsFragment is_root (c ∷ cs)
accepted-IsFragment c cs is_root = elim (snoc-cases cs) [
  | inl e ↦ rw e (λ h.
      let (first, al) = (check_fragment-one_iff c is_root).0 h in
      (length_one is_root, inl (c, refl, first, al)))
  | inr (mid, d, e) ↦ rw e (λ h.
      let (len, first, inner, al) = (check_fragment-snoc_iff c mid d is_root).0 h in
      (omega (arith, length-snoc mid d, len), inr (c, mid, d, refl, first, inner, al)))
]

nil-rejected : (is_root : Bool) → check_fragment [] is_root ≡ true → IsFragment is_root []
unfolding check_fragment
nil-rejected is_root h = cc

-- The check of a fragment accepts exactly the well-formed ones: of at most 63 characters, or 16
-- for a root, the first one a letter or, but for a root, a digit, the last one a letter or a
-- digit, and letters, digits and hyphens between them.
pub check_fragment_lem :
    (v : Bytes) (is_root : Bool) → (check_fragment v is_root ≡ true) ↔ IsFragment is_root v
check_fragment_lem [] is_root = (nil-rejected is_root, IsFragment-accepted [] is_root)
check_fragment_lem (c ∷ cs) is_root =
    (accepted-IsFragment c cs is_root, IsFragment-accepted (c ∷ cs) is_root)

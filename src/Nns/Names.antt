-- ===== src/Nns/Names.antt =====
-- The form of domain names (nns/nns_contract.go, `isAlNum`, `checkFragment` and `splitAndCheck`).
use frostfs_contract.Prelude.{
  ℕ, ◌-◌, Bool, true, false, Option, none, some, List, [], ◌∷◌, ◌==◌, ◌&&◌, ◌||◌, not, ltb, leb,
  length, take, last, if◌then◌else◌,
}
use frostfs_contract.Prelude.Bytes.{Bytes}
use frostfs_contract.Host.Storage.{Vm}

abbrev pub max_root_length : ℕ
max_root_length = 16

abbrev pub max_fragment_length : ℕ
max_fragment_length = 63

abbrev pub min_name_length : ℕ
min_name_length = 3

abbrev pub max_name_length : ℕ
max_name_length = 255

abbrev pub is_letter : ℕ → Bool
is_letter c = leb b'a' c && leb c b'z'

unfoldable pub is_al_num : ℕ → Bool
is_al_num c = is_letter c || (leb b'0' c && leb c b'9')

-- the loop over the characters between the first and the last one
unfoldable pub middle_ok : Bytes → Bool
unfolding is_al_num
middle_ok [] = true
middle_ok (c ∷ cs) = (c == b'-' || is_al_num c) && middle_ok cs

-- the last character of a text that is not empty
unfoldable pub last_ok : Bytes → Bool
unfolding is_al_num
last_ok v = elim (last v) [ none ↦ false | some c ↦ is_al_num c ]

unfoldable pub check_fragment : Bytes → Bool → Bool
unfolding middle_ok last_ok is_al_num
check_fragment [] is_root = false
check_fragment (c ∷ cs) is_root =
    not (ltb (if is_root then max_root_length else max_fragment_length) (length (c ∷ cs)))
    && ((if is_root then is_letter c else is_al_num c)
        && (middle_ok (take (length cs - 1) cs) && last_ok (c ∷ cs)))

-- the loop of `splitAndCheck`: the last fragment is the root
unfoldable pub check_fragments : List Bytes → Bool
unfolding check_fragment
check_fragments [] = true
check_fragments (v ∷ []) = check_fragment v true
check_fragments (v ∷ next ∷ fragments) =
    check_fragment v false && check_fragments (next ∷ fragments)

unfoldable pub split_and_check : ⦃vm : Vm⦄ → Bytes → Bool → Option (List Bytes)
unfolding check_fragments
split_and_check ⦃vm⦄ name allow_multiple_fragments =
    let fragments = vm.string_split name b'.' in
    if ltb (length name) min_name_length || ltb max_name_length (length name)
    then none
    else if ltb 2 (length fragments) && not allow_multiple_fragments
    then none
    else if check_fragments fragments
    then some fragments
    else none

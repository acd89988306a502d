-- ===== src/Nns/Addresses.antt =====
-- The data of the address records (nns/nns_contract.go, `checkIPv4` and `checkIPv6`).
use frostfs_contract.Prelude.{
  ℕ, zero, suc, ◌+◌, ◌-◌, Bool, true, false, Option, none, some, List, [], ◌∷◌, ◌==◌, ◌&&◌, ◌||◌,
  not, ltb, leb, length, get_elem?, if◌then◌else◌,
}
use frostfs_contract.Prelude.Int.{ℤ, pos, negsuc, ltb_ℤ, eqb_ℤ}
use frostfs_contract.Prelude.Bytes.{Bytes}
use frostfs_contract.Host.Storage.{Vm}
use frostfs_contract.Host.Exec.{Exec, pure, panic, or_fault, require, ◌>>=◌, ◌>>◌}

-- a decimal number of one byte
abbrev pub require_byte : ⦃vm : Vm⦄ → ℤ → Exec ℕ
require_byte (negsuc n) = panic "not a byte"
require_byte (pos n) = if ltb 255 n then panic "not a byte" else pure n

-- a zero in front of other digits
abbrev pub has_leading_zero : ℕ → Bytes → Bool
has_leading_zero n [] = false
has_leading_zero n (c ∷ cs) = if ltb 0 n then c == b'0' else ltb 1 (length (c ∷ cs))

-- the addresses that `checkIPv4` admits, by their numbers
unfoldable pub is_public_ipv4 : ℕ → ℕ → ℕ → Bool
is_public_ipv4 n0 n1 n3 = not (
    (n0 == 0)
    || (n0 == 10)
    || (n0 == 127)
    || leb 224 n0
    || ((n0 == 169) && (n1 == 254))
    || ((n0 == 172) && (leb 16 n1 && leb n1 31))
    || ((n0 == 192) && (n1 == 168))
    || (n3 == 0)
    || (n3 == 255))

-- the rest of `checkIPv4` behind its loop
unfoldable pub check_numbers : List ℕ → Bool
unfolding is_public_ipv4
check_numbers (n0 ∷ n1 ∷ n2 ∷ n3 ∷ []) = is_public_ipv4 n0 n1 n3
check_numbers _ = false

module _ ⦃vm : Vm⦄ where
  -- the loop of `checkIPv4`; none where a fragment is refused
  unfoldable pub read_numbers : List Bytes → Exec (Option (List ℕ))
  read_numbers [] = pure (some [])
  read_numbers ([] ∷ fragments) = pure none
  read_numbers ((c ∷ cs) ∷ fragments) = do
    parsed ← or_fault (vm.atoi (c ∷ cs) 10)
    number ← require_byte parsed
    if has_leading_zero number (c ∷ cs) then pure none else (do
      found ← read_numbers fragments
      elim found [ none ↦ pure none | some numbers ↦ pure (some (number ∷ numbers)) ])

  unfoldable pub check_ipv4 : Bytes → Exec Bool
  unfolding read_numbers check_numbers
  check_ipv4 data_text =
      let fragments = vm.string_split data_text b'.' in
      if ltb (length data_text) 7 || ltb 15 (length data_text)
      then pure false
      else if not (length fragments == 4)
      then pure false
      else (do
        found ← read_numbers fragments
        elim found [ none ↦ pure false | some numbers ↦ pure (check_numbers numbers) ])

-- The state of the loop of `checkIPv6`.
pub record Groups : Type 0 where
  pub has_empty : Bool
  pub nums : List ℤ

abbrev pub no_groups : Groups
no_groups = record {
  has_empty = false;
  nums = pos 0 ∷ pos 0 ∷ pos 0 ∷ pos 0 ∷ pos 0 ∷ pos 0 ∷ pos 0 ∷ pos 0 ∷ [];
}

-- `nums[i] = n`, none where the index is out of range
unfoldable pub assign : ℕ → ℤ → List ℤ → Option (List ℤ)
assign i n [] = none
assign zero n (x ∷ xs) = some (n ∷ xs)
assign (suc i) n (x ∷ xs) = elim (assign i n xs) [ none ↦ none | some ys ↦ some (x ∷ ys) ]

-- `for j := i; j < endIndex; j++ { nums[j] = 0 }`, with the number of its rounds
unfoldable pub clear : ℕ → ℕ → List ℤ → Option (List ℤ)
unfolding assign
clear zero i nums = some nums
clear (suc rounds) i nums = elim (assign i (pos 0) nums) [
  | none ↦ none
  | some cleared ↦ clear rounds (suc i) cleared
]

-- `len(fragments[i]) != 0`
abbrev pub is_filled : List Bytes → ℕ → Bool
is_filled fragments i = elim (get_elem? fragments i) [ none ↦ false | some f ↦ ltb 0 (length f) ]

-- the end of `checkIPv6`
unfoldable pub is_global_unicast : List ℤ → Bool
is_global_unicast (f0 ∷ f1 ∷ _) =
    if ltb_ℤ f0 (pos 0x2000)
      || eqb_ℤ f0 (pos 0x2002)
      || eqb_ℤ f0 (pos 0x3ffe)
      || ltb_ℤ (pos 0x3fff) f0
    then false
    else if eqb_ℤ f0 (pos 0x2001)
    then not (ltb_ℤ f1 (pos 0x200) || eqb_ℤ f1 (pos 0xdb8))
    else true
is_global_unicast _ = false

module _ ⦃vm : Vm⦄ where
  -- an empty fragment at an index, of a number of fragments
  unfoldable pub empty_group : List Bytes → ℕ → Groups → Exec (Option Groups)
  unfolding assign clear
  empty_group fragments i g =
      if i == 0
      then (if is_filled fragments 1
          then pure none
          else (or_fault (assign i (pos 0) g.nums) >>= λ ns. pure (some (record g { nums = ns }))))
      else if i == length fragments - 1
      then (if is_filled fragments (i - 1)
          then pure none
          else (or_fault (assign 7 (pos 0) g.nums) >>= λ ns. pure (some (record g { nums = ns }))))
      else if g.has_empty
      then pure none
      else (or_fault (clear (9 - length fragments) i g.nums) >>= λ ns.
          pure (some (record { has_empty = true; nums = ns })))

  -- a fragment of hexadecimal digits
  unfoldable pub digit_group : List Bytes → ℕ → Bytes → Groups → Exec (Option Groups)
  unfolding assign
  digit_group fragments i f g = if ltb 4 (length f) then pure none else (do
    n ← or_fault (vm.atoi f 16)
    require (not (ltb_ℤ (pos 65535) n)) "fragment overflows uint16"
    let idx = if g.has_empty then i + 8 - length fragments else i
    ns ← or_fault (assign idx n g.nums)
    pure (some (record g { nums = ns })))

  -- the loop of `checkIPv6`; none where a fragment is refused
  unfoldable pub read_groups : List Bytes → ℕ → List Bytes → Groups → Exec (Option Groups)
  unfolding empty_group digit_group
  read_groups fragments i [] g = pure (some g)
  read_groups fragments i (f ∷ rest) g = do
    step ← if length f == 0 then empty_group fragments i g else digit_group fragments i f g
    elim step [ none ↦ pure none | some next ↦ read_groups fragments (suc i) rest next ]

  unfoldable pub check_ipv6 : Bytes → Exec Bool
  unfolding read_groups is_global_unicast
  check_ipv6 data_text =
      let fragments = vm.string_split data_text b':' in
      if ltb (length data_text) 2 || ltb 39 (length data_text)
      then pure false
      else if ltb (length fragments) 3 || ltb 8 (length fragments)
      then pure false
      else (do
        found ← read_groups fragments 0 fragments no_groups
        elim found [
          | none ↦ pure false
          | some g ↦
              if ltb (length fragments) 8 && not g.has_empty
              then pure false
              else pure (is_global_unicast g.nums)
        ])

-- ===== src/Prelude/Bytes.antt =====
-- Byte arrays as lists of numbers: the comparison of `common.BytesEqual`, prefixes and slices.
use Prim.Native.Char.{code}
use Prim.Native.String.{String}
use frostfs_contract.Prelude.{
  ℕ, ◌+◌, leb, take, drop, Option, none, some, ◌≡◌, refl, ◌≢◌, ◌↔◌, ap, Bool, true, false, List, [],
  ◌∷◌, ◌++◌, arith, ◌==◌, if◌then◌else◌, Bool-cases, inl, inr, length, length-append, drop-append,
  take-append,
}

abbrev pub Bytes : Type 0
Bytes = List ℕ

-- The bytes of a text of ASCII characters.
abbrev pub codes : String → Bytes
codes String.[] = []
codes (String.◌∷◌ c s) = code c ∷ codes s

abbrev pub bytes_equal : Bytes → Bytes → Bool
bytes_equal [] [] = true
bytes_equal [] (b ∷ bs) = false
bytes_equal (a ∷ xs) [] = false
bytes_equal (a ∷ xs) (b ∷ bs) = if a == b then bytes_equal xs bs else false

abbrev pub is_prefix : Bytes → Bytes → Bool
is_prefix [] bs = true
is_prefix (a ∷ xs) [] = false
is_prefix (a ∷ xs) (b ∷ bs) = if a == b then is_prefix xs bs else false

pub bytes_equal_refl : (a : Bytes) → bytes_equal a a ≡ true
bytes_equal_refl [] = refl
bytes_equal_refl (x ∷ a) = ground (arith, bytes_equal_refl a)

pub bytes_equal_sound : (a b : Bytes) → bytes_equal a b ≡ true → a ≡ b
bytes_equal_sound [] [] h = refl
bytes_equal_sound [] (y ∷ b) h = cc
bytes_equal_sound (x ∷ a) [] h = cc
bytes_equal_sound (x ∷ a) (y ∷ b) h = ground (arith, bytes_equal_sound a b)

pub bytes_equal_iff : (a b : Bytes) → (bytes_equal a b ≡ true) ↔ (a ≡ b)
bytes_equal_iff a b = (bytes_equal_sound a b, λ e. rw e (bytes_equal_refl b))

-- Keys of different lengths are different keys.
pub bytes_equal-length : (a b : Bytes) → length a ≢ length b → bytes_equal a b ≡ false
bytes_equal-length a b h = elim (Bool-cases (bytes_equal a b)) [
  | inl e ↦ absurd (h (ap length (bytes_equal_sound a b e)))
  | inr e ↦ e
]

-- Two keys under one prefix are equal exactly when their rests are.
pub bytes_equal-append : (p a b : Bytes) → bytes_equal (p ++ a) (p ++ b) ≡ bytes_equal a b
bytes_equal-append [] a b = refl
bytes_equal-append (x ∷ p) a b = ground (arith, bytes_equal-append p a b)

pub is_prefix-append : (p a : Bytes) → is_prefix p (p ++ a) ≡ true
is_prefix-append [] a = refl
is_prefix-append (x ∷ p) a = ground (arith, is_prefix-append p a)

-- `b[from : from+len]`, which faults out of range.
abbrev pub slice : Bytes → ℕ → ℕ → Option Bytes
slice b from len = if leb (from + len) (length b) then some (take len (drop from b)) else none

-- Texts joined by a character.
abbrev pub join : ℕ → List Bytes → Bytes
join c [] = []
join c (part ∷ []) = part
join c (part ∷ next ∷ parts) = part ++ c ∷ join c (next ∷ parts)

-- A character does not stand in a text.
abbrev pub Free : ℕ → Bytes → Type 0
Free c [] = Unit
Free c (b ∷ bs) = (b ≢ c) × Free c bs

abbrev pub AllFree : ℕ → List Bytes → Type 0
AllFree c [] = Unit
AllFree c (part ∷ parts) = Free c part × AllFree c parts

-- The part of a text between two others.
pub slice-append :
    (a b c : Bytes) (n m : ℕ) → n ≡ length a → m ≡ length b → slice (a ++ (b ++ c)) n m ≡ some b
slice-append a b c n m e f =
    let fits : leb (n + m) (length (a ++ (b ++ c))) ≡ true =
      ground (arith, length-append a (b ++ c), length-append b c) in
    let part : take m (drop n (a ++ (b ++ c))) ≡ b =
      rw (e, f, drop-append a (b ++ c)) (take-append b c) in
    rw (fits, part) refl

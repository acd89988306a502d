-- ===== src/Prelude/Int.antt =====
-- The integers of the contracts' virtual machine, over the native numbers; the machine's limit of
-- 256 bits is not modelled.
use frostfs_contract.Prelude.{
  ℕ, zero, suc, ◌+◌, ◌-◌, ◌*◌, ◌/◌, ◌%◌, ◌≤◌, ◌≡◌, Bool, Option, none, some, arith, ltb, leb,
  if◌then◌else◌,
}

-- `negsuc n` is -(n + 1).
pub data ℤ : Type 0 where
  pos : ℕ → ℤ
  negsuc : ℕ → ℤ

abbrev pub pos_part : ℤ → ℕ
pos_part (pos n) = n
pos_part (negsuc _) = 0

abbrev pub neg_part : ℤ → ℕ
neg_part (pos _) = 0
neg_part (negsuc n) = suc n

abbrev pub sub_ℕ : ℕ → ℕ → ℤ
sub_ℕ a b = if leb b a then pos (a - b) else negsuc (b - a - 1)

infixl 65 ◌+ℤ◌ ◌-ℤ◌
infix 50 ◌≤ℤ◌ ◌<ℤ◌
unfoldable pub ◌+ℤ◌ : ℤ → ℤ → ℤ
a +ℤ b = sub_ℕ (pos_part a + pos_part b) (neg_part a + neg_part b)

unfoldable pub ◌-ℤ◌ : ℤ → ℤ → ℤ
a -ℤ b = sub_ℕ (pos_part a + neg_part b) (neg_part a + pos_part b)

abbrev pub ◌≤ℤ◌ : ℤ → ℤ → Type 0
a ≤ℤ b = pos_part a + neg_part b ≤ pos_part b + neg_part a

abbrev pub ◌<ℤ◌ : ℤ → ℤ → Type 0
a <ℤ b = suc (pos_part a + neg_part b) ≤ pos_part b + neg_part a

abbrev pub ltb_ℤ : ℤ → ℤ → Bool
ltb_ℤ a b = ltb (pos_part a + neg_part b) (pos_part b + neg_part a)

abbrev pub leb_ℤ : ℤ → ℤ → Bool
leb_ℤ a b = leb (pos_part a + neg_part b) (pos_part b + neg_part a)

-- Equality of integers as the two orders decide it.
abbrev pub eqb_ℤ : ℤ → ℤ → Bool
eqb_ℤ a b = if leb_ℤ a b then leb_ℤ b a else leb_ℤ a b

-- With these the operations can stay shut.
pub +ℤ_parts :
    (a b : ℤ)
    → pos_part (a +ℤ b) + neg_part a + neg_part b ≡ neg_part (a +ℤ b) + pos_part a + pos_part b
unfolding ◌+ℤ◌
+ℤ_parts a b = ground arith

pub -ℤ_parts :
    (a b : ℤ)
    → pos_part (a -ℤ b) + neg_part a + pos_part b ≡ neg_part (a -ℤ b) + pos_part a + neg_part b
unfolding ◌-ℤ◌
-ℤ_parts a b = ground arith

pub eq_of_parts : (a b : ℤ) → pos_part a + neg_part b ≡ pos_part b + neg_part a → a ≡ b
eq_of_parts a b h = ground arith

pub ruleset int_laws = (arith, +ℤ_parts, -ℤ_parts, eq_of_parts)

-- `a % b` of the source: the sign is that of `a`, and a division by zero faults.
abbrev pub mod_ℤ : ℤ → ℤ → Option ℤ
mod_ℤ a (pos zero) = none
mod_ℤ (pos a) (pos (suc b)) = some (pos (a % suc b))
mod_ℤ (negsuc a) (pos (suc b)) = some (sub_ℕ 0 (suc a % suc b))
mod_ℤ (pos a) (negsuc b) = some (pos (a % suc b))
mod_ℤ (negsuc a) (negsuc b) = some (sub_ℕ 0 (suc a % suc b))

-- `a * n` and `a / n`, which rounds to zero, for a count `n`; a division by zero faults.
abbrev pub scale_ℤ : ℤ → ℕ → ℤ
scale_ℤ (pos a) n = pos (a * n)
scale_ℤ (negsuc a) n = sub_ℕ 0 (suc a * n)

abbrev pub div_ℤ : ℤ → ℕ → Option ℤ
div_ℤ a zero = none
div_ℤ (pos a) (suc n) = some (pos (a / suc n))
div_ℤ (negsuc a) (suc n) = some (sub_ℕ 0 (suc a / suc n))

-- `byte(a)`
abbrev pub to_byte : ℤ → ℕ
to_byte (pos a) = a % 256
to_byte (negsuc a) = 255 - a % 256

-- The rounds of a loop `for k := a; k < b; k++`.
abbrev pub rounds : ℤ → ℤ → ℕ
rounds a b = (pos_part b + neg_part a) - (pos_part a + neg_part b)

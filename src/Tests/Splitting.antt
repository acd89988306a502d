-- ===== src/Tests/Splitting.antt =====
-- The parts of a text between a character, for the concrete machine of the tests.
use frostfs_contract.Prelude.{
  ℕ, ◌≡◌, refl, ap, sym, ◌∙◌, Bool-cases, inl, inr, List, [], ◌∷◌, ◌++◌, ◌==◌, arith, if◌then◌else◌,
}
use mathlib.Core.List.{append-nil}
use frostfs_contract.Prelude.Bytes.{Bytes, join, Free, AllFree}

-- a character before a text, whose parts are given
abbrev pub extend : ℕ → ℕ → List Bytes → List Bytes
extend c b [] = [] ∷ []
extend c b (part ∷ parts) = if b == c then [] ∷ part ∷ parts else (b ∷ part) ∷ parts

abbrev pub split_at : ℕ → Bytes → List Bytes
split_at c [] = [] ∷ []
split_at c (b ∷ bs) = extend c b (split_at c bs)

abbrev pub non_empty : List Bytes → List Bytes
non_empty [] = []
non_empty ([] ∷ parts) = non_empty parts
non_empty ((b ∷ part) ∷ parts) = (b ∷ part) ∷ non_empty parts

join-extend :
    (c b : ℕ) (part : Bytes) (parts : List Bytes)
    → join c (extend c b (part ∷ parts)) ≡ b ∷ join c (part ∷ parts)
join-extend c b part [] = ground arith
join-extend c b part (next ∷ parts) = ground arith

extend-cons :
    (c b : ℕ) (parts : List Bytes)
    → (part : Bytes) × (rest : List Bytes) × (extend c b parts ≡ part ∷ rest)
extend-cons c b [] = ([], [], refl)
extend-cons c b (part ∷ parts) = elim (Bool-cases (b == c)) [
  | inl e ↦ ([], part ∷ parts, rw e refl)
  | inr e ↦ (b ∷ part, parts, rw e refl)
]

split_at-cons :
    (c : ℕ) (bs : Bytes) → (part : Bytes) × (rest : List Bytes) × (split_at c bs ≡ part ∷ rest)
split_at-cons c [] = ([], [], refl)
split_at-cons c (b ∷ bs) = extend-cons c b (split_at c bs)

pub join-split_at : (bs : Bytes) (c : ℕ) → join c (split_at c bs) ≡ bs
join-split_at [] c = refl
join-split_at (b ∷ bs) c =
    let (part, rest, e) = split_at-cons c bs in
    rw e (join-extend c b part rest ∙ ap (λ t. b ∷ t) (ap (join c) (sym e) ∙ join-split_at bs c))

-- a text without the character in front of parts
split_at-append :
    (c : ℕ) (part bs : Bytes) (next : Bytes) (rest : List Bytes)
    → Free c part
    → split_at c bs ≡ next ∷ rest
    → split_at c (part ++ bs) ≡ (part ++ next) ∷ rest
split_at-append c [] bs next rest free e = e
split_at-append c (b ∷ part) bs next rest free e =
    ground (arith, split_at-append c part bs next rest free.1 e)

-- the end of a text
split_at-end : (c : ℕ) (part : Bytes) → Free c part → split_at c part ≡ part ∷ []
split_at-end c [] free = refl
split_at-end c (b ∷ part) free = ground (arith, split_at-end c part free.1)

-- the character in front of a text
split_at-here :
    (c : ℕ) (bs part : Bytes) (parts : List Bytes)
    → split_at c bs ≡ part ∷ parts
    → split_at c (c ∷ bs) ≡ [] ∷ part ∷ parts
split_at-here c bs part parts e = ground (arith, e)

pub split_at-join :
    (part : Bytes) (parts : List Bytes) (c : ℕ)
    → AllFree c (part ∷ parts)
    → split_at c (join c (part ∷ parts)) ≡ part ∷ parts
split_at-join part [] c free = split_at-end c part free.0
split_at-join part (next ∷ parts) c free =
    split_at-append c part (c ∷ join c (next ∷ parts)) [] (next ∷ parts) free.0
      (split_at-here c (join c (next ∷ parts)) next parts (split_at-join next parts c free.1))
    ∙ ap (λ t. t ∷ next ∷ parts) (append-nil part)

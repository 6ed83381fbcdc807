-- ===== src/Packets/Words.antt =====
-- 32-bit words as four bytes, the low one first.
use deca_fs.Prelude.{
  ℕ, zero, suc, ◌+◌, ◌-◌, ◌*◌, ◌/◌, ◌%◌, ◌^◌, ◌<◌, ◌≡◌, List, [], ◌∷◌, Option, none, some, arith,
}
use deca_fs.Prelude.Int.{ℤ, pos, negsuc, to_int}

-- A word in front of what follows it.
abbrev pub word : ℕ → List ℕ → List ℕ
word w rest = w % 256 ∷ w / 256 % 256 ∷ w / 65536 % 256 ∷ w / 16777216 % 256 ∷ rest

-- The word that four bytes make.
unfoldable pub value : ℕ → ℕ → ℕ → ℕ → ℕ
value a b c d = a + 256 * b + 65536 * c + 16777216 * d

-- buf + n
abbrev pub skip : ℕ → List ℕ → List ℕ
skip zero bs = bs
skip (suc n) [] = []
skip (suc n) (b ∷ bs) = skip n bs

-- ((uint32_t *) buf)[i]
abbrev pub first_word : List ℕ → Option ℕ
first_word (a ∷ b ∷ c ∷ d ∷ bs) = some (value a b c d)
first_word _ = none

abbrev pub word_at : ℕ → List ℕ → Option ℕ
word_at zero bs = first_word bs
word_at (suc i) bs = word_at i (skip 4 bs)

-- (uint32_t) of an int32_t
abbrev pub to_word : ℤ → ℕ
to_word (pos n) = n % 2 ^ 32
to_word (negsuc n) = 2 ^ 32 - 1 - n % 2 ^ 32

pub value-bytes :
    (w : ℕ)
    → w < 2 ^ 32
    → value (w % 256) (w / 256 % 256) (w / 65536 % 256) (w / 16777216 % 256) ≡ w
unfolding value
value-bytes w h = omega arith

-- The values of an int32_t.
abbrev pub IsInt : ℤ → Type 0
IsInt (pos n) = n < 2 ^ 31
IsInt (negsuc n) = n < 2 ^ 31

pub to_int-to_word : (z : ℤ) → IsInt z → to_int (to_word z) ≡ z
to_int-to_word (pos n) h = ground arith
to_int-to_word (negsuc n) h = ground arith

pub to_word_small : (z : ℤ) → to_word z < 2 ^ 32
to_word_small (pos n) = omega arith
to_word_small (negsuc n) = omega arith

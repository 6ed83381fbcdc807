-- ===== src/Prelude/Int.antt =====
-- The C types `int` and `ssize_t`: integers over the native numbers, under the library's names, and
-- the conversion from a 32-bit word.
use Prim.Native.Nat.{ℕ, ◌+◌, ◌%◌, ◌-◌, ◌^◌, ◌<◌}
use mathlib.Core.Path.{◌≡◌}
use mathlib.Core.Bool.{Bool, true, false}
use native.Mathlib.Omega.{arith}
use deca_fs.Prelude.Tests.{ltb, if◌then◌else◌}

-- `negsuc n` is -(n + 1).
pub data ℤ : Type 0 where
  pos : ℕ → ℤ
  negsuc : ℕ → ℤ

-- The test `x < 0`.
abbrev pub is_neg : ℤ → Bool
is_neg (pos n) = false
is_neg (negsuc n) = true

abbrev pub word_mod : ℕ
word_mod = 2 ^ 32

-- (int) of a uint32_t.
abbrev pub to_int : ℕ → ℤ
to_int w = if ltb w (2 ^ 31) then pos w else negsuc (2 ^ 32 - w - 1)

-- (int) a < (int) b, of two words
abbrev pub lt_int : ℕ → ℕ → Bool
lt_int a b = ltb ((a + 2 ^ 31) % 2 ^ 32) ((b + 2 ^ 31) % 2 ^ 32)

pub to_int-pos : (w : ℕ) → w < 2 ^ 31 → to_int w ≡ pos w
to_int-pos w h = ground arith

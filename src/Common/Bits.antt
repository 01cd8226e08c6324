-- ===== src/Common/Bits.antt =====
-- Checks over every byte, every flag, by evaluation; and C's widths.
use Prim.Native.Nat.{ℕ, zero, suc, ◌+◌, ◌%◌, ◌^◌, ◌<◌}
use mathlib.Core.Path.{◌≡◌}
use mathlib.Core.Bool.{Bool, true, ◌&&◌}
use native.Mathlib.Omega.{arith}
use native.Mathlib.Decide.{ℕ_discrete}

-- `uint8_t`, `uint16_t`, `unsigned int` and `size_t` keep the low bits.
abbrev pub u8 : ℕ → ℕ
u8 x = x % 2 ^ 8

abbrev pub u16 : ℕ → ℕ
u16 x = x % 2 ^ 16

abbrev pub u32 : ℕ → ℕ
u32 x = x % 2 ^ 32

abbrev pub add_size : ℕ → ℕ → ℕ
add_size a b = (a + b) % 2 ^ 64

-- A test at every number under a bound, the low ones first.
unfoldable pub passes_below : ℕ → (ℕ → Bool) → Bool
passes_below zero test = true
passes_below (suc bound) test = passes_below bound test && test bound

pub passes_below-at :
    (bound : ℕ) (test : ℕ → Bool)
    → passes_below bound test ≡ true
    → (i : ℕ) → i < bound
    → test i ≡ true
unfolding passes_below
passes_below-at (suc bound) test all i below = elim (ℕ_discrete i bound) [
  | yes top ↦ rw top (ground arith)
  | no under ↦ passes_below-at bound test (ground arith) i (omega arith)
]
passes_below-at zero test all i below = absurd (omega arith)

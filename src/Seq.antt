-- ===== src/Seq.antt =====
-- Limelight-internal.h: the masks U16, U24 and U32 and the serial-number comparisons isBefore16,
-- isBefore24 and isBefore32. The operands are at most 32 bits wide, so the C difference is taken
-- modulo 2^32 before it is masked.
pub mod Order
pub mod Offset
mod Tests
use moonlight_common_c.Prelude.{ℕ, ◌+◌, ◌-◌, ◌%◌, ◌^◌, Bool, ltb}

abbrev pub u16 : ℕ → ℕ
u16 x = x % 2 ^ 16

abbrev pub u24 : ℕ → ℕ
u24 x = x % 2 ^ 24

abbrev pub u32 : ℕ → ℕ
u32 x = x % 2 ^ 32

-- `x - y` on unsigned ints. The second operand is reduced first, so that the sum never falls
-- below zero.
abbrev pub sub32 : ℕ → ℕ → ℕ
sub32 x y = (x + 2 ^ 32 - y % 2 ^ 32) % 2 ^ 32

unfoldable pub is_before16 : ℕ → ℕ → Bool
is_before16 x y = ltb 0x7fff (u16 (sub32 x y))

unfoldable pub is_before24 : ℕ → ℕ → Bool
is_before24 x y = ltb 0x7f_ffff (u24 (sub32 x y))

unfoldable pub is_before32 : ℕ → ℕ → Bool
is_before32 x y = ltb 0x7fff_ffff (u32 (sub32 x y))

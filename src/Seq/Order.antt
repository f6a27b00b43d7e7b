-- ===== src/Seq/Order.antt =====
-- The comparison macros of Limelight-internal.h as an order on serial numbers: what they decide
-- about two numbers at a given distance, in a window, and at the antipodal distance.
use moonlight_common_c.Prelude.{ℕ, ◌+◌, ◌^◌, ◌≤◌, ◌<◌, ◌≡◌, ◌≢◌, ◌↔◌, ◌⊎◌, true, false, arith, ltb}
use moonlight_common_c.Seq.{u16, is_before16, is_before24, is_before32}

-- For 16-bit numbers isBefore16(x, y) holds exactly when y lies 1 to 32768 steps after x, counted
-- modulo 65536.
pub is_before16_iff :
    (x y : ℕ)
    → x < 2 ^ 16
    → y < 2 ^ 16
    → (is_before16 x y ≡ true) ↔ ((x < y) × (y ≤ x + 0x8000) ⊎ (y < x) × (y + 0x8000 ≤ x))
unfolding is_before16
is_before16_iff x y hx hy = (λ e. ground arith, λ h. ground arith)

pub is_before24_iff :
    (x y : ℕ)
    → x < 2 ^ 24
    → y < 2 ^ 24
    → (is_before24 x y ≡ true) ↔ ((x < y) × (y ≤ x + 2 ^ 23) ⊎ (y < x) × (y + 2 ^ 23 ≤ x))
unfolding is_before24
is_before24_iff x y hx hy = (λ e. ground arith, λ h. ground arith)

pub is_before32_iff :
    (x y : ℕ)
    → x < 2 ^ 32
    → y < 2 ^ 32
    → (is_before32 x y ≡ true) ↔ ((x < y) × (y ≤ x + 2 ^ 31) ⊎ (y < x) × (y + 2 ^ 31 ≤ x))
unfolding is_before32
is_before32_iff x y hx hy = (λ e. ground arith, λ h. ground arith)

-- In a window of at most 32768 consecutive sequence numbers, from any base and across the wrap,
-- isBefore16 is the order of the offsets.
pub is_before16_window :
    (base i j : ℕ)
    → i < 0x8000
    → j < 0x8000
    → is_before16 (u16 (base + i)) (u16 (base + j)) ≡ ltb i j
unfolding is_before16
is_before16_window base i j hi hj = ground arith

-- Only the low 16 bits of the operands count.
pub is_before16-u16 :
    (x y : ℕ) → x < 2 ^ 32 → y < 2 ^ 32 → is_before16 x y ≡ is_before16 (u16 x) (u16 y)
unfolding is_before16
is_before16-u16 x y hx hy = ground arith

-- Two different 16-bit numbers are ordered one way or the other, and both ways exactly when they
-- are 32768 apart.
pub is_before16_total :
    (x y : ℕ)
    → x < 2 ^ 16
    → y < 2 ^ 16
    → ((x ≢ y) ↔ ((is_before16 x y ≡ true) ⊎ (is_before16 y x ≡ true)))
      × (((is_before16 x y ≡ true) × (is_before16 y x ≡ true)) ↔ (y ≡ u16 (x + 0x8000)))
unfolding is_before16
is_before16_total x y hx hy =
    ((λ ne. ground arith, λ e. ground arith), (λ b. ground arith, λ e. ground arith))

pub is_before16_irrefl : (x : ℕ) → x < 2 ^ 32 → is_before16 x x ≡ false
unfolding is_before16
is_before16_irrefl x h = ground arith

-- ===== src/Seq/Offset.antt =====
-- Distances between 16-bit sequence numbers of Limelight-internal.h, counted from a fixed number, and
-- what isBefore16 says of them.
use moonlight_common_c.Prelude.{ℕ, ◌+◌, ◌^◌, ◌<◌, ◌≡◌, false, arith, ltb}
use moonlight_common_c.Seq.{u16, sub32, is_before16}

-- How far `s` lies behind `lowest`, going round at 65536.
abbrev pub offset : ℕ → ℕ → ℕ
offset lowest s = u16 (sub32 s lowest)

pub offset_inj :
    (lowest s t : ℕ)
    → lowest < 2 ^ 16
    → s < 2 ^ 16
    → t < 2 ^ 16
    → offset lowest s ≡ offset lowest t
    → s ≡ t
offset_inj lowest s t hl hs ht e = omega arith

pub offset-u16 :
    (lowest i : ℕ) → lowest < 2 ^ 16 → i < 2 ^ 16 → offset lowest (u16 (lowest + i)) ≡ i
offset-u16 lowest i hl hi = omega arith

pub u16-offset : (lowest s : ℕ) → lowest < 2 ^ 16 → s < 2 ^ 16 → u16 (lowest + offset lowest s) ≡ s
u16-offset lowest s hl hs = omega arith

-- A number in the window comes before the one at offset `n` exactly if its own offset is less.
pub is_before16-offset :
    (lowest s n : ℕ)
    → lowest < 2 ^ 16
    → s < 2 ^ 16
    → offset lowest s < 0x8000
    → n < 0x8000
    → is_before16 s (u16 (lowest + n)) ≡ ltb (offset lowest s) n
unfolding is_before16
is_before16-offset lowest s n hl hs h hn = ground arith

pub next_offset :
    (lowest s : ℕ)
    → lowest < 2 ^ 16
    → s < 2 ^ 16
    → offset lowest s < 0x8000
    → offset lowest (u16 (s + 1)) ≡ offset lowest s + 1
next_offset lowest s hl hs h = omega arith

-- A number that does not come before another one lies in the window behind it.
pub offset_near :
    (lowest s : ℕ)
    → lowest < 2 ^ 16
    → s < 2 ^ 16
    → is_before16 s lowest ≡ false
    → offset lowest s < 0x8000
unfolding is_before16
offset_near lowest s hl hs h = ground arith

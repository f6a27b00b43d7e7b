-- ===== src/RtpVideoQueue/Window.antt =====
-- Sequence numbers in the window of an FEC block: what the range tests of RtpVideoQueue.c say of their
-- offsets from the block's lowest number.
use moonlight_common_c.Prelude.{ℕ, ◌+◌, ◌^◌, ◌≤◌, ◌<◌, ◌≡◌, false, arith}
use moonlight_common_c.Seq.{u16, is_before16}
use moonlight_common_c.Seq.Offset.{offset}

-- No block has more packets than this: 1023 data packets and 255 percent of parity.
abbrev pub max_packets : ℕ
max_packets = 4000

-- A number that the range tests let through lies in the window of the block.
pub offset_in_window :
    (lowest next highest total s : ℕ)
    → lowest < 2 ^ 16
    → next < 2 ^ 16
    → s < 2 ^ 16
    → total ≤ max_packets
    → offset lowest next ≤ total
    → highest ≡ u16 (lowest + total + 0xffff)
    → is_before16 highest s ≡ false
    → is_before16 s next ≡ false
    → offset lowest s < total
unfolding is_before16
offset_in_window lowest next highest total s hl hn hs ht hk eh above below = ground arith

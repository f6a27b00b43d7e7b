-- ===== src/RtpVideoQueue/Begun.antt =====
-- The block that RtpvAddPacket sets up for the first packet of a block, and what it gives up before.
use moonlight_common_c.Prelude.{
  is_empty, ℕ, ◌+◌, ◌*◌, ◌/◌, ◌^◌, ◌≤◌, ◌<◌, ◌≡◌, refl, sym, subst, Bool, true, false, not, ◌&&◌,
  [], arith, ◌==◌, if◌then◌else◌, Bool-cases, inl, inr,
}
use native.Mathlib.Nat.{mul-le-mul}
use moonlight_common_c.Seq.{u16, u32, sub32, is_before16}
use moonlight_common_c.RtpVideoQueue.State.{Packet, Queue, emit, report_status}
use moonlight_common_c.RtpVideoQueue.Begin.{
  block_number, expected_block, fec_index, fec_data_packets, fec_percentage_of, notify_lost,
  abandon_frame, notify_gap, reset_block, begin_block,
}
use moonlight_common_c.RtpVideoQueue.Window.{max_packets}
use moonlight_common_c.RtpVideoQueue.Inv.{Block, window}
use moonlight_common_c.RtpVideoQueue.Reconstruct.{Open}

-- A block without pending packets, as begin_block sets it up.
empty_Block :
    (low d parity : ℕ)
    → low < 2 ^ 16
    → d + parity ≤ max_packets
    → Block (record {
      pending = [];
      lowest = low;
      data_packets = d;
      parity_packets = parity;
      first_parity = u16 (low + d);
      highest = u16 (sub32 (u16 (low + d) + parity) 1);
      next_contiguous = low;
      use_fast_path = true;
    })
empty_Block low d parity hl small = record {
  low = hl;
  small = small;
  parity_from = refl;
  high = omega arith;
  next = hl;
  next_in = omega arith;
  entries = tt;
  distinct = tt;
  fast = λ _. tt;
}

-- The parity packets that a percentage of at most 255 asks for.
parity_bound : (d f : ℕ) → d < 2 ^ 10 → f < 2 ^ 8 → d + (d * f + 99) / 100 ≤ max_packets
parity_bound d f hd hf =
    let most : d * f ≤ 1023 * 255 =
      mul-le-mul {n₂ = 1023} {m₂ = 255} (omega (arith, hd)) (omega (arith, hf)) in
    omega (arith, most)

notify_gap-pending : (q : Queue) (frame : ℕ) → (notify_gap q frame).pending ≡ q.pending
unfolding notify_gap emit
notify_gap-pending q frame = ground arith

reset_block-pending : (q : Queue) (p : Packet) (now : ℕ) → (reset_block q p now).pending ≡ []
unfolding reset_block emit
reset_block-pending q p now = notify_gap-pending _ p.nv.frame_index

reset_block-Open : (q : Queue) (p : Packet) (now : ℕ) → Open (reset_block q p now)
unfolding reset_block emit
reset_block-Open q p now =
    let d = fec_data_packets p.nv in
    let parity = (d * fec_percentage_of p.nv + 99) / 100 in
    let low = u16 (sub32 p.sequence_number (fec_index p.nv)) in
    record {
      block =
          subst (λ es. Block (record (window (reset_block q p now)) { pending = es }))
            (sym (reset_block-pending q p now))
            (empty_Block low d parity (omega arith)
              (parity_bound d (fec_percentage_of p.nv) (omega arith) (omega arith)));
      counted = omega arith;
    }

abandon_frame-pending : (next : ℕ) (q : Queue) → (abandon_frame next q).pending ≡ []
unfolding abandon_frame notify_lost emit
abandon_frame-pending next q = ground arith

-- Beginning a block either sets an empty one up, which the packet is not before, or gives the frame up.
pub record Begun (p : Packet) (r : Queue × Bool) : Type 0 where
  pub ready :
      r.1 ≡ true
      → Open (r.0) × ((r.0).next_contiguous ≡ u16 (sub32 p.sequence_number (fec_index p.nv)))
  pub rejected : r.1 ≡ false → (r.0).pending ≡ []

pub begin_block_lem : (q : Queue) (p : Packet) (now : ℕ) → Begun p (begin_block q p now)
unfolding begin_block reset_block emit
begin_block_lem q p now =
    let open_block = not (is_empty q.pending) in
    let q' = if open_block then report_status q else q in
    elim (Bool-cases
      (open_block && not (q'.last_block == 0) && q'.current_frame == p.nv.frame_index)) [
        | inl lost ↦ rw lost (record {
          ready = λ h. cc (h);
          rejected = λ h. abandon_frame-pending (u32 (q'.current_frame + 1)) q';
        })
        | inr other ↦ elim (Bool-cases (not (block_number p.nv == expected_block q' p.nv))) [
          | inl skipped ↦
              rw (other, skipped)
                (record {
                  ready = λ h. cc (h);
                  rejected =
                      λ h. abandon_frame-pending (u32 (p.nv.frame_index + 1)) (report_status q');
                })
          | inr next ↦
              rw (other, next)
                (record { ready = λ h. (reset_block-Open q' p now, refl); rejected = λ h. cc (h) })
        ]
      ]

-- A packet is never before the lowest number that it gives its block.
pub first_ahead : (s i : ℕ) → s < 2 ^ 16 → i < 2 ^ 10 → is_before16 s (u16 (sub32 s i)) ≡ false
unfolding is_before16
first_ahead s i hs hi = ground arith

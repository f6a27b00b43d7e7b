-- ===== src/RtpVideoQueue/Accept.antt =====
-- RtpvAddPacket keeps the queue valid: between two packets there is either no pending packet, or an
-- open block with all that its invariant says.
use moonlight_common_c.Prelude.{
  is_empty, ℕ, ◌+◌, ◌^◌, ◌≤◌, ◌<◌, ◌≡◌, refl, sym, ap, subst, ◌∙◌, Bool, true, false, not, ◌&&◌,
  List, [], ◌∷◌, ◌++◌, arith, ◌==◌, ltb, if◌then◌else◌, Bool-cases, inl, inr, ◌⊎◌, length,
}
use moonlight_common_c.Seq.{u32, is_before16}
use moonlight_common_c.RtpVideoQueue.{
  fix_legacy, count_missing, count_received, try_finish, enqueue, needs_block, place, add_packet,
}
use moonlight_common_c.RtpVideoQueue.State.{Packet, Entry, Queue}
use moonlight_common_c.RtpVideoQueue.Insert.{
  has_seq, new_entry, note_order, append_entry, queue_packet,
}
use moonlight_common_c.RtpVideoQueue.Recover.{Config, reconstruct_frame}
use moonlight_common_c.RtpVideoQueue.Begin.{fec_index, begin_block}
use moonlight_common_c.RtpVideoQueue.StageOrder.{data_only}
use moonlight_common_c.Seq.Offset.{offset, is_before16-offset}
use moonlight_common_c.RtpVideoQueue.Window.{offset_in_window}
use moonlight_common_c.RtpVideoQueue.Inv.{Block, window, queue_packet-Block}
use moonlight_common_c.RtpVideoQueue.Requeue.{data_only-snoc}
use moonlight_common_c.RtpVideoQueue.Reconstruct.{Open}
use moonlight_common_c.RtpVideoQueue.Finish.{finished, try_finish_lem}
use moonlight_common_c.RtpVideoQueue.Begun.{begin_block_lem, first_ahead}

-- The queue between two packets.
abbrev pub IsValid : Queue → Type 0
IsValid q = (q.pending ≡ []) ⊎ Open q

finished-pending : (q : Queue) (xs : List Entry) → (finished q xs).pending ≡ []
finished-pending q xs = ground arith

try_finish-IsValid : (cfg : Config) (q : Queue) → Open q → IsValid (try_finish cfg q)
try_finish-IsValid cfg q o = elim (try_finish_lem cfg q o) [
  | inl (same, still) ↦ inr (subst Open (sym same) still)
  | inr (xs, order, clean, e) ↦
      inl (ap (λ z. z.pending) e ∙ finished-pending (reconstruct_frame cfg q).0 xs)
]

-- The pending list after an accepted packet.
pub queue_packet-fresh :
    (q : Queue) (p : Packet) (len : ℕ) (parity : Bool)
    → (queue_packet q p len parity false).1 ≡ true
    → ((queue_packet q p len parity false).0.pending ≡ q.pending ++ new_entry p len parity ∷ [])
      × ((queue_packet q p len parity false).0.received_data ≡ q.received_data)
      × ((queue_packet q p len parity false).0.first_parity ≡ q.first_parity)
unfolding queue_packet append_entry note_order
queue_packet-fresh q p len parity h =
    elim (Bool-cases (q.use_fast_path && p.sequence_number == q.next_contiguous)) [
      | inl quick ↦ rw quick (refl, refl, refl)
      | inr slow ↦ elim (Bool-cases (has_seq p.sequence_number q.pending)) [
        | inl old ↦ absurd (ground (arith, slow, old, h))
        | inr new ↦ rw (slow, new) (refl, refl, refl)
      ]
    ]

-- A duplicate leaves the queue as it was.
pub queue_packet-duplicate :
    (q : Queue) (p : Packet) (len : ℕ) (parity : Bool)
    → (queue_packet q p len parity false).1 ≡ false
    → (queue_packet q p len parity false).0 ≡ q
unfolding queue_packet
queue_packet-duplicate q p len parity h =
    elim (Bool-cases (q.use_fast_path && p.sequence_number == q.next_contiguous)) [
      | inl quick ↦ absurd (ground (arith, quick, h))
      | inr slow ↦ elim (Bool-cases (has_seq p.sequence_number q.pending)) [
        | inl old ↦ rw (slow, old) refl
        | inr new ↦ absurd (ground (arith, slow, new, h))
      ]
    ]

-- Counting the packet changes no part of the block.
count_Open :
    (q : Queue) (s : ℕ)
    → Block (window q)
    → u32 (q.received_data + (if is_before16 s q.first_parity then 1 else 0))
      ≤ length (data_only q.pending)
    → q.received_data ≤ length (data_only q.pending)
    → Open (count_received (count_missing q s) s)
unfolding count_received count_missing
count_Open q s b more less = record { block = b; counted = ground arith }

module _ (cfg : Config) (q : Queue) (p : Packet) (len : ℕ) where
  -- A packet that the range test at the beginning let through keeps the queue valid.
  enqueue-IsValid :
      Open q
      → p.sequence_number < 2 ^ 16
      → is_before16 p.sequence_number q.next_contiguous ≡ false
      → IsValid (enqueue cfg q p len).0
  unfolding enqueue
  enqueue-IsValid o hs ahead = elim (Bool-cases (is_before16 q.highest p.sequence_number)) [
    | inl above ↦ rw above (inr o)
    | inr within ↦
        let s = p.sequence_number in
        let b = o.block in
        let inside : offset q.lowest s < q.data_packets + q.parity_packets =
          offset_in_window q.lowest q.next_contiguous q.highest _ s b.low b.next hs b.small
            b.next_in b.high within ahead in
        let side : is_before16 s q.first_parity ≡ ltb (offset q.lowest s) q.data_packets =
          ap (is_before16 s) b.parity_from
          ∙ is_before16-offset q.lowest s q.data_packets b.low hs (omega (arith, b.small))
              (omega (arith, b.small)) in
        let parity = not (is_before16 s q.first_parity) in
        let kept : Block (window (queue_packet q p len parity false).0) =
          subst (λ z. Block (window (queue_packet q p len (not z) false).0)) (sym side)
            (queue_packet-Block q p len false b hs inside).0 in
        elim (Bool-cases (queue_packet q p len parity false).1) [
          | inl fresh ↦
              let (now, count, first) = queue_packet-fresh q p len parity fresh in
              let grown =
                ap (λ es. length (data_only es)) now
                ∙ data_only-snoc q.pending (new_entry p len parity) in
              let r = (queue_packet q p len parity false).0 in
              let test = ap (is_before16 s) first in
              rw (within, fresh)
                (try_finish-IsValid cfg _ (
                  count_Open r s kept (ground (arith, grown, count, test, o.counted))
                    (ground (arith, grown, count, o.counted))))
          | inr old ↦
              rw (within, old)
                (inr (subst Open (sym (queue_packet-duplicate q p len parity old)) o))
        ]
  ]

fix_legacy-number :
    (capable : Bool) (p : Packet) → (fix_legacy capable p).sequence_number ≡ p.sequence_number
unfolding fix_legacy
fix_legacy-number capable p = ground arith

module _ (cfg : Config) (q : Queue) (p : Packet) (len now : ℕ) where
  place-IsValid :
      IsValid q
      → p.sequence_number < 2 ^ 16
      → is_before16 p.sequence_number q.next_contiguous ≡ false
      → IsValid (place cfg q p len now).0
  unfolding place
  place-IsValid valid hs ahead =
      let begun = begin_block_lem q p now in
      let (q', ready) = begin_block q p now in
      elim (Bool-cases (needs_block cfg q p)) [
        | inl new ↦ elim (Bool-cases ready) [
          | inl can ↦
              let (o, from) = begun.ready can in
              let first : is_before16 p.sequence_number q'.next_contiguous ≡ false =
                ap (is_before16 p.sequence_number) from
                ∙ first_ahead p.sequence_number (fec_index p.nv) hs (omega arith) in
              rw (new, can) (enqueue-IsValid cfg q' p len o hs first)
          | inr cannot ↦ rw (new, cannot) (inl (begun.rejected cannot))
        ]
        | inr present ↦ elim valid [
          | inl empty ↦ absurd (cc (present, ap is_empty empty))
          | inr o ↦ rw present (enqueue-IsValid cfg q p len o hs ahead)
        ]
      ]

-- RtpvAddPacket keeps the queue valid, for every packet with a 16-bit sequence number, every length and
-- time, and whatever the Reed-Solomon decoder gives back: afterwards there is no pending packet, or
-- the pending packets are distinct packets of one FEC block, each with an index below the block's
-- number of packets, marked as parity exactly if it stands behind the data packets, and no fewer of
-- them are data packets than the queue counts.
pub add_packet-IsValid :
    (cfg : Config) (q : Queue) (p : Packet) (len now : ℕ)
    → IsValid q
    → p.sequence_number < 2 ^ 16
    → IsValid (add_packet cfg q p len now).0
unfolding add_packet
add_packet-IsValid cfg q p len now valid hs =
    let p' = fix_legacy q.multi_fec_capable p in
    let number = fix_legacy-number q.multi_fec_capable p in
    elim (Bool-cases (is_before16 p'.sequence_number q.next_contiguous)) [
      | inl old ↦ rw old valid
      | inr ahead ↦
          let placed = place-IsValid cfg q p' len now valid (omega (arith, number)) ahead in
          rw ahead (ground (arith, placed))
    ]

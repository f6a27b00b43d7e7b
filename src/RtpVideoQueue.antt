-- ===== src/RtpVideoQueue.antt =====
-- RtpVideoQueue.c and RtpVideoQueue.h: the queue that reorders the packets of video frames,
-- recovers lost ones by forward error correction and hands complete frames to the depacketizer.
pub mod State
pub mod Insert
pub mod Recover
pub mod Stage
pub mod Begin
pub mod Window
pub mod Inv
pub mod StageTotal
pub mod StageOrder
pub mod Complete
pub mod Requeue
pub mod Refill
pub mod Reconstruct
pub mod Finish
pub mod Begun
pub mod Accept
pub mod OneFrame
pub mod FrameKept
pub mod Reach
mod Samples
mod Tests
use moonlight_common_c.Prelude.{
  is_empty, has_bit, ℕ, zero, suc, ◌+◌, ◌-◌, ◌*◌, ◌/◌, ◌%◌, ◌^◌, Bool, true, false, not, ◌&&◌, ◌||◌,
  List, [], ◌∷◌, ltb, ◌==◌, if◌then◌else◌, length,
}
use moonlight_common_c.Seq.{u16, u32, sub32, is_before16}
use State.{NvPacket, Packet, Entry, Queue}
use Insert.{queue_packet}
use Recover.{Config, data_offset, reconstruct_frame}
use Stage.{stage_complete_block, submit_completed_frame}
use Begin.{block_number, begin_block}

-- RtpvGetCurrentFrameNumber
unfoldable pub get_current_frame_number : Queue → ℕ
get_current_frame_number q = q.current_frame

pub data Verdict : Type 0 where
  queued rejected : Verdict

-- sizeof(NV_VIDEO_PACKET)
abbrev pub nv_packet_size : ℕ
nv_packet_size = 16

-- A host that has one FEC block to a frame leaves these fields unset.
unfoldable pub fix_legacy : Bool → Packet → Packet
fix_legacy capable p =
    if capable
    then p
    else record p { nv = record (p.nv) { multi_fec_flags = 0x10; multi_fec_blocks = 0 } }

-- The counts of received and missing packets, once the packet stands in the pending list.
missing_after : Queue → ℕ → ℕ × ℕ
missing_after q s =
    if length q.pending == 1
    then (u32 (q.missing_packets + u16 (sub32 s q.lowest)), s)
    else if is_before16 q.received_highest s
    then (u32 (q.missing_packets + u16 (sub32 s (q.received_highest + 1))), s)
    else (sub32 q.missing_packets 1, q.received_highest)

unfoldable pub count_missing : Queue → ℕ → Queue
unfolding missing_after
count_missing q s =
    let (missing, highest) = missing_after q s in
    record q { missing_packets = missing; received_highest = highest }

unfoldable pub count_received : Queue → ℕ → Queue
count_received q s =
    let is_data = is_before16 s q.first_parity in
    record q {
      received_data = if is_data then u32 (q.received_data + 1) else q.received_data;
      received_parity = if is_data then q.received_parity else u32 (q.received_parity + 1);
    }

-- A complete block is staged; with the last block of its frame the whole frame is submitted.
unfoldable pub finish_block : Queue → Queue
finish_block q =
    let q' = stage_complete_block q in
    if ltb q'.current_block q'.last_block
    then record q' { current_block = q'.current_block + 1 }
    else let r = submit_completed_frame q' in
      record r { current_frame = u32 (r.current_frame + 1); current_block = 0 }

module _ (cfg : Config) where
  unfoldable pub try_finish : Queue → Queue
  unfolding reconstruct_frame
  try_finish q = let (q', ret) = reconstruct_frame cfg q in if ret == 0 then finish_block q' else q'

  -- RtpvAddPacket from the range test on.
  unfoldable pub enqueue : Queue → Packet → ℕ → Queue × Verdict
  unfolding try_finish count_missing count_received
  enqueue q p len =
      if is_before16 q.highest p.sequence_number
      then (q, rejected)
      else let s = p.sequence_number in
        let (q', fresh) = queue_packet q p len (not (is_before16 s q.first_parity)) false in
        if fresh
        then (try_finish (count_received (count_missing q' s) s), queued)
        else (q', rejected)

  -- The block that the packet belongs to is not the open one, or there is none.
  abbrev pub needs_block : Queue → Packet → Bool
  needs_block q p =
      is_empty q.pending
      || not (q.current_frame == p.nv.frame_index)
      || not (q.current_block == block_number p.nv)

  unfoldable pub place : Queue → Packet → ℕ → ℕ → Queue × Verdict
  unfolding begin_block enqueue
  place q p len now =
      let (q', ready) = begin_block q p now in
      if needs_block q p
      then (if ready then enqueue q' p len else (q', rejected))
      else enqueue q p len

  -- RtpvAddPacket. `now` is the time, should the packet begin a block.
  unfoldable pub add_packet : Queue → Packet → ℕ → ℕ → Queue × Verdict
  unfolding place fix_legacy
  add_packet q raw len now =
      let p = fix_legacy q.multi_fec_capable raw in
      if is_before16 p.sequence_number q.next_contiguous
      then (q, rejected)
      else if ltb len (data_offset p.header + nv_packet_size)
      then (q, rejected)
      else if is_before16 p.nv.frame_index q.current_frame
      then (q, rejected)
      else if p.nv.frame_index == q.current_frame && ltb (block_number p.nv) q.current_block
      then (q, rejected)
      else place q p len now

-- ===== src/RtpVideoQueue/Begin.antt =====
-- The part of RtpvAddPacket in which the queue gives up a block that it cannot finish and sets
-- itself up for the block of the packet at hand.
use moonlight_common_c.Prelude.{
  is_empty, ℕ, ◌+◌, ◌*◌, ◌/◌, ◌%◌, ◌^◌, Bool, true, false, not, ◌&&◌, ◌||◌, [], ◌==◌, if◌then◌else◌,
}
use moonlight_common_c.Seq.{u16, u32, sub32}
use moonlight_common_c.RtpVideoQueue.State.{
  NvPacket, Packet, Queue, frame_lost, saw_frame, emit, report_status,
}

-- The bit fields of `fecInfo` and `multiFecBlocks`.
abbrev pub fec_index : NvPacket → ℕ
fec_index nv = nv.fec_info / 2 ^ 12 % 2 ^ 10

abbrev pub fec_data_packets : NvPacket → ℕ
fec_data_packets nv = nv.fec_info / 2 ^ 22 % 2 ^ 10

abbrev pub fec_percentage_of : NvPacket → ℕ
fec_percentage_of nv = nv.fec_info / 2 ^ 4 % 2 ^ 8

abbrev pub block_number : NvPacket → ℕ
block_number nv = nv.multi_fec_blocks / 2 ^ 4 % 2 ^ 2

abbrev pub last_block_number : NvPacket → ℕ
last_block_number nv = nv.multi_fec_blocks / 2 ^ 6 % 2 ^ 2

-- The loss of the current frame is told once.
unfoldable pub notify_lost : Queue → Queue
unfolding emit
notify_lost q =
    if q.reported_lost_frame
    then q
    else record (emit (frame_lost q.current_frame false) q) { reported_lost_frame = true }

-- The frame cannot be completed any more: drop all of it, and go on at `next`.
unfoldable pub abandon_frame : ℕ → Queue → Queue
unfolding notify_lost
abandon_frame next q = record (notify_lost (record q { pending = []; completed = [] })) {
  current_frame = next;
  current_block = 0;
}

abbrev pub expected_block : Queue → NvPacket → ℕ
expected_block q nv = if q.current_frame == nv.frame_index then q.current_block else 0

-- Whole frames between the last one and this one are lost; if the last one was reported by
-- prediction, its loss is not told again.
unfoldable pub notify_gap : Queue → ℕ → Queue
unfolding emit
notify_gap q frame =
    if q.current_frame == frame
    then q
    else if not (u32 (q.current_frame + 1) == frame) || not q.reported_lost_frame
    then emit (frame_lost (sub32 frame 1) false) q
    else q

-- `now` is what PltGetMicroseconds returns.
unfoldable pub reset_block : Queue → Packet → ℕ → Queue
unfolding notify_gap emit
reset_block q p now =
    let data_packets = fec_data_packets p.nv in
    let percentage = fec_percentage_of p.nv in
    let parity_packets = (data_packets * percentage + 99) / 100 in
    let lowest = u16 (sub32 p.sequence_number (fec_index p.nv)) in
    let first_parity = u16 (lowest + data_packets) in
    let completed = if q.current_frame == p.nv.frame_index then q.completed else [] in
    let q' = notify_gap (record q { pending = []; completed = completed }) p.nv.frame_index in
    record (emit (saw_frame p.nv.frame_index) q') {
      current_frame = p.nv.frame_index;
      first_recv_time_us = now;
      lowest = lowest;
      next_contiguous = lowest;
      received_data = 0;
      received_parity = 0;
      received_highest = 0;
      missing_packets = 0;
      use_fast_path = true;
      reported_lost_frame = false;
      data_packets = data_packets;
      fec_percentage = percentage;
      parity_packets = parity_packets;
      first_parity = first_parity;
      highest = u16 (sub32 (first_parity + parity_packets) 1);
      current_block = block_number p.nv;
      last_block = last_block_number p.nv;
      count_video = u32 (q'.count_video + data_packets);
      count_fec = u32 (q'.count_fec + parity_packets);
    }

-- The second result is false if the packet is rejected.
unfoldable pub begin_block : Queue → Packet → ℕ → Queue × Bool
unfolding abandon_frame reset_block
begin_block q p now =
    let open_block = not (is_empty q.pending) in
    let q' = if open_block then report_status q else q in
    if open_block && not (q'.last_block == 0) && q'.current_frame == p.nv.frame_index
    then (abandon_frame (u32 (q'.current_frame + 1)) q', false)
    else if not (block_number p.nv == expected_block q' p.nv)
    then (abandon_frame (u32 (p.nv.frame_index + 1)) (report_status q'), false)
    else (reset_block q' p now, true)

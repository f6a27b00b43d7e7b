-- ===== src/VideoDepacketizer.antt =====
-- VideoDepacketizer.c: the depacketizer, which joins the packets of the video queue to frames for the
-- decoder, and asks the host for help when frames are lost.
pub mod Nal
pub mod State
pub mod Fragment
pub mod Header
pub mod Frame
pub mod Inv
pub mod Kept
pub mod Waiting
pub mod Boundary
pub mod Lost
pub mod Ranges
pub mod Slow
pub mod Middle
pub mod Delivered
pub mod Reach
pub mod Receive
pub mod Told
mod Tests
use moonlight_common_c.Prelude.{
  is_empty, has_bit, ℕ, zero, suc, ◌+◌, ◌-◌, ◌*◌, ◌/◌, ◌%◌, ◌^◌, Bool, true, false, not, ◌&&◌, ◌||◌,
  List, [], ◌∷◌, ltb, leb, ◌==◌, if◌then◌else◌, length, take, byte_at,
}
use moonlight_common_c.Seq.{u24, u32, is_before24, is_before32}
use Nal.{
  VideoFormat, is_annex_b, is_idr_frame_start, is_picture_parameter_set_nal, skip_to_next_nal,
}
use State.{pframe, Depacketizer, drop_frame_state, give_up_frame}
use Fragment.{queue_fragment, process_slow}
use Header.{VideoEnv, note_frame_type, note_lengths, frame_header_size, skip_header, skip_prefix}
use Frame.{finish_frame}

-- A packet of the video queue: NV_VIDEO_PACKET with its fields in the host's byte order, the bytes
-- behind it, and what the queue says of the packet.
pub record VideoPacket : Type 0 where
  pub stream_packet_index : ℕ
  pub frame_index : ℕ
  pub flags : ℕ
  pub extra_flags : ℕ
  pub multi_fec_blocks : ℕ
  pub payload : List ℕ
  pub receive_time_us : ℕ
  pub presentation_time_us : ℕ
  pub rtp_timestamp : ℕ

-- isFirstPacket. The lowest bit of the flags does not count.
unfoldable pub is_first_packet : ℕ → ℕ → Bool
is_first_packet flags block = (flags / 2 * 2 == 6 || flags / 2 * 2 == 4) && block == 0

abbrev pub packet_index : VideoPacket → ℕ
packet_index p = p.stream_packet_index / 256 % 2 ^ 24

abbrev pub current_block : VideoPacket → ℕ
current_block p = p.multi_fec_blocks / 16 % 4

abbrev pub last_block : VideoPacket → ℕ
last_block p = p.multi_fec_blocks / 64 % 4

abbrev pub is_first : VideoPacket → Bool
is_first p = is_first_packet p.flags (current_block p)

abbrev pub is_last : VideoPacket → Bool
is_last p = has_bit 1 p.flags && current_block p == last_block p

-- A packet that does not continue the stream where the last one left it.
unfoldable pub is_corrupt_packet : Depacketizer → VideoPacket → Bool
is_corrupt_packet d p =
    let due = u24 (d.last_packet + 1) in
    is_before24 (packet_index p) due || not (has_bit 2 p.flags) && not (packet_index p == due)

-- The start of a frame: frames before it that did not come are given up.
unfoldable pub begin_frame : VideoPacket → Depacketizer → Depacketizer
unfolding drop_frame_state
begin_frame p d =
    let d' =
      if is_before32 d.next_frame p.frame_index
      then drop_frame_state (record d { next_frame = p.frame_index; wait_success = true })
      else d in
    let pts_base =
      if d'.synthetic_pts_base_us == 0 then p.receive_time_us else d'.synthetic_pts_base_us in
    record d' {
      decoding = true;
      frame_type = pframe;
      first_receive_time_us = p.receive_time_us;
      synthetic_pts_base_us = pts_base;
      first_presentation_time =
          if p.presentation_time_us == 0 && ltb 0 p.frame_index
          then (p.receive_time_us + 2 ^ 64 - pts_base % 2 ^ 64) % 2 ^ 64
          else p.presentation_time_us;
      first_rtp_timestamp = p.rtp_timestamp;
    }

-- The size of the frame header of a packet, 0 behind the first packet.
unfoldable pub header_size : VideoEnv → VideoPacket → ℕ
unfolding frame_header_size
header_size env p =
    if is_first p && ltb 0 (length p.payload)
    then frame_header_size env.version (byte_at p.payload 0)
    else 0

unfoldable pub read_frame_header : VideoEnv → VideoPacket → Depacketizer → Depacketizer
unfolding note_frame_type note_lengths
read_frame_header env p d =
    if is_first p && ltb 0 (length p.payload)
    then note_lengths env p.payload (note_frame_type env p.frame_index p.payload d)
    else d

-- The bytes behind the header and the units that are skipped.
unfoldable pub picture_bytes : VideoEnv → VideoPacket → List ℕ
unfolding header_size skip_header skip_prefix
picture_bytes env p =
    let bs = skip_header (header_size env p) p.payload in
    if is_first p && ltb 0 (length p.payload) && is_annex_b env.format
    then skip_prefix env.format bs
    else bs

-- The payload of an H.264 or HEVC packet.
unfoldable pub add_annex_b : VideoEnv → VideoPacket → Depacketizer → Depacketizer
unfolding process_slow queue_fragment
add_annex_b env p d =
    let bs = picture_bytes env p in
    let pps = is_first p && is_picture_parameter_set_nal env.format bs in
    if is_first p && is_idr_frame_start env.format bs
    then process_slow env.format env.has_memory (length bs) true bs d
    else queue_fragment env.format false true (if pps then skip_to_next_nal bs else bs) d

-- The payload of another packet. The last one of a frame is cut to the length that the header of the
-- frame announced; a frame for which that is impossible is given up.
unfoldable pub add_plain : VideoEnv → VideoPacket → Depacketizer → Depacketizer × Bool
unfolding queue_fragment give_up_frame header_size
add_plain env p d =
    let bs = picture_bytes env p in
    let size = header_size env p in
    let rest = d.last_payload_length - size in
    if not (is_last p)
    then (queue_fragment env.format false true bs d, true)
    else if ltb size d.last_payload_length && leb rest (length bs)
    then (queue_fragment env.format false true (take rest bs) d, true)
    else (give_up_frame p.frame_index d, false)

unfoldable pub add_payload : VideoEnv → VideoPacket → Depacketizer → Depacketizer × Bool
unfolding add_annex_b add_plain
add_payload env p d =
    if is_annex_b env.format then (add_annex_b env p d, true) else add_plain env p d

-- processRtpPayload
unfoldable pub process_rtp_payload : VideoEnv → VideoPacket → Depacketizer → Depacketizer
unfolding begin_frame read_frame_header finish_frame give_up_frame
process_rtp_payload env p d =
    let d₁ = if is_first p then begin_frame p d else d in
    let d₂ = read_frame_header env p (record d₁ { last_packet = packet_index p }) in
    let (d₃, added) = add_payload env p d₂ in
    if is_before32 p.frame_index d.next_frame
    then d
    else if is_corrupt_packet d p
    then give_up_frame p.frame_index d
    else if added && is_last p
    then finish_frame env p.frame_index (has_bit 0 p.extra_flags) d₃
    else d₃

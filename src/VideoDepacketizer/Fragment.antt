-- ===== src/VideoDepacketizer/Fragment.antt =====
-- VideoDepacketizer.c: how the payload of a packet joins the chain of the frame.
use moonlight_common_c.Prelude.{
  is_empty, ℕ, zero, suc, ◌+◌, ◌-◌, Bool, false, not, ◌&&◌, ◌||◌, List, [], ◌∷◌, ◌++◌, ◌==◌,
  if◌then◌else◌, length, take,
}
use moonlight_common_c.VideoDepacketizer.Nal.{
  VideoFormat, h264, hevc, unparsed, h264_nal_type, hevc_nal_type, at_start, type_byte,
  is_seq_reference_frame_start, skip_to_next_nal, skip_aud_sei, skip_to_end,
}
use moonlight_common_c.VideoDepacketizer.State.{
  BufferType, picdata, sps, pps, vps, idr, Depacketizer,
}

-- getBufferFlags
abbrev type_of : VideoFormat → ℕ → BufferType
type_of h264 x = if h264_nal_type x == 7 then sps else if h264_nal_type x == 8 then pps else picdata
type_of hevc x =
    if hevc_nal_type x == 33
    then sps
    else if hevc_nal_type x == 34
    then pps
    else if hevc_nal_type x == 32
    then vps
    else picdata
type_of unparsed x = picdata

unfoldable pub get_buffer_flags : VideoFormat → List ℕ → BufferType
unfolding at_start type_byte
get_buffer_flags fmt bs = if at_start bs then type_of fmt (type_byte bs) else picdata

-- queueFragment: the entry takes over the packet's buffer if that is offered, else it needs memory for
-- a copy.
unfoldable pub queue_fragment : VideoFormat → Bool → Bool → List ℕ → Depacketizer → Depacketizer
unfolding get_buffer_flags
queue_fragment fmt has_memory takes bs d =
    if takes || has_memory
    then record d {
      chain =
          d.chain
          ++ record { bytes = bs; buffer_type = get_buffer_flags fmt bs; takes_packet = takes }
            ∷ [];
      chain_length = d.chain_length + length bs;
    }
    else d

-- What the start of a reference frame changes.
unfoldable pub see_idr : Bool → Depacketizer → Depacketizer
see_idr starts d =
    if starts
    then record d { wait_idr = false; wait_rfi = false; wait_success = false; frame_type = idr }
    else d

-- The bytes of one round of the loop of processAvcHevcRtpPayloadSlow: behind the padding, and behind
-- the unit that the round queues.
unfoldable pub round_start : VideoFormat → List ℕ → List ℕ
unfolding at_start skip_to_next_nal skip_aud_sei
round_start fmt bs =
    let bs' = if at_start bs then bs else skip_to_next_nal bs in skip_aud_sei fmt (length bs') bs'

unfoldable pub round_end : VideoFormat → List ℕ → List ℕ
unfolding is_seq_reference_frame_start skip_to_next_nal skip_to_end
round_end fmt bs =
    let rest = skip_to_next_nal bs in
    if is_seq_reference_frame_start fmt bs then skip_to_end (length rest) rest else rest

-- processAvcHevcRtpPayloadSlow. `free` says that nothing has taken over the packet's buffer so far. Each
-- copy needs memory of its own: `has_memory` says whether malloc succeeds for the unit that is found
-- when so many bytes are left.
unfoldable pub process_slow :
    VideoFormat → (ℕ → Bool) → ℕ → Bool → List ℕ → Depacketizer → Depacketizer
unfolding queue_fragment see_idr round_start round_end is_seq_reference_frame_start
process_slow fmt has_memory zero free bs d = d
process_slow fmt has_memory (suc fuel) free bs d =
    let start = round_start fmt bs in
    let end = round_end fmt start in
    let pic = is_seq_reference_frame_start fmt start in
    let unit = take (length start - length end) start in
    let d' = queue_fragment fmt (has_memory (length bs)) (pic && free) unit (see_idr pic d) in
    let rest = process_slow fmt has_memory fuel (free && not pic) end d' in
    if is_empty bs then d else rest

-- ===== src/VideoDepacketizer/Frame.antt =====
-- reassembleFrame of VideoDepacketizer.c, and the end of processRtpPayload: what happens when the last
-- packet of a frame is there.
use moonlight_common_c.Prelude.{
  is_empty, ℕ, ◌+◌, Bool, true, false, not, ◌&&◌, ◌||◌, List, [], ◌∷◌, ◌++◌, leb, if◌then◌else◌,
  length,
}
use moonlight_common_c.Seq.{u32}
use moonlight_common_c.VideoDepacketizer.State.{
  BufferType, picdata, pframe, idr, is_idr, Fragment, DecodeUnit, request_idr, key_frame,
  frame_loss, complete_frame, submit, Depacketizer, unit_limit, tell, drop_frame_state,
  complete_video_frame,
}
use moonlight_common_c.VideoDepacketizer.Header.{VideoEnv}

abbrev pub is_picdata : BufferType → Bool
is_picdata picdata = true
is_picdata _ = false

-- The first entry of the chain tells whether codec data comes first.
abbrev pub starts_with_picdata : List Fragment → Bool
starts_with_picdata [] = true
starts_with_picdata (f ∷ fs) = is_picdata f.buffer_type

abbrev pub is_key : Depacketizer → Bool
is_key d = not (starts_with_picdata d.chain) || is_idr d.frame_type

-- COLORSPACE_REC_2020
abbrev pub rec_2020 : ℕ
rec_2020 = 2

unfoldable pub decode_unit : VideoEnv → ℕ → Depacketizer → DecodeUnit
decode_unit env frame d = record {
  buffers = d.chain;
  full_length = d.chain_length;
  frame_type = if is_key d then idr else pframe;
  frame_number = frame;
  host_latency = d.host_latency;
  receive_time_us = d.first_receive_time_us;
  presentation_time_us = d.first_presentation_time;
  rtp_timestamp = d.first_rtp_timestamp;
  enqueue_time_us = env.now_us;
  hdr_active = env.hdr_active;
  colorspace = if env.hdr_active then rec_2020 else env.stream_colorspace;
}

-- The end of reassembleFrame.
unfoldable pub count_frame : ℕ → Bool → Depacketizer → Depacketizer
unfolding tell
count_frame frame ltr d = record (tell (complete_frame frame ltr) d) {
  drops = 0;
  start_frame = d.next_frame;
}

-- A queue of decode units that is full is emptied. A queue that is shut down takes nothing, which the
-- code does not tell from success.
unfoldable pub offer_unit : DecodeUnit → ℕ → Bool → Depacketizer → Depacketizer
unfolding tell drop_frame_state count_frame
offer_unit u frame ltr d =
    if d.is_shut_down
    then count_frame frame ltr d
    else if leb unit_limit (length d.units)
    then tell request_idr
        (record (drop_frame_state
          (record d { wait_idr = true; chain = u.buffers; chain_length = u.full_length })) {
            units = [];
          })
    else count_frame frame ltr (record d { units = d.units ++ u ∷ [] })

-- reassembleFrame
unfoldable pub reassemble_frame : VideoEnv → ℕ → Bool → Depacketizer → Depacketizer
unfolding tell decode_unit complete_video_frame count_frame offer_unit
reassemble_frame env frame ltr d =
    let u = decode_unit env frame d in
    let d₁ = if is_key d then tell key_frame d else d in
    let d₂ = record d₁ { chain = []; chain_length = 0 } in
    if is_empty d.chain || not (env.direct_submit || env.has_unit_memory)
    then d
    else if env.direct_submit
    then count_frame frame ltr (complete_video_frame u env.decoder (tell (submit u) d₂))
    else offer_unit u frame ltr d₂

-- A frame that cannot be decoded yet.
unfoldable pub drop_waiting : ℕ → Depacketizer → Depacketizer
unfolding tell drop_frame_state
drop_waiting frame d =
    let d' =
      if d.wait_idr
      then if d.wait_success then tell request_idr d else d
      else tell (frame_loss d.start_frame frame) d in
    drop_frame_state (record d' { wait_success = false })

-- The end of processRtpPayload, for the last packet of a frame.
unfoldable pub finish_frame : VideoEnv → ℕ → Bool → Depacketizer → Depacketizer
unfolding drop_waiting drop_frame_state reassemble_frame
finish_frame env frame ltr d =
    let d' = record d { decoding = false; next_frame = u32 (frame + 1) } in
    if d.wait_idr || d.wait_rfi
    then drop_waiting frame d'
    else if d.drop_pending && not (not (is_empty d.chain) && is_idr d.frame_type)
    then drop_frame_state d'
    else reassemble_frame env frame ltr (record d' { drop_pending = false })

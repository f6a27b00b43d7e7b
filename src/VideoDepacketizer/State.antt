-- ===== src/VideoDepacketizer/State.antt =====
-- VideoDepacketizer.c: the state of the depacketizer, DECODE_UNIT and LENTRY of Limelight.h, and how
-- frames are dropped. The NAL chain with head and tail is a list, and so is the decode unit queue, a
-- blocking queue of 15 items. The calls into the control stream are a log of events, latest last.
use moonlight_common_c.Prelude.{
  is_empty, ◌&&◌, ℕ, ◌+◌, Bool, true, false, not, ◌||◌, Option, none, some, List, [], ◌∷◌, ◌++◌,
  ◌==◌, if◌then◌else◌, length,
}
use moonlight_common_c.Seq.{u32}

pub data BufferType : Type 0 where
  picdata sps pps vps : BufferType

pub data FrameType : Type 0 where
  pframe idr : FrameType

abbrev pub is_idr : FrameType → Bool
is_idr idr = true
is_idr pframe = false

-- LENTRY_INTERNAL: whether the entry takes over the buffer of its packet.
pub record Fragment : Type 0 where
  pub bytes : List ℕ
  pub buffer_type : BufferType
  pub takes_packet : Bool

-- DECODE_UNIT. `hdr_active` and `colorspace` come from the host's display mode.
pub record DecodeUnit : Type 0 where
  pub buffers : List Fragment
  pub full_length : ℕ
  pub frame_type : FrameType
  pub frame_number : ℕ
  pub host_latency : ℕ
  pub receive_time_us : ℕ
  pub presentation_time_us : ℕ
  pub rtp_timestamp : ℕ
  pub enqueue_time_us : ℕ
  pub hdr_active : Bool
  pub colorspace : ℕ

-- The calls LiRequestIdrFrame, connectionDetectedFrameLoss, notifyKeyFrameReceived,
-- connectionReceivedCompleteFrame, and the decoder's submitDecodeUnit.
pub data VideoEvent : Type 0 where
  request_idr key_frame : VideoEvent
  frame_loss : ℕ → ℕ → VideoEvent
  complete_frame : ℕ → Bool → VideoEvent
  submit : DecodeUnit → VideoEvent

-- The static variables.
pub record Depacketizer : Type 0 where
  pub chain : List Fragment
  pub chain_length : ℕ
  pub next_frame : ℕ
  pub start_frame : ℕ
  pub wait_success : Bool
  pub wait_idr : Bool
  pub wait_rfi : Bool
  pub last_packet : ℕ
  pub decoding : Bool
  pub frame_type : FrameType
  pub last_payload_length : ℕ
  pub strict_idr_wait : Bool
  pub synthetic_pts_base_us : ℕ
  pub host_latency : ℕ
  pub first_receive_time_us : ℕ
  pub first_presentation_time : ℕ
  pub first_rtp_timestamp : ℕ
  pub drop_pending : Bool
  pub idr_processed : Bool
  pub drops : ℕ
  pub units : List DecodeUnit
  pub is_shut_down : Bool
  pub user_wake : Bool
  pub log : List VideoEvent

abbrev pub drop_limit : ℕ
drop_limit = 120

abbrev pub unit_limit : ℕ
unit_limit = 15

-- initializeVideoDepacketizer, on the variables as an earlier stream left them. The argument is
-- isReferenceFrameInvalidationEnabled. The log begins with the stream.
unfoldable pub initialize_video_depacketizer : Bool → Depacketizer → Depacketizer
initialize_video_depacketizer can_invalidate d = record d {
  units = [];
  is_shut_down = false;
  user_wake = false;
  log = [];
  next_frame = 1;
  start_frame = 0;
  wait_success = false;
  wait_idr = true;
  wait_rfi = false;
  last_packet = 0xffff_ffff;
  decoding = false;
  synthetic_pts_base_us = 0;
  host_latency = 0;
  first_receive_time_us = 0;
  first_presentation_time = 0;
  first_rtp_timestamp = 0;
  last_payload_length = 0;
  drop_pending = false;
  idr_processed = false;
  strict_idr_wait = not can_invalidate;
}

unfoldable pub tell : VideoEvent → Depacketizer → Depacketizer
tell e d = record d { log = d.log ++ e ∷ [] }

unfoldable pub cleanup_frame_state : Depacketizer → Depacketizer
cleanup_frame_state d = record d { chain = []; chain_length = 0 }

-- dropFrameState
abbrev pub choose_wait : Depacketizer → Depacketizer
choose_wait d =
    if d.strict_idr_wait || not d.idr_processed || d.wait_idr
    then record d { drop_pending = false; wait_idr = true }
    else record d { drop_pending = false; wait_rfi = true }

abbrev pub count_drop : Depacketizer → Depacketizer
count_drop d =
    let n = u32 (d.drops + 1) in
    if n == drop_limit
    then tell request_idr (record d { drops = 0; wait_idr = true })
    else record d { drops = n }

unfoldable pub drop_frame_state : Depacketizer → Depacketizer
unfolding tell cleanup_frame_state
drop_frame_state d = cleanup_frame_state (count_drop (choose_wait d))

-- The end of the branches that give up on a frame: the host is asked for an IDR frame, or told of the
-- range of frames that is lost.
unfoldable pub report_loss : ℕ → Depacketizer → Depacketizer
unfolding tell
report_loss frame d =
    if d.wait_idr then tell request_idr d else tell (frame_loss d.start_frame frame) d

unfoldable pub give_up_frame : ℕ → Depacketizer → Depacketizer
unfolding drop_frame_state report_loss
give_up_frame frame d =
    report_loss frame
      (drop_frame_state (record d { decoding = false; next_frame = u32 (frame + 1) }))

-- notifyFrameLost. What it logs apart, it does the same for predicted losses.
unfoldable pub notify_frame_lost : ℕ → Depacketizer → Depacketizer
unfolding drop_frame_state tell
notify_frame_lost frame d =
    let d' = drop_frame_state d in
    if d'.wait_idr
    then d'
    else tell (frame_loss d'.start_frame frame) (record d' { next_frame = u32 (frame + 1) })

-- requestDecoderRefresh. The frames in the queue are freed without a result for the decoder.
unfoldable pub request_decoder_refresh : Depacketizer → Depacketizer
unfolding tell
request_decoder_refresh d =
    tell request_idr (record d { wait_idr = true; units = []; drop_pending = true })

-- DR_OK, DR_NEED_IDR and other results of a decoder.
pub data DecoderStatus : Type 0 where
  dr_ok dr_need_idr dr_other : DecoderStatus

-- LiCompleteVideoFrame
unfoldable pub complete_video_frame : DecodeUnit → DecoderStatus → Depacketizer → Depacketizer
unfolding request_decoder_refresh
complete_video_frame u dr_need_idr d = request_decoder_refresh d
complete_video_frame u dr_ok d =
    if is_idr u.frame_type then record d { idr_processed = true } else d
complete_video_frame u dr_other d = d

-- stopVideoDepacketizer, and destroyVideoDepacketizer
unfoldable pub stop_video_depacketizer : Depacketizer → Depacketizer
stop_video_depacketizer d = record d { is_shut_down = true }

unfoldable pub destroy_video_depacketizer : Depacketizer → Depacketizer
unfolding cleanup_frame_state
destroy_video_depacketizer d = cleanup_frame_state (record d { units = [] })

abbrev pub poll_from : Depacketizer → List DecodeUnit → Depacketizer × Option DecodeUnit
poll_from d [] = (d, none)
poll_from d (u ∷ us) = if d.is_shut_down then (d, none) else (record d { units = us }, some u)

-- LiPollNextVideoFrame: a queue that is shut down gives out nothing.
unfoldable pub poll_next_video_frame : Depacketizer → Depacketizer × Option DecodeUnit
poll_next_video_frame d = poll_from d d.units

-- LiPeekNextVideoFrame
unfoldable pub peek_next_video_frame : Depacketizer → Option DecodeUnit
unfolding poll_next_video_frame
peek_next_video_frame d = (poll_next_video_frame d).1

-- LiWakeWaitForVideoFrame
unfoldable pub wake_wait_for_video_frame : Depacketizer → Depacketizer
wake_wait_for_video_frame d = record d { user_wake = true }

-- LiWaitForNextVideoFrame, from the test of the loop on in which the queue waits: `none` while the
-- thread sleeps. A wake-up by the client is used up and gives out no frame.
unfoldable pub wait_for_next_video_frame : Depacketizer → Option (Depacketizer × Option DecodeUnit)
wait_for_next_video_frame d =
    if is_empty d.units && not d.is_shut_down && not d.user_wake
    then none
    else if d.is_shut_down
    then some (d, none)
    else if d.user_wake
    then some (record d { user_wake = false }, none)
    else some (poll_from d d.units)

-- LiGetPendingVideoFrames
unfoldable pub get_pending_video_frames : Depacketizer → ℕ
get_pending_video_frames d = length d.units

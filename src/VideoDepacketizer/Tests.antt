-- ===== src/VideoDepacketizer/Tests.antt =====
-- Tests of the depacketizer of VideoDepacketizer.c, and its theorems at concrete inputs.
use moonlight_common_c.Prelude.{
  some, none, ℕ, ◌*◌, ◌≡◌, refl, true, false, List, [], ◌∷◌, ◌++◌, arith, map, length,
}
use moonlight_common_c.Seq.{is_before24, is_before32}
use moonlight_common_c.VideoDepacketizer.{
  VideoPacket, is_first, picture_bytes, add_payload, is_corrupt_packet, process_rtp_payload,
  is_first_packet,
}
use moonlight_common_c.VideoDepacketizer.Nal.{h264, is_idr_frame_start}
use moonlight_common_c.VideoDepacketizer.State.{
  idr, key_frame, complete_frame, frame_loss, complete_video_frame, dr_ok, notify_frame_lost,
  DecodeUnit, wait_for_next_video_frame, wake_wait_for_video_frame, peek_next_video_frame, picdata,
  sps, pps, pframe, DecodeUnit, dr_ok, request_idr, Depacketizer, initialize_video_depacketizer,
  notify_frame_lost,
}
use moonlight_common_c.VideoDepacketizer.Fragment.{process_slow}
use moonlight_common_c.VideoDepacketizer.Header.{VideoEnv}
use moonlight_common_c.VideoDepacketizer.Inv.{IsOk}
use moonlight_common_c.VideoDepacketizer.Waiting.{
  brings_idr, IsWaitingIdr, process_rtp_payload_waiting,
}
use moonlight_common_c.VideoDepacketizer.Boundary.{process_rtp_payload_boundary}
use moonlight_common_c.VideoDepacketizer.Lost.{drop_times, drop_times_requests}
use moonlight_common_c.VideoDepacketizer.Slow.{process_slow_enough}
use moonlight_common_c.VideoDepacketizer.Middle.{
  data_of, AllMiddle, payloads, process_all, process_all_middle,
}
use moonlight_common_c.VideoDepacketizer.Delivered.{IsLastPacket, IsReady, frame_delivered}
use moonlight_common_c.VideoDepacketizer.Frame.{decode_unit}
use moonlight_common_c.VideoDepacketizer.Ranges.{behind_last, AllFit}
use moonlight_common_c.VideoDepacketizer.Told.{StreamReached-AllFit}
use moonlight_common_c.VideoDepacketizer.Reach.{
  StreamReached, started, received, lost, finished, StreamReached-IsOk,
}

-- An H.264 stream from a Sunshine host, with frames that the decoder fetches from the queue.
abbrev env : VideoEnv
env = record {
  format = h264;
  version = record { major = 7; minor = 1; build = 431; is_sunshine = true };
  has_memory = λ left. true;
  has_unit_memory = true;
  direct_submit = false;
  decoder = dr_ok;
  now_us = 5000;
  hdr_active = false;
  stream_colorspace = 0;
}

abbrev zeroed : Depacketizer
zeroed = record {
  chain = [];
  chain_length = 0;
  next_frame = 0;
  start_frame = 0;
  wait_success = false;
  wait_idr = false;
  wait_rfi = false;
  last_packet = 0;
  decoding = false;
  frame_type = pframe;
  last_payload_length = 0;
  strict_idr_wait = false;
  synthetic_pts_base_us = 0;
  host_latency = 0;
  first_receive_time_us = 0;
  first_presentation_time = 0;
  first_rtp_timestamp = 0;
  drop_pending = false;
  idr_processed = false;
  drops = 0;
  units = [];
  is_shut_down = false;
  user_wake = false;
  log = [];
}

abbrev fresh : Depacketizer
fresh = initialize_video_depacketizer true zeroed

abbrev packet : ℕ → ℕ → ℕ → List ℕ → VideoPacket
packet index frame flags bytes = record {
  stream_packet_index = index * 256;
  frame_index = frame;
  flags = flags;
  extra_flags = 0;
  multi_fec_blocks = 0;
  payload = bytes;
  receive_time_us = 1000;
  presentation_time_us = 10;
  rtp_timestamp = 900;
}

-- A frame header of eight bytes with the given frame type.
abbrev frame_header : ℕ → List ℕ
frame_header t = 1 ∷ 0 ∷ 0 ∷ t ∷ 0 ∷ 0 ∷ 0 ∷ 0 ∷ []

-- A frame in one packet: two parameter sets and an IDR slice.
abbrev idr_packet : VideoPacket
idr_packet = packet 0 1 7 (
    frame_header 2
    ++ (0 ∷ 0 ∷ 0 ∷ 1 ∷ 103 ∷ 1 ∷ 0 ∷ 0 ∷ 0 ∷ 1 ∷ 104 ∷ 2 ∷ 0 ∷ 0 ∷ 0 ∷ 1 ∷ 101 ∷ 3 ∷ 4 ∷ []))

abbrev with_idr : Depacketizer
with_idr = process_rtp_payload env idr_packet fresh

three_units :
    map (λ u. map (λ f. f.buffer_type) u.buffers) with_idr.units ≡ (sps ∷ pps ∷ picdata ∷ []) ∷ []
unfolding process_rtp_payload initialize_video_depacketizer is_before32 is_before24
    is_corrupt_packet add_payload picture_bytes is_first_packet is_idr_frame_start
three_units = refl

-- A slice that is not of an IDR frame, and its frame in three packets.
abbrev slice : List ℕ
slice = 0 ∷ 0 ∷ 0 ∷ 1 ∷ 65 ∷ 9 ∷ []

abbrev first_part : VideoPacket
first_part = packet 1 2 5 (frame_header 1 ++ slice)

abbrev middle_part : VideoPacket
middle_part = packet 2 2 1 (11 ∷ 12 ∷ [])

abbrev last_part : VideoPacket
last_part = packet 3 2 3 (13 ∷ [])

abbrev in_frame : Depacketizer
in_frame = process_rtp_payload env first_part with_idr

-- If there is no memory for the decode unit the chain stays, and the next frame is appended to it.
abbrev short_of_memory : VideoEnv
short_of_memory = record env { has_unit_memory = false }

abbrev unsent : Depacketizer
unsent = process_rtp_payload short_of_memory idr_packet fresh

stale_chain : (unsent.decoding ≡ false) × (length unsent.chain ≡ 3)
unfolding process_rtp_payload initialize_video_depacketizer is_before32 is_before24
    is_corrupt_packet add_payload picture_bytes is_first_packet is_idr_frame_start
stale_chain = (refl, refl)

mixed_frames :
    map
      (λ u. length u.buffers)
      (process_rtp_payload env (packet 1 2 7 (frame_header 1 ++ slice)) unsent).units
    ≡ 4 ∷ []
unfolding process_rtp_payload initialize_video_depacketizer is_before32 is_before24
    is_corrupt_packet add_payload picture_bytes is_first_packet is_idr_frame_start
mixed_frames = refl

-- A waiting decoder thread sleeps, is woken once by the client, and gets the frame that comes.
sleeps : wait_for_next_video_frame fresh ≡ none
unfolding wait_for_next_video_frame initialize_video_depacketizer
sleeps = refl

woken_once : wait_for_next_video_frame (wake_wait_for_video_frame fresh) ≡ some (fresh, none)
unfolding wait_for_next_video_frame wake_wait_for_video_frame initialize_video_depacketizer
woken_once = refl

peeked : peek_next_video_frame fresh ≡ none
unfolding peek_next_video_frame initialize_video_depacketizer
peeked = refl

-- The theorems at these states.

with_idr-Reached : StreamReached with_idr
with_idr-Reached = received env idr_packet fresh (started true zeroed refl refl (omega arith))

StreamReached-IsOk_example : IsOk with_idr
StreamReached-IsOk_example = StreamReached-IsOk with_idr with_idr-Reached

abbrev p_packet : VideoPacket
p_packet = packet 0 1 7 (frame_header 1 ++ slice)

no_idr : brings_idr env p_packet ≡ false
unfolding picture_bytes is_first_packet is_idr_frame_start
no_idr = refl

fresh-IsWaitingIdr : IsWaitingIdr 0 [] fresh
unfolding initialize_video_depacketizer
fresh-IsWaitingIdr = record { waits = refl; passed = refl; queued = refl }

process_rtp_payload_waiting_example : IsWaitingIdr 0 [] (process_rtp_payload env p_packet fresh)
process_rtp_payload_waiting_example =
    process_rtp_payload_waiting 0 [] env p_packet fresh no_idr fresh-IsWaitingIdr

starts : is_first idr_packet ≡ false → fresh.decoding ≡ true
unfolding is_first_packet
starts never = absurd (cc never)

empty_at_first : fresh.decoding ≡ false → fresh.chain ≡ []
unfolding initialize_video_depacketizer
empty_at_first out = refl

ended_there : with_idr.decoding ≡ false
unfolding process_rtp_payload initialize_video_depacketizer is_before32 is_before24
    is_corrupt_packet add_payload picture_bytes is_first_packet is_idr_frame_start
ended_there = refl

process_rtp_payload_boundary_example : with_idr.chain ≡ []
process_rtp_payload_boundary_example =
    process_rtp_payload_boundary env idr_packet refl fresh starts empty_at_first ended_there

drop_times_requests_example :
    ((drop_times 119 zeroed).log ≡ [])
    × ((drop_times 120 zeroed).log ≡ request_idr ∷ [])
    × ((drop_times 120 zeroed).wait_idr ≡ true)
    × ((drop_times 120 zeroed).drops ≡ 0)
drop_times_requests_example = drop_times_requests 119 zeroed refl

-- The IDR frame 1 is decoded, and then frame 3 does not come.
abbrev idr_unit : DecodeUnit
idr_unit = decode_unit env 1 (record zeroed { frame_type = idr })

abbrev after_loss : Depacketizer
after_loss = notify_frame_lost 3 (complete_video_frame idr_unit dr_ok with_idr)

after_loss-Reached : StreamReached after_loss
after_loss-Reached = lost 3 _ (finished idr_unit dr_ok with_idr with_idr-Reached)

told_range : after_loss.log ≡ key_frame ∷ complete_frame 1 false ∷ frame_loss 2 3 ∷ []
unfolding process_rtp_payload initialize_video_depacketizer is_before32 is_before24
    is_corrupt_packet add_payload picture_bytes is_first_packet is_idr_frame_start notify_frame_lost
    complete_video_frame decode_unit
told_range = refl

StreamReached-AllFit_example :
    AllFit 0 after_loss.log × (behind_last 0 after_loss.log ≡ after_loss.start_frame)
StreamReached-AllFit_example = StreamReached-AllFit after_loss after_loss-Reached

process_slow_enough_example :
    process_slow h264 (λ left. true) 6 true slice zeroed
    ≡ process_slow h264 (λ left. true) 9 true slice zeroed
process_slow_enough_example =
    process_slow_enough h264 (λ left. true) 6 9 true slice zeroed (omega arith) (omega arith)

middle_ok : AllMiddle env in_frame (middle_part ∷ [])
unfolding process_rtp_payload initialize_video_depacketizer is_before32 is_before24
    is_corrupt_packet add_payload picture_bytes is_first_packet is_idr_frame_start
middle_ok = (record { later = refl; not_last = refl; current = refl; in_order = refl }, tt)

abbrev before_last : Depacketizer
before_last = process_all env (middle_part ∷ []) in_frame

last_ok : IsLastPacket before_last last_part
unfolding process_all process_rtp_payload initialize_video_depacketizer is_before32 is_before24
    is_corrupt_packet add_payload picture_bytes is_first_packet is_idr_frame_start
last_ok = record { later = refl; last = refl; current = refl; in_order = refl }

before_last-IsReady : IsReady env before_last
unfolding process_all process_rtp_payload initialize_video_depacketizer is_before32 is_before24
    is_corrupt_packet add_payload picture_bytes is_first_packet is_idr_frame_start
before_last-IsReady = record {
  no_wait = refl;
  no_drop = refl;
  running = refl;
  room = refl;
  annex_b = refl;
  queued = refl;
  memory = refl;
}

middle_joined :
    (data_of before_last.chain ≡ data_of in_frame.chain ++ payloads (middle_part ∷ []))
    × (before_last.next_frame ≡ in_frame.next_frame)
    × (before_last.log ≡ in_frame.log)
    × (before_last.units ≡ in_frame.units)
middle_joined = process_all_middle env (middle_part ∷ []) in_frame middle_ok

frame_delivered_example :
    (u : DecodeUnit) × ((process_rtp_payload env last_part before_last).units
      ≡ in_frame.units ++ u ∷ [])
    × (u.frame_number ≡ 2)
    × (data_of u.buffers ≡ data_of in_frame.chain ++ (11 ∷ 12 ∷ 13 ∷ []))
    × ((process_rtp_payload env last_part before_last).chain ≡ [])
    × ((process_rtp_payload env last_part before_last).drops ≡ 0)
    × ((process_rtp_payload env last_part before_last).start_frame ≡ 3)
frame_delivered_example =
    frame_delivered env (middle_part ∷ []) last_part in_frame middle_ok last_ok before_last-IsReady

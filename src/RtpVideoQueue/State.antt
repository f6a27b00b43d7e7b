-- ===== src/RtpVideoQueue/State.antt =====
-- RtpVideoQueue.h and the packet headers of Video.h: the state of the video queue.
-- A queue list with head, tail and count is a list of entries, in order. What the queue tells the
-- rest of the library is a log of events, latest last.
use moonlight_common_c.Prelude.{ℕ, ◌+◌, ◌%◌, Bool, false, List, [], ◌∷◌, ◌++◌}
use moonlight_common_c.Seq.{u16}

-- NV_VIDEO_PACKET, its fields in the host's byte order.
pub record NvPacket : Type 0 where
  pub stream_packet_index : ℕ
  pub frame_index : ℕ
  pub flags : ℕ
  pub extra_flags : ℕ
  pub multi_fec_flags : ℕ
  pub multi_fec_blocks : ℕ
  pub fec_info : ℕ

-- RTP_PACKET, with the video header that stands behind it. `body` stands for the payload.
pub record Packet : Type 0 where
  pub header : ℕ
  pub sequence_number : ℕ
  pub timestamp : ℕ
  pub ssrc : ℕ
  pub nv : NvPacket
  pub body : ℕ

-- RTPV_QUEUE_ENTRY
pub record Entry : Type 0 where
  pub packet : Packet
  pub receive_time_us : ℕ
  pub presentation_time_us : ℕ
  pub rtp_timestamp : ℕ
  pub length : ℕ
  pub is_parity : Bool

abbrev pub seq_of : Entry → ℕ
seq_of e = e.packet.sequence_number

-- SS_FRAME_FEC_STATUS. The byte order on the wire is left aside.
pub record FecStatus : Type 0 where
  pub frame_index : ℕ
  pub highest_received : ℕ
  pub next_contiguous : ℕ
  pub missing : ℕ
  pub total_data : ℕ
  pub total_parity : ℕ
  pub received_data : ℕ
  pub received_parity : ℕ
  pub fec_percentage : ℕ
  pub block_index : ℕ
  pub block_count : ℕ

-- The calls notifyFrameLost, connectionSawFrame, connectionSendFrameFecStatus and queueRtpPacket.
pub data Event : Type 0 where
  frame_lost : ℕ → Bool → Event
  saw_frame : ℕ → Event
  fec_status : FecStatus → Event
  submitted : Entry → Event

-- RTP_VIDEO_QUEUE
pub record Queue : Type 0 where
  pub pending : List Entry
  pub completed : List Entry
  pub first_recv_time_us : ℕ
  pub lowest : ℕ
  pub highest : ℕ
  pub first_parity : ℕ
  pub data_packets : ℕ
  pub parity_packets : ℕ
  pub received_data : ℕ
  pub received_parity : ℕ
  pub received_highest : ℕ
  pub fec_percentage : ℕ
  pub next_contiguous : ℕ
  pub missing_packets : ℕ
  pub use_fast_path : Bool
  pub reported_lost_frame : Bool
  pub current_frame : ℕ
  pub multi_fec_capable : Bool
  pub current_block : ℕ
  pub last_block : ℕ
  pub last_oos_timestamp : ℕ
  pub received_oos : Bool
  pub count_video : ℕ
  pub count_fec : ℕ
  pub events : List Event

unfoldable pub emit : Event → Queue → Queue
emit e q = record q { events = q.events ++ e ∷ [] }

-- RtpvInitializeQueue. The argument is APP_VERSION_AT_LEAST(7, 1, 431).
unfoldable pub initialize : Bool → Queue
initialize capable = record {
  pending = [];
  completed = [];
  first_recv_time_us = 0;
  lowest = 0;
  highest = 0;
  first_parity = 0;
  data_packets = 0;
  parity_packets = 0;
  received_data = 0;
  received_parity = 0;
  received_highest = 0;
  fec_percentage = 0;
  next_contiguous = 0;
  missing_packets = 0;
  use_fast_path = false;
  reported_lost_frame = false;
  current_frame = 1;
  multi_fec_capable = capable;
  current_block = 0;
  last_block = 0;
  last_oos_timestamp = 0;
  received_oos = false;
  count_video = 0;
  count_fec = 0;
  events = [];
}

-- RtpvCleanupQueue
unfoldable pub cleanup : Queue → Queue
cleanup q = record q { pending = []; completed = [] }

-- reportFinalFrameFecStatus: the counters are cut to the widths of the message's fields.
unfoldable pub report_status : Queue → Queue
unfolding emit
report_status q = emit (fec_status status) q
  where
    status : FecStatus
    status = record {
      frame_index = q.current_frame;
      highest_received = u16 q.received_highest;
      next_contiguous = u16 q.next_contiguous;
      missing = u16 q.missing_packets;
      total_data = u16 q.data_packets;
      total_parity = u16 q.parity_packets;
      received_data = u16 q.received_data;
      received_parity = u16 q.received_parity;
      fec_percentage = q.fec_percentage % 256;
      block_index = q.current_block % 256;
      block_count = (q.last_block + 1) % 256;
    }

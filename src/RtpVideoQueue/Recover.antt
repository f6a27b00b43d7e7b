-- ===== src/RtpVideoQueue/Recover.antt =====
-- reconstructFrame of RtpVideoQueue.c, as a release build compiles it (no FEC_VALIDATION_MODE).
-- The Reed-Solomon code is a library of its own and a parameter here.
use moonlight_common_c.Prelude.{
  has_bit, ℕ, zero, suc, ◌+◌, ◌*◌, ◌/◌, ◌%◌, Bool, true, false, not, ◌&&◌, ◌||◌, List, [], ◌∷◌, ltb,
  ◌==◌, if◌then◌else◌, length,
}
use moonlight_common_c.Seq.{u16, sub32}
use moonlight_common_c.RtpVideoQueue.State.{
  NvPacket, Packet, Entry, seq_of, Queue, frame_lost, emit, report_status,
}
use moonlight_common_c.RtpVideoQueue.Insert.{queue_packet}

-- What the shard buffers and reed_solomon_new and reed_solomon_decode yield. Return codes of the C
-- code that are not positive are given without their sign.
pub data Recovery : Type 0 where
  -- The shard arrays, the decoder or a buffer for a missing shard could not be allocated.
  no_arrays no_decoder no_shards : Recovery
  -- reed_solomon_decode returned this code, and left this header and payload at each index.
  decoded : ℕ → (ℕ → NvPacket) → (ℕ → ℕ) → Recovery

-- AppVersionQuad[0], StreamConfig.packetSize, and the decoder, applied to the pending packets and
-- the numbers of data and parity shards.
pub record Config : Type 0 where
  pub version : ℕ
  pub packet_size : ℕ
  pub decode : List Entry → ℕ → ℕ → Recovery

-- The index of a sequence number in the shard arrays.
abbrev pub index_of : ℕ → ℕ → ℕ
index_of lowest s = u16 (sub32 s lowest)

-- `marks[i]`: no pending packet has this index.
unfoldable pub is_missing : ℕ → ℕ → List Entry → Bool
is_missing lowest i [] = true
is_missing lowest i (e ∷ es) = not (index_of lowest (seq_of e) == i) && is_missing lowest i es

-- FLAG_CONTAINS_PIC_DATA, FLAG_EOF and FLAG_SOF are the bits 0, 1 and 2.
unfoldable pub is_corrupt : ℕ → ℕ → NvPacket → Bool
is_corrupt data_packets i nv =
    (i == 0 && not (has_bit 2 nv.flags))
    || (i + 1 == data_packets && not (has_bit 1 nv.flags))
    || (ltb 0 i && ltb (i + 1) data_packets && not (has_bit 0 nv.flags))
    || not (nv.flags / 8 == 0)

abbrev pub data_offset : ℕ → ℕ
data_offset header = if has_bit 4 header then 16 else 12

-- The header fields come from the first pending packet, and the frame and block numbers from the queue.
unfoldable pub recovered_packet : Queue → List Entry → ℕ → NvPacket → ℕ → Packet
recovered_packet q [] i nv body = record {
  header = 0;
  sequence_number = u16 (i + q.lowest);
  timestamp = 0;
  ssrc = 0;
  nv = nv;
  body = body;
}
recovered_packet q (e ∷ es) i nv body = record {
  header = e.packet.header;
  sequence_number = u16 (i + q.lowest);
  timestamp = e.packet.timestamp;
  ssrc = e.packet.ssrc;
  nv = record nv {
    frame_index = q.current_frame;
    multi_fec_blocks = (q.last_block * 4 + q.current_block) * 16 % 256;
  };
  body = body;
}

module _ (cfg : Config) where
  -- The loop under `cleanup_packets`, from index `i` on for `n` rounds, with the return code so far.
  -- Rounds at parity indices only free memory.
  unfoldable pub requeue : (ℕ → Bool) → (ℕ → NvPacket) → (ℕ → ℕ) → ℕ → ℕ → ℕ → Queue → Queue × ℕ
  requeue missing nvs bodies zero i ret q = (q, ret)
  requeue missing nvs bodies (suc n) i ret q =
      let skip = requeue missing nvs bodies n (i + 1) ret q in
      let fail = requeue missing nvs bodies n (i + 1) 1 q in
      let p = recovered_packet q q.pending i (nvs i) (bodies i) in
      let len = cfg.packet_size + data_offset p.header in
      let queued = requeue missing nvs bodies n (i + 1) ret (queue_packet q p len false true).0 in
      if missing i && ret == 0
      then (if is_corrupt q.data_packets i p.nv then fail else queued)
      else skip

  unfoldable pub run_recovery : Queue → Recovery → Queue × ℕ
  unfolding requeue
  run_recovery q no_arrays = (q, 2)
  run_recovery q no_decoder = (q, 3)
  run_recovery q no_shards = (q, 4)
  run_recovery q (decoded code nvs bodies) =
      let q' = if q.data_packets == q.received_data then q else report_status q in
      requeue (λ i. is_missing q.lowest i q.pending) nvs bodies q.data_packets 0 code q'

  -- A prediction that the frame is lost, for the shards that are known to be missing. It is made
  -- and told at most once for a frame.
  unfoldable pub predicts_loss : Queue → Bool
  predicts_loss q =
      not q.reported_lost_frame && not q.received_oos && ltb q.parity_packets q.missing_packets

  unfoldable pub predict_loss : Queue → Queue
  unfolding predicts_loss emit
  predict_loss q = record q {
    reported_lost_frame = q.reported_lost_frame || predicts_loss q;
    events =
        if predicts_loss q then (emit (frame_lost q.current_frame true) q).events else q.events;
  }

  head_time : List Entry → ℕ
  head_time [] = 0
  head_time (e ∷ es) = e.presentation_time_us

  -- A block that was predicted lost and is not ends the mode of predictions.
  unfoldable pub admit_wrong_prediction : Queue → Queue
  unfolding head_time
  admit_wrong_prediction q =
      let wrong = q.reported_lost_frame && not q.received_oos in
      record q {
        received_oos = q.received_oos || wrong;
        last_oos_timestamp = if wrong then head_time q.pending else q.last_oos_timestamp;
      }

  -- The second result is 0 if the block is completely constructed.
  unfoldable pub reconstruct_frame : Queue → Queue × ℕ
  unfolding run_recovery predict_loss admit_wrong_prediction
  reconstruct_frame q =
      if ltb (length q.pending) q.data_packets
      then (predict_loss q, 1)
      else let q' = admit_wrong_prediction q in
        if q'.received_data == q'.data_packets
        then (q', 0)
        else if ltb cfg.version 5
        then (q', 1)
        else run_recovery q' (cfg.decode q'.pending q'.data_packets q'.parity_packets)

-- ===== src/RtpAudioQueue/Complete.antt =====
-- completeFecBlock, queueHasPacketReady and handleMissingPackets of RtpAudioQueue.c, in the build
-- without FEC_VALIDATION_MODE.
use moonlight_common_c.Prelude.{
  is_empty, ℕ, ◌+◌, ◌-◌, ◌*◌, ◌%◌, ◌^◌, Bool, true, false, not, ◌&&◌, ◌||◌, Option, none, some,
  List, [], ◌∷◌, ltb, ◌==◌, if◌then◌else◌,
}
use moonlight_common_c.Seq.{u16, u32, is_before16}
use moonlight_common_c.RtpAudioQueue.State.{
  RtpPacket, FecBlock, AudioStats, AudioQueue, AudioConfig, Env, data_shards, update,
}
use moonlight_common_c.RtpAudioQueue.Admit.{count}

-- The packet at index `i` after the decoder has run: a missing one gets its header from the FEC
-- header.
unfoldable pub recovered : ℕ → FecBlock → (ℕ → List ℕ) → ℕ → RtpPacket
recovered duration b bodies i =
    if b.marks i
    then record {
      header = 0x80;
      packet_type = b.fec.payload_type;
      sequence_number = u16 (b.fec.base + i);
      timestamp = u32 (b.fec.timestamp + i * duration);
      ssrc = b.fec.ssrc;
      body = bodies i;
    }
    else record (b.data_packets i) { body = bodies i }

unfoldable pub reassemble : ℕ → FecBlock → (ℕ → List ℕ) → FecBlock
unfolding recovered
reassemble duration b bodies = record b {
  data_packets = λ i. if ltb i data_shards then recovered duration b bodies i else b.data_packets i;
  marks = λ i. if ltb i data_shards then false else b.marks i;
}

-- completeFecBlock: the block it leaves, what it returns and how many packets it recovers.
unfoldable pub complete_fec_block : AudioConfig → FecBlock → FecBlock × Bool × ℕ
unfolding reassemble
complete_fec_block cfg b =
    if ltb (b.data_received + b.fec_received) data_shards
    then (b, false, 0)
    else if b.data_received == data_shards
    then (b, true, 0)
    else from (cfg.decode (λ i. (b.data_packets i).body) b.fec_packets b.marks b.block_size)
  where
    from : Option (ℕ → List ℕ) → FecBlock × Bool × ℕ
    from none = (b, false, 0)
    from (some bodies) =
        (reassemble cfg.packet_duration b bodies, true, data_shards - b.data_received)

abbrev pub count_recovered : ℕ → AudioStats → AudioStats
count_recovered n s = record s { fec_recovered = u32 (s.fec_recovered + n) }

abbrev pub count_failed : AudioStats → AudioStats
count_failed s = record s { fec_failed = u32 (s.fec_failed + 1) }

abbrev pub completed : AudioConfig → FecBlock → FecBlock
completed cfg b =
    let (b', complete, n) = complete_fec_block cfg b in
    if complete then record b' { fully_reassembled = true } else b'

-- The call of completeFecBlock on the block at place `i`, and the assignment behind it.
unfoldable pub try_complete : AudioConfig → AudioQueue → ℕ → FecBlock → AudioQueue
unfolding count complete_fec_block
try_complete cfg q i b =
    let n = (complete_fec_block cfg b).2 in
    count (count_recovered n) (record q { blocks = update i (completed cfg) q.blocks })

-- queueHasPacketReady
unfoldable pub packet_ready : ℕ → FecBlock → Bool
packet_ready next b =
    not (b.marks b.next_index) && b.fec.base + b.next_index == next || b.allow_discontinuity

abbrev pub head_ready : ℕ → List FecBlock → Bool
head_ready next [] = false
head_ready next (b ∷ bs) = packet_ready next b

unfoldable pub queue_has_packet_ready : AudioQueue → Bool
unfolding packet_ready
queue_has_packet_ready q = head_ready q.next_number q.blocks

-- The limit of the wait for late packets. AudioPacketDuration counts milliseconds; the code adds it
-- to a number of microseconds as it is.
abbrev pub wait_limit : ℕ → ℕ
wait_limit duration = duration * data_shards + 10 * 1000

unfoldable pub waited_enough : ℕ → ℕ → ℕ → Bool
waited_enough duration now queued =
    ltb (wait_limit duration) ((now + 2 ^ 64 - queued % 2 ^ 64) % 2 ^ 64)

abbrev pub handle_missing_in : AudioConfig → Env → AudioQueue → List FecBlock → AudioQueue
handle_missing_in cfg env q [] = q
handle_missing_in cfg env q (b ∷ bs) =
    if is_before16 q.next_number b.fec.base
    then record q { next_number = b.fec.base; oldest_base = b.fec.base }
    else if is_empty bs
    then q
    else if not q.received_oos || waited_enough cfg.packet_duration env.now_head b.queue_time_us
    then record (count count_failed q) { blocks = record b { allow_discontinuity = true } ∷ bs }
    else q

-- handleMissingPackets
unfoldable pub handle_missing_packets : AudioConfig → Env → AudioQueue → AudioQueue
unfolding count waited_enough
handle_missing_packets cfg env q = handle_missing_in cfg env q q.blocks

-- ===== src/RtpAudioQueue/Admit.antt =====
-- getFecBlockForRtpPacket of RtpAudioQueue.c: which FEC block a packet belongs to.
use moonlight_common_c.Prelude.{
  ℕ, suc, ◌+◌, ◌-◌, ◌*◌, ◌/◌, ◌%◌, true, false, not, ◌&&◌, Option, none, some, List, [], ◌∷◌, ltb,
  leb, ◌==◌, if◌then◌else◌, byte_at,
}
use moonlight_common_c.Seq.{u16, u32, sub32, is_before16}
use moonlight_common_c.RtpAudioQueue.State.{
  RtpPacket, FecHeader, FecBlock, AudioStats, AudioQueue, AudioConfig, Env, data_shards, fec_shards,
  rtp_packet_size, fec_header_size, payload_audio, payload_fec, insert_at, allocate_fec_block,
}

abbrev pub be16_at : List ℕ → ℕ → ℕ
be16_at xs i = byte_at xs i * 256 + byte_at xs (i + 1)

abbrev pub be32_at : List ℕ → ℕ → ℕ
be32_at xs i = be16_at xs i * 65536 + be16_at xs (i + 2)

-- The FEC header that stands behind the RTP header, in network order.
unfoldable pub read_fec_header : List ℕ → FecHeader
read_fec_header xs = record {
  shard_index = byte_at xs 0;
  payload_type = byte_at xs 1;
  base = be16_at xs 2;
  timestamp = be32_at xs 4;
  ssrc = be32_at xs 8;
}

unfoldable pub count : (AudioStats → AudioStats) → AudioQueue → AudioQueue
count f q = record q { stats = f q.stats }

abbrev pub count_invalid : AudioStats → AudioStats
count_invalid s = record s { invalid = u32 (s.invalid + 1) }

abbrev pub count_fec_invalid : AudioStats → AudioStats
count_fec_invalid s = record s { fec_invalid = u32 (s.fec_invalid + 1) }

abbrev pub count_audio : AudioStats → AudioStats
count_audio s = record s { audio = u32 (s.audio + 1) }

abbrev pub count_fec : AudioStats → AudioStats
count_fec s = record s { fec = u32 (s.fec + 1) }

abbrev pub count_oos : AudioStats → AudioStats
count_oos s = record s { oos = u32 (s.oos + 1) }

-- How a data packet moves the queue between its two loss modes.
unfoldable pub note_sequence : AudioQueue → ℕ → AudioQueue
unfolding count
note_sequence q s =
    if not q.synchronizing && is_before16 s q.oldest_base
    then record (count count_oos q) { last_oos = s; received_oos = true }
    else if q.received_oos && is_before16 q.oldest_base q.last_oos
    then record q { received_oos = false }
    else q

-- The first part of getFecBlockForRtpPacket: the header of the packet's FEC block and the size of its
-- shards, or the rejection of the packet.
unfoldable pub data_header : ℕ → RtpPacket → FecHeader
data_header duration p =
    let base = p.sequence_number / data_shards * data_shards in
    record {
      shard_index = 0;
      payload_type = p.packet_type;
      base = base;
      timestamp = sub32 p.timestamp ((p.sequence_number - base) * duration);
      ssrc = p.ssrc;
    }

unfoldable pub read_data : ℕ → AudioQueue → RtpPacket → ℕ → AudioQueue × Option (FecHeader × ℕ)
unfolding count note_sequence data_header
read_data duration q p len = if ltb len rtp_packet_size then (count count_invalid q, none) else (
  note_sequence (count count_audio q) p.sequence_number,
  some (data_header duration p, len - rtp_packet_size),
)

-- The shard index of the packet is not part of the block.
unfoldable pub read_fec : AudioQueue → RtpPacket → ℕ → AudioQueue × Option (FecHeader × ℕ)
unfolding count read_fec_header
read_fec q p len =
    let h = read_fec_header p.body in
    let q' = count count_fec q in
    if ltb len (rtp_packet_size + fec_header_size)
    then (count count_fec_invalid q, none)
    else if leb fec_shards h.shard_index
    then (count count_fec_invalid q', none)
    else if not (h.base % data_shards == 0)
    then (record (count count_fec_invalid q') { incompatible = true }, none)
    else (q', some (record h { shard_index = 0 }, len - rtp_packet_size - fec_header_size))

unfoldable pub read_header : ℕ → AudioQueue → RtpPacket → ℕ → AudioQueue × Option (FecHeader × ℕ)
unfolding read_data read_fec
read_header duration q p len =
    if p.packet_type == payload_audio
    then read_data duration q p len
    else if p.packet_type == payload_fec
    then read_fec q p len
    else (q, none)

-- The search of the list: the place of the block with this base, or the place for a new one.
pub data Place : Type 0 where
  found : ℕ → FecBlock → Place
  absent : ℕ → Place

abbrev pub one_later : Place → Place
one_later (found i b) = found (suc i) b
one_later (absent i) = absent (suc i)

unfoldable pub find_block : ℕ → List FecBlock → Place
find_block base [] = absent 0
find_block base (b ∷ bs) =
    let later = one_later (find_block base bs) in
    if b.fec.base == base
    then found 0 b
    else if is_before16 base b.fec.base
    then absent 0
    else later

-- A block without shards.
unfoldable pub new_block : FecHeader → ℕ → ℕ → FecBlock
new_block h size now = record {
  data_packets = λ i. record {
    header = 0;
    packet_type = 0;
    sequence_number = 0;
    timestamp = 0;
    ssrc = 0;
    body = [];
  };
  fec_packets = λ i. [];
  marks = λ i. true;
  fec = h;
  queue_time_us = now;
  data_received = 0;
  fec_received = 0;
  fully_reassembled = false;
  next_index = 0;
  allow_discontinuity = false;
  block_size = size;
}

-- The last part: the existing block, unless it is complete or of another size, or a new one.
unfoldable pub take_place : Env → AudioQueue → FecHeader → ℕ → Place → AudioQueue × Option ℕ
unfolding count allocate_fec_block new_block
take_place env q h size (found i b) =
    if not (b.block_size == size)
    then (record (count count_fec_invalid q) { incompatible = true }, none)
    else if b.fully_reassembled
    then (q, none)
    else (q, some i)
take_place env q h size (absent i) =
    let (q', got) = allocate_fec_block env.has_memory q size in
    if got
    then (record q' { blocks = insert_at i (new_block h size env.now_new) q'.blocks }, some i)
    else (q', none)

-- The middle part: a new connection starts at the next block, and old packets are dropped.
unfoldable pub admit : Env → AudioQueue × Option (FecHeader × ℕ) → AudioQueue × Option ℕ
unfolding find_block take_place
admit env (q, none) = (q, none)
admit env (q, some (h, size)) =
    if q.synchronizing && q.oldest_base == 0
    then (
      record q {
        next_number = u16 (h.base + data_shards);
        oldest_base = u16 (h.base + data_shards);
      },
      none,
    )
    else if is_before16 h.base q.oldest_base
    then (q, none)
    else take_place env q h size (find_block h.base q.blocks)

-- getFecBlockForRtpPacket. A pointer to a block is its place in the list.
unfoldable pub get_fec_block :
    AudioConfig → Env → AudioQueue → RtpPacket → ℕ → AudioQueue × Option ℕ
unfolding read_header admit
get_fec_block cfg env q p len = admit env (read_header cfg.packet_duration q p len)

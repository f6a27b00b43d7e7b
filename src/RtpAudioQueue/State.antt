-- ===== src/RtpAudioQueue/State.antt =====
-- RtpAudioQueue.h, with RTP_PACKET of Video.h and RTP_AUDIO_STATS of Limelight.h: the state of the
-- audio queue. The doubly linked list of FEC blocks is a list, head first, and so is the list of free
-- blocks, of which only the sizes matter. A fixed array is a function of the index.
use moonlight_common_c.Prelude.{
  ℕ, zero, suc, ◌+◌, ◌*◌, Bool, true, false, not, Option, none, some, List, [], ◌∷◌, leb, ◌==◌,
  length, if◌then◌else◌,
}
use moonlight_common_c.Seq.{u16}

abbrev pub data_shards : ℕ
data_shards = 4

abbrev pub fec_shards : ℕ
fec_shards = 2

-- sizeof(RTP_PACKET) and sizeof(AUDIO_FEC_HEADER)
abbrev pub rtp_packet_size : ℕ
rtp_packet_size = 12

abbrev pub fec_header_size : ℕ
fec_header_size = 12

abbrev pub payload_audio : ℕ
payload_audio = 97

abbrev pub payload_fec : ℕ
payload_fec = 127

abbrev pub cached_block_limit : ℕ
cached_block_limit = 4

-- RTP_PACKET, its fields in the host's byte order, and the bytes behind it.
pub record RtpPacket : Type 0 where
  pub header : ℕ
  pub packet_type : ℕ
  pub sequence_number : ℕ
  pub timestamp : ℕ
  pub ssrc : ℕ
  pub body : List ℕ

-- AUDIO_FEC_HEADER
pub record FecHeader : Type 0 where
  pub shard_index : ℕ
  pub payload_type : ℕ
  pub base : ℕ
  pub timestamp : ℕ
  pub ssrc : ℕ

-- RTPA_FEC_BLOCK. A mark that is true says that the shard is missing; the FEC shards stand behind
-- the data shards.
pub record FecBlock : Type 0 where
  pub data_packets : ℕ → RtpPacket
  pub fec_packets : ℕ → List ℕ
  pub marks : ℕ → Bool
  pub fec : FecHeader
  pub queue_time_us : ℕ
  pub data_received : ℕ
  pub fec_received : ℕ
  pub fully_reassembled : Bool
  pub next_index : ℕ
  pub allow_discontinuity : Bool
  pub block_size : ℕ

-- RTP_AUDIO_STATS
pub record AudioStats : Type 0 where
  pub audio : ℕ
  pub fec : ℕ
  pub fec_recovered : ℕ
  pub fec_failed : ℕ
  pub oos : ℕ
  pub invalid : ℕ
  pub fec_invalid : ℕ

-- RTP_AUDIO_QUEUE. The Reed-Solomon context is constant.
pub record AudioQueue : Type 0 where
  pub blocks : List FecBlock
  pub free_blocks : List ℕ
  pub next_number : ℕ
  pub oldest_base : ℕ
  pub last_oos : ℕ
  pub received_oos : Bool
  pub synchronizing : Bool
  pub incompatible : Bool
  pub stats : AudioStats

-- What the queue takes from elsewhere: AudioPacketDuration, in milliseconds, and
-- reed_solomon_decode, applied to the payloads of the data shards, the FEC shards, the marks and the
-- block size. A decoder that fails gives none, else the payloads it leaves in the data shards.
pub record AudioConfig : Type 0 where
  pub packet_duration : ℕ
  pub decode : (ℕ → List ℕ) → (ℕ → List ℕ) → (ℕ → Bool) → ℕ → Option (ℕ → List ℕ)

-- One call's readings of PltGetMicroseconds, for a new block and for the one at the head, and
-- whether malloc succeeds.
pub record Env : Type 0 where
  pub now_new : ℕ
  pub now_head : ℕ
  pub has_memory : Bool

-- An assignment to one place of an array.
abbrev pub set_at {ℓ} : {A : Type ℓ} → (ℕ → A) → ℕ → A → ℕ → A
set_at f i a j = if j == i then a else f j

-- A write through a pointer to the block at place `i` of the list.
abbrev pub update : ℕ → (FecBlock → FecBlock) → List FecBlock → List FecBlock
update i f [] = []
update zero f (b ∷ bs) = f b ∷ bs
update (suc i) f (b ∷ bs) = b ∷ update i f bs

abbrev pub block_at : ℕ → List FecBlock → Option FecBlock
block_at i [] = none
block_at zero (b ∷ bs) = some b
block_at (suc i) (b ∷ bs) = block_at i bs

abbrev pub insert_at : ℕ → FecBlock → List FecBlock → List FecBlock
insert_at i b [] = b ∷ []
insert_at zero b (c ∷ bs) = b ∷ c ∷ bs
insert_at (suc i) b (c ∷ bs) = c ∷ insert_at i b bs

-- RtpaInitializeQueue. The argument is APP_VERSION_AT_LEAST(7, 1, 415).
unfoldable pub rtpa_initialize_queue : Bool → AudioQueue
rtpa_initialize_queue modern = record {
  blocks = [];
  free_blocks = [];
  next_number = 0;
  oldest_base = 0;
  last_oos = 0;
  received_oos = false;
  synchronizing = true;
  incompatible = not modern;
  stats = record {
    audio = 0;
    fec = 0;
    fec_recovered = 0;
    fec_failed = 0;
    oos = 0;
    invalid = 0;
    fec_invalid = 0;
  };
}

-- RtpaCleanupQueue
unfoldable pub rtpa_cleanup_queue : AudioQueue → AudioQueue
rtpa_cleanup_queue q = record q { blocks = []; free_blocks = [] }

-- allocateFecBlock: a cached block of the right size, else a new one. A cached block of another size
-- is freed.
abbrev pub allocate_from : Bool → AudioQueue → ℕ → List ℕ → AudioQueue × Bool
allocate_from has_memory q size [] = (q, has_memory)
allocate_from has_memory q size (cached ∷ rest) =
    if cached == size
    then (record q { free_blocks = rest }, true)
    else (record q { free_blocks = rest }, has_memory)

unfoldable pub allocate_fec_block : Bool → AudioQueue → ℕ → AudioQueue × Bool
allocate_fec_block has_memory q size = allocate_from has_memory q size q.free_blocks

-- freeFecBlockHead, which is called with a head only.
abbrev pub free_head_of : AudioQueue → List FecBlock → AudioQueue
free_head_of q [] = q
free_head_of q (b ∷ rest) = record q {
  blocks = rest;
  oldest_base = u16 (b.fec.base + data_shards);
  synchronizing = false;
  free_blocks =
      if leb cached_block_limit (length q.free_blocks)
      then q.free_blocks
      else b.block_size ∷ q.free_blocks;
}

unfoldable pub free_fec_block_head : AudioQueue → AudioQueue
free_fec_block_head q = free_head_of q q.blocks

-- Where allocateFecBlock's memory for a block is used: the shards stand one behind the other.
unfoldable pub slab_size : ℕ → ℕ
slab_size size = data_shards * u16 (size + rtp_packet_size) + fec_shards * size

unfoldable pub data_shard_at : ℕ → ℕ → ℕ
data_shard_at size i = i * u16 (size + rtp_packet_size)

unfoldable pub fec_shard_at : ℕ → ℕ → ℕ
fec_shard_at size i = data_shards * u16 (size + rtp_packet_size) + i * size

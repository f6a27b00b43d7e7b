-- ===== src/RtpAudioQueue.antt =====
-- RtpAudioQueue.c and RtpAudioQueue.h: the queue that hands audio packets to the decoder in order and
-- recovers lost ones by forward error correction, four data and two FEC shards to a block.
pub mod State
pub mod Admit
pub mod Complete
pub mod Inv
pub mod Blocks
pub mod Link
pub mod Shards
pub mod Admitted
pub mod Moves
pub mod AddKept
pub mod GetKept
pub mod Drain
pub mod Reassemble
pub mod Errors
pub mod Reach
mod Tests
use moonlight_common_c.Prelude.{
  ℕ, suc, ◌+◌, ◌-◌, ◌%◌, Bool, true, false, not, ◌&&◌, Option, none, some, List, [], ◌∷◌, ◌==◌,
  if◌then◌else◌, take, drop,
}
use moonlight_common_c.Seq.{u16, sub32}
use State.{
  RtpPacket, FecBlock, AudioQueue, AudioConfig, Env, data_shards, rtp_packet_size, fec_header_size,
  payload_audio, set_at, update, block_at, free_fec_block_head,
}
use Admit.{read_fec_header, get_fec_block}
use Complete.{try_complete, queue_has_packet_ready, handle_missing_packets}

-- The results 0, RTPQ_RET_PACKET_READY and RTPQ_RET_HANDLE_NOW.
pub data Answer : Type 0 where
  nothing ready handle_now : Answer

-- The copies of a packet of `len` bytes into its shard.
unfoldable pub store_data : RtpPacket → ℕ → ℕ → FecBlock → FecBlock
store_data p len pos b = record b {
  data_packets =
      set_at b.data_packets pos (record p { body = take (len - rtp_packet_size) p.body });
  marks = set_at b.marks pos false;
  data_received = (b.data_received + 1) % 256;
}

unfoldable pub store_fec : RtpPacket → ℕ → ℕ → FecBlock → FecBlock
store_fec p len index b = record b {
  fec_packets =
      set_at b.fec_packets index
        (take (len - rtp_packet_size - fec_header_size) (drop fec_header_size p.body));
  marks = set_at b.marks (data_shards + index) false;
  fec_received = (b.fec_received + 1) % 256;
}

-- The end of RtpaAddPacket: the block at place `i` has got a shard.
unfoldable pub after_shard : AudioConfig → Env → AudioQueue → ℕ → FecBlock → AudioQueue × Answer
unfolding try_complete queue_has_packet_ready handle_missing_packets
after_shard cfg env q i b =
    let q' = try_complete cfg q i b in
    let q'' = if queue_has_packet_ready q' then q' else handle_missing_packets cfg env q' in
    (q'', if queue_has_packet_ready q'' then ready else nothing)

-- A data packet with the number that is due next: the caller takes it at once.
unfoldable pub hand_through : AudioQueue → RtpPacket → ℕ → FecBlock → AudioQueue
unfolding free_fec_block_head
hand_through q p i b =
    let next = u16 (p.sequence_number + 1) in
    let q' = record q {
      next_number = next;
      blocks = update i (λ c. record c { next_index = (c.next_index + 1) % 256 }) q.blocks;
    } in
    if next == u16 (b.fec.base + data_shards) then free_fec_block_head q' else q'

unfoldable pub add_data :
    AudioConfig → Env → AudioQueue → RtpPacket → ℕ → ℕ → FecBlock → AudioQueue × Answer
unfolding store_data after_shard hand_through
add_data cfg env q p len i b =
    let pos = u16 (sub32 p.sequence_number b.fec.base) in
    let q' = record q { blocks = update i (store_data p len pos) q.blocks } in
    if not (b.marks pos)
    then (q, nothing)
    else if p.sequence_number == q.next_number
    then (hand_through q' p i b, handle_now)
    else after_shard cfg env q' i (store_data p len pos b)

unfoldable pub add_fec :
    AudioConfig → Env → AudioQueue → RtpPacket → ℕ → ℕ → FecBlock → AudioQueue × Answer
unfolding store_fec after_shard read_fec_header
add_fec cfg env q p len i b =
    let index = (read_fec_header p.body).shard_index in
    let q' = record q { blocks = update i (store_fec p len index) q.blocks } in
    if not (b.marks (data_shards + index))
    then (q, nothing)
    else after_shard cfg env q' i (store_fec p len index b)

abbrev pub add_at :
    AudioConfig → Env → RtpPacket → ℕ → AudioQueue → ℕ → Option FecBlock → AudioQueue × Answer
add_at cfg env p len q i none = (q, nothing)
add_at cfg env p len q i (some b) =
    if p.packet_type == payload_audio
    then add_data cfg env q p len i b
    else add_fec cfg env q p len i b

abbrev pub add_to : AudioConfig → Env → RtpPacket → ℕ → AudioQueue × Option ℕ → AudioQueue × Answer
add_to cfg env p len (q, none) = (q, nothing)
add_to cfg env p len (q, some i) = add_at cfg env p len q i (block_at i q.blocks)

-- RtpaAddPacket. getFecBlockForRtpPacket accepts no other payload type than the two.
unfoldable pub rtpa_add_packet :
    AudioConfig → Env → AudioQueue → RtpPacket → ℕ → AudioQueue × Answer
unfolding get_fec_block add_data add_fec
rtpa_add_packet cfg env q p len =
    if q.incompatible
    then (q, if p.packet_type == payload_audio then handle_now else nothing)
    else add_to cfg env p len (get_fec_block cfg env q p len)

-- What RtpaGetQueuedPacket returns: nothing, the placeholder of a lost packet, or a packet and the
-- length it reports.
pub data Queued : Type 0 where
  no_packet lost_packet : Queued
  queued_packet : RtpPacket → ℕ → Queued

-- Both branches that return a packet move on and free a block that is used up.
unfoldable pub advance : AudioQueue → FecBlock → List FecBlock → AudioQueue
unfolding free_fec_block_head
advance q b bs =
    let index = (b.next_index + 1) % 256 in
    let q' = record q {
      next_number = u16 (q.next_number + 1);
      blocks = record b { next_index = index } ∷ bs;
    } in
    if index == data_shards then free_fec_block_head q' else q'

abbrev pub ready_from : AudioQueue → List FecBlock → AudioQueue × Queued
ready_from q [] = (q, no_packet)
ready_from q (b ∷ bs) = (
  advance q b bs,
  queued_packet (b.data_packets b.next_index) (u16 (b.block_size + rtp_packet_size)),
)

-- The second half: the packet that is ready.
unfoldable pub get_ready : Bool → AudioQueue → AudioQueue × Queued
unfolding advance queue_has_packet_ready
get_ready has_memory q =
    if queue_has_packet_ready q && has_memory then ready_from q q.blocks else (q, no_packet)

abbrev pub get_from : Bool → AudioQueue → List FecBlock → AudioQueue × Queued
get_from has_memory q [] = get_ready has_memory q
get_from has_memory q (b ∷ bs) =
    if not b.allow_discontinuity
    then get_ready has_memory q
    else if b.marks b.next_index
    then if has_memory then (advance q b bs, lost_packet) else (q, no_packet)
    else get_ready has_memory (if b.next_index == data_shards then free_fec_block_head q else q)

-- RtpaGetQueuedPacket. The argument says whether malloc succeeds.
unfoldable pub rtpa_get_queued_packet : Bool → AudioQueue → AudioQueue × Queued
unfolding advance get_ready free_fec_block_head
rtpa_get_queued_packet has_memory q = get_from has_memory q q.blocks

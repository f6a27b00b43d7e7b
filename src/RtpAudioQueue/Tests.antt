-- ===== src/RtpAudioQueue/Tests.antt =====
-- Tests of the audio queue of RtpAudioQueue.c, and its theorems at concrete inputs.
use moonlight_common_c.Prelude.{
  Bool, not, ◌&&◌, ℕ, ◌+◌, ◌*◌, ◌/◌, ◌%◌, ◌<◌, ◌≡◌, ◌≢◌, refl, true, false, some, List, [], ◌∷◌,
  arith, if◌then◌else◌, map, ◌==◌,
}
use moonlight_common_c.Seq.{is_before16}
use moonlight_common_c.RtpAudioQueue.{
  Answer, nothing, ready, handle_now, Queued, no_packet, lost_packet, queued_packet,
  rtpa_add_packet, rtpa_get_queued_packet,
}
use moonlight_common_c.RtpAudioQueue.State.{
  RtpPacket, FecBlock, AudioQueue, AudioConfig, Env, rtpa_initialize_queue, slab_size,
  data_shard_at, fec_shard_at,
}
use moonlight_common_c.RtpAudioQueue.Admit.{read_fec_header}
use moonlight_common_c.RtpAudioQueue.Admitted.{block_base}
use moonlight_common_c.RtpAudioQueue.Complete.{complete_fec_block, queue_has_packet_ready}
use moonlight_common_c.RtpAudioQueue.Inv.{IsBlock, IsValid}
use moonlight_common_c.RtpAudioQueue.AddKept.{rtpa_add_packet-IsValid}
use moonlight_common_c.RtpAudioQueue.GetKept.{
  GivesNext, is_given, rtpa_get_queued_packet_lem, rtpa_get_queued_packet_ready,
}
use moonlight_common_c.RtpAudioQueue.Drain.{
  Rounds, drain, places_left, Ends, Consecutive, drain_lem,
}
use moonlight_common_c.RtpAudioQueue.Reassemble.{
  sent, IsRestored, complete_fec_block-sent, slab_size_lem,
}
use moonlight_common_c.RtpAudioQueue.Reach.{QueueReached, started, received, QueueReached-IsValid}

-- A stand-in for the decoder that gives every missing shard the payload 7.
abbrev config : AudioConfig
config = record {
  packet_duration = 5;
  decode = λ shards fecs marks size. some (λ i. if marks i then 7 ∷ [] else shards i);
}

abbrev env : Env
env = record { now_new = 1000; now_head = 2000; has_memory = true }

abbrev data_packet : ℕ → RtpPacket
data_packet n = record {
  header = 0x80;
  packet_type = 97;
  sequence_number = n;
  timestamp = 5 * n;
  ssrc = 1;
  body = n % 256 ∷ [];
}

-- The first FEC packet of the block that starts at 4 * n.
abbrev fec_packet : ℕ → RtpPacket
fec_packet n = record {
  header = 0x80;
  packet_type = 127;
  sequence_number = 0;
  timestamp = 0;
  ssrc = 0;
  body =
      0 ∷ 97 ∷ (4 * n / 256) ∷ (4 * n % 256) ∷ 0 ∷ 0 ∷ 0 ∷ (20 * n % 256) ∷ 0 ∷ 0 ∷ 0 ∷ 1 ∷ 9 ∷ [];
}

abbrev add : RtpPacket → ℕ → AudioQueue → AudioQueue × Answer
add p len q = rtpa_add_packet config env q p len

abbrev fresh : AudioQueue
fresh = rtpa_initialize_queue true

-- Packet 100 makes the queue start at 104; 104 comes, 105 is late, 106, 107 and FEC come.
abbrev synced : AudioQueue
synced = (add (data_packet 100) 13 fresh).0

abbrev one_in : AudioQueue
one_in = (add (data_packet 104) 13 synced).0

abbrev gap : AudioQueue
gap = (add (data_packet 107) 13 (add (data_packet 106) 13 one_in).0).0

abbrev recovered_gap : AudioQueue
recovered_gap = (add (fec_packet 26) 25 gap).0

handed_through : (add (data_packet 104) 13 synced).1 ≡ handle_now
unfolding rtpa_add_packet rtpa_initialize_queue is_before16
handed_through = refl

waits : (add (data_packet 106) 13 one_in).1 ≡ nothing
unfolding rtpa_add_packet rtpa_initialize_queue is_before16
waits = refl

announced : (add (fec_packet 26) 25 gap).1 ≡ ready
unfolding rtpa_add_packet rtpa_initialize_queue is_before16
announced = refl

abbrev number : Queued → ℕ
number no_packet = 0
number lost_packet = 1
number (queued_packet p len) = p.sequence_number

-- The decoder's queue is shut down at the third packet if `exits`.
abbrev rounds : Bool → Rounds
rounds exits = record {
  has_memory = λ i. true;
  direct_submit = false;
  is_taken = λ i. not (exits && i == 2);
}

drained : map number (drain (rounds false) 9 0 recovered_gap).passed ≡ 105 ∷ 106 ∷ 107 ∷ []
unfolding rtpa_add_packet rtpa_initialize_queue is_before16 drain rtpa_get_queued_packet
drained = refl

stopped_early : map number (drain (rounds true) 9 0 recovered_gap).passed ≡ 105 ∷ 106 ∷ []
unfolding rtpa_add_packet rtpa_initialize_queue is_before16 drain rtpa_get_queued_packet
stopped_early = refl

-- With a second block and no late packets so far, the queue gives up on the first one.
abbrev given_up : AudioQueue
given_up = (add (data_packet 108) 13 gap).0

skipped : map number (drain (rounds false) 9 0 given_up).passed ≡ 1 ∷ 106 ∷ 107 ∷ 108 ∷ []
unfolding rtpa_add_packet rtpa_initialize_queue is_before16 drain rtpa_get_queued_packet
skipped = refl

-- A stream that starts right before the numbers wrap: packet 65528 sets the queue to 65532, packet 1
-- makes it resume at 0 while it is still synchronizing, and packet 2 sets it to 4 although the block
-- of packet 1 is queued.
abbrev wrapped : AudioQueue
wrapped = (add (data_packet 2) 13 (add (data_packet 1) 13 (add (data_packet 65528) 13 fresh).0).0).0

abbrev bases : AudioQueue → List ℕ
bases q = map (λ b. b.fec.base) q.blocks

left_behind : (bases wrapped ≡ 0 ∷ []) × (wrapped.oldest_base ≡ 4) × (wrapped.next_number ≡ 4)
unfolding rtpa_add_packet rtpa_initialize_queue is_before16
left_behind = (refl, refl, refl)

-- When packets 4 to 7 have been handed through, the block of packet 1 is freed in place of theirs.
abbrev four_more : AudioQueue
four_more =
    (add (data_packet 7) 13
      (add (data_packet 6) 13 (add (data_packet 5) 13 (add (data_packet 4) 13 wrapped).0).0).0).0

abbrev indices : AudioQueue → List ℕ
indices q = map (λ b. b.next_index) q.blocks

-- An FEC packet of that block then announces its data packet with index 4, and there are four.
wrong_block_freed :
    (bases four_more ≡ 4 ∷ [])
    × (indices four_more ≡ 4 ∷ [])
    × ((add (fec_packet 1) 25 four_more).1 ≡ ready)
unfolding rtpa_add_packet rtpa_initialize_queue is_before16
wrong_block_freed = (refl, refl, refl)

-- The theorems at the states above.

synced-QueueReached : QueueReached config synced
synced-QueueReached =
    received env fresh (data_packet 100) 13 (omega arith) (λ _ e. absurd (omega arith))
      (started true)

one_in-QueueReached : QueueReached config one_in
unfolding rtpa_add_packet
one_in-QueueReached =
    received env synced (data_packet 104) 13 (omega arith) (λ _ e. absurd (omega arith))
      synced-QueueReached

gap-QueueReached : QueueReached config gap
gap-QueueReached =
    received env _ (data_packet 107) 13 (omega arith) (λ _ e. absurd (omega arith))
      (received env one_in (data_packet 106) 13 (omega arith) (λ _ e. absurd (omega arith))
        one_in-QueueReached)

QueueReached-IsValid_example : IsValid gap
QueueReached-IsValid_example = QueueReached-IsValid config gap gap-QueueReached

fec_nonzero : block_base (fec_packet 26) ≢ 0
unfolding read_fec_header
fec_nonzero e = absurd (omega arith)

recovered_gap-QueueReached : QueueReached config recovered_gap
recovered_gap-QueueReached =
    received env gap (fec_packet 26) 25 (omega arith) (λ _. fec_nonzero) gap-QueueReached

rtpa_add_packet-IsValid_example : IsValid recovered_gap
rtpa_add_packet-IsValid_example =
    rtpa_add_packet-IsValid config env gap (fec_packet 26) 25
      (QueueReached-IsValid config gap gap-QueueReached) (omega arith) (λ _. fec_nonzero)

recovered_gap-IsValid : IsValid recovered_gap
recovered_gap-IsValid = QueueReached-IsValid config recovered_gap recovered_gap-QueueReached

rtpa_get_queued_packet_example :
    IsValid (rtpa_get_queued_packet true recovered_gap).0
    × GivesNext recovered_gap (rtpa_get_queued_packet true recovered_gap)
rtpa_get_queued_packet_example = rtpa_get_queued_packet_lem true recovered_gap recovered_gap-IsValid

rtpa_get_queued_packet_ready_example :
    is_given (rtpa_get_queued_packet true recovered_gap).1 ≡ queue_has_packet_ready recovered_gap
rtpa_get_queued_packet_ready_example =
    rtpa_get_queued_packet_ready recovered_gap recovered_gap-IsValid

few_places : places_left recovered_gap.blocks < 9
unfolding rtpa_add_packet rtpa_initialize_queue is_before16
few_places = omega arith

drain_example :
    Ends (rounds true) 0 recovered_gap.next_number (drain (rounds true) 9 0 recovered_gap)
    × Consecutive recovered_gap.next_number (drain (rounds true) 9 0 recovered_gap).passed
    × IsValid (drain (rounds true) 9 0 recovered_gap).queue
drain_example = drain_lem (rounds true) 9 0 recovered_gap recovered_gap-IsValid few_places

slab_size_example :
    (data_shard_at 100 3 + 112 ≡ data_shard_at 100 4)
    × (data_shard_at 100 4 ≡ fec_shard_at 100 0)
    × (fec_shard_at 100 1 + 100 ≡ fec_shard_at 100 2)
    × (fec_shard_at 100 2 ≡ slab_size 100)
slab_size_example = slab_size_lem 100 3 1 (omega arith) (omega arith) (omega arith)

-- A block of packets 104 to 107 of which 105 is missing, and a decoder that knows the payloads.
abbrev bodies : ℕ → List ℕ
bodies i = i ∷ []

abbrev knowing : AudioConfig
knowing = record { packet_duration = 5; decode = λ shards fecs marks size. some bodies }

abbrev part : FecBlock
part = record {
  data_packets = sent 104 520 1 5 bodies;
  fec_packets = bodies;
  marks = λ i. i == 1;
  fec = record { shard_index = 0; payload_type = 97; base = 104; timestamp = 520; ssrc = 1 };
  queue_time_us = 0;
  data_received = 3;
  fec_received = 2;
  fully_reassembled = false;
  next_index = 1;
  allow_discontinuity = false;
  block_size = 1;
}

part-IsBlock : IsBlock part
unfolding sent
part-IsBlock = record {
  bound = omega arith;
  aligned = omega arith;
  index = omega arith;
  numbered = λ i h there. refl;
  counted = λ _. (refl, refl);
  whole = λ full. absurd (cc full);
}

complete_fec_block_example : IsRestored 104 520 1 5 bodies 1 (complete_fec_block knowing part)
complete_fec_block_example =
    complete_fec_block-sent 104 520 1 5 bodies knowing bodies part 1 refl
      (λ shards fecs marks size enough has_data has_fec. (bodies, refl, λ i h. refl)) (omega arith)
      part-IsBlock
      (record {
        of_base = refl;
        of_type = refl;
        of_start = refl;
        of_ssrc = refl;
        as_sent = λ i h there. refl;
      })
      refl (λ j h there. refl) (omega arith) (omega arith)

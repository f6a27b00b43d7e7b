-- ===== src/RtpAudioQueue/Reach.antt =====
-- The states of the audio queue that the receive thread of AudioStream.c can bring about:
-- initialisation, packets in any order and with any content, and calls that fetch packets.
use moonlight_common_c.Prelude.{ℕ, ◌^◌, ◌<◌, ◌≡◌, ◌≢◌, refl, Bool, true, arith}
use moonlight_common_c.RtpAudioQueue.{rtpa_add_packet, rtpa_get_queued_packet}
use moonlight_common_c.RtpAudioQueue.State.{
  RtpPacket, AudioQueue, AudioConfig, Env, rtpa_initialize_queue,
}
use moonlight_common_c.RtpAudioQueue.Inv.{IsValid}
use moonlight_common_c.RtpAudioQueue.Admitted.{block_base}
use moonlight_common_c.RtpAudioQueue.AddKept.{rtpa_add_packet-IsValid}
use moonlight_common_c.RtpAudioQueue.GetKept.{rtpa_get_queued_packet_lem}

pub data QueueReached (cfg : AudioConfig) : AudioQueue → Type 0 where
  started : (modern : Bool) → QueueReached cfg (rtpa_initialize_queue modern)
  received :
      (env : Env) (q : AudioQueue) (p : RtpPacket) (len : ℕ)
      → p.sequence_number < 2 ^ 16
      → (q.synchronizing ≡ true → block_base p ≢ 0)
      → QueueReached cfg q
      → QueueReached cfg (rtpa_add_packet cfg env q p len).0
  fetched :
      (has_memory : Bool) (q : AudioQueue)
      → QueueReached cfg q
      → QueueReached cfg (rtpa_get_queued_packet has_memory q).0

initialize-IsValid : (modern : Bool) → IsValid (rtpa_initialize_queue modern)
unfolding rtpa_initialize_queue
initialize-IsValid modern = record {
  oldest_bound = omega arith;
  oldest_aligned = omega arith;
  next_bound = omega arith;
  near = omega arith;
  list = refl;
  synced = λ _. (tt, λ _. refl);
}

-- Every queue that calls of RtpaAddPacket and RtpaGetQueuedPacket bring about from an initialised one
-- is valid: its blocks are in order, start at multiples of four and hold packets with the numbers of
-- their places, and the number due next lies in the first block or right before all of them. The
-- packets have 16-bit numbers, and none of the block 0 comes while the queue is synchronizing.
pub QueueReached-IsValid : (cfg : AudioConfig) (q : AudioQueue) → QueueReached cfg q → IsValid q
QueueReached-IsValid cfg _ (started modern) = initialize-IsValid modern
QueueReached-IsValid cfg _ (received env q p len hs nonzero r) =
    rtpa_add_packet-IsValid cfg env q p len (QueueReached-IsValid cfg q r) hs nonzero
QueueReached-IsValid cfg _ (fetched has_memory q r) =
    (rtpa_get_queued_packet_lem has_memory q (QueueReached-IsValid cfg q r)).0

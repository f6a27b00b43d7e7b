-- ===== src/RtpAudioQueue/Errors.antt =====
-- The packets that RtpAudioQueue.c turns away for their form.
use moonlight_common_c.Prelude.{
  ℕ, ◌%◌, ◌≡◌, Bool, true, false, ◌&&◌, Option, none, some, ltb, leb, ◌==◌, if◌then◌else◌,
}
use moonlight_common_c.RtpAudioQueue.{Answer, nothing, handle_now}
use moonlight_common_c.RtpAudioQueue.State.{
  RtpPacket, FecHeader, AudioQueue, payload_audio, payload_fec,
}
use moonlight_common_c.RtpAudioQueue.Admit.{read_fec_header}
use moonlight_common_c.RtpAudioQueue.Inv.{core}

-- Whether a packet has the form that the queue wants.
abbrev pub well_formed : RtpPacket → ℕ → Bool
well_formed p len =
    if p.packet_type == payload_audio
    then leb 12 len
    else p.packet_type == payload_fec
      && leb 24 len
      && ltb (read_fec_header p.body).shard_index 2
      && (read_fec_header p.body).base % 4 == 0

-- The parts of a queue that a malformed packet may change: two counters of the statistics and, for an
-- FEC block in the wrong place, the switch that turns recovery off.
pub record IsUntouched (q q' : AudioQueue) : Type 0 where
  pub same_core : core q' ≡ core q
  pub same_free : q'.free_blocks ≡ q.free_blocks
  pub same_oos : (q'.last_oos ≡ q.last_oos) × (q'.received_oos ≡ q.received_oos)

abbrev Rejects : Bool → AudioQueue → AudioQueue × Option (FecHeader × ℕ) → Type 0
Rejects formed q (q', none) = (formed ≡ false) × IsUntouched q q'
Rejects formed q (q', some h) = formed ≡ true

-- The answer to a malformed packet. A queue that was found incompatible with the host's FEC looks at the
-- type only.
abbrev pub turned_away : AudioQueue → RtpPacket → Answer
turned_away q p = if q.incompatible && p.packet_type == payload_audio then handle_now else nothing

abbrev pub TurnedAway : AudioQueue → RtpPacket → AudioQueue × Answer → Type 0
TurnedAway q p (q', answer) = (answer ≡ turned_away q p) × IsUntouched q q'

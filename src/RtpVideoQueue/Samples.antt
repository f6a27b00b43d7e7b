-- ===== src/RtpVideoQueue/Samples.antt =====
-- Runs of the video queue on a frame of two data packets and one of parity, from the sequence number
-- 65535 on.
use moonlight_common_c.Prelude.{
  ℕ, ◌+◌, ◌*◌, ◌^◌, ◌≡◌, refl, true, List, [], ◌∷◌, ◌==◌, if◌then◌else◌, length,
}
use moonlight_common_c.Seq.{u16, is_before16}
use moonlight_common_c.RtpVideoQueue.{add_packet, finish_block}
use moonlight_common_c.RtpVideoQueue.State.{
  NvPacket, Packet, seq_of, Queue, report_status, Event, frame_lost, saw_frame, fec_status,
  submitted, initialize,
}
use moonlight_common_c.RtpVideoQueue.Insert.{queue_packet}
use moonlight_common_c.RtpVideoQueue.Recover.{
  Config, decoded, is_missing, is_corrupt, recovered_packet,
}
use moonlight_common_c.RtpVideoQueue.Stage.{scan, submit_completed_frame, stage_complete_block}

-- The header of the packet with this index, with these flags.
abbrev pub nv_at : ℕ → ℕ → NvPacket
nv_at i flags = record {
  stream_packet_index = 0;
  frame_index = 1;
  flags = flags;
  extra_flags = 0;
  multi_fec_flags = 0x10;
  multi_fec_blocks = 0;
  fec_info = 2 * 2 ^ 22 + i * 2 ^ 12 + 50 * 2 ^ 4;
}

abbrev pub packet_at : ℕ → ℕ → Packet
packet_at i flags = record {
  header = 0x90;
  sequence_number = u16 (65535 + i);
  timestamp = 900;
  ssrc = 0;
  nv = nv_at i flags;
  body = 100 + i;
}

abbrev pub first_packet : Packet
first_packet = packet_at 0 5

abbrev pub second_packet : Packet
second_packet = packet_at 1 3

abbrev pub parity_packet : Packet
parity_packet = packet_at 2 0

-- A decoder that gives the two data packets back.
abbrev pub both : Config
both = record {
  version = 7;
  packet_size = 1024;
  decode = λ es d n. decoded 0 (λ i. if i == 0 then nv_at 0 5 else nv_at 1 3) (λ i. 100 + i);
}

submitted_numbers : List Event → List ℕ
submitted_numbers [] = []
submitted_numbers (submitted e ∷ es) = seq_of e ∷ submitted_numbers es
submitted_numbers (frame_lost f b ∷ es) = submitted_numbers es
submitted_numbers (saw_frame f ∷ es) = submitted_numbers es
submitted_numbers (fec_status s ∷ es) = submitted_numbers es

run_two : Packet → Packet → Queue
run_two p r = (add_packet both (add_packet both (initialize true) p 1040 7).0 r 1040 8).0

-- Out of order the frame is submitted in order, with its numbers going round.
reordered : submitted_numbers (run_two second_packet first_packet).events ≡ 65535 ∷ 0 ∷ []
unfolding submitted_numbers run_two add_packet initialize is_before16 queue_packet finish_block
    stage_complete_block scan submit_completed_frame
reordered = refl

-- A lost packet is recovered.
recovered_run : submitted_numbers (run_two second_packet parity_packet).events ≡ 65535 ∷ 0 ∷ []
unfolding submitted_numbers run_two add_packet initialize is_before16 queue_packet is_missing
    is_corrupt recovered_packet report_status finish_block stage_complete_block scan
    submit_completed_frame
recovered_run = refl

-- A packet alone is kept.
alone : length (add_packet both (initialize true) second_packet 1040 7).0.pending ≡ 1
unfolding add_packet initialize is_before16 queue_packet
alone = refl

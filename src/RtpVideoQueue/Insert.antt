-- ===== src/RtpVideoQueue/Insert.antt =====
-- queuePacket of RtpVideoQueue.c: how a packet joins the pending block.
use moonlight_common_c.Prelude.{
  ℕ, ◌+◌, ◌*◌, ◌/◌, Bool, true, false, ◌&&◌, ◌||◌, List, [], ◌∷◌, ◌++◌, ltb, ◌==◌, if◌then◌else◌,
}
use moonlight_common_c.Seq.{u16, is_before16}
use moonlight_common_c.RtpVideoQueue.State.{Packet, Entry, seq_of, Queue}

abbrev pub cooldown_us : ℕ
cooldown_us = 300_000_000

abbrev pub pts_divisor : ℕ
pts_divisor = 90

-- The loop over the pending entries: whether the number is there, and whether an entry with a
-- higher number is. The C loop stops at a duplicate, when the second result is not used.
unfoldable pub has_seq : ℕ → List Entry → Bool
has_seq s [] = false
has_seq s (e ∷ es) = s == seq_of e || has_seq s es

unfoldable pub precedes_some : ℕ → List Entry → Bool
precedes_some s [] = false
precedes_some s (e ∷ es) = is_before16 s (seq_of e) || precedes_some s es

-- The new entry. Its receive time is set when its block is staged.
abbrev pub new_entry : Packet → ℕ → Bool → Entry
new_entry p len parity = record {
  packet = p;
  receive_time_us = 0;
  presentation_time_us = p.timestamp * 1000 / pts_divisor;
  rtp_timestamp = p.timestamp;
  length = len;
  is_parity = parity;
}

-- How received packets, but not recovered ones, move the queue between its two loss modes.
unfoldable pub note_order : Queue → ℕ → Bool → Queue
note_order q time out_of_sequence =
    if out_of_sequence
    then record q { last_oos_timestamp = time; received_oos = true }
    else if q.received_oos && ltb (q.last_oos_timestamp + cooldown_us) time
    then record q { received_oos = false }
    else q

unfoldable pub append_entry : Queue → Packet → ℕ → Bool → Bool → Bool → Queue
unfolding note_order
append_entry q p len parity recovered out_of_sequence =
    let e = new_entry p len parity in
    let q' = if recovered then q else note_order q e.presentation_time_us out_of_sequence in
    record q {
      pending = q.pending ++ e ∷ [];
      last_oos_timestamp = q'.last_oos_timestamp;
      received_oos = q'.received_oos;
    }

unfoldable pub queue_packet : Queue → Packet → ℕ → Bool → Bool → Queue × Bool
unfolding has_seq precedes_some append_entry
queue_packet q p len parity recovered =
    if q.use_fast_path && p.sequence_number == q.next_contiguous
    then (
      append_entry (record q { next_contiguous = u16 (p.sequence_number + 1) }) p len parity
          recovered false,
      true,
    )
    else if has_seq p.sequence_number q.pending
    then (q, false)
    else (
      append_entry (record q { use_fast_path = false }) p len parity recovered
          (precedes_some p.sequence_number q.pending),
      true,
    )

-- ===== src/RtpAudioQueue/Reassemble.antt =====
-- Recovery in RtpAudioQueue.c: completeFecBlock gives back the packets as the host sent them, and the
-- memory of a block holds its shards.
use moonlight_common_c.Prelude.{
  ℕ, ◌+◌, ◌-◌, ◌*◌, ◌/◌, ◌%◌, ◌^◌, ◌≤◌, ◌<◌, ◌≡◌, refl, sym, ap, ◌∙◌, subst, Bool, true, false,
  some, List, arith, ltb, ◌==◌, Bool-cases, inl, inr, if_cases, ap₂, lt→ltb,
}
use moonlight_common_c.Seq.{u16, u32}
use moonlight_common_c.RtpAudioQueue.State.{
  RtpPacket, FecBlock, AudioConfig, data_shards, rtp_packet_size, payload_audio, slab_size,
  data_shard_at, fec_shard_at,
}
use moonlight_common_c.RtpAudioQueue.Admit.{data_header}
use moonlight_common_c.RtpAudioQueue.Complete.{complete_fec_block, reassemble, recovered}
use moonlight_common_c.RtpAudioQueue.Inv.{IsBlock, present, fec_present}
use moonlight_common_c.RtpAudioQueue.Shards.{present_all}

same_start :
    (start x : ℕ) → start < 2 ^ 32 → (u32 (start + x) + 2 ^ 32 - x % 2 ^ 32) % 2 ^ 32 ≡ start
same_start start x hs = omega arith

-- What a host sends in one block: packets with consecutive numbers and evenly spaced times.
module _ (base start ssrc duration : ℕ) (bodies : ℕ → List ℕ) where
  unfoldable pub sent : ℕ → RtpPacket
  sent i = record {
    header = 0x80;
    packet_type = payload_audio;
    sequence_number = base + i;
    timestamp = u32 (start + i * duration);
    ssrc = ssrc;
    body = bodies i;
  }

  -- The header that such packets give their block.
  pub data_header-sent :
      (i : ℕ)
      → i < 4
      → base % 4 ≡ 0
      → start < 2 ^ 32
      → data_header duration (sent i) ≡ record {
        shard_index = 0;
        payload_type = payload_audio;
        base = base;
        timestamp = start;
        ssrc = ssrc;
      }
  unfolding data_header sent
  data_header-sent i h aligned hs =
      let first : (base + i) / 4 * 4 ≡ base = omega arith in
      let back : base + i - base ≡ i = omega arith in
      rw (first, back, same_start start (i * duration) hs) refl

  -- The data packets that are there are the ones sent, and the header is that of the block.
  pub record IsPart (b : FecBlock) : Type 0 where
    pub of_base : b.fec.base ≡ base
    pub of_type : b.fec.payload_type ≡ payload_audio
    pub of_start : b.fec.timestamp ≡ start
    pub of_ssrc : b.fec.ssrc ≡ ssrc
    pub as_sent : (i : ℕ) → i < 4 → b.marks i ≡ false → b.data_packets i ≡ sent i

  -- A decoder that restores the payloads from any four shards of the block whose FEC shards are
  -- `parity`.
  abbrev pub Restores : AudioConfig → (ℕ → List ℕ) → Type 0
  Restores cfg parity =
      (shards fecs : ℕ → List ℕ) (marks : ℕ → Bool) (size : ℕ)
      → 4 ≤ present marks 4 + fec_present marks
      → ((i : ℕ) → i < 4 → marks i ≡ false → shards i ≡ bodies i)
      → ((j : ℕ) → j < 2 → marks (4 + j) ≡ false → fecs j ≡ parity j)
      → (out : ℕ → List ℕ) × (cfg.decode shards fecs marks size ≡ some out)
        × ((i : ℕ) → i < 4 → out i ≡ bodies i)

  recovered-sent :
      (b : FecBlock) (out : ℕ → List ℕ) (i : ℕ)
      → i < 4
      → base % 4 ≡ 0
      → base < 2 ^ 16
      → IsPart b
      → out i ≡ bodies i
      → recovered duration b out i ≡ sent i
  unfolding recovered sent
  recovered-sent b out i h aligned bound part e = elim (Bool-cases (b.marks i)) [
    | inl missing ↦
        let number : u16 (base + i) ≡ base + i = omega arith in
        rw (missing, part.of_base, part.of_type, part.of_start, part.of_ssrc, number, e) refl
    | inr there ↦ rw (there, part.as_sent i h there, e) refl
  ]

  -- The result: the block is complete, and its data packets are the ones sent.
  abbrev pub IsRestored : ℕ → FecBlock × Bool × ℕ → Type 0
  IsRestored i (b, complete, n) = (complete ≡ true) × (b.data_packets i ≡ sent i)

  -- completeFecBlock gives back the packets of a block as the host sent them, headers and payloads, once
  -- any four shards are there, if the decoder restores the payloads from any four shards. The host's
  -- packets have consecutive 16-bit numbers and evenly spaced times, and the data packets and FEC
  -- shards that are there are the ones sent.
  pub complete_fec_block-sent :
      (cfg : AudioConfig) (parity : ℕ → List ℕ) (b : FecBlock) (i : ℕ)
      → cfg.packet_duration ≡ duration
      → Restores cfg parity
      → base < 2 ^ 16
      → IsBlock b
      → IsPart b
      → b.fully_reassembled ≡ false
      → ((j : ℕ) → j < 2 → b.marks (4 + j) ≡ false → b.fec_packets j ≡ parity j)
      → 4 ≤ b.data_received + b.fec_received
      → i < 4
      → IsRestored i (complete_fec_block cfg b)
  unfolding complete_fec_block reassemble sent
  complete_fec_block-sent cfg parity b i same restores bound block part undone fecs enough h =
      let (data_count, fec_count) = block.counted undone in
      let present : (i : ℕ) → i < 4 → b.marks i ≡ false → (b.data_packets i).body ≡ bodies i =
        λ j hj there. ap (λ (r : RtpPacket). r.body) (part.as_sent j hj there) in
      let (out, decoded, right) =
        restores (λ i. (b.data_packets i).body) b.fec_packets b.marks b.block_size
          (subst (λ n. 4 ≤ n) (ap₂ (λ m n. m + n) data_count fec_count) enough) present fecs in
      if_cases (IsRestored i) (ltb (b.data_received + b.fec_received) data_shards)
        (λ few. absurd (ground arith))
        (λ _.
          if_cases (IsRestored i) (b.data_received == data_shards)
            (λ all.
              (refl, part.as_sent i h (present_all b.marks (sym data_count ∙ ground arith) i h)))
            (λ _. rw decoded (
              refl,
              rw (lt→ltb i 4 h, same)
                  (recovered-sent b out i h (subst (λ n. n % 4 ≡ 0) part.of_base block.aligned)
                    bound part (right i h)),
            )))

-- The memory of a block: whatever the size of its shards, which a 16-bit packet length bounds, the
-- four data packets and the two FEC shards lie one behind the other, none over another, and all
-- within what allocateFecBlock asks for.
pub slab_size_lem :
    (size i j : ℕ)
    → size + rtp_packet_size < 2 ^ 16
    → i < 4
    → j < 2
    → (data_shard_at size i + (size + rtp_packet_size) ≡ data_shard_at size (i + 1))
      × (data_shard_at size 4 ≡ fec_shard_at size 0)
      × (fec_shard_at size j + size ≡ fec_shard_at size (j + 1))
      × (fec_shard_at size 2 ≡ slab_size size)
unfolding slab_size data_shard_at fec_shard_at
slab_size_lem size i j h hi hj =
    let whole : u16 (size + rtp_packet_size) ≡ size + 12 = omega arith in
    rw whole (omega arith, omega arith, omega arith, omega arith)

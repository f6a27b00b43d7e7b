-- ===== src/RtpAudioQueue/AddKept.antt =====
-- RtpaAddPacket of RtpAudioQueue.c keeps the audio queue valid.
use moonlight_common_c.Prelude.{
  ℕ, ◌+◌, ◌*◌, ◌/◌, ◌^◌, ◌<◌, ◌≡◌, ◌≢◌, refl, sym, ◌∙◌, subst, true, false, not, Option, none, some,
  List, arith, ◌==◌, if_cases, some-injective,
}
use moonlight_common_c.Seq.{u16, sub32}
use moonlight_common_c.RtpAudioQueue.{
  Answer, store_data, store_fec, after_shard, hand_through, add_data, add_fec, add_to,
  rtpa_add_packet,
}
use moonlight_common_c.RtpAudioQueue.State.{
  RtpPacket, FecBlock, AudioQueue, AudioConfig, Env, payload_audio, block_at, update,
}
use moonlight_common_c.RtpAudioQueue.Admit.{read_fec_header, count, get_fec_block}
use moonlight_common_c.RtpAudioQueue.Complete.{completed, try_complete, queue_has_packet_ready}
use moonlight_common_c.RtpAudioQueue.Inv.{core, IsValid}
use moonlight_common_c.RtpAudioQueue.Blocks.{IsWrite, IsWriteAt, update-block_at}
use moonlight_common_c.RtpAudioQueue.Shards.{
  store_data-IsWrite, store_fec-IsWrite, completed-IsWrite,
}
use moonlight_common_c.RtpAudioQueue.Admitted.{
  block_base, IsChosen, IsAdmitted, get_fec_block-IsAdmitted,
}
use moonlight_common_c.RtpAudioQueue.Moves.{
  update-IsSound, handle_missing_packets-IsValid, hand_through-IsValid,
}

at_write :
    (f : FecBlock → FecBlock) (i : ℕ) (bs : List FecBlock) (b : FecBlock)
    → block_at i bs ≡ some b
    → IsWrite b (f b)
    → IsWriteAt i bs f
at_write f i bs b e w =
    λ c at. subst (λ (x : FecBlock). IsWrite x (f x)) (some-injective b c (sym e ∙ at)) w

module _ (cfg : AudioConfig) (env : Env) where
  after_shard-IsValid :
      (q : AudioQueue) (i : ℕ) (b : FecBlock)
      → IsValid q
      → block_at i q.blocks ≡ some b
      → b.fully_reassembled ≡ false
      → IsValid (after_shard cfg env q i b).0
  unfolding after_shard try_complete count
  after_shard-IsValid q i b valid e undone =
      let write = at_write (completed cfg) i q.blocks b e (completed-IsWrite b undone cfg) in
      let valid' = update-IsSound (core q) i (completed cfg) write valid in
      let q' = try_complete cfg q i b in
      if_cases IsValid (queue_has_packet_ready q') (λ _. valid')
        (λ _. handle_missing_packets-IsValid cfg env q' valid')

  module _ (q : AudioQueue) (p : RtpPacket) (len i : ℕ) (hs : p.sequence_number < 2 ^ 16) where
    add_data-IsValid :
        (chosen : IsChosen p len q i)
        → (p.packet_type == payload_audio) ≡ true
        → IsValid (add_data cfg env q p len i chosen.block).0
    unfolding add_data store_data hand_through
    add_data-IsValid chosen audio =
        let b = chosen.block in
        let base : b.fec.base ≡ p.sequence_number / 4 * 4 = chosen.base ∙ rw audio refl in
        let pos = u16 (sub32 p.sequence_number b.fec.base) in
        let P : AudioQueue × Answer → Type 0 = λ r. IsValid r.0 in
        if_cases P (not (b.marks pos)) (λ _. chosen.valid)
          (λ missing.
            let f = store_data p len pos in
            let stored =
              store_data-IsWrite b chosen.undone p len pos (omega arith) (ground arith)
                (omega arith) in
            let write = at_write f i q.blocks b chosen.here stored in
            let q' : AudioQueue = record q { blocks = update i f q.blocks } in
            let valid' : IsValid q' = update-IsSound (core q) i f write chosen.valid in
            let here = update-block_at f q.oldest_base i q.blocks b chosen.here in
            if_cases P (p.sequence_number == q.next_number)
              (λ due. hand_through-IsValid q' p i (f b) valid' here base (ground arith))
              (λ _. after_shard-IsValid q' i (f b) valid' here chosen.undone))

    add_fec-IsValid :
        (chosen : IsChosen p len q i)
        → (p.packet_type == payload_audio) ≡ false
        → IsValid (add_fec cfg env q p len i chosen.block).0
    unfolding add_fec store_fec
    add_fec-IsValid chosen other =
        let b = chosen.block in
        let index = (read_fec_header p.body).shard_index in
        let P : AudioQueue × Answer → Type 0 = λ r. IsValid r.0 in
        if_cases P (not (b.marks (4 + index))) (λ _. chosen.valid)
          (λ missing.
            let f = store_fec p len index in
            let stored =
              store_fec-IsWrite b chosen.undone p len index (chosen.has_index other)
                (ground arith) in
            let write = at_write f i q.blocks b chosen.here stored in
            let q' : AudioQueue = record q { blocks = update i f q.blocks } in
            let valid' : IsValid q' = update-IsSound (core q) i f write chosen.valid in
            let here = update-block_at f q.oldest_base i q.blocks b chosen.here in
            after_shard-IsValid q' i (f b) valid' here chosen.undone)

  add_to-IsValid :
      (p : RtpPacket) (len : ℕ) (r : AudioQueue × Option ℕ)
      → p.sequence_number < 2 ^ 16
      → IsAdmitted p len r
      → IsValid (add_to cfg env p len r).0
  add_to-IsValid p len (q, none) hs valid = valid
  add_to-IsValid p len (q, some i) hs chosen =
      let P : AudioQueue × Answer → Type 0 = λ r. IsValid r.0 in
      rw (chosen.here) (
        if_cases P (p.packet_type == payload_audio) (add_data-IsValid q p len i hs chosen)
          (add_fec-IsValid q p len i hs chosen))

  -- RtpaAddPacket keeps the queue valid, for every packet with a 16-bit sequence number, every length
  -- and time, whether or not there is memory for a block, and whatever the Reed-Solomon decoder gives
  -- back; while the queue is synchronizing the packet must not belong to the block that starts at
  -- number 0.
  pub rtpa_add_packet-IsValid :
      (q : AudioQueue) (p : RtpPacket) (len : ℕ)
      → IsValid q
      → p.sequence_number < 2 ^ 16
      → (q.synchronizing ≡ true → block_base p ≢ 0)
      → IsValid (rtpa_add_packet cfg env q p len).0
  unfolding rtpa_add_packet
  rtpa_add_packet-IsValid q p len valid hs nonzero =
      let P : AudioQueue × Answer → Type 0 = λ r. IsValid r.0 in
      if_cases P q.incompatible (λ _. valid)
        (λ _.
          add_to-IsValid p len (get_fec_block cfg env q p len) hs
            (get_fec_block-IsAdmitted cfg env q p len valid hs nonzero))

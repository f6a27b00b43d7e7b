-- ===== src/RtpAudioQueue/Shards.antt =====
-- What RtpAudioQueue.c writes to a block: the copies of RtpaAddPacket and completeFecBlock keep the
-- block's invariant.
use moonlight_common_c.Prelude.{
  ℕ, ◌+◌, ◌≤◌, ◌<◌, ◌≡◌, refl, sym, ap, ◌∙◌, Bool, true, false, List, arith, ltb, ◌==◌, Bool-cases,
  Option-cases, inl, inr, lt→ltb, take, ◌-◌,
}
use moonlight_common_c.RtpAudioQueue.{store_data, store_fec}
use moonlight_common_c.RtpAudioQueue.State.{
  RtpPacket, FecBlock, AudioConfig, set_at, data_shards, rtp_packet_size,
}
use moonlight_common_c.RtpAudioQueue.Complete.{complete_fec_block, completed, reassemble, recovered}
use moonlight_common_c.RtpAudioQueue.Inv.{IsBlock, present, fec_present}
use moonlight_common_c.RtpAudioQueue.Blocks.{IsWrite}

present-set_at :
    (marks : ℕ → Bool) (pos : ℕ)
    → pos < 4
    → marks pos ≡ true
    → (present (set_at marks pos false) 4 ≡ present marks 4 + 1)
      × (fec_present (set_at marks pos false) ≡ fec_present marks)
present-set_at marks pos h missing = ground arith

fec_present-set_at :
    (marks : ℕ → Bool) (index : ℕ)
    → index < 2
    → marks (4 + index) ≡ true
    → (fec_present (set_at marks (4 + index) false) ≡ fec_present marks + 1)
      × (present (set_at marks (4 + index) false) 4 ≡ present marks 4)
fec_present-set_at marks index h missing = ground arith

present_le : (marks : ℕ → Bool) → (present marks 4 ≤ 4) × (fec_present marks ≤ 2)
present_le marks = ground arith

pub present_all : (marks : ℕ → Bool) → present marks 4 ≡ 4 → (i : ℕ) → i < 4 → marks i ≡ false
present_all marks h i hi = ground arith

module _ (b : FecBlock) (undone : b.fully_reassembled ≡ false) where
  pub store_data-IsWrite :
      (p : RtpPacket) (len pos : ℕ)
      → pos < 4
      → b.marks pos ≡ true
      → p.sequence_number ≡ b.fec.base + pos
      → IsWrite b (store_data p len pos b)
  unfolding store_data
  store_data-IsWrite p len pos h missing number =
      let body = take (len - rtp_packet_size) p.body in
      record {
        same_base = refl;
        same_index = refl;
        same_order = refl;
        kept = λ block. record {
          bound = block.bound;
          aligned = block.aligned;
          index = block.index;
          numbered = λ i hi there. elim (Bool-cases (i == pos)) [
            | inl here ↦
                ap (λ r. r.sequence_number)
                  {x = set_at b.data_packets pos (record p { body = body }) i}
                  {y = record p { body = body }} (rw here refl)
                ∙ number
                ∙ ground arith
            | inr other ↦
                ap (λ r. r.sequence_number)
                  {x = set_at b.data_packets pos (record p { body = body }) i}
                  {y = b.data_packets i} (rw other refl)
                ∙ block.numbered i hi (ground arith)
          ];
          counted = λ _.
              let (data_count, fec_count) = block.counted undone in
              let (more, same) = present-set_at b.marks pos h missing in
              (omega (arith, present_le b.marks), omega arith);
          whole = λ full. absurd (cc (undone, full));
        };
      }

  pub store_fec-IsWrite :
      (p : RtpPacket) (len index : ℕ)
      → index < 2
      → b.marks (4 + index) ≡ true
      → IsWrite b (store_fec p len index b)
  unfolding store_fec
  store_fec-IsWrite p len index h missing = record {
    same_base = refl;
    same_index = refl;
    same_order = refl;
    kept = λ block. record {
      bound = block.bound;
      aligned = block.aligned;
      index = block.index;
      numbered = λ i hi there. block.numbered i hi (ground arith);
      counted = λ _.
          let (data_count, fec_count) = block.counted undone in
          let (more, same) = fec_present-set_at b.marks index h missing in
          (omega arith, omega (arith, present_le b.marks));
      whole = λ full. absurd (cc (undone, full));
    };
  }

  recovered-number :
      (duration : ℕ) (bodies : ℕ → List ℕ) (i : ℕ)
      → IsBlock b
      → i < 4
      → (recovered duration b bodies i).sequence_number ≡ b.fec.base + i
  unfolding recovered
  recovered-number duration bodies i block hi =
      let bound = block.bound in
      let aligned = block.aligned in
      elim (Bool-cases (b.marks i)) [
        | inl missing ↦ rw missing (omega arith)
        | inr there ↦ rw there (block.numbered i hi there)
      ]

  reassemble-IsBlock :
      (duration : ℕ) (bodies : ℕ → List ℕ)
      → IsBlock b
      → IsBlock (record (reassemble duration b bodies) { fully_reassembled = true })
  unfolding reassemble
  reassemble-IsBlock duration bodies block = record {
    bound = block.bound;
    aligned = block.aligned;
    index = block.index;
    numbered = λ i hi there. rw (lt→ltb i 4 hi) (recovered-number duration bodies i block hi);
    counted = λ no. absurd (ground arith);
    whole = λ _ i hi. ground arith;
  }

  all_there-IsBlock :
      IsBlock b → b.data_received ≡ 4 → IsBlock (record b { fully_reassembled = true })
  all_there-IsBlock block all = record {
    bound = block.bound;
    aligned = block.aligned;
    index = block.index;
    numbered = block.numbered;
    counted = λ no. absurd (ground arith);
    whole = λ _. present_all b.marks (sym (block.counted undone).0 ∙ all);
  }

  pub completed-IsWrite : (cfg : AudioConfig) → IsWrite b (completed cfg b)
  unfolding complete_fec_block
  completed-IsWrite cfg = elim (Bool-cases (ltb (b.data_received + b.fec_received) data_shards)) [
    | inl few ↦
        rw few (record { same_base = refl; same_index = refl; same_order = refl; kept = λ x. x })
    | inr enough ↦ elim (Bool-cases (b.data_received == data_shards)) [
      | inl all ↦
          rw (enough, all)
            (record {
              same_base = refl;
              same_index = refl;
              same_order = refl;
              kept = λ block. all_there-IsBlock block (ground arith);
            })
      | inr lacking ↦
          elim (Option-cases
            (cfg.decode (λ i. (b.data_packets i).body) b.fec_packets b.marks b.block_size)) [
              | inl failed ↦
                  rw (enough, lacking, failed)
                    (record {
                      same_base = refl;
                      same_index = refl;
                      same_order = refl;
                      kept = λ x. x;
                    })
              | inr (bodies, decoded) ↦
                  rw (enough, lacking, decoded)
                    (record {
                      same_base = refl;
                      same_index = refl;
                      same_order = refl;
                      kept = λ block. reassemble-IsBlock cfg.packet_duration bodies block;
                    })
            ]
    ]
  ]

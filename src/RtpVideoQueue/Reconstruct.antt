-- ===== src/RtpVideoQueue/Reconstruct.antt =====
-- What reconstructFrame promises: it keeps the open block, and with the code 0 no data packet of the
-- block is missing, whatever the decoder gave back.
use moonlight_common_c.Prelude.{
  ℕ, suc, ◌+◌, ◌≤◌, true, false, List, [], ◌∷◌, subst, ◌↔◌, ◌≡◌, refl, ap, Bool, arith, ◌==◌, ltb,
  Bool-cases, inl, inr, length,
}
use moonlight_common_c.RtpVideoQueue.State.{NvPacket, Entry, Queue, report_status, emit}
use moonlight_common_c.RtpVideoQueue.Recover.{
  Config, Recovery, no_arrays, no_decoder, no_shards, decoded, is_missing, requeue, run_recovery,
  predict_loss, admit_wrong_prediction, reconstruct_frame,
}
use moonlight_common_c.RtpVideoQueue.StageOrder.{data_only}
use moonlight_common_c.RtpVideoQueue.Inv.{Block, window}
use moonlight_common_c.RtpVideoQueue.Complete.{IsWhole, complete_iff}
use moonlight_common_c.RtpVideoQueue.Refill.{Requeued, requeue_lem}

-- An open block, of which no more data packets were counted than are there.
pub record Open (q : Queue) : Type 0 where
  pub block : Block (window q)
  pub counted : q.received_data ≤ length (data_only q.pending)

-- All that deciding on a block leaves as it is.
abbrev pub SameBlock : Queue → Queue → Type 0
SameBlock q r =
    (r.lowest ≡ q.lowest)
    × (r.data_packets ≡ q.data_packets)
    × (r.current_frame ≡ q.current_frame)
    × (r.current_block ≡ q.current_block)
    × (r.last_block ≡ q.last_block)
    × (r.completed ≡ q.completed)

-- What a decision yields.
pub record Decided (q : Queue) (r : Queue × ℕ) : Type 0 where
  pub still_open : Open (r.0)
  pub same : SameBlock q (r.0)
  pub complete : r.1 ≡ 0 → IsWhole q.lowest q.data_packets (r.0).pending

Open-IsWhole :
    (q : Queue)
    → Open q
    → q.received_data ≡ q.data_packets
    → IsWhole q.lowest q.data_packets q.pending
Open-IsWhole q o e =
    let b = o.block in
    let (most, iff) =
      complete_iff q.lowest q.data_packets (q.data_packets + q.parity_packets) q.pending b.low
        b.entries b.distinct in
    iff.0 (omega (arith, o.counted))

-- The loop over the recovered packets, applied to what was missing before.
after_requeue :
    (cfg : Config) (nvs : ℕ → NvPacket) (bodies : ℕ → ℕ) (code : ℕ) (q : Queue)
    → Open q
    → Decided q
        (requeue cfg (λ i. is_missing q.lowest i q.pending) nvs bodies q.data_packets 0 code q)
after_requeue cfg nvs bodies code q o =
    let missing : ℕ → Bool = λ i. is_missing q.lowest i q.pending in
    let r = requeue cfg missing nvs bodies q.data_packets 0 code q in
    let done : Requeued cfg missing nvs bodies 0 code q r =
      requeue_lem cfg missing nvs bodies q.data_packets 0 code q o.block (omega arith) in
    let g = done.grown in
    record {
      still_open = record {
        block = g.block;
        counted = omega (arith, ap (λ z. z.received_data) g.same, g.more, o.counted);
      };
      same = (
        ap (λ z. z.lowest) g.same,
        ap (λ z. z.data_packets) g.same,
        ap (λ z. z.current_frame) g.same,
        ap (λ z. z.current_block) g.same,
        ap (λ z. z.last_block) g.same,
        ap (λ z. z.completed) g.same,
      );
      complete = λ z i h. elim (Bool-cases (missing i)) [
        | inl gone ↦ done.filled z i (omega arith) h gone
        | inr there ↦ g.keeps i there
      ];
    }

failed_recovery : (q : Queue) (code : ℕ) → Open q → Decided q (q, suc code)
failed_recovery q code o = record {
  still_open = o;
  same = (refl, refl, refl, refl, refl, refl);
  complete = λ z. absurd (omega (arith, z));
}

after_report :
    (cfg : Config) (nvs : ℕ → NvPacket) (bodies : ℕ → ℕ) (code : ℕ) (q : Queue)
    → Open q
    → Decided q (
        requeue cfg
          (λ i. is_missing q.lowest i q.pending)
          nvs
          bodies
          q.data_packets
          0
          code
          (report_status q))
unfolding report_status emit
after_report cfg nvs bodies code q o =
    let d =
      after_requeue cfg nvs bodies code (report_status q)
        (record { block = o.block; counted = o.counted }) in
    record { still_open = d.still_open; same = d.same; complete = d.complete }

run_recovery_lem :
    (cfg : Config) (q : Queue) (d : Recovery) → Open q → Decided q (run_recovery cfg q d)
unfolding run_recovery
run_recovery_lem cfg q no_arrays o = failed_recovery q 1 o
run_recovery_lem cfg q no_decoder o = failed_recovery q 2 o
run_recovery_lem cfg q no_shards o = failed_recovery q 3 o
run_recovery_lem cfg q (decoded code nvs bodies) o =
    elim (Bool-cases (q.data_packets == q.received_data)) [
      | inl full ↦ rw full (after_requeue cfg nvs bodies code q o)
      | inr short ↦ rw short (after_report cfg nvs bodies code q o)
    ]

pub reconstruct_frame_lem :
    (cfg : Config) (q : Queue) → Open q → Decided q (reconstruct_frame cfg q)
unfolding reconstruct_frame predict_loss admit_wrong_prediction
reconstruct_frame_lem cfg q o = elim (Bool-cases (ltb (length q.pending) q.data_packets)) [
  | inl few ↦ rw few (record {
    still_open = record { block = o.block; counted = o.counted };
    same = (refl, refl, refl, refl, refl, refl);
    complete = λ z. absurd (omega (arith, z));
  })
  | inr many ↦
      let q' = admit_wrong_prediction cfg q in
      let o' : Open q' = record { block = o.block; counted = o.counted } in
      elim (Bool-cases (q.received_data == q.data_packets)) [
        | inl full ↦
            rw (many, full)
              (record {
                still_open = o';
                same = (refl, refl, refl, refl, refl, refl);
                complete = λ z. Open-IsWhole q o (ground arith);
              })
        | inr short ↦ elim (Bool-cases (ltb cfg.version 5)) [
          | inl old ↦
              rw (many, short, old)
                (record {
                  still_open = o';
                  same = (refl, refl, refl, refl, refl, refl);
                  complete = λ z. absurd (omega (arith, z));
                })
          | inr new ↦
              let d =
                run_recovery_lem cfg q' (cfg.decode q'.pending q'.data_packets q'.parity_packets)
                  o' in
              rw (many, short, new)
                (record { still_open = d.still_open; same = d.same; complete = d.complete })
        ]
      ]
]

-- When reconstructFrame reports success on an open block, every data packet of the block stands in
-- the pending list, received or recovered, whatever the Reed-Solomon decoder does.
pub reconstruct_frame-IsWhole :
    (cfg : Config) (q : Queue)
    → Open q
    → (reconstruct_frame cfg q).1 ≡ 0
    → IsWhole q.lowest q.data_packets (reconstruct_frame cfg q).0.pending
reconstruct_frame-IsWhole cfg q o = (reconstruct_frame_lem cfg q o).complete

data_only-le : (es : List Entry) → length (data_only es) ≤ length es
unfolding data_only
data_only-le [] = omega arith
data_only-le (e ∷ es) = ground (arith, data_only-le es)

-- While receivedDataPackets counts the data packets of an open block, which it does until packets
-- are recovered: reconstructFrame returns 0 without recovering a packet, and changes no more than
-- the predictions of loss, exactly if no data packet of the block is missing, whatever the
-- Reed-Solomon decoder would give back. So its test by counting is right.
pub reconstruct_frame_counted :
    (cfg : Config) (q : Queue)
    → Open q
    → q.received_data ≡ length (data_only q.pending)
    → (reconstruct_frame cfg q ≡ (admit_wrong_prediction cfg q, 0))
      ↔ IsWhole q.lowest q.data_packets q.pending
unfolding reconstruct_frame admit_wrong_prediction
reconstruct_frame_counted cfg q o count =
    let b = o.block in
    let (_, iff) =
      complete_iff q.lowest q.data_packets (q.data_packets + q.parity_packets) q.pending b.low
        b.entries b.distinct in
    (
      λ e.
          let zero_code = ap (λ (r : Queue × ℕ). r.1) e in
          let same = ap (λ (r : Queue × ℕ). r.0.pending) e in
          subst (IsWhole q.lowest q.data_packets) same
            (reconstruct_frame-IsWhole cfg q o zero_code),
      λ whole.
          let all = iff.1 whole in
          let enough : ltb (length q.pending) q.data_packets ≡ false =
            ground (arith, all, data_only-le q.pending) in
          let full : (q.received_data == q.data_packets) ≡ true = ground (arith, count, all) in
          rw (enough, full) refl,
    )

-- ===== src/RtpVideoQueue/Refill.antt =====
-- The loop under `cleanup_packets` of reconstructFrame: at the end of a recovery that succeeds, every
-- index that was missing is there.
use moonlight_common_c.Prelude.{
  is_empty, refl, List, [], ◌∷◌, ℕ, zero, suc, ◌+◌, ◌≤◌, ◌<◌, ◌≡◌, sym, ap, subst, ◌∙◌, Bool, true,
  false, ◌&&◌, arith, ◌==◌, Bool-cases, inl, inr,
}
use moonlight_common_c.Seq.{u16}
use moonlight_common_c.RtpVideoQueue.State.{Entry, NvPacket, Packet, Queue}
use moonlight_common_c.RtpVideoQueue.Insert.{queue_packet}
use moonlight_common_c.RtpVideoQueue.Recover.{
  Config, is_missing, is_corrupt, recovered_packet, data_offset, requeue,
}
use moonlight_common_c.RtpVideoQueue.Inv.{Block, window}
use moonlight_common_c.RtpVideoQueue.Requeue.{
  Grows, Grows-refl, Grows-trans, recovered_number, queue_recovered,
}

recovered_frame :
    (q : Queue) (es : List Entry) (i : ℕ) (nv : NvPacket) (body : ℕ)
    → is_empty es ≡ false
    → (recovered_packet q es i nv body).nv.frame_index ≡ q.current_frame
unfolding recovered_packet
recovered_frame q [] i nv body h = cc
recovered_frame q (e ∷ es) i nv body h = refl

module _ (cfg : Config) (missing : ℕ → Bool) (nvs : ℕ → NvPacket) (bodies : ℕ → ℕ) where
  module _ (n i ret : ℕ) (q : Queue) where
    pub the_packet : Packet
    the_packet = recovered_packet q q.pending i (nvs i) (bodies i)

    pub the_length : ℕ
    unfolding the_packet
    the_length = cfg.packet_size + data_offset the_packet.header

    packet_number : the_packet.sequence_number ≡ u16 (i + q.lowest)
    unfolding the_packet
    packet_number = recovered_number q q.pending i (nvs i) (bodies i)

    pub packet_frame : is_empty q.pending ≡ false → the_packet.nv.frame_index ≡ q.current_frame
    unfolding the_packet
    packet_frame h = recovered_frame q q.pending i (nvs i) (bodies i) h

    pub requeue-skip :
        (missing i && ret == 0) ≡ false
        → requeue cfg missing nvs bodies (suc n) i ret q
          ≡ requeue cfg missing nvs bodies n (i + 1) ret q
    unfolding requeue
    requeue-skip h = rw (h, requeue)

    pub requeue-fail :
        (missing i && ret == 0) ≡ true
        → is_corrupt q.data_packets i the_packet.nv ≡ true
        → requeue cfg missing nvs bodies (suc n) i ret q
          ≡ requeue cfg missing nvs bodies n (i + 1) 1 q
    unfolding requeue the_packet
    requeue-fail h bad = rw (h, bad, requeue)

    pub requeue-queued :
        (missing i && ret == 0) ≡ true
        → is_corrupt q.data_packets i the_packet.nv ≡ false
        → requeue cfg missing nvs bodies (suc n) i ret q
          ≡ requeue cfg missing nvs bodies n
              (i + 1)
              ret
              (queue_packet q the_packet the_length false true).0
    unfolding requeue the_packet the_length
    requeue-queued h good = rw (h, good, requeue)

  -- What the loop does from index `i` on: the block grows, and if the code is 0 at the end, it was
  -- so all along and every index that was missing is there.
  pub record Requeued (i ret : ℕ) (q : Queue) (r : Queue × ℕ) : Type 0 where
    pub grown : Grows q (r.0)
    pub zero_before : r.1 ≡ 0 → ret ≡ 0
    pub filled :
        r.1 ≡ 0
        → (j : ℕ) → i ≤ j
        → j < q.data_packets
        → missing j ≡ true
        → is_missing q.lowest j (r.0).pending ≡ false

  skip_Requeued :
      (i ret : ℕ) (q : Queue) (r : Queue × ℕ)
      → (missing i && ret == 0) ≡ false
      → Requeued (i + 1) ret q r
      → Requeued i ret q r
  skip_Requeued i ret q r h rest = record {
    grown = rest.grown;
    zero_before = rest.zero_before;
    filled = λ z j le lt m. elim (Bool-cases (j == i)) [
      | inl here ↦
          let at : j ≡ i = ground arith in
          absurd (ground (arith, rest.zero_before z, sym m ∙ ap missing at))
      | inr later ↦ rest.filled z j (ground arith) lt m
    ];
  }

  fail_Requeued :
      (i ret : ℕ) (q : Queue) (r : Queue × ℕ) → Requeued (i + 1) 1 q r → Requeued i ret q r
  fail_Requeued i ret q r rest = record {
    grown = rest.grown;
    zero_before = λ z. absurd (omega (arith, rest.zero_before z));
    filled = λ z j le lt m. absurd (omega (arith, rest.zero_before z));
  }

  queued_Requeued :
      (i ret : ℕ) (q t : Queue) (r : Queue × ℕ)
      → Grows q t
      → is_missing q.lowest i t.pending ≡ false
      → Requeued (i + 1) ret t r
      → Requeued i ret q r
  queued_Requeued i ret q t r step there rest =
      let grown = Grows-trans q t (r.0) step rest.grown in
      let low : t.lowest ≡ q.lowest = ap (λ z. z.lowest) step.same in
      let count : t.data_packets ≡ q.data_packets = ap (λ z. z.data_packets) step.same in
      let at_low : (j : ℕ)
          → is_missing t.lowest j (r.0).pending ≡ false
          → is_missing q.lowest j (r.0).pending ≡ false =
        λ j. subst (λ l. is_missing l j (r.0).pending ≡ false) low in
      record {
        grown = grown;
        zero_before = rest.zero_before;
        filled = λ z j le lt m. elim (Bool-cases (j == i)) [
          | inl here ↦
              let at : j ≡ i = ground arith in
              at_low j (
                rest.grown.keeps j (
                  subst (λ k. is_missing t.lowest k t.pending ≡ false) (sym at)
                    (subst (λ l. is_missing l i t.pending ≡ false) (sym low) there)))
          | inr later ↦ at_low j (rest.filled z j (ground arith) (omega (arith, count)) m)
        ];
      }

  -- The loop over the recovered packets does so at every index of the data packets.
  pub requeue_lem :
      (n i ret : ℕ) (q : Queue)
      → Block (window q)
      → i + n ≡ q.data_packets
      → Requeued i ret q (requeue cfg missing nvs bodies n i ret q)
  unfolding requeue
  requeue_lem zero i ret q b e = record {
    grown = Grows-refl q b;
    zero_before = λ z. z;
    filled = λ z j le lt m. absurd (omega arith);
  }
  requeue_lem (suc n) i ret q b e = elim (Bool-cases (missing i && ret == 0)) [
    | inr skip ↦
        subst (Requeued i ret q) (sym (requeue-skip n i ret q skip))
          (skip_Requeued i ret q _ skip (requeue_lem n (i + 1) ret q b (omega arith)))
    | inl needed ↦ elim (Bool-cases (is_corrupt q.data_packets i (the_packet n i ret q).nv)) [
      | inl bad ↦
          subst (Requeued i ret q) (sym (requeue-fail n i ret q needed bad))
            (fail_Requeued i ret q _ (requeue_lem n (i + 1) 1 q b (omega arith)))
      | inr good ↦
          let p = the_packet n i ret q in
          let (step, there) =
            queue_recovered q p (the_length n i ret q) i b (packet_number n i ret q)
              (omega arith) in
          subst (Requeued i ret q) (sym (requeue-queued n i ret q needed good)) (
            queued_Requeued i ret q _ _ step there (
              requeue_lem n (i + 1) ret _ step.block
                (omega (arith, ap (λ z. z.data_packets) step.same))))
    ]
  ]

-- ===== src/RtpVideoQueue/OneFrame.antt =====
-- The packets that the video queue holds belong to one frame: no operation of RtpVideoQueue.c mixes
-- the packets of two frames, recovered packets included.
use moonlight_common_c.Prelude.{
  is_empty, ℕ, zero, suc, ◌+◌, ◌≡◌, refl, sym, subst, Bool, true, false, ◌&&◌, List, [], ◌∷◌, ◌++◌,
  ◌==◌, ltb, Bool-cases, inl, inr, length,
}
use moonlight_common_c.RtpVideoQueue.State.{NvPacket, Packet, Entry, Queue, emit, report_status}
use moonlight_common_c.RtpVideoQueue.Insert.{has_seq, new_entry, append_entry, queue_packet}
use moonlight_common_c.RtpVideoQueue.Recover.{
  Config, Recovery, no_arrays, no_decoder, no_shards, decoded, is_missing, is_corrupt, requeue,
  run_recovery, predict_loss, admit_wrong_prediction, reconstruct_frame,
}
use moonlight_common_c.RtpVideoQueue.Refill.{
  the_packet, packet_frame, the_length, requeue-skip, requeue-fail, requeue-queued,
}

-- All packets of the list belong to frame `f`.
abbrev pub AllOf : ℕ → List Entry → Type 0
AllOf f [] = Unit {0}
AllOf f (e ∷ es) = (e.packet.nv.frame_index ≡ f) × AllOf f es

pub record IsOneFrame (q : Queue) : Type 0 where
  pub in_pending : AllOf q.current_frame q.pending
  pub in_completed : AllOf q.current_frame q.completed

pub AllOf-append : (f : ℕ) (es fs : List Entry) → AllOf f es → AllOf f fs → AllOf f (es ++ fs)
AllOf-append f [] fs a b = b
AllOf-append f (e ∷ es) fs a b = (a.0, AllOf-append f es fs a.1 b)

pub is_empty-snoc : (es : List Entry) (e : Entry) → is_empty (es ++ e ∷ []) ≡ false
is_empty-snoc [] e = refl
is_empty-snoc (x ∷ es) e = refl

-- Inserting a packet of the frame.
pub queue_packet-IsOneFrame :
    (q : Queue) (p : Packet) (len : ℕ) (parity recovered : Bool)
    → IsOneFrame q
    → p.nv.frame_index ≡ q.current_frame
    → let r = (queue_packet q p len parity recovered).0 in
      IsOneFrame r
      × (r.current_frame ≡ q.current_frame)
      × (is_empty q.pending ≡ false → is_empty r.pending ≡ false)
unfolding queue_packet append_entry
queue_packet-IsOneFrame q p len parity recovered o e =
    let grown =
      AllOf-append q.current_frame q.pending (new_entry p len parity ∷ []) o.in_pending (e, tt) in
    elim (Bool-cases (q.use_fast_path && p.sequence_number == q.next_contiguous)) [
      | inl quick ↦ rw quick (
        record { in_pending = grown; in_completed = o.in_completed },
        refl,
        λ h. is_empty-snoc q.pending (new_entry p len parity),
      )
      | inr slow ↦ elim (Bool-cases (has_seq p.sequence_number q.pending)) [
        | inl old ↦ rw (slow, old) (o, refl, λ h. h)
        | inr new ↦
            rw (slow, new)
              (
                record { in_pending = grown; in_completed = o.in_completed },
                refl,
                λ h. is_empty-snoc q.pending (new_entry p len parity),
              )
      ]
    ]

module _ (cfg : Config) (missing : ℕ → Bool) (nvs : ℕ → NvPacket) (bodies : ℕ → ℕ) where
  requeue-IsOneFrame :
      (n i ret : ℕ) (q : Queue)
      → IsOneFrame q
      → is_empty q.pending ≡ false
      → IsOneFrame (requeue cfg missing nvs bodies n i ret q).0
  unfolding requeue
  requeue-IsOneFrame zero i ret q o ne = o
  requeue-IsOneFrame (suc n) i ret q o ne = elim (Bool-cases (missing i && ret == 0)) [
    | inr skip ↦
        subst kept (sym (requeue-skip cfg missing nvs bodies n i ret q skip))
          (requeue-IsOneFrame n (i + 1) ret q o ne)
    | inl needed ↦
        let p = the_packet cfg missing nvs bodies n i ret q in
        elim (Bool-cases (is_corrupt q.data_packets i p.nv)) [
          | inl bad ↦
              subst kept (sym (requeue-fail cfg missing nvs bodies n i ret q needed bad))
                (requeue-IsOneFrame n (i + 1) 1 q o ne)
          | inr good ↦
              let len = the_length cfg missing nvs bodies n i ret q in
              let (o', same, ne') =
                queue_packet-IsOneFrame q p len false true o
                  (packet_frame cfg missing nvs bodies n i ret q ne) in
              subst kept (sym (requeue-queued cfg missing nvs bodies n i ret q needed good))
                (requeue-IsOneFrame n (i + 1) ret (queue_packet q p len false true).0 o' (ne' ne))
        ]
  ]
    where
      kept : Queue × ℕ → Type 0
      kept r = IsOneFrame (r.0)

after_report-IsOneFrame :
    (cfg : Config) (missing : ℕ → Bool) (nvs : ℕ → NvPacket) (bodies : ℕ → ℕ) (code : ℕ) (q : Queue)
    → IsOneFrame q
    → is_empty q.pending ≡ false
    → IsOneFrame (requeue cfg missing nvs bodies q.data_packets 0 code (report_status q)).0
unfolding report_status emit
after_report-IsOneFrame cfg missing nvs bodies code q o ne =
    requeue-IsOneFrame cfg missing nvs bodies q.data_packets 0 code (report_status q)
      (record { in_pending = o.in_pending; in_completed = o.in_completed }) ne

run_recovery-IsOneFrame :
    (cfg : Config) (q : Queue) (d : Recovery)
    → IsOneFrame q
    → is_empty q.pending ≡ false
    → IsOneFrame (run_recovery cfg q d).0
unfolding run_recovery
run_recovery-IsOneFrame cfg q no_arrays o ne = o
run_recovery-IsOneFrame cfg q no_decoder o ne = o
run_recovery-IsOneFrame cfg q no_shards o ne = o
run_recovery-IsOneFrame cfg q (decoded code nvs bodies) o ne =
    let missing : ℕ → Bool = λ i. is_missing q.lowest i q.pending in
    elim (Bool-cases (q.data_packets == q.received_data)) [
      | inl full ↦ rw full (requeue-IsOneFrame cfg missing nvs bodies q.data_packets 0 code q o ne)
      | inr short ↦ rw short (after_report-IsOneFrame cfg missing nvs bodies code q o ne)
    ]

pub reconstruct_frame-IsOneFrame :
    (cfg : Config) (q : Queue)
    → IsOneFrame q
    → is_empty q.pending ≡ false
    → IsOneFrame (reconstruct_frame cfg q).0
unfolding reconstruct_frame predict_loss admit_wrong_prediction
reconstruct_frame-IsOneFrame cfg q o ne =
    let o' : IsOneFrame (admit_wrong_prediction cfg q) = record {
      in_pending = o.in_pending;
      in_completed = o.in_completed;
    } in
    let q' = admit_wrong_prediction cfg q in
    let run =
      run_recovery-IsOneFrame cfg q' (cfg.decode q'.pending q'.data_packets q'.parity_packets) o'
        ne in
    elim (Bool-cases (ltb (length q.pending) q.data_packets)) [
      | inl few ↦ rw few (record { in_pending = o.in_pending; in_completed = o.in_completed })
      | inr many ↦ elim (Bool-cases (q.received_data == q.data_packets)) [
        | inl full ↦ rw (many, full) o'
        | inr short ↦ elim (Bool-cases (ltb cfg.version 5)) [
          | inl old ↦ rw (many, short, old) o'
          | inr new ↦ rw (many, short, new) run
        ]
      ]
    ]

-- ===== src/RtpVideoQueue/Finish.antt =====
-- Deciding on a block of the video queue: a block that is finished leaves in sequence order, whole
-- and without parity, and with the last block of its frame the whole frame is submitted.
use moonlight_common_c.Prelude.{
  ℕ, zero, suc, ◌+◌, ◌≡◌, refl, sym, ap, ap₂, subst, ◌∙◌, false, List, [], ◌∷◌, ◌++◌, arith, ◌==◌,
  ltb, if◌then◌else◌, Bool-cases, Option, none, some, Option-cases, inl, inr, ◌⊎◌, map,
  append_assoc, append-nil,
}
use moonlight_common_c.Seq.{u32}
use moonlight_common_c.RtpVideoQueue.{finish_block, try_finish}
use moonlight_common_c.RtpVideoQueue.State.{Entry, seq_of, Queue, submitted, emit}
use moonlight_common_c.RtpVideoQueue.Recover.{Config, is_missing, reconstruct_frame}
use moonlight_common_c.RtpVideoQueue.Stage.{
  scan, lower, prepend, stage_loop, stage_fuel, stage_complete_block, submit_all,
  submit_completed_frame,
}
use moonlight_common_c.RtpVideoQueue.StageTotal.{
  NoParity, stage_loop_found, stage_loop_missed, stage_loop_ends,
}
use moonlight_common_c.RtpVideoQueue.StageOrder.{seq_run, stage_loop_order}
use moonlight_common_c.RtpVideoQueue.Complete.{IsWhole, complete_iff, IsWhole-Covers}
use moonlight_common_c.RtpVideoQueue.Reconstruct.{Open, reconstruct_frame_lem}

scan_found_data :
    (next low : ℕ) (es : List Entry) (x : Entry)
    → (scan next low es).found ≡ some x
    → x.is_parity ≡ false
unfolding scan
scan_found_data next low [] x h = cc
scan_found_data next low (e ∷ es) x h =
    ground (arith, scan_found_data next low es x, scan_found_data next (lower low (seq_of e)) es x)

prepend-NoParity :
    (time : ℕ) (x : Entry) (r : Option (List Entry)) (xs : List Entry)
    → x.is_parity ≡ false
    → ((ys : List Entry) → r ≡ some ys → NoParity ys)
    → prepend time x r ≡ some xs
    → NoParity xs
unfolding prepend
prepend-NoParity time x none xs d f h = cc
prepend-NoParity time x (some ys) [] d f h = cc
prepend-NoParity time x (some ys) (z ∷ zs) d f h = (cc, subst NoParity (cc) (f ys refl))

stage_loop_data :
    (time fuel next : ℕ) (es xs : List Entry) → stage_loop fuel time next es ≡ some xs → NoParity xs
unfolding stage_loop
stage_loop_data time fuel next [] [] h = tt
stage_loop_data time fuel next [] (x ∷ xs) h = cc
stage_loop_data time zero next (e ∷ es) xs h = cc
stage_loop_data time (suc fuel) next (e ∷ es) xs h =
    let s = scan next (seq_of e) (e ∷ es) in
    elim (Option-cases s.found) [
      | inl miss ↦
          stage_loop_data time fuel s.low s.left xs
            (rw (stage_loop_missed time fuel next e es miss) at h)
      | inr (x, hit) ↦
          prepend-NoParity time x _ xs (scan_found_data next (seq_of e) (e ∷ es) x hit)
            (stage_loop_data time fuel _ s.left)
            (rw (stage_loop_found time fuel next e x es hit) at h)
    ]

-- What is staged of a complete block.
record Staged (q : Queue) (xs : List Entry) : Type 0 where
  pub in_order : map seq_of xs ≡ seq_run q.lowest q.data_packets
  pub no_parity : NoParity xs

stage_whole :
    (q : Queue)
    → Open q
    → IsWhole q.lowest q.data_packets q.pending
    → (xs : List Entry) × Staged q xs
      × (stage_complete_block q ≡ record q { pending = []; completed = q.completed ++ xs })
unfolding stage_complete_block
stage_whole q o c =
    let b = o.block in
    let run =
      stage_loop_ends q.first_recv_time_us (stage_fuel q.pending) q.lowest q.pending
        (omega arith) in
    let full =
      (complete_iff q.lowest q.data_packets (q.data_packets + q.parity_packets) q.pending b.low
          b.entries b.distinct).1.1
        c in
    (
      run.0,
      record {
        in_order =
            stage_loop_order q.first_recv_time_us _ q.lowest q.data_packets q.pending run.0 b.low
              (omega (arith, b.small))
              (IsWhole-Covers q.lowest q.data_packets _ q.pending b.low b.entries c) full run.1;
        no_parity = stage_loop_data q.first_recv_time_us _ q.lowest q.pending run.0 run.1;
      },
      rw (run.1, stage_complete_block),
    )

submit_all_lem :
    (es : List Entry) (q : Queue)
    → submit_all es q ≡ record q { events = q.events ++ map submitted es }
unfolding submit_all emit
submit_all_lem [] q = ap (λ es. record q { events = es }) (sym (append-nil q.events))
submit_all_lem (e ∷ es) q =
    submit_all_lem es (emit (submitted e) q)
    ∙ ap (λ es. record q { events = es })
        (append_assoc q.events (submitted e ∷ []) (map submitted es))

-- A queue whose block left as `xs`: within its frame the block joins the completed ones, and the last
-- block of a frame takes them all out to the depacketizer.
abbrev pub finished : Queue → List Entry → Queue
finished q xs =
    if ltb q.current_block q.last_block
    then record q {
      pending = [];
      completed = q.completed ++ xs;
      current_block = q.current_block + 1;
    }
    else record q {
      pending = [];
      completed = [];
      events = q.events ++ map submitted (q.completed ++ xs);
      current_frame = u32 (q.current_frame + 1);
      current_block = 0;
    }

pub finish_staged :
    (q : Queue) (xs : List Entry)
    → stage_complete_block q ≡ record q { pending = []; completed = q.completed ++ xs }
    → finish_block q ≡ finished q xs
unfolding finish_block submit_completed_frame
finish_staged q xs e =
    let all = submit_all_lem (q.completed ++ xs) (record q { pending = []; completed = [] }) in
    elim (Bool-cases (ltb q.current_block q.last_block)) [
      | inl inner ↦ rw (e, inner) refl
      | inr last ↦ rw (e, last, all) refl
    ]

-- A complete block leaves the queue as a run of consecutive sequence numbers, one entry for each
-- data packet of the block and none for parity.
pub finish_block_lem :
    (q : Queue)
    → Open q
    → IsWhole q.lowest q.data_packets q.pending
    → (xs : List Entry) × (map seq_of xs ≡ seq_run q.lowest q.data_packets)
      × NoParity xs
      × (finish_block q ≡ finished q xs)
finish_block_lem q o c =
    let (xs, staged, e) = stage_whole q o c in
    (xs, staged.in_order, staged.no_parity, finish_staged q xs e)

-- Deciding on an open block either leaves it open, or finishes it: then its data packets leave the
-- queue as a run of consecutive sequence numbers from the block's lowest on, one for each, and
-- without parity.
pub try_finish_lem :
    (cfg : Config) (q : Queue)
    → Open q
    → let r = (reconstruct_frame cfg q).0 in
      ((try_finish cfg q ≡ r) × Open r)
      ⊎ ((xs : List Entry) × (map seq_of xs ≡ seq_run q.lowest q.data_packets)
          × NoParity xs
          × (try_finish cfg q ≡ finished r xs))
unfolding try_finish
try_finish_lem cfg q o =
    let d = reconstruct_frame_lem cfg q o in
    let (r, ret) = reconstruct_frame cfg q in
    elim (Bool-cases (ret == 0)) [
      | inr more ↦ inl (rw more (refl, d.still_open))
      | inl done ↦
          let c = d.complete (ground arith) in
          let low : r.lowest ≡ q.lowest = d.same.0 in
          let count : r.data_packets ≡ q.data_packets = d.same.1 in
          let c' : IsWhole r.lowest r.data_packets r.pending = λ i h.
            subst (λ l. is_missing l i r.pending ≡ false) (sym low)
              (c i (omega (arith, count, h))) in
          let (xs, order, clean, e) = finish_block_lem r d.still_open c' in
          inr (xs, order ∙ ap₂ seq_run low count, clean, rw done e)
    ]

-- ===== src/RtpVideoQueue/FrameKept.antt =====
-- RtpvAddPacket keeps the packets of the video queue to one frame, through staging, the end of a frame
-- and the beginning of a block.
use moonlight_common_c.Prelude.{
  is_empty, ℕ, zero, suc, ◌+◌, ◌≡◌, refl, sym, ap, subst, ◌∙◌, Bool, true, false, not, ◌&&◌, List,
  [], ◌∷◌, ◌++◌, arith, ◌==◌, ltb, if◌then◌else◌, Bool-cases, Option, none, some, Option-cases, inl,
  inr,
}
use moonlight_common_c.Seq.{u16, u32, is_before16}
use moonlight_common_c.RtpVideoQueue.{
  fix_legacy, count_missing, count_received, finish_block, try_finish, enqueue, needs_block, place,
  add_packet,
}
use moonlight_common_c.RtpVideoQueue.State.{Packet, Entry, seq_of, Queue, emit, report_status}
use moonlight_common_c.RtpVideoQueue.Insert.{new_entry, queue_packet}
use moonlight_common_c.RtpVideoQueue.Recover.{Config, reconstruct_frame}
use moonlight_common_c.RtpVideoQueue.Stage.{
  scan, lower, prepend, stage_loop, stage_fuel, stage_complete_block,
}
use moonlight_common_c.RtpVideoQueue.StageTotal.{
  stage_loop_found, stage_loop_missed, stage_loop_ends,
}
use moonlight_common_c.RtpVideoQueue.Begin.{
  block_number, expected_block, notify_gap, notify_lost, abandon_frame, reset_block, begin_block,
}
use moonlight_common_c.RtpVideoQueue.Finish.{finished, finish_staged}
use moonlight_common_c.RtpVideoQueue.OneFrame.{
  AllOf, IsOneFrame, AllOf-append, is_empty-snoc, queue_packet-IsOneFrame,
  reconstruct_frame-IsOneFrame,
}
use moonlight_common_c.RtpVideoQueue.Accept.{queue_packet-fresh}

scan-AllOf : (f next low : ℕ) (es : List Entry) → AllOf f es → AllOf f (scan next low es).left
unfolding scan
scan-AllOf f next low [] h = tt
scan-AllOf f next low (e ∷ es) h = elim (Bool-cases e.is_parity) [
  | inl parity ↦ rw parity (scan-AllOf f next low es h.1)
  | inr clean ↦ elim (Bool-cases (seq_of e == next)) [
    | inl hit ↦ rw (clean, hit) (h.1)
    | inr miss ↦ rw (clean, miss) (h.0, scan-AllOf f next (lower low (seq_of e)) es h.1)
  ]
]

scan_found-frame :
    (f next low : ℕ) (es : List Entry) (x : Entry)
    → AllOf f es
    → (scan next low es).found ≡ some x
    → x.packet.nv.frame_index ≡ f
unfolding scan
scan_found-frame f next low [] x h e = cc
scan_found-frame f next low (y ∷ es) x h e = ground (
  arith,
  scan_found-frame f next low es x h.1,
  scan_found-frame f next (lower low (seq_of y)) es x h.1,
)

prepend-AllOf :
    (f time : ℕ) (x : Entry) (r : Option (List Entry)) (xs : List Entry)
    → x.packet.nv.frame_index ≡ f
    → ((ys : List Entry) → r ≡ some ys → AllOf f ys)
    → prepend time x r ≡ some xs
    → AllOf f xs
unfolding prepend
prepend-AllOf f time x none xs e k h = cc
prepend-AllOf f time x (some ys) [] e k h = cc
prepend-AllOf f time x (some ys) (z ∷ zs) e k h = (cc, subst (AllOf f) (cc) (k ys refl))

stage_loop-AllOf :
    (f time fuel next : ℕ) (es xs : List Entry)
    → AllOf f es
    → stage_loop fuel time next es ≡ some xs
    → AllOf f xs
unfolding stage_loop
stage_loop-AllOf f time fuel next [] [] h e = tt
stage_loop-AllOf f time fuel next [] (x ∷ xs) h e = cc
stage_loop-AllOf f time zero next (y ∷ es) xs h e = cc
stage_loop-AllOf f time (suc fuel) next (y ∷ es) xs h e =
    let s = scan next (seq_of y) (y ∷ es) in
    let left = scan-AllOf f next (seq_of y) (y ∷ es) h in
    elim (Option-cases s.found) [
      | inl miss ↦
          stage_loop-AllOf f time fuel s.low s.left xs left
            (rw (stage_loop_missed time fuel next y es miss) at e)
      | inr (x, hit) ↦
          prepend-AllOf f time x (stage_loop fuel time (u16 (next + 1)) s.left) xs
            (scan_found-frame f next (seq_of y) (y ∷ es) x h hit)
            (λ ys. stage_loop-AllOf f time fuel (u16 (next + 1)) s.left ys left)
            (rw (stage_loop_found time fuel next y x es hit) at e)
    ]

finished-IsOneFrame :
    (q : Queue) (xs : List Entry)
    → IsOneFrame q
    → AllOf q.current_frame xs
    → IsOneFrame (finished q xs)
finished-IsOneFrame q xs o h = elim (Bool-cases (ltb q.current_block q.last_block)) [
  | inl inner ↦ rw inner (record {
    in_pending = tt;
    in_completed = AllOf-append q.current_frame q.completed xs o.in_completed h;
  })
  | inr last ↦ rw last (record { in_pending = tt; in_completed = tt })
]

stage_run :
    (q : Queue) (xs : List Entry)
    → stage_loop (stage_fuel q.pending) q.first_recv_time_us q.lowest q.pending ≡ some xs
    → stage_complete_block q ≡ record q { pending = []; completed = q.completed ++ xs }
unfolding stage_complete_block
stage_run q xs e = rw (e, stage_complete_block) refl

finish_block-IsOneFrame : (q : Queue) → IsOneFrame q → IsOneFrame (finish_block q)
finish_block-IsOneFrame q o =
    let (xs, run) =
      stage_loop_ends q.first_recv_time_us (stage_fuel q.pending) q.lowest q.pending
        (omega arith) in
    let all =
      stage_loop-AllOf q.current_frame q.first_recv_time_us _ q.lowest q.pending xs o.in_pending
        run in
    subst IsOneFrame (sym (finish_staged q xs (stage_run q xs run)))
      (finished-IsOneFrame q xs o all)

try_finish-IsOneFrame :
    (cfg : Config) (q : Queue)
    → IsOneFrame q
    → is_empty q.pending ≡ false
    → IsOneFrame (try_finish cfg q)
unfolding try_finish
try_finish-IsOneFrame cfg q o ne =
    let o' = reconstruct_frame-IsOneFrame cfg q o ne in
    let (r, ret) = reconstruct_frame cfg q in
    elim (Bool-cases (ret == 0)) [
      | inl done ↦ rw done (finish_block-IsOneFrame r o')
      | inr more ↦ rw more o'
    ]

enqueue-IsOneFrame :
    (cfg : Config) (q : Queue) (p : Packet) (len : ℕ)
    → IsOneFrame q
    → p.nv.frame_index ≡ q.current_frame
    → IsOneFrame (enqueue cfg q p len).0
unfolding enqueue count_missing count_received
enqueue-IsOneFrame cfg q p len o e =
    let parity = not (is_before16 p.sequence_number q.first_parity) in
    let (o', same, more) = queue_packet-IsOneFrame q p len parity false o e in
    elim (Bool-cases (is_before16 q.highest p.sequence_number)) [
      | inl above ↦ rw above o
      | inr within ↦ elim (Bool-cases (queue_packet q p len parity false).1) [
        | inl fresh ↦
            let now = (queue_packet-fresh q p len parity fresh).0 in
            rw (within, fresh)
              (try_finish-IsOneFrame cfg _
                (record { in_pending = o'.in_pending; in_completed = o'.in_completed })
                (ap is_empty now ∙ is_empty-snoc q.pending (new_entry p len parity)))
        | inr old ↦ rw (within, old) o'
      ]
    ]

-- What begins a block keeps the completed packets of the same frame only.
notify_gap_keeps :
    (q : Queue) (frame : ℕ)
    → ((notify_gap q frame).pending ≡ q.pending) × ((notify_gap q frame).completed ≡ q.completed)
unfolding notify_gap emit
notify_gap_keeps q frame = (ground arith, ground arith)

reset_block-IsOneFrame :
    (q : Queue) (p : Packet) (now : ℕ)
    → IsOneFrame q
    → IsOneFrame (reset_block q p now) × ((reset_block q p now).current_frame ≡ p.nv.frame_index)
unfolding reset_block emit
reset_block-IsOneFrame q p now o =
    let f = p.nv.frame_index in
    let kept : List Entry = if q.current_frame == f then q.completed else [] in
    let (gone, rest) = notify_gap_keeps (record q { pending = []; completed = kept }) f in
    let own : AllOf f kept = elim (Bool-cases (q.current_frame == f)) [
      | inl same ↦
          let at : q.current_frame ≡ f = ground arith in
          rw same (subst (λ z. AllOf z q.completed) at o.in_completed)
      | inr other ↦ rw other tt
    ] in
    (
      record {
        in_pending = subst (AllOf f) (sym gone) tt;
        in_completed = subst (AllOf f) (sym rest) own;
      },
      refl,
    )

nothing-IsOneFrame : (q : Queue) → q.pending ≡ [] → q.completed ≡ [] → IsOneFrame q
nothing-IsOneFrame q e d = record {
  in_pending = subst (AllOf q.current_frame) (sym e) tt;
  in_completed = subst (AllOf q.current_frame) (sym d) tt;
}

abandon_frame-IsOneFrame : (next : ℕ) (q : Queue) → IsOneFrame (abandon_frame next q)
unfolding abandon_frame notify_lost emit
abandon_frame-IsOneFrame next q =
    nothing-IsOneFrame (abandon_frame next q) (ground arith) (ground arith)

report_status-IsOneFrame : (q : Queue) → IsOneFrame q → IsOneFrame (report_status q)
unfolding report_status emit
report_status-IsOneFrame q o = record { in_pending = o.in_pending; in_completed = o.in_completed }

begin_block-IsOneFrame :
    (q : Queue) (p : Packet) (now : ℕ)
    → IsOneFrame q
    → let (r, ready) = begin_block q p now in
      IsOneFrame r × (ready ≡ true → r.current_frame ≡ p.nv.frame_index)
unfolding begin_block
begin_block-IsOneFrame q p now o =
    let open_block = not (is_empty q.pending) in
    let q' = if open_block then report_status q else q in
    let o' : IsOneFrame q' = elim (Bool-cases open_block) [
      | inl was ↦ rw was (report_status-IsOneFrame q o)
      | inr fresh ↦ rw fresh o
    ] in
    let begun = reset_block-IsOneFrame q' p now o' in
    elim (Bool-cases
      (open_block && not (q'.last_block == 0) && q'.current_frame == p.nv.frame_index)) [
        | inl lost ↦ rw lost (abandon_frame-IsOneFrame (u32 (q'.current_frame + 1)) q', λ h. cc (h))
        | inr other ↦ elim (Bool-cases (not (block_number p.nv == expected_block q' p.nv))) [
          | inl skipped ↦
              rw (other, skipped)
                (
                  abandon_frame-IsOneFrame (u32 (p.nv.frame_index + 1)) (report_status q'),
                  λ h. cc (h),
                )
          | inr next ↦ rw (other, next) (begun.0, λ h. begun.1)
        ]
      ]

fix_legacy-frame :
    (capable : Bool) (p : Packet) → (fix_legacy capable p).nv.frame_index ≡ p.nv.frame_index
unfolding fix_legacy
fix_legacy-frame capable p = ground arith

place-IsOneFrame :
    (cfg : Config) (q : Queue) (p : Packet) (len now : ℕ)
    → IsOneFrame q
    → IsOneFrame (place cfg q p len now).0
unfolding place
place-IsOneFrame cfg q p len now o =
    let (o', frame) = begin_block-IsOneFrame q p now o in
    let (q', ready) = begin_block q p now in
    elim (Bool-cases (needs_block cfg q p)) [
      | inl new ↦ elim (Bool-cases ready) [
        | inl can ↦ rw (new, can) (enqueue-IsOneFrame cfg q' p len o' (sym (frame can)))
        | inr cannot ↦ rw (new, cannot) o'
      ]
      | inr present ↦
          let at : p.nv.frame_index ≡ q.current_frame = ground (arith, present) in
          rw present (enqueue-IsOneFrame cfg q p len o at)
    ]

-- RtpvAddPacket keeps the packets in the queue to one frame: if all pending and all completed packets
-- belong to the current frame, then so they do afterwards, with the frame that is current then. This
-- holds of recovered packets too, whatever header the Reed-Solomon decoder gives them.
pub add_packet-IsOneFrame :
    (cfg : Config) (q : Queue) (p : Packet) (len now : ℕ)
    → IsOneFrame q
    → IsOneFrame (add_packet cfg q p len now).0
unfolding add_packet
add_packet-IsOneFrame cfg q p len now o =
    let placed = place-IsOneFrame cfg q (fix_legacy q.multi_fec_capable p) len now o in
    ground (arith, placed)

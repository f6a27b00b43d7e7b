-- ===== src/VideoDepacketizer/Receive.antt =====
-- processRtpPayload of VideoDepacketizer.c, and the ranges of lost frames that it tells the host of.
use moonlight_common_c.Prelude.{
  is_empty, has_bit, ℕ, zero, suc, ◌+◌, ◌-◌, ◌≡◌, refl, sym, ◌∙◌, Bool, true, false, not, ◌&&◌,
  ◌||◌, List, [], ◌∷◌, ◌++◌, leb, ltb, ◌==◌, if◌then◌else◌, if_cases, length, take, byte_at,
}
use moonlight_common_c.Seq.{u32, is_before32, sub32}
use moonlight_common_c.VideoDepacketizer.{
  VideoPacket, is_first, is_last, packet_index, is_corrupt_packet, begin_frame, header_size,
  read_frame_header, picture_bytes, add_annex_b, add_plain, add_payload, process_rtp_payload,
}
use moonlight_common_c.VideoDepacketizer.Nal.{
  VideoFormat, is_annex_b, is_idr_frame_start, is_seq_reference_frame_start,
  is_picture_parameter_set_nal, skip_to_next_nal,
}
use moonlight_common_c.VideoDepacketizer.State.{
  DecodeUnit, is_idr, Depacketizer, request_idr, key_frame, frame_loss, complete_frame, submit,
  tell, drop_frame_state, complete_video_frame, unit_limit,
}
use moonlight_common_c.VideoDepacketizer.Fragment.{
  queue_fragment, see_idr, round_start, round_end, process_slow,
}
use moonlight_common_c.VideoDepacketizer.Header.{
  VideoEnv, at_least, end_rfi_wait, see_frame_type, note_frame_type, note_lengths,
}
use moonlight_common_c.VideoDepacketizer.Frame.{
  is_key, decode_unit, count_frame, offer_unit, reassemble_frame, drop_waiting, finish_frame,
}
use moonlight_common_c.VideoDepacketizer.Ranges.{
  IsRight, more, drop_frame_state-IsRight, give_up_frame-IsRight, complete_video_frame-IsRight,
  complete_video_frame_next,
}

-- A frame that is passed on moves the start behind it, since it is the one before the frame that is due.
count_frame-IsRight :
    (frame : ℕ) (ltr : Bool) (d : Depacketizer)
    → IsRight d
    → d.next_frame ≡ u32 (frame + 1)
    → IsRight (count_frame frame ltr d)
unfolding count_frame tell
count_frame-IsRight frame ltr d s due =
    let told_it = more (complete_frame frame ltr) d s tt in
    record { fits = told_it.fits; start = told_it.start ∙ sym due }

offer_unit-IsRight :
    (u : DecodeUnit) (frame : ℕ) (ltr : Bool) (d : Depacketizer)
    → IsRight d
    → d.next_frame ≡ u32 (frame + 1)
    → IsRight (offer_unit u frame ltr d)
unfolding offer_unit tell
offer_unit-IsRight u frame ltr d s due =
    if_cases IsRight d.is_shut_down (λ _. count_frame-IsRight frame ltr d s due)
      (λ _.
        if_cases IsRight (leb unit_limit (length d.units))
          (λ _.
            let d' : Depacketizer = record d {
              wait_idr = true;
              chain = u.buffers;
              chain_length = u.full_length;
            } in
            more request_idr (drop_frame_state d') (drop_frame_state-IsRight d' s) tt)
          (λ _. count_frame-IsRight frame ltr (record d { units = d.units ++ u ∷ [] }) s due))

drop_waiting-IsRight : (frame : ℕ) (d : Depacketizer) → IsRight d → IsRight (drop_waiting frame d)
unfolding drop_waiting tell
drop_waiting-IsRight frame d s =
    let d' : Depacketizer =
      if d.wait_idr
      then if d.wait_success then tell request_idr d else d
      else tell (frame_loss d.start_frame frame) d in
    let s' : IsRight d' =
      if_cases IsRight d.wait_idr
        (λ _. if_cases IsRight d.wait_success (λ _. more request_idr d s tt) (λ _. s))
        (λ _. more (frame_loss d.start_frame frame) d s refl) in
    drop_frame_state-IsRight (record d' { wait_success = false }) s'

begin_frame-IsRight : (p : VideoPacket) (d : Depacketizer) → IsRight d → IsRight (begin_frame p d)
unfolding begin_frame
begin_frame-IsRight p d s =
    if_cases IsRight (is_before32 d.next_frame p.frame_index)
      (λ _.
        drop_frame_state-IsRight (record d { next_frame = p.frame_index; wait_success = true }) s)
      (λ _. s)

module _ (fmt : VideoFormat) where
  queue_fragment-IsRight :
      (has_memory takes : Bool) (bs : List ℕ) (d : Depacketizer)
      → IsRight d
      → IsRight (queue_fragment fmt has_memory takes bs d)
  unfolding queue_fragment
  queue_fragment-IsRight has_memory takes bs d s =
      if_cases IsRight (takes || has_memory) (λ _. s) (λ _. s)

  see_idr-IsRight : (starts : Bool) (d : Depacketizer) → IsRight d → IsRight (see_idr starts d)
  unfolding see_idr
  see_idr-IsRight true d s = s
  see_idr-IsRight false d s = s

  process_slow-IsRight :
      (has_memory : ℕ → Bool) (fuel : ℕ) (free : Bool) (bs : List ℕ) (d : Depacketizer)
      → IsRight d
      → IsRight (process_slow fmt has_memory fuel free bs d)
  unfolding process_slow
  process_slow-IsRight has_memory zero free bs d s = s
  process_slow-IsRight has_memory (suc fuel) free bs d s =
      let start = round_start fmt bs in
      let end = round_end fmt start in
      let pic = is_seq_reference_frame_start fmt start in
      let unit = take (length start - length end) start in
      let memory = has_memory (length bs) in
      let d' = queue_fragment fmt memory (pic && free) unit (see_idr pic d) in
      if_cases IsRight (is_empty bs) (λ _. s)
        (λ _. process_slow-IsRight has_memory fuel (free && not pic) end d' (
          queue_fragment-IsRight memory (pic && free) unit (see_idr pic d)
            (see_idr-IsRight pic d s)))

  see_frame_type-IsRight : (t : ℕ) (d : Depacketizer) → IsRight d → IsRight (see_frame_type fmt t d)
  unfolding see_frame_type end_rfi_wait
  see_frame_type-IsRight t d s =
      let ended : (d : Depacketizer) → IsRight d → IsRight (end_rfi_wait d) =
        λ d s. if_cases IsRight d.wait_rfi (λ _. s) (λ _. s) in
      if_cases IsRight (t == 2) (λ _. ended _ (if_cases IsRight (is_annex_b fmt) (λ _. s) (λ _. s)))
        (λ _. if_cases IsRight (t == 4 || t == 5) (λ _. ended d s) (λ _. s))

module _ (env : VideoEnv) where
  read_frame_header-IsRight :
      (p : VideoPacket) (d : Depacketizer) → IsRight d → IsRight (read_frame_header env p d)
  unfolding read_frame_header note_frame_type note_lengths tell
  read_frame_header-IsRight p d s =
      if_cases IsRight (is_first p && ltb 0 (length p.payload))
        (λ _.
          if_cases IsRight (at_least env.version 7 1 350 && leb 4 (length p.payload))
            (λ _. see_frame_type-IsRight env.format (byte_at p.payload 3) d s)
            (λ _.
              if_cases IsRight d.wait_rfi
                (λ _. more (frame_loss d.start_frame (sub32 p.frame_index 1)) d s refl) (λ _. s)))
        (λ _. s)

  add_payload-IsRight :
      (p : VideoPacket) (d : Depacketizer) → IsRight d → IsRight (add_payload env p d).0
  unfolding add_payload add_annex_b add_plain
  add_payload-IsRight p d s =
      let P : Depacketizer × Bool → Type 0 = λ r. IsRight r.0 in
      let bs = picture_bytes env p in
      let size = header_size env p in
      let rest = d.last_payload_length - size in
      if_cases P (is_annex_b env.format)
        (λ _.
          if_cases IsRight (is_first p && is_idr_frame_start env.format bs)
            (λ _. process_slow-IsRight env.format env.has_memory (length bs) true bs d s)
            (λ _.
              queue_fragment-IsRight env.format false true
                (if is_first p && is_picture_parameter_set_nal env.format bs
                  then skip_to_next_nal bs
                  else bs)
                d s))
        (λ _.
          if_cases P (not (is_last p)) (λ _. queue_fragment-IsRight env.format false true bs d s)
            (λ _.
              if_cases P (ltb size d.last_payload_length && leb rest (length bs))
                (λ _. queue_fragment-IsRight env.format false true (take rest bs) d s)
                (λ _. give_up_frame-IsRight p.frame_index d s)))

  reassemble_frame-IsRight :
      (frame : ℕ) (ltr : Bool) (d : Depacketizer)
      → IsRight d
      → d.next_frame ≡ u32 (frame + 1)
      → IsRight (reassemble_frame env frame ltr d)
  unfolding reassemble_frame tell
  reassemble_frame-IsRight frame ltr d s due =
      let u = decode_unit env frame d in
      let d₁ : Depacketizer = if is_key d then tell key_frame d else d in
      let d₂ : Depacketizer = record d₁ { chain = []; chain_length = 0 } in
      let S : Depacketizer → Type 0 = λ r. IsRight r × (r.next_frame ≡ u32 (frame + 1)) in
      let (s₁, due₁) : S d₁ =
        if_cases S (is_key d) (λ _. (more key_frame d s tt, due)) (λ _. (s, due)) in
      if_cases IsRight (is_empty d.chain || not (env.direct_submit || env.has_unit_memory)) (λ _. s)
        (λ _.
          if_cases IsRight env.direct_submit
            (λ _.
              let d₃ = tell (submit u) d₂ in
              count_frame-IsRight frame ltr (complete_video_frame u env.decoder d₃)
                (complete_video_frame-IsRight u env.decoder d₃ (more (submit u) d₂ s₁ tt))
                (complete_video_frame_next u env.decoder d₃ ∙ due₁))
            (λ _. offer_unit-IsRight u frame ltr d₂ s₁ due₁))

  finish_frame-IsRight :
      (frame : ℕ) (ltr : Bool) (d : Depacketizer)
      → IsRight d
      → IsRight (finish_frame env frame ltr d)
  unfolding finish_frame
  finish_frame-IsRight frame ltr d s =
      let d' : Depacketizer = record d { decoding = false; next_frame = u32 (frame + 1) } in
      if_cases IsRight (d.wait_idr || d.wait_rfi) (λ _. drop_waiting-IsRight frame d' s)
        (λ _.
          if_cases IsRight (d.drop_pending && not (not (is_empty d.chain) && is_idr d.frame_type))
            (λ _. drop_frame_state-IsRight d' s)
            (λ _. reassemble_frame-IsRight frame ltr (record d' { drop_pending = false }) s refl))

  pub process_rtp_payload-IsRight :
      (p : VideoPacket) (d : Depacketizer) → IsRight d → IsRight (process_rtp_payload env p d)
  unfolding process_rtp_payload
  process_rtp_payload-IsRight p d s =
      let d₁ : Depacketizer = if is_first p then begin_frame p d else d in
      let d₁' : Depacketizer = record d₁ { last_packet = packet_index p } in
      let d₂ = read_frame_header env p d₁' in
      let s₁ : IsRight d₁ =
        if_cases IsRight (is_first p) (λ _. begin_frame-IsRight p d s) (λ _. s) in
      let s₂ = read_frame_header-IsRight p d₁' s₁ in
      let s₃ = add_payload-IsRight p d₂ s₂ in
      if_cases IsRight (is_before32 p.frame_index d.next_frame) (λ _. s)
        (λ _.
          if_cases IsRight (is_corrupt_packet d p) (λ _. give_up_frame-IsRight p.frame_index d s)
            (λ _.
              if_cases IsRight ((add_payload env p d₂).1 && is_last p)
                (λ _.
                  finish_frame-IsRight p.frame_index (has_bit 0 p.extra_flags)
                    (add_payload env p d₂).0 s₃)
                (λ _. s₃)))

-- ===== src/VideoDepacketizer/Kept.antt =====
-- processRtpPayload of VideoDepacketizer.c keeps the depacketizer's invariant.
use moonlight_common_c.Prelude.{
  is_empty, has_bit, ℕ, ◌+◌, ◌-◌, ◌≤◌, ◌≡◌, Bool, true, false, not, ◌&&◌, ◌||◌, List, [], ◌∷◌, ◌++◌,
  arith, leb, ltb, ◌==◌, if◌then◌else◌, if_cases, length, length-append, take, byte_at,
}
use moonlight_common_c.Seq.{u32, is_before32}
use moonlight_common_c.VideoDepacketizer.{
  VideoPacket, is_first, is_last, packet_index, is_corrupt_packet, begin_frame, header_size,
  read_frame_header, picture_bytes, add_annex_b, add_plain, add_payload, process_rtp_payload,
}
use moonlight_common_c.VideoDepacketizer.Nal.{VideoFormat, is_annex_b, is_idr_frame_start}
use moonlight_common_c.VideoDepacketizer.State.{
  DecodeUnit, is_idr, Depacketizer, request_idr, key_frame, frame_loss, submit, tell,
  drop_frame_state, unit_limit,
}
use moonlight_common_c.VideoDepacketizer.Header.{
  VideoEnv, end_rfi_wait, see_frame_type, note_frame_type, note_lengths,
}
use moonlight_common_c.VideoDepacketizer.Header.{at_least}
use moonlight_common_c.VideoDepacketizer.Frame.{
  is_key, decode_unit, count_frame, offer_unit, reassemble_frame, drop_waiting, finish_frame,
}
use moonlight_common_c.VideoDepacketizer.Inv.{
  core, IsOk, bytes_in, no_wait-IsSound, emptied-IsSound, units-IsSound, drops-IsSound,
  drop_frame_state-IsOk, give_up_frame-IsOk, complete_video_frame-IsOk, queue_fragment-IsOk,
  process_slow-IsOk,
}

end_rfi_wait-IsOk : (d : Depacketizer) → IsOk d → IsOk (end_rfi_wait d)
unfolding end_rfi_wait
end_rfi_wait-IsOk d s = if_cases IsOk d.wait_rfi (λ _. no_wait-IsSound (core d) s) (λ _. s)

see_frame_type-IsOk :
    (fmt : VideoFormat) (t : ℕ) (d : Depacketizer) → IsOk d → IsOk (see_frame_type fmt t d)
unfolding see_frame_type
see_frame_type-IsOk fmt t d s =
    if_cases IsOk (t == 2)
      (λ _. end_rfi_wait-IsOk _ (if_cases IsOk (is_annex_b fmt) (λ _. s) (λ _. s)))
      (λ _. if_cases IsOk (t == 4 || t == 5) (λ _. end_rfi_wait-IsOk d s) (λ _. s))

one_more :
    (us : List DecodeUnit) (u : DecodeUnit)
    → leb 15 (length us) ≡ false
    → length (us ++ u ∷ []) ≤ 15
one_more us u room = ground (arith, length-append us (u ∷ []))

drop_waiting-IsOk : (frame : ℕ) (d : Depacketizer) → IsOk d → IsOk (drop_waiting frame d)
unfolding drop_waiting tell
drop_waiting-IsOk frame d s =
    let d' : Depacketizer =
      if d.wait_idr
      then if d.wait_success then tell request_idr d else d
      else tell (frame_loss d.start_frame frame) d in
    let s' : IsOk d' =
      if_cases IsOk d.wait_idr (λ _. if_cases IsOk d.wait_success (λ _. s) (λ _. s)) (λ _. s) in
    drop_frame_state-IsOk (record d' { wait_success = false }) s'

module _ (env : VideoEnv) where
  note_frame_type-IsOk :
      (frame : ℕ) (bs : List ℕ) (d : Depacketizer) → IsOk d → IsOk (note_frame_type env frame bs d)
  unfolding note_frame_type tell
  note_frame_type-IsOk frame bs d s =
      if_cases IsOk (at_least env.version 7 1 350 && leb 4 (length bs))
        (λ _. see_frame_type-IsOk env.format (byte_at bs 3) d s)
        (λ _. if_cases IsOk d.wait_rfi (λ _. no_wait-IsSound (core d) s) (λ _. s))

  read_frame_header-IsOk :
      (p : VideoPacket) (d : Depacketizer) → IsOk d → IsOk (read_frame_header env p d)
  unfolding read_frame_header note_lengths
  read_frame_header-IsOk p d s =
      if_cases IsOk (is_first p && ltb 0 (length p.payload))
        (λ _. note_frame_type-IsOk p.frame_index p.payload d s) (λ _. s)

  begin_frame-IsOk : (p : VideoPacket) (d : Depacketizer) → IsOk d → IsOk (begin_frame p d)
  unfolding begin_frame
  begin_frame-IsOk p d s =
      if_cases IsOk (is_before32 d.next_frame p.frame_index)
        (λ _.
          drop_frame_state-IsOk (record d { next_frame = p.frame_index; wait_success = true }) s)
        (λ _. s)

  add_annex_b-IsOk : (p : VideoPacket) (d : Depacketizer) → IsOk d → IsOk (add_annex_b env p d)
  unfolding add_annex_b
  add_annex_b-IsOk p d s =
      let bs = picture_bytes env p in
      if_cases IsOk (is_first p && is_idr_frame_start env.format bs)
        (λ _. process_slow-IsOk env.format env.has_memory (length bs) true bs d s)
        (λ _. queue_fragment-IsOk env.format false true _ d s)

  add_payload-IsOk : (p : VideoPacket) (d : Depacketizer) → IsOk d → IsOk (add_payload env p d).0
  unfolding add_payload add_plain
  add_payload-IsOk p d s =
      let P : Depacketizer × Bool → Type 0 = λ r. IsOk r.0 in
      let bs = picture_bytes env p in
      let size = header_size env p in
      let rest = d.last_payload_length - size in
      if_cases P (is_annex_b env.format) (λ _. add_annex_b-IsOk p d s)
        (λ _.
          if_cases P (not (is_last p)) (λ _. queue_fragment-IsOk env.format false true bs d s)
            (λ _.
              if_cases P (ltb size d.last_payload_length && leb rest (length bs))
                (λ _. queue_fragment-IsOk env.format false true (take rest bs) d s)
                (λ _. give_up_frame-IsOk p.frame_index d s)))

  offer_unit-IsOk :
      (u : DecodeUnit) (frame : ℕ) (ltr : Bool) (d : Depacketizer)
      → IsOk d
      → u.full_length ≡ bytes_in u.buffers
      → IsOk (offer_unit u frame ltr d)
  unfolding offer_unit count_frame tell
  offer_unit-IsOk u frame ltr d s h =
      if_cases IsOk d.is_shut_down (λ _. drops-IsSound (core d) s 0 (omega arith))
        (λ _.
          if_cases IsOk (leb unit_limit (length d.units))
            (λ _.
              let d' : Depacketizer = record d {
                wait_idr = true;
                chain = u.buffers;
                chain_length = u.full_length;
              } in
              units-IsSound (core (drop_frame_state d'))
                (drop_frame_state-IsOk d'
                  (record { measured = h; rfi = s.rfi; drops = s.drops; room = s.room }))
                [] (omega arith))
            (λ room.
              drops-IsSound _
                (units-IsSound (core d) s (d.units ++ u ∷ []) (one_more d.units u room)) 0
                (omega arith)))

  reassemble_frame-IsOk :
      (frame : ℕ) (ltr : Bool) (d : Depacketizer) → IsOk d → IsOk (reassemble_frame env frame ltr d)
  unfolding reassemble_frame tell decode_unit count_frame
  reassemble_frame-IsOk frame ltr d s =
      let u = decode_unit env frame d in
      let d₁ : Depacketizer = if is_key d then tell key_frame d else d in
      let d₂ : Depacketizer = record d₁ { chain = []; chain_length = 0 } in
      let s₁ : IsOk d₁ = if_cases IsOk (is_key d) (λ _. s) (λ _. s) in
      let s₂ : IsOk d₂ = emptied-IsSound (core d₁) s₁ in
      if_cases IsOk (is_empty d.chain || not (env.direct_submit || env.has_unit_memory)) (λ _. s)
        (λ _.
          if_cases IsOk env.direct_submit
            (λ _.
              let done = complete_video_frame-IsOk u env.decoder (tell (submit u) d₂) s₂ in
              drops-IsSound _ done 0 (omega arith))
            (λ _. offer_unit-IsOk u frame ltr d₂ s₂ s.measured))

  finish_frame-IsOk :
      (frame : ℕ) (ltr : Bool) (d : Depacketizer) → IsOk d → IsOk (finish_frame env frame ltr d)
  unfolding finish_frame
  finish_frame-IsOk frame ltr d s =
      let d' : Depacketizer = record d { decoding = false; next_frame = u32 (frame + 1) } in
      if_cases IsOk (d.wait_idr || d.wait_rfi) (λ _. drop_waiting-IsOk frame d' s)
        (λ _.
          if_cases IsOk (d.drop_pending && not (not (is_empty d.chain) && is_idr d.frame_type))
            (λ _. drop_frame_state-IsOk d' s)
            (λ _. reassemble_frame-IsOk frame ltr (record d' { drop_pending = false }) s))

  -- processRtpPayload keeps the depacketizer sound.
  pub process_rtp_payload-IsOk :
      (p : VideoPacket) (d : Depacketizer) → IsOk d → IsOk (process_rtp_payload env p d)
  unfolding process_rtp_payload
  process_rtp_payload-IsOk p d s =
      let d₁ : Depacketizer = if is_first p then begin_frame p d else d in
      let d₁' : Depacketizer = record d₁ { last_packet = packet_index p } in
      let d₂ = read_frame_header env p d₁' in
      let s₁ : IsOk d₁ = if_cases IsOk (is_first p) (λ _. begin_frame-IsOk p d s) (λ _. s) in
      let s₂ = read_frame_header-IsOk p d₁' s₁ in
      let s₃ = add_payload-IsOk p d₂ s₂ in
      if_cases IsOk (is_before32 p.frame_index d.next_frame) (λ _. s)
        (λ _.
          if_cases IsOk (is_corrupt_packet d p) (λ _. give_up_frame-IsOk p.frame_index d s)
            (λ _.
              if_cases IsOk ((add_payload env p d₂).1 && is_last p)
                (λ _.
                  finish_frame-IsOk p.frame_index (has_bit 0 p.extra_flags) (add_payload env p d₂).0
                    s₃)
                (λ _. s₃)))

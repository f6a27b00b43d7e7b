-- ===== src/VideoDepacketizer/Boundary.antt =====
-- VideoDepacketizer.c: what the ends of frames leave in the chain, if a decode unit can be allocated.
use moonlight_common_c.Prelude.{
  is_empty, has_bit, ℕ, zero, suc, ◌+◌, ◌-◌, ◌≡◌, refl, Bool, true, false, not, ◌&&◌, ◌||◌, List,
  [], ◌∷◌, arith, leb, ltb, ◌==◌, if◌then◌else◌, Bool-cases, inl, inr, if_cases, length, take,
  byte_at,
}
use moonlight_common_c.Seq.{u32, is_before32}
use moonlight_common_c.VideoDepacketizer.{
  VideoPacket, is_first, is_last, packet_index, is_corrupt_packet, begin_frame, header_size,
  read_frame_header, picture_bytes, add_annex_b, add_plain, add_payload, process_rtp_payload,
}
use moonlight_common_c.VideoDepacketizer.Nal.{
  VideoFormat, is_annex_b, is_idr_frame_start, is_seq_reference_frame_start,
  is_picture_parameter_set_nal, skip_to_next_nal,
}
use moonlight_common_c.VideoDepacketizer.State.{
  Fragment, DecodeUnit, DecoderStatus, dr_ok, dr_need_idr, dr_other, is_idr, Depacketizer,
  key_frame, submit, tell, drop_frame_state, cleanup_frame_state, report_loss, give_up_frame,
  request_decoder_refresh, complete_video_frame, unit_limit,
}
use moonlight_common_c.VideoDepacketizer.Fragment.{
  queue_fragment, see_idr, round_start, round_end, process_slow,
}
use moonlight_common_c.VideoDepacketizer.Header.{
  VideoEnv, at_least, end_rfi_wait, see_frame_type, note_frame_type, note_lengths,
}
use moonlight_common_c.VideoDepacketizer.Frame.{
  is_key, decode_unit, count_frame, offer_unit, reassemble_frame, drop_waiting, finish_frame,
}

abbrev NoChain : Depacketizer → Type 0
NoChain d = d.chain ≡ []

abbrev Decodes : Depacketizer → Type 0
Decodes d = d.decoding ≡ true

drop_frame_state-NoChain : (d : Depacketizer) → NoChain (drop_frame_state d)
unfolding drop_frame_state cleanup_frame_state
drop_frame_state-NoChain d = refl

drop_waiting-NoChain : (frame : ℕ) (d : Depacketizer) → NoChain (drop_waiting frame d)
unfolding drop_waiting drop_frame_state cleanup_frame_state
drop_waiting-NoChain frame d = refl

give_up_frame-NoChain : (frame : ℕ) (d : Depacketizer) → NoChain (give_up_frame frame d)
unfolding give_up_frame report_loss tell
give_up_frame-NoChain frame d =
    let d' = drop_frame_state (record d { decoding = false; next_frame = u32 (frame + 1) }) in
    let empty =
      drop_frame_state-NoChain (record d { decoding = false; next_frame = u32 (frame + 1) }) in
    if_cases NoChain d'.wait_idr (λ _. empty) (λ _. empty)

complete_video_frame-NoChain :
    (u : DecodeUnit) (status : DecoderStatus) (d : Depacketizer)
    → NoChain d
    → NoChain (complete_video_frame u status d)
unfolding complete_video_frame request_decoder_refresh tell
complete_video_frame-NoChain u dr_need_idr d e = e
complete_video_frame-NoChain u dr_ok d e = if_cases NoChain (is_idr u.frame_type) (λ _. e) (λ _. e)
complete_video_frame-NoChain u dr_other d e = e

offer_unit-NoChain :
    (u : DecodeUnit) (frame : ℕ) (ltr : Bool) (d : Depacketizer)
    → NoChain d
    → NoChain (offer_unit u frame ltr d)
unfolding offer_unit count_frame tell
offer_unit-NoChain u frame ltr d e =
    if_cases NoChain d.is_shut_down (λ _. e)
      (λ _.
        if_cases NoChain (leb unit_limit (length d.units))
          (λ _.
            drop_frame_state-NoChain
              (record d { wait_idr = true; chain = u.buffers; chain_length = u.full_length }))
          (λ _. e))

nothing_there : (fs : List Fragment) → is_empty fs ≡ true → fs ≡ []
nothing_there [] h = refl
nothing_there (f ∷ fs) h = absurd (cc h)

-- What begin_frame and the steps up to the payload leave.
see_idr-Decodes : (starts : Bool) (d : Depacketizer) → Decodes d → Decodes (see_idr starts d)
unfolding see_idr
see_idr-Decodes true d e = e
see_idr-Decodes false d e = e

module _ (fmt : VideoFormat) where
  queue_fragment-Decodes :
      (has_memory takes : Bool) (bs : List ℕ) (d : Depacketizer)
      → Decodes d
      → Decodes (queue_fragment fmt has_memory takes bs d)
  unfolding queue_fragment
  queue_fragment-Decodes has_memory takes bs d e =
      if_cases Decodes (takes || has_memory) (λ _. e) (λ _. e)

  process_slow-Decodes :
      (has_memory : ℕ → Bool) (fuel : ℕ) (free : Bool) (bs : List ℕ) (d : Depacketizer)
      → Decodes d
      → Decodes (process_slow fmt has_memory fuel free bs d)
  unfolding process_slow
  process_slow-Decodes has_memory zero free bs d e = e
  process_slow-Decodes has_memory (suc fuel) free bs d e =
      let start = round_start fmt bs in
      let end = round_end fmt start in
      let pic = is_seq_reference_frame_start fmt start in
      let unit = take (length start - length end) start in
      let d' = queue_fragment fmt (has_memory (length bs)) (pic && free) unit (see_idr pic d) in
      if_cases Decodes (is_empty bs) (λ _. e)
        (λ _. process_slow-Decodes has_memory fuel (free && not pic) end d' (
          queue_fragment-Decodes (has_memory (length bs)) (pic && free) unit (see_idr pic d)
            (see_idr-Decodes pic d e)))

end_rfi_wait-Decodes : (d : Depacketizer) → Decodes d → Decodes (end_rfi_wait d)
unfolding end_rfi_wait
end_rfi_wait-Decodes d e = if_cases Decodes d.wait_rfi (λ _. e) (λ _. e)

module _ (env : VideoEnv) (p : VideoPacket) where
  read_frame_header-Decodes : (d : Depacketizer) → Decodes d → Decodes (read_frame_header env p d)
  unfolding read_frame_header note_frame_type see_frame_type note_lengths tell
  read_frame_header-Decodes d e =
      let fmt = env.format in
      let t = byte_at p.payload 3 in
      if_cases Decodes (is_first p && ltb 0 (length p.payload))
        (λ _.
          if_cases Decodes (at_least env.version 7 1 350 && leb 4 (length p.payload))
            (λ _.
              if_cases Decodes (t == 2)
                (λ _. end_rfi_wait-Decodes _ (if_cases Decodes (is_annex_b fmt) (λ _. e) (λ _. e)))
                (λ _. if_cases Decodes (t == 4 || t == 5) (λ _. end_rfi_wait-Decodes d e) (λ _. e)))
            (λ _. if_cases Decodes d.wait_rfi (λ _. e) (λ _. e)))
        (λ _. e)

  -- The payload was added, or the frame was given up.
  abbrev Added : Depacketizer × Bool → Type 0
  Added (d, added) = (added ≡ true → Decodes d) × (added ≡ false → NoChain d)

  add_payload-Added : (d : Depacketizer) → Decodes d → Added (add_payload env p d)
  unfolding add_payload add_plain add_annex_b
  add_payload-Added d e =
      let bs = picture_bytes env p in
      let size = header_size env p in
      let rest = d.last_payload_length - size in
      if_cases Added (is_annex_b env.format)
        (λ _. (
          λ _.
              if_cases Decodes (is_first p && is_idr_frame_start env.format bs)
                (λ _. process_slow-Decodes env.format env.has_memory (length bs) true bs d e)
                (λ _.
                  queue_fragment-Decodes env.format false true
                    (if is_first p && is_picture_parameter_set_nal env.format bs
                      then skip_to_next_nal bs
                      else bs)
                    d e),
          λ never. absurd (cc never),
        ))
        (λ _.
          if_cases Added (not (is_last p))
            (λ _. (
              λ _. queue_fragment-Decodes env.format false true bs d e,
              λ never. absurd (cc never),
            ))
            (λ _.
              if_cases Added (ltb size d.last_payload_length && leb rest (length bs))
                (λ _. (
                  λ _. queue_fragment-Decodes env.format false true (take rest bs) d e,
                  λ never. absurd (cc never),
                ))
                (λ _. (λ never. absurd (cc never), λ _. give_up_frame-NoChain p.frame_index d))))

  module _ (can : (env.direct_submit || env.has_unit_memory) ≡ true) where
    reassemble_frame-NoChain :
        (frame : ℕ) (ltr : Bool) (d : Depacketizer) → NoChain (reassemble_frame env frame ltr d)
    unfolding reassemble_frame tell count_frame
    reassemble_frame-NoChain frame ltr d =
        let u = decode_unit env frame d in
        let d₁ : Depacketizer = if is_key d then tell key_frame d else d in
        let d₂ : Depacketizer = record d₁ { chain = []; chain_length = 0 } in
        if_cases NoChain (is_empty d.chain || not (env.direct_submit || env.has_unit_memory))
          (λ nothing. nothing_there d.chain (ground arith))
          (λ _.
            if_cases NoChain env.direct_submit
              (λ _. complete_video_frame-NoChain u env.decoder (tell (submit u) d₂) refl)
              (λ _. offer_unit-NoChain u frame ltr d₂ refl))

    finish_frame-NoChain :
        (frame : ℕ) (ltr : Bool) (d : Depacketizer) → NoChain (finish_frame env frame ltr d)
    unfolding finish_frame
    finish_frame-NoChain frame ltr d =
        let d' : Depacketizer = record d { decoding = false; next_frame = u32 (frame + 1) } in
        if_cases NoChain (d.wait_idr || d.wait_rfi) (λ _. drop_waiting-NoChain frame d')
          (λ _.
            if_cases NoChain (d.drop_pending && not (not (is_empty d.chain) && is_idr d.frame_type))
              (λ _. drop_frame_state-NoChain d')
              (λ _. reassemble_frame-NoChain frame ltr (record d' { drop_pending = false })))

    -- Between frames the chain is empty: if the chain is empty whenever no frame is being decoded,
    -- then it is so after another packet too, whether the packet is passed over, ends a frame that
    -- is passed on, dropped or given up, or makes the queue for the decoder overflow. So no
    -- fragment is left behind when a frame ends. The decoder takes frames at once or there is
    -- memory for a decode unit, and a packet other than the first of a frame comes only while a
    -- frame is being decoded.
    pub process_rtp_payload_boundary :
        (d : Depacketizer)
        → (is_first p ≡ false → d.decoding ≡ true)
        → (d.decoding ≡ false → d.chain ≡ [])
        → (process_rtp_payload env p d).decoding ≡ false
        → (process_rtp_payload env p d).chain ≡ []
    unfolding process_rtp_payload begin_frame
    process_rtp_payload_boundary d inside before =
        let B : Depacketizer → Type 0 = λ e. e.decoding ≡ false → e.chain ≡ [] in
        let d₁ : Depacketizer = if is_first p then begin_frame p d else d in
        let d₁' : Depacketizer = record d₁ { last_packet = packet_index p } in
        let d₂ = read_frame_header env p d₁' in
        let r = add_payload env p d₂ in
        let e₁ : Decodes d₁ = if_cases Decodes (is_first p) (λ _. refl) inside in
        let added = add_payload-Added d₂ (read_frame_header-Decodes d₁' e₁) in
        if_cases B (is_before32 p.frame_index d.next_frame) (λ _. before)
          (λ _.
            if_cases B (is_corrupt_packet d p) (λ _ _. give_up_frame-NoChain p.frame_index d)
              (λ _.
                if_cases B (r.1 && is_last p)
                  (λ _ _. finish_frame-NoChain p.frame_index (has_bit 0 p.extra_flags) r.0)
                  (λ _ out. elim (Bool-cases r.1) [
                    | inl was ↦ absurd (cc (out, added.0 was))
                    | inr not_added ↦ added.1 not_added
                  ])))

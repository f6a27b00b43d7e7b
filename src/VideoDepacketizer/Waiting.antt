-- ===== src/VideoDepacketizer/Waiting.antt =====
-- VideoDepacketizer.c: while it waits for an IDR frame the depacketizer passes nothing on.
use moonlight_common_c.Prelude.{
  has_bit, ℕ, ◌+◌, ◌-◌, ◌≡◌, refl, ap, ◌∙◌, Bool, true, false, not, ◌&&◌, ◌||◌, List, [], ◌∷◌, ◌++◌,
  arith, leb, ltb, ◌==◌, if◌then◌else◌, if_cases, length, take, byte_at,
}
use moonlight_common_c.Seq.{u32, is_before32, sub32}
use moonlight_common_c.VideoDepacketizer.{
  VideoPacket, is_first, is_last, packet_index, is_corrupt_packet, begin_frame, header_size,
  read_frame_header, picture_bytes, add_annex_b, add_plain, add_payload, process_rtp_payload,
}
use moonlight_common_c.VideoDepacketizer.Nal.{VideoFormat, is_annex_b, is_idr_frame_start}
use moonlight_common_c.VideoDepacketizer.State.{
  DecodeUnit, Depacketizer, VideoEvent, request_idr, key_frame, frame_loss, complete_frame, submit,
  tell, choose_wait, count_drop, cleanup_frame_state, drop_frame_state, report_loss, give_up_frame,
}
use moonlight_common_c.VideoDepacketizer.Fragment.{queue_fragment}
use moonlight_common_c.VideoDepacketizer.Header.{
  VideoEnv, at_least, end_rfi_wait, see_frame_type, note_frame_type, note_lengths,
}
use moonlight_common_c.VideoDepacketizer.Frame.{drop_waiting, finish_frame}

-- The frames that were passed on, as the control stream was told.
abbrev pub frames : List VideoEvent → ℕ
frames [] = 0
frames (complete_frame n ltr ∷ es) = 1 + frames es
frames (_ ∷ es) = frames es

-- Whether a packet starts a frame that ends the wait: the type in the frame header says so, or in H.264
-- and HEVC the first unit.
abbrev pub brings_idr : VideoEnv → VideoPacket → Bool
brings_idr env p =
    is_first p
    && (if is_annex_b env.format
        then is_idr_frame_start env.format (picture_bytes env p)
        else at_least env.version 7 1 350 && leb 4 (length p.payload) && byte_at p.payload 3 == 2)

frames-append : (es fs : List VideoEvent) → frames (es ++ fs) ≡ frames es + frames fs
frames-append [] fs = omega arith
frames-append (request_idr ∷ es) fs = frames-append es fs
frames-append (key_frame ∷ es) fs = frames-append es fs
frames-append (frame_loss m n ∷ es) fs = frames-append es fs
frames-append (complete_frame m ltr ∷ es) fs = omega (arith, frames-append es fs)
frames-append (submit u ∷ es) fs = frames-append es fs

-- The wait goes on, `n` frames were passed on, and these wait for the decoder.
pub record IsWaitingIdr (n : ℕ) (us : List DecodeUnit) (d : Depacketizer) : Type 0 where
  pub waits : d.wait_idr ≡ true
  pub passed : frames d.log ≡ n
  pub queued : d.units ≡ us

not_idle : (a b : Bool) → a ≡ true → (a || b) ≡ false → ⊥
not_idle a b h e = ground arith

module _ (n : ℕ) (us : List DecodeUnit) where
  abbrev W : Depacketizer → Type 0
  W d = IsWaitingIdr n us d

  tell-W : (e : VideoEvent) (d : Depacketizer) → frames (e ∷ []) ≡ 0 → W d → W (tell e d)
  unfolding tell
  tell-W e d none_passed w = record {
    waits = w.waits;
    passed = omega (arith, frames-append d.log (e ∷ []), w.passed);
    queued = w.queued;
  }

  -- Steps that do not touch the three.
  abbrev Same : Depacketizer → Depacketizer → Type 0
  Same d d' = (d'.wait_idr ≡ d.wait_idr) × (d'.log ≡ d.log) × (d'.units ≡ d.units)

  Same-W : (d d' : Depacketizer) → Same d d' → W d → W d'
  Same-W d d' (a, b, c) w = record {
    waits = a ∙ w.waits;
    passed = ap frames b ∙ w.passed;
    queued = c ∙ w.queued;
  }

  choose_wait-W : (d : Depacketizer) → W d → W (choose_wait d)
  choose_wait-W d w =
      if_cases W (d.strict_idr_wait || not d.idr_processed || d.wait_idr)
        (λ _. record { waits = refl; passed = w.passed; queued = w.queued })
        (λ _. record { waits = w.waits; passed = w.passed; queued = w.queued })

  count_drop-W : (d : Depacketizer) → W d → W (count_drop d)
  count_drop-W d w =
      if_cases W (u32 (d.drops + 1) == 120)
        (λ _.
          tell-W request_idr (record d { drops = 0; wait_idr = true }) refl
            (record { waits = refl; passed = w.passed; queued = w.queued }))
        (λ _. Same-W d (record d { drops = u32 (d.drops + 1) }) (refl, refl, refl) w)

  drop_frame_state-W : (d : Depacketizer) → W d → W (drop_frame_state d)
  unfolding drop_frame_state cleanup_frame_state
  drop_frame_state-W d w =
      let d' = count_drop (choose_wait d) in
      Same-W d' (record d' { chain = []; chain_length = 0 }) (refl, refl, refl)
        (count_drop-W (choose_wait d) (choose_wait-W d w))

  give_up_frame-W : (frame : ℕ) (d : Depacketizer) → W d → W (give_up_frame frame d)
  unfolding give_up_frame report_loss
  give_up_frame-W frame d w =
      let d₁ : Depacketizer = record d { decoding = false; next_frame = u32 (frame + 1) } in
      let w₁ : W d₁ = Same-W d d₁ (refl, refl, refl) w in
      let d₂ = drop_frame_state d₁ in
      let w₂ = drop_frame_state-W d₁ w₁ in
      if_cases W d₂.wait_idr (λ _. tell-W request_idr d₂ refl w₂)
        (λ _. tell-W (frame_loss d₂.start_frame frame) d₂ refl w₂)

  drop_waiting-W : (frame : ℕ) (d : Depacketizer) → W d → W (drop_waiting frame d)
  unfolding drop_waiting
  drop_waiting-W frame d w =
      let d' : Depacketizer =
        if d.wait_idr
        then if d.wait_success then tell request_idr d else d
        else tell (frame_loss d.start_frame frame) d in
      let w' : W d' =
        if_cases W d.wait_idr
          (λ _. if_cases W d.wait_success (λ _. tell-W request_idr d refl w) (λ _. w))
          (λ _. tell-W (frame_loss d.start_frame frame) d refl w) in
      drop_frame_state-W (record d' { wait_success = false })
        (Same-W d' (record d' { wait_success = false }) (refl, refl, refl) w')

  begin_frame-W : (p : VideoPacket) (d : Depacketizer) → W d → W (begin_frame p d)
  unfolding begin_frame
  begin_frame-W p d w =
      let d' : Depacketizer =
        if is_before32 d.next_frame p.frame_index
        then drop_frame_state (record d { next_frame = p.frame_index; wait_success = true })
        else d in
      let w' : W d' =
        if_cases W (is_before32 d.next_frame p.frame_index)
          (λ _.
            drop_frame_state-W (record d { next_frame = p.frame_index; wait_success = true })
              (record { waits = w.waits; passed = w.passed; queued = w.queued }))
          (λ _. w) in
      record { waits = w'.waits; passed = w'.passed; queued = w'.queued }

  end_rfi_wait-W : (d : Depacketizer) → W d → W (end_rfi_wait d)
  unfolding end_rfi_wait
  end_rfi_wait-W d w =
      if_cases W d.wait_rfi
        (λ _. Same-W d (record d { wait_rfi = false; wait_success = false }) (refl, refl, refl) w)
        (λ _. w)

  see_frame_type-W :
      (fmt : VideoFormat) (t : ℕ) (d : Depacketizer)
      → (is_annex_b fmt || not (t == 2)) ≡ true
      → W d
      → W (see_frame_type fmt t d)
  unfolding see_frame_type
  see_frame_type-W fmt t d known w =
      if_cases W (t == 2)
        (λ two. let annex : is_annex_b fmt ≡ true = ground arith in rw annex (end_rfi_wait-W d w))
        (λ _. if_cases W (t == 4 || t == 5) (λ _. end_rfi_wait-W d w) (λ _. w))

  queue_fragment-W :
      (fmt : VideoFormat) (has_memory takes : Bool) (bs : List ℕ) (d : Depacketizer)
      → W d
      → W (queue_fragment fmt has_memory takes bs d)
  unfolding queue_fragment
  queue_fragment-W fmt has_memory takes bs d w =
      if_cases W (takes || has_memory)
        (λ _. record { waits = w.waits; passed = w.passed; queued = w.queued }) (λ _. w)

  module _ (env : VideoEnv) (p : VideoPacket) (no_idr : brings_idr env p ≡ false) where
    read_frame_header-W : (d : Depacketizer) → W d → W (read_frame_header env p d)
    unfolding read_frame_header note_frame_type note_lengths
    read_frame_header-W d w =
        let d' : Depacketizer = note_frame_type env p.frame_index p.payload d in
        if_cases W (is_first p && ltb 0 (length p.payload))
          (λ first.
            let w' : W d' =
              if_cases W (at_least env.version 7 1 350 && leb 4 (length p.payload))
                (λ typed. see_frame_type-W env.format (byte_at p.payload 3) d (ground arith) w)
                (λ _.
                  if_cases W d.wait_rfi
                    (λ _.
                      let told =
                        tell-W (frame_loss d.start_frame (sub32 p.frame_index 1)) d refl w in
                      record { waits = told.waits; passed = told.passed; queued = told.queued })
                    (λ _. w)) in
            record { waits = w'.waits; passed = w'.passed; queued = w'.queued })
          (λ _. w)

    add_payload-W : (d : Depacketizer) → W d → W (add_payload env p d).0
    unfolding add_payload add_plain add_annex_b
    add_payload-W d w =
        let P : Depacketizer × Bool → Type 0 = λ r. W r.0 in
        let bs = picture_bytes env p in
        let size = header_size env p in
        let rest = d.last_payload_length - size in
        if_cases P (is_annex_b env.format)
          (λ annex.
            if_cases W (is_first p && is_idr_frame_start env.format bs)
              (λ starts. absurd (ground arith)) (λ _. queue_fragment-W env.format false true _ d w))
          (λ _.
            if_cases P (not (is_last p)) (λ _. queue_fragment-W env.format false true bs d w)
              (λ _.
                if_cases P (ltb size d.last_payload_length && leb rest (length bs))
                  (λ _. queue_fragment-W env.format false true (take rest bs) d w)
                  (λ _. give_up_frame-W p.frame_index d w)))

    finish_frame-W :
        (frame : ℕ) (ltr : Bool) (d : Depacketizer) → W d → W (finish_frame env frame ltr d)
    unfolding finish_frame
    finish_frame-W frame ltr d w =
        let d' : Depacketizer = record d { decoding = false; next_frame = u32 (frame + 1) } in
        if_cases W (d.wait_idr || d.wait_rfi)
          (λ _. drop_waiting-W frame d' (Same-W d d' (refl, refl, refl) w))
          (λ idle. absurd (not_idle d.wait_idr d.wait_rfi w.waits idle))

  -- While the depacketizer waits for an IDR frame, a packet that does not start one leaves it waiting,
  -- whatever else it brings about: no frame is passed on, and the queue for the decoder stays as it is.
  pub process_rtp_payload_waiting :
      (env : VideoEnv) (p : VideoPacket) (d : Depacketizer)
      → brings_idr env p ≡ false
      → IsWaitingIdr n us d
      → IsWaitingIdr n us (process_rtp_payload env p d)
  unfolding process_rtp_payload
  process_rtp_payload_waiting env p d no_idr w =
      let d₁ : Depacketizer = if is_first p then begin_frame p d else d in
      let d₁' : Depacketizer = record d₁ { last_packet = packet_index p } in
      let d₂ = read_frame_header env p d₁' in
      let w₁ : W d₁ = if_cases W (is_first p) (λ _. begin_frame-W p d w) (λ _. w) in
      let w₁' : W d₁' = Same-W d₁ d₁' (refl, refl, refl) w₁ in
      let w₃ = add_payload-W env p no_idr d₂ (read_frame_header-W env p no_idr d₁' w₁') in
      let d₃ = (add_payload env p d₂).0 in
      if_cases W (is_before32 p.frame_index d.next_frame) (λ _. w)
        (λ _.
          if_cases W (is_corrupt_packet d p) (λ _. give_up_frame-W p.frame_index d w)
            (λ _.
              if_cases W ((add_payload env p d₂).1 && is_last p)
                (λ _. finish_frame-W env p no_idr p.frame_index (has_bit 0 p.extra_flags) d₃ w₃)
                (λ _. w₃)))

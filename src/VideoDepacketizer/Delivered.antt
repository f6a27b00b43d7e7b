-- ===== src/VideoDepacketizer/Delivered.antt =====
-- VideoDepacketizer.c: the last packet of an H.264 or HEVC frame hands the whole frame to the decoder's
-- queue.
use moonlight_common_c.Prelude.{
  is_empty, has_bit, ℕ, ◌+◌, ◌≡◌, refl, ap, ◌∙◌, Bool, true, false, not, ◌&&◌, ◌||◌, List, [], ◌∷◌,
  ◌++◌, arith, leb, if◌then◌else◌, if_cases, length, append_assoc,
}
use moonlight_common_c.Seq.{u32, is_before32}
use moonlight_common_c.VideoDepacketizer.{
  VideoPacket, is_first, is_last, packet_index, is_corrupt_packet, read_frame_header, add_annex_b,
  add_payload, process_rtp_payload,
}
use moonlight_common_c.VideoDepacketizer.Nal.{is_annex_b}
use moonlight_common_c.VideoDepacketizer.State.{
  Fragment, DecodeUnit, is_idr, key_frame, Depacketizer, tell,
}
use moonlight_common_c.VideoDepacketizer.Fragment.{get_buffer_flags, queue_fragment}
use moonlight_common_c.VideoDepacketizer.Header.{VideoEnv}
use moonlight_common_c.VideoDepacketizer.Frame.{
  is_key, decode_unit, count_frame, offer_unit, reassemble_frame, finish_frame,
}
use moonlight_common_c.VideoDepacketizer.Middle.{
  data_of, data_of-snoc, middle_bytes, process_all, AllMiddle, payloads, process_all_middle,
}

-- The last packet of a frame that has other packets before it.
pub record IsLastPacket (d : Depacketizer) (p : VideoPacket) : Type 0 where
  pub later : is_first p ≡ false
  pub last : is_last p ≡ true
  pub current : is_before32 p.frame_index d.next_frame ≡ false
  pub in_order : is_corrupt_packet d p ≡ false

-- Nothing stands in the way of a frame: no wait, no drop that was asked for, and room in the queue.
pub record IsReady (env : VideoEnv) (d : Depacketizer) : Type 0 where
  pub no_wait : (d.wait_idr || d.wait_rfi) ≡ false
  pub no_drop : d.drop_pending ≡ false
  pub running : d.is_shut_down ≡ false
  pub room : leb 15 (length d.units) ≡ false
  pub annex_b : is_annex_b env.format ≡ true
  pub queued : env.direct_submit ≡ false
  pub memory : env.has_unit_memory ≡ true

-- What becomes of the queue and the counters.
abbrev pub Takes : VideoEnv → ℕ → Depacketizer → Depacketizer → Type 0
Takes env frame d r =
    (r.units ≡ d.units ++ decode_unit env frame d ∷ [])
    × (r.chain ≡ [])
    × (r.drops ≡ 0)
    × (r.start_frame ≡ d.next_frame)

not_empty : (fs : List Fragment) (f : Fragment) → is_empty (fs ++ f ∷ []) ≡ false
not_empty [] f = refl
not_empty (g ∷ fs) f = refl

module _ (env : VideoEnv) where
  reassemble-Takes :
      (frame : ℕ) (ltr : Bool) (d : Depacketizer)
      → IsReady env d
      → is_empty d.chain ≡ false
      → Takes env frame d (reassemble_frame env frame ltr d)
  unfolding reassemble_frame offer_unit tell count_frame
  reassemble-Takes frame ltr d ready some_there =
      let u = decode_unit env frame d in
      let queued = ready.queued in
      let memory = ready.memory in
      let d₁ : Depacketizer = if is_key d then tell key_frame d else d in
      let S : Depacketizer → Type 0 = λ r.
        (r.units ≡ d.units) × (r.is_shut_down ≡ d.is_shut_down) × (r.next_frame ≡ d.next_frame) in
      let (units, shut, next) : S d₁ =
        if_cases S (is_key d) (λ _. (refl, refl, refl)) (λ _. (refl, refl, refl)) in
      let P = Takes env frame d in
      let Q : Depacketizer → Type 0 = λ r. P r in
      if_cases Q (is_empty d.chain || not (env.direct_submit || env.has_unit_memory))
        (λ never. absurd (ground arith))
        (λ _.
          if_cases Q env.direct_submit (λ never. absurd (cc (never, queued)))
            (λ _.
              if_cases Q d₁.is_shut_down (λ never. absurd (cc (never, shut, ready.running)))
                (λ _.
                  if_cases Q (leb 15 (length d₁.units))
                    (λ full. absurd (cc (full, ap (λ us. leb 15 (length us)) units, ready.room)))
                    (λ _. (ap (λ us. us ++ u ∷ []) units, refl, refl, next)))))

  -- The state in front of reassembleFrame.
  abbrev ended : ℕ → Depacketizer → Depacketizer
  ended frame d = record d { decoding = false; next_frame = u32 (frame + 1); drop_pending = false }

  finish_ready :
      (frame : ℕ) (ltr : Bool) (d : Depacketizer)
      → IsReady env d
      → finish_frame env frame ltr d ≡ reassemble_frame env frame ltr (ended frame d)
  unfolding finish_frame
  finish_ready frame ltr d ready =
      let P : Depacketizer → Type 0 = λ r. r ≡ reassemble_frame env frame ltr (ended frame d) in
      let no_drop = ready.no_drop in
      if_cases P (d.wait_idr || d.wait_rfi) (λ never. absurd (cc (never, ready.no_wait)))
        (λ _.
          if_cases P (d.drop_pending && not (not (is_empty d.chain) && is_idr d.frame_type))
            (λ never. absurd (ground arith)) (λ _. refl))

  -- The state with the payload of the last packet in the chain.
  abbrev with_last : VideoPacket → Depacketizer → Depacketizer
  with_last p d =
      queue_fragment env.format false true p.payload (record d { last_packet = packet_index p })

  last_payload :
      (p : VideoPacket) (d : Depacketizer)
      → is_first p ≡ false
      → is_annex_b env.format ≡ true
      → add_payload env p d ≡ (queue_fragment env.format false true p.payload d, true)
  unfolding add_payload add_annex_b
  last_payload p d later annex = let same = middle_bytes env p later in rw (annex, same, later) refl

  process_last :
      (p : VideoPacket) (d : Depacketizer)
      → IsLastPacket d p
      → is_annex_b env.format ≡ true
      → process_rtp_payload env p d
        ≡ finish_frame env p.frame_index (has_bit 0 p.extra_flags) (with_last p d)
  unfolding process_rtp_payload read_frame_header
  process_last p d l annex =
      let d' : Depacketizer = record d { last_packet = packet_index p } in
      let later = l.later in
      let current = l.current in
      let in_order = l.in_order in
      let added = last_payload p d' later annex in rw (later, current, in_order, added, l.last) refl

  -- A frame of an H.264 or HEVC stream reaches the decoder's queue whole. The packets between its
  -- first and its last one, and then the last one, come in the order of the stream: none is the
  -- first of a frame, none belongs to a frame that is over, and each passes the test on the
  -- stream's packet index. At the last packet no wait is on and no drop was asked for, the decoder
  -- takes frames from the queue rather than at once, the queue is not shut down and holds fewer
  -- than 15, and there is memory for the decode unit. Then one decode unit with the last packet's
  -- frame number joins the queue. Its data are what the first packet left in the chain, followed by
  -- the payloads of the others. The chain is empty again, the count of dropped frames is 0 and the
  -- range of frames that a loss would concern starts behind the frame.
  pub frame_delivered :
      (ps : List VideoPacket) (p : VideoPacket) (d : Depacketizer)
      → AllMiddle env d ps
      → IsLastPacket (process_all env ps d) p
      → IsReady env (process_all env ps d)
      → (u : DecodeUnit) × ((process_rtp_payload env p (process_all env ps d)).units
          ≡ d.units ++ u ∷ [])
        × (u.frame_number ≡ p.frame_index)
        × (data_of u.buffers ≡ data_of d.chain ++ (payloads ps ++ p.payload))
        × ((process_rtp_payload env p (process_all env ps d)).chain ≡ [])
        × ((process_rtp_payload env p (process_all env ps d)).drops ≡ 0)
        × ((process_rtp_payload env p (process_all env ps d)).start_frame ≡ u32 (p.frame_index + 1))
  unfolding queue_fragment decode_unit
  frame_delivered ps p d middle l ready =
      let d' = process_all env ps d in
      let (bytes, _, _, units) = process_all_middle env ps d middle in
      let e = with_last p d' in
      let f : Fragment = record {
        bytes = p.payload;
        buffer_type = get_buffer_flags env.format p.payload;
        takes_packet = true;
      } in
      let ready' : IsReady env e = record {
        no_wait = ready.no_wait;
        no_drop = ready.no_drop;
        running = ready.running;
        room = ready.room;
        annex_b = ready.annex_b;
        queued = ready.queued;
        memory = ready.memory;
      } in
      let ltr = has_bit 0 p.extra_flags in
      let done = process_last p d' l ready.annex_b ∙ finish_ready p.frame_index ltr e ready' in
      let ended_ready : IsReady env (ended p.frame_index e) = record {
        no_wait = ready.no_wait;
        no_drop = refl;
        running = ready.running;
        room = ready.room;
        annex_b = ready.annex_b;
        queued = ready.queued;
        memory = ready.memory;
      } in
      let (now, empty, zeroed, start) =
        reassemble-Takes p.frame_index ltr (ended p.frame_index e) ended_ready
          (not_empty d'.chain f) in
      (
        decode_unit env p.frame_index e,
        ap (λ (r : Depacketizer). r.units) done
            ∙ now
            ∙ ap (λ us. us ++ decode_unit env p.frame_index e ∷ []) units,
        refl,
        data_of-snoc d'.chain f
            ∙ ap (λ xs. xs ++ p.payload) bytes
            ∙ append_assoc (data_of d.chain) (payloads ps) p.payload,
        ap (λ (r : Depacketizer). r.chain) done ∙ empty,
        ap (λ (r : Depacketizer). r.drops) done ∙ zeroed,
        ap (λ (r : Depacketizer). r.start_frame) done ∙ start,
      )

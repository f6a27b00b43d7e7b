-- ===== src/VideoDepacketizer/Middle.antt =====
-- VideoDepacketizer.c: the packets between the first and the last of a frame go into the chain as they
-- are.
use moonlight_common_c.Prelude.{
  ℕ, ◌≡◌, refl, sym, ap, ◌∙◌, true, false, List, [], ◌∷◌, ◌++◌, leb, Bool-cases, inl, inr, if_cases,
  length, append_assoc, append-nil,
}
use moonlight_common_c.Seq.{is_before32}
use moonlight_common_c.VideoDepacketizer.{
  VideoPacket, is_first, is_last, packet_index, is_corrupt_packet, header_size, read_frame_header,
  picture_bytes, add_annex_b, add_plain, add_payload, process_rtp_payload,
}
use moonlight_common_c.VideoDepacketizer.Nal.{is_annex_b}
use moonlight_common_c.VideoDepacketizer.State.{Fragment, Depacketizer}
use moonlight_common_c.VideoDepacketizer.Fragment.{queue_fragment}
use moonlight_common_c.VideoDepacketizer.Header.{VideoEnv, skip_header}

abbrev pub data_of : List Fragment → List ℕ
data_of [] = []
data_of (f ∷ fs) = f.bytes ++ data_of fs

-- The packets of a frame that are neither its first nor its last one, in the order of the stream.
pub record IsMiddle (d : Depacketizer) (p : VideoPacket) : Type 0 where
  pub later : is_first p ≡ false
  pub not_last : is_last p ≡ false
  pub current : is_before32 p.frame_index d.next_frame ≡ false
  pub in_order : is_corrupt_packet d p ≡ false

module _ (env : VideoEnv) (p : VideoPacket) where
  pub middle_bytes : is_first p ≡ false → picture_bytes env p ≡ p.payload
  unfolding picture_bytes header_size skip_header
  middle_bytes later =
      let P : List ℕ → Type 0 = λ xs. xs ≡ p.payload in
      rw later (if_cases P (leb 0 (length p.payload)) (λ _. refl) (λ _. refl))

  middle_payload :
      (d : Depacketizer)
      → is_first p ≡ false
      → is_last p ≡ false
      → add_payload env p d ≡ (queue_fragment env.format false true p.payload d, true)
  unfolding add_payload add_plain add_annex_b
  middle_payload d later inner =
      let same = middle_bytes later in
      elim (Bool-cases (is_annex_b env.format)) [
        | inl annex ↦ rw (annex, same, later) refl
        | inr plain ↦ rw (plain, same, inner) refl
      ]

  process_middle :
      (d : Depacketizer)
      → IsMiddle d p
      → process_rtp_payload env p d
        ≡ queue_fragment env.format false true p.payload (record d { last_packet = packet_index p })
  unfolding process_rtp_payload read_frame_header
  process_middle d m =
      let d' : Depacketizer = record d { last_packet = packet_index p } in
      let later = m.later in
      let current = m.current in
      let in_order = m.in_order in
      let added = middle_payload d' later m.not_last in
      rw (later, current, in_order, added, m.not_last) refl

-- The packets of a stretch of a frame, one after the other.
unfoldable pub process_all : VideoEnv → List VideoPacket → Depacketizer → Depacketizer
process_all env [] d = d
process_all env (p ∷ ps) d = process_all env ps (process_rtp_payload env p d)

abbrev pub AllMiddle : VideoEnv → Depacketizer → List VideoPacket → Type 0
AllMiddle env d [] = Unit {0}
AllMiddle env d (p ∷ ps) = IsMiddle d p × AllMiddle env (process_rtp_payload env p d) ps

abbrev pub payloads : List VideoPacket → List ℕ
payloads [] = []
payloads (p ∷ ps) = p.payload ++ payloads ps

pub data_of-snoc :
    (fs : List Fragment) (f : Fragment) → data_of (fs ++ f ∷ []) ≡ data_of fs ++ f.bytes
data_of-snoc [] f = append-nil f.bytes
data_of-snoc (g ∷ fs) f =
    ap (λ xs. g.bytes ++ xs) (data_of-snoc fs f) ∙ sym (append_assoc g.bytes (data_of fs) f.bytes)

-- The packets between the first and the last of a frame, in the order of the stream, add exactly their
-- payloads to the frame's data, and leave the frame that is due, the log and the queue as they are.
pub process_all_middle :
    (env : VideoEnv) (ps : List VideoPacket) (d : Depacketizer)
    → AllMiddle env d ps
    → (data_of (process_all env ps d).chain ≡ data_of d.chain ++ payloads ps)
      × ((process_all env ps d).next_frame ≡ d.next_frame)
      × ((process_all env ps d).log ≡ d.log)
      × ((process_all env ps d).units ≡ d.units)
unfolding process_all queue_fragment
process_all_middle env [] d h = (sym (append-nil (data_of d.chain)), refl, refl, refl)
process_all_middle env (p ∷ ps) d (m, rest) =
    let (bytes, frame, log, units) = process_all_middle env ps (process_rtp_payload env p d) rest in
    let e = process_middle env p d m in
    let one = ap (λ (r : Depacketizer). data_of r.chain) e ∙ data_of-snoc d.chain _ in
    (
      bytes
          ∙ ap (λ xs. xs ++ payloads ps) one
          ∙ append_assoc (data_of d.chain) p.payload (payloads ps),
      frame ∙ ap (λ (r : Depacketizer). r.next_frame) e,
      log ∙ ap (λ (r : Depacketizer). r.log) e,
      units ∙ ap (λ (r : Depacketizer). r.units) e,
    )

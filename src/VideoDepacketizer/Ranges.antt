-- ===== src/VideoDepacketizer/Ranges.antt =====
-- VideoDepacketizer.c: which frames the host is told to be lost. The code tells it the range from
-- startFrameNumber on, which reassembleFrame moves behind each frame that it passes on.
use moonlight_common_c.Prelude.{
  ℕ, ◌+◌, ◌≡◌, refl, sym, ap, ◌∙◌, subst, false, not, ◌||◌, List, [], ◌∷◌, ◌++◌, ◌==◌, if_cases,
}
use moonlight_common_c.Seq.{u32}
use moonlight_common_c.VideoDepacketizer.State.{
  DecodeUnit, DecoderStatus, dr_ok, dr_need_idr, dr_other, is_idr, Depacketizer, VideoEvent,
  request_idr, key_frame, frame_loss, complete_frame, submit, tell, choose_wait,
  cleanup_frame_state, drop_frame_state, report_loss, give_up_frame, notify_frame_lost,
  request_decoder_refresh, complete_video_frame,
}

-- The number behind the last frame that was passed on, of which the control stream is told.
abbrev pub behind : ℕ → VideoEvent → ℕ
behind start (complete_frame frame ltr) = u32 (frame + 1)
behind start request_idr = start
behind start key_frame = start
behind start (frame_loss from to) = start
behind start (submit u) = start

abbrev pub behind_last : ℕ → List VideoEvent → ℕ
behind_last start [] = start
behind_last start (e ∷ es) = behind_last (behind start e) es

-- A range of lost frames begins there.
abbrev pub Fits : ℕ → VideoEvent → Type 0
Fits start (frame_loss from to) = from ≡ start
Fits start (complete_frame frame ltr) = Unit {0}
Fits start request_idr = Unit {0}
Fits start key_frame = Unit {0}
Fits start (submit u) = Unit {0}

abbrev pub AllFit : ℕ → List VideoEvent → Type 0
AllFit start [] = Unit {0}
AllFit start (e ∷ es) = Fits start e × AllFit (behind start e) es

behind_last-snoc :
    (start : ℕ) (es : List VideoEvent) (e : VideoEvent)
    → behind_last start (es ++ e ∷ []) ≡ behind (behind_last start es) e
behind_last-snoc start [] e = refl
behind_last-snoc start (x ∷ es) e = behind_last-snoc (behind start x) es e

AllFit-snoc :
    (start : ℕ) (es : List VideoEvent) (e : VideoEvent)
    → AllFit start es
    → Fits (behind_last start es) e
    → AllFit start (es ++ e ∷ [])
AllFit-snoc start [] e all one = (one, tt)
AllFit-snoc start (x ∷ es) e (here, all) one = (here, AllFit-snoc (behind start x) es e all one)

-- What the invariant reads of the state.
pub record Told : Type 0 where
  pub log : List VideoEvent
  pub start_frame : ℕ

abbrev pub told : Depacketizer → Told
told d = record { log = d.log; start_frame = d.start_frame }

pub record IsFitting (t : Told) : Type 0 where
  pub fits : AllFit 0 t.log
  pub start : behind_last 0 t.log ≡ t.start_frame

abbrev pub IsRight : Depacketizer → Type 0
IsRight d = IsFitting (told d)

-- An event that is told.
pub more :
    (e : VideoEvent) (d : Depacketizer)
    → IsRight d
    → Fits d.start_frame e
    → IsFitting (record { log = d.log ++ e ∷ []; start_frame = behind d.start_frame e })
more e d s one = record {
  fits = AllFit-snoc 0 d.log e s.fits (subst (λ n. Fits n e) (sym s.start) one);
  start = behind_last-snoc 0 d.log e ∙ ap (λ n. behind n e) s.start;
}

pub drop_frame_state-IsRight : (d : Depacketizer) → IsRight d → IsRight (drop_frame_state d)
unfolding drop_frame_state cleanup_frame_state tell
drop_frame_state-IsRight d s =
    let chosen : IsRight (choose_wait d) =
      if_cases IsRight (d.strict_idr_wait || not d.idr_processed || d.wait_idr) (λ _. s) (λ _. s) in
    if_cases (λ c. IsRight (cleanup_frame_state c)) (u32 ((choose_wait d).drops + 1) == 120)
      (λ _. more request_idr (choose_wait d) chosen tt) (λ _. chosen)

pub give_up_frame-IsRight :
    (frame : ℕ) (d : Depacketizer) → IsRight d → IsRight (give_up_frame frame d)
unfolding give_up_frame report_loss tell
give_up_frame-IsRight frame d s =
    let d' = drop_frame_state (record d { decoding = false; next_frame = u32 (frame + 1) }) in
    let s' : IsRight d' =
      drop_frame_state-IsRight (record d { decoding = false; next_frame = u32 (frame + 1) }) s in
    if_cases IsRight d'.wait_idr (λ _. more request_idr d' s' tt)
      (λ _. more (frame_loss d'.start_frame frame) d' s' refl)

pub notify_frame_lost-IsRight :
    (frame : ℕ) (d : Depacketizer) → IsRight d → IsRight (notify_frame_lost frame d)
unfolding notify_frame_lost tell
notify_frame_lost-IsRight frame d s =
    let d' = drop_frame_state d in
    let s' = drop_frame_state-IsRight d s in
    if_cases IsRight d'.wait_idr (λ _. s') (λ _. more (frame_loss d'.start_frame frame) d' s' refl)

pub request_decoder_refresh-IsRight :
    (d : Depacketizer) → IsRight d → IsRight (request_decoder_refresh d)
unfolding request_decoder_refresh tell
request_decoder_refresh-IsRight d s = more request_idr d s tt

pub complete_video_frame-IsRight :
    (u : DecodeUnit) (status : DecoderStatus) (d : Depacketizer)
    → IsRight d
    → IsRight (complete_video_frame u status d)
unfolding complete_video_frame
complete_video_frame-IsRight u dr_need_idr d s = request_decoder_refresh-IsRight d s
complete_video_frame-IsRight u dr_ok d s = if_cases IsRight (is_idr u.frame_type) (λ _. s) (λ _. s)
complete_video_frame-IsRight u dr_other d s = s

pub complete_video_frame_next :
    (u : DecodeUnit) (status : DecoderStatus) (d : Depacketizer)
    → (complete_video_frame u status d).next_frame ≡ d.next_frame
unfolding complete_video_frame request_decoder_refresh tell
complete_video_frame_next u dr_need_idr d = refl
complete_video_frame_next u dr_ok d =
    let P : Depacketizer → Type 0 = λ r. r.next_frame ≡ d.next_frame in
    if_cases P (is_idr u.frame_type) (λ _. refl) (λ _. refl)
complete_video_frame_next u dr_other d = refl

-- ===== src/VideoDepacketizer/Told.antt =====
-- VideoDepacketizer.c: the calls of the depacketizer, and the ranges of lost frames that they tell the
-- host of.
use moonlight_common_c.Prelude.{
  is_empty, ◌≡◌, refl, subst, Bool, false, not, ◌&&◌, Option, none, some, some-injective, List, [],
  ◌∷◌, if_cases,
}
use moonlight_common_c.VideoDepacketizer.State.{
  DecodeUnit, Depacketizer, cleanup_frame_state, stop_video_depacketizer,
  destroy_video_depacketizer, initialize_video_depacketizer, poll_from, poll_next_video_frame,
  wake_wait_for_video_frame, wait_for_next_video_frame,
}
use moonlight_common_c.VideoDepacketizer.Ranges.{
  behind_last, AllFit, IsRight, notify_frame_lost-IsRight, request_decoder_refresh-IsRight,
  complete_video_frame-IsRight,
}
use moonlight_common_c.VideoDepacketizer.Reach.{
  StreamReached, started, received, lost, refreshed, polled, woken, waited, finished, stopped,
  destroyed,
}
use moonlight_common_c.VideoDepacketizer.Receive.{process_rtp_payload-IsRight}

initialize-IsRight :
    (can_invalidate : Bool) (d : Depacketizer)
    → IsRight (initialize_video_depacketizer can_invalidate d)
unfolding initialize_video_depacketizer
initialize-IsRight can_invalidate d = record { fits = tt; start = refl }

poll_from-IsRight :
    (d : Depacketizer) (us : List DecodeUnit) → IsRight d → IsRight (poll_from d us).0
poll_from-IsRight d [] s = s
poll_from-IsRight d (u ∷ us) s =
    let P : Depacketizer × Option DecodeUnit → Type 0 = λ r. IsRight r.0 in
    if_cases P d.is_shut_down (λ _. s) (λ _. s)

wait-IsRight :
    (d : Depacketizer) (r : Depacketizer × Option DecodeUnit)
    → IsRight d
    → wait_for_next_video_frame d ≡ some r
    → IsRight r.0
unfolding wait_for_next_video_frame
wait-IsRight d r s =
    let P : Option (Depacketizer × Option DecodeUnit) → Type 0 = λ o. o ≡ some r → IsRight r.0 in
    let ends : (a : Depacketizer × Option DecodeUnit) → IsRight a.0 → P (some a) =
      λ a ok e. subst (λ r. IsRight r.0) (some-injective a r e) ok in
    if_cases P (is_empty d.units && not d.is_shut_down && not d.user_wake) (λ _ e. absurd (cc e))
      (λ _.
        if_cases P d.is_shut_down (λ _. ends (d, none) s)
          (λ _.
            if_cases P d.user_wake (λ _. ends (record d { user_wake = false }, none) s)
              (λ _. ends (poll_from d d.units) (poll_from-IsRight d d.units s))))

reached-IsRight : (d : Depacketizer) → StreamReached d → IsRight d
unfolding poll_next_video_frame wake_wait_for_video_frame stop_video_depacketizer
    destroy_video_depacketizer cleanup_frame_state
reached-IsRight _ (started can_invalidate d empty zero_length few) =
    initialize-IsRight can_invalidate d
reached-IsRight _ (received env p d r) = process_rtp_payload-IsRight env p d (reached-IsRight d r)
reached-IsRight _ (lost frame d r) = notify_frame_lost-IsRight frame d (reached-IsRight d r)
reached-IsRight _ (refreshed d r) = request_decoder_refresh-IsRight d (reached-IsRight d r)
reached-IsRight _ (polled d r) = poll_from-IsRight d d.units (reached-IsRight d r)
reached-IsRight _ (woken d r) = reached-IsRight d r
reached-IsRight _ (waited d o r e) = wait-IsRight d o (reached-IsRight d r) e
reached-IsRight _ (finished u status d r) =
    complete_video_frame-IsRight u status d (reached-IsRight d r)
reached-IsRight _ (stopped d r) = reached-IsRight d r
reached-IsRight _ (destroyed d r) = reached-IsRight d r

-- Every range of lost frames that the host is told of in a stream, by whatever call, begins right
-- behind the last frame whose completion the control stream was told of before, or at 0 if there is
-- none; and this is the number that startFrameNumber holds. This holds for every order of the calls
-- that receive packets, report losses, take frames from the queue and answer for them.
pub StreamReached-AllFit :
    (d : Depacketizer) → StreamReached d → AllFit 0 d.log × (behind_last 0 d.log ≡ d.start_frame)
StreamReached-AllFit d r = let s = reached-IsRight d r in (s.fits, s.start)

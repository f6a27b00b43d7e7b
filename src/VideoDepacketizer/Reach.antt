-- ===== src/VideoDepacketizer/Reach.antt =====
-- The states of the depacketizer of VideoDepacketizer.c that the video receive thread and the decoder's
-- thread can bring about together, one call at a time. A wait is a step when it ends.
use moonlight_common_c.Prelude.{
  is_empty, false, ◌&&◌, not, none, some, some-injective, ℕ, ◌<◌, ◌≡◌, sym, subst, Bool, Option,
  List, [], ◌∷◌, arith, if_cases,
}
use moonlight_common_c.VideoDepacketizer.{VideoPacket, process_rtp_payload}
use moonlight_common_c.VideoDepacketizer.Header.{VideoEnv}
use moonlight_common_c.VideoDepacketizer.State.{
  DecodeUnit, DecoderStatus, Depacketizer, initialize_video_depacketizer, notify_frame_lost,
  request_decoder_refresh, complete_video_frame, stop_video_depacketizer,
  destroy_video_depacketizer, poll_from, poll_next_video_frame, wake_wait_for_video_frame,
  wait_for_next_video_frame, cleanup_frame_state,
}
use moonlight_common_c.VideoDepacketizer.Inv.{
  core, IsOk, bytes_in, units-IsSound, emptied-IsSound, notify_frame_lost-IsOk,
  request_decoder_refresh-IsOk, complete_video_frame-IsOk,
}
use moonlight_common_c.VideoDepacketizer.Kept.{process_rtp_payload-IsOk}

-- A stream starts on the variables of an earlier one, which are zero at first: an empty chain, and a
-- count of dropped frames below the limit.
pub data StreamReached : Depacketizer → Type 0 where
  started :
      (can_invalidate : Bool) (d : Depacketizer)
      → d.chain ≡ []
      → d.chain_length ≡ 0
      → d.drops < 120
      → StreamReached (initialize_video_depacketizer can_invalidate d)
  received :
      (env : VideoEnv) (p : VideoPacket) (d : Depacketizer)
      → StreamReached d
      → StreamReached (process_rtp_payload env p d)
  lost :
      (frame : ℕ) (d : Depacketizer) → StreamReached d → StreamReached (notify_frame_lost frame d)
  refreshed : (d : Depacketizer) → StreamReached d → StreamReached (request_decoder_refresh d)
  polled : (d : Depacketizer) → StreamReached d → StreamReached (poll_next_video_frame d).0
  woken : (d : Depacketizer) → StreamReached d → StreamReached (wake_wait_for_video_frame d)
  waited :
      (d : Depacketizer) (r : Depacketizer × Option DecodeUnit)
      → StreamReached d
      → wait_for_next_video_frame d ≡ some r
      → StreamReached r.0
  finished :
      (u : DecodeUnit) (status : DecoderStatus) (d : Depacketizer)
      → StreamReached d
      → StreamReached (complete_video_frame u status d)
  stopped : (d : Depacketizer) → StreamReached d → StreamReached (stop_video_depacketizer d)
  destroyed : (d : Depacketizer) → StreamReached d → StreamReached (destroy_video_depacketizer d)

initialize-IsOk :
    (can_invalidate : Bool) (d : Depacketizer)
    → d.chain ≡ []
    → d.chain_length ≡ 0
    → d.drops < 120
    → IsOk (initialize_video_depacketizer can_invalidate d)
unfolding initialize_video_depacketizer
initialize-IsOk can_invalidate d empty zero_length few = record {
  measured = subst (λ fs. d.chain_length ≡ bytes_in fs) (sym empty) zero_length;
  rfi = λ waits. absurd (cc waits);
  drops = few;
  room = omega arith;
}

poll_from-IsOk :
    (d : Depacketizer) (us : List DecodeUnit)
    → IsOk (record d { units = us })
    → IsOk (poll_from (record d { units = us }) us).0
poll_from-IsOk d [] s = s
poll_from-IsOk d (u ∷ us) s =
    let P : Depacketizer × Option DecodeUnit → Type 0 = λ r. IsOk r.0 in
    let room = s.room in
    if_cases P d.is_shut_down (λ _. s)
      (λ _. units-IsSound (core (record d { units = u ∷ us })) s us (omega arith))

poll-IsOk : (d : Depacketizer) → IsOk d → IsOk (poll_next_video_frame d).0
unfolding poll_next_video_frame
poll-IsOk d s = poll_from-IsOk d d.units s

wake-IsOk : (d : Depacketizer) → IsOk d → IsOk (wake_wait_for_video_frame d)
unfolding wake_wait_for_video_frame
wake-IsOk d s = s

-- A wait that ends leaves what a poll leaves, or what it found.
wait-IsOk :
    (d : Depacketizer) (r : Depacketizer × Option DecodeUnit)
    → IsOk d
    → wait_for_next_video_frame d ≡ some r
    → IsOk r.0
unfolding wait_for_next_video_frame
wait-IsOk d r s =
    let P : Option (Depacketizer × Option DecodeUnit) → Type 0 = λ o. o ≡ some r → IsOk r.0 in
    let ends : (a : Depacketizer × Option DecodeUnit) → IsOk a.0 → P (some a) =
      λ a ok e. subst (λ r. IsOk r.0) (some-injective a r e) ok in
    if_cases P (is_empty d.units && not d.is_shut_down && not d.user_wake) (λ _ e. absurd (cc e))
      (λ _.
        if_cases P d.is_shut_down (λ _. ends (d, none) s)
          (λ _.
            if_cases P d.user_wake (λ _. ends (record d { user_wake = false }, none) s)
              (λ _. ends (poll_from d d.units) (poll_from-IsOk d d.units s))))

stop-IsOk : (d : Depacketizer) → IsOk d → IsOk (stop_video_depacketizer d)
unfolding stop_video_depacketizer
stop-IsOk d s = s

destroy-IsOk : (d : Depacketizer) → IsOk d → IsOk (destroy_video_depacketizer d)
unfolding destroy_video_depacketizer cleanup_frame_state
destroy-IsOk d s =
    let s' = units-IsSound (core d) s [] (omega arith) in
    emptied-IsSound (core (record d { units = [] })) s'

-- Whatever packets come and whatever the decoder answers, in any order of the calls: the recorded length
-- of the chain is the number of bytes in it, at most 15 frames wait for the decoder, fewer than 120
-- frames in a row count as dropped, and the depacketizer waits for a frame after an invalidation only
-- if the host can invalidate references and an IDR frame was decoded.
pub StreamReached-IsOk : (d : Depacketizer) → StreamReached d → IsOk d
StreamReached-IsOk _ (started can_invalidate d empty zero_length few) =
    initialize-IsOk can_invalidate d empty zero_length few
StreamReached-IsOk _ (received env p d r) =
    process_rtp_payload-IsOk env p d (StreamReached-IsOk d r)
StreamReached-IsOk _ (lost frame d r) = notify_frame_lost-IsOk frame d (StreamReached-IsOk d r)
StreamReached-IsOk _ (refreshed d r) = request_decoder_refresh-IsOk d (StreamReached-IsOk d r)
StreamReached-IsOk _ (polled d r) = poll-IsOk d (StreamReached-IsOk d r)
StreamReached-IsOk _ (woken d r) = wake-IsOk d (StreamReached-IsOk d r)
StreamReached-IsOk _ (waited d o r e) = wait-IsOk d o (StreamReached-IsOk d r) e
StreamReached-IsOk _ (finished u status d r) =
    complete_video_frame-IsOk u status d (StreamReached-IsOk d r)
StreamReached-IsOk _ (stopped d r) = stop-IsOk d (StreamReached-IsOk d r)
StreamReached-IsOk _ (destroyed d r) = destroy-IsOk d (StreamReached-IsOk d r)

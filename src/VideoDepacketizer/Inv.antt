-- ===== src/VideoDepacketizer/Inv.antt =====
-- The invariant of the depacketizer of VideoDepacketizer.c: the chain's length, the bounds of the queue
-- and of the drop counter, and when reference frame invalidation may be waited for.
use moonlight_common_c.Prelude.{
  is_empty, ℕ, zero, suc, ◌+◌, ◌≤◌, ◌<◌, ◌≡◌, refl, Bool, true, false, not, ◌&&◌, ◌||◌, List, [],
  ◌∷◌, ◌++◌, arith, ◌==◌, if_cases, length, take, ◌-◌,
}
use moonlight_common_c.VideoDepacketizer.Nal.{VideoFormat, is_seq_reference_frame_start}
use moonlight_common_c.Seq.{u32}
use moonlight_common_c.VideoDepacketizer.State.{
  Fragment, DecodeUnit, DecoderStatus, dr_ok, dr_need_idr, dr_other, is_idr, Depacketizer, tell,
  choose_wait, count_drop, drop_frame_state, cleanup_frame_state, report_loss, give_up_frame,
  notify_frame_lost, request_decoder_refresh, complete_video_frame,
}
use moonlight_common_c.VideoDepacketizer.Fragment.{
  get_buffer_flags, queue_fragment, see_idr, round_start, round_end, process_slow,
}

abbrev pub bytes_in : List Fragment → ℕ
bytes_in [] = 0
bytes_in (f ∷ fs) = length f.bytes + bytes_in fs

pub bytes_in-append : (fs gs : List Fragment) → bytes_in (fs ++ gs) ≡ bytes_in fs + bytes_in gs
bytes_in-append [] gs = omega arith
bytes_in-append (f ∷ fs) gs = omega (arith, bytes_in-append fs gs)

-- What the invariant reads of the state.
pub record Core : Type 0 where
  pub chain : List Fragment
  pub chain_length : ℕ
  pub wait_rfi : Bool
  pub strict_idr_wait : Bool
  pub idr_processed : Bool
  pub drops : ℕ
  pub units : List DecodeUnit

abbrev pub core : Depacketizer → Core
core d = record {
  chain = d.chain;
  chain_length = d.chain_length;
  wait_rfi = d.wait_rfi;
  strict_idr_wait = d.strict_idr_wait;
  idr_processed = d.idr_processed;
  drops = d.drops;
  units = d.units;
}

-- The length of the chain is kept right, no frame without the lost references is waited for before an
-- IDR frame was decoded or if the host cannot be asked for one, and the counter of dropped frames and
-- the queue stay below their limits.
pub record IsSound (c : Core) : Type 0 where
  pub measured : c.chain_length ≡ bytes_in c.chain
  pub rfi : c.wait_rfi ≡ true → (not c.strict_idr_wait && c.idr_processed) ≡ true
  pub drops : c.drops < 120
  pub room : length c.units ≤ 15

abbrev pub IsOk : Depacketizer → Type 0
IsOk d = IsSound (core d)

rfi_after :
    (strict processed : Bool) → (not strict && processed) ≡ true → (not strict && true) ≡ true
rfi_after strict processed h = ground arith

below_limit : (n : ℕ) → n < 120 → (u32 (n + 1) == 120) ≡ false → u32 (n + 1) < 120
below_limit n few more = ground arith

module _ (c : Core) (s : IsSound c) where
  pub no_wait-IsSound : IsSound (record c { wait_rfi = false })
  no_wait-IsSound = record {
    measured = s.measured;
    rfi = λ waits. absurd (cc waits);
    drops = s.drops;
    room = s.room;
  }

  pub emptied-IsSound : IsSound (record c { chain = []; chain_length = 0 })
  emptied-IsSound = record { measured = refl; rfi = s.rfi; drops = s.drops; room = s.room }

  pub units-IsSound : (us : List DecodeUnit) → length us ≤ 15 → IsSound (record c { units = us })
  units-IsSound us h = record { measured = s.measured; rfi = s.rfi; drops = s.drops; room = h }

  pub drops-IsSound : (n : ℕ) → n < 120 → IsSound (record c { drops = n })
  drops-IsSound n h = record { measured = s.measured; rfi = s.rfi; drops = h; room = s.room }

  decoded-IsSound : IsSound (record c { idr_processed = true })
  decoded-IsSound = record {
    measured = s.measured;
    rfi = λ waits. rfi_after c.strict_idr_wait c.idr_processed (s.rfi waits);
    drops = s.drops;
    room = s.room;
  }

  wait-IsSound :
      (not c.strict_idr_wait && c.idr_processed) ≡ true → IsSound (record c { wait_rfi = true })
  wait-IsSound can = record {
    measured = s.measured;
    rfi = λ _. can;
    drops = s.drops;
    room = s.room;
  }

can_invalidate :
    (strict processed waits : Bool)
    → (strict || not processed || waits) ≡ false
    → (not strict && processed) ≡ true
can_invalidate strict processed waits h = ground arith

pub drop_frame_state-IsOk : (d : Depacketizer) → IsOk d → IsOk (drop_frame_state d)
unfolding drop_frame_state cleanup_frame_state tell
drop_frame_state-IsOk d s =
    let chosen : IsOk (choose_wait d) =
      if_cases IsOk (d.strict_idr_wait || not d.idr_processed || d.wait_idr) (λ _. s)
        (λ can.
          wait-IsSound (core d) s
            (can_invalidate d.strict_idr_wait d.idr_processed d.wait_idr can)) in
    let few = chosen.drops in
    let counted : IsOk (count_drop (choose_wait d)) =
      if_cases IsOk (u32 ((choose_wait d).drops + 1) == 120)
        (λ _. drops-IsSound (core (choose_wait d)) chosen 0 (omega arith))
        (λ more. drops-IsSound (core (choose_wait d)) chosen _ (below_limit _ few more)) in
    emptied-IsSound (core (count_drop (choose_wait d))) counted

pub give_up_frame-IsOk : (frame : ℕ) (d : Depacketizer) → IsOk d → IsOk (give_up_frame frame d)
unfolding give_up_frame report_loss tell
give_up_frame-IsOk frame d s =
    let d' : Depacketizer = record d { decoding = false; next_frame = u32 (frame + 1) } in
    let s' : IsOk (drop_frame_state d') = drop_frame_state-IsOk d' s in
    if_cases IsOk (drop_frame_state d').wait_idr (λ _. s') (λ _. s')

pub notify_frame_lost-IsOk :
    (frame : ℕ) (d : Depacketizer) → IsOk d → IsOk (notify_frame_lost frame d)
unfolding notify_frame_lost tell
notify_frame_lost-IsOk frame d s =
    let s' = drop_frame_state-IsOk d s in
    if_cases IsOk (drop_frame_state d).wait_idr (λ _. s') (λ _. s')

pub request_decoder_refresh-IsOk : (d : Depacketizer) → IsOk d → IsOk (request_decoder_refresh d)
unfolding request_decoder_refresh tell
request_decoder_refresh-IsOk d s = units-IsSound (core d) s [] (omega arith)

pub complete_video_frame-IsOk :
    (u : DecodeUnit) (status : DecoderStatus) (d : Depacketizer)
    → IsOk d
    → IsOk (complete_video_frame u status d)
unfolding complete_video_frame
complete_video_frame-IsOk u dr_need_idr d s = request_decoder_refresh-IsOk d s
complete_video_frame-IsOk u dr_ok d s =
    if_cases IsOk (is_idr u.frame_type) (λ _. decoded-IsSound (core d) s) (λ _. s)
complete_video_frame-IsOk u dr_other d s = s

module _ (fmt : VideoFormat) where
  pub queue_fragment-IsOk :
      (has_memory takes : Bool) (bs : List ℕ) (d : Depacketizer)
      → IsOk d
      → IsOk (queue_fragment fmt has_memory takes bs d)
  unfolding queue_fragment
  queue_fragment-IsOk has_memory takes bs d s =
      let grown =
        bytes_in-append d.chain (
          record { bytes = bs; buffer_type = get_buffer_flags fmt bs; takes_packet = takes }
          ∷ []) in
      let before = s.measured in
      if_cases IsOk (takes || has_memory)
        (λ _. record { measured = omega arith; rfi = s.rfi; drops = s.drops; room = s.room })
        (λ _. s)

  see_idr-IsOk : (starts : Bool) (d : Depacketizer) → IsOk d → IsOk (see_idr starts d)
  unfolding see_idr
  see_idr-IsOk true d s = no_wait-IsSound (core d) s
  see_idr-IsOk false d s = s

  pub process_slow-IsOk :
      (has_memory : ℕ → Bool) (fuel : ℕ) (free : Bool) (bs : List ℕ) (d : Depacketizer)
      → IsOk d
      → IsOk (process_slow fmt has_memory fuel free bs d)
  unfolding process_slow
  process_slow-IsOk has_memory zero free bs d s = s
  process_slow-IsOk has_memory (suc fuel) free bs d s =
      let start = round_start fmt bs in
      let end = round_end fmt start in
      let pic = is_seq_reference_frame_start fmt start in
      let unit = take (length start - length end) start in
      let d' = queue_fragment fmt (has_memory (length bs)) (pic && free) unit (see_idr pic d) in
      if_cases IsOk (is_empty bs) (λ _. s)
        (λ _. process_slow-IsOk has_memory fuel (free && not pic) end d' (
          queue_fragment-IsOk (has_memory (length bs)) (pic && free) unit (see_idr pic d)
            (see_idr-IsOk pic d s)))

-- ===== src/VideoDepacketizer/Lost.antt =====
-- VideoDepacketizer.c: a run of losses ends in a request for an IDR frame.
use moonlight_common_c.Prelude.{
  ℕ, zero, suc, ◌+◌, ◌<◌, ◌≡◌, refl, ap, ◌∙◌, true, not, ◌||◌, [], ◌∷◌, ◌++◌, arith, ◌==◌, if_cases,
}
use moonlight_common_c.Seq.{u32}
use moonlight_common_c.VideoDepacketizer.State.{
  Depacketizer, request_idr, tell, choose_wait, cleanup_frame_state, drop_frame_state,
}

-- A run of dropped frames.
unfoldable pub drop_times : ℕ → Depacketizer → Depacketizer
drop_times zero d = d
drop_times (suc n) d = drop_frame_state (drop_times n d)

choose_same : (d : Depacketizer) → ((choose_wait d).drops ≡ d.drops) × ((choose_wait d).log ≡ d.log)
choose_same d =
    let P : Depacketizer → Type 0 = λ r. (r.drops ≡ d.drops) × (r.log ≡ d.log) in
    if_cases P (d.strict_idr_wait || not d.idr_processed || d.wait_idr) (λ _. (refl, refl))
      (λ _. (refl, refl))

drop_counts :
    (d : Depacketizer)
    → d.drops < 119
    → ((drop_frame_state d).drops ≡ d.drops + 1) × ((drop_frame_state d).log ≡ d.log)
unfolding drop_frame_state cleanup_frame_state
drop_counts d few =
    let (same, log) = choose_same d in
    let P : Depacketizer → Type 0 = λ r. (r.drops ≡ d.drops + 1) × (r.log ≡ d.log) in
    if_cases P (u32 ((choose_wait d).drops + 1) == 120) (λ at. absurd (ground arith))
      (λ _. (omega arith, log))

drop_requests :
    (d : Depacketizer)
    → d.drops ≡ 119
    → ((drop_frame_state d).drops ≡ 0)
      × ((drop_frame_state d).wait_idr ≡ true)
      × ((drop_frame_state d).log ≡ d.log ++ request_idr ∷ [])
unfolding drop_frame_state cleanup_frame_state tell
drop_requests d last =
    let (same, log) = choose_same d in
    let P : Depacketizer → Type 0 =
      λ r. (r.drops ≡ 0) × (r.wait_idr ≡ true) × (r.log ≡ d.log ++ request_idr ∷ []) in
    if_cases P (u32 ((choose_wait d).drops + 1) == 120)
      (λ _. (refl, refl, ap (λ es. es ++ request_idr ∷ []) log)) (λ other. absurd (ground arith))

drop_times_lem :
    (n : ℕ) (d : Depacketizer)
    → d.drops + n < 120
    → ((drop_times n d).drops ≡ d.drops + n) × ((drop_times n d).log ≡ d.log)
unfolding drop_times
drop_times_lem zero d h = (omega arith, refl)
drop_times_lem (suc n) d h =
    let (count, same) = drop_times_lem n d (omega arith) in
    let (count', same') = drop_counts (drop_times n d) (omega arith) in (omega arith, same' ∙ same)

-- A run of dropped frames ends in a request for an IDR frame: the drop that makes the number of drops in
-- a row 120 asks the host for one, waits for it and starts the count again, and no drop before it asks.
pub drop_times_requests :
    (n : ℕ) (d : Depacketizer)
    → d.drops + n ≡ 119
    → ((drop_times n d).log ≡ d.log)
      × ((drop_times (suc n) d).log ≡ d.log ++ request_idr ∷ [])
      × ((drop_times (suc n) d).wait_idr ≡ true)
      × ((drop_times (suc n) d).drops ≡ 0)
unfolding drop_times
drop_times_requests n d h =
    let (count, same) = drop_times_lem n d (omega arith) in
    let (zeroed, waits, told) = drop_requests (drop_times n d) (count ∙ h) in
    (same, told ∙ ap (λ es. es ++ request_idr ∷ []) same, waits, zeroed)

-- ===== src/VideoDepacketizer/Slow.antt =====
-- VideoDepacketizer.c: the loops over NAL units end. Each round of processAvcHevcRtpPayloadSlow moves on
-- by at least the start sequence of a unit, or reaches the end of the packet.
use moonlight_common_c.Prelude.{
  is_empty, ℕ, zero, suc, ◌-◌, ◌≤◌, ◌<◌, ◌≡◌, ◌⊎◌, refl, ap, Bool, true, false, not, ◌&&◌, ◌||◌,
  List, [], ◌∷◌, arith, ◌==◌, if◌then◌else◌, inl, inr, if_cases, length, take, drop, length-drop,
}
use moonlight_common_c.VideoDepacketizer.Nal.{
  VideoFormat, start_length, at_start, skip_bytes, skip_to_next_nal, skip_aud_sei, skip_to_end,
  is_access_unit_delimiter, is_sei_nal, is_seq_reference_frame_start,
}
use moonlight_common_c.VideoDepacketizer.State.{Depacketizer}
use moonlight_common_c.VideoDepacketizer.Fragment.{
  queue_fragment, see_idr, round_start, round_end, process_slow,
}

-- The bytes that remain are none, or they start with a unit.
abbrev IsClean : List ℕ → Type 0
IsClean bs = (bs ≡ []) ⊎ (at_start bs ≡ true)

start_length_bounds :
    (bs : List ℕ) → at_start bs ≡ true → (3 ≤ start_length bs) × (start_length bs < length bs)
unfolding at_start start_length
start_length_bounds bs h = ground arith

-- A shorter rest that is clean.
abbrev Rest : List ℕ → List ℕ → Type 0
Rest bs xs = IsClean xs × (length xs ≤ length bs)

skip_bytes-Rest : (bs : List ℕ) → Rest bs (skip_bytes bs)
unfolding skip_bytes
skip_bytes-Rest [] = (inl refl, omega arith)
skip_bytes-Rest (x ∷ xs) =
    if_cases (Rest (x ∷ xs)) (at_start (x ∷ xs)) (λ start. (inr start, omega arith))
      (λ _. let (clean, less) = skip_bytes-Rest xs in (clean, omega arith))

skip_to_next_nal-Rest : (bs : List ℕ) → Rest bs (skip_to_next_nal bs)
unfolding skip_to_next_nal
skip_to_next_nal-Rest bs =
    let (clean, less) = skip_bytes-Rest (drop (start_length bs) bs) in
    (clean, omega (arith, length-drop (start_length bs) bs))

skip_to_next_nal_less :
    (bs : List ℕ) → at_start bs ≡ true → length (skip_to_next_nal bs) < length bs
unfolding skip_to_next_nal
skip_to_next_nal_less bs start =
    let (three, inside) = start_length_bounds bs start in
    let (clean, less) = skip_bytes-Rest (drop (start_length bs) bs) in
    omega (arith, length-drop (start_length bs) bs)

module _ (fmt : VideoFormat) where
  skip_aud_sei-Rest : (fuel : ℕ) (bs : List ℕ) → IsClean bs → Rest bs (skip_aud_sei fmt fuel bs)
  unfolding skip_aud_sei
  skip_aud_sei-Rest zero bs clean = (clean, omega arith)
  skip_aud_sei-Rest (suc fuel) bs clean =
      if_cases (Rest bs) (is_access_unit_delimiter fmt bs || is_sei_nal fmt bs)
        (λ _.
          let (clean', less) = skip_to_next_nal-Rest bs in
          let (clean'', less') = skip_aud_sei-Rest fuel (skip_to_next_nal bs) clean' in
          (clean'', omega arith))
        (λ _. (clean, omega arith))

  round_start-Rest : (bs : List ℕ) → Rest bs (round_start fmt bs)
  unfolding round_start
  round_start-Rest bs =
      let bs' = if at_start bs then bs else skip_to_next_nal bs in
      let (clean, less) : Rest bs bs' =
        if_cases (Rest bs) (at_start bs) (λ start. (inr start, omega arith))
          (λ _. skip_to_next_nal-Rest bs) in
      let (clean', less') = skip_aud_sei-Rest (length bs') bs' clean in (clean', omega arith)

skip_to_end_le : (fuel : ℕ) (bs : List ℕ) → length (skip_to_end fuel bs) ≤ length bs
unfolding skip_to_end
skip_to_end_le zero bs = omega arith
skip_to_end_le (suc fuel) bs =
    if_cases (λ (xs : List ℕ). length xs ≤ length bs) (length bs == 0) (λ _. omega arith)
      (λ _.
        let (_, less) = skip_to_next_nal-Rest bs in
        omega (arith, skip_to_end_le fuel (skip_to_next_nal bs)))

module _ (fmt : VideoFormat) where
  round_end_le : (bs : List ℕ) → length (round_end fmt bs) ≤ length (skip_to_next_nal bs)
  unfolding round_end
  round_end_le bs =
      let rest = skip_to_next_nal bs in
      if_cases (λ (xs : List ℕ). length xs ≤ length rest) (is_seq_reference_frame_start fmt bs)
        (λ _. skip_to_end_le (length rest) rest) (λ _. omega arith)

  -- One round makes progress.
  round_less :
      (bs : List ℕ) → is_empty bs ≡ false → length (round_end fmt (round_start fmt bs)) < length bs
  round_less [] h = absurd (cc h)
  round_less (x ∷ xs) h =
      let bs = x ∷ xs in
      let (clean, less) = round_start-Rest fmt bs in
      let end = round_end_le (round_start fmt bs) in
      let (_, next) = skip_to_next_nal-Rest (round_start fmt bs) in
      elim clean [
        | inl none_left ↦
            let zero_left : length (round_start fmt bs) ≡ 0 = ap length none_left in omega arith
        | inr start ↦ let less' = skip_to_next_nal_less (round_start fmt bs) start in omega arith
      ]

  -- The loop of processAvcHevcRtpPayloadSlow ends: with as many rounds of fuel as the payload has
  -- bytes it reaches its end, so that more fuel changes nothing.
  pub process_slow_enough :
      (has_memory : ℕ → Bool) (m n : ℕ) (free : Bool) (bs : List ℕ) (d : Depacketizer)
      → length bs ≤ m
      → length bs ≤ n
      → process_slow fmt has_memory m free bs d ≡ process_slow fmt has_memory n free bs d
  unfolding process_slow
  process_slow_enough has_memory zero zero free bs d hm hn = refl
  process_slow_enough has_memory zero (suc n) free [] d hm hn = refl
  process_slow_enough has_memory zero (suc n) free (x ∷ xs) d hm hn = absurd (omega arith)
  process_slow_enough has_memory (suc m) zero free [] d hm hn = refl
  process_slow_enough has_memory (suc m) zero free (x ∷ xs) d hm hn = absurd (omega arith)
  process_slow_enough has_memory (suc m) (suc n) free [] d hm hn = refl
  process_slow_enough has_memory (suc m) (suc n) free (x ∷ xs) d hm hn =
      let bs = x ∷ xs in
      let start = round_start fmt bs in
      let end = round_end fmt start in
      let pic = is_seq_reference_frame_start fmt start in
      let unit = take (length start - length end) start in
      let d' =
        queue_fragment fmt (has_memory (length (x ∷ xs))) (pic && free) unit (see_idr pic d) in
      let less = round_less bs refl in
      process_slow_enough has_memory m n (free && not pic) end d' (omega arith) (omega arith)

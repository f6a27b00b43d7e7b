-- ===== src/RtpAudioQueue/Drain.antt =====
-- The loop of AudioReceiveThreadProc in AudioStream.c that pulls packets after an announcement, on
-- fuel: four calls for every block and one more are enough, since each call uses up one place.
use moonlight_common_c.Prelude.{
  ◌⊎◌, Bool, refl, ℕ, zero, suc, ◌+◌, ◌-◌, ◌*◌, ◌%◌, ◌≤◌, ◌<◌, ◌≡◌, sym, ap, ◌∙◌, subst, true,
  false, not, ◌&&◌, List, [], ◌∷◌, arith, ◌==◌, if◌then◌else◌, inl, inr, if_cases, length,
}
use moonlight_common_c.Seq.{u16}
use moonlight_common_c.RtpAudioQueue.{
  Queued, no_packet, lost_packet, queued_packet, advance, get_ready, get_from,
  rtpa_get_queued_packet,
}
use moonlight_common_c.RtpAudioQueue.State.{FecBlock, AudioQueue, free_fec_block_head}
use moonlight_common_c.RtpAudioQueue.Complete.{packet_ready, queue_has_packet_ready}
use moonlight_common_c.RtpAudioQueue.Inv.{IsValid}
use moonlight_common_c.RtpAudioQueue.GetKept.{
  GivesNext, is_given, not_four, rtpa_get_queued_packet_lem, rtpa_get_queued_packet_ready,
}

-- How the loop ends: RtpaGetQueuedPacket returns NULL, queuePacketToLbq reports an exit signal, or the
-- fuel is used up.
pub data Ending : Type 0 where
  no_more exit_signal out_of_fuel : Ending

-- What the loop leaves, and what it passes on to the decoder.
pub record Drained : Type 0 where
  pub queue : AudioQueue
  pub passed : List Queued
  pub ending : Ending

-- What the rounds of the loop meet: whether malloc succeeds in RtpaGetQueuedPacket, whether the decoder
-- takes packets at once, and else whether queuePacketToLbq takes the packet.
pub record Rounds : Type 0 where
  pub has_memory : ℕ → Bool
  pub direct_submit : Bool
  pub is_taken : ℕ → Bool

-- The loop from round `i` on. The packet that meets an exit signal is freed.
unfoldable pub drain : Rounds → ℕ → ℕ → AudioQueue → Drained
drain w zero i q = record { queue = q; passed = []; ending = out_of_fuel }
drain w (suc fuel) i q =
    let r = rtpa_get_queued_packet (w.has_memory i) q in
    let rest = drain w fuel (i + 1) r.0 in
    if not (is_given r.1)
    then record { queue = r.0; passed = []; ending = no_more }
    else if not w.direct_submit && not (w.is_taken i)
    then record { queue = r.0; passed = []; ending = exit_signal }
    else record rest { passed = r.1 ∷ rest.passed }

-- The places that are left to hand out.
abbrev pub places_left : List FecBlock → ℕ
places_left [] = 0
places_left (b ∷ bs) = 4 - b.next_index + places_left bs

places_left_le : (oldest from : ℕ) (bs : List FecBlock) → places_left bs ≤ 4 * length bs
places_left_le oldest from [] = omega arith
places_left_le oldest from (b ∷ bs) = omega (arith, places_left_le oldest from bs)

advance_places :
    (q : AudioQueue) (b : FecBlock) (bs : List FecBlock)
    → b.next_index < 4
    → places_left (advance q b bs).blocks + 1 ≡ places_left (b ∷ bs)
unfolding advance free_fec_block_head
advance_places q b bs h =
    let P : AudioQueue → Type 0 = λ r. places_left r.blocks + 1 ≡ places_left (b ∷ bs) in
    if_cases P ((b.next_index + 1) % 256 == 4) (λ e. ground arith) (λ e. ground arith)

-- What one call uses up.
abbrev Uses : List FecBlock → AudioQueue × Queued → Type 0
Uses bs r = is_given r.1 ≡ true → places_left r.0.blocks + 1 ≡ places_left bs

module _ (has_memory : Bool) where
  get_ready-Uses :
      (q : AudioQueue) (b : FecBlock) (bs : List FecBlock)
      → b.next_index < 4
      → Uses (b ∷ bs) (get_ready has_memory (record q { blocks = b ∷ bs }))
  unfolding get_ready queue_has_packet_ready
  get_ready-Uses q b bs h =
      if_cases (Uses (b ∷ bs)) (packet_ready q.next_number b && has_memory)
        (λ _ _. advance_places (record q { blocks = b ∷ bs }) b bs h) (λ _ no. absurd (cc no))

  get_from-Uses :
      (q : AudioQueue) (bs : List FecBlock)
      → IsValid (record q { blocks = bs })
      → Uses bs (get_from has_memory (record q { blocks = bs }) bs)
  unfolding get_ready queue_has_packet_ready
  get_from-Uses q [] valid = λ no. absurd (cc no)
  get_from-Uses q (b ∷ bs) valid =
      let h = valid.list.0.is_block.index in
      if_cases (Uses (b ∷ bs)) (not b.allow_discontinuity) (λ _. get_ready-Uses q b bs h)
        (λ _.
          if_cases (Uses (b ∷ bs)) (b.marks b.next_index)
            (λ _.
              if_cases (Uses (b ∷ bs)) has_memory
                (λ _ _. advance_places (record q { blocks = b ∷ bs }) b bs h)
                (λ _ no. absurd (cc no)))
            (λ _. rw (not_four b.next_index h) (get_ready-Uses q b bs h)))

  one_call-Uses : (q : AudioQueue) → IsValid q → Uses q.blocks (rtpa_get_queued_packet has_memory q)
  unfolding rtpa_get_queued_packet
  one_call-Uses q valid = get_from-Uses q q.blocks valid

-- What the loop delivers is numbered from `next` on, one by one; a placeholder stands for its number.
abbrev pub Consecutive : ℕ → List Queued → Type 0
Consecutive next [] = Unit {0}
Consecutive next (no_packet ∷ xs) = ⊥
Consecutive next (lost_packet ∷ xs) = Consecutive (u16 (next + 1)) xs
Consecutive next (queued_packet p len ∷ xs) =
    (p.sequence_number ≡ next) × Consecutive (u16 (next + 1)) xs

step_number :
    (q : AudioQueue) (r : AudioQueue × Queued)
    → GivesNext q r
    → is_given r.1 ≡ true
    → r.0.next_number ≡ u16 (q.next_number + 1)
step_number q (q', no_packet) h given = absurd (cc given)
step_number q (q', lost_packet) h given = h
step_number q (q', queued_packet p len) (_, h) given = h

step-Consecutive :
    (q : AudioQueue) (r : AudioQueue × Queued) (xs : List Queued)
    → GivesNext q r
    → is_given r.1 ≡ true
    → Consecutive (u16 (q.next_number + 1)) xs
    → Consecutive q.next_number (r.1 ∷ xs)
step-Consecutive q (q', no_packet) xs h given c = absurd (cc given)
step-Consecutive q (q', lost_packet) xs h given c = c
step-Consecutive q (q', queued_packet p len) xs (same, _) given c = (same, c)

stopped :
    (q : AudioQueue) (r : AudioQueue × Queued) → GivesNext q r → is_given r.1 ≡ false → r.0 ≡ q
stopped q (q', no_packet) h _ = h
stopped q (q', lost_packet) h none_given = absurd (cc none_given)
stopped q (q', queued_packet p len) h none_given = absurd (cc none_given)

-- How a run ends that began at round `i`, with the number `n` due, and passed `k` packets on.
abbrev pub EndsBy : Rounds → ℕ → ℕ → Ending → ℕ → AudioQueue → Type 0
EndsBy w i n no_more k q =
    (q.next_number ≡ u16 (n + k))
    × ((queue_has_packet_ready q ≡ false) ⊎ (w.has_memory (i + k) ≡ false))
EndsBy w i n exit_signal k q =
    (q.next_number ≡ u16 (n + k + 1)) × (w.direct_submit ≡ false) × (w.is_taken (i + k) ≡ false)
EndsBy w i n out_of_fuel k q = ⊥

abbrev pub Ends : Rounds → ℕ → ℕ → Drained → Type 0
Ends w i n r = EndsBy w i n r.ending (length r.passed) r.queue

-- A round that passes a packet on, in front of a run.
EndsBy-step :
    (w : Rounds) (i n n' : ℕ) (e : Ending) (k : ℕ) (q : AudioQueue)
    → n' ≡ u16 (n + 1)
    → EndsBy w (i + 1) n' e k q
    → EndsBy w i n e (suc k) q
EndsBy-step w i n n' no_more k q next (number, ready) =
    let same : i + 1 + k ≡ i + suc k = omega arith in
    (
      omega arith,
      elim ready [
        | inl none_ready ↦ inl none_ready
        | inr full ↦ inr (ap w.has_memory (sym same) ∙ full)
      ],
    )
EndsBy-step w i n n' exit_signal k q next (number, queued, refused) =
    let same : i + suc k ≡ i + 1 + k = omega arith in
    (omega arith, queued, ap w.is_taken same ∙ refused)
EndsBy-step w i n n' out_of_fuel k q next never = never

not_ready :
    (has_memory : Bool) (q : AudioQueue)
    → IsValid q
    → is_given (rtpa_get_queued_packet has_memory q).1 ≡ false
    → (queue_has_packet_ready q ≡ false) ⊎ (has_memory ≡ false)
not_ready true q valid none_given = inl (sym (rtpa_get_queued_packet_ready q valid) ∙ none_given)
not_ready false q valid none_given = inr refl

-- The draining loop ends: with more fuel than there are places left in the queue, of which there
-- are at most four to a block, it stops because RtpaGetQueuedPacket returns NULL or because
-- queuePacketToLbq reports an exit signal to a decoder that does not take packets at once. In the
-- first case no packet is ready or there was no memory in the last round, and the queue expects the
-- number behind the packets that were passed on; in the second case one more, which was freed. The
-- loop passes packets and placeholders on in the order of their numbers without a gap, from the
-- number due at the start on, and keeps the queue valid, which it was at the start.
pub drain_lem :
    (w : Rounds) (fuel i : ℕ) (q : AudioQueue)
    → IsValid q
    → places_left q.blocks < fuel
    → Ends w i q.next_number (drain w fuel i q)
      × Consecutive q.next_number (drain w fuel i q).passed
      × IsValid (drain w fuel i q).queue
unfolding drain
drain_lem w zero i q valid h = absurd (omega arith)
drain_lem w (suc fuel) i q valid h =
    let r = rtpa_get_queued_packet (w.has_memory i) q in
    let rest = drain w fuel (i + 1) r.0 in
    let (valid', gives) = rtpa_get_queued_packet_lem (w.has_memory i) q valid in
    let bound = valid.next_bound in
    let P : Drained → Type 0 =
      λ d. Ends w i q.next_number d × Consecutive q.next_number d.passed × IsValid d.queue in
    if_cases P (not (is_given r.1))
      (λ none_given.
        let nothing : is_given r.1 ≡ false = ground arith in
        let same = stopped q r gives nothing in
        let here : w.has_memory (i + 0) ≡ w.has_memory i = ap w.has_memory (omega arith) in
        let number = ap (λ (s : AudioQueue). s.next_number) same in
        (
          (
            omega arith,
            elim (not_ready (w.has_memory i) q valid nothing) [
              | inl none_ready ↦ inl (ap queue_has_packet_ready same ∙ none_ready)
              | inr full ↦ inr (here ∙ full)
            ],
          ),
          tt,
          valid',
        ))
      (λ some_given.
        let given : is_given r.1 ≡ true = ground arith in
        let next = step_number q r gives given in
        if_cases P (not w.direct_submit && not (w.is_taken i))
          (λ out.
            let here : w.is_taken (i + 0) ≡ w.is_taken i = ap w.is_taken (omega arith) in
            let refused : (w.direct_submit ≡ false) × (w.is_taken i ≡ false) = ground arith in
            ((omega arith, refused.0, here ∙ refused.1), tt, valid'))
          (λ _.
            let used = one_call-Uses (w.has_memory i) q valid given in
            let (ends, order, valid'') = drain_lem w fuel (i + 1) r.0 valid' (omega arith) in
            (
              EndsBy-step w i q.next_number r.0.next_number rest.ending (length rest.passed)
                  rest.queue next ends,
              step-Consecutive q r rest.passed gives given
                  (subst (λ n. Consecutive n rest.passed) next order),
              valid'',
            )))

-- ===== src/RtpAudioQueue/GetKept.antt =====
-- RtpaGetQueuedPacket of RtpAudioQueue.c: it keeps the audio queue valid and hands out the packet that
-- is due next.
use moonlight_common_c.Prelude.{
  ℕ, ◌+◌, ◌%◌, ◌^◌, ◌<◌, ◌≡◌, refl, ◌∙◌, Bool, true, false, not, ◌&&◌, List, [], ◌∷◌, arith, ◌==◌,
  Bool-cases, inl, inr, if_cases,
}
use moonlight_common_c.Seq.{u16}
use moonlight_common_c.Seq.Offset.{offset}
use moonlight_common_c.RtpAudioQueue.{
  Queued, no_packet, lost_packet, queued_packet, advance, get_ready, get_from,
  rtpa_get_queued_packet,
}
use moonlight_common_c.RtpAudioQueue.State.{FecBlock, AudioQueue, free_fec_block_head}
use moonlight_common_c.RtpAudioQueue.Complete.{packet_ready, head_ready, queue_has_packet_ready}
use moonlight_common_c.RtpAudioQueue.Inv.{IsFront, IsValid}
use moonlight_common_c.RtpAudioQueue.Moves.{advance-IsValid}

-- What a call on `q` leaves and returns: nothing, with the queue as it was, or what is due next.
abbrev pub GivesNext : AudioQueue → AudioQueue × Queued → Type 0
GivesNext q (q', no_packet) = q' ≡ q
GivesNext q (q', lost_packet) = q'.next_number ≡ u16 (q.next_number + 1)
GivesNext q (q', queued_packet p len) =
    (p.sequence_number ≡ q.next_number) × (q'.next_number ≡ u16 (q.next_number + 1))

abbrev Good : AudioQueue → AudioQueue × Queued → Type 0
Good q r = IsValid r.0 × GivesNext q r

advance_number :
    (q : AudioQueue) (b : FecBlock) (bs : List FecBlock)
    → (advance q b bs).next_number ≡ u16 (q.next_number + 1)
unfolding advance free_fec_block_head
advance_number q b bs =
    let P : AudioQueue → Type 0 = λ r. r.next_number ≡ u16 (q.next_number + 1) in
    if_cases P ((b.next_index + 1) % 256 == 4) (λ _. refl) (λ _. refl)

-- A head that has a packet ready is the block of the next number.
ready_due :
    (oldest next : ℕ) (b : FecBlock)
    → oldest < 2 ^ 16
    → next < 2 ^ 16
    → IsFront oldest next b
    → packet_ready next b ≡ true
    → b.fec.base ≡ oldest
unfolding packet_ready
ready_due oldest next b ho hn front ready = elim (Bool-cases (b.fec.base == oldest)) [
  | inl same ↦ ground arith
  | inr other ↦
      let (due, waiting) = front.ahead (λ e. ground arith) in
      let untouched = waiting.untouched in let in_order = waiting.in_order in absurd (ground arith)
]

skipping_due :
    (oldest next : ℕ) (b : FecBlock)
    → IsFront oldest next b
    → b.allow_discontinuity ≡ true
    → b.fec.base ≡ oldest
skipping_due oldest next b front skips = elim (Bool-cases (b.fec.base == oldest)) [
  | inl same ↦ ground arith
  | inr other ↦ absurd (cc (skips, (front.ahead (λ e. ground arith)).1.in_order))
]

due_number :
    (oldest next : ℕ) (b : FecBlock)
    → oldest < 2 ^ 16
    → next < 2 ^ 16
    → offset oldest next < 4
    → IsFront oldest next b
    → b.fec.base ≡ oldest
    → b.fec.base + b.next_index ≡ next
due_number oldest next b ho hn near front due =
    let place = front.current due in let aligned = front.is_block.aligned in omega arith

ready_there :
    (next : ℕ) (b : FecBlock)
    → packet_ready next b ≡ true
    → (b.allow_discontinuity ≡ true → b.marks b.next_index ≡ false)
    → b.marks b.next_index ≡ false
unfolding packet_ready
ready_there next b ready there = elim (Bool-cases b.allow_discontinuity) [
  | inl skips ↦ there skips
  | inr waits ↦ ground arith
]

pub not_four : (n : ℕ) → n < 4 → (n == 4) ≡ false
not_four n h = ground arith

module _ (has_memory : Bool) (q : AudioQueue) where
  get_ready-Good :
      (b : FecBlock) (bs : List FecBlock)
      → IsValid (record q { blocks = b ∷ bs })
      → (b.allow_discontinuity ≡ true → b.marks b.next_index ≡ false)
      → Good (record q { blocks = b ∷ bs }) (get_ready has_memory (record q { blocks = b ∷ bs }))
  unfolding get_ready queue_has_packet_ready
  get_ready-Good b bs valid there =
      let q'' : AudioQueue = record q { blocks = b ∷ bs } in
      if_cases (Good q'') (packet_ready q.next_number b && has_memory)
        (λ can.
          let ready : packet_ready q.next_number b ≡ true = ground arith in
          let (front, _) = valid.list in
          let due = ready_due _ _ b valid.oldest_bound valid.next_bound front ready in
          let number = due_number _ _ b valid.oldest_bound valid.next_bound valid.near front due in
          (
            advance-IsValid q'' b bs valid due,
            (
              front.is_block.numbered b.next_index front.is_block.index
                    (ready_there q.next_number b ready there)
                  ∙ number,
              advance_number q'' b bs,
            ),
          ))
        (λ _. (valid, refl))

  get_from-Good :
      (bs : List FecBlock)
      → IsValid (record q { blocks = bs })
      → Good (record q { blocks = bs }) (get_from has_memory (record q { blocks = bs }) bs)
  unfolding get_ready queue_has_packet_ready
  get_from-Good [] valid = (valid, refl)
  get_from-Good (b ∷ bs) valid =
      let q' : AudioQueue = record q { blocks = b ∷ bs } in
      let (front, _) = valid.list in
      if_cases (Good q') (not b.allow_discontinuity)
        (λ waits. get_ready-Good b bs valid (λ skips. absurd (ground arith)))
        (λ skips.
          if_cases (Good q') (b.marks b.next_index)
            (λ missing.
              if_cases (Good q') has_memory
                (λ _. (
                  advance-IsValid q' b bs valid (skipping_due _ _ b front (ground arith)),
                  advance_number q' b bs,
                ))
                (λ _. (valid, refl)))
            (λ there.
              rw (not_four b.next_index front.is_block.index)
                (get_ready-Good b bs valid (λ _. there))))

-- RtpaGetQueuedPacket keeps the queue valid. It returns nothing and leaves the queue as it was, or it
-- returns what is due next: the placeholder of a lost packet, or a packet that carries exactly the
-- number that the queue expects next. In both cases the expected number moves on by one.
pub rtpa_get_queued_packet_lem :
    (has_memory : Bool) (q : AudioQueue)
    → IsValid q
    → IsValid (rtpa_get_queued_packet has_memory q).0
      × GivesNext q (rtpa_get_queued_packet has_memory q)
unfolding rtpa_get_queued_packet
rtpa_get_queued_packet_lem has_memory q valid = get_from-Good has_memory q q.blocks valid

-- A result other than NULL.
abbrev pub is_given : Queued → Bool
is_given no_packet = false
is_given lost_packet = true
is_given (queued_packet p len) = true

module _ (q : AudioQueue) (b : FecBlock) where
  abbrev Announced : AudioQueue × Queued → Type 0
  Announced r = is_given r.1 ≡ packet_ready q.next_number b

  get_ready-Announced :
      (bs : List FecBlock) → Announced (get_ready true (record q { blocks = b ∷ bs }))
  unfolding get_ready queue_has_packet_ready
  get_ready-Announced bs =
      if_cases Announced (packet_ready q.next_number b && true) (λ can. ground arith)
        (λ cannot. ground arith)

  get_from-Announced :
      (bs : List FecBlock)
      → b.next_index < 4
      → Announced (get_from true (record q { blocks = b ∷ bs }) (b ∷ bs))
  unfolding packet_ready
  get_from-Announced bs index =
      if_cases Announced (not b.allow_discontinuity) (λ _. get_ready-Announced bs)
        (λ skips.
          if_cases Announced (b.marks b.next_index) (λ _. ground arith)
            (λ _. rw (not_four b.next_index index) (get_ready-Announced bs)))

get_from_ready :
    (q : AudioQueue) (bs : List FecBlock)
    → IsValid (record q { blocks = bs })
    → is_given (get_from true (record q { blocks = bs }) bs).1 ≡ head_ready q.next_number bs
unfolding get_ready queue_has_packet_ready
get_from_ready q [] valid = refl
get_from_ready q (b ∷ bs) valid = get_from-Announced q b bs valid.list.0.is_block.index

-- RtpaGetQueuedPacket, with memory at hand, returns something exactly if queueHasPacketReady says so:
-- the loop that drains the queue after an announcement gets a packet, and it ends when no packet is
-- ready.
pub rtpa_get_queued_packet_ready :
    (q : AudioQueue)
    → IsValid q
    → is_given (rtpa_get_queued_packet true q).1 ≡ queue_has_packet_ready q
unfolding rtpa_get_queued_packet queue_has_packet_ready
rtpa_get_queued_packet_ready q valid = get_from_ready q q.blocks valid

-- ===== src/RtpAudioQueue/Moves.antt =====
-- The steps of RtpAudioQueue.c that move the audio queue on: the next packet is handed out, the head
-- is freed, and lost packets are skipped. Each keeps the queue valid.
use moonlight_common_c.Prelude.{
  ℕ, zero, suc, ◌+◌, ◌*◌, ◌/◌, ◌%◌, ◌^◌, ◌≤◌, ◌<◌, ◌≡◌, ◌≢◌, refl, sym, ap, ◌∙◌, subst, true, false,
  not, ◌||◌, some, List, [], ◌∷◌, arith, ◌==◌, Bool-cases, inl, inr, if_cases, is_empty,
  some-injective,
}
use moonlight_common_c.Seq.{u16, is_before16}
use moonlight_common_c.Seq.Offset.{offset}
use moonlight_common_c.RtpAudioQueue.{hand_through, advance}
use moonlight_common_c.RtpAudioQueue.State.{
  RtpPacket, FecBlock, AudioQueue, AudioConfig, Env, block_at, update, free_fec_block_head,
}
use moonlight_common_c.RtpAudioQueue.Admit.{count}
use moonlight_common_c.RtpAudioQueue.Complete.{
  handle_missing_in, handle_missing_packets, waited_enough,
}
use moonlight_common_c.RtpAudioQueue.Inv.{IsFront, IsTail, IsList, Core, core, IsSound, IsValid}
use moonlight_common_c.RtpAudioQueue.Blocks.{IsWriteAt, update-IsList, update-NoZero}
use moonlight_common_c.RtpAudioQueue.Link.{free_head-IsList, resume-IsList}

pub update-IsSound :
    (c : Core) (i : ℕ) (f : FecBlock → FecBlock)
    → IsWriteAt i c.blocks f
    → IsSound c
    → IsSound (record c { blocks = update i f c.blocks })
update-IsSound c i f w sound = record {
  oldest_bound = sound.oldest_bound;
  oldest_aligned = sound.oldest_aligned;
  next_bound = sound.next_bound;
  near = sound.near;
  list = update-IsList f c.oldest_base c.next_number i c.blocks w sound.list;
  synced = λ sync.
      let (nonzero, empty) = sound.synced sync in
      (update-NoZero f c.oldest_base i c.blocks w nonzero, λ e. ap (update i f) (empty e));
}

-- The due block at the head has handed out a packet.
module _ (c : Core) (b : FecBlock) (bs : List FecBlock) where
  abbrev moved : FecBlock
  moved = record b { next_index = (b.next_index + 1) % 256 }

  pub moved-IsSound :
      IsSound (record c { blocks = b ∷ bs })
      → b.fec.base ≡ c.oldest_base
      → (moved.next_index == 4) ≡ false
      → IsSound (record c { blocks = moved ∷ bs; next_number = u16 (c.next_number + 1) })
  moved-IsSound sound due more =
      let (front, rest) = sound.list in
      let block = front.is_block in
      let place = front.current due in
      let oldest_bound = sound.oldest_bound in
      let next_bound = sound.next_bound in
      let near = sound.near in
      let index = block.index in
      record {
        oldest_bound = sound.oldest_bound;
        oldest_aligned = sound.oldest_aligned;
        next_bound = omega arith;
        near = ground arith;
        list = (
          record {
            is_block = record {
              bound = block.bound;
              aligned = block.aligned;
              index = ground arith;
              numbered = block.numbered;
              counted = block.counted;
              whole = block.whole;
            };
            near = front.near;
            current = λ _. ground arith;
            ahead = λ ne. absurd (ne due);
          },
          rest,
        );
        synced = λ sync.
            let (nonzero, empty) = sound.synced sync in
            (nonzero, λ e. absurd (nonzero.0 (due ∙ e)));
      }

  pub freed-IsSound :
      IsSound (record c { blocks = b ∷ bs })
      → b.fec.base ≡ c.oldest_base
      → (moved.next_index == 4) ≡ true
      → IsSound (record {
        blocks = bs;
        next_number = u16 (c.next_number + 1);
        oldest_base = u16 (b.fec.base + 4);
        synchronizing = false;
      })
  freed-IsSound sound due full =
      let (front, rest) = sound.list in
      let block = front.is_block in
      let place = front.current due in
      let oldest_bound = sound.oldest_bound in
      let oldest_aligned = sound.oldest_aligned in
      let next_bound = sound.next_bound in
      let near = sound.near in
      let index = block.index in
      let same : u16 (c.next_number + 1) ≡ u16 (b.fec.base + 4) = ground arith in
      record {
        oldest_bound = omega arith;
        oldest_aligned = omega arith;
        next_bound = omega arith;
        near = omega arith;
        list =
            subst (λ n. IsList (u16 (b.fec.base + 4)) n bs) (sym same)
              (free_head-IsList c.oldest_base b.fec.base bs oldest_bound block.bound rest);
        synced = λ no. absurd (cc no);
      }

pub advance-IsValid :
    (q : AudioQueue) (b : FecBlock) (bs : List FecBlock)
    → IsValid (record q { blocks = b ∷ bs })
    → b.fec.base ≡ q.oldest_base
    → IsValid (advance q b bs)
unfolding advance free_fec_block_head
advance-IsValid q b bs valid due =
    if_cases IsValid ((moved (core q) b bs).next_index == 4) (freed-IsSound (core q) b bs valid due)
      (moved-IsSound (core q) b bs valid due)

due_first :
    (oldest next : ℕ) (c : FecBlock)
    → oldest < 2 ^ 16
    → offset oldest next < 4
    → IsFront oldest next c
    → is_before16 next c.fec.base ≡ true
    → c.fec.base ≢ oldest
unfolding is_before16
due_first oldest next c ho near front before e = ground arith

due_now :
    (oldest next : ℕ) (c : FecBlock)
    → oldest < 2 ^ 16
    → IsFront oldest next c
    → is_before16 next c.fec.base ≡ false
    → c.fec.base ≡ oldest
unfolding is_before16
due_now oldest next c ho front reached = elim (Bool-cases (c.fec.base == oldest)) [
  | inl same ↦ ground arith
  | inr other ↦
      let bound = front.is_block.bound in
      let near = front.near in
      let due = (front.ahead (λ e. ground arith)).0 in absurd (ground arith)
]

-- The queue gives up on the head, or resumes at it if the blocks before were lost.
handle_missing_in-IsValid :
    (cfg : AudioConfig) (env : Env) (q : AudioQueue) (bs : List FecBlock)
    → IsValid (record q { blocks = bs })
    → IsValid (handle_missing_in cfg env (record q { blocks = bs }) bs)
unfolding handle_missing_packets count
handle_missing_in-IsValid cfg env q [] valid = valid
handle_missing_in-IsValid cfg env q (b ∷ bs) valid =
    let (front, rest) = valid.list in
    let block = front.is_block in
    let ho = valid.oldest_bound in
    if_cases IsValid (is_before16 q.next_number b.fec.base)
      (λ before.
        let later = due_first q.oldest_base q.next_number b ho valid.near front before in
        record {
          oldest_bound = block.bound;
          oldest_aligned = block.aligned;
          next_bound = block.bound;
          near = omega arith;
          list = resume-IsList q.oldest_base q.next_number b bs ho later valid.list;
          synced = λ sync.
              let (nonzero, empty) = valid.synced sync in (nonzero, λ e. absurd (nonzero.0 e));
        })
      (λ reached.
        if_cases IsValid (is_empty bs) (λ _. valid)
          (λ _.
            if_cases IsValid
              (not q.received_oos || waited_enough cfg.packet_duration env.now_head b.queue_time_us)
              (λ _.
                let due = due_now q.oldest_base q.next_number b ho front reached in
                record {
                  oldest_bound = ho;
                  oldest_aligned = valid.oldest_aligned;
                  next_bound = valid.next_bound;
                  near = valid.near;
                  list = (
                    record {
                      is_block = record {
                        bound = block.bound;
                        aligned = block.aligned;
                        index = block.index;
                        numbered = block.numbered;
                        counted = block.counted;
                        whole = block.whole;
                      };
                      near = front.near;
                      current = front.current;
                      ahead = λ ne. absurd (ne due);
                    },
                    rest,
                  );
                  synced = λ sync.
                      let (nonzero, empty) = valid.synced sync in
                      (nonzero, λ e. absurd (nonzero.0 (due ∙ e)));
                })
              (λ _. valid)))

pub handle_missing_packets-IsValid :
    (cfg : AudioConfig) (env : Env) (q : AudioQueue)
    → IsValid q
    → IsValid (handle_missing_packets cfg env q)
unfolding handle_missing_packets
handle_missing_packets-IsValid cfg env q valid = handle_missing_in-IsValid cfg env q q.blocks valid

-- A block that starts at the oldest number is the head.
tail_behind :
    (oldest from i : ℕ) (bs : List FecBlock) (b : FecBlock)
    → IsTail oldest from bs
    → block_at i bs ≡ some b
    → from ≤ offset oldest b.fec.base
tail_behind oldest from i [] b t e = absurd (cc e)
tail_behind oldest from zero (c ∷ bs) b (_, _, low, _, _) e =
    subst (λ (x : FecBlock). from ≤ offset oldest x.fec.base) (some-injective c b e) low
tail_behind oldest from (suc i) (c ∷ bs) b (_, _, low, _, t) e =
    let more = tail_behind oldest (offset oldest c.fec.base + 4) i bs b t e in omega arith

pub due_block_first :
    (oldest next i : ℕ) (bs : List FecBlock) (b : FecBlock)
    → oldest < 2 ^ 16
    → IsList oldest next bs
    → block_at i bs ≡ some b
    → b.fec.base ≡ oldest
    → i ≡ 0
due_block_first oldest next i [] b ho l e due = absurd (cc e)
due_block_first oldest next zero (c ∷ bs) b ho l e due = refl
due_block_first oldest next (suc i) (c ∷ bs) b ho (front, t) e due =
    let behind = tail_behind oldest _ i bs b t e in absurd (omega arith)

hand_through_head :
    (q : AudioQueue) (p : RtpPacket) (i : ℕ) (bs : List FecBlock) (b : FecBlock)
    → i ≡ 0
    → IsValid (record q { blocks = bs })
    → block_at i bs ≡ some b
    → b.fec.base ≡ q.oldest_base
    → p.sequence_number ≡ q.next_number
    → IsValid (hand_through (record q { blocks = bs }) p i b)
unfolding hand_through free_fec_block_head
hand_through_head q p i [] b first valid e due same = absurd (cc e)
hand_through_head q p (suc i) (c ∷ bs) b first valid e due same = absurd (omega arith)
hand_through_head q p zero (c ∷ bs) b first valid e due same =
    let here : c.fec.base ≡ b.fec.base = ap (λ (x : FecBlock). x.fec.base) (some-injective c b e) in
    let next : u16 (q.next_number + 1) ≡ u16 (p.sequence_number + 1) =
      ap (λ n. u16 (n + 1)) (sym same) in
    let (front, _) = valid.list in
    let block = front.is_block in
    let index = block.index in
    let bound = block.bound in
    let place = front.current (here ∙ due) in
    let near = valid.near in
    let oldest_bound = valid.oldest_bound in
    let m = moved (core q) c bs in
    if_cases IsValid (u16 (p.sequence_number + 1) == u16 (b.fec.base + 4))
      (λ done.
        subst
          (λ n. IsSound (record {
            blocks = bs;
            next_number = n;
            oldest_base = u16 (c.fec.base + 4);
            synchronizing = false;
          }))
          next (freed-IsSound (core q) c bs valid (here ∙ due) (ground arith)))
      (λ more.
        subst (λ n. IsSound (record (core q) { blocks = m ∷ bs; next_number = n })) next
          (moved-IsSound (core q) c bs valid (here ∙ due) (ground arith)))

-- A packet that is due next is handed through: its block is the head.
pub hand_through-IsValid :
    (q : AudioQueue) (p : RtpPacket) (i : ℕ) (b : FecBlock)
    → IsValid q
    → block_at i q.blocks ≡ some b
    → b.fec.base ≡ p.sequence_number / 4 * 4
    → p.sequence_number ≡ q.next_number
    → IsValid (hand_through q p i b)
hand_through-IsValid q p i b valid e base same =
    let oldest_bound = valid.oldest_bound in
    let oldest_aligned = valid.oldest_aligned in
    let next_bound = valid.next_bound in
    let near = valid.near in
    let due : b.fec.base ≡ q.oldest_base = omega arith in
    let first =
      due_block_first q.oldest_base q.next_number i q.blocks b oldest_bound valid.list e due in
    hand_through_head q p i q.blocks b first valid e due same

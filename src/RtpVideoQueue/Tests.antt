-- ===== src/RtpVideoQueue/Tests.antt =====
-- The theorems of RtpVideoQueue.c at concrete queues: a frame of two data packets and one of parity.
use moonlight_common_c.Prelude.{
  ℕ, ◌≡◌, refl, true, false, not, List, [], ◌∷◌, ◌++◌, arith, ltb, some, inr, ◌⊎◌, ◌↔◌, map,
}
use mathlib.Core.List.{Perm}
use moonlight_common_c.RtpVideoQueue.{add_packet, try_finish}
use moonlight_common_c.RtpVideoQueue.State.{Entry, seq_of, Queue, report_status, initialize}
use moonlight_common_c.RtpVideoQueue.Insert.{has_seq, new_entry, queue_packet}
use moonlight_common_c.RtpVideoQueue.Recover.{
  is_missing, is_corrupt, recovered_packet, reconstruct_frame, admit_wrong_prediction,
}
use moonlight_common_c.RtpVideoQueue.Stage.{scan, stage_loop, stage_complete_block}
use moonlight_common_c.RtpVideoQueue.StageTotal.{NoParity, stage_complete_block_total}
use moonlight_common_c.RtpVideoQueue.StageOrder.{data_only, seq_run, stamp, stage_loop-perm}
use moonlight_common_c.RtpVideoQueue.Inv.{InBlock, Distinct, Block, window, queue_packet-Block}
use moonlight_common_c.Seq.Offset.{offset}
use moonlight_common_c.RtpVideoQueue.Complete.{IsWhole}
use moonlight_common_c.RtpVideoQueue.Reconstruct.{
  Open, reconstruct_frame-IsWhole, reconstruct_frame_counted,
}
use moonlight_common_c.RtpVideoQueue.Finish.{finished, try_finish_lem}
use moonlight_common_c.RtpVideoQueue.Accept.{IsValid, add_packet-IsValid}
use moonlight_common_c.RtpVideoQueue.OneFrame.{IsOneFrame}
use moonlight_common_c.RtpVideoQueue.FrameKept.{add_packet-IsOneFrame}
use moonlight_common_c.RtpVideoQueue.Reach.{Reached, started, received, Reached-IsValid}
use moonlight_common_c.RtpVideoQueue.Samples.{both, first_packet, second_packet, parity_packet}

-- The block with the packets in the list pending, `n` data packets of them counted.
abbrev block_of : List Entry → ℕ → Queue
block_of es n = record (initialize true) {
  pending = es;
  lowest = 65535;
  highest = 1;
  first_parity = 1;
  data_packets = 2;
  parity_packets = 1;
  received_data = n;
  next_contiguous = 65535;
}

abbrev first_entry : Entry
first_entry = new_entry first_packet 1040 false

abbrev second_entry : Entry
second_entry = new_entry second_packet 1040 false

abbrev parity_entry : Entry
parity_entry = new_entry parity_packet 1040 true

first_InBlock : InBlock 65535 2 3 first_entry
first_InBlock = record { number = omega arith; inside = omega arith; parity = refl }

second_InBlock : InBlock 65535 2 3 second_entry
second_InBlock = record { number = omega arith; inside = omega arith; parity = refl }

parity_InBlock : InBlock 65535 2 3 parity_entry
parity_InBlock = record { number = omega arith; inside = omega arith; parity = refl }

abbrev two_entries : List Entry
two_entries = second_entry ∷ first_entry ∷ []

two_entries-Distinct : Distinct two_entries
unfolding has_seq
two_entries-Distinct = (refl, (refl, tt))

mixed_Distinct : Distinct (second_entry ∷ parity_entry ∷ [])
unfolding has_seq
mixed_Distinct = (refl, (refl, tt))

whole_Block : Block (window (block_of two_entries 2))
unfolding initialize
whole_Block = record {
  low = omega arith;
  small = omega arith;
  parity_from = refl;
  high = refl;
  next = omega arith;
  next_in = omega arith;
  entries = (second_InBlock, (first_InBlock, tt));
  distinct = two_entries-Distinct;
  fast = λ f. cc f;
}

whole_Open : Open (block_of two_entries 2)
unfolding initialize data_only
whole_Open = record { block = whole_Block; counted = omega arith }

mixed_Block : Block (window (block_of (second_entry ∷ parity_entry ∷ []) 1))
unfolding initialize
mixed_Block = record {
  low = omega arith;
  small = omega arith;
  parity_from = refl;
  high = refl;
  next = omega arith;
  next_in = omega arith;
  entries = (second_InBlock, (parity_InBlock, tt));
  distinct = mixed_Distinct;
  fast = λ f. cc f;
}

mixed_Open : Open (block_of (second_entry ∷ parity_entry ∷ []) 1)
unfolding initialize data_only
mixed_Open = record { block = mixed_Block; counted = omega arith }

queue_packet-Block_example :
    let q = block_of (second_entry ∷ parity_entry ∷ []) 1 in
    let (r, fresh) =
      queue_packet q first_packet 1040
        (not (ltb (offset q.lowest first_packet.sequence_number) q.data_packets))
        false in
    Block (window r) × (fresh ≡ not (has_seq first_packet.sequence_number q.pending))
unfolding initialize
queue_packet-Block_example =
    queue_packet-Block (block_of (second_entry ∷ parity_entry ∷ []) 1) first_packet 1040 false
      mixed_Block (omega arith) (omega arith)

reconstruct_frame_counted_example :
    let q = block_of two_entries 2 in
    (reconstruct_frame both q ≡ (admit_wrong_prediction both q, 0))
    ↔ IsWhole q.lowest q.data_packets q.pending
unfolding initialize data_only
reconstruct_frame_counted_example =
    reconstruct_frame_counted both (block_of two_entries 2) whole_Open refl

decodes : (reconstruct_frame both (block_of (second_entry ∷ parity_entry ∷ []) 1)).1 ≡ 0
unfolding reconstruct_frame initialize is_missing is_corrupt recovered_packet report_status
    queue_packet
decodes = refl

reconstruct_frame-IsWhole_example :
    let q = block_of (second_entry ∷ parity_entry ∷ []) 1 in
    IsWhole q.lowest q.data_packets (reconstruct_frame both q).0.pending
reconstruct_frame-IsWhole_example =
    reconstruct_frame-IsWhole both (block_of (second_entry ∷ parity_entry ∷ []) 1) mixed_Open
      decodes

stage_complete_block_total_example :
    let q = block_of (parity_entry ∷ two_entries) 2 in
    (xs : List Entry) × (stage_complete_block q
      ≡ record q { pending = []; completed = q.completed ++ xs })
stage_complete_block_total_example =
    stage_complete_block_total (block_of (parity_entry ∷ two_entries) 2)

staged_two :
    stage_loop 7 5 65535 two_entries ≡ some (stamp 5 first_entry ∷ stamp 5 second_entry ∷ [])
unfolding stage_loop scan
staged_two = refl

stage_loop-perm_example :
    (ys : List Entry) × (stamp 5 first_entry ∷ stamp 5 second_entry ∷ [] ≡ map (stamp 5) ys)
    × Perm ys (data_only two_entries)
stage_loop-perm_example =
    stage_loop-perm 5 7 65535 two_entries (stamp 5 first_entry ∷ stamp 5 second_entry ∷ [])
      staged_two

try_finish_lem_example :
    let q = block_of two_entries 2 in
    let r = (reconstruct_frame both q).0 in
    ((try_finish both q ≡ r) × Open r)
    ⊎ ((xs : List Entry) × (map seq_of xs ≡ seq_run q.lowest q.data_packets)
        × NoParity xs
        × (try_finish both q ≡ finished r xs))
try_finish_lem_example = try_finish_lem both (block_of two_entries 2) whole_Open

partly_Open : Open (block_of two_entries 1)
unfolding initialize data_only
partly_Open = record { block = whole_Block; counted = omega arith }

add_packet-IsValid_example :
    IsValid (add_packet both (block_of two_entries 1) parity_packet 1040 9).0
add_packet-IsValid_example =
    add_packet-IsValid both (block_of two_entries 1) parity_packet 1040 9 (inr partly_Open)
      (omega arith)

partly_IsOneFrame : IsOneFrame (block_of two_entries 1)
unfolding initialize
partly_IsOneFrame = record { in_pending = (refl, (refl, tt)); in_completed = tt }

add_packet-IsOneFrame_example :
    IsOneFrame (add_packet both (block_of two_entries 1) parity_packet 1040 9).0
add_packet-IsOneFrame_example =
    add_packet-IsOneFrame both (block_of two_entries 1) parity_packet 1040 9 partly_IsOneFrame

two_received :
    Reached both
      (add_packet both
        (add_packet both (initialize true) second_packet 1040 7).0
        parity_packet
        1040
        8).0
two_received =
    received (add_packet both (initialize true) second_packet 1040 7).0 parity_packet 1040 8
      (omega arith) (received (initialize true) second_packet 1040 7 (omega arith) (started true))

Reached-IsValid_example :
    let q =
      (add_packet both
        (add_packet both (initialize true) second_packet 1040 7).0
        parity_packet
        1040
        8).0 in
    IsValid q × IsOneFrame q
Reached-IsValid_example =
    Reached-IsValid both
      (add_packet both (add_packet both (initialize true) second_packet 1040 7).0 parity_packet 1040
        8).0
      two_received

-- ===== src/RtpVideoQueue/Stage.antt =====
-- stageCompleteFecBlock and submitCompletedFrame of RtpVideoQueue.c: a complete block leaves the
-- pending list in sequence order, without its parity packets.
use moonlight_common_c.Prelude.{
  ℕ, zero, suc, ◌+◌, ◌*◌, Option, none, some, List, [], ◌∷◌, ◌++◌, ◌==◌, if◌then◌else◌, length,
}
use moonlight_common_c.Seq.{u16, is_before16}
use moonlight_common_c.RtpVideoQueue.State.{Entry, seq_of, Queue, emit, submitted}

-- One run of the inner loop: the entry with the number `next`, if there is one, then what is left of the
-- list, in which the parity packets met on the way are gone, and the lowest number met.
pub record Scan : Type 0 where
  pub found : Option Entry
  pub left : List Entry
  pub low : ℕ

abbrev pub lower : ℕ → ℕ → ℕ
lower low s = if is_before16 s low then s else low

unfoldable pub scan : ℕ → ℕ → List Entry → Scan
scan next low [] = record { found = none; left = []; low = low }
scan next low (e ∷ es) =
    let skipped = scan next low es in
    let passed = scan next (lower low (seq_of e)) es in
    if e.is_parity
    then skipped
    else if seq_of e == next
    then record { found = some e; left = es; low = low }
    else record passed { left = e ∷ passed.left }

-- The entry joins the staged ones, with the block's receive time.
unfoldable pub prepend : ℕ → Entry → Option (List Entry) → Option (List Entry)
prepend time x none = none
prepend time x (some xs) = some (record x { receive_time_us = time } ∷ xs)

-- The outer loop, on fuel: `none` if the fuel runs out. It yields the staged entries, in order.
unfoldable pub stage_loop : ℕ → ℕ → ℕ → List Entry → Option (List Entry)
unfolding prepend
stage_loop fuel time next [] = some []
stage_loop zero time next (e ∷ es) = none
stage_loop (suc fuel) time next (e ∷ es) =
    let s = scan next (seq_of e) (e ∷ es) in
    elim s.found [
      | none ↦ stage_loop fuel time s.low s.left
      | some x ↦ prepend time x (stage_loop fuel time (u16 (next + 1)) s.left)
    ]

-- Three rounds for each entry are enough (`StageTotal`).
abbrev pub stage_fuel : List Entry → ℕ
stage_fuel es = 3 * length es + 1

unfoldable pub stage_complete_block : Queue → Queue
unfolding stage_loop
stage_complete_block q =
    elim (stage_loop (stage_fuel q.pending) q.first_recv_time_us q.lowest q.pending) [
      | none ↦ q
      | some xs ↦ record q { pending = []; completed = q.completed ++ xs }
    ]

unfoldable pub submit_all : List Entry → Queue → Queue
unfolding emit
submit_all [] q = q
submit_all (e ∷ es) q = submit_all es (emit (submitted e) q)

unfoldable pub submit_completed_frame : Queue → Queue
unfolding submit_all
submit_completed_frame q = submit_all q.completed (record q { completed = [] })

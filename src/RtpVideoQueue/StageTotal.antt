-- ===== src/RtpVideoQueue/StageTotal.antt =====
-- The loop of stageCompleteFecBlock ends, whatever the pending list holds, and empties it.
use moonlight_common_c.Prelude.{
  ℕ, zero, suc, ◌+◌, ◌*◌, ◌≤◌, ◌<◌, ◌≡◌, refl, sym, subst, Bool, true, false, not, ◌&&◌, ◌||◌,
  Option, none, some, List, [], ◌∷◌, ◌++◌, arith, ◌==◌, if◌then◌else◌, Option-cases, inl, inr, ◌⊎◌,
  length,
}
use moonlight_common_c.Seq.{u16}
use moonlight_common_c.RtpVideoQueue.State.{Entry, seq_of, Queue}
use moonlight_common_c.RtpVideoQueue.Stage.{
  scan, prepend, stage_loop, stage_fuel, lower, stage_complete_block,
}

abbrev pub NoParity : List Entry → Type 0
NoParity [] = Unit {0}
NoParity (e ∷ es) = (e.is_parity ≡ false) × NoParity es

-- A data packet with this number is in the list.
unfoldable pub has_data : ℕ → List Entry → Bool
has_data s [] = false
has_data s (e ∷ es) = (not e.is_parity && seq_of e == s) || has_data s es

pub scan_shorter :
    (next low : ℕ) (es : List Entry) (x : Entry)
    → (scan next low es).found ≡ some x
    → length (scan next low es).left < length es
unfolding scan
scan_shorter next low [] x h = cc
scan_shorter next low (e ∷ es) x h =
    ground (arith, scan_shorter next low es x, scan_shorter next (lower low (seq_of e)) es x)

scan-NoParity : (next low : ℕ) (es : List Entry) → NoParity es → NoParity (scan next low es).left
unfolding scan
scan-NoParity next low [] h = tt
scan-NoParity next low (e ∷ es) h =
    ground (arith, scan-NoParity next low es h.1, scan-NoParity next (lower low (seq_of e)) es h.1)

pub scan_missed :
    (next low : ℕ) (es : List Entry)
    → (scan next low es).found ≡ none
    → (length (scan next low es).left ≤ length es) × NoParity (scan next low es).left
unfolding scan
scan_missed next low [] h = (omega arith, tt)
scan_missed next low (e ∷ es) h =
    ground (arith, scan_missed next low es, scan_missed next (lower low (seq_of e)) es)

-- In a list of data packets, a run of the inner loop that finds nothing leaves the list as it is, and
-- yields a number that stands in it.
scan_missed_same :
    (next low : ℕ) (es : List Entry)
    → NoParity es
    → (scan next low es).found ≡ none
    → ((scan next low es).left ≡ es)
      × (((scan next low es).low ≡ low) ⊎ (has_data (scan next low es).low es ≡ true))
      × (has_data next es ≡ false)
unfolding scan has_data
scan_missed_same next low [] h e = (refl, inl refl, refl)
scan_missed_same next low (x ∷ es) h e =
    ground (arith, scan_missed_same next (lower low (seq_of x)) es h.1)

head_or_there :
    (k : ℕ) (e : Entry) (es : List Entry)
    → e.is_parity ≡ false
    → (k ≡ seq_of e) ⊎ (has_data k (e ∷ es) ≡ true)
    → has_data k (e ∷ es) ≡ true
unfolding has_data
head_or_there k e es clean h = ground arith

module _ (time : ℕ) where
  pub stage_loop_found :
      (fuel next : ℕ) (e x : Entry) (es : List Entry)
      → (scan next (seq_of e) (e ∷ es)).found ≡ some x
      → stage_loop (suc fuel) time next (e ∷ es)
        ≡ prepend time x
            (stage_loop fuel time (u16 (next + 1)) (scan next (seq_of e) (e ∷ es)).left)
  unfolding stage_loop
  stage_loop_found fuel next e x es h = rw (h, stage_loop)

  pub stage_loop_missed :
      (fuel next : ℕ) (e : Entry) (es : List Entry)
      → (scan next (seq_of e) (e ∷ es)).found ≡ none
      → stage_loop (suc fuel) time next (e ∷ es)
        ≡ stage_loop fuel time
            (scan next (seq_of e) (e ∷ es)).low
            (scan next (seq_of e) (e ∷ es)).left
  unfolding stage_loop
  stage_loop_missed fuel next e es h = rw (h, stage_loop)

  abbrev pub IsTotal : Option (List Entry) → Type 0
  IsTotal r = (xs : List Entry) × (r ≡ some xs)

  prepend-IsTotal : (x : Entry) (r : Option (List Entry)) → IsTotal r → IsTotal (prepend time x r)
  unfolding prepend
  prepend-IsTotal x r (xs, e) = (record x { receive_time_us = time } ∷ xs, rw e)

  -- Without parity packets two rounds find an entry.
  stage_clean_ends :
      (fuel next : ℕ) (es : List Entry)
      → NoParity es
      → 2 * length es + 1 ≤ fuel + (if has_data next es then 1 else 0)
      → IsTotal (stage_loop fuel time next es)
  unfolding stage_loop
  stage_clean_ends fuel next [] clean room = ([], refl)
  stage_clean_ends zero next (e ∷ es) clean room = absurd (ground arith)
  stage_clean_ends (suc fuel) next (e ∷ es) clean room =
      let s = scan next (seq_of e) (e ∷ es) in
      elim (Option-cases s.found) [
        | inl miss ↦
            let (same, low, gone) = scan_missed_same next (seq_of e) (e ∷ es) clean miss in
            let there : has_data s.low (e ∷ es) ≡ true = head_or_there s.low e es clean.0 low in
            rw (stage_loop_missed fuel next e es miss) (
              subst (λ z. IsTotal (stage_loop fuel time s.low z)) (sym same)
                (stage_clean_ends fuel s.low (e ∷ es) clean (ground (arith, there, gone))))
        | inr (x, hit) ↦
            let less = scan_shorter next (seq_of e) (e ∷ es) x hit in
            rw (stage_loop_found fuel next e x es hit) (
              prepend-IsTotal x _ (
                stage_clean_ends fuel (u16 (next + 1)) s.left
                  (scan-NoParity next (seq_of e) (e ∷ es) clean) (ground arith)))
      ]

  -- The first round that finds nothing takes all parity packets away.
  pub stage_loop_ends :
      (fuel next : ℕ) (es : List Entry)
      → 3 * length es + 1 ≤ fuel
      → IsTotal (stage_loop fuel time next es)
  unfolding stage_loop
  stage_loop_ends fuel next [] room = ([], refl)
  stage_loop_ends zero next (e ∷ es) room = absurd (omega arith)
  stage_loop_ends (suc fuel) next (e ∷ es) room =
      let s = scan next (seq_of e) (e ∷ es) in
      elim (Option-cases s.found) [
        | inl miss ↦
            let (le, clean) = scan_missed next (seq_of e) (e ∷ es) miss in
            rw (stage_loop_missed fuel next e es miss)
              (stage_clean_ends fuel s.low s.left clean (ground arith))
        | inr (x, hit) ↦
            let less = scan_shorter next (seq_of e) (e ∷ es) x hit in
            rw (stage_loop_found fuel next e x es hit)
              (prepend-IsTotal x _ (stage_loop_ends fuel (u16 (next + 1)) s.left (omega arith)))
      ]

-- stageCompleteFecBlock ends for every pending list, in fuel that the model gives it: it leaves no
-- pending packet and adds to the completed ones.
pub stage_complete_block_total :
    (q : Queue)
    → (xs : List Entry) × (stage_complete_block q
        ≡ record q { pending = []; completed = q.completed ++ xs })
unfolding stage_complete_block
stage_complete_block_total q =
    let (xs, e) =
      stage_loop_ends q.first_recv_time_us (stage_fuel q.pending) q.lowest q.pending
        (omega arith) in
    (xs, rw (e, stage_complete_block))

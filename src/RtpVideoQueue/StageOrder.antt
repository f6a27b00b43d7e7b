-- ===== src/RtpVideoQueue/StageOrder.antt =====
-- What stageCompleteFecBlock stages: the data packets of the pending list, each once and no parity,
-- and of a complete block in the order of their sequence numbers.
use mathlib.Core.List.{Perm}
use mathlib.Core.List.Perm
use moonlight_common_c.Prelude.{
  ℕ, zero, suc, ◌+◌, ◌^◌, ◌<◌, ◌≡◌, ◌≢◌, refl, sym, ap, ap₂, subst, ◌∙◌, true, false, Option, none,
  some, List, [], ◌∷◌, arith, ◌==◌, if◌then◌else◌, Bool-cases, Option-cases, inl, inr, length, map,
}
use moonlight_common_c.Seq.{u16}
use moonlight_common_c.RtpVideoQueue.State.{Entry, seq_of}
use moonlight_common_c.RtpVideoQueue.Stage.{scan, prepend, stage_loop, lower}
use moonlight_common_c.RtpVideoQueue.StageTotal.{has_data, stage_loop_found, stage_loop_missed}

-- The data packets of a list, in its order.
unfoldable pub data_only : List Entry → List Entry
data_only [] = []
data_only (e ∷ es) = if e.is_parity then data_only es else e ∷ data_only es

abbrev pub stamp : ℕ → Entry → Entry
stamp time e = record e { receive_time_us = time }

-- `n` consecutive sequence numbers from `next` on.
unfoldable pub seq_run : ℕ → ℕ → List ℕ
seq_run next zero = []
seq_run next (suc n) = next ∷ seq_run (u16 (next + 1)) n

-- All of these `n` numbers are those of data packets in the list.
abbrev pub Covers : ℕ → ℕ → List Entry → Type 0
Covers next zero es = Unit {0}
Covers next (suc n) es = (has_data next es ≡ true) × Covers (u16 (next + 1)) n es

data_only_parity :
    (e : Entry) (es : List Entry) → e.is_parity ≡ true → data_only (e ∷ es) ≡ data_only es
unfolding data_only
data_only_parity e es h = ground arith

data_only_data :
    (e : Entry) (es : List Entry) → e.is_parity ≡ false → data_only (e ∷ es) ≡ e ∷ data_only es
unfolding data_only
data_only_data e es h = ground arith

module _ (next low : ℕ) (e : Entry) (es : List Entry) where
  scan_parity : e.is_parity ≡ true → scan next low (e ∷ es) ≡ scan next low es
  unfolding scan
  scan_parity h = ground arith

  scan_match :
      e.is_parity ≡ false
      → (seq_of e == next) ≡ true
      → scan next low (e ∷ es) ≡ record { found = some e; left = es; low = low }
  unfolding scan
  scan_match h hit = ground arith

  scan_pass :
      e.is_parity ≡ false
      → (seq_of e == next) ≡ false
      → let r = scan next (lower low (seq_of e)) es in
        scan next low (e ∷ es) ≡ record { found = r.found; left = e ∷ r.left; low = r.low }
  unfolding scan
  scan_pass h miss = ground arith

scan_nil : (next low : ℕ) (x : Entry) → ¬ ((scan next low []).found ≡ some x)
unfolding scan
scan_nil next low x h = cc

-- The entry found and the data packets left are the data packets of the list.
scan-perm :
    (next low : ℕ) (es : List Entry) (x : Entry)
    → (scan next low es).found ≡ some x
    → Perm (x ∷ data_only (scan next low es).left) (data_only es)
scan-perm next low [] x h = absurd (scan_nil next low x h)
scan-perm next low (e ∷ es) x h = elim (Bool-cases e.is_parity) [
  | inl parity ↦
      let same = scan_parity next low e es parity in
      rw (same, data_only_parity e es parity) (scan-perm next low es x (rw same at h))
  | inr clean ↦ elim (Bool-cases (seq_of e == next)) [
    | inl hit ↦
        let same = scan_match next low e es clean hit in
        let is : e ≡ x = cc (same, h) in
        rw (same, data_only_data e es clean) (Perm.cons' (sym is) Perm.rfl)
    | inr miss ↦
        let same = scan_pass next low e es clean miss in
        let r = scan next (lower low (seq_of e)) es in
        rw (same, data_only_data e es clean, data_only_data e r.left clean)
          (Perm.trans (Perm.swap e x _)
            (Perm.cons e (scan-perm next (lower low (seq_of e)) es x (rw same at h))))
  ]
]

scan_missed-data_only :
    (next low : ℕ) (es : List Entry)
    → (scan next low es).found ≡ none
    → data_only (scan next low es).left ≡ data_only es
unfolding scan data_only
scan_missed-data_only next low [] h = refl
scan_missed-data_only next low (e ∷ es) h =
    ground (
      arith,
      scan_missed-data_only next low es,
      scan_missed-data_only next (lower low (seq_of e)) es,
    )

-- A number that is there is found.
scan_hit :
    (next low : ℕ) (es : List Entry)
    → has_data next es ≡ true
    → (x : Entry) × ((scan next low es).found ≡ some x) × (seq_of x ≡ next)
unfolding scan has_data
scan_hit next low [] h = cc
scan_hit next low (e ∷ es) h = elim (Bool-cases e.is_parity) [
  | inl parity ↦
      let (x, found, number) = scan_hit next low es (ground arith) in (x, ground arith, number)
  | inr clean ↦ elim (Bool-cases (seq_of e == next)) [
    | inl hit ↦ (e, ground arith, ground arith)
    | inr miss ↦
        let (x, found, number) = scan_hit next (lower low (seq_of e)) es (ground arith) in
        (x, ground arith, number)
  ]
]

-- The other data packets stay.
scan_others :
    (next low s : ℕ) (es : List Entry)
    → s ≢ next
    → has_data s (scan next low es).left ≡ has_data s es
unfolding scan has_data
scan_others next low s [] ne = refl
scan_others next low s (e ∷ es) ne =
    ground (arith, scan_others next low s es, scan_others next (lower low (seq_of e)) s es)

scan_count :
    (next low : ℕ) (es : List Entry) (x : Entry)
    → (scan next low es).found ≡ some x
    → suc (length (data_only (scan next low es).left)) ≡ length (data_only es)
unfolding scan data_only
scan_count next low [] x h = cc
scan_count next low (e ∷ es) x h =
    ground (arith, scan_count next low es x, scan_count next (lower low (seq_of e)) es x)

prepend_inv :
    (time : ℕ) (x : Entry) (r : Option (List Entry)) (xs : List Entry)
    → prepend time x r ≡ some xs
    → (ys : List Entry) × (r ≡ some ys) × (xs ≡ stamp time x ∷ ys)
unfolding prepend
prepend_inv time x none xs h = cc
prepend_inv time x (some ys) xs h = (ys, refl, cc)

data_only_nil : data_only [] ≡ []
unfolding data_only
data_only_nil = refl

stage_nil :
    (time fuel next : ℕ) (xs : List Entry) → stage_loop fuel time next [] ≡ some xs → xs ≡ []
unfolding stage_loop
stage_nil time fuel next xs h = cc

stage_empty :
    (time next : ℕ) (e : Entry) (es xs : List Entry)
    → ¬ (stage_loop zero time next (e ∷ es) ≡ some xs)
unfolding stage_loop
stage_empty time next e es xs h = cc

-- What a run of the loop yields, if it yields anything: the data packets of the list, each once,
-- with the block's receive time.
pub stage_loop-perm :
    (time fuel next : ℕ) (es xs : List Entry)
    → stage_loop fuel time next es ≡ some xs
    → (ys : List Entry) × (xs ≡ map (stamp time) ys) × Perm ys (data_only es)
stage_loop-perm time fuel next [] xs h =
    ([], stage_nil time fuel next xs h, rw data_only_nil Perm.nil)
stage_loop-perm time zero next (e ∷ es) xs h = absurd (stage_empty time next e es xs h)
stage_loop-perm time (suc fuel) next (e ∷ es) xs h =
    let s = scan next (seq_of e) (e ∷ es) in
    elim (Option-cases s.found) [
      | inl miss ↦
          let (ys, is, perm) =
            stage_loop-perm time fuel s.low s.left xs
              (rw (stage_loop_missed time fuel next e es miss) at h) in
          (ys, is, subst (Perm ys) (scan_missed-data_only next (seq_of e) (e ∷ es) miss) perm)
      | inr (x, hit) ↦
          let (zs, got, shape) =
            prepend_inv time x _ xs (rw (stage_loop_found time fuel next e x es hit) at h) in
          let (ys, is, perm) = stage_loop-perm time fuel (u16 (next + 1)) s.left zs got in
          (
            x ∷ ys,
            shape ∙ ap (λ rest. stamp time x ∷ rest) is,
            Perm.trans (Perm.cons x perm) (scan-perm next (seq_of e) (e ∷ es) x hit),
          )
    ]

-- Once the packet `next` is taken, the later numbers of the block are still there.
Covers-left :
    (next low j m : ℕ) (es : List Entry)
    → next < 2 ^ 16
    → j + m < 2 ^ 15
    → Covers (u16 (next + suc j)) m es
    → Covers (u16 (next + suc j)) m (scan next low es).left
Covers-left next low j zero es hn hm c = tt
Covers-left next low j (suc m) es hn hm c =
    let ne : u16 (next + suc j) ≢ next = omega arith in
    let step : u16 (u16 (next + suc j) + 1) ≡ u16 (next + suc (suc j)) = omega arith in
    (
      scan_others next low _ es ne ∙ c.0,
      subst (λ k. Covers k m (scan next low es).left) (sym step)
          (Covers-left next low (suc j) m es hn (omega arith)
            (subst (λ k. Covers k m es) step c.1)),
    )

nil_of_length : (es : List Entry) → length es ≡ 0 → es ≡ []
nil_of_length [] h = refl
nil_of_length (e ∷ es) h = absurd (omega arith)

-- The data packets of a complete block come out in sequence order, without a gap.
pub stage_loop_order :
    (time fuel next n : ℕ) (es xs : List Entry)
    → next < 2 ^ 16
    → n < 2 ^ 15
    → Covers next n es
    → length (data_only es) ≡ n
    → stage_loop fuel time next es ≡ some xs
    → map seq_of xs ≡ seq_run next n
unfolding seq_run has_data
stage_loop_order time fuel next zero es xs hn hm c count h =
    let (ys, is, perm) = stage_loop-perm time fuel next es xs h in
    let empty : data_only es ≡ [] = nil_of_length (data_only es) count in
    let none_left : ys ≡ [] = Perm.eq-nil (subst (Perm ys) empty perm) in
    ap (map seq_of) (is ∙ ap (map (stamp time)) none_left)
stage_loop_order time fuel next (suc m) [] xs hn hm c count h = cc (c.0)
stage_loop_order time zero next (suc m) (e ∷ es) xs hn hm c count h =
    absurd (stage_empty time next e es xs h)
stage_loop_order time (suc fuel) next (suc m) (e ∷ es) xs hn hm c count h =
    let low = seq_of e in
    let (x, hit, number) = scan_hit next low (e ∷ es) c.0 in
    let (zs, got, shape) =
      prepend_inv time x _ xs (rw (stage_loop_found time fuel next e x es hit) at h) in
    let later = Covers-left next low 0 m (e ∷ es) hn (omega arith) c.1 in
    let rest =
      stage_loop_order time fuel (u16 (next + 1)) m (scan next low (e ∷ es)).left zs (omega arith)
        (omega arith) later (omega (arith, scan_count next low (e ∷ es) x hit)) got in
    ap (map seq_of) shape ∙ ap₂ ◌∷◌ number rest

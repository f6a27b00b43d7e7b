-- ===== src/RtpVideoQueue/Complete.antt =====
-- When a block of the video queue is complete: the data packets of an open block are as many as
-- the block has exactly if none of them is missing.
use moonlight_common_c.Prelude.{
  ℕ, zero, suc, ◌+◌, ◌^◌, ◌≤◌, ◌<◌, ◌≡◌, refl, sym, ap, subst, ◌∙◌, true, false, List, [], ◌∷◌,
  arith, ◌==◌, ltb, if◌then◌else◌, Bool-cases, inl, inr, ◌↔◌, length,
}
use moonlight_common_c.Seq.{u16}
use moonlight_common_c.RtpVideoQueue.State.{Entry, seq_of}
use moonlight_common_c.RtpVideoQueue.Insert.{has_seq}
use moonlight_common_c.RtpVideoQueue.Recover.{is_missing}
use moonlight_common_c.Seq.Offset.{offset, offset_inj, u16-offset}
use moonlight_common_c.RtpVideoQueue.Inv.{AllInBlock, Distinct}
use moonlight_common_c.RtpVideoQueue.StageTotal.{has_data}
use moonlight_common_c.RtpVideoQueue.StageOrder.{data_only, Covers}

module _ (lowest : ℕ) where
  -- How many entries lie before offset `k`, and how many at it.
  below : ℕ → List Entry → ℕ
  below k [] = 0
  below k (e ∷ es) = (if ltb (offset lowest (seq_of e)) k then 1 else 0) + below k es

  at_offset : ℕ → List Entry → ℕ
  at_offset k [] = 0
  at_offset k (e ∷ es) = (if offset lowest (seq_of e) == k then 1 else 0) + at_offset k es

  below-suc : (k : ℕ) (es : List Entry) → below (suc k) es ≡ below k es + at_offset k es
  unfolding below at_offset
  below-suc k [] = omega arith
  below-suc k (e ∷ es) = ground (arith, below-suc k es)

  below-zero : (es : List Entry) → below 0 es ≡ 0
  unfolding below
  below-zero [] = refl
  below-zero (e ∷ es) = ground (arith, below-zero es)

  at_offset-missing : (k : ℕ) (es : List Entry) → is_missing lowest k es ≡ true → at_offset k es ≡ 0
  unfolding at_offset is_missing
  at_offset-missing k [] h = refl
  at_offset-missing k (e ∷ es) h = ground (arith, at_offset-missing k es)

  at_offset-present :
      (k : ℕ) (es : List Entry) → is_missing lowest k es ≡ false → 0 < at_offset k es
  unfolding at_offset is_missing
  at_offset-present k [] h = cc
  at_offset-present k (e ∷ es) h = ground (arith, at_offset-present k es)

  -- Another entry at the same offset would have the same number.
  missing_of_new :
      (d n s k : ℕ) (es : List Entry)
      → lowest < 2 ^ 16
      → s < 2 ^ 16
      → AllInBlock lowest d n es
      → has_seq s es ≡ false
      → offset lowest s ≡ k
      → is_missing lowest k es ≡ true
  unfolding has_seq is_missing
  missing_of_new d n s k [] hl hs b new at = refl
  missing_of_new d n s k (e ∷ es) hl hs b new at =
      ground (
        arith,
        missing_of_new d n s k es hl hs b.1,
        offset_inj lowest s (seq_of e) hl hs b.0.number,
      )

  at_offset-le :
      (d n k : ℕ) (es : List Entry)
      → lowest < 2 ^ 16
      → AllInBlock lowest d n es
      → Distinct es
      → at_offset k es ≤ 1
  unfolding at_offset
  at_offset-le d n k [] hl b h = omega arith
  at_offset-le d n k (e ∷ es) hl b h = ground (
    arith,
    at_offset-le d n k es hl b.1 h.1,
    at_offset-missing k es,
    missing_of_new d n (seq_of e) k es hl b.0.number b.1 h.0,
  )

  module _ (d n : ℕ) (es : List Entry) (low : lowest < 2 ^ 16) (block : AllInBlock lowest d n es)
      (apart : Distinct es) where
    below-le : (k : ℕ) → below k es ≤ k
    below-le zero = omega (arith, below-zero es)
    below-le (suc k) =
        omega (arith, below-le k, below-suc k es, at_offset-le d n k es low block apart)

    -- If as many entries lie before `k` as there are offsets, none of these is missing.
    present_of_full : (k j : ℕ) → k ≤ below k es → j < k → is_missing lowest j es ≡ false
    present_of_full zero j full h = elim h [ ]
    present_of_full (suc k) j full h = elim (Bool-cases (is_missing lowest j es)) [
      | inr there ↦ there
      | inl missing ↦
          let here = at_offset-missing j es missing in
          let before : k ≤ below k es =
            omega (arith, below-suc k es, at_offset-le d n k es low block apart) in
          elim (Bool-cases (j == k)) [
            | inl last ↦
                let at : j ≡ k = ground arith in
                absurd
                  (omega (arith, below-suc k es, below-le k, here, ap (λ i. at_offset i es) at))
            | inr other ↦ present_of_full k j before (ground arith)
          ]
    ]

    full_of_present : (k : ℕ) → ((j : ℕ) → j < k → is_missing lowest j es ≡ false) → below k es ≡ k
    full_of_present zero h = below-zero es
    full_of_present (suc k) h = omega (
      arith,
      below-suc k es,
      full_of_present k (λ j i. h j (omega arith)),
      at_offset-le d n k es low block apart,
      at_offset-present k es (h k (omega arith)),
    )

  data_only-below :
      (d n : ℕ) (es : List Entry) → AllInBlock lowest d n es → length (data_only es) ≡ below d es
  unfolding data_only below
  data_only-below d n [] b = refl
  data_only-below d n (e ∷ es) b = ground (arith, data_only-below d n es b.1, b.0.parity)

  has_data_of_present :
      (d n i : ℕ) (es : List Entry)
      → lowest < 2 ^ 16
      → AllInBlock lowest d n es
      → i < d
      → is_missing lowest i es ≡ false
      → has_data (u16 (lowest + i)) es ≡ true
  unfolding is_missing has_data
  has_data_of_present d n i [] hl b h there = cc
  has_data_of_present d n i (e ∷ es) hl b h there = ground (
    arith,
    has_data_of_present d n i es hl b.1 h,
    b.0.parity,
    u16-offset lowest (seq_of e) hl b.0.number,
  )

  covered_of_present :
      (d n j m : ℕ) (es : List Entry)
      → lowest < 2 ^ 16
      → AllInBlock lowest d n es
      → j + m ≡ d
      → ((i : ℕ) → i < d → is_missing lowest i es ≡ false)
      → Covers (u16 (lowest + j)) m es
  covered_of_present d n j zero es hl b e h = tt
  covered_of_present d n j (suc m) es hl b e h =
      let step : u16 (u16 (lowest + j) + 1) ≡ u16 (lowest + suc j) = omega arith in
      (
        has_data_of_present d n j es hl b (omega arith) (h j (omega arith)),
        subst (λ k. Covers k m es) (sym step)
            (covered_of_present d n (suc j) m es hl b (omega arith) h),
      )

-- No data packet of the block is missing.
abbrev pub IsWhole : ℕ → ℕ → List Entry → Type 0
IsWhole lowest d es = (i : ℕ) → i < d → is_missing lowest i es ≡ false

-- The data packets of an open block are at most as many as the block has, and they are as many
-- exactly if none is missing.
pub complete_iff :
    (lowest d n : ℕ) (es : List Entry)
    → lowest < 2 ^ 16
    → AllInBlock lowest d n es
    → Distinct es
    → (length (data_only es) ≤ d) × ((length (data_only es) ≡ d) ↔ IsWhole lowest d es)
complete_iff lowest d n es hl b apart =
    let count = data_only-below lowest d n es b in
    (
      omega (arith, count, below-le lowest d n es hl b apart d),
      (
        λ e i h. present_of_full lowest d n es hl b apart d i (omega (arith, count)) h,
        λ h. count ∙ full_of_present lowest d n es hl b apart d h,
      ),
    )

pub IsWhole-Covers :
    (lowest d n : ℕ) (es : List Entry)
    → lowest < 2 ^ 16
    → AllInBlock lowest d n es
    → IsWhole lowest d es
    → Covers lowest d es
IsWhole-Covers lowest d n es hl b h =
    let start : u16 (lowest + 0) ≡ lowest = omega arith in
    subst (λ k. Covers k d es) start (covered_of_present lowest d n 0 d es hl b (omega arith) h)

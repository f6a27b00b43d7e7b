-- ===== src/RtpAudioQueue/Blocks.antt =====
-- The list of FEC blocks of RtpAudioQueue.c: what the search finds, and that the list stays in order
-- when a block is written to or a new one is linked in.
use moonlight_common_c.Prelude.{
  ℕ, zero, suc, ◌+◌, ◌≤◌, ◌<◌, ◌≡◌, refl, sym, ap, ◌∙◌, subst, some, List, [], ◌∷◌, arith, ◌==◌,
  Bool-cases, inl, inr,
}
use moonlight_common_c.Seq.{is_before16}
use moonlight_common_c.Seq.Offset.{offset}
use moonlight_common_c.RtpAudioQueue.State.{FecBlock, update, block_at, insert_at}
use moonlight_common_c.RtpAudioQueue.Admit.{Place, found, absent, one_later, find_block}
use moonlight_common_c.RtpAudioQueue.Inv.{IsBlock, IsWaiting, IsTail, IsList, NoZero}

-- A write to block `b` that gives `c` and concerns its shards only.
pub record IsWrite (b c : FecBlock) : Type 0 where
  pub same_base : c.fec.base ≡ b.fec.base
  pub same_index : c.next_index ≡ b.next_index
  pub same_order : c.allow_discontinuity ≡ b.allow_discontinuity
  pub kept : IsBlock b → IsBlock c

block_at-tail :
    (i : ℕ) (bs : List FecBlock) (oldest from : ℕ) (b : FecBlock)
    → IsTail oldest from bs
    → block_at i bs ≡ some b
    → IsBlock b
block_at-tail i [] oldest from b t e = absurd (cc e)
block_at-tail zero (c ∷ bs) oldest from b (block, _, _, _, _) e = subst IsBlock (cc e) block
block_at-tail (suc i) (c ∷ bs) oldest from b (_, _, _, _, t) e = block_at-tail i bs oldest _ b t e

pub block_at-IsBlock :
    (i : ℕ) (bs : List FecBlock) (oldest next : ℕ) (b : FecBlock)
    → IsList oldest next bs
    → block_at i bs ≡ some b
    → IsBlock b
block_at-IsBlock i [] oldest next b l e = absurd (cc e)
block_at-IsBlock zero (c ∷ bs) oldest next b (front, _) e = subst IsBlock (cc e) front.is_block
block_at-IsBlock (suc i) (c ∷ bs) oldest next b (_, t) e = block_at-tail i bs oldest _ b t e

-- What the search promises of the place it returns.
abbrev pub IsPlace : ℕ → List FecBlock → Place → Type 0
IsPlace base bs (found i b) = (block_at i bs ≡ some b) × (b.fec.base ≡ base)
IsPlace base bs (absent i) = (b : FecBlock) → block_at i (insert_at i b bs) ≡ some b

IsPlace-later :
    (base : ℕ) (c : FecBlock) (bs : List FecBlock) (place : Place)
    → IsPlace base bs place
    → IsPlace base (c ∷ bs) (one_later place)
IsPlace-later base c bs (found i b) h = h
IsPlace-later base c bs (absent i) h = h

pub find_block-IsPlace : (base : ℕ) (bs : List FecBlock) → IsPlace base bs (find_block base bs)
unfolding find_block
find_block-IsPlace base [] = λ b. refl
find_block-IsPlace base (c ∷ bs) =
    let later = IsPlace-later base c bs _ (find_block-IsPlace base bs) in
    elim (Bool-cases (c.fec.base == base)) [
      | inl here ↦ rw here (refl, ground arith)
      | inr other ↦ elim (Bool-cases (is_before16 base c.fec.base)) [
        | inl before ↦ rw (other, before) (λ b. refl)
        | inr behind ↦ rw (other, behind) later
      ]
    ]

-- A write to the block at place `i`, whatever block that is.
abbrev pub IsWriteAt : ℕ → List FecBlock → (FecBlock → FecBlock) → Type 0
IsWriteAt i bs f = (b : FecBlock) → block_at i bs ≡ some b → IsWrite b (f b)

IsWaiting-write : (b c : FecBlock) → IsWrite b c → IsWaiting b → IsWaiting c
IsWaiting-write b c w h = record {
  untouched = w.same_index ∙ h.untouched;
  in_order = w.same_order ∙ h.in_order;
}

module _ (f : FecBlock → FecBlock) (oldest : ℕ) where
  update-IsTail :
      (i : ℕ) (bs : List FecBlock) (from : ℕ)
      → IsWriteAt i bs f
      → IsTail oldest from bs
      → IsTail oldest from (update i f bs)
  update-IsTail i [] from w t = tt
  update-IsTail zero (c ∷ bs) from w (block, waiting, low, near, t) =
      let wc = w c refl in
      let same = ap (offset oldest) (sym wc.same_base) in
      (
        wc.kept block,
        IsWaiting-write c (f c) wc waiting,
        subst (λ o. from ≤ o) same low,
        subst (λ o. o < 0x8000) same near,
        subst (λ o. IsTail oldest (o + 4) bs) same t,
      )
  update-IsTail (suc i) (c ∷ bs) from w (block, waiting, low, near, t) =
      (block, waiting, low, near, update-IsTail i bs _ w t)

  pub update-IsList :
      (next i : ℕ) (bs : List FecBlock)
      → IsWriteAt i bs f
      → IsList oldest next bs
      → IsList oldest next (update i f bs)
  update-IsList next i [] w l = l
  update-IsList next zero (c ∷ bs) w (front, t) =
      let wc = w c refl in
      let same = ap (offset oldest) (sym wc.same_base) in
      (
        record {
          is_block = wc.kept front.is_block;
          near = subst (λ o. o < 0x8000) same front.near;
          current = λ e. wc.same_index ∙ front.current (sym wc.same_base ∙ e);
          ahead = λ ne.
              let (due, waiting) = front.ahead (λ e. ne (wc.same_base ∙ e)) in
              (due, IsWaiting-write c (f c) wc waiting);
        },
        subst (λ o. IsTail oldest (o + 4) bs) same t,
      )
  update-IsList next (suc i) (c ∷ bs) w (front, t) = (front, update-IsTail i bs _ w t)

  pub update-NoZero :
      (i : ℕ) (bs : List FecBlock) → IsWriteAt i bs f → NoZero bs → NoZero (update i f bs)
  update-NoZero i [] w h = tt
  update-NoZero zero (c ∷ bs) w (ne, h) = ((λ e. ne (sym (w c refl).same_base ∙ e)), h)
  update-NoZero (suc i) (c ∷ bs) w (ne, h) = (ne, update-NoZero i bs w h)

  pub update-block_at :
      (i : ℕ) (bs : List FecBlock) (b : FecBlock)
      → block_at i bs ≡ some b
      → block_at i (update i f bs) ≡ some (f b)
  update-block_at i [] b e = absurd (cc e)
  update-block_at zero (c ∷ bs) b e = cc e
  update-block_at (suc i) (c ∷ bs) b e = update-block_at i bs b e

-- ===== src/RtpAudioQueue/Link.antt =====
-- The list of FEC blocks of RtpAudioQueue.c: a new block is linked in where the search stopped, and
-- offsets are counted anew when the oldest number moves on.
use moonlight_common_c.Prelude.{
  ℕ, zero, suc, ◌+◌, ◌-◌, ◌%◌, ◌^◌, ◌≤◌, ◌<◌, ◌≡◌, ◌≢◌, refl, ◌∙◌, subst, true, false, List, [],
  ◌∷◌, arith, ◌==◌, Bool-cases, inl, inr,
}
use moonlight_common_c.Seq.{u16, is_before16}
use moonlight_common_c.Seq.Offset.{offset}
use moonlight_common_c.RtpAudioQueue.State.{FecBlock, insert_at}
use moonlight_common_c.RtpAudioQueue.Admit.{Place, found, absent, one_later, find_block}
use moonlight_common_c.RtpAudioQueue.Inv.{IsBlock, IsWaiting, IsFront, IsTail, IsList, NoZero}

-- Two multiples of four in the window: what the two tests of the search say of their offsets.
before_lem :
    (oldest x y : ℕ)
    → oldest < 2 ^ 16
    → x < 2 ^ 16
    → y < 2 ^ 16
    → oldest % 4 ≡ 0
    → x % 4 ≡ 0
    → y % 4 ≡ 0
    → offset oldest x < 0x8000
    → offset oldest y < 0x8000
    → is_before16 x y ≡ true
    → offset oldest x + 4 ≤ offset oldest y
unfolding is_before16
before_lem oldest x y ho hx hy ao ax ay nx ny e = ground arith

behind_lem :
    (oldest x y : ℕ)
    → oldest < 2 ^ 16
    → x < 2 ^ 16
    → y < 2 ^ 16
    → oldest % 4 ≡ 0
    → x % 4 ≡ 0
    → y % 4 ≡ 0
    → offset oldest x < 0x8000
    → offset oldest y < 0x8000
    → (y == x) ≡ false
    → is_before16 x y ≡ false
    → offset oldest y + 4 ≤ offset oldest x
unfolding is_before16
behind_lem oldest x y ho hx hy ao ax ay nx ny ne e = ground arith

-- A block finds its place in a list that belongs behind the offset `from`, and in the whole list.
abbrev LinksAt : ℕ → FecBlock → ℕ → List FecBlock → Place → Type 0
LinksAt oldest b from bs (found i c) = Unit {0}
LinksAt oldest b from bs (absent i) = IsTail oldest from (insert_at i b bs)

abbrev pub LinksIn : ℕ → FecBlock → ℕ → List FecBlock → Place → Type 0
LinksIn oldest b next bs (found i c) = Unit {0}
LinksIn oldest b next bs (absent i) = IsList oldest next (insert_at i b bs)

module _ (oldest : ℕ) (ho : oldest < 2 ^ 16) (ao : oldest % 4 ≡ 0) (b : FecBlock)
    (block : IsBlock b) (waiting : IsWaiting b) (near : offset oldest b.fec.base < 0x8000) where
  LinksAt-later :
      (from : ℕ) (c : FecBlock) (bs : List FecBlock) (place : Place)
      → IsTail oldest from (c ∷ bs)
      → LinksAt oldest b (offset oldest c.fec.base + 4) bs place
      → LinksAt oldest b from (c ∷ bs) (one_later place)
  LinksAt-later from c bs (found i d) t h = tt
  LinksAt-later from c bs (absent i) (cb, cw, low, cn, t) h = (cb, cw, low, cn, h)

  find_block-IsTail :
      (from : ℕ) (bs : List FecBlock)
      → IsTail oldest from bs
      → from ≤ offset oldest b.fec.base
      → LinksAt oldest b from bs (find_block b.fec.base bs)
  unfolding find_block
  find_block-IsTail from [] t low = (block, waiting, low, near, tt)
  find_block-IsTail from (c ∷ bs) t low =
      let (cb, cw, cl, cn, rest) = t in
      elim (Bool-cases (c.fec.base == b.fec.base)) [
        | inl here ↦ rw here tt
        | inr other ↦ elim (Bool-cases (is_before16 b.fec.base c.fec.base)) [
          | inl before ↦
              let gap =
                before_lem oldest _ _ ho block.bound cb.bound ao block.aligned cb.aligned near cn
                  before in
              rw (other, before) (block, waiting, low, near, (cb, cw, gap, cn, rest))
          | inr behind ↦
              let gap =
                behind_lem oldest _ _ ho block.bound cb.bound ao block.aligned cb.aligned near cn
                  other behind in
              rw (other, behind)
                (LinksAt-later from c bs _ t
                  (find_block-IsTail (offset oldest c.fec.base + 4) bs rest gap))
        ]
      ]

  first-IsFront : (next : ℕ) → next ≡ oldest → IsFront oldest next b
  first-IsFront next due = record {
    is_block = block;
    near = near;
    current = λ _. waiting.untouched ∙ omega arith;
    ahead = λ _. (due, waiting);
  }

  LinksIn-later :
      (next : ℕ) (c : FecBlock) (bs : List FecBlock) (place : Place)
      → IsFront oldest next c
      → LinksAt oldest b (offset oldest c.fec.base + 4) bs place
      → LinksIn oldest b next (c ∷ bs) (one_later place)
  LinksIn-later next c bs (found i d) front h = tt
  LinksIn-later next c bs (absent i) front h = (front, h)

  -- The list stays in order when the block joins it where the search stopped.
  pub find_block-IsList :
      (next : ℕ) (bs : List FecBlock)
      → IsList oldest next bs
      → LinksIn oldest b next bs (find_block b.fec.base bs)
  unfolding find_block
  find_block-IsList next [] due = (first-IsFront next due, tt)
  find_block-IsList next (c ∷ bs) l =
      let (front, rest) = l in
      let cb = front.is_block in
      elim (Bool-cases (c.fec.base == b.fec.base)) [
        | inl here ↦ rw here tt
        | inr other ↦ elim (Bool-cases (is_before16 b.fec.base c.fec.base)) [
          | inl before ↦
              let gap =
                before_lem oldest _ _ ho block.bound cb.bound ao block.aligned cb.aligned near
                  front.near before in
              let (due, cw) = front.ahead (λ e. omega arith) in
              rw (other, before) (first-IsFront next due, (cb, cw, gap, front.near, rest))
          | inr behind ↦
              let gap =
                behind_lem oldest _ _ ho block.bound cb.bound ao block.aligned cb.aligned near
                  front.near other behind in
              rw (other, behind)
                (LinksIn-later next c bs _ front
                  (find_block-IsTail (offset oldest c.fec.base + 4) bs rest gap))
        ]
      ]

pub insert_at-NoZero :
    (i : ℕ) (b : FecBlock) (bs : List FecBlock)
    → b.fec.base ≢ 0
    → NoZero bs
    → NoZero (insert_at i b bs)
insert_at-NoZero i b [] ne h = (ne, tt)
insert_at-NoZero zero b (c ∷ bs) ne h = (ne, h)
insert_at-NoZero (suc i) b (c ∷ bs) ne (nc, h) = (nc, insert_at-NoZero i b bs ne h)

-- Offsets counted from a number `d` further on.
IsTail-shift :
    (oldest oldest' d from : ℕ) (bs : List FecBlock)
    → oldest < 2 ^ 16
    → oldest' ≡ u16 (oldest + d)
    → d ≤ from
    → IsTail oldest from bs
    → IsTail oldest' (from - d) bs
IsTail-shift oldest oldest' d from [] ho e hd t = tt
IsTail-shift oldest oldest' d from (c ∷ bs) ho e hd (cb, cw, low, cn, t) =
    let rest =
      IsTail-shift oldest oldest' d (offset oldest c.fec.base + 4) bs ho e (omega arith) t in
    let bound = cb.bound in
    let moved : offset oldest' c.fec.base ≡ offset oldest c.fec.base - d = omega arith in
    (cb, cw, omega arith, omega arith, subst (λ o. IsTail oldest' o bs) (omega arith) rest)

-- Once the head is gone, the next number is the oldest one.
IsTail-IsList : (oldest : ℕ) (bs : List FecBlock) → IsTail oldest 0 bs → IsList oldest oldest bs
IsTail-IsList oldest [] t = refl
IsTail-IsList oldest (c ∷ bs) (cb, cw, low, cn, t) = (
  record {
    is_block = cb;
    near = cn;
    current = λ _. cw.untouched ∙ omega arith;
    ahead = λ _. (refl, cw);
  },
  t,
)

-- The list behind a head that is done.
pub free_head-IsList :
    (oldest base : ℕ) (bs : List FecBlock)
    → oldest < 2 ^ 16
    → base < 2 ^ 16
    → IsTail oldest (offset oldest base + 4) bs
    → IsList (u16 (base + 4)) (u16 (base + 4)) bs
free_head-IsList oldest base bs ho hb t =
    let rest =
      IsTail-shift oldest (u16 (base + 4)) (offset oldest base + 4) _ bs ho (omega arith)
        (omega arith) t in
    IsTail-IsList _ bs (subst (λ o. IsTail (u16 (base + 4)) o bs) (omega arith) rest)

-- The list when the oldest number moves on to the head.
pub resume-IsList :
    (oldest next : ℕ) (b : FecBlock) (bs : List FecBlock)
    → oldest < 2 ^ 16
    → b.fec.base ≢ oldest
    → IsList oldest next (b ∷ bs)
    → IsList b.fec.base b.fec.base (b ∷ bs)
resume-IsList oldest next b bs ho ne (front, t) =
    let bound = front.is_block.bound in
    let (due, waiting) = front.ahead ne in
    let rest =
      IsTail-shift oldest b.fec.base (offset oldest b.fec.base) _ bs ho (omega arith) (omega arith)
        t in
    (
      record {
        is_block = front.is_block;
        near = omega arith;
        current = λ _. waiting.untouched ∙ omega arith;
        ahead = λ no. absurd (no refl);
      },
      subst (λ o. IsTail b.fec.base o bs) (omega arith) rest,
    )

-- ===== src/RtpVideoQueue/Requeue.antt =====
-- The recovery of reconstructFrame: the packets that the decoder gives back join the pending block
-- as received ones do, and a recovery that reports success leaves no data packet missing.
use moonlight_common_c.Prelude.{
  ℕ, ◌+◌, ◌^◌, ◌≤◌, ◌<◌, ◌≡◌, refl, sym, ap, subst, ◌∙◌, Bool, true, false, not, ◌&&◌, List, [],
  ◌∷◌, ◌++◌, arith, ◌==◌, ltb, if◌then◌else◌, Bool-cases, inl, inr, length,
}
use moonlight_common_c.Seq.{u16}
use moonlight_common_c.RtpVideoQueue.State.{NvPacket, Packet, Entry, seq_of, Queue}
use moonlight_common_c.RtpVideoQueue.Insert.{has_seq, new_entry, queue_packet}
use moonlight_common_c.RtpVideoQueue.Recover.{is_missing, recovered_packet}
use moonlight_common_c.Seq.Offset.{offset}
use moonlight_common_c.RtpVideoQueue.StageOrder.{data_only}
use moonlight_common_c.RtpVideoQueue.Inv.{Block, window, queue_packet-Block}

-- The fields that inserting a recovered packet can change.
abbrev pub with_pending : Queue → Queue → Queue
with_pending q r = record q {
  pending = r.pending;
  next_contiguous = r.next_contiguous;
  use_fast_path = r.use_fast_path;
}

queue_packet-keeps :
    (q : Queue) (p : Packet) (len : ℕ) (parity : Bool)
    → (queue_packet q p len parity true).0 ≡ with_pending q (queue_packet q p len parity true).0
unfolding queue_packet
queue_packet-keeps q p len parity = ground arith

is_missing-snoc :
    (lowest i : ℕ) (es : List Entry) (e : Entry)
    → is_missing lowest i (es ++ e ∷ [])
      ≡ (is_missing lowest i es && not (offset lowest (seq_of e) == i))
unfolding is_missing
is_missing-snoc lowest i [] e = ground arith
is_missing-snoc lowest i (x ∷ es) e = ground (arith, is_missing-snoc lowest i es e)

present_of_has_seq :
    (lowest s : ℕ) (es : List Entry)
    → has_seq s es ≡ true
    → is_missing lowest (offset lowest s) es ≡ false
unfolding has_seq is_missing
present_of_has_seq lowest s [] h = cc
present_of_has_seq lowest s (e ∷ es) h = elim (Bool-cases (s == seq_of e)) [
  | inl same ↦
      let at : s ≡ seq_of e = ground arith in
      let here : offset lowest (seq_of e) ≡ offset lowest s = sym (ap (offset lowest) at) in
      ground (arith, here)
  | inr other ↦ let rest = present_of_has_seq lowest s es (ground arith) in ground (arith, rest)
]

module _ (q : Queue) (p : Packet) (len : ℕ) (parity recovered : Bool) where
  -- After an insertion the packet's index is no longer missing, and no other becomes so.
  queue_packet-present :
      is_missing q.lowest
        (offset q.lowest p.sequence_number)
        (queue_packet q p len parity recovered).0.pending
      ≡ false
  unfolding queue_packet
  queue_packet-present = ground (
    arith,
    is_missing-snoc q.lowest (offset q.lowest p.sequence_number) q.pending (new_entry p len parity),
    present_of_has_seq q.lowest p.sequence_number q.pending,
  )

  queue_packet-monotone :
      (j : ℕ)
      → is_missing q.lowest j q.pending ≡ false
      → is_missing q.lowest j (queue_packet q p len parity recovered).0.pending ≡ false
  unfolding queue_packet
  queue_packet-monotone j h =
      ground (arith, is_missing-snoc q.lowest j q.pending (new_entry p len parity))

pub data_only-snoc :
    (es : List Entry) (e : Entry)
    → length (data_only (es ++ e ∷ [])) ≡ length (data_only es) + (if e.is_parity then 0 else 1)
unfolding data_only
data_only-snoc [] e = ground arith
data_only-snoc (x ∷ es) e = ground (arith, data_only-snoc es e)

queue_packet-more :
    (q : Queue) (p : Packet) (len : ℕ) (parity recovered : Bool)
    → length (data_only q.pending)
      ≤ length (data_only (queue_packet q p len parity recovered).0.pending)
unfolding queue_packet
queue_packet-more q p len parity recovered =
    ground (arith, data_only-snoc q.pending (new_entry p len parity))

-- What inserting recovered packets does to a queue: the block grows, and all else stays.
pub record Grows (q r : Queue) : Type 0 where
  pub block : Block (window r)
  pub same : r ≡ with_pending q r
  pub keeps :
      (j : ℕ) → is_missing q.lowest j q.pending ≡ false → is_missing q.lowest j r.pending ≡ false
  pub more : length (data_only q.pending) ≤ length (data_only r.pending)

pub Grows-refl : (q : Queue) → Block (window q) → Grows q q
Grows-refl q b = record { block = b; same = refl; keeps = λ j h. h; more = omega arith }

pub Grows-trans : (q r t : Queue) → Grows q r → Grows r t → Grows q t
Grows-trans q r t g h = record {
  block = h.block;
  same = h.same ∙ ap (λ z. with_pending z t) g.same;
  more = omega (arith, g.more, h.more);
  keeps = λ j e.
      let low : r.lowest ≡ q.lowest = ap (λ z. z.lowest) g.same in
      subst (λ l. is_missing l j t.pending ≡ false) low
        (h.keeps j (subst (λ l. is_missing l j r.pending ≡ false) (sym low) (g.keeps j e)));
}

pub recovered_number :
    (q : Queue) (es : List Entry) (i : ℕ) (nv : NvPacket) (body : ℕ)
    → (recovered_packet q es i nv body).sequence_number ≡ u16 (i + q.lowest)
unfolding recovered_packet
recovered_number q [] i nv body = refl
recovered_number q (e ∷ es) i nv body = refl

pub queue_recovered :
    (q : Queue) (p : Packet) (len i : ℕ)
    → Block (window q)
    → p.sequence_number ≡ u16 (i + q.lowest)
    → i < q.data_packets
    → let r = (queue_packet q p len false true).0 in
      Grows q r × (is_missing q.lowest i r.pending ≡ false)
queue_recovered q p len i b at less =
    let number : p.sequence_number < 2 ^ 16 = omega (arith, at) in
    let here : offset q.lowest p.sequence_number ≡ i = omega (arith, at, b.low, b.small) in
    let unmarked : not (ltb (offset q.lowest p.sequence_number) q.data_packets) ≡ false =
      ground (arith, here) in
    let kept = queue_packet-Block q p len true b number (omega (arith, here)) in
    (
      record {
        block = subst (λ z. Block (window (queue_packet q p len z true).0)) unmarked (kept.0);
        same = queue_packet-keeps q p len false;
        keeps = queue_packet-monotone q p len false true;
        more = queue_packet-more q p len false true;
      },
      subst (λ j. is_missing q.lowest j (queue_packet q p len false true).0.pending ≡ false) here
          (queue_packet-present q p len false true),
    )

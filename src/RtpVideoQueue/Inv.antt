-- ===== src/RtpVideoQueue/Inv.antt =====
-- The invariant of the open FEC block: every pending packet lies in the block's window, none is there
-- twice, and parity is marked as such. queuePacket keeps it, on its fast path too.
use moonlight_common_c.Prelude.{
  ℕ, ◌+◌, ◌^◌, ◌≤◌, ◌<◌, ◌≡◌, ◌≢◌, refl, ap, Bool, true, false, not, ◌&&◌, ◌||◌, List, [], ◌∷◌,
  ◌++◌, arith, ltb, ◌==◌, Bool-cases, inl, inr,
}
use moonlight_common_c.Seq.{u16}
use moonlight_common_c.RtpVideoQueue.State.{Packet, Entry, seq_of, Queue}
use moonlight_common_c.RtpVideoQueue.Insert.{has_seq, new_entry, queue_packet}
use moonlight_common_c.Seq.Offset.{offset, next_offset}
use moonlight_common_c.RtpVideoQueue.Window.{max_packets}

-- One entry of a block of `n` packets, `d` of them data, from the number `lowest` on.
pub record InBlock (lowest d n : ℕ) (e : Entry) : Type 0 where
  pub number : seq_of e < 2 ^ 16
  pub inside : offset lowest (seq_of e) < n
  pub parity : e.is_parity ≡ not (ltb (offset lowest (seq_of e)) d)

abbrev pub AllInBlock : ℕ → ℕ → ℕ → List Entry → Type 0
AllInBlock lowest d n [] = Unit {0}
AllInBlock lowest d n (e ∷ es) = InBlock lowest d n e × AllInBlock lowest d n es

abbrev pub Distinct : List Entry → Type 0
Distinct [] = Unit {0}
Distinct (e ∷ es) = (has_seq (seq_of e) es ≡ false) × Distinct es

-- Every entry lies before offset `k`.
abbrev pub AllBelow : ℕ → ℕ → List Entry → Type 0
AllBelow lowest k [] = Unit {0}
AllBelow lowest k (e ∷ es) = (offset lowest (seq_of e) < k) × AllBelow lowest k es

-- What the invariant reads of a queue.
pub record Window : Type 0 where
  pub pending : List Entry
  pub lowest : ℕ
  pub data_packets : ℕ
  pub parity_packets : ℕ
  pub first_parity : ℕ
  pub highest : ℕ
  pub next_contiguous : ℕ
  pub use_fast_path : Bool

abbrev pub window : Queue → Window
window q = record {
  pending = q.pending;
  lowest = q.lowest;
  data_packets = q.data_packets;
  parity_packets = q.parity_packets;
  first_parity = q.first_parity;
  highest = q.highest;
  next_contiguous = q.next_contiguous;
  use_fast_path = q.use_fast_path;
}

abbrev pub total : Window → ℕ
total w = w.data_packets + w.parity_packets

-- The numbers that describe the open block agree, its pending packets are distinct packets of it,
-- and on the fast path they all lie before the next contiguous number.
pub record Block (w : Window) : Type 0 where
  pub low : w.lowest < 2 ^ 16
  pub small : total w ≤ max_packets
  pub parity_from : w.first_parity ≡ u16 (w.lowest + w.data_packets)
  pub high : w.highest ≡ u16 (w.lowest + total w + 0xffff)
  pub next : w.next_contiguous < 2 ^ 16
  pub next_in : offset w.lowest w.next_contiguous ≤ total w
  pub entries : AllInBlock w.lowest w.data_packets (total w) w.pending
  pub distinct : Distinct w.pending
  pub fast :
      w.use_fast_path ≡ true → AllBelow w.lowest (offset w.lowest w.next_contiguous) w.pending

pub has_seq-snoc :
    (s : ℕ) (es : List Entry) (e : Entry)
    → has_seq s (es ++ e ∷ []) ≡ (has_seq s es || s == seq_of e)
unfolding has_seq
has_seq-snoc s [] e = ground arith
has_seq-snoc s (x ∷ es) e = ground (arith, has_seq-snoc s es e)

AllInBlock-snoc :
    (lowest d n : ℕ) (es : List Entry) (e : Entry)
    → AllInBlock lowest d n es
    → InBlock lowest d n e
    → AllInBlock lowest d n (es ++ e ∷ [])
AllInBlock-snoc lowest d n [] e h i = (i, tt)
AllInBlock-snoc lowest d n (x ∷ es) e h i = (h.0, AllInBlock-snoc lowest d n es e h.1 i)

AllBelow-snoc :
    (lowest k j : ℕ) (es : List Entry) (e : Entry)
    → AllBelow lowest k es
    → k ≤ j
    → offset lowest (seq_of e) < j
    → AllBelow lowest j (es ++ e ∷ [])
AllBelow-snoc lowest k j [] e h le i = (i, tt)
AllBelow-snoc lowest k j (x ∷ es) e h le i =
    (omega (arith, h.0), AllBelow-snoc lowest k j es e h.1 le i)

Distinct-snoc :
    (es : List Entry) (e : Entry)
    → Distinct es
    → has_seq (seq_of e) es ≡ false
    → Distinct (es ++ e ∷ [])
unfolding has_seq
Distinct-snoc [] e h new = (refl, tt)
Distinct-snoc (x ∷ es) e h new =
    (ground (arith, has_seq-snoc (seq_of x) es e), Distinct-snoc es e h.1 (ground arith))

-- On the fast path the number is new, though nobody looks.
fast_path_new :
    (lowest k s : ℕ) (es : List Entry)
    → AllBelow lowest k es
    → k ≤ offset lowest s
    → has_seq s es ≡ false
unfolding has_seq
fast_path_new lowest k s [] h le = refl
fast_path_new lowest k s (e ∷ es) h le =
    let ne : s ≢ seq_of e = λ p. absurd (omega (arith, ap (offset lowest) p, h.0)) in
    ground (arith, fast_path_new lowest k s es h.1)

snoc-Block :
    (w : Window) (e : Entry) (n : ℕ) (quick : Bool)
    → Block w
    → InBlock w.lowest w.data_packets (total w) e
    → has_seq (seq_of e) w.pending ≡ false
    → n < 2 ^ 16
    → offset w.lowest n ≤ total w
    → (quick ≡ true → AllBelow w.lowest (offset w.lowest n) (w.pending ++ e ∷ []))
    → Block (record w { pending = w.pending ++ e ∷ []; next_contiguous = n; use_fast_path = quick })
snoc-Block w e n quick b i new hn hk below = record {
  low = b.low;
  small = b.small;
  parity_from = b.parity_from;
  high = b.high;
  next = hn;
  next_in = hk;
  entries = AllInBlock-snoc w.lowest w.data_packets (total w) w.pending e b.entries i;
  distinct = Distinct-snoc w.pending e b.distinct new;
  fast = below;
}

-- queuePacket keeps the invariant, for a packet of the block that is marked right. It accepts
-- the packet exactly if its number is not there yet.
pub queue_packet-Block :
    (q : Queue) (p : Packet) (len : ℕ) (recovered : Bool)
    → Block (window q)
    → p.sequence_number < 2 ^ 16
    → offset q.lowest p.sequence_number < q.data_packets + q.parity_packets
    → let parity = not (ltb (offset q.lowest p.sequence_number) q.data_packets) in
      let (r, fresh) = queue_packet q p len parity recovered in
      Block (window r) × (fresh ≡ not (has_seq p.sequence_number q.pending))
unfolding queue_packet
queue_packet-Block q p len recovered b number inside =
    elim (Bool-cases (q.use_fast_path && p.sequence_number == q.next_contiguous)) [
      | inl quick ↦
          let at : p.sequence_number ≡ q.next_contiguous = ground arith in
          let step : offset q.lowest (u16 (p.sequence_number + 1))
              ≡ offset q.lowest p.sequence_number + 1 =
            next_offset q.lowest p.sequence_number b.low number (omega (arith, b.small)) in
          let below = b.fast (ground arith) in
          let new =
            fast_path_new q.lowest _ p.sequence_number q.pending below
              (omega (arith, ap (offset q.lowest) at)) in
          rw (quick, new)
            (
              snoc-Block (window q) (e) (u16 (p.sequence_number + 1)) q.use_fast_path b i new
                  (omega arith) (omega (arith, step))
                  (λ _.
                    AllBelow-snoc q.lowest (offset q.lowest q.next_contiguous) _ q.pending e below
                      (omega (arith, step, ap (offset q.lowest) at)) (omega (arith, step))),
              refl,
            )
      | inr slow ↦ elim (Bool-cases (has_seq p.sequence_number q.pending)) [
        | inl old ↦ rw (slow, old) (b, refl)
        | inr new ↦
            rw (slow, new)
              (
                snoc-Block (window q) e q.next_contiguous false b i new b.next b.next_in (λ f. cc),
                refl,
              )
      ]
    ]
  where
    e : Entry
    e = new_entry p len (not (ltb (offset q.lowest p.sequence_number) q.data_packets))

    i : InBlock q.lowest q.data_packets (q.data_packets + q.parity_packets) e
    i = record { number = number; inside = inside; parity = refl }

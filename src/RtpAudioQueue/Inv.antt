-- ===== src/RtpAudioQueue/Inv.antt =====
-- The invariant of the audio queue, which validateFecBlockState of RtpAudioQueue.c tests in part: the
-- blocks are in order and start at multiples of four, and the number that is due next lies in the
-- first of them or stands right before all of them.
use moonlight_common_c.Prelude.{
  ℕ, zero, suc, ◌+◌, ◌%◌, ◌^◌, ◌≤◌, ◌<◌, ◌≡◌, ◌≢◌, Bool, true, false, List, [], ◌∷◌, if◌then◌else◌,
}
use moonlight_common_c.Seq.Offset.{offset}
use moonlight_common_c.RtpAudioQueue.State.{FecBlock, AudioQueue}

-- The number of data shards that the marks show as present.
abbrev pub present : (ℕ → Bool) → ℕ → ℕ
present marks zero = 0
present marks (suc n) = (if marks n then 0 else 1) + present marks n

abbrev pub fec_present : (ℕ → Bool) → ℕ
fec_present marks = (if marks 4 then 0 else 1) + (if marks 5 then 0 else 1)

-- A block that starts at a multiple of four. The data packets that are there carry the numbers of
-- their places. Until the block is reassembled the counters agree with the marks, then no data packet
-- is missing.
pub record IsBlock (b : FecBlock) : Type 0 where
  pub bound : b.fec.base < 2 ^ 16
  pub aligned : b.fec.base % 4 ≡ 0
  pub index : b.next_index < 4
  pub numbered :
      (i : ℕ) → i < 4 → b.marks i ≡ false → (b.data_packets i).sequence_number ≡ b.fec.base + i
  pub counted :
      b.fully_reassembled ≡ false
      → (b.data_received ≡ present b.marks 4) × (b.fec_received ≡ fec_present b.marks)
  pub whole : b.fully_reassembled ≡ true → (i : ℕ) → i < 4 → b.marks i ≡ false

-- A block of which nothing was handed out.
pub record IsWaiting (b : FecBlock) : Type 0 where
  pub untouched : b.next_index ≡ 0
  pub in_order : b.allow_discontinuity ≡ false

-- The block at the head: the one that the next number lies in, or a later one.
pub record IsFront (oldest next : ℕ) (b : FecBlock) : Type 0 where
  pub is_block : IsBlock b
  pub near : offset oldest b.fec.base < 0x8000
  pub current : b.fec.base ≡ oldest → b.next_index ≡ offset oldest next
  pub ahead : b.fec.base ≢ oldest → (next ≡ oldest) × IsWaiting b

-- The blocks behind it, each at least four numbers behind the one before.
abbrev pub IsTail : ℕ → ℕ → List FecBlock → Type 0
IsTail oldest from [] = Unit {0}
IsTail oldest from (b ∷ bs) =
    IsBlock b
    × IsWaiting b
    × (from ≤ offset oldest b.fec.base)
    × (offset oldest b.fec.base < 0x8000)
    × IsTail oldest (offset oldest b.fec.base + 4) bs

abbrev pub IsList : ℕ → ℕ → List FecBlock → Type 0
IsList oldest next [] = next ≡ oldest
IsList oldest next (b ∷ bs) =
    IsFront oldest next b × IsTail oldest (offset oldest b.fec.base + 4) bs

-- No block starts at number 0.
abbrev pub NoZero : List FecBlock → Type 0
NoZero [] = Unit {0}
NoZero (b ∷ bs) = (b.fec.base ≢ 0) × NoZero bs

abbrev pub IsSynced : Bool → ℕ → List FecBlock → Type 0
IsSynced synchronizing oldest bs = synchronizing ≡ true → NoZero bs × (oldest ≡ 0 → bs ≡ [])

-- What the invariant reads of a queue.
pub record Core : Type 0 where
  pub blocks : List FecBlock
  pub next_number : ℕ
  pub oldest_base : ℕ
  pub synchronizing : Bool

abbrev pub core : AudioQueue → Core
core q = record {
  blocks = q.blocks;
  next_number = q.next_number;
  oldest_base = q.oldest_base;
  synchronizing = q.synchronizing;
}

pub record IsSound (c : Core) : Type 0 where
  pub oldest_bound : c.oldest_base < 2 ^ 16
  pub oldest_aligned : c.oldest_base % 4 ≡ 0
  pub next_bound : c.next_number < 2 ^ 16
  pub near : offset c.oldest_base c.next_number < 4
  pub list : IsList c.oldest_base c.next_number c.blocks
  pub synced : IsSynced c.synchronizing c.oldest_base c.blocks

abbrev pub IsValid : AudioQueue → Type 0
IsValid q = IsSound (core q)

-- ===== src/RtpAudioQueue/Admitted.antt =====
-- getFecBlockForRtpPacket of RtpAudioQueue.c keeps the audio queue valid, and the block it returns is
-- the one that the packet belongs to.
use moonlight_common_c.Prelude.{
  ℕ, zero, suc, ◌+◌, ◌*◌, ◌/◌, ◌%◌, ◌^◌, ◌<◌, ◌≡◌, ◌≢◌, refl, sym, ap, ◌∙◌, subst, Bool, true,
  false, not, ◌&&◌, Option, none, some, List, [], ◌∷◌, arith, ltb, leb, ◌==◌, if◌then◌else◌,
  if_cases, byte_at,
}
use moonlight_common_c.Seq.{u16, is_before16}
use moonlight_common_c.Seq.Offset.{offset_near}
use moonlight_common_c.RtpAudioQueue.State.{
  RtpPacket, FecHeader, FecBlock, AudioQueue, AudioConfig, Env, payload_audio, payload_fec,
  block_at, insert_at, allocate_from, allocate_fec_block,
}
use moonlight_common_c.RtpAudioQueue.Admit.{
  count, note_sequence, read_fec_header, read_header, Place, found, absent, find_block, new_block,
  take_place, admit, get_fec_block, count_audio,
}
use moonlight_common_c.RtpAudioQueue.Inv.{IsBlock, IsList, NoZero, Core, core, IsSound, IsValid}
use moonlight_common_c.RtpAudioQueue.Blocks.{IsPlace, find_block-IsPlace}
use moonlight_common_c.RtpAudioQueue.Link.{LinksIn, find_block-IsList, insert_at-NoZero}

-- The first number of the block that a packet belongs to.
abbrev pub block_base : RtpPacket → ℕ
block_base p =
    if p.packet_type == payload_audio
    then p.sequence_number / 4 * 4
    else (read_fec_header p.body).base

-- A shard index that is below the number of FEC shards, if the packet has one.
abbrev pub HasIndex : RtpPacket → Type 0
HasIndex p = (p.packet_type == payload_audio) ≡ false → (read_fec_header p.body).shard_index < 2

-- The bytes in front of the shard in a packet.
abbrev pub overhead : RtpPacket → ℕ
overhead p = if p.packet_type == payload_audio then 12 else 24

abbrev IsHeader : RtpPacket → ℕ → Option (FecHeader × ℕ) → Type 0
IsHeader p len none = Unit {0}
IsHeader p len (some (h, size)) =
    (h.base ≡ block_base p)
    × (h.base < 2 ^ 16)
    × (h.base % 4 ≡ 0)
    × HasIndex p
    × (size + overhead p ≡ len)

core-note_sequence : (q : AudioQueue) (s : ℕ) → core (note_sequence q s) ≡ core q
unfolding note_sequence count
core-note_sequence q s =
    let P : AudioQueue → Type 0 = λ r. core r ≡ core q in
    if_cases P (not q.synchronizing && is_before16 s q.oldest_base) (λ _. refl)
      (λ _.
        if_cases P (q.received_oos && is_before16 q.oldest_base q.last_oos) (λ _. refl) (λ _. refl))

byte_at_lt : (xs : List ℕ) (i : ℕ) → byte_at xs i < 256
byte_at_lt [] i = omega arith
byte_at_lt (x ∷ xs) zero = omega arith
byte_at_lt (x ∷ xs) (suc i) = byte_at_lt xs i

read_fec_header-bound : (xs : List ℕ) → (read_fec_header xs).base < 2 ^ 16
unfolding read_fec_header
read_fec_header-bound xs = omega (arith, byte_at_lt xs 2, byte_at_lt xs 3)

IsRead : AudioQueue → RtpPacket → ℕ → AudioQueue × Option (FecHeader × ℕ) → Type 0
IsRead q p len (q', header) = (core q' ≡ core q) × IsHeader p len header

read_header_lem :
    (duration : ℕ) (q : AudioQueue) (p : RtpPacket) (len : ℕ)
    → p.sequence_number < 2 ^ 16
    → IsRead q p len (read_header duration q p len)
unfolding read_header IsRead
read_header_lem duration q p len hs =
    if_cases (IsRead q p len) (p.packet_type == payload_audio)
      (λ audio.
        if_cases (IsRead q p len) (ltb len 12) (λ _. (refl, tt))
          (λ big. (
            core-note_sequence (count count_audio q) p.sequence_number,
            (
              rw audio refl,
              ground arith,
              ground arith,
              λ no. absurd (cc (audio, no)),
              rw audio (ground arith),
            ),
          )))
      (λ other.
        if_cases (IsRead q p len) (p.packet_type == payload_fec)
          (λ _.
            if_cases (IsRead q p len) (ltb len 24) (λ _. (refl, tt))
              (λ big.
                if_cases (IsRead q p len) (leb 2 (read_fec_header p.body).shard_index)
                  (λ _. (refl, tt))
                  (λ inside.
                    if_cases (IsRead q p len) (not ((read_fec_header p.body).base % 4 == 0))
                      (λ _. (refl, tt))
                      (λ aligned. (
                        refl,
                        (
                          rw other refl,
                          read_fec_header-bound p.body,
                          ground arith,
                          λ no. ground arith,
                          rw other (ground arith),
                        ),
                      )))))
          (λ _. (refl, tt)))

core-allocate_from :
    (has_memory : Bool) (q : AudioQueue) (size : ℕ) (free : List ℕ)
    → core (allocate_from has_memory q size free).0 ≡ core q
core-allocate_from has_memory q size [] = refl
core-allocate_from has_memory q size (cached ∷ rest) =
    let P : AudioQueue × Bool → Type 0 = λ r. core r.0 ≡ core q in
    if_cases P (cached == size) (λ _. refl) (λ _. refl)

-- The queue and the place that getFecBlockForRtpPacket leaves: the block there is the packet's, and
-- not complete.
pub record IsChosen (p : RtpPacket) (len : ℕ) (q : AudioQueue) (i : ℕ) : Type 0 where
  pub valid : IsValid q
  pub block : FecBlock
  pub here : block_at i q.blocks ≡ some block
  pub base : block.fec.base ≡ block_base p
  pub undone : block.fully_reassembled ≡ false
  pub has_index : HasIndex p
  pub fits : block.block_size + overhead p ≡ len

abbrev pub IsAdmitted : RtpPacket → ℕ → AudioQueue × Option ℕ → Type 0
IsAdmitted p len (q, none) = IsValid q
IsAdmitted p len (q, some i) = IsChosen p len q i

new_block-IsBlock :
    (h : FecHeader) (size now : ℕ)
    → h.base < 2 ^ 16
    → h.base % 4 ≡ 0
    → IsBlock (new_block h size now)
unfolding new_block
new_block-IsBlock h size now bound aligned = record {
  bound = bound;
  aligned = aligned;
  index = omega arith;
  numbered = λ i hi there. absurd (cc there);
  counted = λ _. (refl, refl);
  whole = λ full. absurd (cc full);
}

same_size : (m n : ℕ) → not (m == n) ≡ false → m ≡ n
same_size m n h = ground arith

-- A block is linked in.
linked-IsSound :
    (c : Core) (i : ℕ) (b : FecBlock)
    → IsSound c
    → IsList c.oldest_base c.next_number (insert_at i b c.blocks)
    → (c.synchronizing ≡ true → (b.fec.base ≢ 0) × (c.oldest_base ≢ 0))
    → IsSound (record c { blocks = insert_at i b c.blocks })
linked-IsSound c i b sound list nonzero = record {
  oldest_bound = sound.oldest_bound;
  oldest_aligned = sound.oldest_aligned;
  next_bound = sound.next_bound;
  near = sound.near;
  list = list;
  synced = λ sync.
      let (nz, oz) = nonzero sync in
      (insert_at-NoZero i b c.blocks nz (sound.synced sync).0, λ zero. absurd (oz zero));
}

-- The numbers are set to the start of a block.
started-IsSound :
    (c : Core) (n : ℕ)
    → c.blocks ≡ []
    → n < 2 ^ 16
    → n % 4 ≡ 0
    → IsSound (record c { next_number = n; oldest_base = n })
started-IsSound c n empty bound aligned = record {
  oldest_bound = bound;
  oldest_aligned = aligned;
  next_bound = bound;
  near = omega arith;
  list = subst (IsList n n) (sym empty) refl;
  synced = λ _. (subst NoZero (sym empty) tt, λ _. empty);
}

module _ (env : Env) (p : RtpPacket) (q : AudioQueue) (valid : IsValid q) (h : FecHeader) where
  take_place-IsAdmitted :
      (size len : ℕ) (place : Place)
      → h.base ≡ block_base p
      → HasIndex p
      → size + overhead p ≡ len
      → (q.synchronizing ≡ true → (h.base ≢ 0) × (q.oldest_base ≢ 0))
      → IsPlace h.base q.blocks place
      → LinksIn q.oldest_base (new_block h size env.now_new) q.next_number q.blocks place
      → IsAdmitted p len (take_place env q h size place)
  unfolding take_place count
  take_place-IsAdmitted size len (found i b) base has fits nonzero (at, same) links =
      if_cases (IsAdmitted p len) (not (b.block_size == size)) (λ _. valid)
        (λ sized.
          if_cases (IsAdmitted p len) b.fully_reassembled (λ _. valid)
            (λ undone. record {
              valid = valid;
              block = b;
              here = at;
              base = same ∙ base;
              undone = undone;
              has_index = has;
              fits = omega (arith, same_size b.block_size size sized, fits);
            }))
  take_place-IsAdmitted size len (absent i) base has fits nonzero at links =
      let new = new_block h size env.now_new in
      let r = allocate_fec_block env.has_memory q size in
      let same = core-allocate_from env.has_memory q size q.free_blocks in
      let link : Core → Core = λ c. record c { blocks = insert_at i new c.blocks } in
      if_cases (IsAdmitted p len) r.1
        (λ _. record {
          valid =
              subst IsSound (ap link (sym same))
                (linked-IsSound (core q) i new valid links nonzero);
          block = new;
          here = ap (λ c. block_at i (insert_at i new c.blocks)) same ∙ at new;
          base = base;
          undone = refl;
          has_index = has;
          fits = fits;
        })
        (λ _. subst IsSound (sym same) valid)

  admit-IsAdmitted :
      (size len : ℕ)
      → IsHeader p len (some (h, size))
      → (q.synchronizing ≡ true → block_base p ≢ 0)
      → IsAdmitted p len (admit env (q, some (h, size)))
  unfolding admit
  admit-IsAdmitted size len (base, bound, aligned, has, fits) nonzero =
      let new = new_block h size env.now_new in
      if_cases (IsAdmitted p len) (q.synchronizing && q.oldest_base == 0)
        (λ start.
          started-IsSound (core q) (u16 (h.base + 4))
            ((valid.synced (ground arith)).1 (ground arith)) (omega arith) (omega arith))
        (λ running.
          if_cases (IsAdmitted p len) (is_before16 h.base q.oldest_base) (λ _. valid)
            (λ fresh.
              take_place-IsAdmitted size len (find_block h.base q.blocks) base has fits
                (λ sync. ((λ e. nonzero sync (sym base ∙ e)), λ e. ground arith))
                (find_block-IsPlace h.base q.blocks)
                (find_block-IsList q.oldest_base valid.oldest_bound valid.oldest_aligned new
                  (new_block-IsBlock h size env.now_new bound aligned)
                  (record { untouched = refl; in_order = refl })
                  (offset_near _ _ valid.oldest_bound bound fresh) q.next_number q.blocks
                  valid.list)))

admit_read-IsAdmitted :
    (env : Env) (p : RtpPacket) (len : ℕ) (q : AudioQueue) (r : AudioQueue × Option (FecHeader × ℕ))
    → IsRead q p len r
    → IsValid q
    → (q.synchronizing ≡ true → block_base p ≢ 0)
    → IsAdmitted p len (admit env r)
unfolding admit IsRead
admit_read-IsAdmitted env p len q (q', none) (same, _) valid nonzero =
    subst IsSound (sym same) valid
admit_read-IsAdmitted env p len q (q', some (h, size)) (same, header) valid nonzero =
    admit-IsAdmitted env p q' (subst IsSound (sym same) valid) h size len header
      (λ sync. nonzero (ap (λ c. c.synchronizing) {y = core q'} (sym same) ∙ sync))

pub get_fec_block-IsAdmitted :
    (cfg : AudioConfig) (env : Env) (q : AudioQueue) (p : RtpPacket) (len : ℕ)
    → IsValid q
    → p.sequence_number < 2 ^ 16
    → (q.synchronizing ≡ true → block_base p ≢ 0)
    → IsAdmitted p len (get_fec_block cfg env q p len)
unfolding get_fec_block
get_fec_block-IsAdmitted cfg env q p len valid hs nonzero =
    admit_read-IsAdmitted env p len q _ (read_header_lem cfg.packet_duration q p len hs) valid
      nonzero

-- ===== src/ByteBuffer.antt =====
-- ByteBuffer.c and ByteBuffer.h: a cursor over a block of bytes, with integers in either byte
-- order. The host's own byte order, on which the BE and LE macros of Platform.h turn, is an
-- argument, so that the laws hold on both kinds of host.
pub mod Bytes
pub mod Inv
pub mod Ints
pub mod Fields
pub mod Write
pub mod Stream
mod Tests
use moonlight_common_c.Prelude.{
  ℕ, ◌+◌, ◌-◌, ◌%◌, ◌^◌, Bool, true, false, List, [], ◌∷◌, ltb, ◌==◌, if◌then◌else◌, length, take,
  drop, replicate, splice,
}
use moonlight_common_c.Seq.{u32}
use Bytes.{Host, big, little, from_mem, to_mem, bswap}

abbrev pub byte_order_little : ℕ
byte_order_little = 1

abbrev pub byte_order_big : ℕ
byte_order_big = 2

-- BYTE_BUFFER. The list holds the memory from `buffer` on.
pub record ByteBuffer : Type 0 where
  pub buffer : List ℕ
  pub length : ℕ
  pub position : ℕ
  pub byte_order : ℕ

-- An `int` argument is given by the unsigned int that C converts it to.
unfoldable pub initialize_wrapped_buffer : List ℕ → ℕ → ℕ → ℕ → ByteBuffer
initialize_wrapped_buffer mem offset len order = record {
  buffer = drop offset mem;
  length = u32 len;
  position = 0;
  byte_order = u32 order;
}

-- The macros BE16, BE32 and BE64, and LE16, LE32 and LE64, by the width in bytes.
be : Host → ℕ → ℕ → ℕ
be big n v = v
be little n v = bswap n v

le : Host → ℕ → ℕ → ℕ
le big n v = bswap n v
le little n v = v

-- byteSwap16, byteSwap32 and byteSwap64, at 2, 4 and 8 bytes.
byte_swap : Host → ℕ → ByteBuffer → ℕ → ℕ
unfolding be le
byte_swap host n buff v = if buff.byte_order == byte_order_big then be host n v else le host n v

unfoldable pub advance_buffer : ByteBuffer → ℕ → ByteBuffer × Bool
advance_buffer buff offset =
    if ltb buff.length (u32 (buff.position + offset))
    then (buff, false)
    else (record buff { position = u32 (buff.position + offset) }, true)

unfoldable pub rewind_buffer : ByteBuffer → ByteBuffer
rewind_buffer buff = record buff { position = 0 }

-- The second result is what the caller's `data` holds afterwards.
unfoldable pub get_bytes : ByteBuffer → ℕ → ByteBuffer × Bool × List ℕ
get_bytes buff n =
    if ltb buff.length (u32 (buff.position + n)) then (buff, false, replicate n 0) else (
      record buff { position = u32 (buff.position + n) },
      true,
      take n (drop buff.position buff.buffer),
    )

-- A one-byte object is its byte.
abbrev first_byte : List ℕ → ℕ
first_byte [] = 0
first_byte (x ∷ xs) = x

unfoldable pub get8 : ByteBuffer → ByteBuffer × Bool × ℕ
unfolding get_bytes
get8 buff = let (b, done, bytes) = get_bytes buff 1 in (b, done, first_byte bytes)

unfoldable pub put_bytes : ByteBuffer → List ℕ → ByteBuffer × Bool
put_bytes buff src = if ltb buff.length (u32 (buff.position + length src)) then (buff, false) else (
  record buff {
    buffer = splice buff.buffer buff.position src;
    position = u32 (buff.position + length src);
  },
  true,
)

unfoldable pub put8 : ByteBuffer → ℕ → ByteBuffer × Bool
unfolding put_bytes
put8 buff c = put_bytes buff (c ∷ [])

-- `sizeof` has type size_t, so the tests of the integer functions are made in 64 bits.
abbrev pub size_t : ℕ → ℕ
size_t x = x % 2 ^ 64

module _ (host : Host) where
  -- BbGet16, BbGet32 and BbGet64 differ in the width alone.
  unfoldable pub get_int : ℕ → ByteBuffer → ByteBuffer × Bool × ℕ
  unfolding byte_swap
  get_int n buff = if ltb buff.length (size_t (buff.position + n)) then (buff, false, 0) else (
    record buff { position = u32 (buff.position + n) },
    true,
    byte_swap host n buff (from_mem host (take n (drop buff.position buff.buffer))),
  )

  unfoldable pub get16 : ByteBuffer → ByteBuffer × Bool × ℕ
  unfolding get_int
  get16 = get_int 2

  unfoldable pub get32 : ByteBuffer → ByteBuffer × Bool × ℕ
  unfolding get_int
  get32 = get_int 4

  unfoldable pub get64 : ByteBuffer → ByteBuffer × Bool × ℕ
  unfolding get_int
  get64 = get_int 8

  -- BbPut16, BbPut32 and BbPut64 differ in the width alone.
  unfoldable pub put_int : ℕ → ByteBuffer → ℕ → ByteBuffer × Bool
  unfolding byte_swap
  put_int n buff v = if ltb buff.length (size_t (buff.position + n)) then (buff, false) else (
    record buff {
      buffer = splice buff.buffer buff.position (to_mem host n (byte_swap host n buff v));
      position = u32 (buff.position + n);
    },
    true,
  )

  unfoldable pub put16 : ByteBuffer → ℕ → ByteBuffer × Bool
  unfolding put_int
  put16 = put_int 2

  unfoldable pub put32 : ByteBuffer → ℕ → ByteBuffer × Bool
  unfolding put_int
  put32 = put_int 4

  unfoldable pub put64 : ByteBuffer → ℕ → ByteBuffer × Bool
  unfolding put_int
  put64 = put_int 8

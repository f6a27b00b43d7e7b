-- ===== src/ByteBuffer/Ints.antt =====
-- What the integer and byte operations of ByteBuffer.c do, in terms of the bytes already passed
-- and the bytes still ahead of the cursor. The host's byte order does not show.
use mathlib.Core.List.{reverse-reverse}
use moonlight_common_c.Prelude.{
  ℕ, ◌+◌, ◌-◌, ◌^◌, ◌≤◌, ◌<◌, ◌≡◌, sym, ◌∙◌, true, false, List, [], ◌∷◌, arith, length, take, drop,
  length-drop, length-take, ltb, if◌then◌else◌, ◌++◌, ◌==◌, Bool-cases, inl, inr, ltb→le, zero, suc,
  reverse, take-take_le, replicate,
}
use moonlight_common_c.ByteBuffer.Bytes.{
  Host, big, little, from_mem, to_mem, length-to_mem, from_le, to_le, AreBytes, to_le-bswap,
  bswap-from_le, length-reverse, reverse-AreBytes,
}
use moonlight_common_c.ByteBuffer.Inv.{IsValid}
use moonlight_common_c.ByteBuffer.{
  ByteBuffer, byte_order_big, advance_buffer, get_bytes, put_bytes, get_int, put_int, byte_swap, be,
  le,
}

-- The bytes behind the cursor, and those ahead of it within the declared length.
abbrev pub passed : ByteBuffer → List ℕ
passed b = take b.position b.buffer

abbrev pub ahead : ByteBuffer → List ℕ
ahead b = take (b.length - b.position) (drop b.position b.buffer)

-- The number that bytes stand for in the buffer's byte order, and the bytes of a number.
abbrev pub decode : ByteBuffer → List ℕ → ℕ
decode b bs = if b.byte_order == byte_order_big then from_le (reverse bs) else from_le bs

abbrev pub encode : ByteBuffer → ℕ → ℕ → List ℕ
encode b n v = if b.byte_order == byte_order_big then reverse (to_le n v) else to_le n v

pub drop-AreBytes : (i : ℕ) (xs : List ℕ) → AreBytes xs → AreBytes (drop i xs)
drop-AreBytes zero xs h = h
drop-AreBytes (suc i) [] h = tt
drop-AreBytes (suc i) (x ∷ xs) h = drop-AreBytes i xs h.1

pub take-AreBytes : (n : ℕ) (xs : List ℕ) → AreBytes xs → AreBytes (take n xs)
take-AreBytes zero xs h = tt
take-AreBytes (suc n) [] h = tt
take-AreBytes (suc n) (x ∷ xs) h = (h.0, take-AreBytes n xs h.1)

byte_swap-from_mem :
    (host : Host) (b : ByteBuffer) (bs : List ℕ)
    → AreBytes bs
    → (n : ℕ) → n ≡ length bs
    → byte_swap host n b (from_mem host bs) ≡ decode b bs
unfolding byte_swap be le from_mem
byte_swap-from_mem big b bs h n e =
    let w = bswap-from_le n (reverse bs) (reverse-AreBytes bs h) (e ∙ sym (length-reverse bs)) in
    ground (arith, w, reverse-reverse bs)
byte_swap-from_mem little b bs h n e = ground (arith, bswap-from_le n bs h e)

to_mem-byte_swap :
    (host : Host) (b : ByteBuffer) (n v : ℕ) → to_mem host n (byte_swap host n b v) ≡ encode b n v
unfolding byte_swap be le to_mem
to_mem-byte_swap big b n v = ground (arith, to_le-bswap n v, reverse-reverse (to_le n v))
to_mem-byte_swap little b n v = ground (arith, to_le-bswap n v)

module _ (host : Host) (n : ℕ) (b : ByteBuffer) (small : n ≤ 8) (v : IsValid b) where
  -- An integer read succeeds exactly when its bytes lie ahead; its result is then the number that
  -- they stand for in the buffer's byte order, and the cursor passes them. Otherwise the result is
  -- 0 and the buffer is left as it was.
  pub get_int_lem :
      AreBytes b.buffer
      → get_int host n b ≡ (
          if ltb (b.length - b.position) n
          then (b, false, 0)
          else (record b { position = b.position + n }, true, decode b (take n (ahead b))))
  unfolding get_int
  get_int_lem bytes =
      let here = take n (drop b.position b.buffer) in
      elim (Bool-cases (ltb (b.length - b.position) n)) [
        | inl e ↦ ground arith
        | inr e ↦ ground (
          arith,
          byte_swap-from_mem host b here
              (take-AreBytes n _ (drop-AreBytes b.position b.buffer bytes)) n
              (omega (
                arith,
                ltb→le _ _ e,
                length-take n (drop b.position b.buffer),
                length-drop b.position b.buffer,
              )),
          take-take_le n (b.length - b.position) (drop b.position b.buffer),
        )
      ]

  -- An integer write succeeds exactly when there is room: the bytes of the number in the buffer's
  -- byte order then stand at the cursor, which passes them, and every other byte is as it was.
  -- Otherwise the buffer is left as it was.
  pub put_int_lem :
      (x : ℕ)
      → put_int host n b x ≡ (
          if ltb (b.length - b.position) n then (b, false) else (
            record b {
              buffer = passed b ++ (encode b n x ++ drop (b.position + n) b.buffer);
              position = b.position + n;
            },
            true,
          ))
  unfolding put_int
  put_int_lem x =
      let w = byte_swap host n b x in
      elim (Bool-cases (ltb (b.length - b.position) n)) [
        | inl e ↦ ground arith
        | inr e ↦ ground (arith, length-to_mem host n w, to_mem-byte_swap host b n x)
      ]

module _ (b : ByteBuffer) (v : IsValid b) where
  -- A read of bytes is all or nothing: it yields the bytes ahead and passes them, or zeros.
  pub get_bytes_lem :
      (n : ℕ)
      → n < 2 ^ 31
      → get_bytes b n ≡ (
          if ltb (b.length - b.position) n
          then (b, false, replicate n 0)
          else (record b { position = b.position + n }, true, take n (ahead b)))
  unfolding get_bytes
  get_bytes_lem n h =
      ground (arith, take-take_le n (b.length - b.position) (drop b.position b.buffer))

  -- A write of bytes is all or nothing.
  pub put_bytes_lem :
      (src : List ℕ)
      → length src < 2 ^ 31
      → put_bytes b src ≡ (
          if ltb (b.length - b.position) (length src) then (b, false) else (
            record b {
              buffer = passed b ++ (src ++ drop (b.position + length src) b.buffer);
              position = b.position + length src;
            },
            true,
          ))
  unfolding put_bytes
  put_bytes_lem src h = ground arith

  -- A negative offset, given by its 32-bit pattern, moves the cursor back while it can.
  pub advance_buffer_back :
      (k : ℕ)
      → 0 < k
      → k ≤ b.position
      → advance_buffer b (2 ^ 32 - k) ≡ (record b { position = b.position - k }, true)
  unfolding advance_buffer
  advance_buffer_back k pos h = ground arith

  -- A skip succeeds exactly within the declared length.
  pub advance_buffer_lem :
      (k : ℕ)
      → k < 2 ^ 31
      → advance_buffer b k ≡ (
          if ltb (b.length - b.position) k
          then (b, false)
          else (record b { position = b.position + k }, true))
  unfolding advance_buffer
  advance_buffer_lem k h = ground arith

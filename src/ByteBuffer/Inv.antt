-- ===== src/ByteBuffer/Inv.antt =====
-- The invariant of BYTE_BUFFER: the cursor stays within the declared length, and the declared
-- length within the memory, so no operation of ByteBuffer.c reads or writes out of bounds.
use moonlight_common_c.Prelude.{
  ℕ, ◌+◌, ◌^◌, ◌≤◌, ◌<◌, List, arith, length, length-splice, length-drop,
}
use moonlight_common_c.ByteBuffer.Bytes.{Host, to_mem, length-to_mem}
use moonlight_common_c.ByteBuffer.{
  ByteBuffer, initialize_wrapped_buffer, advance_buffer, get_bytes, put_bytes, get_int, put_int,
  byte_swap,
}

-- `length` comes from an `int` that is not negative.
pub record IsValid (b : ByteBuffer) : Type 0 where
  pub within : b.position ≤ b.length
  pub backed : b.length ≤ length b.buffer
  pub small : b.length < 2 ^ 31

pub initialize_wrapped_buffer-IsValid :
    (mem : List ℕ) (offset len order : ℕ)
    → offset + len ≤ length mem
    → len < 2 ^ 31
    → IsValid (initialize_wrapped_buffer mem offset len order)
unfolding initialize_wrapped_buffer
initialize_wrapped_buffer-IsValid mem offset len order h k = omega (arith, length-drop offset mem)

pub advance_buffer-IsValid :
    (b : ByteBuffer) (offset : ℕ) → IsValid b → IsValid (advance_buffer b offset).0
unfolding advance_buffer
advance_buffer-IsValid b offset v = ground arith

pub get_bytes-IsValid : (b : ByteBuffer) (n : ℕ) → IsValid b → IsValid (get_bytes b n).0
unfolding get_bytes
get_bytes-IsValid b n v = ground arith

pub put_bytes-IsValid :
    (b : ByteBuffer) (src : List ℕ) → IsValid b → length src < 2 ^ 31 → IsValid (put_bytes b src).0
unfolding put_bytes
put_bytes-IsValid b src v h = ground (arith, length-splice b.buffer b.position src)

module _ (host : Host) (n : ℕ) (b : ByteBuffer) (small : n ≤ 8) (v : IsValid b) where
  pub get_int-IsValid : IsValid (get_int host n b).0
  unfolding get_int
  get_int-IsValid = ground arith

  pub put_int-IsValid : (x : ℕ) → IsValid (put_int host n b x).0
  unfolding put_int
  put_int-IsValid x =
      let w = byte_swap host n b x in
      ground (arith, length-to_mem host n w, length-splice b.buffer b.position (to_mem host n w))

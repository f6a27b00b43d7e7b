-- ===== src/ByteBuffer/Tests.antt =====
-- ByteBuffer.c at concrete buffers.
use moonlight_common_c.Prelude.{ℕ, ◌≡◌, refl, true, List, [], ◌∷◌, arith}
use moonlight_common_c.ByteBuffer.Bytes
use moonlight_common_c.ByteBuffer.Bytes.{Host, big, little, AreBytes}
use moonlight_common_c.ByteBuffer.Inv.{IsValid}
use moonlight_common_c.ByteBuffer.Ints.{get_int_lem, put_int_lem}
use moonlight_common_c.ByteBuffer.Fields.{Field, int, raw, put_fields, get_fields, shapes}
use moonlight_common_c.ByteBuffer.Stream.{get_fields-put_fields}
use moonlight_common_c.ByteBuffer.{ByteBuffer, byte_order_big, get_int, put_int, get16}

abbrev memory : List ℕ
memory = 9 ∷ 0x12 ∷ 0x34 ∷ 0x56 ∷ 0x78 ∷ 5 ∷ 6 ∷ 7 ∷ 8 ∷ []

abbrev packet : ByteBuffer
packet = record { buffer = memory; length = 9; position = 1; byte_order = byte_order_big }

packet-IsValid : IsValid packet
packet-IsValid = omega arith

memory-AreBytes : AreBytes memory
memory-AreBytes = omega arith

reads_big_endian : (get16 little packet).1 ≡ true
unfolding get16
reads_big_endian = refl

reads_value : (get16 little packet).2 ≡ 0x1234
unfolding get16 Bytes.bswap Bytes.from_mem Bytes.from_le Bytes.to_le
reads_value = refl

abbrev message : List Field
message = int 2 0x1234 ∷ raw (1 ∷ 2 ∷ 3 ∷ []) ∷ int 1 7 ∷ []

get_int_lem_example : get_int big 4 packet ≡ (record packet { position = 5 }, true, 0x1234_5678)
unfolding Bytes.from_le
get_int_lem_example = get_int_lem big 4 packet (omega arith) packet-IsValid memory-AreBytes

put_int_lem_example : put_int little 2 packet 0xaabb ≡ (
  record packet { buffer = 9 ∷ 0xaa ∷ 0xbb ∷ 0x56 ∷ 0x78 ∷ 5 ∷ 6 ∷ 7 ∷ 8 ∷ []; position = 3 },
  true,
)
unfolding Bytes.to_le
put_int_lem_example = put_int_lem little 2 packet (omega arith) packet-IsValid 0xaabb

get_fields-put_fields_example :
    let (b', done) = put_fields big packet message in
    (done ≡ true)
    × (get_fields little (record b' { position = 1 }) (shapes message) ≡ (b', true, message))
unfolding Bytes.to_le
get_fields-put_fields_example =
    get_fields-put_fields big little packet message packet-IsValid memory-AreBytes (omega arith)
      (omega arith)

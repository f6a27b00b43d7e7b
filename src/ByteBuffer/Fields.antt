-- ===== src/ByteBuffer/Fields.antt =====
-- Fields as the senders and parsers of packets lay them out with ByteBuffer.c: integers and runs
-- of raw bytes, their bytes on the wire, and chains of the put and get calls.
use moonlight_common_c.Prelude.{
  ℕ, ◌^◌, ◌≤◌, ◌<◌, ◌≡◌, refl, ◌∙◌, Bool, true, false, List, [], ◌∷◌, length, if◌then◌else◌, ◌++◌,
  ◌==◌, Bool-cases, inl, inr,
}
use mathlib.Core.List.{reverse-reverse}
use moonlight_common_c.ByteBuffer.Bytes.{
  Host, to_le, AreBytes, from_le-to_le, length-to_le, length-reverse, reverse-AreBytes,
  to_le-AreBytes, AreBytes-append,
}
use moonlight_common_c.ByteBuffer.Ints.{decode, encode}
use moonlight_common_c.ByteBuffer.{
  ByteBuffer, byte_order_big, get_bytes, put_bytes, get_int, put_int,
}

-- An integer of a width in bytes, or a run of raw bytes.
pub data Field : Type 0 where
  int : ℕ → ℕ → Field
  raw : List ℕ → Field

pub data Shape : Type 0 where
  int_shape : ℕ → Shape
  raw_shape : ℕ → Shape

abbrev pub shape : Field → Shape
shape (int n v) = int_shape n
shape (raw bs) = raw_shape (length bs)

abbrev pub shapes : List Field → List Shape
shapes [] = []
shapes (f ∷ fs) = shape f ∷ shapes fs

-- A width that the library has, a value that fits it, and bytes that an `int` can count.
abbrev pub FieldFits : Field → Type 0
FieldFits (int n v) = (n ≤ 8) × (v < 256 ^ n)
FieldFits (raw bs) = (length bs < 2 ^ 31) × AreBytes bs

abbrev pub AllFit : List Field → Type 0
AllFit [] = Unit {0}
AllFit (f ∷ fs) = FieldFits f × AllFit fs

-- The bytes of a field in the buffer's byte order.
abbrev pub wire : ByteBuffer → Field → List ℕ
wire b (int n v) = encode b n v
wire b (raw bs) = bs

abbrev pub wires : ByteBuffer → List Field → List ℕ
wires b [] = []
wires b (f ∷ fs) = wire b f ++ wires b fs

abbrev pub put_field : Host → ByteBuffer → Field → ByteBuffer × Bool
put_field host b (int n v) = put_int host n b v
put_field host b (raw bs) = put_bytes b bs

abbrev pub get_field : Host → ByteBuffer → Shape → ByteBuffer × Bool × Field
get_field host b (int_shape n) = let (b', done, v) = get_int host n b in (b', done, int n v)
get_field host b (raw_shape n) = let (b', done, bs) = get_bytes b n in (b', done, raw bs)

-- A chain of calls that stops at the first one that fails.
unfoldable pub put_fields : Host → ByteBuffer → List Field → ByteBuffer × Bool
put_fields host b [] = (b, true)
put_fields host b (f ∷ fs) =
    let (b', done) = put_field host b f in
    let rest = put_fields host b' fs in if done then rest else (b', false)

unfoldable pub get_fields : Host → ByteBuffer → List Shape → ByteBuffer × Bool × List Field
get_fields host b [] = (b, true, [])
get_fields host b (s ∷ ss) =
    let (b', done, f) = get_field host b s in
    let rest : ByteBuffer × Bool × List Field = get_fields host b' ss in
    if done then (rest.0, rest.1, f ∷ rest.2) else (b', false, [])

pub length-encode : (b : ByteBuffer) (n v : ℕ) → length (encode b n v) ≡ n
length-encode b n v = elim (Bool-cases (b.byte_order == byte_order_big)) [
  | inl e ↦ rw e (length-reverse (to_le n v) ∙ length-to_le n v)
  | inr e ↦ rw e (length-to_le n v)
]

pub encode-AreBytes : (b : ByteBuffer) (n v : ℕ) → AreBytes (encode b n v)
encode-AreBytes b n v = elim (Bool-cases (b.byte_order == byte_order_big)) [
  | inl e ↦ rw e (reverse-AreBytes (to_le n v) (to_le-AreBytes n v))
  | inr e ↦ rw e (to_le-AreBytes n v)
]

pub decode-encode : (b : ByteBuffer) (n v : ℕ) → v < 256 ^ n → decode b (encode b n v) ≡ v
decode-encode b n v h = elim (Bool-cases (b.byte_order == byte_order_big)) [
  | inl e ↦ rw (e, reverse-reverse (to_le n v)) (from_le-to_le n v h)
  | inr e ↦ rw e (from_le-to_le n v h)
]

pub wire-AreBytes : (b : ByteBuffer) (f : Field) → FieldFits f → AreBytes (wire b f)
wire-AreBytes b (int n v) h = encode-AreBytes b n v
wire-AreBytes b (raw bs) h = h.1

pub wires-order :
    (b b' : ByteBuffer) (fs : List Field) → b'.byte_order ≡ b.byte_order → wires b' fs ≡ wires b fs
wires-order b b' [] e = refl
wires-order b b' (int n v ∷ fs) e = rw (e, wires-order b b' fs e)
wires-order b b' (raw bs ∷ fs) e = rw (wires-order b b' fs e)

pub wires-AreBytes : (b : ByteBuffer) (fs : List Field) → AllFit fs → AreBytes (wires b fs)
wires-AreBytes b [] h = tt
wires-AreBytes b (f ∷ fs) h =
    AreBytes-append (wire b f) (wires b fs) (wire-AreBytes b f h.0) (wires-AreBytes b fs h.1)

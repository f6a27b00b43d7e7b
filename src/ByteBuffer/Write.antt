-- ===== src/ByteBuffer/Write.antt =====
-- Chains of the put operations of ByteBuffer.c.
use moonlight_common_c.Prelude.{
  ℕ, ◌+◌, ◌-◌, ◌≤◌, ◌≡◌, refl, sym, ap, ◌∙◌, Bool, true, List, [], ◌∷◌, arith, length, drop,
  length-drop, length-take, ◌++◌, take-append, drop-append, append_assoc, drop-drop, length-append,
  append-nil,
}
use moonlight_common_c.ByteBuffer.Bytes.{Host, AreBytes, AreBytes-append}
use moonlight_common_c.ByteBuffer.Inv.{IsValid}
use moonlight_common_c.ByteBuffer.Ints.{
  passed, encode, put_int_lem, take-AreBytes, drop-AreBytes, put_bytes_lem,
}
use moonlight_common_c.ByteBuffer.{ByteBuffer, put_bytes, put_int}
use moonlight_common_c.ByteBuffer.Fields.{
  Field, int, raw, FieldFits, AllFit, wire, wires, put_field, put_fields, length-encode,
  encode-AreBytes, wires-order,
}

-- What a put of some bytes leaves: they stand behind the cursor, and all else is as it was.
pub record Put (b : ByteBuffer) (bs : List ℕ) (r : ByteBuffer × Bool) : Type 0 where
  pub done : r.1 ≡ true
  pub valid : IsValid r.0
  pub order : r.0.byte_order ≡ b.byte_order
  pub size : r.0.length ≡ b.length
  pub position : r.0.position ≡ b.position + length bs
  pub before : passed r.0 ≡ passed b ++ bs
  pub after : drop r.0.position r.0.buffer ≡ drop (b.position + length bs) b.buffer
  pub bytes : AreBytes b.buffer → AreBytes r.0.buffer

module _ (b : ByteBuffer) (ok : IsValid b) where
  abbrev advanced : List ℕ → ByteBuffer
  advanced bs = record b {
    buffer = passed b ++ (bs ++ drop (b.position + length bs) b.buffer);
    position = b.position + length bs;
  }

  advanced-Put :
      (bs : List ℕ) → AreBytes bs → length bs ≤ b.length - b.position → Put b bs (advanced bs, true)
  advanced-Put bs new room =
      let i = b.position + length bs in
      let tail = drop i b.buffer in
      let all = append_assoc (passed b) bs tail in
      let head : i ≡ length (passed b ++ bs) =
        omega (arith, length-append (passed b) bs, length-take b.position b.buffer, ok.backed) in
      let total : length (passed b ++ (bs ++ tail)) ≡ length b.buffer = omega (
        arith,
        length-append (passed b) (bs ++ tail),
        length-append bs tail,
        length-take b.position b.buffer,
        length-drop i b.buffer,
        ok.backed,
      ) in
      record {
        done = refl;
        valid = record {
          within = omega (arith, ok.within);
          backed = omega (arith, ok.backed);
          small = ok.small;
        };
        order = refl;
        size = refl;
        position = refl;
        before = rw (← all) (take-append i (passed b ++ bs) tail head);
        after = rw (← all) (drop-append i (passed b ++ bs) tail head);
        bytes = λ old.
            AreBytes-append (passed b) (bs ++ tail) (take-AreBytes b.position b.buffer old)
              (AreBytes-append bs tail new (drop-AreBytes i b.buffer old));
      }

  put_field-Put :
      (host : Host) (f : Field)
      → FieldFits f
      → length (wire b f) ≤ b.length - b.position
      → Put b (wire b f) (put_field host b f)
  put_field-Put host (int n v) h room =
      let size = length-encode b n v in
      let e : put_int host n b v ≡ (advanced (encode b n v), true) =
        ground (arith, put_int_lem host n b h.0 ok v, size) in
      rw e (advanced-Put (encode b n v) (encode-AreBytes b n v) room)
  put_field-Put host (raw bs) h room =
      let e : put_bytes b bs ≡ (advanced bs, true) = ground (arith, put_bytes_lem b ok bs h.0) in
      rw e (advanced-Put bs h.1 room)

pub Put-trans :
    (b : ByteBuffer) (xs ys : List ℕ) (r q : ByteBuffer × Bool)
    → Put b xs r
    → Put r.0 ys q
    → Put b (xs ++ ys) q
Put-trans b xs ys r q p t = record {
  done = t.done;
  valid = t.valid;
  order = t.order ∙ p.order;
  size = t.size ∙ p.size;
  position = omega (arith, t.position, p.position, length-append xs ys);
  before = t.before ∙ ap (λ zs. zs ++ ys) p.before ∙ append_assoc (passed b) xs ys;
  after =
      t.after
      ∙ drop-drop r.0.position (length ys) r.0.buffer
      ∙ ap (drop (length ys)) p.after
      ∙ sym (drop-drop (b.position + length xs) (length ys) b.buffer)
      ∙ ap (λ k. drop k b.buffer) (omega (arith, length-append xs ys));
  bytes = λ old. t.bytes (p.bytes old);
}

-- A chain of puts that fits in the space left succeeds. The fields then stand behind the cursor
-- one after the other, and the memory in front of it and behind the old cursor is as it was.
pub put_fields-Put :
    (host : Host) (b : ByteBuffer) (fs : List Field)
    → IsValid b
    → AllFit fs
    → length (wires b fs) ≤ b.length - b.position
    → Put b (wires b fs) (put_fields host b fs)
unfolding put_fields
put_fields-Put host b [] ok h room = record {
  done = refl;
  valid = ok;
  order = refl;
  size = refl;
  position = omega arith;
  before = sym (append-nil (passed b));
  after = ap (λ k. drop k b.buffer) (omega arith);
  bytes = λ old. old;
}
put_fields-Put host b (f ∷ fs) ok h room =
    let total = length-append (wire b f) (wires b fs) in
    let p = put_field-Put b ok host f h.0 (omega (arith, total)) in
    let b' = (put_field host b f).0 in
    let same = wires-order b b' fs p.order in
    let rest =
      put_fields-Put host b' fs p.valid h.1
        (rw (same, p.size, p.position) (omega (arith, total, ok.within))) in
    rw (p.done) (Put-trans b (wire b f) (wires b fs) _ _ p (rw same at rest))

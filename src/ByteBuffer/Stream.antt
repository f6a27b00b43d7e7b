-- ===== src/ByteBuffer/Stream.antt =====
-- Chains of the get operations of ByteBuffer.c, and the round trip: a record of fields that is
-- written by a chain of puts is read back by the chain of gets.
use moonlight_common_c.Prelude.{
  ℕ, ◌+◌, ◌-◌, ◌≤◌, ◌≡◌, refl, sym, ap, ◌∙◌, Bool, true, List, [], ◌∷◌, arith, length, take, drop,
  length-take, ◌++◌, take-append, drop-append, append_assoc, drop-drop, drop-take, take-append-drop,
  take-take_le, length-append,
}
use moonlight_common_c.ByteBuffer.Bytes.{Host, AreBytes}
use moonlight_common_c.ByteBuffer.Inv.{IsValid}
use moonlight_common_c.ByteBuffer.Ints.{passed, ahead, encode, get_int_lem, get_bytes_lem}
use moonlight_common_c.ByteBuffer.{ByteBuffer}
use moonlight_common_c.ByteBuffer.Fields.{
  Field, int, raw, shape, shapes, FieldFits, AllFit, wire, wires, get_field, put_fields, get_fields,
  length-encode, decode-encode, wires-order,
}
use moonlight_common_c.ByteBuffer.Write.{Put, put_fields-Put}

-- Seen from a cursor further on, less is ahead.
ahead-advance :
    (b : ByteBuffer) (k : ℕ) → ahead (record b { position = b.position + k }) ≡ drop k (ahead b)
ahead-advance b k =
    ap (take (b.length - (b.position + k))) (drop-drop b.position k b.buffer)
    ∙ ap (λ n. take n (drop k (drop b.position b.buffer))) (omega arith)
    ∙ sym (drop-take k (b.length - b.position) (drop b.position b.buffer))

length-ahead : (b : ByteBuffer) → length (ahead b) ≤ b.length - b.position
length-ahead b = omega (arith, length-take (b.length - b.position) (drop b.position b.buffer))

-- One get of a field whose bytes lie ahead.
get_field_lem :
    (host : Host) (b : ByteBuffer) (f : Field) (r : List ℕ)
    → IsValid b
    → AreBytes b.buffer
    → FieldFits f
    → ahead b ≡ wire b f ++ r
    → get_field host b (shape f) ≡ (record b { position = b.position + length (wire b f) }, true, f)
get_field_lem host b (int n v) r ok bytes h e =
    let size = length-encode b n v in
    let room : n ≤ b.length - b.position =
      omega (arith, length-ahead b, ap length e, length-append (encode b n v) r, size) in
    let got : take n (ahead b) ≡ encode b n v =
      ap (take n) e ∙ take-append n (encode b n v) r (sym size) in
    rw (get_int_lem host n b h.0 ok bytes, got, decode-encode b n v h.1, size) (ground arith)
get_field_lem host b (raw bs) r ok bytes h e =
    let room : length bs ≤ b.length - b.position =
      omega (arith, length-ahead b, ap length e, length-append bs r) in
    let got : take (length bs) (ahead b) ≡ bs =
      ap (take (length bs)) e ∙ take-append (length bs) bs r refl in
    rw (get_bytes_lem b ok (length bs) h.0, got) (ground arith)

-- A chain of gets whose fields lie ahead yields them all and passes their bytes.
pub get_fields_lem :
    (host : Host) (b : ByteBuffer) (fs : List Field) (r : List ℕ)
    → IsValid b
    → AreBytes b.buffer
    → AllFit fs
    → ahead b ≡ wires b fs ++ r
    → get_fields host b (shapes fs)
      ≡ (record b { position = b.position + length (wires b fs) }, true, fs)
unfolding get_fields
get_fields_lem host b [] r ok bytes h e = ground arith
get_fields_lem host b (f ∷ fs) r ok bytes h e =
    let k = length (wire b f) in
    let b' : ByteBuffer = record b { position = b.position + k } in
    let all = e ∙ append_assoc (wire b f) (wires b fs) r in
    let room : k ≤ b.length - b.position =
      omega (arith, length-ahead b, ap length all, length-append (wire b f) (wires b fs ++ r)) in
    let same = wires-order b b' fs refl in
    let next : ahead b' ≡ wires b' fs ++ r =
      ahead-advance b k
      ∙ ap (drop k) all
      ∙ drop-append k (wire b f) (wires b fs ++ r) refl
      ∙ ap (λ ws. ws ++ r) (sym same) in
    let ok' : IsValid b' = record {
      within = omega (arith, ok.within);
      backed = ok.backed;
      small = ok.small;
    } in
    rw
      (
        get_field_lem host b f (wires b fs ++ r) ok bytes h.0 all,
        get_fields_lem host b' fs r ok' bytes h.1 next,
        same,
      )
      (ground (arith, length-append (wire b f) (wires b fs)))

-- From the cursor where the writer started, its bytes lie ahead.
ahead-Put :
    (b : ByteBuffer) (bs : List ℕ) (r : ByteBuffer × Bool)
    → IsValid b
    → Put b bs r
    → let c : ByteBuffer = record (r.0) { position = b.position } in
      ahead c ≡ bs ++ drop (length bs) (ahead c)
ahead-Put b bs r ok p =
    let k = length bs in
    let c : ByteBuffer = record (r.0) { position = b.position } in
    let memory = drop b.position r.0.buffer in
    let behind : b.position ≡ length (passed b) =
      omega (arith, length-take b.position b.buffer, ok.within, ok.backed) in
    let gap : k ≡ r.0.position - b.position = omega (arith, p.position) in
    let first : take k (ahead c) ≡ bs =
      take-take_le k (r.0.length - b.position) memory (omega (arith, p.position, p.valid.within))
      ∙ ap (λ n. take n memory) gap
      ∙ sym (drop-take b.position r.0.position r.0.buffer)
      ∙ ap (drop b.position) p.before
      ∙ drop-append b.position (passed b) bs behind in
    sym (take-append-drop k (ahead c)) ∙ ap (λ xs. xs ++ drop k (ahead c)) first

-- Fields written one after the other into a buffer with room for them are all written, and a
-- reader that starts where the writer started reads back exactly those fields and ends where the
-- writer ended, also when the reading host and the writing host have different byte orders.
pub get_fields-put_fields :
    (writer reader : Host) (b : ByteBuffer) (fs : List Field)
    → IsValid b
    → AreBytes b.buffer
    → AllFit fs
    → length (wires b fs) ≤ b.length - b.position
    → let (b', done) = put_fields writer b fs in
      (done ≡ true)
      × (get_fields reader (record b' { position = b.position }) (shapes fs) ≡ (b', true, fs))
get_fields-put_fields writer reader b fs ok bytes h room =
    let p = put_fields-Put writer b fs ok h room in
    let b' = (put_fields writer b fs).0 in
    let c : ByteBuffer = record b' { position = b.position } in
    let same = wires-order b c fs p.order in
    let ok' : IsValid c = record {
      within = omega (arith, p.size, ok.within);
      backed = p.valid.backed;
      small = p.valid.small;
    } in
    let rest = drop (length (wires b fs)) (ahead c) in
    let lies : ahead c ≡ wires c fs ++ rest =
      ahead-Put b (wires b fs) _ ok p ∙ ap (λ ws. ws ++ rest) (sym same) in
    (
      p.done,
      get_fields_lem reader c fs rest ok' (p.bytes bytes) h lies
          ∙ ap (λ i. (record b' { position = i }, true, fs))
              (ap (λ ws. b.position + length ws) same ∙ sym p.position),
    )

-- ===== src/RtspParser/RoundTrip.antt =====
-- The round trip of RTSP messages: parseRtspMessage reads back what serializeRtspMessage writes.
use moonlight_common_c.Prelude.{
  is_empty, ℕ, suc, ◌+◌, ◌^◌, ◌≤◌, ◌<◌, ◌≡◌, refl, ap, ◌∙◌, true, false, not, ◌||◌, Option, none,
  some, List, [], ◌∷◌, ◌++◌, arith, ◌==◌, if◌then◌else◌, length, take, append_assoc, length-append,
  length-take,
}
use moonlight_common_c.RtspParser.{
  OptionItem, Kind, request, response, Message, create_rtsp_request, create_rtsp_response,
  get_option_content, head_strings, option_strings, serialize_rtsp_message,
}
use moonlight_common_c.RtspParser.Chars.{str_eq, crlf, byte_at}
use moonlight_common_c.RtspParser.Parse.{
  rtsp_version, cseq, first_line, ended, options_loop, Parsed, parsed, packaged, sequence_of,
  payload_size, conclude, parse_rtsp_message,
}
use moonlight_common_c.RtspParser.Serialize.{
  join, message_text, payload_text, count_bytes, all_strings, strings_length,
  serialize_rtsp_message_lem,
}
use moonlight_common_c.RtspParser.ReadLines.{
  text_with, join-text_with, text_with-append, IsKind, first_line_lem, items, AreItems, AreNew,
  all_memory, payload_at, options_lem,
}

-- Messages that come back from their text. The payload, if there is one, does not begin with a zero
-- byte, and the pointer has the memory that the length says.
pub record IsMessage (msg : Message) : Type 0 where
  pub first : IsKind msg.kind
  pub version : msg.protocol ≡ rtsp_version
  pub some_option : (length msg.options == 0) ≡ false
  pub options : AreItems msg.options
  pub distinct : AreNew [] msg.options
  pub payload : (is_empty (payload_text msg) || not (byte_at 0 (payload_text msg) == 0)) ≡ true
  pub short : count_bytes msg < 2 ^ 31

-- What the parser makes of the text: the same message, with the flags and the sequence number that
-- it sets.
abbrev pub read_back : Message → List ℕ → Message
read_back msg beyond = record {
  kind = msg.kind;
  flags = 6;
  sequence_number = sequence_of (get_option_content (items msg.options) cseq);
  protocol = rtsp_version;
  options = items msg.options;
  payload = if is_empty (payload_text msg) then none else some (payload_text msg ++ 0 ∷ beyond);
  payload_length = length (payload_text msg);
}

memory_shape :
    (msg : Message) (beyond : List ℕ)
    → message_text msg ++ 0 ∷ beyond
      ≡ text_with
          (head_strings msg msg.kind)
          (text_with (option_strings msg.options) (13 ∷ 10 ∷ (payload_text msg ++ 0 ∷ beyond)))
memory_shape msg beyond =
    append_assoc (join (all_strings msg)) (payload_text msg) (0 ∷ beyond)
    ∙ join-text_with (all_strings msg) (payload_text msg ++ 0 ∷ beyond)
    ∙ text_with-append (head_strings msg msg.kind) (option_strings msg.options ++ crlf ∷ []) _
    ∙ ap (text_with (head_strings msg msg.kind))
        (text_with-append (option_strings msg.options) (crlf ∷ []) _)

packaged_lem :
    (k : Kind) (protocol : List ℕ) (options : List OptionItem) (payload : Option (List ℕ))
    (size : ℕ)
    → packaged k protocol options payload size ≡ record {
      kind = k;
      flags = 6;
      sequence_number = sequence_of (get_option_content options cseq);
      protocol = protocol;
      options = options;
      payload = payload;
      payload_length = size;
    }
unfolding packaged create_rtsp_request create_rtsp_response
packaged_lem (request command target) protocol options payload size = refl
packaged_lem (response code status) protocol options payload size = refl

-- Where the payload is found, and its length.
payload_found :
    (p beyond : List ℕ)
    → (is_empty p || not (byte_at 0 p == 0)) ≡ true
    → payload_at (p ++ 0 ∷ beyond) ≡ (if is_empty p then none else some (p ++ 0 ∷ beyond))
payload_found [] beyond h = refl
payload_found (c ∷ cs) beyond h =
    let some_byte : (c == 0) ≡ false = ground arith in rw some_byte refl

payload_measured :
    (p beyond : List ℕ) (len total : ℕ)
    → len < 2 ^ 31
    → length p ≤ len
    → total ≡ len + suc (length beyond)
    → payload_size len total (if is_empty p then none else some (p ++ 0 ∷ beyond)) ≡ length p
payload_measured [] beyond len total small fits e = refl
payload_measured (c ∷ cs) beyond len total small fits e =
    omega (arith, length-append cs (0 ∷ beyond), small, fits, e)

payload_text-le : (msg : Message) → length (payload_text msg) ≤ msg.payload_length
payload_text-le msg = go msg.payload
  where
    go :
        (p : Option (List ℕ))
        → length
            (elim p as (λ x. List ℕ) [ none ↦ [] | some memory ↦ take msg.payload_length memory ])
          ≤ msg.payload_length
    go none = omega arith
    go (some memory) = omega (arith, length-take msg.payload_length memory)

options_fuel :
    (os : List OptionItem) (t : List ℕ) → length os ≤ length (text_with (option_strings os) t)
options_fuel [] t = omega arith
options_fuel (o ∷ os) t = omega (
  arith,
  length-append o.option (58 ∷ 32 ∷ (o.content ++ 13 ∷ 10 ∷ text_with (option_strings os) t)),
  length-append o.content (13 ∷ 10 ∷ text_with (option_strings os) t),
  options_fuel os t,
)

some_options :
    (os : List OptionItem) (fuel : ℕ) (p : List ℕ)
    → (length os == 0) ≡ false
    → AreItems os
    → AreNew [] os
    → length os ≤ fuel
    → options_loop all_memory fuel 0 [] (10 ∷ text_with (option_strings os) (13 ∷ 10 ∷ p))
      ≡ some (ended (items os) (payload_at p))
some_options [] fuel p ne w new h = cc
some_options (o ∷ os) fuel p ne w new h = options_lem o os [] fuel 0 p w new (omega (arith, h))

-- A message is serialised to its text, and parseRtspMessage reads the text back as the same
-- message, whatever memory lies beyond the buffer, if all allocations succeed; the flags of the
-- message and of its options and the sequence number are those that the parser sets. The message
-- has the protocol RTSP/1.0 and at least one option, and fewer than 2^31 bytes. Its command, target
-- and option names are not empty and hold no byte that ends a token (zero, blank, CR, LF, in names
-- also the colon), and the command does not begin with RTSP; a status code is an int of 32 bits, a
-- status text is not empty, and neither it nor the contents of options hold a zero byte, CR or LF.
-- No two options have the same name. A payload that is not empty does not begin with a zero byte.
pub parse_rtsp_message-serialize_rtsp_message :
    (msg : Message) (beyond : List ℕ)
    → IsMessage msg
    → (serialize_rtsp_message true msg ≡ some (message_text msg))
      × (parse_rtsp_message true all_memory (message_text msg) beyond
          ≡ some (parsed (read_back msg beyond)))
unfolding parse_rtsp_message conclude str_eq
parse_rtsp_message-serialize_rtsp_message msg beyond w =
    let t = text_with (option_strings msg.options) (13 ∷ 10 ∷ (payload_text msg ++ 0 ∷ beyond)) in
    let line =
      ap first_line (memory_shape msg beyond) ∙ first_line_lem msg msg.kind t w.first w.version in
    let loop =
      some_options msg.options (suc (length (10 ∷ t))) (payload_text msg ++ 0 ∷ beyond)
        w.some_option w.options w.distinct
        (omega (arith, options_fuel msg.options (13 ∷ 10 ∷ (payload_text msg ++ 0 ∷ beyond)))) in
    let text = payload_text msg in
    let len = length (message_text msg) in
    let total = length (message_text msg ++ 0 ∷ beyond) in
    let all = length-append (join (all_strings msg)) text in
    let fits = payload_text-le msg in
    let measured =
      payload_measured text beyond len total (omega (arith, all, fits, w.short, strings_length msg))
        (omega (arith, all)) (omega (arith, length-append (message_text msg) (0 ∷ beyond))) in
    let pack : Option (List ℕ) → ℕ → Option Parsed =
      λ z n. some (parsed (packaged msg.kind rtsp_version (items msg.options) z n)) in
    (
      serialize_rtsp_message_lem msg w.short,
      rw (line, loop)
          (ap (λ z. pack z (payload_size len total z)) (payload_found text beyond w.payload)
            ∙ ap (pack (if is_empty text then none else some (text ++ 0 ∷ beyond))) measured
            ∙ ap (λ m. some (parsed m))
                (packaged_lem msg.kind rtsp_version (items msg.options)
                  (if is_empty text then none else some (text ++ 0 ∷ beyond)) (length text))),
    )

-- ===== src/RtspParser/Serialize.antt =====
-- serializeRtspMessage writes the whole message: the length that getMessageLength counts is enough
-- for every string that is appended.
use moonlight_common_c.Prelude.{
  ℕ, ◌+◌, ◌-◌, ◌^◌, ◌<◌, ◌≡◌, refl, sym, ap, ap₂, ◌∙◌, true, false, ◌||◌, Option, none, some, List,
  [], ◌∷◌, ◌++◌, ltb, leb, if◌then◌else◌, arith, length, take, append_assoc, append-nil,
  length-append,
}
use moonlight_common_c.RtspParser.{
  OptionItem, Kind, request, response, Message, kind_length, options_length, get_message_length,
  Dest, append_string, append_all, head_strings, option_strings, append_payload,
  serialize_rtsp_message, crlf_length,
}
use moonlight_common_c.RtspParser.Chars.{crlf}

abbrev pub join : List (List ℕ) → List ℕ
join [] = []
join (s ∷ ss) = s ++ join ss

abbrev pub payload_text : Message → List ℕ
payload_text msg = elim msg.payload [ none ↦ [] | some memory ↦ take msg.payload_length memory ]

-- The text of a message: first line, options, an empty line and the payload.
abbrev pub message_text : Message → List ℕ
message_text msg =
    join (head_strings msg msg.kind ++ (option_strings msg.options ++ crlf ∷ []))
    ++ payload_text msg

append_all_lem :
    (ss : List (List ℕ)) (d : Dest)
    → length (join ss) < d.room
    → d.room < 2 ^ 31
    → append_all ss d ≡ some (record { text = d.text ++ join ss; room = d.room - length (join ss) })
unfolding append_all append_string
append_all_lem [] d h small =
    ap₂ (λ (t : List ℕ) (r : ℕ). some (record { text = t; room = r })) (sym (append-nil d.text))
      (omega arith)
append_all_lem (s ∷ ss) d h small =
    let split = length-append s (join ss) in
    let fits : (leb d.room (length s) || leb (2 ^ 31) d.room) ≡ false = ground (arith, split, h) in
    let d' : Dest = record { text = d.text ++ s; room = d.room - length s } in
    rw (fits, append_all)
      (append_all_lem ss d' (omega (arith, split, h)) (omega (arith, small))
        ∙ ap₂ (λ (t : List ℕ) (r : ℕ). some (record { text = t; room = r }))
            (append_assoc d.text s (join ss)) (omega (arith, split)))

abbrev sum_lengths : List (List ℕ) → ℕ
sum_lengths [] = 0
sum_lengths (s ∷ ss) = length s + sum_lengths ss

length-join : (ss : List (List ℕ)) → length (join ss) ≡ sum_lengths ss
length-join [] = refl
length-join (s ∷ ss) = omega (arith, length-append s (join ss), length-join ss)

sum_lengths-append :
    (ss ts : List (List ℕ)) → sum_lengths (ss ++ ts) ≡ sum_lengths ss + sum_lengths ts
sum_lengths-append [] ts = omega arith
sum_lengths-append (s ∷ ss) ts = omega (arith, sum_lengths-append ss ts)

head_length :
    (msg : Message) (k : Kind)
    → sum_lengths (head_strings msg k) ≡ length msg.protocol + kind_length k
unfolding kind_length
head_length msg (request command target) = omega arith
head_length msg (response code status) = omega arith

options_text_length : (os : List OptionItem) → sum_lengths (option_strings os) ≡ options_length os
unfolding options_length
options_text_length [] = refl
options_text_length (o ∷ os) = omega (arith, options_text_length os)

-- All that getMessageLength counts, without the cut to 32 bits.
abbrev pub count_bytes : Message → ℕ
count_bytes msg =
    1
    + length msg.protocol
    + kind_length msg.kind
    + options_length msg.options
    + crlf_length
    + msg.payload_length

abbrev pub all_strings : Message → List (List ℕ)
all_strings msg = head_strings msg msg.kind ++ (option_strings msg.options ++ crlf ∷ [])

pub strings_length :
    (msg : Message) → length (join (all_strings msg)) + 1 + msg.payload_length ≡ count_bytes msg
strings_length msg = omega (
  arith,
  length-join (all_strings msg),
  sum_lengths-append (head_strings msg msg.kind) (option_strings msg.options ++ crlf ∷ []),
  sum_lengths-append (option_strings msg.options) (crlf ∷ []),
  head_length msg msg.kind,
  options_text_length msg.options,
)

append_payload_lem :
    (msg : Message) (text : List ℕ)
    → append_payload msg (record { text = text; room = 1 + msg.payload_length })
      ≡ some (text ++ payload_text msg)
unfolding append_payload
append_payload_lem msg text = go msg.payload
  where
    go :
        (p : Option (List ℕ))
        → (elim p [
          | none ↦ some text
          | some memory ↦
              if ltb (1 + msg.payload_length) msg.payload_length
              then none
              else some (text ++ take msg.payload_length memory)
        ])
          ≡ some (text ++ elim p [ none ↦ [] | some memory ↦ take msg.payload_length memory ])
    go none = ap some (sym (append-nil text))
    go (some memory) = ground arith

-- If there is memory and the message is shorter than 2^31 bytes, serializeRtspMessage returns the whole
-- text of the message: the length that getMessageLength counts is enough for all that is appended.
pub serialize_rtsp_message_lem :
    (msg : Message)
    → count_bytes msg < 2 ^ 31
    → serialize_rtsp_message true msg ≡ some (message_text msg)
unfolding serialize_rtsp_message get_message_length
serialize_rtsp_message_lem msg small =
    let d : Dest = record { text = []; room = get_message_length msg } in
    let room : get_message_length msg ≡ count_bytes msg = omega (arith, small) in
    let left : get_message_length msg - length (join (all_strings msg)) ≡ 1 + msg.payload_length =
      omega (arith, room, strings_length msg) in
    let all =
      append_all_lem (all_strings msg) d (omega (arith, room, strings_length msg))
        (omega (arith, room, small)) in
    rw (all, left) (append_payload_lem msg (join (all_strings msg)))

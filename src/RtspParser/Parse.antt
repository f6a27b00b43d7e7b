-- ===== src/RtspParser/Parse.antt =====
-- parseRtspMessage of RtspParser.c. The message buffer is memory: the message's bytes, the zero byte
-- that the parser puts behind them, and the memory beyond the buffer, which is a parameter.
use moonlight_common_c.Prelude.{
  ℕ, zero, suc, ◌+◌, ◌-◌, ◌^◌, Bool, not, ◌&&◌, Option, none, some, List, [], ◌∷◌, ◌++◌, ◌==◌,
  if◌then◌else◌, length, drop,
}
use moonlight_common_c.Seq.{u32}
use moonlight_common_c.RtspParser.{
  OptionItem, Kind, request, response, Message, get_option_content, insert_option,
  create_rtsp_request, create_rtsp_response,
}
use moonlight_common_c.RtspParser.Chars.{
  ℤ, negsuc, str_eq, atoi, starts_with, byte_at, Token, strtok, crlf,
}

-- The delimiters `delim` and `optDelim`; `end` is `crlf`.
abbrev pub delim : List ℕ
delim = 32 ∷ crlf

abbrev pub opt_delim : List ℕ
opt_delim = 32 ∷ 58 ∷ crlf

-- "RTSP", "RTSP/1.0" and "CSeq"
abbrev pub rtsp : List ℕ
rtsp = 82 ∷ 84 ∷ 83 ∷ 80 ∷ []

abbrev pub rtsp_version : List ℕ
rtsp_version = rtsp ++ 47 ∷ 49 ∷ 46 ∷ 48 ∷ []

abbrev pub cseq : List ℕ
cseq = 67 ∷ 83 ∷ 101 ∷ 113 ∷ []

-- SEQ_INVALID
abbrev pub seq_invalid : ℤ
seq_invalid = negsuc 0

-- The first line: the kind, the protocol, and where the search for tokens goes on.
pub record FirstLine : Type 0 where
  pub kind : Kind
  pub protocol : List ℕ
  pub rest : List ℕ

unfoldable pub response_line : Token → Option FirstLine
response_line token = elim (strtok delim token.rest) [
  | none ↦ none
  | some code ↦ elim (strtok crlf code.rest) [
    | none ↦ none
    | some status ↦ some (record {
      kind = response (atoi code.text) status.text;
      protocol = token.text;
      rest = status.rest;
    })
  ]
]

unfoldable pub request_line : Token → Option FirstLine
request_line token = elim (strtok delim token.rest) [
  | none ↦ none
  | some target ↦ elim (strtok delim target.rest) [
    | none ↦ none
    | some protocol ↦ some (record {
      kind = request token.text target.text;
      protocol = protocol.text;
      rest = protocol.rest;
    })
  ]
]

unfoldable pub first_line : List ℕ → Option FirstLine
first_line memory = elim (strtok delim memory) [
  | none ↦ none
  | some token ↦ if starts_with token.text rtsp then response_line token else request_line token
]

-- How the memory at `endCheck` ends the options, if it does: with or without a payload.
pub data Ending : Type 0 where
  goes_on ends : Ending
  ends_with : List ℕ → Ending

unfoldable pub ending : List ℕ → Ending
ending s =
    if starts_with s (10 ∷ []) && byte_at 1 s == 0
    then ends
    else if starts_with s (10 ∷ 13 ∷ []) && byte_at 2 s == 0
    then ends
    else if starts_with s (10 ∷ 13 ∷ 10 ∷ [])
    then (if byte_at 3 s == 0 then ends else ends_with (drop 3 s))
    else goes_on

-- How the loop over the options comes out: with the options and the payload, without an end of the
-- message, or without memory for an option.
pub data Outcome : Type 0 where
  ended : List OptionItem → Option (List ℕ) → Outcome
  unended no_option_memory : Outcome

abbrev pub new_item : List ℕ → List ℕ → OptionItem
new_item name token = record { flags = 0; option = name; content = drop 1 token }

-- Whether the malloc for the next option succeeds, by the number of those before it.
module _ (alloc : ℕ → Bool) where
  -- The loop, two tokens a round, on fuel: `none` if the fuel runs out.
  unfoldable pub options_loop : ℕ → ℕ → List OptionItem → List ℕ → Option Outcome
  options_loop zero k options s = none
  options_loop (suc fuel) k options s = elim (strtok opt_delim s) [
    | none ↦ some unended
    | some name ↦ elim (strtok crlf name.rest) [
      | none ↦ some unended
      | some token ↦
          let options' = insert_option options (new_item name.text token.text) in
          let next = options_loop fuel (suc k) options' token.rest in
          if not (alloc k) then some no_option_memory else elim (ending token.after) [
            | ends ↦ some (ended options' none)
            | ends_with payload ↦ some (ended options' (some payload))
            | goes_on ↦ next
          ]
    ]
  ]

pub data Parsed : Type 0 where
  parsed : Message → Parsed
  malformed no_memory : Parsed

abbrev pub sequence_of : Option (List ℕ) → ℤ
sequence_of none = seq_invalid
sequence_of (some content) = atoi content

-- The length of the payload, an `int` by its 32 bits: the bytes of the message less those in front
-- of the payload, in memory of `total` bytes.
abbrev pub payload_size : ℕ → ℕ → Option (List ℕ) → ℕ
payload_size len total none = 0
payload_size len total (some payload) = u32 (len + 2 ^ 32 - u32 (total - length payload))

-- The flags are FLAG_ALLOCATED_MESSAGE_BUFFER | FLAG_ALLOCATED_OPTION_ITEMS.
unfoldable pub packaged : Kind → List ℕ → List OptionItem → Option (List ℕ) → ℕ → Message
packaged (request command target) protocol options payload size =
    create_rtsp_request 6 command target protocol (sequence_of (get_option_content options cseq))
      options payload size
packaged (response code status) protocol options payload size =
    create_rtsp_response 6 protocol code status (sequence_of (get_option_content options cseq))
      options payload size

unfoldable pub conclude : FirstLine → ℕ → ℕ → Option Outcome → Option Parsed
conclude line len total none = none
conclude line len total (some unended) = some malformed
conclude line len total (some no_option_memory) = some no_memory
conclude line len total (some (ended options payload)) =
    some
      (parsed (packaged line.kind line.protocol options payload (payload_size len total payload)))

-- parseRtspMessage. `buffer` says whether the malloc of the message buffer succeeds. `none` is
-- running out of fuel, which is one round for each byte that is left.
unfoldable pub parse_rtsp_message : Bool → (ℕ → Bool) → List ℕ → List ℕ → Option Parsed
parse_rtsp_message buffer alloc message beyond =
    let memory = message ++ 0 ∷ beyond in
    if not buffer then some no_memory else elim (first_line memory) [
      | none ↦ some malformed
      | some line ↦
          let outcome = options_loop alloc (suc (length line.rest)) 0 [] line.rest in
          if str_eq line.protocol rtsp_version
          then conclude line (length message) (length memory) outcome
          else some malformed
    ]

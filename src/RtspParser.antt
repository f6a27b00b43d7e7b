-- ===== src/RtspParser.antt =====
-- RtspParser.c and Rtsp.h: RTSP messages, their option lists and their text form. Strings are lists
-- of bytes without the terminator.
pub mod Chars
pub mod Parse
pub mod Options
pub mod Serialize
pub mod ParseTotal
pub mod Tokens
pub mod Decimal
pub mod ReadLines
pub mod RoundTrip
mod Tests
use moonlight_common_c.Prelude.{
  has_bit, ℕ, ◌+◌, ◌-◌, ◌%◌, ◌/◌, ◌^◌, Bool, true, false, not, ◌&&◌, ◌||◌, Option, none, some, List,
  [], ◌∷◌, ◌++◌, ltb, leb, ◌==◌, if◌then◌else◌, length, take,
}
use moonlight_common_c.Seq.{u32}
use moonlight_common_c.RtspParser.Chars.{ℤ, str_eq, print_int, space, colon, crlf}

-- OPTION_ITEM. The link to the next item is the list's.
pub record OptionItem : Type 0 where
  pub flags : ℕ
  pub option : List ℕ
  pub content : List ℕ

-- The message's type and the union behind it.
pub data Kind : Type 0 where
  -- The command and the target.
  request : List ℕ → List ℕ → Kind
  -- The status code and the status string.
  response : ℤ → List ℕ → Kind

-- RTSP_MESSAGE. The payload is the memory from its pointer on, and its length is an `int` by its
-- 32 bits.
pub record Message : Type 0 where
  pub kind : Kind
  pub flags : ℕ
  pub sequence_number : ℤ
  pub protocol : List ℕ
  pub options : List OptionItem
  pub payload : Option (List ℕ)
  pub payload_length : ℕ

-- getOptionContent
unfoldable pub get_option_content : List OptionItem → List ℕ → Option (List ℕ)
get_option_content [] name = none
get_option_content (o ∷ os) name =
    if str_eq o.option name then some o.content else get_option_content os name

-- insertOption: an option of the same name gets the new content, else the option goes to the end.
unfoldable pub insert_option : List OptionItem → OptionItem → List OptionItem
insert_option [] new = new ∷ []
insert_option (o ∷ os) new =
    if str_eq o.option new.option
    then record o { content = new.content } ∷ os
    else o ∷ insert_option os new

-- What freeOptionList and freeMessage hand to `free`.
pub data Freed : Type 0 where
  message_buffer payload_memory : Freed
  option_fields option_item : OptionItem → Freed

unfoldable pub free_option_list : List OptionItem → List Freed
free_option_list [] = []
free_option_list (o ∷ os) =
    (if has_bit 0 o.flags then option_fields o ∷ [] else [])
    ++ (option_item o ∷ free_option_list os)

unfoldable pub free_message : Message → List Freed
unfolding free_option_list
free_message msg =
    (if has_bit 1 msg.flags then message_buffer ∷ [] else [])
    ++ (if has_bit 2 msg.flags then free_option_list msg.options else [])
    ++ (if has_bit 3 msg.flags then payload_memory ∷ [] else [])

-- createRtspRequest
unfoldable pub create_rtsp_request :
    ℕ → List ℕ → List ℕ → List ℕ → ℤ → List OptionItem → Option (List ℕ) → ℕ → Message
create_rtsp_request flags command target protocol sequence options payload len = record {
  kind = request command target;
  flags = flags;
  sequence_number = sequence;
  protocol = protocol;
  options = options;
  payload = payload;
  payload_length = len;
}

-- createRtspResponse
unfoldable pub create_rtsp_response :
    ℕ → List ℕ → ℤ → List ℕ → ℤ → List OptionItem → Option (List ℕ) → ℕ → Message
create_rtsp_response flags protocol code status sequence options payload len = record {
  kind = response code status;
  flags = flags;
  sequence_number = sequence;
  protocol = protocol;
  options = options;
  payload = payload;
  payload_length = len;
}

-- MESSAGE_END_LENGTH and CRLF_LENGTH
abbrev pub message_end_length : ℕ
message_end_length = 4

abbrev pub crlf_length : ℕ
crlf_length = 2

unfoldable pub kind_length : Kind → ℕ
kind_length (request command target) = length command + length target + message_end_length
kind_length (response code status) = length (print_int code) + length status + message_end_length

unfoldable pub options_length : List OptionItem → ℕ
options_length [] = 0
options_length (o ∷ os) =
    length o.option + length o.content + message_end_length + options_length os

-- getMessageLength. The `int` that it returns is given by its 32 bits, and the counts before stay
-- below 2^64.
unfoldable pub get_message_length : Message → ℕ
unfolding kind_length options_length
get_message_length msg = u32 (
    1
    + length msg.protocol
    + kind_length msg.kind
    + options_length msg.options
    + crlf_length
    + msg.payload_length)

-- The text written so far and the room left of a buffer, an `int` by its 32 bits.
pub record Dest : Type 0 where
  pub text : List ℕ
  pub room : ℕ

-- appendString: `none` if it returns false. The text and its terminator must fit in the room; a
-- negative room takes nothing.
unfoldable pub append_string : List ℕ → Dest → Option Dest
append_string source d =
    if leb d.room (length source) || leb (2 ^ 31) d.room
    then none
    else some (record { text = d.text ++ source; room = d.room - length source })

-- The chain of appendString calls, up to the first that fails.
unfoldable pub append_all : List (List ℕ) → Dest → Option Dest
unfolding append_string
append_all [] d = some d
append_all (s ∷ ss) d = elim (append_string s d) [ none ↦ none | some d' ↦ append_all ss d' ]

-- The strings that serializeRtspMessage appends, in order.
abbrev pub head_strings : Message → Kind → List (List ℕ)
head_strings msg (request command target) =
    command ∷ space ∷ target ∷ space ∷ msg.protocol ∷ crlf ∷ []
head_strings msg (response code status) =
    msg.protocol ∷ space ∷ print_int code ∷ space ∷ status ∷ crlf ∷ []

abbrev pub option_strings : List OptionItem → List (List ℕ)
option_strings [] = []
option_strings (o ∷ os) = o.option ∷ (colon ++ space) ∷ o.content ∷ crlf ∷ option_strings os

-- Copying the payload. A negative length, with which the memcpy is undefined, is taken to fail.
unfoldable pub append_payload : Message → Dest → Option (List ℕ)
append_payload msg d = elim msg.payload [
  | none ↦ some d.text
  | some memory ↦
      if ltb d.room msg.payload_length
      then none
      else some (d.text ++ take msg.payload_length memory)
]

-- serializeRtspMessage: `none` if it returns NULL. The flag says whether its malloc succeeds.
unfoldable pub serialize_rtsp_message : Bool → Message → Option (List ℕ)
unfolding append_all append_payload get_message_length
serialize_rtsp_message memory msg =
    let start : Dest = record { text = []; room = get_message_length msg } in
    let strings = head_strings msg msg.kind ++ (option_strings msg.options ++ crlf ∷ []) in
    if not memory
    then none
    else elim (append_all strings start) [ none ↦ none | some d ↦ append_payload msg d ]

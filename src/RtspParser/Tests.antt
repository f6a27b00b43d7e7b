-- ===== src/RtspParser/Tests.antt =====
-- RtspParser.c at concrete messages.
use moonlight_common_c.Prelude.{
  ◌≡◌, ◌<◌, ◌^◌, refl, Bool, true, false, Option, none, some, List, [], ◌∷◌, ◌++◌, if◌then◌else◌, ℕ,
  arith,
}
use moonlight_common_c.RtspParser.{
  OptionItem, Message, request, kind_length, options_length, get_option_content, insert_option,
  serialize_rtsp_message,
}
use moonlight_common_c.RtspParser.Chars.{pos, str_eq, starts_with, strtok, skip_delims, token_from}
use moonlight_common_c.RtspParser.Parse.{
  Parsed, parsed, malformed, no_memory, rtsp_version, cseq, first_line, response_line, options_loop,
  ending, conclude, parse_rtsp_message,
}
use moonlight_common_c.RtspParser.Options.{
  DistinctOptions, get_option_content-insert_option, insert_option-DistinctOptions,
}
use moonlight_common_c.RtspParser.ParseTotal.{parse_rtsp_message_total}
use moonlight_common_c.RtspParser.Serialize.{message_text, serialize_rtsp_message_lem, count_bytes}
use moonlight_common_c.RtspParser.ReadLines.{all_memory}
use moonlight_common_c.RtspParser.RoundTrip.{
  IsMessage, read_back, parse_rtsp_message-serialize_rtsp_message,
}

abbrev option_of : List ℕ → List ℕ → OptionItem
option_of name content = record { flags = 0; option = name; content = content }

-- "CSeq: 7" and "A: b"
abbrev two_options : List OptionItem
two_options = option_of cseq (55 ∷ []) ∷ option_of (65 ∷ []) (98 ∷ []) ∷ []

-- "GO x RTSP/1.0" with the payload "hi", of which more memory follows.
abbrev message : Message
message = record {
  kind = request (71 ∷ 79 ∷ []) (120 ∷ []);
  flags = 0;
  sequence_number = pos 7;
  protocol = rtsp_version;
  options = two_options;
  payload = some (104 ∷ 105 ∷ 106 ∷ []);
  payload_length = 2;
}

message-IsMessage : IsMessage message
unfolding starts_with str_eq kind_length options_length
message-IsMessage = record {
  first = (refl, refl, refl);
  version = refl;
  some_option = refl;
  options = ((refl, refl), ((refl, refl), tt));
  distinct = (refl, (apart, tt));
  payload = refl;
  short = short;
}
  where
    apart : str_eq cseq (65 ∷ []) ≡ false
    apart = refl

    short : count_bytes message < 2 ^ 31
    short = omega arith

parse_rtsp_message-serialize_rtsp_message_example :
    (serialize_rtsp_message true message ≡ some (message_text message))
    × (parse_rtsp_message true all_memory (message_text message) (1 ∷ [])
        ≡ some (parsed (read_back message (1 ∷ []))))
parse_rtsp_message-serialize_rtsp_message_example =
    parse_rtsp_message-serialize_rtsp_message message (1 ∷ []) message-IsMessage

serialize_rtsp_message_lem_example :
    serialize_rtsp_message true message ≡ some (message_text message)
serialize_rtsp_message_lem_example = serialize_rtsp_message_lem message message_short
  where
    message_short : count_bytes message < 2 ^ 31
    message_short = message-IsMessage.short

-- A status line and an option that the message breaks off behind.
abbrev cut_message : List ℕ
cut_message = rtsp_version ++ 32 ∷ 50 ∷ 32 ∷ 79 ∷ 13 ∷ 10 ∷ 65 ∷ 58 ∷ 32 ∷ 98 ∷ []

parse_rtsp_message_total_example :
    (r : Parsed) × (parse_rtsp_message true all_memory cut_message [] ≡ some r)
parse_rtsp_message_total_example = parse_rtsp_message_total true all_memory cut_message []

-- Whether this message is accepted depends on the memory behind the buffer.
cut_rejected : parse_rtsp_message true all_memory cut_message (1 ∷ 0 ∷ []) ≡ some malformed
unfolding parse_rtsp_message first_line response_line options_loop conclude strtok skip_delims
    token_from starts_with ending str_eq
cut_rejected = refl

abbrev is_parsed : Option Parsed → Bool
is_parsed none = false
is_parsed (some malformed) = false
is_parsed (some no_memory) = false
is_parsed (some (parsed m)) = true

cut_accepted : is_parsed (parse_rtsp_message true all_memory cut_message (10 ∷ 0 ∷ [])) ≡ true
unfolding parse_rtsp_message first_line response_line options_loop conclude strtok skip_delims
    token_from starts_with ending str_eq
cut_accepted = refl

get_option_content-insert_option_example :
    get_option_content (insert_option two_options (option_of cseq (56 ∷ []))) cseq
    ≡ (if str_eq cseq cseq then some (56 ∷ []) else get_option_content two_options cseq)
get_option_content-insert_option_example =
    get_option_content-insert_option two_options (option_of cseq (56 ∷ [])) cseq

two_options-DistinctOptions : DistinctOptions two_options
unfolding str_eq
two_options-DistinctOptions = (refl, (refl, tt))

insert_option-DistinctOptions_example :
    DistinctOptions (insert_option two_options (option_of (66 ∷ []) []))
insert_option-DistinctOptions_example =
    insert_option-DistinctOptions two_options (option_of (66 ∷ []) []) two_options-DistinctOptions

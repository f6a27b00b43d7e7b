-- ===== src/Connection.antt =====
-- Connection.c: the stages in which a connection is set up, and their undoing when one of them fails
-- or the client stops the connection.
pub mod Inv
pub mod Stages
pub mod Reach
mod Tests
use moonlight_common_c.Prelude.{
  ℕ, zero, suc, ◌+◌, ◌-◌, ◌*◌, ◌/◌, ◌%◌, ◌^◌, Bool, true, false, not, ◌&&◌, ◌||◌, Option, none,
  some, List, [], ◌∷◌, ltb, leb, ◌==◌, if◌then◌else◌, has_bit,
}
use moonlight_common_c.RtspParser.Chars.{ℤ, pos, negsuc, signed, skip_blanks}

-- What the client and the other parts get to see, and what the stages set up and undo. Stages are
-- numbered as in Limelight.h.
pub data Event : Type 0 where
  listener_hooked : Event
  stage_starting : ℕ → Event
  stage_failed : ℕ → ℕ → Event
  stage_complete : ℕ → Event
  opened : ℕ → Event
  closed : ℕ → Event
  mouse_moved : ℤ → ℤ → Event
  connection_started : Event
  connection_terminated : ℕ → Event

-- Where the host is.
pub data Streaming : Type 0 where
  local : Streaming
  remote : Streaming
  automatic : Streaming

-- The part of STREAM_CONFIGURATION that the connection reads or changes. Its numbers are not negative.
pub record StreamConfig : Type 0 where
  pub width : ℕ
  pub height : ℕ
  pub packet_size : ℕ
  pub streaming_remotely : Streaming
  pub audio_configuration : ℕ

-- The variables of Connection.c, and the log, the newest event first.
pub record Connection : Type 0 where
  pub stage : ℕ
  pub already_terminated : Bool
  pub interrupted : Bool
  pub has_address : Bool
  pub rtsp_port : ℕ
  pub config : StreamConfig
  pub capabilities : ℕ
  pub log : List Event

abbrev pub tell : Event → Connection → Connection
tell e c = record c { log = e ∷ c.log }

-- Name resolution and the RTSP handshake leave nothing behind.
abbrev pub has_cleanup : ℕ → Bool
has_cleanup n = not (n == 2 || n == 4)

-- LiInterruptConnection
unfoldable pub li_interrupt_connection : Connection → Connection
li_interrupt_connection c = record c { interrupted = true }

-- One step of LiStopConnection.
unfoldable pub undo : ℕ → Connection → Connection
undo n c =
    if c.stage == n
    then record c { stage = c.stage - 1; log = if has_cleanup n then closed n ∷ c.log else c.log }
    else c

unfoldable pub undo_from : ℕ → Connection → Connection
undo_from zero c = c
undo_from (suc n) c = undo_from n (undo (suc n) c)

-- LiStopConnection, with the stages from STAGE_INPUT_STREAM_START down to STAGE_PLATFORM_INIT.
unfoldable pub li_stop_connection : Connection → Connection
unfolding li_interrupt_connection
li_stop_connection c =
    let c' = undo_from 11 (li_interrupt_connection (record c { already_terminated = true })) in
    record c' { has_address = false }

-- ClInternalConnectionTerminated. The client's callback runs on a thread of its own, which is taken to
-- start. The calls of several threads are taken one after the other: the code does not lock.
unfoldable pub cl_internal_connection_terminated : ℕ → Connection → Connection
cl_internal_connection_terminated err c =
    if c.already_terminated || c.interrupted
    then c
    else record c { already_terminated = true; log = connection_terminated err ∷ c.log }

-- What other threads do while a stage is being set up.
pub data Meanwhile : Type 0 where
  reported : ℕ → Meanwhile
  interrupts : Meanwhile

abbrev pub meanwhile : List Meanwhile → Connection → Connection
meanwhile [] c = c
meanwhile (reported err ∷ ms) c = meanwhile ms (cl_internal_connection_terminated err c)
meanwhile (interrupts ∷ ms) c = meanwhile ms (li_interrupt_connection c)

-- The text behind the last colon.
abbrev pub after_last_colon : List ℕ → Option (List ℕ)
after_last_colon [] = none
after_last_colon (x ∷ xs) = elim (after_last_colon xs) [
  | some s ↦ some s
  | none ↦ if x == 58 then some xs else none
]

abbrev pub port_of : ℤ → Option ℕ
port_of (pos x) = if x == 0 || ltb 65535 x then none else some x
port_of (negsuc x) = none

-- parseRtspPortNumberFromUrl. The value of strtol is not cut off at LONG_MAX, above which no port is.
unfoldable pub parse_rtsp_port_number_from_url : Option (List ℕ) → Option ℕ
unfolding signed skip_blanks
parse_rtsp_port_number_from_url none = none
parse_rtsp_port_number_from_url (some url) = elim (after_last_colon url) [
  | none ↦ none
  | some s ↦ port_of (signed (skip_blanks s))
]

-- What LiStartConnection is asked for: the capabilities of the renderer's callbacks, which may be
-- missing, whether these submit decode units, and whether the host's version string can be read.
pub record Request : Type 0 where
  pub renderer : Option ℕ
  pub has_submit : Bool
  pub codec_modes : ℕ
  pub version_ok : Bool
  pub session_url : Option (List ℕ)
  pub stream : StreamConfig

-- What the other parts return: 0 for success, and else an error as the bits of an `int`.
pub record World : Type 0 where
  pub is_sunshine : Bool
  pub during : ℕ → List Meanwhile
  pub initialize_platform : ℕ
  pub resolve_host_name : ℕ → ℕ → ℕ
  pub local_address : ℕ
  pub is_nat64 : Bool
  pub is_private : Bool
  pub is_ipv4 : Bool
  pub initialize_audio_stream : ℕ
  pub perform_rtsp_handshake : ℕ
  pub initialize_control_stream : ℕ
  pub start_control_stream : ℕ
  pub start_video_stream : ℕ
  pub start_audio_stream : ℕ
  pub start_input_stream : ℕ

abbrev pub minus_one : ℕ
minus_one = 2 ^ 32 - 1

abbrev pub conflicts : Bool → Option ℕ → Bool
conflicts has_submit none = false
conflicts has_submit (some capabilities) =
    has_bit 5 capabilities && has_submit || has_bit 5 capabilities && has_bit 0 capabilities

abbrev pub is_refused : Request → Bool
is_refused r = conflicts r.has_submit r.renderer || r.codec_modes == 0 || not r.version_ok

abbrev pub given {ℓ} : {A : Type ℓ} → A → Option A → A
given a none = a
given a (some b) = b

-- The variables that a new connection starts from.
unfoldable pub prepare : Request → Connection → Connection
unfolding parse_rtsp_port_number_from_url
prepare r c = record c {
  already_terminated = false;
  interrupted = false;
  has_address = true;
  rtsp_port = given 48010 (parse_rtsp_port_number_from_url r.session_url);
  config = r.stream;
  capabilities = given 0 r.renderer;
  log = listener_hooked ∷ c.log;
}

abbrev pub is_bad_audio : ℕ → Bool
is_bad_audio x = not (x % 256 == 202) || ltb 8 (x / 256 % 256)

abbrev pub round_packet_size : StreamConfig → StreamConfig
round_packet_size s = record s { packet_size = s.packet_size - s.packet_size % 16 }

-- No odd height, and no reference frame invalidation for 4K with GFE.
unfoldable pub adjust : World → Connection → Connection
adjust w c =
    let s = record c.config { height = c.config.height / 2 * 2 } in
    record c {
      config = s;
      capabilities =
          if s.width == 3840 && s.height == 2160 && has_bit 1 c.capabilities && not w.is_sunshine
          then c.capabilities - 2
          else c.capabilities;
    }

-- Up to three attempts at the host's name, and then its local address.
unfoldable pub resolve : World → ℕ → ℕ
resolve w port =
    let err =
      if not (port == 48010)
      then (if not (w.resolve_host_name 0 port == 0) then w.resolve_host_name 1 port else 0)
      else if not (w.resolve_host_name 0 47984 == 0)
      then if not (w.resolve_host_name 1 47989 == 0) then w.resolve_host_name 2 48010 else 0
      else 0 in
    if not (err == 0) then err else w.local_address

-- What STREAM_CFG_AUTO stands for, and the limit of the packet size that comes with it.
unfoldable pub choose_remotely : World → Streaming → StreamConfig → StreamConfig
choose_remotely w local s = s
choose_remotely w remote s = s
choose_remotely w automatic s =
    if not w.is_nat64 && w.is_private then record s { streaming_remotely = local } else record s {
      streaming_remotely = remote;
      packet_size = if w.is_ipv4 || w.is_nat64 then 1024 else 1184;
    }

abbrev pub choose : World → Connection → Connection
choose w c = record c { config = choose_remotely w c.config.streaming_remotely c.config }

-- One stage, with what its function returns.
unfoldable pub open_stage : World → ℕ → ℕ → Connection → Connection × ℕ
open_stage w n err c =
    let c' = meanwhile (w.during n) (tell (stage_starting n) c) in
    if err == 0
    then (
      record c' {
        stage = c'.stage + 1;
        log = stage_complete n ∷ (if has_cleanup n then opened n ∷ c'.log else c'.log);
      },
      0,
    )
    else (tell (stage_failed n err) c', err)

-- On an error LiStartConnection goes on at its label Cleanup.
abbrev pub and_then : Connection × ℕ → (Connection → Connection × ℕ) → Connection × ℕ
and_then (c, err) k = if err == 0 then k c else (c, err)

-- The mouse is moved to and fro, which wakes the host's display.
abbrev pub celebrate : Connection → Connection × ℕ
celebrate c = (
  tell connection_started
      (tell (mouse_moved (negsuc 0) (negsuc 0)) (tell (mouse_moved (pos 1) (pos 1)) c)),
  0,
)

-- The second half of the stages, which start threads.
unfoldable pub start_stages : World → Connection → Connection × ℕ
start_stages w c = and_then (open_stage w 8 w.start_control_stream c) (λ c.
    and_then (open_stage w 9 w.start_video_stream c) (λ c.
      and_then (open_stage w 10 w.start_audio_stream c)
        (λ c. and_then (open_stage w 11 w.start_input_stream c) celebrate)))

unfoldable pub open_stages : World → Connection → Connection × ℕ
open_stages w c = and_then (open_stage w 1 w.initialize_platform c) (λ c.
    and_then (open_stage w 2 (resolve w c.rtsp_port) c) (λ c.
      and_then (open_stage w 3 w.initialize_audio_stream (choose w c)) (λ c.
        and_then (open_stage w 4 w.perform_rtsp_handshake c) (λ c.
          and_then (open_stage w 5 w.initialize_control_stream c) (λ c.
            and_then (open_stage w 6 0 c) (λ c. and_then (open_stage w 7 0 c) (start_stages w)))))))

unfoldable pub connect : World → Request → Connection → Connection × ℕ
connect w r c =
    let prepared = prepare r c in
    let rounded = record prepared { config = round_packet_size prepared.config } in
    if is_refused r
    then (c, minus_one)
    else if is_bad_audio prepared.config.audio_configuration
    then (prepared, minus_one)
    else if rounded.config.packet_size == 0
    then (rounded, minus_one)
    else open_stages w (adjust w rounded)

abbrev pub cleanup : Connection × ℕ → Connection × ℕ
cleanup (c, err) = if not (err == 0) then (li_stop_connection c, err) else (c, err)

-- LiStartConnection
unfoldable pub li_start_connection : World → Request → Connection → Connection × ℕ
li_start_connection w r c = cleanup (connect w r c)

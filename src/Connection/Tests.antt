-- ===== src/Connection/Tests.antt =====
-- Sample runs of LiStartConnection and LiStopConnection of Connection.c.
use moonlight_common_c.Prelude.{
  ℕ, ◌≡◌, refl, ◌⊎◌, ◌≤◌, true, false, some, List, [], ◌∷◌, ◌==◌, if◌then◌else◌,
}
use moonlight_common_c.Connection.{
  automatic, Connection, StreamConfig, World, Request, reported, parse_rtsp_port_number_from_url,
  cl_internal_connection_terminated, li_start_connection, li_stop_connection, prepare, adjust,
  choose_remotely, resolve, open_stage, open_stages, start_stages, connect, undo, undo_from,
}
use moonlight_common_c.Connection.Inv.{live, terminations}
use moonlight_common_c.Connection.Reach.{unused, IsStarted, IsUndone, li_start_connection_lem}

abbrev config : StreamConfig
config = record {
  width = 1920;
  height = 1081;
  packet_size = 1400;
  streaming_remotely = automatic;
  audio_configuration = 197322;
}

-- "rtsp://10.0.0.2:48020"
abbrev url : List ℕ
url =
    114 ∷ 116 ∷ 115 ∷ 112 ∷ 58 ∷ 47 ∷ 47 ∷ 49 ∷ 48 ∷ 46 ∷ 48 ∷ 46 ∷ 48 ∷ 46 ∷ 50 ∷ 58 ∷ 52 ∷ 56 ∷ 48
    ∷ 50 ∷ 48 ∷ []

abbrev request : Request
request = record {
  renderer = some 3;
  has_submit = true;
  codec_modes = 1;
  version_ok = true;
  session_url = some url;
  stream = config;
}

-- The control thread reports two errors while the control stream starts.
abbrev world : World
world = record {
  is_sunshine = false;
  during = λ n. if n == 8 then reported 5 ∷ reported 6 ∷ [] else [];
  initialize_platform = 0;
  resolve_host_name = λ attempt port. if attempt == 0 then 7 else 0;
  local_address = 0;
  is_nat64 = false;
  is_private = false;
  is_ipv4 = true;
  initialize_audio_stream = 0;
  perform_rtsp_handshake = 0;
  initialize_control_stream = 0;
  start_control_stream = 0;
  start_video_stream = 0;
  start_audio_stream = 0;
  start_input_stream = 0;
}

abbrev no_video : World
no_video = record world { start_video_stream = 9 }

abbrev idle : Connection
idle = record {
  stage = 0;
  already_terminated = false;
  interrupted = false;
  has_address = false;
  rtsp_port = 0;
  config = config;
  capabilities = 0;
  log = [];
}

abbrev up : Connection × ℕ
up = li_start_connection world request idle

abbrev down : Connection × ℕ
down = li_start_connection no_video request idle

port_in_url : parse_rtsp_port_number_from_url (some url) ≡ some 48020
unfolding parse_rtsp_port_number_from_url
port_in_url = refl

started_up : up.0.stage ≡ 11 × (up.1 ≡ 0) × (terminations up.0.log ≡ 1)
unfolding li_start_connection connect open_stages start_stages open_stage prepare adjust resolve
    choose_remotely cl_internal_connection_terminated
started_up = (refl, refl, refl)

adjusted : (up.0.config.height ≡ 1080) × (up.0.config.packet_size ≡ 1024) × (up.0.rtsp_port ≡ 48020)
unfolding li_start_connection connect open_stages start_stages open_stage prepare adjust resolve
    choose_remotely cl_internal_connection_terminated parse_rtsp_port_number_from_url
adjusted = (refl, refl, refl)

stopped_again : (li_stop_connection up.0).stage ≡ 0 × (live (li_stop_connection up.0).log ≡ some [])
unfolding li_start_connection connect open_stages start_stages open_stage prepare adjust resolve
    choose_remotely cl_internal_connection_terminated li_stop_connection undo_from undo
stopped_again = (refl, refl)

given_up : (down.1 ≡ 9) × (down.0.stage ≡ 0)
unfolding li_start_connection connect open_stages start_stages open_stage prepare adjust resolve
    choose_remotely cl_internal_connection_terminated li_stop_connection undo_from undo
given_up = (refl, refl)

-- The theorem at a start that fails.

li_start_connection_example : (IsStarted down ⊎ IsUndone down) × (terminations down.0.log ≤ 1)
li_start_connection_example =
    li_start_connection_lem no_video request idle (unused idle refl refl) refl

-- ===== src/VideoDepacketizer/Header.antt =====
-- processRtpPayload of VideoDepacketizer.c: the header in front of a frame, and the units in front of
-- its picture data.
use moonlight_common_c.Prelude.{
  ℕ, ◌+◌, ◌*◌, Bool, false, not, ◌&&◌, ◌||◌, List, ltb, leb, ◌==◌, if◌then◌else◌, length, drop,
  byte_at,
}
use moonlight_common_c.Seq.{sub32}
use moonlight_common_c.VideoDepacketizer.Nal.{
  VideoFormat, is_annex_b, at_start, skip_to_next_nal, is_access_unit_delimiter, skip_sei,
}
use moonlight_common_c.VideoDepacketizer.State.{DecoderStatus, idr, frame_loss, Depacketizer, tell}

-- AppVersionQuad. The fourth number only tells whether the host is Sunshine.
pub record AppVersion : Type 0 where
  pub major : ℕ
  pub minor : ℕ
  pub build : ℕ
  pub is_sunshine : Bool

-- APP_VERSION_AT_LEAST
unfoldable pub at_least : AppVersion → ℕ → ℕ → ℕ → Bool
at_least v a b c =
    ltb a v.major || v.major == a && ltb b v.minor || v.major == a && v.minor == b && leb c v.build

-- What the depacketizer takes from elsewhere: the format and the host's version, whether malloc
-- succeeds for the copy of the unit at which so many bytes are left, and for a decode unit, whether the decoder wants frames
-- submitted and what it answers, the time, and the display mode of the host and the stream.
pub record VideoEnv : Type 0 where
  pub format : VideoFormat
  pub version : AppVersion
  pub has_memory : ℕ → Bool
  pub has_unit_memory : Bool
  pub direct_submit : Bool
  pub decoder : DecoderStatus
  pub now_us : ℕ
  pub hdr_active : Bool
  pub stream_colorspace : ℕ

abbrev le16_at : List ℕ → ℕ → ℕ
le16_at bs i = byte_at bs i + 256 * byte_at bs (i + 1)

-- The frame type in the header, which may end a wait.
unfoldable pub end_rfi_wait : Depacketizer → Depacketizer
end_rfi_wait d = if d.wait_rfi then record d { wait_rfi = false; wait_success = false } else d

unfoldable pub see_frame_type : VideoFormat → ℕ → Depacketizer → Depacketizer
unfolding end_rfi_wait
see_frame_type fmt t d =
    if t == 2
    then end_rfi_wait (
        if is_annex_b fmt
        then d
        else record d { wait_idr = false; wait_success = false; frame_type = idr })
    else if t == 4 || t == 5
    then end_rfi_wait d
    else d

unfoldable pub note_frame_type : VideoEnv → ℕ → List ℕ → Depacketizer → Depacketizer
unfolding at_least see_frame_type tell
note_frame_type env frame bs d =
    if at_least env.version 7 1 350 && leb 4 (length bs)
    then see_frame_type env.format (byte_at bs 3) d
    else if d.wait_rfi
    then record (tell (frame_loss d.start_frame (sub32 frame 1)) d) {
      wait_rfi = false;
      wait_success = false;
    }
    else d

unfoldable pub note_lengths : VideoEnv → List ℕ → Depacketizer → Depacketizer
note_lengths env bs d = record d {
  host_latency =
      if env.version.is_sunshine && leb 3 (length bs) then le16_at bs 1 else d.host_latency;
  last_payload_length =
      if not (is_annex_b env.format) && leb 6 (length bs)
      then le16_at bs 4
      else d.last_payload_length;
}

-- The length of the header, which depends on the version and on the first byte.
unfoldable pub frame_header_size : AppVersion → ℕ → ℕ
unfolding at_least
frame_header_size v first =
    if at_least v 7 1 450
    then if first == 1 then 8 else 44
    else if at_least v 7 1 446
    then if first == 1 then 8 else 41
    else if at_least v 7 1 415
    then if first == 1 then 8 else 24
    else if at_least v 7 1 350
    then 8
    else if at_least v 7 1 320
    then 12
    else if at_least v 5 0 0
    then 8
    else 0

unfoldable pub skip_header : ℕ → List ℕ → List ℕ
skip_header size bs = if leb size (length bs) then drop size bs else bs

-- Padding, one access unit delimiter and the SEI units behind it.
unfoldable pub skip_prefix : VideoFormat → List ℕ → List ℕ
unfolding at_start skip_to_next_nal is_access_unit_delimiter skip_sei
skip_prefix fmt bs =
    let bs₁ = if at_start bs then bs else skip_to_next_nal bs in
    let bs₂ = if is_access_unit_delimiter fmt bs₁ then skip_to_next_nal bs₁ else bs₁ in
    skip_sei fmt (length bs₂) bs₂

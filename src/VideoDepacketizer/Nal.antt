-- ===== src/VideoDepacketizer/Nal.antt =====
-- VideoDepacketizer.c: start sequences and NAL units in an Annex B bitstream. A BUFFER_DESC is an offset
-- and a length in a fixed buffer that move together; it is the list of the bytes that remain.
use moonlight_common_c.Prelude.{
  ℕ, zero, suc, ◌/◌, ◌%◌, Bool, true, false, not, ◌&&◌, ◌||◌, List, [], ◌∷◌, ltb, leb, ◌==◌,
  if◌then◌else◌, length, drop, byte_at,
}

-- The groups of formats that NegotiatedVideoFormat is tested against. AV1 is not parsed.
pub data VideoFormat : Type 0 where
  h264 hevc unparsed : VideoFormat

abbrev pub is_annex_b : VideoFormat → Bool
is_annex_b h264 = true
is_annex_b hevc = true
is_annex_b unparsed = false

-- getAnnexBStartSequence: the length of the start sequence, 0 if there is none.
unfoldable pub start_length : List ℕ → ℕ
start_length bs =
    if leb (length bs) 3
    then 0
    else if byte_at bs 0 == 0 && byte_at bs 1 == 0
    then if byte_at bs 2 == 0
      then if ltb 4 (length bs) && byte_at bs 3 == 1 then 4 else 0
      else if byte_at bs 2 == 1
      then 3
      else 0
    else 0

unfoldable pub at_start : List ℕ → Bool
unfolding start_length
at_start bs = not (start_length bs == 0)

-- The byte behind the start sequence, which holds the type of the unit.
unfoldable pub type_byte : List ℕ → ℕ
unfolding start_length
type_byte bs = byte_at bs (start_length bs)

abbrev pub h264_nal_type : ℕ → ℕ
h264_nal_type x = x % 32

abbrev pub hevc_nal_type : ℕ → ℕ
hevc_nal_type x = x / 2 % 64

abbrev has_type : VideoFormat → ℕ → ℕ → ℕ → Bool
has_type h264 t u x = h264_nal_type x == t
has_type hevc t u x = hevc_nal_type x == u
has_type unparsed t u x = false

abbrev pub starts_idr_slice : VideoFormat → ℕ → Bool
starts_idr_slice h264 x = h264_nal_type x == 5
starts_idr_slice hevc x = leb 16 (hevc_nal_type x) && leb (hevc_nal_type x) 21
starts_idr_slice unparsed x = false

unfoldable pub is_seq_reference_frame_start : VideoFormat → List ℕ → Bool
unfolding at_start type_byte
is_seq_reference_frame_start fmt bs = at_start bs && starts_idr_slice fmt (type_byte bs)

unfoldable pub is_access_unit_delimiter : VideoFormat → List ℕ → Bool
unfolding at_start type_byte
is_access_unit_delimiter fmt bs = at_start bs && has_type fmt 9 35 (type_byte bs)

unfoldable pub is_sei_nal : VideoFormat → List ℕ → Bool
unfolding at_start type_byte
is_sei_nal fmt bs = at_start bs && has_type fmt 6 39 (type_byte bs)

unfoldable pub is_picture_parameter_set_nal : VideoFormat → List ℕ → Bool
unfolding at_start type_byte
is_picture_parameter_set_nal fmt bs = at_start bs && has_type fmt 8 34 (type_byte bs)

-- A sequence parameter set in H.264, a video parameter set in HEVC.
unfoldable pub is_idr_frame_start : VideoFormat → List ℕ → Bool
unfolding at_start type_byte
is_idr_frame_start fmt bs = at_start bs && has_type fmt 7 32 (type_byte bs)

-- The loop of skipToNextNalOrEnd.
unfoldable pub skip_bytes : List ℕ → List ℕ
unfolding at_start
skip_bytes [] = []
skip_bytes (x ∷ xs) = let rest = skip_bytes xs in if at_start (x ∷ xs) then x ∷ xs else rest

-- skipToNextNalOrEnd. In a build without assertions skipToNextNal does the same.
unfoldable pub skip_to_next_nal : List ℕ → List ℕ
unfolding skip_bytes start_length
skip_to_next_nal bs = skip_bytes (drop (start_length bs) bs)

-- The loop that skips SEI units, and the one that skips access unit delimiters as well.
unfoldable pub skip_sei : VideoFormat → ℕ → List ℕ → List ℕ
unfolding is_sei_nal skip_to_next_nal
skip_sei fmt zero bs = bs
skip_sei fmt (suc fuel) bs =
    let rest = skip_sei fmt fuel (skip_to_next_nal bs) in if is_sei_nal fmt bs then rest else bs

unfoldable pub skip_aud_sei : VideoFormat → ℕ → List ℕ → List ℕ
unfolding is_sei_nal is_access_unit_delimiter skip_to_next_nal
skip_aud_sei fmt zero bs = bs
skip_aud_sei fmt (suc fuel) bs =
    let rest = skip_aud_sei fmt fuel (skip_to_next_nal bs) in
    if is_access_unit_delimiter fmt bs || is_sei_nal fmt bs then rest else bs

-- The loop that moves to the end of the packet, one unit at a time.
unfoldable pub skip_to_end : ℕ → List ℕ → List ℕ
unfolding skip_to_next_nal
skip_to_end zero bs = bs
skip_to_end (suc fuel) bs =
    let rest = skip_to_end fuel (skip_to_next_nal bs) in if length bs == 0 then bs else rest

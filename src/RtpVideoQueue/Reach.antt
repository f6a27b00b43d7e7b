-- ===== src/RtpVideoQueue/Reach.antt =====
-- The states of the video queue that a program can bring about: initialisation, packets in any order
-- and with any content, and clean-up.
use moonlight_common_c.Prelude.{ℕ, ◌^◌, ◌<◌, refl, Bool, inl}
use moonlight_common_c.RtpVideoQueue.{add_packet}
use moonlight_common_c.RtpVideoQueue.State.{Packet, Queue, initialize, cleanup}
use moonlight_common_c.RtpVideoQueue.Recover.{Config}
use moonlight_common_c.RtpVideoQueue.Accept.{IsValid, add_packet-IsValid}
use moonlight_common_c.RtpVideoQueue.OneFrame.{IsOneFrame}
use moonlight_common_c.RtpVideoQueue.FrameKept.{add_packet-IsOneFrame}

pub data Reached (cfg : Config) : Queue → Type 0 where
  started : (capable : Bool) → Reached cfg (initialize capable)
  received :
      (q : Queue) (p : Packet) (len now : ℕ)
      → p.sequence_number < 2 ^ 16
      → Reached cfg q
      → Reached cfg (add_packet cfg q p len now).0
  cleaned : (q : Queue) → Reached cfg q → Reached cfg (cleanup q)

initialize-IsValid :
    (capable : Bool) → IsValid (initialize capable) × IsOneFrame (initialize capable)
unfolding initialize
initialize-IsValid capable = (inl refl, record { in_pending = tt; in_completed = tt })

cleanup-IsValid : (q : Queue) → IsValid (cleanup q) × IsOneFrame (cleanup q)
unfolding cleanup
cleanup-IsValid q = (inl refl, record { in_pending = tt; in_completed = tt })

-- Every queue that the operations bring about from an initialised one, with packets whose sequence
-- numbers have 16 bits and whatever the Reed-Solomon decoder gives back, is valid, and all packets in
-- it belong to its current frame.
pub Reached-IsValid : (cfg : Config) (q : Queue) → Reached cfg q → IsValid q × IsOneFrame q
Reached-IsValid cfg _ (started capable) = initialize-IsValid capable
Reached-IsValid cfg _ (received q p len now hs r) =
    let (valid, frame) = Reached-IsValid cfg q r in
    (add_packet-IsValid cfg q p len now valid hs, add_packet-IsOneFrame cfg q p len now frame)
Reached-IsValid cfg _ (cleaned q r) = cleanup-IsValid q

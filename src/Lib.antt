-- ===== src/Lib.antt =====
-- Verification of moonlight-common-c, the protocol core of a game streaming client.
--
-- The program receives a host's video and audio as RTP packets, repairs losses by forward error
-- correction, reassembles frames and hands them to a decoder; it drives the host over RTSP and a
-- control channel, and sends input events back. This library models the parts on which the
-- others stand: the packet formats are read and written through the byte buffer, the threads
-- pass packets and events through the linked blocking queue, and all received packets go through
-- the video or the audio queue, which compare 16-bit sequence numbers. The audio queue hands
-- packets to the loop that feeds the decoder; the video queue hands them to the depacketizer,
-- which joins them to frames. All parts are opened in stages when a connection starts, and
-- closed when it ends.
--
-- Files, and the code they are about (paths from the repository's root):
--   Prelude: names and helpers that the modules share.
--   Seq: the masks U16, U24, U32 and the comparisons isBefore16, isBefore24, isBefore32 of
--     src/Limelight-internal.h. Children: Order, Offset (theorems on serial numbers).
--   ByteBuffer: src/ByteBuffer.c and src/ByteBuffer.h. `get_bytes` is BbGetBytes, `put_int` is
--     BbPut16, BbPut32 and BbPut64 at the width in bytes, and so on. A host's byte order is a
--     parameter, as in the macros of src/Platform.h. Children: Bytes (bytes of a number), Inv (the
--     cursor stays in bounds), Ints (each operation), Fields, Write and Stream (chains of operations).
--   BlockingQueue: src/LinkedBlockingQueue.c and .h. `offer` is LbqOfferQueueItem, `poll` is
--     LbqPollQueueElement, `wait` is LbqWaitForQueueElement from its test on, and so on. Entries live
--     in a memory of addresses, so that a caller's entry and the links that other entries hold to it
--     are the same object. Each call holds the mutex, hence is one step; an interleaving of threads
--     is a sequence of calls. Children: Chain (links in memory), Spec (the contract, a bounded FIFO),
--     Refine and Run (the code implements it), Wake (signals of the condition variable).
--   RtpVideoQueue: src/RtpVideoQueue.c, src/RtpVideoQueue.h and the packet headers of src/Video.h.
--     `add_packet` is RtpvAddPacket, made of `place`, `begin_block`, `enqueue` and `try_finish` for
--     its parts; `queue_packet`, `reconstruct_frame`, `stage_complete_block` and
--     `submit_completed_frame` are the static functions of these names. The calls that the queue
--     makes to the control stream and the depacketizer are a log of events. Children: State, Insert,
--     Recover, Stage and Begin (the code), Window and Inv (the invariant), StageTotal, StageOrder,
--     Complete, Requeue, Refill, Reconstruct, Finish, Begun, Accept, OneFrame, FrameKept and Reach (its
--     theorems).
--   RtpAudioQueue: src/RtpAudioQueue.c, src/RtpAudioQueue.h and the loop of src/AudioStream.c that
--     drains the queue. `rtpa_add_packet` is RtpaAddPacket, `rtpa_get_queued_packet` is
--     RtpaGetQueuedPacket, `get_fec_block` is getFecBlockForRtpPacket, and so on. Packet bytes are read
--     in State. The linked blocks are a list, in order, and a pointer to a block is its place in it.
--     Children: State, Admit and Complete (the code), Inv, Blocks, Link, Shards, Admitted, Moves,
--     AddKept, GetKept, Drain, Reassemble, Errors and Reach (theorems).
--   VideoDepacketizer: src/VideoDepacketizer.c and the types of src/Limelight.h that it fills.
--     `process_rtp_payload` is processRtpPayload, whose parts are `add_payload`, `begin_frame`,
--     `read_frame_header` and `finish_frame`; `reassemble_frame`, `queue_fragment`, `process_slow` and
--     so on are the static functions of these names. A BUFFER_DESC is the list of the bytes that
--     remain in it. Calls to the control stream and the decoder are a log of events,
--     which begins with the stream. Children: Nal, State, Fragment, Header and Frame (the code), Inv,
--     Kept, Waiting, Boundary, Lost, Slow, Middle, Delivered, Reach, Ranges, Receive and Told
--     (theorems).
--   Connection: src/Connection.c. `li_start_connection` is LiStartConnection, made of `connect`,
--     `open_stages` and `start_stages` for its parts, and so on. Stages are numbered as in
--     src/Limelight.h. The calls of the client's callbacks and the opening and closing of stages are a
--     log of events. Children: Inv, Stages and Reach (theorems).
--   RtspParser: src/RtspParser.c and src/Rtsp.h, the text form of the messages that set a session up.
--     `parse_rtsp_message` is parseRtspMessage, `serialize_rtsp_message` is serializeRtspMessage, and
--     so on. Strings are lists of bytes. The message buffer is memory with a zero byte behind the
--     message and unknown memory beyond. Children: Chars (what the code uses of the C library), Parse
--     (the parser), Options, Serialize, ParseTotal, Tokens, Decimal, ReadLines and RoundTrip (theorems).
--
-- Numbers: an unsigned int is a natural number with its wrap-around written out. The lists of
-- the video queue are lists of entries, in order. A block has at most 1023 data packets and 255
-- percent of parity, hence at most 4000 packets.
-- Fuel: the staging loop of stageCompleteFecBlock has three rounds for each pending packet and
-- one more, and the loop over the options of parseRtspMessage one for each byte and one more.
-- Both are enough for every input. The audio loop has one round for each packet place of the
-- queue, four to a block, and one more. The loops over NAL units have one round for each byte.
-- Decimal numbers are printed with at most ten digits, as an `int` has.
--
-- Parameters: the Reed-Solomon decoder (nanors, behind src/rswrapper.c) is an arbitrary function
-- in `Config` and `AudioConfig`; what it returns is assumed to be right only where a theorem
-- says so. The host's version and display mode, the decoder's answers, what the functions of the
-- connection's stages return, the clock, whether allocations succeed, whether the decoder's queue
-- takes an audio packet, and the memory beyond the parser's buffer are arguments.
--
-- Not modelled: FEC_VALIDATION_MODE, logging and assertions, which a release build leaves out;
-- the byte order of the fields in a received video packet, which are taken in the host's order;
-- freeing packets. Of the other parts, sockets, threads and cryptography are I/O or other
-- libraries, and the control and input streams and SDP are not modelled.
pub mod Prelude
pub mod BlockingQueue
pub mod ByteBuffer
pub mod Connection
pub mod RtpAudioQueue
pub mod RtpVideoQueue
pub mod RtspParser
pub mod Seq
pub mod VideoDepacketizer

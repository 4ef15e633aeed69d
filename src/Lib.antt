-- ===== src/Lib.antt =====
-- Any-KVM, a remote keyboard, video and mouse switch: the agent (agent/src), the signalling server
-- (signal) and the control frames of the page (web).
--
-- The agent runs beside the controlled machine. It captures the machine's screen, sends it to a
-- browser over WebRTC, and turns the control frames that come back over a data channel into reports
-- of USB devices. The parts and their files:
--   * Config: the configuration records (agent/src/config.rs).
--   * Hid: the control frames (agent/src/hid.rs). Hid/Gadget is `run_gadget`, Hid/Ch9329 is
--     `run_ch9329` with its serial frames, and Hid/Launch is `run`, which chooses between them. A
--     write to a device and a command for the video module are an `Effect`.
--   * Stun: the STUN messages (agent/src/webrtc.rs, lines 494 to 632). The loop over the attributes,
--     which the code writes out in four parsers, is `walk` of Stun/Walk with the body as an argument;
--     Stun/Parse has `parse_stun_response` and `parse_stun_attr`, Stun/Network `stun_binding`. What
--     the writers make is described independently in Stun/Encode and Stun/Find.
--   * Crypto: `md5_hash`, `sha1_hash` and `hmac_sha1` (the same file, lines 661 to 790).
--   * Turn: the TURN client (the same file, lines 591 to 1053). The requests are in Turn itself, the
--     parsers in Turn/Data, the exchanges with the server in Turn/Client.
--   * Video: agent/src/video.rs. Video/Control has the commands of the HID module, Video/Restart the
--     message by which a capture loop asks for a restart, Video/Capture the capture loops,
--     Video/Devices the capture functions with the set-up of the device, Video/Run
--     `run_with_ctrl`, Video/Screen `run_screen_capture`. Video/Colour is the colour arithmetic,
--     Video/Planes the loops that fill a frame, Video/Yuyv and Video/Sources the three conversions.
--   * Webrtc: one session (agent/src/webrtc.rs, lines 31 to 492). Webrtc/LocalAddrs is
--     `get_local_ips`, Webrtc/Gather the candidates that `run` gathers, Webrtc/Events is
--     `handle_event`, Webrtc/Transport the datagrams, the TURN permissions and the refresh,
--     Webrtc/Media the samples, Webrtc/Session the loop of `run`, and Webrtc/Nals
--     `describe_h264_nals`. Webrtc/Offer is the exchange of the offer and the answer, and `run` from
--     there to its end.
--   * Audio: the audio loop, and in Audio/Device the set-up and `run` (agent/src/audio.rs).
--   * Signal: the client of the signalling server (agent/src/signal_client.rs).
--   * Server: the signalling server (signal/main.go). Server has the rooms, the registry and the
--     channels, Server/Handler `wsHandler` and `writePump` with a step for each access to what the
--     goroutines share; a `Reach` is any interleaving of them. Server/Pages has the two pages that read
--     the registry. Server/Standing describes who stands where, and is
--     told one bit of the registry.
--   * Web: the page (web/app.js). Web makes control frames of the events of keyboard and mouse,
--     Web/Keys has the key tables, Web/Quality the requests for a resolution and a rate. Its frames
--     go to `run_gadget` of Hid.
--   * Agent: the bridges and the reconnection (agent/src/main.rs), which read the flags of Webrtc and
--     call `run_with_ctrl` of Video. Agent/Sessions is the loop over the sessions, each a `run` of
--     Webrtc/Offer.
-- The other files of each part hold the proofs and, as Runs, tests and examples. Common has what all
-- share. Its `Outcome` is what a Rust call ends in: a value, an error, or a panic, which is an index
-- or a slice out of range or a division by zero.
--
-- Numbers are natural numbers, and a machine integer wraps where the code's would: `as u16` is a
-- remainder. An IPv4 address is the `u32` that Rust makes of it. Bytes are numbers; where a theorem
-- needs them below 256 it says so. A `usize` does not wrap: on a 32-bit target the products of a
-- width and a height in Video could, which is not modelled.
--
-- Loops. A loop over a channel, over the outputs of str0m or over the rounds of a session is a
-- recursion on the list of what arrives, so a theorem on it holds after any number of rounds. The
-- attribute loop has the packet's length for fuel: each round moves forward by at least four bytes.
-- The padding loop of the hashes has the fuel 64, which is more than the 63 bytes it may push, and
-- `chunks` the length of what it cuts. The scan for NAL units has one more than the frame's length.
--
-- Not modelled: the library str0m in agent/patches, the encoders, the devices, the sockets, the
-- clock and the resolver, which are arguments of the definitions; the texts that are only logged;
-- the set-up of the screen capture, whose error is an argument; the offer and the answer themselves, which str0m makes and
-- takes; what an aborted signalling task still does before it stops; in the signalling server the JSON library,
-- which is an argument, and its deadlines; of the page all that is not a
-- control frame; and deploy and scripts.
pub mod Common
pub mod Agent
pub mod Audio
pub mod Config
pub mod Crypto
pub mod Hid
pub mod Server
pub mod Signal
pub mod Stun
pub mod Turn
pub mod Video
pub mod Web
pub mod Webrtc

-- ===== src/Lib.antt =====
-- A verification library for screx, a second screen over the network: a daemon that streams a
-- display (daemon/src) and a desktop client that shows it and sends input back
-- (client/desktop/src).
--
-- The parts and their files. Each file names the functions it translates.
--   Prelude         tests on numbers, lists with native lengths, tables, chunks of a list
--   Bytes           big-endian fields and prefixes
--   Capabilities    CAPS and STNG: daemon/src/stream_server.rs (build_caps_message,
--                   parse_stng_body, clamp_requested_settings, apply_requested_settings) and
--                   client/desktop/src/capabilities.rs (parse_caps, validate_settings, build_stng).
--                   Tlv is the entries' format, Stng the daemon's reader, Client the client's side,
--                   Clamp and Advertise the daemon's limits and its message
--   Crypto          nonces and encrypt_slice of daemon/src/crypto.rs
--   Control         the encrypted TCP channel: daemon/src/pairing.rs (run_control_loop,
--                   send_control_frame) and client/desktop/src/backend.rs (send_payload,
--                   spawn_control_receiver)
--   Session         who the client is: SharedState, run_client_manager and drop_network_client of
--                   daemon/src/stream_server.rs, the USB switch of daemon/src/usb.rs (and of
--                   daemon/src/audio.rs and daemon/src/main.rs, when a write fails), and
--                   send_encrypted of client/desktop/src/backend.rs
--   Input           daemon/src/input.rs, handle_control_message_data of daemon/src/stream_server.rs,
--                   client/desktop/src/input.rs and the senders of client/desktop/src/backend.rs
--   Camera          send_camera_frame of client/desktop/src/webcam_capture.rs and CamReassembler of
--                   daemon/src/camera.rs
--   Adaptive        AdaptiveStreamState of daemon/src/stream_server.rs
--   Audio           AudioRingBuffer and AudioPlayer::enqueue of client/desktop/src/audio_player.rs,
--                   AvSyncState of client/desktop/src/backend.rs
--   Video           UdpSender and AudioSender of daemon/src/stream_server.rs, and the media loop
--                   of client/desktop/src/backend.rs: Assembly is FrameAssembly, AudioAssembly its
--                   audio counterpart, Receiver the loop; the other files are proofs
--   History         the stored connections and pairing keys of the client: AppStorage of
--                   client/desktop/src/backend.rs; Endpoint is parse_host_port of that file and
--                   connect_recent of client/desktop/src/app_state.rs
--   Text            the operations on strings that these use, and Capabilities.Choice, the picks
--                   of the settings dialog
--
--   Pairing         the handshake: daemon/src/pairing.rs (PairingState, handle_handshake,
--                   handle_pair_request, handle_hello_request) in Devices and Daemon, and
--                   client/desktop/src/backend.rs (establish_session, pair_flow, complete_pairing,
--                   hello_flow, read_handshake_response) in Client; the other files are proofs
--   Uinput          the virtual devices of daemon/src/platform/linux/uinput.rs: Keyboard, Gamepad
--                   (with the mouse) and Touchscreen, Chars a table; the other files are proofs
--   MacTouch        the touch gestures of daemon/src/platform/macos/input.rs
--   Edid            generate_edid of daemon/src/platform/linux/evdi.rs
--   Usb             the frames and the two read loops of daemon/src/usb.rs
--
-- How they interact. The handshake (Pairing) gives both ends the session key, under which Control
-- and Session then work. The client's senders (Input.Client, Capabilities.Client) make payloads, which
-- Control seals and frames; the daemon's loop opens them and hands each to
-- Input.Dispatch.handle_control_message_data, which gives the list of calls on the rest of the
-- daemon, apply_requested_settings (Capabilities.Clamp) and note_pli (Adaptive) among them.
-- Packets over UDP go through Session.receive_packet; those of the camera go on to Camera.feed.
-- The other way, Video.send_frame takes its share of parity from Adaptive's tuning and seals its
-- packets with Crypto; Video.Receiver opens them, puts the frames together and keeps Audio's clock
-- state.
--
-- Conventions. A byte, a u16, a u32 and a usize are natural numbers with their wrap-around written
-- out; a signed field is its bit pattern. A string is its UTF-8 bytes, the text of a key press its
-- characters. Times are given to the call, in milliseconds on the daemon and in nanoseconds on the
-- client. Logs and counters of logs are left out. AES-GCM is the ring library's: a Cipher with the
-- laws IsAead where a theorem needs them, and so are X25519, HKDF and HMAC, Primitives with the laws
-- IsRing; the erasure code is the reed_solomon_erasure crate's, a
-- ReedSolomon with the laws IsCode. What FFmpeg and the device probes answer are fields of Limits
-- and Probes.
--
-- Bounds. The receive loops of Control and Usb run on fuel, one unit for each round; a round that does not end
-- the loop takes at least one byte or pause off the stream, so the length of the stream and one
-- more are enough. The sending of a frame in batches runs on the number of its packets, since each
-- round sends one or stops. The ring's capacity and the sizes of chunks are the source's. The
-- cutting of a list into chunks runs on the length of the list. All other definitions are
-- structural.
--
-- Not modelled: threads (each operation is one step), the playback of audio, the
-- polling for a USB device, the displays, encoders, decoders, other devices and user interfaces, and the iPad client.
pub mod Prelude
pub mod Bytes
pub mod Capabilities
pub mod Crypto
pub mod Control
pub mod Session
pub mod Input
pub mod Camera
pub mod Adaptive
pub mod Audio
pub mod Edid
pub mod History
pub mod MacTouch
pub mod Pairing
pub mod Text
pub mod Uinput
pub mod Usb
pub mod Video

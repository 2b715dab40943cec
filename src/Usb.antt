-- ===== src/Usb.antt =====
-- The USB transport of daemon/src/usb.rs: the frames that TcpFramedSender writes, wait_for_ready, and
-- read_control_loop. A frame is a length, a type byte, and what belongs to it. The socket is what it
-- hands to `read_exact`, with a pause where its timeout of 250 ms runs out; a write succeeds.
pub mod Frames
pub mod Loop
mod Tests
use screx_v.Prelude.{
  ℕ, zero, suc, ◌+◌, ◌%◌, ◌^◌, Bool, true, false, ◌&&◌, ◌||◌, Option, none, some, List, [], ◌∷◌,
  ◌++◌, length, drop, ltb, leb, ◌==◌, if◌then◌else◌,
}
use screx_v.Bytes.{be32, starts_with}
use screx_v.History.{same_bytes}
use screx_v.Control.{u32_of}
use screx_v.Control.Stream.{Signal, Read, got, timed_out, closed, read_exact}
use screx_v.Camera.{CamReassembler, feed}

abbrev pub msg_video : ℕ
msg_video = 1

abbrev pub msg_audio : ℕ
msg_audio = 2

abbrev pub msg_control : ℕ
msg_control = 3

abbrev pub ready_magic : List ℕ
ready_magic = b'R' ∷ b'E' ∷ b'A' ∷ b'D' ∷ b'Y' ∷ []

-- What `write_all_vectored` writes.
unfoldable pub write_all_vectored : (header payload : List ℕ) → List ℕ
write_all_vectored header payload = header ++ payload

unfoldable pub send_video : (annex_b : List ℕ) (is_idr : Bool) (timestamp_ms codec_id : ℕ) → List ℕ
unfolding write_all_vectored
send_video annex_b is_idr timestamp_ms codec_id =
    let payload_len = (7 + length annex_b) % 2 ^ 32 in
    write_all_vectored
      (be32 payload_len ++ (msg_video ∷ (if is_idr then 1 else 0) ∷ codec_id ∷ be32 timestamp_ms))
      annex_b

unfoldable pub send_audio : (pcm : List ℕ) (timestamp_ms : ℕ) → List ℕ
unfolding write_all_vectored
send_audio pcm timestamp_ms =
    let payload_len = (5 + length pcm) % 2 ^ 32 in
    write_all_vectored (be32 payload_len ++ (msg_audio ∷ be32 timestamp_ms)) pcm

unfoldable pub send_control : (payload : List ℕ) → List ℕ
send_control payload = be32 ((1 + length payload) % 2 ^ 32) ++ (msg_control ∷ payload)

-- What reading one frame comes to: no length yet, a frame, or an end.
pub data Ending : Type 0 where
  disconnected invalid_length cut_payload stopped stuck : Ending

pub data Incoming : Type 0 where
  nothing_yet : List Signal → Incoming
  message : List ℕ → List Signal → Incoming
  over : Ending → Incoming

unfoldable pub read_payload : Read → Incoming
read_payload (got msg rest) = message msg rest
read_payload (timed_out rest) = over cut_payload
read_payload closed = over cut_payload

-- No frame is empty or longer than 65536 bytes.
unfoldable pub is_bad_length : ℕ → Bool
is_bad_length msg_len = (msg_len == 0) || ltb 65536 msg_len

unfoldable pub read_body : (msg_len : ℕ) → List Signal → Incoming
unfolding is_bad_length read_payload read_exact
read_body msg_len rest =
    if is_bad_length msg_len then over invalid_length else read_payload (read_exact msg_len rest)

unfoldable pub read_after_length : Read → Incoming
unfolding read_body
read_after_length (got len_buf rest) = read_body (u32_of len_buf) rest
read_after_length (timed_out rest) = nothing_yet rest
read_after_length closed = over disconnected

unfoldable pub read_frame : List Signal → Incoming
unfolding read_after_length read_exact
read_frame s = read_after_length (read_exact 4 s)

-- The control payload of a frame, when it is a control frame with a payload.
unfoldable pub control_of : List ℕ → Option (List ℕ)
control_of [] = none
control_of (kind ∷ []) = none
control_of (kind ∷ c ∷ ctrl) = if kind == msg_control then some (c ∷ ctrl) else none

unfoldable pub is_ready : Option (List ℕ) → Bool
unfolding same_bytes
is_ready none = false
is_ready (some ctrl) = same_bytes ctrl ready_magic

-- `waiting` says of each round, counted by the rounds left, that nothing asks to stop, the device is
-- there and the three seconds are not over. With the answer comes what is left to read.
unfoldable pub ready_round :
    (next : List Signal → Bool × List Signal) → Bool → Incoming → Bool × List Signal
unfolding is_ready control_of
ready_round next false i = (false, [])
ready_round next true (over e) = (false, [])
ready_round next true (nothing_yet rest) = next rest
ready_round next true (message msg rest) =
    if is_ready (control_of msg) then (true, rest) else next rest

unfoldable pub wait_for_ready : (fuel : ℕ) (waiting : ℕ → Bool) → List Signal → Bool × List Signal
unfolding ready_round read_frame
wait_for_ready zero waiting s = (false, [])
wait_for_ready (suc fuel) waiting s =
    ready_round (wait_for_ready fuel waiting) (waiting fuel) (read_frame s)

-- What a control payload is used for: the control handler, the camera's writer, the microphone's.
pub data Use : Type 0 where
  control : List ℕ → Use
  camera : (jpeg : List ℕ) → Use
  microphone : (opus : List ℕ) → Use

abbrev pub camera_use : CamReassembler × Option (List ℕ) → CamReassembler × List Use
camera_use (r, none) = (r, [])
camera_use (r, some jpeg) = (r, camera jpeg ∷ [])

abbrev pub cam : List ℕ
cam = b'C' ∷ b'A' ∷ b'M' ∷ []

abbrev pub mic : List ℕ
mic = b'M' ∷ b'I' ∷ b'C' ∷ []

abbrev pub cfg : List ℕ
cfg = b'C' ∷ b'F' ∷ b'G' ∷ []

unfoldable pub route : (ctrl : List ℕ) → CamReassembler → CamReassembler × List Use
unfolding same_bytes feed
route ctrl r =
    if same_bytes ctrl ready_magic
    then (r, [])
    else if starts_with ctrl (cam ++ cfg) || starts_with ctrl (mic ++ cfg)
    then (r, control ctrl ∷ [])
    else if starts_with ctrl cam && ltb 3 (length ctrl)
    then camera_use (feed (drop 3 ctrl) r)
    else if starts_with ctrl mic && ltb 7 (length ctrl)
    then (r, microphone (drop 7 ctrl) ∷ [])
    else (r, control ctrl ∷ [])

unfoldable pub route_control : Option (List ℕ) → CamReassembler → CamReassembler × List Use
unfolding route
route_control none r = (r, [])
route_control (some ctrl) r = route ctrl r

pub record Run : Type 0 where
  pub uses : List Use
  pub ending : Ending

unfoldable pub after_uses : List Use → Run → Run
after_uses us run = record run { uses = us ++ run.uses }

unfoldable pub ended : Ending → Run
ended e = record { uses = []; ending = e }

unfoldable pub loop_round :
    (next : CamReassembler → List Signal → Run) → Bool → CamReassembler → Incoming → Run
unfolding after_uses ended route_control control_of
loop_round next false r i = ended stopped
loop_round next true r (over e) = ended e
loop_round next true r (nothing_yet rest) = next r rest
loop_round next true r (message msg rest) =
    let routed = route_control (control_of msg) r in after_uses routed.1 (next routed.0 rest)

-- `running` says of each round that nothing asks to stop. `stuck` is no outcome of the program: the
-- model's fuel ran out.
unfoldable pub read_control_loop :
    (fuel : ℕ) (running : ℕ → Bool) → CamReassembler → List Signal → Run
unfolding loop_round read_frame ended
read_control_loop zero running r s = ended stuck
read_control_loop (suc fuel) running r s =
    loop_round (read_control_loop fuel running) (running fuel) r (read_frame s)

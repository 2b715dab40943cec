-- ===== src/Usb/Loop.antt =====
-- How the loops of the USB transport end, and what its three senders put on the wire.
use screx_v.Prelude.{
  ℕ, zero, suc, ◌+◌, ◌/◌, ◌%◌, ◌^◌, ◌<◌, ◌≤◌, ◌≡◌, ◌≢◌, refl, ap, ◌∙◌, Bool, true, false, List, [],
  ◌∷◌, ◌++◌, arith, length, if◌then◌else◌, if-preserves,
}
use screx_v.Bytes.{be32, from_be32, from_be32-be32}
use screx_v.Control.{u32_of}
use screx_v.Control.Stream.{
  Signal, Read, got, timed_out, closed, pause, bytes, Shrinks, read_exact, read_exact-Shrinks,
}
use screx_v.Camera.{CamReassembler}
use screx_v.Usb.{
  Incoming, message, nothing_yet, over, stuck, cut_payload, send_video, send_audio, send_control,
  write_all_vectored, msg_video, msg_audio, msg_control, is_bad_length, read_payload, read_body,
  read_after_length, read_frame, after_uses, ended, loop_round, read_control_loop,
}
use screx_v.Usb.Frames.{always, read_frame-body}

-- Reading a frame ends the loop for a reason of the program's, or leaves less of the stream.
abbrev Advances : ℕ → Incoming → Type 0
Advances before (over e) = e ≢ stuck
Advances before (nothing_yet rest) = length rest < before
Advances before (message msg rest) = length rest < before

read_payload-Advances :
    (n before : ℕ) (r : Read) → Shrinks n before r → Advances (suc before) (read_payload r)
unfolding read_payload
read_payload-Advances n before (got msg rest) h = omega arith
read_payload-Advances n before (timed_out rest) h = λ e. cc
read_payload-Advances n before closed h = λ e. cc

read_body-Advances : (n : ℕ) (s : List Signal) → Advances (suc (length s)) (read_body n s)
unfolding read_body
read_body-Advances n s =
    if-preserves (Advances (suc (length s))) (is_bad_length n) (λ e. cc)
      (read_payload-Advances n _ _ (read_exact-Shrinks n s))

Advances-mono : {m n : ℕ} (i : Incoming) → m ≤ n → Advances m i → Advances n i
Advances-mono (over e) h a = a
Advances-mono (nothing_yet rest) h a = omega arith
Advances-mono (message msg rest) h a = omega arith

read_after_length-Advances :
    (before : ℕ) (r : Read) → Shrinks 4 before r → Advances before (read_after_length r)
unfolding read_after_length
read_after_length-Advances before (got len rest) h =
    Advances-mono _ (omega arith) (read_body-Advances (u32_of len) rest)
read_after_length-Advances before (timed_out rest) h = h
read_after_length-Advances before closed h = λ e. cc

read_frame-Advances : (s : List Signal) → Advances (length s) (read_frame s)
unfolding read_frame
read_frame-Advances s = read_after_length-Advances _ _ (read_exact-Shrinks 4 s)

loop_round-Ends :
    (fuel : ℕ) (running : ℕ → Bool) (here : Bool) (r : CamReassembler) (i : Incoming)
    → ((r : CamReassembler) (s : List Signal)
        → length s < fuel
        → (read_control_loop fuel running r s).ending ≢ stuck)
    → Advances fuel i
    → (loop_round (read_control_loop fuel running) here r i).ending ≢ stuck
unfolding loop_round ended after_uses
loop_round-Ends fuel running false r i again h = λ e. cc
loop_round-Ends fuel running true r (over e) again h = h
loop_round-Ends fuel running true r (nothing_yet rest) again h = again r rest (omega (arith, h))
loop_round-Ends fuel running true r (message msg rest) again h = again _ rest (omega (arith, h))

-- The loop ends, whatever arrives and whatever asks it to stop: a number of rounds greater than what
-- the socket still gives is enough.
pub read_control_loop_ends :
    (fuel : ℕ) (running : ℕ → Bool) (r : CamReassembler) (s : List Signal)
    → length s < fuel
    → (read_control_loop fuel running r s).ending ≢ stuck
unfolding read_control_loop
read_control_loop_ends zero running r s h = absurd (omega arith)
read_control_loop_ends (suc fuel) running r s h =
    loop_round-Ends fuel running (running fuel) r (read_frame s)
      (read_control_loop_ends fuel running)
      (Advances-mono (read_frame s) (omega arith) (read_frame-Advances s))

read_exact-cut :
    (n : ℕ) (part : List ℕ) (rest : List Signal)
    → length part < n
    → read_exact n (bytes part ++ pause ∷ rest) ≡ timed_out rest
unfolding read_exact
read_exact-cut zero part rest h = absurd (omega arith)
read_exact-cut (suc n) [] rest h = refl
read_exact-cut (suc n) (b ∷ part) rest h = rw (read_exact-cut n part rest (omega arith))

-- A pause inside a frame's payload ends the transport: where a length between 1 and 65536 has come,
-- then fewer bytes than it says, then a timeout, the loop ends there, with nothing used and whatever
-- follows unread.
payload_pause_ends :
    (fuel n : ℕ) (r : CamReassembler) (part : List ℕ) (rest : List Signal)
    → 1 ≤ n
    → n ≤ 65536
    → length part < n
    → read_control_loop (suc fuel) always r (bytes (be32 n) ++ (bytes part ++ pause ∷ rest))
      ≡ record { uses = []; ending = cut_payload }
unfolding read_control_loop loop_round ended read_frame read_after_length read_payload read_exact
    is_bad_length
payload_pause_ends fuel n r part rest lo hi short =
    rw count (rw (read_body, good, read_exact-cut n part rest short) refl)
  where
    count : from_be32 (n / 2 ^ 24 % 2 ^ 8) (n / 2 ^ 16 % 2 ^ 8) (n / 2 ^ 8 % 2 ^ 8) (n % 2 ^ 8) ≡ n
    count = from_be32-be32 n ∙ omega arith

    good : is_bad_length n ≡ false
    good = ground arith

-- What the three senders write is read back as one frame: the length counts what follows it, the
-- first byte tells video, audio and control apart, and the fields stand behind it. The payload
-- leaves the frame at 65536 bytes at most, the reader's limit.
sent_frames_read_back :
    (payload : List ℕ) (is_idr : Bool) (timestamp_ms codec_id : ℕ) (rest : List Signal)
    → length payload + 7 ≤ 65536
    → (read_frame (bytes (send_video payload is_idr timestamp_ms codec_id) ++ rest)
        ≡ message
            (msg_video ∷ (if is_idr then 1 else 0) ∷ codec_id ∷ (be32 timestamp_ms ++ payload))
            rest)
      × (read_frame (bytes (send_audio payload timestamp_ms) ++ rest)
          ≡ message (msg_audio ∷ (be32 timestamp_ms ++ payload)) rest)
      × (read_frame (bytes (send_control payload) ++ rest) ≡ message (msg_control ∷ payload) rest)
unfolding send_video send_audio send_control write_all_vectored
sent_frames_read_back payload is_idr timestamp_ms codec_id rest h = (
  counted (7 + length payload)
      (msg_video ∷ (if is_idr then 1 else 0) ∷ codec_id ∷ (be32 timestamp_ms ++ payload))
      (omega arith) (omega arith) (omega arith),
  counted (5 + length payload) (msg_audio ∷ (be32 timestamp_ms ++ payload)) (omega arith)
      (omega arith) (omega arith),
  counted (1 + length payload) (msg_control ∷ payload) (omega arith) (omega arith) (omega arith),
)
  where
    counted :
        (n : ℕ) (body : List ℕ)
        → n ≡ length body
        → 1 ≤ length body
        → length body ≤ 65536
        → read_frame (bytes (be32 (n % 2 ^ 32) ++ body) ++ rest) ≡ message body rest
    counted n body eq lo hi =
        ap (λ k. read_frame (bytes (be32 k ++ body) ++ rest)) {y = length body} (omega arith)
        ∙ read_frame-body body rest lo hi

-- ===== src/Usb/Frames.antt =====
-- Frames of the USB transport on their way through the socket.
use screx_v.Control.Frames.{bytes-append}
use screx_v.Prelude.{
  ℕ, suc, ◌+◌, ◌/◌, ◌%◌, ◌^◌, ◌<◌, ◌≤◌, ◌≡◌, refl, ap, sym, ◌∙◌, Bool, true, false, some, List, [],
  ◌∷◌, ◌++◌, arith, length, if◌then◌else◌, All,
}
use Prim.Native.Nat.add
use mathlib.Core.List.{append_assoc}
use screx_v.Bytes.{be32, from_be32, from_be32-be32}
use screx_v.Control.Stream.{Signal, bytes, read_exact, read_exact-bytes}
use screx_v.Camera.{CamReassembler}
use screx_v.Usb.{
  message, Use, Run, send_control, msg_control, is_bad_length, read_body, read_after_length,
  read_frame, ready_magic, control_of, is_ready, wait_for_ready, route, route_control, after_uses,
  read_control_loop,
}

-- A payload that makes a frame of at most 65536 bytes, and is not empty.
abbrev pub FitsUsb : List ℕ → Type 0
FitsUsb payload = (1 ≤ length payload) × (length payload < 65536)

pub read_frame-body :
    (body : List ℕ) (rest : List Signal)
    → 1 ≤ length body
    → length body ≤ 65536
    → read_frame (bytes (be32 (length body) ++ body) ++ rest) ≡ message body rest
unfolding read_frame read_after_length read_exact
read_frame-body body rest lo hi =
    rw count (rw (read_body, good, read_exact-bytes (length body) body rest refl) refl)
  where
    n : ℕ
    n = length body

    count : from_be32 (n / 2 ^ 24 % 2 ^ 8) (n / 2 ^ 16 % 2 ^ 8) (n / 2 ^ 8 % 2 ^ 8) (n % 2 ^ 8) ≡ n
    count = from_be32-be32 n ∙ omega arith

    good : is_bad_length (length body) ≡ false
    good = ground arith

read_frame-send_control :
    (payload : List ℕ) (rest : List Signal)
    → FitsUsb payload
    → read_frame (bytes (send_control payload) ++ rest) ≡ message (msg_control ∷ payload) rest
unfolding send_control
read_frame-send_control payload rest (lo, hi) =
    ap (λ n. read_frame (bytes (be32 n ++ (msg_control ∷ payload)) ++ rest))
      {y = length (msg_control ∷ payload)} (omega arith)
    ∙ read_frame-body (msg_control ∷ payload) rest (omega arith) (omega arith)

control_of-payload :
    (payload : List ℕ) → 1 ≤ length payload → control_of (msg_control ∷ payload) ≡ some payload
unfolding control_of
control_of-payload [] h = absurd (omega arith)
control_of-payload (c ∷ ctrl) h = refl

-- Control payloads as frames, one after another.
pub control_frames : List (List ℕ) → List ℕ
control_frames [] = []
control_frames (p ∷ ps) = send_control p ++ control_frames ps

-- What a sequence of control payloads is used for, and the reassembler after it.
unfoldable pub route_all : List (List ℕ) → CamReassembler → CamReassembler × List Use
route_all [] r = (r, [])
route_all (p ∷ ps) r =
    ((route_all ps (route p r).0).0, (route p r).1 ++ (route_all ps (route p r).0).1)

abbrev pub always : ℕ → Bool
always n = true

after_uses-append :
    (us vs : List Use) (run : Run) → after_uses us (after_uses vs run) ≡ after_uses (us ++ vs) run
unfolding after_uses
after_uses-append us vs run = λ i. record run { uses = sym (append_assoc us vs run.uses) i }

-- Control payloads that come as whole frames, with no pause inside, are routed one by one and in
-- order, the reassembler of camera frames going from one to the next; then the loop goes on with the
-- rest of the stream. The payloads have between 1 and 65535 bytes, and nothing asks to stop.
pub read_control_loop-control_frames :
    (ps : List (List ℕ)) (fuel : ℕ) (r : CamReassembler) (rest : List Signal)
    → All FitsUsb ps
    → read_control_loop (length ps + fuel) always r (bytes (control_frames ps) ++ rest)
      ≡ after_uses (route_all ps r).1 (read_control_loop fuel always (route_all ps r).0 rest)
unfolding control_frames route_all read_control_loop
read_control_loop-control_frames [] fuel r rest h = rw (add.zero, after_uses) refl
read_control_loop-control_frames (p ∷ ps) fuel r rest (h, hs) =
    let later = bytes (control_frames ps) ++ rest in
    rw
      (
        add.suc (length ps) fuel,
        bytes-append (send_control p) (control_frames ps) rest,
        read_frame-send_control p later h,
      )
      (ap
          (λ o.
            after_uses (route_control o r).1
              (read_control_loop (length ps + fuel) always (route_control o r).0 later))
          (control_of-payload p h.0)
        ∙ ap (after_uses (route p r).1)
            (read_control_loop-control_frames ps fuel (route p r).0 rest hs)
        ∙ after_uses-append (route p r).1 _ _)

-- The device is ready at the first READY: control payloads that are not READY are passed over, and
-- what follows the READY is left for the loop. The payloads have between 1 and 65535 bytes and come
-- as whole frames, and the waiting is not over before.
pub wait_for_ready-control_frames :
    (ps : List (List ℕ)) (fuel : ℕ) (rest : List Signal)
    → All (λ p. FitsUsb p × (is_ready (some p) ≡ false)) ps
    → wait_for_ready
        (length ps + suc fuel)
        always
        (bytes (control_frames ps) ++ (bytes (send_control ready_magic) ++ rest))
      ≡ (true, rest)
unfolding control_frames wait_for_ready
wait_for_ready-control_frames [] fuel rest h =
    rw add.zero (rw (read_frame-send_control ready_magic rest (omega arith, omega arith)) refl)
wait_for_ready-control_frames (p ∷ ps) fuel rest ((h, other), hs) =
    let later = bytes (control_frames ps) ++ (bytes (send_control ready_magic) ++ rest) in
    rw
      (
        add.suc (length ps) (suc fuel),
        bytes-append (send_control p) (control_frames ps)
            (bytes (send_control ready_magic) ++ rest),
        read_frame-send_control p later h,
      )
      (ap (λ b. if b then (true, later) else wait_for_ready (length ps + suc fuel) always later)
          (ap is_ready (control_of-payload p h.0) ∙ other)
        ∙ wait_for_ready-control_frames ps fuel rest hs)

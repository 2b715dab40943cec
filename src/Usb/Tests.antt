-- ===== src/Usb/Tests.antt =====
-- The theorems of the USB transport on small inputs.
use screx_v.Prelude.{ℕ, ◌≡◌, ◌≢◌, refl, true, List, [], ◌∷◌, ◌++◌, arith}
use screx_v.Control.Stream.{pause, bytes}
use screx_v.Camera.{new}
use screx_v.Usb.{
  stuck, control, microphone, ready_magic, is_ready, route, send_control, wait_for_ready,
  after_uses, read_control_loop,
}
use screx_v.Usb.Frames.{
  always, control_frames, route_all, read_control_loop-control_frames,
  wait_for_ready-control_frames,
}
use screx_v.Usb.Loop.{read_control_loop_ends}

-- A request for a key frame, and a microphone packet of one byte.
abbrev two_payloads : List (List ℕ)
two_payloads = (80 ∷ 76 ∷ 73 ∷ []) ∷ (77 ∷ 73 ∷ 67 ∷ 0 ∷ 0 ∷ 0 ∷ 1 ∷ 55 ∷ []) ∷ []

read_control_loop-control_frames_example :
    read_control_loop 3 always new (bytes (control_frames two_payloads) ++ [])
    ≡ after_uses
        (route_all two_payloads new).1
        (read_control_loop 1 always (route_all two_payloads new).0 [])
read_control_loop-control_frames_example =
    read_control_loop-control_frames two_payloads 1 new []
      ((omega arith, omega arith), ((omega arith, omega arith), tt))

two_payloads_routed :
    (route_all two_payloads new).1 ≡ control (80 ∷ 76 ∷ 73 ∷ []) ∷ microphone (55 ∷ []) ∷ []
unfolding route_all route
two_payloads_routed = refl

wait_for_ready-control_frames_example :
    wait_for_ready 3 always
      (bytes (control_frames two_payloads) ++ (bytes (send_control ready_magic) ++ (pause ∷ [])))
    ≡ (true, pause ∷ [])
unfolding is_ready
wait_for_ready-control_frames_example =
    wait_for_ready-control_frames two_payloads 0 (pause ∷ [])
      (((omega arith, omega arith), refl), (((omega arith, omega arith), refl), tt))

read_control_loop_ends_example : (read_control_loop 2 always new (pause ∷ [])).ending ≢ stuck
read_control_loop_ends_example = read_control_loop_ends 2 always new (pause ∷ []) (omega arith)

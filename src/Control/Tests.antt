-- ===== src/Control/Tests.antt =====
-- Runs of the control channel's theorems on short streams.
use screx_v.Prelude.{ℕ, ◌+◌, ◌≡◌, ◌≢◌, refl, List, [], ◌∷◌, ◌++◌, length, arith, All}
use screx_v.Crypto.Plain.{plain, plain-IsAead}
use screx_v.Control.{run_control_loop, stuck}
use screx_v.Control.Stream.{pause, bytes}
use screx_v.Control.Frames.{
  client_frames, deliver_all, IsOrdinary, FitsFrame, always, run_control_loop-client_frames,
}
use screx_v.Control.Total.{run_control_loop_ends}

-- A request for a keyframe, and a key.
abbrev payloads : List (List ℕ)
payloads = (80 ∷ 76 ∷ 73 ∷ []) ∷ (75 ∷ 69 ∷ 89 ∷ 2 ∷ 4 ∷ []) ∷ []

payloads-IsOrdinary : All IsOrdinary payloads
payloads-IsOrdinary = ((omega arith, refl), ((omega arith, refl), tt))

payloads-FitsFrame : All FitsFrame payloads
payloads-FitsFrame = (omega arith, (omega arith, tt))

run_control_loop-client_frames_example :
    run_control_loop
      (length payloads + 1)
      plain
      always
      (bytes (client_frames plain 7 payloads) ++ [])
    ≡ deliver_all payloads (run_control_loop 1 plain always [])
run_control_loop-client_frames_example =
    run_control_loop-client_frames plain plain-IsAead payloads 1 7 [] (omega arith)
      payloads-IsOrdinary

run_control_loop_ends_example :
    (run_control_loop 6 plain always (bytes (0 ∷ 0 ∷ 0 ∷ 1 ∷ []) ++ pause ∷ [])).ending ≢ stuck
run_control_loop_ends_example =
    run_control_loop_ends 6 plain always (bytes (0 ∷ 0 ∷ 0 ∷ 1 ∷ []) ++ pause ∷ []) (omega arith)

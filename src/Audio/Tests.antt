-- ===== src/Audio/Tests.antt =====
-- Runs of the theorems on the audio ring buffer.
use screx_v.Prelude.{ℕ, ◌-◌, ◌^◌, ◌≡◌, refl, some, true, List, [], ◌∷◌}
use screx_v.Audio.{AvSync, new, expected_daemon_time_now, wrapping_drift}
use screx_v.Audio.Ring.{contents}
use screx_v.Audio.Refine.{
  Op, writes, reads, discards, clears, run, ring_step, queue_step, run_refines,
}

abbrev ops : List Op
ops = writes (1 ∷ 2 ∷ 3 ∷ []) ∷ reads (0 ∷ 0 ∷ []) ∷ discards 7 ∷ writes (4 ∷ []) ∷ clears ∷ []

run_refines_example :
    (contents (run ring_step ops new).0 ≡ (run queue_step ops []).0)
    × ((run ring_step ops new).1 ≡ (run queue_step ops []).1)
run_refines_example = run_refines ops

-- The last frame was stamped 1000 and came 20 ms before the clock reads 5 s.
abbrev sync : AvSync
sync = record { last_video_ts = 1000; last_video_wall = some 4_980_000_000; gap_resume = true }

abbrev pcm : List ℕ
pcm = 1 ∷ 2 ∷ 3 ∷ 4 ∷ []

expected_1020 : expected_daemon_time_now 5_000_000_000 sync ≡ some 1020
unfolding expected_daemon_time_now
expected_1020 = refl

ahead_80 : wrapping_drift 1100 1020 ≡ 80
unfolding wrapping_drift
ahead_80 = refl

behind_520 : wrapping_drift 500 1020 ≡ 2 ^ 32 - 520
unfolding wrapping_drift
behind_520 = refl

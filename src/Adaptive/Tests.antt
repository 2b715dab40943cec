-- ===== src/Adaptive/Tests.antt =====
-- Runs of the theorems on the adaptive bitrate.
use screx_v.Prelude.{ℕ, ◌≡◌, inr, refl, arith, List, [], ◌∷◌}
use screx_v.Adaptive.{AdaptiveStreamState, new}
use screx_v.Adaptive.Band.{InBand, Call, notes_pli, polls, rebases, run, run-InBand, new-InBand}
use screx_v.Adaptive.Recovery.{poll_at, recovers}
use screx_v.Adaptive.Loss.{IsLossy}

-- A session at 20 Mbps, and calls of a bad minute.
abbrev fresh : AdaptiveStreamState
fresh = new 20_000_000 0

fresh-InBand : InBand fresh
fresh-InBand = new-InBand 20_000_000 0 (omega arith, omega arith)

abbrev calls : List Call
calls = notes_pli 1200 ∷ notes_pli 1300 ∷ polls 2000 ∷ rebases 8_000_000 2500 ∷ polls 4000 ∷ []

run-InBand_example : InBand (run fresh calls)
run-InBand_example =
    run-InBand fresh calls fresh-InBand (tt, (tt, (tt, ((omega arith, omega arith), (tt, tt)))))

-- A state after loss: a base, a bitrate and the times of requests.
abbrev state : ℕ → ℕ → List ℕ → AdaptiveStreamState
state base current events = record {
  base_bitrate_bps = base;
  current_bitrate_bps = current;
  idr_fec_percent = 10;
  pframe_fec_percent = 5;
  last_adjust_at = 0;
  pli_events = events;
}

recovers_example :
    (run (state 10_000_000 9_700_000 []) (poll_at (1000 ∷ 2000 ∷ []))).current_bitrate_bps
    ≡ 10_000_000
recovers_example =
    recovers (state 10_000_000 9_700_000 []) (1000 ∷ 2000 ∷ []) band refl
      (omega arith, (omega arith, tt)) (omega arith)
  where
    band : InBand (state 10_000_000 9_700_000 [])
    band = record {
      fits = omega arith;
      floor = ground arith;
      ceiling = omega arith;
      in_step = refl;
      few = omega arith;
    }

lossy : (base current : ℕ) → IsLossy (state base current (900 ∷ 950 ∷ [])) 1000
lossy base current = inr (omega arith)

-- ===== src/Adaptive/Recovery.antt =====
-- Polls of `current_tuning` while the client asks for no keyframes.
use screx_v.Prelude.{ℕ, ap, ◌+◌, ◌*◌, ◌≤◌, ◌≡◌, min, arith, List, [], ◌∷◌, length, ◌∙◌}
use screx_v.Adaptive.{
  AdaptiveStreamState, prune_events, ramped, adjust, current_tuning, recent_pli, count_recent,
}
use screx_v.Adaptive.Band.{InBand, Call, polls, step, run, step-InBand}

-- No request for a keyframe is remembered.
abbrev pub IsQuiet : AdaptiveStreamState → Type 0
IsQuiet s = s.pli_events ≡ []

-- The times of the polls, each at least a second after the one before.
abbrev pub IsSpaced : ℕ → List ℕ → Type 0
IsSpaced last [] = Unit {0}
IsSpaced last (t ∷ ts) = (last + 1000 ≤ t) × IsSpaced t ts

abbrev pub poll_at : List ℕ → List Call
poll_at [] = []
poll_at (t ∷ ts) = polls t ∷ poll_at ts

quiet_poll :
    (s : AdaptiveStreamState) (t : ℕ)
    → IsQuiet s
    → s.last_adjust_at + 1000 ≤ t
    → step s (polls t) ≡ record s {
      current_bitrate_bps = ramped s.current_bitrate_bps s.base_bitrate_bps;
      idr_fec_percent = 10;
      pframe_fec_percent = 5;
      last_adjust_at = t;
    }
unfolding current_tuning adjust recent_pli prune_events count_recent
quiet_poll s t q h = ground arith

ramped_gain :
    (current base : ℕ) → 2_000_000 ≤ current → min base (current + 200_000) ≤ ramped current base
unfolding ramped
ramped_gain current base h = omega arith

-- The state after a quiet poll.
abbrev climbed : AdaptiveStreamState → ℕ → AdaptiveStreamState
climbed s t = record s {
  current_bitrate_bps = ramped s.current_bitrate_bps s.base_bitrate_bps;
  idr_fec_percent = 10;
  pframe_fec_percent = 5;
  last_adjust_at = t;
}

-- With no keyframe requests outstanding and polls at least a second apart, the bitrate is back at
-- the base after at most one poll for each 200 kbps that it is short of it.
pub recovers :
    (s : AdaptiveStreamState) (ts : List ℕ)
    → InBand s
    → IsQuiet s
    → IsSpaced s.last_adjust_at ts
    → s.base_bitrate_bps ≤ s.current_bitrate_bps + 200_000 * length ts
    → (run s (poll_at ts)).current_bitrate_bps ≡ s.base_bitrate_bps
unfolding ramped
recovers s [] b q spaced enough = omega arith
recovers s (t ∷ ts) b q (later, spaced) enough =
    ap (λ (s' : AdaptiveStreamState). (run s' (poll_at ts)).current_bitrate_bps)
      (quiet_poll s t q later)
    ∙ (recovers (climbed s t) ts band q spaced
        (omega (arith, ramped_gain s.current_bitrate_bps s.base_bitrate_bps)))
  where
    band : InBand (climbed s t)
    band = rw (quiet_poll s t q later) at (step-InBand s (polls t) b tt)

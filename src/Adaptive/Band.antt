-- ===== src/Adaptive/Band.antt =====
-- The band of the bitrate, and histories of calls of `AdaptiveStreamState`.
use screx_v.Prelude.{ℕ, if-preserves, ◌-◌, List, [], ◌∷◌, All, ◌*◌, ◌≤◌, ◌≡◌, arith, leb}
use screx_v.Bytes.{IsU32}
use screx_v.Adaptive.{
  AdaptiveStreamState, new, reset, set_base, prune, note_pli, min_bitrate, throttled, ramped,
  adjust, settle, current_tuning,
}

-- For a base of at least 2 Mbps: between a third of the base (2 Mbps at least) and the base.
pub record InBand (s : AdaptiveStreamState) : Type 0 where
  pub fits : IsU32 s.base_bitrate_bps
  pub floor : min_bitrate s.base_bitrate_bps ≤ s.current_bitrate_bps
  pub ceiling : s.current_bitrate_bps ≤ s.base_bitrate_bps
  pub in_step : s.idr_fec_percent ≡ 2 * s.pframe_fec_percent
  pub few : s.idr_fec_percent ≤ 18

throttled_bounds :
    (current percent floor : ℕ)
    → percent ≤ 100
    → floor ≤ current
    → (floor ≤ throttled current percent floor) × (throttled current percent floor ≤ current)
unfolding throttled
throttled_bounds current percent floor p h = grind arith

ramped_bounds :
    (current base floor : ℕ)
    → floor ≤ current
    → current ≤ base
    → (floor ≤ ramped current base) × (ramped current base ≤ base)
unfolding ramped
ramped_bounds current base floor h k = omega arith

adjust-InBand : (s : AdaptiveStreamState) (now : ℕ) → InBand s → InBand (adjust s now)
unfolding adjust
adjust-InBand s now b = ground (
  arith,
  throttled_bounds s.current_bitrate_bps 80 (min_bitrate s.base_bitrate_bps),
  throttled_bounds s.current_bitrate_bps 90 (min_bitrate s.base_bitrate_bps),
  ramped_bounds s.current_bitrate_bps s.base_bitrate_bps (min_bitrate s.base_bitrate_bps),
)

-- The calls that `SharedState` makes, each with the time at which it is made.
pub data Call : Type 0 where
  notes_pli polls resets : ℕ → Call
  rebases : ℕ → ℕ → Call

abbrev pub step : AdaptiveStreamState → Call → AdaptiveStreamState
step s (notes_pli now) = note_pli s now
step s (polls now) = (current_tuning s now).0
step s (resets now) = reset s now
step s (rebases base now) = set_base s base now

abbrev pub run : AdaptiveStreamState → List Call → AdaptiveStreamState
run s [] = s
run s (c ∷ cs) = run (step s c) cs

-- A base that the loop can throttle: a u32 of at least 2 Mbps.
abbrev pub IsBase : ℕ → Type 0
IsBase base = (2_000_000 ≤ base) × IsU32 base

abbrev pub HasBase : Call → Type 0
HasBase (rebases base now) = IsBase base
HasBase _ = Unit {0}

settle-InBand : (s : AdaptiveStreamState) (now : ℕ) → InBand s → InBand (settle s now)
unfolding settle
settle-InBand s now b =
    if-preserves InBand (leb 1000 (now - s.last_adjust_at)) (adjust-InBand s now b) b

prune-InBand : (s : AdaptiveStreamState) (now : ℕ) → InBand s → InBand (prune s now)
unfolding prune
prune-InBand s now b = ground arith

pub step-InBand : (s : AdaptiveStreamState) (c : Call) → InBand s → HasBase c → InBand (step s c)
step-InBand s (notes_pli now) b h = unfold note_pli in prune-InBand _ now (ground arith)
step-InBand s (polls now) b h = unfold current_tuning in settle-InBand _ now (prune-InBand s now b)
step-InBand s (resets now) b h = unfold reset in ground arith
step-InBand s (rebases base now) b h = unfold set_base reset in ground arith

-- After any history of calls, at any times, the bitrate lies between a third of the current base
-- (2 Mbps at least) and that base, and the FEC rates keep their ratio of two to one, at most 18 and
-- 9 percent; each base set is at least 2 Mbps.
pub run-InBand :
    (s : AdaptiveStreamState) (cs : List Call) → InBand s → All HasBase cs → InBand (run s cs)
run-InBand s [] b h = b
run-InBand s (c ∷ cs) b (h, hs) = run-InBand (step s c) cs (step-InBand s c b h) hs

pub new-InBand : (base now : ℕ) → IsBase base → InBand (new base now)
unfolding new
new-InBand base now h = ground arith

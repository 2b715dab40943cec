-- ===== src/Adaptive.antt =====
-- The adaptive bitrate loop: `AdaptiveStreamState` of daemon/src/stream_server.rs. An `Instant` is a
-- number of milliseconds, and `duration_since` stops at zero. The log line is left out.
pub mod Band
pub mod Recovery
pub mod Loss
mod Tests
use screx_v.Prelude.{
  ℕ, ◌+◌, ◌-◌, ◌*◌, ◌/◌, ◌^◌, Bool, ◌||◌, List, [], ◌∷◌, ◌++◌, min, max, ltb, leb, length,
  if◌then◌else◌,
}
use mathlib.Core.List.{reverse}

pub record AdaptiveStreamState : Type 0 where
  pub base_bitrate_bps : ℕ
  pub current_bitrate_bps : ℕ
  pub idr_fec_percent : ℕ
  pub pframe_fec_percent : ℕ
  pub pli_events : List ℕ
  pub last_adjust_at : ℕ

pub record StreamTuning : Type 0 where
  pub bitrate_bps : ℕ
  pub idr_fec_percent : ℕ
  pub pframe_fec_percent : ℕ

abbrev pub adjust_interval : ℕ
adjust_interval = 1000

abbrev pub short_window : ℕ
short_window = 2000

abbrev pub long_window : ℕ
long_window = 6000

unfoldable pub new : ℕ → ℕ → AdaptiveStreamState
new base now = record {
  base_bitrate_bps = base;
  current_bitrate_bps = base;
  idr_fec_percent = 10;
  pframe_fec_percent = 5;
  pli_events = [];
  last_adjust_at = now;
}

unfoldable pub reset : AdaptiveStreamState → ℕ → AdaptiveStreamState
reset s now = record s {
  current_bitrate_bps = s.base_bitrate_bps;
  idr_fec_percent = 10;
  pframe_fec_percent = 5;
  pli_events = [];
  last_adjust_at = now;
}

unfoldable pub set_base : AdaptiveStreamState → ℕ → ℕ → AdaptiveStreamState
unfolding reset
set_base s base now = reset (record s { base_bitrate_bps = base }) now

-- The `while` of `prune` pops from the front, the oldest event.
unfoldable pub prune_events : ℕ → List ℕ → List ℕ
prune_events now [] = []
prune_events now (ts ∷ rest) =
    if ltb long_window (now - ts) then prune_events now rest else ts ∷ rest

unfoldable pub prune : AdaptiveStreamState → ℕ → AdaptiveStreamState
prune s now = record s { pli_events = prune_events now s.pli_events }

unfoldable pub note_pli : AdaptiveStreamState → ℕ → AdaptiveStreamState
unfolding prune
note_pli s now = prune (record s { pli_events = s.pli_events ++ now ∷ [] }) now

-- `take_while(..).count()` from the newest event on.
unfoldable pub count_recent : ℕ → List ℕ → ℕ
count_recent now [] = 0
count_recent now (ts ∷ older) =
    if leb (now - ts) short_window then 1 + count_recent now older else 0

unfoldable pub recent_pli : AdaptiveStreamState → ℕ → ℕ
recent_pli s now = count_recent now (reverse s.pli_events)

abbrev pub min_bitrate : ℕ → ℕ
min_bitrate base = max (base / 3) 2_000_000

-- `current.saturating_mul(percent).div_ceil(100).max(floor)` on u32.
unfoldable pub throttled : ℕ → ℕ → ℕ → ℕ
throttled current percent floor = max ((min (current * percent) (2 ^ 32 - 1) + 99) / 100) floor

-- The step up is computed in u64.
unfoldable pub ramped : ℕ → ℕ → ℕ
ramped current base = min (current * 110 / 100) base

unfoldable pub adjust : AdaptiveStreamState → ℕ → AdaptiveStreamState
adjust s now =
    let recent = recent_pli s now in
    let long = length s.pli_events in
    let floor = min_bitrate s.base_bitrate_bps in
    if leb 2 recent || leb 4 long
    then record s {
      current_bitrate_bps = throttled s.current_bitrate_bps 80 floor;
      idr_fec_percent = 18;
      pframe_fec_percent = 9;
      last_adjust_at = now;
    }
    else if leb 1 recent || leb 2 long
    then record s {
      current_bitrate_bps = throttled s.current_bitrate_bps 90 floor;
      idr_fec_percent = 14;
      pframe_fec_percent = 7;
      last_adjust_at = now;
    }
    else record s {
      current_bitrate_bps = ramped s.current_bitrate_bps s.base_bitrate_bps;
      idr_fec_percent = 10;
      pframe_fec_percent = 5;
      last_adjust_at = now;
    }

abbrev pub tuning : AdaptiveStreamState → StreamTuning
tuning s = record {
  bitrate_bps = s.current_bitrate_bps;
  idr_fec_percent = s.idr_fec_percent;
  pframe_fec_percent = s.pframe_fec_percent;
}

unfoldable pub settle : AdaptiveStreamState → ℕ → AdaptiveStreamState
settle s now = if leb adjust_interval (now - s.last_adjust_at) then adjust s now else s

unfoldable pub current_tuning : AdaptiveStreamState → ℕ → AdaptiveStreamState × StreamTuning
unfolding prune settle
current_tuning s now = let s' = settle (prune s now) now in (s', tuning s')

-- ===== src/Adaptive/Loss.antt =====
-- `adjust` when keyframes are asked for.
use screx_v.Prelude.{ℕ, ◌+◌, ◌*◌, ◌/◌, ◌≤◌, ◌<◌, ◌≡◌, ◌⊎◌, inl, inr, max, arith, length}
use native.Mathlib.Decide.{dec_le}
use screx_v.Adaptive.{AdaptiveStreamState, min_bitrate, throttled, adjust, recent_pli}

-- Enough requests for a keyframe for `adjust` to throttle.
abbrev pub IsLossy : AdaptiveStreamState → ℕ → Type 0
IsLossy s now = (1 ≤ recent_pli s now) ⊎ (2 ≤ length s.pli_events)

abbrev pub IsSevere : AdaptiveStreamState → ℕ → Type 0
IsSevere s now = (2 ≤ recent_pli s now) ⊎ (4 ≤ length s.pli_events)

IsSevere-or_not : (s : AdaptiveStreamState) (now : ℕ) → IsSevere s now ⊎ (¬ IsSevere s now)
IsSevere-or_not s now = elim (dec_le 2 (recent_pli s now)) [
  | yes h ↦ inl (inl h)
  | no recent ↦ elim (dec_le 4 (length s.pli_events)) [
    | yes h ↦ inl (inr h)
    | no long ↦ inr (λ h. omega arith)
  ]
]

-- Below 47 Mbps a throttled bitrate is 80 percent of the old one under severe loss and 90 percent
-- otherwise, rounded up, but never less than the floor.
adjust_throttles :
    (s : AdaptiveStreamState) (now : ℕ)
    → IsLossy s now
    → s.current_bitrate_bps ≤ 47_000_000
    → let next = (adjust s now).current_bitrate_bps in
      let floor = min_bitrate s.base_bitrate_bps in
      (IsSevere s now × (next ≡ max ((s.current_bitrate_bps * 80 + 99) / 100) floor))
      ⊎ ((¬ IsSevere s now) × (next ≡ max ((s.current_bitrate_bps * 90 + 99) / 100) floor))
unfolding adjust throttled
adjust_throttles s now lossy small = elim (IsSevere-or_not s now) [
  | inl h ↦ inl (h, ground arith)
  | inr h ↦ inr (h, ground arith)
]

-- From 53.7 Mbps on the u32 product saturates: whatever the loss, the bitrate falls to 42949673 (or
-- to the floor), however large it was.
adjust_saturates :
    (s : AdaptiveStreamState) (now : ℕ)
    → IsLossy s now
    → 53_687_092 ≤ s.current_bitrate_bps
    → (adjust s now).current_bitrate_bps ≡ max 42_949_673 (min_bitrate s.base_bitrate_bps)
unfolding adjust throttled
adjust_saturates s now lossy big = ground arith

-- Under a base below 2 Mbps, which a client may ask for, loss raises the bitrate above the base:
-- the floor of 2 Mbps wins over the ceiling.
adjust_exceeds_base :
    (s : AdaptiveStreamState) (now : ℕ)
    → IsLossy s now
    → s.base_bitrate_bps < 2_000_000
    → s.base_bitrate_bps < (adjust s now).current_bitrate_bps
unfolding adjust throttled
adjust_exceeds_base s now lossy low = ground arith

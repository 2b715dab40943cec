-- ===== src/Capabilities/Bounds.antt =====
-- The daemon's limits on the settings of the next session.
use screx_v.Prelude.{
  ℕ, ◌==◌, subst, if-preserves, ◌≤◌, ◌≡◌, refl, true, Option, none, some, List, [], ◌∷◌, max, arith,
  inl, inr, Option-cases,
}
use mathlib.Core.Option.{some-injective}
use screx_v.Capabilities.Tlv.{read_entries-preserves}
use screx_v.Capabilities.Stng.{
  VideoCodec, RequestedSettings, default_settings, stng_entry, resolution_entry, framerate_entry,
  codec_entry, bitrate_entry, parse_stng_body,
}
use screx_v.Capabilities.Clamp.{
  Limits, ControlTransport, bitrate_ceiling, width_floor, height_floor, fps_floor, bitrate_floor,
  clamp_u32, clamp_sizes, clamp_fps, clamp_codec, clamp_bitrate, has_codec,
  clamp_requested_settings, apply_requested_settings,
}

-- The range of a field: a ceiling below the floor counts as the floor.
abbrev pub InRange : ℕ → ℕ → Option ℕ → Type 0
InRange floor ceiling none = Unit {0}
InRange floor ceiling (some n) = (floor ≤ n) × (n ≤ max ceiling floor)

abbrev pub IsAvailable : Limits → Option VideoCodec → Type 0
IsAvailable l none = Unit {0}
IsAvailable l (some c) = has_codec l.available c ≡ true

-- Both sizes are asked for, or neither is.
abbrev pub IsPaired : Option ℕ → Option ℕ → Type 0
IsPaired (some w) none = ⊥
IsPaired none (some h) = ⊥
IsPaired _ _ = Unit {0}

pub record WithinLimits (l : Limits) (t : ControlTransport) (s : RequestedSettings) : Type 0 where
  pub width : InRange width_floor l.max_width s.width
  pub height : InRange height_floor l.max_height s.height
  pub fps : InRange fps_floor l.max_fps s.fps
  pub codec : IsAvailable l s.codec
  pub bitrate : InRange bitrate_floor (bitrate_ceiling t l) s.bitrate_bps

pub clamp_u32_bounds :
    (v floor ceiling : ℕ)
    → (floor ≤ clamp_u32 v floor ceiling) × (clamp_u32 v floor ceiling ≤ max ceiling floor)
unfolding clamp_u32
clamp_u32_bounds v floor ceiling = ground arith

clamp_sizes_bounds :
    (l : Limits) (w h : Option ℕ)
    → IsPaired w h
    → InRange width_floor l.max_width (clamp_sizes l w h).0
      × InRange height_floor l.max_height (clamp_sizes l w h).1
unfolding clamp_sizes
clamp_sizes_bounds l (some w) (some h) p =
    (clamp_u32_bounds w width_floor l.max_width, clamp_u32_bounds h height_floor l.max_height)
clamp_sizes_bounds l (some w) none p = absurd p
clamp_sizes_bounds l none (some h) p = absurd p
clamp_sizes_bounds l none none p = (tt, tt)

clamp_fps_bounds : (l : Limits) (fps : Option ℕ) → InRange fps_floor l.max_fps (clamp_fps l fps)
unfolding clamp_fps
clamp_fps_bounds l none = tt
clamp_fps_bounds l (some n) = clamp_u32_bounds n fps_floor l.max_fps

clamp_codec-IsAvailable : (l : Limits) (c : Option VideoCodec) → IsAvailable l (clamp_codec l c)
unfolding clamp_codec
clamp_codec-IsAvailable l none = tt
clamp_codec-IsAvailable l (some c) = ground arith

clamp_bitrate_bounds :
    (l : Limits) (t : ControlTransport) (b : Option ℕ)
    → InRange bitrate_floor (bitrate_ceiling t l) (clamp_bitrate l t b)
unfolding clamp_bitrate
clamp_bitrate_bounds l t none = tt
clamp_bitrate_bounds l t (some n) = clamp_u32_bounds n bitrate_floor (bitrate_ceiling t l)

clamp_requested_settings-WithinLimits :
    (l : Limits) (s : RequestedSettings) (t : ControlTransport)
    → IsPaired s.width s.height
    → WithinLimits l t (clamp_requested_settings l s t)
unfolding clamp_requested_settings
clamp_requested_settings-WithinLimits l s t p = record {
  width = (clamp_sizes_bounds l s.width s.height p).0;
  height = (clamp_sizes_bounds l s.width s.height p).1;
  fps = clamp_fps_bounds l s.fps;
  codec = clamp_codec-IsAvailable l s.codec;
  bitrate = clamp_bitrate_bounds l t s.bitrate_bps;
}

resolution_entry-IsPaired :
    (value : List ℕ) (s : RequestedSettings)
    → IsPaired s.width s.height
    → IsPaired (resolution_entry value s).width (resolution_entry value s).height
unfolding resolution_entry
resolution_entry-IsPaired (a ∷ b ∷ c ∷ d ∷ []) s p = tt
resolution_entry-IsPaired value s p = p

-- The other entries leave the sizes alone.
framerate_entry-sizes :
    (value : List ℕ) (s : RequestedSettings)
    → ((framerate_entry value s).width ≡ s.width) × ((framerate_entry value s).height ≡ s.height)
unfolding framerate_entry
framerate_entry-sizes (a ∷ []) s = (refl, refl)
framerate_entry-sizes value s = (refl, refl)

codec_entry-sizes :
    (value : List ℕ) (s : RequestedSettings)
    → ((codec_entry value s).width ≡ s.width) × ((codec_entry value s).height ≡ s.height)
unfolding codec_entry
codec_entry-sizes (a ∷ []) s = (refl, refl)
codec_entry-sizes value s = (refl, refl)

bitrate_entry-sizes :
    (value : List ℕ) (s : RequestedSettings)
    → ((bitrate_entry value s).width ≡ s.width) × ((bitrate_entry value s).height ≡ s.height)
unfolding bitrate_entry
bitrate_entry-sizes (a ∷ b ∷ c ∷ d ∷ []) s = (refl, refl)
bitrate_entry-sizes value s = (refl, refl)

abbrev SizesPaired : RequestedSettings → Type 0
SizesPaired s = IsPaired s.width s.height

stng_entry-SizesPaired :
    (tag : ℕ) (value : List ℕ) (s : RequestedSettings)
    → SizesPaired s
    → SizesPaired (stng_entry tag value s)
unfolding stng_entry
stng_entry-SizesPaired tag value s p =
    let (fw, fh) = framerate_entry-sizes value s in
    let (cw, ch) = codec_entry-sizes value s in
    let (bw, bh) = bitrate_entry-sizes value s in
    if-preserves SizesPaired (tag == 0x01) (resolution_entry-IsPaired value s p) (
      if-preserves SizesPaired (tag == 0x02) (rw (fw, fh) p) (
        if-preserves SizesPaired (tag == 0x03) (rw (cw, ch) p)
          (if-preserves SizesPaired (tag == 0x04) (rw (bw, bh) p) p)))

parse_stng_body-SizesPaired :
    (body : List ℕ) (s : RequestedSettings) → parse_stng_body body ≡ some s → SizesPaired s
unfolding parse_stng_body
parse_stng_body-SizesPaired (version ∷ n ∷ rest) s e = subst SizesPaired (some-injective _ _ e) (
    read_entries-preserves stng_entry SizesPaired stng_entry-SizesPaired n rest default_settings tt)
parse_stng_body-SizesPaired (version ∷ []) s e = cc
parse_stng_body-SizesPaired [] s e = cc

abbrev pub PendingWithin : Limits → ControlTransport → Option RequestedSettings → Type 0
PendingWithin l t none = Unit {0}
PendingWithin l t (some s) = WithinLimits l t s

-- However a client fills the body of `STNG`, the pending settings stay within the limits: each
-- field that is set lies in its range (a ceiling below the floor counts as the floor), and the
-- codec is one that the daemon has.
pub apply_requested_settings-PendingWithin :
    (l : Limits) (t : ControlTransport) (body : List ℕ) (pending : Option RequestedSettings)
    → PendingWithin l t pending
    → PendingWithin l t (apply_requested_settings l pending body t)
unfolding apply_requested_settings
apply_requested_settings-PendingWithin l t body pending h =
    elim (Option-cases (parse_stng_body body)) [
      | inl malformed ↦ rw (malformed, apply_requested_settings) h
      | inr (s, parsed) ↦
          rw (parsed, apply_requested_settings)
            (clamp_requested_settings-WithinLimits l s t
              (parse_stng_body-SizesPaired body s parsed))
    ]

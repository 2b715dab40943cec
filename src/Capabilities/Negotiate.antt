-- ===== src/Capabilities/Negotiate.antt =====
-- The whole exchange: `CAPS` to the client, its validation, `STNG` back, and the daemon's clamp.
use screx_v.Prelude.{
  ℕ, subst, Bool-cases, inl, inr, ◌%◌, ◌^◌, ◌≤◌, ◌<◌, ◌≡◌, refl, ap, ◌∙◌, sym, true, Option, none,
  some, List, [], ◌∷◌, ◌++◌, arith, map, length, drop, ◌==◌,
}
use screx_v.Bytes.{as_u8, IsU32}
use screx_v.Capabilities.Stng.{
  VideoCodec, h264, h265, transport_id, codec_of_id, parse_stng_body, RequestedSettings,
}
use screx_v.Capabilities.Clamp.{
  Limits, ControlTransport, bitrate_ceiling, width_floor, height_floor, fps_floor, bitrate_floor,
  clamp_u32, clamp_sizes, clamp_fps, clamp_codec, clamp_bitrate, has_codec,
  clamp_requested_settings, apply_requested_settings,
}
use screx_v.Capabilities.Client
use screx_v.Capabilities.Client.{
  validate_settings, resolution_violations, framerate_violations, codec_violations,
  bitrate_violations, contains, build_stng, parse_caps,
}
use screx_v.Capabilities.Advertise.{
  Probes, DaemonCapabilities, probe_capabilities, build_caps_message,
}
use screx_v.Capabilities.Settings.{received, parse-build_stng, sizes, codec_received}
use screx_v.Capabilities.Bounds.{IsPaired}
use screx_v.Capabilities.Trip.{learned, parse-build_caps}
use mathlib.Core.Option
use mathlib.Core.Option.{some-injective}

-- At or above a floor, where the field is set.
abbrev pub AtLeast : ℕ → Option ℕ → Type 0
AtLeast floor none = Unit {0}
AtLeast floor (some n) = floor ≤ n

-- The client sets both sizes or neither, and asks for no less than the daemon's floors.
pub record IsAboveFloors (s : Client.RequestedSettings) : Type 0 where
  pub width : AtLeast width_floor s.width
  pub height : AtLeast height_floor s.height
  pub paired : IsPaired s.width s.height
  pub fps : AtLeast fps_floor s.fps

-- The request in the daemon's words, field for field.
abbrev pub as_requested : Client.RequestedSettings → RequestedSettings
as_requested s = record {
  width = s.width;
  height = s.height;
  fps = s.fps;
  codec = codec_received s.codec;
  bitrate_bps = s.bitrate_bps;
}

append-eq-nil {ℓ} : {A : Type ℓ} (xs ys : List A) → xs ++ ys ≡ [] → (xs ≡ []) × (ys ≡ [])
append-eq-nil [] ys e = (refl, e)
append-eq-nil (x ∷ xs) ys e = cc

module _ (c : DaemonCapabilities) where
  sizes_kept :
      (l : Limits) (w h : Option ℕ)
      → l.max_width ≡ c.max_width
      → l.max_height ≡ c.max_height
      → IsPaired w h
      → AtLeast width_floor w
      → AtLeast height_floor h
      → resolution_violations w h (learned c) ≡ []
      → clamp_sizes l (sizes w h).0 (sizes w h).1 ≡ (w, h)
  unfolding clamp_sizes clamp_u32 resolution_violations
  sizes_kept l (some w) (some h) mw mh p fw fh ok = ground arith
  sizes_kept l (some w) none mw mh p fw fh ok = absurd p
  sizes_kept l none (some h) mw mh p fw fh ok = absurd p
  sizes_kept l none none mw mh p fw fh ok = refl

  fps_kept :
      (l : Limits) (fps : Option ℕ)
      → l.max_fps ≡ c.max_fps
      → AtLeast fps_floor fps
      → framerate_violations fps (learned c) ≡ []
      → clamp_fps l (Option.map as_u8 fps) ≡ fps
  unfolding clamp_fps clamp_u32 framerate_violations
  fps_kept l (some n) m f ok = ground arith
  fps_kept l none m f ok = refl

contains→has_codec :
    (cs : List VideoCodec) (id : ℕ)
    → contains (map transport_id cs) id ≡ true
    → (c : VideoCodec) × (codec_of_id id ≡ some c) × (has_codec cs c ≡ true)
unfolding codec_of_id
contains→has_codec [] id h = cc
contains→has_codec (h264 ∷ cs) id h = elim (Bool-cases (id == 0)) [
  | inl this ↦ (h264, ground arith, refl)
  | inr other ↦
      let (c, named, found) = contains→has_codec cs id (rw other at h) in (c, named, ground arith)
]
contains→has_codec (h265 ∷ cs) id h = elim (Bool-cases (id == 1)) [
  | inl this ↦ (h265, ground arith, refl)
  | inr other ↦
      let (c, named, found) = contains→has_codec cs id (rw other at h) in (c, named, ground arith)
]

codec_kept :
    (l : Limits) (id : Option ℕ) (c : DaemonCapabilities)
    → l.available ≡ c.codecs
    → codec_violations id (learned c) ≡ []
    → clamp_codec l (codec_received id) ≡ codec_received id
unfolding clamp_codec codec_violations
codec_kept l (some id) c a ok =
    let (codec, named, found) = contains→has_codec c.codecs id (ground arith) in
    rw named (ground arith)
codec_kept l none c a ok = refl

bitrate_kept :
    (l : Limits) (t : ControlTransport) (b : Option ℕ) (c : DaemonCapabilities)
    → IsU32 (bitrate_ceiling t l)
    → c.bitrate_min_bps ≡ bitrate_floor
    → c.bitrate_max_bps ≡ bitrate_ceiling t l
    → bitrate_violations b (learned c) ≡ []
    → clamp_bitrate l t (Option.map (λ n. n % 2 ^ 32) b) ≡ b
unfolding clamp_bitrate clamp_u32 bitrate_violations
bitrate_kept l t (some n) c k lo hi ok = ground arith
bitrate_kept l t none c k lo hi ok = refl

apply-parsed :
    (l : Limits) (pending : Option RequestedSettings) (body : List ℕ) (t : ControlTransport)
    {r : RequestedSettings}
    → parse_stng_body body ≡ some r
    → apply_requested_settings l pending body t ≡ some (clamp_requested_settings l r t)
unfolding apply_requested_settings
apply-parsed l pending body t e = rw (e, apply_requested_settings)

clamped_kept :
    (p : Probes) (l : Limits) (t : ControlTransport) (s : Client.RequestedSettings)
    → IsU32 (bitrate_ceiling t l)
    → validate_settings s (learned (probe_capabilities p l t)) ≡ []
    → IsAboveFloors s
    → clamp_requested_settings l (received s) t ≡ as_requested s
unfolding validate_settings clamp_requested_settings
clamped_kept p l t s fits valid above =
    let c = probe_capabilities p l t in
    let (first, bitrate_ok) = append-eq-nil _ _ valid in
    let (second, codec_ok) = append-eq-nil _ _ first in
    let (sizes_ok, fps_ok) = append-eq-nil _ _ second in
    let size =
      sizes_kept c l s.width s.height refl refl above.paired above.width above.height sizes_ok in
    rw (
      ap (λ x. x.0) size,
      ap (λ x. x.1) size,
      fps_kept c l s.fps refl above.fps fps_ok,
      codec_kept l s.codec c refl codec_ok,
      bitrate_kept l t s.bitrate_bps c fits refl refl bitrate_ok,
    )

-- The settings that the client asks for become the pending settings, field for field, where the
-- client has parsed the daemon's `CAPS` and its `validate_settings` finds nothing wrong, and the
-- request is not below the daemon's floors.
pub request_granted :
    (p : Probes) (l : Limits) (t : ControlTransport) (s : Client.RequestedSettings)
    (caps : Client.DaemonCapabilities) (pending : Option RequestedSettings)
    → length l.available < 256
    → IsU32 (bitrate_ceiling t l)
    → parse_caps (build_caps_message p l t) ≡ some caps
    → validate_settings s caps ≡ []
    → IsAboveFloors s
    → apply_requested_settings l pending (drop 4 (build_stng s)) t ≡ some (as_requested s)
request_granted p l t s caps pending few fits read valid above =
    apply-parsed l pending (drop 4 (build_stng s)) t (parse-build_stng s)
    ∙ ap some (clamped_kept p l t s fits (subst Valid same valid) above)
  where
    same : caps ≡ learned (probe_capabilities p l t)
    same = some-injective _ _ (sym read ∙ parse-build_caps p l t few fits)

    Valid : Client.DaemonCapabilities → Type 0
    Valid c = validate_settings s c ≡ []

abbrev pub size_only : ℕ → ℕ → Client.RequestedSettings
size_only w h = record {
  width = some w;
  height = some h;
  fps = none;
  codec = none;
  bitrate_bps = none;
}

-- A width below 640 passes the client's check, and the daemon raises it to 640.
low_width_raised :
    (p : Probes) (l : Limits) (t : ControlTransport) (w h : ℕ) (pending : Option RequestedSettings)
    → w < width_floor
    → h < 2 ^ 16
    → w ≤ l.max_width
    → h ≤ l.max_height
    → (validate_settings (size_only w h) (learned (probe_capabilities p l t)) ≡ [])
      × ((apply_requested_settings l pending (drop 4 (build_stng (size_only w h))) t
            ≡ some (clamp_requested_settings l (received (size_only w h)) t))
          × ((clamp_requested_settings l (received (size_only w h)) t).width ≡ some width_floor))
low_width_raised p l t w h pending low fits mw mh = (
  unfold validate_settings resolution_violations framerate_violations codec_violations
        bitrate_violations in
      ground arith,
  (
    apply-parsed l pending _ t (parse-build_stng (size_only w h)),
    unfold clamp_requested_settings clamp_sizes clamp_u32 in ground arith,
  ),
)

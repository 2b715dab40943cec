-- ===== src/Capabilities/Clamp.antt =====
-- How the daemon bounds what a client asks for (daemon/src/stream_server.rs): `clamp_u32`,
-- `clamp_requested_settings` and `apply_requested_settings`. The log lines are left out.
use screx_v.Prelude.{
  ℕ, Bool, true, false, ◌||◌, Option, none, some, List, [], ◌∷◌, ltb, max, if◌then◌else◌,
}
use screx_v.Capabilities.Stng.{VideoCodec, h264, h265, RequestedSettings, parse_stng_body}

-- The ceilings of `SharedState`, and the codecs that `probe_available_codecs` finds: that asks
-- FFmpeg, so its answer is a field here.
pub record Limits : Type 0 where
  pub max_width : ℕ
  pub max_height : ℕ
  pub max_fps : ℕ
  pub bitrate_max_bps : ℕ
  pub bitrate_max_usb_bps : ℕ
  pub available : List VideoCodec

pub data ControlTransport : Type 0 where
  network usb : ControlTransport

abbrev pub bitrate_ceiling : ControlTransport → Limits → ℕ
bitrate_ceiling network l = l.bitrate_max_bps
bitrate_ceiling usb l = l.bitrate_max_usb_bps

-- STNG_RESOLUTION_FLOOR_W, STNG_RESOLUTION_FLOOR_H, STNG_FPS_FLOOR and STNG_BITRATE_FLOOR_BPS.
abbrev pub width_floor : ℕ
width_floor = 640

abbrev pub height_floor : ℕ
height_floor = 360

abbrev pub fps_floor : ℕ
fps_floor = 15

abbrev pub bitrate_floor : ℕ
bitrate_floor = 500_000

-- `value.clamp(lo, hi)` of the standard library, for `lo ≤ hi`.
abbrev clamp : ℕ → ℕ → ℕ → ℕ
clamp value lo hi = if ltb value lo then lo else if ltb hi value then hi else value

unfoldable pub clamp_u32 : ℕ → ℕ → ℕ → ℕ
clamp_u32 value floor ceiling = clamp value floor (max ceiling floor)

abbrev pub codec_eq : VideoCodec → VideoCodec → Bool
codec_eq h264 h264 = true
codec_eq h265 h265 = true
codec_eq _ _ = false

-- `available.contains(&codec)`.
abbrev pub has_codec : List VideoCodec → VideoCodec → Bool
has_codec [] c = false
has_codec (x ∷ xs) c = codec_eq c x || has_codec xs c

-- One step for each `if let` of the source. The sizes are bounded only as a pair.
unfoldable pub clamp_sizes : Limits → Option ℕ → Option ℕ → Option ℕ × Option ℕ
unfolding clamp_u32
clamp_sizes l (some w) (some h) =
    (some (clamp_u32 w width_floor l.max_width), some (clamp_u32 h height_floor l.max_height))
clamp_sizes l w h = (w, h)

unfoldable pub clamp_fps : Limits → Option ℕ → Option ℕ
unfolding clamp_u32
clamp_fps l (some fps) = some (clamp_u32 fps fps_floor l.max_fps)
clamp_fps l none = none

unfoldable pub clamp_codec : Limits → Option VideoCodec → Option VideoCodec
clamp_codec l (some codec) = if has_codec l.available codec then some codec else none
clamp_codec l none = none

unfoldable pub clamp_bitrate : Limits → ControlTransport → Option ℕ → Option ℕ
unfolding clamp_u32
clamp_bitrate l t (some bitrate) = some (clamp_u32 bitrate bitrate_floor (bitrate_ceiling t l))
clamp_bitrate l t none = none

unfoldable pub clamp_requested_settings :
    Limits → RequestedSettings → ControlTransport → RequestedSettings
unfolding clamp_sizes clamp_fps clamp_codec clamp_bitrate
clamp_requested_settings l req t = record {
  width = (clamp_sizes l req.width req.height).0;
  height = (clamp_sizes l req.width req.height).1;
  fps = clamp_fps l req.fps;
  codec = clamp_codec l req.codec;
  bitrate_bps = clamp_bitrate l t req.bitrate_bps;
}

-- The new value of `pending_settings`: a malformed message leaves the old one.
unfoldable pub apply_requested_settings :
    Limits → Option RequestedSettings → List ℕ → ControlTransport → Option RequestedSettings
apply_requested_settings l pending body t = elim (parse_stng_body body) [
  | none ↦ pending
  | some parsed ↦ some (clamp_requested_settings l parsed t)
]

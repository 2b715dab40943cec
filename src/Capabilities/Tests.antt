-- ===== src/Capabilities/Tests.antt =====
-- Runs of the theorems on a daemon of 1920x1080 at 60 with both codecs.
use screx_v.Prelude.{◌≡◌, ◌++◌, refl, true, false, none, some, [], ◌∷◌, arith, drop}
use screx_v.Capabilities.Stng.{h264, h265, parse_stng_body}
use screx_v.Text.{decimal}
use screx_v.Capabilities.Choice.{StreamSettingsChoice, to_requested}
use screx_v.Capabilities.Picked.{choice_arrives, picked_numbers_requested}
use screx_v.Capabilities.Client
use screx_v.Capabilities.Client.{
  build_stng, parse_caps, validate_settings, resolution_violations, framerate_violations,
  codec_violations, bitrate_violations,
}
use screx_v.Capabilities.Clamp.{Limits, network, apply_requested_settings}
use screx_v.Capabilities.Advertise.{Probes, probe_capabilities, build_caps_message}
use screx_v.Capabilities.Trip.{learned, parse-build_caps}
use screx_v.Capabilities.Bounds.{PendingWithin, apply_requested_settings-PendingWithin}
use screx_v.Capabilities.Negotiate.{as_requested, request_granted}

abbrev request : Client.RequestedSettings
request = record {
  width = some 1280;
  height = some 720;
  fps = some 60;
  codec = some 1;
  bitrate_bps = some 8_000_000;
}

abbrev limits : Limits
limits = record {
  max_width = 1920;
  max_height = 1080;
  max_fps = 60;
  bitrate_max_bps = 20_000_000;
  bitrate_max_usb_bps = 60_000_000;
  available = h264 ∷ h265 ∷ [];
}

abbrev probes : Probes
probes = record { camera = true; microphone = true; speaker = false; gamepad = some 4 }

parse-build_caps_example :
    parse_caps (build_caps_message probes limits network)
    ≡ some (learned (probe_capabilities probes limits network))
parse-build_caps_example = parse-build_caps probes limits network (omega arith) (omega arith)

-- A size of 1x1, which is raised.
apply_requested_settings-PendingWithin_example :
    PendingWithin limits network
      (apply_requested_settings limits none (1 ∷ 1 ∷ 1 ∷ 4 ∷ 0 ∷ 1 ∷ 0 ∷ 1 ∷ []) network)
apply_requested_settings-PendingWithin_example =
    apply_requested_settings-PendingWithin limits network (1 ∷ 1 ∷ 1 ∷ 4 ∷ 0 ∷ 1 ∷ 0 ∷ 1 ∷ []) none
      tt

request_valid : validate_settings request (learned (probe_capabilities probes limits network)) ≡ []
unfolding validate_settings resolution_violations framerate_violations codec_violations
    bitrate_violations
request_valid = refl

request_granted_example :
    apply_requested_settings limits none (drop 4 (build_stng request)) network
    ≡ some (as_requested request)
request_granted_example =
    request_granted probes limits network request
      (learned (probe_capabilities probes limits network)) none (omega arith) (omega arith)
      parse-build_caps_example request_valid
      (record { width = omega arith; height = omega arith; paired = tt; fps = omega arith })

-- The picks 1280x720, 60, h265 and 8000000.
abbrev picks : StreamSettingsChoice
picks = record {
  resolution = decimal 5 1280 ++ b'x' ∷ decimal 5 720;
  framerate = b'6' ∷ b'0' ∷ [];
  codec = b'h' ∷ b'2' ∷ b'6' ∷ b'5' ∷ [];
  bitrate = decimal 10 8_000_000;
}

choice_arrives_example :
    parse_stng_body (drop 4 (build_stng (to_requested picks)))
    ≡ some (as_requested (to_requested picks))
choice_arrives_example = choice_arrives picks

picked_numbers_requested_example :
    ((to_requested picks).width ≡ some 1280)
    × ((to_requested picks).height ≡ some 720)
    × ((to_requested picks).bitrate_bps ≡ some 8_000_000)
picked_numbers_requested_example =
    picked_numbers_requested picks 1280 720 8_000_000 (omega arith) (omega arith) (omega arith)
      (omega arith) (omega arith) (omega arith) refl refl

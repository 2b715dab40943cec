-- ===== src/Capabilities/Advertise.antt =====
-- The `CAPS` message (daemon/src/stream_server.rs): `probe_capabilities` and `build_caps_message`.
use screx_v.Prelude.{
  ℕ, Bool, true, false, Option, none, some, List, [], ◌∷◌, ◌++◌, min, map, length,
}
use screx_v.Bytes.{as_u8, be16, be32}
use screx_v.Capabilities.Tlv.{push_tlv_entry}
use screx_v.Capabilities.Stng.{VideoCodec, transport_id}
use screx_v.Capabilities.Clamp.{Limits, ControlTransport, bitrate_ceiling, bitrate_floor}
use screx_v.Capabilities.Client.{caps_magic}

-- What the platform's probes answer; they look at devices and drivers.
pub record Probes : Type 0 where
  pub camera : Bool
  pub microphone : Bool
  pub speaker : Bool
  pub gamepad : Option ℕ

pub record DaemonCapabilities : Type 0 where
  pub camera : Bool
  pub microphone : Bool
  pub speaker : Bool
  pub gamepad : Option ℕ
  pub codecs : List VideoCodec
  pub max_width : ℕ
  pub max_height : ℕ
  pub max_fps : ℕ
  pub bitrate_min_bps : ℕ
  pub bitrate_max_bps : ℕ

abbrev pub probe_capabilities : Probes → Limits → ControlTransport → DaemonCapabilities
probe_capabilities p l t = record {
  camera = p.camera;
  microphone = p.microphone;
  speaker = p.speaker;
  gamepad = p.gamepad;
  codecs = l.available;
  max_width = l.max_width;
  max_height = l.max_height;
  max_fps = l.max_fps;
  bitrate_min_bps = bitrate_floor;
  bitrate_max_bps = bitrate_ceiling t l;
}

-- `b as u8`.
abbrev pub bool_u8 : Bool → ℕ
bool_u8 true = 1
bool_u8 false = 0

abbrev pub gamepad_bytes : Option ℕ → List ℕ
gamepad_bytes (some max) = 1 ∷ max ∷ []
gamepad_bytes none = 0 ∷ 0 ∷ []

abbrev pub codec_bytes : List VideoCodec → List ℕ
codec_bytes codecs = as_u8 (length codecs) ∷ map transport_id codecs

unfoldable pub caps_message : DaemonCapabilities → List ℕ
unfolding push_tlv_entry
caps_message caps =
    let head = caps_magic ++ 1 ∷ 8 ∷ [] in
    let camera = push_tlv_entry head 0x01 (bool_u8 caps.camera ∷ []) in
    let microphone = push_tlv_entry camera 0x02 (bool_u8 caps.microphone ∷ []) in
    let speaker = push_tlv_entry microphone 0x03 (bool_u8 caps.speaker ∷ []) in
    let gamepad = push_tlv_entry speaker 0x04 (gamepad_bytes caps.gamepad) in
    let codecs = push_tlv_entry gamepad 0x05 (codec_bytes caps.codecs) in
    let resolution =
      push_tlv_entry codecs 0x06
        (be16 (min caps.max_width 65535) ++ be16 (min caps.max_height 65535)) in
    let framerate = push_tlv_entry resolution 0x07 (as_u8 (min caps.max_fps 255) ∷ []) in
    push_tlv_entry framerate 0x08 (be32 caps.bitrate_min_bps ++ be32 caps.bitrate_max_bps)

unfoldable pub build_caps_message : Probes → Limits → ControlTransport → List ℕ
unfolding caps_message
build_caps_message p l t = caps_message (probe_capabilities p l t)

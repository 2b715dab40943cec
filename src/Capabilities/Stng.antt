-- ===== src/Capabilities/Stng.antt =====
-- The daemon's side of `STNG` (daemon/src/stream_server.rs): `RequestedSettings` and
-- `parse_stng_body`. The body is what follows the magic.
use screx_v.Prelude.{ℕ, Option, none, some, List, [], ◌∷◌, ◌==◌, if◌then◌else◌}
use screx_v.Bytes.{from_be16, from_be32}
use screx_v.Capabilities.Tlv.{read_entries}

-- `VideoCodec` of daemon/src/encode.rs.
pub data VideoCodec : Type 0 where
  h264 h265 : VideoCodec

abbrev pub transport_id : VideoCodec → ℕ
transport_id h264 = 0x00
transport_id h265 = 0x01

-- `none` is the daemon's own default for that field.
pub record RequestedSettings : Type 0 where
  pub width : Option ℕ
  pub height : Option ℕ
  pub fps : Option ℕ
  pub codec : Option VideoCodec
  pub bitrate_bps : Option ℕ

abbrev pub default_settings : RequestedSettings
default_settings = record {
  width = none;
  height = none;
  fps = none;
  codec = none;
  bitrate_bps = none;
}

-- The four known tags, each with the guard on its length as the pattern of the value.
unfoldable pub resolution_entry : List ℕ → RequestedSettings → RequestedSettings
resolution_entry (a ∷ b ∷ c ∷ d ∷ []) s = record s {
  width = some (from_be16 a b);
  height = some (from_be16 c d);
}
resolution_entry value s = s

unfoldable pub framerate_entry : List ℕ → RequestedSettings → RequestedSettings
framerate_entry (a ∷ []) s = record s { fps = some a }
framerate_entry value s = s

-- An unknown codec id falls back to the default.
unfoldable pub codec_of_id : ℕ → Option VideoCodec
codec_of_id id = if id == 0x00 then some h264 else if id == 0x01 then some h265 else none

unfoldable pub codec_entry : List ℕ → RequestedSettings → RequestedSettings
codec_entry (a ∷ []) s = record s { codec = codec_of_id a }
codec_entry value s = s

unfoldable pub bitrate_entry : List ℕ → RequestedSettings → RequestedSettings
bitrate_entry (a ∷ b ∷ c ∷ d ∷ []) s = record s { bitrate_bps = some (from_be32 a b c d) }
bitrate_entry value s = s

-- The `match tag` of the loop: an unknown tag, or a known one of another length, is skipped.
unfoldable pub stng_entry : ℕ → List ℕ → RequestedSettings → RequestedSettings
stng_entry tag value s =
    if tag == 0x01
    then resolution_entry value s
    else if tag == 0x02
    then framerate_entry value s
    else if tag == 0x03
    then codec_entry value s
    else if tag == 0x04
    then bitrate_entry value s
    else s

unfoldable pub parse_stng_body : List ℕ → Option RequestedSettings
parse_stng_body (version ∷ entry_count ∷ rest) =
    some (read_entries stng_entry entry_count rest default_settings)
parse_stng_body body = none

-- ===== src/Capabilities/Client.antt =====
-- client/desktop/src/capabilities.rs: what the client learns from `CAPS`, what it asks for in
-- `STNG`, and its check of the one against the other. A codec is a transport id.
use screx_v.Prelude.{
  ℕ, Bool, true, false, not, ◌||◌, Option, none, some, List, [], ◌∷◌, ◌++◌, ltb, ◌==◌, min, length,
  take, drop, if◌then◌else◌,
}
use screx_v.Bytes.{be16, be32, as_u8, as_u16, from_be16, from_be32, starts_with}
use screx_v.Capabilities.Tlv.{Entry, encode, read_entries}

pub record DaemonCapabilities : Type 0 where
  pub camera : Bool
  pub microphone : Bool
  pub speaker : Bool
  pub gamepad_max : Option ℕ
  pub codecs : List ℕ
  pub max_width : ℕ
  pub max_height : ℕ
  pub max_fps : ℕ
  pub bitrate_min_bps : ℕ
  pub bitrate_max_bps : ℕ

abbrev pub default_capabilities : DaemonCapabilities
default_capabilities = record {
  camera = true;
  microphone = true;
  speaker = true;
  gamepad_max = none;
  codecs = 0x00 ∷ 0x01 ∷ [];
  max_width = 3840;
  max_height = 2160;
  max_fps = 60;
  bitrate_min_bps = 500_000;
  bitrate_max_bps = 20_000_000;
}

abbrev pub caps_magic : List ℕ
caps_magic = b'C' ∷ b'A' ∷ b'P' ∷ b'S' ∷ []

abbrev pub stng_magic : List ℕ
stng_magic = b'S' ∷ b'T' ∷ b'N' ∷ b'G' ∷ []

-- The arms of the `match tag`; a value too short for its tag changes nothing.
unfoldable pub gamepad_entry : List ℕ → DaemonCapabilities → DaemonCapabilities
gamepad_entry (a ∷ b ∷ more) c = record c { gamepad_max = if a == 0 then none else some b }
gamepad_entry value c = c

unfoldable pub codecs_entry : List ℕ → DaemonCapabilities → DaemonCapabilities
codecs_entry (count ∷ avail) c = record c { codecs = take (min count (length avail)) avail }
codecs_entry [] c = c

unfoldable pub max_resolution_entry : List ℕ → DaemonCapabilities → DaemonCapabilities
max_resolution_entry (w1 ∷ w0 ∷ h1 ∷ h0 ∷ more) c = record c {
  max_width = from_be16 w1 w0;
  max_height = from_be16 h1 h0;
}
max_resolution_entry value c = c

unfoldable pub bitrate_range_entry : List ℕ → DaemonCapabilities → DaemonCapabilities
bitrate_range_entry (a ∷ b ∷ c ∷ d ∷ e ∷ f ∷ g ∷ h ∷ more) caps = record caps {
  bitrate_min_bps = from_be32 a b c d;
  bitrate_max_bps = from_be32 e f g h;
}
bitrate_range_entry value caps = caps

-- The arms that look at the first byte of the value alone.
unfoldable pub with_first :
    List ℕ → DaemonCapabilities → (ℕ → DaemonCapabilities) → DaemonCapabilities
with_first [] c update = c
with_first (b ∷ more) c update = update b

unfoldable pub caps_entry : ℕ → List ℕ → DaemonCapabilities → DaemonCapabilities
caps_entry tag value c =
    if tag == 0x01
    then with_first value c (λ b. record c { camera = not (b == 0) })
    else if tag == 0x02
    then with_first value c (λ b. record c { microphone = not (b == 0) })
    else if tag == 0x03
    then with_first value c (λ b. record c { speaker = not (b == 0) })
    else if tag == 0x04
    then gamepad_entry value c
    else if tag == 0x05
    then codecs_entry value c
    else if tag == 0x06
    then max_resolution_entry value c
    else if tag == 0x07
    then with_first value c (λ b. record c { max_fps = b })
    else if tag == 0x08
    then bitrate_range_entry value c
    else c

unfoldable pub parse_caps_body : List ℕ → Option DaemonCapabilities
parse_caps_body (version ∷ entry_count ∷ rest) =
    some (read_entries caps_entry entry_count rest default_capabilities)
parse_caps_body body = none

unfoldable pub parse_caps : List ℕ → Option DaemonCapabilities
unfolding parse_caps_body
parse_caps payload =
    if starts_with payload caps_magic then parse_caps_body (drop 4 payload) else none

-- `none` asks for nothing.
pub record RequestedSettings : Type 0 where
  pub width : Option ℕ
  pub height : Option ℕ
  pub fps : Option ℕ
  pub codec : Option ℕ
  pub bitrate_bps : Option ℕ

-- What `validate_settings` reports; the source words each as a sentence for the user.
pub data Violation : Type 0 where
  resolution_too_high framerate_too_high codec_unsupported bitrate_too_high bitrate_too_low :
      Violation

unfoldable pub resolution_violations : Option ℕ → Option ℕ → DaemonCapabilities → List Violation
resolution_violations (some w) (some h) caps =
    if ltb caps.max_width w || ltb caps.max_height h then resolution_too_high ∷ [] else []
resolution_violations w h caps = []

unfoldable pub framerate_violations : Option ℕ → DaemonCapabilities → List Violation
framerate_violations (some fps) caps = if ltb caps.max_fps fps then framerate_too_high ∷ [] else []
framerate_violations none caps = []

-- `codecs.contains(&codec)`.
abbrev pub contains : List ℕ → ℕ → Bool
contains [] c = false
contains (x ∷ xs) c = c == x || contains xs c

unfoldable pub codec_violations : Option ℕ → DaemonCapabilities → List Violation
codec_violations (some codec) caps =
    if contains caps.codecs codec then [] else codec_unsupported ∷ []
codec_violations none caps = []

unfoldable pub bitrate_violations : Option ℕ → DaemonCapabilities → List Violation
bitrate_violations (some bps) caps =
    if ltb caps.bitrate_max_bps bps
    then bitrate_too_high ∷ []
    else if ltb bps caps.bitrate_min_bps
    then bitrate_too_low ∷ []
    else []
bitrate_violations none caps = []

unfoldable pub validate_settings : RequestedSettings → DaemonCapabilities → List Violation
validate_settings requested caps =
    resolution_violations requested.width requested.height caps
    ++ framerate_violations requested.fps caps
    ++ codec_violations requested.codec caps
    ++ bitrate_violations requested.bitrate_bps caps

-- The entries that `build_stng` collects: one for each field that is asked for, both sizes at once.
unfoldable pub resolution_entries : Option ℕ → Option ℕ → List Entry
resolution_entries (some w) (some h) =
    record { tag = 0x01; value = be16 (as_u16 w) ++ be16 (as_u16 h) } ∷ []
resolution_entries w h = []

unfoldable pub optional_entry : ℕ → (ℕ → List ℕ) → Option ℕ → List Entry
optional_entry tag bytes (some n) = record { tag = tag; value = bytes n } ∷ []
optional_entry tag bytes none = []

unfoldable pub stng_entries : RequestedSettings → List Entry
unfolding resolution_entries optional_entry
stng_entries s =
    resolution_entries s.width s.height
    ++ optional_entry 0x02 (λ fps. as_u8 fps ∷ []) s.fps
    ++ optional_entry 0x03 (λ codec. codec ∷ []) s.codec
    ++ optional_entry 0x04 be32 s.bitrate_bps

unfoldable pub build_stng : RequestedSettings → List ℕ
unfolding stng_entries
build_stng s =
    let entries = stng_entries s in stng_magic ++ 1 ∷ as_u8 (length entries) ∷ encode entries

-- ===== src/Capabilities/Choice.antt =====
-- The stream settings picked in the settings dialog, and the request made of them:
-- StreamSettingsChoice, parse_resolution and to_requested of client/desktop/src/capabilities.rs.
-- A string is its bytes.
use screx_v.Prelude.{ℕ, ◌^◌, Option, none, some, List, [], ◌∷◌, ltb, if◌then◌else◌}
use mathlib.Core.Option
use screx_v.Text.{split_once, parse}
use screx_v.History.{same_bytes}
use screx_v.Capabilities.Client.{RequestedSettings}

pub record StreamSettingsChoice : Type 0 where
  pub resolution : List ℕ
  pub framerate : List ℕ
  pub codec : List ℕ
  pub bitrate : List ℕ

abbrev pub default_choice : List ℕ
default_choice = b'd' ∷ b'e' ∷ b'f' ∷ b'a' ∷ b'u' ∷ b'l' ∷ b't' ∷ []

abbrev pub default_settings_choice : StreamSettingsChoice
default_settings_choice = record {
  resolution = default_choice;
  framerate = default_choice;
  codec = default_choice;
  bitrate = default_choice;
}

-- `filter(|v| *v > 0)`.
unfoldable pub positive : Option ℕ → Option ℕ
positive none = none
positive (some n) = if ltb 0 n then some n else none

unfoldable pub both : Option ℕ → Option ℕ → Option (ℕ × ℕ)
both none h = none
both (some w) none = none
both (some w) (some h) = some (w, h)

unfoldable pub size_of : Option (List ℕ × List ℕ) → Option (ℕ × ℕ)
unfolding both positive parse
size_of none = none
size_of (some (w, h)) = both (positive (parse 65536 w)) (positive (parse 65536 h))

unfoldable pub parse_resolution : List ℕ → Option (ℕ × ℕ)
unfolding size_of split_once
parse_resolution value = size_of (split_once b'x' value)

unfoldable pub framerate_of : List ℕ → Option ℕ
unfolding same_bytes
framerate_of value =
    if same_bytes value (b'3' ∷ b'0' ∷ [])
    then some 30
    else if same_bytes value (b'6' ∷ b'0' ∷ [])
    then some 60
    else none

unfoldable pub codec_of : List ℕ → Option ℕ
unfolding same_bytes
codec_of value =
    if same_bytes value (b'h' ∷ b'2' ∷ b'6' ∷ b'4' ∷ [])
    then some 0x00
    else if same_bytes value (b'h' ∷ b'2' ∷ b'6' ∷ b'5' ∷ [])
    then some 0x01
    else none

unfoldable pub to_requested : StreamSettingsChoice → RequestedSettings
unfolding parse_resolution framerate_of codec_of positive parse
to_requested c = record {
  width = Option.map (λ p. p.0) (parse_resolution c.resolution);
  height = Option.map (λ p. p.1) (parse_resolution c.resolution);
  fps = framerate_of c.framerate;
  codec = codec_of c.codec;
  bitrate_bps = positive (parse (2 ^ 32) c.bitrate);
}

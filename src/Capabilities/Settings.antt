-- ===== src/Capabilities/Settings.antt =====
-- What the daemon reads from the `STNG` message that the client builds.
use screx_v.Prelude.{
  ℕ, ◌%◌, ◌^◌, ◌≤◌, ◌≡◌, refl, ap, ◌∙◌, Option, none, some, List, [], ◌∷◌, arith, length, drop, All,
  All-append,
}
use mathlib.Core.List.{append-nil}
use screx_v.Bytes.{as_u8, as_u16, be32, from_be16-be16, from_be32-be32, IsU16}
use screx_v.Capabilities.Tlv.{
  Entry, encode, apply_entries, read_entries-encode, apply_entries-append,
}
use screx_v.Capabilities.Stng.{
  VideoCodec, RequestedSettings, default_settings, codec_of_id, resolution_entry, framerate_entry,
  codec_entry, bitrate_entry, stng_entry, parse_stng_body,
}
use screx_v.Capabilities.Client
use screx_v.Capabilities.Client.{
  resolution_entries, optional_entry, stng_entries, build_stng, stng_magic,
}
use mathlib.Core.Option

-- The two sizes travel together, or not at all.
abbrev pub sizes : Option ℕ → Option ℕ → Option ℕ × Option ℕ
sizes (some w) (some h) = (some (as_u16 w), some (as_u16 h))
sizes w h = (none, none)

abbrev pub codec_received : Option ℕ → Option VideoCodec
codec_received (some c) = codec_of_id c
codec_received none = none

-- What of a request survives the width of its field on the wire.
abbrev pub received : Client.RequestedSettings → RequestedSettings
received s = record {
  width = (sizes s.width s.height).0;
  height = (sizes s.width s.height).1;
  fps = Option.map as_u8 s.fps;
  codec = codec_received s.codec;
  bitrate_bps = Option.map (λ b. b % 2 ^ 32) s.bitrate_bps;
}

resolution_entries-apply :
    (w h : Option ℕ) (r : RequestedSettings)
    → r.width ≡ none
    → r.height ≡ none
    → apply_entries stng_entry (resolution_entries w h) r
      ≡ record r { width = (sizes w h).0; height = (sizes w h).1 }
unfolding resolution_entries stng_entry resolution_entry apply_entries
resolution_entries-apply (some w) (some h) r p q =
    ground (arith, from_be16-be16 (as_u16 w), from_be16-be16 (as_u16 h))
resolution_entries-apply (some w) none r p q = ground arith
resolution_entries-apply none h r p q = ground arith

framerate-apply :
    (fps : Option ℕ) (r : RequestedSettings)
    → r.fps ≡ none
    → apply_entries stng_entry (optional_entry 0x02 (λ n. as_u8 n ∷ []) fps) r
      ≡ record r { fps = Option.map as_u8 fps }
unfolding optional_entry stng_entry framerate_entry apply_entries
framerate-apply (some n) r p = refl
framerate-apply none r p = ground arith

codec-apply :
    (codec : Option ℕ) (r : RequestedSettings)
    → r.codec ≡ none
    → apply_entries stng_entry (optional_entry 0x03 (λ n. n ∷ []) codec) r
      ≡ record r { codec = codec_received codec }
unfolding optional_entry stng_entry codec_entry apply_entries
codec-apply (some n) r p = refl
codec-apply none r p = ground arith

bitrate-apply :
    (bps : Option ℕ) (r : RequestedSettings)
    → r.bitrate_bps ≡ none
    → apply_entries stng_entry (optional_entry 0x04 be32 bps) r
      ≡ record r { bitrate_bps = Option.map (λ b. b % 2 ^ 32) bps }
unfolding optional_entry stng_entry bitrate_entry apply_entries
bitrate-apply (some n) r p = ground (arith, from_be32-be32 n)
bitrate-apply none r p = ground arith

stng_entries-apply :
    (s : Client.RequestedSettings)
    → apply_entries stng_entry (stng_entries s) default_settings ≡ received s
unfolding stng_entries
stng_entries-apply s =
    let sized = record default_settings {
      width = (sizes s.width s.height).0;
      height = (sizes s.width s.height).1;
    } in
    let timed = record sized { fps = Option.map as_u8 s.fps } in
    let coded = record timed { codec = codec_received s.codec } in
    simp apply_entries-append (
      rw (
        resolution_entries-apply s.width s.height default_settings refl refl,
        framerate-apply s.fps sized refl,
        codec-apply s.codec timed refl,
        bitrate-apply s.bitrate_bps coded refl,
      ))

abbrev IsShort : Entry → Type 0
IsShort e = IsU16 (length e.value)

resolution_entries-IsShort : (w h : Option ℕ) → All IsShort (resolution_entries w h)
unfolding resolution_entries
resolution_entries-IsShort (some w) (some h) = omega arith
resolution_entries-IsShort (some w) none = tt
resolution_entries-IsShort none h = tt

optional_entry-IsShort :
    (tag : ℕ) (bytes : ℕ → List ℕ) (o : Option ℕ)
    → ((n : ℕ) → length (bytes n) ≤ 4)
    → All IsShort (optional_entry tag bytes o)
unfolding optional_entry
optional_entry-IsShort tag bytes (some n) h = (omega (arith, h n), tt)
optional_entry-IsShort tag bytes none h = tt

stng_entries-IsShort : (s : Client.RequestedSettings) → All IsShort (stng_entries s)
unfolding stng_entries
stng_entries-IsShort s =
    All-append IsShort _ _
      (All-append IsShort _ _
        (All-append IsShort _ _ (resolution_entries-IsShort s.width s.height)
          (optional_entry-IsShort 0x02 _ s.fps (λ n. omega arith)))
        (optional_entry-IsShort 0x03 _ s.codec (λ n. omega arith)))
      (optional_entry-IsShort 0x04 _ s.bitrate_bps (λ n. omega arith))

stng_entries-few : (s : Client.RequestedSettings) → length (stng_entries s) ≤ 4
unfolding stng_entries resolution_entries optional_entry
stng_entries-few s = ground arith

-- The daemon reads back what the client asks for, cut to the width of each field on the wire; a lone
-- size is not sent, and an unknown codec is none.
pub parse-build_stng :
    (s : Client.RequestedSettings) → parse_stng_body (drop 4 (build_stng s)) ≡ some (received s)
unfolding parse_stng_body build_stng
parse-build_stng s = ap some (
    rw (count, ← append-nil (encode (stng_entries s)))
      (read_entries-encode stng_entry (stng_entries s) [] default_settings (stng_entries-IsShort s)
        ∙ stng_entries-apply s))
  where
    count : as_u8 (length (stng_entries s)) ≡ length (stng_entries s)
    count = omega (arith, stng_entries-few s)

-- ===== src/Capabilities/Trip.antt =====
-- What the client learns from the `CAPS` message that the daemon builds.
use screx_v.Prelude.{
  ℕ, suc, ◌<◌, ◌≡◌, refl, ap, ◌∙◌, Bool, true, false, not, Option, none, some, List, [], ◌∷◌, ◌++◌,
  min, arith, length, map, take_all, All, ◌==◌,
}
use mathlib.Core.List.{append-nil, append_assoc}
use screx_v.Bytes.{as_u8, be16, be32, from_be16-be16, from_be32-be32, IsU16, IsU32}
use screx_v.Capabilities.Tlv.{Entry, encode, push_tlv_entry, apply_entries, read_entries-encode}
use screx_v.Capabilities.Stng.{VideoCodec, transport_id}
use screx_v.Capabilities.Clamp.{Limits, ControlTransport, bitrate_ceiling}
use screx_v.Capabilities.Client
use screx_v.Capabilities.Client.{
  caps_magic, default_capabilities, caps_entry, with_first, gamepad_entry, codecs_entry,
  max_resolution_entry, bitrate_range_entry, parse_caps,
}
use screx_v.Capabilities.Advertise.{
  Probes, DaemonCapabilities, bool_u8, gamepad_bytes, codec_bytes, caps_message, build_caps_message,
  probe_capabilities,
}

abbrev entries : DaemonCapabilities → List Entry
entries c =
    record { tag = 0x01; value = bool_u8 c.camera ∷ [] }
    ∷ record { tag = 0x02; value = bool_u8 c.microphone ∷ [] }
    ∷ record { tag = 0x03; value = bool_u8 c.speaker ∷ [] }
    ∷ record { tag = 0x04; value = gamepad_bytes c.gamepad }
    ∷ record { tag = 0x05; value = codec_bytes c.codecs }
    ∷ record { tag = 0x06; value = be16 (min c.max_width 65535) ++ be16 (min c.max_height 65535) }
    ∷ record { tag = 0x07; value = as_u8 (min c.max_fps 255) ∷ [] }
    ∷ record { tag = 0x08; value = be32 c.bitrate_min_bps ++ be32 c.bitrate_max_bps }
    ∷ []

caps_message-encode :
    (c : DaemonCapabilities) → caps_message c ≡ caps_magic ++ 1 ∷ 8 ∷ encode (entries c)
unfolding caps_message push_tlv_entry encode
caps_message-encode c = simp (append_assoc, append-nil)

-- What a client makes of an advertisement: sizes and rates as far as their fields reach.
abbrev pub learned : DaemonCapabilities → Client.DaemonCapabilities
learned c = record {
  camera = c.camera;
  microphone = c.microphone;
  speaker = c.speaker;
  gamepad_max = c.gamepad;
  codecs = map transport_id c.codecs;
  max_width = min c.max_width 65535;
  max_height = min c.max_height 65535;
  max_fps = min c.max_fps 255;
  bitrate_min_bps = c.bitrate_min_bps;
  bitrate_max_bps = c.bitrate_max_bps;
}

bool_u8-read : (b : Bool) → not (bool_u8 b == 0) ≡ b
bool_u8-read true = refl
bool_u8-read false = refl

length-gamepad_bytes : (g : Option ℕ) → length (gamepad_bytes g) ≡ 2
length-gamepad_bytes none = refl
length-gamepad_bytes (some n) = refl

gamepad_entry-bytes :
    (g : Option ℕ) (c : Client.DaemonCapabilities)
    → gamepad_entry (gamepad_bytes g) c ≡ record c { gamepad_max = g }
unfolding gamepad_entry
gamepad_entry-bytes none c = refl
gamepad_entry-bytes (some n) c = refl

length-map {ℓ κ} :
    {A : Type ℓ} {B : Type κ} (f : A → B) (xs : List A) → length (map f xs) ≡ length xs
length-map f [] = refl
length-map f (x ∷ xs) = ap suc (length-map f xs)

codecs_entry-bytes :
    (cs : List VideoCodec)
    → length cs < 256
    → (c : Client.DaemonCapabilities)
    → codecs_entry (codec_bytes cs) c ≡ record c { codecs = map transport_id cs }
unfolding codecs_entry
codecs_entry-bytes cs h c = ground (
  arith,
  take_all (min (as_u8 (length cs)) (length (map transport_id cs))) (map transport_id cs),
  length-map transport_id cs,
)

apply_entries-entries :
    (c : DaemonCapabilities)
    → length c.codecs < 256
    → IsU32 c.bitrate_min_bps
    → IsU32 c.bitrate_max_bps
    → apply_entries caps_entry (entries c) default_capabilities ≡ learned c
unfolding apply_entries caps_entry with_first max_resolution_entry bitrate_range_entry
apply_entries-entries c hc hlo hhi =
    simp
      (
        gamepad_entry-bytes,
        codecs_entry-bytes c.codecs hc,
        bool_u8-read,
        from_be16-be16,
        from_be32-be32,
      )
      (ground arith)

entries-short :
    (c : DaemonCapabilities) → length c.codecs < 256 → All (λ e. IsU16 (length e.value)) (entries c)
entries-short c h = omega (arith, length-gamepad_bytes c.gamepad, length-map transport_id c.codecs)

parse-caps_message :
    (c : DaemonCapabilities)
    → length c.codecs < 256
    → IsU32 c.bitrate_min_bps
    → IsU32 c.bitrate_max_bps
    → parse_caps (caps_message c) ≡ some (learned c)
unfolding parse_caps
parse-caps_message c hc hlo hhi =
    rw (caps_message-encode c, ← append-nil (encode (entries c)))
      (ap some (
        read_entries-encode caps_entry (entries c) [] default_capabilities (entries-short c hc)
        ∙ apply_entries-entries c hc hlo hhi))

-- The client reads back what the daemon advertises. Sizes are cut at 65535 and the frame rate at
-- 255, the widest their fields can say; the bitrate floor is the daemon's.
pub parse-build_caps :
    (p : Probes) (l : Limits) (t : ControlTransport)
    → length l.available < 256
    → IsU32 (bitrate_ceiling t l)
    → parse_caps (build_caps_message p l t) ≡ some (learned (probe_capabilities p l t))
unfolding build_caps_message
parse-build_caps p l t h k = parse-caps_message (probe_capabilities p l t) h (omega arith) k

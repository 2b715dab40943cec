-- ===== src/Edid.antt =====
-- The description of the virtual display that the daemon gives the evdi driver: generate_edid of
-- daemon/src/platform/linux/evdi.rs. A total that leaves its
-- integer wraps around, as in a release build; a size of 0.02646 cm for each pixel is rounded down.
pub mod Timing
mod Tests
use screx_v.Prelude.{ℕ, ◌+◌, ◌-◌, ◌*◌, ◌/◌, ◌%◌, ◌^◌, List, [], ◌∷◌, ◌++◌, min, max, replicate}
use screx_v.Bytes.{as_u8, as_u16}

abbrev pub h_blank : ℕ
h_blank = 80

abbrev pub v_blank : ℕ
v_blank = 47

unfoldable pub centimetres : (pixels : ℕ) → ℕ
centimetres pixels = max (min (pixels * 2646 / 100000) 255) 1

unfoldable pub pixel_clock_khz : (width height refresh_hz : ℕ) → ℕ
pixel_clock_khz width height refresh_hz =
    ((width + h_blank) % 2 ^ 32 * ((height + v_blank) % 2 ^ 32) * refresh_hz) % 2 ^ 64 / 1000

-- The bytes 0 to 53.
unfoldable pub identity : (width height : ℕ) → List ℕ
unfolding centimetres
identity width height =
    0x00
    ∷ 0xFF
    ∷ 0xFF
    ∷ 0xFF
    ∷ 0xFF
    ∷ 0xFF
    ∷ 0xFF
    ∷ 0x00
    ∷ 0x4E
    ∷ 0x58
    ∷ 0x01
    ∷ 0x00
    ∷ 0x01
    ∷ 0x00
    ∷ 0x00
    ∷ 0x00
    ∷ 0x01
    ∷ 0x22
    ∷ 0x01
    ∷ 0x04
    ∷ 0xA5
    ∷ centimetres width
    ∷ centimetres height
    ∷ 120
    ∷ 0x2E
    ∷ 0xEE
    ∷ 0x95
    ∷ 0xA3
    ∷ 0x54
    ∷ 0x4C
    ∷ 0x99
    ∷ 0x26
    ∷ 0x0F
    ∷ 0x50
    ∷ 0x54
    ∷ 0x00
    ∷ 0x00
    ∷ 0x00
    ∷ replicate 16 0x01

-- The high bits of a size and of its blank, four each.
unfoldable pub high_bits : (size blank : ℕ) → ℕ
high_bits size blank = size / 256 % 16 * 16 + blank / 256 % 16

-- The bytes 54 to 71: the detailed timing.
unfoldable pub timing : (width height refresh_hz : ℕ) → List ℕ
unfolding pixel_clock_khz high_bits centimetres
timing width height refresh_hz =
    let clock = as_u16 (pixel_clock_khz width height refresh_hz / 10) in
    (clock % 256)
    ∷ (clock / 256)
    ∷ (width % 256)
    ∷ h_blank
    ∷ high_bits width h_blank
    ∷ (height % 256)
    ∷ v_blank
    ∷ high_bits height v_blank
    ∷ 8
    ∷ 32
    ∷ (3 * 16 + 8)
    ∷ 0x00
    ∷ centimetres width
    ∷ centimetres height
    ∷ 0x00
    ∷ 0x00
    ∷ 0x00
    ∷ 0x1E
    ∷ []

-- The bytes 72 to 89.
abbrev pub name : List ℕ
name =
    0x00 ∷ 0x00 ∷ 0x00 ∷ 0xFC ∷ 0x00 ∷ b'S' ∷ b'c' ∷ b'r' ∷ b'e' ∷ b'x' ∷ 0x20 ∷ b'V' ∷ b'i' ∷ b'r'
    ∷ b't' ∷ b'u' ∷ b'a' ∷ b'l' ∷ []

-- The bytes 90 to 107.
abbrev pub serial : List ℕ
serial = 0x00 ∷ 0x00 ∷ 0x00 ∷ 0xFF ∷ 0x00 ∷ b'0' ∷ b'0' ∷ b'1' ∷ 0x0A ∷ replicate 9 0x20

-- The bytes 108 to 125.
unfoldable pub range_limits : (width height refresh_hz : ℕ) → List ℕ
unfolding pixel_clock_khz
range_limits width height refresh_hz =
    0x00
    ∷ 0x00
    ∷ 0x00
    ∷ 0xFD
    ∷ 0x00
    ∷ as_u8 (max (refresh_hz - 1) 1)
    ∷ as_u8 (min (refresh_hz + 1) (2 ^ 32 - 1))
    ∷ 1
    ∷ 255
    ∷ min (pixel_clock_khz width height refresh_hz / 10000 + 1) 255
    ∷ 0x00
    ∷ replicate 7 0x0A

-- The bytes 0 to 126.
unfoldable pub body : (width height refresh_hz : ℕ) → List ℕ
unfolding identity timing range_limits
body width height refresh_hz =
    identity width height
    ++ (timing width height refresh_hz
        ++ (name ++ (serial ++ (range_limits width height refresh_hz ++ (0 ∷ [])))))

-- `wrapping_add` over the bytes.
unfoldable pub wrapping_sum : List ℕ → ℕ
wrapping_sum [] = 0
wrapping_sum (b ∷ bs) = (b + wrapping_sum bs) % 256

unfoldable pub checksum : List ℕ → ℕ
unfolding wrapping_sum
checksum bytes = (256 - wrapping_sum bytes) % 256

unfoldable pub generate_edid : (width height refresh_hz : ℕ) → List ℕ
unfolding body checksum
generate_edid width height refresh_hz =
    let bytes = body width height refresh_hz in bytes ++ (checksum bytes ∷ [])

-- ===== src/Input/Hid.antt =====
-- The table from HID usages to Linux key codes, `hid_to_evdev` of daemon/src/input.rs.
use screx_v.Prelude.{ℕ, Option, none, some, List, [], ◌∷◌, ◌==◌, if◌then◌else◌}

-- The entry for a key in a table.
unfoldable pub lookup : ℕ → List (ℕ × ℕ) → Option ℕ
lookup k [] = none
lookup k ((k', v) ∷ rest) = if k == k' then some v else lookup k rest

-- The arms of the match, each with the value of its `KEY_` constant.
abbrev pub hid_table : List (ℕ × ℕ)
hid_table =
    (0x04, 30)
    ∷ (0x05, 48)
    ∷ (0x06, 46)
    ∷ (0x07, 32)
    ∷ (0x08, 18)
    ∷ (0x09, 33)
    ∷ (0x0A, 34)
    ∷ (0x0B, 35)
    ∷ (0x0C, 23)
    ∷ (0x0D, 36)
    ∷ (0x0E, 37)
    ∷ (0x0F, 38)
    ∷ (0x10, 50)
    ∷ (0x11, 49)
    ∷ (0x12, 24)
    ∷ (0x13, 25)
    ∷ (0x14, 16)
    ∷ (0x15, 19)
    ∷ (0x16, 31)
    ∷ (0x17, 20)
    ∷ (0x18, 22)
    ∷ (0x19, 47)
    ∷ (0x1A, 17)
    ∷ (0x1B, 45)
    ∷ (0x1C, 21)
    ∷ (0x1D, 44)
    ∷ (0x1E, 2)
    ∷ (0x1F, 3)
    ∷ (0x20, 4)
    ∷ (0x21, 5)
    ∷ (0x22, 6)
    ∷ (0x23, 7)
    ∷ (0x24, 8)
    ∷ (0x25, 9)
    ∷ (0x26, 10)
    ∷ (0x27, 11)
    ∷ (0x28, 28)
    ∷ (0x29, 1)
    ∷ (0x2A, 14)
    ∷ (0x2B, 15)
    ∷ (0x2C, 57)
    ∷ (0x2D, 12)
    ∷ (0x2E, 13)
    ∷ (0x2F, 26)
    ∷ (0x30, 27)
    ∷ (0x31, 43)
    ∷ (0x33, 39)
    ∷ (0x34, 40)
    ∷ (0x35, 41)
    ∷ (0x36, 51)
    ∷ (0x37, 52)
    ∷ (0x38, 53)
    ∷ (0x39, 58)
    ∷ (0x3A, 59)
    ∷ (0x3B, 60)
    ∷ (0x3C, 61)
    ∷ (0x3D, 62)
    ∷ (0x3E, 63)
    ∷ (0x3F, 64)
    ∷ (0x40, 65)
    ∷ (0x41, 66)
    ∷ (0x42, 67)
    ∷ (0x43, 68)
    ∷ (0x44, 87)
    ∷ (0x45, 88)
    ∷ (0x46, 99)
    ∷ (0x47, 70)
    ∷ (0x49, 110)
    ∷ (0x4A, 102)
    ∷ (0x4B, 104)
    ∷ (0x4C, 111)
    ∷ (0x4D, 107)
    ∷ (0x4E, 109)
    ∷ (0x4F, 106)
    ∷ (0x50, 105)
    ∷ (0x51, 108)
    ∷ (0x52, 103)
    ∷ (0x53, 69)
    ∷ (0xE0, 29)
    ∷ (0xE1, 42)
    ∷ (0xE2, 56)
    ∷ (0xE3, 125)
    ∷ (0xE4, 97)
    ∷ (0xE5, 54)
    ∷ (0xE6, 100)
    ∷ (0xE7, 126)
    ∷ []

unfoldable pub hid_to_evdev : ℕ → Option ℕ
unfolding lookup
hid_to_evdev hid = lookup hid hid_table

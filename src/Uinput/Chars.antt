-- ===== src/Uinput/Chars.antt =====
-- `char_to_key` of daemon/src/platform/linux/uinput.rs: the keys of a US keyboard for characters.
use screx_v.Prelude.{ℕ, Bool, true, false, Option, none, some, List, [], ◌∷◌, ◌==◌, if◌then◌else◌}

-- The arms of the match: character, key, and whether shift is held.
abbrev pub char_table : List (ℕ × ℕ × Bool)
char_table =
    (b'a', 30, false)
    ∷ (b'b', 48, false)
    ∷ (b'c', 46, false)
    ∷ (b'd', 32, false)
    ∷ (b'e', 18, false)
    ∷ (b'f', 33, false)
    ∷ (b'g', 34, false)
    ∷ (b'h', 35, false)
    ∷ (b'i', 23, false)
    ∷ (b'j', 36, false)
    ∷ (b'k', 37, false)
    ∷ (b'l', 38, false)
    ∷ (b'm', 50, false)
    ∷ (b'n', 49, false)
    ∷ (b'o', 24, false)
    ∷ (b'p', 25, false)
    ∷ (b'q', 16, false)
    ∷ (b'r', 19, false)
    ∷ (b's', 31, false)
    ∷ (b't', 20, false)
    ∷ (b'u', 22, false)
    ∷ (b'v', 47, false)
    ∷ (b'w', 17, false)
    ∷ (b'x', 45, false)
    ∷ (b'y', 21, false)
    ∷ (b'z', 44, false)
    ∷ (b'A', 30, true)
    ∷ (b'B', 48, true)
    ∷ (b'C', 46, true)
    ∷ (b'D', 32, true)
    ∷ (b'E', 18, true)
    ∷ (b'F', 33, true)
    ∷ (b'G', 34, true)
    ∷ (b'H', 35, true)
    ∷ (b'I', 23, true)
    ∷ (b'J', 36, true)
    ∷ (b'K', 37, true)
    ∷ (b'L', 38, true)
    ∷ (b'M', 50, true)
    ∷ (b'N', 49, true)
    ∷ (b'O', 24, true)
    ∷ (b'P', 25, true)
    ∷ (b'Q', 16, true)
    ∷ (b'R', 19, true)
    ∷ (b'S', 31, true)
    ∷ (b'T', 20, true)
    ∷ (b'U', 22, true)
    ∷ (b'V', 47, true)
    ∷ (b'W', 17, true)
    ∷ (b'X', 45, true)
    ∷ (b'Y', 21, true)
    ∷ (b'Z', 44, true)
    ∷ (b'1', 2, false)
    ∷ (b'2', 3, false)
    ∷ (b'3', 4, false)
    ∷ (b'4', 5, false)
    ∷ (b'5', 6, false)
    ∷ (b'6', 7, false)
    ∷ (b'7', 8, false)
    ∷ (b'8', 9, false)
    ∷ (b'9', 10, false)
    ∷ (b'0', 11, false)
    ∷ (b'!', 2, true)
    ∷ (b'@', 3, true)
    ∷ (b'#', 4, true)
    ∷ (b'$', 5, true)
    ∷ (b'%', 6, true)
    ∷ (b'^', 7, true)
    ∷ (b'&', 8, true)
    ∷ (b'*', 9, true)
    ∷ (b'(', 10, true)
    ∷ (b')', 11, true)
    ∷ (b'-', 12, false)
    ∷ (b'_', 12, true)
    ∷ (b'=', 13, false)
    ∷ (b'+', 13, true)
    ∷ (b'[', 26, false)
    ∷ (b'{', 26, true)
    ∷ (b']', 27, false)
    ∷ (b'}', 27, true)
    ∷ (b';', 39, false)
    ∷ (b':', 39, true)
    ∷ (39, 40, false)
    ∷ (b'"', 40, true)
    ∷ (b'`', 41, false)
    ∷ (b'~', 41, true)
    ∷ (92, 43, false)
    ∷ (b'|', 43, true)
    ∷ (b',', 51, false)
    ∷ (b'<', 51, true)
    ∷ (b'.', 52, false)
    ∷ (b'>', 52, true)
    ∷ (b'/', 53, false)
    ∷ (b'?', 53, true)
    ∷ (b' ', 57, false)
    ∷ (9, 15, false)
    ∷ (10, 28, false)
    ∷ []

unfoldable pub char_entry : ℕ → List (ℕ × ℕ × Bool) → Option (ℕ × Bool)
char_entry c [] = none
char_entry c ((c', k, shift) ∷ rest) = if c == c' then some (k, shift) else char_entry c rest

unfoldable pub char_to_key : ℕ → Option (ℕ × Bool)
unfolding char_entry
char_to_key c = char_entry c char_table

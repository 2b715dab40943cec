-- ===== src/Input/Qt.antt =====
-- The desktop client's keys, after client/desktop/src/input.rs: what is sent for a Qt key. A key,
-- whose code Qt never makes negative, and the word of modifiers are numbers; text is its
-- characters.
use screx_v.Prelude.{
  ℕ, ◌+◌, ◌-◌, ◌/◌, ◌%◌, ◌^◌, Bool, true, false, ◌&&◌, ◌||◌, not, Option, none, some, List, [], ◌∷◌,
  ◌++◌, ltb, leb, ◌==◌, if◌then◌else◌,
}
use screx_v.Bytes.{as_u16}
use screx_v.Input.Hid.{lookup}
use screx_v.Input.Client.{
  send_raw_key, send_key_text, send_key_special, send_key_combo_text, send_key_combo_special,
}

abbrev pub between : ℕ → ℕ → ℕ → Bool
between low high k = leb low k && leb k high

-- The arms of the match with one key each.
abbrev pub qt_table : List (ℕ × ℕ)
qt_table =
    (0x30, 0x27)
    ∷ (0x01000004, 0x28)
    ∷ (0x01000005, 0x58)
    ∷ (0x01000000, 0x29)
    ∷ (0x01000003, 0x2a)
    ∷ (0x01000001, 0x2b)
    ∷ (0x20, 0x2c)
    ∷ (0x2d, 0x2d)
    ∷ (0x5f, 0x2d)
    ∷ (0x3d, 0x2e)
    ∷ (0x2b, 0x2e)
    ∷ (0x5b, 0x2f)
    ∷ (0x7b, 0x2f)
    ∷ (0x5d, 0x30)
    ∷ (0x7d, 0x30)
    ∷ (0x5c, 0x31)
    ∷ (0x7c, 0x31)
    ∷ (0x3b, 0x33)
    ∷ (0x3a, 0x33)
    ∷ (0x27, 0x34)
    ∷ (0x22, 0x34)
    ∷ (0x60, 0x35)
    ∷ (0x7e, 0x35)
    ∷ (0x2c, 0x36)
    ∷ (0x3c, 0x36)
    ∷ (0x2e, 0x37)
    ∷ (0x3e, 0x37)
    ∷ (0x2f, 0x38)
    ∷ (0x3f, 0x38)
    ∷ (0x21, 0x1e)
    ∷ (0x40, 0x1f)
    ∷ (0x23, 0x20)
    ∷ (0x24, 0x21)
    ∷ (0x25, 0x22)
    ∷ (0x5e, 0x23)
    ∷ (0x26, 0x24)
    ∷ (0x2a, 0x25)
    ∷ (0x28, 0x26)
    ∷ (0x29, 0x27)
    ∷ (0x01000024, 0x39)
    ∷ (0x01000009, 0x46)
    ∷ (0x01000026, 0x47)
    ∷ (0x01000008, 0x48)
    ∷ (0x01000006, 0x49)
    ∷ (0x01000010, 0x4a)
    ∷ (0x01000016, 0x4b)
    ∷ (0x01000007, 0x4c)
    ∷ (0x01000011, 0x4d)
    ∷ (0x01000017, 0x4e)
    ∷ (0x01000014, 0x4f)
    ∷ (0x01000012, 0x50)
    ∷ (0x01000015, 0x51)
    ∷ (0x01000013, 0x52)
    ∷ (0x01000025, 0x53)
    ∷ (0x01000021, 0xe0)
    ∷ (0x01000020, 0xe1)
    ∷ (0x01000023, 0xe2)
    ∷ (0x01000022, 0xe3)
    ∷ []

unfoldable pub qt_key_to_hid : ℕ → Option ℕ
unfolding lookup
qt_key_to_hid qt_key =
    if between 0x41 0x5a qt_key
    then some (as_u16 (qt_key - 0x41 + 0x04))
    else if between 0x31 0x39 qt_key
    then some (as_u16 (qt_key - 0x31 + 0x1e))
    else if between 0x01000030 0x0100003b qt_key
    then some (as_u16 (qt_key - 0x01000030 + 0x3a))
    else lookup qt_key qt_table

-- Bit `2 ^ n` of a word.
abbrev pub has_bit : ℕ → ℕ → Bool
has_bit word n = (word / 2 ^ n) % 2 == 1

unfoldable pub qt_modifiers_to_combo : ℕ → ℕ → ℕ
qt_modifiers_to_combo mods qt_key =
    (if has_bit mods 26 && not (qt_key == 0x01000021) then 0x01 else 0)
    + (if has_bit mods 27 && not (qt_key == 0x01000023) then 0x02 else 0)
    + (if has_bit mods 28 && not (qt_key == 0x01000022) then 0x04 else 0)

-- `char::is_control`: the categories' two ranges.
abbrev pub is_control : ℕ → Bool
is_control c = ltb c 0x20 || between 0x7F 0x9F c

abbrev pub filtered : List ℕ → List ℕ
filtered [] = []
filtered (c ∷ cs) = if is_control c then filtered cs else c ∷ filtered cs

abbrev pub unless_empty : List ℕ → Option (List ℕ)
unless_empty [] = none
unless_empty (c ∷ cs) = some (c ∷ cs)

unfoldable pub sanitize_key_text : List ℕ → Option (List ℕ)
sanitize_key_text text = unless_empty (filtered text)

-- `str::as_bytes`, of characters.
unfoldable pub char_bytes : ℕ → List ℕ
char_bytes c =
    if ltb c 0x80
    then c ∷ []
    else if ltb c 0x800
    then (0xC0 + c / 2 ^ 6) ∷ (0x80 + c % 2 ^ 6) ∷ []
    else if ltb c 0x10000
    then (0xE0 + c / 2 ^ 12) ∷ (0x80 + c / 2 ^ 6 % 2 ^ 6) ∷ (0x80 + c % 2 ^ 6) ∷ []
    else (0xF0 + c / 2 ^ 18)
      ∷ (0x80 + c / 2 ^ 12 % 2 ^ 6)
      ∷ (0x80 + c / 2 ^ 6 % 2 ^ 6)
      ∷ (0x80 + c % 2 ^ 6)
      ∷ []

unfoldable pub as_bytes : List ℕ → List ℕ
unfolding char_bytes
as_bytes [] = []
as_bytes (c ∷ cs) = char_bytes c ++ as_bytes cs

unfoldable pub qt_key_is_modifier : ℕ → Bool
qt_key_is_modifier qt_key = between 0x01000020 0x01000023 qt_key

-- The arms of the match.
abbrev pub special_table : List (ℕ × ℕ)
special_table =
    (0x01000003, 0x01)
    ∷ (0x01000004, 0x02)
    ∷ (0x01000005, 0x02)
    ∷ (0x01000001, 0x03)
    ∷ (0x01000000, 0x04)
    ∷ (0x01000012, 0x05)
    ∷ (0x01000014, 0x06)
    ∷ (0x01000013, 0x07)
    ∷ (0x01000015, 0x08)
    ∷ (0x01000007, 0x09)
    ∷ (0x01000010, 0x0A)
    ∷ (0x01000011, 0x0B)
    ∷ (0x01000021, 0x0C)
    ∷ (0x01000023, 0x0D)
    ∷ (0x01000022, 0x0E)
    ∷ (0x01000006, 0x0F)
    ∷ []

unfoldable pub qt_key_to_special : ℕ → Option ℕ
unfolding lookup
qt_key_to_special qt_key = lookup qt_key special_table

-- The payload for a key known by its usage, if it is.
unfoldable pub by_usage : Option ℕ → Bool → Option (List ℕ)
unfolding send_raw_key
by_usage none pressed = none
by_usage (some hid_usage) pressed = some (send_raw_key hid_usage pressed)

-- A press, with the keys held as modifiers, the special code and the text of the key.
unfoldable pub press_key : ℕ → Option ℕ → Option (List ℕ) → Option (List ℕ)
unfolding send_key_combo_special send_key_combo_text send_key_special send_key_text as_bytes
press_key combo_mods (some code) text =
    some (if combo_mods == 0 then send_key_special code else send_key_combo_special combo_mods code)
press_key combo_mods none (some text) = some (
    if combo_mods == 0
    then send_key_text (as_bytes text)
    else send_key_combo_text combo_mods (as_bytes text))
press_key combo_mods none none = none

-- A key that is not a modifier: those with a code or text are sent when pressed and say nothing
-- when released, the others go by usage.
unfoldable pub plain_key :
    (qt_key combo_mods : ℕ) → Option ℕ → Option (List ℕ) → Bool → Option (List ℕ)
unfolding by_usage press_key qt_key_to_hid
plain_key qt_key combo_mods none none pressed = by_usage (qt_key_to_hid qt_key) pressed
plain_key qt_key combo_mods special text true = press_key combo_mods special text
plain_key qt_key combo_mods special text false = none

-- The payload sent for a key, if any.
unfoldable pub send_qt_key_action :
    (qt_key : ℕ) (text : List ℕ) (modifiers : ℕ) (pressed : Bool) → Option (List ℕ)
unfolding qt_key_is_modifier by_usage qt_key_to_hid plain_key qt_modifiers_to_combo
    qt_key_to_special sanitize_key_text
send_qt_key_action qt_key text modifiers pressed =
    if qt_key_is_modifier qt_key
    then by_usage (qt_key_to_hid qt_key) pressed
    else plain_key qt_key (qt_modifiers_to_combo modifiers qt_key) (qt_key_to_special qt_key)
        (sanitize_key_text text) pressed

-- ===== src/Uinput/Keyboard.antt =====
-- VirtualKeyboard of daemon/src/platform/linux/uinput.rs. A text is its characters.
use screx_v.Uinput.Chars.{char_to_key}
use screx_v.Prelude.{
  ℕ, zero, suc, ◌/◌, ◌%◌, Bool, true, false, Option, none, some, List, [], ◌∷◌, ◌++◌, ltb, ◌==◌,
  if◌then◌else◌,
}
use screx_v.Input.Hid.{hid_to_evdev, lookup}
use screx_v.Uinput.{InputEvent, key, syn_report}

abbrev pub special_table : List (ℕ × ℕ)
special_table =
    (0x01, 14)
    ∷ (0x02, 28)
    ∷ (0x03, 15)
    ∷ (0x04, 1)
    ∷ (0x05, 105)
    ∷ (0x06, 106)
    ∷ (0x07, 103)
    ∷ (0x08, 108)
    ∷ (0x09, 111)
    ∷ (0x0A, 102)
    ∷ (0x0B, 107)
    ∷ (0x0C, 29)
    ∷ (0x0D, 56)
    ∷ (0x0E, 125)
    ∷ (0x0F, 110)
    ∷ []

unfoldable pub special_to_keycode : ℕ → Option ℕ
unfolding lookup
special_to_keycode code = lookup code special_table

abbrev pub key_leftctrl : ℕ
key_leftctrl = 29

abbrev pub key_leftshift : ℕ
key_leftshift = 42

abbrev pub key_leftalt : ℕ
key_leftalt = 56

abbrev pub key_leftmeta : ℕ
key_leftmeta = 125

abbrev pub key_enter : ℕ
key_enter = 28

abbrev pub key_u : ℕ
key_u = 22

-- A key that is pressed and released, each with a report.
unfoldable pub tap : ℕ → List InputEvent
tap code = key code 1 ∷ syn_report ∷ key code 0 ∷ syn_report ∷ []

unfoldable pub type_key : ℕ × Bool → List InputEvent
type_key (code, true) =
    key key_leftshift 1
    ∷ key code 1
    ∷ syn_report
    ∷ key code 0
    ∷ key key_leftshift 0
    ∷ syn_report
    ∷ []
type_key (code, false) = key code 1 ∷ syn_report ∷ key code 0 ∷ syn_report ∷ []

-- The keys of `format!("{:x}")`, for a number below 16 ^ fuel.
abbrev pub digit_keys : List (ℕ × ℕ)
digit_keys =
    (0, 11)
    ∷ (1, 2)
    ∷ (2, 3)
    ∷ (3, 4)
    ∷ (4, 5)
    ∷ (5, 6)
    ∷ (6, 7)
    ∷ (7, 8)
    ∷ (8, 9)
    ∷ (9, 10)
    ∷ (10, 30)
    ∷ (11, 48)
    ∷ (12, 46)
    ∷ (13, 32)
    ∷ (14, 18)
    ∷ (15, 33)
    ∷ []

unfoldable pub tap_found : Option ℕ → List InputEvent
unfolding tap
tap_found none = []
tap_found (some code) = tap code

unfoldable pub type_hex : (fuel n : ℕ) → List InputEvent
unfolding tap_found lookup
type_hex zero n = []
type_hex (suc fuel) n =
    let rest = type_hex fuel (n / 16) in
    (if ltb n 16 then [] else rest) ++ tap_found (lookup (n % 16) digit_keys)

-- Ctrl, Shift and U, the character's number, and Enter.
unfoldable pub type_unicode : ℕ → List InputEvent
unfolding type_hex tap
type_unicode c =
    key key_leftctrl 1
    ∷ key key_leftshift 1
    ∷ key key_u 1
    ∷ syn_report
    ∷ key key_u 0
    ∷ key key_leftshift 0
    ∷ key key_leftctrl 0
    ∷ syn_report
    ∷ (type_hex 6 c ++ tap key_enter)

unfoldable pub type_char : ℕ → Option (ℕ × Bool) → List InputEvent
unfolding type_key type_unicode
type_char c none = type_unicode c
type_char c (some k) = type_key k

unfoldable pub type_text : List ℕ → List InputEvent
unfolding type_char char_to_key
type_text [] = []
type_text (c ∷ cs) = type_char c (char_to_key c) ++ type_text cs

unfoldable pub press_special : ℕ → List InputEvent
unfolding tap_found special_to_keycode
press_special code = tap_found (special_to_keycode code)

-- The modifiers of a mask: Ctrl 1, Alt 2, Meta 4.
unfoldable pub mod_keys : ℕ → List ℕ
mod_keys mods =
    (if mods % 2 == 1 then key_leftctrl ∷ [] else [])
    ++ (if mods / 2 % 2 == 1 then key_leftalt ∷ [] else [])
    ++ (if mods / 4 % 2 == 1 then key_leftmeta ∷ [] else [])

unfoldable pub push_keys : (value : ℕ) → List ℕ → List InputEvent
push_keys value [] = []
push_keys value (code ∷ codes) = key code value ∷ push_keys value codes

unfoldable pub push_mod_keys : (mods value : ℕ) → List InputEvent
unfolding push_keys mod_keys
push_mod_keys mods value = push_keys value (mod_keys mods)

-- Characters without a key are passed over.
unfoldable pub type_known : Option (ℕ × Bool) → List InputEvent
unfolding type_key
type_known none = []
type_known (some k) = type_key k

unfoldable pub type_chars : List ℕ → List InputEvent
unfolding type_known char_to_key
type_chars [] = []
type_chars (c ∷ cs) = type_known (char_to_key c) ++ type_chars cs

unfoldable pub type_with_modifiers : (mods : ℕ) (text : List ℕ) → List InputEvent
unfolding push_mod_keys type_chars
type_with_modifiers mods text =
    push_mod_keys mods 1
    ++ (syn_report ∷ (type_chars text ++ (push_mod_keys mods 0 ++ (syn_report ∷ []))))

unfoldable pub press_with : (mods : ℕ) → Option ℕ → List InputEvent
unfolding push_mod_keys
press_with mods none = []
press_with mods (some code) =
    push_mod_keys mods 1
    ++ (syn_report
        ∷ key code 1
        ∷ syn_report
        ∷ key code 0
        ∷ (push_mod_keys mods 0 ++ (syn_report ∷ [])))

unfoldable pub press_special_with_modifiers : (mods code : ℕ) → List InputEvent
unfolding press_with special_to_keycode
press_special_with_modifiers mods code = press_with mods (special_to_keycode code)

unfoldable pub raw_event : Option ℕ → Bool → List InputEvent
raw_event none pressed = []
raw_event (some code) pressed = key code (if pressed then 1 else 0) ∷ syn_report ∷ []

-- The calls on the keyboard of LinuxInput, and the events of each.
pub data KeyCall : Type 0 where
  key_text : (text : List ℕ) → KeyCall
  key_special : (code modifiers : ℕ) → KeyCall
  key_text_with_modifiers : (text : List ℕ) (mods : ℕ) → KeyCall
  key_raw_hid : (usage : ℕ) (pressed : Bool) → KeyCall

unfoldable pub key_events : KeyCall → List InputEvent
unfolding type_text press_special press_special_with_modifiers type_with_modifiers raw_event
    hid_to_evdev
key_events (key_text text) = type_text text
key_events (key_special code modifiers) =
    if modifiers == 0 then press_special code else press_special_with_modifiers modifiers code
key_events (key_text_with_modifiers text mods) = type_with_modifiers mods text
key_events (key_raw_hid usage pressed) = raw_event (hid_to_evdev usage) pressed

unfoldable pub all_key_events : List KeyCall → List InputEvent
unfolding key_events
all_key_events [] = []
all_key_events (c ∷ cs) = key_events c ++ all_key_events cs

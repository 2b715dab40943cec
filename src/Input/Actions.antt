-- ===== src/Input/Actions.antt =====
-- What the daemon does with the keys of the desktop client.
use screx_v.Prelude.{
  ℕ, Bool-cases, ◌<◌, ◌≤◌, ◌≡◌, ◌⊎◌, ◌∙◌, inl, inr, refl, Bool, true, false, Option, none, some,
  List, [], ◌∷◌, ◌++◌, arith, ◌==◌, All, if-preserves,
}
use screx_v.Input.{utf8_run, utf8_step, utf8_lead, boundary, from_utf8, is_boundary}
use screx_v.Input.{KeyboardEvent, text, special, combo, special_combo, parse_rawkey_event}
use screx_v.Input.Dispatch.{send_event, handle_control_message_data, keyboard}
use screx_v.Input.Commands.{
  Command, payload, meaning, IsValid, handle_control_message_data-payload, key_text, key_special,
  key_combo_text, key_combo_special,
}
use screx_v.Input.Client.{
  send_raw_key, send_key_text, send_key_special, send_key_combo_text, send_key_combo_special,
}
use screx_v.Input.Qt.{
  char_bytes, as_bytes, sanitize_key_text, unless_empty, filtered, is_control, by_usage, press_key,
  plain_key, send_qt_key_action, qt_key_to_hid, qt_key_is_modifier, qt_modifiers_to_combo,
  qt_key_to_special,
}

-- `char`: a code point that is not a surrogate.
abbrev pub IsChar : ℕ → Type 0
IsChar c = c < 0x110000 × ((c < 0xD800) ⊎ (0xE000 ≤ c))

utf8_one :
    (c : ℕ) (rest : List ℕ)
    → IsChar c
    → utf8_run boundary (char_bytes c ++ rest) ≡ utf8_run boundary rest
unfolding utf8_run utf8_step utf8_lead char_bytes
utf8_one c rest h = ground arith

utf8_text : (cs : List ℕ) → All IsChar cs → utf8_run boundary (as_bytes cs) ≡ boundary
unfolding as_bytes utf8_run
utf8_text [] h = refl
utf8_text (c ∷ cs) (h, hs) = utf8_one c (as_bytes cs) h ∙ utf8_text cs hs

from_utf8-as_bytes : (cs : List ℕ) → All IsChar cs → from_utf8 (as_bytes cs) ≡ some (as_bytes cs)
unfolding from_utf8 is_boundary
from_utf8-as_bytes cs h = rw (utf8_text cs h) refl

-- Text that is the bytes of characters none of which is a control character.
abbrev pub IsClean : List ℕ → Type 0
IsClean t = (cs : List ℕ) × (t ≡ as_bytes cs) × All (λ c. IsChar c × (is_control c ≡ false)) cs

unfoldable pub IsTyped : KeyboardEvent → Type 0
IsTyped (text t) = IsClean t
IsTyped (combo mods t) = IsClean t
IsTyped _ = Unit {0}

-- A payload the daemon makes one keyboard event of, whose text, if it has any, is clean; or none.
unfoldable pub IsKeyboard : Option (List ℕ) → Type 0
unfolding IsTyped
IsKeyboard none = Unit {0}
IsKeyboard (some p) =
    (e : KeyboardEvent) × (handle_control_message_data p ≡ keyboard e ∷ []) × IsTyped e

filtered_clean :
    (cs : List ℕ) → All IsChar cs → All (λ c. IsChar c × (is_control c ≡ false)) (filtered cs)
filtered_clean [] h = tt
filtered_clean (c ∷ cs) (h, hs) = elim (Bool-cases (is_control c)) [
  | inl e ↦ rw e (filtered_clean cs hs)
  | inr e ↦ rw e ((h, e), filtered_clean cs hs)
]

weaken : (cs : List ℕ) → All (λ c. IsChar c × (is_control c ≡ false)) cs → All IsChar cs
weaken [] h = tt
weaken (c ∷ cs) ((h, _), hs) = (h, weaken cs hs)

by_usage-IsKeyboard : (hid : Option ℕ) (pressed : Bool) → IsKeyboard (by_usage hid pressed)
unfolding by_usage IsKeyboard IsTyped send_raw_key handle_control_message_data send_event
    parse_rawkey_event
by_usage-IsKeyboard none pressed = tt
by_usage-IsKeyboard (some hid) pressed = (_, refl, tt)

IsSpoken : Option (List ℕ) → Type 0
IsSpoken none = Unit {0}
IsSpoken (some cs) = All (λ c. IsChar c × (is_control c ≡ false)) cs

unless_empty-IsSpoken :
    (cs : List ℕ) → All (λ c. IsChar c × (is_control c ≡ false)) cs → IsSpoken (unless_empty cs)
unfolding IsSpoken
unless_empty-IsSpoken [] h = tt
unless_empty-IsSpoken (c ∷ cs) h = h

-- A valid command that stands for a keyboard event.
command-IsKeyboard :
    (c : Command) (e : KeyboardEvent)
    → IsValid c
    → meaning c ≡ keyboard e ∷ []
    → IsTyped e
    → IsKeyboard (some (payload c))
unfolding IsKeyboard
command-IsKeyboard c e v m t = (e, handle_control_message_data-payload c v ∙ m, t)

press_key-IsKeyboard :
    (mods : ℕ) (code : Option ℕ) (t : Option (List ℕ))
    → IsSpoken t
    → IsKeyboard (press_key mods code t)
unfolding press_key IsSpoken payload meaning IsValid IsTyped IsKeyboard send_key_text
    send_key_special send_key_combo_text send_key_combo_special
press_key-IsKeyboard mods (some code) t h =
    if-preserves (λ p. IsKeyboard (some p)) (mods == 0)
      (command-IsKeyboard (key_special code) (special code) tt refl tt)
      (command-IsKeyboard (key_combo_special mods code) (special_combo mods code) tt refl tt)
press_key-IsKeyboard mods none (some cs) h =
    if-preserves (λ p. IsKeyboard (some p)) (mods == 0)
      (command-IsKeyboard (key_text (as_bytes cs)) (text (as_bytes cs)) valid refl clean)
      (command-IsKeyboard (key_combo_text mods (as_bytes cs)) (combo mods (as_bytes cs)) valid refl
        clean)
  where
    valid : from_utf8 (as_bytes cs) ≡ some (as_bytes cs)
    valid = from_utf8-as_bytes cs (weaken cs h)

    clean : IsClean (as_bytes cs)
    clean = (cs, refl, h)
press_key-IsKeyboard mods none none h = tt

plain_key-IsKeyboard :
    (key mods : ℕ) (code : Option ℕ) (t : Option (List ℕ)) (pressed : Bool)
    → IsSpoken t
    → IsKeyboard (plain_key key mods code t pressed)
unfolding plain_key IsKeyboard
plain_key-IsKeyboard key mods none none pressed h = by_usage-IsKeyboard (qt_key_to_hid key) pressed
plain_key-IsKeyboard key mods (some code) t true h = press_key-IsKeyboard mods (some code) t h
plain_key-IsKeyboard key mods (some code) t false h = tt
plain_key-IsKeyboard key mods none (some cs) true h = press_key-IsKeyboard mods none (some cs) h
plain_key-IsKeyboard key mods none (some cs) false h = tt

-- For every key, modifiers and text of characters, pressed or released, the client sends nothing
-- or a payload of which the daemon makes exactly one keyboard event; and where that event has
-- text, it is the UTF-8 of characters none of which is a control character.
send_qt_key_action-IsKeyboard :
    (key : ℕ) (t : List ℕ) (modifiers : ℕ) (pressed : Bool)
    → All IsChar t
    → IsKeyboard (send_qt_key_action key t modifiers pressed)
unfolding send_qt_key_action sanitize_key_text
send_qt_key_action-IsKeyboard key t modifiers pressed h =
    if-preserves IsKeyboard (qt_key_is_modifier key)
      (by_usage-IsKeyboard (qt_key_to_hid key) pressed)
      (plain_key-IsKeyboard key (qt_modifiers_to_combo modifiers key) (qt_key_to_special key)
        (sanitize_key_text t) pressed (unless_empty-IsSpoken (filtered t) (filtered_clean t h)))

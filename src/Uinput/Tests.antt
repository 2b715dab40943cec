-- ===== src/Uinput/Tests.antt =====
-- The theorems of the virtual devices on small inputs.
use screx_v.Prelude.{ℕ, ◌≡◌, refl, false, some, List, [], ◌∷◌, map, arith}
use screx_v.Input.{TouchContact}
use screx_v.Uinput.{ev_key, value_after}
use screx_v.Uinput.Keyboard.{
  KeyCall, key_text, key_special, key_text_with_modifiers, key_raw_hid, all_key_events,
}
use screx_v.Uinput.Gamepad.{GamepadState}
use screx_v.Uinput.Touchscreen.{VirtualTouchscreen, scale_contact, handle_contacts, touch}
use screx_v.Uinput.Held.{no_key_left_down}
use screx_v.Uinput.Slots.{Contact, all_placed, panel_after, handle_contacts-placed}
use screx_v.Uinput.Scaling.{touch_scales}

-- "aB", a character without a key, Ctrl with Enter, and A let go.
abbrev calls : List KeyCall
calls =
    key_text (97 ∷ 66 ∷ 233 ∷ [])
    ∷ key_special 2 1
    ∷ key_text_with_modifiers (99 ∷ []) 5
    ∷ key_raw_hid 4 false
    ∷ []

no_key_left_down_example : value_after (all_key_events calls) ev_key 29 0 ≡ 0
no_key_left_down_example = no_key_left_down calls 29 (tt, (tt, (tt, (refl, tt))))

abbrev pushed : GamepadState
pushed = record {
  buttons = 0x401;
  lx = 100;
  ly = 65436;
  rx = 0;
  ry = 0;
  lt = 255;
  rt = 0;
  hat_x = 1;
  hat_y = 0;
}

abbrev nothing : ℕ → ℕ → ℕ
nothing t c = 0

abbrev panel : VirtualTouchscreen
panel = record { width = 1920; height = 1080; current_slot = 0 }

abbrev contact : (slot event_type x y : ℕ) → TouchContact
contact slot event_type x y = record { slot = slot; event_type = event_type; x = x; y = y }

-- Two fingers go down, one moves, one goes up.
abbrev fingers : List TouchContact
fingers = contact 0 0 10 20 ∷ contact 1 0 30 40 ∷ contact 0 1 11 21 ∷ contact 1 2 30 40 ∷ []

abbrev no_finger : Contact
no_finger = record { tracking_id = 4294967295; x = 0; y = 0 }

handle_contacts-placed_example :
    panel_after 1 (handle_contacts fingers panel).1 (record { selected = 0; contact = no_finger })
    ≡ record {
      selected = (handle_contacts fingers panel).0.current_slot;
      contact = all_placed 1 1920 1080 fingers no_finger;
    }
handle_contacts-placed_example = handle_contacts-placed 1 fingers panel no_finger

touch_scales_example :
    touch (some (1280, 720)) fingers panel
    ≡ handle_contacts (map (scale_contact panel 1280 720) fingers) panel
touch_scales_example = touch_scales 1280 720 fingers panel (omega arith) (omega arith) (
  (omega arith, omega arith),
  ((omega arith, omega arith), ((omega arith, omega arith), ((omega arith, omega arith), tt))),
)

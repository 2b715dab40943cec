-- ===== src/Uinput/Gamepad.antt =====
-- VirtualGamepad and VirtualMouse of daemon/src/platform/linux/uinput.rs.
use screx_v.Prelude.{ℕ, ◌/◌, ◌%◌, List, [], ◌∷◌, ◌++◌, ◌==◌, if◌then◌else◌}
use screx_v.Uinput.{InputEvent, input_event, ev_rel, key, abs, syn_report}

-- The buttons in the order of the calls of `sync_button`: the code and the bit of the mask.
abbrev pub gamepad_buttons : List (ℕ × ℕ)
gamepad_buttons =
    (0x130, 0x1)
    ∷ (0x131, 0x2)
    ∷ (0x134, 0x4)
    ∷ (0x133, 0x8)
    ∷ (0x136, 0x10)
    ∷ (0x137, 0x20)
    ∷ (0x13D, 0x40)
    ∷ (0x13E, 0x80)
    ∷ (0x13A, 0x100)
    ∷ (0x13B, 0x200)
    ∷ (0x13C, 0x400)
    ∷ []

-- `mask & bit`, for a single bit: 1 when it is set.
unfoldable pub bit_of : (mask bit : ℕ) → ℕ
bit_of mask bit = mask / bit % 2

-- An event when the bit has changed.
unfoldable pub sync_button : (old_mask new_mask : ℕ) (button : ℕ × ℕ) → List InputEvent
unfolding bit_of
sync_button old_mask new_mask (code, bit) =
    if bit_of old_mask bit == bit_of new_mask bit then [] else key code (bit_of new_mask bit) ∷ []

unfoldable pub sync_buttons : (old_mask new_mask : ℕ) → List (ℕ × ℕ) → List InputEvent
unfolding sync_button
sync_buttons old_mask new_mask [] = []
sync_buttons old_mask new_mask (b ∷ bs) =
    sync_button old_mask new_mask b ++ sync_buttons old_mask new_mask bs

pub record GamepadState : Type 0 where
  pub buttons : ℕ
  pub lx : ℕ
  pub ly : ℕ
  pub rx : ℕ
  pub ry : ℕ
  pub lt : ℕ
  pub rt : ℕ
  pub hat_x : ℕ
  pub hat_y : ℕ

-- The axes, each with its code.
unfoldable pub axes : GamepadState → List InputEvent
axes st =
    abs 0x00 st.lx
    ∷ abs 0x01 st.ly
    ∷ abs 0x03 st.rx
    ∷ abs 0x04 st.ry
    ∷ abs 0x02 st.lt
    ∷ abs 0x05 st.rt
    ∷ abs 0x10 st.hat_x
    ∷ abs 0x11 st.hat_y
    ∷ syn_report
    ∷ []

-- The new mask of the device, and the events.
unfoldable pub set_state : (buttons_mask : ℕ) → GamepadState → ℕ × List InputEvent
unfolding sync_buttons axes
set_state buttons_mask st =
    (st.buttons, sync_buttons buttons_mask st.buttons gamepad_buttons ++ axes st)

abbrev pub at_rest : GamepadState
at_rest = record {
  buttons = 0;
  lx = 0;
  ly = 0;
  rx = 0;
  ry = 0;
  lt = 0;
  rt = 0;
  hat_x = 0;
  hat_y = 0;
}

unfoldable pub release_all : (buttons_mask : ℕ) → ℕ × List InputEvent
unfolding set_state
release_all buttons_mask = set_state buttons_mask at_rest

unfoldable pub set_states : (buttons_mask : ℕ) → List GamepadState → ℕ × List InputEvent
unfolding set_state
set_states buttons_mask [] = (buttons_mask, [])
set_states buttons_mask (st ∷ sts) =
    let done = set_state buttons_mask st in
    let rest = set_states done.0 sts in (rest.0, done.1 ++ rest.1)

-- The mouse: relative and absolute moves, the wheel, and the buttons. The middle button is pressed
-- and released at once.
unfoldable pub move_rel : (dx dy : ℕ) → List InputEvent
move_rel dx dy = input_event ev_rel 0x00 dx ∷ input_event ev_rel 0x01 dy ∷ syn_report ∷ []

unfoldable pub move_abs : (x y : ℕ) → List InputEvent
move_abs x y = abs 0x00 x ∷ abs 0x01 y ∷ syn_report ∷ []

unfoldable pub scroll : (dy : ℕ) → List InputEvent
scroll dy = input_event ev_rel 0x08 dy ∷ syn_report ∷ []

unfoldable pub button : (btn state : ℕ) → List InputEvent
button btn state =
    if btn == 2
    then (if state == 0 then [] else key 0x112 1 ∷ syn_report ∷ key 0x112 0 ∷ syn_report ∷ [])
    else if btn == 0
    then key 0x110 state ∷ syn_report ∷ []
    else if btn == 1
    then key 0x111 state ∷ syn_report ∷ []
    else []

unfoldable pub release_all_buttons : List InputEvent
release_all_buttons = key 0x110 0 ∷ key 0x111 0 ∷ key 0x112 0 ∷ syn_report ∷ []

-- ===== src/Uinput.antt =====
-- The virtual devices of daemon/src/platform/linux/uinput.rs: the events that LinuxInput writes for
-- touches, keys, mouse and gamepads. What a device writes is one list of events; the pauses between
-- batches, the creation of the devices and the time stamps are left out.
pub mod Chars
pub mod Keyboard
pub mod Touchscreen
pub mod Gamepad
pub mod Held
pub mod Buttons
pub mod Slots
pub mod Scaling
mod Tests
use screx_v.Prelude.{
  ℕ, Bool, true, false, ◌&&◌, Option, none, some, List, [], ◌∷◌, ◌++◌, ◌==◌, if◌then◌else◌,
}

-- `input_event`, its time left out. A negative value is its two's-complement bit pattern.
pub record InputEvent : Type 0 where
  pub type_ : ℕ
  pub code : ℕ
  pub value : ℕ

abbrev pub ev_syn : ℕ
ev_syn = 0x00

abbrev pub ev_key : ℕ
ev_key = 0x01

abbrev pub ev_rel : ℕ
ev_rel = 0x02

abbrev pub ev_abs : ℕ
ev_abs = 0x03

abbrev pub input_event : (type_ code value : ℕ) → InputEvent
input_event type_ code value = record { type_ = type_; code = code; value = value }

abbrev pub syn_report : InputEvent
syn_report = input_event ev_syn 0 0

abbrev pub key : (code value : ℕ) → InputEvent
key code value = input_event ev_key code value

abbrev pub abs : (code value : ℕ) → InputEvent
abs code value = input_event ev_abs code value

-- The value that a device has for a type and a code, after events: the last one that was written.
unfoldable pub value_after : List InputEvent → (type_ code before : ℕ) → ℕ
value_after [] type_ code before = before
value_after (e ∷ es) type_ code before =
    value_after es type_ code (if (e.type_ == type_) && (e.code == code) then e.value else before)

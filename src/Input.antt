-- ===== src/Input.antt =====
-- The input packets the daemon reads, after daemon/src/input.rs: touch, mouse and keyboard. A
-- string is its UTF-8 bytes; a signed field is its two's-complement bit pattern.
pub mod Hid
pub mod Dispatch
pub mod Client
pub mod Commands
pub mod Qt
pub mod Keys
pub mod Actions
mod Tests
use screx_v.Prelude.{
  ℕ, suc, zero, ◌+◌, ◌*◌, Bool, true, false, ◌&&◌, not, Option, none, some, List, [], ◌∷◌, length,
  ltb, leb, ◌==◌, if◌then◌else◌,
}
use screx_v.Bytes.{from_be16}
use mathlib.Core.Option as Option

pub record TouchContact : Type 0 where
  pub slot : ℕ
  pub event_type : ℕ
  pub x : ℕ
  pub y : ℕ

pub data MouseEvent : Type 0 where
  move_relative : (dx dy : ℕ) → MouseEvent
  move_absolute : (x y : ℕ) → MouseEvent
  button : (btn state : ℕ) → MouseEvent
  scroll : (dy : ℕ) → MouseEvent

pub data KeyboardEvent : Type 0 where
  text : List ℕ → KeyboardEvent
  special : ℕ → KeyboardEvent
  combo : (mods : ℕ) → List ℕ → KeyboardEvent
  special_combo : (mods code : ℕ) → KeyboardEvent
  raw : (usage state : ℕ) → KeyboardEvent

-- Where a reader of UTF-8 stands: between characters, or before so many more bytes of one, the
-- next of them between two bounds.
pub data Utf8 : Type 0 where
  boundary : Utf8
  inside : (more low high : ℕ) → Utf8
  invalid : Utf8

abbrev within : ℕ → ℕ → ℕ → Bool
within low high b = leb low b && leb b high

unfoldable pub utf8_lead : ℕ → Utf8
utf8_lead b =
    if ltb b 0x80
    then boundary
    else if within 0xC2 0xDF b
    then inside 1 0x80 0xBF
    else if b == 0xE0
    then inside 2 0xA0 0xBF
    else if b == 0xED
    then inside 2 0x80 0x9F
    else if within 0xE1 0xEF b
    then inside 2 0x80 0xBF
    else if b == 0xF0
    then inside 3 0x90 0xBF
    else if within 0xF1 0xF3 b
    then inside 3 0x80 0xBF
    else if b == 0xF4
    then inside 3 0x80 0x8F
    else invalid

unfoldable pub utf8_step : Utf8 → ℕ → Utf8
unfolding utf8_lead
utf8_step boundary b = utf8_lead b
utf8_step (inside zero low high) b = invalid
utf8_step (inside (suc zero) low high) b = if within low high b then boundary else invalid
utf8_step (inside (suc (suc n)) low high) b =
    if within low high b then inside (suc n) 0x80 0xBF else invalid
utf8_step invalid b = invalid

unfoldable pub utf8_run : Utf8 → List ℕ → Utf8
unfolding utf8_step
utf8_run s [] = s
utf8_run s (b ∷ bs) = utf8_run (utf8_step s b) bs

unfoldable pub is_boundary : Utf8 → Bool
is_boundary boundary = true
is_boundary (inside more low high) = false
is_boundary invalid = false

-- `String::from_utf8`.
unfoldable pub from_utf8 : List ℕ → Option (List ℕ)
unfolding is_boundary utf8_run
from_utf8 bs = if is_boundary (utf8_run boundary bs) then some bs else none

-- The contacts of eight bytes each, the last two of which are not read.
unfoldable pub read_contacts : ℕ → List ℕ → List TouchContact
unfolding from_be16
read_contacts (suc n) (s ∷ e ∷ xa ∷ xb ∷ ya ∷ yb ∷ _ ∷ _ ∷ rest) =
    record { slot = s; event_type = e; x = from_be16 xa xb; y = from_be16 ya yb }
    ∷ read_contacts n rest
read_contacts _ _ = []

unfoldable pub parse_touch_packet : List ℕ → List TouchContact
unfolding read_contacts
parse_touch_packet [] = []
parse_touch_packet (count ∷ contacts) =
    if ltb (length contacts) (count * 8) then [] else read_contacts count contacts

abbrev pub mouse_move : ℕ
mouse_move = 0x01

abbrev pub mouse_button : ℕ
mouse_button = 0x02

abbrev pub mouse_scroll : ℕ
mouse_scroll = 0x03

abbrev pub mouse_move_abs : ℕ
mouse_move_abs = 0x04

unfoldable pub two_fields : (ℕ → ℕ → MouseEvent) → List ℕ → Option MouseEvent
unfolding from_be16
two_fields event (a ∷ b ∷ c ∷ d ∷ _) = some (event (from_be16 a b) (from_be16 c d))
two_fields event _ = none

unfoldable pub button_fields : List ℕ → Option MouseEvent
button_fields (btn ∷ state ∷ _) = some (button btn state)
button_fields _ = none

unfoldable pub scroll_field : List ℕ → Option MouseEvent
unfolding from_be16
scroll_field (a ∷ b ∷ _) = some (scroll (from_be16 a b))
scroll_field _ = none

unfoldable pub parse_mouse_packet : List ℕ → Option MouseEvent
unfolding two_fields button_fields scroll_field
parse_mouse_packet [] = none
parse_mouse_packet (kind ∷ data') =
    if kind == mouse_move
    then two_fields move_relative data'
    else if kind == mouse_move_abs
    then two_fields move_absolute data'
    else if kind == mouse_button
    then button_fields data'
    else if kind == mouse_scroll
    then scroll_field data'
    else none

abbrev pub key_type_text : ℕ
key_type_text = 0x01

abbrev pub key_type_special : ℕ
key_type_special = 0x02

abbrev pub key_type_combo : ℕ
key_type_combo = 0x04

abbrev pub first : List ℕ → Option ℕ
first [] = none
first (x ∷ _) = some x

unfoldable pub parse_combo : List ℕ → Option KeyboardEvent
unfolding from_utf8
parse_combo (mods ∷ inner_type ∷ inner_payload) =
    if inner_type == key_type_text
    then Option.map (combo mods) (from_utf8 inner_payload)
    else if inner_type == key_type_special
    then Option.map (special_combo mods) (first inner_payload)
    else none
parse_combo _ = none

unfoldable pub parse_key_event : List ℕ → Option KeyboardEvent
unfolding from_utf8 parse_combo
parse_key_event [] = none
parse_key_event (key_type ∷ payload) =
    if key_type == key_type_text
    then Option.map text (from_utf8 payload)
    else if key_type == key_type_special
    then Option.map special (first payload)
    else if key_type == key_type_combo
    then parse_combo payload
    else none

unfoldable pub parse_rawkey_event : List ℕ → Option KeyboardEvent
unfolding from_be16
parse_rawkey_event (a ∷ b ∷ state ∷ _) = some (raw (from_be16 a b) state)
parse_rawkey_event _ = none

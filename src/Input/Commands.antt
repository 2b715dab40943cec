-- ===== src/Input/Commands.antt =====
-- What the daemon does with each payload the desktop client sends.
use screx_v.Prelude.{
  ℕ, ap, ap₂, lt→ltb, ◌∙◌, ◌/◌, ◌%◌, ◌^◌, ◌<◌, ◌≡◌, refl, Bool, true, false, some, List, [], ◌∷◌,
  arith, if◌then◌else◌,
}
use mathlib.Core.Option as Option
use screx_v.Bytes.{IsU16, from_be16, as_u16, from_be16-be16}
use screx_v.Input.{
  KeyboardEvent, text, special, combo, special_combo, raw, move_absolute, button, scroll, from_utf8,
  parse_key_event, parse_combo, parse_mouse_packet, parse_rawkey_event, two_fields, button_fields,
  scroll_field,
}
use screx_v.Input.Dispatch.{
  Effect, note_pli, force_idr, refresh_capture, speaker, microphone, enable_camera, disable_camera,
  keyboard, direct_mouse, mouse, switched, configure_camera, send_event, inject_mouse,
  handle_periph_packet_data, handle_control_message_data,
}
use screx_v.Input.Client.{
  flag_byte, send_raw_key, send_key_text, send_key_special, send_key_combo_text,
  send_key_combo_special, send_mouse_abs, send_mouse_button, send_mouse_scroll, send_pli,
  send_speaker_state, send_mic_state, send_peripheral_state, send_camera_config,
  send_camera_disable,
}

-- What the client can ask for, one constructor for each sender.
pub data Command : Type 0 where
  raw_key : ℕ → Bool → Command
  key_text : List ℕ → Command
  key_special : ℕ → Command
  key_combo_text : ℕ → List ℕ → Command
  key_combo_special : ℕ → ℕ → Command
  mouse_abs : ℕ → ℕ → Command
  press : ℕ → Bool → Command
  wheel : ℕ → Command
  pli : Command
  speaker_state : Bool → Command
  mic_state : Bool → Command
  mouse_attached : Bool → Command
  keyboard_attached : Bool → Command
  camera_config : ℕ → ℕ → ℕ → Command
  camera_off : Command

unfoldable pub payload : Command → List ℕ
unfolding send_raw_key send_key_text send_key_special send_key_combo_text send_key_combo_special
    send_mouse_abs send_mouse_button send_mouse_scroll send_pli send_speaker_state send_mic_state
    send_peripheral_state send_camera_config send_camera_disable
payload (raw_key usage pressed) = send_raw_key usage pressed
payload (key_text t) = send_key_text t
payload (key_special code) = send_key_special code
payload (key_combo_text mods t) = send_key_combo_text mods t
payload (key_combo_special mods code) = send_key_combo_special mods code
payload (mouse_abs x y) = send_mouse_abs x y
payload (press btn pressed) = send_mouse_button btn pressed
payload (wheel dy) = send_mouse_scroll dy
payload pli = send_pli
payload (speaker_state on) = send_speaker_state on
payload (mic_state on) = send_mic_state on
payload (mouse_attached on) = send_peripheral_state 1 on
payload (keyboard_attached on) = send_peripheral_state 2 on
payload (camera_config w h fps) = send_camera_config w h fps
payload camera_off = send_camera_disable

-- The fields have the widths of the source, text is UTF-8, and a camera's size and rate are not 0.
unfoldable pub IsValid : Command → Type 0
IsValid (raw_key usage pressed) = IsU16 usage
IsValid (key_text t) = from_utf8 t ≡ some t
IsValid (key_combo_text mods t) = from_utf8 t ≡ some t
IsValid (mouse_abs x y) = IsU16 x × IsU16 y
IsValid (wheel dy) = IsU16 dy
IsValid (camera_config w h fps) = (0 < w) × IsU16 w × (0 < h) × IsU16 h × (0 < fps) × IsU16 fps
IsValid _ = Unit {0}

-- What the daemon is to do for it.
unfoldable pub meaning : Command → List Effect
meaning (raw_key usage pressed) = keyboard (raw usage (flag_byte pressed)) ∷ []
meaning (key_text t) = keyboard (text t) ∷ []
meaning (key_special code) = keyboard (special code) ∷ []
meaning (key_combo_text mods t) = keyboard (combo mods t) ∷ []
meaning (key_combo_special mods code) = keyboard (special_combo mods code) ∷ []
meaning (mouse_abs x y) = direct_mouse true ∷ mouse (move_absolute x y) ∷ []
meaning (press btn pressed) = direct_mouse true ∷ mouse (button btn (flag_byte pressed)) ∷ []
meaning (wheel dy) = direct_mouse true ∷ mouse (scroll dy) ∷ []
meaning pli = note_pli ∷ force_idr ∷ refresh_capture ∷ []
meaning (speaker_state on) = speaker on ∷ []
meaning (mic_state on) = microphone on ∷ []
meaning (mouse_attached on) = direct_mouse on ∷ []
meaning (keyboard_attached on) = []
meaning (camera_config w h fps) = enable_camera w h fps ∷ []
meaning camera_off = disable_camera ∷ []

field : (n : ℕ) → IsU16 n → from_be16 (n / 2 ^ 8 % 2 ^ 8) (n % 2 ^ 8) ≡ n
field n h = from_be16-be16 n ∙ omega arith

cut : (n : ℕ) → IsU16 n → from_be16 (as_u16 n / 2 ^ 8 % 2 ^ 8) (as_u16 n % 2 ^ 8) ≡ n
cut n h = from_be16-be16 (as_u16 n) ∙ omega arith

-- The body of a text is never empty, and is the text.
sent :
    (event : List ℕ → KeyboardEvent) (t : List ℕ) (b : Bool)
    → b ≡ true
    → from_utf8 t ≡ some t
    → (if b then send_event (Option.map event (from_utf8 t)) else []) ≡ keyboard (event t) ∷ []
unfolding send_event
sent event t b hb v = rw (hb, v) refl

-- The client's payloads are taken apart as they were meant: for fields in range, text that is
-- UTF-8 and a camera of positive size and rate, the daemon's handler makes of what each sender
-- sends exactly the calls the command stands for, with the same fields.
pub handle_control_message_data-payload :
    (c : Command) → IsValid c → handle_control_message_data (payload c) ≡ meaning c
unfolding payload IsValid meaning send_raw_key send_key_text send_key_special send_key_combo_text
    send_key_combo_special send_mouse_abs send_mouse_button send_mouse_scroll send_pli
    send_speaker_state send_mic_state send_peripheral_state send_camera_config send_camera_disable
    handle_control_message_data switched configure_camera send_event inject_mouse
    handle_periph_packet_data parse_key_event parse_combo parse_mouse_packet parse_rawkey_event
    two_fields button_fields scroll_field
handle_control_message_data-payload (raw_key usage pressed) v =
    ap (λ u. keyboard (raw u (flag_byte pressed)) ∷ []) (field usage v)
handle_control_message_data-payload (key_text t) v = sent text t _ (lt→ltb 3 _ (omega arith)) v
handle_control_message_data-payload (key_special code) v = refl
handle_control_message_data-payload (key_combo_text mods t) v =
    sent (combo mods) t _ (lt→ltb 3 _ (omega arith)) v
handle_control_message_data-payload (key_combo_special mods code) v = refl
handle_control_message_data-payload (mouse_abs x y) (hx, hy) =
    ap₂ (λ a b. direct_mouse true ∷ mouse (move_absolute a b) ∷ []) (field x hx) (field y hy)
handle_control_message_data-payload (press btn pressed) v = refl
handle_control_message_data-payload (wheel dy) v =
    ap (λ d. direct_mouse true ∷ mouse (scroll d) ∷ []) (field dy v)
handle_control_message_data-payload pli v = refl
handle_control_message_data-payload (speaker_state true) v = refl
handle_control_message_data-payload (speaker_state false) v = refl
handle_control_message_data-payload (mic_state true) v = refl
handle_control_message_data-payload (mic_state false) v = refl
handle_control_message_data-payload (mouse_attached true) v = refl
handle_control_message_data-payload (mouse_attached false) v = refl
handle_control_message_data-payload (keyboard_attached true) v = refl
handle_control_message_data-payload (keyboard_attached false) v = refl
handle_control_message_data-payload (camera_config w h fps) (pw, bw, ph, bh, pf, bf) =
    rw (cut w bw, cut h bh, cut fps bf, lt→ltb 0 w pw, lt→ltb 0 h ph, lt→ltb 0 fps pf) refl
handle_control_message_data-payload camera_off v = refl

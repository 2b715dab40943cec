-- ===== src/Input/Dispatch.antt =====
-- What the daemon does with the payload of a control frame, after handle_control_message_data,
-- handle_periph_packet_data and handle_gamepad_packet_data of daemon/src/stream_server.rs. The
-- devices are outside the model: a payload gives the list of calls made on them.
use screx_v.Prelude.{
  ℕ, ◌+◌, Bool, true, false, ◌&&◌, not, Option, none, some, List, [], ◌∷◌, length, drop, ltb, ◌==◌,
  if◌then◌else◌,
}
use screx_v.Bytes.{from_be16, starts_with}
use screx_v.Input.{
  TouchContact, MouseEvent, KeyboardEvent, parse_touch_packet, parse_mouse_packet, parse_key_event,
  parse_rawkey_event,
}

pub record GamepadState : Type 0 where
  buttons : ℕ
  lx : ℕ
  ly : ℕ
  rx : ℕ
  ry : ℕ
  lt : ℕ
  rt : ℕ
  hat_x : ℕ
  hat_y : ℕ

-- The calls on the rest of the daemon. `keyboard` is `KeyboardWorker::send`, made where there is
-- a worker, `refresh_capture` the store to `force_refresh_handle`, made where there is a capture.
pub data Effect : Type 0 where
  note_pli : Effect
  force_idr : Effect
  refresh_capture : Effect
  apply_settings : List ℕ → Effect
  speaker : Bool → Effect
  microphone : Bool → Effect
  enable_camera : (width height fps : ℕ) → Effect
  disable_camera : Effect
  touch : List TouchContact → Effect
  keyboard : KeyboardEvent → Effect
  direct_mouse : Bool → Effect
  mouse : MouseEvent → Effect
  gamepad_attach : ℕ → Effect
  gamepad_detach : ℕ → Effect
  gamepad_state : ℕ → GamepadState → Effect

abbrev pub pli_magic : List ℕ
pli_magic = 80 ∷ 76 ∷ 73 ∷ []

abbrev pub stng_magic : List ℕ
stng_magic = 83 ∷ 84 ∷ 78 ∷ 71 ∷ []

abbrev pub speaker_magic : List ℕ
speaker_magic = 83 ∷ 80 ∷ 75 ∷ 82 ∷ []

abbrev pub miccfg_magic : List ℕ
miccfg_magic = 77 ∷ 73 ∷ 67 ∷ 67 ∷ 70 ∷ 71 ∷ []

abbrev pub camcfg_magic : List ℕ
camcfg_magic = 67 ∷ 65 ∷ 77 ∷ 67 ∷ 70 ∷ 71 ∷ []

abbrev pub touch_magic : List ℕ
touch_magic = 84 ∷ 79 ∷ 85 ∷ 67 ∷ 72 ∷ []

abbrev pub key_magic : List ℕ
key_magic = 75 ∷ 69 ∷ 89 ∷ []

abbrev pub mouse_magic : List ℕ
mouse_magic = 77 ∷ 79 ∷ 85 ∷ 83 ∷ 69 ∷ []

abbrev pub rawkey_magic : List ℕ
rawkey_magic = 82 ∷ 65 ∷ 87 ∷ 75 ∷ 69 ∷ 89 ∷ []

abbrev pub periph_magic : List ℕ
periph_magic = 80 ∷ 69 ∷ 82 ∷ 73 ∷ 80 ∷ 72 ∷ []

abbrev pub gpad_magic : List ℕ
gpad_magic = 71 ∷ 80 ∷ 65 ∷ 68 ∷ []

-- A message of one kind with a body that is not empty, and with a body of one length.
abbrev has_body : List ℕ → List ℕ → Bool
has_body ctrl magic = starts_with ctrl magic && ltb (length magic) (length ctrl)

abbrev has_sized_body : List ℕ → List ℕ → ℕ → Bool
has_sized_body ctrl magic n = starts_with ctrl magic && (length ctrl == length magic + n)

unfoldable pub handle_periph_packet_data : List ℕ → List Effect
handle_periph_packet_data (device_type ∷ state ∷ _) =
    if (device_type == 1) && (state == 1)
    then direct_mouse true ∷ []
    else if (device_type == 1) && (state == 0)
    then direct_mouse false ∷ []
    else []
handle_periph_packet_data _ = []

unfoldable pub gamepad_fields : ℕ → List ℕ → List Effect
unfolding from_be16
gamepad_fields id
      (b1 ∷ b2 ∷ x1 ∷ x2 ∷ y1 ∷ y2 ∷ u1 ∷ u2 ∷ v1 ∷ v2 ∷ l1 ∷ l2 ∷ r1 ∷ r2 ∷ hx ∷ hy ∷ _) =
    gamepad_state id (record {
      buttons = from_be16 b1 b2;
      lx = from_be16 x1 x2;
      ly = from_be16 y1 y2;
      rx = from_be16 u1 u2;
      ry = from_be16 v1 v2;
      lt = from_be16 l1 l2;
      rt = from_be16 r1 r2;
      hat_x = hx;
      hat_y = hy;
    })
    ∷ []
gamepad_fields id _ = []

unfoldable pub handle_gamepad_packet_data : List ℕ → List Effect
unfolding gamepad_fields
handle_gamepad_packet_data (controller_id ∷ msg_type ∷ fields) =
    if msg_type == 1
    then gamepad_attach controller_id ∷ []
    else if msg_type == 0
    then gamepad_detach controller_id ∷ []
    else if msg_type == 2
    then gamepad_fields controller_id fields
    else []
handle_gamepad_packet_data _ = []

-- The switches and the camera's configuration, of bodies whose length has been tested.
unfoldable pub switched : (Bool → Effect) → List ℕ → List Effect
switched effect (flag ∷ _) = effect (not (flag == 0)) ∷ []
switched effect [] = []

unfoldable pub configure_camera : List ℕ → List Effect
unfolding from_be16
configure_camera (w1 ∷ w2 ∷ h1 ∷ h2 ∷ f1 ∷ f2 ∷ _) =
    if ltb 0 (from_be16 w1 w2) && (ltb 0 (from_be16 h1 h2) && ltb 0 (from_be16 f1 f2))
    then enable_camera (from_be16 w1 w2) (from_be16 h1 h2) (from_be16 f1 f2) ∷ []
    else disable_camera ∷ []
configure_camera _ = []

unfoldable pub send_event : Option KeyboardEvent → List Effect
send_event none = []
send_event (some event) = keyboard event ∷ []

unfoldable pub inject_mouse : Option MouseEvent → List Effect
inject_mouse none = []
inject_mouse (some event) = direct_mouse true ∷ mouse event ∷ []

unfoldable pub handle_control_message_data : List ℕ → List Effect
unfolding switched configure_camera parse_touch_packet parse_key_event parse_mouse_packet
    parse_rawkey_event send_event inject_mouse handle_periph_packet_data handle_gamepad_packet_data
handle_control_message_data ctrl =
    if starts_with ctrl pli_magic
    then note_pli ∷ force_idr ∷ refresh_capture ∷ []
    else if starts_with ctrl stng_magic
    then apply_settings (drop 4 ctrl) ∷ []
    else if has_sized_body ctrl speaker_magic 1
    then switched speaker (drop 4 ctrl)
    else if has_sized_body ctrl miccfg_magic 1
    then switched microphone (drop 6 ctrl)
    else if has_sized_body ctrl camcfg_magic 6
    then configure_camera (drop 6 ctrl)
    else if has_body ctrl touch_magic
    then touch (parse_touch_packet (drop 5 ctrl)) ∷ []
    else if has_body ctrl key_magic
    then send_event (parse_key_event (drop 3 ctrl))
    else if has_body ctrl mouse_magic
    then inject_mouse (parse_mouse_packet (drop 5 ctrl))
    else if has_body ctrl rawkey_magic
    then send_event (parse_rawkey_event (drop 6 ctrl))
    else if has_body ctrl periph_magic
    then handle_periph_packet_data (drop 6 ctrl)
    else if has_body ctrl gpad_magic
    then handle_gamepad_packet_data (drop 4 ctrl)
    else []

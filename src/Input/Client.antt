-- ===== src/Input/Client.antt =====
-- The payloads the desktop client sends, after client/desktop/src/input.rs and the senders of
-- ControlSender in client/desktop/src/backend.rs. Text is its UTF-8 bytes.
use screx_v.Prelude.{ℕ, Bool, List, [], ◌∷◌, ◌++◌, if◌then◌else◌}
use screx_v.Bytes.{be16, as_u16}
use screx_v.Input.Dispatch.{
  pli_magic, speaker_magic, miccfg_magic, camcfg_magic, key_magic, mouse_magic, rawkey_magic,
  periph_magic,
}

-- `u8::from` of a flag.
abbrev pub flag_byte : Bool → ℕ
flag_byte b = if b then 1 else 0

unfoldable pub send_raw_key : ℕ → Bool → List ℕ
send_raw_key hid_usage pressed = rawkey_magic ++ be16 hid_usage ++ flag_byte pressed ∷ []

unfoldable pub send_key_text : List ℕ → List ℕ
send_key_text text = key_magic ++ 0x01 ∷ text

unfoldable pub send_key_special : ℕ → List ℕ
send_key_special code = key_magic ++ 0x02 ∷ code ∷ []

unfoldable pub send_key_combo_text : ℕ → List ℕ → List ℕ
send_key_combo_text mods text = key_magic ++ 0x04 ∷ mods ∷ 0x01 ∷ text

unfoldable pub send_key_combo_special : ℕ → ℕ → List ℕ
send_key_combo_special mods code = key_magic ++ 0x04 ∷ mods ∷ 0x02 ∷ code ∷ []

unfoldable pub send_mouse_abs : ℕ → ℕ → List ℕ
send_mouse_abs x y = mouse_magic ++ 0x04 ∷ be16 x ++ be16 y

unfoldable pub send_mouse_button : ℕ → Bool → List ℕ
send_mouse_button button pressed = mouse_magic ++ 0x02 ∷ button ∷ flag_byte pressed ∷ []

unfoldable pub send_mouse_scroll : ℕ → List ℕ
send_mouse_scroll dy = mouse_magic ++ 0x03 ∷ be16 dy

unfoldable pub send_pli : List ℕ
send_pli = pli_magic

unfoldable pub send_speaker_state : Bool → List ℕ
send_speaker_state enabled = speaker_magic ++ flag_byte enabled ∷ []

unfoldable pub send_mic_state : Bool → List ℕ
send_mic_state enabled = miccfg_magic ++ flag_byte enabled ∷ []

unfoldable pub send_peripheral_state : ℕ → Bool → List ℕ
send_peripheral_state periph attached = periph_magic ++ periph ∷ flag_byte attached ∷ []

unfoldable pub send_camera_config : (width height fps : ℕ) → List ℕ
send_camera_config width height fps =
    camcfg_magic ++ be16 (as_u16 width) ++ be16 (as_u16 height) ++ be16 (as_u16 fps)

unfoldable pub send_camera_disable : List ℕ
send_camera_disable = camcfg_magic ++ 0 ∷ 0 ∷ 0 ∷ 0 ∷ 0 ∷ 0 ∷ []

-- ===== src/Input/Tests.antt =====
-- Runs of the theorems on input.
use screx_v.Prelude.{◌≡◌, refl, some, [], ◌∷◌}
use screx_v.Input.Hid.{hid_to_evdev, lookup}
use screx_v.Input.Dispatch.{handle_control_message_data}
use screx_v.Input.{utf8_run, utf8_step, utf8_lead, is_boundary, from_utf8}
use screx_v.Input.Commands.{
  key_combo_text, payload, meaning, IsValid, handle_control_message_data-payload,
}
use screx_v.Input.Qt.{qt_key_to_hid}

-- Ctrl and é.
valid : IsValid (key_combo_text 1 (0xC3 ∷ 0xA9 ∷ []))
unfolding IsValid from_utf8 utf8_run utf8_step utf8_lead is_boundary
valid = refl

handle_control_message_data-payload_example :
    handle_control_message_data (payload (key_combo_text 1 (0xC3 ∷ 0xA9 ∷ [])))
    ≡ meaning (key_combo_text 1 (0xC3 ∷ 0xA9 ∷ []))
handle_control_message_data-payload_example =
    handle_control_message_data-payload (key_combo_text 1 (0xC3 ∷ 0xA9 ∷ [])) valid

letter_a : hid_to_evdev 0x04 ≡ some 30
unfolding hid_to_evdev lookup
letter_a = refl

sent_a : qt_key_to_hid 0x41 ≡ some 0x04
unfolding qt_key_to_hid
sent_a = refl

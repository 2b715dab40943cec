-- ===== src/Uinput/Touchscreen.antt =====
-- VirtualTouchscreen of daemon/src/platform/linux/uinput.rs, and LinuxInput's scaling of contacts
-- from the size of the stream to that of the device.
use screx_v.Prelude.{
  ℕ, ◌+◌, ◌-◌, ◌*◌, ◌/◌, ◌%◌, ◌^◌, min, ◌&&◌, ◌||◌, Option, none, some, List, [], ◌∷◌, ◌++◌, map,
  leb, ◌==◌, if◌then◌else◌,
}
use screx_v.Input.{TouchContact}
use screx_v.Uinput.{InputEvent, key, abs, syn_report}

-- The device file is left out.
pub record VirtualTouchscreen : Type 0 where
  pub width : ℕ
  pub height : ℕ
  pub current_slot : ℕ

abbrev pub max_slots : ℕ
max_slots = 10

abbrev pub abs_mt_slot : ℕ
abs_mt_slot = 0x2f

abbrev pub abs_mt_position_x : ℕ
abs_mt_position_x = 0x35

abbrev pub abs_mt_position_y : ℕ
abs_mt_position_y = 0x36

abbrev pub abs_mt_tracking_id : ℕ
abs_mt_tracking_id = 0x39

abbrev pub btn_touch : ℕ
btn_touch = 0x14a

-- The identifier -1, which ends a contact.
abbrev pub no_contact : ℕ
no_contact = 4294967295

unfoldable pub touch_events : (event_type slot x y : ℕ) → List InputEvent
touch_events event_type slot x y =
    if event_type == 0
    then abs abs_mt_tracking_id slot
      ∷ abs abs_mt_position_x x
      ∷ abs abs_mt_position_y y
      ∷ key btn_touch 1
      ∷ abs 0x00 x
      ∷ abs 0x01 y
      ∷ []
    else if event_type == 1
    then abs abs_mt_position_x x ∷ abs abs_mt_position_y y ∷ abs 0x00 x ∷ abs 0x01 y ∷ []
    else if event_type == 2
    then abs abs_mt_tracking_id no_contact ∷ []
    else []

-- The slot is written only when it is another than the last one.
unfoldable pub send_touch : TouchContact → VirtualTouchscreen → VirtualTouchscreen × List InputEvent
unfolding touch_events
send_touch c ts =
    let slot = min c.slot (max_slots - 1) in
    let x = min c.x (ts.width - 1) in
    let y = min c.y (ts.height - 1) in
    (
      record ts { current_slot = slot },
      (if ts.current_slot == slot then [] else abs abs_mt_slot slot ∷ [])
          ++ touch_events c.event_type slot x y,
    )

unfoldable pub send_touches :
    List TouchContact → VirtualTouchscreen → VirtualTouchscreen × List InputEvent
unfolding send_touch
send_touches [] ts = (ts, [])
send_touches (c ∷ cs) ts =
    let sent = send_touch c ts in let rest = send_touches cs sent.0 in (rest.0, sent.1 ++ rest.1)

unfoldable pub handle_contacts :
    List TouchContact → VirtualTouchscreen → VirtualTouchscreen × List InputEvent
unfolding send_touches
handle_contacts cs ts = ((send_touches cs ts).0, (send_touches cs ts).1 ++ (syn_report ∷ []))

-- Division as the source uses it, by a number that is not zero.
unfoldable pub scale : (v src dst : ℕ) → ℕ
scale v src dst =
    if leb src 1 || leb dst 1
    then v
    else min ((v * (dst - 1) + (src - 1) / 2) / (src - 1)) (dst - 1) % 2 ^ 16

unfoldable pub scale_contact :
    VirtualTouchscreen → (session_w session_h : ℕ) → TouchContact → TouchContact
unfolding scale
scale_contact ts session_w session_h c = record c {
  x = scale c.x session_w ts.width;
  y = scale c.y session_h ts.height;
}

-- `LinuxInput::touch`: contacts are scaled when the session's size is another than the device's.
unfoldable pub touch :
    (session_size : Option (ℕ × ℕ))
    → List TouchContact
    → VirtualTouchscreen
    → VirtualTouchscreen × List InputEvent
unfolding handle_contacts scale_contact
touch none cs ts = handle_contacts cs ts
touch (some (sw, sh)) cs ts =
    if (sw == ts.width) && (sh == ts.height)
    then handle_contacts cs ts
    else handle_contacts (map (scale_contact ts sw sh) cs) ts

-- ===== src/Uinput/Slots.antt =====
-- What the kernel makes of the touchscreen's events: the protocol of slots, in which a position or an
-- identifier belongs to the slot that was written last.
use screx_v.Prelude.{
  if-preserves, ℕ, ◌-◌, ◌≡◌, refl, ap, ◌∙◌, min, List, [], ◌∷◌, ◌++◌, arith, ◌==◌, if◌then◌else◌,
  Bool-cases, inl, inr,
}
use screx_v.Input.{TouchContact}
use screx_v.Uinput.{InputEvent, ev_abs, ev_key, abs, syn_report, value_after}
use screx_v.Uinput.Touchscreen.{
  VirtualTouchscreen, max_slots, abs_mt_slot, abs_mt_tracking_id, abs_mt_position_x,
  abs_mt_position_y, btn_touch, no_contact, touch_events, send_touch, send_touches, handle_contacts,
}
use screx_v.Uinput.Held.{value_after-append}

-- One slot of the panel: the contact's identifier, and where it is.
pub record Contact : Type 0 where
  pub tracking_id : ℕ
  pub x : ℕ
  pub y : ℕ

-- The kernel's selected slot, and what it has for the slot `k`.
pub record Panel : Type 0 where
  pub selected : ℕ
  pub contact : Contact

-- What an event says of the contact in the selected slot.
unfoldable pub update : InputEvent → Contact → Contact
update e c =
    if e.code == abs_mt_tracking_id
    then record c { tracking_id = e.value }
    else if e.code == abs_mt_position_x
    then record c { x = e.value }
    else if e.code == abs_mt_position_y
    then record c { y = e.value }
    else c

unfoldable pub absorb : (k : ℕ) → InputEvent → Panel → Panel
unfolding update
absorb k e p =
    if e.type_ == ev_abs
    then if e.code == abs_mt_slot
      then record p { selected = e.value }
      else if p.selected == k
      then record p { contact = update e p.contact }
      else p
    else p

-- The panel's slot `k` after events.
unfoldable pub panel_after : (k : ℕ) → List InputEvent → Panel → Panel
unfolding absorb
panel_after k [] p = p
panel_after k (e ∷ es) p = panel_after k es (absorb k e p)

panel_after-append :
    (k : ℕ) (xs ys : List InputEvent) (p : Panel)
    → panel_after k (xs ++ ys) p ≡ panel_after k ys (panel_after k xs p)
unfolding panel_after
panel_after-append k [] ys p = refl
panel_after-append k (x ∷ xs) ys p = panel_after-append k xs ys (absorb k x p)

-- What a contact of the client does to the slot `k`: only its own slot, cut at the last one, and a
-- position cut at the device's edge.
unfoldable pub placed : (k width height : ℕ) → TouchContact → Contact → Contact
placed k width height c here =
    if min c.slot (max_slots - 1) == k
    then if c.event_type == 0
      then record {
        tracking_id = min c.slot (max_slots - 1);
        x = min c.x (width - 1);
        y = min c.y (height - 1);
      }
      else if c.event_type == 1
      then record here { x = min c.x (width - 1); y = min c.y (height - 1) }
      else if c.event_type == 2
      then record here { tracking_id = no_contact }
      else here
    else here

unfoldable pub all_placed : (k width height : ℕ) → List TouchContact → Contact → Contact
unfolding placed
all_placed k width height [] here = here
all_placed k width height (c ∷ cs) here =
    all_placed k width height cs (placed k width height c here)

touch_events-placed :
    (k slot x y : ℕ) (event_type : ℕ) (here : Contact)
    → panel_after k (touch_events event_type slot x y) (record { selected = slot; contact = here })
      ≡ record {
        selected = slot;
        contact =
            if slot == k
            then if event_type == 0
              then record { tracking_id = slot; x = x; y = y }
              else if event_type == 1
              then record here { x = x; y = y }
              else if event_type == 2
              then record here { tracking_id = no_contact }
              else here
            else here;
      }
unfolding touch_events panel_after absorb update
touch_events-placed k slot x y event_type here = ground arith

send_touch-placed :
    (k : ℕ) (c : TouchContact) (ts : VirtualTouchscreen) (here : Contact)
    → panel_after k (send_touch c ts).1 (record { selected = ts.current_slot; contact = here })
      ≡ record {
        selected = (send_touch c ts).0.current_slot;
        contact = placed k ts.width ts.height c here;
      }
unfolding send_touch placed panel_after absorb
send_touch-placed k c ts here =
    panel_after-append k (if ts.current_slot == slot then [] else abs abs_mt_slot slot ∷ [])
      (touch_events c.event_type slot x y) start
    ∙ ap (panel_after k (touch_events c.event_type slot x y)) selects
    ∙ touch_events-placed k slot x y c.event_type here
  where
    slot : ℕ
    slot = min c.slot (max_slots - 1)

    x : ℕ
    x = min c.x (ts.width - 1)

    y : ℕ
    y = min c.y (ts.height - 1)

    start : Panel
    start = record { selected = ts.current_slot; contact = here }

    selects :
        panel_after k
          (if ts.current_slot == slot then [] else abs abs_mt_slot slot ∷ [])
          (record { selected = ts.current_slot; contact = here })
        ≡ record { selected = slot; contact = here }
    selects = elim (Bool-cases (ts.current_slot == slot)) [
      | inl e ↦
          ap (λ b. panel_after k (if b then [] else abs abs_mt_slot slot ∷ []) start) e
          ∙ ap (λ n. record { selected = n; contact = here }) (ground arith)
      | inr e ↦ ap (λ b. panel_after k (if b then [] else abs abs_mt_slot slot ∷ []) start) e
    ]

send_touches-placed :
    (k : ℕ) (cs : List TouchContact) (ts : VirtualTouchscreen) (here : Contact)
    → panel_after k (send_touches cs ts).1 (record { selected = ts.current_slot; contact = here })
      ≡ record {
        selected = (send_touches cs ts).0.current_slot;
        contact = all_placed k ts.width ts.height cs here;
      }
unfolding send_touches all_placed panel_after send_touch
send_touches-placed k [] ts here = refl
send_touches-placed k (c ∷ cs) ts here =
    panel_after-append k (send_touch c ts).1 (send_touches cs (send_touch c ts).0).1
      (record { selected = ts.current_slot; contact = here })
    ∙ ap (panel_after k (send_touches cs (send_touch c ts).0).1) (send_touch-placed k c ts here)
    ∙ send_touches-placed k cs (send_touch c ts).0 (placed k ts.width ts.height c here)

-- The kernel sees the client's contacts as they are meant: when its selected slot is the one that the
-- device keeps in mind, then after the events of any contacts it is so again, and every slot has what
-- the contacts of that slot, one after another, put there: a touch that goes down its identifier and
-- its position, one that moves its position, one that goes up the end. A slot past the last is the
-- last, and a position past the edge is on it.
pub handle_contacts-placed :
    (k : ℕ) (cs : List TouchContact) (ts : VirtualTouchscreen) (here : Contact)
    → panel_after k
        (handle_contacts cs ts).1
        (record { selected = ts.current_slot; contact = here })
      ≡ record {
        selected = (handle_contacts cs ts).0.current_slot;
        contact = all_placed k ts.width ts.height cs here;
      }
unfolding handle_contacts panel_after absorb
handle_contacts-placed k cs ts here =
    panel_after-append k (send_touches cs ts).1 (syn_report ∷ [])
      (record { selected = ts.current_slot; contact = here })
    ∙ send_touches-placed k cs ts here

touch_events-held :
    (event_type slot x y : ℕ)
    → value_after (touch_events event_type slot x y) ev_key btn_touch 1 ≡ 1
unfolding touch_events value_after
touch_events-held event_type slot x y = ground arith

send_touch-held :
    (c : TouchContact) (ts : VirtualTouchscreen)
    → value_after (send_touch c ts).1 ev_key btn_touch 1 ≡ 1
unfolding send_touch value_after
send_touch-held c ts =
    let slot = min c.slot (max_slots - 1) in
    let x = min c.x (ts.width - 1) in
    let y = min c.y (ts.height - 1) in
    value_after-append (if ts.current_slot == slot then [] else abs abs_mt_slot slot ∷ [])
      (touch_events c.event_type slot x y) ev_key btn_touch 1
    ∙ ap (value_after (touch_events c.event_type slot x y) ev_key btn_touch) (
        if-preserves (λ es. value_after es ev_key btn_touch 1 ≡ 1) (ts.current_slot == slot) refl
          refl)
    ∙ touch_events-held c.event_type slot x y

send_touches-held :
    (cs : List TouchContact) (ts : VirtualTouchscreen)
    → value_after (send_touches cs ts).1 ev_key btn_touch 1 ≡ 1
unfolding send_touches value_after
send_touches-held [] ts = refl
send_touches-held (c ∷ cs) ts =
    value_after-append (send_touch c ts).1 (send_touches cs (send_touch c ts).0).1 ev_key btn_touch
      1
    ∙ ap (value_after (send_touches cs (send_touch c ts).0).1 ev_key btn_touch)
        (send_touch-held c ts)
    ∙ send_touches-held cs (send_touch c ts).0

-- Once BTN_TOUCH is down it stays down, whatever contacts come, those that go up among them.
touch_never_released :
    (cs : List TouchContact) (ts : VirtualTouchscreen)
    → value_after (handle_contacts cs ts).1 ev_key btn_touch 1 ≡ 1
unfolding handle_contacts value_after
touch_never_released cs ts =
    value_after-append (send_touches cs ts).1 (syn_report ∷ []) ev_key btn_touch 1
    ∙ send_touches-held cs ts
